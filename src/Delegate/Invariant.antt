-- ===== src/Delegate/Invariant.antt =====
-- The buffer that callers read agrees with the listeners, and what they call is what is subscribed.
use mathlib.Core.List.{map-append}
use cpp_essence.Prelude.{
  ℕ, ◌≡◌, refl, ap, ◌∙◌, true, false, List, [], ◌∷◌, ◌++◌, map, Option, none, some, arith,
  append_assoc,
}
use cpp_essence.Delegate.{
  Delegate, result_of, past_end, add_listener, has_id, erase_id, remove_listener, called,
  try_invoke, invoke_slot, try_invoke_result,
}

module _ {ℓ} {F : Type ℓ} where
  abbrev pub functions : List (ℕ × Option F) → List (Option F)
  functions = map (λ (l : ℕ × Option F). l.1)

  -- The buffer is up to date.
  abbrev pub IsCurrent : Delegate F → Type ℓ
  IsCurrent d = d.readable_buffer ≡ functions d.listeners ++ none ∷ []

  called-some : (fs : List F) → called (map some fs ++ none ∷ []) ≡ fs
  unfolding called
  called-some [] = refl
  called-some (f ∷ fs) = ap (◌∷◌ f) (called-some fs)

  -- Subscribers in order, none of them empty.
  abbrev pub Subscribed : Delegate F → List F → Type ℓ
  Subscribed d fs = IsCurrent d × (functions d.listeners ≡ map some fs)

  -- If the buffer is up to date and no listener is empty, a call without a result makes every
  -- subscriber's function, in the order of subscription.
  pub try_invoke-Subscribed : (d : Delegate F) (fs : List F) → Subscribed d fs → try_invoke d ≡ fs
  unfolding try_invoke
  try_invoke-Subscribed d fs (h, e) = rw (h, e) (called-some fs)

  invoke_slot-some :
      (before fs : List F) (f g : F)
      → invoke_slot before (some f) (map some (fs ++ g ∷ []) ++ none ∷ [])
        ≡ result_of (before ++ f ∷ fs) g
  invoke_slot-some before [] f g = refl
  invoke_slot-some before (h ∷ fs) f g =
      invoke_slot-some (before ++ f ∷ []) fs h g
      ∙ ap (λ x. result_of x g) (append_assoc before (f ∷ []) (h ∷ fs))

  -- If the buffer is up to date, no listener is empty and there is one at least, a call with a
  -- result makes all functions and returns what the last one does.
  pub try_invoke_result-Subscribed :
      (d : Delegate F) (fs : List F) (g : F)
      → Subscribed d (fs ++ g ∷ [])
      → try_invoke_result d ≡ result_of fs g
  unfolding try_invoke_result
  try_invoke_result-Subscribed d [] g (h, e) = rw (h, e) refl
  try_invoke_result-Subscribed d (f ∷ fs) g (h, e) = rw (h, e) (invoke_slot-some [] fs f g)

  -- If the buffer is up to date and there is no listener, a call with a result reads a slot behind
  -- the end of the buffer.
  pub try_invoke_result-nobody :
      (d : Delegate F) → Subscribed d [] → try_invoke_result d ≡ past_end []
  unfolding try_invoke_result
  try_invoke_result-nobody d (h, e) = rw (h, e) refl

  -- If the buffer is up to date and no listener is empty, one more subscriber goes to the end and
  -- the buffer stays so.
  pub add_listener-Subscribed :
      (d : Delegate F) (fs : List F) (g : F) (counter : ℕ)
      → Subscribed d fs
      → Subscribed (add_listener true (some g) (counter, d)).1 (fs ++ g ∷ [])
  unfolding add_listener
  add_listener-Subscribed d fs g counter (h, e) =
      (refl, simp map-append (ap (λ x. x ++ some g ∷ []) e))

  erase_id-middle :
      (id : ℕ) (h : Option F) (xs ys : List (ℕ × Option F))
      → has_id id xs ≡ false
      → (erase_id id (xs ++ (id, h) ∷ ys) ≡ xs ++ ys) × (has_id id (xs ++ (id, h) ∷ ys) ≡ true)
  unfolding erase_id
  erase_id-middle id h [] ys e = ground arith
  erase_id-middle id h ((j, f) ∷ xs) ys e = ground (arith, erase_id-middle id h xs ys)

  -- The end of a subscription takes the first listener with its id out and no other, leaves the
  -- rest in order and the buffer up to date.
  pub remove_listener-middle :
      (id : ℕ) (h : Option F) (xs ys : List (ℕ × Option F)) (d : Delegate F)
      → d.listeners ≡ xs ++ (id, h) ∷ ys
      → has_id id xs ≡ false
      → ((remove_listener id d).listeners ≡ xs ++ ys) × IsCurrent (remove_listener id d)
  unfolding remove_listener
  remove_listener-middle id h xs ys d e new =
      let (erased, there) = erase_id-middle id h xs ys new in rw (e, there) (erased, refl)
