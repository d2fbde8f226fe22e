-- ===== src/Delegate/History.antt =====
-- What a delegate calls after any history of subscriptions and their ends.
use cpp_essence.Prelude.{
  ℕ, ◌+◌, ◌%◌, ◌^◌, ◌<◌, ◌≡◌, refl, sym, ap, ap₂, ◌∙◌, subst, inl, inr, true, false, List, [], ◌∷◌,
  ◌++◌, map, Option, Bool, none, some, if◌then◌else◌, length, arith, append_assoc, append-nil,
  Bool-cases,
}
use cpp_essence.Delegate.{
  Delegate, update_readable_buffer, empty_delegate, add_listener, add_all, add_delegate, has_id,
  erase_id, remove_listener, try_invoke,
}
use cpp_essence.Delegate.Invariant.{functions, IsCurrent, Subscribed, try_invoke-Subscribed}
use cpp_essence.Delegate.Listed.{
  listed, numbered, without, Between, Between-numbered, Between-without, erase_id-without,
  erase_id-absent, listed-append, functions-listed,
}

module _ {ℓ} where
  -- A function that is subscribed, the functions of another delegate, and an id whose subscription
  -- ends.
  pub data Move (F : Type ℓ) : Type ℓ where
    subscribe : F → Move F
    join : List (ℕ × F) → Move F
    unsubscribe : ℕ → Move F

module _ {ℓ} {F : Type ℓ} where
  abbrev pub joined : List (ℕ × F) → Delegate F
  joined xs = record { listeners = listed xs; readable_buffer = functions (listed xs) ++ none ∷ [] }

  -- The code.
  abbrev pub move : Move F → ℕ × Delegate F → ℕ × Delegate F
  move (subscribe f) s = add_listener true (some f) s
  move (join xs) s = add_delegate (joined xs) s
  move (unsubscribe id) (counter, d) = (counter, remove_listener id d)

  abbrev pub moves : List (Move F) → ℕ × Delegate F → ℕ × Delegate F
  moves [] s = s
  moves (m ∷ ms) s = moves ms (move m s)

  -- The promise: the subscribers in order, each with the number of its subscription.
  abbrev pub promised : List (Move F) → ℕ → List (ℕ × F) → List F
  promised [] n xs = map (λ (x : ℕ × F). x.1) xs
  promised (subscribe f ∷ ms) n xs = promised ms (n + 1) (xs ++ (n + 1, f) ∷ [])
  promised (join ys ∷ ms) n xs = promised ms (n + length ys) (xs ++ numbered n ys)
  promised (unsubscribe id ∷ ms) n xs = promised ms n (without id xs)

  -- How many subscriptions there are.
  abbrev pub subscriptions : List (Move F) → ℕ
  subscriptions [] = 0
  subscriptions (subscribe f ∷ ms) = 1 + subscriptions ms
  subscriptions (join xs ∷ ms) = length xs + subscriptions ms
  subscriptions (unsubscribe id ∷ ms) = subscriptions ms

  -- A delegate that holds these subscribers.
  record Holds (n : ℕ) (xs : List (ℕ × F)) (s : ℕ × Delegate F) : Type ℓ where
    counts : s.0 ≡ n
    holds : s.1.listeners ≡ listed xs
    current : IsCurrent s.1
    ids : Between 0 n xs

  with_update :
      (update : Bool) (ls : List (ℕ × Option F)) (d : Delegate F)
      → (if update
          then update_readable_buffer (record d { listeners = ls })
          else record d { listeners = ls }).listeners
        ≡ ls
  unfolding update_readable_buffer
  with_update true ls d = refl
  with_update false ls d = refl

  add_listener-Holds :
      (update : Bool) (f : F) (n : ℕ) (xs : List (ℕ × F)) (s : ℕ × Delegate F)
      → s.0 ≡ n
      → s.1.listeners ≡ listed xs
      → n + 1 < 2 ^ 64
      → ((add_listener update (some f) s).0 ≡ n + 1)
        × ((add_listener update (some f) s).1.listeners ≡ listed (xs ++ (n + 1, f) ∷ []))
  unfolding add_listener
  add_listener-Holds update f n xs (counter, d) c h room =
      let id : (counter + 1) % 2 ^ 64 ≡ n + 1 = omega (arith, c, room) in
      (
        id,
        with_update update (d.listeners ++ ((counter + 1) % 2 ^ 64, some f) ∷ []) d
            ∙ ap₂ (λ ls k. ls ++ (k, some f) ∷ []) h id
            ∙ sym (listed-append xs ((n + 1, f) ∷ [])),
      )

  add_all-Holds :
      (ys : List (ℕ × F)) (n : ℕ) (xs : List (ℕ × F)) (s : ℕ × Delegate F)
      → s.0 ≡ n
      → s.1.listeners ≡ listed xs
      → n + length ys < 2 ^ 64
      → ((add_all (listed ys) s).0 ≡ n + length ys)
        × ((add_all (listed ys) s).1.listeners ≡ listed (xs ++ numbered n ys))
  unfolding add_all
  add_all-Holds [] n xs s c h room = (omega (arith, c), h ∙ ap listed (sym (append-nil xs)))
  add_all-Holds ((id, f) ∷ ys) n xs s c h room =
      let (c', h') = add_listener-Holds false f n xs s c h (omega (arith, room)) in
      let (counted, held) =
        add_all-Holds ys (n + 1) (xs ++ (n + 1, f) ∷ []) (add_listener false (some f) s) c' h'
          (omega (arith, room)) in
      (
        omega (arith, counted),
        held ∙ ap listed (append_assoc xs ((n + 1, f) ∷ []) (numbered (n + 1) ys)),
      )

  subscribe-Holds :
      (f : F) (n : ℕ) (xs : List (ℕ × F)) (s : ℕ × Delegate F)
      → Holds n xs s
      → n + 1 < 2 ^ 64
      → Holds (n + 1) (xs ++ (n + 1, f) ∷ []) (add_listener true (some f) s)
  subscribe-Holds f n xs s h room =
      let (c, l) = add_listener-Holds true f n xs s h.counts h.holds room in
      record {
        counts = c;
        holds = l;
        current = unfold add_listener in refl;
        ids =
            subst (λ m. Between 0 m (xs ++ (n + 1, f) ∷ [])) (omega arith)
              (Between-numbered 0 n xs ((0, f) ∷ []) h.ids);
      }

  join-Holds :
      (ys : List (ℕ × F)) (n : ℕ) (xs : List (ℕ × F)) (s : ℕ × Delegate F)
      → Holds n xs s
      → n + length ys < 2 ^ 64
      → Holds (n + length ys) (xs ++ numbered n ys) (add_delegate (joined ys) s)
  unfolding add_delegate
  join-Holds ys n xs s h room =
      let (c, l) = add_all-Holds ys n xs s h.counts h.holds room in
      record { counts = c; holds = l; current = refl; ids = Between-numbered 0 n xs ys h.ids }

  remove_listener-erases :
      (id : ℕ) (d : Delegate F)
      → IsCurrent d
      → ((remove_listener id d).listeners ≡ erase_id id d.listeners)
        × IsCurrent (remove_listener id d)
  unfolding remove_listener
  remove_listener-erases id d h = elim (Bool-cases (has_id id d.listeners)) [
    | inl e ↦ rw e (refl, refl)
    | inr e ↦ rw e (sym (erase_id-absent id d.listeners e), h)
  ]

  unsubscribe-Holds :
      (id n : ℕ) (xs : List (ℕ × F)) (s : ℕ × Delegate F)
      → Holds n xs s
      → Holds n (without id xs) (s.0, remove_listener id s.1)
  unsubscribe-Holds id n xs s h =
      let (erased, current) = remove_listener-erases id s.1 h.current in
      record {
        counts = h.counts;
        holds = erased ∙ ap (erase_id id) h.holds ∙ erase_id-without 0 n id xs h.ids;
        current = current;
        ids = Between-without 0 n id xs h.ids;
      }

  Holds-Subscribed :
      (n : ℕ) (xs : List (ℕ × F)) (s : ℕ × Delegate F)
      → Holds n xs s
      → Subscribed s.1 (map (λ (x : ℕ × F). x.1) xs)
  Holds-Subscribed n xs s h = (h.current, ap functions h.holds ∙ functions-listed xs)

  moves_from :
      (ms : List (Move F)) (n : ℕ) (xs : List (ℕ × F)) (s : ℕ × Delegate F)
      → Holds n xs s
      → n + subscriptions ms < 2 ^ 64
      → try_invoke (moves ms s).1 ≡ promised ms n xs
  moves_from [] n xs s h room = try_invoke-Subscribed s.1 _ (Holds-Subscribed n xs s h)
  moves_from (subscribe f ∷ ms) n xs s h room =
      moves_from ms (n + 1) _ _ (subscribe-Holds f n xs s h (omega (arith, room)))
        (omega (arith, room))
  moves_from (join ys ∷ ms) n xs s h room =
      moves_from ms (n + length ys) _ _ (join-Holds ys n xs s h (omega (arith, room)))
        (omega (arith, room))
  moves_from (unsubscribe id ∷ ms) n xs s h room =
      moves_from ms n _ _ (unsubscribe-Holds id n xs s h) room

  -- From an empty delegate, after any history of subscriptions of functions that are not empty, of
  -- joins of other delegates' functions and of ends of subscriptions, a call without a result makes
  -- the functions whose subscription has not ended, each once for each subscription and in the order
  -- of subscription, if the counter of the process does not reach 2 ^ 64.
  pub moves-promised :
      (ms : List (Move F)) (counter : ℕ)
      → counter + subscriptions ms < 2 ^ 64
      → try_invoke (moves ms (counter, empty_delegate)).1 ≡ promised ms counter []
  moves-promised ms counter room =
      moves_from ms counter [] (counter, empty_delegate)
        (record {
          counts = refl;
          holds = unfold empty_delegate in refl;
          current = unfold empty_delegate in refl;
          ids = unfold Between in omega arith;
        })
        room
