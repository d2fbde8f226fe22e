-- ===== src/Delegate.antt =====
-- include/essence/delegate.hpp. A `std::function` is `some f`, or `none` where it is empty; the
-- process-wide counter is passed along. What a call does is the list of the functions it makes.
pub mod Listed
pub mod History
pub mod Invariant
use cpp_essence.Prelude.{
  ℕ, ◌+◌, ◌%◌, ◌^◌, Bool, true, false, List, [], ◌∷◌, ◌++◌, map, Option, none, some, ◌==◌,
  if◌then◌else◌,
}

module _ {ℓ} where
  pub record Delegate (F : Type ℓ) : Type ℓ where
    pub listeners : List (ℕ × Option F)
    pub readable_buffer : List (Option F)

  -- How a call of a delegate with a result ends: the functions called before, and the one whose
  -- result is returned; an empty function called; or a slot read behind the end of the buffer.
  pub data Invocation (F : Type ℓ) : Type ℓ where
    result_of : List F → F → Invocation F
    bad_function_call : List F → Invocation F
    past_end : List F → Invocation F

module _ {ℓ} {F : Type ℓ} where
  -- The functions, and an empty one behind them.
  unfoldable pub update_readable_buffer : Delegate F → Delegate F
  update_readable_buffer d = record d {
    readable_buffer = map (λ (l : ℕ × Option F). l.1) d.listeners ++ none ∷ [];
  }

  unfoldable pub empty_delegate : Delegate F
  unfolding update_readable_buffer
  empty_delegate = update_readable_buffer (record { listeners = []; readable_buffer = [] })

  -- `add_listener<Update>`; the id is the new value of the counter.
  unfoldable pub add_listener : Bool → Option F → ℕ × Delegate F → ℕ × Delegate F
  unfolding update_readable_buffer
  add_listener update handler (counter, d) =
      let id = (counter + 1) % 2 ^ 64 in
      let added = record d { listeners = d.listeners ++ (id, handler) ∷ [] } in
      (id, if update then update_readable_buffer added else added)

  unfoldable pub add_all : List (ℕ × Option F) → ℕ × Delegate F → ℕ × Delegate F
  unfolding add_listener
  add_all [] s = s
  add_all ((id, func) ∷ rest) s = add_all rest (add_listener false func s)

  -- `operator+=` of another delegate.
  unfoldable pub add_delegate : Delegate F → ℕ × Delegate F → ℕ × Delegate F
  unfolding add_all update_readable_buffer
  add_delegate right s =
      ((add_all right.listeners s).0, update_readable_buffer (add_all right.listeners s).1)

  abbrev pub has_id : ℕ → List (ℕ × Option F) → Bool
  has_id id [] = false
  has_id id ((j, f) ∷ rest) = if j == id then true else has_id id rest

  -- `find_if` and `erase`: the first listener with this id.
  unfoldable pub erase_id : ℕ → List (ℕ × Option F) → List (ℕ × Option F)
  erase_id id [] = []
  erase_id id ((j, f) ∷ rest) = if j == id then rest else (j, f) ∷ erase_id id rest

  -- `remove_listener`, which the handle of a listener calls at its end.
  unfoldable pub remove_listener : ℕ → Delegate F → Delegate F
  unfolding erase_id update_readable_buffer
  remove_listener id d =
      if has_id id d.listeners
      then update_readable_buffer (record d { listeners = erase_id id d.listeners })
      else d

  -- `try_invoke` without a result: each function up to the first empty one.
  unfoldable pub called : List (Option F) → List F
  called [] = []
  called (none ∷ rest) = []
  called (some f ∷ rest) = f ∷ called rest

  unfoldable pub try_invoke : Delegate F → List F
  unfolding called
  try_invoke d = called d.readable_buffer

  abbrev call : List F → Option F → Invocation F
  call before none = bad_function_call before
  call before (some f) = result_of before f

  -- The loop of `try_invoke` with a result, at a slot: the next slot is read first.
  abbrev pub invoke_slot : List F → Option F → List (Option F) → Invocation F
  invoke_slot before f [] = past_end before
  invoke_slot before f (none ∷ rest) = call before f
  invoke_slot before none (some g ∷ rest) = bad_function_call before
  invoke_slot before (some f) (some g ∷ rest) = invoke_slot (before ++ f ∷ []) (some g) rest

  abbrev invoke_buffer : List (Option F) → Invocation F
  invoke_buffer [] = past_end []
  invoke_buffer (f ∷ rest) = invoke_slot [] f rest

  unfoldable pub try_invoke_result : Delegate F → Invocation F
  try_invoke_result d = invoke_buffer d.readable_buffer
