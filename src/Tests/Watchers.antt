-- ===== src/Tests/Watchers.antt =====
-- Descriptors 1 and 2 are a terminal, and descriptor 0 is open or not.
use cpp_essence.Prelude.{
  ℕ, suc, ◌≤◌, max, ◌≡◌, refl, ap, ◌∙◌, [], ◌∷◌, Option, none, some, Option-cases, inl, inr, arith,
}
use cpp_essence.Io.StdioWatcher.{
  Target, device, Table, lookup, has_writer, new_watcher, stop, start, and_then,
}
use cpp_essence.Io.StdioWatcher.Tables.{GivesFree}
use cpp_essence.Io.StdioWatcher.Restored.{stop-start}
use cpp_essence.Io.StdioWatcher.Kept.{stop-zero, stop-first}

abbrev above : Table → ℕ
above [] = 0
above ((d, x) ∷ t) = max (suc d) (above t)

-- Descriptor 0 if it is closed, and one above all others if not.
abbrev allocate_of : Option Target → Table → ℕ
allocate_of none t = 0
allocate_of (some x) t = above t

abbrev allocate : Table → ℕ
allocate t = allocate_of (lookup 0 t) t

above-free : (n : ℕ) (t : Table) → above t ≤ n → lookup n t ≡ none
unfolding lookup
above-free n [] h = refl
above-free n ((d, x) ∷ t) h = ground (arith, h, above-free n t)

allocate-GivesFree : GivesFree allocate
allocate-GivesFree t = elim (Option-cases (lookup 0 t)) [
  | inl e ↦ ap (λ o. lookup (allocate_of o t) t) e ∙ e
  | inr (x, e) ↦ ap (λ o. lookup (allocate_of o t) t) e ∙ above-free (above t) t (omega arith)
]

abbrev terminal : Table
terminal = (0, device 7) ∷ (1, device 8) ∷ (2, device 8) ∷ []

abbrev without_input : Table
without_input = (1, device 8) ∷ (2, device 8) ∷ []

stop-start_example :
    (s : Table) × (and_then (start allocate 5 (new_watcher 1) terminal) (λ (w, u). stop w u)
      ≡ some (new_watcher 1, s))
    × ((fd : ℕ) → lookup fd s ≡ lookup fd terminal)
unfolding lookup has_writer
stop-start_example =
    stop-start allocate allocate-GivesFree terminal 1 5 (device 8) (device 7) refl refl refl

stop-zero_example :
    and_then (start allocate 5 (new_watcher 1) without_input) (λ (w, u). stop w u) ≡ none
unfolding lookup
stop-zero_example = stop-zero allocate allocate-GivesFree without_input 1 5 (device 8) refl refl

stop-first_example :
    and_then
      (start allocate 5 (new_watcher 1) terminal)
      (λ (w, u). and_then (start allocate 6 (new_watcher 1) u) (λ (v, s). stop w s))
    ≡ none
unfolding lookup
stop-first_example = stop-first allocate allocate-GivesFree terminal 1 5 6 (device 8) refl
