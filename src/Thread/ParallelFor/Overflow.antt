-- ===== src/Thread/ParallelFor/Overflow.antt =====
-- The counter at the largest number of 64 bits, and no worker at all.
use cpp_essence.Prelude.{ℕ, suc, ◌-◌, ◌^◌, ◌≡◌, refl, List, [], ◌∷◌, Option, none, some}
use cpp_essence.Thread.ParallelFor.{
  Outcome, advance, step_of, step, run, new_system, worker_count, parallel_for,
}

-- Of an empty range that ends at the largest number, the second of two or more workers calls the
-- handler for zero, if both are asked for a number at once.
pub empty_range_called :
    (n : ℕ) (o : Outcome)
    → (run
        (2 ^ 64 - 1)
        ((0, o) ∷ (1, o) ∷ (1, o) ∷ [])
        (new_system (2 ^ 64 - 1) (suc (suc n)))).memory.called
      ≡ 0 ∷ []
unfolding run step step_of advance new_system
empty_range_called n o = refl

run-nobody :
    (end start : ℕ) (schedule : List (ℕ × Outcome))
    → run end schedule (new_system start 0) ≡ new_system start 0
unfolding run step step_of new_system
run-nobody end start [] = refl
run-nobody end start ((i, o) ∷ schedule) = run-nobody end start schedule

-- Where the number of hardware threads is not known, which the standard library answers by zero, a
-- call that leaves the number of threads to it never calls its handler, and throws nothing.
pub nobody_calls :
    (handler : Option (ℕ → Outcome)) (schedule : List (ℕ × Outcome)) (start end : ℕ)
    → parallel_for 0 handler schedule start end 0 ≡ ([], none)
unfolding parallel_for worker_count
nobody_calls none schedule start end = refl
nobody_calls (some handler) schedule start end =
    rw (run-nobody end start schedule) (unfold new_system in refl)
