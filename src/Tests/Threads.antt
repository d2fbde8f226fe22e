-- ===== src/Tests/Threads.antt =====
-- Two workers on the numbers 1 and 2.
use cpp_essence.Prelude.{
  ℕ, zero, suc, map, ◌+◌, ◌≤◌, ◌≡◌, refl, false, List, [], ◌∷◌, replicate, All, arith,
}
use cpp_essence.Thread.ParallelFor.{
  Outcome, returned, advance, step_of, step, run, new_system, sequential,
}
use cpp_essence.Thread.ParallelFor.Account.{count}
use cpp_essence.Thread.ParallelFor.Calls.{
  IsFinished, Plain, called_at_most_once, called_exactly_once, parallel_calls-sequential,
}
use cpp_essence.Thread.ParallelFor.Fairness.{Covers, run_rounds, fair_rounds_finish}

abbrev plain : ℕ → ℕ × Outcome
plain i = (i, returned false)

-- The second worker overtakes the first one.
abbrev overtaking : List (ℕ × Outcome)
overtaking = map plain (0 ∷ 1 ∷ 1 ∷ 0 ∷ 1 ∷ 0 ∷ 0 ∷ 0 ∷ 1 ∷ 1 ∷ 0 ∷ 1 ∷ [])

map-Plain : (order : List ℕ) → All Plain (map plain order)
map-Plain [] = tt
map-Plain (i ∷ order) = (refl, map-Plain order)

abbrev round : List (ℕ × Outcome)
round = plain 0 ∷ plain 1 ∷ []

overtaking_calls : (run 3 overtaking (new_system 1 2)).memory.called ≡ 1 ∷ 2 ∷ []
unfolding run step step_of advance new_system
overtaking_calls = refl

called_at_most_once_example :
    let m = (run 3 overtaking (new_system 1 2)).memory in count 2 m.called + count 2 m.skipped ≤ 1
called_at_most_once_example = called_at_most_once 1 3 2 2 overtaking (omega arith)

called_exactly_once_example :
    let m = (run 3 overtaking (new_system 1 2)).memory in count 2 m.called + count 2 m.skipped ≡ 1
unfolding run step step_of advance new_system
called_exactly_once_example =
    called_exactly_once 1 3 2 2 overtaking (omega arith) (omega arith) (refl, (refl, tt)) refl

parallel_calls-sequential_example :
    count 1 (run 3 overtaking (new_system 1 2)).memory.called
    ≡ count 1 (sequential (λ id. returned false) 2 1 false).0
unfolding run step step_of advance new_system
parallel_calls-sequential_example =
    parallel_calls-sequential 1 3 2 1 (λ id. returned false) overtaking (omega arith) (omega arith)
      (λ id. refl) (map-Plain (0 ∷ 1 ∷ 1 ∷ 0 ∷ 1 ∷ 0 ∷ 0 ∷ 0 ∷ 1 ∷ 1 ∷ 0 ∷ 1 ∷ []))
      (refl, (refl, tt))

replicate-Covers : (n : ℕ) → All (Covers 2) (replicate n round)
replicate-Covers zero = tt
replicate-Covers (suc n) = ((refl, (refl, tt)), replicate-Covers n)

fair_rounds_finish_example :
    All IsFinished (run_rounds 3 (replicate 10 round) (new_system 1 2)).workers
fair_rounds_finish_example =
    fair_rounds_finish 1 3 2 (replicate 10 round) (omega arith) (replicate-Covers 10) (omega arith)
