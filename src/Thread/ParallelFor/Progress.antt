-- ===== src/Thread/ParallelFor/Progress.antt =====
-- The workers come to their end.
use cpp_essence.Prelude.{
  ℕ, zero, suc, ◌+◌, ◌-◌, ◌*◌, ◌^◌, ◌≤◌, ◌<◌, max, ◌≡◌, refl, false, List, [], ◌∷◌, Option, none,
  some, leb, replicate, get_elem?, if◌then◌else◌, arith, Option-cases, inl, inr,
}
use cpp_essence.Thread.ParallelFor.{
  Outcome, returned, thrown, Worker, fetching, fetched, calling, finished, Memory, advance, System,
  step_of, step, run, new_system,
}
use cpp_essence.Thread.ParallelFor.Account.{total, total-get_elem?, total-set_elem, live}
use cpp_essence.Thread.ParallelFor.Invariant.{Inv, step-Inv, new_system-Inv}

-- How many steps a worker may take before the next `fetch_add`, which costs the range one number,
-- or its end.
abbrev pub weight : ℕ → Worker → ℕ
weight end (fetching exit) = 2
weight end (fetched id exit) = if leb end id then 1 else 4
weight end (calling id) = 3
weight end finished = 0

abbrev pub measure : ℕ → System → ℕ
measure end s = 3 * (end - s.memory.current) + total (weight end) s.workers

-- Whether a worker, if there is one, can take a step.
abbrev pub moves : Option Worker → ℕ
moves none = 0
moves (some (fetching exit)) = 1
moves (some (fetched id exit)) = 1
moves (some (calling id)) = 1
moves (some finished) = 0

advance-weight :
    (end : ℕ) (o : Outcome) (w : Worker) (m : Memory)
    → m.current + live end w < 2 ^ 64
    → 3 * (end - (advance end o w m).1.current) + weight end (advance end o w m).0 + moves (some w)
      ≤ 3 * (end - m.current) + weight end w
unfolding advance
advance-weight end o (fetching exit) m small = grind arith
advance-weight end o (fetched id exit) m small = ground arith
advance-weight end (returned exit) (calling id) m small = ground arith
advance-weight end (thrown t) (calling id) m small = ground arith
advance-weight end (returned exit) finished m small = ground arith
advance-weight end (thrown t) finished m small = ground arith

step-measure :
    (start end n i : ℕ) (o : Outcome) (s : System)
    → max start end + n < 2 ^ 64
    → Inv start end n s
    → measure end (step end (i, o) s) + moves (get_elem? s.workers i) ≤ measure end s
unfolding step
step-measure start end n i o s small h = elim (Option-cases (get_elem? s.workers i)) [
  | inl e ↦ rw e (unfold step_of in omega arith)
  | inr (w, e) ↦ rw e (
      unfold step_of in
      omega (
        arith,
        total-get_elem? (weight end) i w s.workers e,
        total-set_elem (weight end) i w (advance end o w s.memory).0 s.workers e,
        advance-weight end o w s.memory
            (omega (arith, h.room, small, total-get_elem? (live end) i w s.workers e)),
      ))
]

-- The steps of a schedule that a worker takes which has not finished.
abbrev pub effective : ℕ → List (ℕ × Outcome) → System → ℕ
effective end [] s = 0
effective end (e ∷ schedule) s =
    moves (get_elem? s.workers e.0) + effective end schedule (step end e s)

pub run-measure :
    (start end n : ℕ) (schedule : List (ℕ × Outcome)) (s : System)
    → max start end + n < 2 ^ 64
    → Inv start end n s
    → measure end (run end schedule s) + effective end schedule s ≤ measure end s
unfolding run
run-measure start end n [] s small h = omega arith
run-measure start end n ((i, o) ∷ schedule) s small h = omega (
  arith,
  step-measure start end n i o s small h,
  run-measure start end n schedule (step end (i, o) s) small (step-Inv start end n i o s small h),
)

pub new_system-measure :
    (start end n : ℕ) → measure end (new_system start n) ≡ 3 * (end - start) + 2 * n
unfolding new_system
new_system-measure start end n = omega (arith, total-weight n)
  where
    total-weight : (n : ℕ) → total (weight end) (replicate n (fetching false)) ≡ 2 * n
    total-weight zero = refl
    total-weight (suc n) = omega (arith, total-weight n)

-- If the counter cannot wrap around, then in any order the workers take at most three steps for each
-- number of the range and two for each worker.
pub effective_bounded :
    (start end n : ℕ) (schedule : List (ℕ × Outcome))
    → max start end + n < 2 ^ 64
    → effective end schedule (new_system start n) ≤ 3 * (end - start) + 2 * n
effective_bounded start end n schedule small = omega (
  arith,
  new_system-measure start end n,
  run-measure start end n schedule (new_system start n) small (new_system-Inv start end n),
)
