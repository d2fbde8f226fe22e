-- ===== src/Thread/ParallelFor/Invariant.antt =====
-- What holds of the counter and of each number's account after any steps.
use cpp_essence.Prelude.{
  ℕ, zero, suc, ◌+◌, ◌-◌, ◌^◌, ◌≤◌, ◌<◌, min, max, ◌≡◌, refl, false, List, [], ◌∷◌, some, replicate,
  get_elem?, length, length-replicate, arith, Option-cases, inl, inr, ◌⊎◌,
}
use cpp_essence.Thread.ParallelFor.{
  Outcome, Worker, fetching, fetched, calling, finished, advance, System, set_elem, step_of, step,
  run, new_system,
}
use cpp_essence.Thread.ParallelFor.Account.{
  total, total-get_elem?, total-set_elem, length-set_elem, total-replicate, holds, live, within,
  has_thrown, account, advance-account, advance-exact, advance-has_thrown, advance-room, at_end,
  advance-ended,
}

pub record Inv (start end n : ℕ) (s : System) : Type 0 where
  pub size : length s.workers ≡ n
  pub low : min start end ≤ s.memory.current
  pub room : s.memory.current + total (live end) s.workers ≤ max start end + n
  pub once :
      (x : ℕ)
      → account x s.memory + total (holds end x) s.workers ≤ within start end s.memory.current x
  pub exact :
      (x : ℕ)
      → has_thrown s.memory ≡ 0
      → within start end s.memory.current x ≤ account x s.memory + total (holds end x) s.workers
  pub ended : (end ≤ s.memory.current) ⊎ (total (at_end end) s.workers ≡ 0)

pub new_system-Inv : (start end n : ℕ) → Inv start end n (new_system start n)
unfolding new_system
new_system-Inv start end n = record {
  size = length-replicate n (fetching false);
  low = omega arith;
  room = omega (arith, total-live n);
  once = λ x. omega (arith, total-replicate (holds end x) n (fetching false) refl);
  exact = λ x quiet. ground arith;
  ended = inr (total-replicate (at_end end) n (fetching false) refl);
}
  where
    total-live : (n : ℕ) → total (live end) (replicate n (fetching false)) ≡ n
    total-live zero = refl
    total-live (suc n) = omega (arith, total-live n)

live_le_one : (end : ℕ) (w : Worker) → live end w ≤ 1
live_le_one end (fetching exit) = omega arith
live_le_one end (fetched id exit) = ground arith
live_le_one end (calling id) = omega arith
live_le_one end finished = omega arith

total-live_le : (end : ℕ) (ws : List Worker) → total (live end) ws ≤ length ws
total-live_le end [] = omega arith
total-live_le end (w ∷ ws) = omega (arith, live_le_one end w, total-live_le end ws)

-- All workers but one may fetch at most once each.
others_few :
    (end i : ℕ) (w : Worker) (ws : List Worker)
    → get_elem? ws i ≡ some w
    → total (live end) ws + 1 ≤ length ws + live end w
others_few end zero w [] e = ground arith
others_few end (suc i) w [] e = ground arith
others_few end zero w (v ∷ ws) e = ground (arith, total-live_le end ws)
others_few end (suc i) w (v ∷ ws) e = omega (arith, live_le_one end v, others_few end i w ws e)

-- A step of the worker with this number.
moved-Inv :
    (start end n i : ℕ) (o : Outcome) (s : System) (w : Worker)
    → max start end + n < 2 ^ 64
    → get_elem? s.workers i ≡ some w
    → Inv start end n s
    → Inv start end n (step_of end i o (some w) s)
unfolding step_of
moved-Inv start end n i o s w small e h = record {
  size = omega (arith, length-set_elem i w' s.workers, h.size);
  low = bounds.0;
  room = omega (arith, bounds.1, part, total-set_elem (live end) i w w' s.workers e);
  once = λ x. omega (
    arith,
    h.once x,
    total-set_elem (holds end x) i w w' s.workers e,
    advance-account start end x o w s.memory h.low bounded,
  );
  exact = λ x quiet. omega (
    arith,
    h.exact x (omega (arith, quiet, advance-has_thrown end o w s.memory)),
    total-set_elem (holds end x) i w w' s.workers e,
    advance-exact start end x o w s.memory h.low bounded quiet,
  );
  ended = ended';
}
  where
    w' : Worker
    w' = (advance end o w s.memory).0

    part : live end w ≤ total (live end) s.workers
    part = total-get_elem? (live end) i w s.workers e

    bounded : s.memory.current + live end w < 2 ^ 64
    bounded = omega (arith, h.room, part, small)

    bounds :
        (min start end ≤ (advance end o w s.memory).1.current)
        × ((advance end o w s.memory).1.current
              + (total (live end) s.workers - live end w + live end w')
            ≤ max start end + n)
    bounds =
        advance-room start end n (total (live end) s.workers - live end w) o w s.memory h.low
          bounded (omega (arith, others_few end i w s.workers e, h.size, part))
          (omega (arith, h.room, part))

    ended' :
        (end ≤ (advance end o w s.memory).1.current)
        ⊎ (total (at_end end) (set_elem i w' s.workers) ≡ 0)
    ended' = ground (
      arith,
      h.ended,
      total-set_elem (at_end end) i w w' s.workers e,
      advance-ended end o w s.memory bounded,
    )

pub step-Inv :
    (start end n i : ℕ) (o : Outcome) (s : System)
    → max start end + n < 2 ^ 64
    → Inv start end n s
    → Inv start end n (step end (i, o) s)
unfolding step
step-Inv start end n i o s small h = elim (Option-cases (get_elem? s.workers i)) [
  | inl e ↦ rw e (unfold step_of in h)
  | inr (w, e) ↦ rw e (moved-Inv start end n i o s w small e h)
]

pub run-Inv :
    (start end n : ℕ) (schedule : List (ℕ × Outcome)) (s : System)
    → max start end + n < 2 ^ 64
    → Inv start end n s
    → Inv start end n (run end schedule s)
unfolding run
run-Inv start end n [] s small h = h
run-Inv start end n ((i, o) ∷ schedule) s small h =
    run-Inv start end n schedule (step end (i, o) s) small (step-Inv start end n i o s small h)

-- What holds after any schedule.
pub reached-Inv :
    (start end n : ℕ) (schedule : List (ℕ × Outcome))
    → max start end + n < 2 ^ 64
    → Inv start end n (run end schedule (new_system start n))
reached-Inv start end n schedule small =
    run-Inv start end n schedule (new_system start n) small (new_system-Inv start end n)
