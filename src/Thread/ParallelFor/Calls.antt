-- ===== src/Thread/ParallelFor/Calls.antt =====
-- For which numbers the handler is called, whatever the order of the workers' steps is.
use cpp_essence.Prelude.{
  ℕ, zero, suc, ◌+◌, ◌-◌, ◌^◌, ◌≤◌, ◌<◌, max, ◌≡◌, refl, false, ◌&&◌, List, [], ◌∷◌, none, ltb, leb,
  get_elem?, length, All, if◌then◌else◌, arith, Option-cases, inl, inr,
}
use cpp_essence.Thread.ParallelFor.{
  Outcome, returned, Worker, fetching, fetched, calling, finished, Memory, advance, System, step_of,
  step, run, new_system, after_call, sequential,
}
use cpp_essence.Thread.ParallelFor.Account.{
  total, total-get_elem?, total-set_elem, total-replicate, count, holds, at_end, has_thrown,
}
use cpp_essence.Thread.ParallelFor.Invariant.{reached-Inv}

-- How often a number stands in the range.
abbrev pub in_range : ℕ → ℕ → ℕ → ℕ
in_range start end x = if leb start x && ltb x end then 1 else 0

abbrev pub IsFinished : Worker → Type 0
IsFinished w = w ≡ finished

-- If the counter cannot wrap around, no number is called or passed over twice, or outside the range.
pub called_at_most_once :
    (start end n x : ℕ) (schedule : List (ℕ × Outcome))
    → max start end + n < 2 ^ 64
    → let m = (run end schedule (new_system start n)).memory in
      count x m.called + count x m.skipped ≤ in_range start end x
called_at_most_once start end n x schedule small =
    let h = reached-Inv start end n schedule small in ground (arith, h.once x)

finished-holds : (end x : ℕ) (ws : List Worker) → All IsFinished ws → total (holds end x) ws ≡ 0
finished-holds end x [] h = refl
finished-holds end x (w ∷ ws) (e, h) = rw e (omega (arith, finished-holds end x ws h))

finished-at_end :
    (end : ℕ) (ws : List Worker) → All IsFinished ws → total (at_end end) ws ≡ length ws
finished-at_end end [] h = refl
finished-at_end end (w ∷ ws) (e, h) = rw e (omega (arith, finished-at_end end ws h))

-- If the counter cannot wrap around, at least one worker there was, all have finished and no call
-- has thrown, then every number of the range was called or passed over exactly once, and no other.
pub called_exactly_once :
    (start end n x : ℕ) (schedule : List (ℕ × Outcome))
    → max start end + n < 2 ^ 64
    → 0 < n
    → All IsFinished (run end schedule (new_system start n)).workers
    → (run end schedule (new_system start n)).memory.last_exception ≡ none
    → let m = (run end schedule (new_system start n)).memory in
      count x m.called + count x m.skipped ≡ in_range start end x
called_exactly_once start end n x schedule small some_worker done quiet =
    let s = run end schedule (new_system start n) in
    let h = reached-Inv start end n schedule small in
    ground (
      arith,
      h.once x,
      h.exact x (rw (quiet, has_thrown) refl),
      h.ended,
      h.size,
      finished-holds end x s.workers done,
      finished-at_end end s.workers done,
    )

-- A call that returns and asks for no exit.
abbrev pub Plain : ℕ × Outcome → Type 0
Plain e = e.1 ≡ returned false

-- A worker that was asked to exit.
abbrev exits : Worker → ℕ
exits (fetching exit) = if exit then 1 else 0
exits (fetched id exit) = if exit then 1 else 0
exits (calling id) = 0
exits finished = 0

-- How much is not as plain calls leave it.
abbrev trouble : Memory → ℕ
trouble m = has_thrown m + length m.skipped

advance-trouble :
    (end : ℕ) (w : Worker) (m : Memory)
    → exits w ≡ 0
    → exits (advance end (returned false) w m).0 + trouble (advance end (returned false) w m).1
      ≡ trouble m
unfolding advance
advance-trouble end (fetching exit) m h = ground arith
advance-trouble end (fetched id exit) m h = ground arith
advance-trouble end (calling id) m h = ground arith
advance-trouble end finished m h = ground arith

step-trouble :
    (end i : ℕ) (s : System)
    → total exits s.workers + trouble s.memory ≡ 0
    → let t = step end (i, returned false) s in total exits t.workers + trouble t.memory ≡ 0
unfolding step
step-trouble end i s h = elim (Option-cases (get_elem? s.workers i)) [
  | inl e ↦ rw e (unfold step_of in h)
  | inr (w, e) ↦ rw e (
      unfold step_of in
      omega (
        arith,
        h,
        total-get_elem? exits i w s.workers e,
        total-set_elem exits i w (advance end (returned false) w s.memory).0 s.workers e,
        advance-trouble end w s.memory (omega (arith, h, total-get_elem? exits i w s.workers e)),
      ))
]

run-trouble :
    (end : ℕ) (schedule : List (ℕ × Outcome)) (s : System)
    → All Plain schedule
    → total exits s.workers + trouble s.memory ≡ 0
    → trouble (run end schedule s).memory ≡ 0
unfolding run
run-trouble end [] s plain h = omega (arith, h)
run-trouble end ((i, o) ∷ schedule) s (e, plain) h =
    rw e (run-trouble end schedule (step end (i, returned false) s) plain (step-trouble end i s h))

new_system-trouble :
    (start n : ℕ) → let s = new_system start n in total exits s.workers + trouble s.memory ≡ 0
unfolding new_system
new_system-trouble start n = omega (arith, total-replicate exits n (fetching false) refl)

count-length : (x : ℕ) (xs : List ℕ) → count x xs ≤ length xs
count-length x [] = omega arith
count-length x (y ∷ ys) = ground (arith, count-length x ys)

has_thrown-none : (m : Memory) → has_thrown m ≡ 0 → m.last_exception ≡ none
has_thrown-none m h = elim (Option-cases m.last_exception) [
  | inl e ↦ e
  | inr (t, e) ↦ ground (arith, e, h)
]

-- The calls of plain steps: each number of the range exactly once.
called-Plain :
    (start end n x : ℕ) (schedule : List (ℕ × Outcome))
    → max start end + n < 2 ^ 64
    → 0 < n
    → All Plain schedule
    → All IsFinished (run end schedule (new_system start n)).workers
    → count x (run end schedule (new_system start n)).memory.called ≡ in_range start end x
called-Plain start end n x schedule small some_worker plain done = omega (
  arith,
  clear,
  count-length x m.skipped,
  called_exactly_once start end n x schedule small some_worker done
      (has_thrown-none m (omega (arith, clear))),
)
  where
    m : Memory
    m = (run end schedule (new_system start n)).memory

    clear : trouble m ≡ 0
    clear = run-trouble end schedule (new_system start n) plain (new_system-trouble start n)

sequential-count :
    (handler : ℕ → Outcome) (k id x : ℕ)
    → ((j : ℕ) → handler j ≡ returned false)
    → count x (sequential handler k id false).0 ≡ in_range id (id + k) x
unfolding sequential
sequential-count handler zero id x plain = ground arith
sequential-count handler (suc k) id x plain =
    rw (plain id) (unfold after_call in ground (arith, sequential-count handler k (id + 1) x plain))

-- With a handler that returns and never asks for an exit, the loop of one thread and the workers,
-- once all have finished, have called it for the same numbers, in whatever order the workers took
-- their steps; if there is a worker and the counter cannot wrap around.
pub parallel_calls-sequential :
    (start end n x : ℕ) (handler : ℕ → Outcome) (schedule : List (ℕ × Outcome))
    → max start end + n < 2 ^ 64
    → 0 < n
    → ((j : ℕ) → handler j ≡ returned false)
    → All Plain schedule
    → All IsFinished (run end schedule (new_system start n)).workers
    → count x (run end schedule (new_system start n)).memory.called
      ≡ count x (sequential handler (end - start) start false).0
parallel_calls-sequential start end n x handler schedule small some_worker returns plain done =
    ground (
      arith,
      called-Plain start end n x schedule small some_worker plain done,
      sequential-count handler (end - start) start x returns,
    )
