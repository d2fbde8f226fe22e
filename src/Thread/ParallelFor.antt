-- ===== src/Thread/ParallelFor.antt =====
-- `parallel_for` of src/thread.cpp. The workers' steps come in any order: a schedule names for each
-- step the worker, and what the handler does if the step ends a call of it.
pub mod Account
pub mod Invariant
pub mod Calls
pub mod Progress
pub mod Fairness
pub mod Overflow
use cpp_essence.Prelude.{
  ℕ, zero, suc, ◌+◌, ◌-◌, ◌%◌, ◌^◌, Bool, true, false, List, [], ◌∷◌, Option, none, some, ltb, leb,
  ◌==◌, replicate, get_elem?, if◌then◌else◌,
}

-- How a call of the handler ends: with its `exit`, or with an exception.
pub data Outcome : Type 0 where
  returned : Bool → Outcome
  thrown : ℕ → Outcome

-- Where a worker is, with its `exit`: before `fetch_add`, behind it, in the handler, at its end.
pub data Worker : Type 0 where
  fetching : Bool → Worker
  fetched : ℕ → Bool → Worker
  calling : ℕ → Worker
  finished : Worker

-- What the workers share. The numbers for which the handler was called, and those that a worker
-- passed over because of its `exit`, are kept with the last one first.
pub record Memory : Type 0 where
  pub current : ℕ
  pub called : List ℕ
  pub skipped : List ℕ
  pub last_exception : Option ℕ

-- One step of a worker. A `size_t` has 64 bits.
unfoldable pub advance : ℕ → Outcome → Worker → Memory → Worker × Memory
advance end o (fetching exit) m =
    (fetched m.current exit, record m { current = (m.current + 1) % 2 ^ 64 })
advance end o (fetched id exit) m =
    if leb end id
    then (finished, m)
    else if exit
    then (fetching exit, record m { skipped = id ∷ m.skipped })
    else (calling id, record m { called = id ∷ m.called })
advance end (returned exit) (calling id) m = (fetching exit, m)
advance end (thrown e) (calling id) m =
    (finished, record m { current = end; last_exception = some e })
advance end o finished m = (finished, m)

pub record System : Type 0 where
  pub workers : List Worker
  pub memory : Memory

abbrev pub set_elem : ℕ → Worker → List Worker → List Worker
set_elem i w [] = []
set_elem zero w (v ∷ ws) = w ∷ ws
set_elem (suc i) w (v ∷ ws) = v ∷ set_elem i w ws

unfoldable pub step_of : ℕ → ℕ → Outcome → Option Worker → System → System
unfolding advance
step_of end i o none s = s
step_of end i o (some w) s =
    let (w', m) = advance end o w s.memory in
    record { workers = set_elem i w' s.workers; memory = m }

unfoldable pub step : ℕ → ℕ × Outcome → System → System
unfolding step_of
step end (i, o) s = step_of end i o (get_elem? s.workers i) s

unfoldable pub run : ℕ → List (ℕ × Outcome) → System → System
unfolding step
run end [] s = s
run end (e ∷ schedule) s = run end schedule (step end e s)

unfoldable pub new_system : ℕ → ℕ → System
new_system start thread_count = record {
  workers = replicate thread_count (fetching false);
  memory = record { current = start; called = []; skipped = []; last_exception = none };
}

-- How many workers there are; `std::thread::hardware_concurrency()` is a parameter.
unfoldable pub worker_count : ℕ → ℕ → ℕ
worker_count hardware_concurrency thread_count =
    if thread_count == 0 then hardware_concurrency else thread_count

-- What the loop of one thread does with the end of a call, and with the rest of the range.
unfoldable pub after_call : ℕ → Outcome → (Bool → List ℕ × Option ℕ) → List ℕ × Option ℕ
after_call id (returned exit) rest = let (ids, e) = rest exit in (id ∷ ids, e)
after_call id (thrown e) rest = (id ∷ [], some e)

-- That loop over `count` numbers from `id` on: the numbers for which the handler was called, in
-- order, and the exception that leaves the loop. What the handler does with a number is a parameter.
unfoldable pub sequential : (ℕ → Outcome) → ℕ → ℕ → Bool → List ℕ × Option ℕ
unfolding after_call
sequential handler zero id exit = ([], none)
sequential handler (suc count) id true = sequential handler count (id + 1) true
sequential handler (suc count) id false =
    after_call id (handler id) (sequential handler count (id + 1))

-- The whole function, with what the workers' calls do in the schedule and what the calls of the loop
-- of one thread do in the handler: for which numbers the handler was called, and what is thrown.
unfoldable pub parallel_for :
    ℕ → Option (ℕ → Outcome) → List (ℕ × Outcome) → ℕ → ℕ → ℕ → List ℕ × Option ℕ
unfolding worker_count sequential run new_system
parallel_for hardware_concurrency none schedule start end thread_count = ([], none)
parallel_for hardware_concurrency (some handler) schedule start end thread_count =
    let n = worker_count hardware_concurrency thread_count in
    if n == 1
    then sequential handler (end - start) start false
    else let m = (run end schedule (new_system start n)).memory in (m.called, m.last_exception)
