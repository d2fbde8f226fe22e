-- ===== src/Thread/Timer.antt =====
-- src/interruptable_timer.cpp. The worker thread and the one thread that calls `start` and `stop`
-- take steps in any order; each load, store and notification is a step of its own. A timed wait may
-- end at any time. The atomics are taken to be sequentially consistent.
pub mod Orderly
pub mod Live
pub mod Return
pub mod Lost
use cpp_essence.Prelude.{
  ℕ, zero, suc, Bool, true, false, not, ◌&&◌, List, [], ◌∷◌, Option, none, some, if◌then◌else◌,
}
use cpp_essence.Numeric.Rational.{ℤ, pos, negsuc}

-- The callback has a number; `none` is an empty function.
pub record TimerInfo : Type 0 where
  pub callback : Option ℕ
  pub period : ℤ
  pub deferred_time : ℤ

abbrev pub is_positive : ℤ → Bool
is_positive (pos zero) = false
is_positive (pos (suc n)) = true
is_positive (negsuc n) = false

abbrev pub has_callback : Option ℕ → Bool
has_callback none = false
has_callback (some f) = true

unfoldable pub is_valid : TimerInfo → Bool
is_valid i = has_callback i.callback && is_positive i.period

-- Where the worker is in `timer_routine`. In a wait it tests the condition, goes to sleep while it
-- still holds the mutex, and sleeps.
pub data Worker : Type 0 where
  checking testing parking blocked starting clearing loading ending resetting ended : Worker
  deferring deferred looping calling sleeping : TimerInfo → Worker

-- What `change_state` is called for: to stop, and then to start with something or not; to start; to
-- destroy the timer.
pub data Change : Type 0 where
  stopping : Option TimerInfo → Change
  launching : TimerInfo → Change
  destroying : Change

pub data Caller : Type 0 where
  idle gone : Caller
  storing_info storing_running storing_pending notifying : Change → Caller
  awaiting parked asleep : Option TimerInfo → Caller

pub data Request : Type 0 where
  start : TimerInfo → Request
  stop destroy : Request

-- What can be seen of a timer, with the last event first.
pub data Event : Type 0 where
  started called : TimerInfo → Event
  stopped : Event

pub record Timer : Type 0 where
  pub stop_pending : Bool
  pub idle_running : Bool
  pub idle_pending : Bool
  pub timer_running : Bool
  pub timer_info : Option TimerInfo
  pub worker : Worker
  pub caller : Caller
  pub requests : List Request
  pub log : List Event

-- The arguments of `change_state`.
abbrev pub new_info : Change → Option TimerInfo
new_info (launching i) = some i
new_info _ = none

abbrev pub new_running : Change → Bool
new_running (launching i) = true
new_running _ = false

abbrev pub new_pending : Change → Bool
new_pending (stopping i) = true
new_pending _ = false

-- Where `notify_all` of `cv_idle_` leaves the threads that sleep.
abbrev pub notified_worker : Worker → Worker
notified_worker blocked = testing
notified_worker w = w

abbrev pub notified_caller : Caller → Caller
notified_caller (asleep i) = awaiting i
notified_caller c = c

-- The mutex of the waits is held on the way to sleep.
abbrev pub holds_mutex : Caller → Bool
holds_mutex (parked i) = true
holds_mutex _ = false

abbrev pub worker_holds_mutex : Worker → Bool
worker_holds_mutex parking = true
worker_holds_mutex _ = false

abbrev pub at_info : Option TimerInfo → Worker
unfolding is_valid
at_info none = ending
at_info (some i) = if is_valid i then deferring i else ending

unfoldable pub worker_at : Worker → Timer → Timer
worker_at checking t =
    if t.stop_pending
    then record t { worker = ended }
    else record t { worker = testing; caller = notified_caller t.caller }
worker_at testing t =
    if holds_mutex t.caller
    then t
    else record t { worker = if t.idle_pending then parking else starting }
worker_at parking t = record t { worker = blocked }
worker_at blocked t = t
worker_at starting t = record t { worker = clearing; idle_running = false }
worker_at clearing t = record t { worker = loading; idle_pending = false }
worker_at loading t = record t { worker = at_info t.timer_info }
worker_at (deferring i) t = record t {
  worker = if t.timer_running && is_positive i.deferred_time then deferred i else looping i;
}
worker_at (deferred i) t = record t { worker = looping i }
worker_at (looping i) t = record t { worker = if t.timer_running then calling i else ending }
worker_at (calling i) t = record t { worker = sleeping i; log = called i ∷ t.log }
worker_at (sleeping i) t = record t { worker = looping i }
worker_at ending t = record t { worker = resetting; idle_running = true }
worker_at resetting t = record t { worker = checking; idle_pending = false }
worker_at ended t = t

unfoldable pub accept : List Request → Timer → Timer
accept [] t = t
accept (start i ∷ rest) t = record t { caller = storing_info (stopping (some i)); requests = rest }
accept (stop ∷ rest) t = record t { caller = storing_info (stopping none); requests = rest }
accept (destroy ∷ rest) t = record t { caller = storing_info destroying; requests = rest }

-- Behind the wait of `stop`.
unfoldable pub stop_returns : Option TimerInfo → Timer → Timer
stop_returns none t = record t { caller = idle; log = stopped ∷ t.log }
stop_returns (some i) t = record t {
  caller = storing_info (launching i);
  log = started i ∷ stopped ∷ t.log;
}

-- Behind `change_state`, in the step of its notifications, and with the store behind them that the
-- destructor makes.
unfoldable pub changed : Change → Timer → Timer
changed (stopping i) t = record t { caller = awaiting i }
changed (launching i) t = record t { caller = idle }
changed destroying t = record t { caller = gone; stop_pending = true }

unfoldable pub caller_at : Caller → Timer → Timer
unfolding accept stop_returns changed
caller_at idle t = accept t.requests t
caller_at gone t = t
caller_at (storing_info c) t = record t { caller = storing_running c; timer_info = new_info c }
caller_at (storing_running c) t = record t {
  caller = storing_pending c;
  timer_running = new_running c;
}
caller_at (storing_pending c) t = record t { caller = notifying c; idle_pending = new_pending c }
caller_at (notifying c) t = changed c (record t { worker = notified_worker t.worker })
caller_at (awaiting i) t =
    if worker_holds_mutex t.worker
    then t
    else if t.idle_running
    then stop_returns i t
    else record t { caller = parked i }
caller_at (parked i) t = record t { caller = asleep i }
caller_at (asleep i) t = t

-- Who takes a step; a sleeping thread may also wake up by itself.
pub data Mover : Type 0 where
  by_worker by_caller waking_worker waking_caller : Mover

unfoldable pub step : Mover → Timer → Timer
unfolding worker_at caller_at
step by_worker t = worker_at t.worker t
step by_caller t = caller_at t.caller t
step waking_worker t = record t { worker = notified_worker t.worker }
step waking_caller t = record t { caller = notified_caller t.caller }

unfoldable pub run : List Mover → Timer → Timer
unfolding step
run [] t = t
run (m ∷ schedule) t = run schedule (step m t)

-- A timer behind its constructor, before the worker takes its first step.
unfoldable pub new_timer : List Request → Timer
new_timer requests = record {
  stop_pending = false;
  idle_running = true;
  idle_pending = true;
  timer_running = false;
  timer_info = none;
  worker = checking;
  caller = idle;
  requests = requests;
  log = [];
}
