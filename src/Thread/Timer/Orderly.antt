-- ===== src/Thread/Timer/Orderly.antt =====
-- Which callbacks are called, in every order of the steps.
use cpp_essence.Prelude.{Bool, true, false, List, [], ◌∷◌, Option, none, some, ◌≡◌, refl, ap, arith}
use cpp_essence.Thread.Timer.{
  TimerInfo, Worker, clearing, loading, ending, deferring, deferred, looping, calling, sleeping,
  stopping, launching, Caller, storing_info, storing_running, storing_pending, notifying, awaiting,
  parked, asleep, Request, Event, started, called, stopped, Timer, worker_at, caller_at, accept,
  stop_returns, changed, Mover, by_worker, by_caller, waking_worker, waking_caller, step, run,
  new_timer, is_valid,
}

-- What a timer was last started with, unless it was stopped since.
abbrev pub current : List Event → Option TimerInfo
current [] = none
current (started i ∷ log) = some i
current (stopped ∷ log) = none
current (called i ∷ log) = current log

-- Every call is one of the callback that was current at that time.
abbrev pub IsOrderly : List Event → Type 0
IsOrderly [] = Unit
IsOrderly (called i ∷ log) = (current log ≡ some i) × IsOrderly log
IsOrderly (e ∷ log) = IsOrderly log

abbrev pub held : Worker → Option TimerInfo
held (deferring i) = some i
held (deferred i) = some i
held (looping i) = some i
held (calling i) = some i
held (sleeping i) = some i
held w = none

-- From the store behind the wait to the one at the end of the round.
abbrev pub in_round : Worker → Bool
in_round clearing = true
in_round loading = true
in_round (deferring i) = true
in_round (deferred i) = true
in_round (looping i) = true
in_round (calling i) = true
in_round (sleeping i) = true
in_round ending = true
in_round w = false

-- Inside `stop`, behind the store of the empty pointer.
abbrev pub in_stop : Caller → Bool
in_stop (storing_running (stopping i)) = true
in_stop (storing_pending (stopping i)) = true
in_stop (notifying (stopping i)) = true
in_stop (awaiting i) = true
in_stop (parked i) = true
in_stop (asleep i) = true
in_stop c = false

abbrev pub launched : Caller → Option TimerInfo
launched (storing_info (launching i)) = some i
launched (storing_running (launching i)) = some i
launched (storing_pending (launching i)) = some i
launched (notifying (launching i)) = some i
launched c = none

pub record Inv (t : Timer) : Type 0 where
  pub busy : in_round t.worker ≡ true → t.idle_running ≡ false
  pub holds : (i : TimerInfo) → held t.worker ≡ some i → current t.log ≡ some i
  pub shared : (i : TimerInfo) → t.timer_info ≡ some i → current t.log ≡ some i
  pub cleared : in_stop t.caller ≡ true → t.timer_info ≡ none
  pub launch : (i : TimerInfo) → launched t.caller ≡ some i → current t.log ≡ some i
  pub orderly : IsOrderly t.log

worker_at-IsOrderly :
    (w : Worker) (t : Timer) → t.worker ≡ w → Inv t → IsOrderly (worker_at w t).log
unfolding worker_at
worker_at-IsOrderly (calling i) t e h = (h.holds i (ap held e), h.orderly)
worker_at-IsOrderly w t e h = ground (arith, h.orderly)

pub worker_at-Inv : (w : Worker) (t : Timer) → t.worker ≡ w → Inv t → Inv (worker_at w t)
unfolding worker_at is_valid
worker_at-Inv w t e h = record {
  busy = ground (arith, h.busy);
  holds = λ i q. ground (arith, h.holds i, h.shared i);
  shared = λ i q. ground (arith, h.shared i);
  cleared = ground (arith, h.cleared);
  launch = λ i q. ground (arith, h.launch i);
  orderly = worker_at-IsOrderly w t e h;
}

-- Events of the calling thread itself.
caller_at-IsOrderly : (c : Caller) (t : Timer) → Inv t → IsOrderly (caller_at c t).log
unfolding caller_at accept stop_returns changed
caller_at-IsOrderly c t h = ground (arith, h.orderly)

caller_at-Inv : (c : Caller) (t : Timer) → t.caller ≡ c → Inv t → Inv (caller_at c t)
unfolding caller_at accept stop_returns changed
caller_at-Inv c t e h = record {
  busy = ground (arith, h.busy);
  holds = λ i q. ground (arith, h.holds i, h.busy);
  shared = λ i q. ground (arith, h.shared i, h.cleared, h.launch i);
  cleared = ground (arith, h.cleared);
  launch = λ i q. ground (arith, h.launch i);
  orderly = caller_at-IsOrderly c t h;
}

pub step-Inv : (m : Mover) (t : Timer) → Inv t → Inv (step m t)
unfolding step
step-Inv by_worker t h = worker_at-Inv t.worker t refl h
step-Inv by_caller t h = caller_at-Inv t.caller t refl h
step-Inv waking_worker t h = record {
  busy = ground (arith, h.busy);
  holds = λ i q. ground (arith, h.holds i);
  shared = h.shared;
  cleared = h.cleared;
  launch = h.launch;
  orderly = h.orderly;
}
step-Inv waking_caller t h = record {
  busy = h.busy;
  holds = h.holds;
  shared = h.shared;
  cleared = ground (arith, h.cleared);
  launch = λ i q. ground (arith, h.launch i);
  orderly = h.orderly;
}

run-Inv : (schedule : List Mover) (t : Timer) → Inv t → Inv (run schedule t)
unfolding run
run-Inv [] t h = h
run-Inv (m ∷ schedule) t h = run-Inv schedule (step m t) (step-Inv m t h)

pub new_timer-Inv : (requests : List Request) → Inv (new_timer requests)
unfolding new_timer
new_timer-Inv requests = record {
  busy = λ q. cc;
  holds = λ i q. cc;
  shared = λ i q. cc;
  cleared = λ q. cc;
  launch = λ i q. cc;
  orderly = tt;
}

pub reached-Inv :
    (requests : List Request) (schedule : List Mover) → Inv (run schedule (new_timer requests))
reached-Inv requests schedule = run-Inv schedule (new_timer requests) (new_timer-Inv requests)

-- In whatever order the threads take their steps, every callback that is called is the one the
-- timer was last started with, and none is called between the return of `stop` and the next start.
pub run-IsOrderly :
    (requests : List Request) (schedule : List Mover)
    → IsOrderly (run schedule (new_timer requests)).log
run-IsOrderly requests schedule = (reached-Inv requests schedule).orderly
