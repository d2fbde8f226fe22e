-- ===== src/Thread/Timer/Live.antt =====
-- What makes sure that a sleeping caller is notified.
use cpp_essence.Prelude.{Bool, true, false, List, [], ◌∷◌, ◌≡◌, refl, arith}
use cpp_essence.Thread.Timer.Orderly.{Inv, in_round, new_timer-Inv, step-Inv}
use cpp_essence.Thread.Timer.{
  Worker, checking, testing, parking, blocked, starting, ended, stopping, Caller, gone,
  storing_pending, notifying, awaiting, parked, asleep, Request, Timer, worker_at, caller_at,
  accept, stop_returns, changed, Mover, by_worker, by_caller, waking_worker, waking_caller, step,
  run, new_timer, is_valid,
}

abbrev pub waits : Caller → Bool
waits (awaiting i) = true
waits (parked i) = true
waits (asleep i) = true
waits c = false

abbrev sleeps : Caller → Bool
sleeps (parked i) = true
sleeps (asleep i) = true
sleeps c = false

-- The worker waits, or its thread is at its end.
abbrev pub stuck : Worker → Bool
stuck parking = true
stuck blocked = true
stuck ended = true
stuck w = false

abbrev before_round : Worker → Bool
before_round checking = true
before_round testing = true
before_round starting = true
before_round w = false

-- Behind the store of `false` in `stop`.
abbrev halting : Caller → Bool
halting (storing_pending (stopping i)) = true
halting (notifying (stopping i)) = true
halting c = waits c

abbrev pub is_gone : Caller → Bool
is_gone gone = true
is_gone c = false

pub record Live (t : Timer) : Type 0 where
  pub free : in_round t.worker ≡ false → t.idle_running ≡ true
  pub alive : is_gone t.caller ≡ false → t.stop_pending ≡ false
  pub halted : halting t.caller ≡ true → t.timer_running ≡ false
  pub awake : sleeps t.caller ≡ true → stuck t.worker ≡ false
  pub open_way : sleeps t.caller ≡ true → before_round t.worker ≡ true → t.idle_pending ≡ false

pub worker_at-Live : (w : Worker) (t : Timer) → t.worker ≡ w → Inv t → Live t → Live (worker_at w t)
unfolding worker_at is_valid
worker_at-Live w t e v h = record {
  free = ground (arith, h.free);
  alive = ground (arith, h.alive);
  halted = ground (arith, h.halted);
  awake = ground (arith, h.awake, h.open_way, h.alive);
  open_way = ground (arith, h.awake, h.open_way);
}

caller_at-Live : (c : Caller) (t : Timer) → t.caller ≡ c → Inv t → Live t → Live (caller_at c t)
unfolding caller_at accept stop_returns changed
caller_at-Live c t e v h = record {
  free = ground (arith, h.free);
  alive = ground (arith, h.alive);
  halted = ground (arith, h.halted);
  awake = ground (arith, h.awake, h.free);
  open_way = ground (arith, h.open_way, h.free);
}

pub step-Live : (m : Mover) (t : Timer) → Inv t → Live t → Live (step m t)
unfolding step
step-Live by_worker t v h = worker_at-Live t.worker t refl v h
step-Live by_caller t v h = caller_at-Live t.caller t refl v h
step-Live waking_worker t v h = record {
  free = ground (arith, h.free);
  alive = h.alive;
  halted = h.halted;
  awake = ground (arith, h.awake);
  open_way = ground (arith, h.awake, h.open_way);
}
step-Live waking_caller t v h = record {
  free = h.free;
  alive = ground (arith, h.alive);
  halted = ground (arith, h.halted);
  awake = ground (arith, h.awake);
  open_way = ground (arith, h.open_way);
}

run-Live : (schedule : List Mover) (t : Timer) → Inv t → Live t → Live (run schedule t)
unfolding run
run-Live [] t v h = h
run-Live (m ∷ schedule) t v h = run-Live schedule (step m t) (step-Inv m t v) (step-Live m t v h)

new_timer-Live : (requests : List Request) → Live (new_timer requests)
unfolding new_timer
new_timer-Live requests = record {
  free = λ q. refl;
  alive = λ q. refl;
  halted = λ q. refl;
  awake = λ q. refl;
  open_way = λ q. cc;
}

pub reached-Live :
    (requests : List Request) (schedule : List Mover) → Live (run schedule (new_timer requests))
reached-Live requests schedule =
    run-Live schedule (new_timer requests) (new_timer-Inv requests) (new_timer-Live requests)
