-- ===== src/Thread/Timer/Lost.antt =====
-- Two orders of steps that go wrong: a start that is lost, and a worker that does not sleep.
use cpp_essence.Prelude.{
  ℕ, zero, suc, false, List, ◌∷◌, none, some, ◌≡◌, refl, ap, ◌∙◌, arith, replicate, ◌⊎◌,
}
use cpp_essence.Thread.Timer.Orderly.{Inv, current, launched, reached-Inv, worker_at-Inv}
use cpp_essence.Thread.Timer.Live.{Live, stuck, reached-Live, worker_at-Live}
use cpp_essence.Thread.Timer.{
  TimerInfo, Worker, parking, blocked, launching, idle, notifying, Request, Event, Timer, worker_at,
  caller_at, changed, Mover, by_worker, by_caller, step, run, new_timer, is_valid,
}

-- The worker sleeps, and only the caller could wake it.
record Sleeps (i : TimerInfo) (log : List Event) (t : Timer) : Type 0 where
  at : (t.worker ≡ parking) ⊎ (t.worker ≡ blocked)
  done : t.caller ≡ idle
  same : t.log ≡ log

run-Sleeps :
    {i : TimerInfo} {log : List Event} (n : ℕ) (t : Timer)
    → Sleeps i log t
    → Sleeps i log (run (replicate n by_worker) t)
unfolding run step worker_at
run-Sleeps zero t h = h
run-Sleeps {i} {log} (suc n) t h = run-Sleeps n (step by_worker t) (record {
  at = ground (arith, h.at);
  done = ground (arith, h.at, h.done);
  same = ground (arith, h.at, h.same);
})

-- If the worker has tested its condition and is on its way to sleep when `start` notifies it, the
-- notification is lost: `start` returns and its callback is current, but however many steps the worker
-- takes it is not called.
pub start_lost :
    (requests : List Request) (schedule : List Mover) (i : TimerInfo) (n : ℕ)
    → (run schedule (new_timer requests)).worker ≡ parking
    → (run schedule (new_timer requests)).caller ≡ notifying (launching i)
    → let t = run schedule (new_timer requests) in
      let u = run (by_caller ∷ replicate n by_worker) t in
      (u.caller ≡ idle) × (u.log ≡ t.log) × (current u.log ≡ some i)
unfolding run step caller_at changed
start_lost requests schedule i n w c =
    let t = run schedule (new_timer requests) in
    let h =
      run-Sleeps {i = i} {log = t.log} n (step by_caller t)
        (record { at = ground arith; done = ground arith; same = ground arith }) in
    (h.done, h.same, ap current h.same ∙ (reached-Inv requests schedule).launch i (ap launched c))

record Spins (t : Timer) : Type 0 where
  inv : Inv t
  live : Live t
  at_rest : t.caller ≡ idle
  off : current t.log ≡ none
  open_way : t.idle_pending ≡ false
  up : stuck t.worker ≡ false

worker_at-Spins : (w : Worker) (t : Timer) → t.worker ≡ w → Spins t → Spins (worker_at w t)
unfolding worker_at is_valid
worker_at-Spins w t e h = record {
  inv = worker_at-Inv w t e h.inv;
  live = worker_at-Live w t e h.inv h.live;
  at_rest = ground (arith, h.at_rest);
  off = off_still w e;
  open_way = ground (arith, h.open_way, h.up);
  up = ground (arith, h.open_way, h.up, h.live.alive, h.at_rest);
}
  where
    off_still : (w : Worker) → t.worker ≡ w → current (worker_at w t).log ≡ none
    off_still w e = ground (arith, h.off)

run-Spins : (n : ℕ) (t : Timer) → Spins t → Spins (run (replicate n by_worker) t)
unfolding run step
run-Spins zero t h = h
run-Spins (suc n) t h = run-Spins n (worker_at t.worker t) (worker_at-Spins t.worker t refl h)

-- When a timer is stopped, a worker that does not sleep and has come behind the store at the end of its
-- round never sleeps again: after any number of its own steps it is at no wait for a start.
pub stopped_spins :
    (requests : List Request) (schedule : List Mover) (n : ℕ)
    → (run schedule (new_timer requests)).caller ≡ idle
    → current (run schedule (new_timer requests)).log ≡ none
    → (run schedule (new_timer requests)).idle_pending ≡ false
    → stuck (run schedule (new_timer requests)).worker ≡ false
    → stuck (run (replicate n by_worker) (run schedule (new_timer requests))).worker ≡ false
stopped_spins requests schedule n c off p s =
    (run-Spins n (run schedule (new_timer requests)) (record {
      inv = reached-Inv requests schedule;
      live = reached-Live requests schedule;
      at_rest = c;
      off = off;
      open_way = p;
      up = s;
    })).up
