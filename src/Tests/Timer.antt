-- ===== src/Tests/Timer.antt =====
-- A timer that is started once, and stopped.
use cpp_essence.Prelude.{◌≡◌, refl, false, List, [], ◌∷◌, ◌++◌, some, replicate}
use cpp_essence.Numeric.Rational.{pos}
use cpp_essence.Thread.Timer.{
  TimerInfo, idle, start, stop, called, started, stopped, Request, Mover, by_worker, by_caller,
  step, run, worker_at, caller_at, accept, stop_returns, changed, is_valid, new_timer,
}
use cpp_essence.Thread.Timer.Orderly.{IsOrderly, current, run-IsOrderly}
use cpp_essence.Thread.Timer.Live.{stuck}
use cpp_essence.Thread.Timer.Return.{Returns, stop-Returns}
use cpp_essence.Thread.Timer.Lost.{start_lost, stopped_spins}

abbrev info : TimerInfo
info = record { callback = some 7; period = pos 100; deferred_time = pos 0 }

abbrev once : List Request
once = start info ∷ stop ∷ []

-- The worker goes to sleep, the caller starts the timer, and the worker calls the callback.
abbrev first_call : List Mover
first_call = replicate 4 by_worker ++ replicate 10 by_caller ++ replicate 7 by_worker

-- The caller is in `stop` when the worker is behind its callback.
abbrev waiting : List Mover
waiting = first_call ++ replicate 6 by_caller

abbrev at_rest : List Mover
at_rest = waiting ++ replicate 1 by_caller ++ replicate 6 by_worker ++ replicate 2 by_caller

called_once : (run first_call (new_timer once)).log ≡ called info ∷ started info ∷ stopped ∷ []
unfolding run step worker_at caller_at accept stop_returns changed is_valid new_timer
called_once = refl

abbrev lost : List Mover
lost = replicate 3 by_worker ++ replicate 6 by_caller ++ by_worker ∷ replicate 3 by_caller

run-IsOrderly_example : IsOrderly (run first_call (new_timer once)).log
run-IsOrderly_example = run-IsOrderly once first_call

stop-Returns_example : Returns 14 (run waiting (new_timer once))
unfolding run step worker_at caller_at accept stop_returns changed is_valid new_timer
stop-Returns_example = stop-Returns once waiting refl

start_lost_example :
    let t = run lost (new_timer once) in
    let u = run (by_caller ∷ replicate 50 by_worker) t in
    (u.caller ≡ idle) × (u.log ≡ t.log) × (current u.log ≡ some info)
unfolding run step worker_at caller_at accept stop_returns changed is_valid new_timer
start_lost_example = start_lost once lost info 50 refl refl

stopped_spins_example :
    stuck (run (replicate 50 by_worker) (run at_rest (new_timer once))).worker ≡ false
unfolding run step worker_at caller_at accept stop_returns changed is_valid new_timer
stopped_spins_example = stopped_spins once at_rest 50 refl refl refl refl
