-- ===== src/Thread/Timer/Return.antt =====
-- `stop` can always return: what the sleeping caller waits for comes, and it is notified.
use cpp_essence.Prelude.{
  ℕ, zero, suc, ◌≤◌, Bool, true, false, List, [], ◌∷◌, Option, ◌≡◌, refl, ◌⊎◌, inl, inr, arith,
  length, All,
}
use cpp_essence.Thread.Timer.Orderly.{Inv, reached-Inv, step-Inv, worker_at-Inv}
use cpp_essence.Thread.Timer.{
  TimerInfo, Worker, checking, testing, parking, starting, clearing, loading, ending, resetting,
  deferring, deferred, looping, calling, sleeping, Caller, awaiting, parked, asleep, Request, Timer,
  worker_at, caller_at, stop_returns, Mover, by_worker, by_caller, step, run, new_timer, is_valid,
  worker_holds_mutex,
}
use cpp_essence.Thread.Timer.Live.{waits, Live, worker_at-Live, step-Live, reached-Live}

-- How many steps the worker is away from its notification, at most.
abbrev distance : Worker → ℕ
distance checking = 0
distance resetting = 1
distance ending = 2
distance (looping i) = 3
distance (deferred i) = 4
distance (sleeping i) = 4
distance (calling i) = 5
distance (deferring i) = 5
distance loading = 6
distance clearing = 7
distance starting = 8
distance testing = 9
distance w = 10

abbrev pub is_own_step : Mover → Bool
is_own_step by_worker = true
is_own_step by_caller = true
is_own_step m = false

-- Where `stop` can return within `n` steps of the two threads.
pub record Returns (n : ℕ) (t : Timer) : Type 0 where
  pub more : List Mover
  pub few : length more ≤ n
  pub own : All (λ m. is_own_step m ≡ true) more
  pub returned : waits (run more t).caller ≡ false

step-Returns :
    {n : ℕ} (m : Mover) (t : Timer)
    → is_own_step m ≡ true
    → Returns n (step m t)
    → Returns (suc n) t
unfolding run
step-Returns m t own r = record {
  more = m ∷ r.more;
  few = ground (arith, r.few);
  own = (own, r.own);
  returned = r.returned;
}

at_once :
    (i : Option TimerInfo) (t : Timer)
    → t.caller ≡ awaiting i
    → t.idle_running ≡ true
    → worker_holds_mutex t.worker ≡ false
    → Returns 1 t
unfolding run step caller_at stop_returns
at_once i t e q s = record {
  more = by_caller ∷ [];
  few = omega arith;
  own = (refl, tt);
  returned = ground arith;
}

-- A step of the worker notifies the caller or comes closer to that.
closer :
    (i : Option TimerInfo) (w : Worker) (t : Timer)
    → t.worker ≡ w
    → t.caller ≡ asleep i
    → Inv t
    → Live t
    → ((worker_at w t).caller ≡ awaiting i)
        × ((worker_at w t).idle_running ≡ true)
        × (worker_holds_mutex (worker_at w t).worker ≡ false)
      ⊎ ((worker_at w t).caller ≡ asleep i) × (suc (distance (worker_at w t).worker) ≤ distance w)
unfolding worker_at is_valid
closer i w t e c v h = ground (arith, h.free, h.alive, h.halted, h.awake, h.open_way, v.cleared)

more_steps : {m n : ℕ} (t : Timer) → m ≤ n → Returns m t → Returns n t
more_steps t le r = record {
  more = r.more;
  few = omega (arith, le, r.few);
  own = r.own;
  returned = r.returned;
}

approach :
    (n : ℕ) (i : Option TimerInfo) (t : Timer)
    → t.caller ≡ asleep i
    → distance t.worker ≤ n
    → Inv t
    → Live t
    → Returns (suc (suc n)) t
unfolding step
approach zero i t c d v h = elim (closer i t.worker t refl c v h) [
  | inl (c', q, s) ↦ step-Returns by_worker t refl (at_once i (worker_at t.worker t) c' q s)
  | inr (c', nearer) ↦ absurd (omega (arith, d, nearer))
]
approach (suc n) i t c d v h = elim (closer i t.worker t refl c v h) [
  | inl (c', q, s) ↦
      more_steps t (omega arith)
        (step-Returns by_worker t refl (at_once i (worker_at t.worker t) c' q s))
  | inr (c', nearer) ↦ step-Returns by_worker t refl (
      approach n i (worker_at t.worker t) c' (omega (arith, d, nearer))
        (worker_at-Inv t.worker t refl v) (worker_at-Live t.worker t refl v h))
]

distance-le : (w : Worker) → distance w ≤ 10
distance-le w = ground arith

from_asleep :
    (i : Option TimerInfo) (t : Timer) → t.caller ≡ asleep i → Inv t → Live t → Returns 12 t
from_asleep i t c v h = approach 10 i t c (distance-le t.worker) v h

from_parked :
    (i : Option TimerInfo) (t : Timer) → t.caller ≡ parked i → Inv t → Live t → Returns 13 t
unfolding step caller_at
from_parked i t c v h = step-Returns by_caller t refl (
    from_asleep i (step by_caller t) (ground arith) (step-Inv by_caller t v)
      (step-Live by_caller t v h))

awaited :
    (i : Option TimerInfo) (t : Timer)
    → t.caller ≡ awaiting i
    → Live t
    → (t.worker ≡ parking) × (t.idle_running ≡ true)
      ⊎ ((waits (step by_caller t).caller ≡ false) ⊎ ((step by_caller t).caller ≡ parked i))
unfolding step caller_at stop_returns
awaited i t c h = ground (arith, h.free)

from_awaiting :
    (i : Option TimerInfo) (t : Timer) → t.caller ≡ awaiting i → Inv t → Live t → Returns 14 t
unfolding run step worker_at
from_awaiting i t c v h = elim (awaited i t c h) [
  | inl (p, q) ↦ more_steps t (omega arith) (
      step-Returns by_worker t refl
        (at_once i (step by_worker t) (ground arith) (ground arith) (ground arith)))
  | inr (inl r) ↦ record {
    more = by_caller ∷ [];
    few = omega arith;
    own = (refl, tt);
    returned = r;
  }
  | inr (inr p) ↦
      step-Returns by_caller t refl
        (from_parked i (step by_caller t) p (step-Inv by_caller t v) (step-Live by_caller t v h))
]

from_waits :
    (c : Caller) (t : Timer) → t.caller ≡ c → waits c ≡ true → Inv t → Live t → Returns 14 t
from_waits (awaiting i) t e q v h = from_awaiting i t e v h
from_waits (parked i) t e q v h = more_steps t (omega arith) (from_parked i t e v h)
from_waits (asleep i) t e q v h = more_steps t (omega arith) (from_asleep i t e v h)
from_waits c t e q v h = absurd (ground arith)

-- `stop` never hangs for good: whenever a caller waits in it, whatever happened before, there are at
-- most fourteen steps of the worker and the caller, none of them a spurious awakening, after which
-- it does not wait any more.
pub stop-Returns :
    (requests : List Request) (schedule : List Mover)
    → waits (run schedule (new_timer requests)).caller ≡ true
    → Returns 14 (run schedule (new_timer requests))
stop-Returns requests schedule q =
    let t = run schedule (new_timer requests) in
    from_waits t.caller t refl q (reached-Inv requests schedule) (reached-Live requests schedule)
