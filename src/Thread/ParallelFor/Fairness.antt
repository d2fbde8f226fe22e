-- ===== src/Thread/ParallelFor/Fairness.antt =====
-- Every order of steps that is fair to the workers ends.
use cpp_essence.Prelude.{
  ℕ, zero, suc, ◌+◌, ◌-◌, ◌*◌, ◌^◌, ◌≤◌, ◌<◌, max, ◌≡◌, refl, ap, subst, sym, ◌∙◌, Bool, true,
  false, ◌||◌, List, [], ◌∷◌, none, some, ltb, ◌==◌, get_elem?, length, All, arith, Option-cases,
  inl, inr, ◌⊎◌, Bool-cases, ltb→lt,
}
use cpp_essence.Thread.ParallelFor.{
  Outcome, returned, thrown, Worker, fetching, fetched, calling, finished, advance, System,
  set_elem, step_of, step, run, new_system,
}
use cpp_essence.Thread.ParallelFor.Account.{total}
use cpp_essence.Thread.ParallelFor.Invariant.{Inv, run-Inv, new_system-Inv}
use cpp_essence.Thread.ParallelFor.Calls.{IsFinished}
use cpp_essence.Thread.ParallelFor.Progress.{
  weight, measure, moves, effective, run-measure, new_system-measure,
}

abbrev pub has : ℕ → List (ℕ × Outcome) → Bool
has i [] = false
has i (e ∷ schedule) = (e.0 == i) || has i schedule

-- Each of n workers takes a step, some perhaps more than one.
abbrev pub Covers : ℕ → List (ℕ × Outcome) → Type 0
Covers zero schedule = Unit
Covers (suc n) schedule = (has n schedule ≡ true) × Covers n schedule

unfoldable pub run_rounds : ℕ → List (List (ℕ × Outcome)) → System → System
unfolding run
run_rounds end [] s = s
run_rounds end (round ∷ rounds) s = run_rounds end rounds (run end round s)

set_elem-same :
    (i : ℕ) (w : Worker) (ws : List Worker) → get_elem? ws i ≡ some w → set_elem i w ws ≡ ws
set_elem-same zero w [] e = ground arith
set_elem-same (suc i) w [] e = ground arith
set_elem-same zero w (v ∷ ws) e = ground (arith, e)
set_elem-same (suc i) w (v ∷ ws) e = ap (◌∷◌ v) (set_elem-same i w ws e)

moves-finished : (w : Worker) → moves (some w) ≡ 0 → w ≡ finished
moves-finished (fetching exit) h = ground (arith, h)
moves-finished (fetched id exit) h = ground (arith, h)
moves-finished (calling id) h = ground (arith, h)
moves-finished finished h = refl

finished-idle :
    (end i : ℕ) (o : Outcome) (s : System)
    → get_elem? s.workers i ≡ some finished
    → step_of end i o (some finished) s ≡ s
unfolding step_of advance
finished-idle end i (returned exit) s e =
    ap (λ ws. record { workers = ws; memory = s.memory }) (set_elem-same i finished s.workers e)
finished-idle end i (thrown t) s e =
    ap (λ ws. record { workers = ws; memory = s.memory }) (set_elem-same i finished s.workers e)

-- A step of a worker that has finished.
step-idle :
    (end i : ℕ) (o : Outcome) (s : System)
    → moves (get_elem? s.workers i) ≡ 0
    → step end (i, o) s ≡ s
unfolding step
step-idle end i o s h = elim (Option-cases (get_elem? s.workers i)) [
  | inl e ↦ rw e (unfold step_of in refl)
  | inr (w, e) ↦ rw e (
      rw (moves-finished w (ap moves (sym e) ∙ h))
        (finished-idle end i o s (e ∙ ap some (moves-finished w (ap moves (sym e) ∙ h)))))
]

run-idle :
    (end : ℕ) (schedule : List (ℕ × Outcome)) (s : System)
    → ((i : ℕ) → moves (get_elem? s.workers i) ≡ 0)
    → run end schedule s ≡ s
unfolding run
run-idle end [] s h = refl
run-idle end ((i, o) ∷ schedule) s h = rw (step-idle end i o s (h i)) (run-idle end schedule s h)

run_rounds-idle :
    (end : ℕ) (rounds : List (List (ℕ × Outcome))) (s : System)
    → ((i : ℕ) → moves (get_elem? s.workers i) ≡ 0)
    → run_rounds end rounds s ≡ s
unfolding run_rounds
run_rounds-idle end [] s h = refl
run_rounds-idle end (round ∷ rounds) s h =
    rw (run-idle end round s h) (run_rounds-idle end rounds s h)

-- In a schedule without a step of a worker that has not finished, all its workers have finished.
effective-idle :
    (end i : ℕ) (schedule : List (ℕ × Outcome)) (s : System)
    → effective end schedule s ≡ 0
    → has i schedule ≡ true
    → moves (get_elem? s.workers i) ≡ 0
effective-idle end i [] s h there = ground arith
effective-idle end i ((j, o) ∷ schedule) s h there = elim (Bool-cases (j == i)) [
  | inl e ↦ ap (λ k. moves (get_elem? s.workers k)) (same e) ∙ omega (arith, h)
  | inr e ↦
      effective-idle end i schedule s
        (ap (effective end schedule) (sym (step-idle end j o s (omega (arith, h))))
          ∙ omega (arith, h))
        (ground (arith, there, e))
]
  where
    same : (j == i) ≡ true → i ≡ j
    same e = ground (arith, e)

Covers-has :
    (n i : ℕ) (schedule : List (ℕ × Outcome)) → Covers n schedule → i < n → has i schedule ≡ true
Covers-has zero i schedule h small = ground arith
Covers-has (suc n) i schedule h small = ground (arith, h, Covers-has n i schedule h.1)

get_elem?-beyond : (i : ℕ) (ws : List Worker) → length ws ≤ i → get_elem? ws i ≡ none
get_elem?-beyond i [] h = refl
get_elem?-beyond zero (w ∷ ws) h = ground arith
get_elem?-beyond (suc i) (w ∷ ws) h = get_elem?-beyond i ws (omega (arith, h))

idle-IsFinished : (ws : List Worker) → ((i : ℕ) → moves (get_elem? ws i) ≡ 0) → All IsFinished ws
idle-IsFinished [] h = tt
idle-IsFinished (w ∷ ws) h = (moves-finished w (h 0), idle-IsFinished ws (λ i. h (suc i)))

light-IsFinished : (end : ℕ) (ws : List Worker) → total (weight end) ws ≡ 0 → All IsFinished ws
light-IsFinished end [] h = tt
light-IsFinished end (w ∷ ws) h =
    (light w (omega (arith, h)), light-IsFinished end ws (omega (arith, h)))
  where
    light : (w : Worker) → weight end w ≡ 0 → w ≡ finished
    light (fetching exit) e = ground arith
    light (fetched id exit) e = ground arith
    light (calling id) e = ground arith
    light finished e = refl

rounds-IsFinished :
    (start end n : ℕ) (rounds : List (List (ℕ × Outcome))) (s : System)
    → max start end + n < 2 ^ 64
    → Inv start end n s
    → All (Covers n) rounds
    → measure end s ≤ length rounds
    → All IsFinished (run_rounds end rounds s).workers
unfolding run_rounds
rounds-IsFinished start end n [] s small h fair enough =
    light-IsFinished end s.workers (omega (arith, enough))
rounds-IsFinished start end n (round ∷ rounds) s small h (fair, others) enough =
    elim (Nat-cases (effective end round s)) [
      | inl e ↦
          subst (λ (t : System). All IsFinished t.workers)
            (sym (run_rounds-idle end (round ∷ rounds) s (stuck e)))
            (idle-IsFinished s.workers (stuck e))
      | inr e ↦
          rounds-IsFinished start end n rounds (run end round s) small
            (run-Inv start end n round s small h) others
            (omega (arith, enough, e, run-measure start end n round s small h))
    ]
  where
    stuck : effective end round s ≡ 0 → (i : ℕ) → moves (get_elem? s.workers i) ≡ 0
    stuck e i = elim (Bool-cases (ltb i n)) [
      | inl small ↦ effective-idle end i round s e (Covers-has n i round fair (ltb→lt i n small))
      | inr large ↦ ap moves (get_elem?-beyond i s.workers (ground (arith, h.size, large)))
    ]

    Nat-cases : (k : ℕ) → (k ≡ 0) ⊎ (0 < k)
    Nat-cases zero = inl refl
    Nat-cases (suc k) = inr (omega arith)

-- If the counter cannot wrap around, all workers have finished after so many rounds in each of
-- which every worker takes a step: three for each number of the range and two for each worker.
pub fair_rounds_finish :
    (start end n : ℕ) (rounds : List (List (ℕ × Outcome)))
    → max start end + n < 2 ^ 64
    → All (Covers n) rounds
    → 3 * (end - start) + 2 * n ≤ length rounds
    → All IsFinished (run_rounds end rounds (new_system start n)).workers
fair_rounds_finish start end n rounds small fair enough =
    rounds-IsFinished start end n rounds (new_system start n) small (new_system-Inv start end n)
      fair (omega (arith, enough, new_system-measure start end n))
