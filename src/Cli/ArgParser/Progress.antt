-- ===== src/Cli/ArgParser/Progress.antt =====
-- The loop over the arguments ends (src/cli/arg_parser.cpp), and what a parse never changes.
use cpp_essence.Prelude.{
  ℕ, zero, suc, ◌+◌, ◌≤◌, ◌<◌, ◌≡◌, refl, ap, ◌∙◌, inl, inr, Bool, false, ◌||◌, List, [], ◌∷◌, none,
  some, arith, length, get_elem?, Bytes, Option-cases,
}
use cpp_essence.Cli.Matching.{
  AbstractOption, is_some, check_option_prefix, split_argument, match_option,
}
use cpp_essence.Cli.ArgParser.{
  ArgParser, Round, leaves, goes_on, Loop, rejected, accepted, match_round, match_loop,
  parse_argument, parse_loop, value_or, next_value, after_loop, then_round, parse_and_accept,
}

get_elem?-none {ℓ} : {A : Type ℓ} (xs : List A) (i : ℕ) → get_elem? xs i ≡ none → length xs ≤ i
get_elem?-none [] i e = omega arith
get_elem?-none (x ∷ xs) zero e = cc
get_elem?-none (x ∷ xs) (suc i) e = omega (arith, get_elem?-none xs i e)

pub get_elem?-some {ℓ} :
    {A : Type ℓ} (xs : List A) (i : ℕ) (a : A) → get_elem? xs i ≡ some a → i < length xs
get_elem?-some [] i a e = cc
get_elem?-some (x ∷ xs) zero a e = omega arith
get_elem?-some (x ∷ xs) (suc i) a e = omega (arith, get_elem?-some xs i a e)

get_elem?-past {ℓ} : {A : Type ℓ} (xs : List A) (i : ℕ) → length xs ≤ i → get_elem? xs i ≡ none
get_elem?-past [] i h = refl
get_elem?-past (x ∷ xs) zero h = absurd (omega arith)
get_elem?-past (x ∷ xs) (suc i) h = get_elem?-past xs i (omega arith)

module _ {ℓ} {Store : Type ℓ} (parse_value : AbstractOption → Bytes → Store → Bool × Store) where
  -- What no step changes.
  pub record Keeps (p q : ArgParser Store) : Type ℓ where
    pub args : q.args ≡ p.args
    pub options : q.options ≡ p.options
    pub option_mapping : q.option_mapping ≡ p.option_mapping

  Keeps-refl : (p : ArgParser Store) → Keeps p p
  Keeps-refl p = record { args = refl; options = refl; option_mapping = refl }

  Keeps-trans : {p q r : ArgParser Store} → Keeps p q → Keeps q r → Keeps p r
  Keeps-trans h k = record {
    args = k.args ∙ h.args;
    options = k.options ∙ h.options;
    option_mapping = k.option_mapping ∙ h.option_mapping;
  }

  abbrev RoundKeeps : ArgParser Store → Round Store → Type ℓ
  RoundKeeps p (leaves q) = Keeps p q
  RoundKeeps p (goes_on v q) = Keeps p q

  abbrev LoopKeeps : ArgParser Store → Loop Store → Type ℓ
  LoopKeeps p (rejected q) = Keeps p q
  LoopKeeps p (accepted b q) = Keeps p q

  match_round-Keeps :
      (arg : Bytes) (drops single : Bool) (o : AbstractOption) (value : Bytes) (p : ArgParser Store)
      → RoundKeeps p (match_round parse_value arg drops single o value p)
  unfolding match_round parse_and_accept
  match_round-Keeps arg drops single o value p = ground arith

  LoopKeeps-trans :
      {p q : ArgParser Store} (l : Loop Store) → Keeps p q → LoopKeeps q l → LoopKeeps p l
  LoopKeeps-trans (rejected r) h k = Keeps-trans h k
  LoopKeeps-trans (accepted b r) h k = Keeps-trans h k

  then_round-Keeps :
      (p : ArgParser Store) (r : Round Store) (rest : Bytes → ArgParser Store → Loop Store)
      → RoundKeeps p r
      → ((v : Bytes) (q : ArgParser Store) → LoopKeeps q (rest v q))
      → LoopKeeps p (then_round r rest)
  then_round-Keeps p (leaves q) rest h k = h
  then_round-Keeps p (goes_on v q) rest h k = LoopKeeps-trans (rest v q) h (k v q)

  match_loop-Keeps :
      (arg : Bytes) (next : Bool) (matched : List (Bool × AbstractOption)) (any : Bool)
      (value : Bytes) (p : ArgParser Store)
      → LoopKeeps p (match_loop parse_value arg next matched any value p)
  unfolding match_loop
  match_loop-Keeps arg next [] any value p = Keeps-refl p
  match_loop-Keeps arg next ((single, o) ∷ rest) any value p =
      then_round-Keeps p _ _ (match_round-Keeps arg _ single o value p)
        (match_loop-Keeps arg next rest (o.is_boolean || any))

  -- The index does not go back, and where it goes on the parser keeps its options.
  abbrev pub Advances : ℕ → ArgParser Store → ArgParser Store × ℕ → Type ℓ
  Advances index p r = (index ≤ r.1) × Keeps p r.0

  after_loop-Advances :
      (index : ℕ) (next : Bool) (p : ArgParser Store) (l : Loop Store)
      → index < length p.args
      → LoopKeeps p l
      → Advances index p (after_loop parse_value index next l)
  after_loop-Advances index next p (rejected q) h k = (rw (k.args) (omega arith), k)
  after_loop-Advances index next p (accepted b q) h k = (ground arith, k)

  pub parse_argument-Advances :
      (index : ℕ) (arg : Bytes) (p : ArgParser Store)
      → index < length p.args
      → Advances index p (parse_argument parse_value index arg p)
  unfolding parse_argument
  parse_argument-Advances index arg p h =
      let name = (split_argument arg).0 in
      let next = next_value p.args index (split_argument arg).1 in
      let matched =
        match_option p.option_mapping name (check_option_prefix name).0
          (check_option_prefix name).1 in
      let loop =
        match_loop parse_value arg (is_some next) matched false
          (value_or next (split_argument arg).1) p in
      ground (
        arith,
        after_loop-Advances index (is_some next) p loop h (
            match_loop-Keeps arg (is_some next) matched false (value_or next (split_argument arg).1)
              p),
      )

  parse_loop_done :
      (fuel index : ℕ) (p : ArgParser Store)
      → length p.args ≤ index
      → parse_loop parse_value fuel index p ≡ (p, index)
  unfolding parse_loop
  parse_loop_done zero index p h = refl
  parse_loop_done (suc fuel) index p h = rw (get_elem?-past p.args index h, parse_loop) refl

  -- With at least as much fuel as there are arguments left, the loop ends by its test, past the
  -- last argument, with the arguments and the options as they were; more fuel changes nothing.
  pub parse_loop_total :
      (fuel more index : ℕ) (p : ArgParser Store)
      → length p.args ≤ index + fuel
      → (length p.args ≤ (parse_loop parse_value fuel index p).1)
        × Keeps p (parse_loop parse_value fuel index p).0
        × (parse_loop parse_value (fuel + more) index p ≡ parse_loop parse_value fuel index p)
  unfolding parse_loop
  parse_loop_total zero more index p h =
      (omega arith, Keeps-refl p, parse_loop_done (zero + more) index p (omega arith))
  parse_loop_total (suc fuel) more index p h = elim (Option-cases (get_elem? p.args index)) [
    | inl e ↦
        let past = get_elem?-none p.args index e in
        rw (parse_loop_done (suc fuel) index p past, parse_loop_done (suc fuel + more) index p past)
          (past, Keeps-refl p, refl)
    | inr (arg, e) ↦
        let (forward, keeps) =
          parse_argument-Advances index arg p (get_elem?-some p.args index arg e) in
        let (q, i) = parse_argument parse_value index arg p in
        let more_fuel : suc fuel + more ≡ suc (fuel + more) = omega arith in
        let (past, kept, same) =
          parse_loop_total fuel more (i + 1) q (rw keeps.args (omega arith)) in
        rw (more_fuel, e, parse_loop)
          (omega (arith, ap length keeps.args), Keeps-trans keeps kept, same)
  ]
