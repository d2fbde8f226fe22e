-- ===== src/Cli/ArgParser/Covers.antt =====
-- Every option that the loop over the arguments saw has a value (src/cli/arg_parser.cpp).
use cpp_essence.Prelude.{
  ℕ, zero, suc, ◌≡◌, refl, ◌≢◌, ap, subst, sym, ◌∙◌, inl, inr, Bool, true, false, not, ◌&&◌, ◌||◌,
  List, [], ◌∷◌, some, arith, ◌==◌, length, get_elem?, Bytes, All, equal, find, Option-cases,
  Bool-cases, ltb, map, drop,
}
use cpp_essence.Text.{trim}
use cpp_essence.Cli.Matching.{
  AbstractOption, option_name_prefix, is_some, abbreviated, match_option, split_argument,
  check_option_prefix, is_empty,
}
use cpp_essence.Cli.ArgParser.{
  ArgParser, Round, leaves, goes_on, Loop, rejected, accepted, contains_ptr, accept,
  parse_and_accept, match_round, match_loop, then_round, after_loop, parse_argument, parse_loop,
  next_value, value_or,
}
use cpp_essence.Cli.ArgParser.Values.{HasValue, HasValue-insert, HasValue-insert_self}
use cpp_essence.Cli.ArgParser.Progress.{get_elem?-some, parse_argument-Advances}

find-All :
    {V : Type 0} (P : V → Type 0) (k : Bytes) (m : List (Bytes × V)) (v : V)
    → All (λ e. P e.1) m
    → find k m ≡ some v
    → P v
unfolding find
find-All P k [] v h e = cc
find-All P k ((j, w) ∷ m) v (h, t) e = elim (Bool-cases (equal j k)) [
  | inl s ↦ subst P (ground arith) h
  | inr s ↦ find-All P k m v t (ground arith)
]

pub ne_of_contains_nil : (ptr : ℕ) → contains_ptr [] ptr ≢ true
unfolding contains_ptr
ne_of_contains_nil ptr e = cc

-- The pointers of the options tell their names.
module _ (name_of : ℕ → Bytes) where
  abbrev pub IsNamed : AbstractOption → Type 0
  IsNamed o = o.bound_name ≡ name_of o.underlying_ptr

  -- The names by which the values of absent options are stored are the options' own.
  abbrev pub IsKept : AbstractOption → Type 0
  IsKept o = IsNamed o × (trim o.bound_name option_name_prefix ≡ o.bound_name)

  abbreviated-IsNamed :
      (mapping : List (Bytes × AbstractOption)) (s : Bytes)
      → All (λ e. IsNamed e.1) mapping
      → All IsNamed (abbreviated mapping s)
  unfolding abbreviated
  abbreviated-IsNamed mapping [] h = tt
  abbreviated-IsNamed mapping (c ∷ s) h = elim (Option-cases (find (b'-' ∷ c ∷ []) mapping)) [
    | inl e ↦ rw (e, abbreviated) (abbreviated-IsNamed mapping s h)
    | inr (o, e) ↦
        rw (e, abbreviated) (find-All IsNamed _ mapping o h e, abbreviated-IsNamed mapping s h)
  ]

  map-IsNamed :
      (b : Bool) (os : List AbstractOption)
      → All IsNamed os
      → All (λ (m : Bool × AbstractOption). IsNamed m.1) (map (λ o. (b, o)) os)
  map-IsNamed b [] h = tt
  map-IsNamed b (o ∷ os) (h, k) = (h, map-IsNamed b os k)

  match_option-IsNamed :
      (mapping : List (Bytes × AbstractOption)) (name : Bytes) (b c : Bool)
      → All (λ e. IsNamed e.1) mapping
      → All (λ (m : Bool × AbstractOption). IsNamed m.1) (match_option mapping name b c)
  unfolding match_option
  match_option-IsNamed mapping name true c h = elim (Option-cases (find name mapping)) [
    | inl e ↦ rw e tt
    | inr (o, e) ↦ rw e (find-All IsNamed name mapping o h e, tt)
  ]
  match_option-IsNamed mapping name false true h =
      map-IsNamed _ (abbreviated mapping (drop 1 name))
        (abbreviated-IsNamed mapping (drop 1 name) h)
  match_option-IsNamed mapping name false false h = tt

  module _ {ℓ} {Store : Type ℓ} where
    -- Every option that was seen has a value.
    abbrev pub Covers : ArgParser Store → Type 0
    Covers p =
        (ptr : ℕ) → contains_ptr p.present_option_ptrs ptr ≡ true → HasValue p.result (name_of ptr)

    abbrev RoundCovers : Round Store → Type 0
    RoundCovers (leaves q) = Covers q
    RoundCovers (goes_on v q) = Covers q

    abbrev LoopCovers : Loop Store → Type 0
    LoopCovers (rejected q) = Covers q
    LoopCovers (accepted b q) = Covers q

    accept-Covers :
        (o : AbstractOption) (value : Bytes) (p : ArgParser Store)
        → IsNamed o
        → Covers p
        → Covers (accept o value p)
    unfolding contains_ptr
    accept-Covers o value p named h ptr e = elim (Bool-cases (o.underlying_ptr == ptr)) [
      | inl s ↦ subst (HasValue (accept o value p).result) (named ∙ ap name_of (ground arith)) (
          HasValue-insert_self o.bound_name (record { option = o; raw_value = some value }) p.result
            refl)
      | inr s ↦
          HasValue-insert o.bound_name (name_of ptr) (record { option = o; raw_value = some value })
            p.result refl (h ptr (ground arith))
    ]

    then_round-Covers :
        (r : Round Store) (rest : Bytes → ArgParser Store → Loop Store)
        → RoundCovers r
        → ((v : Bytes) (q : ArgParser Store) → Covers q → LoopCovers (rest v q))
        → LoopCovers (then_round r rest)
    then_round-Covers (leaves q) rest h k = h
    then_round-Covers (goes_on v q) rest h k = k v q h

    module _ (parse_value : AbstractOption → Bytes → Store → Bool × Store) where
      parse_and_accept-Covers :
          (arg : Bytes) (o : AbstractOption) (value : Bytes) (p : ArgParser Store)
          → IsNamed o
          → Covers p
          → RoundCovers (parse_and_accept parse_value arg o value p)
      unfolding parse_and_accept
      parse_and_accept-Covers arg o value p named h =
          elim (Bool-cases (parse_value o value p.store).0) [
            | inl e ↦ rw e (
                accept-Covers o value (record p { store = (parse_value o value p.store).1 }) named
                  h)
            | inr e ↦ rw e h
          ]

      match_round-Covers :
          (arg : Bytes) (drops single : Bool) (o : AbstractOption) (value : Bytes)
          (p : ArgParser Store)
          → IsNamed o
          → Covers p
          → RoundCovers (match_round parse_value arg drops single o value p)
      unfolding match_round
      match_round-Covers arg drops single o value p named h =
          elim (Bool-cases (not single && not o.is_boolean)) [
            | inl e ↦ rw e h
            | inr e ↦ rw e (parse_and_accept-Covers arg o _ p named h)
          ]

      match_loop-Covers :
          (arg : Bytes) (next : Bool) (matched : List (Bool × AbstractOption)) (any : Bool)
          (value : Bytes) (p : ArgParser Store)
          → All (λ (m : Bool × AbstractOption). IsNamed m.1) matched
          → Covers p
          → LoopCovers (match_loop parse_value arg next matched any value p)
      unfolding match_loop
      match_loop-Covers arg next [] any value p named h = h
      match_loop-Covers arg next ((single, o) ∷ rest) any value p (named, others) h =
          then_round-Covers _ _ (match_round-Covers arg _ single o value p named h)
            (λ v q k. match_loop-Covers arg next rest (o.is_boolean || any) v q others k)

      after_loop-Covers :
          (index : ℕ) (next : Bool) (l : Loop Store)
          → LoopCovers l
          → Covers (after_loop parse_value index next l).0
      after_loop-Covers index next (rejected q) h = h
      after_loop-Covers index next (accepted b q) h = h

      parse_argument-Covers :
          (index : ℕ) (arg : Bytes) (p : ArgParser Store)
          → All (λ e. IsNamed e.1) p.option_mapping
          → Covers p
          → Covers (parse_argument parse_value index arg p).0
      unfolding parse_argument
      parse_argument-Covers index arg p named h =
          let name = (split_argument arg).0 in
          let value = (split_argument arg).1 in
          let prefixes = check_option_prefix name in
          let next = next_value p.args index value in
          elim (Bool-cases (not prefixes.0 && not prefixes.1)) [
            | inl e ↦ rw e h
            | inr e ↦
                rw e
                  (elim (Bool-cases (prefixes.1 && ltb 2 (length name) && not (is_empty value))) [
                    | inl f ↦ rw f h
                    | inr f ↦ rw f (
                        after_loop-Covers index (is_some next) _ (
                          match_loop-Covers arg (is_some next) _ false (value_or next value) p
                            (match_option-IsNamed p.option_mapping name prefixes.0 prefixes.1 named)
                            h))
                  ])
          ]

      pub parse_loop-Covers :
          (fuel index : ℕ) (p : ArgParser Store)
          → All (λ e. IsNamed e.1) p.option_mapping
          → Covers p
          → Covers (parse_loop parse_value fuel index p).0
      unfolding parse_loop
      parse_loop-Covers zero index p named h = h
      parse_loop-Covers (suc fuel) index p named h = elim (Option-cases (get_elem? p.args index)) [
        | inl e ↦ rw (e, parse_loop) h
        | inr (arg, e) ↦
            let (forward, keeps) =
              parse_argument-Advances parse_value index arg p (get_elem?-some p.args index arg e) in
            rw (e, parse_loop)
              (parse_loop-Covers fuel _ (parse_argument parse_value index arg p).0
                (subst (All (λ e. IsNamed e.1)) (sym keeps.option_mapping) named)
                (parse_argument-Covers index arg p named h))
      ]
