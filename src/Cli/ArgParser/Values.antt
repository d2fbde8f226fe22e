-- ===== src/Cli/ArgParser/Values.antt =====
-- The values of options that were not given (src/cli/arg_parser.cpp).
use cpp_essence.Prelude.{
  ◌≡◌, inl, inr, Bool, true, false, List, [], ◌∷◌, Option, none, some, arith, Bytes, equal,
  equal_refl, find, insert_or_assign, find-insert_or_assign, Bool-cases,
}
use cpp_essence.Text.{trim}
use cpp_essence.Cli.Matching.{AbstractOption, option_name_prefix, is_some}
use cpp_essence.Cli.ArgParser.{
  OptionResult, ArgParser, report_missing, add_absent_option, add_absent_options,
}

-- The result holds a value for this name.
abbrev pub raw_value_given : Option OptionResult → Bool
raw_value_given none = false
raw_value_given (some r) = is_some r.raw_value

abbrev pub HasValue : List (Bytes × OptionResult) → Bytes → Type 0
HasValue result name = raw_value_given (find name result) ≡ true

pub HasValue-insert :
    (k name : Bytes) (r : OptionResult) (result : List (Bytes × OptionResult))
    → is_some r.raw_value ≡ true
    → HasValue result name
    → HasValue (insert_or_assign k r result) name
HasValue-insert k name r result g h =
    rw (find-insert_or_assign k name r result)
      (elim (Bool-cases (equal k name)) [ inl e ↦ rw e g | inr e ↦ rw e h ])

pub HasValue-insert_self :
    (k : Bytes) (r : OptionResult) (result : List (Bytes × OptionResult))
    → is_some r.raw_value ≡ true
    → HasValue (insert_or_assign k r result) k
HasValue-insert_self k r result g = rw (find-insert_or_assign k k r result, equal_refl k) g

module _ {ℓ} {Store : Type ℓ} where
  -- An absent option without a default value makes the parse fail, for good.
  pub add_absent_option-success :
      (o : AbstractOption) (p : ArgParser Store)
      → (add_absent_option o p).success ≡ true
      → p.success ≡ true
  unfolding add_absent_option report_missing
  add_absent_option-success o p e = ground arith

  pub add_absent_options-success :
      (os : List AbstractOption) (p : ArgParser Store)
      → (add_absent_options os p).success ≡ true
      → p.success ≡ true
  unfolding add_absent_options
  add_absent_options-success [] p e = e
  add_absent_options-success (o ∷ os) p e =
      add_absent_option-success o p (add_absent_options-success os (add_absent_option o p) e)

  pub add_absent_option-HasValue :
      (o : AbstractOption) (p : ArgParser Store) (name : Bytes)
      → (add_absent_option o p).success ≡ true
      → HasValue p.result name
      → HasValue (add_absent_option o p).result name
  unfolding add_absent_option report_missing
  add_absent_option-HasValue o p name e h = ground (
    arith,
    HasValue-insert (trim o.bound_name option_name_prefix) name
        (record { option = o; raw_value = o.default_value_str }) p.result,
  )

  pub add_absent_options-HasValue :
      (os : List AbstractOption) (p : ArgParser Store) (name : Bytes)
      → (add_absent_options os p).success ≡ true
      → HasValue p.result name
      → HasValue (add_absent_options os p).result name
  unfolding add_absent_options
  add_absent_options-HasValue [] p name e h = h
  add_absent_options-HasValue (o ∷ os) p name e h =
      add_absent_options-HasValue os (add_absent_option o p) name e
        (add_absent_option-HasValue o p name (add_absent_options-success os _ e) h)
