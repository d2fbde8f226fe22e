-- ===== src/Cli/ArgParser.antt =====
-- src/cli/arg_parser.cpp. An option is known to the parser as an `abstract::option`, whose value
-- parser is a parameter: `parse_value o value store` is the outcome and what the options hold then.
-- Messages to the error handlers are values, and the handlers see them in this order.
pub mod Progress
pub mod Values
pub mod Covers
pub mod Complete
use cpp_essence.Prelude.{
  ℕ, zero, suc, ◌+◌, ◌<◌, Bool, true, false, not, ◌&&◌, ◌||◌, List, [], ◌∷◌, ◌++◌, map, Option,
  none, some, leb, ltb, ◌==◌, if◌then◌else◌, length, get_elem?, take, drop, Bytes, codes, equal,
  find, starts_with, insert_or_assign,
}
use cpp_essence.Cli.Matching.{
  AbstractOption, abbreviated, check_option_prefix, contains_name, find_char, is_empty, is_some,
  match_option, option_abbreviation_prefix, option_name_prefix, split_argument, true_string,
}
use cpp_essence.Text.{trim, ascii_blank_chars}

pub record OptionResult : Type 0 where
  pub option : AbstractOption
  pub raw_value : Option Bytes

pub data Message : Type 0 where
  combined_must_be_bool : Message
  combined_assignment : Bytes → Message
  when_parsing : Bytes → Message
  matched_option : Bytes → Message
  missing_mandatory : Bytes → Message

-- Everything that the parser keeps; `Store` is what the options keep.
pub record ArgParser {ℓ} (Store : Type ℓ) : Type ℓ where
  pub success : Bool
  pub result : List (Bytes × OptionResult)
  pub args : List Bytes
  pub unmatched_args : List Bytes
  pub options : List AbstractOption
  pub present_option_ptrs : List ℕ
  pub option_names : List Bytes
  pub option_mapping : List (Bytes × AbstractOption)
  pub errors : List Message
  pub store : Store

unfoldable pub contains_ptr : List ℕ → ℕ → Bool
contains_ptr [] a = false
contains_ptr (x ∷ xs) a = x == a || contains_ptr xs a

unfoldable pub map_aliases :
    List Bytes → AbstractOption → List (Bytes × AbstractOption) → List (Bytes × AbstractOption)
map_aliases [] o mapping = mapping
map_aliases (item ∷ rest) o mapping = map_aliases rest o (insert_or_assign item o mapping)

-- How one round of the loop over the matched options ends: it leaves the function, or goes on with
-- this value.
pub data Round {ℓ} (Store : Type ℓ) : Type ℓ where
  leaves : ArgParser Store → Round Store
  goes_on : Bytes → ArgParser Store → Round Store

-- How the loop ends: early, or with whether a Boolean option was among the matched ones.
pub data Loop {ℓ} (Store : Type ℓ) : Type ℓ where
  rejected : ArgParser Store → Loop Store
  accepted : Bool → ArgParser Store → Loop Store

abbrev pub then_round {ℓ} :
    {Store : Type ℓ} → Round Store → (Bytes → ArgParser Store → Loop Store) → Loop Store
then_round (leaves q) rest = rejected q
then_round (goes_on v q) rest = rest v q

-- `parse_args_and_cache` shows the help and ends the program, or returns.
pub data Parsing {ℓ} (Store : Type ℓ) : Type ℓ where
  exited : ArgParser Store → Parsing Store
  returned : ArgParser Store → Parsing Store

-- The next argument, where it is taken for the value.
unfoldable pub next_value : List Bytes → ℕ → Bytes → Option Bytes
unfolding check_option_prefix
next_value args index value =
    if is_empty value
    then elim (get_elem? args (suc index)) [
      | none ↦ none
      | some a ↦ if (check_option_prefix a).0 || (check_option_prefix a).1 then none else some a
    ]
    else none

abbrev pub value_or : Option Bytes → Bytes → Bytes
value_or none value = value
value_or (some a) value = a

module _ {ℓ} {Store : Type ℓ} where
  unfoldable pub add_option : AbstractOption → ArgParser Store → ArgParser Store
  add_option o p = if contains_name p.option_names o.bound_name then p else record p {
    options = p.options ++ o ∷ [];
    option_names = o.bound_name ∷ p.option_names;
    option_mapping = map_aliases o.aliases o (insert_or_assign o.bound_name o p.option_mapping);
  }

  abbrev pub raise : Message → ArgParser Store → ArgParser Store
  raise m p = record p { errors = p.errors ++ m ∷ [] }

  abbrev pub accept : AbstractOption → Bytes → ArgParser Store → ArgParser Store
  accept o value p = record p {
    present_option_ptrs = o.underlying_ptr ∷ p.present_option_ptrs;
    result = insert_or_assign o.bound_name (record { option = o; raw_value = some value }) p.result;
  }

  -- "Outputs the missing options."
  unfoldable pub report_missing : AbstractOption → ArgParser Store → ArgParser Store
  report_missing o p = elim o.default_value_str [
    | none ↦ record (raise (missing_mandatory o.name_hints) p) { success = false }
    | some d ↦ p
  ]

  -- `add_absent_options`.
  unfoldable pub add_absent_option : AbstractOption → ArgParser Store → ArgParser Store
  add_absent_option o p =
      if contains_ptr p.present_option_ptrs o.underlying_ptr
      then p
      else record (report_missing o p) {
        result =
            insert_or_assign (trim o.bound_name option_name_prefix)
              (record { option = o; raw_value = o.default_value_str }) p.result;
      }

  unfoldable pub add_absent_options : List AbstractOption → ArgParser Store → ArgParser Store
  add_absent_options [] p = p
  add_absent_options (o ∷ rest) p = add_absent_options rest (add_absent_option o p)

module _ {ℓ} {Store : Type ℓ} (parse_value : AbstractOption → Bytes → Store → Bool × Store) where
  -- `option.parse_value_and_cache(value)` and what follows it.
  unfoldable pub parse_and_accept : Bytes → AbstractOption → Bytes → ArgParser Store → Round Store
  parse_and_accept arg o value p =
      let q = record p { store = (parse_value o value p.store).1 } in
      if (parse_value o value p.store).0
      then goes_on value (accept o value q)
      else leaves (raise (matched_option o.name_hints) (raise (when_parsing arg) q))

  -- One matched option: `validate_option`, then the value.
  unfoldable pub match_round :
      Bytes → Bool → Bool → AbstractOption → Bytes → ArgParser Store → Round Store
  match_round arg drops_value single o value p =
      let kept = if drops_value then [] else value in
      if not single && not o.is_boolean
      then leaves (raise combined_must_be_bool p)
      else parse_and_accept arg o (if o.is_boolean && is_empty kept then true_string else kept) p

  unfoldable pub match_loop :
      Bytes → Bool → List (Bool × AbstractOption) → Bool → Bytes → ArgParser Store → Loop Store
  match_loop arg next_as_value [] any_boolean value p = accepted any_boolean p
  match_loop arg next_as_value ((single, o) ∷ rest) any_boolean value p =
      then_round (match_round arg ((o.is_boolean || any_boolean) && next_as_value) single o value p)
        (match_loop arg next_as_value rest (o.is_boolean || any_boolean))

  abbrev pub after_loop : ℕ → Bool → Loop Store → ArgParser Store × ℕ
  after_loop index next_as_value (rejected q) = (q, length q.args)
  after_loop index next_as_value (accepted any_boolean q) =
      (q, if any_boolean then index else if next_as_value then index + 1 else index)

  -- `parse_argument`, on the argument at `index`.
  unfoldable pub parse_argument : ℕ → Bytes → ArgParser Store → ArgParser Store × ℕ
  parse_argument index arg p =
      let name = (split_argument arg).0 in
      let value = (split_argument arg).1 in
      let has_prefix = (check_option_prefix name).0 in
      let has_abbreviation = (check_option_prefix name).1 in
      let next = next_value p.args index value in
      if not has_prefix && not has_abbreviation
      then (record p { unmatched_args = p.unmatched_args ++ arg ∷ [] }, index)
      else if has_abbreviation && ltb 2 (length name) && not (is_empty value)
      then (raise (combined_assignment arg) p, length p.args)
      else after_loop index (is_some next) (
          match_loop arg (is_some next)
            (match_option p.option_mapping name has_prefix has_abbreviation) false
            (value_or next value) p)

  -- `while (index < args_.size())`, on fuel.
  unfoldable pub parse_loop : ℕ → ℕ → ArgParser Store → ArgParser Store × ℕ
  parse_loop zero index p = (p, index)
  parse_loop (suc fuel) index p = elim (get_elem? p.args index) [
    | none ↦ (p, index)
    | some arg ↦ parse_loop fuel ((parse_argument index arg p).1 + 1) (parse_argument index arg p).0
  ]

  unfoldable pub parse_args_and_cache : ArgParser Store → Parsing Store
  parse_args_and_cache p =
      let r =
        parse_loop (length p.args) 0
          (record p { result = []; unmatched_args = []; present_option_ptrs = [] }) in
      let done = record (r.0) { success = leb (r.1) (length p.args) } in
      if is_some (find (codes "help") r.0.result)
      then exited (r.0)
      else returned (if done.success then add_absent_options done.options done else done)

  -- `parse_impl`.
  unfoldable pub parse : List Bytes → ArgParser Store → Parsing Store
  parse args p = parse_args_and_cache (record p { args = map (λ a. trim a ascii_blank_chars) args })
