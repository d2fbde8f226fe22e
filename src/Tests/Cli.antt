-- ===== src/Tests/Cli.antt =====
-- The command line.
use cpp_essence.Prelude.{
  ◌⊎◌, ◌↔◌, ℕ, zero, suc, ◌+◌, ◌≤◌, ◌≡◌, refl, Bool, true, false, List, [], ◌∷◌, ◌++◌, Option, none,
  some, arith, Bytes, codes, All, equal, find, insert_or_assign, starts_with, length, ltb,
}
use cpp_essence.Text.{trim, trim_left, trim_right, find_first_not_of, find_last_not_of}
use cpp_essence.Net.Ipv4.{split}
use cpp_essence.Numeric.{from_string}
use cpp_essence.Cli.Matching.{
  AbstractOption, contains_name, check_option_prefix, split_argument, match_option, abbreviated,
  find_char,
}
use cpp_essence.Cli.ArgParser.{
  ArgParser, Parsing, returned, exited, add_option, parse, parse_loop, parse_args_and_cache,
  parse_argument, match_loop, map_aliases, match_round, parse_and_accept, next_value,
  add_absent_options, add_absent_option, contains_ptr, report_missing,
}
use cpp_essence.Cli.ArgParser.Progress.{Keeps, parse_loop_total}
use cpp_essence.Cli.ArgParser.Values.{HasValue}
use cpp_essence.Cli.ArgParser.Complete.{IsRegistered, parse-HasValue}
use cpp_essence.Cli.BaseOption.{new_base_option, add_aliases}
use cpp_essence.Cli.BaseOption.Spelling.{SpellsOne}
use cpp_essence.Cli.BaseOption.Aliases.{IsValid, add_aliases-IsValid}
use cpp_essence.Cli.RangeOption.{
  RangeState, copy_parts, parse_range_value_and_cache, parse_value_and_cache,
}
use cpp_essence.Cli.RangeOption.Values.{read_all}

abbrev port : AbstractOption
port = record {
  underlying_ptr = 1;
  bound_name = codes "port";
  aliases = codes "--port" ∷ codes "-p" ∷ [];
  is_boolean = false;
  default_value_str = some (codes "80");
  name_hints = codes "[--port,-p]";
}

abbrev verbose : AbstractOption
verbose = record {
  underlying_ptr = 2;
  bound_name = codes "verbose";
  aliases = codes "--verbose" ∷ codes "-v" ∷ [];
  is_boolean = true;
  default_value_str = some (codes "false");
  name_hints = codes "[--verbose,-v]";
}

-- The options keep the values that they took.
abbrev accept_any : AbstractOption → Bytes → List Bytes → Bool × List Bytes
accept_any o value store = (true, store ++ value ∷ [])

abbrev new_parser : ArgParser (List Bytes)
new_parser = record {
  success = false;
  result = [];
  args = [];
  unmatched_args = [];
  options = [];
  present_option_ptrs = [];
  option_names = [];
  option_mapping = [];
  errors = [];
  store = [];
}

unfoldable parser : ArgParser (List Bytes)
unfolding add_option
parser = add_option verbose (add_option port new_parser)

abbrev given : List Bytes
given = codes " file" ∷ codes "--port" ∷ codes "8080" ∷ codes "-v" ∷ []

abbrev registered_name : ℕ → Bytes
registered_name zero = codes "verbose"
registered_name (suc zero) = codes "port"
registered_name (suc (suc n)) = codes "verbose"

parser-IsRegistered : IsRegistered registered_name parser
unfolding parser contains_name equal add_option map_aliases insert_or_assign trim
parser-IsRegistered = record {
  options = ((refl, refl), ((refl, refl), tt));
  mapping = (refl, (refl, (refl, (refl, (refl, (refl, tt))))));
}

abbrev parser_of : Parsing (List Bytes) → ArgParser (List Bytes)
parser_of (exited p) = p
parser_of (returned p) = p

parsed_given : parse accept_any given parser ≡ returned (parser_of (parse accept_any given parser))
unfolding parse parser parse_args_and_cache find parse_loop parse_argument check_option_prefix
    split_argument trim match_loop match_option contains_name equal map_aliases insert_or_assign
    match_round parse_and_accept next_value add_absent_options abbreviated add_absent_option
    add_option contains_ptr find_char report_missing starts_with find_first_not_of find_last_not_of
    trim_left trim_right
parsed_given = refl

succeeded : (parser_of (parse accept_any given parser)).success ≡ true
unfolding parse parser parse_args_and_cache find parse_loop parse_argument check_option_prefix
    split_argument trim match_loop match_option contains_name equal map_aliases insert_or_assign
    match_round parse_and_accept next_value add_absent_options abbreviated add_absent_option
    add_option contains_ptr find_char report_missing starts_with find_first_not_of find_last_not_of
    trim_left trim_right
succeeded = refl

parse-HasValue_example :
    All
      (λ o. HasValue (parser_of (parse accept_any given parser)).result o.bound_name)
      parser.options
parse-HasValue_example =
    parse-HasValue registered_name accept_any given parser
      (parser_of (parse accept_any given parser)) parser-IsRegistered parsed_given succeeded

abbrev ready : ArgParser (List Bytes)
ready = record new_parser { args = codes "-x" ∷ codes "y" ∷ [] }

parse_loop_total_example :
    (length ready.args ≤ (parse_loop accept_any 2 0 ready).1)
    × Keeps accept_any ready (parse_loop accept_any 2 0 ready).0
    × (parse_loop accept_any (2 + 3) 0 ready ≡ parse_loop accept_any 2 0 ready)
parse_loop_total_example = parse_loop_total accept_any 2 3 0 ready (omega arith)

abbrev names : List Bytes
names = codes "dry_run" ∷ codes "--" ∷ codes "d" ∷ []

new_base_option-IsValid : IsValid new_base_option
unfolding contains_name
new_base_option-IsValid = record { same = λ name. refl; distinct = tt }

add_aliases-IsValid_example :
    IsValid (add_aliases names new_base_option)
    × ((contains_name (add_aliases names new_base_option).aliases (codes "--dry-run") ≡ true) ↔ (
        SpellsOne names (codes "--dry-run")
        ⊎ (contains_name new_base_option.aliases (codes "--dry-run") ≡ true)))
add_aliases-IsValid_example =
    add_aliases-IsValid names new_base_option (codes "--dry-run") new_base_option-IsValid

-- A range of numbers below 256, of which those below ten are allowed.
abbrev number : Bytes → Option ℕ
number s = from_string 255 10 s

abbrev below_ten : ℕ → Bool
below_ten n = ltb n 10

abbrev any_text : Bytes → Bool
any_text s = true

abbrev fresh : RangeState ℕ
fresh = record { success = true; cached_value = none }

read_good : read_all number below_ten any_text (split b',' (codes "1,2")) ≡ some (1 ∷ 2 ∷ [])
unfolding split from_string
read_good = refl

read_bad : read_all number below_ten any_text (split b',' (codes "1,12")) ≡ none
unfolding split from_string
read_bad = refl

refused_bad : (parse_value_and_cache number below_ten any_text (codes "1,12") fresh).success ≡ false
unfolding parse_value_and_cache from_string parse_range_value_and_cache copy_parts split
refused_bad = refl
