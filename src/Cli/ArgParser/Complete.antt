-- ===== src/Cli/ArgParser/Complete.antt =====
-- A parse that succeeds gives every option a value (src/cli/arg_parser.cpp).
use mathlib.Core.Bool.{false≢true}
use cpp_essence.Prelude.{
  ℕ, ◌≡◌, refl, ap, subst, sym, ◌∙◌, inl, inr, Bool, true, false, List, [], ◌∷◌, arith,
  if◌then◌else◌, length, Bytes, All, find, insert_or_assign, Option-cases, Bool-cases, leb, map,
  codes,
}
use cpp_essence.Text.{trim, ascii_blank_chars}
use cpp_essence.Cli.Matching.{AbstractOption, is_some}
use cpp_essence.Cli.ArgParser.{
  OptionResult, ArgParser, exited, returned, contains_ptr, report_missing, add_absent_option,
  add_absent_options, parse_loop, parse_args_and_cache, parse,
}
use cpp_essence.Cli.ArgParser.Values.{
  HasValue, HasValue-insert_self, add_absent_options-success, add_absent_option-HasValue,
  add_absent_options-HasValue,
}
use cpp_essence.Cli.ArgParser.Progress.{parse_loop_total}
use cpp_essence.Cli.ArgParser.Covers.{
  IsNamed, IsKept, Covers, ne_of_contains_nil, parse_loop-Covers,
}

abbrev absent_result : AbstractOption → OptionResult
absent_result o = record { option = o; raw_value = o.default_value_str }

module _ (name_of : ℕ → Bytes) where
  module _ {ℓ} {Store : Type ℓ} where
    add_absent_option-value :
        (o : AbstractOption) (p : ArgParser Store)
        → IsKept name_of o
        → (add_absent_option o p).success ≡ true
        → Covers name_of p
        → HasValue (add_absent_option o p).result o.bound_name
    unfolding add_absent_option report_missing
    add_absent_option-value o p (named, kept) e h =
        elim (Bool-cases (contains_ptr p.present_option_ptrs o.underlying_ptr)) [
          | inl s ↦ rw s (subst (HasValue p.result) (sym named) (h o.underlying_ptr s))
          | inr s ↦ elim (Option-cases o.default_value_str) [
            | inl n ↦ absurd (ground arith)
            | inr (d, g) ↦ rw s (
                subst (λ n. HasValue (insert_or_assign n (absent_result o) p.result) o.bound_name)
                  (sym kept)
                  (HasValue-insert_self o.bound_name (absent_result o) p.result (rw g refl)))
          ]
        ]

    add_absent_option-present :
        (o : AbstractOption) (p : ArgParser Store)
        → (add_absent_option o p).present_option_ptrs ≡ p.present_option_ptrs
    unfolding add_absent_option report_missing
    add_absent_option-present o p = ground arith

    add_absent_option-Covers :
        (o : AbstractOption) (p : ArgParser Store)
        → (add_absent_option o p).success ≡ true
        → Covers name_of p
        → Covers name_of (add_absent_option o p)
    add_absent_option-Covers o p e h ptr seen =
        add_absent_option-HasValue o p (name_of ptr) e (
          h ptr (subst (λ ptrs. contains_ptr ptrs ptr ≡ true) (add_absent_option-present o p) seen))

    add_absent_options-values :
        (os : List AbstractOption) (p : ArgParser Store)
        → All (IsKept name_of) os
        → (add_absent_options os p).success ≡ true
        → Covers name_of p
        → All (λ o. HasValue (add_absent_options os p).result o.bound_name) os
    unfolding add_absent_options
    add_absent_options-values [] p k e h = tt
    add_absent_options-values (o ∷ os) p (k, ks) e h =
        let q = add_absent_option o p in
        let going = add_absent_options-success os q e in
        (
          add_absent_options-HasValue os q o.bound_name e (add_absent_option-value o p k going h),
          add_absent_options-values os q ks e (add_absent_option-Covers o p going h),
        )

    -- The names of the options fit the mapping.
    pub record IsRegistered (p : ArgParser Store) : Type 0 where
      pub options : All (IsKept name_of) p.options
      pub mapping : All (λ e. IsNamed name_of e.1) p.option_mapping

    returned-injective : (p q : ArgParser Store) → returned p ≡ returned q → p ≡ q
    returned-injective p q e = cc

    -- `parse_args_and_cache` behind the loop.
    only_success :
        (b l : Bool) (r d a q : ArgParser Store)
        → d.success ≡ l
        → (if b then exited r else returned (if l then a else d)) ≡ returned q
        → q.success ≡ true
        → a ≡ q
    only_success true l r d a q h e s = cc
    only_success false true r d a q h e s = returned-injective a q e
    only_success false false r d a q h e s =
        let same = returned-injective d q e in
        absurd (false≢true (sym h ∙ ap (λ (x : ArgParser Store). x.success) same ∙ s))

    module _ (parse_value : AbstractOption → Bytes → Store → Bool × Store) where
      -- After a parse that returns with success, every option of the parser has a value in the
      -- result, if the names of its options fit its lookup table.
      pub parse-HasValue :
          (args : List Bytes) (p q : ArgParser Store)
          → IsRegistered p
          → parse parse_value args p ≡ returned q
          → q.success ≡ true
          → All (λ o. HasValue q.result o.bound_name) p.options
      unfolding parse parse_args_and_cache
      parse-HasValue args p q r e s =
          let fresh : ArgParser Store = record p {
            args = map (λ a. trim a ascii_blank_chars) args;
            result = [];
            unmatched_args = [];
            present_option_ptrs = [];
          } in
          let fuel = length fresh.args in
          let (past, keeps, same) = parse_loop_total parse_value fuel 0 0 fresh (omega arith) in
          let covers =
            parse_loop-Covers name_of parse_value fuel 0 fresh r.mapping
              (λ ptr x. absurd (ne_of_contains_nil ptr x)) in
          let r0 = parse_loop parse_value fuel 0 fresh in
          let done : ArgParser Store = record (r0.0) { success = leb r0.1 fuel } in
          let last =
            only_success (is_some (find (codes "help") r0.0.result)) (leb r0.1 fuel) r0.0 done
              (add_absent_options done.options done) q refl e s in
          let kept = subst (All (IsKept name_of)) (sym keeps.options) r.options in
          let values =
            add_absent_options-values r0.0.options done kept
              (ap (λ (x : ArgParser Store). x.success) last ∙ s) covers in
          subst (λ (x : ArgParser Store). All (λ o. HasValue x.result o.bound_name) p.options) last
            (subst
              (λ os.
                All (λ o. HasValue (add_absent_options r0.0.options done).result o.bound_name) os)
              keeps.options values)
