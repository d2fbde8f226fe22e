-- ===== src/Tests/Failures.antt =====
-- Two exceptions, one nested in the other.
use cpp_essence.Prelude.{◌≡◌, refl, Bool, true, false, some, codes}
use cpp_essence.Exceptions.{
  Exception, failure, failure_nesting, is_std, what, level_items, append_line, finish, appender,
  flatten_nested_exceptions, serialize_nested_exceptions,
}
use cpp_essence.Exceptions.Chain.{chain, all_items, text_of, flatten_nested_exceptions-chain}

abbrev inner : Exception
inner = failure (codes "disk")

abbrev outer : Exception
outer = failure_nesting (codes "load") inner

serialized : serialize_nested_exceptions (some outer) 4 ≡ codes " load\n---- disk"
unfolding serialize_nested_exceptions flatten_nested_exceptions appender append_line finish is_std
    what level_items
serialized = refl

flatten_nested_exceptions-chain_example :
    flatten_nested_exceptions (some outer) 4
    ≡ record { levels = all_items (chain outer); result = text_of 4 0 (chain outer) }
flatten_nested_exceptions-chain_example = flatten_nested_exceptions-chain outer 4

abbrev has_no_nested : Exception → Bool
has_no_nested (failure text) = true
has_no_nested e = false
