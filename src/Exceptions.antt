-- ===== src/Exceptions.antt =====
-- src/exception.cpp with include/essence/exception.hpp: exceptions that are nested in each other, and
-- what they are flattened to. An exception that nests the empty pointer, with which the language ends
-- the program, is not modelled.
pub mod Chain
pub mod Extract
use cpp_essence.Prelude.{
  ℕ, zero, suc, ◌+◌, ◌-◌, ◌*◌, Bool, true, false, List, [], ◌∷◌, ◌++◌, Option, none, some,
  if◌then◌else◌, length, take, replicate, Bytes, codes,
}

mutual
  -- An exception that is no `std::exception`; one with its text, and with another nested in it; an
  -- `aggregate_error`, and one with another nested in it.
  pub data Exception : Type 0 where
    unknown : Exception
    failure : Bytes → Exception
    failure_nesting : Bytes → Exception → Exception
    aggregate : Bytes → Aggregated → Exception
    aggregate_nesting : Bytes → Aggregated → Exception → Exception

  pub data Aggregated : Type 0 where
    nothing : Aggregated
    item : Exception → Aggregated → Aggregated

unfoldable pub to_list : Aggregated → List Exception
to_list nothing = []
to_list (item e rest) = e ∷ to_list rest

-- Whether `catch (const std::exception&)` takes it.
unfoldable pub is_std : Exception → Bool
is_std unknown = false
is_std e = true

unfoldable pub what : Exception → Bytes
what unknown = codes "Unknown error."
what (failure text) = text
what (failure_nesting text inner) = text
what (aggregate text items) = text
what (aggregate_nesting text items inner) = text

-- For which exceptions the level callback is called.
unfoldable pub level_items : Exception → List Exception
unfolding to_list
level_items (aggregate text items) = to_list items
level_items (aggregate_nesting text items inner) = to_list items
level_items e = e ∷ []

pub record Flattened : Type 0 where
  pub levels : List Exception
  pub result : Bytes

unfoldable pub append_line : ℕ → ℕ → Exception → Flattened → Flattened
unfolding what level_items
append_line indent level e f = record {
  levels = f.levels ++ level_items e;
  result = f.result ++ (replicate (indent * level) b'-' ++ (b' ' ∷ (what e ++ (b'\n' ∷ []))));
}

-- Without the redundant line feed.
unfoldable pub finish : Flattened → Flattened
finish f = record f { result = take (length f.result - 1) f.result }

unfoldable pub appender : ℕ → Exception → ℕ → Flattened → Flattened
unfolding append_line finish is_std
appender indent (failure_nesting text inner) level f =
    let g = append_line indent level (failure_nesting text inner) f in
    let nested = appender indent inner (level + 1) g in if is_std inner then nested else finish g
appender indent (aggregate_nesting text items inner) level f =
    let g = append_line indent level (aggregate_nesting text items inner) f in
    let nested = appender indent inner (level + 1) g in if is_std inner then nested else finish g
appender indent e level f = finish (append_line indent level e f)

-- The exceptions of the level callback, and the text of the complete one. `none` is the null pointer.
unfoldable pub flatten_nested_exceptions : Option Exception → ℕ → Flattened
unfolding appender
flatten_nested_exceptions none indent = record { levels = []; result = [] }
flatten_nested_exceptions (some root) indent =
    appender indent root 0 (record { levels = []; result = [] })

unfoldable pub serialize_nested_exceptions : Option Exception → ℕ → Bytes
unfolding flatten_nested_exceptions
serialize_nested_exceptions root indent = (flatten_nested_exceptions root indent).result

unfoldable pub from_list : List Exception → Aggregated
from_list [] = nothing
from_list (e ∷ es) = item e (from_list es)

-- What is thrown.
unfoldable pub flatten_and_throw : Option Exception → ℕ → Exception
unfolding flatten_nested_exceptions from_list
flatten_and_throw root indent =
    let f = flatten_nested_exceptions root indent in aggregate f.result (from_list f.levels)

-- How a search ends: with an exception of the type, with none, or with one that the search throws on.
pub data Extracted : Type 0 where
  found : Exception → Extracted
  absent : Extracted
  escaped : Exception → Extracted

-- Whether the exception is of the type that is looked for is a test.
unfoldable pub extract : (Exception → Bool) → List Exception → Extracted
unfolding is_std
extract is_type [] = absent
extract is_type (e ∷ es) =
    let rest = extract is_type es in
    if is_std e then (if is_type e then found e else rest) else escaped e
