-- ===== src/Exceptions/Chain.antt =====
-- The chain of nested exceptions, which is what is flattened.
use cpp_essence.Prelude.{
  ℕ, ◌+◌, ◌-◌, ◌*◌, List, [], ◌∷◌, ◌++◌, some, if◌then◌else◌, length, take, replicate, Bytes, ◌≡◌,
  refl, sym, ap, ap₂, ◌∙◌, append_assoc, append-nil, inl, inr, Bool-cases, arith, length-append,
  take-append,
}
use cpp_essence.Exceptions.{
  Exception, unknown, failure, failure_nesting, aggregate, aggregate_nesting, is_std, what,
  level_items, Flattened, append_line, finish, appender, flatten_nested_exceptions,
}

-- An exception with those nested in it, the outermost first, up to one that is no `std::exception`.
unfoldable pub chain : Exception → List Exception
unfolding is_std
chain (failure_nesting text inner) =
    let rest = chain inner in failure_nesting text inner ∷ (if is_std inner then rest else [])
chain (aggregate_nesting text items inner) =
    let rest = chain inner in
    aggregate_nesting text items inner ∷ (if is_std inner then rest else [])
chain e = e ∷ []

abbrev pub all_items : List Exception → List Exception
all_items [] = []
all_items (e ∷ es) = level_items e ++ all_items es

abbrev pub line : ℕ → ℕ → Exception → Bytes
line indent level e = replicate (indent * level) b'-' ++ (b' ' ∷ what e)

-- Line by line, each level with its dashes.
abbrev pub text_of : ℕ → ℕ → List Exception → Bytes
text_of indent level [] = []
text_of indent level (e ∷ []) = line indent level e
text_of indent level (e ∷ d ∷ es) =
    line indent level e ++ (b'\n' ∷ text_of indent (level + 1) (d ∷ es))

abbrev joined : Flattened → List Exception → Bytes → Flattened
joined f levels text = record { levels = f.levels ++ levels; result = f.result ++ text }

-- Where the line goes into the text.
with_line :
    (s dashes t rest : Bytes)
    → (s ++ (dashes ++ (b' ' ∷ (t ++ (b'\n' ∷ []))))) ++ rest
      ≡ s ++ ((dashes ++ (b' ' ∷ t)) ++ (b'\n' ∷ rest))
with_line s dashes t rest = simp append_assoc

last_removed : (s : Bytes) → take (length (s ++ (b'\n' ∷ [])) - 1) (s ++ (b'\n' ∷ [])) ≡ s
last_removed s =
    ap (λ (n : ℕ). take n (s ++ (b'\n' ∷ []))) (omega (arith, length-append s (b'\n' ∷ [])))
    ∙ take-append s (b'\n' ∷ [])

finish-append_line :
    (indent level : ℕ) (e : Exception) (f : Flattened)
    → finish (append_line indent level e f) ≡ joined f (level_items e ++ []) (line indent level e)
unfolding finish append_line
finish-append_line indent level e f =
    let dashes = replicate (indent * level) b'-' in
    let text : f.result ++ (dashes ++ (b' ' ∷ (what e ++ (b'\n' ∷ []))))
        ≡ (f.result ++ line indent level e) ++ (b'\n' ∷ []) =
      simp append_assoc in
    ap₂ (λ a b. record { levels = a; result = b })
      (ap (λ l. f.levels ++ l) (sym (append-nil (level_items e))))
      (ap (λ (t : Bytes). take (length t - 1) t) text
        ∙ last_removed (f.result ++ line indent level e))

joined-append_line :
    (indent level : ℕ) (e : Exception) (f : Flattened) (levels : List Exception) (text : Bytes)
    → joined (append_line indent level e f) levels text
      ≡ joined f (level_items e ++ levels) (line indent level e ++ (b'\n' ∷ text))
unfolding append_line
joined-append_line indent level e f levels text =
    ap₂ (λ a b. record { levels = a; result = b }) (append_assoc f.levels (level_items e) levels)
      (with_line f.result (replicate (indent * level) b'-') (what e) text)

text_of-chain :
    (indent level : ℕ) (e inner : Exception)
    → text_of indent level (e ∷ chain inner)
      ≡ line indent level e ++ (b'\n' ∷ text_of indent (level + 1) (chain inner))
unfolding chain
text_of-chain indent level e unknown = refl
text_of-chain indent level e (failure t) = refl
text_of-chain indent level e (failure_nesting t i) = refl
text_of-chain indent level e (aggregate t is) = refl
text_of-chain indent level e (aggregate_nesting t is i) = refl

-- What follows in the chain.
unfoldable follows : Exception → List Exception
unfolding is_std
follows inner = let rest = chain inner in if is_std inner then rest else []

nesting :
    (indent level : ℕ) (e inner : Exception) (f : Flattened)
    → appender indent inner (level + 1) (append_line indent level e f)
      ≡ joined
          (append_line indent level e f)
          (all_items (chain inner))
          (text_of indent (level + 1) (chain inner))
    → (let nested = appender indent inner (level + 1) (append_line indent level e f) in
        if is_std inner then nested else finish (append_line indent level e f))
      ≡ joined f (all_items (e ∷ follows inner)) (text_of indent level (e ∷ follows inner))
unfolding follows chain
nesting indent level e inner f ih = elim (Bool-cases (is_std inner)) [
  | inl s ↦ rw s (
      ih
      ∙ joined-append_line indent level e f (all_items (chain inner))
          (text_of indent (level + 1) (chain inner))
      ∙ ap (joined f (all_items (e ∷ chain inner))) (sym (text_of-chain indent level e inner)))
  | inr s ↦ rw s (finish-append_line indent level e f)
]

appender-chain :
    (indent : ℕ) (e : Exception) (level : ℕ) (f : Flattened)
    → appender indent e level f ≡ joined f (all_items (chain e)) (text_of indent level (chain e))
unfolding appender follows chain
appender-chain indent unknown level f = finish-append_line indent level unknown f
appender-chain indent (failure t) level f = finish-append_line indent level (failure t) f
appender-chain indent (aggregate t is) level f = finish-append_line indent level (aggregate t is) f
appender-chain indent (failure_nesting t inner) level f =
    nesting indent level (failure_nesting t inner) inner f (
      appender-chain indent inner (level + 1)
        (append_line indent level (failure_nesting t inner) f))
appender-chain indent (aggregate_nesting t is inner) level f =
    nesting indent level (aggregate_nesting t is inner) inner f (
      appender-chain indent inner (level + 1)
        (append_line indent level (aggregate_nesting t is inner) f))

-- An exception is flattened to those of its chain, the outermost first and an aggregate as its items,
-- and to one line for each exception of the chain, with dashes in proportion to its depth.
pub flatten_nested_exceptions-chain :
    (e : Exception) (indent : ℕ)
    → flatten_nested_exceptions (some e) indent
      ≡ record { levels = all_items (chain e); result = text_of indent 0 (chain e) }
unfolding flatten_nested_exceptions
flatten_nested_exceptions-chain e indent =
    appender-chain indent e 0 (record { levels = []; result = [] })
