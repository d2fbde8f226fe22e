-- ===== src/Io/StdioWatcher/Tables.antt =====
-- Lookups in tables of descriptors, and what `start` and `stop` leave of one.
use cpp_essence.Prelude.{
  ℕ, false, [], ◌∷◌, none, some, ◌==◌, if◌then◌else◌, ◌≡◌, refl, ap, ◌∙◌, arith, Bool-cases, ==_iff,
  inl, inr,
}
use cpp_essence.Io.StdioWatcher.{
  Target, read_end, write_end, Table, lookup, close, open_at, is_writer, has_writer,
}

pub lookup-close :
    (fd d : ℕ) (t : Table) → lookup fd (close d t) ≡ (if fd == d then none else lookup fd t)
unfolding lookup close
lookup-close fd d [] = ground arith
lookup-close fd d ((e, x) ∷ t) = ground (arith, lookup-close fd d t)

pub lookup-open_at :
    (fd d : ℕ) (x : Target) (t : Table)
    → lookup fd (open_at d x t) ≡ (if fd == d then some x else lookup fd t)
unfolding lookup open_at
lookup-open_at fd d x t = ground (arith, lookup-close fd d t)

pub has_writer-close :
    (k d : ℕ) (t : Table) → has_writer k t ≡ false → has_writer k (close d t) ≡ false
unfolding has_writer close
has_writer-close k d [] h = refl
has_writer-close k d ((e, x) ∷ t) h = ground (arith, h, has_writer-close k d t)

has_writer-open_at :
    (k d : ℕ) (x : Target) (t : Table)
    → is_writer k x ≡ false
    → has_writer k t ≡ false
    → has_writer k (open_at d x t) ≡ false
unfolding has_writer open_at
has_writer-open_at k d x t e h = ground (arith, e, has_writer-close k d t h)

pub lookup-has_writer :
    (k d : ℕ) (x : Target) (t : Table)
    → lookup d t ≡ some x
    → has_writer k t ≡ false
    → is_writer k x ≡ false
unfolding lookup has_writer
lookup-has_writer k d x [] e h = cc
lookup-has_writer k d x ((f, y) ∷ t) e h = ground (arith, e, h, lookup-has_writer k d x t)

-- The system hands out descriptors that are closed.
abbrev pub GivesFree : (Table → ℕ) → Type 0
GivesFree allocate = (t : Table) → lookup (allocate t) t ≡ none

pub open-differs :
    (a b : ℕ) (x : Target) (t : Table) → lookup a t ≡ some x → lookup b t ≡ none → (a == b) ≡ false
open-differs a b x t e f = elim (Bool-cases (a == b)) [
  | inl same ↦ absurd (ground (arith, e, f, ap (λ d. lookup d t) ((==_iff a b).0 same)))
  | inr other ↦ other
]

close-other :
    (d e : ℕ) (x : Target) (t : Table)
    → (d == e) ≡ false
    → close d ((e, x) ∷ t) ≡ (e, x) ∷ close d t
unfolding close
close-other d e x t h = rw h refl

close-same : (d : ℕ) (x : Target) (t : Table) → close d ((d, x) ∷ t) ≡ close d t
unfolding close
close-same d x t = ground arith

pub flipped : (a b : ℕ) → (a == b) ≡ false → (b == a) ≡ false
flipped a b h = ground (arith, h)

-- A table whose stream `d` is redirected to the pipe, with the descriptors `o`, `r` and `w` of
-- `start`; and the same when `stop` has restored the stream and closed the writing end.
abbrev pub redirected : (d o r w pipe : ℕ) → Target → Table → Table
redirected d o r w pipe x t =
    open_at d (write_end pipe)
      (open_at w (write_end pipe) (open_at r (read_end pipe) (open_at o x t)))

abbrev pub without_writer : (d o r w pipe : ℕ) → Target → Table → Table
without_writer d o r w pipe x t = close w (close o (open_at d x (redirected d o r w pipe x t)))

-- A table is compared with another one behind each change.
closed :
    (fd d : ℕ) (s t : Table)
    → lookup d t ≡ none
    → ((fd == d) ≡ false → lookup fd s ≡ lookup fd t)
    → lookup fd (close d s) ≡ lookup fd t
closed fd d s t e rest = elim (Bool-cases (fd == d)) [
  | inl same ↦
      ground (arith, lookup-close fd d s, same, e, ap (λ f. lookup f t) ((==_iff fd d).0 same))
  | inr other ↦ ground (arith, lookup-close fd d s, other, rest other)
]

opened :
    (fd d : ℕ) (x : Target) (s t : Table)
    → lookup d t ≡ some x
    → ((fd == d) ≡ false → lookup fd s ≡ lookup fd t)
    → lookup fd (open_at d x s) ≡ lookup fd t
opened fd d x s t e rest = elim (Bool-cases (fd == d)) [
  | inl same ↦
      ground (arith, lookup-open_at fd d x s, same, e, ap (λ f. lookup f t) ((==_iff fd d).0 same))
  | inr other ↦ ground (arith, lookup-open_at fd d x s, other, rest other)
]

pub passed :
    (fd d : ℕ) (x : Target) (s : Table)
    → (fd == d) ≡ false
    → lookup fd (open_at d x s) ≡ lookup fd s
passed fd d x s other = ground (arith, lookup-open_at fd d x s, other)

pub lookup-without_writer :
    (d o r w pipe fd : ℕ) (x : Target) (t : Table)
    → lookup d t ≡ some x
    → lookup o t ≡ none
    → lookup r t ≡ none
    → lookup w t ≡ none
    → lookup fd (close r (without_writer d o r w pipe x t)) ≡ lookup fd t
lookup-without_writer d o r w pipe fd x t e fo fr fw =
    let t1 = open_at o x t in
    let t2 = open_at r (read_end pipe) t1 in
    let t3 = open_at w (write_end pipe) t2 in
    let t4 = open_at d (write_end pipe) t3 in
    let t5 = open_at d x t4 in
    closed fd r (close w (close o t5)) t fr (λ nr. closed fd w (close o t5) t fw (λ nw.
      closed fd o t5 t fo (λ no. opened fd d x t4 t e (λ nd.
        passed fd d (write_end pipe) t3 nd
        ∙ passed fd w (write_end pipe) t2 nw
        ∙ passed fd r (read_end pipe) t1 nr
        ∙ passed fd o x t no))))

pub has_writer-without_writer :
    (d o r w pipe : ℕ) (x : Target) (t : Table)
    → (o == d) ≡ false
    → (w == d) ≡ false
    → (d == w) ≡ false
    → (o == w) ≡ false
    → is_writer pipe x ≡ false
    → has_writer pipe t ≡ false
    → has_writer pipe (without_writer d o r w pipe x t) ≡ false
unfolding has_writer open_at
has_writer-without_writer d o r w pipe x t od wd dw ow nx nt =
    let t2 = open_at r (read_end pipe) (open_at o x t) in
    let rest = close w (close o (close d (close d (close w t2)))) in
    ap (has_writer pipe) (
      ap (λ s. close w (close o ((d, x) ∷ s)))
        (close-same d (write_end pipe) (close d ((w, write_end pipe) ∷ close w t2))
          ∙ ap (close d) (close-other d w (write_end pipe) (close w t2) dw)
          ∙ close-other d w (write_end pipe) (close d (close w t2)) dw)
      ∙ ap (close w) (
          close-other o d x ((w, write_end pipe) ∷ close d (close d (close w t2))) od
          ∙ ap (λ s. (d, x) ∷ s)
              (close-other o w (write_end pipe) (close d (close d (close w t2))) ow))
      ∙ close-other w d x ((w, write_end pipe) ∷ close o (close d (close d (close w t2)))) wd
      ∙ ap (λ s. (d, x) ∷ s)
          (close-same w (write_end pipe) (close o (close d (close d (close w t2))))))
    ∙ ground (
      arith,
      nx,
      has_writer-close pipe w (close o (close d (close d (close w t2)))) (
          has_writer-close pipe o (close d (close d (close w t2))) (
            has_writer-close pipe d (close d (close w t2))
              (has_writer-close pipe d (close w t2) (has_writer-close pipe w t2 inner)))),
    )
  where
    inner : has_writer pipe (open_at r (read_end pipe) (open_at o x t)) ≡ false
    inner =
        has_writer-open_at pipe r (read_end pipe) (open_at o x t) refl
          (has_writer-open_at pipe o x t nx nt)
