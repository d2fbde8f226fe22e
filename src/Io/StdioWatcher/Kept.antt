-- ===== src/Io/StdioWatcher/Kept.antt =====
-- Where `stop` waits for ever, because something keeps the pipe open for writing.
use cpp_essence.Prelude.{
  ℕ, true, false, [], ◌∷◌, Option, none, some, ◌==◌, ◌≡◌, refl, ap, ◌∙◌, arith, Bool-cases, inl,
  inr,
}
use cpp_essence.Io.StdioWatcher.{
  Target, read_end, write_end, Table, lookup, close, open_at, has_writer, is_valid, reset_handle,
  dup2_to, Watcher, new_watcher, restore, joins, stop, redirect_to_pipe, start, and_then,
}
use cpp_essence.Io.StdioWatcher.Tables.{
  lookup-close, lookup-open_at, passed, open-differs, GivesFree, redirected, flipped,
}
use cpp_essence.Io.StdioWatcher.Restored.{
  origin, duplicated, reader, with_reader, writer, open-Apart, new-NewApart, start-new,
}

lookup-writer : (fd k : ℕ) (s : Table) → lookup fd s ≡ some (write_end k) → has_writer k s ≡ true
unfolding lookup has_writer
lookup-writer fd k [] e = cc
lookup-writer fd k ((d, x) ∷ s) e = ground (arith, e, lookup-writer fd k s)

kept-close :
    (fd d : ℕ) (y : Option Target) (s : Table)
    → (fd == d) ≡ false
    → lookup fd s ≡ y
    → lookup fd (close d s) ≡ y
kept-close fd d y s h e = ground (arith, h, e, lookup-close fd d s)

kept-closed :
    (fd d : ℕ) (y : Option Target) (s : Table)
    → (fd == d) ≡ false
    → lookup fd s ≡ y
    → lookup fd (reset_handle d s) ≡ y
unfolding reset_handle
kept-closed fd d y s h e = elim (Bool-cases (is_valid d)) [
  | inl v ↦ rw v (kept-close fd d y s h e)
  | inr v ↦ rw v e
]

kept-dup2_to :
    (fd d : ℕ) (y : Target) (m : Option Target) (s : Table)
    → (fd == d) ≡ false
    → lookup fd s ≡ some y
    → lookup fd (dup2_to m d s) ≡ some y
unfolding dup2_to
kept-dup2_to fd d y none s h e = e
kept-dup2_to fd d y (some x) s h e = passed fd d x s h ∙ e

-- Whatever the handle of the former stream is.
kept-restored :
    (fd : ℕ) (y : Target) (w : Watcher) (s : Table)
    → (fd == w.descriptor) ≡ false
    → (fd == w.origin) ≡ false
    → lookup fd s ≡ some y
    → lookup fd (restore w s) ≡ some y
unfolding restore dup2_to
kept-restored fd y w s nd nq e = elim (Bool-cases (is_valid w.origin)) [
  | inl v ↦ rw v (
      kept-close fd w.origin (some y) (dup2_to (lookup w.origin s) w.descriptor s) nq
        (kept-dup2_to fd w.descriptor y (lookup w.origin s) s nd e))
  | inr v ↦ rw v e
]

restore-empty : (w : Watcher) (s : Table) → is_valid w.origin ≡ false → restore w s ≡ s
unfolding restore
restore-empty w s v = rw v refl

-- A watcher that redirects its stream.
abbrev redirecting : (d o r h k : ℕ) → Watcher
redirecting d o r h k = record {
  descriptor = d;
  origin = o;
  pipe_read = r;
  pipe_write = h;
  worker = some k;
}

stop-blocked :
    (fd d o r h k : ℕ) (s : Table)
    → (fd == h) ≡ false
    → lookup fd (restore (redirecting d o r h k) s) ≡ some (write_end k)
    → stop (redirecting d o r h k) s ≡ none
unfolding stop joins
stop-blocked fd d o r h k s nh e =
    let w = redirecting d o r h k in
    ground (
      arith,
      lookup-writer fd k (reset_handle h (restore w s))
          (kept-closed fd h (some (write_end k)) (restore w s) nh e),
    )

opened_there : (d : ℕ) (x : Target) (s : Table) → lookup d (open_at d x s) ≡ some x
opened_there d x s = lookup-open_at d d x s ∙ ground arith

module _ (allocate : Table → ℕ) (free : GivesFree allocate) (t : Table) where
  -- What `start` leaves for a stream that names `x`.
  abbrev redirected_table : ℕ → ℕ → Target → Table
  redirected_table d pipe x =
      redirected d (origin allocate free t) (reader allocate free t x)
        (writer allocate free t x pipe) pipe x t

  abbrev with_pipe : ℕ → Target → Table
  with_pipe pipe x =
      open_at (writer allocate free t x pipe) (write_end pipe) (with_reader allocate free t x pipe)

  stream_is :
      (d pipe : ℕ) (x : Target) → lookup d (redirected_table d pipe x) ≡ some (write_end pipe)
  stream_is d pipe x = opened_there d (write_end pipe) (with_pipe pipe x)

  origin_is :
      (d pipe : ℕ) (x : Target)
      → (origin allocate free t == d) ≡ false
      → lookup (origin allocate free t) (redirected_table d pipe x) ≡ some x
  origin_is d pipe x od =
      let o = origin allocate free t in
      let n = new-NewApart allocate free t x pipe in
      passed o d (write_end pipe) (with_pipe pipe x) od
      ∙ passed o (writer allocate free t x pipe) (write_end pipe)
          (with_reader allocate free t x pipe) n.o_writer
      ∙ passed o (reader allocate free t x) (read_end pipe) (duplicated allocate free t x)
          n.o_reader
      ∙ opened_there o x t

  writer_is :
      (d pipe : ℕ) (x : Target)
      → (writer allocate free t x pipe == d) ≡ false
      → lookup (writer allocate free t x pipe) (redirected_table d pipe x) ≡ some (write_end pipe)
  writer_is d pipe x wd =
      let h = writer allocate free t x pipe in
      passed h d (write_end pipe) (with_pipe pipe x) wd
      ∙ opened_there h (write_end pipe) (with_reader allocate free t x pipe)

module _ (allocate : Table → ℕ) (free : GivesFree allocate) (t : Table) where
  -- If descriptor 0 is closed and `dup` takes it, the handle of the former stream counts as empty: the
  -- stream is not restored and stays the writing end of the pipe, and `stop` never returns.
  pub stop-zero :
      (d pipe : ℕ) (x : Target)
      → lookup d t ≡ some x
      → allocate t ≡ 0
      → and_then (start allocate pipe (new_watcher d) t) (λ (w, u). stop w u) ≡ none
  unfolding redirect_to_pipe
  stop-zero d pipe x e z =
      let o = origin allocate free t in
      let s = redirected_table allocate free t d pipe x in
      ap (λ o. and_then o (λ (w, u). stop w u)) (start-new allocate free t d pipe x e)
      ∙ stop-blocked d d o (reader allocate free t x) (writer allocate free t x pipe) pipe s
          (open-Apart allocate free t d pipe x x e).d_writer
          (ap (lookup d) (
              restore-empty
                (redirecting d o (reader allocate free t x) (writer allocate free t x pipe) pipe) s
                (ap is_valid z))
            ∙ stream_is allocate free t d pipe x)

  -- While a second watcher of the same stream runs, which was started behind the first one, the first one
  -- cannot be stopped: the handle for the former stream of the second keeps the first one's pipe open.
  pub stop-first :
      (d first second : ℕ) (x : Target)
      → lookup d t ≡ some x
      → and_then
          (start allocate first (new_watcher d) t)
          (λ (w, u). and_then (start allocate second (new_watcher d) u) (λ (v, s). stop w s))
        ≡ none
  unfolding redirect_to_pipe
  stop-first d first second x e =
      let a = open-Apart allocate free t d first x x e in
      let o = origin allocate free t in
      let h = writer allocate free t x first in
      let s = redirected_table allocate free t d first x in
      let y = write_end first in
      let o_is = origin_is allocate free t d first x (flipped d o a.d_origin) in
      let h_is = writer_is allocate free t d first x (flipped d h a.d_writer) in
      let d_is = stream_is allocate free t d first x in
      let kept = origin allocate free s in
      let nd = flipped d kept (open-differs d kept y s d_is (free s)) in
      let last = redirected_table allocate free s d second y in
      ap
        (λ o.
          and_then o
            (λ (w, u). and_then (start allocate second (new_watcher d) u) (λ (v, s). stop w s)))
        (start-new allocate free t d first x e)
      ∙ ap (λ m. and_then m (λ (v, u). stop (redirecting d o (reader allocate free t x) h first) u))
          (start-new allocate free s d second y d_is)
      ∙ stop-blocked kept d o (reader allocate free t x) h first last
          (flipped h kept (open-differs h kept y s h_is (free s)))
          (kept-restored kept y (redirecting d o (reader allocate free t x) h first) last nd
            (flipped o kept (open-differs o kept x s o_is (free s)))
            (origin_is allocate free s d second y nd))
