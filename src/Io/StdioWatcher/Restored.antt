-- ===== src/Io/StdioWatcher/Restored.antt =====
-- `stop` undoes what `start` did to the descriptors.
use cpp_essence.Prelude.{ℕ, true, false, none, some, ◌==◌, ◌≡◌, ap, ◌∙◌, arith}
use cpp_essence.Io.StdioWatcher.{
  Target, read_end, write_end, Table, lookup, close, open_at, has_writer, is_valid, reset_handle,
  dup2_to, new_watcher, restore, joins, stop, duplicate, redirect_to_pipe, start_stopped, start,
  and_then,
}
use cpp_essence.Io.StdioWatcher.Tables.{
  lookup-open_at, lookup-has_writer, GivesFree, open-differs, flipped, redirected, without_writer,
  passed, lookup-without_writer, has_writer-without_writer,
}

restore-open :
    (d o r w k : ℕ) (x : Target) (s : Table)
    → is_valid o ≡ true
    → lookup o s ≡ some x
    → restore
        (record { descriptor = d; origin = o; pipe_read = r; pipe_write = w; worker = some k })
        s
      ≡ close o (open_at d x s)
unfolding restore reset_handle dup2_to
restore-open d o r w k x s v e = ground (arith, v, e)

stop-open :
    (d o r w k : ℕ) (x : Target) (s : Table)
    → is_valid o ≡ true
    → is_valid r ≡ true
    → is_valid w ≡ true
    → lookup o s ≡ some x
    → has_writer k (close w (close o (open_at d x s))) ≡ false
    → stop (record { descriptor = d; origin = o; pipe_read = r; pipe_write = w; worker = some k }) s
      ≡ some (new_watcher d, close r (close w (close o (open_at d x s))))
unfolding stop reset_handle joins
stop-open d o r w k x s vo vr vw e h = ground (arith, vr, vw, h, restore-open d o r w k x s vo e)

-- What is closed behind an opening was closed before.
lookup-unused :
    (fd d : ℕ) (x : Target) (s : Table) → lookup fd (open_at d x s) ≡ none → lookup fd s ≡ none
lookup-unused fd d x s h = ground (arith, h, lookup-open_at fd d x s)

module _ (allocate : Table → ℕ) (free : GivesFree allocate) (t : Table) where
  -- The tables of `start`, where the descriptor of a device is duplicated and a pipe is opened.
  abbrev pub origin : ℕ
  origin = allocate t

  abbrev pub duplicated : Target → Table
  duplicated x = open_at origin x t

  abbrev pub reader : Target → ℕ
  reader x = allocate (duplicated x)

  abbrev pub with_reader : Target → ℕ → Table
  with_reader x pipe = open_at (reader x) (read_end pipe) (duplicated x)

  abbrev pub writer : Target → ℕ → ℕ
  writer x pipe = allocate (with_reader x pipe)

  -- An open descriptor is none of the new ones, and these are three.
  pub record Apart (d : ℕ) (x : Target) (pipe : ℕ) : Type 0 where
    pub d_origin : (d == origin) ≡ false
    pub d_reader : (d == reader x) ≡ false
    pub d_writer : (d == writer x pipe) ≡ false

  pub open-Apart : (d pipe : ℕ) (x y : Target) → lookup d t ≡ some y → Apart d x pipe
  open-Apart d pipe x y e =
      let o = open-differs d origin y t e (free t) in
      let e1 : lookup d (duplicated x) ≡ some y =
        ground (arith, lookup-open_at d origin x t, o, e) in
      let r = open-differs d (reader x) y (duplicated x) e1 (free (duplicated x)) in
      let e2 : lookup d (with_reader x pipe) ≡ some y =
        ground (arith, lookup-open_at d (reader x) (read_end pipe) (duplicated x), r, e1) in
      record {
        d_origin = o;
        d_reader = r;
        d_writer =
            open-differs d (writer x pipe) y (with_reader x pipe) e2 (free (with_reader x pipe));
      }

  pub record NewApart (x : Target) (pipe : ℕ) : Type 0 where
    pub o_reader : (origin == reader x) ≡ false
    pub o_writer : (origin == writer x pipe) ≡ false
    pub r_writer : (reader x == writer x pipe) ≡ false

  pub new-NewApart : (x : Target) (pipe : ℕ) → NewApart x pipe
  new-NewApart x pipe =
      let e1 : lookup origin (duplicated x) ≡ some x =
        ground (arith, lookup-open_at origin origin x t) in
      let r = open-differs origin (reader x) x (duplicated x) e1 (free (duplicated x)) in
      let e2 : lookup origin (with_reader x pipe) ≡ some x =
        ground (arith, lookup-open_at origin (reader x) (read_end pipe) (duplicated x), r, e1) in
      let e3 : lookup (reader x) (with_reader x pipe) ≡ some (read_end pipe) =
        ground (arith, lookup-open_at (reader x) (reader x) (read_end pipe) (duplicated x)) in
      record {
        o_reader = r;
        o_writer =
            open-differs origin (writer x pipe) x (with_reader x pipe) e2
              (free (with_reader x pipe));
        r_writer =
            open-differs (reader x) (writer x pipe) (read_end pipe) (with_reader x pipe) e3
              (free (with_reader x pipe));
      }

  valid : (z : Target) (d : ℕ) → lookup 0 t ≡ some z → (0 == d) ≡ false → is_valid d ≡ true
  valid z d e h = ground (arith, h)

  -- `stop` on what `start` leaves.
  stop-redirected :
      (d pipe : ℕ) (x z : Target)
      → lookup d t ≡ some x
      → lookup 0 t ≡ some z
      → has_writer pipe t ≡ false
      → let (w, s) = redirect_to_pipe allocate pipe d (origin, duplicated x) in
        stop w s
        ≡ some (
          new_watcher d,
          close (reader x) (without_writer d origin (reader x) (writer x pipe) pipe x t),
        )
  unfolding stop redirect_to_pipe restore reset_handle dup2_to joins
  stop-redirected d pipe x z e z_open none_writing =
      let a = open-Apart d pipe x x e in
      let b = open-Apart 0 pipe x z z_open in
      let n = new-NewApart x pipe in
      stop-open d origin (reader x) (writer x pipe) pipe x
        (redirected d origin (reader x) (writer x pipe) pipe x t) (valid z origin z_open b.d_origin)
        (valid z (reader x) z_open b.d_reader) (valid z (writer x pipe) z_open b.d_writer)
        (passed origin d (write_end pipe)
            (open_at (writer x pipe) (write_end pipe) (with_reader x pipe))
            (flipped d origin a.d_origin)
          ∙ passed origin (writer x pipe) (write_end pipe) (with_reader x pipe) n.o_writer
          ∙ passed origin (reader x) (read_end pipe) (duplicated x) n.o_reader
          ∙ (lookup-open_at origin origin x t ∙ ground arith))
        (has_writer-without_writer d origin (reader x) (writer x pipe) pipe x t
          (flipped d origin a.d_origin) (flipped d (writer x pipe) a.d_writer) a.d_writer n.o_writer
          (lookup-has_writer pipe d x t e none_writing) none_writing)

  pub start-new :
      (d pipe : ℕ) (x : Target)
      → lookup d t ≡ some x
      → start allocate pipe (new_watcher d) t
        ≡ some (redirect_to_pipe allocate pipe d (origin, duplicated x))
  unfolding start stop restore joins reset_handle new_watcher start_stopped duplicate
  start-new d pipe x e =
      ap (λ o. some (redirect_to_pipe allocate pipe d (duplicate allocate t o))) e

  -- If a standard stream is open, descriptor 0 is in use, the system hands out descriptors that are
  -- closed, and nobody writes to the new pipe yet, then `stop` behind `start` returns and every
  -- descriptor names what it did before.
  pub stop-start :
      (d pipe : ℕ) (x z : Target)
      → lookup d t ≡ some x
      → lookup 0 t ≡ some z
      → has_writer pipe t ≡ false
      → (s : Table) × (and_then (start allocate pipe (new_watcher d) t) (λ (w, u). stop w u)
          ≡ some (new_watcher d, s))
        × ((fd : ℕ) → lookup fd s ≡ lookup fd t)
  stop-start d pipe x z e z_open none_writing = (
    close (reader x) (without_writer d origin (reader x) (writer x pipe) pipe x t),
    ap (λ o. and_then o (λ (w, u). stop w u)) (start-new d pipe x e)
        ∙ stop-redirected d pipe x z e z_open none_writing,
    λ fd.
        lookup-without_writer d origin (reader x) (writer x pipe) pipe fd x t e (free t)
          (lookup-unused (reader x) origin x t (free (duplicated x)))
          (lookup-unused (writer x pipe) origin x t (
            lookup-unused (writer x pipe) (reader x) (read_end pipe) (duplicated x)
              (free (with_reader x pipe)))),
  )
