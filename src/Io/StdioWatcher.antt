-- ===== src/Io/StdioWatcher.antt =====
-- src/io/stdio_watcher.cpp on POSIX: which descriptors name what while a standard stream is redirected
-- to a pipe. Which descriptor the system hands out is a parameter.
pub mod Tables
pub mod Restored
pub mod Kept
use cpp_essence.Prelude.{
  ℕ, Bool, true, false, not, ◌||◌, List, [], ◌∷◌, Option, none, some, ◌==◌, if◌then◌else◌,
}

-- What a descriptor names: a file or terminal, or one end of a pipe.
pub data Target : Type 0 where
  device read_end write_end : ℕ → Target

abbrev pub Table : Type 0
Table = List (ℕ × Target)

unfoldable pub lookup : ℕ → Table → Option Target
lookup fd [] = none
lookup fd ((d, t) ∷ table) = if fd == d then some t else lookup fd table

unfoldable pub close : ℕ → Table → Table
close fd [] = []
close fd ((d, t) ∷ table) = let rest = close fd table in if fd == d then rest else (d, t) ∷ rest

unfoldable pub open_at : ℕ → Target → Table → Table
unfolding close
open_at fd target table = (fd, target) ∷ close fd table

abbrev pub is_writer : ℕ → Target → Bool
is_writer pipe (write_end k) = pipe == k
is_writer pipe t = false

-- Whether a reader of a pipe still waits for more.
unfoldable pub has_writer : ℕ → Table → Bool
has_writer pipe [] = false
has_writer pipe ((d, t) ∷ table) = is_writer pipe t || has_writer pipe table

-- A handle is empty where its value is zero: `posix_handle` keeps it as a pointer.
abbrev pub is_valid : ℕ → Bool
is_valid handle = not (handle == 0)

unfoldable pub reset_handle : ℕ → Table → Table
unfolding close
reset_handle handle table = if is_valid handle then close handle table else table

-- `dup2`, which does nothing if the first descriptor is closed.
unfoldable pub dup2_to : Option Target → ℕ → Table → Table
unfolding open_at
dup2_to none fd table = table
dup2_to (some t) fd table = open_at fd t table

-- The pipe that the worker reads, if there is a worker.
pub record Watcher : Type 0 where
  pub descriptor : ℕ
  pub origin : ℕ
  pub pipe_read : ℕ
  pub pipe_write : ℕ
  pub worker : Option ℕ

-- A watcher of the standard stream with this descriptor.
unfoldable pub new_watcher : ℕ → Watcher
new_watcher descriptor = record {
  descriptor = descriptor;
  origin = 0;
  pipe_read = 0;
  pipe_write = 0;
  worker = none;
}

unfoldable pub restore : Watcher → Table → Table
unfolding lookup dup2_to reset_handle
restore w table =
    if is_valid w.origin
    then reset_handle w.origin (dup2_to (lookup w.origin table) w.descriptor table)
    else table

-- The join returns when the pipe has no writer left.
unfoldable pub joins : Option ℕ → Table → Bool
unfolding has_writer
joins none table = true
joins (some pipe) table = not (has_writer pipe table)

-- `none` where `stop` waits for ever.
unfoldable pub stop : Watcher → Table → Option (Watcher × Table)
unfolding restore joins reset_handle new_watcher
stop w table =
    let closed = reset_handle w.pipe_write (restore w table) in
    if joins w.worker closed
    then some (new_watcher w.descriptor, reset_handle w.pipe_read closed)
    else none

-- `dup` of what a descriptor names; of a closed one it gives -1, which is no handle either. Where it
-- works it takes the descriptor that `allocate` gives, and so does `pipe`, whose failure is left out.
unfoldable pub duplicate : (Table → ℕ) → Table → Option Target → ℕ × Table
unfolding open_at
duplicate allocate table none = (0, table)
duplicate allocate table (some target) = (allocate table, open_at (allocate table) target table)

-- Behind `dup`.
unfoldable pub redirect_to_pipe : (Table → ℕ) → ℕ → ℕ → ℕ × Table → Watcher × Table
unfolding open_at
redirect_to_pipe allocate pipe descriptor (origin, table) =
    let reader = allocate table in
    let with_reader = open_at reader (read_end pipe) table in
    let writer = allocate with_reader in
    let with_writer = open_at writer (write_end pipe) with_reader in
    (
      record {
        descriptor = descriptor;
        origin = origin;
        pipe_read = reader;
        pipe_write = writer;
        worker = some pipe;
      },
      open_at descriptor (write_end pipe) with_writer,
    )

-- `start` on a watcher that is stopped, with the new pipe.
unfoldable pub start_stopped : (Table → ℕ) → ℕ → Watcher × Table → Watcher × Table
unfolding duplicate redirect_to_pipe lookup
start_stopped allocate pipe (w, table) =
    redirect_to_pipe allocate pipe w.descriptor
      (duplicate allocate table (lookup w.descriptor table))

abbrev pub map_option {ℓ κ} : {A : Type ℓ} {B : Type κ} → (A → B) → Option A → Option B
map_option f none = none
map_option f (some a) = some (f a)

unfoldable pub start : (Table → ℕ) → ℕ → Watcher → Table → Option (Watcher × Table)
unfolding stop start_stopped
start allocate pipe w table = map_option (start_stopped allocate pipe) (stop w table)

abbrev pub and_then {ℓ κ} : {A : Type ℓ} {B : Type κ} → Option A → (A → Option B) → Option B
and_then none f = none
and_then (some a) f = f a
