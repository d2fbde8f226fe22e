-- ===== src/Thread/ParallelFor/Account.antt =====
-- Where each number of the range is: called, passed over, or in the hands of a worker.
use cpp_essence.Prelude.{
  ℕ, zero, suc, ◌+◌, ◌^◌, ◌≤◌, ◌<◌, min, max, ◌≡◌, refl, ◌&&◌, List, [], ◌∷◌, none, some, ltb, leb,
  ◌==◌, replicate, get_elem?, length, if◌then◌else◌, arith, ◌⊎◌,
}
use cpp_essence.Thread.ParallelFor.{
  Outcome, returned, thrown, Worker, fetching, fetched, calling, finished, Memory, advance,
  set_elem,
}

abbrev pub total : (Worker → ℕ) → List Worker → ℕ
total f [] = 0
total f (w ∷ ws) = f w + total f ws

pub total-set_elem :
    (f : Worker → ℕ) (i : ℕ) (w w' : Worker) (ws : List Worker)
    → get_elem? ws i ≡ some w
    → total f (set_elem i w' ws) + f w ≡ total f ws + f w'
total-set_elem f zero w w' [] e = ground arith
total-set_elem f (suc i) w w' [] e = ground arith
total-set_elem f zero w w' (v ∷ ws) e = ground arith
total-set_elem f (suc i) w w' (v ∷ ws) e = omega (arith, total-set_elem f i w w' ws e)

pub total-get_elem? :
    (f : Worker → ℕ) (i : ℕ) (w : Worker) (ws : List Worker)
    → get_elem? ws i ≡ some w
    → f w ≤ total f ws
total-get_elem? f zero w [] e = ground arith
total-get_elem? f (suc i) w [] e = ground arith
total-get_elem? f zero w (v ∷ ws) e = ground arith
total-get_elem? f (suc i) w (v ∷ ws) e = omega (arith, total-get_elem? f i w ws e)

pub length-set_elem : (i : ℕ) (w : Worker) (ws : List Worker) → length (set_elem i w ws) ≡ length ws
length-set_elem i w [] = refl
length-set_elem zero w (v ∷ ws) = refl
length-set_elem (suc i) w (v ∷ ws) = omega (arith, length-set_elem i w ws)

pub total-replicate : (f : Worker → ℕ) (n : ℕ) (w : Worker) → f w ≡ 0 → total f (replicate n w) ≡ 0
total-replicate f zero w e = refl
total-replicate f (suc n) w e = omega (arith, e, total-replicate f n w e)

abbrev pub count : ℕ → List ℕ → ℕ
count x [] = 0
count x (y ∷ ys) = (if y == x then 1 else 0) + count x ys

-- A worker that has fetched the number but not yet looked at its `exit`.
abbrev pub holds : ℕ → ℕ → Worker → ℕ
holds end x (fetching exit) = 0
holds end x (fetched id exit) = if (id == x) && ltb id end then 1 else 0
holds end x (calling id) = 0
holds end x finished = 0

-- A worker that may still fetch.
abbrev pub live : ℕ → Worker → ℕ
live end (fetching exit) = 1
live end (fetched id exit) = if leb end id then 0 else 1
live end (calling id) = 1
live end finished = 0

-- A worker that has come to a number behind the range, or to its end.
abbrev pub at_end : ℕ → Worker → ℕ
at_end end (fetching exit) = 0
at_end end (fetched id exit) = if leb end id then 1 else 0
at_end end (calling id) = 0
at_end end finished = 1

-- The numbers from `start` to before `end` and `current`.
abbrev pub within : ℕ → ℕ → ℕ → ℕ → ℕ
within start end current x = if leb start x && (ltb x end && ltb x current) then 1 else 0

abbrev pub has_thrown : Memory → ℕ
has_thrown m = elim m.last_exception [ none ↦ 0 | some e ↦ 1 ]

abbrev pub account : ℕ → Memory → ℕ
account x m = count x m.called + count x m.skipped

-- What a step of one worker does to the account of a number.
pub advance-account :
    (start end x : ℕ) (o : Outcome) (w : Worker) (m : Memory)
    → min start end ≤ m.current
    → m.current + live end w < 2 ^ 64
    → account x (advance end o w m).1
        + holds end x (advance end o w m).0
        + within start end m.current x
      ≤ account x m + holds end x w + within start end (advance end o w m).1.current x
unfolding advance
advance-account start end x o (fetching exit) m low small = grind arith
advance-account start end x o (fetched id exit) m low small = ground arith
advance-account start end x (returned exit) (calling id) m low small = ground arith
advance-account start end x (thrown t) (calling id) m low small = ground arith
advance-account start end x (returned exit) finished m low small = ground arith
advance-account start end x (thrown t) finished m low small = ground arith

-- Nothing is left out unless a call throws.
pub advance-exact :
    (start end x : ℕ) (o : Outcome) (w : Worker) (m : Memory)
    → min start end ≤ m.current
    → m.current + live end w < 2 ^ 64
    → has_thrown (advance end o w m).1 ≡ 0
    → account x m + holds end x w + within start end (advance end o w m).1.current x
      ≤ account x (advance end o w m).1
        + holds end x (advance end o w m).0
        + within start end m.current x
unfolding advance
advance-exact start end x o (fetching exit) m low small quiet = grind arith
advance-exact start end x o (fetched id exit) m low small quiet = ground arith
advance-exact start end x (returned exit) (calling id) m low small quiet = ground arith
advance-exact start end x (thrown t) (calling id) m low small quiet = ground arith
advance-exact start end x (returned exit) finished m low small quiet = ground arith
advance-exact start end x (thrown t) finished m low small quiet = ground arith

-- An exception stays until another one takes its place.
pub advance-has_thrown :
    (end : ℕ) (o : Outcome) (w : Worker) (m : Memory)
    → has_thrown m ≤ has_thrown (advance end o w m).1
unfolding advance
advance-has_thrown end o (fetching exit) m = ground arith
advance-has_thrown end o (fetched id exit) m = ground arith
advance-has_thrown end (returned exit) (calling id) m = ground arith
advance-has_thrown end (thrown t) (calling id) m =
    elim m.last_exception as (λ r. elim r [ none ↦ 0 | some e ↦ 1 ] ≤ 1) [
      | none ↦ omega arith
      | some e ↦ omega arith
    ]
advance-has_thrown end (returned exit) finished m = ground arith
advance-has_thrown end (thrown t) finished m = ground arith

-- The counter passes the end by at most one for each worker that may fetch no more.
pub advance-room :
    (start end n others : ℕ) (o : Outcome) (w : Worker) (m : Memory)
    → min start end ≤ m.current
    → m.current + live end w < 2 ^ 64
    → others + 1 ≤ n
    → m.current + (others + live end w) ≤ max start end + n
    → (min start end ≤ (advance end o w m).1.current)
      × ((advance end o w m).1.current + (others + live end (advance end o w m).0)
          ≤ max start end + n)
unfolding advance
advance-room start end n others o (fetching exit) m low small few room = grind arith
advance-room start end n others o (fetched id exit) m low small few room = ground arith
advance-room start end n others (returned exit) (calling id) m low small few room = ground arith
advance-room start end n others (thrown t) (calling id) m low small few room = ground arith
advance-room start end n others (returned exit) finished m low small few room = ground arith
advance-room start end n others (thrown t) finished m low small few room = ground arith

pub advance-ended :
    (end : ℕ) (o : Outcome) (w : Worker) (m : Memory)
    → m.current + live end w < 2 ^ 64
    → (end ≤ (advance end o w m).1.current)
      ⊎ ((m.current ≤ (advance end o w m).1.current)
          × (at_end end (advance end o w m).0 ≡ at_end end w))
unfolding advance
advance-ended end o (fetching exit) m small = grind arith
advance-ended end o (fetched id exit) m small = ground arith
advance-ended end (returned exit) (calling id) m small = ground arith
advance-ended end (thrown t) (calling id) m small = ground arith
advance-ended end (returned exit) finished m small = ground arith
advance-ended end (thrown t) finished m small = ground arith
