-- ===== src/Crypto/Spans.antt =====
-- Memory as src/crypto/chunk_processing_helper.hpp sees it: regions of bytes and spans of them, and
-- what a call of OpenSSL does to a span, which writes as many bytes as it makes.
use cpp_essence.Prelude.{
  ℕ, ◌+◌, ◌≤◌, ◌≡◌, refl, true, not, ◌||◌, Bool, ◌++◌, Bytes, length, take, drop, leb, ◌==◌,
  if◌then◌else◌, arith, splice, splice-append, read-splice,
}

pub record Span : Type 0 where
  pub region : ℕ
  pub start : ℕ
  pub size : ℕ

abbrev pub Heap : Type 0
Heap = ℕ → Bytes

unfoldable pub read : Span → Heap → Bytes
read s h = take s.size (drop s.start (h s.region))

unfoldable pub write : Span → Bytes → Heap → Heap
unfolding splice
write s bytes h = λ r. if r == s.region then splice s.start bytes (h r) else h r

-- Of another region, or beside one another.
unfoldable pub apart : Span → Span → Bool
apart a b =
    not (a.region == b.region) || leb (a.start + a.size) b.start || leb (b.start + b.size) a.start

-- What is left; or an exception was thrown; or why the memory is not what the caller takes it for:
-- more was written than the span holds, or the input was overwritten.
pub data Effect {ℓ} (A : Type ℓ) : Type ℓ where
  done : A → Effect A
  overrun : Effect A
  overlap : Effect A
  thrown : Effect A

infixl 20 ◌>>=◌
unfoldable pub ◌>>=◌ {ℓ κ} : {A : Type ℓ} {B : Type κ} → Effect A → (A → Effect B) → Effect B
done a >>= f = f a
overrun >>= f = overrun
overlap >>= f = overlap
thrown >>= f = thrown

-- `output = output.subspan(0, size)` behind a call that wrote these bytes at its beginning.
unfoldable pub put : Bytes → Span → Heap → Effect (Span × Heap)
unfolding write
put bytes out h =
    if leb (length bytes) out.size
    then done (record out { size = length bytes }, write out bytes h)
    else overrun

same : (r : ℕ) → (r == r) ≡ true
same r = ground arith

pub write-region :
    (s : Span) (bytes : Bytes) (h : Heap)
    → write s bytes h s.region ≡ splice s.start bytes (h s.region)
unfolding write
write-region s bytes h = rw (same s.region) refl

pub read-write :
    (s : Span) (bytes : Bytes) (h : Heap)
    → s.start ≤ length (h s.region)
    → read (record s { size = length bytes }) (write s bytes h) ≡ bytes
unfolding read write
read-write s bytes h fits = rw (same s.region) (read-splice s.start bytes (h s.region) fits)

-- Bytes written behind those of another call are read with them.
pub read-write_behind :
    (s : Span) (bs cs : Bytes) (h : Heap) (rest size : ℕ)
    → s.start ≤ length (h s.region)
    → size ≡ length (bs ++ cs)
    → read
        (record s { size = size })
        (write
          (record { region = s.region; start = s.start + length bs; size = rest })
          cs
          (write s bs h))
      ≡ bs ++ cs
unfolding read write
read-write_behind s bs cs h rest size fits e =
    rw (same s.region, e, splice-append s.start bs cs (h s.region) fits)
      (read-splice s.start (bs ++ cs) (h s.region) fits)
