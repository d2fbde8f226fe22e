-- ===== src/Crypto/Digest/Files.antt =====
-- The digest of a file is the digest of its contents, and what cannot be read is read for ever.
use cpp_essence.Prelude.{
  ℕ, zero, suc, ◌≤◌, ◌<◌, ◌≡◌, refl, sym, ap, ◌∙◌, [], ◌∷◌, ◌++◌, Option, none, some, ltb, inl, inr,
  length, take, drop, Bytes, arith, take-append-drop, length-drop, Option-cases, Bool-cases, tests,
}
use cpp_essence.Crypto.Digest.{
  Result, or_error, then_do, Routines, DigestMode, update_failed, File, contents, unreadable,
  chunk_size, update_by_chunks, make_file_digest, make_digest, make_digest_impl, file_digest_from,
  finish_digest, opened_file_digest, init_failed, final_failed, hex_encode,
}

-- A context makes no difference between bytes at once and in two parts.
abbrev pub IsStreaming : Routines → Type 0
IsStreaming r =
    (context : r.Context) (a b : Bytes)
    → r.update context (a ++ b)
      ≡ elim (r.update context a) [ none ↦ none | some updated ↦ r.update updated b ]

take-all : (n : ℕ) (bytes : Bytes) → length bytes ≤ n → take n bytes ≡ bytes
take-all zero [] h = refl
take-all (suc n) [] h = refl
take-all zero (c ∷ bytes) h = absurd (omega (arith, h))
take-all (suc n) (c ∷ bytes) h = ap (λ t. c ∷ t) (take-all n bytes (omega (arith, h)))

update_by_chunks-update :
    (r : Routines)
    → IsStreaming r
    → (size fuel : ℕ) (bytes : Bytes) (context : r.Context) → 0 < size
    → length bytes < fuel
    → update_by_chunks r size fuel (contents bytes) context
      ≡ some (or_error update_failed (r.update context bytes))
unfolding update_by_chunks
update_by_chunks-update r law size zero bytes context pos h = absurd (omega (arith, h))
update_by_chunks-update r law size (suc fuel) bytes context pos h =
    elim (Option-cases (r.update context (take size bytes))) [
      | inl e ↦ ground (arith, e, in_two)
      | inr (updated, e) ↦ elim (Bool-cases (ltb (length bytes) size)) [
        | inl short ↦
            ground
              (arith, e, short, ap (r.update context) (take-all size bytes (omega (tests, short))))
        | inr long ↦ ground (
          arith,
          e,
          long,
          in_two,
          update_by_chunks-update r law size fuel (drop size bytes) updated pos
              (ground (arith, h, pos, long, length-drop size bytes)),
        )
      ]
    ]
  where
    in_two : r.update context bytes ≡ elim (r.update context (take size bytes)) [
      | none ↦ none
      | some updated ↦ r.update updated (drop size bytes)
    ]
    in_two =
        ap (r.update context) (sym (take-append-drop size bytes))
        ∙ law context (take size bytes) (drop size bytes)

opened :
    (r : Routines) (files : Bytes → Option File) (fuel : ℕ) (mode : DigestMode) (path : Bytes)
    (file : File)
    → files path ≡ some file
    → make_file_digest r files fuel mode path ≡ file_digest_from r fuel mode file (r.init mode)
unfolding make_file_digest opened_file_digest
opened r files fuel mode path file e = ap (opened_file_digest r fuel mode) e

-- If the digest does not depend on how its input is cut, the digest of a file is made, with more fuel
-- than the file has bytes, and is the digest of its contents in one buffer, errors included.
pub make_file_digest-make_digest :
    (r : Routines) (files : Bytes → Option File) (fuel : ℕ) (mode : DigestMode) (path bytes : Bytes)
    → IsStreaming r
    → files path ≡ some (contents bytes)
    → length bytes < fuel
    → make_file_digest r files fuel mode path ≡ some (make_digest r mode (some bytes))
unfolding make_digest make_digest_impl file_digest_from finish_digest
make_file_digest-make_digest r files fuel mode path bytes law e h =
    elim (Option-cases (r.init mode)) [
      | inl i ↦
          opened r files fuel mode path (contents bytes) e
          ∙ ap (file_digest_from r fuel mode (contents bytes)) i
          ∙ ap (λ o. some (from_context o)) (sym i)
      | inr (context, i) ↦
          opened r files fuel mode path (contents bytes) e
          ∙ ap (file_digest_from r fuel mode (contents bytes)) i
          ∙ ap (finish_digest r mode)
              (update_by_chunks-update r law chunk_size fuel bytes context (omega arith) h)
          ∙ ap (λ o. some (from_context o)) (sym i)
    ]
  where
    from_context : Option r.Context → Result Bytes
    from_context o = then_do (or_error init_failed o) (λ context.
        then_do (or_error update_failed (r.update context bytes)) (λ updated.
          then_do (or_error final_failed (r.final updated)) (λ hash. hex_encode r.buf2hexstr hash)))

reads_on :
    (r : Routines) (fuel : ℕ) (context : r.Context)
    → ((c : r.Context) → r.update c [] ≡ some c)
    → update_by_chunks r chunk_size fuel unreadable context ≡ none
unfolding update_by_chunks
reads_on r zero context empty = refl
reads_on r (suc fuel) context empty = ground (arith, empty context, reads_on r fuel context empty)

-- A path that can be opened but not read, such as that of a directory, is read for ever: if the
-- context takes empty input, no fuel is enough.
pub make_file_digest-unreadable :
    (r : Routines) (files : Bytes → Option File) (fuel : ℕ) (mode : DigestMode) (path : Bytes)
    (context : r.Context)
    → files path ≡ some unreadable
    → r.init mode ≡ some context
    → ((c : r.Context) → r.update c [] ≡ some c)
    → make_file_digest r files fuel mode path ≡ none
unfolding file_digest_from finish_digest
make_file_digest-unreadable r files fuel mode path context e i empty =
    opened r files fuel mode path unreadable e
    ∙ ap (file_digest_from r fuel mode unreadable) i
    ∙ ap (finish_digest r mode) (reads_on r fuel context empty)
