-- ===== src/Crypto/Digest.antt =====
-- src/crypto/digest.cpp: base64 and hexadecimal texts, and digests of buffers and files. What
-- OpenSSL and the file system do is a parameter.
pub mod Base64
pub mod Files
use cpp_essence.Prelude.{
  ℕ, zero, suc, ◌+◌, ◌-◌, ◌*◌, ◌/◌, ◌%◌, ◌^◌, Bool, true, false, List, [], ◌∷◌, Option, none, some,
  ltb, ◌==◌, if◌then◌else◌, length, take, drop, Bytes,
}

-- What is thrown.
pub data DigestError : Type 0 where
  illegal_length decode_block_failed size_differs hex_failed null_data init_failed : DigestError
  update_failed final_failed hmac_failed file_not_open : DigestError

pub data Result {ℓ} (A : Type ℓ) : Type ℓ where
  ok : A → Result A
  error : DigestError → Result A

-- A result that is absent as an error, and what follows on a result.
abbrev pub or_error {ℓ} : {A : Type ℓ} → DigestError → Option A → Result A
or_error e none = error e
or_error e (some a) = ok a

abbrev pub then_do {ℓ κ} : {A : Type ℓ} {B : Type κ} → Result A → (A → Result B) → Result B
then_do (ok a) f = f a
then_do (error e) f = error e

-- How many of the characters at the end are `=`; none where all are.
unfoldable pub trailing_paddings : Bytes → Option ℕ
trailing_paddings [] = none
trailing_paddings (c ∷ text) = elim (trailing_paddings text) [
  | some n ↦ some n
  | none ↦ if c == b'=' then none else some (length text)
]

unfoldable pub padding_size : Bytes → ℕ
unfolding trailing_paddings
padding_size text = elim (trailing_paddings text) [ none ↦ 0 | some n ↦ n ]

-- `EVP_EncodeBlock`: the text it writes for a size and a buffer. The size is an int32, the low 32
-- bits of the buffer's, and stands here as those bits: from 2 ^ 31 it is negative.
unfoldable pub base64_encode : (ℕ → Bytes → Bytes) → Bytes → Result Bytes
base64_encode encode_block [] = ok []
base64_encode encode_block (c ∷ rest) =
    let buffer = c ∷ rest in
    let text = encode_block (length buffer % 2 ^ 32) buffer in
    if length text == (length buffer + 2) / 3 * 4 then ok text else error size_differs

unfoldable pub remove_paddings : ℕ → Bytes → Bytes
remove_paddings padding result =
    if ltb (length result) padding then result else take (length result - padding) result

-- `EVP_DecodeBlock`: the bytes it writes for a size, cast in the same way, and a text, the zeros for
-- the padding included; or its error.
unfoldable pub base64_decode : (ℕ → Bytes → Option Bytes) → Bytes → Result Bytes
unfolding padding_size remove_paddings
base64_decode decode_block [] = ok []
base64_decode decode_block (c ∷ rest) =
    let text = c ∷ rest in
    if length text % 4 == 0
    then then_do (or_error decode_block_failed (decode_block (length text % 2 ^ 32) text))
        (λ result.
          if length result == length text / 4 * 3
          then ok (remove_paddings (padding_size text) result)
          else error size_differs)
    else error illegal_length

-- `OPENSSL_buf2hexstr_ex`: the characters it writes, the terminator included.
unfoldable pub hex_encode : (Bytes → Option Bytes) → Bytes → Result Bytes
hex_encode buf2hexstr buffer =
    then_do (or_error hex_failed (buf2hexstr buffer)) (λ text. ok (take (length text - 1) text))

-- `OPENSSL_hexstr2buf_ex`.
unfoldable pub hex_decode : (Bytes → Option Bytes) → Bytes → Result Bytes
hex_decode hexstr2buf hex = or_error hex_failed (hexstr2buf hex)

pub data DigestMode : Type 0 where
  sha1 sha224 sha256 sha384 sha512 sha512_224 sha512_256 : DigestMode
  sha3_224 sha3_256 sha3_384 sha3_512 shake128 shake256 md5 sm3 : DigestMode

-- The digest functions of OpenSSL over a context, for each mode. That the sizes of a key and a buffer
-- are cast to int32 for `hmac` is part of it.
pub record Routines : Type 1 where
  pub Context : Type 0
  pub init : DigestMode → Option Context
  pub update : Context → Bytes → Option Context
  pub final : Context → Option Bytes
  pub hmac : DigestMode → Bytes → Bytes → Option Bytes
  pub buf2hexstr : Bytes → Option Bytes
  pub encode_block : ℕ → Bytes → Bytes

-- The digest of what the handler feeds to the context.
unfoldable pub make_digest_impl :
    (r : Routines) → DigestMode → (r.Context → Result r.Context) → Result Bytes
unfolding hex_encode
make_digest_impl r mode update_handler = then_do (or_error init_failed (r.init mode)) (λ context.
    then_do (update_handler context) (λ updated.
      then_do (or_error final_failed (r.final updated)) (λ hash. hex_encode r.buf2hexstr hash)))

-- `none` is a buffer with null data.
unfoldable pub make_digest : Routines → DigestMode → Option Bytes → Result Bytes
unfolding make_digest_impl
make_digest r mode none = error null_data
make_digest r mode (some buffer) =
    make_digest_impl r mode (λ context. or_error update_failed (r.update context buffer))

unfoldable pub md5_hash : Routines → Option Bytes → Result Bytes
unfolding make_digest
md5_hash r buffer = make_digest r md5 buffer

unfoldable pub hmac_hash : Routines → DigestMode → Bytes → Bytes → Result Bytes
unfolding base64_encode
hmac_hash r mode key buffer =
    then_do (or_error hmac_failed (r.hmac mode key buffer))
      (λ hash. base64_encode r.encode_block hash)

-- What a path names: a file, or something that can be opened but not read, such as a directory.
pub data File : Type 0 where
  contents : Bytes → File
  unreadable : File

abbrev pub chunk_size : ℕ
chunk_size = 4096

-- The loop over chunks of a size; a read that comes to the end of the file sets `eof`, a read that
-- fails does not. `none` is a loop that has not ended within its fuel.
unfoldable pub update_by_chunks :
    (r : Routines) → ℕ → ℕ → File → r.Context → Option (Result r.Context)
update_by_chunks r size zero file context = none
update_by_chunks r size (suc fuel) unreadable context = elim (r.update context []) [
  | none ↦ some (error update_failed)
  | some updated ↦ update_by_chunks r size fuel unreadable updated
]
update_by_chunks r size (suc fuel) (contents bytes) context =
    elim (r.update context (take size bytes)) [
      | none ↦ some (error update_failed)
      | some updated ↦
          if ltb (length bytes) size
          then some (ok updated)
          else update_by_chunks r size fuel (contents (drop size bytes)) updated
    ]

-- Behind the loop.
unfoldable pub finish_digest :
    (r : Routines) → DigestMode → Option (Result r.Context) → Option (Result Bytes)
unfolding hex_encode
finish_digest r mode none = none
finish_digest r mode (some updated) = some (
    then_do updated (λ context.
      then_do (or_error final_failed (r.final context)) (λ hash. hex_encode r.buf2hexstr hash)))

unfoldable pub file_digest_from :
    (r : Routines) → ℕ → DigestMode → File → Option r.Context → Option (Result Bytes)
unfolding update_by_chunks finish_digest
file_digest_from r fuel mode file none = some (error init_failed)
file_digest_from r fuel mode file (some context) =
    finish_digest r mode (update_by_chunks r chunk_size fuel file context)

unfoldable pub opened_file_digest :
    (r : Routines) → ℕ → DigestMode → Option File → Option (Result Bytes)
unfolding file_digest_from
opened_file_digest r fuel mode none = some (error file_not_open)
opened_file_digest r fuel mode (some file) = file_digest_from r fuel mode file (r.init mode)

unfoldable pub make_file_digest :
    (r : Routines) (files : Bytes → Option File) → ℕ → DigestMode → Bytes → Option (Result Bytes)
unfolding opened_file_digest
make_file_digest r files fuel mode path = opened_file_digest r fuel mode (files path)
