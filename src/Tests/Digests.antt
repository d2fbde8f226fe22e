-- ===== src/Tests/Digests.antt =====
-- Digests and base64 texts over small stand-ins for the functions of OpenSSL.
use cpp_essence.Prelude.{
  ℕ, ◌+◌, ◌-◌, ◌*◌, ◌/◌, ◌≡◌, refl, sym, ap, ap₂, subst, [], ◌∷◌, ◌++◌, append_assoc, append-nil,
  Option, none, some, length, replicate, Bytes, arith,
}
use cpp_essence.Crypto.Digest.{
  ok, then_do, sha256, Routines, File, contents, unreadable, base64_encode, base64_decode,
  make_digest, make_file_digest,
}
use cpp_essence.Crypto.Digest.Base64.{missing, Ending, IsBase64, base64_decode-base64_encode}
use cpp_essence.Crypto.Digest.Files.{
  IsStreaming, make_file_digest-make_digest, make_file_digest-unreadable,
}

-- Three bytes are four characters, none of them a `=`.
abbrev encode : Bytes → Bytes
encode [] = []
encode (a ∷ []) = (a + 62) ∷ 62 ∷ 61 ∷ 61 ∷ []
encode (a ∷ b ∷ []) = (a + 62) ∷ (b + 62) ∷ 62 ∷ 61 ∷ []
encode (a ∷ b ∷ c ∷ rest) = (a + 62) ∷ (b + 62) ∷ (c + 62) ∷ 62 ∷ encode rest

abbrev decode : Bytes → Option Bytes
decode [] = some []
decode (w ∷ x ∷ y ∷ z ∷ text) = elim (decode text) [
  | none ↦ none
  | some bytes ↦ some ((w - 62) ∷ (x - 62) ∷ (y - 62) ∷ bytes)
]
decode text = none

encode-size : (buffer : Bytes) → length (encode buffer) ≡ (length buffer + 2) / 3 * 4
encode-size [] = refl
encode-size (a ∷ []) = refl
encode-size (a ∷ b ∷ []) = refl
encode-size (a ∷ b ∷ c ∷ rest) = omega (arith, encode-size rest)

missing-more : (a b c : ℕ) (rest : Bytes) → missing (a ∷ b ∷ c ∷ rest) ≡ missing rest
missing-more a b c rest = omega arith

encode-padded : (c : ℕ) (rest : Bytes) → Ending (encode (c ∷ rest)) (missing (c ∷ rest))
encode-padded a [] = record { front = (a + 62) ∷ []; last = 62; splits = refl; other = refl }
encode-padded a (b ∷ []) = record {
  front = (a + 62) ∷ (b + 62) ∷ [];
  last = 62;
  splits = refl;
  other = refl;
}
encode-padded a (b ∷ c ∷ []) = record {
  front = (a + 62) ∷ (b + 62) ∷ (c + 62) ∷ [];
  last = 62;
  splits = refl;
  other = refl;
}
encode-padded a (b ∷ c ∷ d ∷ rest) =
    let e = encode-padded d rest in
    subst (λ n. Ending (encode (a ∷ b ∷ c ∷ d ∷ rest)) n) (sym (missing-more a b c (d ∷ rest)))
      (record {
        front = (a + 62) ∷ (b + 62) ∷ (c + 62) ∷ 62 ∷ e.front;
        last = e.last;
        splits = ap (λ t. (a + 62) ∷ (b + 62) ∷ (c + 62) ∷ 62 ∷ t) e.splits;
        other = e.other;
      })

restored : (a : ℕ) → a + 62 - 62 ≡ a
restored a = omega arith

encode-zeros :
    (buffer : Bytes) → decode (encode buffer) ≡ some (buffer ++ replicate (missing buffer) 0)
encode-zeros [] = refl
encode-zeros (a ∷ []) = ap (λ n. some (n ∷ 0 ∷ 0 ∷ [])) (restored a)
encode-zeros (a ∷ b ∷ []) = ap₂ (λ m n. some (m ∷ n ∷ 0 ∷ [])) (restored a) (restored b)
encode-zeros (a ∷ b ∷ c ∷ rest) =
    ground (arith, encode-zeros rest, missing-more a b c rest, restored a, restored b, restored c)

-- The stand-ins do not read the sizes.
abbrev encode_block : ℕ → Bytes → Bytes
encode_block size buffer = encode buffer

abbrev decode_block : ℕ → Bytes → Option Bytes
decode_block size text = decode text

small-IsBase64 : IsBase64 encode_block decode_block
small-IsBase64 = record {
  size = λ buffer small. encode-size buffer;
  padded = λ c rest small. encode-padded c rest;
  zeros = λ buffer small. encode-zeros buffer;
}

base64_decode-base64_encode_example :
    then_do (base64_encode encode_block (1 ∷ 0 ∷ 255 ∷ 7 ∷ [])) (base64_decode decode_block)
    ≡ ok (1 ∷ 0 ∷ 255 ∷ 7 ∷ [])
base64_decode-base64_encode_example =
    base64_decode-base64_encode encode_block decode_block small-IsBase64 (1 ∷ 0 ∷ 255 ∷ 7 ∷ [])
      (omega arith)

-- A digest that keeps everything.
abbrev collecting : Routines
collecting = record {
  Context = Bytes;
  init = λ mode. some [];
  update = λ context bytes. some (context ++ bytes);
  final = λ context. some context;
  hmac = λ mode key bytes. some bytes;
  buf2hexstr = λ bytes. some (bytes ++ 0 ∷ []);
  encode_block = encode_block;
}

collecting-IsStreaming : IsStreaming collecting
collecting-IsStreaming context a b = ap some (sym (append_assoc context a b))

abbrev disk : Bytes → Option File
disk [] = some unreadable
disk path = some (contents (replicate 5000 1))

make_file_digest-make_digest_example :
    make_file_digest collecting disk 5001 sha256 (1 ∷ [])
    ≡ some (make_digest collecting sha256 (some (replicate 5000 1)))
make_file_digest-make_digest_example =
    make_file_digest-make_digest collecting disk 5001 sha256 (1 ∷ []) (replicate 5000 1)
      collecting-IsStreaming refl (omega arith)

make_file_digest-unreadable_example : make_file_digest collecting disk 1000 sha256 [] ≡ none
make_file_digest-unreadable_example =
    make_file_digest-unreadable collecting disk 1000 sha256 [] [] refl refl
      (λ c. ap some (append-nil c))
