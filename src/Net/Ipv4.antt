-- ===== src/Net/Ipv4.antt =====
-- include/essence/net/ipv4_address.hpp and src/net/ipv4_address.cpp. An octet is a number below 256.
pub mod Words
pub mod Parse
use cpp_essence.Prelude.{
  ℕ, zero, suc, ◌+◌, ◌*◌, ◌/◌, ◌%◌, ◌^◌, ◌<◌, List, [], ◌∷◌, ◌++◌, Option, none, some, ◌==◌,
  if◌then◌else◌, Bytes,
}
use cpp_essence.Numeric.{from_string, to_string}

pub record Ipv4Address : Type 0 where
  pub v0 : ℕ
  pub v1 : ℕ
  pub v2 : ℕ
  pub v3 : ℕ

-- Each octet is a `std::uint8_t`.
pub record IsOctets (a : Ipv4Address) : Type 0 where
  pub h0 : a.v0 < 256
  pub h1 : a.v1 < 256
  pub h2 : a.v2 < 256
  pub h3 : a.v3 < 256

-- The constructor from a `std::uint32_t`: shifts, then a cast to eight bits.
unfoldable pub of_uint32 : ℕ → Ipv4Address
of_uint32 address = record {
  v0 = address / 2 ^ 24 % 256;
  v1 = address / 2 ^ 16 % 256;
  v2 = address / 2 ^ 8 % 256;
  v3 = address % 256;
}

-- `operator std::uint32_t`. The first shift may leave the range of `int`; it wraps, and the cast of
-- the sum brings back the same residue.
unfoldable pub to_uint32 : Ipv4Address → ℕ
to_uint32 a = (a.v0 * 2 ^ 24 + a.v1 * 2 ^ 16 + a.v2 * 2 ^ 8 + a.v3) % 2 ^ 32

-- `std::views::split` at one character; an empty text has no parts.
abbrev extend_first : ℕ → List Bytes → List Bytes
extend_first c [] = (c ∷ []) ∷ []
extend_first c (p ∷ ps) = (c ∷ p) ∷ ps

unfoldable pub split_parts : ℕ → Bytes → List Bytes
split_parts delimiter [] = [] ∷ []
split_parts delimiter (c ∷ s) =
    let rest = split_parts delimiter s in if c == delimiter then [] ∷ rest else extend_first c rest

unfoldable pub split : ℕ → Bytes → List Bytes
unfolding split_parts
split delimiter [] = []
split delimiter (c ∷ s) = split_parts delimiter (c ∷ s)

-- The loop over the parts: at most `room` of them are read, and the first that is no octet ends it.
unfoldable pub read_octets : ℕ → List Bytes → List ℕ
read_octets zero parts = []
read_octets (suc room) [] = []
read_octets (suc room) (p ∷ ps) = elim (from_string 255 10 p) [
  | none ↦ []
  | some v ↦ v ∷ read_octets room ps
]

-- `iter != end` unless four octets were written.
abbrev fill : List ℕ → Option Ipv4Address
fill (a ∷ b ∷ c ∷ d ∷ []) = some (record { v0 = a; v1 = b; v2 = c; v3 = d })
fill _ = none

unfoldable pub parse_ipv4_address : Bytes → Option Ipv4Address
unfolding split read_octets
parse_ipv4_address str = fill (read_octets 4 (split b'.' str))

unfoldable pub ipv4_to_string : Ipv4Address → Bytes
ipv4_to_string a =
    to_string 10 a.v0
    ++ b'.' ∷ (to_string 10 a.v1 ++ b'.' ∷ (to_string 10 a.v2 ++ b'.' ∷ to_string 10 a.v3))
