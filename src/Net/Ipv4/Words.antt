-- ===== src/Net/Ipv4/Words.antt =====
-- The 32-bit number of an address and back (include/essence/net/ipv4_address.hpp).
use cpp_essence.Prelude.{◌^◌, ◌<◌, ◌≡◌, ℕ, arith}
use cpp_essence.Net.Ipv4.{Ipv4Address, IsOctets, of_uint32, to_uint32}

-- For octets and for numbers below 2 ^ 32, the conversion to a number and the constructor from one
-- undo each other, both ways.
pub uint32_round_trip :
    (a : Ipv4Address) (n : ℕ)
    → IsOctets a
    → n < 2 ^ 32
    → (of_uint32 (to_uint32 a) ≡ a) × (to_uint32 (of_uint32 n) ≡ n)
unfolding of_uint32 to_uint32
uint32_round_trip a n h k = ground arith

-- The constructor always gives octets.
pub of_uint32-IsOctets : (n : ℕ) → IsOctets (of_uint32 n)
unfolding of_uint32
of_uint32-IsOctets n = omega arith
