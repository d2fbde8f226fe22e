-- ===== src/Net/Ipv6.antt =====
-- include/essence/net/ipv6_address.hpp and src/net/ipv6_address.cpp. Bytes are numbers below 256.
pub mod Zone
pub mod Segments
pub mod Printing
use mathlib.Core.List.{foldl}
use cpp_essence.Prelude.{
  ℕ, zero, suc, ◌+◌, ◌*◌, ◌%◌, ◌^◌, min, Bool, true, false, not, ◌&&◌, ◌||◌, List, [], ◌∷◌, ◌++◌,
  Option, none, some, leb, ◌==◌, if◌then◌else◌, length, take, drop, replicate, Bytes, equal,
}
use cpp_essence.Numeric.{to_string}

pub record Ipv6Address : Type 0 where
  pub value : Bytes
  pub zone_id_array : Bytes

abbrev pub value_size : ℕ
value_size = 16

abbrev pub max_zone_id_size : ℕ
max_zone_id_size = 16

-- `std::string_view::copy` into the array: no terminator is written, and nothing is cleared.
unfoldable pub set_zone_id : Bytes → Ipv6Address → Ipv6Address
set_zone_id zone_id a = record a {
  zone_id_array =
      take (min max_zone_id_size (length zone_id)) zone_id
      ++ drop (min max_zone_id_size (length zone_id)) a.zone_id_array;
}

-- The constructor from sixteen bytes and a zone.
unfoldable pub make_ipv6_address : Bytes → Bytes → Ipv6Address
unfolding set_zone_id
make_ipv6_address address zone_id =
    set_zone_id zone_id (record { value = address; zone_id_array = replicate max_zone_id_size 0 })

-- The text up to the terminator; `none` where the array holds none, so that the read leaves it.
unfoldable pub c_string : Bytes → Option Bytes
c_string [] = none
c_string (c ∷ s) = elim (c == 0) [
  | true ↦ some []
  | false ↦ elim (c_string s) [ none ↦ none | some t ↦ some (c ∷ t) ]
]

-- The sixteen-bit groups, the high byte first.
unfoldable pub groups : Bytes → List ℕ
groups (hi ∷ lo ∷ rest) = ((hi * 256 + lo) % 2 ^ 16) ∷ groups rest
groups _ = []

-- The variables of the loop of `to_string`.
pub record Printer : Type 0 where
  pub result : Bytes
  pub zero_abbreviated : Bool
  pub last_item : ℕ
  pub consecutive_zero_count : ℕ

unfoldable pub print_group : Printer → ℕ → Printer
print_group p item =
    if not p.zero_abbreviated && item == 0
    then record p { last_item = item; consecutive_zero_count = p.consecutive_zero_count + 1 }
    else record p {
      result =
          (if leb 2 p.consecutive_zero_count then p.result ++ (b':' ∷ []) else p.result)
          ++ (to_string 16 item ++ (b':' ∷ []));
      zero_abbreviated = p.zero_abbreviated || leb 2 p.consecutive_zero_count;
      last_item = item;
      consecutive_zero_count = 0;
    }

abbrev pub start_printer : Printer
start_printer = record {
  result = [];
  zero_abbreviated = false;
  last_item = 0;
  consecutive_zero_count = 0;
}

unfoldable pub print_groups : Printer → List ℕ → Printer
unfolding print_group
print_groups p [] = p
print_groups p (item ∷ rest) = print_groups (print_group p item) rest

unfoldable pub ends_with : Bytes → Bytes → Bool
unfolding equal
ends_with [] suffix = equal [] suffix
ends_with (c ∷ s) suffix = equal (c ∷ s) suffix || ends_with s suffix

-- `std::string::pop_back`.
unfoldable pub pop_back : Bytes → Bytes
pop_back [] = []
pop_back (c ∷ []) = []
pop_back (c ∷ d ∷ s) = c ∷ pop_back (d ∷ s)

-- "Handles the trailing zero."
unfoldable pub close_zeros : Printer → Bytes
close_zeros p =
    if leb 2 p.consecutive_zero_count
    then p.result ++ (b':' ∷ [])
    else if not (p.consecutive_zero_count == 0)
    then p.result ++ to_string 16 p.last_item
    else p.result

-- "Removes the trailing ':'."
unfoldable pub drop_trailing_colon : Bytes → Bytes
unfolding ends_with pop_back
drop_trailing_colon s =
    if ends_with s (b':' ∷ []) && not (ends_with s (b':' ∷ b':' ∷ [])) then pop_back s else s

-- "Appends the zone ID."
abbrev append_zone : Bytes → Bytes → Bytes
append_zone s [] = s
append_zone s (c ∷ zone) = s ++ (b'%' ∷ c ∷ zone)

unfoldable pub groups_to_string : List ℕ → Bytes
unfolding close_zeros drop_trailing_colon print_groups
groups_to_string gs = drop_trailing_colon (close_zeros (print_groups start_printer gs))

-- `to_string`; `none` where the zone is read beyond its array.
unfoldable pub ipv6_to_string : Ipv6Address → Option Bytes
unfolding c_string groups groups_to_string
ipv6_to_string a = elim (c_string a.zone_id_array) [
  | none ↦ none
  | some zone ↦ some (append_zone (groups_to_string (groups a.value)) zone)
]
