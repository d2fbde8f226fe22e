-- ===== src/Tests/Net.antt =====
-- Addresses and the event stream.
use cpp_essence.Prelude.{
  ℕ, ◌≡◌, refl, List, [], ◌∷◌, ◌++◌, some, arith, Bytes, codes, map, replicate, ◌==◌, if◌then◌else◌,
}
use cpp_essence.Numeric.{from_string}
use cpp_essence.Net.Ipv4.{Ipv4Address, IsOctets, parse_ipv4_address, ipv4_to_string}
use cpp_essence.Net.Ipv4.Parse.{parse-ipv4_to_string, parse_ipv4_address_sound, Reads}
use cpp_essence.Net.Sse.{SseEvent, sends, ticks, serve, parse_lines, empty_message}
use cpp_essence.Net.Sse.RoundTrip.{IsLine, LineReader, received, parse-serve}

abbrev router : Ipv4Address
router = record { v0 = 192; v1 = 168; v2 = 0; v3 = 1 }

router-IsOctets : IsOctets router
router-IsOctets = record { h0 = omega arith; h1 = omega arith; h2 = omega arith; h3 = omega arith }

parse-ipv4_to_string_example :
    parse_ipv4_address (ipv4_to_string router ++ codes "/24.x") ≡ some router
parse-ipv4_to_string_example =
    parse-ipv4_to_string router router-IsOctets (codes "/24.x")
      (unfold cpp_essence.Numeric.digit_of in refl)

read_router : parse_ipv4_address (codes "192.168.0.1") ≡ some router
unfolding parse_ipv4_address from_string
read_router = refl

parse_ipv4_address_sound_example : IsOctets router × Reads (codes "192.168.0.1") router
parse_ipv4_address_sound_example = parse_ipv4_address_sound (codes "192.168.0.1") router read_router

abbrev link_local : Bytes
link_local = 254 ∷ 128 ∷ replicate 14 1

abbrev long_zone : Bytes
long_zone = codes "abcdefghijklmnop"

-- A reader of lines: what stands behind the last line feed is a line if it is not empty.
abbrev longer : ℕ → List Bytes → List Bytes
longer c [] = (c ∷ []) ∷ []
longer c (line ∷ rest) = (c ∷ line) ∷ rest

unfoldable lines_of_text : Bytes → List Bytes
lines_of_text [] = []
lines_of_text (c ∷ s) =
    let rest = lines_of_text s in if c == b'\n' then [] ∷ rest else longer c rest

lines_of_text-append :
    (line rest : Bytes)
    → IsLine line
    → lines_of_text (line ++ b'\n' ∷ rest) ≡ line ∷ lines_of_text rest
unfolding lines_of_text
lines_of_text-append [] rest h = refl
lines_of_text-append (c ∷ line) rest (h, k) = ground (arith, lines_of_text-append line rest k)

abbrev reader : LineReader
reader = record {
  read_lines = lines_of_text;
  read_nothing = unfold lines_of_text in refl;
  read_line = lines_of_text-append;
}

abbrev exchange : List SseEvent
exchange =
    sends (record { data_lines = codes "hi" ∷ []; last_event_id = codes "7" })
    ∷ ticks
    ∷ sends (record { data_lines = []; last_event_id = [] })
    ∷ []

parse-serve_example :
    parse_lines empty_message (lines_of_text (serve [] exchange)) ≡ map received exchange
parse-serve_example = parse-serve reader exchange (
  record {
    data_is = ((refl, (refl, tt)), tt);
    data_plain = (refl, tt);
    id_is = (refl, tt);
    id_plain = refl;
  },
  (record { data_is = tt; data_plain = tt; id_is = tt; id_plain = tt }, tt),
)
