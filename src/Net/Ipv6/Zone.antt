-- ===== src/Net/Ipv6/Zone.antt =====
-- The zone of an address (include/essence/net/ipv6_address.hpp).
use cpp_essence.Prelude.{
  ℕ, zero, suc, ◌≤◌, ◌<◌, ◌≡◌, refl, ap, sym, ◌-◌, ◌∙◌, min, false, [], ◌∷◌, ◌++◌, none, some,
  arith, ◌==◌, length, take, drop, replicate, All, All-append, Bytes, append-nil, append_assoc,
}
use cpp_essence.Net.Ipv6.{
  Ipv6Address, set_zone_id, make_ipv6_address, c_string, ipv6_to_string, max_zone_id_size,
}

abbrev pub HasNoTerminator : Bytes → Type 0
HasNoTerminator = All (λ c. (c == 0) ≡ false)

c_string-append : (s rest : Bytes) → HasNoTerminator s → c_string (s ++ 0 ∷ rest) ≡ some s
unfolding c_string
c_string-append [] rest h = refl
c_string-append (c ∷ s) rest (h, k) = ground (arith, c_string-append s rest k)

c_string-none : (s : Bytes) → HasNoTerminator s → c_string s ≡ none
unfolding c_string
c_string-none [] h = refl
c_string-none (c ∷ s) (h, k) = ground (arith, c_string-none s k)

take_all : (n : ℕ) (s : Bytes) → length s ≤ n → take n s ≡ s
take_all zero [] h = refl
take_all zero (c ∷ s) h = absurd (omega arith)
take_all (suc n) [] h = refl
take_all (suc n) (c ∷ s) h = ap (◌∷◌ c) (take_all n s (omega arith))

drop-replicate : (k n : ℕ) → k < n → drop {A = ℕ} k (replicate n 0) ≡ 0 ∷ replicate (n - suc k) 0
drop-replicate k zero h = elim h [ ]
drop-replicate zero (suc n) h = ap {B = Bytes} (λ m. 0 ∷ replicate m 0) (omega arith)
drop-replicate (suc k) (suc n) h =
    drop-replicate k n (omega arith) ∙ ap {B = Bytes} (λ m. 0 ∷ replicate m 0) (omega arith)

zone_array :
    (address zone : Bytes)
    → length zone < max_zone_id_size
    → (make_ipv6_address address zone).zone_id_array
      ≡ zone ++ 0 ∷ replicate (max_zone_id_size - suc (length zone)) 0
unfolding make_ipv6_address
zone_array address zone lt =
    let e : min 16 (length zone) ≡ length zone = omega arith in
    rw (e, take_all (length zone) zone (omega arith), drop-replicate (length zone) 16 lt) refl

-- A zone of at most fifteen characters, none of them a terminator, is read back from a new
-- address.
pub zone_id_read :
    (address zone : Bytes)
    → HasNoTerminator zone
    → length zone < max_zone_id_size
    → c_string (make_ipv6_address address zone).zone_id_array ≡ some zone
zone_id_read address zone h lt = rw (zone_array address zone lt) (c_string-append zone _ h)

HasNoTerminator-take : (n : ℕ) (s : Bytes) → HasNoTerminator s → HasNoTerminator (take n s)
HasNoTerminator-take zero s h = tt
HasNoTerminator-take (suc n) [] h = tt
HasNoTerminator-take (suc n) (c ∷ s) (h, k) = (h, HasNoTerminator-take n s k)

HasNoTerminator-drop : (n : ℕ) (s : Bytes) → HasNoTerminator s → HasNoTerminator (drop n s)
HasNoTerminator-drop zero s h = h
HasNoTerminator-drop (suc n) [] h = tt
HasNoTerminator-drop (suc n) (c ∷ s) (h, k) = HasNoTerminator-drop n s k

drop_all : (n : ℕ) (s : Bytes) → length s ≤ n → drop n s ≡ []
drop_all zero [] h = refl
drop_all zero (c ∷ s) h = absurd (omega arith)
drop_all (suc n) [] h = refl
drop_all (suc n) (c ∷ s) h = drop_all n s (omega arith)

zone_array_full :
    (address zone : Bytes)
    → max_zone_id_size ≤ length zone
    → (make_ipv6_address address zone).zone_id_array ≡ take 16 zone
unfolding make_ipv6_address
zone_array_full address zone le =
    let e : min 16 (length zone) ≡ 16 = omega arith in rw e (append-nil (take 16 zone))

to_string-none : (a : Ipv6Address) → c_string a.zone_id_array ≡ none → ipv6_to_string a ≡ none
unfolding ipv6_to_string
to_string-none a e = ground arith

-- With a zone of sixteen characters or more, none of them a terminator, a new address has no
-- terminated zone, and printing it reads past the array.
pub zone_id_unterminated :
    (address zone : Bytes)
    → HasNoTerminator zone
    → max_zone_id_size ≤ length zone
    → (c_string (make_ipv6_address address zone).zone_id_array ≡ none)
      × (ipv6_to_string (make_ipv6_address address zone) ≡ none)
zone_id_unterminated address zone h le =
    (filled_array, to_string-none (make_ipv6_address address zone) filled_array)
  where
    filled_array : c_string (make_ipv6_address address zone).zone_id_array ≡ none
    filled_array =
        rw (zone_array_full address zone le)
          (c_string-none (take 16 zone) (HasNoTerminator-take 16 zone h))

drop-append_le : (n : ℕ) (xs ys : Bytes) → n ≤ length xs → drop n (xs ++ ys) ≡ drop n xs ++ ys
drop-append_le zero xs ys h = refl
drop-append_le (suc n) [] ys h = absurd (omega arith)
drop-append_le (suc n) (x ∷ xs) ys h = drop-append_le n xs ys (omega arith)

HasNoTerminator-append :
    (s t : Bytes) → HasNoTerminator s → HasNoTerminator t → HasNoTerminator (s ++ t)
HasNoTerminator-append = All-append _

-- Setting a zone that is no longer than the one before, of at most fifteen characters, both
-- without terminators, leaves the end of the old one behind it.
pub set_zone_id_keeps_rest :
    (address old zone : Bytes)
    → HasNoTerminator old
    → HasNoTerminator zone
    → length zone ≤ length old
    → length old < max_zone_id_size
    → c_string (set_zone_id zone (make_ipv6_address address old)).zone_id_array
      ≡ some (zone ++ drop (length zone) old)
set_zone_id_keeps_rest address old zone ho hz le lt =
    let e : min 16 (length zone) ≡ length zone = omega arith in
    unfold set_zone_id in
    rw
      (
        e,
        zone_array address old lt,
        take_all (length zone) zone (omega arith),
        drop-append_le (length zone) old (0 ∷ replicate (16 - suc (length old)) 0) le,
      )
      (ap c_string (sym (append_assoc zone _ _))
        ∙ c_string-append (zone ++ drop (length zone) old) _ (
            HasNoTerminator-append zone (drop (length zone) old) hz
              (HasNoTerminator-drop (length zone) old ho)))
