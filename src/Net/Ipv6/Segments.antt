-- ===== src/Net/Ipv6/Segments.antt =====
-- The printer of src/net/ipv6_address.cpp on groups that it writes out.
use cpp_essence.Prelude.{
  ℕ, ◌^◌, ◌<◌, ◌≡◌, ◌≢◌, refl, sym, ap, ◌∙◌, ◌⊎◌, inl, inr, true, false, List, [], ◌∷◌, ◌++◌, some,
  arith, Bytes, All, append_assoc, append-nil,
}
use cpp_essence.Numeric.{digit_of, to_string}
use cpp_essence.Numeric.RoundTrip.{IsDigits, to_string-IsDigits, to_string-ne-nil}
use cpp_essence.Net.Ipv6.{
  Printer, print_group, print_groups, ends_with, pop_back, close_zeros, drop_trailing_colon,
}

-- The groups with a colon behind each.
abbrev pub segments : List ℕ → Bytes
segments [] = []
segments (g ∷ gs) = to_string 16 g ++ (b':' ∷ segments gs)

-- The groups with a colon between each two.
abbrev pub joined : List ℕ → Bytes
joined [] = []
joined (g ∷ []) = to_string 16 g
joined (g ∷ h ∷ gs) = to_string 16 g ++ (b':' ∷ joined (h ∷ gs))

abbrev pub IsGroups : List ℕ → Type 0
IsGroups = All (λ g. g < 2 ^ 16)

-- Groups other than zero.
abbrev pub IsNonzero : List ℕ → Type 0
IsNonzero = All (λ g. 0 < g)

pub segments-append : (gs hs : List ℕ) → segments (gs ++ hs) ≡ segments gs ++ segments hs
segments-append [] hs = refl
segments-append (g ∷ gs) hs = simp (segments-append gs hs, append_assoc)

pub segments-joined : (g : ℕ) (gs : List ℕ) → segments (g ∷ gs) ≡ joined (g ∷ gs) ++ b':' ∷ []
segments-joined g [] = refl
segments-joined g (h ∷ gs) = rw (segments-joined h gs) (simp append_assoc)

-- The state after some groups that are all written out.
abbrev pub written : Printer → List ℕ → Printer
written p [] = p
written p (g ∷ gs) =
    written
      (record {
        result = p.result ++ (to_string 16 g ++ b':' ∷ []);
        zero_abbreviated = p.zero_abbreviated;
        last_item = g;
        consecutive_zero_count = 0;
      })
      gs

pub print_groups-append :
    (gs hs : List ℕ) (p : Printer) → print_groups p (gs ++ hs) ≡ print_groups (print_groups p gs) hs
unfolding print_groups
print_groups-append [] hs p = refl
print_groups-append (g ∷ gs) hs p = print_groups-append gs hs (print_group p g)

pub print_group-written :
    (p : Printer) (g : ℕ)
    → p.consecutive_zero_count ≡ 0
    → (p.zero_abbreviated ≡ true) ⊎ (0 < g)
    → print_group p g ≡ written p (g ∷ [])
unfolding print_group
print_group-written p g z h = ground arith

pub print_groups-written :
    (gs : List ℕ) (p : Printer)
    → p.consecutive_zero_count ≡ 0
    → (p.zero_abbreviated ≡ true) ⊎ IsNonzero gs
    → print_groups p gs ≡ written p gs
unfolding print_groups
print_groups-written [] p z h = refl
print_groups-written (g ∷ gs) p z h =
    rw (print_group-written p g z (first h)) (print_groups-written gs _ refl (later h))
  where
    first : (p.zero_abbreviated ≡ true) ⊎ IsNonzero (g ∷ gs) → (p.zero_abbreviated ≡ true) ⊎ (0 < g)
    first (inl x) = inl x
    first (inr (x, y)) = inr x

    later :
        (p.zero_abbreviated ≡ true) ⊎ IsNonzero (g ∷ gs)
        → (p.zero_abbreviated ≡ true) ⊎ IsNonzero gs
    later (inl x) = inl x
    later (inr (x, y)) = inr y

pub written-result : (gs : List ℕ) (p : Printer) → (written p gs).result ≡ p.result ++ segments gs
written-result [] p = sym (append-nil p.result)
written-result (g ∷ gs) p = written-result gs _ ∙ simp append_assoc

abbrev pub colon : Bytes
colon = b':' ∷ []

pub ends_with-colon : (s : Bytes) → ends_with (s ++ colon) colon ≡ true
unfolding ends_with
ends_with-colon [] = refl
ends_with-colon (d ∷ s) = ground (arith, ends_with-colon s)

pub ends_with-one_colon :
    (s : Bytes) (c : ℕ) → c ≢ b':' → ends_with (s ++ c ∷ colon) (b':' ∷ colon) ≡ false
unfolding ends_with
ends_with-one_colon [] c h = ground arith
ends_with-one_colon (d ∷ []) c h = ground (arith, ends_with-one_colon [] c h)
ends_with-one_colon (d ∷ e ∷ []) c h = ground (arith, ends_with-one_colon (e ∷ []) c h)
ends_with-one_colon (d ∷ e ∷ f ∷ s) c h = ground (arith, ends_with-one_colon (e ∷ f ∷ s) c h)

pub ends_with-two_colons : (s : Bytes) → ends_with (s ++ b':' ∷ colon) (b':' ∷ colon) ≡ true
unfolding ends_with
ends_with-two_colons [] = refl
ends_with-two_colons (d ∷ s) = ground (arith, ends_with-two_colons s)

pub pop_back-append : (s : Bytes) (c : ℕ) → pop_back (s ++ c ∷ []) ≡ s
unfolding pop_back
pop_back-append [] c = refl
pop_back-append (d ∷ []) c = refl
pop_back-append (d ∷ e ∷ s) c = ap (◌∷◌ d) (pop_back-append (e ∷ s) c)

-- One colon at the end goes.
pub drop_trailing_colon-one :
    (s : Bytes) (c : ℕ) → c ≢ b':' → drop_trailing_colon (s ++ c ∷ colon) ≡ s ++ c ∷ []
unfolding drop_trailing_colon
drop_trailing_colon-one s c h =
    let last = rw append_assoc at (ends_with-colon (s ++ c ∷ [])) in
    let shorter = rw append_assoc at (pop_back-append (s ++ c ∷ []) b':') in
    rw (last, ends_with-one_colon s c h) shorter

-- Two stay.
pub drop_trailing_colon-two :
    (s : Bytes) → drop_trailing_colon (s ++ b':' ∷ colon) ≡ s ++ b':' ∷ colon
unfolding drop_trailing_colon
drop_trailing_colon-two s =
    let last = rw append_assoc at (ends_with-colon (s ++ colon)) in
    rw (last, ends_with-two_colons s) refl

pub digit-ne-colon : (c d : ℕ) → digit_of 16 c ≡ some d → c ≢ b':'
unfolding digit_of
digit-ne-colon c d e = ground arith

pub digits-last :
    (s : Bytes) → s ≢ [] → IsDigits 16 s → (r : Bytes) × (c : ℕ) × (s ≡ r ++ c ∷ []) × (c ≢ b':')
digits-last [] ne h = absurd (ne refl)
digits-last (c ∷ []) ne ((d, e), h) = ([], c, refl, digit-ne-colon c d e)
digits-last (b ∷ c ∷ s) ne (x, h) =
    let (r, d, e, o) = digits-last (c ∷ s) (λ e. cc) h in (b ∷ r, d, ap (◌∷◌ b) e, o)

pub group_text :
    (g : ℕ) → g < 2 ^ 16 → (r : Bytes) × (c : ℕ) × (to_string 16 g ≡ r ++ c ∷ []) × (c ≢ b':')
group_text g h =
    digits-last (to_string 16 g) (to_string-ne-nil 16 (omega arith) (omega arith) g (omega arith))
      (to_string-IsDigits 16 (omega arith) (omega arith) g (omega arith))

pub joined-last :
    (g : ℕ) (gs : List ℕ)
    → IsGroups (g ∷ gs)
    → (r : Bytes) × (c : ℕ) × (joined (g ∷ gs) ≡ r ++ c ∷ []) × (c ≢ b':')
joined-last g [] (h, k) = group_text g h
joined-last g (f ∷ gs) (h, k) =
    let (r, c, e, o) = joined-last f gs k in
    (to_string 16 g ++ b':' ∷ r, c, rw e (simp append_assoc), o)

-- What is written for groups without an abbreviation, behind any text.
pub drop-segments :
    (s : Bytes) (g : ℕ) (gs : List ℕ)
    → IsGroups (g ∷ gs)
    → drop_trailing_colon (s ++ segments (g ∷ gs)) ≡ s ++ joined (g ∷ gs)
drop-segments s g gs h =
    let (r, c, e, o) = joined-last g gs h in
    rw (segments-joined g gs, e)
      (ap drop_trailing_colon (simp append_assoc)
        ∙ drop_trailing_colon-one (s ++ r) c o
        ∙ append_assoc s r (c ∷ []))

pub close_zeros-none : (p : Printer) → p.consecutive_zero_count ≡ 0 → close_zeros p ≡ p.result
unfolding close_zeros
close_zeros-none p z = ground arith

pub written-count :
    (gs : List ℕ) (p : Printer)
    → p.consecutive_zero_count ≡ 0
    → (written p gs).consecutive_zero_count ≡ 0
written-count [] p z = z
written-count (g ∷ gs) p z = written-count gs _ refl
