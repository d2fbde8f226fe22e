-- ===== src/Net/Ipv6/Printing.antt =====
-- The printed groups of an address (src/net/ipv6_address.cpp).
use cpp_essence.Prelude.{
  ℕ, zero, suc, ◌+◌, ◌<◌, ◌≡◌, refl, sym, ap, ◌∙◌, inl, inr, true, false, List, [], ◌∷◌, ◌++◌,
  arith, append_assoc, replicate,
}
use cpp_essence.Numeric.{to_string}
use cpp_essence.Net.Ipv6.{
  Printer, print_group, print_groups, start_printer, close_zeros, drop_trailing_colon,
  groups_to_string,
}
use cpp_essence.Net.Ipv6.Segments.{
  segments, joined, IsGroups, IsNonzero, segments-joined, written, print_groups-append,
  print_groups-written, written-result, colon, drop_trailing_colon-two, drop-segments,
  close_zeros-none, written-count,
}

-- Groups other than zero are printed in hexadecimal with a colon between each two.
pub print_nonzero :
    (g : ℕ) (gs : List ℕ)
    → IsGroups (g ∷ gs)
    → IsNonzero (g ∷ gs)
    → groups_to_string (g ∷ gs) ≡ joined (g ∷ gs)
unfolding groups_to_string
print_nonzero g gs h k =
    rw
      (
        print_groups-written (g ∷ gs) start_printer refl (inr k),
        close_zeros-none (written start_printer (g ∷ gs))
            (written-count (g ∷ gs) start_printer refl),
        written-result (g ∷ gs) start_printer,
      )
      (drop-segments [] g gs h)

written-abbreviated :
    (gs : List ℕ) (p : Printer) → (written p gs).zero_abbreviated ≡ p.zero_abbreviated
written-abbreviated [] p = refl
written-abbreviated (g ∷ gs) p = written-abbreviated gs _

print_group-lone :
    (p : Printer) (x : ℕ)
    → p.consecutive_zero_count ≡ 0
    → p.zero_abbreviated ≡ false
    → 0 < x
    → print_group (print_group p 0) x ≡ print_group p x
unfolding print_group
print_group-lone p x z a h = ground arith

-- A single zero group behind groups other than zero, if any, and before another such group is left
-- out: the text is that of the groups without it.
pub lone_zero_lost :
    (gs : List ℕ) (x : ℕ) (hs : List ℕ)
    → IsNonzero gs
    → 0 < x
    → groups_to_string (gs ++ 0 ∷ x ∷ hs) ≡ groups_to_string (gs ++ x ∷ hs)
unfolding groups_to_string print_groups
lone_zero_lost gs x hs k h =
    ap (λ p. drop_trailing_colon (close_zeros p))
      (print_groups-append gs (0 ∷ x ∷ hs) start_printer
        ∙ rw (print_groups-written gs start_printer refl (inr k)) (
            ap (λ p. print_groups p hs)
              (print_group-lone (written start_printer gs) x (written-count gs start_printer refl)
                (written-abbreviated gs start_printer) h))
        ∙ sym (print_groups-append gs (x ∷ hs) start_printer))

-- The state after a run of zeros.
abbrev skipped : ℕ → Printer → Printer
skipped n p = record p { last_item = 0; consecutive_zero_count = p.consecutive_zero_count + n }

print_group-zero : (p : Printer) → p.zero_abbreviated ≡ false → print_group p 0 ≡ skipped 1 p
unfolding print_group
print_group-zero p a = ground arith

print_groups-zeros :
    (n : ℕ) (p : Printer)
    → p.zero_abbreviated ≡ false
    → print_groups p (replicate (suc n) 0) ≡ skipped (suc n) p
unfolding print_groups
print_groups-zeros zero p a = print_group-zero p a
print_groups-zeros (suc n) p a =
    ap (λ q. print_groups q (replicate (suc n) 0)) (print_group-zero p a)
    ∙ print_groups-zeros n (skipped 1 p) a
    ∙ ground arith

-- The first group behind a run.
abbrev resumed : Printer → ℕ → Printer
resumed p x = record {
  result = p.result ++ colon ++ (to_string 16 x ++ colon);
  zero_abbreviated = true;
  last_item = x;
  consecutive_zero_count = 0;
}

print_group-resumed :
    (p : Printer) (n x : ℕ)
    → p.consecutive_zero_count ≡ 0
    → 0 < x
    → print_group (skipped (suc (suc n)) p) x ≡ resumed p x
unfolding print_group
print_group-resumed p n x z h = ground arith

module _ (gs : List ℕ) (k : IsNonzero gs) (n : ℕ) where
  print_groups-run :
      print_groups start_printer (gs ++ replicate (suc (suc n)) 0)
      ≡ skipped (suc (suc n)) (written start_printer gs)
  print_groups-run =
      print_groups-append gs (replicate (suc (suc n)) 0) start_printer
      ∙ rw (print_groups-written gs start_printer refl (inr k)) (
          print_groups-zeros (suc n) (written start_printer gs)
            (written-abbreviated gs start_printer))

  print_groups-resumed :
      (x : ℕ) (hs : List ℕ)
      → 0 < x
      → print_groups start_printer (gs ++ (replicate (suc (suc n)) 0 ++ x ∷ hs))
        ≡ written (resumed (written start_printer gs) x) hs
  print_groups-resumed x hs h =
      ap (print_groups start_printer) (sym (append_assoc gs (replicate (suc (suc n)) 0) (x ∷ hs)))
      ∙ print_groups-append (gs ++ replicate (suc (suc n)) 0) (x ∷ hs) start_printer
      ∙ ap (λ p. print_groups p (x ∷ hs)) print_groups-run
      ∙ unfold print_groups in
        ap (λ p. print_groups p hs)
          (print_group-resumed (written start_printer gs) n x (written-count gs start_printer refl)
            h)
        ∙ print_groups-written hs (resumed (written start_printer gs) x) refl (inl refl)

  regrouped :
      (x : ℕ) (hs : List ℕ)
      → segments gs ++ colon ++ (to_string 16 x ++ colon) ++ segments hs
        ≡ segments gs ++ colon ++ segments (x ∷ hs)
  regrouped x hs = simp append_assoc

  run_to_string :
      (x : ℕ) (hs : List ℕ)
      → 0 < x
      → IsGroups (x ∷ hs)
      → groups_to_string (gs ++ (replicate (suc (suc n)) 0 ++ x ∷ hs))
        ≡ segments gs ++ (b':' ∷ joined (x ∷ hs))
  unfolding groups_to_string
  run_to_string x hs h v =
      let p = resumed (written start_printer gs) x in
      rw
        (
          print_groups-resumed x hs h,
          close_zeros-none (written p hs) (written-count hs p refl),
          written-result hs p,
          written-result gs start_printer,
        )
        (ap drop_trailing_colon (regrouped x hs)
          ∙ drop-segments (segments gs ++ colon) x hs v
          ∙ append_assoc (segments gs) colon (joined (x ∷ hs)))

  close_zeros-run :
      (p : Printer)
      → p.consecutive_zero_count ≡ 0
      → close_zeros (skipped (suc (suc n)) p) ≡ p.result ++ colon
  unfolding close_zeros
  close_zeros-run p z = ground arith

  trailing_to_string :
      groups_to_string (gs ++ replicate (suc (suc n)) 0)
      ≡ drop_trailing_colon (segments gs ++ colon)
  unfolding groups_to_string
  trailing_to_string =
      rw
        (
          print_groups-run,
          close_zeros-run (written start_printer gs) (written-count gs start_printer refl),
          written-result gs start_printer,
        )
        refl

-- Behind one or more groups other than zero, a run of two zero groups or more becomes two colons,
-- before another group and at the end; behind the run every group is written out, further zeros
-- too.
pub print_run :
    (g : ℕ) (gs : List ℕ) (n x : ℕ) (hs : List ℕ)
    → IsNonzero (g ∷ gs)
    → 0 < x
    → IsGroups (x ∷ hs)
    → (groups_to_string ((g ∷ gs) ++ (replicate (n + 2) 0 ++ x ∷ hs))
        ≡ joined (g ∷ gs) ++ (b':' ∷ b':' ∷ joined (x ∷ hs)))
      × (groups_to_string ((g ∷ gs) ++ replicate (n + 2) 0) ≡ joined (g ∷ gs) ++ (b':' ∷ b':' ∷ []))
print_run g gs n x hs k h v =
    let two : n + 2 ≡ suc (suc n) = omega arith in
    rw two (
      run_to_string (g ∷ gs) k n x hs h v
          ∙ rw (segments-joined g gs) (append_assoc (joined (g ∷ gs)) colon _),
      trailing_to_string (g ∷ gs) k n
          ∙ ap drop_trailing_colon
              (rw (segments-joined g gs) (append_assoc (joined (g ∷ gs)) colon colon))
          ∙ drop_trailing_colon-two (joined (g ∷ gs)),
    )

-- A run of two zero groups or more at the front becomes one colon only, and if it is all there is,
-- the text is empty.
pub print_leading_run :
    (n x : ℕ) (hs : List ℕ)
    → 0 < x
    → IsGroups (x ∷ hs)
    → (groups_to_string (replicate (n + 2) 0 ++ x ∷ hs) ≡ b':' ∷ joined (x ∷ hs))
      × (groups_to_string (replicate (n + 2) 0) ≡ [])
print_leading_run n x hs h v =
    let two : n + 2 ≡ suc (suc n) = omega arith in
    rw two (
      run_to_string [] tt n x hs h v,
      trailing_to_string [] tt n ∙ unfold drop_trailing_colon in refl,
    )
