-- ===== src/Numeric/RoundTrip.antt =====
-- A number that was written is read back (include/essence/numeric_conversion.hpp).
use native.Mathlib.Nat.{
  div-add-mod', div-lt_iff_lt-mul, div-lt_self, le_trans, pow-le-pow_left, pow-suc, pow-zero,
}
use mathlib.Core.List.{concat-ne-nil}
use cpp_essence.Prelude.{
  ℕ, zero, suc, ◌+◌, ◌*◌, ◌/◌, ◌%◌, ◌^◌, ◌≤◌, ◌<◌, ◌≡◌, ◌≢◌, refl, ap, ◌∙◌, true, [], ◌∷◌, ◌++◌,
  none, some, arith, leb, ltb, le→leb, ltb→lt, inl, inr, Bool-cases, length, All, All-append, Bytes,
  length-append,
}
use cpp_essence.Numeric.{digit_of, digit_char, read_digits, from_string, write_digits, to_string}

digit_of-digit_char : (base d : ℕ) → d < base → base ≤ 36 → digit_of base (digit_char d) ≡ some d
unfolding digit_of digit_char
digit_of-digit_char base d h k = ground arith

-- Every character is a digit of the base.
abbrev pub IsDigits : ℕ → Bytes → Type 0
IsDigits base = All (λ c. (d : ℕ) × (digit_of base c ≡ some d))

-- The text is empty or goes on with something that is no digit.
abbrev pub Stops : ℕ → Bytes → Type 0
Stops base [] = Unit {0}
Stops base (c ∷ s) = digit_of base c ≡ none

read_digits-Stops : (base acc : ℕ) (s : Bytes) → Stops base s → read_digits base acc s ≡ acc
unfolding read_digits
read_digits-Stops base acc [] h = refl
read_digits-Stops base acc (c ∷ s) h = rw (h, read_digits) refl

read_digits-append :
    (base acc : ℕ) (xs ys : Bytes)
    → IsDigits base xs
    → read_digits base acc (xs ++ ys) ≡ read_digits base (read_digits base acc xs) ys
unfolding read_digits
read_digits-append base acc [] ys h = refl
read_digits-append base acc (c ∷ xs) ys ((d, e), h) =
    rw (e, read_digits) (read_digits-append base (acc * base + d) xs ys h)

module _ (base : ℕ) (two : 2 ≤ base) (limit : base ≤ 36) where
  write_digits-IsDigits : (f n : ℕ) → IsDigits base (write_digits f base n)
  unfolding write_digits
  write_digits-IsDigits zero n = tt
  write_digits-IsDigits (suc f) n = elim (Bool-cases (ltb n base)) [
    | inl e ↦ rw e ((n, digit_of-digit_char base n (ltb→lt _ _ e) limit), tt)
    | inr e ↦ rw e (
        All-append _ (write_digits f base (n / base)) _ (write_digits-IsDigits f (n / base))
          ((n % base, digit_of-digit_char base (n % base) (omega arith) limit), tt))
  ]

  read_digits-one :
      (acc d : ℕ) → d < base → read_digits base acc (digit_char d ∷ []) ≡ acc * base + d
  unfolding read_digits
  read_digits-one acc d h = rw (digit_of-digit_char base d h limit, read_digits) refl

  quotient_below : (n f : ℕ) → n < suc f → base ≤ n → n / base < f
  quotient_below n f h k =
      let q : n / base < n = div-lt_self (omega arith) (omega arith) in omega arith

  read-write : (f n : ℕ) → n < f → read_digits base 0 (write_digits f base n) ≡ n
  unfolding write_digits
  read-write zero n h = elim h [ ]
  read-write (suc f) n h = elim (Bool-cases (ltb n base)) [
    | inl e ↦ rw e (read_digits-one 0 n (ltb→lt _ _ e) ∙ omega arith)
    | inr e ↦ rw e (
        read_digits-append base 0 (write_digits f base (n / base)) _
          (write_digits-IsDigits f (n / base))
        ∙ rw (read-write f (n / base) (quotient_below n f h (ground arith)))
            (read_digits-one (n / base) (n % base) (omega arith) ∙ div-add-mod' n base))
  ]

  length-write_digits-le : (f n k : ℕ) → n < base ^ suc k → length (write_digits f base n) ≤ suc k
  unfolding write_digits
  length-write_digits-le zero n k lt = omega arith
  length-write_digits-le (suc f) n zero lt =
      let q : n < 1 * base = rw (pow-suc base 0, pow-zero base) at lt in ground arith
  length-write_digits-le (suc f) n (suc k) lt =
      let q : n / base < base ^ suc k =
        (div-lt_iff_lt-mul {k = base} (omega arith)).1 (rw (pow-suc base (suc k)) at lt) in
      ground (
        arith,
        length-write_digits-le f (n / base) k q,
        length-append (write_digits f base (n / base)) (digit_char (n % base) ∷ []),
      )

  write_digits-ne-nil : (f n : ℕ) → write_digits (suc f) base n ≢ []
  unfolding write_digits
  write_digits-ne-nil f n e =
      ground (arith, concat-ne-nil (digit_char (n % base)) (write_digits f base (n / base)))

  fits_buffer : (n : ℕ) → n < 2 ^ 64 → leb (length (write_digits (suc n) base n)) 64 ≡ true
  fits_buffer n h =
      let narrow : n < base ^ 64 = le_trans h (pow-le-pow_left two 64) in
      le→leb _ _ (length-write_digits-le (suc n) n 63 narrow)

  to_string-write : (n : ℕ) → n < 2 ^ 64 → to_string base n ≡ write_digits (suc n) base n
  unfolding to_string
  to_string-write n h = rw (fits_buffer n h, to_string)

  from_string_digits :
      (top : ℕ) (xs rest : Bytes)
      → xs ≢ []
      → IsDigits base xs
      → Stops base rest
      → read_digits base 0 xs ≤ top
      → from_string top base (xs ++ rest) ≡ some (read_digits base 0 xs)
  unfolding from_string
  from_string_digits top [] rest ne h stop le = absurd (ne refl)
  from_string_digits top (c ∷ s) rest ne ((d, e), h) stop le = ground (
    arith,
    read_digits-append base d s rest h,
    read_digits-Stops base (read_digits base d s) rest stop,
  )

  -- In a base from two to 36, what `to_string` writes for a number below 2 ^ 64 that the type can
  -- hold is read back, whatever follows it that starts with no digit of the base.
  pub from_string-to_string :
      (top n : ℕ) (rest : Bytes)
      → n ≤ top
      → n < 2 ^ 64
      → Stops base rest
      → from_string top base (to_string base n ++ rest) ≡ some n
  from_string-to_string top n rest h k stop =
      let value = read-write (suc n) n (omega arith) in
      rw (to_string-write n k) (
        from_string_digits top (write_digits (suc n) base n) rest (write_digits-ne-nil n n)
          (write_digits-IsDigits (suc n) n) stop (rw value h)
        ∙ ap some value)

  pub to_string-IsDigits : (n : ℕ) → n < 2 ^ 64 → IsDigits base (to_string base n)
  to_string-IsDigits n k = rw (to_string-write n k) (write_digits-IsDigits (suc n) n)

  pub to_string-ne-nil : (n : ℕ) → n < 2 ^ 64 → to_string base n ≢ []
  to_string-ne-nil n k = rw (to_string-write n k) (write_digits-ne-nil n n)
