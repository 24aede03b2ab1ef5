-- ===== src/Config/Numbers/RoundTrip.antt =====
-- src/config.cpp: numbers are read back as they are printed.
use native.Mathlib.Nat.{pow-suc}
use npu_oj.Base.{
  ℕ, zero, suc, ◌+◌, ◌-◌, ◌/◌, ◌%◌, ◌^◌, ◌≡◌, ◌<◌, ap, ◌∙◌, inl, inr, Bool, true, false, Option,
  some, [], ◌∷◌, arith, ltb, ◌==◌, if◌then◌else◌, Bool-cases,
}
use npu_oj.Base.Int.{ℤ, pos, negsuc}
use npu_oj.Base.Text.{Text, digits_of, print_nat, print_long}
use npu_oj.Base.Effect.{ok, exits}
use npu_oj.Config.{Pcre, allocated, regex_get_value}
use npu_oj.Config.Numbers.{
  scan_digits, scan_signed, skip_spaces, get_long, get_ulong, is_digit, is_space,
}

-- Scanning a print gives the number, and what follows the print is scanned after it.
scan_digits-digits_of :
    (fuel n : ℕ) (seen : Bool) (rest : Text)
    → n < 10 ^ suc fuel
    → scan_digits 0 seen (digits_of (suc fuel) n rest) ≡ scan_digits n true rest
unfolding scan_digits digits_of
scan_digits-digits_of zero n seen rest h =
    let small : ltb n 10 ≡ true = ground (arith, pow-suc 10 0) in
    let digit : is_digit (48 + n) ≡ true = ground arith in
    let value : 48 + n - 48 ≡ n = omega arith in
    rw (small, digit, value) (ap (λ v. scan_digits v true rest) (omega arith))
scan_digits-digits_of (suc fuel) n seen rest h = elim (Bool-cases (ltb n 10)) [
  | inl small ↦
      let digit : is_digit (48 + n) ≡ true = ground arith in
      rw (small, digit) (ap (λ v. scan_digits v true rest) (omega arith))
  | inr big ↦
      let digit : is_digit (48 + n % 10) ≡ true = ground arith in
      rw big (
        scan_digits-digits_of fuel (n / 10) seen ((48 + n % 10) ∷ rest)
          (omega (arith, pow-suc 10 (suc fuel)))
        ∙ rw digit (ap (λ v. scan_digits v true rest) (omega arith)))
]

-- A text that begins with a digit.
abbrev StartsWithDigit : Text → Type 0
StartsWithDigit [] = ⊥
StartsWithDigit (b ∷ bs) = is_digit b ≡ true

digits_of-StartsWithDigit :
    (fuel n : ℕ) (rest : Text) → StartsWithDigit rest → StartsWithDigit (digits_of fuel n rest)
unfolding digits_of
digits_of-StartsWithDigit zero n rest h = h
digits_of-StartsWithDigit (suc fuel) n rest h = elim (Bool-cases (ltb n 10)) [
  | inl small ↦ rw small (ground arith)
  | inr big ↦ rw big (digits_of-StartsWithDigit fuel (n / 10) ((48 + n % 10) ∷ rest) (ground arith))
]

print_nat-StartsWithDigit : (n : ℕ) → StartsWithDigit (print_nat n)
unfolding print_nat digits_of
print_nat-StartsWithDigit n = elim (Bool-cases (ltb n 10)) [
  | inl small ↦ rw small (ground arith)
  | inr big ↦ rw big (digits_of-StartsWithDigit 19 (n / 10) ((48 + n % 10) ∷ []) (ground arith))
]

-- A number of twenty digits fits the digits that a print has.
pub scan_print_nat : (n : ℕ) → n < 10 ^ 20 → scan_digits 0 false (print_nat n) ≡ (n, true)
unfolding print_nat scan_digits
scan_print_nat n h = scan_digits-digits_of 19 n false [] (omega arith)

scan_signed-digit :
    (t : Text)
    → StartsWithDigit t
    → scan_signed (skip_spaces t) ≡ (false, (scan_digits 0 false t).0, (scan_digits 0 false t).1)
unfolding scan_signed skip_spaces
scan_signed-digit [] h = elim h [ ]
scan_signed-digit (b ∷ bs) h =
    let black : is_space b ≡ false = ground arith in
    let no_minus : b == b'-' ≡ false = ground arith in
    let no_plus : b == b'+' ≡ false = ground arith in rw black (rw (no_minus, no_plus))

-- A number fits a long.
abbrev pub fits_long : ℤ → Bool
fits_long (pos n) = ltb n (2 ^ 31)
fits_long (negsuc n) = ltb n (2 ^ 31)

-- The absolute value.
abbrev pub abs : ℤ → ℕ
abs (pos n) = n
abs (negsuc n) = suc n

scan_print_long-pos :
    (n : ℕ) → n < 10 ^ 20 → scan_signed (skip_spaces (print_long (pos n))) ≡ (false, n, true)
unfolding print_long
scan_print_long-pos n h =
    rw (scan_signed-digit (print_nat n) (print_nat-StartsWithDigit n), scan_print_nat n h)

scan_print_long-negsuc :
    (n : ℕ)
    → suc n < 10 ^ 20
    → scan_signed (skip_spaces (print_long (negsuc n))) ≡ (true, suc n, true)
unfolding print_long scan_signed skip_spaces
scan_print_long-negsuc n h = rw (scan_print_nat (suc n) h)

-- A configured number is read back: when the value of a key is the decimal print of a number of at
-- most twenty digits, get_long gives that number if it fits a 32-bit long, and ends the program
-- otherwise.
pub get_long-print_long :
    (re : Pcre) (m_buffer : Option Text) (key : Text) (z : ℤ)
    → abs z < 10 ^ 20
    → regex_get_value re m_buffer key allocated ≡ ok (some (print_long z))
    → get_long re m_buffer key ≡ (if fits_long z then ok z else exits (pos 1))
unfolding get_long
get_long-print_long re m_buffer key (pos n) h e = rw e (rw (scan_print_long-pos n h) (ground arith))
get_long-print_long re m_buffer key (negsuc n) h e =
    rw e (rw (scan_print_long-negsuc n h) (ground arith))

-- get_ulong reads a number of 32 bits back, but takes a negative one without complaint: what it
-- gives for -m is 2 ^ 32 - m.
pub get_ulong_wraps :
    (re : Pcre) (m_buffer : Option Text) (key : Text) (z : ℤ)
    → abs z < 2 ^ 32
    → regex_get_value re m_buffer key allocated ≡ ok (some (print_long z))
    → get_ulong re m_buffer key ≡ ok (elim z [ pos n ↦ n | negsuc n ↦ 2 ^ 32 - suc n ])
unfolding get_ulong
get_ulong_wraps re m_buffer key (pos n) h e =
    rw e (rw (scan_print_long-pos n (omega arith)) (ground arith))
get_ulong_wraps re m_buffer key (negsuc n) h e =
    rw e (rw (scan_print_long-negsuc n (omega arith)) (ground arith))
