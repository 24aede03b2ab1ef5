-- ===== src/Config/Numbers.antt =====
-- src/config.cpp: get_long and get_ulong, with strtol and strtoul of the C library in base 10. A
-- `long` has 32 bits.
pub mod RoundTrip
use npu_oj.Base.{
  ℕ, ◌+◌, ◌-◌, ◌*◌, ◌%◌, ◌^◌, ◌≡◌, Bool, true, false, not, ◌&&◌, ◌||◌, Option, none, some, List, [],
  ◌∷◌, ltb, leb, ◌==◌, if◌then◌else◌,
}
use npu_oj.Base.Int.{ℤ, pos, negsuc, is_zero, eq_ℤ}
use npu_oj.Base.Text.{Text}
use npu_oj.Base.Effect.{Outcome, ok, exits, faults, blocks}
use npu_oj.Config.{Pcre, Dest, allocated, regex_get_value}

abbrev pub is_space : ℕ → Bool
is_space b = b == 32 || (leb 9 b && leb b 13)

abbrev pub is_digit : ℕ → Bool
is_digit b = leb 48 b && leb b 57

-- The digits at the head of a text: their value after `acc`, and if there was any.
unfoldable pub scan_digits : ℕ → Bool → Text → ℕ × Bool
scan_digits acc seen [] = (acc, seen)
scan_digits acc seen (b ∷ bs) =
    let rest = scan_digits (acc * 10 + (b - 48)) true bs in if is_digit b then rest else (acc, seen)

-- A sign and then digits: is it negative, the value, and if there was a digit.
unfoldable pub scan_signed : Text → Bool × ℕ × Bool
scan_signed [] = (false, 0, false)
scan_signed (b ∷ bs) =
    let (v, seen) = scan_digits 0 false bs in
    let (u, plain) = scan_digits 0 false (b ∷ bs) in
    if b == b'-' then (true, v, seen) else if b == b'+' then (false, v, seen) else (false, u, plain)

unfoldable pub skip_spaces : Text → Text
skip_spaces [] = []
skip_spaces (b ∷ bs) = let rest = skip_spaces bs in if is_space b then rest else b ∷ bs

-- What strtol leaves: the number, if errno is ERANGE, and if the end pointer moved.
pub record Scanned (A : Type 0) : Type 0 where
  pub num : A
  pub erange : Bool
  pub moved : Bool

clamp_long : Bool × ℕ × Bool → Scanned ℤ
clamp_long (negative, v, seen) =
    if negative
    then if leb v (2 ^ 31)
      then record { num = if v == 0 then pos 0 else negsuc (v - 1); erange = false; moved = seen }
      else record { num = negsuc (2 ^ 31 - 1); erange = true; moved = seen }
    else if ltb v (2 ^ 31)
    then record { num = pos v; erange = false; moved = seen }
    else record { num = pos (2 ^ 31 - 1); erange = true; moved = seen }

unfoldable pub strtol : Text → Scanned ℤ
unfolding clamp_long scan_signed skip_spaces scan_digits
strtol t = clamp_long (scan_signed (skip_spaces t))

clamp_ulong : Bool × ℕ × Bool → Scanned ℕ
clamp_ulong (negative, v, seen) =
    if ltb v (2 ^ 32)
    then record {
      num = if negative then (2 ^ 32 - v) % 2 ^ 32 else v;
      erange = false;
      moved = seen;
    }
    else record { num = 2 ^ 32 - 1; erange = true; moved = seen }

unfoldable pub strtoul : Text → Scanned ℕ
unfolding clamp_ulong scan_signed skip_spaces scan_digits
strtoul t = clamp_ulong (scan_signed (skip_spaces t))

-- The three tests of get_long that end the program; ERANGE is the only error that strtol sets.
accept_long : Scanned ℤ → Outcome ℤ
accept_long s =
    if not s.moved
      || ((s.erange && (eq_ℤ s.num (pos (2 ^ 31 - 1)) || eq_ℤ s.num (negsuc (2 ^ 31 - 1))))
          || (s.erange && is_zero s.num))
    then exits (pos 1)
    else ok s.num

long_value : Outcome (Option Text) → Outcome ℤ
unfolding accept_long strtol
long_value (ok (some str)) = accept_long (strtol str)
long_value (ok none) = exits (pos 1)
long_value (exits code) = exits code
long_value faults = faults
long_value blocks = blocks

unfoldable pub get_long : Pcre → Option Text → Text → Outcome ℤ
unfolding long_value
get_long re m_buffer key = long_value (regex_get_value re m_buffer key allocated)

accept_ulong : Scanned ℕ → Outcome ℕ
accept_ulong s =
    if ((s.erange && s.num == 2 ^ 32 - 1) || (s.erange && s.num == 0)) || not s.moved
    then exits (pos 1)
    else ok s.num

ulong_value : Outcome (Option Text) → Outcome ℕ
unfolding accept_ulong strtoul
ulong_value (ok (some str)) = accept_ulong (strtoul str)
ulong_value (ok none) = exits (pos 1)
ulong_value (exits code) = exits code
ulong_value faults = faults
ulong_value blocks = blocks

unfoldable pub get_ulong : Pcre → Option Text → Text → Outcome ℕ
unfolding ulong_value
get_ulong re m_buffer key = ulong_value (regex_get_value re m_buffer key allocated)
