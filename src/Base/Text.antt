-- ===== src/Base/Text.antt =====
-- C texts as lists of byte values without the final NUL, and the parts of the C library that
-- print them.
use Prim.Native.Char.{code}
use Prim.Native.String.{String}
use Prim.Native.Nat.{ℕ, zero, suc, ◌+◌, ◌-◌, ◌/◌, ◌%◌, ◌≤◌, ◌<◌}
use mathlib.Core.Path.{◌≡◌}
use mathlib.Core.List.{List, [], ◌∷◌}
use native.Mathlib.Omega.{arith}
use npu_oj.Base.Int.{ℤ, pos, negsuc}
use npu_oj.Base.Tests.{ltb, if◌then◌else◌}
use npu_oj.Base.Lists.{length, take, length-take, take_all}

abbrev pub Text : Type 0
Text = List ℕ

-- The bytes of an ASCII literal.
abbrev pub codes : String → Text
codes String.[] = []
codes (String.◌∷◌ c s) = code c ∷ codes s

-- snprintf(buf, n, ...): what the buffer holds afterwards, at most n - 1 bytes and the NUL.
abbrev pub snprintf : ℕ → Text → Text
snprintf n t = take (n - 1) t

pub length-snprintf-le : (n : ℕ) (t : Text) → length (snprintf n t) ≤ n - 1
length-snprintf-le n t = omega (arith, length-take (n - 1) t)

pub snprintf_fits : (n : ℕ) (t : Text) → length t < n → snprintf n t ≡ t
snprintf_fits n t h = take_all (n - 1) t (omega arith)

-- "%u" and "%ld" of a number that is not negative: at most `fuel` digits, which is enough when the
-- number is below 10 ^ fuel.
unfoldable pub digits_of : ℕ → ℕ → Text → Text
digits_of zero n acc = acc
digits_of (suc fuel) n acc =
    let rest = digits_of fuel (n / 10) ((48 + n % 10) ∷ acc) in
    if ltb n 10 then (48 + n) ∷ acc else rest

-- A 64-bit number has at most 20 digits.
unfoldable pub print_nat : ℕ → Text
unfolding digits_of
print_nat n = digits_of 20 n []

-- "%ld"
unfoldable pub print_long : ℤ → Text
unfolding print_nat
print_long (pos n) = print_nat n
print_long (negsuc n) = b'-' ∷ print_nat (suc n)
