-- ===== src/Units/Memory.antt =====
-- include/dataitem.h: class MemorySize, bytes with a flag that says if they were given. `size_t` has
-- 32 bits: the system call table of src/lang.cpp names calls that only 32-bit x86 has.
use npu_oj.Base.{ℕ, ◌*◌, ◌/◌, ◌%◌, ◌^◌, ◌<◌, ◌≡◌, Bool, true, false, not, arith, ltb}

abbrev pub size_mod : ℕ
size_mod = 2 ^ 32

pub record MemorySize : Type 0 where
  pub size : ℕ
  pub is_set : Bool

abbrev pub unset_size : MemorySize
unset_size = record { size = 0; is_set = false }

unfoldable pub set_byte : ℕ → MemorySize → MemorySize
set_byte n m = record m { is_set = true; size = n }

-- `size << 10`, `<< 20` and `<< 30` drop the bits that leave the word.
unfoldable pub set_kb : ℕ → MemorySize → MemorySize
set_kb n m = record m { is_set = true; size = n * 2 ^ 10 % size_mod }

unfoldable pub set_mb : ℕ → MemorySize → MemorySize
set_mb n m = record m { is_set = true; size = n * 2 ^ 20 % size_mod }

unfoldable pub set_gb : ℕ → MemorySize → MemorySize
set_gb n m = record m { is_set = true; size = n * 2 ^ 30 % size_mod }

unfoldable pub get_byte : MemorySize → ℕ
get_byte m = m.size

unfoldable pub get_kb : MemorySize → ℕ
get_kb m = m.size / 2 ^ 10

unfoldable pub get_mb : MemorySize → ℕ
get_mb m = m.size / 2 ^ 20

unfoldable pub lt_size : MemorySize → MemorySize → Bool
lt_size a b = ltb a.size b.size

unfoldable pub gt_size : MemorySize → MemorySize → Bool
gt_size a b = ltb b.size a.size

unfoldable pub le_size : MemorySize → MemorySize → Bool
unfolding gt_size
le_size a b = not (gt_size a b)

unfoldable pub ge_size : MemorySize → MemorySize → Bool
unfolding lt_size
ge_size a b = not (lt_size a b)

-- A size in megabytes below 4096, or in kilobytes below 2 ^ 22, is read back unchanged, and the two
-- units agree with each other.
pub get_mb-set_mb :
    (n : ℕ) (m : MemorySize)
    → n < 2 ^ 12
    → (get_mb (set_mb n m) ≡ n)
      × (get_kb (set_mb n m) ≡ 1024 * n)
      × (get_kb (set_kb n m) ≡ n)
      × (set_mb n m ≡ set_kb (1024 * n) m)
unfolding get_mb get_kb set_mb set_kb
get_mb-set_mb n m h = (omega arith, omega arith, omega arith, ground arith)

-- The shift wraps: a size in gigabytes keeps only its remainder modulo 4, so four gigabytes are
-- stored as no bytes at all.
pub set_gb_wraps : (n : ℕ) (m : MemorySize) → get_byte (set_gb n m) ≡ n % 4 * 2 ^ 30
unfolding get_byte set_gb
set_gb_wraps n m = omega arith
