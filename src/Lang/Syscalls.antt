-- ===== src/Lang/Syscalls.antt =====
-- src/lang.cpp: how often a run may make each system call.
pub mod Table
use npu_oj.Base.{
  ℕ, ◌+◌, ◌*◌, ◌<◌, ◌≡◌, refl, ap, Bool, true, false, List, [], ◌∷◌, arith, ltb, ◌==◌,
  if◌then◌else◌,
}
use npu_oj.Base.Int.{ℤ, pos, negsuc, is_neg}
use npu_oj.DataItem.{ResourceLimit}

-- RF_C: numbers of calls (of 32-bit x86) and how often each may be made, -1 for no limit; the first
-- negative number ends the list. What stands behind it in the array is not read.
abbrev pub rf_c : List ℤ
rf_c =
    pos 33
    ∷ negsuc 0
    ∷ pos 45
    ∷ negsuc 0
    ∷ pos 6
    ∷ negsuc 0
    ∷ pos 11
    ∷ pos 1
    ∷ pos 252
    ∷ negsuc 0
    ∷ pos 197
    ∷ negsuc 0
    ∷ pos 240
    ∷ negsuc 0
    ∷ pos 78
    ∷ negsuc 0
    ∷ pos 192
    ∷ negsuc 0
    ∷ pos 163
    ∷ negsuc 0
    ∷ pos 125
    ∷ negsuc 0
    ∷ pos 91
    ∷ negsuc 0
    ∷ pos 19
    ∷ negsuc 0
    ∷ pos 3
    ∷ negsuc 0
    ∷ pos 243
    ∷ negsuc 0
    ∷ pos 122
    ∷ negsuc 0
    ∷ pos 4
    ∷ negsuc 0
    ∷ pos 146
    ∷ negsuc 0
    ∷ pos 13
    ∷ negsuc 0
    ∷ negsuc 0
    ∷ []

-- t[i] = v
abbrev pub update : (ℕ → ℤ) → ℕ → ℤ → ℕ → ℤ
update t i v j = if i == j then v else t j

-- `malloc` gives an array of 512 ints that holds `heap`; `memset(sys_call_init, 0, 512)` clears its
-- first 512 bytes, which are 128 ints.
unfoldable pub cleared : (ℕ → ℤ) → ℕ → ℤ
cleared heap i = if ltb i 128 then pos 0 else heap i

-- The loop over RF_C: it ends at a negative number.
unfoldable pub fill : List ℤ → (ℕ → ℤ) → ℕ → ℤ
fill (pos n ∷ v ∷ rest) t = fill rest (update t n v)
fill _ t = t

-- The static array `sys_call_init`, which is made once.
unfoldable pub sys_call_init : (ℕ → ℤ) → ℕ → ℤ
unfolding cleared fill
sys_call_init heap = fill rf_c (cleared heap)

unfoldable pub init_system_call_limits : (ℕ → ℤ) → ResourceLimit → ResourceLimit
unfolding sys_call_init
init_system_call_limits heap rl = record rl { syscall_limits = sys_call_init heap }
