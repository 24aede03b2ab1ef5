-- ===== src/Lang/Syscalls/Table.antt =====
-- src/lang.cpp: which calls the table lets through.
use npu_oj.Base.{
  ℕ, ◌≡◌, refl, ◌∙◌, Bool, true, false, List, [], ◌∷◌, arith, ltb, ◌==◌, if◌then◌else◌,
}
use npu_oj.Base.Int.{ℤ, pos, negsuc}
use npu_oj.Lang.Syscalls.{rf_c, cleared, fill, sys_call_init, update}

-- The calls that may be made freely.
abbrev pub free_calls : List ℕ
free_calls =
    13 ∷ 146 ∷ 4 ∷ 122 ∷ 243 ∷ 3 ∷ 19 ∷ 91 ∷ 125 ∷ 163 ∷ 192 ∷ 78 ∷ 240 ∷ 197 ∷ 252 ∷ 6 ∷ 45 ∷ 33
    ∷ []

abbrev pub sys_execve : ℕ
sys_execve = 11

abbrev pub contains : List ℕ → ℕ → Bool
contains [] n = false
contains (m ∷ ms) n = if m == n then true else contains ms n

-- The last entry for `i` decides; `d` is what holds where there is none.
abbrev last_entry : List ℤ → ℕ → ℤ → ℤ
last_entry (pos n ∷ v ∷ rest) i d = last_entry rest i (if n == i then v else d)
last_entry _ i d = d

fill-last_entry : (ps : List ℤ) (t : ℕ → ℤ) (i : ℕ) → fill ps t i ≡ last_entry ps i (t i)
unfolding fill
fill-last_entry (pos n ∷ v ∷ rest) t i = fill-last_entry rest (update t n v) i
fill-last_entry _ t i = refl

last_entry-rf_c :
    (d : ℤ) (n : ℕ)
    → last_entry rf_c n d
      ≡ (if contains free_calls n then negsuc 0 else if n == sys_execve then pos 1 else d)
last_entry-rf_c d n = ground arith

-- What the table says of every call: the free ones have no limit, `execve` may be made once, and
-- any other call is forbidden if its number is below 128; from 128 on its limit is whatever the
-- memory of the array held, since only a quarter of the array is cleared.
pub sys_call_init_lem :
    (heap : ℕ → ℤ) (n : ℕ)
    → sys_call_init heap n ≡ (
        if contains free_calls n
        then negsuc 0
        else if n == sys_execve
        then pos 1
        else if ltb n 128
        then pos 0
        else heap n)
unfolding sys_call_init
sys_call_init_lem heap n =
    fill-last_entry rf_c (cleared heap) n ∙ last_entry-rf_c (cleared heap n) n
