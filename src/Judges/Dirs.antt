-- ===== src/Judges/Dirs.antt =====
-- src/judge.cpp: which directory each judge works in.
use npu_oj.Base.{
  ℕ, zero, suc, ◌+◌, ◌*◌, ◌/◌, ◌%◌, ◌<◌, ◌≤◌, ◌≡◌, ◌≢◌, ap, sym, ◌∙◌, Bool, true, false, [], ◌∷◌,
  ◌++◌, arith, ltb, length, take, take_all, dec_lt,
}
use npu_oj.Base.Text.{Text, codes, print_nat}
use npu_oj.Config.Numbers.{scan_digits}
use npu_oj.Config.Numbers.RoundTrip.{scan_print_nat}
use npu_oj.Judges.{judge_dir}

print_nat_short : (n : ℕ) → n < 10 → print_nat n ≡ (48 + n) ∷ []
unfolding print_nat
print_nat_short n h = let t : ltb n 10 ≡ true = ground arith in rw t

print_nat_two : (n : ℕ) → 10 ≤ n → n < 100 → print_nat n ≡ (48 + n / 10) ∷ (48 + n % 10) ∷ []
unfolding print_nat
print_nat_two n l h =
    let f : ltb n 10 ≡ false = ground arith in
    let t : ltb (n / 10) 10 ≡ true = ground arith in rw (f, t)

print_nat_three :
    (n : ℕ)
    → 100 ≤ n
    → n < 1000
    → print_nat n ≡ (48 + n / 10 / 10) ∷ (48 + n / 10 % 10) ∷ (48 + n % 10) ∷ []
unfolding print_nat
print_nat_three n l h =
    let f : ltb n 10 ≡ false = ground arith in
    let g : ltb (n / 10) 10 ≡ false = ground arith in
    let t : ltb (n / 10 / 10) 10 ≡ true = ground arith in rw (f, g, t)

print_nat_four :
    (n : ℕ)
    → 1000 ≤ n
    → n < 10000
    → print_nat n
      ≡ (48 + n / 10 / 10 / 10) ∷ (48 + n / 10 / 10 % 10) ∷ (48 + n / 10 % 10) ∷ (48 + n % 10) ∷ []
unfolding print_nat
print_nat_four n l h =
    let f : ltb n 10 ≡ false = ground arith in
    let g : ltb (n / 10) 10 ≡ false = ground arith in
    let k : ltb (n / 10 / 10) 10 ≡ false = ground arith in
    let t : ltb (n / 10 / 10 / 10) 10 ≡ true = ground arith in rw (f, g, k, t)

length-print_nat-le : (n : ℕ) → n < 1000 → length (print_nat n) ≤ 3
length-print_nat-le n h = elim (dec_lt n 10) [
  | yes short ↦ rw (print_nat_short n short) (omega arith)
  | no long ↦ elim (dec_lt n 100) [
    | yes two ↦ rw (print_nat_two n (omega arith) two) (omega arith)
    | no three ↦ rw (print_nat_three n (omega arith) h) (omega arith)
  ]
]

take-append : (xs ys : Text) (n m : ℕ) → m ≡ length xs + n → take m (xs ++ ys) ≡ xs ++ take n ys
take-append [] ys n m e = let e' : m ≡ n = omega arith in rw e'
take-append (x ∷ xs) ys n zero e = absurd (omega arith)
take-append (x ∷ xs) ys n (suc m) e = ap (◌∷◌ x) (take-append xs ys n m (omega arith))

append_cancel : (xs ys zs : Text) → xs ++ ys ≡ xs ++ zs → ys ≡ zs
append_cancel [] ys zs e = e
append_cancel (x ∷ xs) ys zs e = append_cancel xs ys zs (cc)

-- The buffer has room for three digits.
judge_dir_lem :
    (main_dir : Text) (id : ℕ)
    → judge_dir main_dir id ≡ main_dir ++ (codes "/judge" ++ take 3 (print_nat id))
unfolding judge_dir
judge_dir_lem main_dir id = take-append main_dir (codes "/judge" ++ print_nat id) 9 _ (omega arith)

judge_dir_whole :
    (main_dir : Text) (i : ℕ)
    → i < 1000
    → judge_dir main_dir i ≡ main_dir ++ (codes "/judge" ++ print_nat i)
judge_dir_whole main_dir i h =
    judge_dir_lem main_dir i
    ∙ ap (λ (t : Text). main_dir ++ (codes "/judge" ++ t))
        (take_all 3 (print_nat i) (length-print_nat-le i h))

print_nat-injective : (i j : ℕ) → i < 1000 → j < 1000 → print_nat i ≡ print_nat j → i ≡ j
print_nat-injective i j hi hj e =
    let same : ◌≡◌ {A = ℕ × Bool} (i, true) (j, true) =
      sym (scan_print_nat i (omega arith))
      ∙ ap (scan_digits 0 false) e
      ∙ scan_print_nat j (omega arith) in
    ap (λ (p : ℕ × Bool). p.0) same

-- The first thousand judges work in directories of their own: each is the main directory with
-- `/judge` and the whole number of the judge, and no two are the same.
pub judge_dir-distinct :
    (main_dir : Text) (i j : ℕ)
    → i < 1000
    → j < 1000
    → i ≢ j
    → (judge_dir main_dir i ≡ main_dir ++ (codes "/judge" ++ print_nat i))
      × (judge_dir main_dir i ≢ judge_dir main_dir j)
judge_dir-distinct main_dir i j hi hj d = (
  judge_dir_whole main_dir i hi,
  λ e.
      let prints = append_cancel (codes "/judge") (print_nat i) (print_nat j) (
        append_cancel main_dir _ _
          (sym (judge_dir_whole main_dir i hi) ∙ e ∙ judge_dir_whole main_dir j hj)) in
      d (print_nat-injective i j hi hj prints),
)

-- From the thousandth judge on the number is cut: a judge with a number of four digits shares its
-- directory with the judge whose number is the first three of them.
pub judge_dir_shared :
    (main_dir : Text) (q r : ℕ)
    → 100 ≤ q
    → q < 1000
    → r < 10
    → judge_dir main_dir (10 * q + r) ≡ judge_dir main_dir q
judge_dir_shared main_dir q r l h k =
    let n : ℕ = 10 * q + r in
    let quotient : n / 10 ≡ q = omega arith in
    let cut : take 3 (print_nat n) ≡ take 3 (print_nat q) =
      rw (print_nat_four n (omega arith) (omega arith), print_nat_three q l h, quotient) in
    judge_dir_lem main_dir n
    ∙ ap (λ (t : Text). main_dir ++ (codes "/judge" ++ t)) cut
    ∙ sym (judge_dir_lem main_dir q)
