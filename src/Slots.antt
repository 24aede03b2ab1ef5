-- ===== src/Slots.antt =====
-- The loops over an array of states in src/db.cpp and src/judge.cpp: look for the first of the first
-- `n` entries in a state, or count those in it.
use npu_oj.Base.{
  ℕ, zero, suc, ◌+◌, ◌<◌, ◌≡◌, refl, inl, inr, Bool, true, false, Option, none, some, List, [], ◌∷◌,
  arith, if◌then◌else◌, length, set, replicate, Bool-cases, Option-cases,
}

module _ {A : Type 0} (p : A → Bool) where
  unfoldable pub find_slot : ℕ → List A → Option ℕ
  find_slot zero xs = none
  find_slot (suc n) [] = none
  find_slot (suc n) (x ∷ xs) =
      if p x then some 0 else elim (find_slot n xs) [ none ↦ none | some i ↦ some (suc i) ]

  unfoldable pub count_slots : ℕ → List A → ℕ
  count_slots zero xs = 0
  count_slots (suc n) [] = 0
  count_slots (suc n) (x ∷ xs) = (if p x then 1 else 0) + count_slots n xs

-- Entry `i` is in a state that `p` accepts.
abbrev pub slot_is : {A : Type 0} → (A → Bool) → List A → ℕ → Bool
slot_is p [] i = false
slot_is p (x ∷ xs) zero = p x
slot_is p (x ∷ xs) (suc i) = slot_is p xs i

module _ {A : Type 0} (p : A → Bool) where
  pub find_slot-some :
      (n : ℕ) (xs : List A) (i : ℕ)
      → find_slot p n xs ≡ some i
      → (i < n) × (i < length xs) × (slot_is p xs i ≡ true)
  unfolding find_slot
  find_slot-some zero xs i h = cc
  find_slot-some (suc n) [] i h = cc
  find_slot-some (suc n) (x ∷ xs) i h = elim (Bool-cases (p x)) [
    | inl hit ↦ let first : 0 ≡ i = ground arith in rw (← first) (omega arith, omega arith, hit)
    | inr miss ↦ elim (Option-cases (find_slot p n xs)) [
      | inl e ↦ cc (rw (miss, e) at h)
      | inr (j, e) ↦
          let later : suc j ≡ i = ground arith in
          let (lt, within, hit) = find_slot-some n xs j e in
          rw (← later) (omega arith, omega arith, hit)
    ]
  ]

  pub find_slot-none : (n : ℕ) (xs : List A) → find_slot p n xs ≡ none → count_slots p n xs ≡ 0
  unfolding find_slot count_slots
  find_slot-none zero xs h = refl
  find_slot-none (suc n) [] h = refl
  find_slot-none (suc n) (x ∷ xs) h = ground (arith, find_slot-none n xs)

  -- The count changes by what entry `i` was and what it becomes.
  pub count_slots-set :
      (n : ℕ) (xs : List A) (i : ℕ) (v : A)
      → i < n
      → i < length xs
      → count_slots p n (set xs i v) + (if slot_is p xs i then 1 else 0)
        ≡ count_slots p n xs + (if p v then 1 else 0)
  unfolding count_slots
  count_slots-set zero xs i v h k = elim h [ ]
  count_slots-set (suc n) [] i v h k = elim k [ ]
  count_slots-set (suc n) (x ∷ xs) zero v h k = ground arith
  count_slots-set (suc n) (x ∷ xs) (suc i) v h k =
      omega (arith, count_slots-set n xs i v (omega arith) (omega arith))

  pub slot_is-set : (xs : List A) (i : ℕ) (v : A) → i < length xs → slot_is p (set xs i v) i ≡ p v
  slot_is-set [] i v h = elim h [ ]
  slot_is-set (x ∷ xs) zero v h = refl
  slot_is-set (x ∷ xs) (suc i) v h = slot_is-set xs i v (omega arith)

  pub slot_is-lt : (xs : List A) (i : ℕ) → slot_is p xs i ≡ true → i < length xs
  slot_is-lt [] i h = cc
  slot_is-lt (x ∷ xs) zero h = omega arith
  slot_is-lt (x ∷ xs) (suc i) h = omega (arith, slot_is-lt xs i h)

-- An entry in one state is not in another.
pub slot_is_other :
    {A : Type 0} (p q : A → Bool) (xs : List A) (i : ℕ)
    → ((a : A) → p a ≡ true → q a ≡ false)
    → slot_is p xs i ≡ true
    → slot_is q xs i ≡ false
slot_is_other p q [] i h k = refl
slot_is_other p q (x ∷ xs) zero h k = h x k
slot_is_other p q (x ∷ xs) (suc i) h k = slot_is_other p q xs i h k

-- None of equal entries is in a state that their value is not in.
pub count_slots-replicate :
    {A : Type 0} (p : A → Bool) (n k : ℕ) (v : A)
    → p v ≡ false
    → count_slots p n (replicate k v) ≡ 0
unfolding count_slots
count_slots-replicate p zero k v h = refl
count_slots-replicate p (suc n) zero v h = refl
count_slots-replicate p (suc n) (suc k) v h = rw h (omega (arith, count_slots-replicate p n k v h))
