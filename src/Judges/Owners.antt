-- ===== src/Judges/Owners.antt =====
-- src/judge.cpp: who holds a judge after another is lent or given back.
use npu_oj.Base.{
  ℕ, zero, suc, ◌≡◌, ◌≢◌, refl, ap, ◌∙◌, inl, inr, Bool, true, some, List, [], ◌∷◌, arith, set,
  Bool-cases, Option-cases, ℕ_discrete,
}
use npu_oj.Slots.{find_slot, slot_is, find_slot-some, slot_is-set}
use npu_oj.Judges.{JudgeState, is_available, is_used, Judges, lend_judge, free_judge}
use npu_oj.Judges.Pool.{holds}

slot_is-set_ne :
    (p : JudgeState → Bool) (xs : List JudgeState) (i j : ℕ) (v : JudgeState)
    → i ≢ j
    → slot_is p (set xs i v) j ≡ slot_is p xs j
slot_is-set_ne p [] i j v d = refl
slot_is-set_ne p (x ∷ xs) zero zero v d = absurd (d refl)
slot_is-set_ne p (x ∷ xs) zero (suc j) v d = refl
slot_is-set_ne p (x ∷ xs) (suc i) zero v d = refl
slot_is-set_ne p (x ∷ xs) (suc i) (suc j) v d = slot_is-set_ne p xs i j v (λ e. d (ap suc e))

-- A judge that is lent is held, and so are those that were.
pub lend_judge-holds :
    (t : Judges) (k : ℕ)
    → (lend_judge t).0 ≡ some k
    → (holds (lend_judge t).1 k ≡ true)
      × ((j : ℕ) → holds t j ≡ true → holds (lend_judge t).1 j ≡ true)
unfolding lend_judge
lend_judge-holds t k h = elim (Option-cases (find_slot is_available t.judges_num t.judges_flag)) [
  | inl e ↦ cc (rw e at h)
  | inr (i, e) ↦
      let same : i ≡ k = cc (rw e at h) in
      let found = e ∙ ap some same in
      let (lt, within, free) = find_slot-some is_available t.judges_num t.judges_flag k found in
      let used = slot_is-set is_used t.judges_flag k JudgeState.used within in
      rw found (
        ground (arith, used, lt),
        λ j held. elim (ℕ_discrete k j) [
          | yes is_k ↦ rw (← is_k) (ground (arith, used, lt))
          | no other ↦
              let unchanged = slot_is-set_ne is_used t.judges_flag k j JudgeState.used other in
              rw unchanged held
        ],
      )
]

-- Giving a judge back takes no other from its holder.
pub free_judge-holds :
    (t : Judges) (i j : ℕ) → i ≢ j → holds t j ≡ true → holds (free_judge i t) j ≡ true
unfolding free_judge
free_judge-holds t i j d h =
    let unchanged = slot_is-set_ne is_used t.judges_flag i j JudgeState.available d in
    elim (Bool-cases (holds t i)) [ inl held ↦ rw (held, unchanged) h | inr free ↦ rw free h ]
