-- ===== src/Dispatch/Workers/Owner.antt =====
-- src/judge.cpp: which thread has which judge.
use npu_oj.Base.{
  ℕ, zero, suc, ◌≡◌, ◌≢◌, sym, ap, ◌∙◌, ◌⊎◌, inl, inr, true, false, some, List, get_elem?,
  get_elem?-set_self, get_elem?-set_ne, set, replicate, ℕ_discrete,
}
use npu_oj.DataItem.{Submission}
use npu_oj.Judges.{Judges}
use npu_oj.Judges.Pool.{holds}
use npu_oj.Dispatch.Workers.{Phase, idle, judging, crashed}
use npu_oj.Dispatch.Workers.Refine.{elem-slot, is_granted}

-- Each judge that a thread has is held in the table, and no other thread has it.
pub record Owned (phases : List Phase) (t : Judges) : Type 0 where
  pub held : (i k : ℕ) (s : Submission) → get_elem? phases i ≡ some (judging s k) → holds t k ≡ true
  pub alone :
      (i j k : ℕ) (s u : Submission)
      → get_elem? phases i ≡ some (judging s k)
      → get_elem? phases j ≡ some (judging u k)
      → i ≡ j
  pub safe : (i : ℕ) → ¬ (get_elem? phases i ≡ some crashed)

-- The phase of a thread after thread `i` has moved.
after_move :
    (xs : List Phase) (i j : ℕ) (a b c : Phase)
    → get_elem? xs i ≡ some a
    → get_elem? (set xs i b) j ≡ some c
    → ((i ≡ j) × (c ≡ b)) ⊎ ((i ≢ j) × (get_elem? xs j ≡ some c))
after_move xs i j a b c at h =
    let (e, within) = elem-slot is_granted xs i a at in
    elim (ℕ_discrete i j) [
      | yes same ↦
          let here : get_elem? (set xs i b) i ≡ some b = get_elem?-set_self xs i b within in
          let there : get_elem? (set xs i b) i ≡ some c = ap (get_elem? (set xs i b)) same ∙ h in
          inl (same, cc (here, there))
      | no other ↦ inr (other, sym (get_elem?-set_ne xs i j b other) ∙ h)
    ]

-- Two threads that have judge `k` after the move are the same thread.
one_has :
    (xs : List Phase) (t t' : Judges) (i j l k : ℕ) (b : Phase) (s u : Submission)
    → Owned xs t
    → ((s : Submission) (k : ℕ) → b ≡ judging s k → (holds t k ≡ false) × (holds t' k ≡ true))
    → ((i ≡ j) × (judging s k ≡ b)) ⊎ ((i ≢ j) × (get_elem? xs j ≡ some (judging s k)))
    → ((i ≡ l) × (judging u k ≡ b)) ⊎ ((i ≢ l) × (get_elem? xs l ≡ some (judging u k)))
    → j ≡ l
one_has xs t t' i j l k b s u o mine (inl (sj, ej)) (inl (sl, el)) = sym sj ∙ sl
one_has xs t t' i j l k b s u o mine (inl (sj, ej)) (inr (dl, wl)) =
    cc ((mine s k (sym ej)).0, o.held l k u wl)
one_has xs t t' i j l k b s u o mine (inr (dj, wj)) (inl (sl, el)) =
    cc ((mine u k (sym el)).0, o.held j k s wj)
one_has xs t t' i j l k b s u o mine (inr (dj, wj)) (inr (dl, wl)) = o.alone j l k s u wj wl

-- Thread `i` moves to phase `b` and the table changes: what the other threads have stays held, and a
-- judge that thread `i` gets was free.
pub move-Owned :
    (xs : List Phase) (t t' : Judges) (i : ℕ) (a b : Phase)
    → get_elem? xs i ≡ some a
    → Owned xs t
    → ((j k : ℕ) (s : Submission) → i ≢ j → get_elem? xs j ≡ some (judging s k) → holds t' k ≡ true)
    → ((s : Submission) (k : ℕ) → b ≡ judging s k → (holds t k ≡ false) × (holds t' k ≡ true))
    → ¬ (b ≡ crashed)
    → Owned (set xs i b) t'
move-Owned xs t t' i a b at o others mine fine = record {
  held = λ j k s h. elim (after_move xs i j a b (judging s k) at h) [
    | inl (same, is_b) ↦ (mine s k (sym is_b)).1
    | inr (other, was) ↦ others j k s other was
  ];
  alone = λ j l k s u hj hl.
      one_has xs t t' i j l k b s u o mine (after_move xs i j a b (judging s k) at hj)
        (after_move xs i l a b (judging u k) at hl);
  safe = λ j h. elim (after_move xs i j a b crashed at h) [
    | inl (same, is_b) ↦ fine (sym is_b)
    | inr (other, was) ↦ o.safe j was
  ];
}

-- A move that gets no judge and leaves the table.
pub plain-Owned :
    (xs : List Phase) (t : Judges) (i : ℕ) (a b : Phase)
    → get_elem? xs i ≡ some a
    → Owned xs t
    → ((s : Submission) (k : ℕ) → ¬ (b ≡ judging s k))
    → ¬ (b ≡ crashed)
    → Owned (set xs i b) t
plain-Owned xs t i a b at o none_got fine =
    move-Owned xs t t i a b at o (λ j k s d h. o.held j k s h) (λ s k e. absurd (none_got s k e))
      fine

idle_only : (n i : ℕ) (p : Phase) → get_elem? (replicate n idle) i ≡ some p → p ≡ idle
idle_only zero i p h = cc h
idle_only (suc n) zero p h = cc h
idle_only (suc n) (suc i) p h = idle_only n i p h

pub init-Owned : (n : ℕ) (t : Judges) → Owned (replicate n idle) t
init-Owned n t = record {
  held = λ i k s h. cc (idle_only n i (judging s k) h);
  alone = λ i j k s u h g. cc (idle_only n i (judging s k) h);
  safe = λ i h. cc (idle_only n i crashed h);
}
