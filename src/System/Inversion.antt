-- ===== src/System/Inversion.antt =====
-- src/judge.cpp: what a step of a work thread did when it returned.
use npu_oj.Base.{
  ℕ, zero, suc, ◌+◌, ◌-◌, ◌<◌, ◌≡◌, refl, ap, ◌∙◌, inl, inr, true, Option, some, List, [], ◌∷◌,
  arith, ltb, set, Bool-cases, Option-cases,
}
use npu_oj.Base.Effect.{Outcome, ok, exits, faults, blocks, Prog}
use npu_oj.Slots.{find_slot, slot_is, find_slot-some, slot_is-set}
use npu_oj.Judges.{JudgeState, is_available, is_used, Judges, lend_judge, free_judge}
use npu_oj.Manager.{Machine}
use npu_oj.System.{System, locked, take_judge, get_judge, release_judge, on_machine, with_machine}

set_back :
    (xs : List JudgeState) (i : ℕ)
    → slot_is is_available xs i ≡ true
    → set (set xs i JudgeState.used) i JudgeState.available ≡ xs
set_back [] i h = refl
set_back (JudgeState.available ∷ xs) zero h = refl
set_back (JudgeState.used ∷ xs) zero h = cc h
set_back (x ∷ xs) (suc i) h = ap (◌∷◌ x) (set_back xs i h)

-- A judge that is lent and given back leaves the table as it was.
pub free-lend_judge :
    (t : Judges) (i : ℕ) → (lend_judge t).0 ≡ some i → free_judge i (lend_judge t).1 ≡ t
unfolding lend_judge free_judge
free-lend_judge t i h = elim (Option-cases (find_slot is_available t.judges_num t.judges_flag)) [
  | inl e ↦ cc (rw e at h)
  | inr (j, e) ↦
      let same : j ≡ i = cc (rw e at h) in
      let found = e ∙ ap some same in
      let (lt, within, free) = find_slot-some is_available t.judges_num t.judges_flag i found in
      let below : ltb i t.judges_num ≡ true = ground (arith, lt) in
      let used : slot_is is_used (set t.judges_flag i JudgeState.used) i ≡ true =
        slot_is-set is_used t.judges_flag i JudgeState.used within in
      rw (found, below, used)
        (ap (λ fl. record t { judges_flag = fl }) (set_back t.judges_flag i free))
]

module _ {W : Type 0} where
  -- Inversion of the steps of run.
  pub get_judge-ok :
      (s s' : System W) (found : Option ℕ)
      → get_judge s ≡ ok (found, s')
      → (0 < s.sem_judge)
        × (found ≡ (lend_judge s.table).0)
        × (s' ≡ record s { sem_judge = s.sem_judge - 1; table = (lend_judge s.table).1 })
  unfolding get_judge take_judge
  get_judge-ok s s' found h = elim (Bool-cases (ltb 0 s.sem_judge)) [
    | inl free ↦ elim (Bool-cases (locked s)) [
      | inl held ↦ cc (rw (free, held) at h)
      | inr unheld ↦
          (ground (arith, free), cc (rw (free, unheld) at h), cc (rw (free, unheld) at h))
    ]
    | inr none_free ↦ cc (rw none_free at h)
  ]

  pub release_judge-ok :
      (i : ℕ) (s s' : System W) (u : Unit {0})
      → release_judge i s ≡ ok (u, s')
      → s' ≡ record s {
        table = free_judge i s.table;
        sem_judge = s.sem_judge + 1;
        sem_fetch = s.sem_fetch + 1;
      }
  unfolding release_judge
  release_judge-ok i s s' u h = elim (Bool-cases (locked s)) [
    | inl held ↦ cc (rw held at h)
    | inr unheld ↦ cc (rw unheld at h)
  ]

  pub on_machine-ok :
      {A : Type 0} (f : Prog (Machine W) A) (s s' : System W) (a : A)
      → on_machine f s ≡ ok (a, s')
      → (m : Machine W) × (f s.machine ≡ ok (a, m)) × (s' ≡ record s { machine = m })
  unfolding on_machine with_machine
  on_machine-ok {A} f s s' a h = go (f s.machine) refl
    where
      go :
          (o : Outcome (A × Machine W))
          → f s.machine ≡ o
          → (m : Machine W) × (f s.machine ≡ ok (a, m)) × (s' ≡ record s { machine = m })
      go (ok (b, m)) e = let k = rw e at h in (m, e ∙ ap (λ c. ok (c, m)) (cc k), cc k)
      go (exits code) e = cc (rw e at h)
      go faults e = cc (rw e at h)
      go blocks e = cc (rw e at h)
