-- ===== src/Judges/Pool.antt =====
-- src/judge.cpp: the table of judges keeps what the lending protocol asks.
use npu_oj.Base.{
  ℕ, zero, suc, ◌+◌, ◌<◌, ◌≤◌, ◌≡◌, refl, inl, inr, Bool, true, false, ◌&&◌, some, List, [], ◌∷◌,
  arith, ltb, length, length-set, length-replicate, Option-cases,
}
use npu_oj.Slots.{
  find_slot, count_slots, slot_is, find_slot-some, find_slot-none, count_slots-set, slot_is-set,
  slot_is-lt, slot_is_other, count_slots-replicate,
}
use npu_oj.Lending.{Lender}
use npu_oj.Lending.Protocol.{Shared, Reach, Reach-Inv}
use npu_oj.Judges.{JudgeState, is_available, is_used, Judges, init_table, lend_judge, free_judge}

abbrev pub lent : Judges → ℕ
lent t = count_slots is_used t.judges_num t.judges_flag

abbrev pub holds : Judges → ℕ → Bool
holds t i = ltb i t.judges_num && slot_is is_used t.judges_flag i

-- Both arrays have an entry for every judge.
pub record IsValid (t : Judges) : Type 0 where
  pub room : t.judges_num ≤ length t.judges_flag

count_states :
    (n : ℕ) (flags : List JudgeState)
    → n ≤ length flags
    → count_slots is_available n flags + count_slots is_used n flags ≡ n
unfolding count_slots
count_states zero flags h = refl
count_states (suc n) [] h = elim h [ ]
count_states (suc n) (JudgeState.available ∷ flags) h = omega (arith, count_states n flags)
count_states (suc n) (JudgeState.used ∷ flags) h = omega (arith, count_states n flags)

available-unused : (a : JudgeState) → is_available a ≡ true → is_used a ≡ false
available-unused a h = ground arith

-- While not every judge is used, one is found.
pub lend_judge_free :
    (t : Judges)
    → IsValid t
    → lent t < t.judges_num
    → (i : ℕ) × ((lend_judge t).0 ≡ some i)
      × (holds t i ≡ false)
      × (holds (lend_judge t).1 i ≡ true)
      × (lent (lend_judge t).1 ≡ lent t + 1)
      × ((lend_judge t).1.judges_num ≡ t.judges_num)
      × IsValid (lend_judge t).1
unfolding lend_judge
lend_judge_free t v h = elim (Option-cases (find_slot is_available t.judges_num t.judges_flag)) [
  | inl e ↦ absurd (
      omega (
        arith,
        count_states t.judges_num t.judges_flag v.room,
        find_slot-none is_available t.judges_num t.judges_flag e,
      ))
  | inr (i, e) ↦
      let (lt, within, free) = find_slot-some is_available t.judges_num t.judges_flag i e in
      let unused = slot_is_other is_available is_used t.judges_flag i available-unused free in
      let becomes_used = slot_is-set is_used t.judges_flag i JudgeState.used within in
      let one_more =
        count_slots-set is_used t.judges_num t.judges_flag i JudgeState.used lt within in
      rw e (
        i,
        refl,
        ground (arith, unused),
        ground (arith, becomes_used, lt),
        ground (arith, one_more, unused),
        refl,
        record { room = omega (arith, length-set t.judges_flag i JudgeState.used, v.room) },
      )
]

-- A judge that is given back is free.
pub free_judge_held :
    (t : Judges) (i : ℕ)
    → IsValid t
    → holds t i ≡ true
    → (holds (free_judge i t) i ≡ false)
      × (lent (free_judge i t) + 1 ≡ lent t)
      × ((free_judge i t).judges_num ≡ t.judges_num)
      × IsValid (free_judge i t)
unfolding free_judge
free_judge_held t i v h =
    let lt : i < t.judges_num = ground arith in
    let was_used : slot_is is_used t.judges_flag i ≡ true = ground arith in
    let within = slot_is-lt is_used t.judges_flag i was_used in
    let becomes_free = slot_is-set is_used t.judges_flag i JudgeState.available within in
    let one_less =
      count_slots-set is_used t.judges_num t.judges_flag i JudgeState.available lt within in
    rw h (
      ground (arith, becomes_free),
      ground (arith, one_less, was_used),
      refl,
      record { room = omega (arith, length-set t.judges_flag i JudgeState.available, v.room) },
    )

-- The judges as a table of slots.
abbrev pub judges : Lender
judges = record {
  Table = Judges;
  IsValid = IsValid;
  capacity = λ t. t.judges_num;
  lent = lent;
  holds = holds;
  take = lend_judge;
  give = free_judge;
  take_free = lend_judge_free;
  give_held = free_judge_held;
}

pub init_table-IsValid : (n : ℕ) → IsValid (init_table n) × (lent (init_table n) ≡ 0)
unfolding init_table
init_table-IsValid n = (
  record { room = omega (arith, length-replicate n JudgeState.available) },
  count_slots-replicate is_used n n JudgeState.available refl,
)

-- However the worker threads interleave, one that has passed the semaphore in get_judge gets a
-- judge that no other thread has: in every state that is reached from the table of `n` judges and a
-- semaphore of `n` units, the search finds an available one among them.
pub judge_found :
    (n : ℕ) (s : Shared judges)
    → Reach judges (init_table n) n s
    → 0 < s.granted
    → (i : ℕ) × ((lend_judge s.table).0 ≡ some i) × (holds s.table i ≡ false) × (i < n)
unfolding init_table
judge_found n s r h =
    let (v, none_lent) = init_table-IsValid n in
    let inv = Reach-Inv judges v none_lent refl r in
    let (i, found, free, held, more, kept, keeps) =
      lend_judge_free s.table inv.valid (omega (arith, inv.units, inv.whole)) in
    (i, found, free, ground (arith, inv.whole, held, kept))
