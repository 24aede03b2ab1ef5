-- ===== src/Db/Pool.antt =====
-- src/db.cpp: the pool of connections keeps what the lending protocol asks of a table.
use npu_oj.Base.{
  ℕ, zero, suc, ◌+◌, ◌<◌, ◌≤◌, ◌≡◌, refl, inl, inr, Bool, true, false, ◌&&◌, some, List, [], ◌∷◌,
  arith, ltb, length, length-set, Option-cases,
}
use npu_oj.Slots.{
  find_slot, count_slots, slot_is, find_slot-some, find_slot-none, count_slots-set, slot_is-set,
  slot_is-lt, slot_is_other,
}
use npu_oj.Lending.{Lender}
use npu_oj.Db.{
  ConState, is_init, is_available, is_used, is_closed, Db, lend, first_found, lend_connection,
  free_connection,
}

-- The used slots among those that may be lent.
abbrev pub lent : Db → ℕ
lent db = count_slots is_used db.max_available db.conn_bits

abbrev pub holds : Db → ℕ → Bool
holds db i = ltb i db.max_available && slot_is is_used db.conn_bits i

-- There is a slot for every unit of the semaphore, and none is closed.
pub record IsValid (db : Db) : Type 0 where
  pub room : db.max_available ≤ length db.conn_bits
  pub none_closed : count_slots is_closed db.max_available db.conn_bits ≡ 0

-- Every slot is in one state.
count_states :
    (n : ℕ) (bits : List ConState)
    → n ≤ length bits
    → count_slots is_init n bits
        + count_slots is_available n bits
        + count_slots is_used n bits
        + count_slots is_closed n bits
      ≡ n
unfolding count_slots
count_states zero bits h = refl
count_states (suc n) [] h = elim h [ ]
count_states (suc n) (ConState.init ∷ bits) h = omega (arith, count_states n bits)
count_states (suc n) (ConState.available ∷ bits) h = omega (arith, count_states n bits)
count_states (suc n) (ConState.used ∷ bits) h = omega (arith, count_states n bits)
count_states (suc n) (ConState.closed ∷ bits) h = omega (arith, count_states n bits)

-- A slot `i` that was found in a state that is neither used nor closed is lent.
record Found (db : Db) (i : ℕ) : Type 0 where
  lt : i < db.max_available
  within : i < length db.conn_bits
  unused : slot_is is_used db.conn_bits i ≡ false
  open_slot : slot_is is_closed db.conn_bits i ≡ false

find-Found :
    (p : ConState → Bool) (db : Db) (i : ℕ)
    → ((a : ConState) → p a ≡ true → is_used a ≡ false)
    → ((a : ConState) → p a ≡ true → is_closed a ≡ false)
    → find_slot p db.max_available db.conn_bits ≡ some i
    → Found db i
find-Found p db i u c e =
    let (lt, within, hit) = find_slot-some p db.max_available db.conn_bits i e in
    record {
      lt = lt;
      within = within;
      unused = slot_is_other p is_used db.conn_bits i u hit;
      open_slot = slot_is_other p is_closed db.conn_bits i c hit;
    }

available-unused : (a : ConState) → is_available a ≡ true → is_used a ≡ false
available-unused a h = ground arith

available-open : (a : ConState) → is_available a ≡ true → is_closed a ≡ false
available-open a h = ground arith

init-unused : (a : ConState) → is_init a ≡ true → is_used a ≡ false
init-unused a h = ground arith

init-open : (a : ConState) → is_init a ≡ true → is_closed a ≡ false
init-open a h = ground arith

used-open : (a : ConState) → is_used a ≡ true → is_closed a ≡ false
used-open a h = ground arith

-- The search succeeds while not every slot is used.
search-Found :
    (db : Db)
    → IsValid db
    → lent db < db.max_available
    → (i : ℕ) × (first_found
          (find_slot is_available db.max_available db.conn_bits)
          (find_slot is_init db.max_available db.conn_bits)
        ≡ some i)
      × Found db i
search-Found db v h = elim (Option-cases (find_slot is_available db.max_available db.conn_bits)) [
  | inr (i, e) ↦ (i, rw e, find-Found is_available db i available-unused available-open e)
  | inl e ↦ elim (Option-cases (find_slot is_init db.max_available db.conn_bits)) [
    | inr (i, k) ↦ (i, rw e k, find-Found is_init db i init-unused init-open k)
    | inl k ↦ absurd (
        omega (
          arith,
          count_states db.max_available db.conn_bits v.room,
          find_slot-none is_available db.max_available db.conn_bits e,
          find_slot-none is_init db.max_available db.conn_bits k,
          v.none_closed,
        ))
  ]
]

module _ (db : Db) (i : ℕ) (v : IsValid db) where
  -- Slot `i` becomes used.
  lend-Found :
      Found db i
      → (holds db i ≡ false)
        × (holds (lend db (some i)).1 i ≡ true)
        × (lent (lend db (some i)).1 ≡ lent db + 1)
        × IsValid (lend db (some i)).1
  lend-Found f =
      let becomes_used = slot_is-set is_used db.conn_bits i ConState.used f.within in
      let one_more =
        count_slots-set is_used db.max_available db.conn_bits i ConState.used f.lt f.within in
      let closed_kept =
        count_slots-set is_closed db.max_available db.conn_bits i ConState.used f.lt f.within in
      (
        ground (arith, f.unused),
        ground (arith, becomes_used, f.lt),
        ground (arith, one_more, f.unused),
        record {
          room = omega (arith, length-set db.conn_bits i ConState.used, v.room);
          none_closed = ground (arith, closed_kept, f.open_slot, v.none_closed);
        },
      )

  -- Slot `i` becomes available.
  pub free_connection_held :
      holds db i ≡ true
      → (holds (free_connection (some i) db) i ≡ false)
        × (lent (free_connection (some i) db) + 1 ≡ lent db)
        × ((free_connection (some i) db).max_available ≡ db.max_available)
        × IsValid (free_connection (some i) db)
  unfolding free_connection
  free_connection_held h =
      let lt : i < db.max_available = ground arith in
      let was_used : slot_is is_used db.conn_bits i ≡ true = ground arith in
      let within = slot_is-lt is_used db.conn_bits i was_used in
      let not_closed = slot_is_other is_used is_closed db.conn_bits i used-open was_used in
      let becomes_free = slot_is-set is_used db.conn_bits i ConState.available within in
      let one_less =
        count_slots-set is_used db.max_available db.conn_bits i ConState.available lt within in
      let closed_kept =
        count_slots-set is_closed db.max_available db.conn_bits i ConState.available lt within in
      rw h (
        ground (arith, becomes_free),
        ground (arith, one_less, was_used),
        refl,
        record {
          room = omega (arith, length-set db.conn_bits i ConState.available, v.room);
          none_closed = ground (arith, closed_kept, not_closed, v.none_closed);
        },
      )

-- While not every slot is used, a connection is found.
pub lend_connection_free :
    (db : Db)
    → IsValid db
    → lent db < db.max_available
    → (i : ℕ) × ((lend_connection db).0 ≡ some i)
      × (holds db i ≡ false)
      × (holds (lend_connection db).1 i ≡ true)
      × (lent (lend_connection db).1 ≡ lent db + 1)
      × ((lend_connection db).1.max_available ≡ db.max_available)
      × IsValid (lend_connection db).1
unfolding lend_connection
lend_connection_free db v h =
    let (i, e, f) = search-Found db v h in
    let (free, held, more, keeps) = lend-Found db i v f in
    rw e (i, refl, free, held, more, refl, keeps)

-- The pool as a table of slots.
abbrev pub connections : Lender
connections = record {
  Table = Db;
  IsValid = IsValid;
  capacity = λ db. db.max_available;
  lent = lent;
  holds = holds;
  take = lend_connection;
  give = λ i. free_connection (some i);
  take_free = lend_connection_free;
  give_held = λ db i v. free_connection_held db i v;
}
