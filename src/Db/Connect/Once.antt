-- ===== src/Db/Connect/Once.antt =====
-- src/db.cpp: which connections are opened, and how often.
use npu_oj.Base.{
  ℕ, zero, suc, ◌<◌, ◌≡◌, ◌≢◌, refl, ap, inl, inr, Bool, false, Option, none, some, List, [], ◌∷◌,
  arith, set, ltb, ◌&&◌, Bool-cases,
}
use npu_oj.Slots.{find_slot, slot_is, find_slot-some}
use npu_oj.Db.{ConState, is_init, is_available, is_used, Db, free_connection}
use npu_oj.Db.Connect.{
  Mysql, PoolCall, gets, releases, connect_db, open_first, take_or_open, lend_opening, serve,
}

-- MySQL as the list of the connections that it was asked to open, the last one first; `answers` says
-- whether it did.
abbrev pub noting : (ℕ → List ℕ → Bool) → Mysql (List ℕ)
noting answers = record {
  real_connect = λ con host user passwd dbname port asked. (answers con asked, con ∷ asked);
}

abbrev pub AllNumbers : (ℕ → Type 0) → List ℕ → Type 0
AllNumbers P [] = Unit
AllNumbers P (i ∷ is) = P i × AllNumbers P is

abbrev pub AllDistinct : List ℕ → Type 0
AllDistinct [] = Unit
AllDistinct (i ∷ is) = AllNumbers (λ j. j ≢ i) is × AllDistinct is

AllNumbers-map :
    {P Q : ℕ → Type 0} (is : List ℕ) → ((i : ℕ) → P i → Q i) → AllNumbers P is → AllNumbers Q is
AllNumbers-map [] f h = tt
AllNumbers-map (i ∷ is) f (p, h) = (f i p, AllNumbers-map is f h)

module _ {A : Type 0} (p : A → Bool) (v : A) (out : p v ≡ false) where
  -- A slot that is not in a state stays out of it when some slot is given another.
  slot_is_out : (xs : List A) (i j : ℕ) → slot_is p xs j ≡ false → slot_is p (set xs i v) j ≡ false
  slot_is_out [] i j h = h
  slot_is_out (x ∷ xs) zero zero h = out
  slot_is_out (x ∷ xs) zero (suc j) h = h
  slot_is_out (x ∷ xs) (suc i) zero h = h
  slot_is_out (x ∷ xs) (suc i) (suc j) h = slot_is_out xs i j h

  slot_is_out_self : (xs : List A) (i : ℕ) → slot_is p (set xs i v) i ≡ false
  slot_is_out_self [] i = refl
  slot_is_out_self (x ∷ xs) zero = out
  slot_is_out_self (x ∷ xs) (suc i) = slot_is_out_self xs i

module _ (most : ℕ) where
  -- Slot `i` was taken, and is one of the first `most`.
  Taken : Db → ℕ → Type 0
  Taken db i = (slot_is is_init db.conn_bits i ≡ false) × (i < most)

  record Inv (db : Db) (asked : List ℕ) : Type 0 where
    room : db.max_available ≡ most
    distinct : AllDistinct asked
    known : AllNumbers (Taken db) asked

  -- A slot changes to a state that is not `init`.
  set-Inv :
      (db : Db) (asked : List ℕ) (i : ℕ) (v : ConState)
      → is_init v ≡ false
      → Inv db asked
      → Inv (record db { conn_bits = set db.conn_bits i v }) asked
  unfolding Taken
  set-Inv db asked i v out inv = record {
    room = inv.room;
    distinct = inv.distinct;
    known =
        AllNumbers-map asked
          (λ j (h : Taken db j). (slot_is_out is_init v out db.conn_bits i j h.0, h.1)) inv.known;
  }

  free-Inv :
      (con : Option ℕ) (db : Db) (asked : List ℕ)
      → Inv db asked
      → Inv (free_connection con db) asked
  unfolding free_connection
  free-Inv none db asked inv = inv
  free-Inv (some i) db asked inv =
      elim (Bool-cases (ltb i db.max_available && slot_is is_used db.conn_bits i)) [
        | inl held ↦ rw held (set-Inv db asked i ConState.available refl inv)
        | inr not_held ↦ rw not_held inv
      ]

module _ (most : ℕ) (answers : ℕ → List ℕ → Bool) where
  -- What a section under the mutex leaves: the pool, and what was asked for.
  After : (Option ℕ × Db) × List ℕ → Type 0
  After ((found, db), asked) = Inv most db asked

  open-Inv :
      (db : Db) (asked : List ℕ) (i : Option ℕ)
      → find_slot is_init db.max_available db.conn_bits ≡ i
      → Inv most db asked
      → After (open_first (noting answers) db i asked)
  unfolding open_first connect_db After Taken
  open-Inv db asked none e inv = inv
  open-Inv db asked (some i) e inv =
      let (lt, within, closed) = find_slot-some is_init db.max_available db.conn_bits i e in
      let still = set-Inv most db asked i ConState.used refl inv in
      record {
        room = inv.room;
        distinct = (
          AllNumbers-map asked
              (λ j (h : Taken most db j) (same : j ≡ i).
                cc (h.0, closed, ap (slot_is is_init db.conn_bits) same))
              inv.known,
          inv.distinct,
        );
        known = (
          (slot_is_out_self is_init ConState.used refl db.conn_bits i, omega (arith, lt, inv.room)),
          still.known,
        );
      }

  take-Inv :
      (db : Db) (asked : List ℕ) (i : Option ℕ)
      → Inv most db asked
      → After (take_or_open (noting answers) db i asked)
  unfolding take_or_open After
  take-Inv db asked none inv = open-Inv db asked _ refl inv
  take-Inv db asked (some i) inv = set-Inv most db asked i ConState.used refl inv

  serve-Inv :
      (calls : List PoolCall) (db : Db) (asked : List ℕ)
      → Inv most db asked
      → Inv most (serve (noting answers) calls db asked).0 (serve (noting answers) calls db asked).1
  unfolding serve lend_opening After
  serve-Inv [] db asked inv = inv
  serve-Inv (gets ∷ calls) db asked inv =
      let found = find_slot is_available db.max_available db.conn_bits in
      let (got, asked') = take_or_open (noting answers) db found asked in
      serve-Inv calls got.1 asked' (take-Inv db asked found inv)
  serve-Inv (releases con ∷ calls) db asked inv =
      serve-Inv calls (free_connection con db) asked (free-Inv most con db asked inv)

-- Whatever mysql_real_connect answers, and however get_available_connection and release_connection
-- are called: mysql_real_connect is called for no connection twice, and only for one of the first
-- max_available. So a connection that could not be opened is never tried again.
pub connects_once :
    (answers : ℕ → List ℕ → Bool) (calls : List PoolCall) (db : Db)
    → AllDistinct (serve (noting answers) calls db []).1
      × AllNumbers (λ i. i < db.max_available) (serve (noting answers) calls db []).1
unfolding Taken
connects_once answers calls db =
    let most = db.max_available in
    let end = serve (noting answers) calls db [] in
    let inv =
      serve-Inv most answers calls db [] (record { room = refl; distinct = tt; known = tt }) in
    (inv.distinct, AllNumbers-map end.1 (λ i (h : Taken most end.0 i). h.1) inv.known)
