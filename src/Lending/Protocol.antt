-- ===== src/Lending/Protocol.antt =====
-- The threads that borrow, interleaved: `sem_wait`, the search under the mutex, the return under the
-- mutex, and `sem_post`, each as one step.
use npu_oj.Base.{ℕ, ◌+◌, ◌-◌, ◌<◌, ◌≡◌, refl, true, false, some, arith}
use npu_oj.Lending.{Lender}

module _ (l : Lender) where
  open l use {Table, IsValid, capacity, lent, holds, take, give, take_free, give_held}

  -- The table, the semaphore, the threads past `sem_wait` that have not looked yet, and those that
  -- have given back and have not posted yet.
  pub record Shared : Type 0 where
    pub table : Table
    pub sem : ℕ
    pub granted : ℕ
    pub posting : ℕ

  pub data Step (s : Shared) : Shared → Type 0 where
    wait : 0 < s.sem → Step s (record s { sem = s.sem - 1; granted = s.granted + 1 })
    look : 0 < s.granted → Step s (record s { table = (take s.table).1; granted = s.granted - 1 })
    give_back :
        (i : ℕ)
        → holds s.table i ≡ true
        → Step s (record s { table = give i s.table; posting = s.posting + 1 })
    post : 0 < s.posting → Step s (record s { sem = s.sem + 1; posting = s.posting - 1 })

  -- The states that the threads reach from a table and a semaphore of so many units.
  pub data Reach (t : Table) (units : ℕ) : Shared → Type 0 where
    start : Reach t units (record { table = t; sem = units; granted = 0; posting = 0 })
    later : {s u : Shared} → Reach t units s → Step s u → Reach t units u

  -- Every unit of the semaphore is free, granted, lent or about to be posted.
  pub record Inv (cap : ℕ) (s : Shared) : Type 0 where
    pub valid : IsValid s.table
    pub whole : capacity s.table ≡ cap
    pub units : s.sem + s.granted + lent s.table + s.posting ≡ cap

  Step-Inv : {cap : ℕ} {s u : Shared} → Step s u → Inv cap s → Inv cap u
  Step-Inv (wait h) v = record { valid = v.valid; whole = v.whole; units = omega (arith, v.units) }
  Step-Inv {s = s} (look h) v =
      let (i, found, free, held, more, cap_kept, keeps) =
        take_free s.table v.valid (omega (arith, v.units, v.whole)) in
      record {
        valid = keeps;
        whole = omega (arith, cap_kept, v.whole);
        units = omega (arith, more, v.units);
      }
  Step-Inv {s = s} (give_back i h) v =
      let (free, less, cap_kept, keeps) = give_held s.table i v.valid h in
      record {
        valid = keeps;
        whole = omega (arith, cap_kept, v.whole);
        units = omega (arith, less, v.units);
      }
  Step-Inv (post h) v = record { valid = v.valid; whole = v.whole; units = omega (arith, v.units) }

  pub Reach-Inv :
      {t : Table} {units : ℕ} {s : Shared}
      → IsValid t
      → lent t ≡ 0
      → units ≡ capacity t
      → Reach t units s
      → Inv (capacity t) s
  Reach-Inv v e u start = record { valid = v; whole = refl; units = omega (arith, e, u) }
  Reach-Inv v e u (later r st) = Step-Inv st (Reach-Inv v e u r)

  -- In every state that the threads reach from a semaphore with a unit for every slot, one that has passed `sem_wait` finds a slot that nobody
  -- else has: it gets an index that was not lent.
  pub look_finds :
      {t : Table} {units : ℕ} {s : Shared}
      → IsValid t
      → lent t ≡ 0
      → units ≡ capacity t
      → Reach t units s
      → 0 < s.granted
      → (i : ℕ) × ((take s.table).0 ≡ some i) × (holds s.table i ≡ false)
  look_finds {s = s} v e u r h =
      let inv = Reach-Inv v e u r in
      let (i, found, free, held, more, cap_kept, keeps) =
        take_free s.table inv.valid (omega (arith, inv.units, inv.whole)) in
      (i, found, free)
