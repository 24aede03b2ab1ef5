-- ===== src/Lending.antt =====
-- How src/db.cpp lends connections and src/judge.cpp lends judges: a semaphore counts what is free,
-- and under a mutex a slot is looked for, or given back.
pub mod Protocol
use npu_oj.Base.{ℕ, ◌+◌, ◌<◌, ◌≤◌, ◌≡◌, Bool, true, false, Option, some}

-- What a table of slots promises to the protocol.
pub record Lender : Type 1 where
  pub Table : Type 0
  pub IsValid : Table → Type 0
  pub capacity : Table → ℕ
  pub lent : Table → ℕ
  pub holds : Table → ℕ → Bool
  pub take : Table → Option ℕ × Table
  pub give : ℕ → Table → Table
  -- While not all is lent, a free slot is found and nothing else changes hands.
  pub take_free :
      (t : Table)
      → IsValid t
      → lent t < capacity t
      → (i : ℕ) × ((take t).0 ≡ some i)
        × (holds t i ≡ false)
        × (holds (take t).1 i ≡ true)
        × (lent (take t).1 ≡ lent t + 1)
        × (capacity (take t).1 ≡ capacity t)
        × IsValid (take t).1
  -- A lent slot that is given back is free.
  pub give_held :
      (t : Table) (i : ℕ)
      → IsValid t
      → holds t i ≡ true
      → (holds (give i t) i ≡ false)
        × (lent (give i t) + 1 ≡ lent t)
        × (capacity (give i t) ≡ capacity t)
        × IsValid (give i t)
