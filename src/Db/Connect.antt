-- ===== src/Db/Connect.antt =====
-- src/db.cpp: get_available_connection with the connection that it opens, and connect_db.
pub mod Once
use npu_oj.Base.{ℕ, ◌≡◌, refl, inl, inr, Bool, Option, none, some, List, [], ◌∷◌, set, Option-cases}
use npu_oj.Base.Int.{ℤ}
use npu_oj.Base.Text.{Text}
use npu_oj.Slots.{find_slot}
use npu_oj.Db.{
  ConState, is_init, is_available, Db, first_found, lend, lend_connection, free_connection,
}

-- mysql_init and mysql_real_connect on connection `con`, and whether the latter gave one.
pub record Mysql (W : Type 0) : Type 0 where
  pub real_connect : (con : ℕ) (host user passwd dbname : Text) (port : ℤ) → W → Bool × W

-- The sections under the mutex that threads run one after the other.
pub data PoolCall : Type 0 where
  gets : PoolCall
  releases : Option ℕ → PoolCall

module _ {W : Type 0} (my : Mysql W) where
  -- DBConnMgr::connect_db; a failure is only logged.
  unfoldable pub connect_db : Db → ℕ → W → Bool × W
  connect_db db i w = my.real_connect i db.m_host db.m_user db.m_passwd db.m_dbname db.m_port w

  -- The second loop.
  open_first : Db → Option ℕ → W → (Option ℕ × Db) × W
  unfolding connect_db
  open_first db none w = ((none, db), w)
  open_first db (some i) w = (lend db (some i), (connect_db db i w).1)

  take_or_open : Db → Option ℕ → W → (Option ℕ × Db) × W
  unfolding open_first
  take_or_open db (some i) w = (lend db (some i), w)
  take_or_open db none w = open_first db (find_slot is_init db.max_available db.conn_bits) w

  -- What get_available_connection does under the mutex.
  unfoldable pub lend_opening : Db → W → (Option ℕ × Db) × W
  unfolding take_or_open
  lend_opening db w = take_or_open db (find_slot is_available db.max_available db.conn_bits) w

  unfoldable pub serve : List PoolCall → Db → W → Db × W
  unfolding lend_opening
  serve [] db w = (db, w)
  serve (gets ∷ calls) db w = let (found, w') = lend_opening db w in serve calls found.1 w'
  serve (releases con ∷ calls) db w = serve calls (free_connection con db) w

  -- What is lent does not depend on whether the connection could be opened.
  pub lend_opening-lend : (db : Db) (w : W) → (lend_opening db w).0 ≡ lend_connection db
  unfolding lend_opening lend_connection
  lend_opening-lend db w = by_first (find_slot is_available db.max_available db.conn_bits)
    where
      by_second : (i : Option ℕ) → (open_first db i w).0 ≡ lend db (first_found none i)
      by_second none = refl
      by_second (some i) = refl

      by_first :
          (i : Option ℕ)
          → (take_or_open db i w).0
            ≡ lend db (first_found i (find_slot is_init db.max_available db.conn_bits))
      by_first (some i) = refl
      by_first none = by_second (find_slot is_init db.max_available db.conn_bits)
