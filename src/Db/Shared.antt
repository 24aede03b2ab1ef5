-- ===== src/Db/Shared.antt =====
-- src/db.cpp: the threads of the program share the pool of connections.
use npu_oj.Base.{ℕ, ◌<◌, ◌≤◌, ◌≡◌, refl, false, Option, some, arith, replicate}
use npu_oj.Base.Text.{Text, codes}
use npu_oj.Base.Effect.{ok, lift, >>=-eq-ok}
use npu_oj.Config.{Pcre, allocated, get_string}
use npu_oj.Config.Numbers.{get_long, get_ulong}
use npu_oj.Slots.{count_slots-replicate}
use npu_oj.Lending.Protocol.{Shared, Reach, Reach-Inv}
use npu_oj.Db.{
  ConState, is_used, is_closed, Db, max_connections, clamp_connections, init_db, lend_connection,
}
use npu_oj.Db.Pool.{IsValid, lent, holds, connections, lend_connection_free}

-- A pool that init has just made: no connection is open, and none is lent.
pub record IsFresh (db : Db) : Type 0 where
  pub bits : db.conn_bits ≡ replicate max_connections ConState.init
  pub units : db.sem ≡ db.max_available
  pub most : db.max_available ≤ max_connections

clamp_connections-le : (n : ℕ) → clamp_connections n ≤ max_connections
unfolding clamp_connections
clamp_connections-le n = ground arith

pub init_db-IsFresh :
    {W : Type 0} (re : Pcre) (m_buffer : Option Text) (w w' : W) (db : Db)
    → init_db re m_buffer w ≡ ok (db, w')
    → IsFresh db
unfolding init_db
init_db-IsFresh re m_buffer w w' db h =
    let (host, w1, e1, h1) =
      >>=-eq-ok (lift (get_string re m_buffer (codes "DB_HOST") allocated)) _ w h in
    let (user, w2, e2, h2) =
      >>=-eq-ok (lift (get_string re m_buffer (codes "DB_USER") allocated)) _ w1 h1 in
    let (name, w3, e3, h3) =
      >>=-eq-ok (lift (get_string re m_buffer (codes "DB_NAME") allocated)) _ w2 h2 in
    let (pass, w4, e4, h4) =
      >>=-eq-ok (lift (get_string re m_buffer (codes "DB_PASS") allocated)) _ w3 h3 in
    let (port, w5, e5, h5) = >>=-eq-ok (lift (get_long re m_buffer (codes "DB_PORT"))) _ w4 h4 in
    let (most, w6, e6, h6) =
      >>=-eq-ok (lift (get_ulong re m_buffer (codes "DB_MAX_CONNECTIONS"))) _ w5 h5 in
    record {
      bits = ground arith;
      units = ground arith;
      most = ground (arith, clamp_connections-le most);
    }

fresh-IsValid : (db : Db) → IsFresh db → IsValid db × (lent db ≡ 0)
fresh-IsValid db f = (
  record {
    room = rw f.bits f.most;
    none_closed =
        rw f.bits
          (count_slots-replicate is_closed db.max_available max_connections ConState.init refl);
  },
  rw f.bits (count_slots-replicate is_used db.max_available max_connections ConState.init refl),
)

-- However the threads that use the database interleave, one that has passed the semaphore gets a
-- connection: in every state that is reached from the pool and the semaphore that init has made, the
-- search finds a slot, so the null pointer is never returned, the slot is one of the first max_available of the
-- ten, and no other thread has it.
pub connection_found :
    {W : Type 0} (re : Pcre) (m_buffer : Option Text) (w w' : W) (db : Db) (s : Shared connections)
    → init_db re m_buffer w ≡ ok (db, w')
    → Reach connections db db.sem s
    → 0 < s.granted
    → (i : ℕ) × ((lend_connection s.table).0 ≡ some i)
      × (holds s.table i ≡ false)
      × (i < db.max_available)
      × (db.max_available ≤ max_connections)
connection_found re m_buffer w w' db s made r h =
    let f = init_db-IsFresh re m_buffer w w' db made in
    let (v, none_lent) = fresh-IsValid db f in
    let inv = Reach-Inv connections v none_lent f.units r in
    let (i, found, free, held, more, kept, keeps) =
      lend_connection_free s.table inv.valid (omega (arith, inv.units, inv.whole)) in
    (i, found, free, ground (arith, inv.whole, held, kept), f.most)
