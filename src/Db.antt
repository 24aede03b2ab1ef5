-- ===== src/Db.antt =====
-- src/db.cpp: the pool of database connections. The connections themselves are MySQL's; a pointer to
-- one is its index in the array.
pub mod Pool
pub mod Shared
pub mod Connect
use npu_oj.Base.{
  ℕ, zero, suc, ◌+◌, ◌-◌, ◌<◌, ◌≤◌, ◌≡◌, refl, Bool, true, false, ◌&&◌, Option, none, some, List,
  [], ◌∷◌, ltb, ◌==◌, if◌then◌else◌, replicate, set,
}
use npu_oj.Base.Int.{ℤ, pos, negsuc}
use npu_oj.Base.Text.{Text, codes}
use npu_oj.Base.Effect.{Outcome, ok, exits, faults, blocks, Prog, ◌>>=◌, ◌>>◌, pure, lift}
use npu_oj.Config.{Pcre, allocated, get_string}
use npu_oj.Config.Numbers.{get_long, get_ulong}
use npu_oj.Slots.{find_slot, slot_is}

-- enum DBConState
pub data ConState : Type 0 where
  init available used closed : ConState

abbrev pub is_init : ConState → Bool
is_init ConState.init = true
is_init _ = false

abbrev pub is_available : ConState → Bool
is_available ConState.available = true
is_available _ = false

abbrev pub is_used : ConState → Bool
is_used ConState.used = true
is_used _ = false

abbrev pub is_closed : ConState → Bool
is_closed ConState.closed = true
is_closed _ = false

-- MAX_CONNECTIONS
abbrev pub max_connections : ℕ
max_connections = 10

-- class DBConnMgr. `sem` is the value of the semaphore.
pub record Db : Type 0 where
  pub m_host : Text
  pub m_user : Text
  pub m_passwd : Text
  pub m_dbname : Text
  pub m_port : ℤ
  pub max_available : ℕ
  pub conn_bits : List ConState
  pub sem : ℕ

-- `MAX_AVAILABLE_CONNECTIONS`, from the configuration and not above MAX_CONNECTIONS.
unfoldable pub clamp_connections : ℕ → ℕ
clamp_connections n = if ltb max_connections n then max_connections else n

-- DBConnMgr::init
unfoldable pub init_db : {W : Type 0} → Pcre → Option Text → Prog W Db
unfolding clamp_connections
init_db re m_buffer = do
  host ← lift (get_string re m_buffer (codes "DB_HOST") allocated)
  user ← lift (get_string re m_buffer (codes "DB_USER") allocated)
  name ← lift (get_string re m_buffer (codes "DB_NAME") allocated)
  passwd ← lift (get_string re m_buffer (codes "DB_PASS") allocated)
  port ← lift (get_long re m_buffer (codes "DB_PORT"))
  most ← lift (get_ulong re m_buffer (codes "DB_MAX_CONNECTIONS"))
  pure (record {
    m_host = host;
    m_user = user;
    m_passwd = passwd;
    m_dbname = name;
    m_port = port;
    max_available = clamp_connections most;
    conn_bits = replicate max_connections ConState.init;
    sem = clamp_connections most;
  })

-- The first of two searches that finds something.
abbrev pub first_found : Option ℕ → Option ℕ → Option ℕ
first_found (some i) second = some i
first_found none second = second

abbrev pub lend : Db → Option ℕ → Option ℕ × Db
lend db none = (none, db)
lend db (some i) = (some i, record db { conn_bits = set db.conn_bits i ConState.used })

-- What get_available_connection does under the mutex: an open connection that is free, or else one
-- that was never opened, which it opens. It does not look at what connect_db returns, so that call
-- is left out. `none` is the null pointer.
unfoldable pub lend_connection : Db → Option ℕ × Db
lend_connection db = lend db (
    first_found (find_slot is_available db.max_available db.conn_bits)
      (find_slot is_init db.max_available db.conn_bits))

unfoldable pub get_available_connection : Prog Db (Option ℕ)
unfolding lend_connection
get_available_connection db =
    if ltb 0 db.sem then ok (lend_connection (record db { sem = db.sem - 1 })) else blocks

-- What release_connection does under the mutex.
unfoldable pub free_connection : Option ℕ → Db → Db
free_connection none db = db
free_connection (some i) db =
    if ltb i db.max_available && slot_is is_used db.conn_bits i
    then record db { conn_bits = set db.conn_bits i ConState.available }
    else db

unfoldable pub release_connection : Option ℕ → Db → Db
unfolding free_connection
release_connection con db = let db' = free_connection con db in record db' { sem = db'.sem + 1 }
