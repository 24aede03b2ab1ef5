-- ===== src/Examples/Sharing.antt =====
-- Concrete states of the threads that share judges, connections and problems.
use npu_oj.Base.{ℕ, ◌<◌, ◌≤◌, ◌≡◌, refl, true, false, some, [], arith}
use npu_oj.Base.Int.{pos}
use npu_oj.Base.Text.{codes}
use npu_oj.Base.Effect.{ok}
use npu_oj.DataItem.{Problem, new_problem}
use npu_oj.Lending.Protocol.{Shared, wait, Reach, start, later}
use npu_oj.Judges.{init_table, lend_judge}
use npu_oj.Judges.Pool.{judges, judge_found}
use npu_oj.Judges.Pool as JudgePool
use npu_oj.Config.{Pcre, regex_get_value, store_value, get_string}
use npu_oj.Config.Numbers.{get_long, get_ulong, strtol, strtoul}
use npu_oj.Slots.{find_slot}
use npu_oj.Db.{get_available_connection, Db, max_connections, init_db, lend_connection}
use npu_oj.Db.Pool.{connections}
use npu_oj.Db.Pool as ConnectionPool
use npu_oj.Db.Shared.{connection_found}
use npu_oj.Manager.{Machine, get_testcase_dir}
use npu_oj.Manager.Problems.{get_problem, find_problem, store_problem, fetch_testcase_from_ftp}
use npu_oj.Manager.Problems.Cache.{get_problem_again}
use npu_oj.Manager.Problems.Failing.{get_problem_no_tests}
use npu_oj.Examples.World.{quiet, no_db, no_junk, fresh, zeros, value_of, is_ok, value_of-eq}

-- One of two workers has passed the semaphore.
abbrev one_granted : Shared judges
one_granted = record { table = init_table 2; sem = 1; granted = 1; posting = 0 }

one_granted-Reach : Reach judges (init_table 2) 2 one_granted
unfolding init_table
one_granted-Reach = later start (wait (omega arith))

judge_found_example :
    (i : ℕ) × ((lend_judge one_granted.table).0 ≡ some i)
    × (JudgePool.holds one_granted.table i ≡ false)
    × (i < 2)
judge_found_example = judge_found 2 one_granted one_granted-Reach (omega arith)

abbrev only_three : Pcre
only_three = record { compiles = λ pattern. true; group = λ pattern subject. some (codes "3") }

abbrev no_pool : Db
no_pool = record {
  m_host = [];
  m_user = [];
  m_passwd = [];
  m_dbname = [];
  m_port = pos 0;
  max_available = 0;
  conn_bits = [];
  sem = 0;
}

abbrev made : Db × Unit {0}
made = value_of (no_pool, tt) (init_db only_three (some []) tt)

made_ok : is_ok (init_db only_three (some []) tt) ≡ true
unfolding init_db get_string get_long get_ulong regex_get_value store_value strtol strtoul
made_ok = refl

abbrev pool_of_three : Shared connections
pool_of_three = record { table = made.0; sem = 2; granted = 1; posting = 0 }

pool_of_three-Reach : Reach connections made.0 made.0.sem pool_of_three
unfolding init_db get_string get_long get_ulong regex_get_value store_value strtol strtoul
pool_of_three-Reach = later start (wait (omega arith))

connection_found_example :
    (i : ℕ) × ((lend_connection pool_of_three.table).0 ≡ some i)
    × (ConnectionPool.holds pool_of_three.table i ≡ false)
    × (i < made.0.max_available)
    × (made.0.max_available ≤ max_connections)
connection_found_example =
    connection_found only_three (some []) tt tt made.0 pool_of_three
      (value_of-eq (no_pool, tt) (init_db only_three (some []) tt) made_ok) pool_of_three-Reach
      (omega arith)

abbrev no_problem : Problem × Machine (Unit {0})
no_problem = (new_problem (pos 0) 0 0 zeros, fresh)

abbrev first_time : Problem × Machine (Unit {0})
first_time = value_of no_problem (get_problem quiet no_junk (pos 1) fresh)

first_time_ok : is_ok (get_problem quiet no_junk (pos 1) fresh) ≡ true
unfolding get_problem find_problem store_problem fetch_testcase_from_ftp get_testcase_dir
    get_available_connection find_slot
first_time_ok = refl

get_problem_again_example :
    (first_time.1.mgr.lock_held ≡ false)
    × (get_problem quiet no_junk (pos 1) first_time.1 ≡ ok (first_time.0, first_time.1))
get_problem_again_example =
    get_problem_again quiet (pos 1) no_junk no_junk fresh first_time.1 first_time.0
      (value_of-eq no_problem (get_problem quiet no_junk (pos 1) fresh) first_time_ok)

abbrev while_down : Problem × Machine (Unit {0})
while_down = value_of no_problem (get_problem no_db no_junk (pos 1) fresh)

while_down_ok : is_ok (get_problem no_db no_junk (pos 1) fresh) ≡ true
unfolding get_problem find_problem store_problem fetch_testcase_from_ftp get_testcase_dir
    get_available_connection find_slot
while_down_ok = refl

get_problem_no_tests_example :
    (while_down.0.prob_testcases ≡ [])
    × (get_problem quiet no_junk (pos 1) while_down.1 ≡ ok (while_down.0, while_down.1))
unfolding find_problem
get_problem_no_tests_example =
    get_problem_no_tests no_db quiet (pos 1) no_junk no_junk fresh while_down.1 while_down.0
      (λ w. refl) refl
      (value_of-eq no_problem (get_problem no_db no_junk (pos 1) fresh) while_down_ok)
