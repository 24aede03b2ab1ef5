-- ===== src/Manager/Problems.antt =====
-- src/judge.cpp: problems come from the database and their test cases from the file server.
pub mod Fixing
pub mod Cache
pub mod Core
pub mod Failing
pub mod Seed
use npu_oj.Base.{
  ℕ, zero, suc, ◌+◌, ◌-◌, ◌≡◌, refl, Bool, true, false, not, ◌&&◌, Option, none, some, List, [],
  ◌∷◌, ◌++◌, ◌^◌, ltb, if◌then◌else◌,
}
use npu_oj.Base.Int.{ℤ, pos, negsuc, eq_ℤ}
use npu_oj.Base.Text.{Text, codes, snprintf, print_long}
use npu_oj.Base.Effect.{
  Outcome, ok, exits, faults, blocks, Prog, ◌>>=◌, ◌>>◌, pure, gets, modify, fault,
}
use npu_oj.Common.{NojState, buffer_size}
use npu_oj.Units.Time.{set_millisecond}
use npu_oj.Units.Memory.{set_byte}
use npu_oj.DataItem.{
  Ident, ResourceLimit, new_limit, assign_limit, TestCase, new_testcase, Problem, new_problem,
  copy_problem, add_testcase,
}
use npu_oj.Platform.{Os, QueryResult, query_failed, no_result, rows}
use npu_oj.Config.Numbers.{strtoul}
use npu_oj.Network.{Network, fetch_file}
use npu_oj.Db.{Db, get_available_connection, release_connection}
use npu_oj.Manager.{Manager, Machine, get_testcase_dir, c_str}

-- What uninitialised members hold.
pub record Junk : Type 0 where
  pub id : Ident
  pub uid : ℕ
  pub gid : ℕ
  pub calls : ℕ → ℤ
  pub special : ℤ

-- std::map<Problem::ID, Problem>
unfoldable pub find_problem : Ident → List (Ident × Problem) → Option Problem
find_problem id [] = none
find_problem id ((k, p) ∷ m) = if eq_ℤ k id then some p else find_problem id m

unfoldable pub store_problem : Ident → Problem → List (Ident × Problem) → List (Ident × Problem)
store_problem id p [] = (id, p) ∷ []
store_problem id p ((k, q) ∷ m) = if eq_ℤ k id then (k, p) ∷ m else (k, q) ∷ store_problem id p m

-- An unsigned long as a long of 32 bits.
abbrev to_long : ℕ → ℤ
to_long n = if ltb n (2 ^ 31) then pos n else negsuc (2 ^ 32 - 1 - n)

-- Column `i` of a row, as a pointer.
abbrev pub column : ℕ → List (Option Text) → Option Text
column i [] = none
column zero (c ∷ cs) = c
column (suc i) (c ∷ cs) = column i cs

module _ {W : Type 0} where
  with_db : {A : Type 0} → Machine W → Outcome (A × Db) → Outcome (A × Machine W)
  with_db m (ok (a, db')) = ok (a, record m { db = db' })
  with_db m (exits code) = exits code
  with_db m faults = faults
  with_db m blocks = blocks

  unfoldable pub on_db : {A : Type 0} → Prog Db A → Prog (Machine W) A
  unfolding with_db
  on_db f m = with_db m (f m.db)

  unfoldable pub not_null : {A : Type 0} → Option A → Prog (Machine W) A
  not_null none m = faults
  not_null (some a) m = ok (a, m)

  set_lock : Bool → Prog (Machine W) (Unit {0})
  set_lock held m = ok (tt, record m { mgr = record m.mgr { lock_held = held } })

  -- pthread_mutex_lock: a lock that is held is waited for.
  lock : Prog (Machine W) (Unit {0})
  unfolding set_lock
  lock m = if m.mgr.lock_held then blocks else set_lock true m

  testcase_dir : Prog (Machine W) (Option Text)
  testcase_dir m = let (dir, mgr') = get_testcase_dir m.mgr in ok (dir, record m { mgr = mgr' })

module _ {W : Type 0} (os : Os W) where
  unfoldable pub run_query : Text → Prog (Machine W) QueryResult
  run_query sql m = let (res, w) = os.query sql m.world in ok (res, record m { world = w })

  unfoldable pub fetch : Text → Text → Prog (Machine W) NojState
  fetch remote local m =
      let (stat, w) = fetch_file os m.net remote local m.world in ok (stat, record m { world = w })

  -- The two files of a test case. Only what came of the second is returned.
  unfoldable pub fetch_testcase_from_ftp : TestCase → Prog (Machine W) (NojState × TestCase)
  unfolding set_lock testcase_dir fetch
  fetch_testcase_from_ftp tc = do
    held ← gets (λ (m : Machine W). m.mgr.lock_held)
    set_lock true
    dir ← testcase_dir
    let input =
        snprintf buffer_size (c_str dir ++ (codes "/" ++ (print_long tc.tc_id ++ codes ".in")))
    ignored ← fetch tc.tc_remote_input_file input
    dir' ← testcase_dir
    let output =
        snprintf buffer_size (c_str dir' ++ (codes "/" ++ (print_long tc.tc_id ++ codes ".out")))
    stat ← fetch tc.tc_remote_output_file output
    set_lock held
    pure (stat, record tc { tc_input_file = input; tc_output_file = output })

  -- The loop over the rows of test cases; a null column ends in undefined behaviour.
  add_rows : Junk → Ident → List (List (Option Text)) → Problem → Prog (Machine W) Problem
  unfolding not_null
  add_rows junk prob_id [] prob = pure prob
  add_rows junk prob_id (row ∷ rest) prob = do
    id ← not_null (column 0 row)
    remote_input ← not_null (column 1 row)
    remote_output ← not_null (column 2 row)
    (stat, tc) ←
        fetch_testcase_from_ftp
          (record (new_testcase (to_long (strtoul id).num) prob_id junk.special) {
            tc_remote_input_file = remote_input;
            tc_remote_output_file = remote_output;
          })
    add_rows junk prob_id rest (add_testcase tc prob)

  limits_sql : Ident → Text
  limits_sql prob_id = snprintf buffer_size (
      codes "SELECT pbm_time_limit, pbm_mem_limit FROM Problem WHERE pbm_id = "
      ++ print_long prob_id)

  unfoldable pub testcases_sql : Ident → Text
  testcases_sql prob_id = snprintf buffer_size (
      codes "SELECT tc_id, tc_input, tc_output FROM TestCase WHERE Problem_pbm_id = "
      ++ print_long prob_id)

  -- The row of limits: `row[0]` is read of a row that may be null.
  read_limits : Junk → Ident → List (List (Option Text)) → Problem → Prog (Machine W) Problem
  unfolding not_null
  read_limits junk prob_id [] prob = fault
  read_limits junk prob_id (row ∷ rest) prob = do
    time ← not_null (column 0 row)
    memory ← not_null (column 1 row)
    let rl = new_limit junk.uid junk.gid junk.calls
    pure (record prob {
      prob_id = prob_id;
      prob_rsc_lim = assign_limit prob.prob_rsc_lim (record rl {
        single_time_limit = set_millisecond (strtoul time).num rl.single_time_limit;
        memory_limit = set_byte (strtoul memory).num rl.memory_limit;
      });
    })

  pub with_limits : Junk → Ident → QueryResult → Problem → Prog (Machine W) Problem
  unfolding read_limits
  with_limits junk prob_id query_failed prob = pure prob
  with_limits junk prob_id no_result prob = pure prob
  with_limits junk prob_id (rows rs) prob = read_limits junk prob_id rs prob

  store : Ident → Problem → Prog (Machine W) (Unit {0})
  store prob_id prob m = ok (
    tt,
    record m { mgr = record m.mgr { prob_lists = store_problem prob_id prob m.mgr.prob_lists } },
  )

  -- The problem is stored only when the second query has a result.
  with_testcases : Junk → Ident → QueryResult → Problem → Prog (Machine W) (Unit {0})
  unfolding add_rows store
  with_testcases junk prob_id query_failed prob = pure tt
  with_testcases junk prob_id no_result prob = pure tt
  with_testcases junk prob_id (rows rs) prob = do
    prob' ← add_rows junk prob_id rs prob
    store prob_id prob'

  unfoldable pub fetch_problem_from_db : Junk → Ident → Prog (Machine W) NojState
  unfolding on_db not_null run_query with_limits with_testcases limits_sql testcases_sql
  fetch_problem_from_db junk prob_id = do
    con ← on_db get_available_connection
    link ← not_null con
    limits ← run_query (limits_sql prob_id)
    prob ← with_limits junk prob_id limits (new_problem junk.id junk.uid junk.gid junk.calls)
    testcases ← run_query (testcases_sql prob_id)
    with_testcases junk prob_id testcases prob
    on_db (λ db. ok (tt, release_connection con db))
    pure NojState.normal

  -- `jm_prob_lists[prob_id]` makes a problem of zeros where there is none.
  abbrev zero_problem : Problem
  zero_problem = new_problem (pos 0) 0 0 (λ i. pos 0)

  index_problem : Ident → Prog (Machine W) Problem
  index_problem prob_id m = elim (find_problem prob_id m.mgr.prob_lists) [
    | some p ↦ ok (copy_problem p, m)
    | none ↦ ok (
      copy_problem zero_problem,
      record m {
        mgr = record m.mgr { prob_lists = store_problem prob_id zero_problem m.mgr.prob_lists };
      },
    )
  ]

  -- The database is asked only for a problem that is not in the map.
  fetch_if_missing : Junk → Ident → Option Problem → Prog (Machine W) (Unit {0})
  unfolding fetch_problem_from_db
  fetch_if_missing junk prob_id (some p) = pure tt
  fetch_if_missing junk prob_id none = do stat ← fetch_problem_from_db junk prob_id; pure tt

  unfoldable pub get_problem : Junk → Ident → Prog (Machine W) Problem
  unfolding lock set_lock fetch_if_missing index_problem
  get_problem junk prob_id = do
    lock
    known ← gets (λ (m : Machine W). find_problem prob_id m.mgr.prob_lists)
    fetch_if_missing junk prob_id known
    prob ← index_problem prob_id
    set_lock false
    pure prob
