-- ===== src/Examples/World.antt =====
-- A quiet world: every command succeeds, every child ends at once, and the database knows one problem
-- with one test case.
use npu_oj.Base.{
  ℕ, ◌+◌, ◌*◌, ◌≡◌, refl, Bool, true, false, Option, none, some, [], ◌∷◌, replicate, get_elem?,
  ◌==◌, if◌then◌else◌,
}
use npu_oj.Base.Int.{ℤ, pos}
use npu_oj.Base.Text.{codes}
use npu_oj.Base.Effect.{Outcome, ok, exits, faults, blocks}
use npu_oj.Common.{JudgeMode, Language}
use npu_oj.DataItem.{ResourceLimit, new_limit, new_submission, Submission}
use npu_oj.Platform.{Os, WaitEvent, Traced, Scan, QueryResult, CompilerRun}
use npu_oj.Platform
use npu_oj.Db.{ConState, Db}
use npu_oj.Network.{new_network}
use npu_oj.Judges.{Judge}
use npu_oj.Manager.{LangJudge, Machine, new_manager}
use npu_oj.Manager.Problems.{Junk}
use npu_oj.Lang.Judging.{Garbage}

-- Of a child that makes one `read` and ends with status 0.
abbrev pub at_read : WaitEvent
at_read = record {
  stat = 5 * 256 + 127;
  ru_minflt = 10;
  utime_sec = 0;
  utime_usec = 2000;
  stime_sec = 0;
  stime_usec = 0;
  syscall_id = pos 3;
}

abbrev pub at_exit : WaitEvent
at_exit = record {
  stat = 0;
  ru_minflt = 20;
  utime_sec = 0;
  utime_usec = 4000;
  stime_sec = 0;
  stime_usec = 1000;
  syscall_id = pos 252;
}

abbrev pub one_run : Traced
one_run = record { pid = 7; reports = at_read ∷ at_exit ∷ [] }

abbrev pub limits_row : QueryResult
limits_row = Platform.rows ((some (codes "1000") ∷ some (codes "65536") ∷ []) ∷ [])

abbrev pub testcases_row : QueryResult
testcases_row =
    Platform.rows ((some (codes "3") ∷ some (codes "a.in") ∷ some (codes "a.out") ∷ []) ∷ [])

-- The two queries differ in their eighth character.
abbrev pub answer : Option ℕ → QueryResult
answer none = Platform.query_failed
answer (some b) = if b == b'p' then limits_row else testcases_row

abbrev pub silent : CompilerRun
silent = record { stat = 0; output = some [] ∷ [] }

abbrev pub quiet : Os (Unit {0})
quiet = record {
  system = λ command w. (pos 0, w);
  page_size = 4096;
  pipe_capacity = 65536;
  fork_traced = λ calls w. (some one_run, w);
  popen_long = λ command w. (Scan.number (pos 100), w);
  query = λ sql w. (answer (get_elem? sql 7), w);
  open_pipe = λ w. (true, w);
  fork_compiler = λ calls w. (some silent, w);
}

-- The same, with a database that answers no query.
abbrev pub no_db : Os (Unit {0})
no_db = record quiet { query = λ sql w. (Platform.query_failed, w) }

abbrev pub zeros : ℕ → ℤ
zeros n = pos 0

abbrev pub no_junk : Junk
no_junk = record { id = pos 0; uid = 0; gid = 0; calls = zeros; special = pos 0 }

abbrev pub no_garbage : Garbage
no_garbage = record { problem = no_junk; uid = 0; gid = 0; calls = zeros; heap = zeros }

abbrev pub two_connections : Db
two_connections = record {
  m_host = [];
  m_user = [];
  m_passwd = [];
  m_dbname = [];
  m_port = pos 3306;
  max_available = 2;
  conn_bits = replicate 10 ConState.init;
  sem = 2;
}

abbrev pub fresh : Machine (Unit {0})
fresh = record {
  mgr = record new_manager { work_dir = some (codes "/home/noj") };
  db = two_connections;
  net = new_network;
  world = tt;
}

abbrev pub c_release : LangJudge
c_release = record {
  lang = Language.c;
  mode = JudgeMode.release;
  compile_script_path = some (codes "/cc.sh");
}

abbrev pub first_judge : Judge
first_judge = record { work_dir = codes "/home/noj/judge0"; m_uid = 1001 }

abbrev pub in_c : Submission
in_c = record (new_submission (pos 1) (pos 9)) {
  sbm_lang = Language.c;
  sbm_cur_mode = JudgeMode.release;
  sbm_source_file = codes "/home/noj/src/9";
}

abbrev pub any_limit : ResourceLimit
any_limit = new_limit 0 0 zeros

-- What a call returned, for a call that returns.
abbrev pub value_of : {A : Type 0} → A → Outcome A → A
value_of a (ok b) = b
value_of a (exits code) = a
value_of a faults = a
value_of a blocks = a

abbrev pub is_ok : {A : Type 0} → Outcome A → Bool
is_ok (ok b) = true
is_ok (exits code) = false
is_ok faults = false
is_ok blocks = false

-- A call that returns is equal to its value.
pub value_of-eq : {A : Type 0} (a : A) (o : Outcome A) → is_ok o ≡ true → o ≡ ok (value_of a o)
value_of-eq a (ok b) h = refl
value_of-eq a (exits code) h = cc h
value_of-eq a faults h = cc h
value_of-eq a blocks h = cc h
