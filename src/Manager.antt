-- ===== src/Manager.antt =====
-- src/judge.cpp: the state of the JudgeManager, and the directories that it names.
pub mod Problems
pub mod Dirs
pub mod Languages
pub mod Submissions
use npu_oj.Base.{
  ℕ, zero, suc, ◌+◌, ◌-◌, ◌%◌, ◌≡◌, refl, Bool, true, false, not, ◌&&◌, Option, none, some, List,
  [], ◌∷◌, ◌++◌, arith, ◌==◌, if◌then◌else◌, length,
}
use npu_oj.Base.Int.{ℤ, pos, negsuc}
use npu_oj.Base.Text.{Text, codes, snprintf}
use npu_oj.Base.Effect.{Outcome, ok, exits, faults, blocks, Prog}
use npu_oj.Common.{JudgeMode, Language}
use npu_oj.DataItem.{Ident, Problem}
use npu_oj.Db.{Db}
use npu_oj.Network.{Network}

-- A LangJudge: LangCDebug, LangCRelease, LangCppDebug or LangCppRelease by its language and mode.
pub record LangJudge : Type 0 where
  pub lang : Language
  pub mode : JudgeMode
  pub compile_script_path : Option Text

-- class JudgeManager, less the table of judges and its semaphores. `lock_held` is the state of
-- `jm_lock_judge`; `count` is the static variable of get_result_count.
pub record Manager : Type 0 where
  pub work_dir : Option Text
  pub testcase_dir : Option Text
  pub src_dir : Option Text
  pub output_dir : Option Text
  pub prob_lists : List (Ident × Problem)
  pub lang_judges : List LangJudge
  pub lock_held : Bool
  pub count : ℕ

abbrev pub new_manager : Manager
new_manager = record {
  work_dir = none;
  testcase_dir = none;
  src_dir = none;
  output_dir = none;
  prob_lists = [];
  lang_judges = [];
  lock_held = false;
  count = 0;
}

-- What a thread of the program works on.
pub record Machine (W : Type 0) : Type 0 where
  pub mgr : Manager
  pub db : Db
  pub net : Network
  pub world : W

-- The common body of get_output_dir, get_testcase_dir and get_src_dir: the lock and the directory
-- afterwards. The lock is only tried; with no main directory the function returns at once, and
-- leaves the lock as it has it.
unfoldable pub lazy_dir : Text → Bool → Option Text → Option Text → Bool × Option Text
lazy_dir suffix held work_dir (some dir) = (held, some dir)
lazy_dir suffix held none none = (true, none)
lazy_dir suffix held (some main) none =
    (held, some (snprintf (length main + length suffix + 1) (main ++ suffix)))

unfoldable pub get_output_dir : Manager → Option Text × Manager
unfolding lazy_dir
get_output_dir m =
    let (held, dir) = lazy_dir (codes "/output") m.lock_held m.work_dir m.output_dir in
    (dir, record m { lock_held = held; output_dir = dir })

unfoldable pub get_testcase_dir : Manager → Option Text × Manager
unfolding lazy_dir
get_testcase_dir m =
    let (held, dir) = lazy_dir (codes "/data") m.lock_held m.work_dir m.testcase_dir in
    (dir, record m { lock_held = held; testcase_dir = dir })

unfoldable pub get_src_dir : Manager → Option Text × Manager
unfolding lazy_dir
get_src_dir m =
    let (held, dir) = lazy_dir (codes "/src") m.lock_held m.work_dir m.src_dir in
    (dir, record m { lock_held = held; src_dir = dir })

-- What `%s` prints of a pointer.
abbrev pub c_str : Option Text → Text
c_str none = codes "(null)"
c_str (some t) = t

unfoldable pub get_result_count : Manager → ℕ × Manager
get_result_count m = let next : ℕ = (m.count + 1) % 1000000 in (next, record m { count = next })
