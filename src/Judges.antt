-- ===== src/Judges.antt =====
-- src/judge.cpp: the judges, each with a directory of its own, and the table that lends them to the
-- worker threads. A pointer to a judge is its index.
pub mod Dirs
pub mod Pool
pub mod Owners
use npu_oj.Base.{
  ℕ, zero, suc, ◌+◌, ◌-◌, ◌<◌, ◌≤◌, ◌≡◌, refl, Bool, true, false, ◌&&◌, Option, none, some, List,
  [], ◌∷◌, ◌++◌, ltb, ◌==◌, if◌then◌else◌, replicate, set, length,
}
use npu_oj.Base.Text.{Text, codes, snprintf, print_nat}
use npu_oj.Base.Effect.{Outcome, ok, exits, faults, blocks, Prog}
use npu_oj.Slots.{find_slot, slot_is}

-- Judge::Judge: the buffer has room for five bytes behind `/judge`, and snprintf is told one less.
unfoldable pub judge_dir : Text → ℕ → Text
unfolding print_nat
judge_dir main_dir id =
    let size = length main_dir + length (codes "/judge") + 5 in
    snprintf (size - 1) (main_dir ++ (codes "/judge" ++ print_nat id))

-- class Judge
pub record Judge : Type 0 where
  pub work_dir : Text
  pub m_uid : ℕ

-- enum JudgeState
pub data JudgeState : Type 0 where
  available used : JudgeState

abbrev pub is_available : JudgeState → Bool
is_available JudgeState.available = true
is_available JudgeState.used = false

abbrev pub is_used : JudgeState → Bool
is_used JudgeState.available = false
is_used JudgeState.used = true

-- `jm_judges_num` and `jm_judges_flag`.
pub record Judges : Type 0 where
  pub judges_num : ℕ
  pub judges_flag : List JudgeState

-- The part of init_judges that makes the table.
unfoldable pub init_table : ℕ → Judges
init_table n = record { judges_num = n; judges_flag = replicate n JudgeState.available }

abbrev pub lend : Judges → Option ℕ → Option ℕ × Judges
lend t none = (none, t)
lend t (some i) = (some i, record t { judges_flag = set t.judges_flag i JudgeState.used })

-- What get_judge does under the mutex; `none` is the null pointer.
unfoldable pub lend_judge : Judges → Option ℕ × Judges
lend_judge t = lend t (find_slot is_available t.judges_num t.judges_flag)

-- What release_judge does under the mutex to the flags.
unfoldable pub free_judge : ℕ → Judges → Judges
free_judge i t =
    if ltb i t.judges_num && slot_is is_used t.judges_flag i
    then record t { judges_flag = set t.judges_flag i JudgeState.available }
    else t
