-- ===== src/System.antt =====
-- src/judge.cpp: the JudgeManager with its judges, their table and the two semaphores, and what a
-- work thread does with one submission.
pub mod Inversion
pub mod Run
pub mod Service
pub mod Progress
pub mod StartUp
use npu_oj.Base.{
  ℕ, zero, suc, ◌+◌, ◌-◌, ◌<◌, ◌≡◌, refl, Bool, true, false, Option, none, some, List, [], ◌∷◌, ltb,
  if◌then◌else◌, get_elem?, set,
}
use npu_oj.Base.Effect.{Outcome, ok, exits, faults, blocks, Prog, ◌>>=◌, ◌>>◌, pure, modify}
use npu_oj.DataItem.{Submission}
use npu_oj.Platform.{Os}
use npu_oj.Platform.Files.{Files}
use npu_oj.Judges.{Judge, Judges, lend_judge, free_judge}
use npu_oj.Manager.{Manager, Machine}
use npu_oj.Manager.Dirs.{init_work_dir}
use npu_oj.Manager.Languages.{judge_sbm}
use npu_oj.Lang.Judging.{Garbage, does, on_world}
use npu_oj.Lang.Check.{clear_work_dir}

-- `jm_judges` beside the table with their number and flags.
pub record System (W : Type 0) : Type 0 where
  pub machine : Machine W
  pub judges : List Judge
  pub table : Judges
  pub sem_judge : ℕ
  pub sem_fetch : ℕ

module _ {W : Type 0} where
  -- The lock that a call of lazy_dir may have kept.
  abbrev pub locked : System W → Bool
  locked s = s.machine.mgr.lock_held

  take_judge : System W → Outcome (Option ℕ × System W)
  take_judge s =
      if locked s
      then blocks
      else ok ((lend_judge s.table).0, record s { table = (lend_judge s.table).1 })

  -- JudgeManager::get_judge; `none` is the null pointer.
  unfoldable pub get_judge : Prog (System W) (Option ℕ)
  unfolding take_judge
  get_judge s =
      if ltb 0 s.sem_judge then take_judge (record s { sem_judge = s.sem_judge - 1 }) else blocks

  -- JudgeManager::release_judge
  unfoldable pub release_judge : ℕ → Prog (System W) (Unit {0})
  release_judge i s =
      if locked s
      then blocks
      else ok (
        tt,
        record s {
          table = free_judge i s.table;
          sem_judge = s.sem_judge + 1;
          sem_fetch = s.sem_fetch + 1;
        },
      )

  with_machine : {A : Type 0} → System W → Outcome (A × Machine W) → Outcome (A × System W)
  with_machine s (ok (a, m)) = ok (a, record s { machine = m })
  with_machine s (exits code) = exits code
  with_machine s faults = faults
  with_machine s blocks = blocks

  unfoldable pub on_machine : {A : Type 0} → Prog (Machine W) A → Prog (System W) A
  unfolding with_machine
  on_machine f s = with_machine s (f s.machine)

  store_judge : ℕ → Judge → System W → System W
  store_judge i jdg s = record s { judges = set s.judges i jdg }

module _ {W : Type 0} (fs : Files W) (os : Os W) (junk : Garbage) where
  -- The calls after init_work_dir.
  judge_in : ℕ → Submission → Judge → Prog (System W) Submission
  unfolding on_machine does release_judge
  judge_in i submit jdg = do
    submit' ← on_machine (judge_sbm os junk jdg submit)
    on_machine (does (clear_work_dir os jdg))
    release_judge i
    pure submit'

  run_with : ℕ → Submission → Option Judge → Prog (System W) Submission
  unfolding on_machine on_world store_judge judge_in
  run_with i submit none = λ s. faults
  run_with i submit (some jdg) = do
    jdg' ← on_machine (on_world (init_work_dir fs jdg))
    modify (store_judge i jdg')
    judge_in i submit jdg'

  run_on : Submission → Option ℕ → Prog (System W) Submission
  unfolding run_with
  run_on submit none s = faults
  run_on submit (some i) s = run_with i submit (get_elem? s.judges i) s

  -- JudgeTask::run. Its value is `m_submit` afterwards, which it drops.
  unfoldable pub run : Submission → Prog (System W) Submission
  unfolding get_judge run_on
  run submit = do found ← get_judge; run_on submit found
