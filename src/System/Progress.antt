-- ===== src/System/Progress.antt =====
-- src/judge.cpp: when JudgeTask::run returns, for a work thread that judges alone.
use npu_oj.Base.{ℕ, ◌+◌, ◌-◌, ◌<◌, ◌≡◌, refl, ap, ◌∙◌, true, false, some, arith, ltb, set}
use npu_oj.Base.Text.{Text, codes}
use npu_oj.Base.Effect.{ok, Prog, ◌>>◌, pure, >>=-ok}
use npu_oj.DataItem.{Submission}
use npu_oj.Platform.{Os}
use npu_oj.Platform.Files.{Files, FilesLaws, Passwd}
use npu_oj.Judges.{Judge, Judges, lend_judge, free_judge}
use npu_oj.Manager.{Machine}
use npu_oj.Manager.Dirs.{init_work_dir}
use npu_oj.Manager.Dirs.Made.{init_work_dir_there}
use npu_oj.Manager.Languages.{judge_sbm}
use npu_oj.Manager.Languages.Choice.{registered}
use npu_oj.Manager.Languages.Steadily.{judge_sbm-Keeps}
use npu_oj.Lang.Judging.{Garbage, does, on_world}
use npu_oj.Lang.Judging.Steady.{elsewhere-Steady, on_world_returns}
use npu_oj.Lang.Check.{clear_work_dir}
use npu_oj.System.{
  System, locked, take_judge, get_judge, release_judge, on_machine, with_machine, store_judge,
  judge_in, run_with, run_on, run,
}
use npu_oj.System.Service.{InService, first_lent}

module _ {W : Type 0} where
  get_judge_found :
      (s : System W) (i : ℕ)
      → 0 < s.sem_judge
      → locked s ≡ false
      → (lend_judge s.table).0 ≡ some i
      → get_judge s
        ≡ ok (some i, record s { sem_judge = s.sem_judge - 1; table = (lend_judge s.table).1 })
  unfolding get_judge take_judge
  get_judge_found s i units free lent =
      let positive : ltb 0 s.sem_judge ≡ true = ground (arith, units) in
      rw (positive, free, lent) refl

  on_machine_returns :
      {A : Type 0} (f : Prog (Machine W) A) (s : System W) (m : Machine W) (a : A)
      → f s.machine ≡ ok (a, m)
      → on_machine f s ≡ ok (a, record s { machine = m })
  unfolding on_machine with_machine
  on_machine_returns f s m a e = rw (e, with_machine) refl

  -- A judge is given back.
  abbrev given_back : ℕ → System W → System W
  given_back i s = record s {
    table = free_judge i s.table;
    sem_judge = s.sem_judge + 1;
    sem_fetch = s.sem_fetch + 1;
  }

  release_judge_returns :
      (i : ℕ) (s : System W) → locked s ≡ false → release_judge i s ≡ ok (tt, given_back i s)
  unfolding release_judge
  release_judge_returns i s free = rw free refl

module _ {W : Type 0} (fs : Files W) (os : Os W) (junk : Garbage) where
  -- What comes after init_work_dir.
  judge_in_returns :
      (i : ℕ) (jdg : Judge) (submit submit' : Submission) (s : System W) (after : Machine W)
      → judge_sbm os junk jdg submit s.machine ≡ ok (submit', after)
      → after.mgr.lock_held ≡ false
      → (s' : System W) × (judge_in fs os junk i submit jdg s ≡ ok (submit', s'))
  unfolding judge_in does
  judge_in_returns i jdg submit submit' s after judged free =
      let cleared = record after { world = clear_work_dir os jdg after.world } in
      let last : System W = record s { machine = cleared } in
      (
        given_back i last,
        >>=-ok (on_machine (judge_sbm os junk jdg submit)) _
              (on_machine_returns (judge_sbm os junk jdg submit) s after submit' judged)
            ∙ >>=-ok (on_machine (does (clear_work_dir os jdg)))
                (λ u. release_judge i >> pure submit')
                (on_machine_returns (does (clear_work_dir os jdg)) (record s { machine = after })
                  cleared tt refl)
            ∙ >>=-ok (release_judge i) (λ u. pure submit') (release_judge_returns i last free),
      )

  run_with_returns :
      (i : ℕ) (jdg : Judge) (submit submit' : Submission) (s : System W) (user : Passwd)
      (after : Machine W)
      → fs.getpwnam (codes "judge") s.machine.world ≡ some user
      → fs.opendir jdg.work_dir s.machine.world ≡ true
      → judge_sbm os junk
          (record jdg { m_uid = user.pw_uid })
          submit
          (record s.machine {
            world = fs.chown jdg.work_dir user.pw_uid user.pw_gid s.machine.world;
          })
        ≡ ok (submit', after)
      → after.mgr.lock_held ≡ false
      → (s' : System W) × (run_with fs os junk i submit (some jdg) s ≡ ok (submit', s'))
  unfolding run_with store_judge
  run_with_returns i jdg submit submit' s user after found there judged free =
      let own : Judge = record jdg { m_uid = user.pw_uid } in
      let w = fs.chown jdg.work_dir user.pw_uid user.pw_gid s.machine.world in
      let made : Machine W = record s.machine { world = w } in
      let ready : System W = record s { machine = made; judges = set s.judges i own } in
      let (s', goes) = judge_in_returns i own submit submit' ready after judged free in
      (
        s',
        >>=-ok (on_machine (on_world (init_work_dir fs jdg))) _ (
              on_machine_returns (on_world (init_work_dir fs jdg)) s made own (
                on_world_returns (init_work_dir fs jdg) s.machine own w
                  (init_work_dir_there fs jdg user s.machine.world found there)))
            ∙ goes,
      )

module _ {W : Type 0} (fs : Files W) (laws : FilesLaws fs) (os : Os W) (junk : Garbage) where
  -- In a program in service, with at least one judge, a thread that judges alone neither waits for a
  -- judge or for the lock nor crashes on a missing judge: where the user `judge` exists and the
  -- directory of judge 0 can be opened, JudgeTask::run returns, whenever judge_sbm returns for judge 0
  -- in the world in which the directory was given to that user, and with the same submission.
  pub run_returns :
      (cd cr pd pr : Text) (n : ℕ) (submit submit' : Submission) (s : System W) (user : Passwd)
      (after : Machine W) (service : InService fs laws os junk cd cr pd pr n s)
      → 0 < n
      → fs.getpwnam (codes "judge") s.machine.world ≡ some user
      → fs.opendir service.jdg.work_dir s.machine.world ≡ true
      → judge_sbm os junk
          (record service.jdg { m_uid = user.pw_uid })
          submit
          (record s.machine {
            world = fs.chown service.jdg.work_dir user.pw_uid user.pw_gid s.machine.world;
          })
        ≡ ok (submit', after)
      → (s' : System W) × (run fs os junk submit s ≡ ok (submit', s'))
  unfolding run run_on
  run_returns cd cr pd pr n submit submit' s user after service some_judge found there judged =
      let lent : (lend_judge s.table).0 ≡ some 0 =
        ap (λ (t : Judges). (lend_judge t).0) service.table ∙ first_lent n some_judge in
      let units : 0 < s.sem_judge = omega (arith, some_judge, service.units) in
      let taken : System W = record s {
        sem_judge = s.sem_judge - 1;
        table = (lend_judge s.table).1;
      } in
      let own : Judge = record service.jdg { m_uid = user.pw_uid } in
      let steady =
        judge_sbm-Keeps os (codes "/home/noj") (registered (some cd) (some cr) (some pd) (some pr))
          junk own submit _ after submit' (elsewhere-Steady _ _ s.machine _ service.steady)
          judged in
      let (s', goes) =
        run_with_returns fs os junk 0 service.jdg submit submit' taken user after found there judged
          steady.unlocked in
      (
        s',
        >>=-ok get_judge (run_on fs os junk submit) {w = s}
              (get_judge_found s 0 units service.steady.unlocked lent)
            ∙ ap (λ jdg. run_with fs os junk 0 submit jdg taken) service.there
            ∙ goes,
      )
