-- ===== src/System/Run.antt =====
-- src/judge.cpp: JudgeTask::run by one thread, with no other in between.
use npu_oj.Base.{
  ℕ, ◌+◌, ◌-◌, ◌<◌, ◌≡◌, refl, sym, ap, ◌∙◌, inl, inr, true, Option, none, some, arith, get_elem?,
  set, Option-cases,
}
use npu_oj.Base.Effect.{ok, ◌>>◌, pure, modify, >>=-eq-ok}
use npu_oj.DataItem.{Submission}
use npu_oj.Platform.{Os}
use npu_oj.Platform.Files.{Files, FilesLaws, Passwd}
use npu_oj.Judges.{Judge, Judges, lend_judge, free_judge}
use npu_oj.Manager.{Machine}
use npu_oj.Manager.Dirs.{init_work_dir}
use npu_oj.Manager.Dirs.Made.{init_work_dir_lem}
use npu_oj.Manager.Languages.{judge_sbm}
use npu_oj.Lang.Judging.{Garbage, does, on_world}
use npu_oj.Lang.Check.{clear_work_dir}
use npu_oj.System.{
  System, get_judge, release_judge, on_machine, store_judge, judge_in, run_with, run_on, run,
}
use npu_oj.Lang.Judging.Steady.{on_world-ok}
use npu_oj.System.Inversion.{free-lend_judge, get_judge-ok, release_judge-ok, on_machine-ok}

module _ {W : Type 0} (fs : Files W) (laws : FilesLaws fs) (os : Os W) (junk : Garbage) where
  -- A run with judge `i`, whose entry is `jdg`: what comes before and after judge_sbm.
  pub record RanWith (i : ℕ) (jdg : Judge) (submit submit' : Submission) (s s' : System W)
      : Type 0 where
    pub user : Passwd
    pub made : W
    pub after_judging : Machine W
    pub dir : fs.opendir jdg.work_dir made ≡ true
    pub judged :
        judge_sbm os junk
          (record jdg { m_uid = user.pw_uid })
          submit
          (record s.machine { world = made })
        ≡ ok (submit', after_judging)
    pub afterwards : s' ≡ record s {
      machine = record after_judging {
        world = clear_work_dir os (record jdg { m_uid = user.pw_uid }) after_judging.world;
      };
      judges = set s.judges i (record jdg { m_uid = user.pw_uid });
      table = free_judge i s.table;
      sem_judge = s.sem_judge + 1;
      sem_fetch = s.sem_fetch + 1;
    }

  judge_in-ok :
      (i : ℕ) (jdg : Judge) (submit submit' : Submission) (s s' : System W)
      → judge_in fs os junk i submit jdg s ≡ ok (submit', s')
      → (after : Machine W) × (judge_sbm os junk jdg submit s.machine ≡ ok (submit', after))
        × (s' ≡ record s {
          machine = record after { world = clear_work_dir os jdg after.world };
          table = free_judge i s.table;
          sem_judge = s.sem_judge + 1;
          sem_fetch = s.sem_fetch + 1;
        })
  unfolding judge_in does clear_work_dir
  judge_in-ok i jdg submit submit' s s' h =
      let (sub, s1, e1, h1) = >>=-eq-ok (on_machine (judge_sbm os junk jdg submit)) _ s h in
      let (after, f1, q1) = on_machine-ok (judge_sbm os junk jdg submit) s s1 sub e1 in
      let (u, s2, e2, h2) =
        >>=-eq-ok (on_machine (does (clear_work_dir os jdg))) (λ u. release_judge i >> pure sub) s1
          h1 in
      let (m2, f2, q2) = on_machine-ok (does (clear_work_dir os jdg)) s1 s2 u e2 in
      let (v, s3, e3, h3) = >>=-eq-ok (release_judge i) (λ u. pure sub) s2 h2 in
      let q3 = release_judge-ok i s2 s3 v e3 in
      let same : sub ≡ submit' = cc h3 in
      let back = λ (x : System W). record x {
        table = free_judge i x.table;
        sem_judge = x.sem_judge + 1;
        sem_fetch = x.sem_fetch + 1;
      } in
      let cleared = λ (m : Machine W). record m { world = clear_work_dir os jdg m.world } in
      let m2_is : m2 ≡ cleared s1.machine = cc f2 in
      let last : s' ≡ s3 = cc h3 in
      (
        after,
        f1 ∙ ap (λ c. ok (c, after)) same,
        last
            ∙ q3
            ∙ ap back (
                q2
                ∙ ap (λ m. record s1 { machine = m }) m2_is
                ∙ ap (λ (x : System W). record x { machine = cleared x.machine }) q1),
      )

  run_with-ok :
      (i : ℕ) (jdg : Judge) (submit submit' : Submission) (s s' : System W)
      → run_with fs os junk i submit (some jdg) s ≡ ok (submit', s')
      → RanWith i jdg submit submit' s s'
  unfolding run_with store_judge
  run_with-ok i jdg submit submit' s s' h =
      let (jdg', s1, e1, h1) =
        >>=-eq-ok (on_machine (on_world (init_work_dir fs jdg)))
          (λ j. modify (store_judge i j) >> judge_in fs os junk i submit j) s h in
      let (m1, f1, q1) = on_machine-ok (on_world (init_work_dir fs jdg)) s s1 jdg' e1 in
      let (w1, g1, p1) = on_world-ok (init_work_dir fs jdg) s.machine m1 jdg' f1 in
      let (user, found, own, opens, keeps) =
        init_work_dir_lem fs laws jdg jdg' s.machine.world w1 g1 in
      let (after, judged, ends) = judge_in-ok i jdg' submit submit' _ s' h1 in
      let final = λ (j : Judge) (x : System W). record x {
        machine = record after { world = clear_work_dir os j after.world };
        judges = set x.judges i j;
        table = free_judge i x.table;
        sem_judge = x.sem_judge + 1;
        sem_fetch = x.sem_fetch + 1;
      } in
      let machine_is : s1.machine ≡ record s.machine { world = w1 } =
        ap (λ (x : System W). x.machine) q1 ∙ p1 in
      record {
        user = user;
        made = w1;
        after_judging = after;
        dir = opens;
        judged =
            ap (λ j. judge_sbm os junk j submit (record s.machine { world = w1 })) (sym own)
            ∙ ap (judge_sbm os junk jdg' submit) (sym machine_is)
            ∙ judged;
        afterwards = ends ∙ ap (final jdg') q1 ∙ ap (λ j. final j s) own;
      }

  run_on-ok :
      (submit submit' : Submission) (found : Option ℕ) (s s' : System W)
      → run_on fs os junk submit found s ≡ ok (submit', s')
      → (i : ℕ) × (jdg : Judge) × (found ≡ some i)
        × (get_elem? s.judges i ≡ some jdg)
        × (run_with fs os junk i submit (some jdg) s ≡ ok (submit', s'))
  unfolding run_on run_with
  run_on-ok submit submit' none s s' h = cc h
  run_on-ok submit submit' (some i) s s' h = elim (Option-cases (get_elem? s.judges i)) [
    | inl missing ↦ cc (rw missing at h)
    | inr (jdg, there) ↦ (i, jdg, refl, there, rw there at h)
  ]

  -- What one task does with the judge that it is lent.
  pub record Ran (submit submit' : Submission) (s s' : System W) : Type 0 where
    pub i : ℕ
    pub jdg : Judge
    pub user : Passwd
    pub made : W
    pub after_judging : Machine W
    pub awaited : 0 < s.sem_judge
    pub lent : (lend_judge s.table).0 ≡ some i
    pub entry : get_elem? s.judges i ≡ some jdg
    pub dir : fs.opendir jdg.work_dir made ≡ true
    pub judged :
        judge_sbm os junk
          (record jdg { m_uid = user.pw_uid })
          submit
          (record s.machine { world = made })
        ≡ ok (submit', after_judging)
    pub afterwards : s' ≡ record s {
      machine = record after_judging {
        world = clear_work_dir os (record jdg { m_uid = user.pw_uid }) after_judging.world;
      };
      judges = set s.judges i (record jdg { m_uid = user.pw_uid });
      sem_fetch = s.sem_fetch + 1;
    }

  -- When JudgeTask::run returns, with no other thread in between, it was lent an available judge,
  -- whose directory could be opened; the submission is what judge_sbm makes of it with this judge,
  -- and afterwards the directory is cleared, the table of judges and their semaphore are as they
  -- were, and the semaphore of the submissions has one unit more.
  pub run_lem :
      (submit submit' : Submission) (s s' : System W)
      → run fs os junk submit s ≡ ok (submit', s')
      → Ran submit submit' s s'
  unfolding run run_on
  run_lem submit submit' s s' h =
      let (found, s1, e1, h1) = >>=-eq-ok get_judge (run_on fs os junk submit) s h in
      let (awaited, found_is, s1_is) = get_judge-ok s s1 found e1 in
      let (i, jdg, lent, entry, h2) = run_on-ok submit submit' found s1 s' h1 in
      let r = run_with-ok i jdg submit submit' s1 s' h2 in
      let lent_is : (lend_judge s.table).0 ≡ some i = sym found_is ∙ lent in
      let judges_are : s1.judges ≡ s.judges = ap (λ (x : System W). x.judges) s1_is in
      let machine_is : s1.machine ≡ s.machine = ap (λ (x : System W). x.machine) s1_is in
      let done = λ (x : System W) (t : Judges) (units : ℕ). record x {
        machine = record r.after_judging {
          world = clear_work_dir os (record jdg { m_uid = r.user.pw_uid }) r.after_judging.world;
        };
        judges = set x.judges i (record jdg { m_uid = r.user.pw_uid });
        table = t;
        sem_judge = units;
        sem_fetch = x.sem_fetch + 1;
      } in
      record {
        i = i;
        jdg = jdg;
        user = r.user;
        made = r.made;
        after_judging = r.after_judging;
        awaited = awaited;
        lent = lent_is;
        entry = ap (λ js. get_elem? js i) (sym judges_are) ∙ entry;
        dir = r.dir;
        judged =
            ap
              (λ (m : Machine W).
                judge_sbm os junk (record jdg { m_uid = r.user.pw_uid }) submit
                  (record m { world = r.made }))
              (sym machine_is)
            ∙ r.judged;
        afterwards =
            r.afterwards
            ∙ ap (λ (x : System W). done x (free_judge i x.table) (x.sem_judge + 1)) s1_is
            ∙ ap (λ t. done s t (s.sem_judge - 1 + 1)) (free-lend_judge s.table i lent_is)
            ∙ ap (done s s.table) (omega (arith, awaited));
      }
