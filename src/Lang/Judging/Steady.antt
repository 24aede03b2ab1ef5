-- ===== src/Lang/Judging/Steady.antt =====
-- src/lang.cpp: what judging leaves alone of the manager.
use npu_oj.Base.{
  ℕ, ◌≡◌, refl, sym, ap, subst, ◌∙◌, inl, inr, Bool, true, false, Option, some, List, [], ◌∷◌,
  if◌then◌else◌, Option-cases,
}
use npu_oj.Base.Int.{ℤ}
use npu_oj.Base.Text.{Text}
use npu_oj.Base.Effect.{Outcome, ok, exits, faults, blocks, Prog, pure, ok-injective}
use npu_oj.Base.Fixes.{Keeps, >>=-Keeps, pure-Keeps, if-Keeps}
use npu_oj.Common.{ResType}
use npu_oj.DataItem.{Ident, ResourceLimit, TestCase, RunResult, Submission, Problem}
use npu_oj.Platform.{Os}
use npu_oj.Judges.{Judge}
use npu_oj.Manager.{LangJudge, Machine, lazy_dir, get_output_dir, get_result_count}
use npu_oj.Manager.Problems.{Junk, get_problem}
use npu_oj.Manager.Problems.Cache.{get_problem_inv}
use npu_oj.Manager.Problems.Core.{get_problem-Fixes}
use npu_oj.Lang.Launch.{launch}
use npu_oj.Lang.Compile.{compile}
use npu_oj.Lang.Check.{check, copy_src, copy_testcase_input, copy_output_file}
use npu_oj.Lang.Judging.{
  Garbage, is_correct, is_run_pass, keeps_output, is_compile_pass, push_result, set_verdict,
  launch_limit, compile_limit, with_world, on_world, does, next_output, check_run, keep_output,
  judge_case, judge_cases, judge_compiled, after_compile, judge,
}

module _ {W : Type 0} where
  pub on_world-ok :
      {A : Type 0} (f : Prog W A) (m m' : Machine W) (a : A)
      → on_world f m ≡ ok (a, m')
      → (w : W) × (f m.world ≡ ok (a, w)) × (m' ≡ record m { world = w })
  unfolding on_world with_world
  on_world-ok {A} f m m' a h = go (f m.world) refl
    where
      go :
          (o : Outcome (A × W))
          → f m.world ≡ o
          → (w : W) × (f m.world ≡ ok (a, w)) × (m' ≡ record m { world = w })
      go (ok (b, w)) e = let k = rw e at h in (w, e ∙ ap (λ c. ok (c, w)) (cc k), cc k)
      go (exits code) e = cc (rw e at h)
      go faults e = cc (rw e at h)
      go blocks e = cc (rw e at h)

  pub on_world_returns :
      {A : Type 0} (f : Prog W A) (m : Machine W) (a : A) (w : W)
      → f m.world ≡ ok (a, w)
      → on_world f m ≡ ok (a, record m { world = w })
  unfolding on_world with_world
  on_world_returns f m a w e = rw (e, with_world) refl

module _ {W : Type 0} (main_dir : Text) (langs : List LangJudge) where
  -- Between two submissions: the main directory and the judges of the languages are set, and the lock
  -- is free.
  pub record Steady (m : Machine W) : Type 0 where
    pub dir : m.mgr.work_dir ≡ some main_dir
    pub registry : m.mgr.lang_judges ≡ langs
    pub unlocked : m.mgr.lock_held ≡ false

  -- What is done in the world only.
  pub elsewhere-Steady : (m : Machine W) (w : W) → Steady m → Steady (record m { world = w })
  elsewhere-Steady m w s = record { dir = s.dir; registry = s.registry; unlocked = s.unlocked }

  pub does-Keeps : (f : W → W) → Keeps Steady (does f)
  unfolding does
  does-Keeps f m m' a s h = subst Steady (sym (ok-injective h).1) (elsewhere-Steady m (f m.world) s)

  pub on_world-Keeps : {A : Type 0} (f : Prog W A) → Keeps Steady (on_world f)
  on_world-Keeps f m m' a s h =
      let (w, ran, same) = on_world-ok f m m' a h in
      subst Steady (sym same) (elsewhere-Steady m w s)

  next_output-Keeps : (submit : Submission) → Keeps Steady (next_output submit)
  unfolding next_output get_output_dir get_result_count lazy_dir
  next_output-Keeps submit m m' name s h = elim (Option-cases m.mgr.output_dir) [
    | inl unset ↦
        subst Steady (sym (ok-injective (rw (unset, s.dir) at h)).1)
          record { dir = refl; registry = s.registry; unlocked = s.unlocked }
    | inr (d, there) ↦
        subst Steady (sym (ok-injective (rw there at h)).1)
          record { dir = s.dir; registry = s.registry; unlocked = s.unlocked }
  ]

module _ {W : Type 0} (os : Os W) (main_dir : Text) (langs : List LangJudge) where
  get_problem-Keeps :
      (junk : Junk) (id : Ident) → Keeps (Steady main_dir langs) (get_problem os junk id)
  get_problem-Keeps junk id m m' p s h =
      let (q, found, copied, free) = get_problem_inv os id junk m m' p h in
      let same = get_problem-Fixes os junk id m m' p h in
      record {
        dir = ap (λ (c : Option Text × List LangJudge). c.0) same ∙ s.dir;
        registry = ap (λ (c : Option Text × List LangJudge). c.1) same ∙ s.registry;
        unlocked = free;
      }

  check_run-Keeps :
      (jdg : Judge) (submit : Submission) (tc : TestCase) (res : RunResult)
      → Keeps (Steady main_dir langs) (check_run os jdg submit tc res)
  unfolding check_run
  check_run-Keeps jdg submit tc res =
      if-Keeps (Steady main_dir langs) (is_run_pass res.res_type)
        (on_world (λ w. ok (check os jdg submit tc w))) (pure res)
        (on_world-Keeps main_dir langs (λ w. ok (check os jdg submit tc w)))
        (pure-Keeps (Steady main_dir langs) res)

  keep_output-Keeps :
      (jdg : Judge) (submit : Submission) (res : RunResult)
      → Keeps (Steady main_dir langs) (keep_output os jdg submit res)
  unfolding keep_output
  keep_output-Keeps jdg submit res =
      if-Keeps (Steady main_dir langs) (keeps_output res.res_type) _ (pure res)
        (>>=-Keeps (Steady main_dir langs) (next_output submit) _
          (next_output-Keeps main_dir langs submit)
          λ name.
            let res' = record res { res_output_file = name } in
            >>=-Keeps (Steady main_dir langs) (does (copy_output_file os jdg res')) _
              (does-Keeps main_dir langs (copy_output_file os jdg res'))
              λ u. pure-Keeps (Steady main_dir langs) res')
        (pure-Keeps (Steady main_dir langs) res)

  judge_case-Keeps :
      (heap : ℕ → ℤ) (jdg : Judge) (submit : Submission) (tc : TestCase) (rl : ResourceLimit)
      → Keeps (Steady main_dir langs) (judge_case os heap jdg submit tc rl)
  unfolding judge_case
  judge_case-Keeps heap jdg submit tc rl =
      >>=-Keeps (Steady main_dir langs) (does (copy_testcase_input os jdg tc)) _
        (does-Keeps main_dir langs (copy_testcase_input os jdg tc))
        λ u.
          >>=-Keeps (Steady main_dir langs) (on_world (launch os heap submit rl)) _
            (on_world-Keeps main_dir langs (launch os heap submit rl))
            λ ran.
              >>=-Keeps (Steady main_dir langs) (check_run os jdg submit tc ran.0) _
                (check_run-Keeps jdg submit tc ran.0)
                λ checked.
                  >>=-Keeps (Steady main_dir langs) (keep_output os jdg submit checked) _
                    (keep_output-Keeps jdg submit checked)
                    λ kept. pure-Keeps (Steady main_dir langs) (kept, ran.1)

  judge_cases-Keeps :
      (heap : ℕ → ℤ) (jdg : Judge) (tcs : List TestCase) (rl : ResourceLimit) (flg_ac : Bool)
      (submit : Submission)
      → Keeps (Steady main_dir langs) (judge_cases os heap jdg tcs rl flg_ac submit)
  unfolding judge_cases
  judge_cases-Keeps heap jdg [] rl flg_ac submit =
      pure-Keeps (Steady main_dir langs) (flg_ac, submit)
  judge_cases-Keeps heap jdg (tc ∷ tcs) rl flg_ac submit =
      >>=-Keeps (Steady main_dir langs) (judge_case os heap jdg submit tc rl) _
        (judge_case-Keeps heap jdg submit tc rl)
        λ r.
          judge_cases-Keeps heap jdg tcs r.1 (if is_correct r.0.res_type then flg_ac else false)
            (push_result r.0 submit)

  after_compile-Keeps :
      (junk : Garbage) (jdg : Judge) (prob : Problem) (submit : Submission) (res : RunResult)
      → Keeps (Steady main_dir langs) (after_compile os junk jdg prob submit res)
  unfolding after_compile judge_compiled
  after_compile-Keeps junk jdg prob submit res =
      if-Keeps (Steady main_dir langs) (is_compile_pass res.res_type)
        (judge_compiled os junk jdg prob submit) _
        (>>=-Keeps (Steady main_dir langs)
          (judge_cases os junk.heap jdg prob.prob_testcases (launch_limit jdg prob) true
            (set_verdict ResType.compile_pass submit))
          _
          (judge_cases-Keeps junk.heap jdg prob.prob_testcases (launch_limit jdg prob) true
            (set_verdict ResType.compile_pass submit))
          λ r. pure-Keeps (Steady main_dir langs) _)
        (pure-Keeps (Steady main_dir langs) _)

  pub judge-Keeps :
      (junk : Garbage) (lang_judge : LangJudge) (jdg : Judge) (sbm : Submission)
      → Keeps (Steady main_dir langs) (judge os junk lang_judge jdg sbm)
  unfolding judge
  judge-Keeps junk lang_judge jdg sbm =
      let submit = set_verdict ResType.init sbm in
      >>=-Keeps (Steady main_dir langs) (does (copy_src os jdg submit)) _
        (does-Keeps main_dir langs (copy_src os jdg submit))
        λ u.
          >>=-Keeps (Steady main_dir langs) (get_problem os junk.problem submit.sbm_prob_id) _
            (get_problem-Keeps junk.problem submit.sbm_prob_id)
            λ prob.
              >>=-Keeps (Steady main_dir langs)
                (on_world
                  (compile os lang_judge.compile_script_path submit (compile_limit junk jdg)))
                _
                (on_world-Keeps main_dir langs
                  (compile os lang_judge.compile_script_path submit (compile_limit junk jdg)))
                λ res. after_compile-Keeps junk jdg prob submit res
