-- ===== src/Lang/Judging/Cases.antt =====
-- src/lang.cpp: when one test case is judged correct.
use npu_oj.Base.{ℕ, ◌≡◌, refl, sym, ap, ◌∙◌, subst, inl, inr, true, false, arith, Bool-cases}
use npu_oj.Base.Int.{ℤ, is_zero}
use npu_oj.Base.Effect.{Outcome, ok, >>=-eq-ok}
use npu_oj.Common.{ResType}
use npu_oj.DataItem.{ResourceLimit, TestCase, RunResult, Submission}
use npu_oj.Platform.{Os}
use npu_oj.Judges.{Judge}
use npu_oj.Manager.{Machine}
use npu_oj.Lang.Launch.{launch}
use npu_oj.Lang.Launch.Types.{NotCorrect, launch-NotCorrect}
use npu_oj.Lang.Check.{check, strict_diff, copy_testcase_input}
use npu_oj.Lang.Check.Table.{check_correct}
use npu_oj.Lang.Judging.{
  is_run_pass, keeps_output, on_world, does, check_run, keep_output, judge_case, next_output,
}
use npu_oj.Lang.Judging.Verdict.{IsCorrect, on_world_inv}

ok_fst :
    {A M : Type 0} {a b : A} {m m' : M} → ◌≡◌ {A = Outcome (A × M)} (ok (a, m)) (ok (b, m')) → a ≡ b
ok_fst h = cc h

is_run_pass-run_pass : (t : ResType) → is_run_pass t ≡ true → t ≡ ResType.run_pass
is_run_pass-run_pass t h = ground arith

clash : false ≡ true → ⊥
clash h = cc h

module _ {W : Type 0} (os : Os W) (jdg : Judge) (submit : Submission) (tc : TestCase) where
  -- Keeping the output does not change the verdict.
  keep_output-res_type :
      (res kept : RunResult) (m m' : Machine W)
      → keep_output os jdg submit res m ≡ ok (kept, m')
      → kept.res_type ≡ res.res_type
  unfolding keep_output next_output does
  keep_output-res_type res kept m m' h = elim (Bool-cases (keeps_output res.res_type)) [
    | inl keeps ↦ sym (ap (λ (r : RunResult). r.res_type) (ok_fst (rw keeps at h)))
    | inr drops ↦ sym (ap (λ (r : RunResult). r.res_type) (ok_fst (rw drops at h)))
  ]

  -- A result that is correct after the check comes from a run that passed and a check that says so.
  check_run_inv :
      (res checked : RunResult) (m m' : Machine W)
      → NotCorrect res
      → check_run os jdg submit tc res m ≡ ok (checked, m')
      → IsCorrect checked
      → (res.res_type ≡ ResType.run_pass) × ((check os jdg submit tc m.world).0 ≡ checked)
  unfolding check_run on_world
  check_run_inv res checked m m' n h good = elim (Bool-cases (is_run_pass res.res_type)) [
    | inl passed ↦ (is_run_pass-run_pass _ passed, ok_fst (rw passed at h))
    | inr failed ↦
        let same : res ≡ checked = ok_fst (rw failed at h) in
        absurd (clash (sym n ∙ rw (same, good) refl))
  ]

  -- A test case is judged correct only if its run, with its input copied, passed, no special judge is
  -- asked for, and the strict comparison of the output afterwards returned 0.
  pub judge_case_correct :
      (heap : ℕ → ℤ) (rl left : ResourceLimit) (res : RunResult) (m m' : Machine W)
      → judge_case os heap jdg submit tc rl m ≡ ok ((res, left), m')
      → IsCorrect res
      → (run : RunResult) × (w : W) × (launch os heap submit rl
            (copy_testcase_input os jdg tc m.world)
          ≡ ok ((run, left), w))
        × (run.res_type ≡ ResType.run_pass)
        × (is_zero tc.is_special_judge ≡ true)
        × (is_zero (os.system (strict_diff jdg tc) w).0 ≡ true)
  unfolding judge_case does on_world
  judge_case_correct heap rl left res m m' h good =
      let m0 = record m { world = copy_testcase_input os jdg tc m.world } in
      let ((run, rl'), m1, ran, h1) = >>=-eq-ok (on_world (launch os heap submit rl)) _ m0 h in
      let (w, launched, same_world) = on_world_inv (launch os heap submit rl) m0 m1 ran in
      let (checked, m2, judged, h2) = >>=-eq-ok (check_run os jdg submit tc run) _ m1 h1 in
      let (kept, m3, stored, h3) = >>=-eq-ok (keep_output os jdg submit checked) _ m2 h2 in
      let both : ◌≡◌ {A = RunResult × ResourceLimit} (kept, rl') (res, left) = ok_fst h3 in
      let good' : IsCorrect checked =
        sym (keep_output-res_type checked kept m2 m3 stored)
        ∙ ap (λ (x : RunResult × ResourceLimit). x.0.res_type) both
        ∙ good in
      let (passed, by_check) =
        check_run_inv run checked m1 m2
          (launch-NotCorrect os heap submit rl rl' run m0.world w launched) judged good' in
      let (plain, equal) =
        check_correct os jdg submit tc m1.world
          (ap (λ (r : RunResult). r.res_type) by_check ∙ good') in
      (
        run,
        w,
        launched ∙ ap (λ (x : RunResult × ResourceLimit). ok ((run, x.1), w)) both,
        passed,
        plain,
        subst (λ v. is_zero (os.system (strict_diff jdg tc) v).0 ≡ true) same_world equal,
      )
