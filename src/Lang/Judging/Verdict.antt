-- ===== src/Lang/Judging/Verdict.antt =====
-- src/lang.cpp: what the verdict on a submission rests on.
use npu_oj.Base.{
  ℕ, suc, ◌≡◌, ◌≢◌, refl, sym, ap, ◌∙◌, ◌↔◌, inl, inr, Bool, true, false, List, [], ◌∷◌, ◌++◌,
  arith, if◌then◌else◌, length, All, append_assoc, append-nil, Bool-cases,
}
use npu_oj.Base.Int.{ℤ}
use npu_oj.Base.Effect.{Outcome, ok, exits, faults, blocks, Prog, >>=-eq-ok}
use npu_oj.Common.{ResType}
use npu_oj.DataItem.{ResourceLimit, TestCase, Problem, RunResult, Submission}
use npu_oj.Platform.{Os}
use npu_oj.Judges.{Judge}
use npu_oj.Manager.{LangJudge, Machine}
use npu_oj.Manager.Problems.{get_problem}
use npu_oj.Lang.Compile.{compile}
use npu_oj.Lang.Launch.Types.{is_correct}
use npu_oj.Lang.Check.{copy_src}
use npu_oj.Lang.Judging.{
  Garbage, is_compile_pass, push_result, set_verdict, on_world, with_world, does, judge_case,
  judge_cases, judge_compiled, after_compile, judge, compile_limit, launch_limit,
}

abbrev pub IsCorrect : RunResult → Type 0
IsCorrect res = res.res_type ≡ ResType.correct_answer

false_elim : {A : Type 0} → false ≡ true → A
false_elim h = cc h

is_correct_iff : (t : ResType) → (is_correct t ≡ true) ↔ (t ≡ ResType.correct_answer)
is_correct_iff t = (λ h. ground arith, λ h. rw h)

-- The flag that the loop carries is false from the first result on that is not correct.
flag_step :
    (ac ac' : Bool) (t : ResType) (P : Type 0)
    → ((ac' ≡ true) ↔ (((if is_correct t then ac else false) ≡ true) × P))
    → (ac' ≡ true) ↔ ((ac ≡ true) × ((t ≡ ResType.correct_answer) × P))
flag_step ac ac' t P h = elim (Bool-cases (is_correct t)) [
  | inl good ↦
      let h' : (ac' ≡ true) ↔ ((ac ≡ true) × P) = rw good at h in
      (λ e. ((h'.0 e).0, ((is_correct_iff t).0 good, (h'.0 e).1)), λ e. h'.1 (e.0, e.1.1))
  | inr bad ↦
      let h' : (ac' ≡ true) ↔ ((false ≡ true) × P) = rw bad at h in
      (λ e. false_elim (h'.0 e).0, λ e. false_elim (sym bad ∙ (is_correct_iff t).1 e.1.0))
]

module _ {W : Type 0} (os : Os W) (heap : ℕ → ℤ) (jdg : Judge) where
  -- The loop gives each test case one result, and the flag says whether all are correct.
  judge_cases_inv :
      (tcs : List TestCase) (rl : ResourceLimit) (ac ac' : Bool) (submit submit' : Submission)
      (m m' : Machine W)
      → judge_cases os heap jdg tcs rl ac submit m ≡ ok ((ac', submit'), m')
      → (rs : List RunResult) × (submit' ≡ record submit { sbm_results = submit.sbm_results ++ rs })
        × (length rs ≡ length tcs)
        × ((ac' ≡ true) ↔ ((ac ≡ true) × All IsCorrect rs))
  unfolding judge_cases push_result
  judge_cases_inv [] rl ac ac' submit submit' m m' h =
      ([], rw (append-nil submit.sbm_results) (cc), refl, (λ e. (cc, tt), λ e. cc))
  judge_cases_inv (tc ∷ tcs) rl ac ac' submit submit' m m' h =
      let ((res, rl'), m1, one, more) = >>=-eq-ok (judge_case os heap jdg submit tc rl) _ m h in
      let (rs, same, n, flag) =
        judge_cases_inv tcs rl' (if is_correct res.res_type then ac else false) ac'
          (push_result res submit) submit' m1 m' more in
      (
        res ∷ rs,
        rw (sym (append_assoc submit.sbm_results (res ∷ []) rs)) same,
        ap suc n,
        flag_step ac ac' res.res_type (All IsCorrect rs) flag,
      )

-- How a submission is judged after its compilation: a compiler that does not pass leaves one result
-- and a compile error; otherwise each test case has one result, and the submission is accepted if
-- and only if all of them are correct.
pub data Judged (prob : Problem) (compiled : RunResult) (before after : Submission) : Type 0 where
  not_compiled :
      compiled.res_type ≢ ResType.compile_pass
      → after.sbm_id ≡ before.sbm_id
      → after.sbm_results ≡ before.sbm_results ++ compiled ∷ []
      → after.sbm_res_type ≡ ResType.compile_error
      → Judged prob compiled before after
  tested :
      (results : List RunResult)
      → compiled.res_type ≡ ResType.compile_pass
      → after.sbm_id ≡ before.sbm_id
      → after.sbm_results ≡ before.sbm_results ++ results
      → length results ≡ length prob.prob_testcases
      → (after.sbm_res_type ≡ ResType.accept) ↔ All IsCorrect results
      → (after.sbm_res_type ≡ ResType.not_accept) ↔ (¬ (All IsCorrect results))
      → Judged prob compiled before after

is_compile_pass_iff : (t : ResType) → (is_compile_pass t ≡ true) ↔ (t ≡ ResType.compile_pass)
is_compile_pass_iff t = (λ h. ground arith, λ h. rw h)

iff_at : {a b t : ResType} {P : Type 0} → b ≡ a → (a ≡ t) ↔ P → (b ≡ t) ↔ P
iff_at e h = (λ p. h.0 (sym e ∙ p), λ q. e ∙ h.1 q)

-- The verdict that the flag stands for.
verdict_iff :
    (ac : Bool) {P : Type 0}
    → ((ac ≡ true) ↔ P)
    → (((if ac then ResType.accept else ResType.not_accept) ≡ ResType.accept) ↔ P)
      × (((if ac then ResType.accept else ResType.not_accept) ≡ ResType.not_accept) ↔ (¬ P))
verdict_iff true h = ((λ e. h.0 refl, λ p. refl), (λ e. cc, λ np. absurd (np (h.0 refl))))
verdict_iff false h =
    ((λ e. cc, λ p. false_elim (h.1 p)), (λ e. λ p. false_elim (h.1 p), λ np. refl))

with_world_inv :
    {W A : Type 0} (o : Outcome (A × W)) (m m' : Machine W) {a : A}
    → with_world m o ≡ ok (a, m')
    → (w : W) × (o ≡ ok (a, w)) × (m'.world ≡ w)
unfolding with_world
with_world_inv (ok (b, w)) m m' h = (w, cc, cc)
with_world_inv (exits code) m m' h = cc
with_world_inv faults m m' h = cc
with_world_inv blocks m m' h = cc

pub on_world_inv :
    {W A : Type 0} (f : Prog W A) (m m' : Machine W) {a : A}
    → on_world f m ≡ ok (a, m')
    → (w : W) × (f m.world ≡ ok (a, w)) × (m'.world ≡ w)
unfolding on_world
on_world_inv {W} {A} f m m' {a} h = with_world_inv (f m.world) m m' h

module _ {W : Type 0} (os : Os W) (junk : Garbage) (jdg : Judge) where
  judge_compiled-Judged :
      (prob : Problem) (sbm after : Submission) (res : RunResult) (m m' : Machine W)
      → res.res_type ≡ ResType.compile_pass
      → judge_compiled os junk jdg prob sbm m ≡ ok (after, m')
      → Judged prob res sbm after
  unfolding judge_compiled
  judge_compiled-Judged prob sbm after res m m' passed h =
      let start = set_verdict ResType.compile_pass sbm in
      let ((ac, out), m1, ran, last) =
        >>=-eq-ok
          (judge_cases os junk.heap jdg prob.prob_testcases (launch_limit jdg prob) true start) _ m
          h in
      let (rs, grown, n, flag) =
        judge_cases_inv os junk.heap jdg prob.prob_testcases (launch_limit jdg prob) true ac start
          out m m1 ran in
      let final : record out { sbm_res_type = if ac then ResType.accept else ResType.not_accept }
          ≡ after =
        cc in
      let flag' : (ac ≡ true) ↔ All IsCorrect rs = (λ e. (flag.0 e).1, λ a. flag.1 (refl, a)) in
      let verdicts = verdict_iff ac flag' in
      let type_is = sym (ap (λ (x : Submission). x.sbm_res_type) final) in
      tested rs passed
        (ap (λ (x : Submission). x.sbm_id) (sym final) ∙ ap (λ (x : Submission). x.sbm_id) grown)
        (ap (λ (x : Submission). x.sbm_results) (sym final)
          ∙ ap (λ (x : Submission). x.sbm_results) grown)
        n (iff_at type_is verdicts.0) (iff_at type_is verdicts.1)

  after_compile-Judged :
      (prob : Problem) (sbm after : Submission) (res : RunResult) (m m' : Machine W)
      → after_compile os junk jdg prob sbm res m ≡ ok (after, m')
      → Judged prob res sbm after
  unfolding after_compile judge_compiled push_result
  after_compile-Judged prob sbm after res m m' h =
      elim (Bool-cases (is_compile_pass res.res_type)) [
        | inl passed ↦
            judge_compiled-Judged prob sbm after res m m' ((is_compile_pass_iff _).0 passed)
              (rw passed at h)
        | inr failed ↦
            let no_pass : res.res_type ≢ ResType.compile_pass =
              λ e. false_elim (sym failed ∙ (is_compile_pass_iff _).1 e) in
            let final : set_verdict ResType.compile_error (push_result res sbm) ≡ after =
              cc (rw failed at h) in
            not_compiled no_pass (ap (λ (x : Submission). x.sbm_id) (sym final))
              (ap (λ (x : Submission). x.sbm_results) (sym final))
              (ap (λ (x : Submission). x.sbm_res_type) (sym final))
      ]

  -- When judge returns, the problem that get_problem gave, after the source was copied, and the
  -- result that compile gave determine the judgement of the submission as Judged says.
  pub judge-Judged :
      (lang_judge : LangJudge) (sbm after : Submission) (m m' : Machine W)
      → judge os junk lang_judge jdg sbm m ≡ ok (after, m')
      → (prob : Problem) × (res : RunResult) × (m1 : Machine W) × (w : W) × (get_problem os
            junk.problem sbm.sbm_prob_id
            (record m { world = copy_src os jdg (set_verdict ResType.init sbm) m.world })
          ≡ ok (prob, m1))
        × (compile os lang_judge.compile_script_path
              (set_verdict ResType.init sbm)
              (compile_limit junk jdg)
              m1.world
            ≡ ok (res, w))
        × Judged prob res (set_verdict ResType.init sbm) after
  unfolding judge does on_world
  judge-Judged lang_judge sbm after m m' h =
      let submit = set_verdict ResType.init sbm in
      let m0 = record m { world = copy_src os jdg submit m.world } in
      let (prob, m1, got, h1) = >>=-eq-ok (get_problem os junk.problem sbm.sbm_prob_id) _ m0 h in
      let (res, m2, compiled, h2) =
        >>=-eq-ok
          (on_world (compile os lang_judge.compile_script_path submit (compile_limit junk jdg))) _
          m1 h1 in
      let (w, ran, left) =
        on_world_inv (compile os lang_judge.compile_script_path submit (compile_limit junk jdg)) m1
          m2 compiled in
      (prob, res, m1, w, got, ran, after_compile-Judged prob submit after res m2 m' h2)
