-- ===== src/Lang/Judging/Reference.antt =====
-- src/lang.cpp: the loop over the test cases against a plain account of it.
use npu_oj.Base.{
  ℕ, ◌≡◌, refl, sym, ap, ◌∙◌, Bool, true, false, ◌&&◌, List, [], ◌∷◌, ◌++◌, if◌then◌else◌,
  append_assoc, append-nil,
}
use npu_oj.Base.Int.{ℤ}
use npu_oj.Base.Effect.{ok, Prog, ◌>>=◌, pure, >>=-cong, >>=-assoc}
use npu_oj.DataItem.{ResourceLimit, TestCase, RunResult, Submission, new_result}
use npu_oj.Platform.{Os}
use npu_oj.Judges.{Judge}
use npu_oj.Manager.{Machine}
use npu_oj.Lang.Launch.{launch}
use npu_oj.Lang.Check.{check, check_normal}
use npu_oj.Lang.Judging.{
  is_correct, push_result, judge_case, judge_cases, check_run, keep_output, next_output,
  output_name, does, on_world,
}

flag_and :
    (correct flg rest : Bool)
    → ((if correct then flg else false) && rest) ≡ (flg && (correct && rest))
flag_and true flg rest = refl
flag_and false true rest = refl
flag_and false false rest = refl

and_true : (b : Bool) → (b && true) ≡ b
and_true true = refl
and_true false = refl

abbrev pub all_correct : List RunResult → Bool
all_correct [] = true
all_correct (r ∷ rs) = is_correct r.res_type && all_correct rs

abbrev pub add_results : Submission → List RunResult → Submission
add_results submit rs = record submit { sbm_results = submit.sbm_results ++ rs }

module _ {W : Type 0} (os : Os W) (heap : ℕ → ℤ) (jdg : Judge) where
  module _ (submit : Submission) where
    -- The results of the test cases one by one, all for the submission as it was compiled. The limits
    -- go from one to the next.
    pub run_cases : List TestCase → ResourceLimit → Prog (Machine W) (List RunResult)
    run_cases [] rl = pure []
    run_cases (tc ∷ tcs) rl = do
      (res, rl') ← judge_case os heap jdg submit tc rl
      rest ← run_cases tcs rl'
      pure (res ∷ rest)

    -- A test case is judged without a look at the results so far.
    judge_case-add_results :
        (done : List RunResult) (tc : TestCase) (rl : ResourceLimit)
        → judge_case os heap jdg (add_results submit done) tc rl
          ≡ judge_case os heap jdg submit tc rl
    unfolding judge_case check_run keep_output launch check check_normal new_result next_output
        output_name does on_world
    judge_case-add_results done tc rl = refl

    abbrev finish : Bool → List RunResult → List RunResult → Prog (Machine W) (Bool × Submission)
    finish flg done rs = pure (flg && all_correct rs, add_results submit (done ++ rs))

    finish-cons :
        (flg : Bool) (done : List RunResult) (res : RunResult) (rs : List RunResult) (m : Machine W)
        → finish (if is_correct res.res_type then flg else false) (done ++ res ∷ []) rs m
          ≡ finish flg done (res ∷ rs) m
    finish-cons flg done res rs m =
        ap (λ b. ok ((b, add_results submit ((done ++ res ∷ []) ++ rs)), m))
          (flag_and (is_correct res.res_type) flg (all_correct rs))
        ∙ ap (λ xs. ok ((flg && all_correct (res ∷ rs), add_results submit xs), m))
            (append_assoc done (res ∷ []) rs)

    judge_cases_from :
        (tcs : List TestCase) (rl : ResourceLimit) (flg : Bool) (done : List RunResult)
        (m : Machine W)
        → judge_cases os heap jdg tcs rl flg (add_results submit done) m
          ≡ (run_cases tcs rl >>= finish flg done) m
    unfolding judge_cases run_cases
    judge_cases_from [] rl flg done m =
        ap (λ b. ok ((b, add_results submit done), m)) (sym (and_true flg))
        ∙ ap (λ xs. ok ((flg && true, add_results submit xs), m)) (sym (append-nil done))
    judge_cases_from (tc ∷ tcs) rl flg done m =
        let next = λ (p : RunResult × ResourceLimit).
          judge_cases os heap jdg tcs p.1 (if is_correct p.0.res_type then flg else false)
            (push_result p.0 (add_results submit done)) in
        ap (λ jc. (jc >>= next) m) (judge_case-add_results done tc rl)
        ∙ >>=-cong (judge_case os heap jdg submit tc rl) next
            (λ (p : RunResult × ResourceLimit).
              (run_cases tcs p.1 >>= (λ rest. pure (p.0 ∷ rest))) >>= finish flg done)
            m
            (λ p m1.
              ap
                (λ xs.
                  judge_cases os heap jdg tcs p.1 (if is_correct p.0.res_type then flg else false)
                    (record submit { sbm_results = xs }) m1)
                (append_assoc submit.sbm_results done (p.0 ∷ []))
              ∙ judge_cases_from tcs p.1 (if is_correct p.0.res_type then flg else false)
                  (done ++ p.0 ∷ []) m1
              ∙ >>=-cong (run_cases tcs p.1) _ _ m1 (λ rs m2. finish-cons flg done p.0 rs m2)
              ∙ sym
                  (>>=-assoc (run_cases tcs p.1) (λ rest. pure (p.0 ∷ rest)) (finish flg done) m1))
        ∙ sym (
            >>=-assoc (judge_case os heap jdg submit tc rl)
              (λ (p : RunResult × ResourceLimit). run_cases tcs p.1 >>= (λ rest. pure (p.0 ∷ rest)))
              (finish flg done) m)

    -- The loop over the test cases does what a plain account of it does: it judges each test case in
    -- turn for the submission as it was, whatever the results before; the flag stays true exactly if
    -- all the results are correct; and the results are added to the submission in their order.
    pub judge_cases-run_cases :
        (tcs : List TestCase) (rl : ResourceLimit) (flg : Bool) (m : Machine W)
        → judge_cases os heap jdg tcs rl flg submit m
          ≡ (run_cases tcs rl >>= (λ rs. pure (flg && all_correct rs, add_results submit rs))) m
    judge_cases-run_cases tcs rl flg m =
        ap (λ xs. judge_cases os heap jdg tcs rl flg (record submit { sbm_results = xs }) m)
          (sym (append-nil submit.sbm_results))
        ∙ judge_cases_from tcs rl flg [] m
