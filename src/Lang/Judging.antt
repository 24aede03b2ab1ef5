-- ===== src/Lang/Judging.antt =====
-- src/lang.cpp: LangC::judge, which judges one submission from its source file to its verdict.
pub mod Verdict
pub mod Cases
pub mod Steady
pub mod Reference
use npu_oj.Base.{
  ℕ, suc, ◌+◌, ◌-◌, ◌%◌, ◌≡◌, refl, Bool, true, false, ◌||◌, Option, none, some, List, [], ◌∷◌,
  ◌++◌, arith, ◌==◌, if◌then◌else◌, length, replicate,
}
use npu_oj.Base.Int.{ℤ}
use npu_oj.Base.Text.{Text, codes, snprintf, print_nat, print_long}
use npu_oj.Base.Effect.{Outcome, ok, exits, faults, blocks, Prog, ◌>>=◌, ◌>>◌, pure}
use npu_oj.Common.{JudgeMode, ResType, buffer_size}
use npu_oj.Units.Time.{set_second}
use npu_oj.Units.Memory.{set_mb}
use npu_oj.DataItem.{
  ResourceLimit, new_limit, copy_limit, set_workdir, TestCase, Problem, RunResult, Submission,
}
use npu_oj.Platform.{Os}
use npu_oj.Judges.{Judge}
use npu_oj.Manager.{LangJudge, Manager, Machine, get_output_dir, get_result_count, c_str}
use npu_oj.Manager.Problems.{Junk, get_problem}
use npu_oj.Lang.Launch.{launch}
use npu_oj.Lang.Launch.Types.{is_correct}
use npu_oj.Lang.Compile.{compile}
use npu_oj.Lang.Check.{check, copy_src, copy_testcase_input, copy_output_file}

-- What uninitialised memory holds during one judgement: for the problem, for the limits of the
-- compiler, and for the table of calls, which is made once.
pub record Garbage : Type 0 where
  pub problem : Junk
  pub uid : ℕ
  pub gid : ℕ
  pub calls : ℕ → ℤ
  pub heap : ℕ → ℤ

abbrev pub is_compile_pass : ResType → Bool
is_compile_pass ResType.compile_pass = true
is_compile_pass t = false

abbrev pub is_run_pass : ResType → Bool
is_run_pass ResType.run_pass = true
is_run_pass t = false

-- The output of these is kept.
abbrev pub keeps_output : ResType → Bool
keeps_output ResType.wrong_answer = true
keeps_output ResType.presentation_error = true
keeps_output t = false

unfoldable pub str_judge_mode : JudgeMode → Text
str_judge_mode JudgeMode.debug = codes "Debug"
str_judge_mode JudgeMode.release = codes "Release"
str_judge_mode JudgeMode.unset = codes "UnSet"

-- "%04u"
unfoldable pub print_padded : ℕ → Text
print_padded n = replicate (4 - length (print_nat n)) b'0' ++ print_nat n

unfoldable pub output_name : Option Text → Submission → ℕ → Text
unfolding str_judge_mode print_padded
output_name dir submit count = snprintf buffer_size (
    c_str dir
    ++ (codes "/"
        ++ (print_long submit.sbm_id
            ++ (codes "_"
                ++ (str_judge_mode submit.sbm_cur_mode
                    ++ (codes "_" ++ (print_padded (count % 100000) ++ codes ".out")))))))

-- The limits of a compiler: 20 seconds, files of 20 MB and 100 MB of memory.
unfoldable pub compile_limit : Garbage → Judge → ResourceLimit
compile_limit junk jdg =
    let rl = new_limit junk.uid junk.gid junk.calls in
    set_workdir (some (snprintf (buffer_size - 1) jdg.work_dir)) (record rl {
      rl_uid = jdg.m_uid;
      single_time_limit = set_second 20 rl.single_time_limit;
      file_limit = set_mb 20 rl.file_limit;
      memory_limit = set_mb 100 rl.memory_limit;
    })

unfoldable pub launch_limit : Judge → Problem → ResourceLimit
launch_limit jdg prob =
    set_workdir (some (snprintf (buffer_size - 1) jdg.work_dir))
      (record (copy_limit prob.prob_rsc_lim) { rl_uid = jdg.m_uid })

unfoldable pub push_result : RunResult → Submission → Submission
push_result res submit = record submit { sbm_results = submit.sbm_results ++ res ∷ [] }

abbrev pub set_verdict : ResType → Submission → Submission
set_verdict t submit = record submit { sbm_res_type = t }

module _ {W : Type 0} where
  with_world : {A : Type 0} → Machine W → Outcome (A × W) → Outcome (A × Machine W)
  with_world m (ok (a, w)) = ok (a, record m { world = w })
  with_world m (exits code) = exits code
  with_world m faults = faults
  with_world m blocks = blocks

  unfoldable pub on_world : {A : Type 0} → Prog W A → Prog (Machine W) A
  unfolding with_world
  on_world f m = with_world m (f m.world)

  -- A command of which only the effect on the world is of interest.
  unfoldable pub does : (W → W) → Prog (Machine W) (Unit {0})
  does f m = ok (tt, record m { world = f m.world })

  unfoldable pub next_output : Submission → Prog (Machine W) Text
  unfolding output_name
  next_output submit m =
      let (dir, mgr1) = get_output_dir m.mgr in
      let (count, mgr2) = get_result_count mgr1 in
      ok (output_name dir submit count, record m { mgr = mgr2 })

module _ {W : Type 0} (os : Os W) where
  -- A run that passes is checked, and its result replaced by that of the check.
  unfoldable pub check_run : Judge → Submission → TestCase → RunResult → Prog (Machine W) RunResult
  unfolding on_world
  check_run jdg submit tc res =
      if is_run_pass res.res_type then on_world (λ w. ok (check os jdg submit tc w)) else pure res

  unfoldable pub keep_output : Judge → Submission → RunResult → Prog (Machine W) RunResult
  unfolding next_output does
  keep_output jdg submit res =
      if keeps_output res.res_type
      then (do
        name ← next_output submit
        let res' = record res { res_output_file = name }
        does (copy_output_file os jdg res')
        pure res')
      else pure res

  -- One test case: the result, and the limits that the run leaves.
  unfoldable pub judge_case :
      (ℕ → ℤ)
      → Judge
      → Submission
      → TestCase
      → ResourceLimit
      → Prog (Machine W) (RunResult × ResourceLimit)
  unfolding does on_world check_run keep_output
  judge_case heap jdg submit tc rl = do
    does (copy_testcase_input os jdg tc)
    (res, rl') ← on_world (launch os heap submit rl)
    checked ← check_run jdg submit tc res
    kept ← keep_output jdg submit checked
    pure (kept, rl')

  -- The loop over the test cases: `flg_ac`, and the submission with its results.
  unfoldable pub judge_cases :
      (ℕ → ℤ)
      → Judge
      → List TestCase
      → ResourceLimit
      → Bool
      → Submission
      → Prog (Machine W) (Bool × Submission)
  unfolding judge_case push_result
  judge_cases heap jdg [] rl flg_ac submit = pure (flg_ac, submit)
  judge_cases heap jdg (tc ∷ tcs) rl flg_ac submit = do
    (res, rl') ← judge_case heap jdg submit tc rl
    judge_cases heap jdg tcs rl' (if is_correct res.res_type then flg_ac else false)
        (push_result res submit)

  unfoldable pub judge_compiled :
      Garbage → Judge → Problem → Submission → Prog (Machine W) Submission
  unfolding judge_cases launch_limit
  judge_compiled junk jdg prob submit = do
    (flg_ac, submit') ←
        judge_cases junk.heap jdg prob.prob_testcases (launch_limit jdg prob) true
          (set_verdict ResType.compile_pass submit)
    pure (set_verdict (if flg_ac then ResType.accept else ResType.not_accept) submit')

  unfoldable pub after_compile :
      Garbage → Judge → Problem → Submission → RunResult → Prog (Machine W) Submission
  unfolding judge_compiled push_result
  after_compile junk jdg prob submit res =
      if is_compile_pass res.res_type
      then judge_compiled junk jdg prob submit
      else pure (set_verdict ResType.compile_error (push_result res submit))

  -- The function always returns Noj_Normal; its value here is the submission.
  unfoldable pub judge : Garbage → LangJudge → Judge → Submission → Prog (Machine W) Submission
  unfolding does compile_limit on_world after_compile
  judge junk lang_judge jdg sbm = do
    let submit = set_verdict ResType.init sbm
    does (copy_src os jdg submit)
    prob ← get_problem os junk.problem submit.sbm_prob_id
    res ← on_world (compile os lang_judge.compile_script_path submit (compile_limit junk jdg))
    after_compile junk jdg prob submit res
