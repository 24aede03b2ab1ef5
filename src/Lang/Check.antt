-- ===== src/Lang/Check.antt =====
-- src/lang.cpp: check_normal and LangC::check, which compare the output of a run with the expected
-- one, and the copying of files for a judge in src/judge.cpp.
pub mod Table
use npu_oj.Base.{
  ℕ, ◌+◌, ◌-◌, ◌%◌, ◌≡◌, refl, Bool, true, false, List, [], ◌∷◌, ◌++◌, ◌==◌, if◌then◌else◌,
}
use npu_oj.Base.Int.{ℤ, pos, negsuc, is_zero}
use npu_oj.Base.Text.{Text, codes, snprintf}
use npu_oj.Common.{ResType, buffer_size}
use npu_oj.DataItem.{TestCase, RunResult, Submission, new_result}
use npu_oj.Platform.{Os, status_word, w_exit_status}
use npu_oj.Judges.{Judge}

unfoldable pub with_verdict : ResType → RunResult → RunResult
with_verdict t res = record res { res_type = t }

unfoldable pub strict_diff : Judge → TestCase → Text
strict_diff jdg tc = snprintf (buffer_size - 1) (
    codes "diff "
    ++ (jdg.work_dir ++ (codes "/stdout.out " ++ (tc.tc_output_file ++ codes " 2>/dev/null 1>&2"))))

-- White space and the case of letters do not count.
unfoldable pub loose_diff : Judge → TestCase → Text
loose_diff jdg tc = snprintf (buffer_size - 1) (
    codes "diff "
    ++ (jdg.work_dir
        ++ (codes "/stdout.out " ++ (tc.tc_output_file ++ codes " -b -i 1>/dev/null 2>&1"))))

-- `1 == WEXITSTATUS(ret)`: the files differ.
unfoldable pub differs : ℤ → Bool
differs ret = w_exit_status (status_word ret) == 1

unfoldable pub copy_src_command : Judge → Submission → Text
copy_src_command jdg submit =
    snprintf (buffer_size - 1)
      (codes "cp " ++ (submit.sbm_source_file ++ (codes " " ++ (jdg.work_dir ++ codes "/code"))))

unfoldable pub copy_input_command : Judge → TestCase → Text
copy_input_command jdg tc = snprintf (buffer_size - 1) (
    codes "cp "
    ++ (tc.tc_input_file
        ++ (codes " "
            ++ (jdg.work_dir
                ++ (codes "/stdin.in && chown judge " ++ (jdg.work_dir ++ codes "/stdin.in"))))))

unfoldable pub copy_output_command : Judge → RunResult → Text
copy_output_command jdg res =
    snprintf buffer_size
      (codes "mv " ++ (jdg.work_dir ++ (codes "/stdout.out " ++ res.res_output_file)))

unfoldable pub clear_command : Judge → Text
clear_command jdg = snprintf (buffer_size - 1) (codes "rm -rf " ++ (jdg.work_dir ++ codes "/*"))

module _ {W : Type 0} (os : Os W) where
  after_loose_diff : RunResult → ℤ × W → RunResult × W
  after_loose_diff res (ret, w) =
      if is_zero ret
      then (with_verdict ResType.presentation_error res, w)
      else if differs ret
      then (with_verdict ResType.wrong_answer res, w)
      else (with_verdict ResType.system_error res, w)

  after_strict_diff : Judge → TestCase → RunResult → ℤ × W → RunResult × W
  unfolding after_loose_diff
  after_strict_diff jdg tc res (ret, w) =
      if is_zero ret
      then (with_verdict ResType.correct_answer res, w)
      else if differs ret
      then after_loose_diff res (os.system (loose_diff jdg tc) w)
      else (with_verdict ResType.system_error res, w)

  unfoldable pub check_normal : Judge → Submission → TestCase → W → RunResult × W
  unfolding after_strict_diff
  check_normal jdg submit tc w =
      after_strict_diff jdg tc (new_result submit) (os.system (strict_diff jdg tc) w)

  -- LangC::check. There is no special judge: a test case that asks for one is a system error.
  unfoldable pub check : Judge → Submission → TestCase → W → RunResult × W
  unfolding check_normal
  check jdg submit tc w = if is_zero tc.is_special_judge then check_normal jdg submit tc w else (
    record (new_result submit) {
      res_type = ResType.system_error;
      res_content = codes "LangC: Check method not found";
    },
    w,
  )

  -- The result of `system` is only logged.
  abbrev run_command : Text → W → W
  run_command command w = (os.system command w).1

  unfoldable pub copy_src : Judge → Submission → W → W
  copy_src jdg submit w = run_command (copy_src_command jdg submit) w

  unfoldable pub copy_testcase_input : Judge → TestCase → W → W
  copy_testcase_input jdg tc w = run_command (copy_input_command jdg tc) w

  unfoldable pub copy_output_file : Judge → RunResult → W → W
  copy_output_file jdg res w = run_command (copy_output_command jdg res) w

  unfoldable pub clear_work_dir : Judge → W → W
  clear_work_dir jdg w = run_command (clear_command jdg) w
