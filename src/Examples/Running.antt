-- ===== src/Examples/Running.antt =====
-- Concrete runs of a compiler and of a program.
use npu_oj.Base.{◌<◌, ◌≡◌, ◌≢◌, ◌↔◌, refl, true, false, some, [], ◌∷◌, arith}
use npu_oj.Base.Int.{pos, is_zero}
use npu_oj.Base.Text.{codes}
use npu_oj.Base.Effect.{ok, blocks}
use npu_oj.Common.{ResType}
use npu_oj.DataItem.{ResourceLimit, new_limit, TestCase, new_testcase, RunResult, new_result}
use npu_oj.Platform.{
  Os, Traced, CompilerRun, w_if_exited, w_if_signaled, w_if_stopped, w_stop_sig, w_exit_status,
}
use npu_oj.Manager.{Machine}
use npu_oj.Lang.Limits.{get_rl_cpu_millisecond}
use npu_oj.Lang.Syscalls.{sys_call_init, init_system_call_limits}
use npu_oj.Lang.Launch.{
  trace, launch, child_calls, over_memory, round, check_time, check_state, check_call, note_memory,
  note_time, grow_memory, last_memory, watch, get_proc_info,
}
use npu_oj.Lang.Launch.Trace.{Passes}
use npu_oj.Lang.Launch.Verdict.{launch_limits, trace-ends, launch_memory_exact, launch-Passes}
use npu_oj.Lang.Compile.{compile, child_writes}
use npu_oj.Lang.Compile.Outcomes.{total_length, compile_hangs, compile_pass_iff}
use npu_oj.Lang.Check.{check, check_normal, with_verdict, strict_diff, copy_testcase_input}
use npu_oj.Lang.Check.Table.{comparison, verdict, check_lem}
use npu_oj.Lang.Judging.{judge_case, on_world, does, check_run, keep_output}
use npu_oj.Lang.Judging.Verdict.{IsCorrect}
use npu_oj.Lang.Judging.Cases.{judge_case_correct}
use npu_oj.Examples.World.{
  quiet, silent, at_read, at_exit, zeros, any_limit, in_c, first_judge, fresh, value_of, is_ok,
  value_of-eq,
}

trace-ends_example :
    trace any_limit 1000 4096 zeros (new_result in_c) (at_read ∷ (at_exit ∷ [])) ≢ blocks
unfolding w_if_exited
trace-ends_example =
    trace-ends any_limit 1000 4096 zeros (new_result in_c) (at_read ∷ []) [] at_exit refl

abbrev ran : (RunResult × ResourceLimit) × Unit {0}
ran = value_of ((new_result in_c, any_limit), tt) (launch quiet zeros in_c any_limit tt)

ran_ok : is_ok (launch quiet zeros in_c any_limit tt) ≡ true
unfolding launch watch trace round check_time check_state check_call over_memory
    init_system_call_limits new_limit get_rl_cpu_millisecond w_if_exited w_if_signaled w_if_stopped
    w_stop_sig get_proc_info last_memory grow_memory w_exit_status
ran_ok = refl

launch_memory_exact_example :
    (ran.0.0.res_type ≡ ResType.memory_limit_exceed) ↔ (over_memory any_limit ran.0.0 ≡ true)
launch_memory_exact_example =
    launch_memory_exact quiet zeros in_c any_limit ran.0.1 ran.0.0 tt tt
      (value_of-eq ((new_result in_c, any_limit), tt) (launch quiet zeros in_c any_limit tt) ran_ok)

ran_passes : ran.0.0.res_type ≡ ResType.run_pass
unfolding launch watch trace round check_time check_state check_call over_memory
    init_system_call_limits new_limit get_rl_cpu_millisecond w_if_exited w_if_signaled w_if_stopped
    w_stop_sig get_proc_info last_memory grow_memory w_exit_status
ran_passes = refl

abbrev test_3 : TestCase
test_3 = record (new_testcase (pos 3) (pos 1) (pos 0)) {
  tc_input_file = codes "/home/noj/data/3.in";
  tc_output_file = codes "/home/noj/data/3.out";
}

check_lem_example :
    (check quiet first_judge in_c test_3 tt).0
    ≡ with_verdict (verdict (comparison (pos 0)) (comparison (pos 0))) (new_result in_c)
unfolding new_testcase
check_lem_example = check_lem quiet first_judge in_c test_3 tt refl

-- A compiler with three bytes of messages, and a pipe that holds two.
abbrev noisy : CompilerRun
noisy = record { stat = 256; output = some (codes "err") ∷ some [] ∷ [] }

abbrev narrow : Os (Unit {0})
narrow = record quiet { pipe_capacity = 2; fork_compiler = λ calls w. (some noisy, w) }

compile_hangs_example :
    (compile narrow (some (codes "/cc.sh")) in_c any_limit tt ≡ blocks)
    ↔ (narrow.pipe_capacity < total_length noisy.output)
compile_hangs_example =
    compile_hangs narrow (codes "/cc.sh") in_c any_limit tt tt tt noisy refl refl

too_long : compile narrow (some (codes "/cc.sh")) in_c any_limit tt ≡ blocks
unfolding total_length
too_long = compile_hangs_example.1 (omega arith)

abbrev compiled : RunResult × Unit {0}
compiled = value_of (new_result in_c, tt) (compile quiet (some (codes "/cc.sh")) in_c any_limit tt)

compiled_ok : is_ok (compile quiet (some (codes "/cc.sh")) in_c any_limit tt) ≡ true
unfolding compile child_writes
compiled_ok = refl

compile_pass_iff_example : (compiled.0.res_type ≡ ResType.compile_pass) ↔ (silent.stat ≡ 0)
compile_pass_iff_example =
    compile_pass_iff quiet (codes "/cc.sh") in_c any_limit tt tt tt tt silent compiled.0 refl refl (
      value_of-eq (new_result in_c, tt) (compile quiet (some (codes "/cc.sh")) in_c any_limit tt)
        compiled_ok)

abbrev case_judged : (RunResult × ResourceLimit) × Machine (Unit {0})
case_judged =
    value_of ((new_result in_c, any_limit), fresh)
      (judge_case quiet zeros first_judge in_c test_3 any_limit fresh)

case_judged_ok : is_ok (judge_case quiet zeros first_judge in_c test_3 any_limit fresh) ≡ true
unfolding launch watch trace round check_time check_state check_call over_memory
    init_system_call_limits new_limit get_rl_cpu_millisecond w_if_exited w_if_signaled w_if_stopped
    w_stop_sig get_proc_info last_memory grow_memory w_exit_status judge_case on_world does
    check_run keep_output copy_testcase_input check new_testcase new_result note_time note_memory
    with_verdict check_normal
case_judged_ok = refl

case_judged-IsCorrect : IsCorrect case_judged.0.0
unfolding launch watch trace round check_time check_state check_call over_memory
    init_system_call_limits new_limit get_rl_cpu_millisecond w_if_exited w_if_signaled w_if_stopped
    w_stop_sig get_proc_info last_memory grow_memory w_exit_status judge_case on_world does
    check_run keep_output copy_testcase_input check new_testcase new_result note_time note_memory
    with_verdict check_normal
case_judged-IsCorrect = refl

judge_case_correct_example :
    (run : RunResult) × (w : Unit {0}) × (launch quiet zeros in_c any_limit
        (copy_testcase_input quiet first_judge test_3 tt)
      ≡ ok ((run, case_judged.0.1), w))
    × (run.res_type ≡ ResType.run_pass)
    × (is_zero test_3.is_special_judge ≡ true)
    × (is_zero (quiet.system (strict_diff first_judge test_3) w).0 ≡ true)
judge_case_correct_example =
    judge_case_correct quiet first_judge in_c test_3 zeros any_limit case_judged.0.1 case_judged.0.0
      fresh case_judged.1
      (value_of-eq ((new_result in_c, any_limit), fresh)
        (judge_case quiet zeros first_judge in_c test_3 any_limit fresh) case_judged_ok)
      case_judged-IsCorrect

launch-Passes_example :
    (run : Traced) × ((quiet.fork_traced (child_calls (launch_limits quiet zeros any_limit)) tt).0
      ≡ some run)
    × Passes (get_rl_cpu_millisecond any_limit) (sys_call_init zeros) 3 run.reports
    × (over_memory any_limit ran.0.0 ≡ false)
launch-Passes_example =
    launch-Passes quiet zeros in_c any_limit ran.0.1 ran.0.0 tt tt 3
      (value_of-eq ((new_result in_c, any_limit), tt) (launch quiet zeros in_c any_limit tt) ran_ok)
      ran_passes
