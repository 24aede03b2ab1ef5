-- ===== src/Examples/Judging.antt =====
-- Concrete judgements.
use npu_oj.Base.{◌≡◌, refl, true}
use npu_oj.Base.Effect.{Outcome, ok}
use npu_oj.Common.{ResType}
use npu_oj.DataItem.{
  Submission, Problem, RunResult, assign_limit, set_workdir, new_testcase, new_problem,
  copy_problem, add_testcase, new_submission, new_result,
}
use npu_oj.Manager.{Machine, get_testcase_dir}
use npu_oj.Manager.Problems.{get_problem, find_problem, store_problem, fetch_testcase_from_ftp}
use npu_oj.Lang.Compile.{compile}
use npu_oj.Lang.Check.{copy_src, with_verdict, check}
use npu_oj.Lang.Judging.{judge, set_verdict, compile_limit}
use npu_oj.Lang.Judging.Verdict.{Judged, judge-Judged}
use npu_oj.Platform.{w_if_exited, w_if_signaled, w_if_stopped, w_stop_sig, w_exit_status}
use npu_oj.Db.{get_available_connection}
use npu_oj.Slots.{find_slot}
use npu_oj.Lang.Launch.{
  fault_memory, grow_memory, over_memory, check_state, total_time, note_time, check_time,
  note_memory, round, trace, last_memory, get_proc_info, watch, launch,
}
use npu_oj.Lang.Syscalls.{init_system_call_limits}
use npu_oj.Lang.Limits.{get_rl_cpu_millisecond}
use npu_oj.Config.Numbers.{strtoul}
use npu_oj.Units.Memory.{gt_size, get_byte, set_byte}
use npu_oj.Units.Time.{set_millisecond}
use npu_oj.Examples.World.{
  quiet, no_garbage, first_judge, c_release, in_c, fresh, value_of, is_ok, value_of-eq,
}

abbrev run_it : Outcome (Submission × Machine (Unit {0}))
run_it = judge quiet no_garbage c_release first_judge in_c fresh

judged_ok : is_ok run_it ≡ true
unfolding judge w_if_exited w_if_signaled w_if_stopped w_stop_sig w_exit_status find_problem
    store_problem fetch_testcase_from_ftp get_problem get_testcase_dir get_available_connection
    find_slot assign_limit set_workdir new_testcase new_problem copy_problem add_testcase
    new_submission new_result compile fault_memory grow_memory over_memory check_state total_time
    note_time check_time note_memory round trace last_memory get_proc_info watch launch
    init_system_call_limits with_verdict check get_rl_cpu_millisecond set_byte set_millisecond
    gt_size strtoul get_byte
judged_ok = refl

abbrev judged : Submission × Machine (Unit {0})
judged = value_of (in_c, fresh) run_it

judge-Judged_example :
    (prob : Problem) × (res : RunResult) × (m1 : Machine (Unit {0})) × (w : Unit {0}) × (get_problem
        quiet no_garbage.problem in_c.sbm_prob_id
        (record fresh {
          world = copy_src quiet first_judge (set_verdict ResType.init in_c) fresh.world;
        })
      ≡ ok (prob, m1))
    × (compile quiet c_release.compile_script_path
          (set_verdict ResType.init in_c)
          (compile_limit no_garbage first_judge)
          m1.world
        ≡ ok (res, w))
    × Judged prob res (set_verdict ResType.init in_c) judged.0
judge-Judged_example =
    judge-Judged quiet no_garbage first_judge c_release in_c judged.0 fresh judged.1
      (value_of-eq (in_c, fresh) run_it judged_ok)
