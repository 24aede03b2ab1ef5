-- ===== src/Examples/FirstRun.antt =====
-- A program that has just started judges a submission, and then two.
use npu_oj.Base.{◌≡◌, refl, true, ◌+◌, ◌<◌, List, [], ◌∷◌, length, arith}
use npu_oj.Base.Effect.{ok}
use npu_oj.DataItem.{
  Submission, assign_limit, set_workdir, new_testcase, new_problem, copy_problem, add_testcase,
  new_submission, new_result,
}
use npu_oj.Manager.{Machine, get_testcase_dir}
use npu_oj.Manager.Problems.{get_problem, find_problem, store_problem, fetch_testcase_from_ftp}
use npu_oj.Lang.Compile.{compile}
use npu_oj.Lang.Check.{with_verdict, check}
use npu_oj.Lang.Judging.{judge}
use npu_oj.Platform.{w_if_exited, w_if_signaled, w_if_stopped, w_stop_sig, w_exit_status}
use npu_oj.Db.{get_available_connection, init_db}
use npu_oj.Slots.{find_slot}
use npu_oj.Lang.Launch.{
  fault_memory, grow_memory, over_memory, check_state, total_time, note_time, check_time,
  note_memory, round, trace, last_memory, get_proc_info, watch, launch,
}
use npu_oj.Lang.Syscalls.{init_system_call_limits}
use npu_oj.Lang.Limits.{get_rl_cpu_millisecond}
use npu_oj.Config.Numbers.{strtoul, get_long, get_ulong, strtol}
use npu_oj.Units.Memory.{gt_size, get_byte, set_byte}
use npu_oj.Units.Time.{set_millisecond}
use npu_oj.Examples.World.{quiet, no_garbage, in_c, value_of, is_ok, value_of-eq}
use npu_oj.Base.Text.{Text, codes}
use npu_oj.Manager.Languages.{add_lang_judge, same_judge}
use npu_oj.Config.{
  key_pattern, regex_get_value, store_value, get_string, parse_real_path, contains_char, load_file,
}
use npu_oj.Network.{pick_mode, init_network}
use npu_oj.Daemon.{daemon_run, check_daemon_running, after_lock_file}
use npu_oj.Log.{log_init}
use npu_oj.Judges.{Judge, judge_dir, init_table}
use npu_oj.Manager.Dirs.{init_workdir, init_work_dir}
use npu_oj.Manager.Languages.Scripts.{read_script, register_judges}
use npu_oj.System.{System, run}
use npu_oj.System.Run.{Ran, run_lem}
use npu_oj.System.StartUp.{start_up, make_judges, init_judges}
use npu_oj.System.StartUp.Main.{Started, start_up_lem}
use npu_oj.System.Service.{run_all, AllServed, InService, served_lem}
use npu_oj.Judges.{Judge, judge_dir, lend_judge, free_judge}
use npu_oj.Manager.Languages.{judge_sbm}
use npu_oj.System.Progress.{run_returns}
use npu_oj.System.StartUp.{new_judge}
use npu_oj.Examples.Startup.{
  daemon_user, calm, calm_laws, begun, nothing, threes, as_root, alone, begun-eq,
}

abbrev outcome : Submission × System (Unit {0})
outcome = value_of (in_c, nothing) (run calm quiet no_garbage in_c begun.0)

outcome_ok : is_ok (run calm quiet no_garbage in_c begun.0) ≡ true
unfolding run judge w_if_exited w_if_signaled w_if_stopped w_stop_sig w_exit_status find_problem
    store_problem fetch_testcase_from_ftp get_problem get_testcase_dir get_available_connection
    find_slot assign_limit set_workdir new_testcase new_problem copy_problem add_testcase
    new_submission new_result compile fault_memory grow_memory over_memory check_state total_time
    note_time check_time note_memory round trace last_memory get_proc_info watch launch
    init_system_call_limits with_verdict check get_rl_cpu_millisecond set_byte set_millisecond
    gt_size strtoul get_byte start_up daemon_run check_daemon_running after_lock_file log_init
    load_file init_db init_network init_judges make_judges init_workdir init_work_dir
    register_judges read_script get_string get_long get_ulong regex_get_value store_value strtol
    parse_real_path contains_char pick_mode key_pattern add_lang_judge same_judge lend_judge
    init_table judge_sbm
outcome_ok = refl

outcome-eq : run calm quiet no_garbage in_c begun.0 ≡ ok (outcome.0, outcome.1)
outcome-eq = value_of-eq (in_c, nothing) (run calm quiet no_garbage in_c begun.0) outcome_ok

run_lem_example : Ran calm calm_laws quiet no_garbage in_c outcome.0 begun.0 outcome.1
run_lem_example =
    run_lem calm calm_laws quiet no_garbage in_c outcome.0 begun.0 outcome.1 outcome-eq

begun_ready : Started quiet calm calm_laws as_root alone threes 0 true tt begun.0
begun_ready =
    start_up_lem quiet calm calm_laws as_root alone threes 0 true tt begun.1 begun.0 begun-eq

some_judge : 0 < begun_ready.n
unfolding start_up daemon_run check_daemon_running after_lock_file log_init load_file init_db
    init_network init_judges make_judges init_workdir init_work_dir register_judges read_script
    get_string get_long get_ulong regex_get_value store_value strtol strtoul parse_real_path
    contains_char pick_mode key_pattern add_lang_judge same_judge
some_judge = let three : 3 ≡ begun_ready.n = begun_ready.ready.units.0 in omega (arith, three)

-- The second one finds the problem in the map.
abbrev twice : List Submission
twice = in_c ∷ in_c ∷ []

abbrev both : List Submission × System (Unit {0})
both = value_of ([], nothing) (run_all calm quiet no_garbage twice begun.0)

both_ok : is_ok (run_all calm quiet no_garbage twice begun.0) ≡ true
unfolding run_all run judge w_if_exited w_if_signaled w_if_stopped w_stop_sig w_exit_status
    find_problem store_problem fetch_testcase_from_ftp get_problem get_testcase_dir
    get_available_connection find_slot assign_limit set_workdir new_testcase new_problem
    copy_problem add_testcase new_submission new_result compile fault_memory grow_memory over_memory
    check_state total_time note_time check_time note_memory round trace last_memory get_proc_info
    watch launch init_system_call_limits with_verdict check get_rl_cpu_millisecond set_byte
    set_millisecond gt_size strtoul get_byte start_up daemon_run check_daemon_running
    after_lock_file log_init load_file init_db init_network init_judges make_judges init_workdir
    init_work_dir register_judges read_script get_string get_long get_ulong regex_get_value
    store_value strtol parse_real_path contains_char pick_mode key_pattern add_lang_judge same_judge
    lend_judge init_table judge_sbm free_judge
both_ok = refl

both-eq : run_all calm quiet no_garbage twice begun.0 ≡ ok (both.0, both.1)
both-eq = value_of-eq ([], nothing) (run_all calm quiet no_garbage twice begun.0) both_ok

served_lem_example :
    (cd cr pd pr : Text) × AllServed calm calm_laws quiet no_garbage cd cr pd pr twice both.0
    × InService calm calm_laws quiet no_garbage cd cr pd pr begun_ready.n both.1
    × (both.1.sem_fetch ≡ begun_ready.n + length twice)
served_lem_example =
    served_lem calm calm_laws quiet no_garbage begun_ready.n twice both.0 begun.0 both.1
      begun_ready.ready some_judge both-eq

abbrev script : Text
script = codes "3"

abbrev begun_judge : Judge
begun_judge = record { work_dir = judge_dir (codes "/home/noj") 0; m_uid = daemon_user.pw_uid }

begun_serves : InService calm calm_laws quiet no_garbage script script script script 3 begun.0
unfolding run_all run judge w_if_exited w_if_signaled w_if_stopped w_stop_sig w_exit_status
    find_problem store_problem fetch_testcase_from_ftp get_problem get_testcase_dir
    get_available_connection find_slot assign_limit set_workdir new_testcase new_problem
    copy_problem add_testcase new_submission new_result compile fault_memory grow_memory over_memory
    check_state total_time note_time check_time note_memory round trace last_memory get_proc_info
    watch launch init_system_call_limits with_verdict check get_rl_cpu_millisecond set_byte
    set_millisecond gt_size strtoul get_byte start_up daemon_run check_daemon_running
    after_lock_file log_init load_file init_db init_network init_judges make_judges init_workdir
    init_work_dir register_judges read_script get_string get_long get_ulong regex_get_value
    store_value strtol parse_real_path contains_char pick_mode key_pattern add_lang_judge same_judge
    lend_judge init_table judge_sbm free_judge judge_dir new_judge
begun_serves = record {
  steady = record { dir = refl; registry = refl; unlocked = refl };
  table = refl;
  units = refl;
  jdg = begun_judge;
  there = refl;
  named = refl;
}

abbrev alone_judged : Submission × Machine (Unit {0})
alone_judged =
    value_of (in_c, begun.0.machine) (judge_sbm quiet no_garbage begun_judge in_c begun.0.machine)

alone_judged_ok : is_ok (judge_sbm quiet no_garbage begun_judge in_c begun.0.machine) ≡ true
unfolding run_all run judge w_if_exited w_if_signaled w_if_stopped w_stop_sig w_exit_status
    find_problem store_problem fetch_testcase_from_ftp get_problem get_testcase_dir
    get_available_connection find_slot assign_limit set_workdir new_testcase new_problem
    copy_problem add_testcase new_submission new_result compile fault_memory grow_memory over_memory
    check_state total_time note_time check_time note_memory round trace last_memory get_proc_info
    watch launch init_system_call_limits with_verdict check get_rl_cpu_millisecond set_byte
    set_millisecond gt_size strtoul get_byte start_up daemon_run check_daemon_running
    after_lock_file log_init load_file init_db init_network init_judges make_judges init_workdir
    init_work_dir register_judges read_script get_string get_long get_ulong regex_get_value
    store_value strtol parse_real_path contains_char pick_mode key_pattern add_lang_judge same_judge
    lend_judge init_table judge_sbm free_judge
alone_judged_ok = refl

run_returns_example :
    (s' : System (Unit {0})) × (run calm quiet no_garbage in_c begun.0 ≡ ok (alone_judged.0, s'))
unfolding begun_serves judge_dir start_up judge_sbm
run_returns_example =
    run_returns calm calm_laws quiet no_garbage script script script script 3 in_c alone_judged.0
      begun.0 daemon_user alone_judged.1 begun_serves (omega arith) refl refl
      (value_of-eq (in_c, begun.0.machine)
        (judge_sbm quiet no_garbage begun_judge in_c begun.0.machine) alone_judged_ok)
