-- ===== src/Examples/Settings.antt =====
-- Concrete limits, settings and names.
use npu_oj.Base.{ℕ, ◌≤◌, ◌≡◌, ◌≢◌, ◌↔◌, refl, true, some, [], ◌++◌, arith, ltb, ◌==◌, if◌then◌else◌}
use npu_oj.Base.Int.{pos, negsuc}
use npu_oj.Base.Text.{Text, codes, print_nat, print_long}
use npu_oj.Base.Effect.{ok}
use npu_oj.Common.{NojState}
use npu_oj.Units.Time.{TimeUsage}
use npu_oj.DataItem.{ResourceLimit}
use npu_oj.Lang.Limits.{get_rl_cpu_second, get_rl_cpu_millisecond}
use npu_oj.Lang.Limits.Bounds.{cpu_second-ceil}
use npu_oj.Lang.Syscalls.{sys_call_init}
use npu_oj.Lang.Syscalls.Table.{free_calls, sys_execve, contains, sys_call_init_lem}
use npu_oj.Config.{Pcre, regex_get_value, store_value, noj_workdir, contains_char, parse_real_path}
use npu_oj.Config.Numbers.{get_long}
use npu_oj.Config.Numbers.RoundTrip.{get_long-print_long}
use npu_oj.Config.Paths.{parse_real_path_expands}
use npu_oj.Network.{NetworkMode, Network, new_network, fetch_file}
use npu_oj.Network.Fetch.{exit_word, ftp_never_fails}
use npu_oj.Platform.{Os}
use npu_oj.Judges.{judge_dir}
use npu_oj.Judges.Dirs.{judge_dir-distinct}
use npu_oj.Examples.World.{quiet, any_limit}

abbrev one_and_a_half : TimeUsage
one_and_a_half = record { is_set = true; time_size = 1500 }

abbrev both_limits : ResourceLimit
both_limits = record any_limit {
  single_time_limit = one_and_a_half;
  total_time_limit = record { is_set = true; time_size = 2500 };
}

cpu_second-ceil_example :
    (get_rl_cpu_second both_limits ≤ 2) ↔ (get_rl_cpu_millisecond both_limits ≤ 2000)
cpu_second-ceil_example = cpu_second-ceil both_limits 2

sys_call_init_lem_example : sys_call_init (λ n. pos n) 200 ≡ (
    if contains free_calls 200
    then negsuc 0
    else if 200 == sys_execve
    then pos 1
    else if ltb 200 128
    then pos 0
    else pos 200)
sys_call_init_lem_example = sys_call_init_lem (λ n. pos n) 200

abbrev always : Text → Pcre
always value = record { compiles = λ pattern. true; group = λ pattern subject. some value }

get_long-print_long_example :
    get_long (always (print_long (negsuc 41))) (some []) (codes "DB_PORT") ≡ ok (negsuc 41)
unfolding regex_get_value store_value
get_long-print_long_example =
    get_long-print_long (always (print_long (negsuc 41))) (some []) (codes "DB_PORT") (negsuc 41)
      (omega arith) refl

parse_real_path_expands_example :
    parse_real_path (some (codes "/noj")) (codes "./" ++ (noj_workdir ++ codes "/cc.sh"))
    ≡ ok (some (codes "/noj" ++ codes "/cc.sh"))
unfolding contains_char
parse_real_path_expands_example =
    parse_real_path_expands (codes "/noj") (codes "./") (codes "/cc.sh") refl

abbrev over : NetworkMode → Network
over mode = record new_network { m_mode = mode }

abbrev ends_with : ℕ → Os (Unit {0})
ends_with code = record quiet { system = λ command w. (exit_word code, w) }

ftp_never_fails_example :
    (fetch_file (ends_with 1) (over NetworkMode.ftp) (codes "a.in") (codes "/b") tt).0
    ≡ NojState.normal
ftp_never_fails_example =
    ftp_never_fails (ends_with 1) (over NetworkMode.ftp) (codes "a.in") (codes "/b") tt 1 refl refl

judge_dir-distinct_example :
    (judge_dir (codes "/home/noj") 3 ≡ codes "/home/noj" ++ (codes "/judge" ++ print_nat 3))
    × (judge_dir (codes "/home/noj") 3 ≢ judge_dir (codes "/home/noj") 12)
judge_dir-distinct_example =
    judge_dir-distinct (codes "/home/noj") 3 12 (omega arith) (omega arith) (λ e. omega arith)
