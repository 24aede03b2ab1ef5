-- ===== src/Examples/Records.antt =====
-- Concrete log entries, daemons, labels and problems.
use npu_oj.Base.{ℕ, ◌≡◌, ◌⊎◌, refl, true, ◌&&◌, none, some, List, [], ◌∷◌}
use npu_oj.Base.Int.{ℤ, pos, negsuc}
use npu_oj.Base.Text.{codes}
use npu_oj.Base.Effect.{ok, ◌>>=◌, pure}
use npu_oj.DataItem.{TestCase}
use npu_oj.Manager.Problems.Seed.{testcase_of}
use npu_oj.Daemon.{unlocked, busy, after_lock_file, check_daemon_running, LockFile, daemon_run}
use npu_oj.Daemon.Single.{returned, none_running, checks, locks, Daemons, daemon_unique}
use npu_oj.Daemon.Single as Single
use npu_oj.Daemon.Codes.{daemon_run_lem}
use npu_oj.Log.{Call, pieces, LogFile, writes}
use npu_oj.Log
use npu_oj.Log.Entries.{log_of, Represents, log_refines}
use npu_oj.Lang.Judging.{judge_cases}
use npu_oj.Lang.Judging.Reference.{run_cases, all_correct, add_results, judge_cases-run_cases}
use npu_oj.Examples.World.{quiet, fresh, zeros, first_judge, in_c, any_limit}
use npu_oj.Examples.Startup.{alone}

abbrev call : Call
call = record {
  datetime = codes "Thu\n";
  ptid = 5;
  message = codes "NOJ Start";
  classname = codes "Main";
}

-- A thread has the lock of an empty log.
abbrev locked : LogFile
locked = record {
  text = [];
  writer = some (record { thread = 5; call = call; rest = pieces call });
}

locked-Reach : Log.Reach [] locked
locked-Reach = Log.later Log.start (Log.locks 5 call refl)

log_refines_example :
    (calls : List Call) × Represents [] calls locked
    × (locked.writer ≡ none → locked.text ≡ log_of [] calls)
log_refines_example = log_refines [] locked locked-Reach

-- Process 3 has the lock.
abbrev third_runs : Daemons
third_runs = record {
  owner = some 3;
  phases = Single.put (Single.put none_running.phases 3 Single.locking) 3 (returned (pos 0));
}

third_runs-Reach : Single.Reach third_runs
unfolding check_daemon_running after_lock_file
third_runs-Reach = Single.later (Single.later Single.start (checks 3 refl)) (locks 3 refl)

daemon_unique_example : ◌≡◌ {A = ℕ} 3 3 × (third_runs.owner ≡ some 3)
daemon_unique_example = daemon_unique third_runs 3 3 third_runs-Reach refl refl

-- Another process takes the lock between the two calls of fcntl.
abbrev beaten : LockFile (Unit {0})
beaten = record alone { setlk = λ w. (busy, w) }

beaten_run : daemon_run beaten tt ≡ ok (negsuc 0, tt)
unfolding daemon_run check_daemon_running after_lock_file
beaten_run = refl

daemon_run_lem_example :
    (beaten.getlk (beaten.open_file tt).1 ≡ unlocked)
    × (◌⊎◌ (◌≡◌ {A = ℤ} (negsuc 0) (pos 0)) (◌≡◌ {A = ℤ} (negsuc 0) (negsuc 0)))
daemon_run_lem_example = daemon_run_lem beaten tt tt (negsuc 0) beaten_run

abbrev two_cases : List TestCase
two_cases =
    testcase_of (pos 0) (pos 0) (codes "1.in") (codes "1.out") (pos 0)
    ∷ testcase_of (pos 1) (pos 0) (codes "2.in") (codes "2.out") (pos 0)
    ∷ []

judge_cases-run_cases_example :
    judge_cases quiet zeros first_judge two_cases any_limit true in_c fresh
    ≡ (run_cases quiet zeros first_judge in_c two_cases any_limit
          >>= (λ rs. pure (true && all_correct rs, add_results in_c rs)))
        fresh
judge_cases-run_cases_example =
    judge_cases-run_cases quiet zeros first_judge in_c two_cases any_limit true fresh
