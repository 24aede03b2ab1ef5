-- ===== src/Examples/Dispatching.antt =====
-- Concrete submissions that are fetched and passed on.
use npu_oj.Base.{◌+◌, ◌-◌, length, ap, ◌<◌, ◌≡◌, ◌≢◌, refl, true, some, [], ◌∷◌, arith}
use npu_oj.Base.Int.{pos}
use npu_oj.Base.Text.{codes}
use npu_oj.Base.Effect.{ok, blocks}
use npu_oj.Common.{JudgeMode}
use npu_oj.DataItem.{Submission, new_submission}
use npu_oj.Platform
use npu_oj.Platform.{Os}
use npu_oj.Manager.{Machine, get_src_dir}
use npu_oj.Manager.Problems.{on_db, not_null, run_query, fetch}
use npu_oj.Slots.{find_slot}
use npu_oj.Db.{get_available_connection, release_connection}
use npu_oj.Manager.Submissions.{
  make_tasks, read_rows, read_row, after_answer, src_dir, poll, fetch_submission_from_db,
}
use npu_oj.Manager.Submissions.Fetching.{fetched_one_task}
use npu_oj.Manager.Submissions.Waiting.{poll-ends}
use npu_oj.Dispatch.{Dispatch, init_dispatch, waits, adds, takes, Reach, start, later}
use npu_oj.Dispatch.Flow.{token, Returned, judge_never_awaited, idle_is_whole}
use npu_oj.Examples.World.{quiet, fresh, value_of, is_ok, value_of-eq}

-- A database that always has a submission in C.
abbrev busy : Os (Unit {0})
busy = record quiet {
  query = λ sql w. (
    Platform.rows
        ((some (codes "9") ∷ some (codes "1") ∷ some (codes "9.c") ∷ some (codes "c") ∷ []) ∷ []),
    w,
  );
}

abbrev blank : Submission
blank = new_submission (pos 0) (pos 0)

abbrev fetched : Submission × Machine (Unit {0})
fetched = value_of (blank, fresh) (fetch_submission_from_db busy 1 blank fresh)

fetched_ok : is_ok (fetch_submission_from_db busy 1 blank fresh) ≡ true
unfolding fetch_submission_from_db poll read_rows read_row after_answer src_dir get_src_dir on_db
    get_available_connection not_null run_query fetch find_slot release_connection
fetched_ok = refl

fetched-eq : fetch_submission_from_db busy 1 blank fresh ≡ ok (fetched.0, fetched.1)
fetched-eq = value_of-eq (blank, fresh) (fetch_submission_from_db busy 1 blank fresh) fetched_ok

one_task_of_fetched :
    make_tasks fetched.0 ≡ record fetched.0 { sbm_cur_mode = JudgeMode.release } ∷ []
one_task_of_fetched = fetched_one_task busy 1 blank fetched.0 fresh fetched.1 fetched-eq

poll-ends_example : poll busy 3 blank fresh ≢ blocks
poll-ends_example = poll-ends busy 3 blank fresh refl

-- One task has been added and taken by a thread.
abbrev one_starting : Dispatch
one_starting = record (init_dispatch 2) {
  sem_fetch = 1;
  queued = 0 + length (make_tasks fetched.0) - 1;
  starting = 1;
}

one_starting-Reach : Reach (Returned busy) 2 one_starting
one_starting-Reach =
    later
      (later (later start (waits refl (omega arith)))
        (adds fetched.0 refl (1, blank, fresh, fetched.1, fetched-eq)))
      (takes (omega (arith, ap length one_task_of_fetched)))

judge_never_awaited_example : (one_starting.queued < 2) × (0 < one_starting.sem_judge)
judge_never_awaited_example =
    judge_never_awaited busy 2 one_starting one_starting-Reach (omega arith)

idle_is_whole_example :
    ((init_dispatch 2).sem_judge ≡ 2)
    × ((init_dispatch 2).sem_fetch + token (init_dispatch 2).place ≡ 2)
idle_is_whole_example = idle_is_whole busy 2 (init_dispatch 2) start (omega arith)
