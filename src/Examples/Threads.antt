-- ===== src/Examples/Threads.antt =====
-- Two work threads that judge at the same time.
use npu_oj.Base.{ℕ, ◌<◌, ◌≤◌, ◌≡◌, ◌≢◌, ◌⊎◌, refl, some, [], ◌∷◌, arith, get_elem?}
use npu_oj.Base.Int.{pos}
use npu_oj.Base.Text.{codes}
use npu_oj.Common.{JudgeMode}
use npu_oj.DataItem.{Submission, new_submission}
use npu_oj.Manager.Submissions.{make_tasks}
use npu_oj.Slots.{find_slot}
use npu_oj.Judges.{init_table, lend_judge, free_judge, judge_dir}
use npu_oj.Dispatch.{waiting, fetching}
use npu_oj.Dispatch as Counters
use npu_oj.Dispatch.Workers.{
  judging, granted, freed, crashed, Workers, init_workers, waits, adds, takes, passes, looks,
  gives_back, Reach, start, later,
}
use npu_oj.Dispatch.Workers.Refine.{abs, workers_refine}
use npu_oj.Dispatch.Workers.Lent.{never_crashes, dirs_apart}
use npu_oj.Dispatch.Workers.Fates.{all_in_hand, all_put, all_judged, none_lost}
use npu_oj.Base.Bag.{bag, ◌⊕◌}

-- Any submission may be fetched.
abbrev Any : Submission → Type 0
Any s = Unit

abbrev released : Submission
released = record (new_submission (pos 1) (pos 9)) { sbm_judge_set = 1 }

abbrev task : Submission
task = record released { sbm_cur_mode = JudgeMode.release }

-- The first thread has a judge, and the second has passed the semaphore.
abbrev one_looks : Workers
one_looks = record {
  queue = [];
  phases = judging task 0 ∷ granted task ∷ [];
  table = (lend_judge (init_table 2)).1;
  sem_judge = 0;
  sem_fetch = 0;
  place = waiting;
}

one_looks-Reach : Reach Any 2 one_looks
unfolding init_workers make_tasks new_submission lend_judge init_table find_slot
one_looks-Reach =
    later
      (later
        (later
          (later
            (later
              (later
                (later (later (later start (waits refl (omega arith))) (adds released refl tt))
                  (waits refl (omega arith)))
                (adds released refl tt))
              (takes 0 task (task ∷ []) (omega arith) refl refl))
            (takes 1 task [] (omega arith) refl refl))
          (passes 0 task (omega arith) refl (omega arith)))
        (looks 0 task (omega arith) refl))
      (passes 1 task (omega arith) refl (omega arith))

never_crashes_example :
    (get_elem? one_looks.phases 1 ≢ some crashed)
    × ((s : Submission)
        → 1 < 2
        → get_elem? one_looks.phases 1 ≡ some (granted s)
        → (k : ℕ) × ((lend_judge one_looks.table).0 ≡ some k))
never_crashes_example = never_crashes Any 2 one_looks 1 one_looks-Reach

workers_refine_example : Counters.Reach Any 2 (abs 2 one_looks)
workers_refine_example = workers_refine Any 2 one_looks one_looks-Reach

abbrev both_judge : Workers
both_judge = record one_looks {
  phases = judging task 0 ∷ judging task 1 ∷ [];
  table = (lend_judge one_looks.table).1;
}

both_judge-Reach : Reach Any 2 both_judge
unfolding lend_judge init_table find_slot
both_judge-Reach = later one_looks-Reach (looks 1 task (omega arith) refl)

dirs_apart_example :
    ◌≢◌ {A = ℕ} 0 1
    × ((1000 ≤ 0)
        ⊎ (1000 ≤ 1)
        ⊎ (judge_dir (codes "/home/noj") 0 ≢ judge_dir (codes "/home/noj") 1))
dirs_apart_example =
    dirs_apart Any 2 (codes "/home/noj") both_judge 0 1 0 1 task task both_judge-Reach refl refl
      (λ e. omega arith)

-- The first thread has given its judge back.
abbrev one_freed : Workers
one_freed = record both_judge {
  phases = freed ∷ judging task 1 ∷ [];
  table = free_judge 0 both_judge.table;
}

one_freed-Reach : Reach Any 2 one_freed
one_freed-Reach = later both_judge-Reach (gives_back 0 0 task (omega arith) refl)

none_lost_example :
    bag (all_put Any 2 one_freed-Reach)
    ≡ (bag one_freed.queue ⊕ all_in_hand one_freed.phases) ⊕ bag (all_judged Any 2 one_freed-Reach)
none_lost_example = none_lost Any 2 one_freed one_freed-Reach

-- Both tasks were put into the queue, and one is judged.
fates :
    (all_put Any 2 one_freed-Reach ≡ task ∷ task ∷ [])
    × (all_judged Any 2 one_freed-Reach ≡ task ∷ [])
unfolding all_put all_judged one_freed-Reach both_judge-Reach one_looks-Reach make_tasks
    new_submission lend_judge init_table find_slot init_workers
fates = (refl, refl)
