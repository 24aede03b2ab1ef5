-- ===== src/Dispatch.antt =====
-- src/judge.cpp: how loop_routine and the work threads, which run JudgeTask::run, pass submissions on.
-- Two semaphores count: `jm_sem_fetch_submissions`, which release_judge posts, and `jm_sem_judge`.
pub mod Flow
pub mod Workers
use npu_oj.Base.{ℕ, ◌+◌, ◌-◌, ◌<◌, ◌≡◌, refl, List, [], ◌∷◌, length, Bool, true, false}
use npu_oj.DataItem.{Submission}
use npu_oj.Manager.Submissions.{make_tasks}

-- Where loop_routine is: about to wait for a token, or with one and about to fetch.
pub data LoopPlace : Type 0 where
  waiting fetching : LoopPlace

-- The two semaphores, the tasks in the queue of the pool, and the threads that run one: before
-- get_judge, with a judge, and between the two posts of release_judge.
pub record Dispatch : Type 0 where
  pub sem_fetch : ℕ
  pub sem_judge : ℕ
  pub place : LoopPlace
  pub queued : ℕ
  pub starting : ℕ
  pub judging : ℕ
  pub releasing : ℕ

-- What init_judges leaves.
abbrev pub init_dispatch : ℕ → Dispatch
init_dispatch judges_num = record {
  sem_fetch = judges_num;
  sem_judge = judges_num;
  place = waiting;
  queued = 0;
  starting = 0;
  judging = 0;
  releasing = 0;
}

-- `Fetched s` says that fetch_submission_from_db may return `s`.
pub data Step (Fetched : Submission → Type 0) (d : Dispatch) : Dispatch → Type 0 where
  waits :
      d.place ≡ waiting
      → 0 < d.sem_fetch
      → Step Fetched d (record d { sem_fetch = d.sem_fetch - 1; place = fetching })
  adds :
      (s : Submission)
      → d.place ≡ fetching
      → Fetched s
      → Step Fetched d (record d { queued = d.queued + length (make_tasks s); place = waiting })
  takes :
      0 < d.queued → Step Fetched d (record d { queued = d.queued - 1; starting = d.starting + 1 })
  gets_judge :
      0 < d.starting
      → 0 < d.sem_judge
      → Step Fetched d (record d {
        starting = d.starting - 1;
        sem_judge = d.sem_judge - 1;
        judging = d.judging + 1;
      })
  posts_judge :
      0 < d.judging
      → Step Fetched d (record d {
        judging = d.judging - 1;
        sem_judge = d.sem_judge + 1;
        releasing = d.releasing + 1;
      })
  posts_fetch :
      0 < d.releasing
      → Step Fetched d (record d { releasing = d.releasing - 1; sem_fetch = d.sem_fetch + 1 })

pub data Reach (Fetched : Submission → Type 0) (judges_num : ℕ) : Dispatch → Type 0 where
  start : Reach Fetched judges_num (init_dispatch judges_num)
  later :
      {d e : Dispatch} → Reach Fetched judges_num d → Step Fetched d e → Reach Fetched judges_num e
