-- ===== src/Dispatch/Workers.antt =====
-- src/judge.cpp: loop_routine and the work threads in detail: the submissions in the queue, where
-- each thread is in JudgeTask::run, get_judge and release_judge, and the table of the judges.
pub mod Refine
pub mod Owner
pub mod Lent
pub mod Fates
use npu_oj.Base.{
  ℕ, ◌+◌, ◌-◌, ◌<◌, ◌≡◌, refl, Bool, true, false, Option, none, some, List, [], ◌∷◌, ◌++◌,
  get_elem?, set, replicate,
}
use npu_oj.DataItem.{Submission}
use npu_oj.Manager.Submissions.{make_tasks}
use npu_oj.Judges.{Judges, init_table, lend_judge, free_judge}
use npu_oj.Dispatch.{LoopPlace, waiting, fetching}

-- Where a work thread is: without a task; with one before sem_wait in get_judge; past it; with judge
-- `k`; and in release_judge after the flag is reset, and between the two posts. A thread that gets
-- the null pointer crashes.
pub data Phase : Type 0 where
  idle : Phase
  starting : Submission → Phase
  granted : Submission → Phase
  judging : Submission → ℕ → Phase
  freed : Phase
  posting : Phase
  crashed : Phase

pub record Workers : Type 0 where
  pub queue : List Submission
  pub phases : List Phase
  pub table : Judges
  pub sem_judge : ℕ
  pub sem_fetch : ℕ
  pub place : LoopPlace

-- What init_judges leaves: as many threads as judges.
unfoldable pub init_workers : ℕ → Workers
init_workers judges_num = record {
  queue = [];
  phases = replicate judges_num idle;
  table = init_table judges_num;
  sem_judge = judges_num;
  sem_fetch = judges_num;
  place = waiting;
}

abbrev pub with_found : Submission → Option ℕ → Phase
with_found s none = crashed
with_found s (some k) = judging s k

-- Thread `i` of `n` goes on, or the loop does.
pub data Step (Fetched : Submission → Type 0) (n : ℕ) (c : Workers) : Workers → Type 0 where
  waits :
      c.place ≡ waiting
      → 0 < c.sem_fetch
      → Step Fetched n c (record c { sem_fetch = c.sem_fetch - 1; place = fetching })
  adds :
      (s : Submission)
      → c.place ≡ fetching
      → Fetched s
      → Step Fetched n c (record c { queue = c.queue ++ make_tasks s; place = waiting })
  takes :
      (i : ℕ) (s : Submission) (rest : List Submission)
      → i < n
      → get_elem? c.phases i ≡ some idle
      → c.queue ≡ s ∷ rest
      → Step Fetched n c (record c { queue = rest; phases = set c.phases i (starting s) })
  passes :
      (i : ℕ) (s : Submission)
      → i < n
      → get_elem? c.phases i ≡ some (starting s)
      → 0 < c.sem_judge
      → Step Fetched n c
          (record c { sem_judge = c.sem_judge - 1; phases = set c.phases i (granted s) })
  looks :
      (i : ℕ) (s : Submission)
      → i < n
      → get_elem? c.phases i ≡ some (granted s)
      → Step Fetched n c (record c {
        table = (lend_judge c.table).1;
        phases = set c.phases i (with_found s (lend_judge c.table).0);
      })
  gives_back :
      (i k : ℕ) (s : Submission)
      → i < n
      → get_elem? c.phases i ≡ some (judging s k)
      → Step Fetched n c (record c { table = free_judge k c.table; phases = set c.phases i freed })
  posts_judge :
      (i : ℕ)
      → i < n
      → get_elem? c.phases i ≡ some freed
      → Step Fetched n c (record c { sem_judge = c.sem_judge + 1; phases = set c.phases i posting })
  posts_fetch :
      (i : ℕ)
      → i < n
      → get_elem? c.phases i ≡ some posting
      → Step Fetched n c (record c { sem_fetch = c.sem_fetch + 1; phases = set c.phases i idle })

pub data Reach (Fetched : Submission → Type 0) (n : ℕ) : Workers → Type 0 where
  start : Reach Fetched n (init_workers n)
  later : {c d : Workers} → Reach Fetched n c → Step Fetched n c d → Reach Fetched n d
