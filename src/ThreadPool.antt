-- ===== src/ThreadPool.antt =====
-- src/threadpool.cpp: the queue of tasks, the threads that take from it, and the end of the pool. A
-- step is what one thread does between two points at which another may come in between.
pub mod Places
pub mod Queue
pub mod Order
pub mod Fifo
pub mod Shutdown
use npu_oj.Base.{
  ℕ, ◌≡◌, refl, Bool, true, false, not, ◌&&◌, Option, none, some, List, [], ◌∷◌, ◌++◌, ◌==◌,
  if◌then◌else◌,
}

-- Where a work thread is, in WorkThread::run and in get_task, which it calls.
pub data Place (T : Type 0) : Type 0 where
  locking : Place T  -- before the mutex, or woken and about to take it again
  checking : Place T  -- has the mutex, before the test of the loop
  will_wait : Place T  -- has the mutex; the test said to wait
  asleep : Place T  -- in pthread_cond_wait
  leaving : Place T  -- has the mutex, and is out of the loop
  returned : Option T → Place T  -- get_task gave a task, or the null pointer
  running : T → Place T
  ended : Place T

-- Where the thread is that destroys the pool.
pub data Closing : Type 0 where
  opened shut joining : Closing

-- class ThreadPoolManager. `holder` has the mutex; `added` and `taken` are all the tasks so far, in
-- the order in which they were put into the queue and taken out of it.
pub record ThreadPool (T : Type 0) : Type 0 where
  pub shutdown : Bool
  pub tasks : List T
  pub holder : Option ℕ
  pub threads : ℕ → Place T
  pub closing : Closing
  pub added : List T
  pub taken : List T

module _ {T : Type 0} where
  abbrev pub put : (ℕ → Place T) → ℕ → Place T → ℕ → Place T
  put threads i p j = if j == i then p else threads j

  -- What init_workthreads makes: every thread is about to call get_task.
  abbrev pub init_workthreads : ThreadPool T
  init_workthreads = record {
    shutdown = false;
    tasks = [];
    holder = none;
    threads = λ i. locking;
    closing = opened;
    added = [];
    taken = [];
  }

  abbrev pub is_empty : List T → Bool
  is_empty [] = true
  is_empty (t ∷ ts) = false

  -- `m_que_tasks.empty() && !m_shutdown`
  unfoldable pub must_wait : ThreadPool T → Bool
  must_wait s = is_empty s.tasks && not s.shutdown

  unfoldable pub lock : ℕ → ThreadPool T → ThreadPool T
  lock i s = record s { holder = some i; threads = put s.threads i checking }

  unfoldable pub test_queue : ℕ → ThreadPool T → ThreadPool T
  test_queue i s = record s {
    threads = put s.threads i (if must_wait s then will_wait else leaving);
  }

  unfoldable pub sleep : ℕ → ThreadPool T → ThreadPool T
  sleep i s = record s { holder = none; threads = put s.threads i asleep }

  -- By pthread_cond_signal in add_task, or for no reason, which the interface allows.
  unfoldable pub wake : ℕ → ThreadPool T → ThreadPool T
  wake i s = record s { threads = put s.threads i locking }

  -- front() and pop(); of an empty queue they are undefined behaviour, here the null pointer.
  abbrev take_front : List T → Option T × List T
  take_front [] = (none, [])
  take_front (t ∷ ts) = (some t, ts)

  abbrev as_list : Option T → List T
  as_list none = []
  as_list (some t) = t ∷ []

  -- The rest of get_task after the loop.
  unfoldable pub leave : ℕ → ThreadPool T → ThreadPool T
  leave i s =
      if s.shutdown
      then record s { holder = none; threads = put s.threads i (returned none) }
      else record s {
        holder = none;
        tasks = (take_front s.tasks).1;
        threads = put s.threads i (returned (take_front s.tasks).0);
        taken = s.taken ++ as_list (take_front s.tasks).0;
      }

  -- The test in WorkThread::run: a task that comes with the shutdown is freed and not run.
  unfoldable pub after_get_task : Bool → Option T → Place T
  after_get_task down none = ended
  after_get_task true (some t) = ended
  after_get_task false (some t) = running t

  unfoldable pub resume : ℕ → Option T → ThreadPool T → ThreadPool T
  resume i r s = record s { threads = put s.threads i (after_get_task s.shutdown r) }

  -- The critical section of add_task.
  unfoldable pub add_task : T → ThreadPool T → ThreadPool T
  add_task t s = record s { tasks = s.tasks ++ t ∷ []; added = s.added ++ t ∷ [] }

  abbrev woken : Place T → Place T
  woken asleep = locking
  woken p = p

  -- The two parts of pool_destroy before it joins the threads. Neither takes the mutex.
  unfoldable pub set_shutdown : ThreadPool T → ThreadPool T
  set_shutdown s = record s { shutdown = true; closing = shut }

  unfoldable pub broadcast : ThreadPool T → ThreadPool T
  broadcast s = record s { threads = λ i. woken (s.threads i); closing = joining }

  pub data Step (s : ThreadPool T) : ThreadPool T → Type 0 where
    locks : (i : ℕ) → s.holder ≡ none → s.threads i ≡ locking → Step s (lock i s)
    tests : (i : ℕ) → s.threads i ≡ checking → Step s (test_queue i s)
    sleeps : (i : ℕ) → s.threads i ≡ will_wait → Step s (sleep i s)
    wakes : (i : ℕ) → s.threads i ≡ asleep → Step s (wake i s)
    leaves : (i : ℕ) → s.threads i ≡ leaving → Step s (leave i s)
    resumes : (i : ℕ) (r : Option T) → s.threads i ≡ returned r → Step s (resume i r s)
    finishes : (i : ℕ) (t : T) → s.threads i ≡ running t → Step s (wake i s)
    adds : (t : T) → s.holder ≡ none → Step s (add_task t s)
    shuts : s.closing ≡ opened → Step s (set_shutdown s)
    broadcasts : s.closing ≡ shut → Step s (broadcast s)

  -- Any number of steps.
  pub data Steps (s : ThreadPool T) : ThreadPool T → Type 0 where
    here : Steps s s
    more : {u v : ThreadPool T} → Steps s u → Step u v → Steps s v

  pub data Reach : ThreadPool T → Type 0 where
    start : Reach init_workthreads
    step : {s s' : ThreadPool T} → Reach s → Step s s' → Reach s'
