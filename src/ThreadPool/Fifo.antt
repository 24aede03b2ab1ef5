-- ===== src/ThreadPool/Fifo.antt =====
-- src/threadpool.cpp: the pool as a queue, without its mutex and its threads.
use npu_oj.Base.{
  ℕ, ◌≡◌, ◌≢◌, refl, ◌⊎◌, inl, inr, Bool, true, false, Option, none, some, List, [], ◌∷◌, ◌++◌,
  ◌==◌, if◌then◌else◌, Bool-cases,
}
use npu_oj.ThreadPool.{
  Place, locking, checking, will_wait, asleep, leaving, returned, running, ended, ThreadPool, put,
  woken, must_wait, after_get_task, is_empty, lock, test_queue, sleep, wake, leave, resume,
  add_task, set_shutdown, broadcast, Step, locks, tests, sleeps, wakes, leaves, resumes, finishes,
  adds, shuts, broadcasts, Reach,
}
use npu_oj.ThreadPool.Places.{true_false, put_self}
use npu_oj.ThreadPool.Queue.{Reach-Inv}

module _ {T : Type 0} where
  -- No thread gets the null pointer from get_task, unless the pool is shut down.
  abbrev pub NoneEmpty : ThreadPool T → ThreadPool T → Type 0
  NoneEmpty s s' =
      (i : ℕ) → s'.threads i ≡ returned none → (s.threads i ≡ returned none) ⊎ (s.shutdown ≡ true)

  -- What a queue does: nothing, take in a task at its end, or give its front to a thread, which gets
  -- it from get_task.
  pub data QueueStep (s s' : ThreadPool T) : Type 0 where
    keeps : s'.tasks ≡ s.tasks → s'.taken ≡ s.taken → NoneEmpty s s' → QueueStep s s'
    puts :
        (t : T)
        → s'.tasks ≡ s.tasks ++ t ∷ []
        → s'.taken ≡ s.taken
        → s'.threads ≡ s.threads
        → QueueStep s s'
    gives :
        (i : ℕ) (t : T)
        → s.shutdown ≡ false
        → s.tasks ≡ t ∷ s'.tasks
        → s'.threads i ≡ returned (some t)
        → s'.taken ≡ s.taken ++ t ∷ []
        → QueueStep s s'

  -- The null pointer is not what a thread has that moved elsewhere.
  other_place :
      (threads : ℕ → Place T) (i j : ℕ) (p : Place T)
      → p ≢ returned none
      → put threads i p j ≡ returned none
      → threads j ≡ returned none
  other_place threads i j p other e = elim (Bool-cases (j == i)) [
    | inl moved ↦ absurd (other (rw moved at e))
    | inr stays ↦ rw stays at e
  ]

  tested : (b : Bool) → ◌≢◌ {A = Place T} (if b then will_wait else leaving) (returned none)
  tested true e = cc e
  tested false e = cc e

  resumed : (down : Bool) (r : Option T) → after_get_task down r ≢ returned none
  unfolding after_get_task
  resumed true none e = cc e
  resumed false none e = cc e
  resumed true (some t) e = cc e
  resumed false (some t) e = cc e

  broadcast_place : (p : Place T) → woken p ≡ returned none → p ≡ returned none
  broadcast_place locking e = e
  broadcast_place checking e = e
  broadcast_place will_wait e = e
  broadcast_place asleep e = cc e
  broadcast_place leaving e = e
  broadcast_place (returned r) e = e
  broadcast_place (running t) e = e
  broadcast_place ended e = e

  give_front :
      (s : ThreadPool T) (i : ℕ)
      → s.shutdown ≡ false
      → (ts : List T) → s.tasks ≡ ts
      → is_empty ts ≡ false
      → QueueStep s (leave i s)
  unfolding leave
  give_front s i up [] e filled = true_false refl filled
  give_front s i up (t ∷ ts) e filled =
      gives i t up (rw (up, e) refl) (rw (up, e) (put_self s.threads i (returned (some t))))
        (rw (up, e) refl)

  leave-QueueStep :
      (s : ThreadPool T) (i : ℕ)
      → (s.shutdown ≡ true) ⊎ (is_empty s.tasks ≡ false)
      → QueueStep s (leave i s)
  unfolding leave
  leave-QueueStep s i ready = elim (Bool-cases s.shutdown) [
    | inl down ↦ keeps (rw down refl) (rw down refl) (λ j e. inr down)
    | inr up ↦ elim ready [
      | inl down ↦ true_false down up
      | inr filled ↦ give_front s i up s.tasks refl filled
    ]
  ]

  -- However the threads interleave, the pool is a queue: in every state that is reached, a step leaves
  -- the queue alone, puts a task at its end, or gives the front to a thread that returns it from
  -- get_task; and no thread gets the null pointer from get_task, so that none takes from an empty
  -- queue, unless the pool is shut down.
  pub pool_refines : (s s' : ThreadPool T) → Reach s → Step s s' → QueueStep s s'
  unfolding lock test_queue sleep wake resume add_task set_shutdown broadcast
  pool_refines s s' r (locks i free at) =
      keeps refl refl (λ j e. inl (other_place s.threads i j checking (λ d. cc d) e))
  pool_refines s s' r (tests i at) = keeps refl refl (λ j e. inl (
      other_place s.threads i j (if must_wait s then will_wait else leaving) (tested (must_wait s))
        e))
  pool_refines s s' r (sleeps i at) =
      keeps refl refl (λ j e. inl (other_place s.threads i j asleep (λ d. cc d) e))
  pool_refines s s' r (wakes i at) =
      keeps refl refl (λ j e. inl (other_place s.threads i j locking (λ d. cc d) e))
  pool_refines s s' r (leaves i at) = leave-QueueStep s i ((Reach-Inv r).ready i (rw at refl))
  pool_refines s s' r (resumes i got at) = keeps refl refl (λ j e.
      inl (other_place s.threads i j (after_get_task s.shutdown got) (resumed s.shutdown got) e))
  pool_refines s s' r (finishes i t at) =
      keeps refl refl (λ j e. inl (other_place s.threads i j locking (λ d. cc d) e))
  pool_refines s s' r (adds t free) = puts t refl refl refl
  pool_refines s s' r (shuts at) = keeps refl refl (λ j e. inl e)
  pool_refines s s' r (broadcasts at) =
      keeps refl refl (λ j e. inl (broadcast_place (s.threads j) e))
