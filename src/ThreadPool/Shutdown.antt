-- ===== src/ThreadPool/Shutdown.antt =====
-- src/threadpool.cpp: what pool_destroy does to the threads.
use npu_oj.Base.{
  ℕ, ◌≡◌, ◌≢◌, refl, sym, ap, ◌∙◌, ◌⊎◌, inl, inr, true, ◌==◌, ==_iff, if◌then◌else◌, Bool-cases,
}
use npu_oj.ThreadPool.{
  Place, locking, checking, will_wait, asleep, leaving, returned, running, ThreadPool, put, opened,
  joining, must_wait, lock, test_queue, sleep, wake, leave, after_get_task, resume, add_task,
  set_shutdown, broadcast, Step, locks, tests, sleeps, wakes, leaves, resumes, finishes, adds,
  shuts, broadcasts, Steps, here, more,
}
use npu_oj.ThreadPool.Places.{put_self}

module _ {T : Type 0} where
  -- The wake-up can be lost: from every state in which the pool is not being destroyed and a thread
  -- has found the queue empty but is not yet asleep, the threads can go on to a state in which
  -- pool_destroy has sent its only broadcast and joins the threads, and that thread is asleep.
  pub wakeup_lost :
      (s : ThreadPool T) (i : ℕ)
      → s.closing ≡ opened
      → s.threads i ≡ will_wait
      → (s' : ThreadPool T) × Steps s s'
        × (s'.closing ≡ joining)
        × (s'.shutdown ≡ true)
        × (s'.threads i ≡ asleep)
  unfolding set_shutdown broadcast sleep
  wakeup_lost s i intact at =
      let joined = broadcast (set_shutdown s) in
      (
        sleep i joined,
        more (more (more here (shuts intact)) (broadcasts refl)) (sleeps i (rw at refl)),
        refl,
        refl,
        put_self joined.threads i asleep,
      )

  -- What a step does to thread `i`, when it is not the step of that thread.
  put_other :
      (threads : ℕ → Place T) (j i : ℕ) (p q : Place T)
      → threads i ≡ p
      → threads j ≡ q
      → p ≢ q
      → (r : Place T) → put threads j r i ≡ p
  put_other threads j i p q at_i at_j differ r = elim (Bool-cases (i == j)) [
    | inl same ↦ absurd (differ (sym at_i ∙ ap threads ((==_iff i j).0 same) ∙ at_j))
    | inr other ↦ rw other at_i
  ]

  -- After the broadcast nothing in the pool wakes a thread that sleeps: whatever step follows while
  -- the threads are joined, the thread is still asleep and the joining goes on, unless the step is
  -- a wake-up of that thread by a signal, which only add_task sends, or for no reason.
  pub stays_asleep :
      (s s' : ThreadPool T) (i : ℕ)
      → Step s s'
      → s.closing ≡ joining
      → s.threads i ≡ asleep
      → ((s'.threads i ≡ asleep) × (s'.closing ≡ joining)) ⊎ (s' ≡ wake i s)
  unfolding lock test_queue sleep wake leave resume add_task
  stays_asleep s s' i (locks j free at) c a =
      inl (put_other s.threads j i asleep locking a at (λ e. cc) checking, c)
  stays_asleep s s' i (tests j at) c a = inl (
    put_other s.threads j i asleep checking a at (λ e. cc)
        (if must_wait s then will_wait else leaving),
    c,
  )
  stays_asleep s s' i (sleeps j at) c a =
      inl (put_other s.threads j i asleep will_wait a at (λ e. cc) asleep, c)
  stays_asleep s s' i (wakes j at) c a = elim (Bool-cases (i == j)) [
    | inl same ↦ inr (ap (λ k. wake k s) (sym ((==_iff i j).0 same)))
    | inr other ↦ inl (rw other a, c)
  ]
  stays_asleep s s' i (leaves j at) c a = elim (Bool-cases s.shutdown) [
    | inl down ↦ inl (rw down (put_other s.threads j i asleep leaving a at (λ e. cc) _), rw down c)
    | inr up ↦ inl (rw up (put_other s.threads j i asleep leaving a at (λ e. cc) _), rw up c)
  ]
  stays_asleep s s' i (resumes j r at) c a =
      inl (
        put_other s.threads j i asleep (returned r) a at (λ e. cc) (after_get_task s.shutdown r),
        c,
      )
  stays_asleep s s' i (finishes j t at) c a =
      inl (put_other s.threads j i asleep (running t) a at (λ e. cc) locking, c)
  stays_asleep s s' i (adds t free) c a = inl (a, c)
  stays_asleep s s' i (shuts at) c a = cc
  stays_asleep s s' i (broadcasts at) c a = cc

  -- A pool that is shut down hands out no task: no step takes one, or ends the shutdown.
  pub shutdown_final :
      (s s' : ThreadPool T)
      → Step s s'
      → s.shutdown ≡ true
      → (s'.shutdown ≡ true) × (s'.taken ≡ s.taken)
  unfolding lock test_queue sleep wake leave resume add_task set_shutdown broadcast
  shutdown_final s s' (locks j free at) d = (d, refl)
  shutdown_final s s' (tests j at) d = (d, refl)
  shutdown_final s s' (sleeps j at) d = (d, refl)
  shutdown_final s s' (wakes j at) d = (d, refl)
  shutdown_final s s' (leaves j at) d = (rw d refl, rw d refl)
  shutdown_final s s' (resumes j r at) d = (d, refl)
  shutdown_final s s' (finishes j t at) d = (d, refl)
  shutdown_final s s' (adds t free) d = (d, refl)
  shutdown_final s s' (shuts at) d = (refl, refl)
  shutdown_final s s' (broadcasts at) d = (d, refl)
