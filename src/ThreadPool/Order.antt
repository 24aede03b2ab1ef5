-- ===== src/ThreadPool/Order.antt =====
-- src/threadpool.cpp: the mutex and the order of the tasks.
use npu_oj.Base.{
  ℕ, ◌≡◌, refl, sym, ◌∙◌, ◌⊎◌, inl, inr, true, none, some, List, [], ◌∷◌, ◌++◌, Bool-cases,
}
use npu_oj.ThreadPool.{leaving, returned, ThreadPool, leave, Reach}
use npu_oj.ThreadPool.Places.{in_section, true_false, some_inj, put_self}
use npu_oj.ThreadPool.Queue.{Reach-Inv}

module _ {T : Type 0} where
  front : (ts : List T) → (ts ≡ []) ⊎ ((t : T) × (rest : List T) × (ts ≡ t ∷ rest))
  front [] = inl refl
  front (t ∷ ts) = inr (t, ts, refl)

  -- The work threads exclude each other: in every state that is reached, two threads between
  -- pthread_mutex_lock and pthread_mutex_unlock are the same thread.
  pub one_in_section :
      (s : ThreadPool T) (i j : ℕ)
      → Reach s
      → in_section (s.threads i) ≡ true
      → in_section (s.threads j) ≡ true
      → i ≡ j
  one_in_section s i j r a b = let v = Reach-Inv r in some_inj (sym (v.owner i a) ∙ v.owner j b)

  -- The queue keeps the order of the tasks and loses none: in every state that is reached, the tasks
  -- taken, followed by those in the queue, are the tasks added.
  pub taken_in_order : (s : ThreadPool T) → Reach s → s.taken ++ s.tasks ≡ s.added
  taken_in_order s r = (Reach-Inv r).fifo

  -- get_task never takes the front of an empty queue: in every state that is reached, a thread that
  -- has left the loop of get_task returns the null pointer when the pool is shut down, and otherwise
  -- returns a task, the one that stood first.
  pub leave_takes :
      (s : ThreadPool T) (i : ℕ)
      → Reach s
      → s.threads i ≡ leaving
      → ((s.shutdown ≡ true) × ((leave i s).threads i ≡ returned none))
        ⊎ ((t : T) × (s.tasks ≡ t ∷ (leave i s).tasks)
            × ((leave i s).threads i ≡ returned (some t)))
  unfolding leave
  leave_takes s i r at = elim (Bool-cases s.shutdown) [
    | inl down ↦ inl (down, rw down (put_self s.threads i (returned none)))
    | inr up ↦ elim (front s.tasks) [
      | inl none_left ↦ elim ((Reach-Inv r).ready i (rw at refl)) [
        | inl down ↦ true_false down up
        | inr some_left ↦ true_false (rw none_left refl) some_left
      ]
      | inr (t, ts, e) ↦
          inr (t, rw (up, e) refl, rw (up, e) (put_self s.threads i (returned (some t))))
    ]
  ]
