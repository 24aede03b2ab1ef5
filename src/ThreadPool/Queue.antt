-- ===== src/ThreadPool/Queue.antt =====
-- src/threadpool.cpp: the invariant of the mutex, the queue and the threads.
use npu_oj.Base.{
  ℕ, ◌≡◌, refl, sym, ap, ◌∙◌, ◌⊎◌, inl, inr, Bool, true, false, Option, none, some, List, [], ◌∷◌,
  ◌++◌, arith, if◌then◌else◌, Bool-cases, append_assoc,
}
use npu_oj.ThreadPool.{
  Place, locking, checking, will_wait, asleep, leaving, returned, running, ended, ThreadPool, put,
  is_empty, must_wait, lock, test_queue, sleep, wake, take_front, as_list, leave, after_get_task,
  resume, add_task, woken, set_shutdown, broadcast, Step, locks, tests, sleeps, wakes, leaves,
  resumes, finishes, adds, shuts, broadcasts, Reach, start, step,
}
use npu_oj.ThreadPool.Places.{
  true_false, none_some, some_inj, in_section, is_leaving, leaving-in_section, put-cases,
}

module _ {T : Type 0} where
  -- A thread in a critical section has the mutex; the tasks taken and those in the queue are the
  -- tasks added, in their order; a thread that is out of the loop finds a task unless the pool is
  -- shut down.
  pub record Inv (s : ThreadPool T) : Type 0 where
    pub owner : (i : ℕ) → in_section (s.threads i) ≡ true → s.holder ≡ some i
    pub fifo : s.taken ++ s.tasks ≡ s.added
    pub ready :
        (i : ℕ) → is_leaving (s.threads i) ≡ true → (s.shutdown ≡ true) ⊎ (is_empty s.tasks ≡ false)

  -- A thread enters its section, or stays in it.
  owner_enter :
      (s : ThreadPool T) (i : ℕ) (p : Place T)
      → Inv s
      → (s.holder ≡ none) ⊎ (s.holder ≡ some i)
      → (j : ℕ) → in_section (put s.threads i p j) ≡ true
      → some i ≡ some j
  owner_enter s i p v h j e = elim (put-cases in_section s.threads i p j e) [
    | inl (same, t) ↦ ap some (sym same)
    | inr (other, t) ↦ elim h [
      | inl free ↦ none_some (sym free ∙ v.owner j t)
      | inr mine ↦ sym mine ∙ v.owner j t
    ]
  ]

  -- A thread that is in no section changes its place.
  owner_outside :
      (s : ThreadPool T) (i : ℕ) (p : Place T)
      → Inv s
      → in_section p ≡ false
      → (j : ℕ) → in_section (put s.threads i p j) ≡ true
      → s.holder ≡ some j
  owner_outside s i p v out j e = elim (put-cases in_section s.threads i p j e) [
    | inl (same, t) ↦ true_false t out
    | inr (other, t) ↦ v.owner j t
  ]

  -- When a thread leaves its section, no thread is in one.
  alone :
      (s : ThreadPool T) (i : ℕ) (p : Place T) {A : Type 0}
      → Inv s
      → in_section (s.threads i) ≡ true
      → in_section p ≡ false
      → (j : ℕ) → in_section (put s.threads i p j) ≡ true
      → A
  alone s i p v mine out j e = elim (put-cases in_section s.threads i p j e) [
    | inl (same, t) ↦ true_false t out
    | inr (other, t) ↦ absurd (other (some_inj (sym (v.owner j t) ∙ v.owner i mine)))
  ]

  ready_put :
      (s : ThreadPool T) (i : ℕ) (p : Place T)
      → Inv s
      → ((is_leaving p ≡ true) → (s.shutdown ≡ true) ⊎ (is_empty s.tasks ≡ false))
      → (j : ℕ) → is_leaving (put s.threads i p j) ≡ true
      → (s.shutdown ≡ true) ⊎ (is_empty s.tasks ≡ false)
  ready_put s i p v h j e = elim (put-cases is_leaving s.threads i p j e) [
    | inl (same, t) ↦ h t
    | inr (other, t) ↦ v.ready j t
  ]

  -- A thread outside every section goes to another such place.
  moves :
      (s : ThreadPool T) (i : ℕ) (p : Place T)
      → in_section p ≡ false
      → Inv s
      → Inv (record s { threads = put s.threads i p })
  moves s i p out v = record {
    owner = owner_outside s i p v out;
    fifo = v.fifo;
    ready = ready_put s i p v (λ e. true_false (leaving-in_section p e) out);
  }

  tested-ready :
      (s : ThreadPool T)
      → is_leaving {T = T} (if must_wait s then will_wait else leaving) ≡ true
      → (s.shutdown ≡ true) ⊎ (is_empty s.tasks ≡ false)
  unfolding must_wait
  tested-ready s e = ground arith

  after_get_task-outside : (down : Bool) (r : Option T) → in_section (after_get_task down r) ≡ false
  unfolding after_get_task
  after_get_task-outside down none = refl
  after_get_task-outside true (some t) = refl
  after_get_task-outside false (some t) = refl

  is_empty-append : (ts : List T) (t : T) → is_empty (ts ++ t ∷ []) ≡ false
  is_empty-append [] t = refl
  is_empty-append (x ∷ xs) t = refl

  woken_keeps :
      (f : Place T → Bool)
      → f locking ≡ false
      → f asleep ≡ false
      → (p : Place T) → f (woken p) ≡ true
      → f p ≡ true
  woken_keeps f lk sl locking e = e
  woken_keeps f lk sl checking e = e
  woken_keeps f lk sl will_wait e = e
  woken_keeps f lk sl asleep e = true_false e lk
  woken_keeps f lk sl leaving e = e
  woken_keeps f lk sl (returned r) e = e
  woken_keeps f lk sl (running t) e = e
  woken_keeps f lk sl ended e = e

  -- What is taken from the front is what leaves the queue.
  take_front-append : (ts : List T) → as_list (take_front ts).0 ++ (take_front ts).1 ≡ ts
  take_front-append [] = refl
  take_front-append (t ∷ ts) = refl

  leave-Inv : (s : ThreadPool T) (i : ℕ) → s.threads i ≡ leaving → Inv s → Inv (leave i s)
  unfolding leave
  leave-Inv s i at v = elim (Bool-cases s.shutdown) [
    | inl down ↦ rw down (record {
      owner = λ j. alone s i (returned none) v (rw at refl) refl j;
      fifo = v.fifo;
      ready = λ j e. inl refl;
    })
    | inr up ↦ rw up (record {
      owner = λ j. alone s i (returned (take_front s.tasks).0) v (rw at refl) refl j;
      fifo =
          append_assoc s.taken _ _
          ∙ (ap (λ (l : List T). s.taken ++ l) (take_front-append s.tasks) ∙ v.fifo);
      ready = λ j e.
          alone s i (returned (take_front s.tasks).0) v (rw at refl) refl j
            (leaving-in_section _ e);
    })
  ]

  Step-Inv : {s s' : ThreadPool T} → Step s s' → Inv s → Inv s'
  unfolding lock test_queue sleep wake resume add_task set_shutdown broadcast
  Step-Inv {s = s} (locks i free at) v = record {
    owner = owner_enter s i checking v (inl free);
    fifo = v.fifo;
    ready = ready_put s i checking v (λ e. true_false e refl);
  }
  Step-Inv {s = s} (tests i at) v = record {
    owner = λ j e.
        v.owner i (rw at refl)
        ∙ owner_enter s i (if must_wait s then will_wait else leaving) v
            (inr (v.owner i (rw at refl))) j e;
    fifo = v.fifo;
    ready = ready_put s i (if must_wait s then will_wait else leaving) v (tested-ready s);
  }
  Step-Inv {s = s} (sleeps i at) v = record {
    owner = λ j. alone s i asleep v (rw at refl) refl j;
    fifo = v.fifo;
    ready = ready_put s i asleep v (λ e. true_false e refl);
  }
  Step-Inv {s = s} (wakes i at) v = moves s i locking refl v
  Step-Inv {s = s} (leaves i at) v = leave-Inv s i at v
  Step-Inv {s = s} (resumes i r at) v =
      moves s i (after_get_task s.shutdown r) (after_get_task-outside s.shutdown r) v
  Step-Inv {s = s} (finishes i t at) v = moves s i locking refl v
  Step-Inv {s = s} (adds t free) v = record {
    owner = v.owner;
    fifo = sym (append_assoc s.taken s.tasks (t ∷ [])) ∙ ap (λ (l : List T). l ++ t ∷ []) v.fifo;
    ready = λ j e. inr (is_empty-append s.tasks t);
  }
  Step-Inv {s = s} (shuts at) v = record { owner = v.owner; fifo = v.fifo; ready = λ j e. inl refl }
  Step-Inv {s = s} (broadcasts at) v = record {
    owner = λ j e. v.owner j (woken_keeps in_section refl refl (s.threads j) e);
    fifo = v.fifo;
    ready = λ j e. v.ready j (woken_keeps is_leaving refl refl (s.threads j) e);
  }

  pub Reach-Inv : {s : ThreadPool T} → Reach s → Inv s
  Reach-Inv start = record {
    owner = λ i e. true_false e refl;
    fifo = refl;
    ready = λ i e. true_false e refl;
  }
  Reach-Inv (step r st) = Step-Inv st (Reach-Inv r)
