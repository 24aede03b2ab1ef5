-- ===== src/Dispatch/Workers/Refine.antt =====
-- src/judge.cpp: the threads in detail, beside the counters of Dispatch and the lending protocol.
use npu_oj.Base.{
  ℕ, zero, suc, ◌+◌, ◌<◌, ◌≡◌, refl, sym, ap, subst, ◌∙◌, ◌⊎◌, inl, inr, Bool, true, false, Option,
  none, some, List, [], ◌∷◌, ◌++◌, arith, if◌then◌else◌, get_elem?, set, length, length-append,
}
use npu_oj.DataItem.{Submission}
use npu_oj.Manager.Submissions.{make_tasks}
use npu_oj.Slots.{count_slots, slot_is, count_slots-set, count_slots-replicate}
use npu_oj.Judges.{lend_judge}
use npu_oj.Dispatch.{LoopPlace, waiting, fetching, Dispatch, init_dispatch}
use npu_oj.Dispatch as Counters
use npu_oj.Dispatch.Workers.{
  Phase, idle, starting, granted, judging, freed, posting, crashed, Workers, init_workers,
  with_found, Step, waits, adds, takes, passes, looks, gives_back, posts_judge, posts_fetch, Reach,
  start, later,
}

abbrev pub is_starting : Phase → Bool
is_starting (starting s) = true
is_starting _ = false

abbrev pub is_granted : Phase → Bool
is_granted (granted s) = true
is_granted _ = false

abbrev pub has_judge : Phase → Bool
has_judge (judging s k) = true
has_judge _ = false

abbrev pub is_freed : Phase → Bool
is_freed freed = true
is_freed _ = false

abbrev pub is_posting : Phase → Bool
is_posting posting = true
is_posting _ = false

-- The phases that Dispatch counts as `judging`: between sem_wait and the post of get_judge's
-- semaphore. A crashed thread never posts.
abbrev pub in_judge : Phase → Bool
in_judge (granted s) = true
in_judge (judging s k) = true
in_judge freed = true
in_judge crashed = true
in_judge _ = false

abbrev one_if : Bool → ℕ
one_if b = if b then 1 else 0

pub elem-slot :
    (p : Phase → Bool) (xs : List Phase) (i : ℕ) (a : Phase)
    → get_elem? xs i ≡ some a
    → (slot_is p xs i ≡ p a) × (i < length xs)
elem-slot p [] i a h = cc h
elem-slot p (x ∷ xs) zero a h = let same : x ≡ a = cc h in (ap p same, omega arith)
elem-slot p (x ∷ xs) (suc i) a h = let (e, lt) = elem-slot p xs i a h in (e, omega (arith, lt))

-- How a thread that moves changes a count.
pub count_moves :
    (p : Phase → Bool) (n : ℕ) (xs : List Phase) (i : ℕ) (a b : Phase)
    → i < n
    → get_elem? xs i ≡ some a
    → count_slots p n (set xs i b) + one_if (p a) ≡ count_slots p n xs + one_if (p b)
count_moves p n xs i a b lt h =
    let (e, within) = elem-slot p xs i a h in
    ap (λ c. count_slots p n (set xs i b) + one_if c) (sym e) ∙ count_slots-set p n xs i b lt within

abbrev Moves : ℕ → List Phase → ℕ → Phase → Phase → (Phase → Bool) → Type 0
Moves n xs i a b p = count_slots p n (set xs i b) + one_if (p a) ≡ count_slots p n xs + one_if (p b)

moves :
    (n : ℕ) (xs : List Phase) (i : ℕ) (a b : Phase)
    → i < n
    → get_elem? xs i ≡ some a
    → Moves n xs i a b is_starting × Moves n xs i a b in_judge × Moves n xs i a b is_posting
moves n xs i a b lt h = (
  count_moves is_starting n xs i a b lt h,
  count_moves in_judge n xs i a b lt h,
  count_moves is_posting n xs i a b lt h,
)

-- What the counters of Dispatch count.
pub abs : ℕ → Workers → Dispatch
abs n c = record {
  sem_fetch = c.sem_fetch;
  sem_judge = c.sem_judge;
  place = c.place;
  queued = length c.queue;
  starting = count_slots is_starting n c.phases;
  judging = count_slots in_judge n c.phases;
  releasing = count_slots is_posting n c.phases;
}

counters-eq :
    {a b : Dispatch}
    → a.sem_fetch ≡ b.sem_fetch
    → a.sem_judge ≡ b.sem_judge
    → a.place ≡ b.place
    → a.queued ≡ b.queued
    → (a.starting ≡ b.starting) × (a.judging ≡ b.judging) × (a.releasing ≡ b.releasing)
    → a ≡ b
counters-eq {a} {b} f j p q (s, g, r) = cc (f, j, p, q, s, g, r)

module _ (Fetched : Submission → Type 0) (n : ℕ) where
  -- A step is one of the counters, or changes none of them.
  abbrev Follows : Workers → Workers → Type 0
  Follows c d = (abs n d ≡ abs n c) ⊎ Counters.Step Fetched (abs n c) (abs n d)

  -- The search under the mutex changes no count.
  looked_moves :
      (xs : List Phase) (i : ℕ) (s : Submission) (found : Option ℕ)
      → i < n
      → get_elem? xs i ≡ some (granted s)
      → let ys = set xs i (with_found s found) in
        (count_slots is_starting n ys ≡ count_slots is_starting n xs)
        × (count_slots in_judge n ys ≡ count_slots in_judge n xs)
        × (count_slots is_posting n ys ≡ count_slots is_posting n xs)
  looked_moves xs i s none lt at =
      let (cs, cj, cp) = moves n xs i (granted s) crashed lt at in
      (omega (arith, cs), omega (arith, cj), omega (arith, cp))
  looked_moves xs i s (some k) lt at =
      let (cs, cj, cp) = moves n xs i (granted s) (judging s k) lt at in
      (omega (arith, cs), omega (arith, cj), omega (arith, cp))

  Step-Follows : {c d : Workers} → Step Fetched n c d → Follows c d
  unfolding abs
  Step-Follows {c} (waits at h) = inr (Counters.waits at h)
  Step-Follows {c} (adds s at f) =
      let more : length (c.queue ++ make_tasks s) ≡ length c.queue + length (make_tasks s) =
        length-append c.queue (make_tasks s) in
      inr (
        subst (Counters.Step Fetched (abs n c))
          (counters-eq refl refl refl (sym more) (refl, refl, refl)) (Counters.adds s at f))
  Step-Follows {c} (takes i s rest lt at q) =
      let (cs, cj, cp) = moves n c.phases i idle (starting s) lt at in
      let len : length c.queue ≡ suc (length rest) = ap length q in
      inr (
        subst (Counters.Step Fetched (abs n c))
          (counters-eq refl refl refl (omega (arith, len))
            (omega (arith, cs), omega (arith, cj), omega (arith, cp)))
          (Counters.takes (omega (arith, len))))
  Step-Follows {c} (passes i s lt at h) =
      let (cs, cj, cp) = moves n c.phases i (starting s) (granted s) lt at in
      inr (
        subst (Counters.Step Fetched (abs n c))
          (counters-eq refl refl refl refl
            (omega (arith, cs), omega (arith, cj), omega (arith, cp)))
          (Counters.gets_judge (omega (arith, cs)) h))
  Step-Follows {c} (looks i s lt at) =
      let (cs, cj, cp) = looked_moves c.phases i s (lend_judge c.table).0 lt at in
      inl (counters-eq refl refl refl refl (cs, cj, cp))
  Step-Follows {c} (gives_back i k s lt at) =
      let (cs, cj, cp) = moves n c.phases i (judging s k) freed lt at in
      inl
        (counters-eq refl refl refl refl (omega (arith, cs), omega (arith, cj), omega (arith, cp)))
  Step-Follows {c} (posts_judge i lt at) =
      let (cs, cj, cp) = moves n c.phases i freed posting lt at in
      inr (
        subst (Counters.Step Fetched (abs n c))
          (counters-eq refl refl refl refl
            (omega (arith, cs), omega (arith, cj), omega (arith, cp)))
          (Counters.posts_judge (omega (arith, cj))))
  Step-Follows {c} (posts_fetch i lt at) =
      let (cs, cj, cp) = moves n c.phases i posting idle lt at in
      inr (
        subst (Counters.Step Fetched (abs n c))
          (counters-eq refl refl refl refl
            (omega (arith, cs), omega (arith, cj), omega (arith, cp)))
          (Counters.posts_fetch (omega (arith, cp))))

  init-abs : abs n (init_workers n) ≡ init_dispatch n
  unfolding abs init_workers
  init-abs = counters-eq refl refl refl refl (
    count_slots-replicate is_starting n n idle refl,
    count_slots-replicate in_judge n n idle refl,
    count_slots-replicate is_posting n n idle refl,
  )

  -- The threads in detail do what the counters of the two semaphores say: in every state that they
  -- reach, the counts of the queued tasks and of the threads before get_judge, with a judge and in
  -- release_judge are a state of Dispatch that is reached from the same start.
  pub workers_refine : (c : Workers) → Reach Fetched n c → Counters.Reach Fetched n (abs n c)
  workers_refine c start = subst (Counters.Reach Fetched n) (sym init-abs) Counters.start
  workers_refine d (later {c} r st) = elim (Step-Follows st) [
    | inl same ↦ subst (Counters.Reach Fetched n) (sym same) (workers_refine c r)
    | inr step ↦ Counters.later (workers_refine c r) step
  ]
