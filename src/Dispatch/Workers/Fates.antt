-- ===== src/Dispatch/Workers/Fates.antt =====
-- src/judge.cpp: what becomes of the tasks that loop_routine puts into the queue.
use npu_oj.Base.{
  ℕ, zero, suc, ◌≡◌, refl, sym, ap, ◌∙◌, some, List, [], ◌∷◌, ◌++◌, get_elem?, set, replicate,
}
use npu_oj.Base.Bag.{
  Bag, bag, ◌⊕◌, ⊕_assoc, ⊕_comm, ⊕_left_comm, ⊕_right_comm, nil-⊕, ⊕-nil, bag-append,
}
use npu_oj.DataItem.{Submission}
use npu_oj.Manager.Submissions.{make_tasks}
use npu_oj.Dispatch.Workers.{
  Phase, idle, starting, granted, judging, freed, posting, crashed, Workers, init_workers, Step,
  waits, adds, takes, passes, looks, gives_back, posts_judge, posts_fetch, Reach, start, later,
}
use npu_oj.Dispatch.Workers.Lent.{never_crashes}

-- The task that a thread has, until it gives its judge back.
abbrev pub in_hand : Phase → List Submission
in_hand idle = []
in_hand (starting s) = s ∷ []
in_hand (granted s) = s ∷ []
in_hand (judging s k) = s ∷ []
in_hand freed = []
in_hand posting = []
in_hand crashed = []

pub all_in_hand : List Phase → Bag Submission
all_in_hand [] = bag []
all_in_hand (p ∷ ps) = bag (in_hand p) ⊕ all_in_hand ps

-- A thread that moves on with its task.
stays :
    (ps : List Phase) (i : ℕ) (a b : Phase)
    → get_elem? ps i ≡ some a
    → in_hand a ≡ in_hand b
    → all_in_hand (set ps i b) ≡ all_in_hand ps
unfolding all_in_hand
stays [] i a b at same = cc at
stays (p ∷ ps) zero a b at same =
    let now : p ≡ a = cc at in ap (λ xs. bag xs ⊕ all_in_hand ps) (sym same ∙ ap in_hand (sym now))
stays (p ∷ ps) (suc i) a b at same = ap (λ x. bag (in_hand p) ⊕ x) (stays ps i a b at same)

-- A thread that gets a task, or is done with it.
moves :
    (ps : List Phase) (i : ℕ) (a b : Phase)
    → get_elem? ps i ≡ some a
    → bag (in_hand b) ⊕ all_in_hand ps ≡ bag (in_hand a) ⊕ all_in_hand (set ps i b)
unfolding all_in_hand
moves [] i a b at = cc at
moves (p ∷ ps) zero a b at =
    let now : p ≡ a = cc at in
    ap (λ x. bag (in_hand b) ⊕ (bag (in_hand x) ⊕ all_in_hand ps)) now
    ∙ ⊕_left_comm (bag (in_hand b)) (bag (in_hand a)) (all_in_hand ps)
moves (p ∷ ps) (suc i) a b at =
    ⊕_left_comm (bag (in_hand b)) (bag (in_hand p)) (all_in_hand ps)
    ∙ ap (λ x. bag (in_hand p) ⊕ x) (moves ps i a b at)
    ∙ ⊕_left_comm (bag (in_hand p)) (bag (in_hand a)) (all_in_hand (set ps i b))

module _ (Fetched : Submission → Type 0) (n : ℕ) where
  -- The tasks that a step puts into the queue, and the one that it is done with.
  abbrev put : {c d : Workers} → Step Fetched n c d → List Submission
  put (adds s at f) = make_tasks s
  put (waits at h) = []
  put (takes i s rest lt at q) = []
  put (passes i s lt at h) = []
  put (looks i s lt at) = []
  put (gives_back i k s lt at) = []
  put (posts_judge i lt at) = []
  put (posts_fetch i lt at) = []

  abbrev done : {c d : Workers} → Step Fetched n c d → List Submission
  done (gives_back i k s lt at) = s ∷ []
  done (adds s at f) = []
  done (waits at h) = []
  done (takes i s rest lt at q) = []
  done (passes i s lt at h) = []
  done (looks i s lt at) = []
  done (posts_judge i lt at) = []
  done (posts_fetch i lt at) = []

  -- All the tasks so far, and all that are judged, in their order.
  unfoldable pub all_put : {c : Workers} → Reach Fetched n c → List Submission
  all_put start = []
  all_put (later r st) = all_put r ++ put st

  unfoldable pub all_judged : {c : Workers} → Reach Fetched n c → List Submission
  all_judged start = []
  all_judged (later r st) = all_judged r ++ done st

  waiting_tasks : Workers → Bag Submission
  waiting_tasks c = bag c.queue ⊕ all_in_hand c.phases

  stays_put :
      (c : Workers) (i : ℕ) (a b : Phase)
      → get_elem? c.phases i ≡ some a
      → in_hand a ≡ in_hand b
      → waiting_tasks c ⊕ bag [] ≡ (bag c.queue ⊕ all_in_hand (set c.phases i b)) ⊕ bag []
  unfolding waiting_tasks
  stays_put c i a b at same =
      ap (λ x. (bag c.queue ⊕ x) ⊕ bag []) (sym (stays c.phases i a b at same))

  Step-kept :
      {c d : Workers}
      → Reach Fetched n c
      → (st : Step Fetched n c d) → waiting_tasks c ⊕ bag (put st) ≡ waiting_tasks d ⊕ bag (done st)
  unfolding waiting_tasks
  Step-kept {c} r (waits at h) = refl
  Step-kept {c} r (adds s at f) = simp (bag-append, ⊕-nil, ⊕_assoc, ⊕_comm, ⊕_left_comm)
  Step-kept {c} r (takes i s rest lt at q) =
      let now = set c.phases i (starting s) in
      let got : bag (s ∷ []) ⊕ all_in_hand c.phases ≡ all_in_hand now =
        moves c.phases i idle (starting s) at ∙ nil-⊕ (all_in_hand now) in
      let front : bag c.queue ≡ bag rest ⊕ bag (s ∷ []) =
        ap bag q ∙ bag-append (s ∷ []) rest ∙ ⊕_comm (bag (s ∷ [])) (bag rest) in
      ap (λ x. (x ⊕ all_in_hand c.phases) ⊕ bag []) front
      ∙ ap (λ x. x ⊕ bag []) (⊕_assoc (bag rest) (bag (s ∷ [])) (all_in_hand c.phases))
      ∙ ap (λ x. (bag rest ⊕ x) ⊕ bag []) got
  Step-kept {c} r (passes i s lt at h) = stays_put c i (starting s) (granted s) at refl
  Step-kept {c} r (looks i s lt at) =
      let (k, found) = (never_crashes Fetched n c i r).1 s lt at in
      rw found (stays_put c i (granted s) (judging s k) at refl)
  Step-kept {c} r (gives_back i k s lt at) =
      let now = all_in_hand (set c.phases i freed) in
      let gone : all_in_hand c.phases ≡ now ⊕ bag (s ∷ []) =
        sym (nil-⊕ (all_in_hand c.phases))
        ∙ moves c.phases i (judging s k) freed at
        ∙ ⊕_comm (bag (s ∷ [])) now in
      ⊕-nil (waiting_tasks c)
      ∙ ap (λ x. bag c.queue ⊕ x) gone
      ∙ sym (⊕_assoc (bag c.queue) now (bag (s ∷ [])))
  Step-kept {c} r (posts_judge i lt at) = stays_put c i freed posting at refl
  Step-kept {c} r (posts_fetch i lt at) = stays_put c i posting idle at refl

  none_in_hand : (n : ℕ) → all_in_hand (replicate n idle) ≡ bag []
  unfolding all_in_hand
  none_in_hand zero = refl
  none_in_hand (suc n) = nil-⊕ (all_in_hand (replicate n idle)) ∙ none_in_hand n

  accounted :
      {c : Workers} (r : Reach Fetched n c) → bag (all_put r) ≡ waiting_tasks c ⊕ bag (all_judged r)
  unfolding all_put all_judged waiting_tasks init_workers
  accounted start =
      sym (nil-⊕ (bag []))
      ∙ sym (ap (λ x. (bag [] ⊕ x) ⊕ bag []) (none_in_hand n) ∙ ⊕-nil (bag [] ⊕ bag []))
  accounted (later {c = c} {d = d} r st) =
      bag-append (all_put r) (put st)
      ∙ ap (λ x. x ⊕ bag (put st)) (accounted r)
      ∙ ⊕_right_comm (waiting_tasks c) (bag (all_judged r)) (bag (put st))
      ∙ ap (λ x. x ⊕ bag (all_judged r)) (Step-kept r st)
      ∙ ⊕_right_comm (waiting_tasks d) (bag (done st)) (bag (all_judged r))
      ∙ ⊕_assoc (waiting_tasks d) (bag (all_judged r)) (bag (done st))
      ∙ ap (λ x. waiting_tasks d ⊕ x) (sym (bag-append (all_judged r) (done st)))

  empty_hands :
      (ps : List Phase)
      → ((i : ℕ) (p : Phase) → get_elem? ps i ≡ some p → in_hand p ≡ [])
      → all_in_hand ps ≡ bag []
  unfolding all_in_hand
  empty_hands [] free = refl
  empty_hands (p ∷ ps) free =
      ap (λ xs. bag xs ⊕ all_in_hand ps) (free 0 p refl)
      ∙ nil-⊕ (all_in_hand ps)
      ∙ empty_hands ps (λ i q at. free (suc i) q at)

  -- No task is lost, and none is judged twice: however the loop and the threads interleave, the tasks
  -- that the loop has put into the queue are, in some order, those that are still in it, those that a
  -- thread has in hand, and those that are judged.
  pub none_lost :
      (c : Workers) (r : Reach Fetched n c)
      → bag (all_put r) ≡ (bag c.queue ⊕ all_in_hand c.phases) ⊕ bag (all_judged r)
  unfolding waiting_tasks
  none_lost c r = accounted r

  -- When nothing is left to do, all the tasks are judged.
  pub idle-judged :
      (c : Workers) (r : Reach Fetched n c)
      → c.queue ≡ []
      → ((i : ℕ) (p : Phase) → get_elem? c.phases i ≡ some p → in_hand p ≡ [])
      → bag (all_put r) ≡ bag (all_judged r)
  idle-judged c r empty free =
      none_lost c r
      ∙ ap (λ x. x ⊕ bag (all_judged r))
          (ap (λ xs. bag xs ⊕ all_in_hand c.phases) empty
            ∙ nil-⊕ (all_in_hand c.phases)
            ∙ empty_hands c.phases free)
      ∙ nil-⊕ (bag (all_judged r))
