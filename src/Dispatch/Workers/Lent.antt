-- ===== src/Dispatch/Workers/Lent.antt =====
-- src/judge.cpp: the threads in detail and the lending protocol.
use npu_oj.Base.{
  ℕ, ◌<◌, ◌≤◌, ◌≡◌, ◌≢◌, refl, sym, ap, subst, ◌∙◌, ◌⊎◌, inl, inr, false, ltb, Bool-cases, some,
  arith, get_elem?, set,
}
use npu_oj.Base.Text.{Text}
use npu_oj.DataItem.{Submission}
use npu_oj.Slots.{count_slots, count_slots-replicate}
use npu_oj.Lending.Protocol as Protocol
use npu_oj.Judges.{init_table, lend_judge, free_judge, judge_dir}
use npu_oj.Judges.Pool.{judges, judge_found}
use npu_oj.Judges.Owners.{lend_judge-holds, free_judge-holds}
use npu_oj.Judges.Dirs.{judge_dir-distinct}
use npu_oj.Dispatch.Workers.{
  Phase, idle, starting, granted, judging, freed, posting, crashed, Workers, init_workers,
  with_found, Step, waits, adds, takes, passes, looks, gives_back, posts_judge, posts_fetch, Reach,
  start, later,
}
use npu_oj.Dispatch.Workers.Refine.{is_granted, is_freed, count_moves}
use npu_oj.Dispatch.Workers.Owner.{Owned, move-Owned, plain-Owned, init-Owned}

-- What the lending protocol counts.
shared : ℕ → Workers → Protocol.Shared judges
shared n c = record {
  table = c.table;
  sem = c.sem_judge;
  granted = count_slots is_granted n c.phases;
  posting = count_slots is_freed n c.phases;
}

shared-eq :
    {a b : Protocol.Shared judges}
    → a.table ≡ b.table
    → a.sem ≡ b.sem
    → a.granted ≡ b.granted
    → a.posting ≡ b.posting
    → a ≡ b
shared-eq t s g p = cc (t, s, g, p)

module _ (Fetched : Submission → Type 0) (n : ℕ) where
  -- What holds in every state: the protocol is followed, and every judge has one owner.
  record Inv (c : Workers) : Type 0 where
    protocol : Protocol.Reach judges (init_table n) n (shared n c)
    owned : Owned c.phases c.table

  -- A thread moves that has to do neither with the search nor with the semaphore.
  quiet-Inv :
      (c d : Workers) (i : ℕ) (a b : Phase)
      → i < n
      → get_elem? c.phases i ≡ some a
      → (is_granted a ≡ false)
        × (is_granted b ≡ false)
        × (is_freed a ≡ false)
        × (is_freed b ≡ false)
      → (d.table ≡ c.table) × (d.sem_judge ≡ c.sem_judge) × (d.phases ≡ set c.phases i b)
      → ((s : Submission) (k : ℕ) → ¬ (b ≡ judging s k))
      → ¬ (b ≡ crashed)
      → Inv c
      → Inv d
  unfolding shared
  quiet-Inv c d i a b lt at (ga, gb, fa, fb) (t, sem, phases) none_got fine v =
      let cg = rw (ga, gb) at (count_moves is_granted n c.phases i a b lt at) in
      let cf = rw (fa, fb) at (count_moves is_freed n c.phases i a b lt at) in
      let same : shared n d ≡ shared n c =
        shared-eq t sem (ap (count_slots is_granted n) phases ∙ omega (arith, cg))
          (ap (count_slots is_freed n) phases ∙ omega (arith, cf)) in
      record {
        protocol = subst (Protocol.Reach judges (init_table n) n) (sym same) v.protocol;
        owned =
            subst (λ xs. Owned xs d.table) (sym phases)
              (subst (Owned (set c.phases i b)) (sym t)
                (plain-Owned c.phases c.table i a b at v.owned none_got fine));
      }

  Step-Inv : {c d : Workers} → Step Fetched n c d → Inv c → Inv d
  unfolding shared
  Step-Inv {c} (waits at h) v = record { protocol = v.protocol; owned = v.owned }
  Step-Inv {c} (adds s at f) v = record { protocol = v.protocol; owned = v.owned }
  Step-Inv {c} (takes i s rest lt at q) v =
      quiet-Inv c _ i idle (starting s) lt at (refl, refl, refl, refl) (refl, refl, refl)
        (λ u k e. cc e) (λ e. cc e) v
  Step-Inv {c} (passes i s lt at h) v =
      let cg = count_moves is_granted n c.phases i (starting s) (granted s) lt at in
      let cf = count_moves is_freed n c.phases i (starting s) (granted s) lt at in
      record {
        protocol = Protocol.later v.protocol (
            subst (Protocol.Step judges (shared n c))
              (shared-eq refl refl (omega (arith, cg)) (omega (arith, cf))) (Protocol.wait h));
        owned =
            plain-Owned c.phases c.table i (starting s) (granted s) at v.owned (λ u k e. cc e)
              (λ e. cc e);
      }
  Step-Inv {c} (looks i s lt at) v =
      let idle_moves = count_moves is_granted n c.phases i (granted s) idle lt at in
      let (k, found, free, below) =
        judge_found n (shared n c) v.protocol (omega (arith, idle_moves)) in
      let cg = count_moves is_granted n c.phases i (granted s) (judging s k) lt at in
      let cf = count_moves is_freed n c.phases i (granted s) (judging s k) lt at in
      let (now, still) = lend_judge-holds c.table k found in
      subst
        (λ o.
          Inv
            (record c { table = (lend_judge c.table).1; phases = set c.phases i (with_found s o) }))
        (sym found)
        (record {
          protocol = Protocol.later v.protocol (
              subst (Protocol.Step judges (shared n c))
                (shared-eq refl refl (omega (arith, cg)) (omega (arith, cf)))
                (Protocol.look (omega (arith, idle_moves))));
          owned =
              move-Owned c.phases c.table (lend_judge c.table).1 i (granted s) (judging s k) at
                v.owned (λ j l u d h. still l (v.owned.held j l u h))
                (λ u l e. let same : k ≡ l = cc e in (rw (← same) free, rw (← same) now))
                (λ e. cc e);
        })
  Step-Inv {c} (gives_back i k s lt at) v =
      let cg = count_moves is_granted n c.phases i (judging s k) freed lt at in
      let cf = count_moves is_freed n c.phases i (judging s k) freed lt at in
      record {
        protocol = Protocol.later v.protocol (
            subst (Protocol.Step judges (shared n c))
              (shared-eq refl refl (omega (arith, cg)) (omega (arith, cf)))
              (Protocol.give_back k (v.owned.held i k s at)));
        owned =
            move-Owned c.phases c.table (free_judge k c.table) i (judging s k) freed at v.owned
              (λ j l u d h.
                free_judge-holds c.table k l
                  (λ e. d (v.owned.alone i j k s u at (h ∙ ap (λ x. some (judging u x)) (sym e))))
                  (v.owned.held j l u h))
              (λ u l e. cc e) (λ e. cc e);
      }
  Step-Inv {c} (posts_judge i lt at) v =
      let cg = count_moves is_granted n c.phases i freed posting lt at in
      let cf = count_moves is_freed n c.phases i freed posting lt at in
      record {
        protocol = Protocol.later v.protocol (
            subst (Protocol.Step judges (shared n c))
              (shared-eq refl refl (omega (arith, cg)) (omega (arith, cf)))
              (Protocol.post (omega (arith, cf))));
        owned = plain-Owned c.phases c.table i freed posting at v.owned (λ u k e. cc e) (λ e. cc e);
      }
  Step-Inv {c} (posts_fetch i lt at) v =
      quiet-Inv c _ i posting idle lt at (refl, refl, refl, refl) (refl, refl, refl) (λ u k e. cc e)
        (λ e. cc e) v

  Reach-Inv : {c : Workers} → Reach Fetched n c → Inv c
  unfolding init_workers shared init_table
  Reach-Inv start = record {
    protocol =
        subst (Protocol.Reach judges (init_table n) n)
          (shared-eq refl refl (sym (count_slots-replicate is_granted n n idle refl))
            (sym (count_slots-replicate is_freed n n idle refl)))
          Protocol.start;
    owned = init-Owned n (init_table n);
  }
  Reach-Inv (later r st) = Step-Inv st (Reach-Inv r)

  -- No work thread crashes on the null pointer: in every state that the loop and the threads reach, a
  -- thread that has passed the semaphore has found a judge, or will.
  pub never_crashes :
      (c : Workers) (i : ℕ)
      → Reach Fetched n c
      → (get_elem? c.phases i ≢ some crashed)
        × ((s : Submission)
            → i < n
            → get_elem? c.phases i ≡ some (granted s)
            → (k : ℕ) × ((lend_judge c.table).0 ≡ some k))
  unfolding shared
  never_crashes c i r =
      let v = Reach-Inv r in
      (
        v.owned.safe i,
        λ s lt at.
            let moves = count_moves is_granted n c.phases i (granted s) idle lt at in
            let (k, found, free, below) =
              judge_found n (shared n c) v.protocol (omega (arith, moves)) in
            (k, found),
      )

  -- Two threads that judge at the same time have different judges; unless one of the two judges has a
  -- number of 1000 or more, they work in different directories.
  pub dirs_apart :
      (main_dir : Text) (c : Workers) (i j k l : ℕ) (s u : Submission)
      → Reach Fetched n c
      → get_elem? c.phases i ≡ some (judging s k)
      → get_elem? c.phases j ≡ some (judging u l)
      → i ≢ j
      → (k ≢ l) × ((1000 ≤ k) ⊎ (1000 ≤ l) ⊎ (judge_dir main_dir k ≢ judge_dir main_dir l))
  dirs_apart main_dir c i j k l s u r hi hj d =
      let v = Reach-Inv r in
      let apart : k ≢ l =
        λ e. d (v.owned.alone i j k s u hi (hj ∙ ap (λ x. some (judging u x)) (sym e))) in
      (
        apart,
        elim (Bool-cases (ltb k 1000)) [
          | inr high_k ↦ inl (ground (arith, high_k))
          | inl low_k ↦ elim (Bool-cases (ltb l 1000)) [
            | inr high_l ↦ inr (inl (ground (arith, high_l)))
            | inl low_l ↦ inr (
                inr (
                  (judge_dir-distinct main_dir k l (ground (arith, low_k)) (ground (arith, low_l))
                    apart).1))
          ]
        ],
      )
