-- ===== src/Daemon/Single.antt =====
-- src/daemon.cpp: several processes in daemon_run, interleaved.
use npu_oj.Base.{
  ℕ, ◌≡◌, ◌≢◌, refl, sym, ap, ◌∙◌, inl, inr, false, Option, none, some, arith, ◌==◌, if◌then◌else◌,
  Bool-cases, ==_iff,
}
use npu_oj.Base.Int.{ℤ, pos}
use npu_oj.Base.Effect.{Outcome, ok, exits, faults, blocks}
use npu_oj.Daemon.{
  GetLk, unlocked, locked_by, SetLk, granted, busy, check_daemon_running, after_lock_file,
}

-- Where a process is: before check_daemon_running, before lock_file, after daemon_run with what it
-- returned, or ended.
pub data Phase : Type 0 where
  checking locking : Phase
  returned : ℤ → Phase
  ended : Phase

-- Who has the lock on the file, and where each process is.
pub record Daemons : Type 0 where
  pub owner : Option ℕ
  pub phases : ℕ → Phase

abbrev pub put : (ℕ → Phase) → ℕ → Phase → ℕ → Phase
put phases i p j = if j == i then p else phases j

-- What the two calls of fcntl report to a process that has no lock.
abbrev pub probe : Option ℕ → GetLk
probe none = unlocked
probe (some i) = locked_by i

abbrev pub try_lock : Option ℕ → SetLk
try_lock none = granted
try_lock (some i) = busy

abbrev pub owner_after : Option ℕ → ℕ → Option ℕ
owner_after none i = some i
owner_after (some j) i = some j

abbrev pub go_on : Phase → Outcome ℤ → Phase
go_on next (ok code) = next
go_on next (exits code) = ended
go_on next faults = ended
go_on next blocks = ended

abbrev pub come_back : Outcome ℤ → Phase
come_back (ok code) = returned code
come_back (exits code) = ended
come_back faults = ended
come_back blocks = ended

-- The kernel drops the lock of a process that ends.
abbrev pub drop_lock : Option ℕ → ℕ → Option ℕ
drop_lock none i = none
drop_lock (some j) i = if j == i then none else some j

abbrev pub none_running : Daemons
none_running = record { owner = none; phases = λ i. checking }

pub data Step (s : Daemons) : Daemons → Type 0 where
  checks :
      (i : ℕ)
      → s.phases i ≡ checking
      → Step s (record s {
        phases = put s.phases i (go_on locking (check_daemon_running (probe s.owner)));
      })
  locks :
      (i : ℕ)
      → s.phases i ≡ locking
      → Step s (record {
        owner = owner_after s.owner i;
        phases = put s.phases i (come_back (after_lock_file (try_lock s.owner)));
      })
  ends : (i : ℕ) → Step s (record { owner = drop_lock s.owner i; phases = put s.phases i ended })

pub data Reach : Daemons → Type 0 where
  start : Reach none_running
  later : {s u : Daemons} → Reach s → Step s u → Reach u

-- A process that daemon_run has returned 0 to has the lock.
abbrev Owns : Daemons → Type 0
Owns s = (i : ℕ) → s.phases i ≡ returned (pos 0) → s.owner ≡ some i

put-Owns :
    (phases : ℕ → Phase) (i : ℕ) (p : Phase) (o : Option ℕ)
    → (p ≡ returned (pos 0) → o ≡ some i)
    → ((j : ℕ) → j ≢ i → phases j ≡ returned (pos 0) → o ≡ some j)
    → Owns (record { owner = o; phases = put phases i p })
put-Owns phases i p o own others j h = elim (Bool-cases (j == i)) [
  | inl e ↦ let same : j ≡ i = (==_iff j i).0 e in own (rw e at h) ∙ ap some (sym same)
  | inr ne ↦ others j (λ same. cc (ne, (==_iff j i).1 same)) (rw ne at h)
]

checking-returns :
    (o : Option ℕ) → ¬ (go_on locking (check_daemon_running (probe o)) ≡ returned (pos 0))
unfolding check_daemon_running
checking-returns none h = cc h
checking-returns (some i) h = cc h

locked-owner :
    (o : Option ℕ) (i : ℕ)
    → come_back (after_lock_file (try_lock o)) ≡ returned (pos 0)
    → owner_after o i ≡ some i
unfolding after_lock_file
locked-owner none i h = refl
locked-owner (some j) i h = cc h

owner_kept : (o : Option ℕ) (i j : ℕ) → o ≡ some j → owner_after o i ≡ some j
owner_kept none i j h = cc h
owner_kept (some k) i j h = h

drop_other : (o : Option ℕ) (i j : ℕ) → j ≢ i → o ≡ some j → drop_lock o i ≡ some j
drop_other none i j d h = cc h
drop_other (some k) i j d h =
    let same : k ≡ j = cc h in let other : k == i ≡ false = ground (arith, same, d) in rw other h

Step-Owns : {s u : Daemons} → Step s u → Owns s → Owns u
Step-Owns {s} (checks i at) v =
    put-Owns s.phases i _ s.owner (λ h. absurd (checking-returns s.owner h)) (λ j d. v j)
Step-Owns {s} (locks i at) v =
    put-Owns s.phases i _ _ (locked-owner s.owner i) (λ j d h. owner_kept s.owner i j (v j h))
Step-Owns {s} (ends i) v =
    put-Owns s.phases i ended _ (λ h. cc h) (λ j d h. drop_other s.owner i j d (v j h))

Reach-Owns : {s : Daemons} → Reach s → Owns s
Reach-Owns start = λ i h. cc h
Reach-Owns (later r st) = Step-Owns st (Reach-Owns r)

-- However processes interleave in daemon_run, and end, it has returned 0 to at most one of those
-- that still run: two to which it has are the same process, and that one has the lock on the file.
pub daemon_unique :
    (s : Daemons) (i j : ℕ)
    → Reach s
    → s.phases i ≡ returned (pos 0)
    → s.phases j ≡ returned (pos 0)
    → (i ≡ j) × (s.owner ≡ some i)
daemon_unique s i j r hi hj =
    let oi = Reach-Owns r i hi in let oj = Reach-Owns r j hj in (cc (oi, oj), oi)
