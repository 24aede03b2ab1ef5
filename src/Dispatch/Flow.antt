-- ===== src/Dispatch/Flow.antt =====
-- src/judge.cpp: the tokens of the two semaphores are conserved.
use npu_oj.Base.{ℕ, ◌+◌, ◌<◌, ◌≡◌, ap, length, arith}
use npu_oj.Base.Effect.{ok}
use npu_oj.DataItem.{Submission}
use npu_oj.Platform.{Os}
use npu_oj.Manager.{Machine}
use npu_oj.Manager.Submissions.{make_tasks, fetch_submission_from_db}
use npu_oj.Manager.Submissions.Fetching.{fetched_one_task}
use npu_oj.Dispatch.{
  LoopPlace, waiting, fetching, Dispatch, Step, waits, adds, takes, gets_judge, posts_judge,
  posts_fetch, Reach, start, later,
}

abbrev pub token : LoopPlace → ℕ
token waiting = 0
token fetching = 1

-- Each judge stands for one token, which is in the first semaphore, with the loop, with a task or
-- with a thread; and for one judge, free or with a thread.
record Inv (n : ℕ) (d : Dispatch) : Type 0 where
  tokens : d.sem_fetch + token d.place + d.queued + d.starting + d.judging + d.releasing ≡ n
  judges : d.sem_judge + d.judging ≡ n

-- What fetch_submission_from_db returns, in some world.
abbrev pub Returned : {W : Type 0} → Os W → Submission → Type 0
Returned {W} os s =
    (fuel : ℕ) × (s0 : Submission) × (m m' : Machine W) × (fetch_submission_from_db os fuel s0 m
      ≡ ok (s, m'))

module _ {W : Type 0} (os : Os W) (n : ℕ) where
  one_task : (s : Submission) → Returned os s → length (make_tasks s) ≡ 1
  one_task s (fuel, s0, m, m', h) = ap length (fetched_one_task os fuel s0 s m m' h)

  Step-Inv : {d e : Dispatch} → Step (Returned os) d e → Inv n d → Inv n e
  Step-Inv {d = d} (waits at h) v = record {
    tokens = omega (arith, v.tokens, ap token at);
    judges = v.judges;
  }
  Step-Inv {d = d} (adds s at f) v = record {
    tokens = omega (arith, v.tokens, ap token at, one_task s f);
    judges = v.judges;
  }
  Step-Inv {d = d} (takes h) v = record { tokens = omega (arith, v.tokens); judges = v.judges }
  Step-Inv {d = d} (gets_judge h k) v = record {
    tokens = omega (arith, v.tokens);
    judges = omega (arith, v.judges);
  }
  Step-Inv {d = d} (posts_judge h) v = record {
    tokens = omega (arith, v.tokens);
    judges = omega (arith, v.judges);
  }
  Step-Inv {d = d} (posts_fetch h) v = record {
    tokens = omega (arith, v.tokens);
    judges = v.judges;
  }

  Reach-Inv : {d : Dispatch} → Reach (Returned os) n d → Inv n d
  Reach-Inv start = record { tokens = omega arith; judges = omega arith }
  Reach-Inv (later r st) = Step-Inv st (Reach-Inv r)

  -- get_judge never waits: in every state that is reached with `n` judges, when a thread is about to
  -- call get_judge, fewer than `n` tasks are queued, and the semaphore of the judges is positive.
  pub judge_never_awaited :
      (d : Dispatch) → Reach (Returned os) n d → 0 < d.starting → (d.queued < n) × (0 < d.sem_judge)
  judge_never_awaited d r h =
      let v = Reach-Inv r in (omega (arith, v.tokens), omega (arith, v.tokens, v.judges))

  -- No judge is forgotten: in every state that is reached with `n` judges, when nothing is queued and
  -- no thread runs a task, all the judges are free, and every token is in the first semaphore or with the loop.
  pub idle_is_whole :
      (d : Dispatch)
      → Reach (Returned os) n d
      → d.queued + d.starting + d.judging + d.releasing ≡ 0
      → (d.sem_judge ≡ n) × (d.sem_fetch + token d.place ≡ n)
  idle_is_whole d r h = let v = Reach-Inv r in (omega (arith, v.judges), omega (arith, v.tokens))
