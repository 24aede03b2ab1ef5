-- ===== src/Manager/Submissions/Fetching.antt =====
-- src/judge.cpp: what a fetched submission comes to, and when the fetching ends.
use npu_oj.Base.{ℕ, zero, suc, ◌≡◌, refl, subst, Option, List, [], ◌∷◌, ◌++◌}
use npu_oj.Base.Text.{Text, codes, snprintf}
use npu_oj.Base.Effect.{Outcome, ok, Prog, ◌>>=◌, pure, >>=-eq-ok}
use npu_oj.Common.{JudgeMode, mode_bits, buffer_size}
use npu_oj.DataItem.{Submission}
use npu_oj.Platform.{Os, QueryResult, query_failed, no_result, rows}
use npu_oj.Manager.{Machine, c_str}
use npu_oj.Manager.Problems.{not_null, on_db, run_query, column, fetch}
use npu_oj.Manager.Submissions.{
  filled, read_row, read_rows, after_answer, poll, fetch_submission_from_db, make_tasks, src_dir,
}
use npu_oj.Db.{get_available_connection, release_connection}

abbrev IsRelease : Submission → Type 0
IsRelease s = s.sbm_judge_set ≡ mode_bits JudgeMode.release

ok_fst :
    {A M : Type 0} {a b : A} {m m' : M} → ◌≡◌ {A = Outcome (A × M)} (ok (a, m)) (ok (b, m')) → a ≡ b
ok_fst h = cc h

-- Whatever the code returns has the property.
abbrev Ensures : {M B : Type 0} → (B → Type 0) → Prog M B → Type 0
Ensures {M} {B} P f = (m m' : M) (b : B) → f m ≡ ok (b, m') → P b

>>=-Ensures :
    {M A B : Type 0} (P : B → Type 0) (f : Prog M A) (k : A → Prog M B)
    → ((a : A) → Ensures P (k a))
    → Ensures P (f >>= k)
>>=-Ensures P f k each m m' b h = let (a, m1, e, h1) = >>=-eq-ok f k m h in each a m1 m' b h1

pure-Ensures : {M B : Type 0} (P : B → Type 0) (b : B) → P b → Ensures {M = M} P (pure b)
pure-Ensures {B = B} P b p m m' c h = subst P (ok_fst h) p

module _ {W : Type 0} (os : Os W) where
  read_row-Ensures :
      (row : List (Option Text)) (s : Submission) → Ensures IsRelease (read_row os row s)
  unfolding read_row filled
  read_row-Ensures row s = >>=-Ensures IsRelease (not_null (column 0 row)) _ (λ id.
      >>=-Ensures IsRelease (not_null (column 1 row)) _ (λ prob_id.
        >>=-Ensures IsRelease (not_null (column 3 row)) _ (λ lang.
          >>=-Ensures IsRelease src_dir _ (λ dir.
            let file = snprintf buffer_size (c_str dir ++ (codes "/" ++ id)) in
            >>=-Ensures IsRelease (fetch os (c_str (column 2 row)) file)
              (λ stat. pure (filled id prob_id lang file s))
              (λ stat. pure-Ensures IsRelease (filled id prob_id lang file s) refl)))))

  read_rows-Ensures :
      (rest : List (List (Option Text))) (s : Submission)
      → IsRelease s
      → Ensures IsRelease (read_rows os rest s)
  unfolding read_rows
  read_rows-Ensures [] s r m m' b h = pure-Ensures IsRelease s r m m' b h
  read_rows-Ensures (row ∷ rest) s r m m' b h =
      let (s1, m1, e1, h1) = >>=-eq-ok (read_row os row s) (read_rows os rest) m h in
      read_rows-Ensures rest s1 (read_row-Ensures row s m m1 s1 e1) m1 m' b h1

  read_some-Ensures :
      (row : List (Option Text)) (rest : List (List (Option Text))) (s : Submission)
      → Ensures IsRelease (read_rows os (row ∷ rest) s)
  unfolding read_rows
  read_some-Ensures row rest s m m' b h =
      let (s1, m1, e1, h1) = >>=-eq-ok (read_row os row s) (read_rows os rest) m h in
      read_rows-Ensures rest s1 (read_row-Ensures row s m m1 s1 e1) m1 m' b h1

  after_answer-Ensures :
      (again : Prog (Machine W) Submission) (s : Submission) (answer : QueryResult)
      → Ensures IsRelease again
      → Ensures IsRelease (after_answer os again s answer)
  unfolding after_answer
  after_answer-Ensures again s query_failed r m m' b h = cc h
  after_answer-Ensures again s no_result r m m' b h = cc h
  after_answer-Ensures again s (rows []) r m m' b h = r m m' b h
  after_answer-Ensures again s (rows (row ∷ rest)) r m m' b h =
      read_some-Ensures row rest s m m' b h

  poll-Ensures : (fuel : ℕ) (s : Submission) → Ensures IsRelease (poll os fuel s)
  unfolding poll
  poll-Ensures zero s m m' b h = cc h
  poll-Ensures (suc fuel) s m m' b h =
      >>=-Ensures IsRelease (run_query os (codes "call fetch_submission()"))
        (after_answer os (poll os fuel s) s)
        (λ answer. after_answer-Ensures (poll os fuel s) s answer (poll-Ensures fuel s)) m m' b h

  fetch_submission-Ensures :
      (fuel : ℕ) (s : Submission) → Ensures IsRelease (fetch_submission_from_db os fuel s)
  unfolding fetch_submission_from_db
  fetch_submission-Ensures fuel s m m' b h =
      let (con, m1, e1, h1) = >>=-eq-ok (on_db get_available_connection) _ m h in
      let (link, m2, e2, h2) = >>=-eq-ok (not_null con) _ m1 h1 in
      let (fetched, m3, e3, h3) = >>=-eq-ok (poll os fuel s) _ m2 h2 in
      let (u, m4, e4, h4) =
        >>=-eq-ok (on_db (λ db. ok (tt, release_connection con db))) (λ u. pure fetched) m3 h3 in
      subst IsRelease (ok_fst h4) (poll-Ensures fuel s m2 m3 fetched e3)

  -- A fetched submission becomes one task: when fetch_submission_from_db returns, loop_routine adds
  -- exactly one task for what it returned, in the release mode.
  pub fetched_one_task :
      (fuel : ℕ) (s s' : Submission) (m m' : Machine W)
      → fetch_submission_from_db os fuel s m ≡ ok (s', m')
      → make_tasks s' ≡ record s' { sbm_cur_mode = JudgeMode.release } ∷ []
  unfolding make_tasks
  fetched_one_task fuel s s' m m' h =
      let release : s'.sbm_judge_set ≡ 1 = fetch_submission-Ensures fuel s m m' s' h in
      rw release refl
