-- ===== src/Manager/Submissions/Waiting.antt =====
-- src/judge.cpp: the loop of fetch_submission_from_db ends.
use npu_oj.Base.{
  ℕ, zero, suc, ◌≡◌, ◌≢◌, refl, Bool, true, false, Option, none, some, List, [], ◌∷◌, ◌++◌,
  if◌then◌else◌,
}
use npu_oj.Base.Text.{Text, codes, snprintf}
use npu_oj.Base.Effect.{Outcome, ok, exits, faults, blocks, Prog, ◌>>=◌, pure}
use npu_oj.Common.{buffer_size}
use npu_oj.DataItem.{Submission}
use npu_oj.Platform.{Os, QueryResult, query_failed, no_result, rows}
use npu_oj.Manager.{Machine, c_str}
use npu_oj.Manager.Problems.{not_null, run_query, column, fetch}
use npu_oj.Manager.Submissions.{filled, src_dir, read_row, read_rows, after_answer, poll}

abbrev NeverBlocks : {M B : Type 0} → Prog M B → Type 0
NeverBlocks {M} f = (m : M) → f m ≢ blocks

>>=-NeverBlocks :
    {M A B : Type 0} (f : Prog M A) (k : A → Prog M B)
    → NeverBlocks f
    → ((a : A) → NeverBlocks (k a))
    → NeverBlocks (f >>= k)
>>=-NeverBlocks {M} {A} {B} f k hf hk m h = go (f m) refl
  where
    go : (o : Outcome (A × M)) → f m ≡ o → ⊥
    go (ok (a, m')) e = hk a m' (rw (e, ◌>>=◌) at h)
    go (exits code) e = cc (rw (e, ◌>>=◌) at h)
    go faults e = cc (rw (e, ◌>>=◌) at h)
    go blocks e = hf m e

module _ {W : Type 0} (os : Os W) where
  not_null-NeverBlocks : {A : Type 0} (o : Option A) → NeverBlocks {M = Machine W} (not_null o)
  unfolding not_null
  not_null-NeverBlocks none m h = cc h
  not_null-NeverBlocks (some a) m h = cc h

  src_dir-NeverBlocks : NeverBlocks {M = Machine W} src_dir
  unfolding src_dir
  src_dir-NeverBlocks m h = cc h

  fetch-NeverBlocks : (remote local : Text) → NeverBlocks (fetch os remote local)
  unfolding fetch
  fetch-NeverBlocks remote local m h = cc h

  read_row-NeverBlocks :
      (row : List (Option Text)) (s : Submission) → NeverBlocks (read_row os row s)
  unfolding read_row
  read_row-NeverBlocks row s =
      >>=-NeverBlocks (not_null (column 0 row)) _ (not_null-NeverBlocks (column 0 row)) (λ id.
        >>=-NeverBlocks (not_null (column 1 row)) _ (not_null-NeverBlocks (column 1 row))
          (λ prob_id.
            >>=-NeverBlocks (not_null (column 3 row)) _ (not_null-NeverBlocks (column 3 row))
              (λ lang. >>=-NeverBlocks src_dir _ src_dir-NeverBlocks (λ dir.
                let file = snprintf buffer_size (c_str dir ++ (codes "/" ++ id)) in
                >>=-NeverBlocks (fetch os (c_str (column 2 row)) file)
                  (λ stat. pure (filled id prob_id lang file s))
                  (fetch-NeverBlocks (c_str (column 2 row)) file) (λ stat m h. cc h)))))

  read_rows-NeverBlocks :
      (rest : List (List (Option Text))) (s : Submission) → NeverBlocks (read_rows os rest s)
  unfolding read_rows
  read_rows-NeverBlocks [] s m h = cc h
  read_rows-NeverBlocks (row ∷ rest) s m h =
      >>=-NeverBlocks (read_row os row s) (read_rows os rest) (read_row-NeverBlocks row s)
        (read_rows-NeverBlocks rest) m h

  -- The database has no submission yet.
  abbrev pub is_idle : QueryResult → Bool
  is_idle query_failed = false
  is_idle no_result = false
  is_idle (rows []) = true
  is_idle (rows (row ∷ rest)) = false

  -- One of the first `k` answers, from the world `w` on, is not idle.
  abbrev pub answered_within : ℕ → W → Bool
  answered_within zero w = false
  answered_within (suc k) w =
      if is_idle (os.query (codes "call fetch_submission()") w).0
      then answered_within k (os.query (codes "call fetch_submission()") w).1
      else true

  after_answer-NeverBlocks :
      (again : Prog (Machine W) Submission) (s : Submission) (answer : QueryResult) (m : Machine W)
      → (is_idle answer ≡ true → again m ≢ blocks)
      → after_answer os again s answer m ≢ blocks
  unfolding after_answer
  after_answer-NeverBlocks again s query_failed m r h = cc h
  after_answer-NeverBlocks again s no_result m r h = cc h
  after_answer-NeverBlocks again s (rows []) m r h = r refl h
  after_answer-NeverBlocks again s (rows (row ∷ rest)) m r h =
      read_rows-NeverBlocks (row ∷ rest) s m h

  -- The fetching ends: when one of the first `fuel` answers of the database is not empty, the loop
  -- leaves off within `fuel` rounds, and waits no longer.
  pub poll-ends :
      (fuel : ℕ) (s : Submission) (m : Machine W)
      → answered_within fuel m.world ≡ true
      → poll os fuel s m ≢ blocks
  unfolding poll run_query
  poll-ends zero s m e h = cc e
  poll-ends (suc fuel) s m e h =
      let (answer, w) = os.query (codes "call fetch_submission()") m.world in
      after_answer-NeverBlocks (poll os fuel s) s answer (record m { world = w })
        (λ idle. poll-ends fuel s (record m { world = w }) (rw idle at e)) h
