-- ===== src/Manager/Submissions.antt =====
-- src/judge.cpp: fetch_submission_from_db, and the tasks that loop_routine makes of a submission.
pub mod Fetching
pub mod Waiting
use npu_oj.Base.{
  ℕ, zero, suc, ◌+◌, ◌-◌, ◌/◌, ◌%◌, ◌≡◌, refl, Bool, true, false, Option, none, some, List, [], ◌∷◌,
  ◌++◌, ◌==◌, if◌then◌else◌,
}
use npu_oj.Base.Int.{ℤ, pos}
use npu_oj.Base.Text.{Text, codes, snprintf}
use npu_oj.Base.Effect.{Outcome, ok, exits, faults, blocks, Prog, ◌>>=◌, ◌>>◌, pure}
use npu_oj.Common.{JudgeMode, NojState, buffer_size, mode_bits}
use npu_oj.DataItem.{Submission}
use npu_oj.Platform.{Os, QueryResult, query_failed, no_result, rows}
use npu_oj.Config.Numbers.{strtol}
use npu_oj.Db.{get_available_connection, release_connection}
use npu_oj.Manager.{Machine, get_src_dir, c_str}
use npu_oj.Manager.Problems.{column, not_null, on_db, run_query, fetch}
use npu_oj.Manager.Languages.{pick_lang}

module _ {W : Type 0} where
  unfoldable pub src_dir : Prog (Machine W) (Option Text)
  src_dir m = let (dir, mgr') = get_src_dir m.mgr in ok (dir, record m { mgr = mgr' })

-- The submission of a row. Its set of modes is always the release mode alone.
unfoldable pub filled : (id prob_id lang file : Text) → Submission → Submission
filled id prob_id lang file submit = record submit {
  sbm_id = (strtol id).num;
  sbm_prob_id = (strtol prob_id).num;
  sbm_lang = pick_lang lang;
  sbm_source_file = file;
  sbm_judge_set = mode_bits JudgeMode.release;
}

module _ {W : Type 0} (os : Os W) where
  -- One row; a null number or language is dereferenced, a null location is printed.
  unfoldable pub read_row : List (Option Text) → Submission → Prog (Machine W) Submission
  unfolding src_dir
  read_row row submit = do
    id ← not_null (column 0 row)
    prob_id ← not_null (column 1 row)
    lang ← not_null (column 3 row)
    dir ← src_dir
    let file = snprintf buffer_size (c_str dir ++ (codes "/" ++ id))
    stat ← fetch os (c_str (column 2 row)) file
    pure (filled id prob_id lang file submit)

  unfoldable pub read_rows : List (List (Option Text)) → Submission → Prog (Machine W) Submission
  unfolding read_row
  read_rows [] submit = pure submit
  read_rows (row ∷ rest) submit = do submit' ← read_row row submit; read_rows rest submit'

  -- What one answer leads to; `again` is the rest of the loop. That the further result sets of the
  -- call are fetched and thrown away before the next round is not modelled.
  unfoldable pub after_answer :
      Prog (Machine W) Submission → Submission → QueryResult → Prog (Machine W) Submission
  unfolding read_rows
  after_answer again submit query_failed m = exits (pos 1)
  after_answer again submit no_result m = faults
  after_answer again submit (rows []) m = again m
  after_answer again submit (rows (row ∷ rest)) m = read_rows (row ∷ rest) submit m

  -- The loop asks until there is a row, at most `fuel` times: then it would still wait.
  unfoldable pub poll : ℕ → Submission → Prog (Machine W) Submission
  unfolding after_answer
  poll zero submit = λ m. blocks
  poll (suc fuel) submit =
      run_query os (codes "call fetch_submission()") >>= after_answer (poll fuel submit) submit

  unfoldable pub fetch_submission_from_db : ℕ → Submission → Prog (Machine W) Submission
  unfolding poll
  fetch_submission_from_db fuel submit = do
    con ← on_db get_available_connection
    link ← not_null con
    fetched ← poll fuel submit
    on_db (λ db. ok (tt, release_connection con db))
    pure fetched

-- `sbm_judge_set & mode`
abbrev pub in_set : JudgeMode → ℕ → Bool
in_set JudgeMode.unset set = false
in_set JudgeMode.release set = set % 2 == 1
in_set JudgeMode.debug set = set / 2 % 2 == 1

-- The tasks that loop_routine adds for one submission: a copy of it for each mode of its set.
unfoldable pub make_tasks : Submission → List Submission
make_tasks submit =
    (if in_set JudgeMode.debug submit.sbm_judge_set
      then record submit { sbm_cur_mode = JudgeMode.debug } ∷ []
      else [])
    ++ (if in_set JudgeMode.release submit.sbm_judge_set
        then record submit { sbm_cur_mode = JudgeMode.release } ∷ []
        else [])
