-- ===== src/Manager/Problems/Core.antt =====
-- src/judge.cpp: what get_problem leaves alone of the manager.
use npu_oj.Base.{
  refl, ap, inl, inr, true, false, Option, none, some, List, [], ◌∷◌, ◌++◌, Bool-cases,
  Option-cases,
}
use npu_oj.Base.Text.{Text, codes, snprintf, print_long}
use npu_oj.Base.Effect.{ok, pure, gets, ok-injective}
use npu_oj.Base.Fixes.{Fixes, >>=-Fixes, pure-Fixes, gets-Fixes}
use npu_oj.Common.{NojState, buffer_size}
use npu_oj.DataItem.{Ident, Problem, TestCase, new_problem}
use npu_oj.Platform.{Os, QueryResult, query_failed, no_result, rows}
use npu_oj.Db.{get_available_connection, release_connection}
use npu_oj.Manager.{Machine, LangJudge, get_testcase_dir, c_str}
use npu_oj.Manager.Problems.{
  Junk, column, on_db, not_null, set_lock, lock, testcase_dir, run_query, fetch,
  fetch_testcase_from_ftp, add_rows, limits_sql, testcases_sql, with_limits, store, with_testcases,
  fetch_problem_from_db, find_problem, index_problem, fetch_if_missing, get_problem,
}
use npu_oj.Manager.Problems.Fixing.{
  on_db-Fixes, not_null-Fixes, run_query-Fixes, fetch-Fixes, with_limits-Fixes,
}

-- What init_judges sets once: the main directory and the judges of the languages.
abbrev pub core : {W : Type 0} → Machine W → Option Text × List LangJudge
core m = (m.mgr.work_dir, m.mgr.lang_judges)

module _ {W : Type 0} where
  set_lock-Fixes : (held : _) → Fixes core (set_lock {W = W} held)
  unfolding set_lock
  set_lock-Fixes held m m' a h = ap core (ok-injective h).1

  lock-Fixes : Fixes core (lock {W = W})
  unfolding lock set_lock
  lock-Fixes m m' a h = elim (Bool-cases m.mgr.lock_held) [
    | inl held ↦ cc (rw (held, lock) at h)
    | inr free ↦ ap core (ok-injective (rw (free, lock) at h)).1
  ]

  testcase_dir-Fixes : Fixes core (testcase_dir {W = W})
  unfolding testcase_dir get_testcase_dir
  testcase_dir-Fixes m m' a h = ap core (ok-injective h).1

module _ {W : Type 0} (os : Os W) where
  fetch_testcase-Fixes : (tc : TestCase) → Fixes core (fetch_testcase_from_ftp os tc)
  unfolding fetch_testcase_from_ftp
  fetch_testcase-Fixes tc =
      let path = λ (dir : Option Text) (suffix : Text).
        snprintf buffer_size (c_str dir ++ (codes "/" ++ (print_long tc.tc_id ++ suffix))) in
      >>=-Fixes core (gets (λ (m : Machine W). m.mgr.lock_held)) _ (gets-Fixes core _) λ held.
        >>=-Fixes core (set_lock true) _ (set_lock-Fixes true) λ u.
          >>=-Fixes core testcase_dir _ testcase_dir-Fixes λ dir.
            let input = path dir (codes ".in") in
            >>=-Fixes core (fetch os tc.tc_remote_input_file input) _
              (fetch-Fixes core (λ m d. refl) (λ m w. refl) os tc.tc_remote_input_file input)
              λ ignored. >>=-Fixes core testcase_dir _ testcase_dir-Fixes λ dir'.
                let output = path dir' (codes ".out") in
                >>=-Fixes core (fetch os tc.tc_remote_output_file output) _
                  (fetch-Fixes core (λ m d. refl) (λ m w. refl) os tc.tc_remote_output_file output)
                  λ stat.
                    >>=-Fixes core (set_lock held)
                      (λ v.
                        pure (stat, record tc { tc_input_file = input; tc_output_file = output }))
                      (set_lock-Fixes held) λ v. pure-Fixes core _

  store-Fixes : (id : Ident) (prob : Problem) → Fixes core (store os id prob)
  unfolding store
  store-Fixes id prob m m' a h = ap core (ok-injective h).1

  index_problem-Fixes : (id : Ident) → Fixes core (index_problem os id)
  unfolding index_problem
  index_problem-Fixes id m m' a h = elim (Option-cases (find_problem id m.mgr.prob_lists)) [
    | inl missing ↦ ap core (ok-injective (rw (missing, index_problem) at h)).1
    | inr (p, found) ↦ ap core (ok-injective (rw (found, index_problem) at h)).1
  ]

  add_rows-Fixes :
      (junk : Junk) (id : Ident) (rs : List (List (Option Text))) (prob : Problem)
      → Fixes core (add_rows os junk id rs prob)
  unfolding add_rows
  add_rows-Fixes junk id [] prob = pure-Fixes core prob
  add_rows-Fixes junk id (row ∷ rest) prob =
      >>=-Fixes core (not_null (column 0 row)) _ (not_null-Fixes core (λ m d. refl) (λ m w. refl) _)
        λ tc_id.
          >>=-Fixes core (not_null (column 1 row)) _
            (not_null-Fixes core (λ m d. refl) (λ m w. refl) _)
            λ input.
              >>=-Fixes core (not_null (column 2 row)) _
                (not_null-Fixes core (λ m d. refl) (λ m w. refl) _)
                λ output.
                  >>=-Fixes core (fetch_testcase_from_ftp os _) _ (fetch_testcase-Fixes _)
                    λ fetched. add_rows-Fixes junk id rest _

  with_testcases-Fixes :
      (junk : Junk) (id : Ident) (res : QueryResult) (prob : Problem)
      → Fixes core (with_testcases os junk id res prob)
  unfolding with_testcases
  with_testcases-Fixes junk id query_failed prob = pure-Fixes core tt
  with_testcases-Fixes junk id no_result prob = pure-Fixes core tt
  with_testcases-Fixes junk id (rows rs) prob =
      >>=-Fixes core (add_rows os junk id rs prob) _ (add_rows-Fixes junk id rs prob)
        λ prob'. store-Fixes id prob'

  fetch_problem-Fixes : (junk : Junk) (id : Ident) → Fixes core (fetch_problem_from_db os junk id)
  unfolding fetch_problem_from_db
  fetch_problem-Fixes junk id =
      >>=-Fixes core (on_db get_available_connection) _
        (on_db-Fixes core (λ m d. refl) (λ m w. refl) get_available_connection)
        λ con.
          >>=-Fixes core (not_null con) _ (not_null-Fixes core (λ m d. refl) (λ m w. refl) con)
            λ link.
              >>=-Fixes core (run_query os (limits_sql os id)) _
                (run_query-Fixes core (λ m d. refl) (λ m w. refl) os (limits_sql os id))
                λ limits.
                  >>=-Fixes core
                    (with_limits os junk id limits
                      (new_problem junk.id junk.uid junk.gid junk.calls))
                    _ (with_limits-Fixes core (λ m d. refl) (λ m w. refl) os id junk limits _)
                    λ prob.
                      >>=-Fixes core (run_query os (testcases_sql os id)) _
                        (run_query-Fixes core (λ m d. refl) (λ m w. refl) os (testcases_sql os id))
                        λ testcases.
                          >>=-Fixes core (with_testcases os junk id testcases prob) _
                            (with_testcases-Fixes junk id testcases prob)
                            λ u.
                              >>=-Fixes core (on_db (λ db. ok (tt, release_connection con db))) _
                                (on_db-Fixes core (λ m d. refl) (λ m w. refl)
                                  (λ db. ok (tt, release_connection con db)))
                                λ v. pure-Fixes core NojState.normal

  fetch_if_missing-Fixes :
      (junk : Junk) (id : Ident) (known : Option Problem)
      → Fixes core (fetch_if_missing os junk id known)
  unfolding fetch_if_missing
  fetch_if_missing-Fixes junk id (some p) = pure-Fixes core tt
  fetch_if_missing-Fixes junk id none =
      >>=-Fixes core (fetch_problem_from_db os junk id) _ (fetch_problem-Fixes junk id)
        λ stat. pure-Fixes core tt

  pub get_problem-Fixes : (junk : Junk) (id : Ident) → Fixes core (get_problem os junk id)
  unfolding get_problem
  get_problem-Fixes junk id = >>=-Fixes core lock _ lock-Fixes λ u.
      >>=-Fixes core (gets (λ (m : Machine W). find_problem id m.mgr.prob_lists)) _
        (gets-Fixes core _)
        λ known.
          >>=-Fixes core (fetch_if_missing os junk id known) _
            (fetch_if_missing-Fixes junk id known)
            λ v. >>=-Fixes core (index_problem os id) _ (index_problem-Fixes id) λ prob.
              >>=-Fixes core (set_lock false) _ (set_lock-Fixes false) λ done. pure-Fixes core prob
