-- ===== src/Manager/Problems/Failing.antt =====
-- src/judge.cpp: a query for test cases that fails.
use npu_oj.Base.{◌≡◌, refl, ap, sym, subst, ◌∙◌, inl, inr, none, List, [], Bool-cases}
use npu_oj.Base.Text.{Text}
use npu_oj.Base.Effect.{ok, Prog, ◌>>=◌, ◌>>◌, pure, >>=-eq-ok}
use npu_oj.DataItem.{Ident, Problem, copy_problem, new_problem}
use npu_oj.Platform.{Os, QueryResult, query_failed}
use npu_oj.Common.{NojState}
use npu_oj.Db.{release_connection, get_available_connection}
use npu_oj.Manager.{Machine}
use npu_oj.Manager.Problems.{
  Junk, find_problem, get_problem, testcases_sql, index_problem, fetch_if_missing,
  fetch_problem_from_db, on_db, not_null, run_query, limits_sql, with_limits, with_testcases, lock,
  set_lock,
}
use npu_oj.Base.Fixes.{Fixes, >>=-Fixes, pure-Fixes}
use npu_oj.Manager.Problems.Fixing.{on_db-Fixes, not_null-Fixes, run_query-Fixes, with_limits-Fixes}
use npu_oj.Manager.Problems.Cache.{ok_pair, get_problem_inv, get_problem_known}

module _ {W : Type 0} (os : Os W) (id : Ident) where
  -- The map of problems.
  abbrev problems : Machine W → List (Ident × Problem)
  problems m = m.mgr.prob_lists

  -- A query that always fails is followed by what is done then.
  failed-Fixes :
      {B : Type 0} (sql : Text) (g : QueryResult → Prog (Machine W) B)
      → ((w : W) → (os.query sql w).0 ≡ query_failed)
      → Fixes problems (g query_failed)
      → Fixes problems (run_query os sql >>= g)
  unfolding run_query
  failed-Fixes sql g down keep m m' b h =
      keep (record m { world = (os.query sql m.world).1 }) m' b
        (subst (λ r. g r (record m { world = (os.query sql m.world).1 }) ≡ ok (b, m'))
          (down m.world) h)

  -- With no result for the second query nothing is stored.
  fetch_problem-Fixes :
      (junk : Junk)
      → ((w : W) → (os.query (testcases_sql os id) w).0 ≡ query_failed)
      → Fixes problems (fetch_problem_from_db os junk id)
  unfolding fetch_problem_from_db
  fetch_problem-Fixes junk down =
      >>=-Fixes problems (on_db get_available_connection) _
        (on_db-Fixes problems (λ m d. refl) (λ m w. refl) get_available_connection)
        λ con.
          >>=-Fixes problems (not_null con) _
            (not_null-Fixes problems (λ m d. refl) (λ m w. refl) con)
            λ link.
              >>=-Fixes problems (run_query os (limits_sql os id)) _
                (run_query-Fixes problems (λ m d. refl) (λ m w. refl) os (limits_sql os id))
                λ limits.
                  >>=-Fixes problems
                    (with_limits os junk id limits
                      (new_problem junk.id junk.uid junk.gid junk.calls))
                    _ (with_limits-Fixes problems (λ m d. refl) (λ m w. refl) os id junk limits _)
                    λ prob.
                      failed-Fixes (testcases_sql os id)
                        (λ res.
                          with_testcases os junk id res prob
                          >> (on_db (λ db. ok (tt, release_connection con db))
                              >> pure NojState.normal))
                        down
                        (>>=-Fixes problems (on_db (λ db. ok (tt, release_connection con db))) _
                          (on_db-Fixes problems (λ m d. refl) (λ m w. refl)
                            (λ db. ok (tt, release_connection con db)))
                          λ done. pure-Fixes problems NojState.normal)

  lock-Fixes : Fixes problems lock
  unfolding lock set_lock
  lock-Fixes m m' a h = elim (Bool-cases m.mgr.lock_held) [
    | inl held ↦ cc (rw (held, lock) at h)
    | inr free ↦
        ap (λ (x : Machine W). x.mgr.prob_lists) (sym (ok_pair _ _ _ _ (rw (free, lock) at h)).1)
  ]

  fetch_if_missing-Fixes :
      (junk : Junk)
      → ((w : W) → (os.query (testcases_sql os id) w).0 ≡ query_failed)
      → Fixes problems (fetch_if_missing os junk id none)
  unfolding fetch_if_missing
  fetch_if_missing-Fixes junk down =
      >>=-Fixes problems (fetch_problem_from_db os junk id) _ (fetch_problem-Fixes junk down)
        λ stat. pure-Fixes problems tt

  index_missing :
      (m m' : Machine W) (p : Problem)
      → find_problem id m.mgr.prob_lists ≡ none
      → index_problem os id m ≡ ok (p, m')
      → p.prob_testcases ≡ []
  unfolding index_problem copy_problem new_problem
  index_missing m m' p e h =
      ap (λ (x : Problem). x.prob_testcases) (sym (ok_pair _ _ _ _ (rw (e, index_problem) at h)).0)

  no_tests :
      (junk : Junk) (m m' : Machine W) (p : Problem)
      → ((w : W) → (os.query (testcases_sql os id) w).0 ≡ query_failed)
      → find_problem id m.mgr.prob_lists ≡ none
      → get_problem os junk id m ≡ ok (p, m')
      → p.prob_testcases ≡ []
  unfolding get_problem
  no_tests junk m m' p down unknown h =
      let (u, m1, locked, h1) = >>=-eq-ok lock _ m h in
      let missing : find_problem id m1.mgr.prob_lists ≡ none =
        ap (find_problem id) (lock-Fixes m m1 u locked) ∙ unknown in
      let (u', m3, fetched, h3) =
        >>=-eq-ok (fetch_if_missing os junk id (find_problem id m1.mgr.prob_lists)) _ m1 h1 in
      let fetched' : fetch_if_missing os junk id none m1 ≡ ok (u', m3) =
        subst (λ k. fetch_if_missing os junk id k m1 ≡ ok (u', m3)) missing fetched in
      let still_missing : find_problem id m3.mgr.prob_lists ≡ none =
        ap (find_problem id) (fetch_if_missing-Fixes junk down m1 m3 u' fetched') ∙ missing in
      let (prob, m4, indexed, h4) = >>=-eq-ok (index_problem os id) _ m3 h3 in
      subst (λ (x : Problem). x.prob_testcases ≡ []) (ok_pair _ _ _ _ h4).0
        (index_missing m3 m4 prob still_missing indexed)

-- When the query for the test cases of a problem fails, the problem is remembered without any: if it
-- was not known, get_problem returns a problem with no test cases, and every later call gives the
-- same and changes nothing, whatever the database answers by then.
pub get_problem_no_tests :
    {W : Type 0} (os os' : Os W) (id : Ident) (junk junk' : Junk) (m m' : Machine W) (p : Problem)
    → ((w : W) → (os.query (testcases_sql os id) w).0 ≡ query_failed)
    → find_problem id m.mgr.prob_lists ≡ none
    → get_problem os junk id m ≡ ok (p, m')
    → (p.prob_testcases ≡ []) × (get_problem os' junk' id m' ≡ ok (p, m'))
get_problem_no_tests os os' id junk junk' m m' p down unknown h =
    let (q, found, copied, free) = get_problem_inv os id junk m m' p h in
    (
      no_tests os id junk m m' p down unknown h,
      rw copied (get_problem_known os' id junk' m' q free found),
    )
