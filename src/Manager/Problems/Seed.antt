-- ===== src/Manager/Problems/Seed.antt =====
-- include/judge.h and src/test.cpp: a problem that is put into the map by hand.
use npu_oj.Base.{◌≡◌, refl, inl, inr, Bool-cases, false, Option, none, some, List, [], ◌∷◌, ◌++◌}
use npu_oj.Base.Int.{ℤ, pos, eq_ℤ, eq_ℤ_iff}
use npu_oj.Base.Text.{Text, codes}
use npu_oj.Base.Effect.{ok}
use npu_oj.Units.Time.{set_second}
use npu_oj.Units.Memory.{set_mb}
use npu_oj.DataItem.{
  Ident, Problem, copy_problem, new_problem, new_limit, copy_limit, assign_limit, add_testcase,
  new_testcase, TestCase,
}
use npu_oj.Platform.{Os}
use npu_oj.Manager.{Manager, Machine}
use npu_oj.Manager.Problems.{Junk, find_problem, get_problem}
use npu_oj.Manager.Problems.Cache.{get_problem_known}

-- std::map::insert keeps what is stored under the key already.
insert_new : Ident → Problem → Option Problem → List (Ident × Problem) → List (Ident × Problem)
insert_new id p (some q) m = m
insert_new id p none m = m ++ (id, p) ∷ []

-- JudgeManager::add_prob; the problem is copied on its way, and a copy of a copy is the same again.
unfoldable pub add_prob : Problem → Manager → Manager
unfolding insert_new
add_prob prob m = record m {
  prob_lists =
      insert_new prob.prob_id (copy_problem prob) (find_problem prob.prob_id m.prob_lists)
        m.prob_lists;
}

-- The constructor of TestCase with four arguments.
unfoldable pub testcase_of : Ident → Ident → Text → Text → ℤ → TestCase
testcase_of id prob_id input output special = record (new_testcase id prob_id special) {
  tc_input_file = input;
  tc_output_file = output;
}

-- test_init
unfoldable pub test_init : Junk → Manager → Manager
unfolding add_prob testcase_of
test_init junk m =
    let rl = new_limit junk.uid junk.gid junk.calls in
    let rl' = record rl {
      single_time_limit = set_second 1 rl.single_time_limit;
      memory_limit = set_mb 64 rl.memory_limit;
      file_limit = set_mb 2 rl.file_limit;
    } in
    let prob = record (new_problem (pos 0) junk.uid junk.gid junk.calls) {
      prob_rsc_lim = assign_limit (new_limit junk.uid junk.gid junk.calls) rl';
    } in
    let with_first =
      add_testcase (testcase_of (pos 0) (pos 0) (codes "1.in") (codes "1.out") junk.special) prob in
    add_prob
      (add_testcase (testcase_of (pos 1) (pos 0) (codes "2.in") (codes "2.out") junk.special)
        with_first)
      m

pub find_problem-append :
    (id : Ident) (p : Problem) (m : List (Ident × Problem))
    → find_problem id m ≡ none
    → find_problem id (m ++ (id, p) ∷ []) ≡ some p
unfolding find_problem
find_problem-append id p [] h = rw ((eq_ℤ_iff id id).1 refl)
find_problem-append id p ((k, q) ∷ m) h = elim (Bool-cases (eq_ℤ k id)) [
  | inl hit ↦ cc (rw hit at h)
  | inr miss ↦ rw miss (find_problem-append id p m (rw miss at h))
]

module _ {W : Type 0} (os : Os W) (junk : Junk) where
  -- A problem that add_prob puts into a map that does not know it is served by get_problem without the
  -- database or the file server, as a copy of it, and nothing but the map has changed; with a problem
  -- of that number in the map already, add_prob changes nothing.
  pub add_prob_served :
      (prob : Problem) (m : Machine W)
      → m.mgr.lock_held ≡ false
      → let m' = record m { mgr = add_prob prob m.mgr } in
        (find_problem prob.prob_id m.mgr.prob_lists ≡ none
          → get_problem os junk prob.prob_id m' ≡ ok (copy_problem prob, m'))
        × ((q : Problem)
            → find_problem prob.prob_id m.mgr.prob_lists ≡ some q
            → add_prob prob m.mgr ≡ m.mgr)
  unfolding add_prob insert_new copy_problem copy_limit
  add_prob_served prob m unlocked = (
    λ unknown.
        let found : find_problem prob.prob_id (add_prob prob m.mgr).prob_lists
            ≡ some (copy_problem prob) =
          rw unknown
            (find_problem-append prob.prob_id (copy_problem prob) m.mgr.prob_lists unknown) in
        get_problem_known os prob.prob_id junk (record m { mgr = add_prob prob m.mgr })
          (copy_problem prob) unlocked found,
    λ q known. rw known refl,
  )
