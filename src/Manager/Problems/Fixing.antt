-- ===== src/Manager/Problems/Fixing.antt =====
-- src/judge.cpp: which parts of the program's state the steps of get_problem leave alone.
use npu_oj.Base.{◌≡◌, ap, ◌∙◌, Option, none, some, List, [], ◌∷◌}
use npu_oj.Base.Text.{Text}
use npu_oj.Base.Effect.{Outcome, ok, exits, faults, blocks, Prog, ok-injective}
use npu_oj.Base.Fixes.{Fixes, >>=-Fixes, pure-Fixes}
use npu_oj.DataItem.{Ident, Problem}
use npu_oj.Platform.{Os, QueryResult, query_failed, no_result, rows}
use npu_oj.Db.{Db}
use npu_oj.Manager.{Machine}
use npu_oj.Manager.Problems.{
  Junk, column, on_db, with_db, not_null, run_query, fetch, read_limits, with_limits,
}

-- A part that neither the database's pool nor the world belongs to.
module _ {W X : Type 0} (part : Machine W → X)
    (without_db : (m : Machine W) (d : Db) → part (record m { db = d }) ≡ part m)
    (without_world : (m : Machine W) (w : W) → part (record m { world = w }) ≡ part m) where
  with_db-Fixes :
      {A : Type 0} (o : Outcome (A × Db)) (m m' : Machine W) (a : A)
      → with_db m o ≡ ok (a, m')
      → part m' ≡ part m
  unfolding with_db
  with_db-Fixes (ok (b, db')) m m' a h = ap part (ok-injective h).1 ∙ without_db m db'
  with_db-Fixes (exits code) m m' a h = cc h
  with_db-Fixes faults m m' a h = cc h
  with_db-Fixes blocks m m' a h = cc h

  pub on_db-Fixes : {A : Type 0} (f : Prog Db A) → Fixes part (on_db f)
  unfolding on_db
  on_db-Fixes f m m' a h = with_db-Fixes (f m.db) m m' a h

  pub not_null-Fixes : {A : Type 0} (o : Option A) → Fixes part (not_null o)
  unfolding not_null
  not_null-Fixes none m m' a h = cc h
  not_null-Fixes (some b) m m' a h = ap part (ok-injective h).1

  pub run_query-Fixes : (os : Os W) (sql : Text) → Fixes part (run_query os sql)
  unfolding run_query
  run_query-Fixes os sql m m' a h = ap part (ok-injective h).1 ∙ without_world m _

  pub fetch-Fixes : (os : Os W) (remote local : Text) → Fixes part (fetch os remote local)
  unfolding fetch
  fetch-Fixes os remote local m m' a h = ap part (ok-injective h).1 ∙ without_world m _

  read_limits-Fixes :
      (os : Os W) (id : Ident) (junk : Junk) (rs : List (List (Option Text))) (prob : Problem)
      → Fixes part (read_limits os junk id rs prob)
  unfolding read_limits
  read_limits-Fixes os id junk [] prob = λ m m' a h. cc h
  read_limits-Fixes os id junk (row ∷ rest) prob =
      >>=-Fixes part (not_null (column 0 row)) _ (not_null-Fixes (column 0 row)) λ time.
        >>=-Fixes part (not_null (column 1 row)) _ (not_null-Fixes (column 1 row))
          λ memory. pure-Fixes part _

  pub with_limits-Fixes :
      (os : Os W) (id : Ident) (junk : Junk) (res : QueryResult) (prob : Problem)
      → Fixes part (with_limits os junk id res prob)
  unfolding with_limits
  with_limits-Fixes os id junk query_failed prob = pure-Fixes part prob
  with_limits-Fixes os id junk no_result prob = pure-Fixes part prob
  with_limits-Fixes os id junk (rows rs) prob = read_limits-Fixes os id junk rs prob
