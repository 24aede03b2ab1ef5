-- ===== src/Manager/Problems/Cache.antt =====
-- src/judge.cpp: the map of problems as a cache.
use npu_oj.Base.{
  ◌≡◌, refl, ap, sym, ◌∙◌, inl, inr, true, false, some, List, [], ◌∷◌, arith, Bool-cases,
  Option-cases,
}
use npu_oj.Base.Int.{eq_ℤ, eq_ℤ_iff}
use npu_oj.Base.Effect.{Outcome, ok, >>=-eq-ok, >>=-ok}
use npu_oj.DataItem.{Ident, Problem, copy_problem}
use npu_oj.Platform.{Os}
use npu_oj.Manager.{Machine}
use npu_oj.Manager.Problems.{
  Junk, find_problem, store_problem, get_problem, index_problem, fetch_if_missing, zero_problem,
  lock, set_lock,
}

-- A stored problem is found.
find_problem-store_problem :
    (id : Ident) (p : Problem) (m : List (Ident × Problem))
    → find_problem id (store_problem id p m) ≡ some p
unfolding find_problem store_problem
find_problem-store_problem id p [] = rw ((eq_ℤ_iff id id).1 refl)
find_problem-store_problem id p ((k, q) ∷ m) = elim (Bool-cases (eq_ℤ k id)) [
  | inl hit ↦ rw (hit, hit)
  | inr miss ↦ rw (miss, miss) (find_problem-store_problem id p m)
]

pub ok_pair :
    {A B : Type 0} (a a' : A) (b b' : B)
    → ◌≡◌ {A = Outcome (A × B)} (ok (a, b)) (ok (a', b'))
    → (a ≡ a') × (b ≡ b')
ok_pair a a' b b' h = (cc, cc)

module _ {W : Type 0} (os : Os W) (id : Ident) where
  -- After the map is indexed, it holds what was returned.
  index_problem_inv :
      (m m' : Machine W) (p : Problem)
      → index_problem os id m ≡ ok (p, m')
      → (q : Problem) × (find_problem id m'.mgr.prob_lists ≡ some q)
        × (p ≡ copy_problem q)
        × (m'.mgr.lock_held ≡ m.mgr.lock_held)
  unfolding index_problem
  index_problem_inv m m' p h = elim (Option-cases (find_problem id m.mgr.prob_lists)) [
    | inr (q, e) ↦
        let (same_p, same_m) = ok_pair _ _ _ _ (rw (e, index_problem) at h) in
        (q, rw (← same_m) e, sym same_p, ap (λ (x : Machine W). x.mgr.lock_held) (sym same_m))
    | inl e ↦
        let (same_p, same_m) = ok_pair _ _ _ _ (rw (e, index_problem) at h) in
        (
          zero_problem os,
          ap (λ (x : Machine W). find_problem id x.mgr.prob_lists) (sym same_m)
              ∙ find_problem-store_problem id (zero_problem os) m.mgr.prob_lists,
          sym same_p,
          ap (λ (x : Machine W). x.mgr.lock_held) (sym same_m),
        )
  ]

  -- The whole call.
  pub get_problem_inv :
      (junk : Junk) (m m' : Machine W) (p : Problem)
      → get_problem os junk id m ≡ ok (p, m')
      → (q : Problem) × (find_problem id m'.mgr.prob_lists ≡ some q)
        × (p ≡ copy_problem q)
        × (m'.mgr.lock_held ≡ false)
  unfolding get_problem
  get_problem_inv junk m m' p h =
      let (u, m1, locked, h1) = >>=-eq-ok lock _ m h in
      let known = find_problem id m1.mgr.prob_lists in
      let (u', m3, fetched, h3) = >>=-eq-ok (fetch_if_missing os junk id known) _ m1 h1 in
      let (prob, m4, indexed, h4) = >>=-eq-ok (index_problem os id) _ m3 h3 in
      let (q, found, copied, held) = index_problem_inv m3 m4 prob indexed in
      (q, ground arith, ground arith, ground arith)

  lock_free : (m : Machine W) → m.mgr.lock_held ≡ false → lock m ≡ set_lock true m
  unfolding lock
  lock_free m free = rw free

  pub get_problem_known :
      (junk : Junk) (m : Machine W) (q : Problem)
      → m.mgr.lock_held ≡ false
      → find_problem id m.mgr.prob_lists ≡ some q
      → get_problem os junk id m ≡ ok (copy_problem q, m)
  unfolding get_problem
  get_problem_known junk m q free found =
      let held : Machine W = record m { mgr = record m.mgr { lock_held = true } } in
      let fetched : fetch_if_missing os junk id (find_problem id m.mgr.prob_lists) held
          ≡ ok (tt, held) =
        rw found in
      let indexed : index_problem os id held ≡ ok (copy_problem q, held) =
        rw (found, index_problem) in
      >>=-ok lock _ (lock_free m free)
      ∙ >>=-ok (fetch_if_missing os junk id (find_problem id m.mgr.prob_lists)) _ fetched
      ∙ >>=-ok (index_problem os id) _ indexed
      ∙ ap (λ b. ok (copy_problem q, record m { mgr = record m.mgr { lock_held = b } })) (sym free)

  -- A problem is fetched once: when get_problem has returned a problem, the lock is free, and a second
  -- call gives the same problem and changes nothing, neither the map nor the database nor the world.
  pub get_problem_again :
      (junk junk' : Junk) (m m' : Machine W) (p : Problem)
      → get_problem os junk id m ≡ ok (p, m')
      → (m'.mgr.lock_held ≡ false) × (get_problem os junk' id m' ≡ ok (p, m'))
  get_problem_again junk junk' m m' p h =
      let (q, found, copied, free) = get_problem_inv junk m m' p h in
      (free, rw copied (get_problem_known junk' m' q free found))
