-- ===== src/ThreadPool/Places.antt =====
-- src/threadpool.cpp: the places of the threads, in and out of the critical section.
use npu_oj.Base.{
  ℕ, ◌≡◌, ◌≢◌, refl, sym, ◌∙◌, ◌⊎◌, inl, inr, Bool, true, false, none, some, arith, ◌==◌, ==_iff,
  Bool-cases,
}
use npu_oj.ThreadPool.{
  Place, locking, checking, will_wait, asleep, leaving, returned, running, ended, put,
}

pub true_false : {b : Bool} {A : Type 0} → b ≡ true → b ≡ false → A
true_false p q = cc (sym p ∙ q)

pub none_some : {A B : Type 0} {a : A} → none ≡ some a → B
none_some h = cc h

pub some_inj : {A : Type 0} {a b : A} → some a ≡ some b → a ≡ b
some_inj h = cc h

module _ {T : Type 0} where
  -- The places between pthread_mutex_lock and pthread_mutex_unlock.
  abbrev pub in_section : Place T → Bool
  in_section checking = true
  in_section will_wait = true
  in_section leaving = true
  in_section locking = false
  in_section asleep = false
  in_section (returned r) = false
  in_section (running t) = false
  in_section ended = false

  abbrev pub is_leaving : Place T → Bool
  is_leaving leaving = true
  is_leaving checking = false
  is_leaving will_wait = false
  is_leaving locking = false
  is_leaving asleep = false
  is_leaving (returned r) = false
  is_leaving (running t) = false
  is_leaving ended = false

  pub leaving-in_section : (p : Place T) → is_leaving p ≡ true → in_section p ≡ true
  leaving-in_section p e = ground arith

  pub put_self : (threads : ℕ → Place T) (i : ℕ) (p : Place T) → put threads i p i ≡ p
  put_self threads i p = rw ((==_iff i i).1 refl)

  -- What holds of a place after a change holds of the new place, or of that of another thread.
  pub put-cases :
      (f : Place T → Bool) (threads : ℕ → Place T) (i : ℕ) (p : Place T) (j : ℕ)
      → f (put threads i p j) ≡ true
      → ((j ≡ i) × (f p ≡ true)) ⊎ ((j ≢ i) × (f (threads j) ≡ true))
  put-cases f threads i p j e = elim (Bool-cases (j == i)) [
    | inl same ↦ inl ((==_iff j i).0 same, rw same at e)
    | inr other ↦ inr (λ q. true_false ((==_iff j i).1 q) other, rw other at e)
  ]
