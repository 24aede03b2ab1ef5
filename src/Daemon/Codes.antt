-- ===== src/Daemon/Codes.antt =====
-- src/daemon.cpp: what daemon_run returns.
use npu_oj.Base.{◌≡◌, refl, ◌⊎◌, inl, inr, Bool-cases}
use npu_oj.Base.Int.{ℤ, pos, negsuc}
use npu_oj.Base.Effect.{ok, lift, lift-eq-ok, >>=-eq-ok}
use npu_oj.Daemon.{
  GetLk, getlk_failed, unlocked, locked_by, SetLk, granted, busy, setlk_failed,
  check_daemon_running, after_lock_file, LockFile, put_pid, finish, open_lock, daemon_run,
}

unlocked_only : (g : GetLk) (r : ℤ) → check_daemon_running g ≡ ok r → g ≡ unlocked
unfolding check_daemon_running
unlocked_only getlk_failed r h = cc h
unlocked_only unlocked r h = refl
unlocked_only (locked_by pid) r h = cc h

module _ {W : Type 0} (lf : LockFile W) where
  finish-code :
      (r : SetLk × W) (code : ℤ) (w' : W)
      → finish lf r ≡ ok (code, w')
      → (code ≡ pos 0) ⊎ (code ≡ negsuc 0)
  unfolding finish put_pid after_lock_file
  finish-code (granted, w) code w' h = inl (cc h)
  finish-code (busy, w) code w' h = inr (cc h)
  finish-code (setlk_failed, w) code w' h = cc h

  open_lock-ok : (w w' : W) (u : Unit {0}) → open_lock lf w ≡ ok (u, w') → w' ≡ (lf.open_file w).1
  unfolding open_lock
  open_lock-ok w w' u h = elim (Bool-cases (lf.open_file w).0) [
    | inl can ↦ cc (rw can at h)
    | inr fails ↦ cc (rw fails at h)
  ]

  -- When daemon_run returns, no other process had the lock when it looked, and what it returns is 0
  -- or -1: it is never positive.
  pub daemon_run_lem :
      (w w' : W) (code : ℤ)
      → daemon_run lf w ≡ ok (code, w')
      → (lf.getlk (lf.open_file w).1 ≡ unlocked) × ((code ≡ pos 0) ⊎ (code ≡ negsuc 0))
  unfolding daemon_run
  daemon_run_lem w w' code h =
      let (u, w1, e1, h1) = >>=-eq-ok (open_lock lf) _ w h in
      let (running, w2, e2, h2) = >>=-eq-ok (lift (check_daemon_running (lf.getlk w1))) _ w1 h1 in
      let opened = open_lock-ok w w1 u e1 in
      let (checked, same) = lift-eq-ok (check_daemon_running (lf.getlk w1)) w1 w2 e2 in
      let free = unlocked_only (lf.getlk w1) running checked in
      (cc (free, opened), finish-code (lf.setlk (lf.daemon w2)) code w' h2)
