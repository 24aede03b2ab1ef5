-- ===== src/Daemon.antt =====
-- src/daemon.cpp: the program as a daemon, of which a lock on one file lets only one run.
pub mod Single
pub mod Codes
use npu_oj.Base.{ℕ, ◌≡◌, Bool, true, false, Option, none, some, List, [], ◌∷◌, ◌++◌, if◌then◌else◌}
use npu_oj.Base.Int.{ℤ, pos, negsuc}
use npu_oj.Base.Text.{Text, codes, snprintf, print_nat}
use npu_oj.Base.Effect.{
  Outcome, ok, exits, faults, blocks, Prog, ◌>>=◌, ◌>>◌, pure, lift, modify, gets,
}

-- fcntl with F_GETLK: it fails, or tells whose lock stands against a lock on the whole file.
pub data GetLk : Type 0 where
  getlk_failed unlocked : GetLk
  locked_by : ℕ → GetLk

-- fcntl with F_SETLK: the lock, EACCES or EAGAIN, or another error.
pub data SetLk : Type 0 where
  granted busy setlk_failed : SetLk

-- What daemon_run asks of the kernel about the file /var/run/nojd.pid. `open` tells if the file
-- could be opened; `put` truncates it and writes.
pub record LockFile (W : Type 0) : Type 0 where
  pub open_file : W → Bool × W
  pub getlk : W → GetLk
  pub daemon : W → W
  pub setlk : W → SetLk × W
  pub close : W → W
  pub getpid : W → ℕ
  pub put : Text → W → W

unfoldable pub check_daemon_running : GetLk → Outcome ℤ
check_daemon_running getlk_failed = exits (pos 1)
check_daemon_running unlocked = ok (pos 0)
check_daemon_running (locked_by pid) = exits (pos 1)

-- What daemon_run returns after lock_file.
unfoldable pub after_lock_file : SetLk → Outcome ℤ
after_lock_file granted = ok (pos 0)
after_lock_file busy = ok (negsuc 0)
after_lock_file setlk_failed = exits (pos 1)

-- The number of the process, with the NUL behind it.
unfoldable pub pid_line : ℕ → Text
pid_line pid = snprintf 16 (print_nat pid) ++ 0 ∷ []

module _ {W : Type 0} (lf : LockFile W) where
  put_pid : Prog W ℤ
  put_pid w = ok (pos 0, lf.put (pid_line (lf.getpid w)) w)

  finish : SetLk × W → Outcome (ℤ × W)
  unfolding put_pid
  finish (granted, w) = put_pid w
  finish (busy, w) = lift (after_lock_file busy) (lf.close w)
  finish (setlk_failed, w) = lift (after_lock_file setlk_failed) w

  open_lock : Prog W (Unit {0})
  open_lock w =
      let (opened, w') = lf.open_file w in if opened then ok (tt, w') else exits (negsuc 0)

  unfoldable pub daemon_run : Prog W ℤ
  unfolding open_lock finish
  daemon_run = do
    open_lock
    probed ← gets lf.getlk
    running ← lift (check_daemon_running probed)
    modify lf.daemon
    λ w. finish (lf.setlk w)
