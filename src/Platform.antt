-- ===== src/Platform.antt =====
-- What the program asks of the kernel, the shell and the database: a parameter of the model. Nothing
-- is assumed of it but what the types say.
pub mod Files
use npu_oj.Base.{ℕ, ◌-◌, ◌/◌, ◌%◌, ◌^◌, Bool, not, ◌&&◌, Option, List, ◌==◌}
use npu_oj.Base.Int.{ℤ, pos, negsuc}
use npu_oj.Base.Text.{Text}
use npu_oj.Lang.Limits.{SetRlimit}

-- One call of a child between `fork` and `exec`.
pub data ChildCall : Type 0 where
  chdir chroot : Option Text → ChildCall
  setuid setresuid : ℕ → ChildCall
  freopen : Text → Text → ChildCall
  nice alarm : ℕ → ChildCall
  setrlimit : SetRlimit → ChildCall
  dup_stderr : ChildCall
  traceme : ChildCall
  exec : Text → List Text → ChildCall

-- What wait4 reports of a traced child, and the call that it is about to make (`orig_eax`).
pub record WaitEvent : Type 0 where
  pub stat : ℕ
  pub ru_minflt : ℕ
  pub utime_sec : ℕ
  pub utime_usec : ℕ
  pub stime_sec : ℕ
  pub stime_usec : ℕ
  pub syscall_id : ℤ

-- A traced child: its process number, and what wait4 reports as long as it is let go on.
pub record Traced : Type 0 where
  pub pid : ℕ
  pub reports : List WaitEvent

-- `fscanf(popen(...), "%ld", &ret)`
pub data Scan : Type 0 where
  popen_failed : Scan
  no_number : ℤ → Scan  -- `ret` keeps what the memory held
  number : ℤ → Scan

-- mysql_real_query and mysql_store_result; a row is its columns, a null column is `none`.
pub data QueryResult : Type 0 where
  query_failed : QueryResult
  no_result : QueryResult
  rows : List (List (Option Text)) → QueryResult

-- What comes of a compiler: the wait status that it ends with, and what it writes into the pipe, as
-- the pieces that `read` gives, `none` where it fails.
pub record CompilerRun : Type 0 where
  pub stat : ℕ
  pub output : List (Option Text)

pub record Os (W : Type 0) : Type 0 where
  pub system : Text → W → ℤ × W
  pub page_size : ℕ
  pub pipe_capacity : ℕ
  pub fork_traced : List ChildCall → W → Option Traced × W  -- `none` if `fork` fails
  pub popen_long : Text → W → Scan × W
  pub query : Text → W → QueryResult × W
  -- `pipe` fails, or not; then a child that writes into the pipe, `none` if `fork` fails.
  pub open_pipe : W → Bool × W
  pub fork_compiler : List ChildCall → W → Option CompilerRun × W

-- The macros of <sys/wait.h> over a wait status. Of a negative `int` the low 32 bits are read.
abbrev pub status_word : ℤ → ℕ
status_word (pos n) = n
status_word (negsuc n) = 2 ^ 32 - 1 - n

unfoldable pub w_exit_status : ℕ → ℕ
w_exit_status s = s / 256 % 256

unfoldable pub w_if_exited : ℕ → Bool
w_if_exited s = s % 128 == 0

unfoldable pub w_if_signaled : ℕ → Bool
w_if_signaled s = not (s % 128 == 0) && not (s % 128 == 127)

unfoldable pub w_if_stopped : ℕ → Bool
w_if_stopped s = s % 256 == 127

unfoldable pub w_term_sig : ℕ → ℕ
w_term_sig s = s % 128

unfoldable pub w_stop_sig : ℕ → ℕ
w_stop_sig s = s / 256 % 256
