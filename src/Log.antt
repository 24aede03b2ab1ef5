-- ===== src/Log.antt =====
-- src/debug.cpp: the two log files, each written by many threads under a lock of its own.
pub mod Entries
use npu_oj.Base.{ℕ, ◌≡◌, Bool, true, false, Option, none, some, List, [], ◌∷◌, ◌++◌, if◌then◌else◌}
use npu_oj.Base.Int.{ℤ, pos}
use npu_oj.Base.Text.{Text, codes, print_nat}
use npu_oj.Base.Effect.{Outcome, ok, exits, faults, blocks, Prog, ◌>>=◌, ◌>>◌}
use npu_oj.Platform.Files.{Process}

-- One call of Log::d or Log::e: what asctime and pthread_self give, and the two arguments.
pub record Call : Type 0 where
  pub datetime : Text
  pub ptid : ℕ
  pub message : Text
  pub classname : Text

unfoldable pub print_ptid : ℕ → Text
print_ptid ptid = codes "pthread_t: " ++ (print_nat ptid ++ codes " ")

-- What the two functions write, in the order of the calls of fprintf and fputs.
unfoldable pub pieces : Call → List Text
unfolding print_ptid
pieces c =
    c.datetime
    ∷ print_ptid c.ptid
    ∷ (codes "Class: " ++ (c.classname ++ codes " \n"))
    ∷ c.message
    ∷ codes "\n"
    ∷ []

-- Who has the lock: its call, and what of it is not written yet.
pub record Writer : Type 0 where
  pub thread : ℕ
  pub call : Call
  pub rest : List Text

-- One of the two files, its lock with the thread that has it.
pub record LogFile : Type 0 where
  pub text : Text
  pub writer : Option Writer

-- A thread takes the lock, writes one piece, or gives the lock back when nothing is left.
pub data Step (f : LogFile) : LogFile → Type 0 where
  locks :
      (thread : ℕ) (call : Call)
      → f.writer ≡ none
      → Step f
          (record f { writer = some (record { thread = thread; call = call; rest = pieces call }) })
  writes :
      (w : Writer) (piece : Text) (more : List Text)
      → f.writer ≡ some w
      → w.rest ≡ piece ∷ more
      → Step f (record { text = f.text ++ piece; writer = some (record w { rest = more }) })
  unlocks : (w : Writer) → f.writer ≡ some w → w.rest ≡ [] → Step f (record f { writer = none })

-- The file is opened to append to what it holds.
pub data Reach (old : Text) : LogFile → Type 0 where
  start : Reach old (record { text = old; writer = none })
  later : {f g : LogFile} → Reach old f → Step f g → Reach old g

abbrev pub log_err : Text
log_err = codes "/var/log/nojd.err"

abbrev pub log_out : Text
log_out = codes "/var/log/nojd.out"

module _ {W : Type 0} (pr : Process W) where
  open_log : Text → Prog W (Unit {0})
  open_log name w =
      let (opened, w') = pr.fopen name w in if opened then ok (tt, w') else exits (pos 1)

  -- Log::init
  unfoldable pub log_init : Prog W (Unit {0})
  unfolding open_log
  log_init = do open_log log_err; open_log log_out
