-- ===== src/System/StartUp/Exit.antt =====
-- src/main.cpp: main with what it registers by atexit, and terminate_NOJ. src/db.cpp:
-- DBConnMgr::terminate. src/debug.cpp: Log::destroy.
pub mod Forgetting
pub mod Handler
use npu_oj.Base.{ℕ, ◌≡◌, refl, Bool, true, false, Option, none, some, if◌then◌else◌}
use npu_oj.Base.Int.{ℤ}
use npu_oj.Base.Text.{Text, codes}
use npu_oj.Base.Effect.{Outcome, ok, exits, faults, blocks, Prog, pure, gets}
use npu_oj.Base.Effect as Effect
use npu_oj.Platform.{Os}
use npu_oj.Platform.Files.{Files, Process}
use npu_oj.Config.{Pcre, load_file}
use npu_oj.Db.{Db, init_db}
use npu_oj.Daemon.{LockFile}
use npu_oj.Log.{log_init}
use npu_oj.System.{System}
use npu_oj.System.StartUp.{
  workdir_name, init_judges, root_only, default_workdir, be_daemon, go_to_workdir, set_zone,
  init_net,
}

-- Locks and files that are not made yet, are made, and are destroyed.
pub data Life : Type 0 where
  raw live dead : Life

-- The ConfigManager, which is made before main; the semaphore and the mutex of the DBConnMgr; the
-- locks and the files of Log; and whether terminate_NOJ is registered.
pub record Globals : Type 0 where
  pub config : Life
  pub db : Life
  pub log : Life
  pub registered : Bool

abbrev pub at_start : Globals
at_start = record { config = live; db = raw; log = raw; registered = false }

-- To destroy what is not there is undefined behaviour, and so is to use it.
abbrev pub destroy : Life → Outcome Life
destroy raw = faults
destroy live = ok dead
destroy dead = faults

abbrev pub needs : Life → Outcome (Unit {0})
needs raw = faults
needs live = ok tt
needs dead = faults

infixl 5 ◌then_for◌
abbrev pub ◌then_for◌ : {A B : Type 0} → Outcome A → (A → Outcome B) → Outcome B
ok a then_for k = k a
exits code then_for k = exits code
faults then_for k = faults
blocks then_for k = blocks

-- DBConnMgr::terminate, which its destructor calls. mysql_library_end may be called at any time.
unfoldable pub terminate : Globals → Outcome Globals
terminate g = destroy g.db then_for λ l. ok (record g { db = l })

-- Log::destroy
unfoldable pub log_destroy : Globals → Outcome Globals
log_destroy g = destroy g.log then_for λ l. ok (record g { log = l })

log_end : Bool → Globals → Outcome Globals
log_end true g = ok g
log_end false g = needs g.log then_for λ u. ok g

delete_config : Globals → Outcome Globals
delete_config g = destroy g.config then_for λ l. ok (record g { config = l })

-- get_instance makes a DBConnMgr where there is none yet, with its semaphore and mutex as they are.
unfoldable pub terminate_noj : Bool → Globals → Outcome Globals
unfolding terminate log_destroy log_end delete_config
terminate_noj is_child g =
    delete_config g then_for terminate then_for log_end is_child then_for log_destroy

-- What `exit` runs in the process that main is in.
unfoldable pub at_exit : Globals → Outcome Globals
unfolding terminate_noj
at_exit g = if g.registered then terminate_noj false g else ok g

-- How main ends, with the globals at that time.
pub data Ending (W A : Type 0) : Type 0 where
  returns : A → W → Globals → Ending W A
  exited : ℤ → Globals → Ending W A
  crashed : Ending W A
  hangs : Ending W A

abbrev pub Main : Type 0 → Type 0 → Type 0
Main W A = W → Globals → Ending W A

infixl 5 ◌>>=◌ ◌>>◌
abbrev pub ◌>>=◌ : {W A B : Type 0} → Main W A → (A → Main W B) → Main W B
◌>>=◌ m f w g = elim (m w g) [
  | returns a w' g' ↦ f a w' g'
  | exited code g' ↦ exited code g'
  | crashed ↦ crashed
  | hangs ↦ hangs
]

abbrev pub ◌>>◌ : {W B : Type 0} → Main W (Unit {0}) → Main W B → Main W B
m >> k = m >>= λ _. k

module _ {W A : Type 0} (change : Globals → Globals) where
  ended : Globals → Outcome (A × W) → Ending W A
  ended g (ok (a, w)) = returns a w (change g)
  ended g (exits code) = exited code g
  ended g faults = crashed
  ended g blocks = hangs

  -- A part of main, and how it changes the globals when it returns.
  part : Prog W A → Main W A
  unfolding ended
  part f w g = ended g (f w)

same : Globals → Globals
same g = g

log_made : Globals → Globals
log_made g = record g { log = live }

db_made : Globals → Globals
db_made g = record g { db = live }

register : Globals → Globals
register g = record g { registered = true }

module _ {W : Type 0} (os : Os W) (fs : Files W) (pr : Process W) (lf : LockFile W) (re : Pcre)
    (junk_uid : ℕ) where
  -- The time zone and the managers.
  managers_main : Option Text → Main W (System W)
  unfolding part same db_made set_zone init_net
  managers_main m_buffer = do
    part same (set_zone os fs pr lf re junk_uid)
    db ← part db_made (init_db re m_buffer)
    net ← part same (init_net os fs pr lf re junk_uid m_buffer)
    part same (λ w. init_judges fs junk_uid re m_buffer (pr.getenv workdir_name w) db net w)

  -- main from the call of atexit on.
  registered_main : Option Text → Main W (System W)
  unfolding part register managers_main
  registered_main m_buffer = do part register (pure tt); managers_main m_buffer

  -- main, up to the call of load_file.
  pub before_load_main : Bool → Main W (Unit {0})
  unfolding part same log_made root_only default_workdir be_daemon go_to_workdir
  before_load_main ndebug = do
    part same (root_only os fs pr lf re junk_uid)
    part same (default_workdir os fs pr lf re junk_uid)
    part same (be_daemon os fs pr lf re junk_uid ndebug)
    part log_made (log_init pr)
    part same (go_to_workdir os fs pr lf re junk_uid)

  -- main, up to loop_routine.
  unfoldable pub main : Bool → Main W (System W)
  unfolding part same before_load_main registered_main
  main ndebug = do
    before_load_main ndebug
    file ← part same (gets (pr.contents (codes "/etc/noj.conf")))
    registered_main (load_file file)
