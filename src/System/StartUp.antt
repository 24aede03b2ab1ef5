-- ===== src/System/StartUp.antt =====
-- src/judge.cpp: init_judges. src/main.cpp: main up to its loop.
pub mod Ready
pub mod Main
pub mod Exit
use npu_oj.Base.{
  ℕ, zero, suc, ◌+◌, ◌^◌, ◌≡◌, refl, Bool, true, false, Option, none, some, List, [], ◌∷◌, ltb,
  ◌==◌, if◌then◌else◌,
}
use npu_oj.Base.Int.{ℤ, pos, negsuc}
use npu_oj.Base.Text.{Text, codes}
use npu_oj.Base.Effect.{
  Outcome, ok, exits, faults, blocks, Prog, ◌>>=◌, ◌>>◌, pure, lift, fault, gets,
}
use npu_oj.Platform.{Os}
use npu_oj.Platform.Files.{Passwd, Files, Process}
use npu_oj.Config.{Pcre, load_file}
use npu_oj.Config.Numbers.{get_ulong}
use npu_oj.Network.{Network, new_network, init_network}
use npu_oj.Db.{Db, init_db}
use npu_oj.Daemon.{LockFile, daemon_run}
use npu_oj.Log.{log_init}
use npu_oj.Judges.{Judge, Judges, judge_dir, init_table}
use npu_oj.Manager.{Manager, Machine, new_manager}
use npu_oj.Manager.Dirs.{init_workdir, init_work_dir}
use npu_oj.Manager.Languages.Scripts.{register_judges}
use npu_oj.System.{System}

-- Judge::Judge; `m_uid` is not set.
unfoldable pub new_judge : ℕ → Text → ℕ → Judge
new_judge junk_uid main_dir id = record { work_dir = judge_dir main_dir id; m_uid = junk_uid }

-- `judge_for none` is strlen of a null pointer.
judge_for : ℕ → Option Text → ℕ → Outcome Judge
judge_for junk_uid none id = faults
judge_for junk_uid (some main_dir) id = ok (new_judge junk_uid main_dir id)

module _ {W : Type 0} (fs : Files W) (junk_uid : ℕ) where
  -- The loop of init_judges from judge `i` on.
  unfoldable pub make_judges : Option Text → ℕ → ℕ → Prog W (List Judge)
  unfolding judge_for
  make_judges main_dir i zero = pure []
  make_judges main_dir i (suc n) = do
    fresh ← lift (judge_for junk_uid main_dir i)
    jdg ← init_work_dir fs fresh
    rest ← make_judges main_dir (i + 1) n
    pure (jdg ∷ rest)

  -- The arrays take four bytes for a judge, and their size is computed in 32 bits: with 2 ^ 30 judges
  -- or more the loop writes behind their end.
  all_judges : Option Text → ℕ → Prog W (List Judge)
  unfolding make_judges
  all_judges main_dir n = if ltb n (2 ^ 30) then make_judges main_dir 0 n else fault

  -- JudgeManager::init_judges; `judges_num` is also the number of work threads.
  unfoldable pub init_judges :
      Pcre → (m_buffer env : Option Text) → Db → Network → Prog W (System W)
  unfolding all_judges
  init_judges re m_buffer env db net = do
    mgr ← init_workdir fs (codes "/home/noj") new_manager
    langs ← register_judges re m_buffer env mgr.lang_judges
    judges_num ← lift (get_ulong re m_buffer (codes "JUDGES_NUM"))
    judges ← all_judges mgr.work_dir judges_num
    λ w. ok (
      record {
        machine = record {
          mgr = record mgr { lang_judges = langs };
          db = db;
          net = net;
          world = w;
        };
        judges = judges;
        table = init_table judges_num;
        sem_judge = judges_num;
        sem_fetch = judges_num;
      },
      w,
    )

-- The configuration that main loads.
abbrev pub loaded : {W : Type 0} → Process W → W → Option Text
loaded pr w = load_file (pr.contents (codes "/etc/noj.conf") w)

abbrev pub workdir_name : Text
workdir_name = codes "NOJ_WORKDIR"

module _ {W : Type 0} (os : Os W) (fs : Files W) (pr : Process W) (lf : LockFile W) (re : Pcre)
    (junk_uid : ℕ) where
  root_only : Prog W (Unit {0})
  root_only w = if pr.geteuid w == 0 then ok (tt, w) else exits (pos 1)

  set_if_missing : Option Text → W → W
  set_if_missing none w = (pr.setenv workdir_name (codes "/usr/local/noj") false w).1
  set_if_missing (some dir) w = w

  default_workdir : Prog W (Unit {0})
  unfolding set_if_missing
  default_workdir w = ok (tt, set_if_missing (pr.getenv workdir_name w) w)

  -- Only a build with NDEBUG becomes a daemon, and what daemon_run returns is not looked at.
  be_daemon : Bool → Prog W (Unit {0})
  be_daemon true = do code ← daemon_run lf; pure tt
  be_daemon false = pure tt

  is_negative : ℤ → Bool
  is_negative (pos n) = false
  is_negative (negsuc n) = true

  go_to_workdir : Prog W (Unit {0})
  unfolding is_negative
  go_to_workdir w =
      let (ret, w') = pr.chdir (pr.getenv workdir_name w) w in
      if is_negative ret then exits (pos 1) else ok (tt, w')

  -- The time zone; a failure is only logged.
  pub set_zone : Prog W (Unit {0})
  set_zone w = ok (tt, (pr.setenv (codes "TZ") (codes "GMT-8") true w).1)

  uid_of : Option Passwd → Option ℕ
  uid_of none = none
  uid_of (some user) = some user.pw_uid

  pub init_net : Option Text → Prog W Network
  unfolding uid_of
  init_net m_buffer w =
      init_network os (uid_of (fs.getpwnam (codes "noj") w)) re m_buffer new_network w

  -- The managers, with the configuration that was loaded.
  init_managers : Option Text → Prog W (System W)
  unfolding init_net
  init_managers m_buffer = do
    db ← init_db re m_buffer
    net ← init_net m_buffer
    λ w. init_judges fs junk_uid re m_buffer (pr.getenv workdir_name w) db net w

  -- main, up to the call of load_file.
  pub before_load : Bool → Prog W (Unit {0})
  unfolding root_only default_workdir be_daemon go_to_workdir
  before_load ndebug = do root_only; default_workdir; be_daemon ndebug; log_init pr; go_to_workdir

  -- main, up to loop_routine.
  unfoldable pub start_up : Bool → Prog W (System W)
  unfolding before_load set_zone init_managers
  start_up ndebug = do
    before_load ndebug
    file ← gets (pr.contents (codes "/etc/noj.conf"))
    set_zone
    init_managers (load_file file)
