-- ===== src/Examples/Startup.antt =====
-- A program that starts and judges its first submission.
use npu_oj.Base.{◌≡◌, refl, true, Option, none, some, [], get_elem?, ◌==◌, if◌then◌else◌}
use npu_oj.Base.Int.{pos}
use npu_oj.Base.Text.{Text, codes}
use npu_oj.Base.Effect.{ok}
use npu_oj.Platform.Files.{Passwd, Files, FilesLaws, Process}
use npu_oj.Manager.Languages.{add_lang_judge, same_judge}
use npu_oj.Config.{
  key_pattern, Pcre, regex_get_value, store_value, get_string, parse_real_path, contains_char,
  load_file,
}
use npu_oj.Config.Numbers.{get_long, get_ulong, strtol, strtoul}
use npu_oj.Network.{pick_mode, init_network}
use npu_oj.Db.{init_db}
use npu_oj.Daemon.{unlocked, granted, LockFile, daemon_run, check_daemon_running, after_lock_file}
use npu_oj.Log.{log_init}
use npu_oj.Judges.{init_table}
use npu_oj.Manager.Dirs.{init_workdir, init_work_dir}
use npu_oj.Manager.Languages.Scripts.{read_script, register_judges}
use npu_oj.System.{System}
use npu_oj.System.StartUp.{start_up, make_judges, init_judges}
use npu_oj.System.StartUp.Main.{Started, start_up_lem}
use npu_oj.Examples.World.{quiet, fresh, value_of, is_ok, value_of-eq}

abbrev pub daemon_user : Passwd
daemon_user = record { pw_uid = 1001; pw_gid = 1001 }

abbrev pub calm : Files (Unit {0})
calm = record {
  getpwnam = λ name w. some daemon_user;
  opendir = λ path w. true;
  mkdir = λ path mode w. (pos 0, w);
  chown = λ path uid gid w. w;
}

pub calm_laws : FilesLaws calm
calm_laws = record {
  made = λ p mode w z. refl;
  mkdir_keeps = λ p q mode w o. o;
  chown_keeps = λ p q uid gid w o. o;
}

-- FTP_MODE is `ftp`, and all else is 3.
abbrev pub threes : Pcre
threes = record {
  compiles = λ pattern. true;
  group = λ pattern subject. elim (get_elem? pattern 8) [
    | none ↦ some (codes "3")
    | some b ↦ some (if b == b'M' then codes "ftp" else codes "3")
  ];
}

abbrev file : Option Text
file = some (codes "x")

abbrev pub as_root : Process (Unit {0})
as_root = record {
  geteuid = λ w. 0;
  getenv = λ name w. some (codes "/noj");
  setenv = λ name value overwrite w. (pos 0, w);
  fopen = λ name w. (true, w);
  chdir = λ path w. (pos 0, w);
  contents = λ name w. file;
}

abbrev pub alone : LockFile (Unit {0})
alone = record {
  open_file = λ w. (true, w);
  getlk = λ w. unlocked;
  daemon = λ w. w;
  setlk = λ w. (granted, w);
  close = λ w. w;
  getpid = λ w. 12;
  put = λ text w. w;
}

abbrev pub nothing : System (Unit {0})
nothing = record {
  machine = fresh;
  judges = [];
  table = init_table 0;
  sem_judge = 0;
  sem_fetch = 0;
}

abbrev pub begun : System (Unit {0}) × Unit {0}
begun = value_of (nothing, tt) (start_up quiet calm as_root alone threes 0 true tt)

begun_ok : is_ok (start_up quiet calm as_root alone threes 0 true tt) ≡ true
unfolding start_up daemon_run check_daemon_running after_lock_file log_init load_file init_db
    init_network init_judges make_judges init_workdir init_work_dir register_judges read_script
    get_string get_long get_ulong regex_get_value store_value strtol strtoul parse_real_path
    contains_char pick_mode key_pattern add_lang_judge same_judge
begun_ok = refl

pub begun-eq : start_up quiet calm as_root alone threes 0 true tt ≡ ok (begun.0, begun.1)
begun-eq = value_of-eq (nothing, tt) (start_up quiet calm as_root alone threes 0 true tt) begun_ok

start_up_lem_example : Started quiet calm calm_laws as_root alone threes 0 true tt begun.0
start_up_lem_example =
    start_up_lem quiet calm calm_laws as_root alone threes 0 true tt begun.1 begun.0 begun-eq
