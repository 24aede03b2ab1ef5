-- ===== src/Manager/Dirs.antt =====
-- src/judge.cpp: the directories that the JudgeManager and the judges make and work in.
pub mod Made
use npu_oj.Base.{
  ℕ, ◌+◌, ◌-◌, ◌≡◌, refl, Bool, true, false, Option, none, some, List, [], ◌∷◌, ◌++◌, if◌then◌else◌,
}
use npu_oj.Base.Int.{ℤ, pos, is_zero}
use npu_oj.Base.Text.{Text, codes, snprintf}
use npu_oj.Base.Effect.{Outcome, ok, exits, faults, blocks, Prog, ◌>>=◌, ◌>>◌, pure}
use npu_oj.Common.{buffer_size}
use npu_oj.Platform.Files.{Passwd, Files}
use npu_oj.Judges.{Judge}
use npu_oj.Manager.{Manager}

-- DEFAULT_DIR_MODE: all for the owner, reading and searching for the group.
abbrev pub default_dir_mode : ℕ
default_dir_mode = 488

-- snprintf into the buffer of init_workdir.
abbrev pub buf_path : Text → Text → Text
buf_path path suffix = snprintf (buffer_size - 1) (path ++ suffix)

module _ {W : Type 0} (fs : Files W) where
  hand_over : Text → Passwd → W → Outcome (Unit {0} × W)
  hand_over path owner w = ok (tt, fs.chown path owner.pw_uid owner.pw_gid w)

  after_mkdir : Text → Passwd → ℤ × W → Outcome (Unit {0} × W)
  unfolding hand_over
  after_mkdir path owner (ret, w) = if is_zero ret then hand_over path owner w else exits (pos 1)

  -- A directory that cannot be opened is made; then it is given to its owner, and the result of
  -- chown is ignored.
  unfoldable pub make_dir : Text → Passwd → Prog W (Unit {0})
  unfolding hand_over after_mkdir
  make_dir path owner w =
      if fs.opendir path w
      then hand_over path owner w
      else after_mkdir path owner (fs.mkdir path default_dir_mode w)

  own_dir : Judge → Option Passwd → Prog W Judge
  own_dir jdg none = λ w. faults
  own_dir jdg (some user) = do make_dir jdg.work_dir user; pure (record jdg { m_uid = user.pw_uid })

  -- Judge::init_work_dir. The entry of the user is read before it is tested.
  unfoldable pub init_work_dir : Judge → Prog W Judge
  unfolding own_dir
  init_work_dir jdg w = own_dir jdg (fs.getpwnam (codes "judge") w) w

  make_dirs : Text → Passwd → Manager → Prog W Manager
  unfolding make_dir
  make_dirs path user m = do
    make_dir (buf_path path []) user
    make_dir (buf_path path (codes "/data")) user
    make_dir (buf_path path (codes "/src")) user
    make_dir (buf_path path (codes "/output")) user
    pure (record m { work_dir = some (buf_path path []) })

  make_dirs_as : Text → Option Passwd → Manager → Prog W Manager
  unfolding make_dirs
  make_dirs_as path none m = λ w. exits (pos 1)
  make_dirs_as path (some user) m = make_dirs path user m

  -- JudgeManager::init_workdir
  unfoldable pub init_workdir : Text → Manager → Prog W Manager
  unfolding make_dirs_as
  init_workdir path m w = make_dirs_as path (fs.getpwnam (codes "noj") w) m w
