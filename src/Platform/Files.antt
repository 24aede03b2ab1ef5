-- ===== src/Platform/Files.antt =====
-- What the program asks of the file system, the users' data base and its own environment: parameters
-- of the model, as in Platform. What the directories of src/judge.cpp rely on is `FilesLaws`.
use npu_oj.Base.{ℕ, ◌≡◌, Bool, true, Option}
use npu_oj.Base.Int.{ℤ, pos}
use npu_oj.Base.Text.{Text}

-- struct passwd
pub record Passwd : Type 0 where
  pub pw_uid : ℕ
  pub pw_gid : ℕ

pub record Files (W : Type 0) : Type 0 where
  pub getpwnam : Text → W → Option Passwd
  pub opendir : Text → W → Bool  -- it is closed at once
  pub mkdir : Text → ℕ → W → ℤ × W
  pub chown : Text → ℕ → ℕ → W → W

-- Documented behaviour of the file system for root: a directory that mkdir has made can be opened,
-- and neither mkdir nor chown takes a directory away.
pub record FilesLaws {W : Type 0} (fs : Files W) : Type 0 where
  pub made :
      (p : Text) (mode : ℕ) (w : W)
      → (fs.mkdir p mode w).0 ≡ pos 0
      → fs.opendir p (fs.mkdir p mode w).1 ≡ true
  pub mkdir_keeps :
      (p q : Text) (mode : ℕ) (w : W)
      → fs.opendir q w ≡ true
      → fs.opendir q (fs.mkdir p mode w).1 ≡ true
  pub chown_keeps :
      (p q : Text) (uid gid : ℕ) (w : W)
      → fs.opendir q w ≡ true
      → fs.opendir q (fs.chown p uid gid w) ≡ true

-- Of the process: its user, its environment, the files that it opens and reads, and chdir.
pub record Process (W : Type 0) : Type 0 where
  pub geteuid : W → ℕ
  pub getenv : Text → W → Option Text
  pub setenv : Text → Text → Bool → W → ℤ × W
  pub fopen : Text → W → Bool × W  -- for appending
  pub chdir : Option Text → W → ℤ × W
  pub contents : Text → W → Option Text
