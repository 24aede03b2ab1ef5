-- ===== src/Manager/Dirs/Made.antt =====
-- src/judge.cpp: what the directories are once they are made.
use npu_oj.Base.{
  zero, suc, ◌+◌, ◌≤◌, ◌≡◌, refl, ap, ◌∙◌, inl, inr, true, false, Option, none, some, [], ◌++◌,
  arith, length, length-append, take_all, append-nil, Bool-cases, Option-cases,
}
use npu_oj.Base.Int.{ℤ, pos, negsuc, is_zero}
use npu_oj.Base.Text.{Text, codes, snprintf_fits}
use npu_oj.Base.Effect.{ok, >>=-ok, >>=-eq-ok}
use npu_oj.Platform.Files.{Passwd, Files, FilesLaws}
use npu_oj.Judges.{Judge}
use npu_oj.Manager.{Manager, new_manager, lazy_dir, get_testcase_dir, get_src_dir, get_output_dir}
use npu_oj.Manager.Dirs.{
  default_dir_mode, hand_over, after_mkdir, make_dir, make_dirs, make_dirs_as, init_workdir,
  own_dir, init_work_dir, buf_path,
}

is_zero-eq : (z : ℤ) → is_zero z ≡ true → z ≡ pos 0
is_zero-eq (pos zero) h = refl
is_zero-eq (pos (suc n)) h = cc
is_zero-eq (negsuc n) h = cc

buf_path_fits :
    (path suffix : Text) → length path + length suffix ≤ 254 → buf_path path suffix ≡ path ++ suffix
buf_path_fits path suffix h =
    take_all 254 (path ++ suffix) (omega (arith, length-append path suffix))

lazy_dir_names :
    (suffix main : Text) → (lazy_dir suffix false (some main) none).1 ≡ some (main ++ suffix)
unfolding lazy_dir
lazy_dir_names suffix main = ap some (
    snprintf_fits (length main + length suffix + 1) (main ++ suffix)
      (omega (arith, length-append main suffix)))

module _ {W : Type 0} (fs : Files W) (laws : FilesLaws fs) where
  -- No directory that could be opened is lost.
  abbrev pub Keeps : W → W → Type 0
  Keeps w w' = (q : Text) → fs.opendir q w ≡ true → fs.opendir q w' ≡ true

  after_mkdir-ok :
      (path : Text) (user : Passwd) (r : ℤ × W) (w' : W) (u : Unit {0})
      → after_mkdir fs path user r ≡ ok (u, w')
      → (r.0 ≡ pos 0) × (w' ≡ fs.chown path user.pw_uid user.pw_gid r.1)
  unfolding after_mkdir hand_over
  after_mkdir-ok path user (ret, w1) w' u h = elim (Bool-cases (is_zero ret)) [
    | inl z ↦ (is_zero-eq ret z, cc (rw z at h))
    | inr nz ↦ cc (rw nz at h)
  ]

  -- When make_dir returns, the directory can be opened, and no other is lost.
  pub make_dir_lem :
      (path : Text) (user : Passwd) (w w' : W) (u : Unit {0})
      → make_dir fs path user w ≡ ok (u, w')
      → (fs.opendir path w' ≡ true) × Keeps w w'
  unfolding make_dir hand_over
  make_dir_lem path user w w' u h = elim (Bool-cases (fs.opendir path w)) [
    | inl there ↦
        let e : w' ≡ fs.chown path user.pw_uid user.pw_gid w = cc (rw there at h) in
        rw e (
          laws.chown_keeps path path user.pw_uid user.pw_gid w there,
          λ q k. laws.chown_keeps path q user.pw_uid user.pw_gid w k,
        )
    | inr missing ↦
        let (z, e) =
          after_mkdir-ok path user (fs.mkdir path default_dir_mode w) w' u (rw missing at h) in
        rw e (
          laws.chown_keeps path path _ _ _ (laws.made path default_dir_mode w z),
          λ q k. laws.chown_keeps path q _ _ _ (laws.mkdir_keeps path q default_dir_mode w k),
        )
  ]

  make_dirs_lem :
      (path : Text) (user : Passwd) (m m' : Manager) (w w' : W)
      → make_dirs fs path user m w ≡ ok (m', w')
      → (m' ≡ record m { work_dir = some (buf_path path []) })
        × (fs.opendir (buf_path path []) w' ≡ true)
        × (fs.opendir (buf_path path (codes "/data")) w' ≡ true)
        × (fs.opendir (buf_path path (codes "/src")) w' ≡ true)
        × (fs.opendir (buf_path path (codes "/output")) w' ≡ true)
  unfolding make_dirs
  make_dirs_lem path user m m' w w' h =
      let (u0, w0, e0, h0) = >>=-eq-ok (make_dir fs (buf_path path []) user) _ w h in
      let (u1, w1, e1, h1) = >>=-eq-ok (make_dir fs (buf_path path (codes "/data")) user) _ w0 h0 in
      let (u2, w2, e2, h2) = >>=-eq-ok (make_dir fs (buf_path path (codes "/src")) user) _ w1 h1 in
      let (u3, w3, e3, h3) =
        >>=-eq-ok (make_dir fs (buf_path path (codes "/output")) user) _ w2 h2 in
      let (d0, k0) = make_dir_lem _ user w w0 u0 e0 in
      let (d1, k1) = make_dir_lem _ user w0 w1 u1 e1 in
      let (d2, k2) = make_dir_lem _ user w1 w2 u2 e2 in
      let (d3, k3) = make_dir_lem _ user w2 w3 u3 e3 in
      let same : w' ≡ w3 = cc h3 in
      rw same (cc h3, k3 _ (k2 _ (k1 _ d0)), k3 _ (k2 _ d1), k3 _ d2, d3)

  -- The four directories below a path, and the path itself.
  abbrev pub AllOpen : Text → W → Type 0
  AllOpen path w =
      (fs.opendir path w ≡ true)
      × (fs.opendir (path ++ codes "/data") w ≡ true)
      × (fs.opendir (path ++ codes "/src") w ≡ true)
      × (fs.opendir (path ++ codes "/output") w ≡ true)

  pub init_workdir-ok :
      (path : Text) (w w' : W) (m : Manager)
      → length path ≤ 247
      → init_workdir fs path new_manager w ≡ ok (m, w')
      → (m ≡ record new_manager { work_dir = some path }) × AllOpen path w'
  unfolding init_workdir make_dirs_as
  init_workdir-ok path w w' m short h = elim (Option-cases (fs.getpwnam (codes "noj") w)) [
    | inl nobody ↦ cc (rw nobody at h)
    | inr (user, found) ↦
        let (same, d0, d1, d2, d3) = make_dirs_lem path user new_manager m w w' (rw found at h) in
        let main : buf_path path [] ≡ path =
          buf_path_fits path [] (omega arith) ∙ append-nil path in
        let below = buf_path_fits path (codes "/data") (omega arith) in
        let src = buf_path_fits path (codes "/src") (omega arith) in
        let output = buf_path_fits path (codes "/output") (omega arith) in
        (
          same ∙ ap (λ d. record new_manager { work_dir = some d }) main,
          (rw main at d0, rw below at d1, rw src at d2, rw output at d3),
        )
  ]

  -- What a name leads to: a directory that can be opened.
  pub record IsDir (named : Option Text) (path : Text) (w : W) : Type 0 where
    pub name : named ≡ some path
    pub opens : fs.opendir path w ≡ true

  -- The directories that the manager names.
  pub record HasDirs (path : Text) (m : Manager) (w : W) : Type 0 where
    pub main_dir : IsDir m.work_dir path w
    pub testcase_dir : IsDir (get_testcase_dir m).0 (path ++ codes "/data") w
    pub src_dir : IsDir (get_src_dir m).0 (path ++ codes "/src") w
    pub output_dir : IsDir (get_output_dir m).0 (path ++ codes "/output") w

  -- What the manager names depends on its main directory only, while it has named nothing else.
  pub new-HasDirs :
      (path : Text) (m : Manager) (w : W)
      → (m.work_dir ≡ some path)
        × (m.testcase_dir ≡ none)
        × (m.src_dir ≡ none)
        × (m.output_dir ≡ none)
        × (m.lock_held ≡ false)
      → AllOpen path w
      → HasDirs path m w
  unfolding get_testcase_dir get_src_dir get_output_dir
  new-HasDirs path m w (main, no_data, no_src, no_output, unheld) (d0, d1, d2, d3) =
      rw (main, no_data, no_src, no_output, unheld)
        (record {
          main_dir = record { name = refl; opens = d0 };
          testcase_dir = record { name = lazy_dir_names (codes "/data") path; opens = d1 };
          src_dir = record { name = lazy_dir_names (codes "/src") path; opens = d2 };
          output_dir = record { name = lazy_dir_names (codes "/output") path; opens = d3 };
        })

  -- When init_work_dir returns, the judge has the user `judge`, and its directory can be opened.
  pub init_work_dir_lem :
      (jdg jdg' : Judge) (w w' : W)
      → init_work_dir fs jdg w ≡ ok (jdg', w')
      → (user : Passwd) × (fs.getpwnam (codes "judge") w ≡ some user)
        × (jdg' ≡ record jdg { m_uid = user.pw_uid })
        × (fs.opendir jdg.work_dir w' ≡ true)
        × Keeps w w'
  unfolding init_work_dir own_dir
  init_work_dir_lem jdg jdg' w w' h = elim (Option-cases (fs.getpwnam (codes "judge") w)) [
    | inl nobody ↦ cc (rw nobody at h)
    | inr (user, found) ↦
        let (u, w1, e1, h1) = >>=-eq-ok (make_dir fs jdg.work_dir user) _ w (rw found at h) in
        let (opens, keeps) = make_dir_lem jdg.work_dir user w w1 u e1 in
        let same : w' ≡ w1 = cc h1 in (user, found, cc h1, rw same opens, rw same keeps)
  ]

module _ {W : Type 0} (fs : Files W) where
  make_dir_there :
      (path : Text) (owner : Passwd) (w : W)
      → fs.opendir path w ≡ true
      → make_dir fs path owner w ≡ ok (tt, fs.chown path owner.pw_uid owner.pw_gid w)
  unfolding make_dir hand_over
  make_dir_there path owner w there = rw there refl

  -- The directory of a judge that is there is given to the user `judge`.
  pub init_work_dir_there :
      (jdg : Judge) (user : Passwd) (w : W)
      → fs.getpwnam (codes "judge") w ≡ some user
      → fs.opendir jdg.work_dir w ≡ true
      → init_work_dir fs jdg w
        ≡ ok (record jdg { m_uid = user.pw_uid }, fs.chown jdg.work_dir user.pw_uid user.pw_gid w)
  unfolding init_work_dir own_dir
  init_work_dir_there jdg user w found there =
      rw found (>>=-ok (make_dir fs jdg.work_dir user) _ (make_dir_there jdg.work_dir user w there))
