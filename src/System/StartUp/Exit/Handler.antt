-- ===== src/System/StartUp/Exit/Handler.antt =====
-- src/main.cpp: what exit does while main starts up.
use npu_oj.Base.{◌≡◌, refl, sym, ap, subst, ◌∙◌, ◌⊎◌, inl, inr, Bool, true, false, Option, ℕ}
use npu_oj.Base.Int.{ℤ}
use npu_oj.Base.Text.{Text, codes}
use npu_oj.Base.Effect.{Outcome, ok, exits, faults, blocks, Prog, gets}
use npu_oj.Platform.{Os}
use npu_oj.Platform.Files.{Files, Process}
use npu_oj.Config.{Pcre, load_file}
use npu_oj.Base.Effect as Effect
use npu_oj.System.{System}
use npu_oj.Db.{Db, init_db}
use npu_oj.Daemon.{LockFile}
use npu_oj.Log.{log_init}
use npu_oj.System.StartUp.{
  loaded, workdir_name, init_judges, root_only, default_workdir, be_daemon, go_to_workdir,
  before_load, set_zone, init_net, start_up,
}
use npu_oj.System.StartUp.Exit.{
  raw, live, dead, Globals, at_start, at_exit, Ending, returns, exited, crashed, hangs, Main, ◌>>=◌,
  ended, part, same, log_made, db_made, register, managers_main, registered_main, before_load_main,
  main,
}
use npu_oj.System.StartUp.Exit.Forgetting.{main-exits, before_load-forget}

abbrev all_dead : Globals
all_dead = record { config = dead; db = dead; log = dead; registered = true }

module _ {W : Type 0} where
  -- How a part of main may end that leaves the globals `g` behind when it returns.
  abbrev After : {A : Type 0} → Globals → (ℤ → Globals → Type 0) → Ending W A → Type 0
  After g X (returns a w g') = g' ≡ g
  After g X (exited code g') = X code g'
  After g X crashed = Unit
  After g X hangs = Unit

  Runs : {A : Type 0} → Globals → Main W A → Globals → (ℤ → Globals → Type 0) → Type 0
  Runs g m g' X = (w : W) → After g' X (m w g)

  part-Runs :
      {A : Type 0} (X : ℤ → Globals → Type 0) (g : Globals) (change : Globals → Globals)
      (p : Prog W A)
      → ((w : W) (code : ℤ) → p w ≡ exits code → X code g)
      → Runs g (part change p) (change g) X
  unfolding Runs part ended
  part-Runs {A} X g change p may_exit w = go (p w) refl
    where
      go : (o : Outcome (A × W)) → p w ≡ o → After (change g) X (ended change g o)
      go (ok (a, w')) e = refl
      go (exits code) e = may_exit w code e
      go faults e = tt
      go blocks e = tt

  >>=-Runs :
      {A B : Type 0} (X : ℤ → Globals → Type 0) (g g1 g2 : Globals) (m : Main W A)
      (k : A → Main W B)
      → Runs g m g1 X
      → ((a : A) → Runs g1 (k a) g2 X)
      → Runs g (m >>= k) g2 X
  unfolding Runs
  >>=-Runs {A} {B} X g g1 g2 m k first rest w = go (m w g) refl (first w)
    where
      go : (e : Ending W A) → m w g ≡ e → After g1 X e → After g2 X ((m >>= k) w g)
      go (returns a w' g') e same =
          rw (e, ◌>>=◌) (subst (λ h. After g2 X (k a w' h)) (sym same) (rest a w'))
      go (exited code g') e x = rw (e, ◌>>=◌) x
      go crashed e x = rw (e, ◌>>=◌) tt
      go hangs e x = rw (e, ◌>>=◌) tt

  same_exit :
      {A B : Type 0} {c code : ℤ} {g g' : Globals}
      → ◌≡◌ {A = Ending W B} (exited c g) (exited code g')
      → ◌≡◌ {A = Ending W A} (exited c g) (exited code g')
  same_exit e = cc e

  >>=-exited :
      {A B : Type 0} (m : Main W A) (k : A → Main W B) (w : W) (g : Globals) {code : ℤ}
      {g' : Globals}
      → (m >>= k) w g ≡ exited code g'
      → (m w g ≡ exited code g')
        ⊎ ((a : A) × (w1 : W) × (g1 : Globals) × (m w g ≡ returns a w1 g1)
            × (k a w1 g1 ≡ exited code g'))
  >>=-exited {A} {B} m k w g {code} {g'} h = go (m w g) refl
    where
      go :
          (e : Ending W A)
          → m w g ≡ e
          → (m w g ≡ exited code g')
            ⊎ ((a : A) × (w1 : W) × (g1 : Globals) × (m w g ≡ returns a w1 g1)
                × (k a w1 g1 ≡ exited code g'))
      go (returns a w1 g1) e = inr (a, w1, g1, e, rw (e, ◌>>=◌) at h)
      go (exited c g1) e =
          let at_end : ◌≡◌ {A = Ending W B} (exited c g1) (exited code g') = rw (e, ◌>>=◌) at h in
          inl (e ∙ same_exit at_end)
      go crashed e = cc (rw (e, ◌>>=◌) at h)
      go hangs e = cc (rw (e, ◌>>=◌) at h)

  part-exited :
      {A : Type 0} (change : Globals → Globals) (p : Prog W A) (w : W) (g : Globals) {code : ℤ}
      {g' : Globals}
      → part change p w g ≡ exited code g'
      → (p w ≡ exits code) × (g' ≡ g)
  unfolding part ended
  part-exited {A} change p w g {code} {g'} h = go (p w) h
    where
      go : (o : Outcome (A × W)) → ended change g o ≡ exited code g' → (o ≡ exits code) × (g' ≡ g)
      go (ok (a, w')) e = cc e
      go (exits c) e = (cc e, cc e)
      go faults e = cc e
      go blocks e = cc e

  part-returns :
      {A : Type 0} (change : Globals → Globals) (p : Prog W A) (w : W) (g : Globals) {a : A}
      {w' : W} {g' : Globals}
      → part change p w g ≡ returns a w' g'
      → (p w ≡ ok (a, w')) × (g' ≡ change g)
  unfolding part ended
  part-returns {A} change p w g {a} {w'} {g'} h = go (p w) h
    where
      go :
          (o : Outcome (A × W))
          → ended change g o ≡ returns a w' g'
          → (o ≡ ok (a, w')) × (g' ≡ change g)
      go (ok (b, v)) e = (cc e, cc e)
      go (exits c) e = cc e
      go faults e = cc e
      go blocks e = cc e

module _ {W : Type 0} (os : Os W) (fs : Files W) (pr : Process W) (lf : LockFile W) (re : Pcre)
    (junk_uid : ℕ) where
  -- From load_file up to the database, which is made when it returns.
  abbrev pub until_db : Option Text → Prog W Db
  until_db m_buffer = Effect.◌>>=◌ (set_zone os fs pr lf re junk_uid) (λ u. init_db re m_buffer)

  -- What exit comes to, when main was started in the state `w`: nothing, before the configuration was
  -- loaded; undefined behaviour, when init of the database reads it; an end of all that was made, when
  -- the database was made before.
  abbrev pub ExitOf : Bool → W → ℤ → Globals → Type 0
  ExitOf ndebug w code g =
      ((before_load os fs pr lf re junk_uid ndebug w ≡ exits code) × (at_exit g ≡ ok g))
      ⊎ ((opened : W) × (before_load os fs pr lf re junk_uid ndebug w ≡ ok (tt, opened))
          × (until_db (loaded pr opened) opened ≡ exits code)
          × (at_exit g ≡ faults))
      ⊎ ((opened : W) × (db : Db) × (made : W) × (before_load os fs pr lf re junk_uid ndebug w
            ≡ ok (tt, opened))
          × (until_db (loaded pr opened) opened ≡ ok (db, made))
          × (at_exit g ≡ ok all_dead))

  abbrev logging : Globals
  logging = record { config = live; db = raw; log = live; registered = false }

  abbrev covered : Globals
  covered = record { config = live; db = raw; log = live; registered = true }

  abbrev connected : Globals
  connected = record { config = live; db = live; log = live; registered = true }

  abbrev Unregistered : ℤ → Globals → Type 0
  Unregistered code g = g.registered ≡ false

  -- A part of main before the call of atexit.
  early :
      {A : Type 0} (g : Globals) (change : Globals → Globals) (p : Prog W A)
      → g.registered ≡ false
      → Runs g (part change p) (change g) Unregistered
  early g change p free = part-Runs Unregistered g change p (λ w code e. free)

  before_load-Runs :
      (ndebug : Bool)
      → Runs at_start (before_load_main os fs pr lf re junk_uid ndebug) logging Unregistered
  unfolding before_load_main same log_made
  before_load-Runs ndebug =
      >>=-Runs Unregistered at_start at_start logging _ _
        (early at_start same (root_only os fs pr lf re junk_uid) refl)
        λ u1.
          >>=-Runs Unregistered at_start at_start logging _ _
            (early at_start same (default_workdir os fs pr lf re junk_uid) refl)
            λ u2.
              >>=-Runs Unregistered at_start at_start logging _ _
                (early at_start same (be_daemon os fs pr lf re junk_uid ndebug) refl)
                λ u3.
                  >>=-Runs Unregistered at_start logging logging _ _
                    (early at_start log_made (log_init pr) refl)
                    λ u4. early logging same (go_to_workdir os fs pr lf re junk_uid) refl

  abbrev AllMade : ℤ → Globals → Type 0
  AllMade code g = g ≡ connected

  -- What follows once the database is made.
  abbrev managers_rest : Option Text → Db → Main W (System W)
  managers_rest m_buffer db = do
    net ← part same (init_net os fs pr lf re junk_uid m_buffer)
    part same (λ w. init_judges fs junk_uid re m_buffer (pr.getenv workdir_name w) db net w)

  managers_rest-Runs :
      (m_buffer : Option Text) (db : Db)
      → Runs connected (managers_rest m_buffer db) connected AllMade
  unfolding same
  managers_rest-Runs m_buffer db =
      >>=-Runs AllMade connected connected connected _ _
        (part-Runs AllMade connected same (init_net os fs pr lf re junk_uid m_buffer)
          (λ w code e. refl))
        λ net.
          part-Runs AllMade connected same
            (λ w. init_judges fs junk_uid re m_buffer (pr.getenv workdir_name w) db net w)
            (λ w code e. refl)

  -- An exit after the call of atexit.
  late_exit :
      (m_buffer : Option Text) (w : W) (code : ℤ) (g : Globals)
      → managers_main os fs pr lf re junk_uid m_buffer w covered ≡ exited code g
      → ((until_db m_buffer w ≡ exits code) × (at_exit g ≡ faults))
        ⊎ ((db : Db) × (made : W) × (until_db m_buffer w ≡ ok (db, made))
            × (at_exit g ≡ ok all_dead))
  unfolding managers_main set_zone part ended same db_made at_exit Runs
  late_exit m_buffer w code g h =
      let zone = (pr.setenv (codes "TZ") (codes "GMT-8") true w).1 in
      let making = part db_made (init_db re m_buffer) in
      elim (>>=-exited making (managers_rest m_buffer) zone covered h) [
        | inl stopped ↦
            let (left, same_g) = part-exited db_made (init_db re m_buffer) zone covered stopped in
            inl (left, ap at_exit same_g)
        | inr (db, made, g1, came, on) ↦
            let (got, g1_is) = part-returns db_made (init_db re m_buffer) zone covered came in
            let from : managers_rest m_buffer db made connected ≡ exited code g =
              ap (managers_rest m_buffer db made) (sym g1_is) ∙ on in
            let all : g ≡ connected =
              subst (After connected AllMade) from (managers_rest-Runs m_buffer db made) in
            inr (db, made, got, ap at_exit all)
      ]

  exit_cases :
      (ndebug : Bool) (w : W) (code : ℤ) (g : Globals)
      → main os fs pr lf re junk_uid ndebug w at_start ≡ exited code g
      → ExitOf ndebug w code g
  unfolding main registered_main part ended same register at_exit Runs
  exit_cases ndebug w code g h =
      let first = before_load_main os fs pr lf re junk_uid ndebug in
      let rest : Main W (System W) = (do
        file ← part same (gets (pr.contents (codes "/etc/noj.conf")))
        registered_main os fs pr lf re junk_uid (load_file file)) in
      elim (>>=-exited first (λ u. rest) w at_start h) [
        | inl stopped ↦
            let free = subst (After logging Unregistered) stopped (before_load-Runs ndebug w) in
            inl (before_load-forget os fs pr lf re junk_uid ndebug w at_start stopped, rw free refl)
        | inr (u, opened, g1, came, on) ↦
            let before = before_load-forget os fs pr lf re junk_uid ndebug w at_start came in
            let g1_is : g1 ≡ logging =
              subst (After logging Unregistered) came (before_load-Runs ndebug w) in
            let from : managers_main os fs pr lf re junk_uid (loaded pr opened) opened covered
                ≡ exited code g =
              ap (rest opened) (sym g1_is) ∙ on in
            elim (late_exit (loaded pr opened) opened code g from) [
              | inl (left, undone) ↦ inr (inl (opened, before, left, undone))
              | inr (db, made, got, done) ↦ inr (inr (opened, db, made, before, got, done))
            ]
      ]

  -- When main, up to its loop, calls exit, then exit runs nothing, if that was before the
  -- configuration was loaded, since terminate_NOJ is not registered yet; it ends in undefined
  -- behaviour, if init of the database calls exit while it reads the configuration that main loaded,
  -- since the destructor of DBConnMgr destroys a semaphore and a mutex that were not made; and it
  -- destroys the configuration, the semaphore and mutex, and the locks and files of the log, each of
  -- which was made, if that was after init of the database.
  pub exit_lem :
      (ndebug : Bool) (w : W) (code : ℤ)
      → start_up os fs pr lf re junk_uid ndebug w ≡ exits code
      → (g : Globals) × (main os fs pr lf re junk_uid ndebug w at_start ≡ exited code g)
        × ExitOf ndebug w code g
  exit_lem ndebug w code h =
      let (g, e) = main-exits os fs pr lf re junk_uid ndebug w at_start code h in
      (g, e, exit_cases ndebug w code g e)
