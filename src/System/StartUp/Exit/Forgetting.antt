-- ===== src/System/StartUp/Exit/Forgetting.antt =====
-- src/main.cpp: main with its globals, and without.
use npu_oj.Base.{◌≡◌, refl, sym, ap, ◌∙◌, Bool, Option, ℕ}
use npu_oj.Base.Int.{ℤ}
use npu_oj.Base.Text.{Text, codes}
use npu_oj.Base.Effect.{Outcome, ok, exits, faults, blocks, Prog, pure, gets, >>=-ok}
use npu_oj.Base.Effect as Effect
use npu_oj.Platform.{Os}
use npu_oj.Platform.Files.{Files, Process}
use npu_oj.Config.{Pcre, load_file}
use npu_oj.Db.{init_db}
use npu_oj.Daemon.{LockFile}
use npu_oj.Log.{log_init}
use npu_oj.System.StartUp.{
  workdir_name, init_judges, root_only, default_workdir, be_daemon, go_to_workdir, before_load,
  set_zone, init_net, init_managers, start_up,
}
use npu_oj.System.StartUp.Exit.{
  Globals, Ending, returns, exited, crashed, hangs, Main, ◌>>=◌, ended, part, same, log_made,
  db_made, register, managers_main, registered_main, before_load_main, main,
}

-- What an ending is without the globals.
abbrev pub forget : {W A : Type 0} → Ending W A → Outcome (A × W)
forget (returns a w g) = ok (a, w)
forget (exited code g) = exits code
forget crashed = faults
forget hangs = blocks

forget-exited :
    {W A : Type 0} (e : Ending W A) (code : ℤ)
    → forget e ≡ exits code
    → (g : Globals) × (e ≡ exited code g)
forget-exited (returns a w g) code h = cc h
forget-exited (exited c g) code h = (g, cc h)
forget-exited crashed code h = cc h
forget-exited hangs code h = cc h

module _ {W : Type 0} where
  -- Without its globals, a part of main is an old one.
  Agrees : {A : Type 0} → Main W A → Prog W A → Type 0
  Agrees m p = (w : W) (g : Globals) → forget (m w g) ≡ p w

  part-Agrees : {A : Type 0} (change : Globals → Globals) (p : Prog W A) → Agrees (part change p) p
  unfolding Agrees part ended
  part-Agrees {A} change p w g = go (p w)
    where
      go : (o : Outcome (A × W)) → forget (ended change g o) ≡ o
      go (ok (a, w')) = refl
      go (exits code) = refl
      go faults = refl
      go blocks = refl

  >>=-Agrees :
      {A B : Type 0} (m : Main W A) (p : Prog W A) (k : A → Main W B) (q : A → Prog W B)
      → Agrees m p
      → ((a : A) → Agrees (k a) (q a))
      → Agrees (m >>= k) (Effect.◌>>=◌ p q)
  unfolding Agrees
  >>=-Agrees {A} {B} m p k q first rest w g = go (m w g) refl
    where
      go : (e : Ending W A) → m w g ≡ e → forget ((m >>= k) w g) ≡ (Effect.◌>>=◌ p q) w
      go (returns a w' g') e =
          let ran : p w ≡ ok (a, w') = sym (first w g) ∙ ap forget e in
          rw (e, ◌>>=◌) (rest a w' g' ∙ sym (>>=-ok p q ran))
      go (exited code g') e =
          let ran : p w ≡ exits code = sym (first w g) ∙ ap forget e in
          rw (e, ◌>>=◌, ran, Effect.◌>>=◌) refl
      go crashed e =
          let ran : p w ≡ faults = sym (first w g) ∙ ap forget e in
          rw (e, ◌>>=◌, ran, Effect.◌>>=◌) refl
      go hangs e =
          let ran : p w ≡ blocks = sym (first w g) ∙ ap forget e in
          rw (e, ◌>>=◌, ran, Effect.◌>>=◌) refl

module _ {W : Type 0} (os : Os W) (fs : Files W) (pr : Process W) (lf : LockFile W) (re : Pcre)
    (junk_uid : ℕ) where
  managers-Agrees :
      (m_buffer : Option Text)
      → Agrees (managers_main os fs pr lf re junk_uid m_buffer) (
          Effect.◌>>=◌
            (set_zone os fs pr lf re junk_uid)
            (λ u. init_managers os fs pr lf re junk_uid m_buffer))
  unfolding managers_main init_managers
  managers-Agrees m_buffer =
      >>=-Agrees _ _ _ _ (part-Agrees same (set_zone os fs pr lf re junk_uid)) λ u.
        >>=-Agrees _ _ _ _ (part-Agrees db_made (init_db re m_buffer)) λ db.
          >>=-Agrees _ _ _ _ (part-Agrees same (init_net os fs pr lf re junk_uid m_buffer)) λ net.
            part-Agrees same
              (λ v. init_judges fs junk_uid re m_buffer (pr.getenv workdir_name v) db net v)

  registered-Agrees :
      (m_buffer : Option Text)
      → Agrees (registered_main os fs pr lf re junk_uid m_buffer) (
          Effect.◌>>=◌
            (set_zone os fs pr lf re junk_uid)
            (λ u. init_managers os fs pr lf re junk_uid m_buffer))
  unfolding registered_main part ended Agrees
  registered-Agrees m_buffer w g = managers-Agrees m_buffer w (register g)

  before_load-Agrees :
      (ndebug : Bool)
      → Agrees
          (before_load_main os fs pr lf re junk_uid ndebug)
          (before_load os fs pr lf re junk_uid ndebug)
  unfolding before_load_main before_load
  before_load-Agrees ndebug =
      >>=-Agrees _ _ _ _ (part-Agrees same (root_only os fs pr lf re junk_uid)) λ u1.
        >>=-Agrees _ _ _ _ (part-Agrees same (default_workdir os fs pr lf re junk_uid)) λ u2.
          >>=-Agrees _ _ _ _ (part-Agrees same (be_daemon os fs pr lf re junk_uid ndebug)) λ u3.
            >>=-Agrees _ _ _ _ (part-Agrees log_made (log_init pr))
              λ u4. part-Agrees same (go_to_workdir os fs pr lf re junk_uid)

  -- main with its globals does what start_up does.
  main-Agrees :
      (ndebug : Bool)
      → Agrees (main os fs pr lf re junk_uid ndebug) (start_up os fs pr lf re junk_uid ndebug)
  unfolding main start_up
  main-Agrees ndebug = >>=-Agrees _ _ _ _ (before_load-Agrees ndebug) λ u.
      >>=-Agrees _ _ _ _ (part-Agrees same (gets (pr.contents (codes "/etc/noj.conf"))))
        λ file. registered-Agrees (load_file file)

  -- Up to the call of load_file, the outcome without the globals is the old one.
  pub before_load-forget :
      (ndebug : Bool) (w : W) (g : Globals) {e : Ending W (Unit {0})}
      → before_load_main os fs pr lf re junk_uid ndebug w g ≡ e
      → before_load os fs pr lf re junk_uid ndebug w ≡ forget e
  unfolding Agrees
  before_load-forget ndebug w g h = sym (before_load-Agrees ndebug w g) ∙ ap forget h

  -- When start_up exits, main does, with the globals that it leaves.
  pub main-exits :
      (ndebug : Bool) (w : W) (g0 : Globals) (code : ℤ)
      → start_up os fs pr lf re junk_uid ndebug w ≡ exits code
      → (g : Globals) × (main os fs pr lf re junk_uid ndebug w g0 ≡ exited code g)
  unfolding Agrees
  main-exits ndebug w g0 code h =
      forget-exited (main os fs pr lf re junk_uid ndebug w g0) code (main-Agrees ndebug w g0 ∙ h)
