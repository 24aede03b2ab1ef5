-- ===== src/System/StartUp/Main.antt =====
-- src/main.cpp: main up to its loop.
use npu_oj.Base.{ℕ, ◌≡◌, ◌∙◌, inl, inr, Bool, Option, arith, ◌==◌, Bool-cases}
use npu_oj.Base.Text.{Text, codes}
use npu_oj.Base.Effect.{ok, Prog, ◌>>=◌, ◌>>◌, pure, >>=-eq-ok, >>=-ok}
use npu_oj.Platform.{Os}
use npu_oj.Platform.Files.{Files, FilesLaws, Process}
use npu_oj.Config.{Pcre}
use npu_oj.Config.Numbers.{get_ulong}
use npu_oj.Network.{Network}
use npu_oj.Db.{Db, init_db}
use npu_oj.Db.Shared.{init_db-IsFresh}
use npu_oj.Daemon.{LockFile}
use npu_oj.System.{System}
use npu_oj.System.StartUp.{
  init_judges, loaded, workdir_name, root_only, before_load, set_zone, init_net, init_managers,
  start_up,
}
use npu_oj.System.StartUp.Ready.{IsReady, Scripts, init_judges_lem}

module _ {W : Type 0} (os : Os W) (fs : Files W) (laws : FilesLaws fs) (pr : Process W)
    (lf : LockFile W) (re : Pcre) (junk_uid : ℕ) where
  -- The number of judges that a configuration asks for.
  abbrev pub Asks : Option Text → ℕ → Type 0
  Asks m_buffer n = get_ulong re m_buffer (codes "JUDGES_NUM") ≡ ok n

  -- The time zone, the database and the network, in the order of main.
  abbrev pub before_judges : Option Text → Prog W (Db × Network)
  before_judges m_buffer = do
    set_zone os fs pr lf re junk_uid
    db ← init_db re m_buffer
    net ← init_net os fs pr lf re junk_uid m_buffer
    pure (db, net)

  -- How main, started in the state `w`, has come to its loop with the system `s`: it went on to the
  -- call of load_file, which found the state `opened`, and from there to init_judges.
  pub record Started (ndebug : Bool) (w : W) (s : System W) : Type 0 where
    pub root : pr.geteuid w ≡ 0
    pub opened : W
    pub before : before_load os fs pr lf re junk_uid ndebug w ≡ ok (tt, opened)
    pub db : Db
    pub net : Network
    pub judges_at : W
    pub managers : before_judges (loaded pr opened) opened ≡ ok ((db, net), judges_at)
    pub kept : (s.machine.db ≡ db) × (s.machine.net ≡ net)
    pub n : ℕ
    pub asks : Asks (loaded pr opened) n
    pub scripts :
        Scripts fs laws re
          (loaded pr opened)
          (pr.getenv workdir_name judges_at)
          s.machine.mgr.lang_judges
    pub ready : IsReady fs laws n s

  root_only-ok :
      (w w' : W) (u : Unit {0})
      → root_only os fs pr lf re junk_uid w ≡ ok (u, w')
      → pr.geteuid w ≡ 0
  unfolding root_only
  root_only-ok w w' u h = elim (Bool-cases (pr.geteuid w == 0)) [
    | inl root ↦ ground (arith, root)
    | inr user ↦ cc (rw user at h)
  ]

  before_load-ok :
      (ndebug : Bool) (w w' : W) (u : Unit {0})
      → before_load os fs pr lf re junk_uid ndebug w ≡ ok (u, w')
      → pr.geteuid w ≡ 0
  unfolding before_load
  before_load-ok ndebug w w' u h =
      let (u0, w0, e0, h0) = >>=-eq-ok (root_only os fs pr lf re junk_uid) _ w h in
      root_only-ok w w0 u0 e0

  -- When main reaches its loop, the program runs as root and is ready: with as many judges as the
  -- configuration asks for that main loaded, each free and in a directory of its name that can be
  -- opened; the four judges of the languages with the scripts that this configuration names for them;
  -- the database connections, which were made from it, all free; the directories of the manager; and
  -- no lock held.
  pub start_up_lem :
      (ndebug : Bool) (w w' : W) (s : System W)
      → start_up os fs pr lf re junk_uid ndebug w ≡ ok (s, w')
      → Started ndebug w s
  unfolding start_up init_managers
  start_up_lem ndebug w w' s h =
      let (u, w4, e4, h4) = >>=-eq-ok (before_load os fs pr lf re junk_uid ndebug) _ w h in
      let m_buffer = loaded pr w4 in
      let zone = set_zone os fs pr lf re junk_uid in
      let net_made = init_net os fs pr lf re junk_uid m_buffer in
      let judges : Db → Network → Prog W (System W) =
        λ db net v. init_judges fs junk_uid re m_buffer (pr.getenv workdir_name v) db net v in
      let (u5, w5, e5, h5) =
        >>=-eq-ok zone (λ u. init_managers os fs pr lf re junk_uid m_buffer) w4 h4 in
      let (db, w6, e6, h6) = >>=-eq-ok (init_db re m_buffer) (λ db. net_made >>= judges db) w5 h5 in
      let (net, w7, e7, h7) = >>=-eq-ok net_made (judges db) w6 h6 in
      let (n, asks, scripts, same_db, same_net, ready) =
        init_judges_lem fs laws junk_uid re m_buffer (pr.getenv workdir_name w7) db net w7 w' s
          (init_db-IsFresh re m_buffer w5 w6 db e6) h7 in
      record {
        root = before_load-ok ndebug w w4 u e4;
        opened = w4;
        before = e4;
        db = db;
        net = net;
        judges_at = w7;
        managers =
            >>=-ok zone (λ u. init_db re m_buffer >>= (λ d. net_made >>= (λ e. pure (d, e)))) e5
            ∙ >>=-ok (init_db re m_buffer) (λ d. net_made >>= (λ e. pure (d, e))) e6
            ∙ >>=-ok net_made (λ e. pure (db, e)) e7;
        kept = (same_db, same_net);
        n = n;
        asks = asks;
        scripts = scripts;
        ready = ready;
      }
