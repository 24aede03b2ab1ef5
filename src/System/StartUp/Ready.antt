-- ===== src/System/StartUp/Ready.antt =====
-- src/main.cpp: the state in which main enters its loop.
use npu_oj.Base.{
  ℕ, zero, suc, ◌+◌, ◌<◌, ◌^◌, ◌≡◌, refl, sym, ap, subst, ◌∙◌, inl, inr, true, false, Option, some,
  List, [], ◌∷◌, arith, ltb, length, get_elem?, Bool-cases,
}
use npu_oj.Base.Text.{Text, codes}
use npu_oj.Base.Effect.{ok, pure, lift, lift-eq-ok, >>=-eq-ok, ok-injective}
use npu_oj.Platform.Files.{Files, FilesLaws}
use npu_oj.Config.{Pcre}
use npu_oj.Config.Numbers.{get_ulong}
use npu_oj.Network.{Network}
use npu_oj.Db.{Db}
use npu_oj.Db.Shared.{IsFresh}
use npu_oj.Judges.{Judge, judge_dir, init_table}
use npu_oj.Manager.{LangJudge, Manager, new_manager}
use npu_oj.Manager.Dirs.{init_workdir, init_work_dir}
use npu_oj.Manager.Dirs.Made.{
  Keeps, AllOpen, HasDirs, init_workdir-ok, new-HasDirs, init_work_dir_lem,
}
use npu_oj.Manager.Languages.Choice.{registered}
use npu_oj.Manager.Languages.Scripts.{register_judges}
use npu_oj.Manager.Languages.Scripts.Registered.{IsScript, register_judges_lem}
use npu_oj.System.{System}
use npu_oj.System.StartUp.{new_judge, judge_for, make_judges, all_judges, init_judges}

module _ {W : Type 0} (fs : Files W) (laws : FilesLaws fs) where
  -- Judge `i` of the program works in a directory that can be opened.
  pub record HasDir (main_dir : Text) (i : ℕ) (entry : Option Judge) (w : W) : Type 0 where
    pub jdg : Judge
    pub there : entry ≡ some jdg
    pub named : jdg.work_dir ≡ judge_dir main_dir i
    pub opens : fs.opendir jdg.work_dir w ≡ true

  -- One more judge before those that have their directories.
  first_HasDir :
      (main_dir : Text) (i n : ℕ) (jdg : Judge) (rest : List Judge) (w' : W)
      → jdg.work_dir ≡ judge_dir main_dir i
      → fs.opendir jdg.work_dir w' ≡ true
      → ((k : ℕ) → k < n → HasDir main_dir (i + 1 + k) (get_elem? rest k) w')
      → (k : ℕ) → k < suc n
      → HasDir main_dir (i + k) (get_elem? (jdg ∷ rest) k) w'
  first_HasDir main_dir i n jdg rest w' named opens others zero lt =
      let at : i ≡ i + 0 = omega arith in
      record { jdg = jdg; there = refl; named = named ∙ ap (judge_dir main_dir) at; opens = opens }
  first_HasDir main_dir i n jdg rest w' named opens others (suc k) lt =
      let r = others k (omega arith) in
      let at : i + 1 + k ≡ i + suc k = omega arith in
      record {
        jdg = r.jdg;
        there = r.there;
        named = r.named ∙ ap (judge_dir main_dir) at;
        opens = r.opens;
      }

  make_judges_lem :
      (junk_uid : ℕ) (main_dir : Text) (i n : ℕ) (w w' : W) (js : List Judge)
      → make_judges fs junk_uid (some main_dir) i n w ≡ ok (js, w')
      → (length js ≡ n)
        × Keeps fs laws w w'
        × ((k : ℕ) → k < n → HasDir main_dir (i + k) (get_elem? js k) w')
  unfolding make_judges judge_for new_judge
  make_judges_lem junk_uid main_dir i zero w w' js h =
      let same : js ≡ [] = cc h in
      let stays : w' ≡ w = cc h in (ap length same, rw stays (λ q o. o), λ k lt. elim lt [ ])
  make_judges_lem junk_uid main_dir i (suc n) w w' js h =
      let (jdg, w1, e1, h1) = >>=-eq-ok (init_work_dir fs (new_judge junk_uid main_dir i)) _ w h in
      let (rest, w2, e2, h2) =
        >>=-eq-ok (make_judges fs junk_uid (some main_dir) (i + 1) n) (λ r. pure (jdg ∷ r)) w1 h1 in
      let (user, found, own, opens, keeps) =
        init_work_dir_lem fs laws (new_judge junk_uid main_dir i) jdg w w1 e1 in
      let (len, keeps', dirs) = make_judges_lem junk_uid main_dir (i + 1) n w1 w2 rest e2 in
      let all : js ≡ jdg ∷ rest = cc h2 in
      let last : w' ≡ w2 = cc h2 in
      let named : jdg.work_dir ≡ judge_dir main_dir i = ap (λ (j : Judge). j.work_dir) own in
      let still = keeps' _ (ap (λ d. fs.opendir d w1) named ∙ opens) in
      rw (all, last)
        (
          ap suc len,
          λ q o. keeps' q (keeps q o),
          first_HasDir main_dir i n jdg rest w2 named still dirs,
        )

  -- A system in which nothing has run yet.
  pub record IsReady (n : ℕ) (s : System W) : Type 0 where
    pub scripts :
        (cd cr pd pr : Text) × (s.machine.mgr.lang_judges
          ≡ registered (some cd) (some cr) (some pd) (some pr))
    pub fresh_db : IsFresh s.machine.db
    pub unlocked : s.machine.mgr.lock_held ≡ false
    pub no_problem : s.machine.mgr.prob_lists ≡ []
    pub named_dirs : HasDirs fs laws (codes "/home/noj") s.machine.mgr s.machine.world
    pub table : s.table ≡ init_table n
    pub judges : length s.judges ≡ n
    pub units : (s.sem_judge ≡ n) × (s.sem_fetch ≡ n)
    pub dirs : (i : ℕ) → i < n → HasDir (codes "/home/noj") i (get_elem? s.judges i) s.machine.world

  all_judges_some :
      (junk_uid : ℕ) (main_dir : Option Text) (n : ℕ) (w w' : W) (js : List Judge)
      → all_judges fs junk_uid main_dir n w ≡ ok (js, w')
      → (n < 2 ^ 30) × (make_judges fs junk_uid main_dir 0 n w ≡ ok (js, w'))
  unfolding all_judges
  all_judges_some junk_uid main_dir n w w' js h = elim (Bool-cases (ltb n (2 ^ 30))) [
    | inl few ↦ (ground (arith, few), rw few at h)
    | inr many ↦ cc (rw many at h)
  ]

  assemble :
      (langs : List LangJudge) (n : ℕ) (js : List Judge) (db : Db) (net : Network) (w0 w : W)
      → ((cd cr pd pr : Text) × (langs ≡ registered (some cd) (some cr) (some pd) (some pr)))
      → IsFresh db
      → AllOpen fs laws (codes "/home/noj") w0
      → (length js ≡ n)
        × Keeps fs laws w0 w
        × ((k : ℕ) → k < n → HasDir (codes "/home/noj") (0 + k) (get_elem? js k) w)
      → IsReady n (record {
        machine = record {
          mgr = record new_manager { work_dir = some (codes "/home/noj"); lang_judges = langs };
          db = db;
          net = net;
          world = w;
        };
        judges = js;
        table = init_table n;
        sem_judge = n;
        sem_fetch = n;
      })
  assemble langs n js db net w0 w scripts f (d0, d1, d2, d3) (len, keeps, dirs) = record {
    scripts = scripts;
    fresh_db = f;
    unlocked = refl;
    no_problem = refl;
    named_dirs =
        new-HasDirs fs laws (codes "/home/noj") _ w (refl, refl, refl, refl, refl)
          (keeps _ d0, keeps _ d1, keeps _ d2, keeps _ d3);
    table = refl;
    judges = len;
    units = (refl, refl);
    dirs = λ i lt.
        let same : 0 + i ≡ i = omega arith in
        subst (λ j. HasDir (codes "/home/noj") j (get_elem? js i) w) same (dirs i lt);
  }

  -- The judges of the languages have the scripts that a configuration names for them.
  pub record Scripts (re : Pcre) (m_buffer env : Option Text) (js : List LangJudge) : Type 0 where
    pub cd : Text
    pub cr : Text
    pub pd : Text
    pub pr : Text
    pub four : js ≡ registered (some cd) (some cr) (some pd) (some pr)
    pub c_debug : IsScript re m_buffer env (codes "C_DEBUG_COMPILER") cd
    pub c_release : IsScript re m_buffer env (codes "C_RELEASE_COMPILER") cr
    pub cpp_debug : IsScript re m_buffer env (codes "CPP_DEBUG_COMPILER") pd
    pub cpp_release : IsScript re m_buffer env (codes "CPP_RELEASE_COMPILER") pr

  pub init_judges_lem :
      (junk_uid : ℕ) (re : Pcre) (m_buffer env : Option Text) (db : Db) (net : Network) (w w' : W)
      (s : System W)
      → IsFresh db
      → init_judges fs junk_uid re m_buffer env db net w ≡ ok (s, w')
      → (n : ℕ) × (get_ulong re m_buffer (codes "JUDGES_NUM") ≡ ok n)
        × Scripts re m_buffer env s.machine.mgr.lang_judges
        × (s.machine.db ≡ db)
        × (s.machine.net ≡ net)
        × IsReady n s
  unfolding init_judges
  init_judges_lem junk_uid re m_buffer env db net w w' s f h =
      let (mgr, w1, e1, h1) = >>=-eq-ok (init_workdir fs (codes "/home/noj") new_manager) _ w h in
      let (langs, w2, e2, h2) =
        >>=-eq-ok (register_judges re m_buffer env mgr.lang_judges) _ w1 h1 in
      let (n, w3, e3, h3) = >>=-eq-ok (lift (get_ulong re m_buffer (codes "JUDGES_NUM"))) _ w2 h2 in
      let (js, w4, e4, h4) = >>=-eq-ok (all_judges fs junk_uid mgr.work_dir n) _ w3 h3 in
      let (mgr_is, open_dirs) =
        init_workdir-ok fs laws (codes "/home/noj") w w1 mgr (omega arith) e1 in
      let none_yet : mgr.lang_judges ≡ [] = ap (λ (m : Manager). m.lang_judges) mgr_is in
      let main : mgr.work_dir ≡ some (codes "/home/noj") =
        ap (λ (m : Manager). m.work_dir) mgr_is in
      let (cd, cr, pd, pr, langs_are, k1, k2, k3, k4, same2) =
        register_judges_lem re m_buffer env w1 w2 langs
          (ap (λ js0. register_judges re m_buffer env js0 w1) (sym none_yet) ∙ e2) in
      let (number, same3) = lift-eq-ok (get_ulong re m_buffer (codes "JUDGES_NUM")) w2 w3 e3 in
      let (few, made) =
        all_judges_some junk_uid (some (codes "/home/noj")) n w3 w4 js
          (ap (λ d. all_judges fs junk_uid d n w3) (sym main) ∙ e4) in
      let dirs = make_judges_lem junk_uid (codes "/home/noj") 0 n w3 w4 js made in
      let opened = subst (AllOpen fs laws (codes "/home/noj")) (same2 ∙ same3) open_dirs in
      let ready = assemble langs n js db net w3 w4 (cd, cr, pd, pr, langs_are) f opened dirs in
      let final : Manager → System W = λ m. record {
        machine = record { mgr = record m { lang_judges = langs }; db = db; net = net; world = w4 };
        judges = js;
        table = init_table n;
        sem_judge = n;
        sem_fetch = n;
      } in
      let s_is : s ≡ final mgr = (ok-injective h4).0 in
      let named : Scripts re m_buffer env langs = record {
        cd = cd;
        cr = cr;
        pd = pd;
        pr = pr;
        four = langs_are;
        c_debug = k1;
        c_release = k2;
        cpp_debug = k3;
        cpp_release = k4;
      } in
      let langs_eq : langs ≡ s.machine.mgr.lang_judges =
        sym (ap (λ (x : System W). x.machine.mgr.lang_judges) s_is) in
      (
        n,
        number,
        subst (Scripts re m_buffer env) langs_eq named,
        ap (λ (x : System W). x.machine.db) s_is,
        ap (λ (x : System W). x.machine.net) s_is,
        subst (IsReady n) (sym (s_is ∙ ap final mgr_is)) ready,
      )
