-- ===== src/System/Service.antt =====
-- src/judge.cpp: a work thread that judges one submission after the other, with no other thread.
use npu_oj.Base.{
  ℕ, zero, suc, ◌+◌, ◌<◌, ◌≡◌, refl, sym, ap, subst, ◌∙◌, true, Option, some, List, [], ◌∷◌, arith,
  length, get_elem?, set,
}
use npu_oj.Base.Text.{Text, codes}
use npu_oj.Base.Effect.{ok, Prog, ◌>>=◌, pure, >>=-eq-ok, ok-injective}
use npu_oj.DataItem.{Submission}
use npu_oj.Platform.{Os}
use npu_oj.Platform.Files.{Files, FilesLaws}
use npu_oj.Slots.{find_slot}
use npu_oj.Judges.{Judge, judge_dir, init_table, lend_judge, Judges}
use npu_oj.Manager.{Machine}
use npu_oj.Manager.Languages.Steadily.{judge_sbm-Keeps}
use npu_oj.Manager.Languages.Choice.{script_of, registered, judged_with, judge_sbm_lem}
use npu_oj.Lang.Judging.{Garbage}
use npu_oj.Lang.Judging.Steady.{Steady, elsewhere-Steady}
use npu_oj.System.{System, run}
use npu_oj.System.Run.{run_lem}
use npu_oj.System.StartUp.Ready.{IsReady}

some-injective : {A : Type 0} {a b : A} → ◌≡◌ {A = Option A} (some a) (some b) → a ≡ b
some-injective h = cc h

pub first_lent : (n : ℕ) → 0 < n → (lend_judge (init_table n)).0 ≡ some 0
unfolding lend_judge init_table find_slot
first_lent zero h = absurd (omega arith)
first_lent (suc n) h = refl

head_there :
    {A : Type 0} (xs : List A) (x y : A)
    → get_elem? xs 0 ≡ some x
    → get_elem? (set xs 0 y) 0 ≡ some y
head_there [] x y h = cc h
head_there (a ∷ xs) x y h = refl

module _ {W : Type 0} (fs : Files W) (os : Os W) (junk : Garbage) where
  -- One submission after the other.
  unfoldable pub run_all : List Submission → Prog (System W) (List Submission)
  unfolding run
  run_all [] = pure []
  run_all (submit ∷ submits) = do
    submit' ← run fs os junk submit
    rest ← run_all submits
    pure (submit' ∷ rest)

module _ {W : Type 0} (fs : Files W) (laws : FilesLaws fs) (os : Os W) (junk : Garbage) where
  module _ (cd cr pd pr : Text) where
    -- What became of a submission: judged with the script of its language and mode, by judge 0, in
    -- its directory.
    pub record Served (submit submit' : Submission) : Type 0 where
      pub jdg : Judge
      pub before : Machine W
      pub after : Machine W
      pub named : jdg.work_dir ≡ judge_dir (codes "/home/noj") 0
      pub opens : fs.opendir jdg.work_dir before.world ≡ true
      pub by_script :
          judged_with os junk jdg submit
            (script_of (some cd) (some cr) (some pd) (some pr) submit.sbm_lang submit.sbm_cur_mode)
            before
          ≡ ok (submit', after)

    pub data AllServed : List Submission → List Submission → Type 0 where
      none_left : AllServed [] []
      one_more :
          {submit submit' : Submission} {submits submits' : List Submission}
          → Served submit submit'
          → AllServed submits submits'
          → AllServed (submit ∷ submits) (submit' ∷ submits')

    -- Between two submissions.
    pub record InService (n : ℕ) (s : System W) : Type 0 where
      pub steady :
          Steady (codes "/home/noj") (registered (some cd) (some cr) (some pd) (some pr)) s.machine
      pub table : s.table ≡ init_table n
      pub units : s.sem_judge ≡ n
      pub jdg : Judge
      pub there : get_elem? s.judges 0 ≡ some jdg
      pub named : jdg.work_dir ≡ judge_dir (codes "/home/noj") 0

    run_serves :
        (n : ℕ) (submit submit' : Submission) (s s' : System W)
        → 0 < n
        → InService n s
        → run fs os junk submit s ≡ ok (submit', s')
        → Served submit submit' × InService n s' × (s'.sem_fetch ≡ s.sem_fetch + 1)
    run_serves n submit submit' s s' some_judge service h =
        let r = run_lem fs laws os junk submit submit' s s' h in
        let jdg : Judge = record r.jdg { m_uid = r.user.pw_uid } in
        let m : Machine W = record s.machine { world = r.made } in
        let lent : (lend_judge (init_table n)).0 ≡ some r.i =
          ap (λ (t : Judges). (lend_judge t).0) (sym service.table) ∙ r.lent in
        let first : 0 ≡ r.i = some-injective (sym (first_lent n some_judge) ∙ lent) in
        let same : service.jdg ≡ r.jdg =
          some-injective (sym service.there ∙ ap (get_elem? s.judges) first ∙ r.entry) in
        let named : jdg.work_dir ≡ judge_dir (codes "/home/noj") 0 =
          ap (λ (j : Judge). j.work_dir) (sym same) ∙ service.named in
        let langs = registered (some cd) (some cr) (some pd) (some pr) in
        let steady =
          judge_sbm-Keeps os (codes "/home/noj") langs junk jdg submit m r.after_judging submit'
            (elsewhere-Steady _ _ s.machine r.made service.steady) r.judged in
        let served : Served submit submit' = record {
          jdg = jdg;
          before = m;
          after = r.after_judging;
          named = named;
          opens = r.dir;
          by_script =
              sym (
                judge_sbm_lem os junk jdg (some cd) (some cr) (some pd) (some pr) submit m
                  service.steady.registry)
              ∙ r.judged;
        } in
        (
          served,
          subst (InService n) (sym r.afterwards) record {
            steady = elsewhere-Steady _ _ r.after_judging _ steady;
            table = service.table;
            units = service.units;
            jdg = jdg;
            there =
                ap (λ i. get_elem? (set s.judges i jdg) 0) (sym first)
                ∙ head_there s.judges service.jdg jdg service.there;
            named = named;
          },
          ap (λ (x : System W). x.sem_fetch) r.afterwards,
        )

    run_all_serves :
        (n : ℕ) (submits submits' : List Submission) (s s' : System W)
        → 0 < n
        → InService n s
        → run_all fs os junk submits s ≡ ok (submits', s')
        → AllServed submits submits'
          × InService n s'
          × (s'.sem_fetch ≡ s.sem_fetch + length submits)
    unfolding run_all
    run_all_serves n [] submits' s s' some_judge service h =
        let none_judged : [] ≡ submits' = sym (ok-injective h).0 in
        let still : s ≡ s' = sym (ok-injective h).1 in
        (
          subst (AllServed []) none_judged none_left,
          subst (InService n) still service,
          ap (λ (x : System W). x.sem_fetch) (sym still) ∙ omega arith,
        )
    run_all_serves n (submit ∷ submits) submits' s s' some_judge service h =
        let (submit', s1, e1, h1) = >>=-eq-ok (run fs os junk submit) _ s h in
        let (rest, s2, e2, h2) =
          >>=-eq-ok (run_all fs os junk submits) (λ r. pure (submit' ∷ r)) s1 h1 in
        let (served, service1, posted) = run_serves n submit submit' s s1 some_judge service e1 in
        let (others, service2, posts) =
          run_all_serves n submits rest s1 s2 some_judge service1 e2 in
        let all : submit' ∷ rest ≡ submits' = sym (ok-injective h2).0 in
        let last : s2 ≡ s' = sym (ok-injective h2).1 in
        (
          subst (AllServed (submit ∷ submits)) all (one_more served others),
          subst (InService n) last service2,
          ap (λ (x : System W). x.sem_fetch) (sym last) ∙ omega (arith, posted, posts),
        )

  -- When a program that is ready, with at least one judge, has run a list of submissions one after
  -- the other, each was judged by judge 0, in the directory `judge0` below the main one, which could
  -- be opened, and with the script that is configured for its language and mode (had there been none,
  -- the program would not have returned); afterwards the table of judges and their semaphore are as
  -- at the start, the lock is free, and the semaphore of the submissions has a unit more for each.
  pub served_lem :
      (n : ℕ) (submits submits' : List Submission) (s s' : System W)
      → IsReady fs laws n s
      → 0 < n
      → run_all fs os junk submits s ≡ ok (submits', s')
      → (cd cr pd pr : Text) × AllServed cd cr pd pr submits submits'
        × InService cd cr pd pr n s'
        × (s'.sem_fetch ≡ n + length submits)
  served_lem n submits submits' s s' ready some_judge h =
      let (cd, cr, pd, pr, langs) = ready.scripts in
      let dir = ready.dirs 0 some_judge in
      let (served, service, posts) =
        run_all_serves cd cr pd pr n submits submits' s s' some_judge
          record {
            steady = record {
              dir = ready.named_dirs.main_dir.name;
              registry = langs;
              unlocked = ready.unlocked;
            };
            table = ready.table;
            units = ready.units.0;
            jdg = dir.jdg;
            there = dir.there;
            named = dir.named;
          }
          h in
      (cd, cr, pd, pr, served, service, posts ∙ ap (λ k. k + length submits) ready.units.1)
