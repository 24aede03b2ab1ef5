-- ===== src/Manager/Languages/Steadily.antt =====
-- src/judge.cpp: what Judge::judge_sbm leaves alone of the manager.
use npu_oj.Base.{◌≡◌, Option, none, some, List}
use npu_oj.Base.Text.{Text}
use npu_oj.Base.Effect.{ok}
use npu_oj.Base.Fixes.{Keeps}
use npu_oj.DataItem.{Submission}
use npu_oj.Platform.{Os}
use npu_oj.Judges.{Judge}
use npu_oj.Manager.{LangJudge}
use npu_oj.Manager.Languages.{judge_sbm, with_lang_judge, get_lang_judge}
use npu_oj.Lang.Judging.{Garbage}
use npu_oj.Lang.Judging.Steady.{Steady, judge-Keeps}

module _ {W : Type 0} (os : Os W) (main_dir : Text) (langs : List LangJudge) (junk : Garbage) where
  pub judge_sbm-Keeps :
      (jdg : Judge) (submit : Submission)
      → Keeps (Steady main_dir langs) (judge_sbm os junk jdg submit)
  unfolding judge_sbm with_lang_judge
  judge_sbm-Keeps jdg submit m m' a s h = go (get_lang_judge m.mgr.lang_judges submit) h
    where
      go :
          (found : Option LangJudge)
          → with_lang_judge os junk jdg submit found m ≡ ok (a, m')
          → Steady main_dir langs m'
      go none e = cc e
      go (some lang) e = judge-Keeps os main_dir langs junk lang jdg submit m m' a s e
