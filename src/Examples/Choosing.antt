-- ===== src/Examples/Choosing.antt =====
-- Concrete choices of a language's judge.
use npu_oj.Base.{◌≡◌, refl, Option, none, some}
use npu_oj.Base.Text.{Text, codes}
use npu_oj.Manager.{Machine}
use npu_oj.Manager.Languages.{judge_sbm}
use npu_oj.Manager.Languages.Choice.{script_of, registered, judged_with, judge_sbm_lem}
use npu_oj.Examples.World.{quiet, no_garbage, first_judge, in_c, fresh}

abbrev script : Option Text
script = some (codes "/cc.sh")

abbrev ready : Machine (Unit {0})
ready = record fresh {
  mgr = record fresh.mgr { lang_judges = registered script script script none };
}

judge_sbm_lem_example :
    judge_sbm quiet no_garbage first_judge in_c ready
    ≡ judged_with quiet no_garbage first_judge in_c
        (script_of script script script none in_c.sbm_lang in_c.sbm_cur_mode)
        ready
judge_sbm_lem_example =
    judge_sbm_lem quiet no_garbage first_judge script script script none in_c ready refl
