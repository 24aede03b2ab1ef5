-- ===== src/Manager/Languages.antt =====
-- src/judge.cpp and src/lang.cpp: the judges of the languages, and the choice among them.
pub mod Choice
pub mod Scripts
pub mod Steadily
use npu_oj.Base.{
  ℕ, ◌≡◌, refl, Bool, true, false, ◌&&◌, ◌||◌, Option, none, some, List, [], ◌∷◌, ◌++◌, ◌==◌,
  if◌then◌else◌,
}
use npu_oj.Base.Text.{Text, codes}
use npu_oj.Base.Effect.{Outcome, ok, exits, faults, blocks, Prog}
use npu_oj.Common.{JudgeMode, Language}
use npu_oj.DataItem.{Submission}
use npu_oj.Platform.{Os}
use npu_oj.Network.{to_lower}
use npu_oj.Judges.{Judge}
use npu_oj.Manager.{LangJudge, Machine}
use npu_oj.Lang.Judging.{Garbage, judge}

-- The comparison of enumerators.
abbrev pub same_lang : Language → Language → Bool
same_lang Language.unkown Language.unkown = true
same_lang Language.c Language.c = true
same_lang Language.cpp Language.cpp = true
same_lang Language.java Language.java = true
same_lang Language.pascal Language.pascal = true
same_lang a b = false

abbrev pub same_mode : JudgeMode → JudgeMode → Bool
same_mode JudgeMode.unset JudgeMode.unset = true
same_mode JudgeMode.release JudgeMode.release = true
same_mode JudgeMode.debug JudgeMode.debug = true
same_mode a b = false

-- operator==(const LangJudge &, const LangJudge &)
unfoldable pub same_judge : LangJudge → LangJudge → Bool
same_judge a b = same_mode a.mode b.mode && same_lang a.lang b.lang

unfoldable pub match_submission : LangJudge → Submission → Bool
match_submission j submit = same_lang j.lang submit.sbm_lang && same_mode j.mode submit.sbm_cur_mode

-- The loop of add_lang_judge over a new object: `flg_duplicable` is also whether the object is
-- deleted already, and the next comparison reads it.
unfoldable pub find_same : Bool → List LangJudge → LangJudge → Outcome Bool
find_same duplicable [] jdg = ok duplicable
find_same true (j ∷ js) jdg = faults
find_same false (j ∷ js) jdg = find_same (same_judge j jdg) js jdg

abbrev push_unless : List LangJudge → LangJudge → Outcome Bool → Outcome (List LangJudge)
push_unless js jdg (ok true) = ok js
push_unless js jdg (ok false) = ok (js ++ jdg ∷ [])
push_unless js jdg (exits code) = exits code
push_unless js jdg faults = faults
push_unless js jdg blocks = blocks

unfoldable pub add_lang_judge : List LangJudge → LangJudge → Outcome (List LangJudge)
unfolding find_same
add_lang_judge js jdg = push_unless js jdg (find_same false js jdg)

-- `none` is the null pointer.
unfoldable pub get_lang_judge : List LangJudge → Submission → Option LangJudge
unfolding match_submission
get_lang_judge [] submit = none
get_lang_judge (j ∷ js) submit =
    if match_submission j submit then some j else get_lang_judge js submit

abbrev pub lang_judge : Language → JudgeMode → Option Text → LangJudge
lang_judge lang mode script = record { lang = lang; mode = mode; compile_script_path = script }

abbrev add_next : Outcome (List LangJudge) → LangJudge → Outcome (List LangJudge)
add_next (ok js) jdg = add_lang_judge js jdg
add_next (exits code) jdg = exits code
add_next faults jdg = faults
add_next blocks jdg = blocks

-- The four that init_judges adds, with the scripts that their constructors read.
unfoldable pub init_lang_judges :
    (c_debug c_release cpp_debug cpp_release : Option Text) → Outcome (List LangJudge)
unfolding add_lang_judge
init_lang_judges c_debug c_release cpp_debug cpp_release =
    add_next
      (add_next
        (add_next (add_lang_judge [] (lang_judge Language.c JudgeMode.debug c_debug))
          (lang_judge Language.c JudgeMode.release c_release))
        (lang_judge Language.cpp JudgeMode.debug cpp_debug))
      (lang_judge Language.cpp JudgeMode.release cpp_release)

-- `strcasecmp(a, b) == 0`
unfoldable pub equal_ignoring_case : Text → Text → Bool
equal_ignoring_case [] [] = true
equal_ignoring_case [] (b ∷ ys) = false
equal_ignoring_case (a ∷ xs) [] = false
equal_ignoring_case (a ∷ xs) (b ∷ ys) = (to_lower a == to_lower b) && equal_ignoring_case xs ys

-- The branch of Pascal is empty.
unfoldable pub pick_lang : Text → Language
unfolding equal_ignoring_case
pick_lang lang =
    if equal_ignoring_case lang (codes "C")
    then Language.c
    else if equal_ignoring_case lang (codes "CPP")
    then Language.cpp
    else if equal_ignoring_case lang (codes "Java")
    then Language.java
    else Language.unkown

module _ {W : Type 0} (os : Os W) where
  with_lang_judge : Garbage → Judge → Submission → Option LangJudge → Prog (Machine W) Submission
  with_lang_judge junk jdg submit none m = faults
  with_lang_judge junk jdg submit (some found) m = judge os junk found jdg submit m

  -- Judge::judge_sbm. A missing LangJudge is dereferenced.
  unfoldable pub judge_sbm : Garbage → Judge → Submission → Prog (Machine W) Submission
  unfolding with_lang_judge get_lang_judge
  judge_sbm junk jdg submit m =
      with_lang_judge junk jdg submit (get_lang_judge m.mgr.lang_judges submit) m
