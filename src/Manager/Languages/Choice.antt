-- ===== src/Manager/Languages/Choice.antt =====
-- src/judge.cpp: which LangJudge a submission is given.
use npu_oj.Base.{
  ◌≡◌, refl, sym, ap, ◌∙◌, ◌⊎◌, inl, inr, Bool, true, false, ◌&&◌, Option, none, some, List, [],
  ◌∷◌, ◌++◌, arith, if◌then◌else◌, Bool-cases,
}
use npu_oj.Base.Text.{Text}
use npu_oj.Base.Effect.{Outcome, ok, exits, faults, blocks, Prog}
use npu_oj.Common.{JudgeMode, Language}
use npu_oj.DataItem.{Submission}
use npu_oj.Platform.{Os}
use npu_oj.Judges.{Judge}
use npu_oj.Manager.{LangJudge, Machine}
use npu_oj.Manager.Languages.{
  same_lang, same_mode, same_judge, match_submission, find_same, push_unless, lang_judge,
  add_lang_judge, get_lang_judge, init_lang_judges, judge_sbm, with_lang_judge,
}
use npu_oj.Lang.Judging.{Garbage, judge}

abbrev pub or_else : {A : Type 0} → Option A → Option A → Option A
or_else none b = b
or_else (some a) b = some a

or_else-none : {A : Type 0} (o : Option A) → or_else o none ≡ o
or_else-none none = refl
or_else-none (some a) = refl

get_lang_judge-append :
    (js ks : List LangJudge) (submit : Submission)
    → get_lang_judge (js ++ ks) submit
      ≡ or_else (get_lang_judge js submit) (get_lang_judge ks submit)
unfolding get_lang_judge
get_lang_judge-append [] ks submit = refl
get_lang_judge-append (j ∷ js) ks submit = elim (Bool-cases (match_submission j submit)) [
  | inl hit ↦ rw hit
  | inr miss ↦ rw miss (get_lang_judge-append js ks submit)
]

-- Two judges of one kind match the same submissions.
match-same_judge :
    (j k : LangJudge) (submit : Submission)
    → same_judge j k ≡ true
    → match_submission k submit ≡ match_submission j submit
unfolding same_judge match_submission
match-same_judge j k submit h = ground arith

-- A comparison that ends with a duplicate leaves no submission to the new judge.
get_lang_judge-find_same :
    (js : List LangJudge) (k : LangJudge) (submit : Submission)
    → find_same false js k ≡ ok true
    → or_else (get_lang_judge js submit) (get_lang_judge (k ∷ []) submit) ≡ get_lang_judge js submit
unfolding find_same get_lang_judge
get_lang_judge-find_same [] k submit h = cc
get_lang_judge-find_same (j ∷ js) k submit h = elim (Bool-cases (match_submission j submit)) [
  | inl hit ↦ rw hit
  | inr miss ↦ elim (Bool-cases (same_judge j k)) [
    | inl same ↦
        rw (miss, match-same_judge j k submit same ∙ miss) (or_else-none (get_lang_judge js submit))
    | inr other ↦ rw miss (get_lang_judge-find_same js k submit (rw (other, find_same) at h))
  ]
]

add_lang_judge_inv :
    (js js' : List LangJudge) (k : LangJudge) (o : Outcome Bool)
    → push_unless js k o ≡ ok js'
    → ((o ≡ ok true) × (js' ≡ js)) ⊎ ((o ≡ ok false) × (js' ≡ js ++ k ∷ []))
add_lang_judge_inv js js' k (ok true) h = inl (refl, cc)
add_lang_judge_inv js js' k (ok false) h = inr (refl, cc)
add_lang_judge_inv js js' k (exits code) h = cc
add_lang_judge_inv js js' k faults h = cc
add_lang_judge_inv js js' k blocks h = cc

-- A judge that is added, when add_lang_judge returns, is found for the submissions of its language
-- and mode for which none was found before; for all others the choice stays as it was.
pub add_lang_judge_lem :
    (js js' : List LangJudge) (k : LangJudge) (submit : Submission)
    → add_lang_judge js k ≡ ok js'
    → get_lang_judge js' submit
      ≡ or_else (get_lang_judge js submit) (if match_submission k submit then some k else none)
unfolding add_lang_judge get_lang_judge
add_lang_judge_lem js js' k submit h = elim (add_lang_judge_inv js js' k (find_same false js k) h) [
  | inl (same, e) ↦ rw e (sym (get_lang_judge-find_same js k submit same))
  | inr (other, e) ↦ rw e (get_lang_judge-append js (k ∷ []) submit)
]

-- The script of a language and mode, where one is registered.
abbrev pub script_of :
    (c_debug c_release cpp_debug cpp_release : Option Text)
    → Language
    → JudgeMode
    → Option (Option Text)
script_of cd cr pd pr Language.c JudgeMode.debug = some cd
script_of cd cr pd pr Language.c JudgeMode.release = some cr
script_of cd cr pd pr Language.cpp JudgeMode.debug = some pd
script_of cd cr pd pr Language.cpp JudgeMode.release = some pr
script_of cd cr pd pr lang mode = none

abbrev pub as_judge : Language → JudgeMode → Option (Option Text) → Option LangJudge
as_judge lang mode none = none
as_judge lang mode (some s) = some (record { lang = lang; mode = mode; compile_script_path = s })

abbrev pub registered : (cd cr pd pr : Option Text) → List LangJudge
registered cd cr pd pr =
    lang_judge Language.c JudgeMode.debug cd
    ∷ lang_judge Language.c JudgeMode.release cr
    ∷ lang_judge Language.cpp JudgeMode.debug pd
    ∷ lang_judge Language.cpp JudgeMode.release pr
    ∷ []

-- The first of the four that matches.
abbrev first_of_four : (cd cr pd pr : Option Text) → Language → JudgeMode → Option LangJudge
first_of_four cd cr pd pr lang mode =
    if same_lang Language.c lang && same_mode JudgeMode.debug mode
    then some (lang_judge Language.c JudgeMode.debug cd)
    else if same_lang Language.c lang && same_mode JudgeMode.release mode
    then some (lang_judge Language.c JudgeMode.release cr)
    else if same_lang Language.cpp lang && same_mode JudgeMode.debug mode
    then some (lang_judge Language.cpp JudgeMode.debug pd)
    else if same_lang Language.cpp lang && same_mode JudgeMode.release mode
    then some (lang_judge Language.cpp JudgeMode.release pr)
    else none

chosen :
    (cd cr pd pr : Option Text) (lang : Language) (mode : JudgeMode)
    → first_of_four cd cr pd pr lang mode ≡ as_judge lang mode (script_of cd cr pd pr lang mode)
chosen cd cr pd pr Language.unkown JudgeMode.unset = refl
chosen cd cr pd pr Language.unkown JudgeMode.release = refl
chosen cd cr pd pr Language.unkown JudgeMode.debug = refl
chosen cd cr pd pr Language.c JudgeMode.unset = refl
chosen cd cr pd pr Language.c JudgeMode.release = refl
chosen cd cr pd pr Language.c JudgeMode.debug = refl
chosen cd cr pd pr Language.cpp JudgeMode.unset = refl
chosen cd cr pd pr Language.cpp JudgeMode.release = refl
chosen cd cr pd pr Language.cpp JudgeMode.debug = refl
chosen cd cr pd pr Language.java JudgeMode.unset = refl
chosen cd cr pd pr Language.java JudgeMode.release = refl
chosen cd cr pd pr Language.java JudgeMode.debug = refl
chosen cd cr pd pr Language.pascal JudgeMode.unset = refl
chosen cd cr pd pr Language.pascal JudgeMode.release = refl
chosen cd cr pd pr Language.pascal JudgeMode.debug = refl

-- init_judges registers four judges without a fault, and among them a submission in C or C++ for the
-- debug or the release mode is given the one of its language and mode, with its script; any other
-- submission is given the null pointer.
pub init_lang_judges_lem :
    (cd cr pd pr : Option Text) (submit : Submission)
    → (init_lang_judges cd cr pd pr ≡ ok (registered cd cr pd pr))
      × (get_lang_judge (registered cd cr pd pr) submit
          ≡ as_judge submit.sbm_lang submit.sbm_cur_mode
              (script_of cd cr pd pr submit.sbm_lang submit.sbm_cur_mode))
unfolding init_lang_judges add_lang_judge find_same same_judge get_lang_judge match_submission
init_lang_judges_lem cd cr pd pr submit =
    (refl, chosen cd cr pd pr submit.sbm_lang submit.sbm_cur_mode)

module _ {W : Type 0} (os : Os W) (junk : Garbage) (jdg : Judge) where
  -- What a submission comes to with the script of its language and mode, or without one.
  abbrev pub judged_with : Submission → Option (Option Text) → Prog (Machine W) Submission
  judged_with submit none m = faults
  judged_with submit (some script) m =
      judge os junk (lang_judge submit.sbm_lang submit.sbm_cur_mode script) jdg submit m

  with_as_judge :
      (submit : Submission) (script : Option (Option Text)) (m : Machine W)
      → with_lang_judge os junk jdg submit (as_judge submit.sbm_lang submit.sbm_cur_mode script) m
        ≡ judged_with submit script m
  unfolding with_lang_judge
  with_as_judge submit none m = refl
  with_as_judge submit (some script) m = refl

  -- With the four judges registered, a submission is judged by that of its language and mode; in any
  -- other language or mode the program ends in a fault.
  pub judge_sbm_lem :
      (cd cr pd pr : Option Text) (submit : Submission) (m : Machine W)
      → m.mgr.lang_judges ≡ registered cd cr pd pr
      → judge_sbm os junk jdg submit m
        ≡ judged_with submit (script_of cd cr pd pr submit.sbm_lang submit.sbm_cur_mode) m
  unfolding judge_sbm
  judge_sbm_lem cd cr pd pr submit m h =
      ap (λ js. with_lang_judge os junk jdg submit (get_lang_judge js submit) m) h
      ∙ ap (λ found. with_lang_judge os junk jdg submit found m)
          (init_lang_judges_lem cd cr pd pr submit).1
      ∙ with_as_judge submit (script_of cd cr pd pr submit.sbm_lang submit.sbm_cur_mode) m
