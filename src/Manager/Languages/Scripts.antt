-- ===== src/Manager/Languages/Scripts.antt =====
-- src/lang.cpp and src/judge.cpp: the constructors of the judges of the languages, which read where
-- the compilers' scripts are, and how init_judges registers them.
pub mod Registered
use npu_oj.Base.{◌≡◌, Option, none, some, List, []}
use npu_oj.Base.Text.{Text, codes}
use npu_oj.Base.Effect.{Outcome, ok, exits, faults, blocks, Prog, ◌>>=◌, pure, lift}
use npu_oj.Common.{JudgeMode, Language}
use npu_oj.Config.{Pcre, allocated, get_string, parse_real_path}
use npu_oj.Manager.{LangJudge}
use npu_oj.Manager.Languages.{lang_judge, add_lang_judge}

-- The pointer is not null when get_string returns; without a `$` the path stays as it is written.
or_path : Text → Outcome (Option Text) → Outcome (Option Text)
or_path path (ok none) = ok (some path)
or_path path (ok (some real_path)) = ok (some real_path)
or_path path (exits code) = exits code
or_path path faults = faults
or_path path blocks = blocks

real_path_of : Option Text → Outcome Text → Outcome (Option Text)
unfolding or_path
real_path_of env (ok path) = or_path path (parse_real_path env path)
real_path_of env (exits code) = exits code
real_path_of env faults = faults
real_path_of env blocks = blocks

-- `add_lang_judge(new ...)`
add_new : {W : Type 0} → List LangJudge → Prog W LangJudge → Prog W (List LangJudge)
add_new js new_judge = do jdg ← new_judge; lift (add_lang_judge js jdg)

-- `m_buffer` is the loaded configuration and `env` the value of NOJ_WORKDIR.
module _ (re : Pcre) (m_buffer env : Option Text) where
  -- `compile_script_path` after the body of a constructor that reads `key`.
  unfoldable pub read_script : Text → Outcome (Option Text)
  unfolding real_path_of
  read_script key = real_path_of env (get_string re m_buffer key allocated)

  module _ {W : Type 0} where
    unfoldable pub lang_c_debug : Prog W LangJudge
    unfolding read_script
    lang_c_debug = do
      script ← lift (read_script (codes "C_DEBUG_COMPILER"))
      pure (lang_judge Language.c JudgeMode.debug script)

    -- A class derived from LangCDebug: its constructor runs first, and what it read is freed.
    derived : Language → JudgeMode → Text → Prog W LangJudge
    unfolding read_script lang_c_debug
    derived lang mode key = do
      base ← lang_c_debug
      script ← lift (read_script key)
      pure (record base { lang = lang; mode = mode; compile_script_path = script })

    unfoldable pub lang_c_release : Prog W LangJudge
    unfolding derived
    lang_c_release = derived Language.c JudgeMode.release (codes "C_RELEASE_COMPILER")

    unfoldable pub lang_cpp_debug : Prog W LangJudge
    unfolding derived
    lang_cpp_debug = derived Language.cpp JudgeMode.debug (codes "CPP_DEBUG_COMPILER")

    unfoldable pub lang_cpp_release : Prog W LangJudge
    unfolding derived
    lang_cpp_release = derived Language.cpp JudgeMode.release (codes "CPP_RELEASE_COMPILER")

    -- The four calls in init_judges.
    unfoldable pub register_judges : List LangJudge → Prog W (List LangJudge)
    unfolding add_new lang_c_debug lang_c_release lang_cpp_debug lang_cpp_release
    register_judges js0 = do
      js1 ← add_new js0 lang_c_debug
      js2 ← add_new js1 lang_c_release
      js3 ← add_new js2 lang_cpp_debug
      add_new js3 lang_cpp_release
