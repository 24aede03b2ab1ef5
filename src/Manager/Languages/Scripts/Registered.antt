-- ===== src/Manager/Languages/Scripts/Registered.antt =====
-- src/judge.cpp: which judges are registered once init_judges has registered them.
use npu_oj.Base.{◌≡◌, sym, ap, ◌∙◌, Option, none, some, List, []}
use npu_oj.Base.Text.{Text, codes}
use npu_oj.Base.Effect.{Outcome, ok, exits, faults, blocks, Prog, lift, lift-eq-ok, >>=-eq-ok}
use npu_oj.Common.{JudgeMode, Language}
use npu_oj.Config.{Pcre, allocated, get_string, parse_real_path}
use npu_oj.Manager.{LangJudge}
use npu_oj.Manager.Languages.{lang_judge, add_lang_judge, add_next, init_lang_judges}
use npu_oj.Base.Int.{pos}
use npu_oj.DataItem.{new_submission}
use npu_oj.Manager.Languages.Choice.{registered, init_lang_judges_lem}
use npu_oj.Manager.Languages.Scripts.{
  or_path, real_path_of, read_script, lang_c_debug, derived, lang_c_release, lang_cpp_debug,
  lang_cpp_release, add_new, register_judges,
}

or_path-some :
    (path : Text) (o : Outcome (Option Text)) (s : Option Text)
    → or_path path o ≡ ok s
    → (t : Text) × (s ≡ some t)
unfolding or_path
or_path-some path (ok none) s h = (path, cc h)
or_path-some path (ok (some real)) s h = (real, cc h)
or_path-some path (exits code) s h = cc h
or_path-some path faults s h = cc h
or_path-some path blocks s h = cc h

real_path_of-some :
    (env : Option Text) (o : Outcome Text) (s : Option Text)
    → real_path_of env o ≡ ok s
    → (t : Text) × (s ≡ some t)
unfolding real_path_of
real_path_of-some env (ok path) s h = or_path-some path (parse_real_path env path) s h
real_path_of-some env (exits code) s h = cc h
real_path_of-some env faults s h = cc h
real_path_of-some env blocks s h = cc h

add_new-ok :
    {W : Type 0} (js js' : List LangJudge) (new_judge : Prog W LangJudge) (w w' : W)
    → add_new js new_judge w ≡ ok (js', w')
    → (j : LangJudge) × (new_judge w ≡ ok (j, w')) × (add_lang_judge js j ≡ ok js')
unfolding add_new
add_new-ok js js' new_judge w w' h =
    let (j, w1, e1, h1) = >>=-eq-ok new_judge _ w h in
    let (e, same) = lift-eq-ok (add_lang_judge js j) w1 w' h1 in
    (j, e1 ∙ ap (λ v. ok (j, v)) same, e)

-- The four additions give what init_lang_judges gives.
four_added :
    {cd cr pd pr : Option Text} {j1 j2 j3 j4 : LangJudge} {js1 js2 js3 js : List LangJudge}
    → j1 ≡ lang_judge Language.c JudgeMode.debug cd
    → j2 ≡ lang_judge Language.c JudgeMode.release cr
    → j3 ≡ lang_judge Language.cpp JudgeMode.debug pd
    → j4 ≡ lang_judge Language.cpp JudgeMode.release pr
    → add_lang_judge [] j1 ≡ ok js1
    → add_lang_judge js1 j2 ≡ ok js2
    → add_lang_judge js2 j3 ≡ ok js3
    → add_lang_judge js3 j4 ≡ ok js
    → js ≡ registered cd cr pd pr
unfolding init_lang_judges
four_added {cd} {cr} {pd} {pr} {js1 = js1} {js2} {js3} {js} i1 i2 i3 i4 a1 a2 a3 a4 =
    let k2 = lang_judge Language.c JudgeMode.release cr in
    let k3 = lang_judge Language.cpp JudgeMode.debug pd in
    let k4 = lang_judge Language.cpp JudgeMode.release pr in
    let all : init_lang_judges cd cr pd pr ≡ ok js =
      ap (λ o. add_next (add_next (add_next o k2) k3) k4) (ap (add_lang_judge []) (sym i1) ∙ a1)
      ∙ ap (λ o. add_next (add_next o k3) k4) (ap (add_lang_judge js1) (sym i2) ∙ a2)
      ∙ ap (λ o. add_next o k4) (ap (add_lang_judge js2) (sym i3) ∙ a3)
      ∙ ap (add_lang_judge js3) (sym i4)
      ∙ a4 in
    let (four, chosen) = init_lang_judges_lem cd cr pd pr (new_submission (pos 0) (pos 0)) in
    cc (all, four)

module _ (re : Pcre) (m_buffer env : Option Text) where
  -- The script that a key names.
  abbrev pub IsScript : Text → Text → Type 0
  IsScript key t = read_script re m_buffer env key ≡ ok (some t)

  module _ {W : Type 0} where
    found-IsScript :
        (key : Text) (w w' : W) (s : Option Text)
        → lift (read_script re m_buffer env key) w ≡ ok (s, w')
        → (t : Text) × (s ≡ some t) × IsScript key t × (w ≡ w')
    unfolding read_script
    found-IsScript key w w' s h =
        let (e, same) = lift-eq-ok (read_script re m_buffer env key) w w' h in
        let (t, st) = real_path_of-some env (get_string re m_buffer key allocated) s e in
        (t, st, e ∙ ap ok st, same)

    lang_c_debug-some :
        (w w' : W) (j : LangJudge)
        → lang_c_debug re m_buffer env w ≡ ok (j, w')
        → (t : Text) × (j ≡ lang_judge Language.c JudgeMode.debug (some t))
          × IsScript (codes "C_DEBUG_COMPILER") t
          × (w ≡ w')
    unfolding lang_c_debug
    lang_c_debug-some w w' j h =
        let (s, w1, e1, h1) =
          >>=-eq-ok (lift (read_script re m_buffer env (codes "C_DEBUG_COMPILER"))) _ w h in
        let (t, st, is_script, same) = found-IsScript (codes "C_DEBUG_COMPILER") w w1 s e1 in
        (t, cc (h1, st), is_script, cc (h1, same))

    derived-some :
        (lang : Language) (mode : JudgeMode) (key : Text) (w w' : W) (j : LangJudge)
        → derived re m_buffer env lang mode key w ≡ ok (j, w')
        → (t : Text) × (j ≡ lang_judge lang mode (some t)) × IsScript key t × (w ≡ w')
    unfolding derived
    derived-some lang mode key w w' j h =
        let (base, w1, e1, h1) = >>=-eq-ok (lang_c_debug re m_buffer env) _ w h in
        let (s, w2, e2, h2) = >>=-eq-ok (lift (read_script re m_buffer env key)) _ w1 h1 in
        let (t0, bt, is_base, same1) = lang_c_debug-some w w1 base e1 in
        let (t, st, is_script, same2) = found-IsScript key w1 w2 s e2 in
        (t, cc (h2, st), is_script, cc (h2, same1, same2))

    -- When init_judges has registered the judges of the languages, they are the four of C and C++ in the
    -- debug and the release mode, each with a script of its own key: none is without a script.
    pub register_judges_lem :
        (w w' : W) (js : List LangJudge)
        → register_judges re m_buffer env [] w ≡ ok (js, w')
        → (cd cr pd pr : Text) × (js ≡ registered (some cd) (some cr) (some pd) (some pr))
          × IsScript (codes "C_DEBUG_COMPILER") cd
          × IsScript (codes "C_RELEASE_COMPILER") cr
          × IsScript (codes "CPP_DEBUG_COMPILER") pd
          × IsScript (codes "CPP_RELEASE_COMPILER") pr
          × (w ≡ w')
    unfolding register_judges lang_c_release lang_cpp_debug lang_cpp_release
    register_judges_lem w w' js h =
        let (js1, w1, e1, h1) = >>=-eq-ok (add_new [] (lang_c_debug re m_buffer env)) _ w h in
        let (js2, w2, e2, h2) = >>=-eq-ok (add_new js1 (lang_c_release re m_buffer env)) _ w1 h1 in
        let (js3, w3, e3, h3) = >>=-eq-ok (add_new js2 (lang_cpp_debug re m_buffer env)) _ w2 h2 in
        let (j1, n1, a1) = add_new-ok [] js1 (lang_c_debug re m_buffer env) w w1 e1 in
        let (j2, n2, a2) = add_new-ok js1 js2 (lang_c_release re m_buffer env) w1 w2 e2 in
        let (j3, n3, a3) = add_new-ok js2 js3 (lang_cpp_debug re m_buffer env) w2 w3 e3 in
        let (j4, n4, a4) = add_new-ok js3 js (lang_cpp_release re m_buffer env) w3 w' h3 in
        let (cd, is1, k1, s1) = lang_c_debug-some w w1 j1 n1 in
        let (cr, is2, k2, s2) = derived-some Language.c JudgeMode.release _ w1 w2 j2 n2 in
        let (pd, is3, k3, s3) = derived-some Language.cpp JudgeMode.debug _ w2 w3 j3 n3 in
        let (pr, is4, k4, s4) = derived-some Language.cpp JudgeMode.release _ w3 w' j4 n4 in
        (cd, cr, pd, pr, four_added is1 is2 is3 is4 a1 a2 a3 a4, k1, k2, k3, k4, s1 ∙ s2 ∙ s3 ∙ s4)
