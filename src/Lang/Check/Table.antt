-- ===== src/Lang/Check/Table.antt =====
-- src/lang.cpp: what check_normal makes of the two comparisons.
use npu_oj.Base.{arith, ◌≡◌, true, inl, inr, Bool-cases, if◌then◌else◌, sym, ap, ◌∙◌}
use npu_oj.Base.Int.{ℤ, is_zero}
use npu_oj.Common.{ResType}
use npu_oj.DataItem.{TestCase, RunResult, Submission, new_result}
use npu_oj.Platform.{Os}
use npu_oj.Judges.{Judge}
use npu_oj.Lang.Check.{
  check, check_normal, with_verdict, differs, strict_diff, loose_diff, after_strict_diff,
  after_loose_diff,
}

-- What a comparison says: the files are equal, they differ, or it could not be made.
pub data Comparison : Type 0 where
  equal different broken : Comparison

abbrev pub comparison : ℤ → Comparison
comparison ret = if is_zero ret then equal else if differs ret then different else broken

-- The verdict by the strict comparison and, where that finds a difference, the loose one.
abbrev pub verdict : Comparison → Comparison → ResType
verdict equal loose = ResType.correct_answer
verdict broken loose = ResType.system_error
verdict different equal = ResType.presentation_error
verdict different different = ResType.wrong_answer
verdict different broken = ResType.system_error

not_correct_after_difference :
    {A : Type 0} (loose : Comparison) → verdict different loose ≡ ResType.correct_answer → A
not_correct_after_difference equal h = cc h
not_correct_after_difference different h = cc h
not_correct_after_difference broken h = cc h

verdict_correct :
    (ret : ℤ) (loose : Comparison)
    → verdict (comparison ret) loose ≡ ResType.correct_answer
    → is_zero ret ≡ true
verdict_correct ret loose h = elim (Bool-cases (is_zero ret)) [
  | inl z ↦ z
  | inr nz ↦ elim (Bool-cases (differs ret)) [
    | inl d ↦ not_correct_after_difference loose (rw (nz, d) at h)
    | inr nd ↦ cc (rw (nz, nd) at h)
  ]
]

module _ {W : Type 0} (os : Os W) (jdg : Judge) (submit : Submission) (tc : TestCase) (w : W) where
  -- A test case without special judge is given the verdict of the table over the two comparisons,
  -- the loose one made in the world that the strict one leaves; nothing else of a new result is
  -- changed.
  pub check_lem :
      is_zero tc.is_special_judge ≡ true
      → let strict = os.system (strict_diff jdg tc) w in
        let loose = os.system (loose_diff jdg tc) strict.1 in
        (check os jdg submit tc w).0
        ≡ with_verdict (verdict (comparison strict.0) (comparison loose.0)) (new_result submit)
  unfolding check check_normal after_strict_diff after_loose_diff
  check_lem plain = ground arith

  -- Only a test case without special judge whose strict comparison returned 0 is correct.
  pub check_correct :
      (check os jdg submit tc w).0.res_type ≡ ResType.correct_answer
      → (is_zero tc.is_special_judge ≡ true) × (is_zero (os.system (strict_diff jdg tc) w).0 ≡ true)
  unfolding check with_verdict
  check_correct good = elim (Bool-cases (is_zero tc.is_special_judge)) [
    | inl plain ↦
        let same = ap (λ (r : RunResult). r.res_type) (check_lem plain) in
        (plain, verdict_correct (os.system (strict_diff jdg tc) w).0 _ (sym same ∙ good))
    | inr special ↦ cc (rw special at good)
  ]
