-- ===== src/Lang/Launch/Types.antt =====
-- src/lang.cpp: LangC::launch never gives the verdict that only a check may give.
use npu_oj.Base.{ℕ, ◌≡◌, refl, subst, inl, inr, Bool, true, false, List, [], ◌∷◌, arith}
use npu_oj.Base.Int.{ℤ}
use npu_oj.Base.Effect.{ok}
use npu_oj.Common.{ResType}
use npu_oj.DataItem.{ResourceLimit, RunResult, Submission, new_result}
use npu_oj.Platform.{Os, WaitEvent}
use npu_oj.Lang.Launch.{
  goes_on, stops, round, check_time, check_state, check_call, signal_type, note_memory, note_time,
  grow_memory, trace, launch, last_memory,
}
use npu_oj.Lang.Launch.Trace.{Round-cases}
use npu_oj.Lang.Launch.Verdict.{watch_inv, after_fork_inv, launch_limits}

abbrev pub is_correct : ResType → Bool
is_correct ResType.correct_answer = true
is_correct t = false

abbrev pub NotCorrect : RunResult → Type 0
NotCorrect res = is_correct res.res_type ≡ false

round-goes_on-NotCorrect :
    (rl : ResourceLimit) (time_left page_size : ℕ) (calls calls' : ℕ → ℤ) (res res' : RunResult)
    (ev : WaitEvent)
    → NotCorrect res
    → round rl time_left page_size calls res ev ≡ goes_on res' calls'
    → NotCorrect res'
unfolding round check_time check_state check_call note_memory note_time grow_memory
round-goes_on-NotCorrect rl time_left page_size calls calls' res res' ev n h = ground arith

round-stops-NotCorrect :
    (rl : ResourceLimit) (time_left page_size : ℕ) (calls : ℕ → ℤ) (res res' : RunResult)
    (ev : WaitEvent)
    → NotCorrect res
    → round rl time_left page_size calls res ev ≡ stops res'
    → NotCorrect res'
unfolding round check_time check_state check_call signal_type
round-stops-NotCorrect rl time_left page_size calls res res' ev n h = ground arith

last_memory-NotCorrect :
    (rl : ResourceLimit) (cur : ℕ) (res : RunResult)
    → NotCorrect res
    → NotCorrect (last_memory rl cur res)
unfolding last_memory grow_memory
last_memory-NotCorrect rl cur res n = ground arith

trace-NotCorrect :
    (rl : ResourceLimit) (time_left page_size : ℕ) (calls left : ℕ → ℤ) (res res' : RunResult)
    (evs : List WaitEvent)
    → NotCorrect res
    → trace rl time_left page_size calls res evs ≡ ok (res', left)
    → NotCorrect res'
unfolding trace
trace-NotCorrect rl time_left page_size calls left res res' [] n h = cc
trace-NotCorrect rl time_left page_size calls left res res' (ev ∷ evs) n h =
    elim (Round-cases (round rl time_left page_size calls res ev)) [
      | inl (r, f, g) ↦
          trace-NotCorrect rl time_left page_size f left r res' evs
            (round-goes_on-NotCorrect rl time_left page_size calls f res r ev n g)
            (rw (g, trace) at h)
      | inr (inl (r, g)) ↦
          let same : r ≡ res' = cc (rw (g, trace) at h) in
          subst NotCorrect same (round-stops-NotCorrect rl time_left page_size calls res r ev n g)
      | inr (inr g) ↦ cc (rw (g, trace) at h)
    ]

module _ {W : Type 0} (os : Os W) where
  pub launch-NotCorrect :
      (heap : ℕ → ℤ) (submit : Submission) (rl left : ResourceLimit) (res : RunResult) (w w' : W)
      → launch os heap submit rl w ≡ ok ((res, left), w')
      → NotCorrect res
  unfolding launch new_result
  launch-NotCorrect heap submit rl left res w w' h =
      elim (after_fork_inv os (launch_limits os heap rl) left (new_result submit) res _ w' h) [
        | inl e ↦ rw e refl
        | inr (run, w1, e, k) ↦
            let (r, f, cur, traced, last) =
              watch_inv os (launch_limits os heap rl) left (new_result submit) res run w1 w' k in
            rw last (
              last_memory-NotCorrect (launch_limits os heap rl) cur r (
                trace-NotCorrect (launch_limits os heap rl) _ _ _ f (new_result submit) r
                  run.reports refl traced))
      ]
