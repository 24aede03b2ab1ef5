-- ===== src/Lang/Launch/Verdict.antt =====
-- src/lang.cpp: what LangC::launch reports of a run.
use npu_oj.Base.{
  ℕ, ◌≡◌, ◌≢◌, ◌↔◌, refl, sym, subst, ◌⊎◌, inl, inr, Bool, true, false, ◌||◌, Option, none, some,
  List, [], ◌∷◌, ◌++◌, arith,
}
use npu_oj.Base.Int.{ℤ}
use npu_oj.Base.Text.{codes}
use npu_oj.Base.Effect.{ok, blocks, lift, lift-eq-ok, >>=-eq-ok}
use npu_oj.Common.{ResType}
use npu_oj.Units.Memory.{gt_size, get_byte, set_byte, set_mb}
use npu_oj.DataItem.{ResourceLimit, RunResult, Submission, new_result}
use npu_oj.Platform.{WaitEvent, Traced, Os, w_if_exited, w_if_signaled}
use npu_oj.Lang.Limits.{get_rl_cpu_millisecond}
use npu_oj.Lang.Syscalls.{sys_call_init, init_system_call_limits}
use npu_oj.Lang.Launch.{
  goes_on, stops, check_call, check_state, check_time, round, trace, signaled, signal_type,
  over_memory, grow_memory, last_memory, get_proc_info, watch, after_fork, launch, child_calls,
  to_size,
}
use npu_oj.Lang.Launch.Trace.{Passes, Round-cases, trace-Passes}

-- The child ended, by itself or by a signal.
abbrev pub ended : WaitEvent → Bool
ended ev = w_if_exited ev.stat || w_if_signaled ev.stat

ended-not-goes_on :
    (rl : ResourceLimit) (time_left page_size : ℕ) (calls calls' : ℕ → ℤ) (res res' : RunResult)
    (ev : WaitEvent)
    → ended ev ≡ true
    → round rl time_left page_size calls res ev ≡ goes_on res' calls'
    → ⊥
unfolding round check_time check_state signaled
ended-not-goes_on rl time_left page_size calls calls' res res' ev e h = ground arith

-- The loop ends: once wait4 reports the end of the child, by itself or by a signal, the loop does
-- not wait again, whatever was reported before.
pub trace-ends :
    (rl : ResourceLimit) (time_left page_size : ℕ) (calls : ℕ → ℤ) (res : RunResult)
    (before rest : List WaitEvent) (ev : WaitEvent)
    → ended ev ≡ true
    → trace rl time_left page_size calls res (before ++ ev ∷ rest) ≢ blocks
unfolding trace
trace-ends rl time_left page_size calls res [] rest ev e h =
    elim (Round-cases (round rl time_left page_size calls res ev)) [
      | inl (r, f, g) ↦ ended-not-goes_on rl time_left page_size calls f res r ev e g
      | inr (inl (r, g)) ↦ cc (rw (g, trace) at h)
      | inr (inr g) ↦ cc (rw (g, trace) at h)
    ]
trace-ends rl time_left page_size calls res (x ∷ before) rest ev e h =
    elim (Round-cases (round rl time_left page_size calls res x)) [
      | inl (r, f, g) ↦ trace-ends rl time_left page_size f r before rest ev e (rw (g, trace) at h)
      | inr (inl (r, g)) ↦ cc (rw (g, trace) at h)
      | inr (inr g) ↦ cc (rw (g, trace) at h)
    ]

round-memory :
    (rl : ResourceLimit) (time_left page_size : ℕ) (calls : ℕ → ℤ) (res res' : RunResult)
    (ev : WaitEvent)
    → round rl time_left page_size calls res ev ≡ stops res'
    → res'.res_type ≡ ResType.memory_limit_exceed
    → over_memory rl res' ≡ true
unfolding round check_time check_state check_call signal_type over_memory
round-memory rl time_left page_size calls res res' ev h p = ground arith

trace-memory :
    (rl : ResourceLimit) (time_left page_size : ℕ) (calls left : ℕ → ℤ) (res res' : RunResult)
    (evs : List WaitEvent)
    → trace rl time_left page_size calls res evs ≡ ok (res', left)
    → res'.res_type ≡ ResType.memory_limit_exceed
    → over_memory rl res' ≡ true
unfolding trace
trace-memory rl time_left page_size calls left res res' [] h p = cc
trace-memory rl time_left page_size calls left res res' (ev ∷ evs) h p =
    elim (Round-cases (round rl time_left page_size calls res ev)) [
      | inl (r, f, g) ↦ trace-memory rl time_left page_size f left r res' evs (rw (g, trace) at h) p
      | inr (inl (r, g)) ↦
          let same : r ≡ res' = cc (rw (g, trace) at h) in
          round-memory rl time_left page_size calls res res' ev
            (subst (λ (x : RunResult). round rl time_left page_size calls res ev ≡ stops x) same g)
            p
      | inr (inr g) ↦ cc (rw (g, trace) at h)
    ]

last_memory_exact :
    (rl : ResourceLimit) (cur : ℕ) (res : RunResult)
    → (res.res_type ≡ ResType.memory_limit_exceed → over_memory rl res ≡ true)
    → ((last_memory rl cur res).res_type ≡ ResType.memory_limit_exceed)
      ↔ (over_memory rl (last_memory rl cur res) ≡ true)
unfolding last_memory over_memory grow_memory gt_size get_byte set_byte
last_memory_exact rl cur res h = (λ e. ground arith, λ e. ground arith)

last_memory_pass :
    (rl : ResourceLimit) (cur : ℕ) (res : RunResult)
    → (last_memory rl cur res).res_type ≡ ResType.run_pass
    → (res.res_type ≡ ResType.run_pass) × (over_memory rl (last_memory rl cur res) ≡ false)
unfolding last_memory grow_memory
last_memory_pass rl cur res h = ground arith

fork_error-not-over :
    (rl : ResourceLimit) (submit : Submission) (res : RunResult)
    → res ≡ record (new_result submit) {
      res_type = ResType.system_error;
      res_content = codes "Launch fork error";
    }
    → (res.res_type ≡ ResType.system_error) × (over_memory rl res ≡ false)
unfolding over_memory new_result gt_size
fork_error-not-over rl submit res e = (ground arith, ground arith)

module _ {W : Type 0} (os : Os W) where
  -- What `watch` returns comes from the loop and from the last look at the memory.
  pub watch_inv :
      (rl left : ResourceLimit) (res res' : RunResult) (child : Traced) (w w' : W)
      → watch os rl res child w ≡ ok ((res', left), w')
      → (r : RunResult) × (f : ℕ → ℤ) × (cur : ℕ) × (trace rl
            (get_rl_cpu_millisecond rl)
            os.page_size
            rl.syscall_limits
            res
            child.reports
          ≡ ok (r, f))
        × (res' ≡ last_memory rl cur r)
  unfolding watch
  watch_inv rl left res res' child w w' h =
      let ((r, f), w1, traced, more) = >>=-eq-ok (lift (trace rl _ _ _ res child.reports)) _ w h in
      let (peak, w2, scanned, last) =
        >>=-eq-ok (get_proc_info os child.pid (codes "VmPeak:")) _ w1 more in
      (r, f, to_size peak, (lift-eq-ok _ w w1 traced).0, cc)

  watch_memory :
      (rl left : ResourceLimit) (res res' : RunResult) (child : Traced) (w w' : W)
      → watch os rl res child w ≡ ok ((res', left), w')
      → (res'.res_type ≡ ResType.memory_limit_exceed) ↔ (over_memory rl res' ≡ true)
  watch_memory rl left res res' child w w' h =
      let (r, f, cur, traced, e) = watch_inv rl left res res' child w w' h in
      rw e (last_memory_exact rl cur r (trace-memory rl _ _ _ f res r child.reports traced))

  -- The limits with which a launch runs the child.
  abbrev pub launch_limits : (ℕ → ℤ) → ResourceLimit → ResourceLimit
  launch_limits heap rl =
      init_system_call_limits heap (record rl { file_limit = set_mb 5 rl.file_limit })

  pub after_fork_inv :
      (rl left : ResourceLimit) (res res' : RunResult) (forked : Option Traced × W) (w' : W)
      → after_fork os rl res forked ≡ ok ((res', left), w')
      → ((res' ≡ record res {
        res_type = ResType.system_error;
        res_content = codes "Launch fork error";
      }))
        ⊎ ((run : Traced) × (w1 : W) × (forked.0 ≡ some run)
            × (watch os rl res run w1 ≡ ok ((res', left), w')))
  unfolding after_fork
  after_fork_inv rl left res res' (none, w) w' h = inl (cc)
  after_fork_inv rl left res res' (some run, w) w' h = inr (run, w, refl, h)

  -- When a launch returns, its verdict is that the memory limit was exceeded if and only if a memory
  -- limit is given and the largest memory that the result records is greater.
  pub launch_memory_exact :
      (heap : ℕ → ℤ) (submit : Submission) (rl left : ResourceLimit) (res : RunResult) (w w' : W)
      → launch os heap submit rl w ≡ ok ((res, left), w')
      → (res.res_type ≡ ResType.memory_limit_exceed) ↔ (over_memory rl res ≡ true)
  unfolding launch over_memory init_system_call_limits
  launch_memory_exact heap submit rl left res w w' h =
      elim (after_fork_inv (launch_limits heap rl) left (new_result submit) res _ w' h) [
        | inl e ↦ ground (arith, fork_error-not-over rl submit res e)
        | inr (run, w1, e, k) ↦
            watch_memory (launch_limits heap rl) left (new_result submit) res run w1 w' k
      ]

  -- A run is called a pass only if the child ended by itself with status 0, within the processor
  -- time of the limits when they give one and within their memory limit, and made each system call
  -- `n` no more often than the table for `heap` allows.
  pub launch-Passes :
      (heap : ℕ → ℤ) (submit : Submission) (rl left : ResourceLimit) (res : RunResult) (w w' : W)
      (n : ℕ)
      → launch os heap submit rl w ≡ ok ((res, left), w')
      → res.res_type ≡ ResType.run_pass
      → (run : Traced) × ((os.fork_traced (child_calls (launch_limits heap rl)) w).0 ≡ some run)
        × Passes (get_rl_cpu_millisecond rl) (sys_call_init heap) n run.reports
        × (over_memory rl res ≡ false)
  unfolding launch over_memory init_system_call_limits get_rl_cpu_millisecond
  launch-Passes heap submit rl left res w w' n h p =
      elim (after_fork_inv (launch_limits heap rl) left (new_result submit) res _ w' h) [
        | inl e ↦ ground (arith, fork_error-not-over rl submit res e)
        | inr (run, w1, e, k) ↦
            let (r, f, cur, traced, last) =
              watch_inv (launch_limits heap rl) left (new_result submit) res run w1 w' k in
            let (passed, fits) = last_memory_pass (launch_limits heap rl) cur r (rw last at p) in
            (
              run,
              e,
              trace-Passes (launch_limits heap rl) _ _ _ f (new_result submit) r run.reports n
                  traced passed,
              rw (sym last) at fits,
            )
      ]
