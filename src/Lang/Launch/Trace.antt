-- ===== src/Lang/Launch/Trace.antt =====
-- src/lang.cpp: what the loop of LangC::launch lets through.
use npu_oj.Base.{
  ℕ, zero, suc, ◌+◌, ◌≤◌, ◌≡◌, refl, ap, sym, subst, ℕ_discrete, ◌⊎◌, inl, inr, true, false, List,
  [], ◌∷◌, ◌++◌, arith, ◌==◌, if◌then◌else◌, All, Bool-cases,
}
use npu_oj.Base.Int.{ℤ, pos, negsuc, is_neg, is_zero, dec_ℤ, eq_ℤ}
use npu_oj.Base.Effect.{ok}
use npu_oj.Common.{ResType}
use npu_oj.Units.Time.{set_millisecond, get_millisecond}
use npu_oj.DataItem.{ResourceLimit, RunResult}
use npu_oj.Platform.{WaitEvent, w_exit_status, w_if_exited}
use npu_oj.Lang.Syscalls.{update}
use npu_oj.Lang.Launch.{
  Round, goes_on, stops, bad_index, check_call, check_state, check_time, round, trace, signaled,
  total_time, note_time, note_memory,
}

-- The limit `-1`, and any other negative one, allows any number.
abbrev pub AtMost : ℤ → ℕ → Type 0
AtMost (pos k) m = m ≤ k
AtMost (negsuc k) m = Unit

-- How often call `n` stands in the reports.
abbrev pub made : ℕ → List WaitEvent → ℕ
made n [] = 0
made n (ev ∷ evs) = (if eq_ℤ ev.syscall_id (pos n) then 1 else 0) + made n evs

-- The child is stopped at a system call, and not at its end or at another signal.
abbrev pub IsRunning : WaitEvent → Type 0
IsRunning ev = (w_if_exited ev.stat ≡ false) × (signaled ev ≡ false)

-- A pass is decided at an event of the list: the child ended there with status 0 and within its
-- time, and before it made only calls that it might make.
pub record Passes (time_left : ℕ) (calls : ℕ → ℤ) (n : ℕ) (evs : List WaitEvent) : Type 0 where
  pub before : List WaitEvent
  pub last : WaitEvent
  pub rest : List WaitEvent
  pub split : evs ≡ before ++ last ∷ rest
  pub running : All IsRunning before
  pub exited : w_if_exited last.stat ≡ true
  pub success : w_exit_status last.stat ≡ 0
  pub in_time : (time_left ≡ 0) ⊎ (total_time last ≤ time_left)
  pub allowed : AtMost (calls n) (made n before)

AtMost-suc :
    (v : ℤ) (m : ℕ) → is_neg v ≡ false → is_zero v ≡ false → AtMost (dec_ℤ v) m → AtMost v (1 + m)
AtMost-suc (pos zero) m p z h = cc
AtMost-suc (pos (suc k)) m p z h = omega arith
AtMost-suc (negsuc k) m p z h = tt

AtMost-neg : (v : ℤ) (m : ℕ) → is_neg v ≡ true → AtMost v m
AtMost-neg (pos k) m h = cc
AtMost-neg (negsuc k) m h = tt

abbrev hit : ℕ → ℕ → ℕ
hit id n = if id == n then 1 else 0

AtMost-unlimited :
    (calls : ℕ → ℤ) (id n m : ℕ)
    → is_neg (calls id) ≡ true
    → AtMost (calls n) m
    → AtMost (calls n) (hit id n + m)
AtMost-unlimited calls id n m p h = elim (ℕ_discrete id n) [
  | yes e ↦ AtMost-neg (calls n) (hit id n + m) (rw (← e) p)
  | no d ↦ let z : hit id n + m ≡ m = ground arith in rw z h
]

AtMost-spend :
    (calls : ℕ → ℤ) (id n m : ℕ)
    → is_neg (calls id) ≡ false
    → is_zero (calls id) ≡ false
    → AtMost (update calls id (dec_ℤ (calls id)) n) m
    → AtMost (calls n) (hit id n + m)
AtMost-spend calls id n m p z h = elim (ℕ_discrete id n) [
  | yes e ↦
      let one : hit id n + m ≡ 1 + m = ground arith in
      let same : update calls id (dec_ℤ (calls id)) n ≡ dec_ℤ (calls n) = ground arith in
      rw one (AtMost-suc (calls n) m (rw (← e) p) (rw (← e) z) (subst (λ v. AtMost v m) same h))
  | no d ↦
      let none_more : hit id n + m ≡ m = ground arith in
      let same : update calls id (dec_ℤ (calls id)) n ≡ calls n = ground arith in
      rw none_more (subst (λ v. AtMost v m) same h)
]

goes_on-injective :
    (r r' : RunResult) (f f' : ℕ → ℤ) → goes_on r f ≡ goes_on r' f' → (r ≡ r') × (f ≡ f')
goes_on-injective r r' f f' h = (cc, cc)

check_call-AtMost :
    (calls calls' : ℕ → ℤ) (res res' : RunResult) (id : ℤ) (n m : ℕ)
    → check_call calls res id ≡ goes_on res' calls'
    → AtMost (calls' n) m
    → AtMost (calls n) ((if eq_ℤ id (pos n) then 1 else 0) + m)
unfolding check_call
check_call-AtMost calls calls' res res' (negsuc id) n m h k = cc
check_call-AtMost calls calls' res res' (pos id) n m h k = elim (Bool-cases (is_neg (calls id))) [
  | inl free ↦
      let same : calls ≡ calls' = ground arith in AtMost-unlimited calls id n m free (rw same k)
  | inr counted ↦
      let left : is_zero (calls id) ≡ false = ground arith in
      let same : update calls id (dec_ℤ (calls id)) ≡ calls' = ground arith in
      AtMost-spend calls id n m counted left (subst (λ f. AtMost (f n) m) (sym same) k)
]

pub Round-cases :
    (r : Round)
    → ((res : RunResult) × (f : ℕ → ℤ) × (r ≡ goes_on res f))
      ⊎ ((res : RunResult) × (r ≡ stops res))
      ⊎ (r ≡ bad_index)
Round-cases (goes_on res f) = inl (res, f, refl)
Round-cases (stops res) = inr (inl (res, refl))
Round-cases bad_index = inr (inr refl)

-- One round that goes on: the child runs, and what is left of the limits allows what follows.
round-goes_on :
    (rl : ResourceLimit) (time_left page_size : ℕ) (calls calls' : ℕ → ℤ) (res res' : RunResult)
    (ev : WaitEvent)
    → round rl time_left page_size calls res ev ≡ goes_on res' calls'
    → IsRunning ev
      × (check_call calls (note_time ev (note_memory rl page_size ev res)) ev.syscall_id
          ≡ goes_on res' calls')
unfolding round check_time check_state
round-goes_on rl time_left page_size calls calls' res res' ev h = ground arith

-- One round that ends in a pass.
round-passes :
    (rl : ResourceLimit) (time_left page_size : ℕ) (calls : ℕ → ℤ) (res res' : RunResult)
    (ev : WaitEvent)
    → round rl time_left page_size calls res ev ≡ stops res'
    → res'.res_type ≡ ResType.run_pass
    → (w_if_exited ev.stat ≡ true)
      × (w_exit_status ev.stat ≡ 0)
      × ((time_left ≡ 0) ⊎ (total_time ev ≤ time_left))
unfolding round check_time check_state note_time get_millisecond set_millisecond
round-passes rl time_left page_size calls res res' ev h p = ground arith

Passes-later :
    (time_left : ℕ) (calls calls' : ℕ → ℤ) (n : ℕ) (res res' : RunResult) (ev : WaitEvent)
    (evs : List WaitEvent)
    → IsRunning ev
    → check_call calls res ev.syscall_id ≡ goes_on res' calls'
    → Passes time_left calls' n evs
    → Passes time_left calls n (ev ∷ evs)
Passes-later time_left calls calls' n res res' ev evs run h p = record {
  before = ev ∷ p.before;
  last = p.last;
  rest = p.rest;
  split = ap (◌∷◌ ev) p.split;
  running = (run, p.running);
  exited = p.exited;
  success = p.success;
  in_time = p.in_time;
  allowed = check_call-AtMost calls calls' res res' ev.syscall_id n (made n p.before) h p.allowed;
}

AtMost-zero : (v : ℤ) → AtMost v 0
AtMost-zero (pos k) = omega arith
AtMost-zero (negsuc k) = tt

-- A run is called a pass only if the child ended by itself with status 0, within its processor time
-- when it has a limit, and up to then made every system call `n` no more often than the table
-- allows, so a forbidden one never.
pub trace-Passes :
    (rl : ResourceLimit) (time_left page_size : ℕ) (calls left : ℕ → ℤ) (res res' : RunResult)
    (evs : List WaitEvent) (n : ℕ)
    → trace rl time_left page_size calls res evs ≡ ok (res', left)
    → res'.res_type ≡ ResType.run_pass
    → Passes time_left calls n evs
unfolding trace
trace-Passes rl time_left page_size calls left res res' [] n h p = cc
trace-Passes rl time_left page_size calls left res res' (ev ∷ evs) n h p =
    elim (Round-cases (round rl time_left page_size calls res ev)) [
      | inl (r, f, e) ↦
          let (run, spent) = round-goes_on rl time_left page_size calls f res r ev e in
          Passes-later time_left calls f n (note_time ev (note_memory rl page_size ev res)) r ev evs
            run spent
            (trace-Passes rl time_left page_size f left r res' evs n (rw (e, trace) at h) p)
      | inr (inl (r, e)) ↦
          let same : r ≡ res' = cc (rw (e, trace) at h) in
          let (ended, zero_status, timely) =
            round-passes rl time_left page_size calls res r ev e (rw same p) in
          record {
            before = [];
            last = ev;
            rest = evs;
            split = refl;
            running = tt;
            exited = ended;
            success = zero_status;
            in_time = timely;
            allowed = AtMost-zero (calls n);
          }
      | inr (inr e) ↦ cc (rw (e, trace) at h)
    ]
