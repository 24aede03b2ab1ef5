-- ===== src/Lang/Launch.antt =====
-- src/lang.cpp: LangC::launch, which runs the program once and watches each of its system calls.
pub mod Trace
pub mod Verdict
pub mod Types
use npu_oj.Base.{
  ℕ, zero, suc, ◌+◌, ◌-◌, ◌*◌, ◌/◌, ◌%◌, ◌^◌, ◌<◌, ◌≡◌, refl, Bool, true, false, not, ◌&&◌, ◌||◌,
  Option, none, some, List, [], ◌∷◌, ◌++◌, map, arith, ltb, ◌==◌, if◌then◌else◌,
}
use npu_oj.Base.Int.{ℤ, pos, negsuc, is_neg, is_zero, dec_ℤ}
use npu_oj.Base.Text.{Text, codes, print_nat, print_long}
use npu_oj.Base.Effect.{Outcome, ok, exits, faults, blocks, Prog, ◌>>=◌, ◌>>◌, pure, lift}
use npu_oj.Common.{ResType}
use npu_oj.Units.Time.{set_millisecond, get_millisecond}
use npu_oj.Units.Memory.{set_byte, get_byte, set_mb, gt_size, size_mod}
use npu_oj.DataItem.{ResourceLimit, RunResult, Submission, new_result}
use npu_oj.Platform
use npu_oj.Platform.{
  ChildCall, WaitEvent, Traced, Scan, Os, w_exit_status, w_if_exited, w_if_signaled, w_if_stopped,
  w_term_sig, w_stop_sig,
}
use npu_oj.Lang.Limits.{get_rl_cpu_second, get_rl_cpu_millisecond, set_resource_limit}
use npu_oj.Lang.Syscalls.{init_system_call_limits, update}

unfoldable pub convert_timeval_into_ms : ℕ → ℕ → ℕ
convert_timeval_into_ms tv_sec tv_usec = tv_sec * 1000 + tv_usec / 1000

-- `ru_minflt * pagesize >> 10` on 32-bit signed numbers, taken as a size_t: a product from 2 ^ 31 on
-- is negative, and the shift keeps its sign.
unfoldable pub fault_memory : ℕ → ℕ → ℕ
fault_memory minflt page_size =
    let product = minflt * page_size % 2 ^ 32 in
    if ltb product (2 ^ 31) then product / 1024 else product / 1024 + 2 ^ 32 - 2 ^ 22

-- The largest size so far.
unfoldable pub grow_memory : ℕ → RunResult → RunResult
grow_memory cur res = record res {
  res_max_memory =
      set_byte (if ltb (get_byte res.res_max_memory) cur then cur else get_byte res.res_max_memory)
        res.res_max_memory;
}

unfoldable pub over_memory : ResourceLimit → RunResult → Bool
over_memory rl res = rl.memory_limit.is_set && gt_size res.res_max_memory rl.memory_limit

-- SIGCHLD, SIGALRM, SIGKILL and SIGXCPU; SIGXFSZ; SIGSEGV; SIGBUS; SIGABRT.
unfoldable pub signal_type : ℕ → ResType
signal_type signo =
    if signo == 17 || signo == 14 || signo == 9 || signo == 24
    then ResType.time_limit_exceed
    else if signo == 25
    then ResType.output_limit_exceed
    else if signo == 11
    then ResType.segment_fault
    else if signo == 7
    then ResType.bus_error
    else if signo == 6
    then ResType.abort
    else ResType.runtime_error

-- Ended by a signal, or stopped by one that is not SIGTRAP.
unfoldable pub signaled : WaitEvent → Bool
signaled ev = w_if_signaled ev.stat || (w_if_stopped ev.stat && not (w_stop_sig ev.stat == 5))

-- How one round of the loop ends: it goes on with new limits, leaves the loop, or reads
-- `syscall_limits` outside its 512 entries.
pub data Round : Type 0 where
  goes_on : RunResult → (ℕ → ℤ) → Round
  stops : RunResult → Round
  bad_index : Round

unfoldable pub check_call : (ℕ → ℤ) → RunResult → ℤ → Round
check_call calls res (negsuc n) = bad_index
check_call calls res (pos id) =
    if ltb id 512
    then if is_neg (calls id)
      then goes_on res calls
      else if is_zero (calls id)
      then stops (record res { res_type = ResType.illegal_system_call })
      else goes_on res (update calls id (dec_ℤ (calls id)))
    else bad_index

unfoldable pub check_state : (ℕ → ℤ) → RunResult → WaitEvent → Round
unfolding check_call signaled signal_type
check_state calls res ev =
    if w_if_exited ev.stat
    then stops (record res {
      res_type = if w_exit_status ev.stat == 0 then ResType.run_pass else ResType.runtime_error;
    })
    else if signaled ev
    then stops (record res {
      res_type =
          signal_type (if w_if_signaled ev.stat then w_term_sig ev.stat else w_stop_sig ev.stat);
    })
    else check_call calls res ev.syscall_id

unfoldable pub total_time : WaitEvent → ℕ
unfolding convert_timeval_into_ms
total_time ev =
    convert_timeval_into_ms ev.utime_sec ev.utime_usec
    + convert_timeval_into_ms ev.stime_sec ev.stime_usec

unfoldable pub note_time : WaitEvent → RunResult → RunResult
note_time ev res = record res {
  res_elapsed_time = set_millisecond (total_time ev) res.res_elapsed_time;
}

unfoldable pub check_time : ℕ → (ℕ → ℤ) → RunResult → WaitEvent → Round
check_time time_left calls res ev =
    if ltb 0 time_left && ltb time_left (get_millisecond res.res_elapsed_time)
    then stops (record res { res_type = ResType.time_limit_exceed })
    else check_state calls res ev

unfoldable pub note_memory : ResourceLimit → ℕ → WaitEvent → RunResult → RunResult
note_memory rl page_size ev res =
    if rl.memory_limit.is_set then grow_memory (fault_memory ev.ru_minflt page_size) res else res

unfoldable pub round : ResourceLimit → ℕ → ℕ → (ℕ → ℤ) → RunResult → WaitEvent → Round
round rl time_left page_size calls res ev =
    if over_memory rl (note_memory rl page_size ev res)
    then stops (record (note_memory rl page_size ev res) { res_type = ResType.memory_limit_exceed })
    else check_time time_left calls (note_time ev (note_memory rl page_size ev res)) ev

-- The loop over what wait4 reports. It returns the result and the limits that are left.
unfoldable pub trace :
    ResourceLimit → ℕ → ℕ → (ℕ → ℤ) → RunResult → List WaitEvent → Outcome (RunResult × (ℕ → ℤ))
trace rl time_left page_size calls res [] = blocks
trace rl time_left page_size calls res (ev ∷ evs) =
    elim (round rl time_left page_size calls res ev) [
      | goes_on res' calls' ↦ trace rl time_left page_size calls' res' evs
      | stops res' ↦ ok (res', calls)
      | bad_index ↦ faults
    ]

-- What the child does until it is the program.
unfoldable pub child_calls : ResourceLimit → List ChildCall
child_calls rl =
    Platform.chdir rl.work_dir
    ∷ Platform.chroot rl.work_dir
    ∷ Platform.setuid rl.rl_uid
    ∷ Platform.setresuid rl.rl_uid
    ∷ Platform.freopen (codes "stdin.in") (codes "r")
    ∷ Platform.freopen (codes "stdout.out") (codes "w")
    ∷ Platform.freopen (codes "stderr.out") (codes "a")
    ∷ Platform.nice 19
    ∷ Platform.alarm 0
    ∷ Platform.alarm (get_rl_cpu_second rl * 5)
    ∷ (map Platform.setrlimit (set_resource_limit rl)
        ++ Platform.traceme ∷ Platform.exec (codes "./main") (codes "./main" ∷ []) ∷ [])

-- The last look at the memory, when the loop is left.
unfoldable pub last_memory : ResourceLimit → ℕ → RunResult → RunResult
last_memory rl cur res =
    if over_memory rl (grow_memory cur res)
    then record (grow_memory cur res) { res_type = ResType.memory_limit_exceed }
    else grow_memory cur res

-- A long as a size_t.
abbrev pub to_size : ℤ → ℕ
to_size (pos n) = n % size_mod
to_size (negsuc n) = (size_mod - 1 - n % size_mod) % size_mod

module _ {W : Type 0} (os : Os W) where
  unfoldable pub get_proc_info : ℕ → Text → Prog W ℤ
  unfolding print_nat
  get_proc_info pid item w =
      let command =
        codes "if [ -d /proc/"
        ++ (print_nat pid
            ++ (codes "/status ]; then awk '/"
                ++ (item
                    ++ (codes "/ {print $2}' /proc/"
                        ++ (print_nat pid ++ codes "/status 2>/dev/null; else echo 0; fi"))))) in
      let (scan, w') = os.popen_long command w in
      elim scan [
        | Scan.popen_failed ↦ faults
        | Scan.no_number garbage ↦ ok (garbage, w')
        | Scan.number n ↦ ok (n, w')
      ]

  -- The parent: the loop, then the last look at the memory.
  unfoldable pub watch : ResourceLimit → RunResult → Traced → Prog W (RunResult × ResourceLimit)
  watch rl res child = do
    (res', calls) ←
        lift (trace rl (get_rl_cpu_millisecond rl) os.page_size rl.syscall_limits res child.reports)
    peak ← get_proc_info child.pid (codes "VmPeak:")
    pure (last_memory rl (to_size peak) res', record rl { syscall_limits = calls })

  pub after_fork :
      ResourceLimit → RunResult → Option Traced × W → Outcome ((RunResult × ResourceLimit) × W)
  after_fork rl res (none, w) = ok (
    (record res { res_type = ResType.system_error; res_content = codes "Launch fork error" }, rl),
    w,
  )
  after_fork rl res (some run, w) = watch rl res run w

  -- `heap` is what `malloc` gave for the table of calls. The limits are passed by reference: the
  -- caller has them changed.
  unfoldable pub launch : (ℕ → ℤ) → Submission → ResourceLimit → Prog W (RunResult × ResourceLimit)
  unfolding after_fork
  launch heap submit rl w =
      let rl' = init_system_call_limits heap (record rl { file_limit = set_mb 5 rl.file_limit }) in
      after_fork rl' (new_result submit) (os.fork_traced (child_calls rl') w)
