-- ===== src/Lang/Limits/Bounds.antt =====
-- src/lang.cpp: what the two readings of a time limit have to do with one another, and what the
-- kernel is told.
use npu_oj.Base.{ℕ, ◌*◌, ◌≤◌, ◌≡◌, ◌↔◌, true, [], ◌∷◌, arith}
use npu_oj.Units.Time.{unset_time}
use npu_oj.DataItem.{ResourceLimit}
use npu_oj.Lang.Limits.{get_rl_cpu_second, get_rl_cpu_millisecond, cpu_rlimit, Resource}

-- The two limits agree: the limit in seconds is the limit in milliseconds rounded up, whichever of
-- the single and the total limit are given. So it is at most `s` exactly when the other is at most
-- `1000 * s`.
pub cpu_second-ceil :
    (rl : ResourceLimit) (s : ℕ)
    → (get_rl_cpu_second rl ≤ s) ↔ (get_rl_cpu_millisecond rl ≤ 1000 * s)
unfolding get_rl_cpu_second get_rl_cpu_millisecond
cpu_second-ceil rl s = (λ h. ground arith, λ h. ground arith)

-- A limit on the whole run alone does not reach the kernel: whatever it is, the child may use one
-- second of processor time.
pub total_limit_ignored :
    (rl : ResourceLimit)
    → rl.single_time_limit ≡ unset_time
    → rl.total_time_limit.is_set ≡ true
    → cpu_rlimit rl ≡ record { resource = Resource.cpu; rlim_cur = 1; rlim_max = 1 } ∷ []
unfolding cpu_rlimit
total_limit_ignored rl h k = ground arith
