-- ===== src/Lang/Limits.antt =====
-- src/lang.cpp: the processor time that a run may use, and the limits that the child sets on itself.
pub mod Bounds
use npu_oj.Base.{
  ℕ, ◌+◌, ◌*◌, ◌/◌, ◌%◌, ◌^◌, ◌≤◌, ◌<◌, ◌≡◌, ◌↔◌, refl, Bool, true, false, ◌||◌, ◌&&◌, List, [],
  ◌∷◌, ◌++◌, arith, ltb, if◌then◌else◌, min,
}
use npu_oj.Units.Time.{TimeUsage, get_second, get_millisecond}
use npu_oj.Units.Memory.{MemorySize, get_byte, size_mod}
use npu_oj.DataItem.{ResourceLimit}

-- `(lim_time < 1) ? (1) : (lim_time)`
at_least_one : ℕ → ℕ
at_least_one n = if ltb n 1 then 1 else n

unfoldable pub get_rl_cpu_second : ResourceLimit → ℕ
unfolding at_least_one get_second get_millisecond
get_rl_cpu_second rl =
    if rl.single_time_limit.is_set && rl.total_time_limit.is_set
    then at_least_one (
        if ltb (get_millisecond rl.single_time_limit) (get_millisecond rl.total_time_limit)
        then get_second rl.single_time_limit
        else get_second rl.total_time_limit)
    else if rl.single_time_limit.is_set
    then at_least_one (get_second rl.single_time_limit)
    else if rl.total_time_limit.is_set
    then at_least_one (get_second rl.total_time_limit)
    else 0

unfoldable pub get_rl_cpu_millisecond : ResourceLimit → ℕ
unfolding at_least_one get_millisecond
get_rl_cpu_millisecond rl =
    if rl.single_time_limit.is_set && rl.total_time_limit.is_set
    then at_least_one (
        if ltb (get_millisecond rl.single_time_limit) (get_millisecond rl.total_time_limit)
        then get_millisecond rl.single_time_limit
        else get_millisecond rl.total_time_limit)
    else if rl.single_time_limit.is_set
    then at_least_one (get_millisecond rl.single_time_limit)
    else if rl.total_time_limit.is_set
    then at_least_one (get_millisecond rl.total_time_limit)
    else 0

pub data Resource : Type 0 where
  cpu address_space file_size : Resource

-- One call of setrlimit.
pub record SetRlimit : Type 0 where
  pub resource : Resource
  pub rlim_cur : ℕ
  pub rlim_max : ℕ

unfoldable pub cpu_rlimit : ResourceLimit → List SetRlimit
unfolding get_second
cpu_rlimit rl =
    if rl.single_time_limit.is_set || rl.total_time_limit.is_set
    then record {
      resource = Resource.cpu;
      rlim_cur = get_second rl.single_time_limit + 1;
      rlim_max = get_second rl.single_time_limit * 3 / 2 + 1;
    }
      ∷ []
    else []

unfoldable pub memory_rlimit : ResourceLimit → List SetRlimit
unfolding get_byte
memory_rlimit rl =
    if rl.memory_limit.is_set
    then record {
      resource = Resource.address_space;
      rlim_cur = (get_byte rl.memory_limit + 4 * 1024 * 1024) % size_mod;
      rlim_max = (get_byte rl.memory_limit + 4 * 1024 * 1024) % size_mod;
    }
      ∷ []
    else []

unfoldable pub file_rlimit : ResourceLimit → List SetRlimit
unfolding get_byte
file_rlimit rl =
    if rl.file_limit.is_set
    then record {
      resource = Resource.file_size;
      rlim_cur = get_byte rl.file_limit;
      rlim_max = get_byte rl.file_limit;
    }
      ∷ []
    else []

-- The calls of setrlimit that the child makes, in order.
unfoldable pub set_resource_limit : ResourceLimit → List SetRlimit
unfolding cpu_rlimit memory_rlimit file_rlimit
set_resource_limit rl = cpu_rlimit rl ++ memory_rlimit rl ++ file_rlimit rl
