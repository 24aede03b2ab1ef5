-- ===== src/Units/Time.antt =====
-- include/dataitem.h: class TimeUsage, milliseconds with a flag that says if they were given.
-- `time_t` is signed; the times here are never negative, and its overflow is left out.
use npu_oj.Base.{
  ℕ, ◌+◌, ◌*◌, ◌/◌, ◌%◌, ◌≤◌, ◌↔◌, Bool, true, false, not, arith, ltb, ◌==◌, if◌then◌else◌,
}

pub record TimeUsage : Type 0 where
  pub time_size : ℕ
  pub is_set : Bool

-- The default constructor.
abbrev pub unset_time : TimeUsage
unset_time = record { time_size = 0; is_set = false }

-- `tv` is a struct timeval: seconds and microseconds.
unfoldable pub set_tv : ℕ → ℕ → TimeUsage → TimeUsage
set_tv tv_sec tv_usec t = record t { is_set = true; time_size = tv_sec * 1000 + tv_usec / 1000 }

unfoldable pub set_millisecond : ℕ → TimeUsage → TimeUsage
set_millisecond size t = record t { is_set = true; time_size = size }

unfoldable pub set_second : ℕ → TimeUsage → TimeUsage
set_second size t = record t { is_set = true; time_size = size * 1000 }

unfoldable pub get_millisecond : TimeUsage → ℕ
get_millisecond t = t.time_size

-- Rounded up.
unfoldable pub get_second : TimeUsage → ℕ
get_second t = t.time_size / 1000 + (if t.time_size % 1000 == 0 then 0 else 1)

-- operator> and operator<, and the two that negate them.
unfoldable pub gt_time : TimeUsage → TimeUsage → Bool
gt_time a b = ltb b.time_size a.time_size

unfoldable pub lt_time : TimeUsage → TimeUsage → Bool
lt_time a b = ltb a.time_size b.time_size

unfoldable pub le_time : TimeUsage → TimeUsage → Bool
unfolding gt_time
le_time a b = not (gt_time a b)

unfoldable pub ge_time : TimeUsage → TimeUsage → Bool
unfolding lt_time
ge_time a b = not (lt_time a b)

-- The whole seconds of a time are the least number of seconds that the time fits in: they are at
-- most `s` exactly when the milliseconds are at most `1000 * s`.
pub get_second-ceil : (t : TimeUsage) (s : ℕ) → (get_second t ≤ s) ↔ (get_millisecond t ≤ 1000 * s)
unfolding get_second get_millisecond
get_second-ceil t s = (λ h. ground arith, λ h. ground arith)
