-- ===== src/Common.antt =====
-- include/common.h: the enumerations that every part of the judge shares.
use npu_oj.Base.{ℕ}

-- const long BUFFER_SIZE
abbrev pub buffer_size : ℕ
buffer_size = 256

-- enum Noj_Judge_Mode
pub data JudgeMode : Type 0 where
  unset release debug : JudgeMode

-- enum Noj_Language
pub data Language : Type 0 where
  unkown c cpp java pascal : Language

-- enum Noj_Result
pub data ResType : Type 0 where
  system_error init pending judging no_compile compile_error compile_pass : ResType
  runtime_error time_limit_exceed memory_limit_exceed output_limit_exceed : ResType
  illegal_system_call segment_fault bus_error abort run_pass wrong_answer : ResType
  presentation_error correct_answer accept not_accept : ResType

-- enum Noj_State
pub data NojState : Type 0 where
  server_error db_error sql_query_fail sql_query_nothing : NojState
  file_not_download permission_error normal : NojState

-- The value of the bit mask constant.
abbrev pub mode_bits : JudgeMode → ℕ
mode_bits unset = 0
mode_bits release = 1
mode_bits debug = 2
