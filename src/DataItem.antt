-- ===== src/DataItem.antt =====
-- include/dataitem.h and src/dataitem.cpp: limits, problems, submissions and results.
pub mod Copies
use npu_oj.Base.{ℕ, ◌≡◌, refl, Option, none, some, List, [], ◌∷◌, ◌++◌, Bool, get_elem?, arith}
use npu_oj.Base.Int.{ℤ, pos}
use npu_oj.Base.Text.{Text, codes}
use npu_oj.Common.{JudgeMode, Language, ResType}
use npu_oj.Units.Time.{TimeUsage, unset_time}
use npu_oj.Units.Memory.{MemorySize, unset_size}

-- The identifiers of problems, test cases and submissions: `typedef long ID`.
abbrev pub Ident : Type 0
Ident = ℤ

-- struct ResourceLimit. `syscall_limits` is read at the indices below 512.
pub record ResourceLimit : Type 0 where
  pub memory_limit : MemorySize
  pub single_time_limit : TimeUsage
  pub total_time_limit : TimeUsage
  pub file_limit : MemorySize
  pub work_dir : Option Text
  pub rl_uid : ℕ
  pub rl_gid : ℕ
  pub syscall_limits : ℕ → ℤ

-- The default constructor leaves three members as the memory was: they are arguments.
unfoldable pub new_limit : (uid gid : ℕ) → (ℕ → ℤ) → ResourceLimit
new_limit uid gid calls = record {
  memory_limit = unset_size;
  single_time_limit = unset_time;
  total_time_limit = unset_time;
  file_limit = unset_size;
  work_dir = none;
  rl_uid = uid;
  rl_gid = gid;
  syscall_limits = calls;
}

-- The copy constructor. It does not name `file_limit`, which is default-constructed.
unfoldable pub copy_limit : ResourceLimit → ResourceLimit
copy_limit rl = record {
  memory_limit = rl.memory_limit;
  single_time_limit = rl.single_time_limit;
  total_time_limit = rl.total_time_limit;
  file_limit = unset_size;
  work_dir = rl.work_dir;
  rl_uid = rl.rl_uid;
  rl_gid = rl.rl_gid;
  syscall_limits = rl.syscall_limits;
}

-- operator= between two objects: the old directory is freed, and the other's is copied if it has
-- one.
unfoldable pub assign_limit : ResourceLimit → ResourceLimit → ResourceLimit
assign_limit this rl = record this {
  single_time_limit = rl.single_time_limit;
  total_time_limit = rl.total_time_limit;
  file_limit = rl.file_limit;
  memory_limit = rl.memory_limit;
  rl_uid = rl.rl_uid;
  rl_gid = rl.rl_gid;
  work_dir = elim rl.work_dir [ none ↦ none | some dir ↦ some dir ];
  syscall_limits = rl.syscall_limits;
}

-- A null `dir` changes nothing.
unfoldable pub set_workdir : Option Text → ResourceLimit → ResourceLimit
set_workdir none rl = rl
set_workdir (some dir) rl = record rl { work_dir = some dir }

-- struct TestCase. `is_special_judge` is no argument of the constructor, which leaves it as the
-- memory was.
pub record TestCase : Type 0 where
  pub tc_id : Ident
  pub tc_prob_id : Ident
  pub tc_input_file : Text
  pub tc_output_file : Text
  pub is_special_judge : ℤ
  pub tc_remote_input_file : Text
  pub tc_remote_output_file : Text

unfoldable pub new_testcase : Ident → Ident → ℤ → TestCase
new_testcase id prob_id special = record {
  tc_id = id;
  tc_prob_id = prob_id;
  tc_input_file = [];
  tc_output_file = [];
  is_special_judge = special;
  tc_remote_input_file = [];
  tc_remote_output_file = [];
}

-- struct Problem
pub record Problem : Type 0 where
  pub prob_id : Ident
  pub prob_testcases : List TestCase
  pub prob_rsc_lim : ResourceLimit

-- The implicit default constructor: `prob_id` and three members of the limit are as the memory was.
unfoldable pub new_problem : Ident → (uid gid : ℕ) → (ℕ → ℤ) → Problem
unfolding new_limit
new_problem id uid gid calls = record {
  prob_id = id;
  prob_testcases = [];
  prob_rsc_lim = new_limit uid gid calls;
}

-- The implicit copy constructor goes through that of the limit.
unfoldable pub copy_problem : Problem → Problem
unfolding copy_limit
copy_problem p = record p { prob_rsc_lim = copy_limit p.prob_rsc_lim }

unfoldable pub clear_testcases : Problem → Problem
clear_testcases p = record p { prob_testcases = [] }

unfoldable pub add_testcase : TestCase → Problem → Problem
add_testcase tc p = record p { prob_testcases = p.prob_testcases ++ tc ∷ [] }

-- `none` is the null pointer.
unfoldable pub fetch_testcase : ℕ → Problem → Option TestCase
fetch_testcase loc p = get_elem? p.prob_testcases loc

-- struct Result. `res_tc_id`, which nothing sets, and `res_judge_time` are left out.
pub record RunResult : Type 0 where
  pub res_sbm_id : Ident
  pub res_lang : Language
  pub res_type : ResType
  pub res_judge_mode : JudgeMode
  pub res_content : Text
  pub res_elapsed_time : TimeUsage
  pub res_max_memory : MemorySize
  pub res_output_file : Text

-- struct Submission
pub record Submission : Type 0 where
  pub sbm_prob_id : Ident
  pub sbm_lang : Language
  pub sbm_id : Ident
  pub sbm_judge_set : ℕ
  pub sbm_cur_mode : JudgeMode
  pub sbm_res_type : ResType
  pub sbm_source_file : Text
  pub sbm_binary_file : Text
  pub sbm_results : List RunResult

-- `Submission submit(prob_id)`: `sbm_id` is as the memory was.
unfoldable pub new_submission : Ident → Ident → Submission
new_submission prob_id id = record {
  sbm_prob_id = prob_id;
  sbm_lang = Language.unkown;
  sbm_id = id;
  sbm_judge_set = 0;
  sbm_cur_mode = JudgeMode.unset;
  sbm_res_type = ResType.init;
  sbm_source_file = [];
  sbm_binary_file = [];
  sbm_results = [];
}

-- Result(const Submission &submit)
unfoldable pub new_result : Submission → RunResult
new_result submit = record {
  res_sbm_id = submit.sbm_id;
  res_lang = submit.sbm_lang;
  res_type = ResType.init;
  res_judge_mode = JudgeMode.unset;
  res_content = [];
  res_elapsed_time = unset_time;
  res_max_memory = unset_size;
  res_output_file = [];
}
