-- ===== src/Lang/Compile.antt =====
-- src/lang.cpp: LangCDebug::compile, which the four language judges share.
pub mod Outcomes
use npu_oj.Base.{
  ℕ, zero, suc, ◌+◌, ◌<◌, ◌≡◌, refl, Bool, true, false, Option, none, some, List, [], ◌∷◌, ◌++◌,
  map, ltb, ◌==◌, if◌then◌else◌, length,
}
use npu_oj.Base.Int.{ℤ}
use npu_oj.Base.Text.{Text, codes}
use npu_oj.Base.Effect.{Outcome, ok, exits, faults, blocks, Prog}
use npu_oj.Common.{ResType}
use npu_oj.DataItem.{ResourceLimit, RunResult, Submission, new_result}
use npu_oj.Platform
use npu_oj.Platform.{ChildCall, CompilerRun, Os}
use npu_oj.Lang.Limits.{set_resource_limit}

unfoldable pub compile_child : Text → ResourceLimit → List ChildCall
compile_child script rl =
    Platform.chdir rl.work_dir
    ∷ Platform.setuid rl.rl_uid
    ∷ Platform.dup_stderr
    ∷ (map Platform.setrlimit (set_resource_limit rl)
        ++ Platform.exec script (script ∷ codes "code" ∷ []) ∷ [])

-- `res_content += buf` stops at the first NUL.
unfoldable pub until_nul : Text → Text
until_nul [] = []
until_nul (b ∷ bs) = if b == 0 then [] else b ∷ until_nul bs

-- `while ((size = read(...)) > 0)`: an error of `read` is a large `size_t`, and the write behind the
-- buffer is undefined behaviour.
unfoldable pub read_all : Text → List (Option Text) → Outcome Text
unfolding until_nul
read_all content [] = ok content
read_all content (none ∷ rest) = faults
read_all content (some [] ∷ rest) = ok content
read_all content (some (b ∷ bs) ∷ rest) = read_all (content ++ until_nul (b ∷ bs)) rest

-- The writes of the child into the pipe, which holds `held` bytes, up to its end, while nothing is
-- read: a write for which there is no room waits for a reader, and with it the parent's waitpid.
-- A read that fails later (`none`) is no write.
unfoldable pub child_writes : (capacity held : ℕ) → List (Option Text) → Outcome (Unit {0})
child_writes capacity held [] = ok tt
child_writes capacity held (none ∷ rest) = child_writes capacity held rest
child_writes capacity held (some t ∷ rest) =
    let others = child_writes capacity (held + length t) rest in
    if ltb capacity (held + length t) then blocks else others

abbrev with_type : ResType → Text → RunResult → RunResult
with_type t content res = record res { res_type = t; res_content = content }

abbrev compile_error : {W : Type 0} → RunResult → Outcome Text → W → Outcome (RunResult × W)
compile_error res (ok content) w = ok (with_type ResType.compile_error content res, w)
compile_error res (exits code) w = exits code
compile_error res faults w = faults
compile_error res blocks w = blocks

module _ {W : Type 0} (os : Os W) where
  after_wait : RunResult → CompilerRun → W → Outcome (Unit {0}) → Outcome (RunResult × W)
  unfolding read_all
  after_wait res run w (ok u) =
      if run.stat == 0
      then ok (record res { res_type = ResType.compile_pass }, w)
      else compile_error res (read_all [] run.output) w
  after_wait res run w (exits code) = exits code
  after_wait res run w faults = faults
  after_wait res run w blocks = blocks

  -- The parent waits for the end of the child before it reads.
  parent : RunResult → CompilerRun → W → Outcome (RunResult × W)
  unfolding child_writes after_wait
  parent res run w = after_wait res run w (child_writes os.pipe_capacity 0 run.output)

  after_fork : RunResult → Option CompilerRun × W → Outcome (RunResult × W)
  unfolding parent
  after_fork res (none, w) = ok (with_type ResType.system_error (codes "Compile fork error") res, w)
  after_fork res (some run, w) = parent res run w

  after_pipe : Text → ResourceLimit → RunResult → Bool × W → Outcome (RunResult × W)
  unfolding after_fork compile_child
  after_pipe script rl res (false, w) =
      ok (with_type ResType.system_error (codes "Compile: Create pipe error") res, w)
  after_pipe script rl res (true, w) = after_fork res (os.fork_compiler (compile_child script rl) w)

  with_script : Option Text → ResourceLimit → RunResult → Prog W RunResult
  unfolding after_pipe
  with_script none rl res w =
      ok (with_type ResType.system_error (codes "Compile: Get compile script fail") res, w)
  with_script (some script) rl res w = after_pipe script rl res (os.open_pipe w)

  unfoldable pub compile : Option Text → Submission → ResourceLimit → Prog W RunResult
  unfolding with_script
  compile script submit rl w = with_script script rl (new_result submit) w
