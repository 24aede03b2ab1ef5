-- ===== src/Labels.antt =====
-- src/test.cpp and src/judge.cpp: how verdicts, results and languages are printed.
use npu_oj.Base.{[], ◌∷◌, ◌++◌}
use npu_oj.Base.Int.{pos}
use npu_oj.Base.Text.{Text, codes, print_nat}
use npu_oj.Base.Effect.{exits, Prog, ◌>>◌, pure, modify}
use npu_oj.Common.{ResType, Language}
use npu_oj.Units.Time.{get_millisecond}
use npu_oj.Units.Memory.{get_mb}
use npu_oj.DataItem.{RunResult}

-- The switch of print_res_type.
unfoldable pub res_label : ResType → Text
res_label ResType.accept = codes "Accept"
res_label ResType.system_error = codes "SystemError"
res_label ResType.runtime_error = codes "RuntimeError"
res_label ResType.time_limit_exceed = codes "TimeExceed"
res_label ResType.memory_limit_exceed = codes "MemoryExceed"
res_label ResType.output_limit_exceed = codes "OutputExceed"
res_label ResType.illegal_system_call = codes "IllegalSystemCall"
res_label ResType.abort = codes "Abort"
res_label ResType.segment_fault = codes "SegmentFault"
res_label ResType.bus_error = codes "BusError"
res_label ResType.run_pass = codes "RunPass"
res_label ResType.compile_pass = codes "CompilePass"
res_label ResType.compile_error = codes "CompileError"
res_label ResType.init = codes "Init"
res_label ResType.presentation_error = codes "PresentationError"
res_label ResType.correct_answer = codes "CorrectAnswer"
res_label ResType.wrong_answer = codes "WrongAnswer"
res_label ResType.not_accept = codes "NotAccept"
res_label _ = codes "Unkown"

unfoldable pub str_lang : Language → Text
str_lang Language.c = codes "C"
str_lang Language.cpp = codes "Cpp"
str_lang Language.java = codes "Java"
str_lang Language.pascal = codes "Pascal"
str_lang Language.unkown = codes "NojLang_Unkown"

-- The standard output, as the text that was printed so far.
abbrev pub Printed : Type 0
Printed = Text

abbrev print_line : Text → Prog Printed (Unit {0})
print_line t = modify (λ out. out ++ (t ++ 10 ∷ []))

unfoldable pub print_res_type : ResType → Prog Printed (Unit {0})
print_res_type ret = print_line (res_label ret)

-- Verdicts other than the two of a compiler print nothing.
compile_report : ResType → Text → Prog Printed (Unit {0})
compile_report ResType.compile_pass content = print_line (codes "Compile Ok")
compile_report ResType.compile_error content =
    print_line (codes "Compile Error") >> (print_line content >> λ out. exits (pos 1))
compile_report _ content = pure tt

unfoldable pub test_compile : RunResult → Prog Printed (Unit {0})
unfolding compile_report
test_compile res = compile_report res.res_type res.res_content

unfoldable pub test_launch : RunResult → Prog Printed (Unit {0})
unfolding print_res_type
test_launch res = do
  print_line (codes "Time:" ++ (print_nat (get_millisecond res.res_elapsed_time) ++ codes " ms"))
  print_line (codes "Memory:" ++ (print_nat (get_mb res.res_max_memory) ++ codes " MB"))
  print_res_type res.res_type
  print_line res.res_content
