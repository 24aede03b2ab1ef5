-- ===== src/Lang/Compile/Outcomes.antt =====
-- src/lang.cpp: how a compilation may end.
use npu_oj.Base.{
  ℕ, ◌+◌, ◌<◌, ◌≤◌, ◌≡◌, ◌≢◌, ◌⊎◌, refl, sym, ap, ◌∙◌, ==_iff, Bool-cases, ◌↔◌, inl, inr, Bool,
  true, false, Option, none, some, List, [], ◌∷◌, ◌++◌, ltb, ◌==◌, length, arith,
}
use npu_oj.Base.Text.{Text}
use npu_oj.Base.Effect.{Outcome, ok, exits, faults, blocks}
use npu_oj.Common.{ResType}
use npu_oj.DataItem.{ResourceLimit, RunResult, Submission, new_result}
use npu_oj.Platform.{CompilerRun, Os}
use npu_oj.Lang.Compile.{
  compile, compile_child, child_writes, until_nul, read_all, after_wait, after_pipe, parent,
  with_script, compile_error,
}

ok_inj : {A : Type 0} {a b : A} → ok a ≡ ok b → a ≡ b
ok_inj h = cc h

pass_error : {r : ResType} {A : Type 0} → r ≡ ResType.compile_pass → r ≡ ResType.compile_error → A
pass_error p q = cc (sym p ∙ q)

contradiction : {b : Bool} {A : Type 0} → b ≡ false → b ≡ true → A
contradiction p q = cc (sym p ∙ q)

compile_error-type :
    {W : Type 0} (res : RunResult) (o : Outcome Text) (w : W) {r : RunResult × W}
    → compile_error res o w ≡ ok r
    → r.0.res_type ≡ ResType.compile_error
compile_error-type res (ok content) w h = sym (ap (λ r. r.0.res_type) (ok_inj h))
compile_error-type res (exits code) w h = cc h
compile_error-type res faults w h = cc h
compile_error-type res blocks w h = cc h

-- How long all that is written is.
unfoldable pub total_length : List (Option Text) → ℕ
total_length [] = 0
total_length (none ∷ rest) = total_length rest
total_length (some t ∷ rest) = length t + total_length rest

-- The child is done exactly when all that it writes has room.
child_writes-cases :
    (capacity held : ℕ) (output : List (Option Text))
    → held ≤ capacity
    → ((child_writes capacity held output ≡ blocks) × (capacity < held + total_length output))
      ⊎ ((child_writes capacity held output ≡ ok tt) × (held + total_length output ≤ capacity))
unfolding child_writes total_length
child_writes-cases capacity held [] le = inr (refl, omega (arith, le))
child_writes-cases capacity held (none ∷ rest) le = child_writes-cases capacity held rest le
child_writes-cases capacity held (some t ∷ rest) le =
    elim (Bool-cases (ltb capacity (held + length t))) [
      | inl full ↦
          let over : capacity < held + length t = ground (arith, full) in
          inl (rw full refl, omega (arith, over))
      | inr room ↦
          let fits : held + length t ≤ capacity = ground (arith, room) in
          elim (child_writes-cases capacity (held + length t) rest fits) [
            | inl (stuck, long) ↦ inl (rw (room, stuck) refl, omega (arith, long))
            | inr (done, short) ↦ inr (rw (room, done) refl, omega (arith, short))
          ]
    ]

read_all-ends : (content : Text) (reads : List (Option Text)) → read_all content reads ≢ blocks
unfolding read_all
read_all-ends content [] h = cc h
read_all-ends content (none ∷ rest) h = cc h
read_all-ends content (some [] ∷ rest) h = cc h
read_all-ends content (some (b ∷ bs) ∷ rest) h =
    read_all-ends (content ++ until_nul (b ∷ bs)) rest h

compile_error-ends :
    {W : Type 0} (res : RunResult) (o : Outcome Text) (w : W)
    → o ≢ blocks
    → compile_error res o w ≢ blocks
compile_error-ends res (ok content) w n h = cc h
compile_error-ends res (exits code) w n h = cc h
compile_error-ends res faults w n h = cc h
compile_error-ends res blocks w n h = n refl

module _ {W : Type 0} (os : Os W) where
  -- Once the child has ended, the parent does.
  after_wait-ends :
      (res : RunResult) (run : CompilerRun) (w : W) → after_wait os res run w (ok tt) ≢ blocks
  unfolding after_wait
  after_wait-ends res run w h = elim (Bool-cases (run.stat == 0)) [
    | inl z ↦ cc (rw z at h)
    | inr nz ↦
        compile_error-ends res (read_all [] run.output) w (read_all-ends [] run.output) (rw nz at h)
  ]

module _ {W : Type 0} (os : Os W) (script : Text) (submit : Submission) (rl : ResourceLimit) where
  -- With a pipe and a child, a compilation is what the parent makes of the compiler's run.
  compile-parent :
      (w w1 w2 : W) (run : CompilerRun)
      → os.open_pipe w ≡ (true, w1)
      → os.fork_compiler (compile_child script rl) w1 ≡ (some run, w2)
      → compile os (some script) submit rl w ≡ parent os (new_result submit) run w2
  unfolding compile
  compile-parent w w1 w2 run p f = rw (p, with_script) (rw (f, after_pipe) refl)

  -- Messages that do not fit the pipe hang the judge, and nothing else does: when the pipe and the
  -- child could be made, compile waits for ever exactly when the pieces of text that the compiler
  -- writes are together longer than what the pipe holds.
  pub compile_hangs :
      (w w1 w2 : W) (run : CompilerRun)
      → os.open_pipe w ≡ (true, w1)
      → os.fork_compiler (compile_child script rl) w1 ≡ (some run, w2)
      → (compile os (some script) submit rl w ≡ blocks)
        ↔ (os.pipe_capacity < total_length run.output)
  unfolding parent after_wait
  compile_hangs w w1 w2 run p f =
      let is_parent = compile-parent w w1 w2 run p f in
      elim (child_writes-cases os.pipe_capacity 0 run.output (omega arith)) [
        | inl (stuck, long) ↦ (λ h. omega (arith, long), λ h. is_parent ∙ rw stuck refl)
        | inr (done, short) ↦ (
          λ h.
              absurd
                (after_wait-ends os (new_result submit) run w2 (rw done at (sym is_parent ∙ h))),
          λ h. absurd (omega (arith, h, short)),
        )
      ]

  parent_iff :
      (w w3 : W) (run : CompilerRun) (res : RunResult)
      → parent os (new_result submit) run w ≡ ok (res, w3)
      → (res.res_type ≡ ResType.compile_pass) ↔ (run.stat ≡ 0)
  unfolding parent after_wait
  parent_iff w w3 run res h =
      elim (child_writes-cases os.pipe_capacity 0 run.output (omega arith)) [
        | inl (stuck, long) ↦ cc (rw stuck at h)
        | inr (done, short) ↦ elim (Bool-cases (run.stat == 0)) [
          | inl z ↦
              let e : record (new_result submit) { res_type = ResType.compile_pass } ≡ res =
                cc (rw (done, z) at h) in
              (λ _. (==_iff _ _).0 z, λ _. sym (ap (λ r. r.res_type) e))
          | inr nz ↦
              let e : res.res_type ≡ ResType.compile_error =
                compile_error-type (new_result submit) _ w (rw (done, nz) at h) in
              (λ t. pass_error t e, λ z. contradiction nz ((==_iff _ _).1 z))
        ]
      ]

  -- A submission that compiles: the result is a pass exactly when the compiler's wait status is 0,
  -- when the pipe and the child could be made and the result is returned.
  pub compile_pass_iff :
      (w w1 w2 w3 : W) (run : CompilerRun) (res : RunResult)
      → os.open_pipe w ≡ (true, w1)
      → os.fork_compiler (compile_child script rl) w1 ≡ (some run, w2)
      → compile os (some script) submit rl w ≡ ok (res, w3)
      → (res.res_type ≡ ResType.compile_pass) ↔ (run.stat ≡ 0)
  compile_pass_iff w w1 w2 w3 run res p f h =
      parent_iff w2 w3 run res (sym (compile-parent w w1 w2 run p f) ∙ h)
