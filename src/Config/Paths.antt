-- ===== src/Config/Paths.antt =====
-- src/config.cpp: how a path that names the working directory is expanded.
use npu_oj.Base.{ℕ, ◌≡◌, refl, true, false, none, some, [], ◌∷◌, ◌++◌, arith, ◌==◌}
use npu_oj.Base.Text.{Text}
use npu_oj.Base.Effect.{ok}
use npu_oj.Config.{parse_real_path, strip, after_first, contains_char, noj_workdir}

strip-append : (p rest : Text) → strip p (p ++ rest) ≡ some rest
unfolding strip
strip-append [] rest = refl
strip-append (b ∷ p) rest = let same : b == b ≡ true = ground arith in rw same (strip-append p rest)

strip-workdir_ne : (b : ℕ) (bs : Text) → b == b'$' ≡ false → strip noj_workdir (b ∷ bs) ≡ none
unfolding strip
strip-workdir_ne b bs h = ground arith

after_first-append :
    (pre rest : Text)
    → contains_char b'$' pre ≡ false
    → after_first noj_workdir (pre ++ (noj_workdir ++ rest)) ≡ some rest
unfolding after_first contains_char
after_first-append [] rest h = rw (strip-append noj_workdir rest)
after_first-append (b ∷ pre) rest h =
    let other : b == b'$' ≡ false = ground arith in
    let later : contains_char b'$' pre ≡ false = ground arith in
    rw (strip-workdir_ne b _ other, after_first-append pre rest later)

contains_char-append : (c : ℕ) (pre rest : Text) → contains_char c (pre ++ (c ∷ rest)) ≡ true
unfolding contains_char
contains_char-append c [] rest = ground arith
contains_char-append c (b ∷ pre) rest = ground (arith, contains_char-append c pre rest)

-- When the first `$` of a path begins the name $NOJ_WORKDIR, the path is expanded to the value of
-- the variable followed by what stands behind the name; what stands before the name is dropped.
pub parse_real_path_expands :
    (env pre rest : Text)
    → contains_char b'$' pre ≡ false
    → parse_real_path (some env) (pre ++ (noj_workdir ++ rest)) ≡ ok (some (env ++ rest))
unfolding parse_real_path
parse_real_path_expands env pre rest h =
    rw (contains_char-append b'$' pre _, after_first-append pre rest h)
