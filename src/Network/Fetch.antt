-- ===== src/Network/Fetch.antt =====
-- src/network.cpp: what a fetch reports of the script that it runs, and which modes there are.
use npu_oj.Base.{
  ℕ, ◌*◌, ◌<◌, ◌≡◌, ◌↔◌, refl, ◌∙◌, sym, Bool, true, false, Option, none, some, List, [], ◌∷◌, ◌++◌,
  ◌&&◌, arith, ◌==◌, ==_iff, if◌then◌else◌, map,
}
use npu_oj.Base.Int.{ℤ, pos}
use npu_oj.Base.Text.{Text, codes}
use npu_oj.Common.{NojState}
use npu_oj.Platform.{Os}
use npu_oj.Network.{
  Network, NetworkMode, ftp_state, sftp_state, ftp_command, sftp_command, fetch_file, fetch_by_mode,
  prefix_ignoring_case, pick_mode, to_lower,
}

-- What `system` returns when the shell exits with `code`.
abbrev pub exit_word : ℕ → ℤ
exit_word code = pos (code * 256)

ftp_state-exit_word : (code : ℕ) → ftp_state (exit_word code) ≡ NojState.normal
unfolding ftp_state
ftp_state-exit_word code = ground arith

sftp_state-exit_word :
    (code : ℕ)
    → code < 256
    → sftp_state (exit_word code) ≡ (
        if code == 1
        then NojState.file_not_download
        else if code == 2
        then NojState.permission_error
        else NojState.normal)
unfolding sftp_state
sftp_state-exit_word code h = ground arith

module _ {W : Type 0} (os : Os W) (net : Network) (server_path local_dir : Text) (w : W) where
  fetch_by_mode-ftp :
      (mode : NetworkMode)
      → mode ≡ NetworkMode.ftp
      → (fetch_by_mode os mode net server_path local_dir w).0
        ≡ ftp_state (os.system (ftp_command net server_path local_dir) w).0
  unfolding fetch_by_mode
  fetch_by_mode-ftp NetworkMode.ftp e = refl
  fetch_by_mode-ftp NetworkMode.sftp e = cc
  fetch_by_mode-ftp NetworkMode.no_mode e = cc

  fetch_by_mode-sftp :
      (mode : NetworkMode)
      → mode ≡ NetworkMode.sftp
      → (fetch_by_mode os mode net server_path local_dir w).0
        ≡ sftp_state (os.system (sftp_command net server_path local_dir) w).0
  unfolding fetch_by_mode
  fetch_by_mode-sftp NetworkMode.ftp e = cc
  fetch_by_mode-sftp NetworkMode.sftp e = refl
  fetch_by_mode-sftp NetworkMode.no_mode e = cc

-- Over FTP a failed download is reported as normal: whatever exit code the script ends
-- with, fetch_file gives Noj_Normal, since it compares the wait status and not the exit code.
pub ftp_never_fails :
    {W : Type 0} (os : Os W) (net : Network) (server_path local_dir : Text) (w : W) (code : ℕ)
    → net.m_mode ≡ NetworkMode.ftp
    → (os.system (ftp_command net server_path local_dir) w).0 ≡ exit_word code
    → (fetch_file os net server_path local_dir w).0 ≡ NojState.normal
unfolding fetch_file
ftp_never_fails os net server_path local_dir w code m e =
    fetch_by_mode-ftp os net server_path local_dir w net.m_mode m ∙ rw e (ftp_state-exit_word code)

-- Over SFTP the exit codes 1 and 2 of the script are told apart, and any other is reported as
-- normal.
sftp_reports :
    {W : Type 0} (os : Os W) (net : Network) (server_path local_dir : Text) (w : W) (code : ℕ)
    → net.m_mode ≡ NetworkMode.sftp
    → code < 256
    → (os.system (sftp_command net server_path local_dir) w).0 ≡ exit_word code
    → (fetch_file os net server_path local_dir w).0 ≡ (
        if code == 1
        then NojState.file_not_download
        else if code == 2
        then NojState.permission_error
        else NojState.normal)
unfolding fetch_file
sftp_reports os net server_path local_dir w code m lt e =
    fetch_by_mode-sftp os net server_path local_dir w net.m_mode m
    ∙ rw e (sftp_state-exit_word code lt)

and_left : (a b : Bool) → (a && b) ≡ true → a ≡ true
and_left a b h = ground arith

and_right : (a b : Bool) → (a && b) ≡ true → b ≡ true
and_right a b h = ground arith

and_intro : (a b : Bool) → a ≡ true → b ≡ true → (a && b) ≡ true
and_intro a b h k = ground arith

-- `mode` in lower case is the beginning of `name`.
abbrev pub IsPrefixOf : Text → Text → Type 0
IsPrefixOf mode name = (rest : Text) × (map to_lower name ≡ map to_lower mode ++ rest)

head_eq : (x y : ℕ) (xs ys : Text) → ◌≡◌ {A = List ℕ} (x ∷ xs) (y ∷ ys) → (x ≡ y) × (xs ≡ ys)
head_eq x y xs ys h = (cc, cc)

prefix_ignoring_case_iff :
    (mode name : Text) → (prefix_ignoring_case mode name ≡ true) ↔ IsPrefixOf mode name
unfolding prefix_ignoring_case
prefix_ignoring_case_iff [] name = (λ h. (map to_lower name, refl), λ h. refl)
prefix_ignoring_case_iff (b ∷ bs) [] = (λ h. cc, λ h. cc (h.1))
prefix_ignoring_case_iff (b ∷ bs) (n ∷ ns) =
    let (to, from) = prefix_ignoring_case_iff bs ns in
    (
      λ h.
          let heads : to_lower b ≡ to_lower n =
            (==_iff _ _).0 (and_left (to_lower b == to_lower n) (prefix_ignoring_case bs ns) h) in
          let (rest, tails) =
            to (and_right (to_lower b == to_lower n) (prefix_ignoring_case bs ns) h) in
          (rest, cc (heads, tails)),
      λ h.
          let (heads, tails) =
            head_eq (to_lower n) (to_lower b) (map to_lower ns) (map to_lower bs ++ h.0) h.1 in
          and_intro (to_lower b == to_lower n) (prefix_ignoring_case bs ns)
            ((==_iff _ _).1 (sym heads)) (from (h.0, tails)),
    )

choose : {M : Type 0} → Bool → Bool → M → M → Option M
choose a b x y = if a then some x else if b then some y else none

choose_lem :
    {A B : Type 0} (a b : Bool)
    → ((a ≡ true) ↔ A)
    → ((b ≡ true) ↔ B)
    → ((choose a b NetworkMode.sftp NetworkMode.ftp ≡ some NetworkMode.sftp) ↔ A)
      × ((choose a b NetworkMode.sftp NetworkMode.ftp ≡ some NetworkMode.ftp) ↔ (B × (¬ A)))
      × ((choose a b NetworkMode.sftp NetworkMode.ftp ≡ none) ↔ ((¬ B) × (¬ A)))
unfolding choose
choose_lem true b p q = (
  (λ h. p.0 refl, λ x. refl),
  (λ h. cc, λ h. absurd (h.1 (p.0 refl))),
  (λ h. cc, λ h. absurd (h.1 (p.0 refl))),
)
choose_lem false true p q = (
  (λ h. cc, λ x. cc (p.1 x)),
  (λ h. (q.0 refl, λ x. cc (p.1 x)), λ h. refl),
  (λ h. cc, λ h. absurd (h.0 (q.0 refl))),
)
choose_lem false false p q = (
  (λ h. cc, λ x. cc (p.1 x)),
  (λ h. cc, λ h. cc (q.1 h.0)),
  (λ h. (λ x. cc (q.1 x), λ x. cc (p.1 x)), λ h. refl),
)

-- Which protocol is used: FTP_MODE chooses SFTP exactly when it is a beginning of `sftp`, whatever
-- its case, and FTP exactly when it is a beginning of `ftp` and not of `sftp`; so one letter is
-- enough. Any other value ends the program.
pub pick_mode_lem :
    (mode : Text)
    → ((pick_mode mode ≡ some NetworkMode.sftp) ↔ IsPrefixOf mode (codes "sftp"))
      × ((pick_mode mode ≡ some NetworkMode.ftp)
          ↔ (IsPrefixOf mode (codes "ftp") × (¬ IsPrefixOf mode (codes "sftp"))))
      × ((pick_mode mode ≡ none)
          ↔ ((¬ IsPrefixOf mode (codes "ftp")) × (¬ IsPrefixOf mode (codes "sftp"))))
unfolding pick_mode choose
pick_mode_lem mode =
    choose_lem (prefix_ignoring_case mode (codes "sftp")) (prefix_ignoring_case mode (codes "ftp"))
      (prefix_ignoring_case_iff mode (codes "sftp")) (prefix_ignoring_case_iff mode (codes "ftp"))
