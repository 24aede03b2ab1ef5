-- ===== src/Network.antt =====
-- src/network.cpp: how files are fetched from the server of the online judge.
pub mod Fetch
use npu_oj.Base.{
  ℕ, zero, suc, ◌+◌, ◌-◌, ◌*◌, ◌/◌, ◌%◌, ◌<◌, ◌≡◌, refl, Bool, true, false, not, ◌&&◌, ◌||◌, Option,
  none, some, List, [], ◌∷◌, ◌++◌, arith, ltb, leb, ◌==◌, if◌then◌else◌, take,
}
use npu_oj.Base.Int.{ℤ, pos, negsuc, eq_ℤ, is_zero}
use npu_oj.Base.Text.{Text, codes, snprintf, print_long}
use npu_oj.Base.Effect.{Outcome, ok, exits, faults, blocks, Prog, ◌>>=◌, ◌>>◌, pure, lift}
use npu_oj.Common.{NojState, buffer_size}
use npu_oj.Platform.{Os, status_word, w_exit_status}
use npu_oj.Config.{Pcre, allocated, get_string}
use npu_oj.Config.Numbers.{get_long}

-- enum NetworkMode
pub data NetworkMode : Type 0 where
  no_mode ftp sftp : NetworkMode

-- class NetworkManager, its buffers as the texts that they hold.
pub record Network : Type 0 where
  pub m_mode : NetworkMode
  pub m_host : Text
  pub m_port : ℤ
  pub m_id_file : Text
  pub m_down_script : Text
  pub m_up_script : Text
  pub m_username : Text
  pub m_passwd : Text

-- The constructor clears every buffer.
abbrev pub new_network : Network
new_network = record {
  m_mode = NetworkMode.no_mode;
  m_host = [];
  m_port = pos 0;
  m_id_file = [];
  m_down_script = [];
  m_up_script = [];
  m_username = [];
  m_passwd = [];
}

-- strncpy(buf, src, size - 1) into a cleared buffer of `size` bytes.
abbrev pub strncpy : Text → ℕ → Text
strncpy src n = take n src

unfoldable pub init_ftp_setting : Text → ℤ → Text → Text → Network → Network
init_ftp_setting host port user passwd net = record net {
  m_mode = NetworkMode.ftp;
  m_port = port;
  m_host = strncpy host 64;
  m_username = strncpy user 32;
  m_passwd = strncpy passwd 32;
}

unfoldable pub set_ftp_cmd_script : Text → Text → Network → Network
set_ftp_cmd_script down_script up_script net = record net {
  m_down_script = strncpy down_script 128;
  m_up_script = strncpy up_script 128;
}

abbrev pub to_lower : ℕ → ℕ
to_lower b = if leb b'A' b && leb b b'Z' then b + 32 else b

-- strncasecmp(mode, name, strlen(mode)) == 0
unfoldable pub prefix_ignoring_case : Text → Text → Bool
prefix_ignoring_case [] name = true
prefix_ignoring_case (b ∷ bs) [] = false
prefix_ignoring_case (b ∷ bs) (n ∷ ns) = to_lower b == to_lower n && prefix_ignoring_case bs ns

-- Which branch NetworkManager::init takes for the value of FTP_MODE; `none` ends the program.
unfoldable pub pick_mode : Text → Option NetworkMode
unfolding prefix_ignoring_case
pick_mode mode =
    if prefix_ignoring_case mode (codes "sftp")
    then some NetworkMode.sftp
    else if prefix_ignoring_case mode (codes "ftp")
    then some NetworkMode.ftp
    else none

-- `(int)` of a long is the same number, both have 32 bits.
module _ {W : Type 0} (os : Os W) (user_noj : Option ℕ) where
  -- `user_noj` is what getpwnam("noj") gives.
  unfoldable pub init_sftp_setting : Text → ℤ → Text → Text → Network → Prog W Network
  init_sftp_setting host port user id_file net w =
      let net' = record net {
        m_mode = NetworkMode.sftp;
        m_port = port;
        m_host = strncpy host 64;
        m_username = strncpy user 32;
        m_id_file = strncpy id_file 128;
      } in
      elim user_noj [
        | none ↦ exits (pos 1)
        | some uid ↦
            let (ret, w') =
              os.system (snprintf (buffer_size - 1) (codes "chown noj " ++ net'.m_id_file)) w in
            if is_zero ret then ok (net', w') else exits (pos 1)
      ]

  module _ (re : Pcre) (m_buffer : Option Text) where
    string_of : Text → Prog W Text
    string_of key = lift (get_string re m_buffer key allocated)

    init_sftp : Network → Prog W Network
    unfolding string_of
    init_sftp net = do
      host ← string_of (codes "SFTP_HOST")
      port ← lift (get_long re m_buffer (codes "SFTP_PORT"))
      user ← string_of (codes "SFTP_USER")
      id_file ← string_of (codes "SFTP_IDF")
      down_script ← string_of (codes "SFTP_DOWNLOAD_SCRIPT")
      up_script ← string_of (codes "SFTP_UPLOAD_SCRIPT")
      net' ← init_sftp_setting host port user id_file net
      pure (set_ftp_cmd_script down_script up_script net')

    init_ftp : Network → Prog W Network
    unfolding string_of
    init_ftp net = do
      host ← string_of (codes "FTP_HOST")
      port ← lift (get_long re m_buffer (codes "FTP_PORT"))
      user ← string_of (codes "FTP_USER")
      pass ← string_of (codes "FTP_PASS")
      down_script ← string_of (codes "FTP_DOWNLOAD_SCRIPT")
      up_script ← string_of (codes "FTP_UPLOAD_SCRIPT")
      pure (set_ftp_cmd_script down_script up_script (init_ftp_setting host port user pass net))

    init_mode : Network → Option NetworkMode → Prog W Network
    unfolding init_sftp init_ftp
    init_mode net (some NetworkMode.sftp) = init_sftp net
    init_mode net (some NetworkMode.ftp) = init_ftp net
    init_mode net (some NetworkMode.no_mode) = λ w. exits (pos 1)
    init_mode net none = λ w. exits (pos 1)

    -- NetworkManager::init
    unfoldable pub init_network : Network → Prog W Network
    unfolding init_mode string_of
    init_network net = do mode ← string_of (codes "FTP_MODE"); init_mode net (pick_mode mode)

unfoldable pub ftp_command : Network → Text → Text → Text
ftp_command net ftp_loc local_dir = snprintf (buffer_size - 1) (
    codes "su - noj -c \""
    ++ (net.m_down_script
        ++ (codes " "
            ++ (net.m_host
                ++ (codes " "
                    ++ (net.m_username
                        ++ (codes " "
                            ++ (net.m_passwd
                                ++ (codes " "
                                    ++ (ftp_loc
                                        ++ (codes " "
                                            ++ (local_dir ++ codes "\" 1>/dev/null 2>&1"))))))))))))

unfoldable pub sftp_command : Network → Text → Text → Text
unfolding print_long
sftp_command net ftp_loc local_dir = snprintf (buffer_size - 1) (
    codes "su - noj -c \""
    ++ (net.m_down_script
        ++ (codes " "
            ++ (ftp_loc
                ++ (codes " "
                    ++ (local_dir
                        ++ (codes " "
                            ++ (net.m_username
                                ++ (codes " "
                                    ++ (net.m_host
                                        ++ (codes " "
                                            ++ (print_long net.m_port
                                                ++ (codes " "
                                                    ++ (net.m_id_file
                                                        ++ codes "\" 1>/dev/null 2>&1"))))))))))))))

-- `switch (ret)` in fetch_file_from_ftp, on the wait status itself.
unfoldable pub ftp_state : ℤ → NojState
ftp_state ret =
    if is_zero ret
    then NojState.normal
    else if eq_ℤ ret (pos 1)
    then NojState.file_not_download
    else NojState.normal

-- `switch (WEXITSTATUS(ret))` in fetch_file_from_sftp.
unfoldable pub sftp_state : ℤ → NojState
unfolding w_exit_status
sftp_state ret =
    if is_zero ret
    then NojState.normal
    else if w_exit_status (status_word ret) == 1
    then NojState.file_not_download
    else if w_exit_status (status_word ret) == 2
    then NojState.permission_error
    else NojState.normal

module _ {W : Type 0} (os : Os W) where
  unfoldable pub fetch_file_from_ftp : Network → Text → Text → W → NojState × W
  unfolding ftp_state ftp_command
  fetch_file_from_ftp net ftp_loc local_dir w =
      let (ret, w') = os.system (ftp_command net ftp_loc local_dir) w in (ftp_state ret, w')

  unfoldable pub fetch_file_from_sftp : Network → Text → Text → W → NojState × W
  unfolding sftp_state sftp_command
  fetch_file_from_sftp net ftp_loc local_dir w =
      let (ret, w') = os.system (sftp_command net ftp_loc local_dir) w in (sftp_state ret, w')

  fetch_by_mode : NetworkMode → Network → Text → Text → W → NojState × W
  unfolding fetch_file_from_ftp fetch_file_from_sftp
  fetch_by_mode NetworkMode.ftp net server_path local_dir w =
      fetch_file_from_ftp net server_path local_dir w
  fetch_by_mode NetworkMode.sftp net server_path local_dir w =
      fetch_file_from_sftp net server_path local_dir w
  fetch_by_mode NetworkMode.no_mode net server_path local_dir w = (NojState.server_error, w)

  unfoldable pub fetch_file : Network → Text → Text → W → NojState × W
  unfolding fetch_by_mode
  fetch_file net server_path local_dir w = fetch_by_mode net.m_mode net server_path local_dir w
