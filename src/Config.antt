-- ===== src/Config.antt =====
-- src/config.cpp: values from the configuration file. PCRE is a parameter.
pub mod Numbers
pub mod Paths
use npu_oj.Base.{
  ℕ, zero, suc, ◌+◌, ◌-◌, ◌*◌, ◌^◌, ◌<◌, ◌≡◌, refl, Bool, true, false, not, ◌&&◌, ◌||◌, Option,
  none, some, List, [], ◌∷◌, ◌++◌, arith, ltb, leb, ◌==◌, if◌then◌else◌, length, drop, take,
}
use npu_oj.Base.Int.{ℤ, pos, negsuc, is_zero}
use npu_oj.Base.Text.{Text, codes, snprintf}
use npu_oj.Base.Effect.{Outcome, ok, exits, faults}
use npu_oj.Common.{buffer_size}

-- `compiles pattern`; then `group pattern subject` is the first group of the first match.
pub record Pcre : Type 0 where
  pub compiles : Text → Bool
  pub group : Text → Text → Option Text

-- The pattern for a key, in a buffer of 256 bytes.
unfoldable pub key_pattern : Text → Text
key_pattern key =
    snprintf (buffer_size - 1) (codes "^\\s*" ++ (key ++ codes "\\s*=\\s*(\\S+)\\s*$"))

-- Where the value goes: a new buffer, or one of the caller's with its size.
pub data Dest : Type 0 where
  allocated : Dest
  given : ℕ → Dest

-- `*size >= substring_len + 1`
unfoldable pub store_value : Dest → Text → Option Text
store_value allocated value = some value
store_value (given size) value = if leb (length value + 1) size then some value else none

abbrev store_match : Dest → Option Text → Outcome (Option Text)
store_match dest none = ok none
store_match dest (some value) = ok (store_value dest value)

search_subject : Pcre → Text → Option Text → Dest → Outcome (Option Text)
search_subject re pattern none dest = faults  -- strlen(NULL)
search_subject re pattern (some subject) dest = store_match dest (re.group pattern subject)

-- `subject` is the file's text, `none` if it could not be loaded; the key is never null here.
unfoldable pub regex_get_value : Pcre → Option Text → Text → Dest → Outcome (Option Text)
unfolding search_subject
regex_get_value re subject key dest =
    if re.compiles (key_pattern key)
    then search_subject re (key_pattern key) subject dest
    else ok none

abbrev or_exit : Outcome (Option Text) → Outcome Text
or_exit (ok (some value)) = ok value
or_exit (ok none) = exits (pos 1)
or_exit (exits code) = exits code
or_exit faults = faults
or_exit Outcome.blocks = Outcome.blocks

-- ConfigManager::get_string ends the program when there is no value.
unfoldable pub get_string : Pcre → Option Text → Text → Dest → Outcome Text
get_string re m_buffer key dest = or_exit (regex_get_value re m_buffer key dest)

-- ConfigManager::load_file: `fread(buf, size, 1, fp)` reads one item of the whole size, so it fails
-- for an empty file too.
unfoldable pub load_file : Option Text → Option Text
load_file none = none
load_file (some []) = none
load_file (some (b ∷ bs)) = some (b ∷ bs)

abbrev pub noj_workdir : Text
noj_workdir = codes "$NOJ_WORKDIR"

-- `strip p s` is what follows `p` at the head of `s`.
unfoldable pub strip : Text → Text → Option Text
strip [] s = some s
strip (p ∷ ps) [] = none
strip (p ∷ ps) (b ∷ bs) = if p == b then strip ps bs else none

abbrev or_else : Option Text → Option Text → Option Text
or_else (some s) r = some s
or_else none r = r

-- strstr: what follows the first occurrence of `p`.
unfoldable pub after_first : Text → Text → Option Text
after_first p [] = strip p []
after_first p (b ∷ bs) = or_else (strip p (b ∷ bs)) (after_first p bs)

-- strchr(path, c) != NULL
unfoldable pub contains_char : ℕ → Text → Bool
contains_char c [] = false
contains_char c (b ∷ bs) = if b == c then true else contains_char c bs

expand : Option Text → Option Text → Outcome (Option Text)
expand none env = exits (pos 1)
expand (some rest) none = faults  -- strlen(getenv(...)) of a null pointer
expand (some rest) (some dir) = ok (some (dir ++ rest))

-- ConfigManager::parse_real_path with the value of the environment variable; `none` means that the
-- path holds no `$`.
unfoldable pub parse_real_path : Option Text → Text → Outcome (Option Text)
unfolding contains_char after_first strip expand
parse_real_path env path =
    if contains_char b'$' path then expand (after_first noj_workdir path) env else ok none
