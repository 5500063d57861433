-- ===== src/Server/Pty.antt =====
-- `PtyBridge` of src/server/pty.rs: whether local echo is recommended, with its cache of the name of
-- the foreground process. What the operating system answers at a query is a parameter.
pub mod Cache
use rumsh.Prelude.{
  ℕ, ◌&&◌, ◌||◌, Bool, true, false, List, [], ◌∷◌, Option, none, some, is_empty, ◌==◌,
  if◌then◌else◌, Text, text, is_whitespace,
}
use rumsh.Protocol.Fragments.Bits.{has_bit}

pub record ProcessCache : Type 0 where
  -- `none` stands for -1.
  pub last_pgrp : Option ℕ
  pub last_name : Option Text

abbrev pub new_cache : ProcessCache
new_cache = record { last_pgrp = none; last_name = none }

-- The answers at one query: `tcgetattr` with its `c_lflag`, `tcgetpgrp` if it is positive, and the
-- content of /proc/<pgrp>/comm.
pub record Os : Type 0 where
  pub has_fd : Bool
  pub lflag : Option ℕ
  pub pgrp : Option ℕ
  pub comm : ℕ → Option Text

-- `str::trim`.
abbrev pub trim_start : Text → Text
trim_start [] = []
trim_start (c ∷ s) = let rest = trim_start s in if is_whitespace c then rest else c ∷ s

abbrev pub trim_end : Text → Text
trim_end [] = []
trim_end (c ∷ s) =
    let rest = trim_end s in if is_whitespace c && is_empty rest then [] else c ∷ rest

unfoldable pub trim : Text → Text
trim s = trim_end (trim_start s)

abbrev pub trimmed : Option Text → Option Text
trimmed none = none
trimmed (some comm) = some (trim comm)

-- `ECHO` is bit 3 on Linux.
abbrev pub echo_flag : Option ℕ → Bool
echo_flag none = true
echo_flag (some c_lflag) = has_bit c_lflag 3

unfoldable pub is_echo_enabled : Os → Bool
is_echo_enabled os = if os.has_fd then echo_flag os.lflag else true

abbrev pub is_last : Option ℕ → ℕ → Bool
is_last none pgrp = false
is_last (some last) pgrp = last == pgrp

-- A name that cannot be read is cached too.
abbrev pub name_of_group : Os → ProcessCache → Option ℕ → ProcessCache × Option Text
name_of_group os cache none = (cache, none)
name_of_group os cache (some pgrp) =
    if is_last cache.last_pgrp pgrp then (cache, cache.last_name) else (
      record { last_pgrp = some pgrp; last_name = trimmed (os.comm pgrp) },
      trimmed (os.comm pgrp),
    )

unfoldable pub get_foreground_process_name : Os → ProcessCache → ProcessCache × Option Text
unfolding trim
get_foreground_process_name os cache =
    if os.has_fd then name_of_group os cache os.pgrp else (cache, none)

abbrev pub text_eq : Text → Text → Bool
text_eq [] [] = true
text_eq (a ∷ s) (b ∷ t) = a == b && text_eq s t
text_eq s t = false

abbrev pub is_shell : Text → Bool
is_shell name =
    text_eq name (text "bash")
    || text_eq name (text "zsh")
    || text_eq name (text "sh")
    || text_eq name (text "fish")
    || text_eq name (text "rumsh")

abbrev pub names_shell : Option Text → Bool
names_shell none = false
names_shell (some proc_name) = is_shell proc_name

unfoldable pub is_echo_recommended : Os → ProcessCache → ProcessCache × Bool
unfolding is_echo_enabled get_foreground_process_name
is_echo_recommended os cache =
    let (asked, name) = get_foreground_process_name os cache in
    if is_echo_enabled os then (cache, true) else (asked, names_shell name)

-- Query after query.
unfoldable pub ask_all : List Os → ProcessCache → List Bool
unfolding is_echo_recommended
ask_all [] cache = []
ask_all (os ∷ rest) cache =
    let (asked, answer) = is_echo_recommended os cache in answer ∷ ask_all rest asked
