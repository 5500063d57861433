-- ===== src/Client/Bootstrap.antt =====
-- src/client/bootstrap.rs: the start of a server over ssh. The ssh process and name resolution are
-- parameters; an address is a number.
pub mod Keys
pub mod Tokens
use rumsh.Prelude.{
  ℕ, zero, suc, ◌+◌, ◌-◌, ◌*◌, Bool, true, false, not, ◌&&◌, ◌||◌, List, [], ◌∷◌, ◌++◌, Option,
  none, some, Result, ok, err, bail, panic, or_fail, ◌>>=◌, length, take, drop, leb, ◌==◌,
  if◌then◌else◌, Text, text, bytes_of, starts_with, split_whitespace, is_whitespace, parse_uint,
  parse_u16, show_u16,
}
use rumsh.Protocol.Grapheme.{is_char_boundary}

pub record SessionBootstrapper : Type 0 where
  pub remote_binary : Text
  pub port_range : Text
  pub remote_bind : Option Text
  pub remote_log_file : Option Text

-- `&s[from..to]`: both ends within the text and between characters.
unfoldable pub slice : List ℕ → ℕ → ℕ → Result (List ℕ)
slice s from to =
    if leb from to && leb to (length s) && is_char_boundary s from && is_char_boundary s to
    then ok (take (to - from) (drop from s))
    else err panic

-- The loop at byte `i` of the key, with `left` rounds to go.
unfoldable pub parse_pairs : ℕ → ℕ → List ℕ → Result (List ℕ)
parse_pairs zero i s = ok []
parse_pairs (suc left) i s = do
  pair ← slice s (i * 2) (i * 2 + 2)
  byte ← or_fail bail (parse_uint 16 255 pair)
  rest ← parse_pairs left (i + 1) s
  ok (byte ∷ rest)

unfoldable pub parse_hex_key : Text → Result (List ℕ)
parse_hex_key s =
    if not (length (bytes_of s) == 64) then err bail else parse_pairs 32 0 (bytes_of s)

-- From just behind the first `@`.
pub after_at : Text → Option Text
after_at [] = none
after_at (c ∷ s) = if c == b'@' then some s else after_at s

unfoldable pub extract_host_from_ssh_target : Text → Text
unfolding after_at
extract_host_from_ssh_target target = elim (after_at target) [ some host ↦ host | none ↦ target ]

-- The third and fourth of four parts.
abbrev pub port_and_key : List Text → Option (Text × Text)
port_and_key (a ∷ b ∷ port ∷ key ∷ []) = some (port, key)
port_and_key other = none

-- A line of the reader may fail.
unfoldable pub parse_token : List (Result Text) → Result (ℕ × Text)
parse_token [] = err bail
parse_token (err e ∷ lines) = err e
parse_token (ok line ∷ lines) =
    let rest = parse_token lines in
    let found : Result (ℕ × Text) = elim (port_and_key (split_whitespace line)) [
      | none ↦ rest
      | some (port, key) ↦ or_fail bail (parse_u16 port) >>= λ p. ok (p, key)
    ] in
    if starts_with line (text "RUMSH CONNECT ") then found else rest

abbrev pub optional_arg : Text → Option Text → Text
optional_arg flag none = []
optional_arg flag (some value) = flag ++ value

unfoldable pub remote_command : SessionBootstrapper → Text
remote_command self =
    self.remote_binary
    ++ (text " server --port-range "
        ++ (self.port_range
            ++ (optional_arg (text " --bind ") self.remote_bind
                ++ optional_arg (text " --log-file ") self.remote_log_file)))

-- What the ssh process prints, line by line, and whether it ends well.
pub record SshRun : Type 0 where
  pub stdout : List (Result Text)
  pub wait : Result Bool

pub record Host : Type 0 where
  pub spawn : List Text → Result SshRun
  pub to_socket_addrs : Text → Result (List ℕ)

abbrev pub first_address : List ℕ → Option ℕ
first_address [] = none
first_address (addr ∷ more) = some addr

abbrev pub or_else : Option Text → Text → Text
or_else none s = s
or_else (some t) s = t

unfoldable pub bootstrap : Host → SessionBootstrapper → Text → Result (ℕ × List ℕ)
unfolding parse_token parse_hex_key remote_command extract_host_from_ssh_target
bootstrap host self target = do
  child ←
      host.spawn (
        text "ssh"
        ∷ text "-o"
        ∷ text "ExitOnForwardFailure=yes"
        ∷ target
        ∷ remote_command self
        ∷ [])
  (port, key_str) ← parse_token child.stdout
  key_bytes ← parse_hex_key key_str
  success ← child.wait
  addrs ←
      if success
      then host.to_socket_addrs
          (or_else self.remote_bind (extract_host_from_ssh_target target) ++ (b':' ∷ show_u16 port))
      else err bail
  addr ← or_fail bail (first_address addrs)
  ok (addr, key_bytes)
