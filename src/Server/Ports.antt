-- ===== src/Server/Ports.antt =====
-- The address that the server listens on: `determine_bind_address`, `parse_port_range` and
-- `bind_to_available_port_sync` of src/server/network.rs. An IP address is a number.
pub mod Ranges
use rumsh.Prelude.{
  ℕ, zero, suc, ◌+◌, ◌-◌, Bool, true, false, ◌&&◌, List, [], ◌∷◌, Option, none, some, Result, ok,
  err, bail, or_fail, ◌>>=◌, leb, ltb, if◌then◌else◌, Text, contains, split, split_whitespace,
  parse_u16,
}

-- `"0.0.0.0"`.
abbrev pub any_address : ℕ
any_address = 0

abbrev pub third : List Text → Option Text
third (a ∷ b ∷ c ∷ rest) = some c
third other = none

abbrev pub address_or_any : Option ℕ → ℕ
address_or_any none = any_address
address_or_any (some ip) = ip

-- The third part, if it is an address.
abbrev pub parse_third : (Text → Option ℕ) → Option Text → Option ℕ
parse_third parse_ip none = none
parse_third parse_ip (some part) = parse_ip part

abbrev pub connection_address : (Text → Option ℕ) → Option Text → Option ℕ
connection_address parse_ip none = none
connection_address parse_ip (some ssh_connection) =
    parse_third parse_ip (third (split_whitespace ssh_connection))

-- `ssh_connection` is the environment's `SSH_CONNECTION`, `parse_ip` the parser of `IpAddr`.
unfoldable pub determine_bind_address : (Text → Option ℕ) → Option Text → Option ℕ → Bool → ℕ
determine_bind_address parse_ip ssh_connection (some ip) bind_any = ip
determine_bind_address parse_ip ssh_connection none true = any_address
determine_bind_address parse_ip ssh_connection none false =
    address_or_any (connection_address parse_ip ssh_connection)

abbrev pub range_parts : Text → Option (List Text)
range_parts range_str =
    if contains b':' range_str
    then some (split b':' range_str)
    else if contains b'-' range_str
    then some (split b'-' range_str)
    else none

abbrev pub two : List Text → Option (Text × Text)
two (a ∷ b ∷ []) = some (a, b)
two other = none

-- The first and the last port, both in the range.
unfoldable pub parse_port_range : Text → Result (ℕ × ℕ)
parse_port_range range_str = do
  parts ← or_fail bail (range_parts range_str)
  (first, last) ← or_fail bail (two parts)
  start ← or_fail bail (parse_u16 first)
  end ← or_fail bail (parse_u16 last)
  if ltb end start then err bail else ok (start, end)

module _ {Socket : Type 0} (bind : ℕ → ℕ → Option Socket) where
  -- The loop at `port`, with `left` ports to go.
  pub bind_from : ℕ → ℕ → ℕ → Result (Socket × ℕ)
  bind_from bind_ip zero port = err bail
  bind_from bind_ip (suc left) port =
      let rest = bind_from bind_ip left (port + 1) in
      elim (bind bind_ip port) [ some socket ↦ ok (socket, port) | none ↦ rest ]

  unfoldable pub bind_to_available_port_sync : ℕ → ℕ × ℕ → Result (Socket × ℕ)
  unfolding bind_from
  bind_to_available_port_sync bind_ip (start, end) = bind_from bind_ip (end + 1 - start) start
