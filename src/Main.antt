-- ===== src/Main.antt =====
-- src/main.rs: the two commands. Standard output is the state of the server's command, line by line.
pub mod Startup
use rumsh.Prelude.{
  ℕ, Bool, true, false, List, [], ◌∷◌, ◌++◌, Option, none, some, Result, ok, err, bail, or_fail,
  if◌then◌else◌, Text, text, show_u16,
}
use rumsh.Prelude.Stateful.{M, ◌>>=◌, ◌>>◌, pure, lift, modify}
use rumsh.Client.Bootstrap.{SessionBootstrapper, Host, first_address, bootstrap, parse_hex_key}
use rumsh.Client.Bootstrap.Keys.{show_key}
use rumsh.Client.Bootstrap.Tokens.{connect_token}
use rumsh.Server.Ports.{determine_bind_address, parse_port_range, bind_to_available_port_sync}

-- The environment's variables, and the key that `rand::random` makes.
pub record Environment : Type 0 where
  pub rumsh_key : Option Text
  pub shell : Option Text
  pub ssh_connection : Option Text
  pub random_key : List ℕ

pub record Machine : Type 1 where
  pub Socket : Type 0
  pub parse_ip : Text → Option ℕ
  pub bind : ℕ → ℕ → Option Socket
  -- A failure ends the process.
  pub daemonize : Result (Unit {0})

pub record ServerOptions : Type 0 where
  pub bind : Option Text
  pub port : Option ℕ
  pub port_range : Text
  pub bind_any : Bool
  pub no_daemonize : Bool
  pub shell : Option Text

-- The arguments of `run_server`.
pub record ServerStart (Socket : Type 0) : Type 0 where
  pub std_socket : Socket
  pub bound_port : ℕ
  pub key : List ℕ
  pub shell_path : Text

abbrev pub session_key : Environment → Option Text → Result (List ℕ)
session_key env none = ok env.random_key
session_key env (some key_hex) = parse_hex_key key_hex

abbrev pub parse_override : (Text → Option ℕ) → Option Text → Result (Option ℕ)
parse_override parse_ip none = ok none
parse_override parse_ip (some ip_str) = elim (parse_ip ip_str) [
  | none ↦ err bail
  | some ip ↦ ok (some ip)
]

abbrev pub port_choice : Text → Option ℕ → Result (ℕ × ℕ)
port_choice range_str none = parse_port_range range_str
port_choice range_str (some p) = ok (p, p)

-- What the server prints for the client that started it.
unfoldable pub announcement : ℕ → Text → List Text
announcement port key_hex =
    connect_token port key_hex
    ∷ (text "RUMSH_PORT=" ++ show_u16 port)
    ∷ (text "RUMSH_KEY=" ++ key_hex)
    ∷ []

abbrev pub first_of : Option Text → Option Text → Text → Text
first_of (some s) t fallback = s
first_of none (some t) fallback = t
first_of none none fallback = fallback

module _ (machine : Machine) where
  open machine use {Socket}

  pub daemonized : Bool → M (List Text) (Unit {0})
  daemonized no_daemonize = if no_daemonize then pure tt else lift machine.daemonize

  unfoldable pub run_server_subcommand :
      Environment → ServerOptions → M (List Text) (ServerStart Socket)
  unfolding daemonized
  run_server_subcommand env options = do
    key ← lift (session_key env env.rumsh_key)
    override ← lift (parse_override machine.parse_ip options.bind)
    range ← lift (port_choice options.port_range options.port)
    (socket, port) ← lift (
        bind_to_available_port_sync machine.bind
          (determine_bind_address machine.parse_ip env.ssh_connection override options.bind_any)
          range)
    modify (λ printed. printed ++ announcement port (show_key key))
    daemonized options.no_daemonize
    pure (record {
      std_socket = socket;
      bound_port = port;
      key = key;
      shell_path = first_of options.shell env.shell (text "/bin/bash");
    })

-- The options of the client.
pub record Cli : Type 0 where
  pub debug : Bool
  pub target : Option Text
  pub key : Option Text
  pub port_range : Text
  pub remote_bind : Option Text
  pub remote_binary : Text
  pub remote_log_file : Option Text
  pub overlay : Bool

abbrev pub remote_log : Option Text → Bool → Option Text
remote_log (some path) debug = some path
remote_log none true = some (text "/tmp/rumsh-server.log")
remote_log none false = none

-- With a key the target is an address; without one it is a target of ssh.
abbrev pub resolve_target : Host → Cli → Text → Option Text → Result (ℕ × List ℕ)
resolve_target host cli target (some key_str) = elim (host.to_socket_addrs target) [
  | err e ↦ err e
  | ok addrs ↦ elim (first_address addrs) [
    | none ↦ err bail
    | some addr ↦ elim (parse_hex_key key_str) [ err e ↦ err e | ok key ↦ ok (addr, key) ]
  ]
]
resolve_target host cli target none =
    bootstrap host
      (record {
        remote_binary = cli.remote_binary;
        port_range = cli.port_range;
        remote_bind = cli.remote_bind;
        remote_log_file = remote_log cli.remote_log_file cli.debug;
      })
      target

-- The address, the key and the overlay flag that `run_client` starts with.
unfoldable pub run_client_mode : Host → Cli → Result (ℕ × List ℕ × Bool)
run_client_mode host cli = elim cli.target [
  | none ↦ err bail
  | some target ↦ elim (resolve_target host cli target cli.key) [
    | err e ↦ err e
    | ok (addr, key) ↦ ok (addr, key, cli.overlay)
  ]
]
