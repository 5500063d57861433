-- ===== src/Tests/StartRuns.antt =====
-- The start of a server over ssh, with keys, ports and tokens written out.
use rumsh.Prelude.{
  ℕ, ◌≡◌, ◌⊎◌, refl, true, false, List, [], ◌∷◌, ◌++◌, Option, none, some, Result, ok, err, bail,
  panic, replicate, ◌==◌, if◌then◌else◌, Text, text, show_u16, decimal, parse_uint, parse_digits,
  arith,
}
use rumsh.Client.Bootstrap.{
  SessionBootstrapper, Host, bootstrap, parse_hex_key, extract_host_from_ssh_target,
}
use rumsh.Client.Bootstrap.Keys.{show_key, parse_hex_key-show, parse_hex_key_panics}
use rumsh.Server.Ports.{parse_port_range, determine_bind_address, bind_to_available_port_sync}
use rumsh.Server.Ports.Ranges.{
  parse_port_range-show, FirstFree, NoneFree, bind_to_available_port_sync-FirstFree,
}
use rumsh.Main.{
  Environment, Machine, ServerOptions, ServerStart, announcement, run_server_subcommand,
}
use rumsh.Main.Startup.{Typed, ssh_output, bootstrap-run_server_subcommand}

abbrev sevens : List ℕ
sevens = replicate 32 7

-- Port 60000 is taken.
abbrev second_port : ℕ → ℕ → Option ℕ
second_port ip port = if port == 60000 then none else some port

abbrev machine : Machine
machine = record { Socket = ℕ; parse_ip = λ s. none; bind = second_port; daemonize = ok tt }

abbrev env : Environment
env = record { rumsh_key = none; shell = none; ssh_connection = none; random_key = sevens }

abbrev options : ServerOptions
options = record {
  bind = none;
  port = none;
  port_range = show_u16 60000 ++ b':' ∷ show_u16 60002;
  bind_any = false;
  no_daemonize = false;
  shell = none;
}

abbrev start : ServerStart ℕ
start = record {
  std_socket = 60001;
  bound_port = 60001;
  key = sevens;
  shell_path = text "/bin/bash";
}

abbrev printed : List Text
printed = announcement 60001 (show_key sevens)

server_starts : run_server_subcommand machine env options [] ≡ (printed, ok start)
unfolding run_server_subcommand bind_to_available_port_sync determine_bind_address parse_port_range
    parse_uint parse_digits show_u16 decimal
server_starts = refl

abbrev noise : List (Result Text)
noise = ok (text "Welcome") ∷ []

abbrev host : Host
host = record {
  spawn = λ args. ok (record { stdout = ssh_output noise printed []; wait = ok true });
  to_socket_addrs = λ name. ok (5 ∷ []);
}

abbrev bootstrapper : SessionBootstrapper
bootstrapper = record {
  remote_binary = text "rumsh";
  port_range = text "60000:60002";
  remote_bind = none;
  remote_log_file = none;
}

typed : Typed start
typed = omega arith

bootstrap-run_server_subcommand_example :
    bootstrap host bootstrapper (text "me@far") ≡ ok (5, sevens)
bootstrap-run_server_subcommand_example =
    bootstrap-run_server_subcommand machine env options printed start host bootstrapper
      (text "me@far") noise [] 5 [] server_starts typed (refl, tt) refl refl

parse_hex_key-show_example : parse_hex_key (show_key sevens) ≡ ok sevens
parse_hex_key-show_example = parse_hex_key-show sevens refl (omega arith)

parse_hex_key_panics_example : parse_hex_key (b'0' ∷ 0xe9 ∷ replicate 61 b'0') ≡ err panic
parse_hex_key_panics_example =
    parse_hex_key_panics b'0' 0xe9 (replicate 61 b'0') (omega arith) (omega arith) (omega arith)
      refl

parse_port_range-show_example : parse_port_range (show_u16 7 ++ b':' ∷ show_u16 5) ≡ err bail
parse_port_range-show_example = parse_port_range-show 7 5 (omega arith) (omega arith)

bind_to_available_port_sync-FirstFree_example :
    ((socket : ℕ) × (port : ℕ) × (bind_to_available_port_sync second_port 0 (60000, 60002)
        ≡ ok (socket, port))
      × FirstFree second_port 0 60000 60002 port socket)
    ⊎ ((bind_to_available_port_sync second_port 0 (60000, 60002) ≡ err bail)
        × NoneFree second_port 0 60000 60002)
bind_to_available_port_sync-FirstFree_example =
    bind_to_available_port_sync-FirstFree second_port 0 60000 60002 (omega arith)

-- A sign before a digit is accepted, as `from_str_radix` does.
signed_pair : parse_uint 16 255 (text "+f") ≡ some 15
unfolding parse_uint parse_digits
signed_pair = refl

host_after_at : extract_host_from_ssh_target (text "me@far") ≡ text "far"
unfolding extract_host_from_ssh_target
host_after_at = refl
