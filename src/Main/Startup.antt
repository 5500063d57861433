-- ===== src/Main/Startup.antt =====
-- The client that starts a server over ssh, and the server that it starts, agree on port and key.
use rumsh.Prelude.{
  ℕ, ◌<◌, ◌≡◌, ap, ◌∙◌, Bool, true, false, List, [], ◌∷◌, ◌++◌, Result, ok, err, length, arith,
  Text, text, show_u16,
}
use rumsh.Prelude.Stateful.{resume, ok_of_resume}
use rumsh.Client.Bootstrap.{
  SessionBootstrapper, Host, remote_command, extract_host_from_ssh_target, or_else, bootstrap,
  parse_token,
}
use rumsh.Client.Bootstrap.Keys.{
  show_key, Bytes, parse_hex_key-show, show_key-Free, is_empty-show_key,
}
use rumsh.Client.Bootstrap.Tokens.{Silent, parse_token-connect_token}
use rumsh.Server.Ports.{determine_bind_address, bind_to_available_port_sync}
use rumsh.Main.{
  session_key, parse_override, port_choice, first_of, Environment, Machine, ServerOptions,
  ServerStart, announcement, daemonized, run_server_subcommand,
}

-- The lines of a reader that does not fail.
abbrev pub as_lines : List Text → List (Result Text)
as_lines [] = []
as_lines (line ∷ lines) = ok line ∷ as_lines lines

-- A key is an array of 32 bytes, and a port a `u16`.
pub record Typed {Socket : Type 0} (start : ServerStart Socket) : Type 0 where
  pub key_size : length start.key ≡ 32
  pub key_bytes : Bytes start.key
  pub port_small : start.bound_port < 65536

end_of_run :
    {A : Type 0} (out printed : List Text) (made start : A) (r : Result (Unit {0}))
    → resume (out, r) (λ done s. (s, ok made)) ≡ (printed, ok start)
    → (printed ≡ out) × (made ≡ start)
end_of_run out printed made start (ok done) e = (cc e, cc e)
end_of_run out printed made start (err f) e = absurd (cc e)

daemonized_end :
    {A : Type 0} (machine : Machine) (no_daemonize : Bool) (out printed : List Text)
    (made start : A)
    → resume (daemonized machine no_daemonize out) (λ done s. (s, ok made)) ≡ (printed, ok start)
    → (printed ≡ out) × (made ≡ start)
unfolding daemonized
daemonized_end machine true out printed made start e = end_of_run out printed made start (ok tt) e
daemonized_end machine false out printed made start e =
    end_of_run out printed made start machine.daemonize e

run_server_subcommand_announces :
    (machine : Machine) (env : Environment) (options : ServerOptions) (printed : List Text)
    (start : ServerStart machine.Socket)
    → run_server_subcommand machine env options [] ≡ (printed, ok start)
    → printed ≡ announcement start.bound_port (show_key start.key)
unfolding run_server_subcommand
run_server_subcommand_announces machine env options printed start e =
    let (key, _, e1) = ok_of_resume ([], session_key env env.rumsh_key) _ printed start e in
    let (override, _, e2) =
      ok_of_resume ([], parse_override machine.parse_ip options.bind) _ printed start e1 in
    let (range, _, e3) =
      ok_of_resume ([], port_choice options.port_range options.port) _ printed start e2 in
    let ip = determine_bind_address machine.parse_ip env.ssh_connection override options.bind_any in
    let (bound, _, e4) =
      ok_of_resume ([], bind_to_available_port_sync machine.bind ip range) _ printed start e3 in
    let (same, made) =
      daemonized_end machine options.no_daemonize (announcement bound.1 (show_key key)) printed
        (record {
          std_socket = bound.0;
          bound_port = bound.1;
          key = key;
          shell_path = first_of options.shell env.shell (text "/bin/bash");
        })
        start e4 in
    same ∙ ap (λ (s : ServerStart machine.Socket). announcement s.bound_port (show_key s.key)) made

-- The remote command's output as ssh passes it on, among other lines.
abbrev pub ssh_output : List (Result Text) → List Text → List (Result Text) → List (Result Text)
ssh_output noise printed rest = noise ++ (as_lines printed ++ rest)

-- If the server's command succeeds and ssh passes its output on, after lines that do not start as
-- the token does, then `bootstrap` gives the server's very key, and the address that the name
-- service has for the host and the server's very port.
pub bootstrap-run_server_subcommand :
    (machine : Machine) (env : Environment) (options : ServerOptions) (printed : List Text)
    (start : ServerStart machine.Socket) (host : Host) (self : SessionBootstrapper) (target : Text)
    (noise rest : List (Result Text)) (addr : ℕ) (more : List ℕ)
    → run_server_subcommand machine env options [] ≡ (printed, ok start)
    → Typed start
    → Silent noise
    → host.spawn (
        text "ssh"
        ∷ text "-o"
        ∷ text "ExitOnForwardFailure=yes"
        ∷ target
        ∷ remote_command self
        ∷ [])
      ≡ ok (record { stdout = ssh_output noise printed rest; wait = ok true })
    → host.to_socket_addrs (
        or_else self.remote_bind (extract_host_from_ssh_target target)
        ++ (b':' ∷ show_u16 start.bound_port))
      ≡ ok (addr ∷ more)
    → bootstrap host self target ≡ ok (addr, start.key)
unfolding bootstrap announcement
bootstrap-run_server_subcommand machine env options printed start host self target noise rest addr
      more run typed quiet spawned resolved =
    let said = run_server_subcommand_announces machine env options printed start run in
    let token : parse_token (ssh_output noise printed rest)
        ≡ ok (start.bound_port, show_key start.key) =
      ap (λ lines. parse_token (ssh_output noise lines rest)) said
      ∙ parse_token-connect_token noise
          (as_lines (
              (text "RUMSH_PORT=" ++ show_u16 start.bound_port)
              ∷ (text "RUMSH_KEY=" ++ show_key start.key)
              ∷ [])
            ++ rest)
          start.bound_port (show_key start.key) quiet typed.port_small
          (is_empty-show_key start.key (ground (arith, typed.key_size)))
          (show_key-Free start.key typed.key_bytes) in
    let key = parse_hex_key-show start.key typed.key_size typed.key_bytes in
    rw spawned (rw token (rw key (rw resolved)))
