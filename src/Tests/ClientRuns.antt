-- ===== src/Tests/ClientRuns.antt =====
-- The client from its start to its end.
use rumsh.Prelude.{◌≡◌, refl, ℕ, ◌*◌, refl, true, false, List, [], ◌∷◌, ok, text}
use rumsh.Client.Echo
use rumsh.Client.Escape
use rumsh.Client.Terminal
use rumsh.Client.Session.Prepare
use rumsh.Client.Session.State
use rumsh.Client.Frame.{TerminalFrame}
use rumsh.Client.Lifecycle
use rumsh.Client.Lifecycle.{LifecycleBackend}
use rumsh.Client.Session.Stdin.{feed_stdin, on_winch}
use rumsh.Client.Session.Tick.{on_tick}
use rumsh.Client.Lifecycle.Modes.{Modes, KeepsModes}
use rumsh.Client.Network.Events.{
  Ending, not_started, waiting, returned, LoopEvent, tick, stdin, closed, run_client,
}
use rumsh.Client.Network.Events.Ends.{EndsSound, run_client-EndsSound}
use rumsh.Server.Interface.{millis}
use rumsh.Tests.ServerRuns.{bare}
use rumsh.Tests.SyncRuns.{whole}

-- A terminal of 2 columns and 1 row.
abbrev fake : LifecycleBackend
fake = record {
  Backend = Modes;
  enable_raw_mode = λ b. (record b { raw = true }, ok tt);
  disable_raw_mode = λ b. (record b { raw = false }, ok tt);
  enter_alternate_screen = λ b. (record b { alternate = true }, ok tt);
  leave_alternate_screen = λ b. (record b { alternate = false }, ok tt);
  terminal_size = λ b. (b, ok (2, 1));
  send_sigtstp = λ b. (record b { stops = (b.raw, b.alternate) ∷ b.stops }, ok tt);
}

abbrev fake-KeepsModes : KeepsModes fake
fake-KeepsModes = record {
  modes = λ b. b;
  enabled = λ b. refl;
  disabled = λ b. refl;
  entered = λ b. refl;
  left = λ b. refl;
  measured = λ b. refl;
  stopped = λ b. refl;
}

abbrev shell_modes : Modes
shell_modes = record { raw = false; alternate = false; stops = [] }

abbrev clock : ℕ → ℕ
clock n = n * millis 5

abbrev telemetry : TerminalFrame ℕ → List ℕ
telemetry f = text "20ms"

-- A tick, then `~^Z`, then no more keys.
abbrev suspended : List LoopEvent
suspended = tick ∷ stdin (b'~' ∷ 26 ∷ []) ∷ closed ∷ []

abbrev modes_of : Ending whole bare fake 7 clock telemetry → Modes
modes_of (not_started backend e) = backend
modes_of (waiting c) = c.backend
modes_of (returned c backend answer) = backend

-- One stop, outside, and the modes of the shell at the end.
suspended_ends :
    modes_of (run_client whole bare fake 7 clock telemetry 9 tt 1 false suspended shell_modes)
    ≡ record { raw = false; alternate = false; stops = (false, false) ∷ [] }
unfolding run_client on_winch on_tick feed_stdin Lifecycle.suspend Lifecycle.with_backend
    Prepare.prepare_resize Terminal.abort_prediction Echo.abort State.new
    Terminal.set_overlay_enabled Terminal.new Echo.new Escape.handle_byte Escape.new
    Terminal.mark_dirty Lifecycle.drop_lifecycle
suspended_ends = refl

run_client-EndsSound_example :
    EndsSound whole bare fake fake-KeepsModes 7 clock telemetry
      (run_client whole bare fake 7 clock telemetry 9 tt 1 false suspended shell_modes)
run_client-EndsSound_example =
    run_client-EndsSound whole bare fake fake-KeepsModes 7 clock telemetry 9 tt 1 false suspended
      shell_modes tt
