-- ===== src/Server/Interface.antt =====
-- What the server's session drives: the PTY of the shell (the trait `PtyBackend` of
-- src/server/pty.rs) and the terminal emulator behind it (`ServerTerminalState` of
-- src/server/state.rs). Failures of `write` and `resize` are only logged, so they do not show here.
use rumsh.Prelude.{ℕ, ◌*◌, List, Bool, Result}
use rumsh.Protocol.Grid.{GridState}

pub record Backend : Type 1 where
  pub Pty : Type 0
  pub write : Pty → List ℕ → Pty
  pub resize : Pty → ℕ → ℕ → Pty
  pub is_echo_recommended : Pty → Bool
  pub Term : Type 0
  -- The emulator may answer to the PTY through its callback.
  pub term_write : Term → Pty → List ℕ → Term × Pty
  pub term_resize : Term → ℕ → ℕ → Term
  pub update_and_get_state : Term → Term × Result GridState

-- Instants and durations are in nanoseconds; `duration_since` is 0 for a later instant.
abbrev pub millis : ℕ → ℕ
millis n = n * 1000000

abbrev pub secs : ℕ → ℕ
secs n = n * 1000000000
