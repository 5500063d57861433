-- ===== src/Client/Escape.antt =====
-- src/client/escape.rs: the state machine that takes `~` commands out of the keys typed.
pub mod Literal
pub mod Commands
pub mod Tokens
use rumsh.Prelude.{ℕ, Bool, true, false, ◌&&◌, ◌||◌, List, [], ◌∷◌, ◌++◌, ◌==◌, if◌then◌else◌}

pub data EscapeCommand : Type 0 where
  disconnect suspend help toggle_overlay : EscapeCommand

pub data EscapeState : Type 0 where
  normal : (last_was_newline : Bool) → EscapeState
  waiting_for_command : EscapeState

pub data InterpreterResult : Type 0 where
  send_bytes : List ℕ → InterpreterResult
  command : EscapeCommand → InterpreterResult
  consume : InterpreterResult

unfoldable pub new : EscapeState
new = normal true

abbrev pub is_newline : ℕ → Bool
is_newline b = b == b'\r' || b == b'\n'

abbrev pub ctrl_z : ℕ
ctrl_z = 0x1a

-- The arm `EscapeState::WaitingForCommand`.
unfoldable pub handle_command : ℕ → EscapeState × InterpreterResult
handle_command b =
    if b == b'.'
    then (normal false, command disconnect)
    else if b == ctrl_z
    then (normal true, command suspend)
    else if b == b'?'
    then (normal false, command help)
    else if b == b'o'
    then (normal false, command toggle_overlay)
    else if b == b'~'
    then (normal false, send_bytes (b'~' ∷ []))
    else (normal (is_newline b), send_bytes (b'~' ∷ b ∷ []))

unfoldable pub handle_byte : EscapeState → ℕ → EscapeState × InterpreterResult
unfolding handle_command
handle_byte (normal last_was_newline) b =
    if last_was_newline && b == b'~'
    then (waiting_for_command, consume)
    else (normal (is_newline b), send_bytes (b ∷ []))
handle_byte waiting_for_command b = handle_command b
