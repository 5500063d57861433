-- ===== src/Client/Escape/Literal.antt =====
-- Bytes that must all reach the server: a `~` at the start of a line is typed twice.
use rumsh.Prelude.{ℕ, ◌≡◌, refl, Bool, ◌&&◌, List, [], ◌∷◌, ◌++◌, ◌==◌, if◌then◌else◌, arith}
use rumsh.Client.Escape.{
  EscapeState, EscapeCommand, InterpreterResult, normal, send_bytes, command, consume, is_newline,
  handle_byte,
}

-- What a run over typed bytes does: the final state, the bytes for the server and the commands.
pub record Typed : Type 0 where
  pub state : EscapeState
  pub sent : List ℕ
  pub commands : List EscapeCommand

abbrev pub note : InterpreterResult → Typed → Typed
note (send_bytes bs) t = record t { sent = bs ++ t.sent }
note (command c) t = record t { commands = c ∷ t.commands }
note consume t = t

unfoldable pub run : EscapeState → List ℕ → Typed
unfolding handle_byte
run s [] = record { state = s; sent = []; commands = [] }
run s (b ∷ bs) = let (s', r) = handle_byte s b in note r (run s' bs)

-- The typing that sends `bs`, from a line start or not.
unfoldable pub type_literally : Bool → List ℕ → List ℕ
type_literally at_line_start [] = []
type_literally at_line_start (b ∷ bs) =
    let rest = type_literally (is_newline b) bs in
    if at_line_start && b == b'~' then b ∷ b ∷ rest else b ∷ rest

-- Typed so, from any state that holds no `~` back, every byte string reaches the server unchanged
-- and in order, no command runs, and no `~` is held back at the end.
pub run-type_literally :
    (nl : Bool) (bs : List ℕ)
    → let t = run (normal nl) (type_literally nl bs) in
      (t.sent ≡ bs) × (t.commands ≡ []) × ((end : Bool) × (t.state ≡ normal end))
unfolding run type_literally
run-type_literally nl [] = (refl, refl, (nl, refl))
run-type_literally nl (b ∷ bs) =
    let (sent, commands, (end, state)) = run-type_literally (is_newline b) bs in
    (ground arith, ground arith, (end, ground arith))
