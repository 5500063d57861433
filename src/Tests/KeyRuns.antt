-- ===== src/Tests/KeyRuns.antt =====
-- Keys typed: the escape interpreter.
use rumsh.Prelude.{ℕ, List, ◌≡◌, refl, Bool, true, false, [], ◌∷◌}
use rumsh.Client.Escape.{normal, help}
use rumsh.Client.Escape.Literal.{run, type_literally, run-type_literally}
use rumsh.Client.Escape.Tokens.{Reads, run-Reads}

-- `~?` on a new line runs the help and sends nothing; `~.` in a line is plain text.
help_typed : (run (normal true) (b'~' ∷ b'?' ∷ b'a' ∷ [])).commands ≡ help ∷ []
unfolding run
help_typed = refl

in_line_sent : (run (normal false) (b'~' ∷ b'.' ∷ [])).commands ≡ []
unfolding run
in_line_sent = refl

literal_typed :
    type_literally true (b'~' ∷ b'\n' ∷ b'~' ∷ b'.' ∷ [])
    ≡ b'~' ∷ b'~' ∷ b'\n' ∷ b'~' ∷ b'~' ∷ b'.' ∷ []
unfolding type_literally
literal_typed = refl

run-type_literally_example :
    let t = run (normal true) (type_literally true (b'~' ∷ b'\n' ∷ b'~' ∷ b'.' ∷ [])) in
    (t.sent ≡ b'~' ∷ b'\n' ∷ b'~' ∷ b'.' ∷ [])
    × (t.commands ≡ [])
    × ((end : Bool) × (t.state ≡ normal end))
run-type_literally_example = run-type_literally true (b'~' ∷ b'\n' ∷ b'~' ∷ b'.' ∷ [])

-- A command, an aborted one and a `~` still held.
abbrev typed_keys : List ℕ
typed_keys = b'~' ∷ b'?' ∷ b'a' ∷ b'\n' ∷ b'~' ∷ b'x' ∷ b'\n' ∷ b'~' ∷ []

abort_sent : (run (normal true) typed_keys).sent ≡ b'a' ∷ b'\n' ∷ b'~' ∷ b'x' ∷ b'\n' ∷ []
unfolding run
abort_sent = refl

run-Reads_example : Reads (normal true) typed_keys (run (normal true) typed_keys)
run-Reads_example = run-Reads (normal true) typed_keys
