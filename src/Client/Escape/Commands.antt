-- ===== src/Client/Escape/Commands.antt =====
-- Keys without a command of src/client/escape.rs.
use rumsh.Prelude.{ℕ, ◌≡◌, ◌≢◌, refl, Bool, List, [], ◌∷◌, ◌==◌, arith, ◌||◌}
use rumsh.Client.Escape.{normal, handle_byte}
use rumsh.Client.Escape.Literal.{run}

abbrev pub HasNoTilde : List ℕ → Type 0
HasNoTilde [] = Unit
HasNoTilde (b ∷ bs) = (b ≢ b'~') × HasNoTilde bs

-- Bytes with no `~` pass unchanged from any state that holds none back, and run no command.
pub run_plain :
    (nl : Bool) (bs : List ℕ)
    → HasNoTilde bs
    → ((run (normal nl) bs).sent ≡ bs) × ((run (normal nl) bs).commands ≡ [])
unfolding run handle_byte
run_plain nl [] h = (refl, refl)
run_plain nl (b ∷ bs) (hb, h) =
    let (sent, commands) = run_plain (b == b'\r' || b == b'\n') bs h in (ground arith, ground arith)
