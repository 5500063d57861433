-- ===== src/Client/Escape/Tokens.antt =====
-- The keys typed as a sequence of tokens: what the interpreter of src/client/escape.rs reads in them.
use mathlib.Core.List.{append_assoc}
use rumsh.Prelude.{
  ℕ, ◌≡◌, ◌≢◌, refl, sym, subst, ap, ◌∙◌, Bool, true, false, List, [], ◌∷◌, ◌++◌, ◌==◌, ◌&&◌, arith,
  Bool-cases, ==→≡, inl, inr,
}
use rumsh.Client.Escape.{
  EscapeCommand, disconnect, suspend, help, toggle_overlay, EscapeState, InterpreterResult,
  send_bytes, command, normal, waiting_for_command, is_newline, ctrl_z, handle_command, handle_byte,
}
use rumsh.Client.Escape.Literal.{Typed, note, run}

-- `plain` stands for itself; the others are a `~` at the start of a line with the key behind it.
pub data Token : Type 0 where
  plain : (b : ℕ) → Token
  doubled : Token
  asked : EscapeCommand → Token
  aborted : (b : ℕ) → Token

abbrev pub key_of : EscapeCommand → ℕ
key_of disconnect = b'.'
key_of suspend = ctrl_z
key_of help = b'?'
key_of toggle_overlay = b'o'

-- The keys of a token, the bytes that it stands for, and its commands.
abbrev pub keys : Token → List ℕ
keys (plain b) = b ∷ []
keys doubled = b'~' ∷ b'~' ∷ []
keys (asked c) = b'~' ∷ key_of c ∷ []
keys (aborted b) = b'~' ∷ b ∷ []

abbrev pub bytes : Token → List ℕ
bytes (plain b) = b ∷ []
bytes doubled = b'~' ∷ []
bytes (asked c) = []
bytes (aborted b) = b'~' ∷ b ∷ []

abbrev pub orders : Token → List EscapeCommand
orders (asked c) = c ∷ []
orders other = []

abbrev pub concat_map {ℓ} : {A : Type ℓ} → (Token → List A) → List Token → List A
concat_map f [] = []
concat_map f (t ∷ ts) = f t ++ concat_map f ts

-- Whether a token is what its keys mean at the start of a line, or in a line.
abbrev pub IsMeant : Bool → Token → Type 0
IsMeant at_start (plain b) = (at_start && b == b'~') ≡ false
IsMeant at_start doubled = at_start ≡ true
IsMeant at_start (asked c) = at_start ≡ true
IsMeant at_start (aborted b) = (at_start ≡ true) × (b ≢ b'~') × ((c : EscapeCommand) → b ≢ key_of c)

-- Whether a line starts behind a token: after a suspension it does, after any other command not.
abbrev pub starts_line : Token → Bool
starts_line (plain b) = is_newline b
starts_line doubled = false
starts_line (asked suspend) = true
starts_line (asked other) = false
starts_line (aborted b) = is_newline b

abbrev pub AreMeant : Bool → List Token → Type 0
AreMeant at_start [] = Unit
AreMeant at_start (t ∷ ts) = IsMeant at_start t × AreMeant (starts_line t) ts

-- The `~` that a state holds back, which started a line.
abbrev pub held : EscapeState → List ℕ
held (normal last_was_newline) = []
held waiting_for_command = b'~' ∷ []

abbrev pub at_start : EscapeState → Bool
at_start (normal last_was_newline) = last_was_newline
at_start waiting_for_command = true

-- The run over some keys reads them as some tokens.
pub record Reads (s : EscapeState) (typed : List ℕ) (t : Typed) : Type 0 where
  pub tokens : List Token
  pub meant : AreMeant (at_start s) tokens
  pub whole : concat_map keys tokens ++ held t.state ≡ held s ++ typed
  pub sent : t.sent ≡ concat_map bytes tokens
  pub ran : t.commands ≡ concat_map orders tokens

-- What the interpreter answers at the end of a token.
abbrev answer : Token → InterpreterResult
answer (plain b) = send_bytes (b ∷ [])
answer doubled = send_bytes (b'~' ∷ [])
answer (asked c) = command c
answer (aborted b) = send_bytes (b'~' ∷ b ∷ [])

note_lem :
    (token : Token) (t : Typed)
    → note (answer token) t ≡ record {
      state = t.state;
      sent = bytes token ++ t.sent;
      commands = orders token ++ t.commands;
    }
note_lem (plain b) t = refl
note_lem doubled t = refl
note_lem (asked c) t = refl
note_lem (aborted b) t = refl

-- One token more in front.
Reads-token :
    (token : Token) (s : EscapeState) (typed rest : List ℕ) (t : Typed)
    → IsMeant (at_start s) token
    → keys token ++ rest ≡ held s ++ typed
    → Reads (normal (starts_line token)) rest t
    → Reads s typed (note (answer token) t)
Reads-token token s typed rest t meant front r =
    subst (Reads s typed) (sym (note_lem token t)) (record {
      tokens = token ∷ r.tokens;
      meant = (meant, r.meant);
      whole =
          append_assoc (keys token) (concat_map keys r.tokens) (held t.state)
          ∙ ap (◌++◌ (keys token)) r.whole
          ∙ front;
      sent = ap (◌++◌ (bytes token)) r.sent;
      ran = ap (◌++◌ (orders token)) r.ran;
    })

-- The key behind a held `~` ends a token.
record Ends (b : ℕ) (r : EscapeState × InterpreterResult) : Type 0 where
  token : Token
  step : r ≡ (normal (starts_line token), answer token)
  meant : IsMeant true token
  typed : keys token ≡ b'~' ∷ b ∷ []

no_command :
    (b : ℕ)
    → (b == b'.') ≡ false
    → (b == ctrl_z) ≡ false
    → (b == b'?') ≡ false
    → (b == b'o') ≡ false
    → (c : EscapeCommand) → b ≢ key_of c
no_command b e1 e2 e3 e4 disconnect = ground arith
no_command b e1 e2 e3 e4 suspend = ground arith
no_command b e1 e2 e3 e4 help = ground arith
no_command b e1 e2 e3 e4 toggle_overlay = ground arith

asked_key : (b : ℕ) (c : EscapeCommand) → (b == key_of c) ≡ true → keys (asked c) ≡ b'~' ∷ b ∷ []
asked_key b c e = ap (λ k. b'~' ∷ k ∷ []) (sym (==→≡ b (key_of c) e))

handle_command-Ends : (b : ℕ) → Ends b (handle_command b)
unfolding handle_command
handle_command-Ends b = elim (Bool-cases (b == b'.')) [
  | inl e ↦ record {
    token = asked disconnect;
    step = rw e refl;
    meant = refl;
    typed = asked_key b disconnect e;
  }
  | inr e1 ↦ elim (Bool-cases (b == ctrl_z)) [
    | inl e ↦ record {
      token = asked suspend;
      step = rw (e1, e) refl;
      meant = refl;
      typed = asked_key b suspend e;
    }
    | inr e2 ↦ elim (Bool-cases (b == b'?')) [
      | inl e ↦ record {
        token = asked help;
        step = rw (e1, e2, e) refl;
        meant = refl;
        typed = asked_key b help e;
      }
      | inr e3 ↦ elim (Bool-cases (b == b'o')) [
        | inl e ↦ record {
          token = asked toggle_overlay;
          step = rw (e1, e2, e3, e) refl;
          meant = refl;
          typed = asked_key b toggle_overlay e;
        }
        | inr e4 ↦ elim (Bool-cases (b == b'~')) [
          | inl e ↦ record {
            token = doubled;
            step = rw (e1, e2, e3, e4, e) refl;
            meant = refl;
            typed = ap (λ k. b'~' ∷ k ∷ []) (sym (==→≡ b b'~' e));
          }
          | inr e5 ↦ record {
            token = aborted b;
            step = rw (e1, e2, e3, e4, e5) refl;
            meant = (refl, ground arith, no_command b e1 e2 e3 e4);
            typed = refl;
          }
        ]
      ]
    ]
  ]
]

-- From any state, the interpreter reads what is typed, with the `~` that it may hold already, as
-- tokens, and what is left over is the `~` that it still holds at the end: together they are
-- exactly the keys, none lost, invented or moved. A `~` at the start of a line with a key behind it
-- is the command of that key, a literal `~` if doubled, and otherwise the two bytes themselves; any
-- other key stands for itself. The server gets the bytes of the tokens and nothing else, in order,
-- and the commands that run are those of the tokens, in order.
pub run-Reads : (s : EscapeState) (typed : List ℕ) → Reads s typed (run s typed)
unfolding run handle_byte
run-Reads (normal nl) [] = record { tokens = []; meant = tt; whole = refl; sent = refl; ran = refl }
run-Reads waiting_for_command [] = record {
  tokens = [];
  meant = tt;
  whole = refl;
  sent = refl;
  ran = refl;
}
run-Reads (normal nl) (b ∷ typed) = elim (Bool-cases (nl && b == b'~')) [
  | inl tilde ↦
      let r = run-Reads waiting_for_command typed in
      let line : nl ≡ true = ground arith in
      let key : b ≡ b'~' = ground arith in
      rw tilde (record {
        tokens = r.tokens;
        meant = subst (λ l. AreMeant l r.tokens) (sym line) r.meant;
        whole = r.whole ∙ ap (λ k. k ∷ typed) (sym key);
        sent = r.sent;
        ran = r.ran;
      })
  | inr other ↦ rw other (
      Reads-token (plain b) (normal nl) (b ∷ typed) typed (run (normal (is_newline b)) typed) other
        refl (run-Reads (normal (is_newline b)) typed))
]
run-Reads waiting_for_command (b ∷ typed) =
    let e = handle_command-Ends b in
    let s' : EscapeState = normal (starts_line e.token) in
    subst
      (λ (x : EscapeState × InterpreterResult).
        Reads waiting_for_command (b ∷ typed) (note x.1 (run x.0 typed)))
      (sym e.step)
      (Reads-token e.token waiting_for_command (b ∷ typed) typed (run s' typed) e.meant
        (ap (λ ks. ks ++ typed) e.typed) (run-Reads s' typed))
