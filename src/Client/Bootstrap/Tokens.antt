-- ===== src/Client/Bootstrap/Tokens.antt =====
-- The line that the server prints (src/main.rs), and `parse_token`, which looks for it.
use rumsh.Prelude.{
  ℕ, ◌<◌, ◌≡◌, refl, ap, ◌∙◌, true, false, List, [], ◌∷◌, ◌++◌, Result, ok, err, is_empty, Text,
  text, starts_with, split_whitespace, is_whitespace, split_whitespace-word, split_whitespace_one,
  Free, Within, Within-Free, show_u16, is_empty-decimal, decimal-Within, parse_u16-show, arith,
}
use rumsh.Client.Bootstrap.{parse_token}

-- `format!("RUMSH CONNECT {} {}", bound_port, key_hex)`.
unfoldable pub connect_token : ℕ → Text → Text
connect_token bound_port key_hex = text "RUMSH CONNECT " ++ (show_u16 bound_port ++ b' ' ∷ key_hex)

-- Lines that arrive, and none of which starts as the token does.
abbrev pub Silent : List (Result Text) → Type 0
Silent [] = Unit
Silent (err e ∷ lines) = ⊥
Silent (ok line ∷ lines) = (starts_with line (text "RUMSH CONNECT ") ≡ false) × Silent lines

parse_token-Silent :
    (noise rest : List (Result Text))
    → Silent noise
    → parse_token (noise ++ rest) ≡ parse_token rest
unfolding parse_token
parse_token-Silent [] rest q = refl
parse_token-Silent (err e ∷ noise) rest q = absurd q
parse_token-Silent (ok line ∷ noise) rest (miss, q) = rw miss (parse_token-Silent noise rest q)

digit-Free : (s : Text) → Within b'0' b'9' s → Free is_whitespace s
digit-Free s w = Within-Free is_whitespace b'0' b'9' s (λ c lo hi. ground arith) w

capital-Free : (s : Text) → Within b'A' b'Z' s → Free is_whitespace s
capital-Free s w = Within-Free is_whitespace b'A' b'Z' s (λ c lo hi. ground arith) w

token_parts :
    (port : ℕ) (key_hex : Text)
    → is_empty key_hex ≡ false
    → Free is_whitespace key_hex
    → split_whitespace (connect_token port key_hex)
      ≡ text "RUMSH" ∷ text "CONNECT" ∷ show_u16 port ∷ key_hex ∷ []
unfolding connect_token show_u16
token_parts port key_hex full free =
    split_whitespace-word (text "RUMSH") (text "CONNECT " ++ (show_u16 port ++ b' ' ∷ key_hex)) refl
      (capital-Free (text "RUMSH") (omega arith))
    ∙ ap (◌∷◌ (text "RUMSH")) (
        split_whitespace-word (text "CONNECT") (show_u16 port ++ b' ' ∷ key_hex) refl
          (capital-Free (text "CONNECT") (omega arith))
        ∙ ap (◌∷◌ (text "CONNECT")) (
            split_whitespace-word (show_u16 port) key_hex (is_empty-decimal 4 port)
              (digit-Free (show_u16 port) (decimal-Within 5 port))
            ∙ ap (◌∷◌ (show_u16 port)) (split_whitespace_one key_hex full free)))

connect_token-marked :
    (port : ℕ) (key_hex : Text)
    → starts_with (connect_token port key_hex) (text "RUMSH CONNECT ") ≡ true
unfolding connect_token
connect_token-marked port key_hex = refl

-- Behind any lines that do not start as the token does, the token of a port and a key without
-- spaces gives the port and the key, whatever follows.
pub parse_token-connect_token :
    (noise rest : List (Result Text)) (port : ℕ) (key_hex : Text)
    → Silent noise
    → port < 65536
    → is_empty key_hex ≡ false
    → Free is_whitespace key_hex
    → parse_token (noise ++ ok (connect_token port key_hex) ∷ rest) ≡ ok (port, key_hex)
unfolding parse_token
parse_token-connect_token noise rest port key_hex quiet small full free =
    let marked : starts_with (connect_token port key_hex) (text "RUMSH CONNECT ") ≡ true =
      connect_token-marked port key_hex in
    parse_token-Silent noise (ok (connect_token port key_hex) ∷ rest) quiet
    ∙ rw marked (rw (token_parts port key_hex full free) (rw (parse_u16-show port small)))
