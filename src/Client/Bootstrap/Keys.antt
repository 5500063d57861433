-- ===== src/Client/Bootstrap/Keys.antt =====
-- The session key in hexadecimal: what the server writes (`key_hex` of src/main.rs) and what
-- `parse_hex_key` reads.
use mathlib.Core.List.{append_assoc}
use rumsh.Prelude.{
  ℕ, zero, suc, ◌+◌, ◌-◌, ◌*◌, ◌/◌, ◌%◌, ◌≤◌, ◌<◌, ◌≡◌, ◌≢◌, refl, sym, ap, ◌∙◌, true, false, List,
  [], ◌∷◌, ◌++◌, ok, err, panic, length, length-append, take, drop, Text, bytes_of, hex_digit,
  hex_byte, parse_hex-byte, Within, Within-append, bytes_of-ascii, Free, Free-append, is_whitespace,
  is_empty, arith,
}
use rumsh.Protocol.Grapheme.{is_char_boundary}
use rumsh.Client.Bootstrap.{slice, parse_pairs, parse_hex_key}

-- `key.iter().map(|b| format!("{:02x}", b)).collect()`.
unfoldable pub show_key : List ℕ → Text
show_key [] = []
show_key (b ∷ key) = hex_byte b ++ show_key key

abbrev pub Bytes : List ℕ → Type 0
Bytes [] = Unit
Bytes (b ∷ bs) = (b < 256) × Bytes bs

hex_byte-Within : (b : ℕ) → b < 256 → Within 0 127 (hex_byte b)
unfolding hex_byte hex_digit
hex_byte-Within b h = ground arith

show_key-Within : (key : List ℕ) → Bytes key → Within 0 127 (show_key key)
unfolding show_key
show_key-Within [] bs = tt
show_key-Within (b ∷ key) (lt, bs) =
    Within-append 0 127 (hex_byte b) (show_key key) (hex_byte-Within b lt) (show_key-Within key bs)

length-show_key : (key : List ℕ) → length (show_key key) ≡ length key * 2
unfolding show_key hex_byte
length-show_key [] = refl
length-show_key (b ∷ key) = omega (arith, length-show_key key)

hex_byte-Free : (b : ℕ) → b < 256 → Free is_whitespace (hex_byte b)
unfolding hex_byte hex_digit
hex_byte-Free b h = ground arith

pub show_key-Free : (key : List ℕ) → Bytes key → Free is_whitespace (show_key key)
unfolding show_key
show_key-Free [] bs = tt
show_key-Free (b ∷ key) (lt, bs) =
    Free-append is_whitespace (hex_byte b) (show_key key) (hex_byte-Free b lt)
      (show_key-Free key bs)

pub is_empty-show_key : (key : List ℕ) → is_empty key ≡ false → is_empty (show_key key) ≡ false
unfolding show_key hex_byte
is_empty-show_key [] full = full
is_empty-show_key (b ∷ key) full = refl

-- Every place in an ASCII text is between characters.
is_char_boundary-ascii :
    (s : List ℕ) (i : ℕ) → Within 0 127 s → i ≤ length s → is_char_boundary s i ≡ true
unfolding is_char_boundary
is_char_boundary-ascii s zero w h = refl
is_char_boundary-ascii [] (suc i) w h = absurd (omega arith)
is_char_boundary-ascii (b ∷ []) (suc zero) w h = refl
is_char_boundary-ascii (b ∷ c ∷ s) (suc zero) w h = ground arith
is_char_boundary-ascii (b ∷ []) (suc (suc i)) w h = absurd (omega arith)
is_char_boundary-ascii (b ∷ c ∷ s) (suc (suc i)) (_, _, w) h =
    is_char_boundary-ascii (c ∷ s) (suc i) w (omega arith)

slice-ascii :
    (s : List ℕ) (from to : ℕ)
    → Within 0 127 s
    → from ≤ to
    → to ≤ length s
    → slice s from to ≡ ok (take (to - from) (drop from s))
unfolding slice
slice-ascii s from to w lo hi =
    rw (is_char_boundary-ascii s from w (omega arith), is_char_boundary-ascii s to w hi)
      (ground arith)

drop-append : (pre s : List ℕ) → drop (length pre) (pre ++ s) ≡ s
drop-append [] s = refl
drop-append (c ∷ pre) s = drop-append pre s

-- The loop after the digits of some bytes.
parse_pairs-show :
    (pre : Text) (i : ℕ) (key : List ℕ)
    → length pre ≡ i * 2
    → Within 0 127 pre
    → Bytes key
    → parse_pairs (length key) i (pre ++ show_key key) ≡ ok key
unfolding parse_pairs show_key hex_byte
parse_pairs-show pre i [] at_i w bs = refl
parse_pairs-show pre i (b ∷ key) at_i w (lt, bs) =
    let s = pre ++ show_key (b ∷ key) in
    let ascii : Within 0 127 s =
      Within-append 0 127 pre (show_key (b ∷ key)) w (show_key-Within (b ∷ key) (lt, bs)) in
    let size : i * 2 + 2 ≤ length s =
      omega (arith, length-append pre (show_key (b ∷ key)), length-show_key (b ∷ key)) in
    let two : take (i * 2 + 2 - i * 2) (drop (i * 2) s) ≡ hex_byte b =
      ap (λ n. take n (drop (i * 2) s)) {y = 2} (omega arith)
      ∙ ap (λ n. take 2 (drop n s)) (sym at_i)
      ∙ ap (take 2) (drop-append pre (show_key (b ∷ key))) in
    let pair : slice s (i * 2) (i * 2 + 2) ≡ ok (hex_byte b) =
      slice-ascii s (i * 2) (i * 2 + 2) ascii (omega arith) size ∙ ap ok two in
    let rest : parse_pairs (length key) (i + 1) s ≡ ok key =
      ap (parse_pairs (length key) (i + 1)) (sym (append_assoc pre (hex_byte b) (show_key key)))
      ∙ parse_pairs-show (pre ++ hex_byte b) (i + 1) key
          (omega (arith, length-append pre (hex_byte b)))
          (Within-append 0 127 pre (hex_byte b) w (hex_byte-Within b lt)) bs in
    rw pair (rw (parse_hex-byte b lt) (rw rest))

-- A key of 32 bytes, written in hexadecimal as the server prints it, is read back as the key.
pub parse_hex_key-show :
    (key : List ℕ) → length key ≡ 32 → Bytes key → parse_hex_key (show_key key) ≡ ok key
unfolding parse_hex_key
parse_hex_key-show key size bs =
    let ascii : bytes_of (show_key key) ≡ show_key key =
      bytes_of-ascii (show_key key) (show_key-Within key bs) in
    let all : length (show_key key) ≡ 64 = omega (arith, length-show_key key) in
    rw ascii (
      rw all (
        ap (λ n. parse_pairs n 0 (show_key key)) (sym size)
        ∙ parse_pairs-show [] 0 key (omega arith) tt bs))

parse_pairs-ascii :
    (left i : ℕ) (s : List ℕ)
    → Within 0 127 s
    → (i + left) * 2 ≤ length s
    → parse_pairs left i s ≢ err panic
unfolding parse_pairs
parse_pairs-ascii zero i s w h = cc
parse_pairs-ascii (suc left) i s w h =
    rw (slice-ascii s (i * 2) (i * 2 + 2) w (omega arith) (omega arith))
      (ground (arith, parse_pairs-ascii left (i + 1) s w))

-- A text of ASCII characters never makes it panic.
pub parse_hex_key-ascii : (s : Text) → Within 0 127 s → parse_hex_key s ≢ err panic
unfolding parse_hex_key
parse_hex_key-ascii s w = rw (bytes_of-ascii s w) (ground (arith, parse_pairs-ascii 32 0 s w))

slice_inside : (a b c : ℕ) (s : List ℕ) → 128 ≤ c → c < 192 → slice (a ∷ b ∷ c ∷ s) 0 2 ≡ err panic
unfolding slice is_char_boundary
slice_inside a b c s lo hi = ground arith

parse_pairs_inside :
    (left a b c : ℕ) (s : List ℕ)
    → 128 ≤ c
    → c < 192
    → parse_pairs (suc left) 0 (a ∷ b ∷ c ∷ s) ≡ err panic
unfolding parse_pairs
parse_pairs_inside left a b c s lo hi = rw (slice_inside a b c s lo hi)

-- A character of two bytes behind one of ASCII, in a text of 64 bytes, makes it panic: the first two
-- bytes end within the character.
pub parse_hex_key_panics :
    (a c : ℕ) (s : Text)
    → a < 128
    → 128 ≤ c
    → c < 2048
    → length (bytes_of s) ≡ 61
    → parse_hex_key (a ∷ c ∷ s) ≡ err panic
unfolding parse_hex_key
parse_hex_key_panics a c s ascii lo hi size =
    let first : bytes_of (a ∷ c ∷ s) ≡ a ∷ (0xc0 + c / 64) ∷ (0x80 + c % 64) ∷ bytes_of s =
      ground arith in
    rw first (
      rw size (
        parse_pairs_inside 31 a (0xc0 + c / 64) (0x80 + c % 64) (bytes_of s) (omega arith)
          (omega arith)))
