-- ===== src/Server/Terminal/Cells.antt =====
-- One cell of the emulator as a cell of the grid, as `update_and_get_state` of src/server/state.rs
-- reads it. A `char` is its code point.
pub mod Printable
use Prim.Native.Nat.{bit_or}
use rumsh.Prelude.{
  ℕ, ◌+◌, ◌-◌, ◌/◌, ◌%◌, Bool, true, false, ◌&&◌, ◌||◌, List, [], ◌∷◌, ◌++◌, Result, ok, ◌>>=◌, map,
  ltb, leb, ◌==◌, encode_utf8, if◌then◌else◌,
}
use rumsh.Protocol.Grid.{LocalCellData, style_bold, style_italic, style_underline, style_inverse}
use rumsh.Protocol.Grapheme
use rumsh.Protocol.Grapheme.{CompactGrapheme}
use rumsh.Server.Emulator.{CellStyle, EmulatedCell}

-- `char::is_control`.
abbrev pub is_control : ℕ → Bool
is_control c = ltb c 32 || (leb 127 c && ltb c 160)

abbrev pub clean_char : ℕ → ℕ
clean_char c = if is_control c then b' ' else c

-- The loop over the buffer: a NUL ends the text.
pub encode_buf : List ℕ → List ℕ
encode_buf [] = []
encode_buf (c ∷ cs) = if c == 0 then [] else encode_utf8 (clean_char c) ++ encode_buf cs

-- The text of a long grapheme: the UTF-8 of its cleaned characters.
pub encode_chars : List ℕ → List ℕ
encode_chars [] = []
encode_chars (c ∷ cs) = encode_utf8 (clean_char c) ++ encode_chars cs

-- The three ways by the length.
pub read_text : EmulatedCell → ℕ → Result (List ℕ)
unfolding encode_buf encode_chars
read_text cell len =
    if len == 0
    then ok (b' ' ∷ [])
    else if leb len 16
    then (cell.graphemes_buf >>= λ chars. ok (encode_buf chars))
    else (cell.graphemes >>= λ chars. ok (encode_chars chars))

pub style_bits : CellStyle → ℕ
style_bits style =
    let bold = if style.bold then bit_or 0 style_bold else 0 in
    let italic = if style.italic then bit_or bold style_italic else bold in
    let inverse = if style.inverse then bit_or italic style_inverse else italic in
    if style.underlined then bit_or inverse style_underline else inverse

unfoldable pub read_cell : EmulatedCell → Result LocalCellData
unfolding read_text style_bits
read_cell cell = do
  len ← cell.graphemes_len
  text ← read_text cell len
  fg ← cell.fg_color
  bg ← cell.bg_color
  style ← cell.style
  ok (record { graphemes = Grapheme.new text; fg = fg; bg = bg; style_flags = style_bits style })
