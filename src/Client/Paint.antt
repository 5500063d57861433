-- ===== src/Client/Paint.antt =====
-- `ClientTerminalRenderer::paint` of src/client/terminal.rs: the terminal commands for a frame, in
-- the order in which they are written. A write to standard output is taken to succeed.
pub mod Screen
pub mod Row
pub mod Rows
pub mod Shown
use rumsh.Prelude.{
  ℕ, zero, suc, ◌+◌, ◌*◌, ◌-◌, ◌%◌, Bool, true, false, not, ◌&&◌, List, [], ◌∷◌, ◌++◌, Option, none,
  some, Result, ok, err, ◌>>=◌, index, set_index, length, max, is_empty, ltb, leb, ◌==◌,
  if◌then◌else◌, ite, ℕ_discrete, text,
}
use rumsh.Protocol.Fragments.Bits.{has_bit}
use rumsh.Protocol.Grapheme.{as_str}
use rumsh.Protocol.Grid.{LocalCellData, RgbColorUpdate, u16_mod}
use rumsh.Client.Frame.{TerminalFrame, grapheme_width}

pub data Attribute : Type 0 where
  reset bold italic underlined reverse : Attribute

pub data Color : Type 0 where
  red white : Color
  rgb : RgbColorUpdate → Color

-- What `crossterm::queue!` and `write_all` put out.
pub data Command : Type 0 where
  clear_screen flush show_cursor hide_cursor : Command
  move_to : (x y : ℕ) → Command
  set_attribute : Attribute → Command
  set_foreground set_background : Color → Command
  print : List ℕ → Command

abbrev pub Style : Type 0
Style = Option RgbColorUpdate × Option RgbColorUpdate × ℕ

unfoldable pub Style-discrete : Discrete Style
unfolding ℕ_discrete
Style-discrete = hlevel ℕ_discrete

abbrev pub commands_if : Bool → Command → List Command
commands_if b c = if b then c ∷ [] else []

abbrev pub color_command : (Color → Command) → Option RgbColorUpdate → List Command
color_command set none = []
color_command set (some c) = set (rgb c) ∷ []

-- The flags are bits 0 to 3: bold, italic, underline, inverse.
unfoldable pub apply_style : Style → List Command
apply_style (fg, bg, style_flags) =
    set_attribute reset
    ∷ (commands_if (has_bit style_flags 0) (set_attribute bold)
        ++ (commands_if (has_bit style_flags 1) (set_attribute italic)
            ++ (commands_if (has_bit style_flags 2) (set_attribute underlined)
                ++ (commands_if (has_bit style_flags 3) (set_attribute reverse)
                    ++ (color_command set_foreground fg ++ color_command set_background bg)))))

abbrev pub style_of : LocalCellData → Style
style_of cell = (cell.fg, cell.bg, cell.style_flags)

-- `if active_style != Some(current_style)`.
unfoldable pub change_style : Option Style → Style → List Command
unfolding apply_style Style-discrete
change_style none style = apply_style style
change_style (some active) style = ite (Style-discrete active style) [] (apply_style style)

-- The code point of a sequence of UTF-8 that starts with `a`.
abbrev pub two_bytes : ℕ → List ℕ → Option ℕ
two_bytes a (b ∷ s) = some ((a - 0xc0) * 64 + (b - 0x80))
two_bytes a other = none

abbrev pub three_bytes : ℕ → List ℕ → Option ℕ
three_bytes a (b ∷ c ∷ s) = some ((a - 0xe0) * 4096 + (b - 0x80) * 64 + (c - 0x80))
three_bytes a other = none

abbrev pub four_bytes : ℕ → List ℕ → Option ℕ
four_bytes a (b ∷ c ∷ d ∷ s) =
    some ((a - 0xf0) * 262144 + (b - 0x80) * 4096 + (c - 0x80) * 64 + (d - 0x80))
four_bytes a other = none

-- `text.chars().next()`.
unfoldable pub first_char : List ℕ → Option ℕ
first_char [] = none
first_char (a ∷ s) =
    if ltb a 0x80
    then some a
    else if ltb a 0xe0
    then two_bytes a s
    else if ltb a 0xf0
    then three_bytes a s
    else four_bytes a s

unfoldable pub cell_width : LocalCellData → ℕ
unfolding first_char grapheme_width
cell_width cell = max (grapheme_width (first_char (as_str cell.graphemes))) 1

abbrev pub print_text : List ℕ → List Command
print_text g = if is_empty g then [] else print g ∷ []

abbrev pub move_first : Bool → ℕ → ℕ → List Command
move_first moved x y = if moved then [] else move_to x y ∷ []

-- The commands for a cell that is not left out.
unfoldable pub paint_cell : ℕ → ℕ → Bool → Option Style → LocalCellData → List Command
unfolding change_style
paint_cell x y moved active cell =
    move_first moved x y
    ++ (change_style active (style_of cell) ++ print_text (as_str cell.graphemes))

-- The commands of a row, and the style that they leave.
abbrev pub Painted : Type 0
Painted = List Command × Option Style

module _ {F : Type 0} where
  abbrev pub is_corner : TerminalFrame F → ℕ → ℕ → Bool
  is_corner f x y = x == f.cols - 1 && y == f.rows - 1

  -- The loop over the cells of row `y`, from column `x` on; each round goes on by a column or two.
  unfoldable pub paint_row : ℕ → TerminalFrame F → ℕ → ℕ → Bool → Option Style → Result Painted
  unfolding cell_width paint_cell
  paint_row zero f y x moved active = ok ([], active)
  paint_row (suc fuel) f y x moved active =
      let round = index f.cell_cache (y * f.cols + x) >>= λ cell.
      let next = (x + cell_width cell) % u16_mod in
      let skipped = paint_row fuel f y next moved active in
      let painted = paint_row fuel f y next true (some (style_of cell)) >>= λ r.
      ok (paint_cell x y moved active cell ++ r.0, r.1) in
      if is_corner f x y then skipped else painted in
      if ltb x f.cols then round else ok ([], active)

  -- The loop over the rows, from row `y` on: the frame, whose painted rows are marked no more; the
  -- commands; and `real_update`.
  unfoldable pub paint_rows :
      ℕ → ℕ → TerminalFrame F → Option Style → Result (TerminalFrame F × List Command × Bool)
  unfolding paint_row
  paint_rows zero y f active = ok (f, [], false)
  paint_rows (suc left) y f active = index f.row_dirty y >>= λ marked.
      let skipped = paint_rows left (y + 1) f active in
      let painted = set_index f.row_dirty y false >>= λ row_dirty.
      let cleaned = record f { row_dirty = row_dirty } in
      paint_row f.cols cleaned y 0 false active >>= λ row.
      paint_rows left (y + 1) cleaned row.1 >>= λ rest. ok (rest.0, row.0 ++ rest.1, true) in
      if marked then painted else skipped

  abbrev pub last_row : TerminalFrame F → ℕ
  last_row f = if ltb 0 f.rows then f.rows - 1 else 0

  abbrev pub paint_reconnecting : TerminalFrame F → List Command
  paint_reconnecting f =
      if f.reconnecting
      then move_to (f.cols - 18) (last_row f)
        ∷ set_attribute reset
        ∷ set_foreground red
        ∷ set_attribute bold
        ∷ print (text "[Reconnecting...]")
        ∷ []
      else []

  -- The text of the telemetry is that of `format!`, with the numbers of `f32` in it.
  abbrev pub paint_overlay : (TerminalFrame F → List ℕ) → TerminalFrame F → List Command
  paint_overlay format f =
      if f.overlay_enabled
      then move_to (f.cols - length (format f) % u16_mod) 0
        ∷ set_attribute reset
        ∷ set_foreground white
        ∷ set_background (rgb (record { r = 60; g = 60; b = 60 }))
        ∷ set_attribute bold
        ∷ print (format f)
        ∷ set_attribute reset
        ∷ []
      else []

  abbrev pub paint_cursor : TerminalFrame F → List Command
  paint_cursor f =
      move_to f.cursor_x f.cursor_y
      ∷ (if f.cursor_visible then show_cursor else hide_cursor)
      ∷ flush
      ∷ []

  -- What follows the clearing of the screen.
  unfoldable pub paint_dirty :
      (TerminalFrame F → List ℕ) → TerminalFrame F → Result (TerminalFrame F × List Command × Bool)
  unfolding paint_rows
  paint_dirty format f =
      let idle = ok (f, [], false) in
      let painted = paint_rows f.rows 0 (record f { dirty = false }) none >>= λ r.
      ok (r.0, r.1 ++ (paint_reconnecting f ++ (paint_overlay format f ++ paint_cursor f)), r.2) in
      if f.dirty then painted else idle

  -- The new back buffer, the commands, and whether a row was painted.
  unfoldable pub paint :
      (TerminalFrame F → List ℕ) → TerminalFrame F → Result (TerminalFrame F × List Command × Bool)
  unfolding paint_dirty
  paint format f =
      let cleared = paint_dirty format (record f { clear_requested = false }) >>= λ r.
      ok (r.0, clear_screen ∷ flush ∷ r.1, r.2) in
      if f.clear_requested then cleared else paint_dirty format f
