-- ===== src/Client/Paint/Screen.antt =====
-- A terminal that obeys the commands of `paint` (src/client/terminal.rs): what each cell shows, the
-- cursor and the pen. What a cleared cell shows, and by how many columns a text moves the cursor,
-- are the terminal's own.
use rumsh.Prelude.{
  ℕ, ◌+◌, Bool, true, false, ◌&&◌, List, [], ◌∷◌, ◌++◌, Option, none, some, is_empty, ◌==◌,
  if◌then◌else◌, ◌≡◌, refl, ◌∙◌, arith, ite, ap,
}
use rumsh.Protocol.Fragments.Bits.{has_bit}
use rumsh.Protocol.Grapheme.{as_str}
use rumsh.Protocol.Grid.{LocalCellData, RgbColorUpdate}
use rumsh.Client.Paint.{
  Attribute, reset, bold, italic, underlined, reverse, Color, rgb, Command, clear_screen, flush,
  show_cursor, hide_cursor, move_to, set_attribute, set_foreground, set_background, print, Style,
  Style-discrete, commands_if, color_command, apply_style, style_of, change_style, paint_cell,
  cell_width, print_text,
}

pub record Look : Type 0 where
  pub bold_on : Bool
  pub italic_on : Bool
  pub underlined_on : Bool
  pub reversed : Bool
  pub foreground : Option Color
  pub background : Option Color

abbrev pub plain : Look
plain = record {
  bold_on = false;
  italic_on = false;
  underlined_on = false;
  reversed = false;
  foreground = none;
  background = none;
}

-- The text of a cell and its look.
abbrev pub Shown : Type 0
Shown = List ℕ × Look

pub record Screen : Type 0 where
  pub cells : ℕ → ℕ → Shown
  pub cursor_x : ℕ
  pub cursor_y : ℕ
  pub cursor_shown : Bool
  pub pen : Look

abbrev pub set_pen : Look → Screen → Screen
set_pen look s = record s { pen = look }

abbrev pub obey_attribute : Attribute → Look → Look
obey_attribute reset look = plain
obey_attribute bold look = record look { bold_on = true }
obey_attribute italic look = record look { italic_on = true }
obey_attribute underlined look = record look { underlined_on = true }
obey_attribute reverse look = record look { reversed = true }

abbrev pub put : ℕ → ℕ → Shown → (ℕ → ℕ → Shown) → ℕ → ℕ → Shown
put x y shown cells px py = if px == x && py == y then shown else cells px py

module _ (erase : Look → Shown) (columns : List ℕ → ℕ) where
  -- `print` is of the text of one cell.
  abbrev pub obey : Command → Screen → Screen
  obey clear_screen s = record s { cells = λ x y. erase s.pen }
  obey flush s = s
  obey show_cursor s = record s { cursor_shown = true }
  obey hide_cursor s = record s { cursor_shown = false }
  obey (move_to x y) s = record s { cursor_x = x; cursor_y = y }
  obey (set_attribute a) s = set_pen (obey_attribute a s.pen) s
  obey (set_foreground c) s = set_pen (record s.pen { foreground = some c }) s
  obey (set_background c) s = set_pen (record s.pen { background = some c }) s
  obey (print g) s = record s {
    cells = put s.cursor_x s.cursor_y (g, s.pen) s.cells;
    cursor_x = s.cursor_x + columns g;
  }

  unfoldable pub obey_all : List Command → Screen → Screen
  obey_all [] s = s
  obey_all (c ∷ cs) s = obey_all cs (obey c s)

  pub obey_all-append :
      (cs ds : List Command) (s : Screen) → obey_all (cs ++ ds) s ≡ obey_all ds (obey_all cs s)
  unfolding obey_all
  obey_all-append [] ds s = refl
  obey_all-append (c ∷ cs) ds s = obey_all-append cs ds (obey c s)

abbrev pub color_of : Option RgbColorUpdate → Option Color
color_of none = none
color_of (some c) = some (rgb c)

-- The look that a style asks for.
unfoldable pub look_of : Style → Look
look_of (fg, bg, style_flags) = record {
  bold_on = has_bit style_flags 0;
  italic_on = has_bit style_flags 1;
  underlined_on = has_bit style_flags 2;
  reversed = has_bit style_flags 3;
  foreground = color_of fg;
  background = color_of bg;
}

unfoldable pub shown_cell : LocalCellData → Shown
unfolding look_of
shown_cell cell = (as_str cell.graphemes, look_of (style_of cell))

-- What `paint` takes for the active style is the look of the pen.
abbrev pub PenIs : Option Style → Look → Type 0
PenIs none look = Unit {0}
PenIs (some style) look = look ≡ look_of style

-- A cell that fills one column, for the program and for the terminal.
pub record IsNarrow (columns : List ℕ → ℕ) (cell : LocalCellData) : Type 0 where
  pub has_text : is_empty (as_str cell.graphemes) ≡ false
  pub width : cell_width cell ≡ 1
  pub moves : columns (as_str cell.graphemes) ≡ 1

abbrev pub after_cell : ℕ → ℕ → LocalCellData → Screen → Screen
after_cell x y cell s = record {
  cells = put x y (shown_cell cell) s.cells;
  cursor_x = x + 1;
  cursor_y = y;
  cursor_shown = s.cursor_shown;
  pen = look_of (style_of cell);
}

module _ (erase : Look → Shown) (columns : List ℕ → ℕ) where
  -- An attribute is set or left as it is.
  attribute_if : Bool → Attribute → Look → Look
  attribute_if b a look = if b then obey_attribute a look else look

  commands_if-obeyed :
      (b : Bool) (a : Attribute) (cs : List Command) (look : Look) (s : Screen)
      → obey_all erase columns (commands_if b (set_attribute a) ++ cs) (set_pen look s)
        ≡ obey_all erase columns cs (set_pen (attribute_if b a look) s)
  unfolding obey_all attribute_if
  commands_if-obeyed true a cs look s = refl
  commands_if-obeyed false a cs look s = refl

  colors-obeyed :
      (fg bg : Option RgbColorUpdate) (s : Screen)
      → s.pen.foreground ≡ none
      → s.pen.background ≡ none
      → obey_all erase columns
          (color_command set_foreground fg ++ color_command set_background bg)
          s
        ≡ set_pen (record s.pen { foreground = color_of fg; background = color_of bg }) s
  unfolding obey_all
  colors-obeyed none none s no_fg no_bg =
      λ i. set_pen (record s.pen { foreground = no_fg i; background = no_bg i }) s
  colors-obeyed none (some bg) s no_fg no_bg =
      λ i. set_pen (record s.pen { foreground = no_fg i; background = some (rgb bg) }) s
  colors-obeyed (some fg) none s no_fg no_bg =
      λ i. set_pen (record s.pen { foreground = some (rgb fg); background = no_bg i }) s
  colors-obeyed (some fg) (some bg) s no_fg no_bg = refl

  flags_look : (b0 b1 b2 b3 : Bool) → Look
  unfolding attribute_if
  flags_look b0 b1 b2 b3 =
      attribute_if b3 reverse
        (attribute_if b2 underlined (attribute_if b1 italic (attribute_if b0 bold plain)))

  flags_look_lem :
      (b0 b1 b2 b3 : Bool)
      → flags_look b0 b1 b2 b3
        ≡ record plain { bold_on = b0; italic_on = b1; underlined_on = b2; reversed = b3 }
  unfolding flags_look attribute_if
  flags_look_lem b0 b1 b2 b3 = ground arith

  pub apply_style-obeyed :
      (style : Style) (s : Screen)
      → obey_all erase columns (apply_style style) s ≡ set_pen (look_of style) s
  unfolding obey_all apply_style look_of flags_look
  apply_style-obeyed (fg, bg, style_flags) s =
      let b0 = has_bit style_flags 0 in
      let b1 = has_bit style_flags 1 in
      let b2 = has_bit style_flags 2 in
      let b3 = has_bit style_flags 3 in
      rw
        (
          commands_if-obeyed b0 bold _ plain s,
          commands_if-obeyed b1 italic,
          commands_if-obeyed b2 underlined,
          commands_if-obeyed b3 reverse,
        )
        (ap
            (λ look.
              obey_all erase columns
                (color_command set_foreground fg ++ color_command set_background bg)
                (set_pen look s))
            (flags_look_lem b0 b1 b2 b3)
          ∙ colors-obeyed fg bg _ refl refl)

  pub change_style-obeyed :
      (active : Option Style) (style : Style) (s : Screen)
      → PenIs active s.pen
      → obey_all erase columns (change_style active style) s ≡ set_pen (look_of style) s
  unfolding obey_all change_style
  change_style-obeyed none style s h = apply_style-obeyed style s
  change_style-obeyed (some active) style s h =
      elim (Style-discrete active style)
        as (λ d.
          obey_all erase columns (ite d [] (apply_style style)) s ≡ set_pen (look_of style) s) [
            | yes e ↦ ap (λ look. set_pen look s) (h ∙ ap look_of e)
            | no n ↦ apply_style-obeyed style s
          ]

  text-obeyed :
      (active : Option Style) (cell : LocalCellData) (s : Screen)
      → PenIs active s.pen
      → IsNarrow columns cell
      → obey_all erase columns
          (change_style active (style_of cell) ++ print_text (as_str cell.graphemes))
          s
        ≡ after_cell s.cursor_x s.cursor_y cell s
  unfolding obey_all shown_cell
  text-obeyed active cell s pen narrow =
      rw
        (
          obey_all-append erase columns (change_style active (style_of cell)) _ s,
          change_style-obeyed active (style_of cell) s pen,
          narrow.has_text,
          narrow.moves,
        )
        refl

  pub paint_cell-obeyed :
      (x y : ℕ) (moved : Bool) (active : Option Style) (cell : LocalCellData) (s : Screen)
      → PenIs active s.pen
      → IsNarrow columns cell
      → (moved ≡ true → (s.cursor_x ≡ x) × (s.cursor_y ≡ y))
      → obey_all erase columns (paint_cell x y moved active cell) s ≡ after_cell x y cell s
  unfolding obey_all paint_cell
  paint_cell-obeyed x y true active cell s pen narrow there =
      text-obeyed active cell s pen narrow ∙ λ i.
      after_cell ((there refl).0 i) ((there refl).1 i) cell s
  paint_cell-obeyed x y false active cell s pen narrow there =
      text-obeyed active cell (record s { cursor_x = x; cursor_y = y }) pen narrow
