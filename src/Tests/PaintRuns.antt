-- ===== src/Tests/PaintRuns.antt =====
-- The painting of a frame.
use rumsh.Prelude.{ℕ, zero, suc, ◌≡◌, refl, subst, arith, true, false, List, [], ◌∷◌, ok, text}
use rumsh.Protocol.Grapheme
use rumsh.Protocol.Grid.{plain_cell}
use rumsh.Protocol.Fragments.Bits.{has_bit}
use rumsh.Client.Frame.{TerminalFrame, IsValid}
use rumsh.Client.Paint.{reset, move_to, set_attribute, print, hide_cursor, flush, paint, cell_width}
use rumsh.Client.Paint.Screen.{Look, Shown, Screen, IsNarrow, plain}
use rumsh.Client.Paint.Row.{AllNarrow}
use rumsh.Client.Paint.Shown.{IsPainted, paint-IsPainted}

-- Two rows of two; only the second row is marked.
abbrev pub two_rows : TerminalFrame ℕ
two_rows = record {
  cols = 2;
  rows = 2;
  cell_cache = plain_cell b'a' ∷ plain_cell b'b' ∷ plain_cell b'c' ∷ plain_cell b'd' ∷ [];
  row_dirty = false ∷ true ∷ [];
  cursor_x = 1;
  cursor_y = 0;
  cursor_visible = false;
  dirty = true;
  reconnecting = false;
  last_seq = 4;
  overlay_enabled = false;
  rtt_ms = 20;
  packet_loss_pct = 0;
  bandwidth_kb_s = 0;
  compression_ratio = 1;
  fps = 0;
  clear_requested = false;
}

abbrev telemetry : TerminalFrame ℕ → List ℕ
telemetry f = text "20ms"

-- The corner is left out.
second_row_painted :
    paint telemetry two_rows
    ≡ ok (
      record two_rows { dirty = false; row_dirty = false ∷ false ∷ [] },
      move_to 0 1 ∷ set_attribute reset ∷ print (text "c") ∷ move_to 1 0 ∷ hide_cursor ∷ flush ∷ [],
      true,
    )
unfolding paint Grapheme.as_str Grapheme.new has_bit
second_row_painted = refl

abbrev erase : Look → Shown
erase look = (text " ", look)

abbrev one_column : List ℕ → ℕ
one_column g = 1

abbrev blank_screen : Screen
blank_screen = record {
  cells = λ x y. (text " ", plain);
  cursor_x = 0;
  cursor_y = 0;
  cursor_shown = true;
  pen = plain;
}

two_rows-IsValid : IsValid two_rows
two_rows-IsValid = record { cells_size = refl; rows_size = refl }

letter-IsNarrow : (c : ℕ) → cell_width (plain_cell c) ≡ 1 → IsNarrow one_column (plain_cell c)
unfolding Grapheme.as_str Grapheme.new
letter-IsNarrow c width = record { has_text = refl; width = width; moves = refl }

two_rows-AllNarrow : AllNarrow erase one_column two_rows
unfolding cell_width Grapheme.as_str Grapheme.new
two_rows-AllNarrow zero cell e =
    subst (IsNarrow one_column) {x = plain_cell b'a'} (cc e) (letter-IsNarrow b'a' refl)
two_rows-AllNarrow (suc zero) cell e =
    subst (IsNarrow one_column) {x = plain_cell b'b'} (cc e) (letter-IsNarrow b'b' refl)
two_rows-AllNarrow (suc (suc zero)) cell e =
    subst (IsNarrow one_column) {x = plain_cell b'c'} (cc e) (letter-IsNarrow b'c' refl)
two_rows-AllNarrow (suc (suc (suc zero))) cell e =
    subst (IsNarrow one_column) {x = plain_cell b'd'} (cc e) (letter-IsNarrow b'd' refl)
two_rows-AllNarrow (suc (suc (suc (suc i)))) cell e = cc e

paint-IsPainted_example :
    IsPainted erase one_column two_rows blank_screen (paint telemetry two_rows)
paint-IsPainted_example =
    paint-IsPainted erase one_column telemetry two_rows blank_screen two_rows-IsValid (omega arith)
      two_rows-AllNarrow refl refl refl
