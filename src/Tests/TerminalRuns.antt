-- ===== src/Tests/TerminalRuns.antt =====
-- The server's terminal over an emulator with a screen of two rows, of which it marks the second.
use rumsh.Prelude.{ℕ, ◌≡◌, inl, inr, refl, Bool, true, false, List, [], ◌∷◌, none, some, ok}
use rumsh.Protocol.Grid.{LocalCellData, plain_cell}
use rumsh.Protocol.Grapheme
use rumsh.Protocol.Grapheme.{as_str}
use rumsh.Server.Emulator.{EmulatedCell, EmulatedRow, Snapshot, Emulator}
use rumsh.Server.Terminal.{ServerTerminalState, update_and_get_state}
use rumsh.Server.Terminal.Cells.{read_cell}
use rumsh.Server.Terminal.Cells.Printable.{Printable, read_cell-Printable}
use rumsh.Server.Terminal.Rows.{RowContent, RowShows}
use rumsh.Server.Terminal.Mirror.{Clears}
use rumsh.Server.Terminal.Caches.{Caches, Screen, whole_grid}
use rumsh.Server.Terminal.Update.{update_and_get_state-Mirrors}

abbrev letter : ℕ → EmulatedCell
letter c = record {
  graphemes_len = ok 1;
  graphemes_buf = ok (c ∷ []);
  graphemes = ok (c ∷ []);
  fg_color = ok none;
  bg_color = ok none;
  style = ok (record { bold = false; italic = false; inverse = false; underlined = false });
}

abbrev row_of : Bool → ℕ → EmulatedRow
row_of dirty c = record { dirty = ok dirty; is_wrapped = ok false; cells = ok (letter c ∷ []) }

abbrev screen_rows : List EmulatedRow
screen_rows = row_of false b'a' ∷ row_of true b'c' ∷ []

abbrev snapshot : Snapshot
snapshot = record {
  cols = ok 1;
  rows = ok 2;
  cursor_visible = ok true;
  cursor_viewport = ok (some (0, 1));
  row_iter = ok screen_rows;
}

abbrev emulator : Emulator
emulator = record {
  Terminal = Snapshot;
  new = λ cols rows. ok snapshot;
  vt_write = λ t bytes. (t, []);
  resize = λ t cols rows. ok t;
  RenderState = Unit {0};
  new_render = ok tt;
  update = λ render t. ok (render, t);
  clear_row = λ render y. ok render;
  set_clean = λ render. ok render;
}

clears : Clears emulator
clears = record { row = λ render y. (tt, refl); all = λ render. (tt, refl) }

abbrev content : ℕ → RowContent
content c = (false, plain_cell c ∷ [])

abbrev old : List RowContent
old = content b'a' ∷ content b'b' ∷ []

abbrev state : ServerTerminalState emulator
state = record {
  terminal = snapshot;
  render_state = tt;
  cols = 1;
  rows = 2;
  grid_state = record {
    cols = 1;
    rows = 2;
    cursor_x = 0;
    cursor_y = 0;
    cursor_visible = true;
    cells = plain_cell b'a' ∷ plain_cell b'b' ∷ [];
    row_wrapped = false ∷ false ∷ [];
  };
  force_full = false;
}

caches : Caches emulator state old
caches = record {
  cols_eq = refl;
  rows_eq = refl;
  wide = (refl, (refl, tt));
  tall = refl;
  cells = refl;
  flags = refl;
}

read_a : read_cell (letter b'a') ≡ ok (plain_cell b'a')
unfolding read_cell
read_a = refl

read_c : read_cell (letter b'c') ≡ ok (plain_cell b'c')
unfolding read_cell
read_c = refl

shows_row :
    (dirty : Bool) (c : ℕ)
    → read_cell (letter c) ≡ ok (plain_cell c)
    → RowShows (row_of dirty c) (content c)
shows_row dirty c e = record { raw = letter c ∷ []; wrapped = refl; listed = refl; cells = (e, tt) }

abbrev screen : Screen emulator snapshot
screen = record {
  cols = 1;
  rows = 2;
  visible = true;
  viewport = some (0, 1);
  row_list = screen_rows;
  contents = content b'a' ∷ content b'c' ∷ [];
  cols_ok = refl;
  rows_ok = refl;
  visible_ok = refl;
  viewport_ok = refl;
  list_ok = refl;
  shows = (shows_row false b'a' read_a, (shows_row true b'c' read_c, tt));
  wide = (refl, (refl, tt));
  tall = refl;
}

update_and_get_state-Mirrors_example :
    (after : ServerTerminalState emulator) × (update_and_get_state emulator state
      ≡ (after, ok (whole_grid emulator screen)))
    × Caches emulator after screen.contents
    × (after.force_full ≡ false)
update_and_get_state-Mirrors_example =
    update_and_get_state-Mirrors emulator clears state old screen tt caches refl
      (inr (inr (refl, refl), (inl refl, tt)))

-- A bell in a cell is shown as a space.
abbrev bell : LocalCellData
bell = record { graphemes = Grapheme.new (b' ' ∷ []); fg = none; bg = none; style_flags = 0 }

read_bell : read_cell (letter 7) ≡ ok bell
unfolding read_cell
read_bell = refl

read_cell-Printable_example : Printable (as_str bell.graphemes)
read_cell-Printable_example = read_cell-Printable (letter 7) bell read_bell
