-- ===== src/Server/Terminal/Caches.antt =====
-- What the grid of `ServerTerminalState` (src/server/state.rs) caches, and what a snapshot shows.
use native.Mathlib.Nat.{mul_comm}
use rumsh.Prelude.{ℕ, ◌*◌, ◌≡◌, refl, sym, ap, ap₂, ◌∙◌, Bool, List, Option, ok, length}
use rumsh.Protocol.Grid.{GridState, plain_cell}
use rumsh.Protocol.Grid.Roundtrip.Bases.{IsValid}
use rumsh.Server.Emulator.{EmulatedRow, Snapshot, Emulator}
use rumsh.Server.Terminal.{ServerTerminalState, refit, place_of}
use rumsh.Server.Terminal.Rows.{
  RowContent, cells_of, flags_of, Wide, RowsShow, length-cells_of, length-flags_of, blank_rows,
  blank_rows-Wide, length-blank_rows, cells_of-blank_rows, flags_of-blank_rows,
}

module _ (em : Emulator) where
  -- The grid holds these rows.
  pub record Caches (s : ServerTerminalState em) (rows : List RowContent) : Type 0 where
    pub cols_eq : s.grid_state.cols ≡ s.cols
    pub rows_eq : s.grid_state.rows ≡ s.rows
    pub wide : Wide s.cols rows
    pub tall : length rows ≡ s.rows
    pub cells : s.grid_state.cells ≡ cells_of rows
    pub flags : s.grid_state.row_wrapped ≡ flags_of rows

  pub Caches-IsValid :
      (s : ServerTerminalState em) (rows : List RowContent) → Caches s rows → IsValid s.grid_state
  Caches-IsValid s rows c = record {
    cells_size =
        ap length c.cells
        ∙ length-cells_of s.cols rows c.wide
        ∙ ap (λ n. n * s.cols) c.tall
        ∙ mul_comm s.rows s.cols
        ∙ ap₂ ◌*◌ (sym c.cols_eq) (sym c.rows_eq);
    wrapped_size = ap length c.flags ∙ length-flags_of rows ∙ c.tall ∙ sym c.rows_eq;
  }

  pub refit-Caches :
      (s : ServerTerminalState em) (cols rows : ℕ)
      → Caches (refit em s cols rows) (blank_rows rows cols (plain_cell b' '))
  unfolding refit
  refit-Caches s cols rows = record {
    cols_eq = refl;
    rows_eq = refl;
    wide = blank_rows-Wide rows cols (plain_cell b' ');
    tall = length-blank_rows rows cols (plain_cell b' ');
    cells = sym (cells_of-blank_rows rows cols (plain_cell b' '));
    flags = sym (flags_of-blank_rows rows cols (plain_cell b' '));
  }

  -- What a snapshot shows, with no failed read.
  pub record Screen (snapshot : Snapshot) : Type 0 where
    pub cols : ℕ
    pub rows : ℕ
    pub visible : Bool
    pub viewport : Option (ℕ × ℕ)
    pub row_list : List EmulatedRow
    pub contents : List RowContent
    pub cols_ok : snapshot.cols ≡ ok cols
    pub rows_ok : snapshot.rows ≡ ok rows
    pub visible_ok : snapshot.cursor_visible ≡ ok visible
    pub viewport_ok : snapshot.cursor_viewport ≡ ok viewport
    pub list_ok : snapshot.row_iter ≡ ok row_list
    pub shows : RowsShow row_list contents
    pub wide : Wide cols contents
    pub tall : length contents ≡ rows

  -- The screen as a grid, read whole.
  abbrev pub whole_grid : {snapshot : Snapshot} → Screen snapshot → GridState
  whole_grid screen = record {
    cols = screen.cols;
    rows = screen.rows;
    cursor_x = (place_of em screen.viewport).0;
    cursor_y = (place_of em screen.viewport).1;
    cursor_visible = screen.visible;
    cells = cells_of screen.contents;
    row_wrapped = flags_of screen.contents;
  }
