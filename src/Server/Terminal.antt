-- ===== src/Server/Terminal.antt =====
-- src/server/state.rs: `ServerTerminalState`, the emulator with a grid that caches what it shows.
-- The cells are read in Terminal/Cells.
pub mod Cells
pub mod Rows
pub mod Mirror
pub mod Caches
pub mod Update
use rumsh.Prelude.{
  ℕ, zero, suc, ◌+◌, ◌*◌, Bool, true, false, not, ◌||◌, List, [], ◌∷◌, Option, none, some, Result,
  ok, err, length, set, set_index, replicate, ltb, ◌==◌, if◌then◌else◌,
}
use rumsh.Prelude.Stateful.{M, ◌>>=◌, ◌>>◌, pure, lift, modify}
use rumsh.Protocol.Grid.{GridState, LocalCellData, plain_cell}
use rumsh.Server.Emulator.{EmulatedCell, EmulatedRow, Snapshot, Emulator}
use Cells.{read_cell}

module _ (em : Emulator) where
  pub record ServerTerminalState : Type 0 where
    pub terminal : em.Terminal
    pub render_state : em.RenderState
    pub cols : ℕ
    pub rows : ℕ
    pub grid_state : GridState
    pub force_full : Bool

  unfoldable pub new : ℕ → ℕ → Result ServerTerminalState
  new cols rows = elim (em.new cols rows) [
    | err e ↦ err e
    | ok terminal ↦ elim em.new_render [
      | err e ↦ err e
      | ok render_state ↦ ok (record {
        terminal = terminal;
        render_state = render_state;
        cols = cols;
        rows = rows;
        grid_state = record {
          cols = cols;
          rows = rows;
          cursor_x = 0;
          cursor_y = 0;
          cursor_visible = false;
          cells = replicate (cols * rows) (plain_cell b' ');
          row_wrapped = replicate rows false;
        };
        force_full = true;
      })
    ]
  ]

  -- The state, and what the emulator answers to the PTY.
  unfoldable pub write : ServerTerminalState → List ℕ → ServerTerminalState × List (List ℕ)
  write self bytes =
      let (terminal, answers) = em.vt_write self.terminal bytes in
      (record self { terminal = terminal }, answers)

  -- A blank grid of a new size, to be read whole.
  pub refit : ServerTerminalState → ℕ → ℕ → ServerTerminalState
  refit self cols rows = record self {
    cols = cols;
    rows = rows;
    grid_state = record self.grid_state {
      cols = cols;
      rows = rows;
      cells = replicate (cols * rows) (plain_cell b' ');
      row_wrapped = replicate rows false;
    };
    force_full = true;
  }

  unfoldable pub resize : ServerTerminalState → ℕ → ℕ → ServerTerminalState × Result (Unit {0})
  unfolding refit
  resize self cols rows = elim (em.resize self.terminal cols rows) [
    | err e ↦ (self, err e)
    | ok terminal ↦ (refit (record self { terminal = terminal }) cols rows, ok tt)
  ]

  abbrev pub set_cells : List LocalCellData → ServerTerminalState → ServerTerminalState
  set_cells cells self = record self { grid_state = record self.grid_state { cells = cells } }

  -- `if idx < cells.len() { cells[idx] = cell_data }`.
  pub put_cell : ℕ → ℕ → LocalCellData → ServerTerminalState → ServerTerminalState
  put_cell y x cell self =
      let idx = y * self.cols + x in
      if ltb idx (length self.grid_state.cells)
      then set_cells (set self.grid_state.cells idx cell) self
      else self

  -- The loop over the cells of row `y`, at column `x`.
  pub read_cells : ℕ → ℕ → List EmulatedCell → M ServerTerminalState (Unit {0})
  unfolding put_cell
  read_cells y x [] = pure tt
  read_cells y x (c ∷ cs) = do
    cell ← lift (read_cell c)
    modify (put_cell y x cell)
    read_cells y (x + 1) cs

  pub set_wrapped : ℕ → Bool → M ServerTerminalState (Unit {0})
  set_wrapped y wrapped self = elim (set_index self.grid_state.row_wrapped y wrapped) [
    | err e ↦ (self, err e)
    | ok flags ↦
        (record self { grid_state = record self.grid_state { row_wrapped = flags } }, ok tt)
  ]

  -- `row.set_dirty(false)?`.
  pub clear_row : ℕ → M ServerTerminalState (Unit {0})
  clear_row y self = elim (em.clear_row self.render_state y) [
    | err e ↦ (self, err e)
    | ok render ↦ (record self { render_state = render }, ok tt)
  ]

  -- Row `y` is read into the grid.
  pub refresh_row : ℕ → EmulatedRow → M ServerTerminalState (Unit {0})
  unfolding read_cells set_wrapped clear_row
  refresh_row y r = do
    wrapped ← lift r.is_wrapped
    set_wrapped y wrapped
    cells ← lift r.cells
    read_cells y 0 cells
    clear_row y

  -- `self.force_full || row.dirty()?`: a forced update does not ask.
  abbrev pub is_due : Bool → EmulatedRow → Result Bool
  is_due true r = ok true
  is_due false r = r.dirty

  abbrev pub when : Bool → M ServerTerminalState (Unit {0}) → M ServerTerminalState (Unit {0})
  when b m = if b then m else pure tt

  pub visit_row : ℕ → EmulatedRow → M ServerTerminalState (Unit {0})
  unfolding refresh_row
  visit_row y r = do due ← λ self. (self, is_due self.force_full r); when due (refresh_row y r)

  -- The loop over the rows, at row `y`.
  pub read_rows : ℕ → List EmulatedRow → M ServerTerminalState (Unit {0})
  unfolding visit_row
  read_rows y [] = pure tt
  read_rows y (r ∷ rs) = do visit_row y r; read_rows (y + 1) rs

  -- `snapshot.set_dirty(Dirty::Clean)?`.
  pub clear_all : M ServerTerminalState (Unit {0})
  clear_all self = elim (em.set_clean self.render_state) [
    | err e ↦ (self, err e)
    | ok render ↦ (record self { render_state = render }, ok tt)
  ]

  pub take_snapshot : M ServerTerminalState Snapshot
  take_snapshot self = elim (em.update self.render_state self.terminal) [
    | err e ↦ (self, err e)
    | ok (render, snapshot) ↦ (record self { render_state = render }, ok snapshot)
  ]

  abbrev pub place_of : Option (ℕ × ℕ) → ℕ × ℕ
  place_of (some place) = place
  place_of none = (0, 0)

  pub adopt_size : ℕ → ℕ → ServerTerminalState → ServerTerminalState
  unfolding refit
  adopt_size cols rows self =
      if not (self.cols == cols) || not (self.rows == rows) then refit self cols rows else self

  pub set_cursor : ℕ × ℕ → Bool → ServerTerminalState → ServerTerminalState
  set_cursor (x, y) visible self = record self {
    grid_state = record self.grid_state { cursor_x = x; cursor_y = y; cursor_visible = visible };
  }

  -- The rows, and then no mark is left.
  pub redraw : List EmulatedRow → M ServerTerminalState (Unit {0})
  unfolding read_rows clear_all
  redraw row_iter = do
    read_rows 0 row_iter
    modify (λ self. record self { force_full = false })
    clear_all

  unfoldable pub update_and_get_state : M ServerTerminalState GridState
  unfolding take_snapshot adopt_size redraw set_cursor
  update_and_get_state = do
    snapshot ← take_snapshot
    cols ← lift snapshot.cols
    rows ← lift snapshot.rows
    cursor_visible ← lift snapshot.cursor_visible
    viewport ← lift snapshot.cursor_viewport
    modify (adopt_size cols rows)
    row_iter ← lift snapshot.row_iter
    redraw row_iter
    modify (set_cursor (place_of viewport) cursor_visible)
    λ self. (self, ok self.grid_state)
