-- ===== src/Client/Frame.antt =====
-- `TerminalFrame` of src/client/terminal.rs: the screen that the renderer paints. The type of the
-- telemetry, `f32`, is a parameter.
pub mod Update
pub mod Copy
use rumsh.Prelude.{
  ℕ, zero, suc, ◌+◌, ◌*◌, ◌-◌, Bool, true, false, not, ◌&&◌, ◌||◌, List, [], ◌∷◌, Result, ok, err,
  panic, ◌>>=◌, index, set_index, replicate, length, leb, ltb, ◌==◌, bool_eq, if◌then◌else◌, ite,
  Option, some, none, get_elem?, set, ◌≡◌,
}
use rumsh.Protocol.Grid.{GridState, LocalCellData, default_cell, LocalCellData-discrete}
use rumsh.Client.Floats.{F32}

pub record TerminalFrame (F : Type 0) : Type 0 where
  pub cols : ℕ
  pub rows : ℕ
  pub cell_cache : List LocalCellData
  pub row_dirty : List Bool
  pub cursor_x : ℕ
  pub cursor_y : ℕ
  pub cursor_visible : Bool
  pub dirty : Bool
  pub reconnecting : Bool
  pub last_seq : ℕ
  pub overlay_enabled : Bool
  pub rtt_ms : ℕ
  pub packet_loss_pct : F
  pub bandwidth_kb_s : F
  pub compression_ratio : F
  pub fps : ℕ
  pub clear_requested : Bool

unfoldable pub new : (f32 : F32) → ℕ → ℕ → TerminalFrame f32.F
new f32 cols rows = record {
  cols = cols;
  rows = rows;
  cell_cache = replicate (cols * rows) default_cell;
  row_dirty = replicate rows true;
  cursor_x = 0;
  cursor_y = 0;
  cursor_visible = false;
  dirty = true;
  reconnecting = false;
  last_seq = 0;
  overlay_enabled = false;
  rtt_ms = 0;
  packet_loss_pct = f32.lit 0 1;
  bandwidth_kb_s = f32.lit 0 1;
  compression_ratio = f32.lit 1 1;
  fps = 0;
  clear_requested = false;
}

-- `grapheme_width`, of the code point that a text starts with.
abbrev pub in_range : ℕ → ℕ → ℕ → Bool
in_range lo hi v = leb lo v && leb v hi

unfoldable pub grapheme_width : Option ℕ → ℕ
grapheme_width none = 0
grapheme_width (some v) =
    if in_range 0x4e00 0x9fff v
      || in_range 0xac00 0xd7af v
      || in_range 0x3000 0x303f v
      || in_range 0x3040 0x30ff v
      || in_range 0xff00 0xffef v
      || in_range 0x1f300 0x1f9ff v
    then 2
    else 1

-- The cells of a row after the inner loop of `update_from_grid_state`, and whether one changed.
abbrev pub RowScan : Type 0
RowScan = List LocalCellData × Bool

-- The guarded comparison of one cell.
pub scan_cell : List LocalCellData → ℕ → RowScan → RowScan
scan_cell news idx (cells, changed) = elim (get_elem? cells idx) [
  | none ↦ (cells, changed)
  | some mine ↦ elim (get_elem? news idx) [
    | none ↦ (cells, changed)
    | some theirs ↦
        ite (LocalCellData-discrete mine theirs) (cells, changed) (set cells idx theirs, true)
  ]
]

pub scan_row : ℕ → List LocalCellData → ℕ → ℕ → ℕ → RowScan → RowScan
unfolding scan_cell
scan_row cols news y zero x s = s
scan_row cols news y (suc left) x s =
    scan_row cols news y left (x + 1) (scan_cell news (y * cols + x) s)

-- `dest.copy_from_slice(src)`.
abbrev pub copy_from_slice {ℓ} : {A : Type ℓ} → List A → List A → Result (List A)
copy_from_slice dest src = if length dest == length src then ok src else err panic

abbrev pub copy_list {ℓ} : {A : Type ℓ} → List A → List A → Result (List A)
copy_list dest src = if not (length dest == length src) then ok src else copy_from_slice dest src

module _ {F : Type 0} where
  -- The rows from `y` on, with `left` to go.
  pub scan_rows : List LocalCellData → ℕ → ℕ → TerminalFrame F → Result (TerminalFrame F)
  unfolding scan_row
  scan_rows news zero y f = ok f
  scan_rows news (suc left) y f = do
    let (cells, changed) = scan_row f.cols news y f.cols 0 (f.cell_cache, false)
    let unchanged = scan_rows news left (y + 1) (record f { cell_cache = cells })
    let marked = set_index f.row_dirty y true >>= λ row_dirty.
        scan_rows news left (y + 1)
          (record f { cell_cache = cells; row_dirty = row_dirty; dirty = true })
    if changed then marked else unchanged

  -- The blank frame of the new size, or the frame itself; and whether the size changed.
  pub refit : TerminalFrame F → GridState → TerminalFrame F × Bool
  refit f g =
      if not (f.cols == g.cols) || not (f.rows == g.rows)
      then (
        record f {
          cols = g.cols;
          rows = g.rows;
          cell_cache = replicate (g.cols * g.rows) default_cell;
          row_dirty = replicate g.rows true;
          clear_requested = true;
        },
        true,
      )
      else (f, false)

  pub move_cursor : TerminalFrame F → GridState → TerminalFrame F
  move_cursor f g =
      if not (f.cursor_x == g.cursor_x)
        || not (f.cursor_y == g.cursor_y)
        || not (bool_eq f.cursor_visible g.cursor_visible)
      then record f {
        cursor_x = g.cursor_x;
        cursor_y = g.cursor_y;
        cursor_visible = g.cursor_visible;
        dirty = true;
      }
      else f

  -- The new frame, and whether it was resized.
  unfoldable pub update_from_grid_state :
      TerminalFrame F → GridState → Result (TerminalFrame F × Bool)
  unfolding scan_rows refit move_cursor
  update_from_grid_state f g = do
    let (base, resized) = refit f g
    scanned ← scan_rows g.cells base.rows 0 base
    ok (move_cursor scanned g, resized)

  -- The new `dest`.
  unfoldable pub copy_to : TerminalFrame F → TerminalFrame F → Result (TerminalFrame F)
  copy_to self dest = do
    cell_cache ← copy_list dest.cell_cache self.cell_cache
    row_dirty ← copy_list dest.row_dirty self.row_dirty
    ok (record dest {
      cols = self.cols;
      rows = self.rows;
      cell_cache = cell_cache;
      row_dirty = row_dirty;
      cursor_x = self.cursor_x;
      cursor_y = self.cursor_y;
      cursor_visible = self.cursor_visible;
      dirty = self.dirty;
      reconnecting = self.reconnecting;
      last_seq = self.last_seq;
      overlay_enabled = self.overlay_enabled;
      rtt_ms = self.rtt_ms;
      packet_loss_pct = self.packet_loss_pct;
      bandwidth_kb_s = self.bandwidth_kb_s;
      compression_ratio = self.compression_ratio;
      fps = self.fps;
      clear_requested = self.clear_requested;
    })

  pub record IsValid (f : TerminalFrame F) : Type 0 where
    pub cells_size : length f.cell_cache ≡ f.cols * f.rows
    pub rows_size : length f.row_dirty ≡ f.rows
