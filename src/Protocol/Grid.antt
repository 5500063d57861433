-- ===== src/Protocol/Grid.antt =====
-- src/protocol/grid.rs: the screen as a grid of cells, the difference of two grids as a frame, and
-- the application of a frame. `u16` arithmetic of `diff_from` wraps at 2^16, as in a release build.
pub mod Agree
pub mod Roundtrip
pub mod Overflow
pub mod Errors
use rumsh.Prelude.{
  ℕ, zero, suc, ◌+◌, ◌*◌, ◌%◌, ◌^◌, ◌≡◌, Bool, true, false, not, ◌&&◌, ◌||◌, Option, none, some,
  List, [], ◌∷◌, Result, ok, err, bail, panic, ◌>>=◌, index, set_index, replicate, is_empty, leb,
  ◌==◌, bool_eq, if◌then◌else◌, ite, ℕ_discrete,
}
use rumsh.Protocol.Grapheme
use rumsh.Protocol.Grapheme.{CompactGrapheme}

-- 1 << 0, 1 << 1, 1 << 2, 1 << 3.
abbrev pub style_bold : ℕ
style_bold = 1

abbrev pub style_italic : ℕ
style_italic = 2

abbrev pub style_underline : ℕ
style_underline = 4

abbrev pub style_inverse : ℕ
style_inverse = 8

pub record RgbColorUpdate : Type 0 where
  pub r : ℕ
  pub g : ℕ
  pub b : ℕ

pub record LocalCellData : Type 0 where
  pub graphemes : CompactGrapheme
  pub fg : Option RgbColorUpdate
  pub bg : Option RgbColorUpdate
  pub style_flags : ℕ

pub record CellUpdate : Type 0 where
  pub x : ℕ
  pub cell : LocalCellData

pub record RowUpdate : Type 0 where
  pub y : ℕ
  pub cells : List CellUpdate
  pub is_wrapped : Bool

pub record FrameUpdate : Type 0 where
  pub ref_seq : ℕ
  pub cols : ℕ
  pub rows : ℕ
  pub cursor_x : ℕ
  pub cursor_y : ℕ
  pub cursor_visible : Bool
  pub row_updates : List RowUpdate
  pub is_echo_enabled : Bool

pub record GridState : Type 0 where
  pub cols : ℕ
  pub rows : ℕ
  pub cursor_x : ℕ
  pub cursor_y : ℕ
  pub cursor_visible : Bool
  pub cells : List LocalCellData
  pub row_wrapped : List Bool

-- The derived `PartialEq`.
unfoldable pub LocalCellData-discrete : Discrete LocalCellData
unfolding ℕ_discrete
LocalCellData-discrete = hlevel ℕ_discrete

-- A cell with one ASCII character or a space, in the default style.
abbrev pub plain_cell : ℕ → LocalCellData
plain_cell b = record { graphemes = Grapheme.new (b ∷ []); fg = none; bg = none; style_flags = 0 }

abbrev pub default_cell : LocalCellData
default_cell = plain_cell b' '

abbrev pub u16_mod : ℕ
u16_mod = 65536

-- `y * cols + x` in `u16`.
abbrev pub cell_index_u16 : ℕ → ℕ → ℕ → ℕ
cell_index_u16 cols y x = (y * cols % u16_mod + x) % u16_mod

-- `match ref_state { Some(r) if r.cols == cols && r.rows == rows => Some(r), _ => None }`.
pub use_ref : ℕ → ℕ → Option GridState → Option GridState
use_ref cols rows none = none
use_ref cols rows (some r) = if r.cols == cols && r.rows == rows then some r else none

pub from_cell : Option GridState → ℕ → Result LocalCellData
from_cell none idx = ok default_cell
from_cell (some r) idx = index r.cells idx

pub wrapping_changed : Option GridState → Bool → ℕ → Result Bool
wrapping_changed none w y = ok w
wrapping_changed (some r) w y = do was ← index r.row_wrapped y; ok (not (bool_eq w was))

module _ (self : GridState) (ref : Option GridState) where
  -- The inner loop, at column `x` with `left` columns to go.
  pub diff_cells : ℕ → ℕ → ℕ → Result (List CellUpdate)
  unfolding from_cell
  diff_cells y zero x = ok []
  diff_cells y (suc left) x = do
    let idx = cell_index_u16 self.cols y x
    to ← index self.cells idx
    from ← from_cell ref idx
    rest ← diff_cells y left (x + 1)
    ok (ite (LocalCellData-discrete to from) rest (record { x = x; cell = to } ∷ rest))

  -- The outer loop, at row `y` with `left` rows to go.
  pub diff_rows : ℕ → ℕ → Result (List RowUpdate)
  unfolding diff_cells wrapping_changed
  diff_rows zero y = ok []
  diff_rows (suc left) y = do
    cells ← diff_cells y self.cols 0
    w ← index self.row_wrapped y
    changed ← wrapping_changed ref w y
    rest ← diff_rows left (y + 1)
    ok (
        if not (is_empty cells) || changed
        then record { y = y; cells = cells; is_wrapped = w } ∷ rest
        else rest)

unfoldable pub diff_from : GridState → Option GridState → ℕ → Bool → Result FrameUpdate
unfolding diff_rows use_ref
diff_from self ref_state ref_seq is_echo_enabled = do
  row_updates ← diff_rows self (use_ref self.cols self.rows ref_state) self.rows 0
  ok (record {
    ref_seq = ref_seq;
    cols = self.cols;
    rows = self.rows;
    cursor_x = self.cursor_x;
    cursor_y = self.cursor_y;
    cursor_visible = self.cursor_visible;
    row_updates = row_updates;
    is_echo_enabled = is_echo_enabled;
  })

-- The cells and the wrap flags that `patch` writes.
abbrev pub Screen : Type 0
Screen = List LocalCellData × List Bool

pub patch_cells : ℕ → ℕ → List CellUpdate → List LocalCellData → Result (List LocalCellData)
patch_cells cols y [] cells = ok cells
patch_cells cols y (u ∷ us) cells = do
  let rest = λ (cs : List LocalCellData). patch_cells cols y us cs
  if leb cols u.x then err bail else (set_index cells (y * cols + u.x) u.cell >>= rest)

pub patch_rows : ℕ → ℕ → List RowUpdate → Screen → Result Screen
unfolding patch_cells
patch_rows cols rows [] s = ok s
patch_rows cols rows (r ∷ rs) (cells, wrapped) = if leb rows r.y then err bail else do
  wrapped' ← set_index wrapped r.y r.is_wrapped
  cells' ← patch_cells cols r.y r.cells cells
  patch_rows cols rows rs (cells', wrapped')

-- The screen that `patch` starts from: this one, or a blank one of the frame's size.
pub patch_base : GridState → ℕ → ℕ → Screen
patch_base g cols rows =
    if not (g.cols == cols) || not (g.rows == rows)
    then (replicate (cols * rows) default_cell, replicate rows false)
    else (g.cells, g.row_wrapped)

-- On an error the caller drops the grid, which is then partly patched; the model drops it too.
unfoldable pub patch : GridState → FrameUpdate → Result GridState
unfolding patch_rows patch_base
patch self diff = do
  (cells, wrapped) ←
      patch_rows diff.cols diff.rows diff.row_updates (patch_base self diff.cols diff.rows)
  ok (record {
    cols = diff.cols;
    rows = diff.rows;
    cursor_x = diff.cursor_x;
    cursor_y = diff.cursor_y;
    cursor_visible = diff.cursor_visible;
    cells = cells;
    row_wrapped = wrapped;
  })

unfoldable pub apply_diff : GridState → FrameUpdate → Result GridState
unfolding patch
apply_diff self diff = patch self diff

-- The grid that a peer starts from when it has no reference.
unfoldable pub blank : ℕ → ℕ → GridState
blank cols rows = record {
  cols = cols;
  rows = rows;
  cursor_x = 0;
  cursor_y = 0;
  cursor_visible = false;
  cells = replicate (cols * rows) default_cell;
  row_wrapped = replicate rows false;
}
