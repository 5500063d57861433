-- ===== src/Client/Paint/Row.antt =====
-- The loop over the cells of a row in `paint` of src/client/terminal.rs, obeyed by a terminal.
use rumsh.Prelude.{
  ℕ, zero, suc, ◌+◌, ◌*◌, ◌%◌, ◌<◌, Bool, true, false, not, ◌&&◌, List, [], ◌++◌, Option, none,
  some, Result, ok, ◌>>=◌, get_elem?, length, leb, ltb, ◌==◌, if◌then◌else◌, ◌≡◌, refl, ◌∙◌, sym,
  ap, arith, inl, inr, Bool-cases, get_elem?-some, lt→ltb,
}
use native.Mathlib.Nat.{mod-eq_of_lt}
use rumsh.Protocol.Grid.{LocalCellData, u16_mod}
use rumsh.Client.Frame.{TerminalFrame, IsValid}
use rumsh.Client.Paint.{Style, Painted, style_of, cell_width, is_corner, paint_cell, paint_row}
use rumsh.Client.Paint.Screen.{
  Look, Shown, Screen, plain, put, obey_all, obey_all-append, shown_cell, PenIs, IsNarrow,
  after_cell, paint_cell-obeyed,
}

module _ {F : Type 0} where
  -- What the frame has at column `px` of row `py`.
  abbrev pub frame_cell : TerminalFrame F → ℕ → ℕ → Shown
  frame_cell f px py = elim (get_elem? f.cell_cache (py * f.cols + px)) [
    | none ↦ ([], plain)
    | some cell ↦ shown_cell cell
  ]

  -- The row `y` from column `x` on is the frame's, but for the corner.
  abbrev pub row_after : TerminalFrame F → ℕ → ℕ → (ℕ → ℕ → Shown) → ℕ → ℕ → Shown
  row_after f y x cells px py =
      if py == y && leb x px && ltb px f.cols && not (is_corner f px py)
      then frame_cell f px py
      else cells px py

  row_after-put_here :
      (f : TerminalFrame F) (y x : ℕ) (cells : ℕ → ℕ → Shown)
      → x < f.cols
      → is_corner f x y ≡ false
      → row_after f y (x + 1) (put x y (frame_cell f x y) cells) x y ≡ row_after f y x cells x y
  row_after-put_here f y x cells h inner = ground arith

  -- The cell at `x` and then those behind it are the cells from `x` on.
  row_after-put :
      (f : TerminalFrame F) (y x : ℕ) (cells : ℕ → ℕ → Shown)
      → x < f.cols
      → is_corner f x y ≡ false
      → (px py : ℕ)
      → row_after f y (x + 1) (put x y (frame_cell f x y) cells) px py ≡ row_after f y x cells px py
  row_after-put f y x cells h inner px py = elim (Bool-cases (px == x && py == y)) [
    | inl here ↦
        let ex : px ≡ x = ground arith in
        let ey : py ≡ y = ground arith in rw (ex, ey) (row_after-put_here f y x cells h inner)
    | inr elsewhere ↦ ground arith
  ]

  row_after-corner :
      (f : TerminalFrame F) (y x : ℕ) (cells : ℕ → ℕ → Shown)
      → is_corner f x y ≡ true
      → (px py : ℕ) → row_after f y (x + 1) cells px py ≡ row_after f y x cells px py
  row_after-corner f y x cells corner px py = ground arith

module _ (erase : Look → Shown) (columns : List ℕ → ℕ) {F : Type 0} where
  -- Every cell of the frame fills one column.
  abbrev pub AllNarrow : TerminalFrame F → Type 0
  AllNarrow f =
      (i : ℕ) (cell : LocalCellData) → get_elem? f.cell_cache i ≡ some cell → IsNarrow columns cell

  pub record RowShown (f : TerminalFrame F) (y x : ℕ) (s : Screen) (m : Result Painted)
      : Type 0 where
    pub painted : Painted
    pub returns : m ≡ ok painted
    pub pen : PenIs painted.1 (obey_all erase columns painted.0 s).pen
    pub cells :
        (px py : ℕ)
        → (obey_all erase columns painted.0 s).cells px py ≡ row_after f y x s.cells px py

  module _ (f : TerminalFrame F) (y : ℕ) (valid : IsValid f) (small : f.cols < u16_mod)
      (narrow : AllNarrow f) (inside : y < f.rows) where
    -- The cursor is where the next cell goes, once it has been moved.
    abbrev CursorAt : Bool → ℕ → Screen → Type 0
    CursorAt moved x s = moved ≡ true → x < f.cols → (s.cursor_x ≡ x) × (s.cursor_y ≡ y)

    position-lt : (x : ℕ) → x < f.cols → y * f.cols + x < length f.cell_cache
    position-lt x h = let size = valid.cells_size in grind arith

    module _ (x : ℕ) (h : x < f.cols) (cell : LocalCellData)
        (found : get_elem? f.cell_cache (y * f.cols + x) ≡ some cell) where
      next_column : (x + cell_width cell) % u16_mod ≡ x + 1
      next_column = let fills = (narrow _ cell found).width in rw fills (mod-eq_of_lt (omega arith))

      paint_row_corner :
          (fuel : ℕ) (moved : Bool) (active : Option Style)
          → is_corner f x y ≡ true
          → paint_row (suc fuel) f y x moved active ≡ paint_row fuel f y (x + 1) moved active
      unfolding paint_row
      paint_row_corner fuel moved active corner =
          rw (lt→ltb x f.cols h, found, next_column, corner) refl

      paint_row_inner :
          (fuel : ℕ) (moved : Bool) (active : Option Style)
          → is_corner f x y ≡ false
          → paint_row (suc fuel) f y x moved active ≡ (
              paint_row fuel f y (x + 1) true (some (style_of cell)) >>= λ r.
              ok (paint_cell x y moved active cell ++ r.0, r.1))
      unfolding paint_row
      paint_row_inner fuel moved active inner =
          rw (lt→ltb x f.cols h, found, next_column, inner) refl

      corner-RowShown :
          (fuel : ℕ) (moved : Bool) (active : Option Style) (s : Screen)
          → is_corner f x y ≡ true
          → RowShown f y (x + 1) s (paint_row fuel f y (x + 1) moved active)
          → RowShown f y x s (paint_row (suc fuel) f y x moved active)
      corner-RowShown fuel moved active s corner rest = record {
        painted = rest.painted;
        returns = paint_row_corner fuel moved active corner ∙ rest.returns;
        pen = rest.pen;
        cells = λ px py. rest.cells px py ∙ row_after-corner f y x s.cells corner px py;
      }

      inner-RowShown :
          (fuel : ℕ) (moved : Bool) (active : Option Style) (s : Screen)
          → is_corner f x y ≡ false
          → PenIs active s.pen
          → CursorAt moved x s
          → RowShown f y
              (x + 1)
              (after_cell x y cell s)
              (paint_row fuel f y (x + 1) true (some (style_of cell)))
          → RowShown f y x s (paint_row (suc fuel) f y x moved active)
      inner-RowShown fuel moved active s inner pen there rest =
          let cs = paint_cell x y moved active cell in
          let here : frame_cell f x y ≡ shown_cell cell = rw (found, frame_cell) refl in
          let obeyed : obey_all erase columns (cs ++ rest.painted.0) s
              ≡ obey_all erase columns rest.painted.0 (after_cell x y cell s) =
            obey_all-append erase columns cs rest.painted.0 s
            ∙ ap (obey_all erase columns rest.painted.0) (
                paint_cell-obeyed erase columns x y moved active cell s pen (narrow _ cell found)
                  (λ m. there m h)) in
          record {
            painted = (cs ++ rest.painted.0, rest.painted.1);
            returns =
                paint_row_inner fuel moved active inner
                ∙ ap (λ m. m >>= λ r. ok (cs ++ r.0, r.1)) rest.returns;
            pen = rw obeyed rest.pen;
            cells = λ px py.
                ap (λ (t : Screen). t.cells px py) obeyed
                ∙ rest.cells px py
                ∙ ap (λ c. row_after f y (x + 1) (put x y c s.cells) px py) (sym here)
                ∙ row_after-put f y x s.cells h inner px py;
          }

    pub paint_row-RowShown :
        (fuel x : ℕ) (moved : Bool) (active : Option Style) (s : Screen)
        → x + fuel ≡ f.cols
        → PenIs active s.pen
        → CursorAt moved x s
        → RowShown f y x s (paint_row fuel f y x moved active)
    unfolding paint_row obey_all
    paint_row-RowShown zero x moved active s end pen there = record {
      painted = ([], active);
      returns = refl;
      pen = pen;
      cells = λ px py. ground arith;
    }
    paint_row-RowShown (suc fuel) x moved active s end pen there =
        let h : x < f.cols = omega arith in
        let (cell, found) = get_elem?-some f.cell_cache (y * f.cols + x) (position-lt x h) in
        elim (Bool-cases (is_corner f x y)) [
          | inl corner ↦ corner-RowShown x h cell found fuel moved active s corner (
              paint_row-RowShown fuel (x + 1) moved active s (omega arith) pen
                (λ m lt. absurd (ground arith)))
          | inr inner ↦ inner-RowShown x h cell found fuel moved active s inner pen there (
              paint_row-RowShown fuel (x + 1) true (some (style_of cell)) (after_cell x y cell s)
                (omega arith) refl (λ m lt. (refl, refl)))
        ]
