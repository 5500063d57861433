-- ===== src/Client/Frame/Update/RowLoop.antt =====
-- The outer loop of `update_from_grid_state` of src/client/terminal.rs, over the rows.
use rumsh.Prelude.{
  ℕ, zero, suc, ◌+◌, ◌*◌, ◌≤◌, ◌<◌, ◌≡◌, ◌≢◌, refl, ap, ◌∙◌, subst, Bool, true, false, List, [],
  ◌∷◌, Result, ok, arith, some, length, get_elem?, set, length-set, get_elem?-set_self, Bool-cases,
  inl, inr, lt→ltb, lt_trichotomy,
}
use rumsh.Protocol.Grid.{LocalCellData}
use rumsh.Protocol.Grid.Agree.{Agrees, Agrees-all}
use rumsh.Client.Frame.{TerminalFrame, scan_row, scan_rows}
use rumsh.Client.Frame.Update.RowScans.{scan_row-Scanned}

-- A mark is never taken off.
still_marked :
    (row_dirty : List Bool) (y y' : ℕ)
    → get_elem? row_dirty y' ≡ some true
    → get_elem? (set row_dirty y true) y' ≡ some true
still_marked [] y y' k = k
still_marked (d ∷ ds) zero zero k = refl
still_marked (d ∷ ds) zero (suc y') k = k
still_marked (d ∷ ds) (suc y) zero k = k
still_marked (d ∷ ds) (suc y) (suc y') k = still_marked ds y y' k

module _ {F : Type 0} (f : TerminalFrame F) (news : List LocalCellData)
    (size : length news ≡ f.cols * f.rows) (base_size : length f.cell_cache ≡ f.cols * f.rows) where
  abbrev pub marked_frame : List LocalCellData → List Bool → Bool → TerminalFrame F
  marked_frame cells row_dirty dirty = record f {
    cell_cache = cells;
    row_dirty = row_dirty;
    dirty = dirty;
  }

  -- The frame after the rows from `first` on: the new cells, and a mark on each row that differs.
  pub record RowsScanned (first : ℕ) (row_dirty : List Bool) (dirty : Bool)
      (r : Result (TerminalFrame F)) : Type 0 where
    pub marks : List Bool
    pub flag : Bool
    pub made : r ≡ ok (marked_frame news marks flag)
    pub marks_size : length marks ≡ f.rows
    pub marked :
        (y x : ℕ)
        → first ≤ y
        → y < f.rows
        → x < f.cols
        → get_elem? news (y * f.cols + x) ≢ get_elem? f.cell_cache (y * f.cols + x)
        → (get_elem? marks y ≡ some true) × (flag ≡ true)
    pub kept : (y : ℕ) → get_elem? row_dirty y ≡ some true → get_elem? marks y ≡ some true
    pub kept_dirty : dirty ≡ true → flag ≡ true

  scan_rows_quiet :
      (left y : ℕ) (cells cells' : List LocalCellData) (row_dirty : List Bool) (dirty : Bool)
      → scan_row f.cols news y f.cols 0 (cells, false) ≡ (cells', false)
      → scan_rows news (suc left) y (marked_frame cells row_dirty dirty)
        ≡ scan_rows news left (y + 1) (marked_frame cells' row_dirty dirty)
  unfolding scan_rows
  scan_rows_quiet left y cells cells' row_dirty dirty e = rw e

  scan_rows_loud :
      (left y : ℕ) (cells cells' : List LocalCellData) (row_dirty : List Bool) (dirty : Bool)
      → y < length row_dirty
      → scan_row f.cols news y f.cols 0 (cells, false) ≡ (cells', true)
      → scan_rows news (suc left) y (marked_frame cells row_dirty dirty)
        ≡ scan_rows news left (y + 1) (marked_frame cells' (set row_dirty y true) true)
  unfolding scan_rows
  scan_rows_loud left y cells cells' row_dirty dirty h e = rw (e, lt→ltb y (length row_dirty) h)

  pub scan_rows-RowsScanned :
      (left y : ℕ) (cells : List LocalCellData) (row_dirty : List Bool) (dirty : Bool)
      → y + left ≡ f.rows
      → length row_dirty ≡ f.rows
      → Agrees news f.cell_cache (y * f.cols) cells
      → RowsScanned y row_dirty dirty (scan_rows news left y (marked_frame cells row_dirty dirty))
  scan_rows-RowsScanned zero y cells row_dirty dirty hy hd a = record {
    marks = row_dirty;
    flag = dirty;
    made =
        unfold scan_rows in
        ap (λ cs. ok (marked_frame cs row_dirty dirty))
          (Agrees-all news f.cell_cache {p = y * f.cols} {xs = cells}
            (rw (size, ← hy) (omega arith)) a);
    marks_size = hd;
    marked = λ y' x lo hi hx ne. absurd (omega arith);
    kept = λ y' k. k;
    kept_dirty = λ k. k;
  }
  scan_rows-RowsScanned (suc left) y cells row_dirty dirty hy hd a =
      let lt : y < f.rows = omega arith in
      let s = scan_row f.cols news y f.cols 0 (cells, false) in
      let row =
        scan_row-Scanned news f.cell_cache f.cols f.rows size base_size y f.cols 0 cells false lt
          (omega arith) (subst (λ p. Agrees news f.cell_cache p cells) (omega arith) a) in
      let shifted =
        subst (λ p. Agrees news f.cell_cache p s.0) {y = (y + 1) * f.cols} (omega arith)
          row.agrees in
      elim (Bool-cases s.1) [
        | inr quiet ↦
            let rest =
              scan_rows-RowsScanned left (y + 1) s.0 row_dirty dirty (omega arith) hd shifted in
            record {
              marks = rest.marks;
              flag = rest.flag;
              made =
                  scan_rows_quiet left y cells s.0 row_dirty dirty (λ i. (s.0, quiet i))
                  ∙ rest.made;
              marks_size = rest.marks_size;
              marked = λ y' x lo hi hx ne. elim (lt_trichotomy y y') [
                | inl later ↦ rest.marked y' x (omega arith) hi hx ne
                | inr (inl here) ↦
                    absurd (ne (rw (← here) ((row.quiet quiet).1 x (omega arith) hx)))
                | inr (inr gt) ↦ absurd (omega arith)
              ];
              kept = rest.kept;
              kept_dirty = rest.kept_dirty;
            }
        | inl loud ↦
            let marks = set row_dirty y true in
            let here_marked : get_elem? marks y ≡ some true =
              get_elem?-set_self row_dirty y true (omega (arith, hd)) in
            let rest =
              scan_rows-RowsScanned left (y + 1) s.0 marks true (omega arith)
                (length-set row_dirty y true ∙ hd) shifted in
            record {
              marks = rest.marks;
              flag = rest.flag;
              made =
                  scan_rows_loud left y cells s.0 row_dirty dirty (omega (arith, hd))
                    (λ i. (s.0, loud i))
                  ∙ rest.made;
              marks_size = rest.marks_size;
              marked = λ y' x lo hi hx ne. elim (lt_trichotomy y y') [
                | inl later ↦ rest.marked y' x (omega arith) hi hx ne
                | inr (inl here) ↦ rw (← here) (rest.kept y here_marked, rest.kept_dirty refl)
                | inr (inr gt) ↦ absurd (omega arith)
              ];
              kept = λ y' k. rest.kept y' (still_marked row_dirty y y' k);
              kept_dirty = λ k. rest.kept_dirty refl;
            }
      ]
