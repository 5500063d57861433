-- ===== src/Protocol/Grid/Roundtrip/Cells.antt =====
-- The inner loops of `diff_from` and `patch`, over one row.
use native.Mathlib.Nat.{mod-eq_of_lt}
use rumsh.Prelude.{
  ℕ, zero, suc, ◌+◌, ◌*◌, ◌%◌, ◌≤◌, ◌<◌, ◌≡◌, refl, List, [], ◌∷◌, some, Option, ltb, length,
  get_elem?, set, get_elem?-some, arith, ◌∙◌, sym, lt→ltb, ok, ap, true, false, leb, if_pos, if_neg,
  subst,
}
use rumsh.Protocol.Grid.{
  GridState, LocalCellData, CellUpdate, LocalCellData-discrete, Screen, cell_index_u16, u16_mod,
  from_cell, diff_cells, patch_cells,
}
use rumsh.Protocol.Grid.Agree.{Agrees, Agrees-keep, Agrees-set}
use rumsh.Protocol.Grid.Roundtrip.Bases.{IsValid, Refers}

module _ (new : GridState) (ref : Option GridState) (base : Screen) (valid : IsValid new)
    (small : new.cols * new.rows ≤ u16_mod) (refers : Refers new ref base) where
  open new use {cols, rows, cells as new_cells, row_wrapped as new_wrapped}

  position-lt : (y x : ℕ) → y < rows → x < cols → y * cols + x < cols * rows
  position-lt y x hy hx = grind arith

  cell_index_lem : (y x : ℕ) → y < rows → x < cols → cell_index_u16 cols y x ≡ y * cols + x
  cell_index_lem y x hy hx =
      let lt = position-lt y x hy hx in
      let first : y * cols % u16_mod ≡ y * cols = mod-eq_of_lt (omega arith) in
      rw first (mod-eq_of_lt (omega arith))

  -- The updates of a stretch of a row, and what they make of a screen that agrees so far.
  pub record RowDone (y left x : ℕ) (cells : List LocalCellData) : Type 0 where
    pub updates : List CellUpdate
    pub after : List LocalCellData
    pub made : diff_cells new ref y left x ≡ ok updates
    pub patched : patch_cells cols y updates cells ≡ ok after
    pub agrees : Agrees new_cells base.0 (y * cols + cols) after

  -- The two cells that the inner loop compares.
  record Compared (y x : ℕ) : Type 0 where
    to : LocalCellData
    from : LocalCellData
    new_at : get_elem? new_cells (y * cols + x) ≡ some to
    base_at : get_elem? base.0 (y * cols + x) ≡ some from
    from_at : from_cell ref (y * cols + x) ≡ ok from

  compared : (y x : ℕ) → y < rows → x < cols → Compared y x
  compared y x hy hx =
      let lt = position-lt y x hy hx in
      let (to, e) = get_elem?-some new_cells (y * cols + x) (omega (arith, valid.cells_size)) in
      let (from, f) = get_elem?-some base.0 (y * cols + x) (omega (arith, refers.cells_size)) in
      record {
        to = to;
        from = from;
        new_at = e;
        base_at = f;
        from_at = refers.cell (y * cols + x) lt ∙ rw f;
      }

  -- One round of the inner loop, once the rest of it is known.
  module _ (y left x : ℕ) (to from : LocalCellData) (us : List CellUpdate)
      (idx : cell_index_u16 cols y x ≡ y * cols + x)
      (new_at : get_elem? new_cells (y * cols + x) ≡ some to)
      (from_at : from_cell ref (y * cols + x) ≡ ok from)
      (rest : diff_cells new ref y left (x + 1) ≡ ok us) where
    diff_cells_same : to ≡ from → diff_cells new ref y (suc left) x ≡ ok us
    unfolding diff_cells
    diff_cells_same same = rw (idx, new_at, from_at, rest) (rw (if_pos _ same))

    diff_cells_differs :
        ¬ (to ≡ from) → diff_cells new ref y (suc left) x ≡ ok (record { x = x; cell = to } ∷ us)
    unfolding diff_cells
    diff_cells_differs differs = rw (idx, new_at, from_at, rest) (rw (if_neg _ differs))

  pub diff_cells-patch :
      (y left x : ℕ) (cells : List LocalCellData)
      → y < rows
      → x + left ≡ cols
      → Agrees new_cells base.0 (y * cols + x) cells
      → RowDone y left x cells
  unfolding diff_cells patch_cells
  diff_cells-patch y zero x cells hy hx a = record {
    updates = [];
    after = cells;
    made = refl;
    patched = refl;
    agrees = subst (λ p. Agrees new_cells base.0 p cells) (omega arith) a;
  }
  diff_cells-patch y (suc left) x cells hy hx a =
      let c = compared y x hy (omega arith) in
      let lt = position-lt y x hy (omega arith) in
      let shift : y * cols + x + 1 ≡ y * cols + (x + 1) = omega arith in
      let idx = cell_index_lem y x hy (omega arith) in
      elim (LocalCellData-discrete c.to c.from) [
        | yes same ↦
            let kept =
              Agrees-keep new_cells base.0 {p = y * cols + x} {xs = cells}
                (c.new_at ∙ ap some same ∙ sym c.base_at) a in
            let rest =
              diff_cells-patch y left (x + 1) cells hy (omega arith)
                (subst (λ p. Agrees new_cells base.0 p cells) shift kept) in
            record {
              updates = rest.updates;
              after = rest.after;
              made =
                  diff_cells_same y left x c.to c.from rest.updates idx c.new_at c.from_at rest.made
                    same;
              patched = rest.patched;
              agrees = rest.agrees;
            }
        | no differs ↦
            let written =
              Agrees-set new_cells base.0 {p = y * cols + x} {xs = cells} c.to c.new_at
                (omega (arith, valid.cells_size)) a in
            let rest =
              diff_cells-patch y left (x + 1) (set cells (y * cols + x) c.to) hy (omega arith) (
                subst (λ p. Agrees new_cells base.0 p (set cells (y * cols + x) c.to)) shift
                  written) in
            let inside : ltb (y * cols + x) (length cells) ≡ true =
              lt→ltb _ _ (omega (arith, valid.cells_size, a.size)) in
            let column : leb cols x ≡ false = ground arith in
            record {
              updates = record { x = x; cell = c.to } ∷ rest.updates;
              after = rest.after;
              made =
                  diff_cells_differs y left x c.to c.from rest.updates idx c.new_at c.from_at
                    rest.made differs;
              patched = rw (column, inside) rest.patched;
              agrees = rest.agrees;
            }
      ]
