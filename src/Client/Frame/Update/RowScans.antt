-- ===== src/Client/Frame/Update/RowScans.antt =====
-- The inner loop of `update_from_grid_state`, over one row.
use rumsh.Prelude.{
  ℕ, zero, suc, ◌+◌, ◌*◌, ◌≤◌, ◌<◌, ◌≡◌, sym, ap, ◌∙◌, subst, Bool, true, false, List, arith, some,
  length, get_elem?, set, get_elem?-some, inl, inr, if_pos, if_neg, lt_trichotomy,
}
use rumsh.Protocol.Grid.{LocalCellData, LocalCellData-discrete}
use rumsh.Protocol.Grid.Agree.{Agrees, Agrees-keep, Agrees-set}
use rumsh.Client.Frame.{RowScan, scan_cell, scan_row}

module _ (news cells : List LocalCellData) (i : ℕ) (changed : Bool) (mine theirs : LocalCellData)
    (m : get_elem? cells i ≡ some mine) (e : get_elem? news i ≡ some theirs) where
  scan_cell_same : mine ≡ theirs → scan_cell news i (cells, changed) ≡ (cells, changed)
  unfolding scan_cell
  scan_cell_same same = rw (m, scan_cell) (rw e (rw (if_pos _ same)))

  scan_cell_differs :
      ¬ (mine ≡ theirs) → scan_cell news i (cells, changed) ≡ (set cells i theirs, true)
  unfolding scan_cell
  scan_cell_differs differs = rw (m, scan_cell) (rw e (rw (if_neg _ differs)))

module _ (news base : List LocalCellData) (cols rows : ℕ) (size : length news ≡ cols * rows)
    (base_size : length base ≡ cols * rows) where
  row_position : (y x : ℕ) → y < rows → x < cols → y * cols + x < cols * rows
  row_position y x hy hx = grind arith

  -- A row without a change between columns `x` and the end.
  abbrev pub Unchanged : ℕ → ℕ → Type 0
  Unchanged y x =
      (x' : ℕ)
      → x ≤ x'
      → x' < cols
      → get_elem? news (y * cols + x') ≡ get_elem? base (y * cols + x')

  pub record Scanned (y x : ℕ) (before : Bool) (s : RowScan) : Type 0 where
    pub agrees : Agrees news base (y * cols + cols) s.0
    pub quiet : s.1 ≡ false → (before ≡ false) × Unchanged y x

  scan_cell-Agrees :
      (y x : ℕ) (cells : List LocalCellData) (changed : Bool)
      → y < rows
      → x < cols
      → Agrees news base (y * cols + x) cells
      → let s = scan_cell news (y * cols + x) (cells, changed) in
        Agrees news base (y * cols + x + 1) s.0
        × (s.1 ≡ false
            → (changed ≡ false) × (get_elem? news (y * cols + x) ≡ get_elem? base (y * cols + x)))
  scan_cell-Agrees y x cells changed hy hx a =
      let i = y * cols + x in
      let lt = row_position y x hy hx in
      let (theirs, e) = get_elem?-some news i (omega (arith, size)) in
      let (mine, m) = get_elem?-some cells i (omega (arith, size, a.size)) in
      let old : get_elem? base i ≡ some mine = sym (a.at i ∙ ground arith) ∙ m in
      elim (LocalCellData-discrete mine theirs) [
        | yes same ↦
            let eq = e ∙ ap some (sym same) ∙ sym old in
            rw (scan_cell_same news cells i changed mine theirs m e same)
              (Agrees-keep news base {p = i} {xs = cells} eq a, λ c. (c, eq))
        | no differs ↦
            rw (scan_cell_differs news cells i changed mine theirs m e differs)
              (Agrees-set news base {p = i} {xs = cells} theirs e (omega (arith, size)) a, λ c. cc)
      ]

  pub scan_row-Scanned :
      (y left x : ℕ) (cells : List LocalCellData) (changed : Bool)
      → y < rows
      → x + left ≡ cols
      → Agrees news base (y * cols + x) cells
      → Scanned y x changed (scan_row cols news y left x (cells, changed))
  unfolding scan_row
  scan_row-Scanned y zero x cells changed hy hx a = record {
    agrees = subst (λ p. Agrees news base p cells) (omega arith) a;
    quiet = λ c. (c, λ x' lo hi. absurd (omega arith));
  }
  scan_row-Scanned y (suc left) x cells changed hy hx a =
      let (one, quiet_one) = scan_cell-Agrees y x cells changed hy (omega arith) a in
      let s = scan_cell news (y * cols + x) (cells, changed) in
      let rest =
        scan_row-Scanned y left (x + 1) s.0 s.1 hy (omega arith)
          (subst (λ p. Agrees news base p s.0) (omega arith) one) in
      record {
        agrees = rest.agrees;
        quiet = λ c.
            let (c1, later) = rest.quiet c in
            let (c0, now) = quiet_one c1 in
            (
              c0,
              λ x' lo hi. elim (lt_trichotomy x x') [
                | inl lt ↦ later x' (omega arith) hi
                | inr (inl here) ↦ rw (← here) now
                | inr (inr gt) ↦ absurd (omega arith)
              ],
            );
      }
