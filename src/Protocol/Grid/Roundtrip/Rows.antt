-- ===== src/Protocol/Grid/Roundtrip/Rows.antt =====
-- The outer loops of `diff_from` and `patch`, over the rows.
use rumsh.Prelude.{
  ℕ, zero, suc, ◌+◌, ◌*◌, ◌≤◌, ◌<◌, ◌≡◌, refl, List, [], ◌∷◌, some, Option, if◌then◌else◌, length,
  get_elem?, set, get_elem?-some, inl, inr, arith, ◌∙◌, sym, lt→ltb, ok, panic, ◌>>=◌, ap, Bool,
  true, false, not, bool_eq, bool_eq→≡, Bool-cases, leb, is_empty, subst, ◌||◌, or_fail,
}
use rumsh.Protocol.Grid.{
  GridState, LocalCellData, CellUpdate, RowUpdate, Screen, u16_mod, wrapping_changed, diff_cells,
  diff_rows, patch_cells, patch_rows,
}
use rumsh.Protocol.Grid.Agree.{Agrees, Agrees-keep, Agrees-set}
use rumsh.Protocol.Grid.Roundtrip.Bases.{IsValid, Refers}
use rumsh.Protocol.Grid.Roundtrip.Cells.{diff_cells-patch}

module _ (new : GridState) (ref : Option GridState) (base : Screen) (valid : IsValid new)
    (small : new.cols * new.rows ≤ u16_mod) (refers : Refers new ref base) where
  open new use {cols, rows, cells as new_cells, row_wrapped as new_wrapped}

  pub record RowsDone (left y : ℕ) (s : Screen) : Type 0 where
    pub updates : List RowUpdate
    pub after : Screen
    pub made : diff_rows new ref left y ≡ ok updates
    pub patched : patch_rows cols rows updates s ≡ ok after
    pub cells_agree : Agrees new_cells base.0 (rows * cols) after.0
    pub wrapped_agree : Agrees new_wrapped base.1 rows after.1

  -- One round of the outer loop, once the rest of it is known.
  diff_rows-suc :
      (left y : ℕ) (us : List CellUpdate) (w changed : Bool) (rs : List RowUpdate)
      → diff_cells new ref y cols 0 ≡ ok us
      → get_elem? new_wrapped y ≡ some w
      → wrapping_changed ref w y ≡ ok changed
      → diff_rows new ref left (y + 1) ≡ ok rs
      → diff_rows new ref (suc left) y
        ≡ ok (
            if not (is_empty us) || changed
            then record { y = y; cells = us; is_wrapped = w } ∷ rs
            else rs)
  unfolding diff_rows
  diff_rows-suc left y us w changed rs d e c r = rw (d, e, c, r)

  patch_rows-cons :
      (y : ℕ) (us : List CellUpdate) (w : Bool) (rs : List RowUpdate)
      (cells cells' : List LocalCellData) (wrapped : List Bool)
      → y < rows
      → y < length wrapped
      → patch_cells cols y us cells ≡ ok cells'
      → patch_rows cols rows (record { y = y; cells = us; is_wrapped = w } ∷ rs) (cells, wrapped)
        ≡ patch_rows cols rows rs (cells', set wrapped y w)
  unfolding patch_rows
  patch_rows-cons y us w rs cells cells' wrapped hy hw e =
      let row : leb rows y ≡ false = ground arith in rw (row, lt→ltb y (length wrapped) hw, e)

  no_updates :
      (y : ℕ) (us : List CellUpdate) (cells after : List LocalCellData)
      → is_empty us ≡ true
      → patch_cells cols y us cells ≡ ok after
      → after ≡ cells
  unfolding patch_cells
  no_updates y [] cells after e p = cc
  no_updates y (u ∷ us) cells after e p = cc

  pub diff_rows-patch :
      (left y : ℕ) (cells : List LocalCellData) (wrapped : List Bool)
      → y + left ≡ rows
      → Agrees new_cells base.0 (y * cols) cells
      → Agrees new_wrapped base.1 y wrapped
      → RowsDone left y (cells, wrapped)
  diff_rows-patch zero y cells wrapped hy a b =
      let end : y ≡ rows = omega arith in
      record {
        updates = [];
        after = (cells, wrapped);
        made = unfold diff_rows in refl;
        patched = unfold patch_rows in refl;
        cells_agree = subst (λ p. Agrees new_cells base.0 (p * cols) cells) end a;
        wrapped_agree = subst (λ p. Agrees new_wrapped base.1 p wrapped) end b;
      }
  diff_rows-patch (suc left) y cells wrapped hy a b =
      let lt : y < rows = omega arith in
      let row =
        diff_cells-patch new ref base valid small refers y cols 0 cells lt (omega arith)
          (subst (λ p. Agrees new_cells base.0 p cells) (omega arith) a) in
      let (w, ew) = get_elem?-some new_wrapped y (omega (arith, valid.wrapped_size)) in
      let (was, ewas) = get_elem?-some base.1 y (omega (arith, refers.wrapped_size)) in
      let flag =
        refers.wrap w y lt ∙ ap (λ o. or_fail panic o >>= λ v. ok (not (bool_eq w v))) ewas in
      let next_row : y * cols + cols ≡ (y + 1) * cols = omega arith in
      elim (Bool-cases (not (is_empty row.updates) || not (bool_eq w was))) [
        | inl sent ↦
            let rest =
              diff_rows-patch left (y + 1) row.after (set wrapped y w) (omega arith)
                (subst (λ p. Agrees new_cells base.0 p row.after) next_row row.agrees)
                (Agrees-set new_wrapped base.1 {p = y} {xs = wrapped} w ew
                  (omega (arith, valid.wrapped_size)) b) in
            record {
              updates = record { y = y; cells = row.updates; is_wrapped = w } ∷ rest.updates;
              after = rest.after;
              made =
                  diff_rows-suc left y row.updates w (not (bool_eq w was)) rest.updates row.made ew
                    flag rest.made
                  ∙ rw sent;
              patched =
                  patch_rows-cons y row.updates w rest.updates cells row.after wrapped lt
                    (omega (arith, valid.wrapped_size, b.size)) row.patched
                  ∙ rest.patched;
              cells_agree = rest.cells_agree;
              wrapped_agree = rest.wrapped_agree;
            }
        | inr skipped ↦
            let same : w ≡ was = bool_eq→≡ w was (ground arith) in
            let still = no_updates y row.updates cells row.after (ground arith) row.patched in
            let rest =
              diff_rows-patch left (y + 1) cells wrapped (omega arith)
                (subst (λ p. Agrees new_cells base.0 p cells) next_row
                  (subst (Agrees new_cells base.0 (y * cols + cols)) still row.agrees))
                (Agrees-keep new_wrapped base.1 {p = y} {xs = wrapped}
                  (ew ∙ ap some same ∙ sym ewas) b) in
            record {
              updates = rest.updates;
              after = rest.after;
              made =
                  diff_rows-suc left y row.updates w (not (bool_eq w was)) rest.updates row.made ew
                    flag rest.made
                  ∙ rw skipped;
              patched = rest.patched;
              cells_agree = rest.cells_agree;
              wrapped_agree = rest.wrapped_agree;
            }
      ]
