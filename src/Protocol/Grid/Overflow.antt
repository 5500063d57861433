-- ===== src/Protocol/Grid/Overflow.antt =====
-- The cell index of `diff_from`, which is computed in `u16`.
use rumsh.Prelude.{
  ℕ, zero, suc, ◌+◌, ◌*◌, ◌≤◌, ◌<◌, ◌≡◌, refl, [], some, get_elem?, get_elem?-some, arith, ◌∙◌, sym,
  ok, Bool, true, false, bool_eq, if_pos, ==-refl, ap, ◌==◌,
}
use rumsh.Protocol.Grid.{
  GridState, FrameUpdate, from_cell, wrapping_changed, use_ref, cell_index_u16, u16_mod, diff_cells,
  diff_rows, diff_from,
}
use rumsh.Protocol.Grid.Roundtrip.Bases.{IsValid}

-- The frame with no row updates.
abbrev pub cursor_frame : GridState → ℕ → Bool → FrameUpdate
cursor_frame g ref_seq echo = record {
  ref_seq = ref_seq;
  cols = g.cols;
  rows = g.rows;
  cursor_x = g.cursor_x;
  cursor_y = g.cursor_y;
  cursor_visible = g.cursor_visible;
  row_updates = [];
  is_echo_enabled = echo;
}

module _ (new ref : GridState) (v : IsValid new) (large : u16_mod ≤ new.cols * new.rows)
    (low : (i : ℕ) → i < u16_mod → get_elem? new.cells i ≡ get_elem? ref.cells i)
    (wraps : new.row_wrapped ≡ ref.row_wrapped) where
  diff_cells_blind : (y left x : ℕ) → diff_cells new (some ref) y left x ≡ ok []
  unfolding diff_cells from_cell
  diff_cells_blind y zero x = refl
  diff_cells_blind y (suc left) x =
      let i = cell_index_u16 new.cols y x in
      let lt : i < u16_mod = omega arith in
      let (to, e) = get_elem?-some new.cells i (omega (arith, v.cells_size)) in
      let f = sym (low i lt) ∙ e in rw (e, f, diff_cells_blind y left (x + 1)) (rw (if_pos _ refl))

  bool_eq_self : (b : Bool) → bool_eq b b ≡ true
  bool_eq_self true = refl
  bool_eq_self false = refl

  diff_rows_blind : (left y : ℕ) → y + left ≡ new.rows → diff_rows new (some ref) left y ≡ ok []
  unfolding diff_rows wrapping_changed
  diff_rows_blind zero y h = refl
  diff_rows_blind (suc left) y h =
      let (w, e) = get_elem?-some new.row_wrapped y (omega (arith, v.wrapped_size)) in
      rw (diff_cells_blind y new.cols 0, e, ← wraps, e, diff_rows_blind left (y + 1) (omega arith))
        (rw (bool_eq_self w))

-- On a screen of 2^16 cells or more, a change to cells from index 2^16 on alone goes unseen: if the
-- new grid and a reference of its size agree on the first 2^16 cells and on the wrap flags, the
-- frame has no row update, whatever the other cells hold.
pub diff_from_blind :
    (new ref : GridState) (ref_seq : ℕ) (echo : Bool)
    → IsValid new
    → ref.cols ≡ new.cols
    → ref.rows ≡ new.rows
    → u16_mod ≤ new.cols * new.rows
    → ((i : ℕ) → i < u16_mod → get_elem? new.cells i ≡ get_elem? ref.cells i)
    → new.row_wrapped ≡ ref.row_wrapped
    → diff_from new (some ref) ref_seq echo ≡ ok (cursor_frame new ref_seq echo)
unfolding diff_from use_ref
diff_from_blind new ref ref_seq echo v ec er large low wraps =
    let same_cols = ap (λ c. c == new.cols) ec ∙ ==-refl new.cols in
    let same_rows = ap (λ c. c == new.rows) er ∙ ==-refl new.rows in
    rw (same_cols, same_rows)
      (rw (diff_rows_blind new ref v large low wraps new.rows 0 (omega arith)))
