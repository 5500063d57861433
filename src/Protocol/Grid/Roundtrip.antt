-- ===== src/Protocol/Grid/Roundtrip.antt =====
-- `diff_from` and `patch` together.
pub mod Bases
pub mod Cells
pub mod Rows
use native.Mathlib.Nat.{mod-eq_of_lt}
use rumsh.Prelude.{
  ℕ, zero, suc, ◌+◌, ◌*◌, ◌%◌, ◌≤◌, ◌<◌, ◌≡◌, refl, List, [], ◌∷◌, some, none, Option, ltb,
  if◌then◌else◌, length, get_elem?, set, get_elem?-some, get_elem?-replicate, length-replicate, ◌⊎◌,
  inl, inr, arith, ◌∙◌, sym, lt→ltb, le→ltb, Result, ok, err, panic, bail, ◌>>=◌, index, ap, Bool,
  true, false, not, bool_eq, bool_eq→≡, Bool-cases, set_index, leb, is_empty, ite, if_pos, if_neg,
  subst, replicate, ◌||◌, ◌&&◌, ◌==◌, ==→≡, ==-refl, or_fail,
}
use rumsh.Protocol.Grid.{
  GridState, LocalCellData, CellUpdate, RowUpdate, FrameUpdate, LocalCellData-discrete, Screen,
  default_cell, cell_index_u16, u16_mod, use_ref, from_cell, wrapping_changed, diff_cells,
  diff_rows, diff_from, patch_cells, patch_rows, patch_base, patch, blank,
}
use rumsh.Protocol.Grid.Agree.{Agrees, Agrees-init, Agrees-all, Agrees-keep, Agrees-set}
use Bases.{IsValid, Refers, blank-Refers, ref-Refers}
use Rows.{diff_rows-patch}

-- A frame exists, and a peer that starts from `base` gets the new grid from it.
abbrev pub Carries : GridState → Option GridState → GridState → ℕ → Bool → Type 0
Carries new ref_state base ref_seq echo =
    (d : FrameUpdate) × (diff_from new ref_state ref_seq echo ≡ ok d) × (patch base d ≡ ok new)

Carries-of_Refers :
    (new base : GridState) (ref_state : Option GridState) (ref_seq : ℕ) (echo : Bool)
    → IsValid new
    → new.cols * new.rows ≤ u16_mod
    → Refers new (use_ref new.cols new.rows ref_state) (patch_base base new.cols new.rows)
    → Carries new ref_state base ref_seq echo
unfolding diff_from patch
Carries-of_Refers new base ref_state ref_seq echo v small refers =
    let from = patch_base base new.cols new.rows in
    let size = v.cells_size in
    let wrapped = v.wrapped_size in
    let run =
      diff_rows-patch new (use_ref new.cols new.rows ref_state) from v small refers new.rows 0
        from.0 from.1 (omega arith)
        (subst (λ p. Agrees new.cells from.0 p from.0) {x = 0} (omega arith)
          (Agrees-init new.cells from.0 (refers.cells_size ∙ sym size)))
        (Agrees-init new.row_wrapped from.1 (refers.wrapped_size ∙ sym wrapped)) in
    let cells : run.after.0 ≡ new.cells =
      Agrees-all new.cells from.0 (omega (arith, size)) run.cells_agree in
    let flags : run.after.1 ≡ new.row_wrapped =
      Agrees-all new.row_wrapped from.1 (omega (arith, wrapped)) run.wrapped_agree in
    (
      record {
        ref_seq = ref_seq;
        cols = new.cols;
        rows = new.rows;
        cursor_x = new.cursor_x;
        cursor_y = new.cursor_y;
        cursor_visible = new.cursor_visible;
        row_updates = run.updates;
        is_echo_enabled = echo;
      },
      rw run.made,
      rw run.patched (λ i. ok (record new { cells = cells i; row_wrapped = flags i })),
    )

-- For valid grids with at most 2^16 cells, `diff_from` against a reference makes a frame, with no
-- panic, and `patch` by it turns the reference into the new grid: cells, wrap flags, size and
-- cursor; also when the two grids differ in size.
pub diff_from-patch :
    (new ref : GridState) (ref_seq : ℕ) (echo : Bool)
    → IsValid new
    → IsValid ref
    → new.cols * new.rows ≤ u16_mod
    → (d : FrameUpdate) × (diff_from new (some ref) ref_seq echo ≡ ok d) × (patch ref d ≡ ok new)
diff_from-patch new ref ref_seq echo v r small =
    Carries-of_Refers new ref (some ref) ref_seq echo v small (ref-Refers new ref r)

-- Without a reference the frame turns a blank grid of its size into the new grid.
pub diff_from-patch-blank :
    (new : GridState) (ref_seq : ℕ) (echo : Bool)
    → IsValid new
    → new.cols * new.rows ≤ u16_mod
    → (d : FrameUpdate) × (diff_from new none ref_seq echo ≡ ok d)
      × (patch (blank new.cols new.rows) d ≡ ok new)
unfolding use_ref patch_base blank
diff_from-patch-blank new ref_seq echo v small =
    Carries-of_Refers new (blank new.cols new.rows) none ref_seq echo v small
      (rw (==-refl new.cols, ==-refl new.rows) (blank-Refers new))
