-- ===== src/Client/Frame/Update.antt =====
-- `update_from_grid_state` on a valid frame and a valid grid.
pub mod RowScans
pub mod RowLoop
use rumsh.Prelude.{
  ℕ, zero, suc, ◌+◌, ◌*◌, ◌≤◌, ◌<◌, ◌≡◌, ◌≢◌, refl, sym, ap, ◌∙◌, subst, Bool, true, false, not,
  ◌&&◌, ◌||◌, List, [], ◌∷◌, Result, ok, ◌>>=◌, ltb, ◌==◌, bool_eq, bool_eq→≡, if◌then◌else◌, arith,
  some, none, length, get_elem?, set, length-set, length-replicate, get_elem?-some,
  get_elem?-set_self, get_elem?-set_ne, get_elem?-replicate, Bool-cases, inl, inr, lt→ltb, ==→≡,
  ite, if_pos, if_neg, lt_trichotomy, replicate,
}
use rumsh.Protocol.Grid.{GridState, LocalCellData, LocalCellData-discrete, default_cell}
use rumsh.Protocol.Grid.Agree.{Agrees, Agrees-init, Agrees-all, Agrees-keep, Agrees-set}
use rumsh.Protocol.Grid.Roundtrip.Bases
use rumsh.Client.Frame.{
  TerminalFrame, RowScan, IsValid, scan_cell, scan_row, scan_rows, refit, move_cursor,
  update_from_grid_state,
}
use RowLoop.{marked_frame, scan_rows-RowsScanned}

-- The frame after an update, against the cells that it showed before (`refit` blanks them if the
-- size changes).
pub record Shows {F : Type 0} (f : TerminalFrame F) (g : GridState)
    (r : Result (TerminalFrame F × Bool)) : Type 0 where
  pub frame : TerminalFrame F
  pub returns : r ≡ ok (frame, (refit f g).1)
  pub valid : IsValid frame
  pub cells : frame.cell_cache ≡ g.cells
  pub size : (frame.cols ≡ g.cols) × (frame.rows ≡ g.rows)
  pub cursor :
      (frame.cursor_x ≡ g.cursor_x)
      × (frame.cursor_y ≡ g.cursor_y)
      × (frame.cursor_visible ≡ g.cursor_visible)
  pub marked :
      (y x : ℕ)
      → y < g.rows
      → x < g.cols
      → get_elem? g.cells (y * g.cols + x) ≢ get_elem? (refit f g).0.cell_cache (y * g.cols + x)
      → (get_elem? frame.row_dirty y ≡ some true) × (frame.dirty ≡ true)

module _ {F : Type 0} where
  -- What the base of an update has, resized or not.
  record Fitted (g : GridState) (b : TerminalFrame F) : Type 0 where
    cols_eq : b.cols ≡ g.cols
    rows_eq : b.rows ≡ g.rows
    cells_size : length b.cell_cache ≡ b.cols * b.rows
    rows_size : length b.row_dirty ≡ b.rows

  refit-Fitted : (f : TerminalFrame F) (g : GridState) → IsValid f → Fitted g (refit f g).0
  unfolding refit
  refit-Fitted f g v = elim (Bool-cases (not (f.cols == g.cols) || not (f.rows == g.rows))) [
    | inl grew ↦ rw grew (record {
      cols_eq = refl;
      rows_eq = refl;
      cells_size = length-replicate (g.cols * g.rows) default_cell;
      rows_size = length-replicate g.rows true;
    })
    | inr same ↦ rw same (record {
      cols_eq = ground arith;
      rows_eq = ground arith;
      cells_size = v.cells_size;
      rows_size = v.rows_size;
    })
  ]

  -- The cursor, when it is the grid's already or has been moved.
  move_cursor_cases :
      (f : TerminalFrame F) (g : GridState)
      → let m = move_cursor f g in
        (m ≡ record f {
          cursor_x = g.cursor_x;
          cursor_y = g.cursor_y;
          cursor_visible = g.cursor_visible;
          dirty = m.dirty;
        })
        × (f.dirty ≡ true → m.dirty ≡ true)
  unfolding move_cursor
  move_cursor_cases f g =
      elim (Bool-cases (
        not (f.cursor_x == g.cursor_x)
        || not (f.cursor_y == g.cursor_y)
        || not (bool_eq f.cursor_visible g.cursor_visible))) [
          | inl goes ↦ rw goes (refl, λ h. refl)
          | inr stays ↦
              let ex : f.cursor_x ≡ g.cursor_x = ground arith in
              let ey : f.cursor_y ≡ g.cursor_y = ground arith in
              let ev : f.cursor_visible ≡ g.cursor_visible =
                bool_eq→≡ f.cursor_visible g.cursor_visible (ground arith) in
              rw stays
                (λ i. record f { cursor_x = ex i; cursor_y = ey i; cursor_visible = ev i }, λ h. h)
        ]

  update_lem :
      (f : TerminalFrame F) (g : GridState) {s : TerminalFrame F}
      → scan_rows g.cells (refit f g).0.rows 0 (refit f g).0 ≡ ok s
      → update_from_grid_state f g ≡ ok (move_cursor s g, (refit f g).1)
  unfolding update_from_grid_state
  update_lem f g e = rw e

-- A valid frame takes a valid grid with no panic: it then shows the grid's cells, size and cursor,
-- stays valid, tells whether it was resized, and is dirty with a mark on every row of which some
-- cell differs from what was shown.
pub update_from_grid_state-Shows :
    {F : Type 0} (f : TerminalFrame F) (g : GridState)
    → IsValid f
    → Bases.IsValid g
    → Shows f g (update_from_grid_state f g)
update_from_grid_state-Shows {F} f g v vg =
    let b = (refit f g).0 in
    let fit = refit-Fitted f g v in
    let size : length g.cells ≡ b.cols * b.rows = rw (fit.cols_eq, fit.rows_eq) vg.cells_size in
    let s =
      scan_rows-RowsScanned b g.cells size fit.cells_size b.rows 0 b.cell_cache b.row_dirty b.dirty
        (omega arith) fit.rows_size
        (subst (λ p. Agrees g.cells b.cell_cache p b.cell_cache) {x = 0} (omega arith)
          (Agrees-init g.cells b.cell_cache (fit.cells_size ∙ sym size))) in
    let shown = marked_frame b g.cells size fit.cells_size g.cells s.marks s.flag in
    let (moved, still_dirty) = move_cursor_cases shown g in
    record {
      frame = move_cursor shown g;
      returns = update_lem f g s.made;
      valid = record {
        cells_size =
            ap (λ (m : TerminalFrame F). length m.cell_cache) moved
            ∙ size
            ∙ sym (ap (λ (m : TerminalFrame F). m.cols * m.rows) moved);
        rows_size =
            ap (λ (m : TerminalFrame F). length m.row_dirty) moved
            ∙ s.marks_size
            ∙ sym (ap (λ (m : TerminalFrame F). m.rows) moved);
      };
      cells = ap (λ (m : TerminalFrame F). m.cell_cache) moved;
      size = (
        ap (λ (m : TerminalFrame F). m.cols) moved ∙ fit.cols_eq,
        ap (λ (m : TerminalFrame F). m.rows) moved ∙ fit.rows_eq,
      );
      cursor = (
        ap (λ (m : TerminalFrame F). m.cursor_x) moved,
        ap (λ (m : TerminalFrame F). m.cursor_y) moved,
        ap (λ (m : TerminalFrame F). m.cursor_visible) moved,
      );
      marked = λ y x hy hx ne.
          let (mark, flag) =
            s.marked y x (omega arith) (rw fit.rows_eq hy) (rw fit.cols_eq hx)
              (rw fit.cols_eq ne) in
          (ap (λ (m : TerminalFrame F). get_elem? m.row_dirty y) moved ∙ mark, still_dirty flag);
    }
