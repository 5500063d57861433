-- ===== src/Client/Paint/Shown.antt =====
-- What a terminal shows after `paint` of src/client/terminal.rs.
use rumsh.Prelude.{
  ℕ, ◌<◌, Bool, true, false, List, [], ◌∷◌, ◌++◌, none, Result, ok, ◌>>=◌, replicate, if◌then◌else◌,
  ◌≡◌, refl, ◌∙◌, sym, ap, ap₂, arith, inl, inr, Bool-cases,
}
use rumsh.Protocol.Grid.{u16_mod}
use rumsh.Client.Frame.{TerminalFrame, IsValid}
use rumsh.Client.Paint.{
  Command, clear_screen, flush, paint_rows, paint_cursor, paint_reconnecting, paint_overlay,
  paint_dirty, paint,
}
use rumsh.Client.Paint.Screen.{Look, Shown, Screen, obey_all, obey_all-append}
use rumsh.Client.Paint.Rows.{frame_after, paint_rows-RowsShown}
use rumsh.Client.Paint.Row.{AllNarrow}

module _ (erase : Look → Shown) (columns : List ℕ → ℕ) {F : Type 0} where
  -- What a terminal shows after `paint`: the marked rows, and the cursor.
  pub record IsPainted (f : TerminalFrame F) (s : Screen)
      (m : Result (TerminalFrame F × List Command × Bool)) : Type 0 where
    pub commands : List Command
    pub real_update : Bool
    pub returns :
        m
        ≡ ok (
          record f { dirty = false; clear_requested = false; row_dirty = replicate f.rows false },
          commands,
          real_update,
        )
    pub cells :
        (px py : ℕ)
        → (obey_all erase columns commands s).cells px py
          ≡ frame_after f (if f.clear_requested then (λ x y. erase s.pen) else s.cells) px py
    pub column : (obey_all erase columns commands s).cursor_x ≡ f.cursor_x
    pub row : (obey_all erase columns commands s).cursor_y ≡ f.cursor_y
    pub visible : (obey_all erase columns commands s).cursor_shown ≡ f.cursor_visible

  cursor-obeyed :
      (f : TerminalFrame F) (cs : List Command) (s : Screen)
      → obey_all erase columns (cs ++ paint_cursor f) s ≡ record (obey_all erase columns cs s) {
        cursor_x = f.cursor_x;
        cursor_y = f.cursor_y;
        cursor_shown = f.cursor_visible;
      }
  unfolding obey_all
  cursor-obeyed f cs s =
      obey_all-append erase columns cs (paint_cursor f) s ∙ elim (Bool-cases f.cursor_visible) [
        | inl shown ↦ rw shown refl
        | inr hidden ↦ rw hidden refl
      ]

  module _ (format : TerminalFrame F → List ℕ) (f : TerminalFrame F) (s : Screen)
      (valid : IsValid f) (small : f.cols < u16_mod) (narrow : AllNarrow erase columns f)
      (dirty : f.dirty ≡ true) (connected : f.reconnecting ≡ false)
      (bare : f.overlay_enabled ≡ false) where
    dirty-IsPainted : f.clear_requested ≡ false → IsPainted f s (paint_dirty format f)
    unfolding paint_dirty
    dirty-IsPainted uncleared =
        let clean = record f { dirty = false } in
        let rows =
          paint_rows-RowsShown erase columns f.rows 0 clean none s
            (record { cells_size = valid.cells_size; rows_size = valid.rows_size }) small narrow
            (omega arith) tt (λ i lt. absurd (omega arith)) in
        let obeyed = cursor-obeyed f rows.commands s in
        let rest_by : List Command → List Command → List Command =
          λ a b. a ++ (b ++ paint_cursor f) in
        let banner = paint_reconnecting f in
        let overlay = paint_overlay format f in
        let no_banner : banner ≡ [] = rw connected refl in
        let no_overlay : overlay ≡ [] = rw bare refl in
        let result_by : Bool → TerminalFrame F = λ c. record f {
          dirty = false;
          clear_requested = c;
          row_dirty = replicate f.rows false;
        } in
        record {
          commands = rows.commands ++ paint_cursor f;
          real_update = rows.real_update;
          returns =
              ap
                (λ b.
                  if b
                  then (paint_rows f.rows 0 clean none >>= λ r.
                      ok (r.0, r.1 ++ rest_by banner overlay, r.2))
                  else ok (f, [], false))
                dirty
              ∙ ap (λ m. m >>= λ r. ok (r.0, r.1 ++ rest_by banner overlay, r.2)) rows.returns
              ∙ ap₂
                  (λ a b.
                    ok
                      (result_by f.clear_requested, rows.commands ++ rest_by a b, rows.real_update))
                  no_banner no_overlay
              ∙ ap (λ c. ok (result_by c, rows.commands ++ paint_cursor f, rows.real_update))
                  uncleared;
          cells = λ px py.
              ap (λ (t : Screen). t.cells px py) obeyed
              ∙ rows.cells px py
              ∙ ap (λ c. frame_after f (if c then (λ x y. erase s.pen) else s.cells) px py)
                  (sym uncleared);
          column = ap (λ (t : Screen). t.cursor_x) obeyed;
          row = ap (λ (t : Screen). t.cursor_y) obeyed;
          visible = ap (λ (t : Screen). t.cursor_shown) obeyed;
        }

  -- For any terminal: a valid dirty frame of less than 2^16 columns, whose cells fill one column each
  -- and which has neither the banner nor the overlay, is shown. Its marked rows but for the corner are
  -- the frame's, every other cell is as before (or cleared, when that was asked for), the cursor is
  -- the frame's, and no mark is left.
  pub paint-IsPainted :
      (format : TerminalFrame F → List ℕ) (f : TerminalFrame F) (s : Screen)
      → IsValid f
      → f.cols < u16_mod
      → AllNarrow erase columns f
      → f.dirty ≡ true
      → f.reconnecting ≡ false
      → f.overlay_enabled ≡ false
      → IsPainted f s (paint format f)
  unfolding paint obey_all
  paint-IsPainted format f s valid small narrow dirty connected bare =
      elim (Bool-cases f.clear_requested) [
        | inl asked ↦
            let kept = record f { clear_requested = false } in
            let blank = record s { cells = λ x y. erase s.pen } in
            let rest =
              dirty-IsPainted format kept blank
                (record { cells_size = valid.cells_size; rows_size = valid.rows_size }) small narrow
                dirty connected bare refl in
            record {
              commands = clear_screen ∷ flush ∷ rest.commands;
              real_update = rest.real_update;
              returns =
                  ap
                    (λ b.
                      if b
                      then (paint_dirty format kept >>= λ r.
                          ok (r.0, clear_screen ∷ flush ∷ r.1, r.2))
                      else paint_dirty format f)
                    asked
                  ∙ ap (λ m. m >>= λ r. ok (r.0, clear_screen ∷ flush ∷ r.1, r.2)) rest.returns;
              cells = λ px py.
                  rest.cells px py
                  ∙ ap (λ c. frame_after f (if c then (λ x y. erase s.pen) else s.cells) px py)
                      (sym asked);
              column = rest.column;
              row = rest.row;
              visible = rest.visible;
            }
        | inr not_asked ↦
            let rest =
              dirty-IsPainted format f s valid small narrow dirty connected bare not_asked in
            record {
              commands = rest.commands;
              real_update = rest.real_update;
              returns =
                  ap
                    (λ b.
                      if b
                      then (paint_dirty format (record f { clear_requested = false }) >>= λ r.
                          ok (r.0, clear_screen ∷ flush ∷ r.1, r.2))
                      else paint_dirty format f)
                    not_asked
                  ∙ rest.returns;
              cells = rest.cells;
              column = rest.column;
              row = rest.row;
              visible = rest.visible;
            }
      ]
