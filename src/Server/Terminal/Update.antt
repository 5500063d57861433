-- ===== src/Server/Terminal/Update.antt =====
-- The whole of `update_and_get_state`: the size is adopted, the marked rows are read, and the grid
-- that comes out is the emulator's screen.
use rumsh.Prelude.{
  ℕ, ◌≡◌, ◌⊎◌, inl, inr, refl, sym, ap, ap₂, ◌∙◌, Bool, true, false, not, ◌||◌, List, [], ◌∷◌, ok,
  length, ◌==◌, Bool-cases, subst, arith,
}
use rumsh.Protocol.Grid.{GridState, plain_cell}
use rumsh.Server.Emulator.{EmulatedRow, Snapshot, Emulator}
use rumsh.Server.Terminal.{
  ServerTerminalState, refit, read_rows, clear_all, take_snapshot, place_of, adopt_size, set_cursor,
  redraw, update_and_get_state,
}
use rumsh.Server.Terminal.Rows.{RowContent, Wide, RowsShow, Marks, blank_rows}
use rumsh.Server.Terminal.Mirror.{Clears, Due, painted_rows, read_rows-painted}
use rumsh.Server.Terminal.Caches.{Caches, refit-Caches, Screen, whole_grid}

module _ (em : Emulator) where
  Due-forced :
      (rs : List EmulatedRow) (old fresh : List RowContent)
      → RowsShow rs fresh
      → length old ≡ length fresh
      → Due em true rs old fresh
  Due-forced [] [] [] shows same = tt
  Due-forced (r ∷ rs) (o ∷ old) (n ∷ fresh) (shown, shows) same =
      (inl refl, Due-forced rs old fresh shows (omega arith))
  Due-forced [] old (n ∷ fresh) shows same = absurd shows
  Due-forced [] (o ∷ old) [] shows same = absurd (omega arith)
  Due-forced (r ∷ rs) old [] shows same = absurd shows
  Due-forced (r ∷ rs) [] (n ∷ fresh) shows same = absurd (omega arith)

  Due-Marks :
      (rs : List EmulatedRow) (old fresh : List RowContent)
      → Marks rs old fresh
      → Due em false rs old fresh
  Due-Marks [] [] [] m = tt
  Due-Marks (r ∷ rs) (o ∷ old) (n ∷ fresh) (here, m) = (here, Due-Marks rs old fresh m)
  Due-Marks [] [] (n ∷ fresh) m = absurd m
  Due-Marks [] (o ∷ old) fresh m = absurd m
  Due-Marks (r ∷ rs) [] fresh m = absurd m
  Due-Marks (r ∷ rs) (o ∷ old) [] m = absurd m

  -- At the same size.
  Due-kept :
      (force resized : Bool) (rs : List EmulatedRow) (old fresh : List RowContent)
      → resized ≡ false
      → RowsShow rs fresh
      → length old ≡ length fresh
      → ((force || resized) ≡ true) ⊎ Marks rs old fresh
      → Due em force rs old fresh
  Due-kept true resized rs old fresh e shows same marked = Due-forced rs old fresh shows same
  Due-kept false resized rs old fresh e shows same (inl forced) = cc
  Due-kept false resized rs old fresh e shows same (inr m) = Due-Marks rs old fresh m

  -- The update reads every row: it is forced to, or the size is another one.
  abbrev pub redraws : ServerTerminalState em → ℕ → ℕ → Bool
  redraws s cols rows = s.force_full || (not (s.cols == cols) || not (s.rows == rows))

  -- The state before the rows are read.
  record Adopted (s : ServerTerminalState em) {snapshot : Snapshot} (screen : Screen em snapshot)
      : Type 0 where
    old : List RowContent
    caches : Caches em s old
    cols_eq : s.cols ≡ screen.cols
    rows_eq : s.rows ≡ screen.rows
    due : Due em s.force_full screen.row_list old screen.contents

  adopt_size-Adopted :
      (s : ServerTerminalState em) {snapshot : Snapshot} (screen : Screen em snapshot)
      (old : List RowContent)
      → Caches em s old
      → (redraws s screen.cols screen.rows ≡ true) ⊎ Marks screen.row_list old screen.contents
      → Adopted (adopt_size em screen.cols screen.rows s) screen
  unfolding adopt_size refit
  adopt_size-Adopted s screen old caches marked =
      elim (Bool-cases (not (s.cols == screen.cols) || not (s.rows == screen.rows))) [
        | inl other ↦ rw other (record {
          old = blank_rows screen.rows screen.cols (plain_cell b' ');
          caches = refit-Caches em s screen.cols screen.rows;
          cols_eq = refl;
          rows_eq = refl;
          due =
              Due-forced screen.row_list (blank_rows screen.rows screen.cols (plain_cell b' '))
                screen.contents screen.shows
                ((refit-Caches em s screen.cols screen.rows).tall ∙ sym screen.tall);
        })
        | inr same ↦ rw same (record {
          old = old;
          caches = caches;
          cols_eq = ground arith;
          rows_eq = ground arith;
          due =
              Due-kept s.force_full (not (s.cols == screen.cols) || not (s.rows == screen.rows))
                screen.row_list old screen.contents same screen.shows (ground arith) marked;
        })
      ]

  -- `base` as a grid of rows.
  Caches-painted :
      (s : ServerTerminalState em) (rows : List RowContent)
      → Caches em s rows
      → s ≡ painted_rows em s s.render_state [] [] rows
  Caches-painted s rows c =
      ap₂
        (λ cells flags.
          let t : ServerTerminalState em = record s {
            grid_state = record s.grid_state { cells = cells; row_wrapped = flags };
          } in
          t)
        c.cells c.flags

  -- The state after the rows are read.
  abbrev redrawn :
      ServerTerminalState em → em.RenderState → List RowContent → ServerTerminalState em
  redrawn base render rows = record (painted_rows em base base.render_state [] [] rows) {
    force_full = false;
    render_state = render;
  }

  redraw-Due :
      (clears : Clears em) (base : ServerTerminalState em) (old fresh : List RowContent)
      (rs : List EmulatedRow)
      → Caches em base old
      → Wide base.cols fresh
      → RowsShow rs fresh
      → Due em base.force_full rs old fresh
      → (after : em.RenderState) × (redraw em rs base ≡ (redrawn base after fresh, ok tt))
  unfolding redraw clear_all
  redraw-Due clears base old fresh rs caches wide shows due =
      let (seen, e) =
        read_rows-painted em clears base base.render_state 0 [] [] old fresh rs (omega arith) refl
          caches.wide wide shows due in
      let (after, cleared) = clears.all seen in
      (
        after,
        rw (ap (read_rows em 0 rs) (Caches-painted base old caches) ∙ e) (rw (cleared, clear_all)),
      )

  redrawn-Caches :
      (base : ServerTerminalState em) (render : em.RenderState) (old fresh : List RowContent)
      (place : ℕ × ℕ) (visible : Bool)
      → Caches em base old
      → Wide base.cols fresh
      → length fresh ≡ base.rows
      → Caches em (set_cursor em place visible (redrawn base render fresh)) fresh
  unfolding set_cursor
  redrawn-Caches base render old fresh place visible caches wide tall = record {
    cols_eq = caches.cols_eq;
    rows_eq = caches.rows_eq;
    wide = wide;
    tall = tall;
    cells = refl;
    flags = refl;
  }

  -- The run around the reading of the rows.
  update_and_get_state-redraw :
      (s drawn : ServerTerminalState em) {snapshot : Snapshot} (screen : Screen em snapshot)
      (render : em.RenderState)
      → em.update s.render_state s.terminal ≡ ok (render, snapshot)
      → redraw em screen.row_list
          (adopt_size em screen.cols screen.rows (record s { render_state = render }))
        ≡ (drawn, ok tt)
      → update_and_get_state em s ≡ (
          let end = set_cursor em (place_of em screen.viewport) screen.visible drawn in
          (end, ok end.grid_state))
  unfolding update_and_get_state take_snapshot
  update_and_get_state-redraw s drawn screen render snap e =
      rw (snap, take_snapshot)
        (rw screen.cols_ok (
          rw screen.rows_ok
            (rw screen.visible_ok (rw screen.viewport_ok (rw screen.list_ok (rw e))))))

  -- The emulator's screen comes out as a grid with nothing left out, although only the rows that
  -- the emulator marks are read: whatever rows the grid held, if the update is forced, or the size
  -- is a new one, or the emulator marks each row that has changed since. The reads of the screen and
  -- the emulator's clears succeed. The grid then holds these rows, and the next update is not forced.
  pub update_and_get_state-Mirrors :
      (clears : Clears em) (s : ServerTerminalState em) (old : List RowContent)
      {snapshot : Snapshot} (screen : Screen em snapshot) (render : em.RenderState)
      → Caches em s old
      → em.update s.render_state s.terminal ≡ ok (render, snapshot)
      → (redraws s screen.cols screen.rows ≡ true) ⊎ Marks screen.row_list old screen.contents
      → (after : ServerTerminalState em) × (update_and_get_state em s
          ≡ (after, ok (whole_grid em screen)))
        × Caches em after screen.contents
        × (after.force_full ≡ false)
  unfolding set_cursor
  update_and_get_state-Mirrors clears s old screen render caches snap marked =
      let seen : ServerTerminalState em = record s { render_state = render } in
      let seen_caches : Caches em seen old = record {
        cols_eq = caches.cols_eq;
        rows_eq = caches.rows_eq;
        wide = caches.wide;
        tall = caches.tall;
        cells = caches.cells;
        flags = caches.flags;
      } in
      let a = adopt_size-Adopted seen screen old seen_caches marked in
      let base = adopt_size em screen.cols screen.rows seen in
      let wide = subst (λ c. Wide c screen.contents) (sym a.cols_eq) screen.wide in
      let (after, e) =
        redraw-Due clears base a.old screen.contents screen.row_list a.caches wide screen.shows
          a.due in
      let end =
        set_cursor em (place_of em screen.viewport) screen.visible
          (redrawn base after screen.contents) in
      let same : end.grid_state ≡ whole_grid em screen =
        ap₂ (λ c r. let g : GridState = record (whole_grid em screen) { cols = c; rows = r } in g)
          (a.caches.cols_eq ∙ a.cols_eq) (a.caches.rows_eq ∙ a.rows_eq) in
      (
        end,
        update_and_get_state-redraw s (redrawn base after screen.contents) screen render snap e
            ∙ ap (λ g. (end, ok g)) same,
        redrawn-Caches base after a.old screen.contents (place_of em screen.viewport) screen.visible
            a.caches wide (screen.tall ∙ sym a.rows_eq),
        refl,
      )
