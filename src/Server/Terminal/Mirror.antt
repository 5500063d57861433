-- ===== src/Server/Terminal/Mirror.antt =====
-- `update_and_get_state` reads only the rows that the emulator marks, and yet gives the whole screen.
use mathlib.Core.List.{append_assoc}
use rumsh.Prelude.{
  ℕ, ◌+◌, ◌*◌, ◌≡◌, ◌⊎◌, inl, inr, refl, sym, ap, ap₂, ◌∙◌, Bool, true, false, List, [], ◌∷◌, ◌++◌,
  ok, length, length-append, lt→ltb, arith,
}
use rumsh.Prelude.Stateful.{resume}
use rumsh.Protocol.Grid.{LocalCellData}
use rumsh.Server.Emulator.{EmulatedCell, EmulatedRow, Emulator}
use rumsh.Server.Terminal.{
  ServerTerminalState, put_cell, read_cells, set_wrapped, clear_row, refresh_row, visit_row, is_due,
  read_rows,
}
use rumsh.Server.Terminal.Rows.{
  RowContent, cells_of, flags_of, Wide, ReadAs, RowShows, RowsShow, set-append_head,
  set_index-append_head,
}

module _ (em : Emulator) where
  -- Clearing a mark never fails.
  pub record Clears : Type 0 where
    pub row :
        (render : em.RenderState) (y : ℕ)
        → (after : em.RenderState) × (em.clear_row render y ≡ ok after)
    pub all :
        (render : em.RenderState) → (after : em.RenderState) × (em.set_clean render ≡ ok after)

  -- `base` with other cells and flags in its grid.
  abbrev pub painted :
      ServerTerminalState em
      → em.RenderState
      → List LocalCellData
      → List Bool
      → ServerTerminalState em
  painted base render cells flags = record base {
    render_state = render;
    grid_state = record base.grid_state { cells = cells; row_wrapped = flags };
  }

  put_cell-painted :
      (base : ServerTerminalState em) (render : em.RenderState) (flags : List Bool) (y x : ℕ)
      (pre post : List LocalCellData) (o n : LocalCellData)
      → length pre ≡ y * base.cols + x
      → put_cell em y x n (painted base render (pre ++ o ∷ post) flags)
        ≡ painted base render (pre ++ n ∷ post) flags
  unfolding put_cell
  put_cell-painted base render flags y x pre post o n at_x = rw (← at_x) (
      rw
        (lt→ltb (length pre) (length (pre ++ o ∷ post))
          (omega (arith, length-append pre (o ∷ post))))
        (ap (λ cells. painted base render cells flags) (set-append_head pre o n post)))

  read_cells-painted :
      (base : ServerTerminalState em) (render : em.RenderState) (flags : List Bool) (y x : ℕ)
      (pre post : List LocalCellData) (old news : List LocalCellData) (cs : List EmulatedCell)
      → length pre ≡ y * base.cols + x
      → length old ≡ length news
      → ReadAs cs news
      → read_cells em y x cs (painted base render (pre ++ (old ++ post)) flags)
        ≡ (painted base render (pre ++ (news ++ post)) flags, ok tt)
  unfolding read_cells
  read_cells-painted base render flags y x pre post [] [] [] at_x same r = refl
  read_cells-painted base render flags y x pre post (o ∷ old) (n ∷ news) (c ∷ cs) at_x same (e, r) =
      let state = λ (cells : List LocalCellData). painted base render cells flags in
      let goes_on = λ (s : ServerTerminalState em). read_cells em y (x + 1) cs s in
      let at_next : length (pre ++ n ∷ []) ≡ y * base.cols + (x + 1) =
        omega (arith, length-append pre (n ∷ [])) in
      let rest =
        read_cells-painted base render flags y (x + 1) (pre ++ n ∷ []) post old news cs at_next
          (omega arith) r in
      rw e (
        ap goes_on (put_cell-painted base render flags y x pre (old ++ post) o n at_x)
        ∙ ap (λ cells. goes_on (state cells)) (sym (append_assoc pre (n ∷ []) (old ++ post)))
        ∙ rest
        ∙ ap (λ cells. (state cells, ok tt)) (append_assoc pre (n ∷ []) (news ++ post)))
  read_cells-painted base render flags y x pre post [] (n ∷ news) cs at_x same r =
      absurd (omega arith)
  read_cells-painted base render flags y x pre post (o ∷ old) [] cs at_x same r =
      absurd (omega arith)
  read_cells-painted base render flags y x pre post (o ∷ old) (n ∷ news) [] at_x same r = absurd r
  read_cells-painted base render flags y x pre post [] [] (c ∷ cs) at_x same r = absurd r

  set_wrapped-painted :
      (base : ServerTerminalState em) (render : em.RenderState) (cells : List LocalCellData) (y : ℕ)
      (pre post : List Bool) (o n : Bool)
      → length pre ≡ y
      → set_wrapped em y n (painted base render cells (pre ++ o ∷ post))
        ≡ (painted base render cells (pre ++ n ∷ post), ok tt)
  unfolding set_wrapped
  set_wrapped-painted base render cells y pre post o n at_y =
      rw (← at_y) (rw (set_index-append_head pre o n post, set_wrapped))

  clear_row-painted :
      (clears : Clears) (base : ServerTerminalState em) (render : em.RenderState) (y : ℕ)
      (cells : List LocalCellData) (flags : List Bool)
      → (after : em.RenderState) × (clear_row em y (painted base render cells flags)
          ≡ (painted base after cells flags, ok tt))
  unfolding clear_row
  clear_row-painted clears base render y cells flags =
      let (after, e) = clears.row render y in (after, rw (e, clear_row))

  refresh_row-painted :
      (clears : Clears) (base : ServerTerminalState em) (render : em.RenderState) (y : ℕ)
      (pre post : List LocalCellData) (flag_pre flag_post : List Bool) (o n : RowContent)
      (r : EmulatedRow)
      → length pre ≡ y * base.cols
      → length flag_pre ≡ y
      → length o.1 ≡ length n.1
      → RowShows r n
      → (after : em.RenderState) × (refresh_row em y r
            (painted base render (pre ++ (o.1 ++ post)) (flag_pre ++ o.0 ∷ flag_post))
          ≡ (painted base after (pre ++ (n.1 ++ post)) (flag_pre ++ n.0 ∷ flag_post), ok tt))
  unfolding refresh_row
  refresh_row-painted clears base render y pre post flag_pre flag_post o n r at_y at_flag same
        shows =
      let flags = flag_pre ++ n.0 ∷ flag_post in
      let (after, cleared) = clear_row-painted clears base render y (pre ++ (n.1 ++ post)) flags in
      let flagged =
        set_wrapped-painted base render (pre ++ (o.1 ++ post)) y flag_pre flag_post o.0 n.0
          at_flag in
      let filled =
        read_cells-painted base render flags y 0 pre post o.1 n.1 shows.raw (omega arith) same
          shows.cells in
      (after, rw shows.wrapped (rw flagged (rw shows.listed (rw filled cleared))))

  -- The rows that `read_rows` reads are all that differ from the old ones.
  abbrev pub Due : Bool → List EmulatedRow → List RowContent → List RowContent → Type 0
  Due force [] [] [] = Unit
  Due force (r ∷ rs) (o ∷ old) (n ∷ fresh) =
      ((is_due em force r ≡ ok true) ⊎ ((is_due em force r ≡ ok false) × (o ≡ n)))
      × Due force rs old fresh
  Due force rs old fresh = ⊥

  abbrev pub painted_rows :
      ServerTerminalState em
      → em.RenderState
      → List LocalCellData
      → List Bool
      → List RowContent
      → ServerTerminalState em
  painted_rows base render pre flag_pre rows =
      painted base render (pre ++ cells_of rows) (flag_pre ++ flags_of rows)

  -- One row done, the other rows are those after a longer prefix.
  painted_rows-cons :
      (base : ServerTerminalState em) (render : em.RenderState) (pre : List LocalCellData)
      (flag_pre : List Bool) (n : RowContent) (rows : List RowContent)
      → painted_rows base render pre flag_pre (n ∷ rows)
        ≡ painted_rows base render (pre ++ n.1) (flag_pre ++ n.0 ∷ []) rows
  painted_rows-cons base render pre flag_pre n rows =
      ap₂ (painted base render) (sym (append_assoc pre n.1 (cells_of rows)))
        (sym (append_assoc flag_pre (n.0 ∷ []) (flags_of rows)))

  visit_row-painted :
      (clears : Clears) (base : ServerTerminalState em) (render : em.RenderState) (y : ℕ)
      (pre : List LocalCellData) (flag_pre : List Bool) (o n : RowContent) (old : List RowContent)
      (r : EmulatedRow)
      → length pre ≡ y * base.cols
      → length flag_pre ≡ y
      → length o.1 ≡ length n.1
      → RowShows r n
      → (is_due em base.force_full r ≡ ok true)
        ⊎ ((is_due em base.force_full r ≡ ok false) × (o ≡ n))
      → (after : em.RenderState) × (visit_row em y r
            (painted_rows base render pre flag_pre (o ∷ old))
          ≡ (painted_rows base after pre flag_pre (n ∷ old), ok tt))
  unfolding visit_row
  visit_row-painted clears base render y pre flag_pre o n old r at_y at_flag same shows (inl due) =
      let (after, e) =
        refresh_row-painted clears base render y pre (cells_of old) flag_pre (flags_of old) o n r
          at_y at_flag same shows in
      (after, rw due e)
  visit_row-painted clears base render y pre flag_pre o n old r at_y at_flag same shows
        (inr (clean, e)) =
      (render, rw clean (ap (λ c. (painted_rows base render pre flag_pre (c ∷ old), ok tt)) e))

  pub read_rows-painted :
      (clears : Clears) (base : ServerTerminalState em) (render : em.RenderState) (y : ℕ)
      (pre : List LocalCellData) (flag_pre : List Bool) (old fresh : List RowContent)
      (rs : List EmulatedRow)
      → length pre ≡ y * base.cols
      → length flag_pre ≡ y
      → Wide base.cols old
      → Wide base.cols fresh
      → RowsShow rs fresh
      → Due base.force_full rs old fresh
      → (after : em.RenderState) × (read_rows em y rs (painted_rows base render pre flag_pre old)
          ≡ (painted_rows base after pre flag_pre fresh, ok tt))
  unfolding read_rows
  read_rows-painted clears base render y pre flag_pre [] [] [] at_y at_flag wo wn shows due =
      (render, refl)
  read_rows-painted clears base render y pre flag_pre (o ∷ old) (n ∷ fresh) (r ∷ rs) at_y at_flag
        (o_wide, wo) (n_wide, wn) (shown, shows) (here, due) =
      let same : length o.1 ≡ length n.1 = o_wide ∙ sym n_wide in
      let (first, e) =
        visit_row-painted clears base render y pre flag_pre o n old r at_y at_flag same shown
          here in
      let (after, rest) =
        read_rows-painted clears base first (y + 1) (pre ++ n.1) (flag_pre ++ n.0 ∷ []) old fresh rs
          (grind (arith, length-append pre n.1)) (omega (arith, length-append flag_pre (n.0 ∷ [])))
          wo wn shows due in
      (
        after,
        ap (λ s. resume s (λ done. read_rows em (y + 1) rs)) e
            ∙ ap (read_rows em (y + 1) rs) (painted_rows-cons base first pre flag_pre n old)
            ∙ rest
            ∙ ap (λ s. (s, ok tt)) (sym (painted_rows-cons base after pre flag_pre n fresh)),
      )
  read_rows-painted clears base render y pre flag_pre [] [] (r ∷ rs) at_y at_flag wo wn shows due =
      absurd shows
  read_rows-painted clears base render y pre flag_pre [] (n ∷ fresh) [] at_y at_flag wo wn shows
        due =
      absurd shows
  read_rows-painted clears base render y pre flag_pre [] (n ∷ fresh) (r ∷ rs) at_y at_flag wo wn
        shows due =
      absurd due
  read_rows-painted clears base render y pre flag_pre (o ∷ old) [] [] at_y at_flag wo wn shows due =
      absurd due
  read_rows-painted clears base render y pre flag_pre (o ∷ old) [] (r ∷ rs) at_y at_flag wo wn shows
        due =
      absurd shows
  read_rows-painted clears base render y pre flag_pre (o ∷ old) (n ∷ fresh) [] at_y at_flag wo wn
        shows due =
      absurd shows
