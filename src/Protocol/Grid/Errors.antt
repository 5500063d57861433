-- ===== src/Protocol/Grid/Errors.antt =====
-- `patch` and frames that do not fit.
use rumsh.Prelude.{
  ℕ, ◌+◌, ◌*◌, ◌<◌, ◌≡◌, refl, List, [], ◌∷◌, ltb, leb, length, set, length-set, length-replicate,
  arith, ◌∙◌, Result, ok, err, bail, Bool, true, false, ◌&&◌, Bool-cases, inl, inr, lt→ltb, ◌==◌,
  ==→≡, ap,
}
use rumsh.Protocol.Grid.{
  GridState, LocalCellData, CellUpdate, RowUpdate, FrameUpdate, Screen, default_cell, patch_cells,
  patch_rows, patch_base, patch,
}
use rumsh.Protocol.Grid.Roundtrip.Bases.{IsValid}

-- Every column and every row of the updates lies on the screen.
abbrev pub columns_fit : ℕ → List CellUpdate → Bool
columns_fit cols [] = true
columns_fit cols (u ∷ us) = ltb u.x cols && columns_fit cols us

abbrev pub rows_fit : ℕ → ℕ → List RowUpdate → Bool
rows_fit cols rows [] = true
rows_fit cols rows (r ∷ rs) = ltb r.y rows && columns_fit cols r.cells && rows_fit cols rows rs

abbrev pub fits : FrameUpdate → Bool
fits d = rows_fit d.cols d.rows d.row_updates

-- A screen of the right size, or a refusal, by the test.
pub record CellsEnd (size : ℕ) (fit : Bool) (r : Result (List LocalCellData)) : Type 0 where
  pub done : fit ≡ true → (out : List LocalCellData) × (r ≡ ok out) × (length out ≡ size)
  pub refused : fit ≡ false → r ≡ err bail

pub record ScreenEnd (cols rows : ℕ) (fit : Bool) (r : Result Screen) : Type 0 where
  pub done :
      fit ≡ true
      → (out : Screen) × (r ≡ ok out) × (length out.0 ≡ cols * rows) × (length out.1 ≡ rows)
  pub refused : fit ≡ false → r ≡ err bail

module _ (cols rows : ℕ) where
  patch_cells_end :
      (y : ℕ) (us : List CellUpdate) (cells : List LocalCellData)
      → y < rows
      → length cells ≡ cols * rows
      → CellsEnd (cols * rows) (columns_fit cols us) (patch_cells cols y us cells)
  unfolding patch_cells
  patch_cells_end y [] cells hy size = record { done = λ h. (cells, refl, size); refused = λ h. cc }
  patch_cells_end y (u ∷ us) cells hy size = elim (Bool-cases (ltb u.x cols)) [
    | inr off ↦
        let out : leb cols u.x ≡ true = ground arith in
        record { done = λ h. absurd (ground arith); refused = λ h. rw out }
    | inl on ↦
        let inside : leb cols u.x ≡ false = ground arith in
        let lt : u.x < cols = ground arith in
        let room : y * cols + u.x < length cells = rw size (grind arith) in
        let rest =
          patch_cells_end y us (set cells (y * cols + u.x) u.cell) hy
            (length-set cells (y * cols + u.x) u.cell ∙ size) in
        let now = lt→ltb (y * cols + u.x) (length cells) room in
        record {
          done = λ h. rw (inside, now) (rest.done (ground arith));
          refused = λ h. rw (inside, now) (rest.refused (ground arith));
        }
  ]

  patch_rows_end :
      (rs : List RowUpdate) (cells : List LocalCellData) (wrapped : List Bool)
      → length cells ≡ cols * rows
      → length wrapped ≡ rows
      → ScreenEnd cols rows (rows_fit cols rows rs) (patch_rows cols rows rs (cells, wrapped))
  unfolding patch_rows
  patch_rows_end [] cells wrapped size wsize = record {
    done = λ h. ((cells, wrapped), refl, size, wsize);
    refused = λ h. cc;
  }
  patch_rows_end (r ∷ rs) cells wrapped size wsize = elim (Bool-cases (ltb r.y rows)) [
    | inr off ↦
        let out : leb rows r.y ≡ true = ground arith in
        record { done = λ h. absurd (ground arith); refused = λ h. rw out }
    | inl on ↦
        let inside : leb rows r.y ≡ false = ground arith in
        let lt : r.y < rows = ground arith in
        let now = lt→ltb r.y (length wrapped) (rw wsize lt) in
        let row = patch_cells_end r.y r.cells cells lt size in
        let wsize' = length-set wrapped r.y r.is_wrapped ∙ wsize in
        elim (Bool-cases (columns_fit cols r.cells)) [
          | inr bad ↦
              let e = row.refused bad in
              record { done = λ h. absurd (ground arith); refused = λ h. rw (inside, now, e) }
          | inl good ↦
              let (out, e, osize) = row.done good in
              let rest = patch_rows_end rs out (set wrapped r.y r.is_wrapped) osize wsize' in
              record {
                done = λ h. rw (inside, now, e) (rest.done (ground arith));
                refused = λ h. rw (inside, now, e) (rest.refused (ground arith));
              }
        ]
  ]

patch_base_size :
    (g : GridState) (cols rows : ℕ)
    → IsValid g
    → (length (patch_base g cols rows).0 ≡ cols * rows) × (length (patch_base g cols rows).1 ≡ rows)
unfolding patch_base
patch_base_size g cols rows v = elim (Bool-cases (g.cols == cols)) [
  | inr ec ↦ rw ec (length-replicate (cols * rows) default_cell, length-replicate rows false)
  | inl ec ↦ elim (Bool-cases (g.rows == rows)) [
    | inr er ↦
        rw (ec, er) (length-replicate (cols * rows) default_cell, length-replicate rows false)
    | inl er ↦
        let fc = ==→≡ g.cols cols ec in
        let fr = ==→≡ g.rows rows er in
        rw (ec, er)
          (v.cells_size ∙ ap (λ n. n * g.rows) fc ∙ ap (λ n. cols * n) fr, v.wrapped_size ∙ fr)
  ]
]

-- On a valid grid `patch` never panics, whatever frame arrives: if every row and column of the
-- frame lies on its screen, the result is a valid grid of the frame's size with its cursor, and
-- if one does not, the frame is refused.
pub patch_total :
    (g : GridState) (d : FrameUpdate)
    → IsValid g
    → (fits d ≡ true
        → (g' : GridState) × (patch g d ≡ ok g')
          × IsValid g'
          × (g'.cols ≡ d.cols)
          × (g'.rows ≡ d.rows)
          × (g'.cursor_x ≡ d.cursor_x)
          × (g'.cursor_y ≡ d.cursor_y)
          × (g'.cursor_visible ≡ d.cursor_visible))
      × (fits d ≡ false → patch g d ≡ err bail)
unfolding patch
patch_total g d v =
    let base = patch_base g d.cols d.rows in
    let (csize, wsize) = patch_base_size g d.cols d.rows v in
    let end = patch_rows_end d.cols d.rows d.row_updates base.0 base.1 csize wsize in
    (
      λ h.
          let (out, e, osize, owsize) = end.done h in
          (
            record {
              cols = d.cols;
              rows = d.rows;
              cursor_x = d.cursor_x;
              cursor_y = d.cursor_y;
              cursor_visible = d.cursor_visible;
              cells = out.0;
              row_wrapped = out.1;
            },
            rw e,
            record { cells_size = osize; wrapped_size = owsize },
            refl,
            refl,
            refl,
            refl,
            refl,
          ),
      λ h. rw (end.refused h),
    )
