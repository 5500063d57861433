-- ===== src/Client/Echo/Undo.antt =====
-- The invariant of drawing a batch: the cells kept, and the old screen.
use rumsh.Prelude.{
  ℕ, ◌+◌, ◌*◌, ◌<◌, ◌≡◌, ◌≢◌, refl, sym, ap, ap₂, ◌∙◌, Bool, false, ◌&&◌, ◌||◌, List, [], ◌∷◌, ◌++◌,
  ok, ◌==◌, arith, some, length, get_elem?, set, length-set, get_elem?-some, get_elem?-set_ne,
  Bool-cases, inl, inr, lt→ltb, ==-refl,
}
use rumsh.Protocol.Grid.{LocalCellData}
use rumsh.Client.Frame.{TerminalFrame, IsValid}
use rumsh.Client.Echo.{OldCell, any_at, draw_cell}

index_lt : (cols x y x' y' : ℕ) → x < cols → y < y' → y * cols + x < y' * cols + x'
index_lt cols x y x' y' hx hy = grind arith

-- Two positions on the screen with one index are one position.
index_eq :
    (cols x y x' y' : ℕ)
    → x < cols
    → x' < cols
    → (y * cols + x == y' * cols + x') ≡ (x == x' && y == y')
index_eq cols x y x' y' hx hx' =
    ground (arith, index_lt cols x y x' y' hx, index_lt cols x' y' x y hx')

-- Some kept cell has the index `i`.
abbrev pub covers : ℕ → List OldCell → ℕ → Bool
covers cols [] i = false
covers cols (o ∷ os) i = (o.y * cols + o.x == i) || covers cols os i

covers-append :
    (cols : ℕ) (os : List OldCell) (o : OldCell) (i : ℕ)
    → covers cols (os ++ o ∷ []) i ≡ (covers cols os i || (o.y * cols + o.x == i))
covers-append cols [] o i = ground arith
covers-append cols (p ∷ os) o i = ground (arith, covers-append cols os o i)

module _ {F : Type 0} (f : TerminalFrame F) where
  -- `f` with other cells and another cursor: what drawing changes.
  abbrev pub drawn : List LocalCellData → ℕ → ℕ → TerminalFrame F
  drawn cells x y = record f { cell_cache = cells; cursor_x = x; cursor_y = y }

  -- Each kept cell lies on the screen and is the one that `f` has there.
  abbrev pub Kept : List OldCell → Type 0
  Kept [] = Unit
  Kept (o ∷ os) =
      ((o.x < f.cols)
        × (o.y < f.rows)
        × (get_elem? f.cell_cache (o.y * f.cols + o.x) ≡ some o.cell))
      × Kept os

  Kept-append : (os : List OldCell) (o : OldCell) → Kept os → Kept (o ∷ []) → Kept (os ++ o ∷ [])
  Kept-append [] o k h = h
  Kept-append (p ∷ os) o (kp, k) h = (kp, Kept-append os o k h)

  pub record Undoes (cells : List LocalCellData) (old : List OldCell) : Type 0 where
    pub size : length cells ≡ length f.cell_cache
    pub kept : Kept old
    pub same : (i : ℕ) → covers f.cols old i ≡ false → get_elem? cells i ≡ get_elem? f.cell_cache i

  covers-any_at :
      (x y : ℕ) (old : List OldCell)
      → x < f.cols
      → Kept old
      → covers f.cols old (y * f.cols + x) ≡ any_at x y old
  unfolding any_at
  covers-any_at x y [] hx k = refl
  covers-any_at x y (o ∷ os) hx ((ox, oy, e), k) =
      ap₂ ◌||◌ (index_eq f.cols o.x o.y x y ox hx) (covers-any_at x y os hx k)

  module _ (v : IsValid f) where
    pub position-lt : (x y : ℕ) → x < f.cols → y < f.rows → y * f.cols + x < length f.cell_cache
    position-lt x y hx hy = let e = v.cells_size in grind arith

    -- Drawing a cell on the screen succeeds, and can be undone.
    pub draw_cell-Undoes :
        (cells : List LocalCellData) (cx cy : ℕ) (old : List OldCell) (x y : ℕ)
        (cell : LocalCellData)
        → x < f.cols
        → y < f.rows
        → Undoes cells old
        → (cells' : List LocalCellData) × (old' : List OldCell) × (draw_cell
              (drawn cells cx cy)
              old
              x
              y
              cell
            ≡ ok (drawn cells' cx cy, old'))
          × Undoes cells' old'
    unfolding draw_cell
    draw_cell-Undoes cells cx cy old x y cell hx hy u =
        let i = y * f.cols + x in
        let lt : i < length cells = rw u.size (position-lt x y hx hy) in
        let (was, e) = get_elem?-some cells i lt in
        let hit = covers-any_at x y old hx u.kept in
        let elsewhere = λ (j : ℕ) (ne : i ≢ j). get_elem?-set_ne cells i j cell ne in
        elim (Bool-cases (any_at x y old)) [
          | inl again ↦ (
            set cells i cell,
            old,
            rw (e, lt→ltb i (length cells) lt) (rw again),
            record {
              size = length-set cells i cell ∙ u.size;
              kept = u.kept;
              same = λ j c.
                  elsewhere j (λ (p : i ≡ j). cc (ap (covers f.cols old) p, hit, again, c))
                  ∙ u.same j c;
            },
          )
          | inr first ↦ (
            set cells i cell,
            old ++ record { x = x; y = y; cell = was } ∷ [],
            rw (e, lt→ltb i (length cells) lt) (rw first),
            record {
              size = length-set cells i cell ∙ u.size;
              kept =
                  Kept-append old (record { x = x; y = y; cell = was }) u.kept
                    ((hx, hy, sym (u.same i (hit ∙ first)) ∙ e), tt);
              same = λ j c.
                  let both =
                    sym (covers-append f.cols old (record { x = x; y = y; cell = was }) j) ∙ c in
                  let apart : (i == j) ≡ false = ground arith in
                  elsewhere j (λ (p : i ≡ j). cc (ap (◌==◌ i) p, ==-refl i, apart))
                  ∙ u.same j (ground arith);
            },
          )
        ]
