-- ===== src/Client/Paint/Rows.antt =====
-- The loop over the rows in `paint` of src/client/terminal.rs, obeyed by a terminal.
use rumsh.Prelude.{
  ℕ, zero, suc, ◌+◌, ◌<◌, ◌≤◌, Bool, true, false, not, ◌&&◌, List, [], ◌++◌, Option, none, some,
  Result, ok, get_elem?, set, length, length-set, replicate, length-replicate, get_elem?_ext,
  get_elem?-some, get_elem?-none, get_elem?-set_self, get_elem?-set_ne, get_elem?-replicate, ltb,
  lt→ltb, ◌==◌, if◌then◌else◌, ◌≡◌, refl, ◌∙◌, sym, ap, arith, inl, inr, Bool-cases,
}
use rumsh.Protocol.Grid.{u16_mod}
use rumsh.Client.Frame.{TerminalFrame, IsValid}
use rumsh.Client.Paint.{Style, Command, is_corner, paint_row, paint_rows}
use rumsh.Client.Paint.Screen.{Look, Shown, Screen, obey_all, obey_all-append, PenIs}
use rumsh.Client.Paint.Row.{AllNarrow, RowShown, paint_row-RowShown, frame_cell, row_after}

abbrev pub is_marked : List Bool → ℕ → Bool
is_marked marks y = elim (get_elem? marks y) [ none ↦ false | some marked ↦ marked ]

is_marked-replicate : (n y : ℕ) → is_marked (replicate n false) y ≡ false
is_marked-replicate zero y = refl
is_marked-replicate (suc n) zero = refl
is_marked-replicate (suc n) (suc y) = is_marked-replicate n y

module _ {F : Type 0} where
  -- The marked rows are the frame's, but for the corner; the rest is as before.
  abbrev pub frame_after : TerminalFrame F → (ℕ → ℕ → Shown) → ℕ → ℕ → Shown
  frame_after f cells px py =
      if is_marked f.row_dirty py && ltb px f.cols && not (is_corner f px py)
      then frame_cell f px py
      else cells px py

  abbrev pub with_marks : List Bool → TerminalFrame F → TerminalFrame F
  with_marks marks f = record f { row_dirty = marks }

  -- Row `y` and then the others, without its mark.
  frame_after-row :
      (f : TerminalFrame F) (y : ℕ) (cells : ℕ → ℕ → Shown)
      → y < length f.row_dirty
      → get_elem? f.row_dirty y ≡ some true
      → (px py : ℕ)
      → frame_after (with_marks (set f.row_dirty y false) f) (row_after f y 0 cells) px py
        ≡ frame_after f cells px py
  frame_after-row f y cells h marked px py = elim (Bool-cases (py == y)) [
    | inl here ↦
        let e : py ≡ y = ground arith in
        let cleared : is_marked (set f.row_dirty y false) py ≡ false =
          rw (e, get_elem?-set_self f.row_dirty y false h, is_marked) refl in
        let before : is_marked f.row_dirty py ≡ true = rw (e, marked, is_marked) refl in
        ground arith
    | inr elsewhere ↦
        let kept : is_marked (set f.row_dirty y false) py ≡ is_marked f.row_dirty py =
          rw (get_elem?-set_ne f.row_dirty y py false (λ e. ground arith), is_marked) refl in
        ground arith
  ]

  -- No row above `y` is marked.
  abbrev pub UnmarkedTo : ℕ → TerminalFrame F → Type 0
  UnmarkedTo y f = (i : ℕ) → i < y → get_elem? f.row_dirty i ≡ some false

  unmarked :
      (f : TerminalFrame F) → IsValid f → UnmarkedTo f.rows f → f.row_dirty ≡ replicate f.rows false
  unmarked f valid clean = get_elem?_ext _ _ (λ i. elim (Bool-cases (ltb i f.rows)) [
    | inl inside ↦
        let h : i < f.rows = ground arith in clean i h ∙ sym (get_elem?-replicate f.rows false i h)
    | inr outside ↦
        let size = length-replicate f.rows false in
        let sized = valid.rows_size in
        let h : f.rows ≤ i = ground arith in
        get_elem?-none f.row_dirty i (omega arith)
        ∙ sym (get_elem?-none (replicate f.rows false) i (omega arith))
  ])

  UnmarkedTo-suc :
      (y : ℕ) (f : TerminalFrame F)
      → UnmarkedTo y f
      → get_elem? f.row_dirty y ≡ some false
      → UnmarkedTo (y + 1) f
  UnmarkedTo-suc y f clean here i h = elim (Bool-cases (i == y)) [
    | inl same ↦ let e : i ≡ y = ground arith in rw e here
    | inr other ↦ clean i (ground arith)
  ]

  UnmarkedTo-set :
      (y : ℕ) (f : TerminalFrame F)
      → y < length f.row_dirty
      → UnmarkedTo y f
      → UnmarkedTo (y + 1) (with_marks (set f.row_dirty y false) f)
  UnmarkedTo-set y f h clean =
      UnmarkedTo-suc y (with_marks (set f.row_dirty y false) f)
        (λ i lt. get_elem?-set_ne f.row_dirty y i false (λ e. omega arith) ∙ clean i lt)
        (get_elem?-set_self f.row_dirty y false h)

  IsValid-set :
      (y : ℕ) (f : TerminalFrame F) → IsValid f → IsValid (with_marks (set f.row_dirty y false) f)
  IsValid-set y f valid = record {
    cells_size = valid.cells_size;
    rows_size = length-set f.row_dirty y false ∙ valid.rows_size;
  }

module _ (erase : Look → Shown) (columns : List ℕ → ℕ) {F : Type 0} where
  pub record RowsShown (f : TerminalFrame F) (s : Screen)
      (m : Result (TerminalFrame F × List Command × Bool)) : Type 0 where
    pub commands : List Command
    pub real_update : Bool
    pub returns : m ≡ ok (with_marks (replicate f.rows false) f, commands, real_update)
    pub cells :
        (px py : ℕ) → (obey_all erase columns commands s).cells px py ≡ frame_after f s.cells px py

  done-RowsShown :
      (f : TerminalFrame F) (active : Option Style) (s : Screen)
      → IsValid f
      → UnmarkedTo f.rows f
      → RowsShown f s (ok (f, [], false))
  unfolding obey_all
  done-RowsShown f active s valid clean =
      let none_marked = unmarked f valid clean in
      record {
        commands = [];
        real_update = false;
        returns = ap (λ marks. ok (with_marks marks f, [], false)) none_marked;
        cells = λ px py.
            let off : is_marked f.row_dirty py ≡ false =
              rw none_marked (is_marked-replicate f.rows py) in
            rw off refl;
      }

  module _ (y : ℕ) (f : TerminalFrame F) (active : Option Style) (s : Screen) (left : ℕ) where
    skip-RowsShown :
        get_elem? f.row_dirty y ≡ some false
        → RowsShown f s (paint_rows left (y + 1) f active)
        → RowsShown f s (paint_rows (suc left) y f active)
    unfolding paint_rows
    skip-RowsShown marked rest = record {
      commands = rest.commands;
      real_update = rest.real_update;
      returns = rw (marked, rest.returns) refl;
      cells = rest.cells;
    }

    cleaned : TerminalFrame F
    cleaned = with_marks (set f.row_dirty y false) f

    row-RowsShown :
        (h : y < length f.row_dirty)
        → get_elem? f.row_dirty y ≡ some true
        → (row : RowShown erase columns cleaned y 0 s (paint_row f.cols cleaned y 0 false active))
        → RowsShown cleaned
            (obey_all erase columns row.painted.0 s)
            (paint_rows left (y + 1) cleaned row.painted.1)
        → RowsShown f s (paint_rows (suc left) y f active)
    unfolding paint_rows cleaned
    row-RowsShown h marked row rest = record {
      commands = row.painted.0 ++ rest.commands;
      real_update = true;
      returns = rw (marked, lt→ltb y (length f.row_dirty) h, row.returns, rest.returns) refl;
      cells = λ px py.
          ap (λ (t : Screen). t.cells px py)
            (obey_all-append erase columns row.painted.0 rest.commands s)
          ∙ rest.cells px py
          ∙ ap (λ c. frame_after cleaned (λ qx qy. c) px py) (row.cells px py)
          ∙ frame_after-row f y s.cells h marked px py;
    }

  pub paint_rows-RowsShown :
      (left y : ℕ) (f : TerminalFrame F) (active : Option Style) (s : Screen)
      → IsValid f
      → f.cols < u16_mod
      → AllNarrow erase columns f
      → left + y ≡ f.rows
      → PenIs active s.pen
      → UnmarkedTo y f
      → RowsShown f s (paint_rows left y f active)
  unfolding paint_rows cleaned
  paint_rows-RowsShown zero y f active s valid small narrow end pen clean =
      done-RowsShown f active s valid (λ i lt. clean i (omega arith))
  paint_rows-RowsShown (suc left) y f active s valid small narrow end pen clean =
      let sized = valid.rows_size in
      let h : y < length f.row_dirty = omega arith in
      let (b, found) = get_elem?-some f.row_dirty y h in
      elim (Bool-cases b) [
        | inl yes_marked ↦
            let marked : get_elem? f.row_dirty y ≡ some true = found ∙ ap some yes_marked in
            let valid_cleaned = IsValid-set y f valid in
            let row =
              paint_row-RowShown erase columns (cleaned y f active s left) y valid_cleaned small
                narrow (omega arith) f.cols 0 false active s (omega arith) pen
                (λ m lt. absurd (cc m)) in
            row-RowsShown y f active s left h marked row (
              paint_rows-RowsShown left (y + 1) (cleaned y f active s left) row.painted.1
                (obey_all erase columns row.painted.0 s) valid_cleaned small narrow (omega arith)
                row.pen (UnmarkedTo-set y f h clean))
        | inr not_marked ↦
            let marked : get_elem? f.row_dirty y ≡ some false = found ∙ ap some not_marked in
            skip-RowsShown y f active s left marked (
              paint_rows-RowsShown left (y + 1) f active s valid small narrow (omega arith) pen
                (UnmarkedTo-suc y f clean marked))
      ]
