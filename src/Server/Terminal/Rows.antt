-- ===== src/Server/Terminal/Rows.antt =====
-- What the emulator shows as a list of rows, read whole, and the flat vectors of a grid that hold
-- such rows one after the other.
use rumsh.Prelude.{
  ℕ, zero, suc, ◌+◌, ◌*◌, ◌≡◌, ◌⊎◌, refl, ap, ◌∙◌, Bool, true, false, List, [], ◌∷◌, ◌++◌, ok,
  length, length-append, lt→ltb, sym, set, replicate, length-replicate, set_index, arith,
}
use rumsh.Protocol.Grid.{LocalCellData}
use rumsh.Server.Emulator.{EmulatedCell, EmulatedRow}
use rumsh.Server.Terminal.Cells.{read_cell}

-- The wrap flag of a row and its cells.
abbrev pub RowContent : Type 0
RowContent = Bool × List LocalCellData

abbrev pub cells_of : List RowContent → List LocalCellData
cells_of [] = []
cells_of ((wrapped, cells) ∷ rest) = cells ++ cells_of rest

abbrev pub flags_of : List RowContent → List Bool
flags_of [] = []
flags_of ((wrapped, cells) ∷ rest) = wrapped ∷ flags_of rest

-- Every row has `cols` cells.
abbrev pub Wide : ℕ → List RowContent → Type 0
Wide cols [] = Unit
Wide cols ((wrapped, cells) ∷ rest) = (length cells ≡ cols) × Wide cols rest

-- The cells are read as these, without a failure.
abbrev pub ReadAs : List EmulatedCell → List LocalCellData → Type 0
ReadAs [] [] = Unit
ReadAs (c ∷ cs) (n ∷ ns) = (read_cell c ≡ ok n) × ReadAs cs ns
ReadAs cs ns = ⊥

-- The emulator's row has this content, and no read of it fails.
pub record RowShows (r : EmulatedRow) (content : RowContent) : Type 0 where
  pub raw : List EmulatedCell
  pub wrapped : r.is_wrapped ≡ ok content.0
  pub listed : r.cells ≡ ok raw
  pub cells : ReadAs raw content.1

abbrev pub RowsShow : List EmulatedRow → List RowContent → Type 0
RowsShow [] [] = Unit
RowsShow (r ∷ rs) (c ∷ cs) = RowShows r c × RowsShow rs cs
RowsShow rs cs = ⊥

-- The emulator marks each row whose content is not that of `old`.
abbrev pub Marks : List EmulatedRow → List RowContent → List RowContent → Type 0
Marks [] [] [] = Unit
Marks (r ∷ rs) (o ∷ old) (n ∷ new) =
    ((r.dirty ≡ ok true) ⊎ ((r.dirty ≡ ok false) × (o ≡ n))) × Marks rs old new
Marks rs old new = ⊥

pub length-cells_of :
    (cols : ℕ) (rows : List RowContent)
    → Wide cols rows
    → length (cells_of rows) ≡ length rows * cols
length-cells_of cols [] w = omega arith
length-cells_of cols ((f, cells) ∷ rest) (here, w) =
    let tail = length-cells_of cols rest w in
    omega (arith, length-append cells (cells_of rest), tail)

pub length-flags_of : (rows : List RowContent) → length (flags_of rows) ≡ length rows
length-flags_of [] = refl
length-flags_of ((f, cells) ∷ rest) = ap suc (length-flags_of rest)

-- A blank grid is made of blank rows.
abbrev pub blank_rows : ℕ → ℕ → LocalCellData → List RowContent
blank_rows zero cols cell = []
blank_rows (suc n) cols cell = (false, replicate cols cell) ∷ blank_rows n cols cell

pub blank_rows-Wide : (n cols : ℕ) (cell : LocalCellData) → Wide cols (blank_rows n cols cell)
blank_rows-Wide zero cols cell = tt
blank_rows-Wide (suc n) cols cell = (length-replicate cols cell, blank_rows-Wide n cols cell)

pub length-blank_rows : (n cols : ℕ) (cell : LocalCellData) → length (blank_rows n cols cell) ≡ n
length-blank_rows zero cols cell = refl
length-blank_rows (suc n) cols cell = ap suc (length-blank_rows n cols cell)

replicate-add {ℓ} :
    {A : Type ℓ} (m n : ℕ) (a : A) → replicate (m + n) a ≡ replicate m a ++ replicate n a
replicate-add zero n a = ap (λ k. replicate k a) (omega arith)
replicate-add (suc m) n a =
    ap (λ k. replicate k a) {y = suc (m + n)} (omega arith) ∙ ap (◌∷◌ a) (replicate-add m n a)

pub cells_of-blank_rows :
    (n cols : ℕ) (cell : LocalCellData)
    → cells_of (blank_rows n cols cell) ≡ replicate (cols * n) cell
cells_of-blank_rows zero cols cell = ap (λ k. replicate k cell) {x = 0} (omega arith)
cells_of-blank_rows (suc n) cols cell =
    ap (λ cells. replicate cols cell ++ cells) (cells_of-blank_rows n cols cell)
    ∙ sym (replicate-add cols (cols * n) cell)
    ∙ ap (λ k. replicate k cell) (grind arith)

pub flags_of-blank_rows :
    (n cols : ℕ) (cell : LocalCellData) → flags_of (blank_rows n cols cell) ≡ replicate n false
flags_of-blank_rows zero cols cell = refl
flags_of-blank_rows (suc n) cols cell = ap (◌∷◌ false) (flags_of-blank_rows n cols cell)

-- A write just past a prefix.
pub set-append_head {ℓ} :
    {A : Type ℓ} (pre : List A) (o n : A) (post : List A)
    → set (pre ++ o ∷ post) (length pre) n ≡ pre ++ n ∷ post
set-append_head [] o n post = refl
set-append_head (p ∷ pre) o n post = ap (◌∷◌ p) (set-append_head pre o n post)

pub set_index-append_head {ℓ} :
    {A : Type ℓ} (pre : List A) (o n : A) (post : List A)
    → set_index (pre ++ o ∷ post) (length pre) n ≡ ok (pre ++ n ∷ post)
set_index-append_head pre o n post =
    rw
      (lt→ltb (length pre) (length (pre ++ o ∷ post)) (omega (arith, length-append pre (o ∷ post))))
      (ap ok (set-append_head pre o n post))
