-- ===== src/Tests/GridRuns.antt =====
-- Grids, frames and their application.
use rumsh.Prelude.{
  ℕ, ◌+◌, ◌*◌, ◌<◌, ◌≡◌, refl, [], ◌∷◌, ◌++◌, none, some, length, get_elem?, replicate,
  length-append, length-replicate, get_elem?-append_left, arith, ◌∙◌, sym, ok, err, bail, true,
  false, ap,
}
use rumsh.Protocol.Grapheme
use rumsh.Protocol.Grid.{
  GridState, LocalCellData, FrameUpdate, plain_cell, default_cell, diff_from, patch, blank,
  LocalCellData-discrete,
}
use rumsh.Protocol.Grid.Roundtrip.{diff_from-patch, diff_from-patch-blank}
use rumsh.Protocol.Grid.Roundtrip.Bases.{IsValid}
use rumsh.Protocol.Grid.Errors.{patch_total, fits}
use rumsh.Protocol.Grid.Overflow.{diff_from_blind, cursor_frame}

abbrev before : GridState
before = record {
  cols = 2;
  rows = 2;
  cursor_x = 0;
  cursor_y = 0;
  cursor_visible = true;
  cells = plain_cell b'a' ∷ plain_cell b'b' ∷ default_cell ∷ default_cell ∷ [];
  row_wrapped = false ∷ false ∷ [];
}

abbrev after : GridState
after = record {
  cols = 2;
  rows = 2;
  cursor_x = 1;
  cursor_y = 1;
  cursor_visible = true;
  cells = plain_cell b'a' ∷ plain_cell b'z' ∷ default_cell ∷ plain_cell b'c' ∷ [];
  row_wrapped = true ∷ false ∷ [];
}

abbrev change : FrameUpdate
change = record {
  ref_seq = 7;
  cols = 2;
  rows = 2;
  cursor_x = 1;
  cursor_y = 1;
  cursor_visible = true;
  row_updates =
      record { y = 0; cells = record { x = 1; cell = plain_cell b'z' } ∷ []; is_wrapped = true }
      ∷ record { y = 1; cells = record { x = 1; cell = plain_cell b'c' } ∷ []; is_wrapped = false }
      ∷ [];
  is_echo_enabled = true;
}

change_made : diff_from after (some before) 7 true ≡ ok change
unfolding diff_from LocalCellData-discrete Grapheme.new
change_made = refl

before-IsValid : IsValid before
before-IsValid = record { cells_size = refl; wrapped_size = refl }

after-IsValid : IsValid after
after-IsValid = record { cells_size = refl; wrapped_size = refl }

diff_from-patch_example :
    (d : FrameUpdate) × (diff_from after (some before) 7 true ≡ ok d) × (patch before d ≡ ok after)
diff_from-patch_example =
    diff_from-patch after before 7 true after-IsValid before-IsValid (omega arith)

diff_from-patch-blank_example :
    (d : FrameUpdate) × (diff_from after none 0 false ≡ ok d) × (patch (blank 2 2) d ≡ ok after)
diff_from-patch-blank_example = diff_from-patch-blank after 0 false after-IsValid (omega arith)

patch_total_example :
    (fits change ≡ true
      → (g' : GridState) × (patch before change ≡ ok g')
        × IsValid g'
        × (g'.cols ≡ 2)
        × (g'.rows ≡ 2)
        × (g'.cursor_x ≡ 1)
        × (g'.cursor_y ≡ 1)
        × (g'.cursor_visible ≡ true))
    × (fits change ≡ false → patch before change ≡ err bail)
patch_total_example = patch_total before change before-IsValid

-- A row off the screen is refused.
row_refused :
    patch before
      (record change { row_updates = record { y = 50; cells = []; is_wrapped = false } ∷ [] })
    ≡ err bail
unfolding patch
row_refused = refl

-- 256 columns and 257 rows: one row of cells lies past index 2^16.
tall : LocalCellData → GridState
tall c = record {
  cols = 256;
  rows = 257;
  cursor_x = 0;
  cursor_y = 0;
  cursor_visible = true;
  cells = replicate 65536 default_cell ++ replicate 256 c;
  row_wrapped = replicate 257 false;
}

-- Stated of any two stretches, so that no long list is computed.
stretches_size : (m n : ℕ) (c d : LocalCellData) → length (replicate m c ++ replicate n d) ≡ m + n
stretches_size m n c d =
    length-append (replicate m c) (replicate n d)
    ∙ omega (arith, length-replicate m c, length-replicate n d)

stretches_low :
    (m n i : ℕ) (c d e : LocalCellData)
    → i < m
    → get_elem? (replicate m c ++ replicate n d) i ≡ get_elem? (replicate m c ++ replicate n e) i
stretches_low m n i c d e h =
    let lt : i < length (replicate m c) = omega (arith, length-replicate m c) in
    get_elem?-append_left (replicate m c) (replicate n d) i lt
    ∙ sym (get_elem?-append_left (replicate m c) (replicate n e) i lt)

tall-IsValid : (c : LocalCellData) → IsValid (tall c)
unfolding tall
tall-IsValid c = record {
  cells_size = stretches_size 65536 256 default_cell c;
  wrapped_size = length-replicate 257 false;
}

tall_low :
    (c d : LocalCellData) (i : ℕ)
    → i < 65536
    → get_elem? (tall c).cells i ≡ get_elem? (tall d).cells i
unfolding tall
tall_low c d i h = stretches_low 65536 256 i default_cell c d h

tall_cols : (c : LocalCellData) → (tall c).cols ≡ 256
unfolding tall
tall_cols c = refl

tall_rows : (c : LocalCellData) → (tall c).rows ≡ 257
unfolding tall
tall_rows c = refl

tall_wraps : (c d : LocalCellData) → (tall c).row_wrapped ≡ (tall d).row_wrapped
unfolding tall
tall_wraps c d = refl

-- The 256 cells of the last row changed from spaces to `x`, and the frame is empty.
diff_from_blind_example :
    diff_from (tall (plain_cell b'x')) (some (tall default_cell)) 3 true
    ≡ ok (cursor_frame (tall (plain_cell b'x')) 3 true)
diff_from_blind_example =
    let x = plain_cell b'x' in
    diff_from_blind (tall x) (tall default_cell) 3 true (tall-IsValid x)
      (tall_cols default_cell ∙ sym (tall_cols x)) (tall_rows default_cell ∙ sym (tall_rows x))
      (omega (arith, tall_cols x, tall_rows x, ap (λ n. n * (tall x).rows) (tall_cols x)))
      (tall_low x default_cell) (tall_wraps x default_cell)
