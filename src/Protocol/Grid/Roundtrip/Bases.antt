-- ===== src/Protocol/Grid/Roundtrip/Bases.antt =====
-- Valid grids, and what a peer must hold for a difference to apply.
use rumsh.Prelude.{
  ℕ, ◌*◌, ◌<◌, ◌≡◌, refl, some, none, Option, length, get_elem?-replicate, length-replicate, inl,
  inr, arith, ok, ◌>>=◌, index, Bool, false, not, bool_eq, Bool-cases, replicate, ◌==◌, ==→≡,
}
use rumsh.Protocol.Grid.{
  GridState, Screen, default_cell, use_ref, from_cell, wrapping_changed, patch_base, blank,
}

-- A cell for each position and a wrap flag for each row.
pub record IsValid (g : GridState) : Type 0 where
  pub cells_size : length g.cells ≡ g.cols * g.rows
  pub wrapped_size : length g.row_wrapped ≡ g.rows

pub blank-IsValid : (cols rows : ℕ) → IsValid (blank cols rows)
unfolding blank
blank-IsValid cols rows = record {
  cells_size = length-replicate (cols * rows) default_cell;
  wrapped_size = length-replicate rows false;
}

-- What the peer starts from holds the cells and flags that the difference is taken against.
pub record Refers (new : GridState) (ref : Option GridState) (s : Screen) : Type 0 where
  pub cells_size : length s.0 ≡ new.cols * new.rows
  pub wrapped_size : length s.1 ≡ new.rows
  pub cell : (i : ℕ) → i < new.cols * new.rows → from_cell ref i ≡ index s.0 i
  pub wrap :
      (w : Bool) (y : ℕ)
      → y < new.rows
      → wrapping_changed ref w y ≡ (index s.1 y >>= λ was. ok (not (bool_eq w was)))

-- With no usable reference, the peer starts from a blank screen.
pub blank-Refers :
    (new : GridState)
    → Refers new none (replicate (new.cols * new.rows) default_cell, replicate new.rows false)
unfolding from_cell wrapping_changed
blank-Refers new = record {
  cells_size = length-replicate (new.cols * new.rows) default_cell;
  wrapped_size = length-replicate new.rows false;
  cell = λ i lt. rw (get_elem?-replicate (new.cols * new.rows) default_cell i lt);
  wrap = λ w y lt. rw (get_elem?-replicate new.rows false y lt) (ground arith);
}

self-Refers :
    (new ref : GridState)
    → IsValid ref
    → ref.cols ≡ new.cols
    → ref.rows ≡ new.rows
    → Refers new (some ref) (ref.cells, ref.row_wrapped)
unfolding from_cell wrapping_changed
self-Refers new ref v ec er = record {
  cells_size = rw (v.cells_size, ec, er);
  wrapped_size = rw (v.wrapped_size, er);
  cell = λ i lt. refl;
  wrap = λ w y lt. refl;
}

-- The two sides agree on when the reference has the right size.
pub ref-Refers :
    (new ref : GridState)
    → IsValid ref
    → Refers new (use_ref new.cols new.rows (some ref)) (patch_base ref new.cols new.rows)
unfolding use_ref patch_base
ref-Refers new ref v = elim (Bool-cases (ref.cols == new.cols)) [
  | inr ec ↦ rw ec (blank-Refers new)
  | inl ec ↦ elim (Bool-cases (ref.rows == new.rows)) [
    | inr er ↦ rw (ec, er) (blank-Refers new)
    | inl er ↦ rw (ec, er) (self-Refers new ref v (==→≡ _ _ ec) (==→≡ _ _ er))
  ]
]
