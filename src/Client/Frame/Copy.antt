-- ===== src/Client/Frame/Copy.antt =====
-- `copy_to`, whatever the sizes of the two frames.
use rumsh.Prelude.{◌≡◌, refl, List, ok, length, ◌==◌, Bool-cases, inl, inr}
use rumsh.Client.Frame.{TerminalFrame, copy_list, copy_to}

copy_list-ok : {A : Type 0} (dest src : List A) → copy_list dest src ≡ ok src
copy_list-ok dest src = elim (Bool-cases (length dest == length src)) [
  | inl same ↦ rw same refl
  | inr other ↦ rw other refl
]

-- The destination becomes the frame itself.
pub copy_to-ok : {F : Type 0} (self dest : TerminalFrame F) → copy_to self dest ≡ ok self
unfolding copy_to
copy_to-ok self dest =
    rw (copy_list-ok dest.cell_cache self.cell_cache, copy_list-ok dest.row_dirty self.row_dirty)
      refl
