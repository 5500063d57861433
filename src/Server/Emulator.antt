-- ===== src/Server/Emulator.antt =====
-- The terminal emulator (the crate libghostty_vt) that src/server/state.rs wraps, as a parameter:
-- what it shows is read through a snapshot, row by row and cell by cell, and each read may fail.
use rumsh.Prelude.{ℕ, Bool, List, Option, Result}
use rumsh.Protocol.Grid.{RgbColorUpdate}

pub record CellStyle : Type 0 where
  pub bold : Bool
  pub italic : Bool
  pub inverse : Bool
  -- `style.underline != Underline::None`.
  pub underlined : Bool

-- `graphemes_buf` is what that call leaves in its buffer of `graphemes_len` characters, `graphemes`
-- the text as a vector; both hold code points.
pub record EmulatedCell : Type 0 where
  pub graphemes_len : Result ℕ
  pub graphemes_buf : Result (List ℕ)
  pub graphemes : Result (List ℕ)
  pub fg_color : Result (Option RgbColorUpdate)
  pub bg_color : Result (Option RgbColorUpdate)
  pub style : Result CellStyle

-- `is_wrapped` is that of the raw row.
pub record EmulatedRow : Type 0 where
  pub dirty : Result Bool
  pub is_wrapped : Result Bool
  pub cells : Result (List EmulatedCell)

pub record Snapshot : Type 0 where
  pub cols : Result ℕ
  pub rows : Result ℕ
  pub cursor_visible : Result Bool
  pub cursor_viewport : Result (Option (ℕ × ℕ))
  pub row_iter : Result (List EmulatedRow)

-- `vt_write` gives the answers that the emulator makes to its PTY callback. The render state keeps
-- the dirty marks, which `clear_row` and `set_clean` clear.
pub record Emulator : Type 1 where
  pub Terminal : Type 0
  pub new : ℕ → ℕ → Result Terminal
  pub vt_write : Terminal → List ℕ → Terminal × List (List ℕ)
  pub resize : Terminal → ℕ → ℕ → Result Terminal
  pub RenderState : Type 0
  pub new_render : Result RenderState
  pub update : RenderState → Terminal → Result (RenderState × Snapshot)
  pub clear_row : RenderState → ℕ → Result RenderState
  pub set_clean : RenderState → Result RenderState
