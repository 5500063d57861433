-- ===== src/Client/Echo.antt =====
-- src/client/echo.rs: keys are drawn before the server confirms them, with what is needed to take
-- the drawing back. `u16` coordinates wrap at 2^16; sequence numbers and epochs do not wrap.
pub mod Undo
pub mod Rollback
pub mod Replay
use rumsh.Prelude.{
  ℕ, zero, suc, ◌+◌, ◌*◌, ◌-◌, ◌%◌, min, Bool, true, false, not, ◌&&◌, ◌||◌, List, [], ◌∷◌, ◌++◌,
  Result, ok, err, panic, ◌>>=◌, index, set_index, leb, ltb, ◌==◌, if◌then◌else◌,
}
use rumsh.Protocol.Grid.{LocalCellData, default_cell, plain_cell, u16_mod}
use rumsh.Client.Frame.{TerminalFrame}

pub record OldCell : Type 0 where
  pub x : ℕ
  pub y : ℕ
  pub cell : LocalCellData

pub record PredictionEntry : Type 0 where
  pub seq_num : ℕ
  pub bytes : List ℕ
  pub epoch : ℕ
  pub old_cursor_x : ℕ
  pub old_cursor_y : ℕ
  pub old_cells : List OldCell

pub record LocalEchoEngine : Type 0 where
  pub unconfirmed_inputs : List PredictionEntry
  pub current_epoch : ℕ

unfoldable pub new : LocalEchoEngine
new = record { unconfirmed_inputs = []; current_epoch = 0 }

-- `old_cells.iter().any(|(ox, oy, _)| *ox == x && *oy == y)`.
pub any_at : ℕ → ℕ → List OldCell → Bool
any_at x y [] = false
any_at x y (o ∷ os) = (o.x == x && o.y == y) || any_at x y os

-- `(y + 1).min(rows.saturating_sub(1))`.
abbrev pub line_down : ℕ → ℕ → ℕ
line_down y rows = min ((y + 1) % u16_mod) (rows - 1)

-- Printable ASCII.
abbrev pub is_printable : ℕ → Bool
is_printable b = leb 0x20 b && ltb b 0x7f

-- The frame, and the cells that the current batch has overwritten.
abbrev pub Drawing : Type 0 → Type 0
Drawing F = TerminalFrame F × List OldCell

abbrev pub Echo : Type 0 → Type 0
Echo F = LocalEchoEngine × TerminalFrame F

-- The `while let` loop of `reconcile_frame`.
pub drop_confirmed : ℕ → ℕ → List PredictionEntry → List PredictionEntry
drop_confirmed ack_seq epoch [] = []
drop_confirmed ack_seq epoch (e ∷ es) =
    if leb e.seq_num ack_seq || ltb e.epoch epoch then drop_confirmed ack_seq epoch es else e ∷ es

module _ {F : Type 0} where
  -- Writes a cell that lies on the screen, and keeps what it held at first.
  pub draw_cell : TerminalFrame F → List OldCell → ℕ → ℕ → LocalCellData → Result (Drawing F)
  unfolding any_at
  draw_cell f old x y cell = do
    let idx = y * f.cols + x
    was ← index f.cell_cache idx
    cells ← set_index f.cell_cache idx cell
    ok (
      record f { cell_cache = cells },
      (if any_at x y old then old else old ++ record { x = x; y = y; cell = was } ∷ []),
    )

  pub step_right : TerminalFrame F → TerminalFrame F
  step_right f =
      let x = (f.cursor_x + 1) % u16_mod in
      if leb f.cols x
      then record f { cursor_x = 0; cursor_y = line_down f.cursor_y f.rows }
      else record f { cursor_x = x }

  pub on_screen : TerminalFrame F → Bool
  on_screen f = ltb f.cursor_x f.cols && ltb f.cursor_y f.rows

  pub backspace : TerminalFrame F → List OldCell → Result (Drawing F)
  unfolding draw_cell on_screen
  backspace f old =
      let g = record f { cursor_x = f.cursor_x - 1 } in
      if ltb 0 f.cursor_x
      then (if on_screen g then draw_cell g old g.cursor_x g.cursor_y default_cell else ok (g, old))
      else ok (f, old)

  pub print : TerminalFrame F → List OldCell → ℕ → Result (Drawing F)
  unfolding draw_cell on_screen step_right
  print f old b =
      if is_printable b && on_screen f
      then (draw_cell f old f.cursor_x f.cursor_y (plain_cell b) >>= λ d. ok (step_right d.0, d.1))
      else ok (f, old)

  -- The body of the loop over the bytes.
  pub apply_byte : TerminalFrame F → List OldCell → ℕ → Result (Drawing F)
  unfolding backspace print
  apply_byte f old b =
      if b == b'\r'
      then ok (record f { cursor_x = 0 }, old)
      else if b == b'\n'
      then ok (record f { cursor_x = 0; cursor_y = line_down f.cursor_y f.rows }, old)
      else if b == 0x08 || b == 0x7f
      then backspace f old
      else print f old b

  pub apply_bytes : TerminalFrame F → List OldCell → List ℕ → Result (Drawing F)
  unfolding apply_byte
  apply_bytes f old [] = ok (f, old)
  apply_bytes f old (b ∷ bs) = do (g, old') ← apply_byte f old b; apply_bytes g old' bs

  unfoldable pub apply_keystrokes : LocalEchoEngine → TerminalFrame F → List ℕ → ℕ → Result (Echo F)
  unfolding apply_bytes
  apply_keystrokes engine f bytes seq_num = do
    (g, old) ← apply_bytes f [] bytes
    let entry : PredictionEntry = record {
      seq_num = seq_num;
      bytes = bytes;
      epoch = engine.current_epoch;
      old_cursor_x = f.cursor_x;
      old_cursor_y = f.cursor_y;
      old_cells = old;
    }
    ok (record engine { unconfirmed_inputs = engine.unconfirmed_inputs ++ entry ∷ [] }, g)

  -- The loop over the surviving entries.
  pub reapply : List PredictionEntry → LocalEchoEngine → TerminalFrame F → Result (Echo F)
  unfolding apply_keystrokes
  reapply [] engine f = ok (engine, f)
  reapply (e ∷ es) engine f = do
    (engine', g) ← apply_keystrokes engine f e.bytes e.seq_num
    reapply es engine' g

  unfoldable pub reconcile_frame : LocalEchoEngine → TerminalFrame F → ℕ → Result (Echo F)
  unfolding drop_confirmed reapply
  reconcile_frame engine f ack_seq =
      let surviving = drop_confirmed ack_seq engine.current_epoch engine.unconfirmed_inputs in
      reapply surviving (record engine { unconfirmed_inputs = [] }) f

  -- The inner loop of `abort`, which runs over the old cells from the last to the first.
  pub restore_cells : List OldCell → TerminalFrame F → Result (TerminalFrame F)
  restore_cells [] f = ok f
  restore_cells (o ∷ os) f = do
    g ← restore_cells os f
    let written = set_index g.cell_cache (o.y * g.cols + o.x) o.cell
    let restored = written >>= λ cells. ok (record g { cell_cache = cells })
    if ltb o.x g.cols && ltb o.y g.rows then restored else ok g

  -- The outer loop, from the last entry to the first.
  pub restore_entries : List PredictionEntry → TerminalFrame F → Result (TerminalFrame F)
  unfolding restore_cells
  restore_entries [] f = ok f
  restore_entries (e ∷ es) f = do
    g ← restore_entries es f
    restore_cells e.old_cells (record g { cursor_x = e.old_cursor_x; cursor_y = e.old_cursor_y })

  unfoldable pub abort : LocalEchoEngine → TerminalFrame F → Result (Echo F)
  unfolding restore_entries
  abort engine f = do
    g ← restore_entries engine.unconfirmed_inputs f
    ok (record { unconfirmed_inputs = []; current_epoch = engine.current_epoch + 1 }, g)
