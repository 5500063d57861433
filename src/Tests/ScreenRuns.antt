-- ===== src/Tests/ScreenRuns.antt =====
-- The client's screen: its update from a grid, and the local echo.
use rumsh.Prelude.{ℕ, ◌≡◌, refl, true, false, List, [], ◌∷◌, ok}
use rumsh.Protocol.Grapheme
use rumsh.Protocol.Grid.{GridState, plain_cell, default_cell, LocalCellData-discrete}
use rumsh.Protocol.Grid.Roundtrip.Bases
use rumsh.Client.Frame.{TerminalFrame, IsValid, update_from_grid_state}
use rumsh.Client.Frame.Update.{Shows, update_from_grid_state-Shows}
use rumsh.Client.Echo.{LocalEchoEngine, abort, reconcile_frame}
use rumsh.Client.Terminal.{TerminalInner, predict_input, consume_updates}
use rumsh.Client.Terminal.Paints.{predict_input-consume_updates}
use rumsh.Client.Echo.Replay.{fresh, reconcile_frame-type_all}
use rumsh.Client.Echo.Rollback.{type_all, abort-type_all}

abbrev shell : TerminalFrame ℕ
shell = record {
  cols = 3;
  rows = 2;
  cell_cache =
      plain_cell b'$'
      ∷ default_cell
      ∷ default_cell
      ∷ default_cell
      ∷ default_cell
      ∷ default_cell
      ∷ [];
  row_dirty = false ∷ false ∷ [];
  cursor_x = 2;
  cursor_y = 0;
  cursor_visible = true;
  dirty = false;
  reconnecting = false;
  last_seq = 4;
  overlay_enabled = false;
  rtt_ms = 20;
  packet_loss_pct = 0;
  bandwidth_kb_s = 0;
  compression_ratio = 1;
  fps = 0;
  clear_requested = false;
}

shell-IsValid : IsValid shell
shell-IsValid = record { cells_size = refl; rows_size = refl }

abbrev prompt : GridState
prompt = record {
  cols = 3;
  rows = 2;
  cursor_x = 2;
  cursor_y = 1;
  cursor_visible = true;
  cells =
      plain_cell b'$'
      ∷ default_cell
      ∷ default_cell
      ∷ plain_cell b'$'
      ∷ default_cell
      ∷ default_cell
      ∷ [];
  row_wrapped = false ∷ false ∷ [];
}

prompt-IsValid : Bases.IsValid prompt
prompt-IsValid = record { cells_size = refl; wrapped_size = refl }

-- Only the second row is marked.
second_row_marked :
    update_from_grid_state shell prompt
    ≡ ok (
      record shell {
        cell_cache = prompt.cells;
        row_dirty = false ∷ true ∷ [];
        cursor_y = 1;
        dirty = true;
      },
      false,
    )
unfolding update_from_grid_state LocalCellData-discrete Grapheme.new
second_row_marked = refl

update_from_grid_state-Shows_example : Shows shell prompt (update_from_grid_state shell prompt)
update_from_grid_state-Shows_example =
    update_from_grid_state-Shows shell prompt shell-IsValid prompt-IsValid

-- A batch with a wrap over the right edge, and one with a backspace and a line break.
abbrev typed : List (List ℕ × ℕ)
typed = (b'l' ∷ b's' ∷ [], 5) ∷ (0x7f ∷ b'q' ∷ b'\n' ∷ b'x' ∷ [], 6) ∷ []

abort-type_all_example :
    (engine : LocalEchoEngine) × (g : TerminalFrame ℕ) × (type_all typed
        (record { unconfirmed_inputs = []; current_epoch = 2 })
        shell
      ≡ ok (engine, g))
    × (abort engine g ≡ ok (record { unconfirmed_inputs = []; current_epoch = 3 }, shell))
abort-type_all_example = abort-type_all typed 2 shell shell-IsValid

-- The first batch is confirmed: the second is typed on the server's frame.
typed_run :
    (engine : LocalEchoEngine) × (g : TerminalFrame ℕ) × (type_all typed (fresh 2) shell
      ≡ ok (engine, g))
    × (abort engine g ≡ ok (fresh 3, shell))
typed_run = abort-type_all typed 2 shell shell-IsValid

reconcile_frame-type_all_example :
    reconcile_frame typed_run.0 shell 5
    ≡ type_all ((0x7f ∷ b'q' ∷ b'\n' ∷ b'x' ∷ [], 6) ∷ []) (fresh 2) shell
reconcile_frame-type_all_example =
    reconcile_frame-type_all typed 2 5 typed_run.0 shell typed_run.1 shell typed_run.2

abbrev idle_terminal : TerminalInner ℕ
idle_terminal = record { frame = shell; echo_engine = fresh 0 }

predict_input-consume_updates_example :
    (inner : TerminalInner ℕ) × (predict_input idle_terminal (b'l' ∷ []) 5 ≡ ok inner)
    × ((dest : TerminalFrame ℕ) → consume_updates inner dest ≡ ok (inner, dest, false))
predict_input-consume_updates_example =
    predict_input-consume_updates idle_terminal (b'l' ∷ []) 5 shell-IsValid refl refl

abbrev dirty_terminal : TerminalInner ℕ
dirty_terminal = record { frame = record shell { dirty = true }; echo_engine = fresh 0 }
