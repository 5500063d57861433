-- ===== src/Client/Terminal/Paints.antt =====
-- What `consume_updates` hands out, also after predicted keys.
use rumsh.Prelude.{replicate, length, ◌||◌, true, ◌≡◌, refl, false, ℕ, List, [], ◌∷◌, ◌++◌, ok}
use rumsh.Client.Frame.{TerminalFrame, IsValid}
use rumsh.Client.Frame.Copy.{copy_to-ok}
use rumsh.Client.Echo.{PredictionEntry, apply_keystrokes}
use rumsh.Client.Echo.Undo.{Undoes, drawn}
use rumsh.Client.Echo.Rollback.{apply_bytes-Drawn}
use rumsh.Client.Terminal.{TerminalInner, predict_input, consume_updates}

module _ {F : Type 0} where
  consume_updates_clean :
      (inner : TerminalInner F) (dest : TerminalFrame F)
      → inner.frame.dirty ≡ false
      → inner.frame.clear_requested ≡ false
      → consume_updates inner dest ≡ ok (inner, dest, false)
  unfolding consume_updates
  consume_updates_clean inner dest clean calm = rw (clean, calm) refl

  -- Keys typed on a valid frame that is clean are drawn with no panic, but the frame stays clean: the
  -- next `consume_updates` copies nothing.
  pub predict_input-consume_updates :
      (inner : TerminalInner F) (bytes : List ℕ) (seq : ℕ)
      → IsValid inner.frame
      → inner.frame.dirty ≡ false
      → inner.frame.clear_requested ≡ false
      → (inner' : TerminalInner F) × (predict_input inner bytes seq ≡ ok inner')
        × ((dest : TerminalFrame F) → consume_updates inner' dest ≡ ok (inner', dest, false))
  unfolding predict_input apply_keystrokes
  predict_input-consume_updates inner bytes seq v clean calm =
      let f = inner.frame in
      let start : Undoes f f.cell_cache [] = record {
        size = refl;
        kept = tt;
        same = λ i _. refl;
      } in
      let (cells, x, y, old, made, u) =
        apply_bytes-Drawn f v f.cell_cache f.cursor_x f.cursor_y [] bytes start in
      let entry : PredictionEntry = record {
        seq_num = seq;
        bytes = bytes;
        epoch = inner.echo_engine.current_epoch;
        old_cursor_x = f.cursor_x;
        old_cursor_y = f.cursor_y;
        old_cells = old;
      } in
      let engine = record inner.echo_engine {
        unconfirmed_inputs = inner.echo_engine.unconfirmed_inputs ++ entry ∷ [];
      } in
      let inner' : TerminalInner F = record { frame = drawn f cells x y; echo_engine = engine } in
      (inner', rw made refl, λ dest. consume_updates_clean inner' dest clean calm)

  -- A frame that is dirty or asks to be cleared is handed out whole, with no panic and whatever the
  -- destination was, and the next `consume_updates` finds nothing to copy.
  pub consume_updates-consume_updates :
      (inner : TerminalInner F) (dest : TerminalFrame F)
      → (inner.frame.dirty || inner.frame.clear_requested) ≡ true
      → (inner' : TerminalInner F) × (consume_updates inner dest ≡ ok (inner', inner.frame, true))
        × ((dest' : TerminalFrame F) → consume_updates inner' dest' ≡ ok (inner', dest', false))
  unfolding consume_updates
  consume_updates-consume_updates inner dest busy =
      let inner' : TerminalInner F = record inner {
        frame = record inner.frame {
          dirty = false;
          row_dirty = replicate (length inner.frame.row_dirty) false;
          clear_requested = false;
        };
      } in
      (
        inner',
        rw (busy, copy_to-ok inner.frame dest) refl,
        λ dest'. consume_updates_clean inner' dest' refl refl,
      )
