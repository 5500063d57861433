-- ===== src/Client/Terminal.antt =====
-- `ClientTerminal` of src/client/terminal.rs: the frame and the echo engine behind one lock. A
-- method takes the write lock for its whole body, so it is one step on the pair.
pub mod Paints
use rumsh.Prelude.{
  ℕ, ◌-◌, Bool, true, false, not, ◌&&◌, ◌||◌, List, Option, none, some, Result, ok, ◌>>=◌,
  set_index, replicate, length, ltb, ◌==◌, bool_eq, if◌then◌else◌,
}
use rumsh.Protocol.Grid.{GridState}
use rumsh.Client.Floats.{F32}
use rumsh.Client.Frame
use rumsh.Client.Frame.{TerminalFrame, update_from_grid_state, copy_to}
use rumsh.Client.Echo
use rumsh.Client.Echo.{LocalEchoEngine, apply_keystrokes, reconcile_frame, abort}

pub record TerminalInner (F : Type 0) : Type 0 where
  pub frame : TerminalFrame F
  pub echo_engine : LocalEchoEngine

unfoldable pub new : (f32 : F32) → ℕ → ℕ → TerminalInner f32.F
new f32 cols rows = record { frame = Frame.new f32 cols rows; echo_engine = Echo.new }

module _ {F : Type 0} where
  abbrev pub of_echo : LocalEchoEngine × TerminalFrame F → TerminalInner F
  of_echo (engine, frame) = record { frame = frame; echo_engine = engine }

  unfoldable pub apply_frame : TerminalInner F → GridState → ℕ → Result (TerminalInner F × Bool)
  apply_frame inner new_state server_seq = do
    (f, resized) ← update_from_grid_state inner.frame new_state
    e ← reconcile_frame inner.echo_engine (record f { last_seq = server_seq }) server_seq
    ok (of_echo e, resized)

  unfoldable pub predict_input : TerminalInner F → List ℕ → ℕ → Result (TerminalInner F)
  predict_input inner bytes client_seq = do
    e ← apply_keystrokes inner.echo_engine inner.frame bytes client_seq
    ok (of_echo e)

  unfoldable pub acknowledge : TerminalInner F → ℕ → Result (TerminalInner F)
  acknowledge inner server_ack_seq = do
    e ← reconcile_frame inner.echo_engine inner.frame server_ack_seq
    ok (of_echo e)

  unfoldable pub abort_prediction : TerminalInner F → Result (TerminalInner F)
  abort_prediction inner = do e ← abort inner.echo_engine inner.frame; ok (of_echo e)

  -- The terminal, the destination and whether there was an update.
  unfoldable pub consume_updates :
      TerminalInner F → TerminalFrame F → Result (TerminalInner F × TerminalFrame F × Bool)
  consume_updates inner dest =
      let frame = inner.frame in
      let clean = record frame {
        dirty = false;
        row_dirty = replicate (length frame.row_dirty) false;
        clear_requested = false;
      } in
      let copied =
        copy_to frame dest >>= λ dest'. ok (record inner { frame = clean }, dest', true) in
      if frame.dirty || frame.clear_requested then copied else ok (inner, dest, false)

  unfoldable pub set_reconnecting : TerminalInner F → Bool → Result (TerminalInner F)
  set_reconnecting inner reconnecting =
      let frame = record inner.frame { reconnecting = reconnecting; dirty = true } in
      let y = if ltb 0 frame.rows then frame.rows - 1 else 0 in
      let marked = set_index frame.row_dirty y true >>= λ row_dirty.
      ok (record inner { frame = record frame { row_dirty = row_dirty } }) in
      if bool_eq inner.frame.reconnecting reconnecting
      then ok inner
      else (if reconnecting then ok (record inner { frame = frame }) else marked)

  unfoldable pub set_overlay_enabled : TerminalInner F → Bool → TerminalInner F
  set_overlay_enabled inner enabled = record inner {
    frame = record inner.frame { overlay_enabled = enabled; dirty = true };
  }

  unfoldable pub toggle_overlay : TerminalInner F → TerminalInner F
  toggle_overlay inner = record inner {
    frame = record inner.frame { overlay_enabled = not inner.frame.overlay_enabled; dirty = true };
  }

  unfoldable pub rtt_ms : TerminalInner F → ℕ
  rtt_ms inner = inner.frame.rtt_ms

  unfoldable pub mark_dirty : TerminalInner F → TerminalInner F
  mark_dirty inner = record inner { frame = record inner.frame { dirty = true } }

  unfoldable pub record_fps : TerminalInner F → ℕ → TerminalInner F
  record_fps inner fps =
      let frame = record inner.frame { fps = fps } in
      if inner.frame.fps == fps then inner else record inner {
        frame = if frame.overlay_enabled then record frame { dirty = true } else frame;
      }

module _ (f32 : F32) where
  open f32 use {F, lit, of_int, to_u32, add, sub, mul, abs, gt}

  -- `(a - b).abs() > 0.1`.
  abbrev pub moved : F → F → Bool
  moved a b = gt (abs (sub a b)) (lit 1 10)

  -- The smoothed round trip time, and whether it changed.
  pub update_rtt : TerminalFrame F → Option ℕ → TerminalFrame F × Bool
  update_rtt f none = (f, false)
  update_rtt f (some rtt) =
      let new_rtt =
        if f.rtt_ms == 0
        then rtt
        else to_u32 (add (mul (of_int f.rtt_ms) (lit 8 10)) (mul (of_int rtt) (lit 2 10))) in
      if f.rtt_ms == new_rtt then (f, false) else (record f { rtt_ms = new_rtt }, true)

  pub update_loss : TerminalFrame F × Bool → Option F → TerminalFrame F × Bool
  update_loss (f, changed) none = (f, changed)
  update_loss (f, changed) (some loss) =
      if moved f.packet_loss_pct loss
      then (record f { packet_loss_pct = loss }, true)
      else (f, changed)

  unfoldable pub record_rtt_loss : TerminalInner F → Option ℕ → Option F → TerminalInner F
  unfolding update_rtt update_loss
  record_rtt_loss inner rtt loss =
      let (f, changed) = update_loss (update_rtt inner.frame rtt) loss in
      record inner { frame = if changed && f.overlay_enabled then record f { dirty = true } else f }

  unfoldable pub record_bandwidth_compression : TerminalInner F → F → F → TerminalInner F
  record_bandwidth_compression inner kb_s ratio =
      let f = inner.frame in
      let g = record f { bandwidth_kb_s = kb_s; compression_ratio = ratio } in
      if moved f.bandwidth_kb_s kb_s || moved f.compression_ratio ratio
      then record inner { frame = if g.overlay_enabled then record g { dirty = true } else g }
      else inner
