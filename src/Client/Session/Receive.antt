-- ===== src/Client/Session/Receive.antt =====
-- `MirrorSession::feed_packet`: a datagram from the server.
pub mod Progress
use rumsh.Prelude.{
  ℕ, ◌+◌, ◌-◌, ◌/◌, ◌%◌, ◌^◌, Bool, true, false, not, ◌&&◌, List, [], ◌∷◌, ◌++◌, Option, none, some,
  Result, ok, err, ◌>>=◌, length, replicate, set, drop, keep_if, Map, lookup, remove, ltb, leb,
  ◌==◌, if◌then◌else◌,
}
use rumsh.Protocol.{ServerPayload, EncryptedServerPacket}
use rumsh.Protocol.Grid.{GridState, FrameUpdate, apply_diff, blank}
use rumsh.Protocol.Codec.Interface.{PacketCodec, CodecStats, OpenedServer}
use rumsh.Client.Floats.{F32}
use rumsh.Client.Terminal.{
  acknowledge, record_rtt_loss, set_reconnecting, apply_frame, abort_prediction,
}
use rumsh.Client.Session.State.{Mirror, ClientAction, Answer, with_mirror}
use rumsh.Client.Session.State.ClientAction.{send_packet, paint, disconnect}
use rumsh.Client.Session.Prepare.{Prepared, prepare_ack}
use rumsh.Server.Interface.{millis, secs}
use rumsh.Server.Session.State.{find_state, push_state}

-- `self.loss_window` and `self.expected_server_seq`.
pub record LossWindow : Type 0 where
  pub window : List Bool
  pub expected : ℕ

-- Marks the late packet received, if its place is still in the window.
pub correct_late : List Bool → ℕ → List Bool
correct_late window gap =
    if ltb gap (length window) then set window (length window - 1 - gap) true else window

-- "Packet Loss Estimation (Sliding Window)".
pub slide : LossWindow → ℕ → LossWindow
unfolding correct_late
slide w seq =
    if w.expected == 0
    then record w { expected = seq + 1 }
    else if ltb w.expected seq
    then record {
      window = w.window ++ replicate (seq - w.expected) false ++ true ∷ [];
      expected = seq + 1;
    }
    else if seq == w.expected
    then record { window = w.window ++ true ∷ []; expected = seq + 1 }
    else record w { window = correct_late w.window (w.expected - 1 - seq) }

-- `while self.loss_window.len() > 100 { pop_front }`.
abbrev pub trim_window : List Bool → List Bool
trim_window window = drop (length window - 100) window

unfoldable pub update_loss_window : LossWindow → ℕ → LossWindow
unfolding slide
update_loss_window w seq =
    let next = slide w seq in record next { window = trim_window next.window }

-- `retain(|&s, _| s > ack)`.
abbrev pub retain_above {ℓ} : {V : Type ℓ} → ℕ → Map V → Map V
retain_above ack m = keep_if (λ e. ltb ack e.0) m

module _ (f32 : F32) (pc : PacketCodec) where
  open pc use {open_server}
  open f32 use {F, of_int, mul, div, lit}

  pub loss_pct : List Bool → Option F
  loss_pct [] = none
  loss_pct (r ∷ rs) =
      let window = r ∷ rs in
      some (mul (div (of_int (length (keep_if not window))) (of_int (length window))) (lit 100 1))

  -- The round trip time in milliseconds (`as_millis() as u32`), if it is plausible.
  pub measured_rtt : Option ℕ → Bool → ℕ → Option ℕ
  measured_rtt none is_recovering now = none
  measured_rtt (some sent_time) is_recovering now =
      let rtt = (now - sent_time) / 1000000 % 2 ^ 32 in
      if not is_recovering && ltb rtt 5000 then some rtt else none

  abbrev pub is_recovering : Mirror f32 pc → ℕ → Bool
  is_recovering self now = ltb (secs 5) (now - self.last_recv_time)

  -- Up to "3. Acknowledge": statistics, the pruning of what is acknowledged, the loss window.
  unfoldable pub note_arrival :
      Mirror f32 pc → EncryptedServerPacket → CodecStats → ℕ → Mirror f32 pc
  note_arrival self packet stats now =
      let seq = packet.seq_num in
      let ack = packet.ack_seq_num in
      let start : LossWindow =
        if is_recovering self now
        then record { window = []; expected = seq }
        else record { window = self.loss_window; expected = self.expected_server_seq } in
      let slid = update_loss_window start seq in
      record self {
        bytes_recv_acc = self.bytes_recv_acc + stats.wire_len;
        comp_acc = self.comp_acc + stats.comp_len;
        decomp_acc = self.decomp_acc + stats.decomp_len;
        sent_packets = retain_above ack (remove ack self.sent_packets);
        unacked_packets = retain_above ack self.unacked_packets;
        loss_window = slid.window;
        expected_server_seq = slid.expected;
      }

  -- `if let Ok(ack_bytes) = self.prepare_ack(now) { actions.push(…) }`.
  unfoldable pub push_ack : List ClientAction → Prepared f32 pc → Answer f32 pc
  push_ack actions (s, ok ack_bytes) = (s, ok (actions ++ send_packet ack_bytes ∷ []))
  push_ack actions (s, err e) = (s, ok actions)

  -- The grid that an update starts from; `none` if its reference is not in the history.
  unfoldable pub base_state : Mirror f32 pc → FrameUpdate → Option GridState
  base_state self update =
      if update.ref_seq == 0
      then some (blank update.cols update.rows)
      else find_state update.ref_seq self.state_history

  -- After `apply_diff`: the screen, the history and the answer.
  unfoldable pub show_frame : Mirror f32 pc → GridState → Bool → ℕ → ℕ → Answer f32 pc
  unfolding push_ack
  show_frame self new_state is_echo_enabled seq now =
      let echo = record self { is_echo_enabled = is_echo_enabled } in
      let shown = apply_frame self.mirror new_state seq >>= λ m.
      if is_echo_enabled then ok m.0 else abort_prediction m.0 in
      with_mirror f32 pc echo shown λ drawn.
        let kept = record drawn { state_history = push_state drawn.state_history seq new_state } in
        let acked = push_ack (paint ∷ []) (prepare_ack f32 pc kept now) in
        if leb (millis 30) (now - kept.last_ack_sent) then acked else (kept, ok (paint ∷ []))

  unfoldable pub frame_payload : Mirror f32 pc → FrameUpdate → ℕ → ℕ → Answer f32 pc
  unfolding base_state show_frame
  frame_payload self update seq now = elim (base_state self update) [
    | none ↦ push_ack [] (prepare_ack f32 pc self now)
    | some base ↦ elim (apply_diff base update) [
      | err e ↦ (self, err e)
      | ok new_state ↦ show_frame self new_state update.is_echo_enabled seq now
    ]
  ]

  unfoldable pub handle_payload : Mirror f32 pc → ServerPayload → ℕ → ℕ → Answer f32 pc
  unfolding frame_payload
  handle_payload self (ServerPayload.frame update) seq now = frame_payload self update seq now
  handle_payload self ServerPayload.keep_alive seq now = (self, ok [])
  handle_payload self ServerPayload.shutdown seq now = (self, ok (disconnect ∷ []))
  handle_payload self (ServerPayload.handshake_ack id) seq now = (self, ok [])

  -- A packet newer than all before it.
  unfoldable pub new_packet : Mirror f32 pc → ServerPayload → ℕ → ℕ → Answer f32 pc
  unfolding handle_payload
  new_packet self payload seq now =
      let heard = record self {
        last_recv_time = now;
        ack_seq_num = seq;
        keepalive_interval = secs 2;
        is_reconnecting = false;
      } in
      let connected =
        if self.is_reconnecting then set_reconnecting self.mirror false else ok self.mirror in
      with_mirror f32 pc heard connected λ s. handle_payload s payload seq now

  unfoldable pub opened_packet : Mirror f32 pc → OpenedServer → ℕ → Answer f32 pc
  unfolding note_arrival measured_rtt loss_pct new_packet
  opened_packet self (packet, payload, stats) now =
      let noted = note_arrival self packet stats now in
      let rtt =
        measured_rtt (lookup packet.ack_seq_num self.sent_packets) (is_recovering self now) now in
      let acked = acknowledge noted.mirror packet.ack_seq_num >>= λ m.
      ok (record_rtt_loss f32 m rtt (loss_pct noted.loss_window)) in
      with_mirror f32 pc noted acked λ s.
        let fresh = new_packet s payload packet.seq_num now in
        if leb packet.seq_num s.ack_seq_num then (s, ok []) else fresh

  -- A fragment that only fills the buffer, or bytes that do not open, have no further effect.
  unfoldable pub received : Mirror f32 pc → Result (Option OpenedServer) → ℕ → Answer f32 pc
  unfolding opened_packet
  received self (err e) now = (self, ok [])
  received self (ok none) now = (self, ok [])
  received self (ok (some opened)) now = opened_packet self opened now

  unfoldable pub feed_packet : Mirror f32 pc → List ℕ → ℕ → Answer f32 pc
  unfolding received
  feed_packet self packet_bytes now =
      let (codec, opened) = open_server self.codec packet_bytes in
      received (record self { codec = codec }) opened now
