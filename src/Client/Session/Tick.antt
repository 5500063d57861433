-- ===== src/Client/Session/Tick.antt =====
-- `MirrorSession::on_tick` and `copy_frame_if_dirty`: what the client does as time passes.
use rumsh.Prelude.{
  ℕ, ◌+◌, ◌-◌, ◌*◌, ◌/◌, ◌%◌, min, max, Bool, true, ◌&&◌, List, [], ◌∷◌, Option, none, some, Result,
  ok, err, ◌>>=◌, Map, lookup, insert, keep_if, ltb, leb, bool_eq, if◌then◌else◌,
}
use rumsh.Protocol.Codec.Interface.{PacketCodec}
use rumsh.Client.Floats.{F32}
use rumsh.Client.Frame.{TerminalFrame}
use rumsh.Client.Terminal.{
  set_reconnecting, record_bandwidth_compression, record_fps, rtt_ms, consume_updates,
}
use rumsh.Client.Session.State.{Mirror, Answer, with_mirror, and_then, add_actions}
use rumsh.Client.Session.State.ClientAction.{send_packet, paint}
use rumsh.Client.Session.Prepare.{Prepared, prepare_keepalive, prepare_fragment_nack}
use rumsh.Server.Interface.{millis, secs}

-- The packets that have waited for `limit`, with their sequence numbers.
pub due_packets : ℕ → ℕ → Map (List ℕ × ℕ) → List (List ℕ × ℕ)
due_packets now limit [] = []
due_packets now limit ((seq, (bytes, sent_time)) ∷ m) =
    if leb limit (now - sent_time)
    then (bytes, seq) ∷ due_packets now limit m
    else due_packets now limit m

-- "Adaptive heartbeat throttling".
abbrev pub backoff : ℕ → ℕ
backoff silence =
    if ltb silence (secs 5)
    then secs 2
    else if ltb silence (secs 15)
    then secs 5
    else if ltb silence (secs 60)
    then secs 15
    else if ltb silence (secs 180)
    then secs 60
    else if ltb silence (secs 600)
    then secs 120
    else secs 180

-- `Duration::from_millis((rtt_ms as u64 * 2).clamp(200, 1000))`.
abbrev pub rtt_limit : ℕ → ℕ
rtt_limit rtt = millis (max 200 (min 1000 (rtt * 2)))

module _ (f32 : F32) (pc : PacketCodec) where
  open f32 use {F, of_int, to_u32, add, mul, div, lit, round}

  pub sent_answer : Prepared f32 pc → Answer f32 pc
  sent_answer (s, err e) = (s, err e)
  sent_answer (s, ok packet_bytes) = (s, ok (send_packet packet_bytes ∷ []))

  -- "1. KeepAlive check".
  pub keepalive_stage : ℕ → Mirror f32 pc → Answer f32 pc
  unfolding sent_answer
  keepalive_stage now self =
      let sent = sent_answer (prepare_keepalive f32 pc self now) in
      if leb self.keepalive_interval (now - self.last_keepalive_sent) then sent else (self, ok [])

  -- The loop over `packets_to_resend`.
  pub resend : ℕ → List (List ℕ × ℕ) → Mirror f32 pc → Answer f32 pc
  resend now [] self = (self, ok [])
  resend now ((bytes, seq) ∷ due) self =
      let touched : Map (List ℕ × ℕ) = elim (lookup seq self.unacked_packets) [
        | none ↦ self.unacked_packets
        | some entry ↦ insert seq (entry.0, now) self.unacked_packets
      ] in
      add_actions f32 pc (send_packet bytes ∷ [])
        (resend now due (record self { unacked_packets = touched }))

  -- "2. ARQ Retransmission check".
  pub arq_stage : ℕ → Mirror f32 pc → Answer f32 pc
  unfolding due_packets resend
  arq_stage now self =
      let due = due_packets now (rtt_limit (rtt_ms self.mirror)) self.unacked_packets in
      let resent = resend now due (record self { last_arq_check = now }) in
      if leb (millis 100) (now - self.last_arq_check) then resent else (self, ok [])

  -- "3. Reconnection Overlay check".
  pub reconnect_stage : ℕ → Mirror f32 pc → Answer f32 pc
  reconnect_stage now self =
      let silence = now - self.last_recv_time in
      let needs_banner = ltb (millis 5000) silence in
      let changed =
        with_mirror f32 pc (record self { is_reconnecting = needs_banner })
          (set_reconnecting self.mirror needs_banner)
          λ s. (record s { keepalive_interval = backoff silence }, ok (paint ∷ [])) in
      if bool_eq self.is_reconnecting needs_banner then (self, ok []) else changed

  -- `Duration::as_secs_f32`.
  abbrev pub as_secs_f32 : ℕ → F
  as_secs_f32 d = add (of_int (d / 1000000000)) (div (of_int (d % 1000000000)) (of_int 1000000000))

  -- "4. Telemetry check".
  pub telemetry_stage : ℕ → Mirror f32 pc → Answer f32 pc
  telemetry_stage now self =
      let elapsed = now - self.last_telemetry_calc in
      let kb_s = div (div (of_int self.bytes_recv_acc) (lit 1024 1)) (as_secs_f32 elapsed) in
      let ratio =
        if ltb 0 self.comp_acc && ltb 0 self.decomp_acc
        then div (of_int self.decomp_acc) (of_int self.comp_acc)
        else lit 1 1 in
      let fps = to_u32 (round (div (of_int self.paint_count_acc) (as_secs_f32 elapsed))) in
      let measured = record self {
        mirror = record_fps (record_bandwidth_compression f32 self.mirror kb_s ratio) fps;
        bytes_recv_acc = 0;
        comp_acc = 0;
        decomp_acc = 0;
        paint_count_acc = 0;
        last_telemetry_calc = now;
      } in
      if leb (secs 1) elapsed then (measured, ok (paint ∷ [])) else (self, ok [])

  abbrev pub should_nack : Option ℕ → ℕ → Bool
  should_nack none now = true
  should_nack (some last_sent) now = leb (millis 100) (now - last_sent)

  -- The loop over the incomplete frames.
  pub nack_frames : ℕ → List (ℕ × List ℕ) → Mirror f32 pc → Answer f32 pc
  unfolding sent_answer
  nack_frames now [] self = (self, ok [])
  nack_frames now ((frame_seq, received_mask) ∷ incomplete) self =
      let noted = record self { nacked_frames = insert frame_seq now self.nacked_frames } in
      let asked =
        and_then f32 pc (sent_answer (prepare_fragment_nack f32 pc noted frame_seq received_mask))
          (nack_frames now incomplete) in
      let skipped = nack_frames now incomplete self in
      if should_nack (lookup frame_seq self.nacked_frames) now then asked else skipped

  pub prune_nacked : ℕ → Mirror f32 pc → Answer f32 pc
  prune_nacked now self = (
    record self {
      nacked_frames =
          keep_if (λ e. ltb self.ack_seq_num e.0 && ltb (now - e.1) (secs 2)) self.nacked_frames;
    },
    ok [],
  )

  -- "5. Fragment NACK check".
  pub nack_stage : ℕ → Mirror f32 pc → Answer f32 pc
  unfolding nack_frames prune_nacked
  nack_stage now self =
      let checked = record self { last_nack_check = now } in
      let asked =
        and_then f32 pc (nack_frames now (pc.get_incomplete_frames self.codec) checked)
          (prune_nacked now) in
      if leb (millis 40) (now - self.last_nack_check) then asked else (self, ok [])

  unfoldable pub on_tick : Mirror f32 pc → ℕ → Answer f32 pc
  unfolding keepalive_stage arq_stage reconnect_stage telemetry_stage nack_stage
  on_tick self now =
      let beat = keepalive_stage now self in
      let resent = and_then f32 pc beat (arq_stage now) in
      let bannered = and_then f32 pc resent (reconnect_stage now) in
      let measured = and_then f32 pc bannered (telemetry_stage now) in
      and_then f32 pc measured (nack_stage now)

  -- The session, the destination and whether there was an update.
  unfoldable pub copy_frame_if_dirty :
      Mirror f32 pc → TerminalFrame F → Result (Mirror f32 pc × TerminalFrame F × Bool)
  copy_frame_if_dirty self dest = do
    (mirror, dest', copied) ← consume_updates self.mirror dest
    ok (
      record self {
        mirror = mirror;
        paint_count_acc = if copied then self.paint_count_acc + 1 else self.paint_count_acc;
      },
      dest',
      copied,
    )
