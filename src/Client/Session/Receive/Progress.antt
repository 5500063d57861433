-- ===== src/Client/Session/Receive/Progress.antt =====
-- `feed_packet`, the client's bounds and its acknowledged number.
use rumsh.Prelude.{
  ℕ, ◌-◌, ◌≤◌, ◌<◌, Bool, true, false, List, [], ◌∷◌, Option, none, some, Result, ok, err, ◌>>=◌,
  length, length-drop, leb, if◌then◌else◌, arith, Bool-cases, Option-cases, inl, inr, lookup,
}
use rumsh.Protocol.{ServerPayload, EncryptedServerPacket}
use rumsh.Protocol.Grid.{GridState, FrameUpdate, apply_diff}
use rumsh.Protocol.Codec.Interface.{PacketCodec, CodecStats, OpenedServer}
use rumsh.Client.Floats.{F32}
use rumsh.Client.Terminal.{
  TerminalInner, acknowledge, record_rtt_loss, set_reconnecting, apply_frame, abort_prediction,
}
use rumsh.Client.Session.State.{Mirror, ClientAction, Answer, with_mirror}
use rumsh.Client.Session.State.ClientAction.{paint}
use rumsh.Client.Session.Prepare.{Prepared, prepare_ack}
use rumsh.Client.Session.Receive.{
  LossWindow, slide, update_loss_window, push_ack, base_state, show_frame, frame_payload,
  handle_payload, new_packet, note_arrival, is_recovering, measured_rtt, loss_pct, opened_packet,
  received, feed_packet,
}
use rumsh.Server.Interface.{millis, secs}
use rumsh.Server.Session.State.{push_state}
use rumsh.Server.Session.Newest.{push_state_size}

update_loss_window_size :
    (w : LossWindow) (seq : ℕ) → length (update_loss_window w seq).window ≤ 100
unfolding update_loss_window
update_loss_window_size w seq =
    let window = (slide w seq).window in omega (arith, length-drop (length window - 100) window)

module _ (f32 : F32) (pc : PacketCodec) where
  -- The memory is bounded, and everything up to `low` is acknowledged.
  pub record Sound (low : ℕ) (s : Mirror f32 pc) : Type 0 where
    pub acked : low ≤ s.ack_seq_num
    pub window : length s.loss_window ≤ 100
    pub history : length s.state_history ≤ 200

  Sound-with_mirror :
      (low : ℕ) (s : Mirror f32 pc) (m : Result (TerminalInner f32.F))
      (next : Mirror f32 pc → Answer f32 pc)
      → Sound low s
      → ((m' : TerminalInner f32.F) → Sound low (next (record s { mirror = m' })).0)
      → Sound low (with_mirror f32 pc s m next).0
  Sound-with_mirror low s (ok m) next h k = k m
  Sound-with_mirror low s (err e) next h k = h

  Sound-push_ack :
      (low : ℕ) (actions : List ClientAction) (p : Prepared f32 pc)
      → Sound low p.0
      → Sound low (push_ack f32 pc actions p).0
  unfolding push_ack
  Sound-push_ack low actions (s, ok bytes) h = h
  Sound-push_ack low actions (s, err e) h = h

  Sound-prepare_ack :
      (low : ℕ) (s : Mirror f32 pc) (now : ℕ) → Sound low s → Sound low (prepare_ack f32 pc s now).0
  unfolding prepare_ack
  Sound-prepare_ack low s now h = record { acked = h.acked; window = h.window; history = h.history }

  Sound-either :
      (low : ℕ) (b : Bool) (x y : Answer f32 pc)
      → Sound low x.0
      → Sound low y.0
      → Sound low (if b then x else y).0
  Sound-either low true x y hx hy = hx
  Sound-either low false x y hx hy = hy

  Sound-show_frame :
      (low : ℕ) (s : Mirror f32 pc) (g : GridState) (echo : Bool) (seq now : ℕ)
      → Sound low s
      → Sound low (show_frame f32 pc s g echo seq now).0
  unfolding show_frame
  Sound-show_frame low s g echo seq now h =
      let shown : Result (TerminalInner f32.F) =
        apply_frame s.mirror g seq >>= λ m. if echo then ok m.0 else abort_prediction m.0 in
      let next : Mirror f32 pc → Answer f32 pc = λ drawn.
        let kept = record drawn { state_history = push_state drawn.state_history seq g } in
        if leb (millis 30) (now - kept.last_ack_sent)
        then push_ack f32 pc (paint ∷ []) (prepare_ack f32 pc kept now)
        else (kept, ok (paint ∷ [])) in
      Sound-with_mirror low (record s { is_echo_enabled = echo }) shown next
        (record { acked = h.acked; window = h.window; history = h.history })
        (λ m'.
          let kept = record s {
            is_echo_enabled = echo;
            mirror = m';
            state_history = push_state s.state_history seq g;
          } in
          let sound : Sound low kept = record {
            acked = h.acked;
            window = h.window;
            history = push_state_size s.state_history seq g h.history;
          } in
          Sound-either low (leb (millis 30) (now - kept.last_ack_sent))
            (push_ack f32 pc (paint ∷ []) (prepare_ack f32 pc kept now)) (kept, ok (paint ∷ []))
            (Sound-push_ack low (paint ∷ []) (prepare_ack f32 pc kept now)
              (Sound-prepare_ack low kept now sound))
            sound)

  Sound-applied :
      (low : ℕ) (s : Mirror f32 pc) (r : Result GridState) (echo : Bool) (seq now : ℕ)
      → Sound low s
      → Sound low
          (elim r as (λ x. Answer f32 pc) [
            | err e ↦ (s, err e)
            | ok g ↦ show_frame f32 pc s g echo seq now
          ]).0
  Sound-applied low s (ok g) echo seq now h = Sound-show_frame low s g echo seq now h
  Sound-applied low s (err e) echo seq now h = h

  Sound-frame_payload :
      (low : ℕ) (s : Mirror f32 pc) (u : FrameUpdate) (seq now : ℕ)
      → Sound low s
      → Sound low (frame_payload f32 pc s u seq now).0
  unfolding frame_payload
  Sound-frame_payload low s u seq now h = elim (Option-cases (base_state f32 pc s u)) [
    | inl missing ↦
        rw (frame_payload, missing)
          (Sound-push_ack low [] (prepare_ack f32 pc s now) (Sound-prepare_ack low s now h))
    | inr (base, found) ↦
        rw (frame_payload, found)
          (Sound-applied low s (apply_diff base u) u.is_echo_enabled seq now h)
  ]

  Sound-handle_payload :
      (low : ℕ) (s : Mirror f32 pc) (p : ServerPayload) (seq now : ℕ)
      → Sound low s
      → Sound low (handle_payload f32 pc s p seq now).0
  unfolding handle_payload
  Sound-handle_payload low s (ServerPayload.frame u) seq now h =
      Sound-frame_payload low s u seq now h
  Sound-handle_payload low s ServerPayload.keep_alive seq now h = h
  Sound-handle_payload low s ServerPayload.shutdown seq now h = h
  Sound-handle_payload low s (ServerPayload.handshake_ack id) seq now h = h

  Sound-new_packet :
      (low : ℕ) (s : Mirror f32 pc) (p : ServerPayload) (seq now : ℕ)
      → Sound low s
      → s.ack_seq_num < seq
      → Sound low (new_packet f32 pc s p seq now).0
  unfolding new_packet
  Sound-new_packet low s p seq now h newer =
      let heard = record s {
        last_recv_time = now;
        ack_seq_num = seq;
        keepalive_interval = secs 2;
        is_reconnecting = false;
      } in
      let later : low ≤ seq = omega (arith, h.acked) in
      Sound-with_mirror low heard
        (if s.is_reconnecting then set_reconnecting s.mirror false else ok s.mirror)
        (λ r. handle_payload f32 pc r p seq now)
        (record { acked = later; window = h.window; history = h.history })
        (λ m.
          Sound-handle_payload low (record heard { mirror = m }) p seq now
            (record { acked = later; window = h.window; history = h.history }))

  Sound-note_arrival :
      (low : ℕ) (s : Mirror f32 pc) (packet : EncryptedServerPacket) (stats : CodecStats) (now : ℕ)
      → Sound low s
      → Sound low (note_arrival f32 pc s packet stats now)
  unfolding note_arrival
  Sound-note_arrival low s packet stats now h = record {
    acked = h.acked;
    window = update_loss_window_size _ packet.seq_num;
    history = h.history;
  }

  -- A packet that is not newer than one before has no further effect.
  Sound-if_new :
      (low : ℕ) (s : Mirror f32 pc) (p : ServerPayload) (seq now : ℕ)
      → Sound low s
      → Sound low (if leb seq s.ack_seq_num then (s, ok []) else new_packet f32 pc s p seq now).0
  Sound-if_new low s p seq now h = elim (Bool-cases (leb seq s.ack_seq_num)) [
    | inl old ↦ rw old h
    | inr newer ↦ rw newer (Sound-new_packet low s p seq now h (ground arith))
  ]

  Sound-opened_packet :
      (low : ℕ) (s : Mirror f32 pc) (packet : EncryptedServerPacket) (p : ServerPayload)
      (stats : CodecStats) (now : ℕ)
      → Sound low s
      → Sound low (opened_packet f32 pc s (packet, p, stats) now).0
  unfolding opened_packet
  Sound-opened_packet low s packet p stats now h =
      let noted = note_arrival f32 pc s packet stats now in
      let rtt =
        measured_rtt f32 pc (lookup packet.ack_seq_num s.sent_packets) (is_recovering f32 pc s now)
          now in
      let sound = Sound-note_arrival low s packet stats now h in
      Sound-with_mirror low noted
        (acknowledge noted.mirror packet.ack_seq_num >>= λ m.
          ok (record_rtt_loss f32 m rtt (loss_pct f32 pc noted.loss_window)))
        (λ r.
          if leb packet.seq_num r.ack_seq_num
          then (r, ok [])
          else new_packet f32 pc r p packet.seq_num now)
        sound
        (λ m.
          Sound-if_new low (record noted { mirror = m }) p packet.seq_num now
            (record { acked = sound.acked; window = sound.window; history = sound.history }))

  Sound-received :
      (low : ℕ) (s : Mirror f32 pc) (r : Result (Option OpenedServer)) (now : ℕ)
      → Sound low s
      → Sound low (received f32 pc s r now).0
  unfolding received
  Sound-received low s (err e) now h = h
  Sound-received low s (ok none) now h = h
  Sound-received low s (ok (some (packet, p, stats))) now h =
      Sound-opened_packet low s packet p stats now h

  -- Whatever bytes arrive, and also if the step fails, the acknowledged number does not fall, the
  -- loss window stays within 100 entries and the history within 200 grids.
  pub feed_packet-Sound :
      (s : Mirror f32 pc) (bytes : List ℕ) (now : ℕ)
      → length s.loss_window ≤ 100
      → length s.state_history ≤ 200
      → Sound s.ack_seq_num (feed_packet f32 pc s bytes now).0
  unfolding feed_packet
  feed_packet-Sound s bytes now hw hh =
      let (codec, opened) = pc.open_server s.codec bytes in
      Sound-received s.ack_seq_num (record s { codec = codec }) opened now
        (record { acked = omega arith; window = hw; history = hh })
