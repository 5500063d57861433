-- ===== src/Sync/Hearing.antt =====
-- A datagram of the server on the client (`feed_packet` of src/client/session.rs): what becomes of
-- the history of grids and of the number that is acknowledged.
use rumsh.Prelude.{
  ℕ, ◌-◌, ◌≡◌, refl, Bool, true, false, List, [], ◌∷◌, some, Result, ok, err, ◌>>=◌, leb,
  if◌then◌else◌, inl, inr, lookup,
}
use rumsh.Protocol.{ServerPayload, EncryptedServerPacket}
use rumsh.Protocol.Grid.{GridState, FrameUpdate}
use rumsh.Protocol.Codec.Interface.{PacketCodec, CodecStats}
use rumsh.Client.Floats.{F32}
use rumsh.Client.Terminal.{
  TerminalInner, apply_frame, abort_prediction, acknowledge, record_rtt_loss, set_reconnecting,
}
use rumsh.Client.Session.State.{Mirror, ClientAction, Answer, with_mirror}
use rumsh.Client.Session.State.ClientAction.{paint}
use rumsh.Client.Session.Prepare.{Prepared, prepare_ack}
use rumsh.Client.Session.Receive.{
  base_state, show_frame, push_ack, handle_payload, new_packet, note_arrival, measured_rtt,
  is_recovering, loss_pct, opened_packet,
}
use rumsh.Server.Interface.{millis, secs}
use rumsh.Server.Session.State.{History, push_state}
use rumsh.Sync.Histories.{Faithful}
use rumsh.Sync.Frames.{LeadsTo}
use rumsh.Sync.Client.{frame_payload-cases}

abbrev pub is_frame : ServerPayload → Bool
is_frame (ServerPayload.frame u) = true
is_frame other = false

module _ (f32 : F32) (pc : PacketCodec) where
  -- The history and the acknowledged number.
  abbrev pub key : Mirror f32 pc → History × ℕ
  key s = (s.state_history, s.ack_seq_num)

  -- What holds of the key of an answer, if it is no error.
  abbrev pub Ends : History × ℕ → Answer f32 pc → Type 0
  Ends k a = (actions : List ClientAction) → a.1 ≡ ok actions → key a.0 ≡ k

  with_mirror-Ends :
      (s : Mirror f32 pc) (m : Result (TerminalInner f32.F)) (next : Mirror f32 pc → Answer f32 pc)
      (k : History × ℕ)
      → ((m' : TerminalInner f32.F) → Ends k (next (record s { mirror = m' })))
      → Ends k (with_mirror f32 pc s m next)
  with_mirror-Ends s (ok m) next k all actions e = all m actions e
  with_mirror-Ends s (err e) next k all actions succeeds = cc succeeds

  with_mirror-eq :
      (s : Mirror f32 pc) (m : Result (TerminalInner f32.F)) (f g : Mirror f32 pc → Answer f32 pc)
      → ((m' : TerminalInner f32.F) → f (record s { mirror = m' }) ≡ g (record s { mirror = m' }))
      → with_mirror f32 pc s m f ≡ with_mirror f32 pc s m g
  with_mirror-eq s (ok m) f g all = all m
  with_mirror-eq s (err e) f g all = refl

  push_ack_key :
      (actions : List ClientAction) (p : Prepared f32 pc)
      → key (push_ack f32 pc actions p).0 ≡ key p.0
  unfolding push_ack
  push_ack_key actions (s, ok bytes) = refl
  push_ack_key actions (s, err e) = refl

  acked_key :
      (actions : List ClientAction) (s : Mirror f32 pc) (now : ℕ)
      → key (push_ack f32 pc actions (prepare_ack f32 pc s now)).0 ≡ key s
  unfolding prepare_ack
  acked_key actions s now = push_ack_key actions (prepare_ack f32 pc s now)

  if-Ends :
      (b : Bool) (x y : Answer f32 pc) (k : History × ℕ)
      → Ends k x
      → Ends k y
      → Ends k (if b then x else y)
  if-Ends true x y k hx hy = hx
  if-Ends false x y k hx hy = hy

  show_frame-Ends :
      (c : Mirror f32 pc) (g : GridState) (echo : Bool) (seq now : ℕ)
      → Ends (push_state c.state_history seq g, c.ack_seq_num) (show_frame f32 pc c g echo seq now)
  unfolding show_frame
  show_frame-Ends c g echo seq now =
      let shown : Result (TerminalInner f32.F) =
        apply_frame c.mirror g seq >>= λ m. if echo then ok m.0 else abort_prediction m.0 in
      let next : Mirror f32 pc → Answer f32 pc = λ drawn.
        let kept = record drawn { state_history = push_state drawn.state_history seq g } in
        if leb (millis 30) (now - kept.last_ack_sent)
        then push_ack f32 pc (paint ∷ []) (prepare_ack f32 pc kept now)
        else (kept, ok (paint ∷ [])) in
      with_mirror-Ends (record c { is_echo_enabled = echo }) shown next _
        (λ m'.
          let kept = record c {
            is_echo_enabled = echo;
            mirror = m';
            state_history = push_state c.state_history seq g;
          } in
          if-Ends (leb (millis 30) (now - kept.last_ack_sent)) _ _ _
            (λ actions e. acked_key (paint ∷ []) kept now) (λ actions e. refl))

  -- A packet newer than all before it, heard.
  abbrev pub heard : Mirror f32 pc → ℕ → ℕ → Mirror f32 pc
  heard self seq now = record self {
    last_recv_time = now;
    ack_seq_num = seq;
    keepalive_interval = secs 2;
    is_reconnecting = false;
  }

  abbrev pub connected : Mirror f32 pc → Result (TerminalInner f32.F)
  connected self =
      if self.is_reconnecting then set_reconnecting self.mirror false else ok self.mirror

  -- The answer to a new packet that makes the client show a grid.
  abbrev pub shown_packet : Mirror f32 pc → GridState → Bool → ℕ → ℕ → Answer f32 pc
  shown_packet c g echo seq now =
      with_mirror f32 pc (heard c seq now) (connected c) λ s. show_frame f32 pc s g echo seq now

  module _ (queued : ℕ → GridState) (c : Mirror f32 pc) (f : Faithful queued c.state_history)
      (u : FrameUpdate) (seq now : ℕ) (leads : LeadsTo queued seq u) (base : GridState)
      (found : base_state f32 pc c u ≡ some base) where
    handle_frame :
        (m : TerminalInner f32.F)
        → let s = record (heard c seq now) { mirror = m } in
          handle_payload f32 pc s (ServerPayload.frame u) seq now
          ≡ show_frame f32 pc s (queued seq) u.is_echo_enabled seq now
    unfolding handle_payload base_state
    handle_frame m =
        elim (frame_payload-cases f32 pc queued (record (heard c seq now) { mirror = m }) f u seq
          now leads) [ inl (missing, e) ↦ cc (missing, found) | inr shown ↦ shown ]

    -- A frame whose reference the client has is shown.
    pub new_packet-frame :
        new_packet f32 pc c (ServerPayload.frame u) seq now
        ≡ shown_packet c (queued seq) u.is_echo_enabled seq now
    unfolding new_packet
    new_packet-frame = with_mirror-eq (heard c seq now) (connected c) _ _ handle_frame

  shown_packet-Ends :
      (c : Mirror f32 pc) (g : GridState) (echo : Bool) (seq now : ℕ)
      → Ends (push_state c.state_history seq g, seq) (shown_packet c g echo seq now)
  shown_packet-Ends c g echo seq now =
      with_mirror-Ends (heard c seq now) (connected c) _ _
        (λ m'. show_frame-Ends (record (heard c seq now) { mirror = m' }) g echo seq now)

  -- Any other payload leaves the history alone.
  handle_payload-Ends :
      (c : Mirror f32 pc) (p : ServerPayload) (seq now : ℕ)
      → is_frame p ≡ false
      → Ends (key c) (handle_payload f32 pc c p seq now)
  unfolding handle_payload
  handle_payload-Ends c (ServerPayload.frame u) seq now other actions e = cc other
  handle_payload-Ends c ServerPayload.keep_alive seq now other actions e = refl
  handle_payload-Ends c ServerPayload.shutdown seq now other actions e = refl
  handle_payload-Ends c (ServerPayload.handshake_ack id) seq now other actions e = refl

  new_packet-Ends :
      (c : Mirror f32 pc) (p : ServerPayload) (seq now : ℕ)
      → is_frame p ≡ false
      → Ends (c.state_history, seq) (new_packet f32 pc c p seq now)
  unfolding new_packet
  new_packet-Ends c p seq now other =
      with_mirror-Ends (heard c seq now) (connected c) _ _
        (λ m'. handle_payload-Ends (record (heard c seq now) { mirror = m' }) p seq now other)

  -- The statistics come first, whatever the packet is.
  abbrev pub noted : Mirror f32 pc → EncryptedServerPacket → CodecStats → ℕ → Mirror f32 pc
  noted c packet stats now = note_arrival f32 pc c packet stats now

  abbrev pub measured :
      Mirror f32 pc → EncryptedServerPacket → CodecStats → ℕ → Result (TerminalInner f32.F)
  measured c packet stats now =
      acknowledge (noted c packet stats now).mirror packet.ack_seq_num >>= λ m. ok (
        record_rtt_loss f32 m
          (measured_rtt f32 pc (lookup packet.ack_seq_num c.sent_packets)
            (is_recovering f32 pc c now) now)
          (loss_pct f32 pc (noted c packet stats now).loss_window))

  noted_key :
      (c : Mirror f32 pc) (packet : EncryptedServerPacket) (stats : CodecStats) (now : ℕ)
      → key (noted c packet stats now) ≡ key c
  unfolding note_arrival
  noted_key c packet stats now = refl

  -- The answer to the datagram of a new packet that makes the client show a grid.
  abbrev pub shown_datagram :
      Mirror f32 pc → EncryptedServerPacket → CodecStats → GridState → Bool → ℕ → Answer f32 pc
  shown_datagram c packet stats g echo now =
      with_mirror f32 pc (noted c packet stats now) (measured c packet stats now)
        λ s. shown_packet s g echo packet.seq_num now

  module _ (c : Mirror f32 pc) (packet : EncryptedServerPacket) (stats : CodecStats) (now : ℕ) where
    noted_with : TerminalInner f32.F → Mirror f32 pc
    noted_with m = record (noted c packet stats now) { mirror = m }

    -- A packet that is not newer than all before it changes neither.
    pub old-Ends :
        (p : ServerPayload)
        → leb packet.seq_num c.ack_seq_num ≡ true
        → Ends (key c) (opened_packet f32 pc c (packet, p, stats) now)
    unfolding opened_packet note_arrival
    old-Ends p old =
        with_mirror-Ends (noted c packet stats now) (measured c packet stats now) _ _
          (λ m. rw old (λ actions e. refl))

    pub other-Ends :
        (p : ServerPayload)
        → leb packet.seq_num c.ack_seq_num ≡ false
        → is_frame p ≡ false
        → Ends (c.state_history, packet.seq_num) (opened_packet f32 pc c (packet, p, stats) now)
    unfolding opened_packet note_arrival noted_with
    other-Ends p newer other =
        with_mirror-Ends (noted c packet stats now) (measured c packet stats now) _ _
          (λ m. rw newer (new_packet-Ends (noted_with m) p packet.seq_num now other))

    pub opened_packet-frame :
        (queued : ℕ → GridState) (u : FrameUpdate) (base : GridState)
        → Faithful queued c.state_history
        → leb packet.seq_num c.ack_seq_num ≡ false
        → LeadsTo queued packet.seq_num u
        → base_state f32 pc c u ≡ some base
        → opened_packet f32 pc c (packet, ServerPayload.frame u, stats) now
          ≡ shown_datagram c packet stats (queued packet.seq_num) u.is_echo_enabled now
    unfolding opened_packet note_arrival noted_with base_state
    opened_packet-frame queued u base f newer leads found =
        with_mirror-eq (noted c packet stats now) (measured c packet stats now) _ _ (λ m.
          rw newer (new_packet-frame queued (noted_with m) f u packet.seq_num now leads base found))

    pub shown_datagram-Ends :
        (g : GridState) (echo : Bool)
        → Ends
            (push_state c.state_history packet.seq_num g, packet.seq_num)
            (shown_datagram c packet stats g echo now)
    unfolding note_arrival noted_with
    shown_datagram-Ends g echo =
        with_mirror-Ends (noted c packet stats now) (measured c packet stats now) _ _
          (λ m. shown_packet-Ends (noted_with m) g echo packet.seq_num now)
