-- ===== src/Client/Session/Prepare.antt =====
-- The packets that the client makes. Reliable ones (keystrokes, resizes, keep-alives) count up
-- `seq_num` and are kept until they are acknowledged; transient ones (acknowledgements, fragment
-- requests) have a counter of their own under the high bit.
use rumsh.Prelude.{ℕ, ◌+◌, ◌^◌, List, Result, ok, err, insert}
use rumsh.Protocol.{ClientPayload}
use rumsh.Protocol.Codec.Interface.{PacketCodec}
use rumsh.Client.Floats.{F32}
use rumsh.Client.Session.State.{Mirror}

-- `(1u64 << 63) | n`, for a counter below 2^63.
abbrev pub transient_seq : ℕ → ℕ
transient_seq n = 2 ^ 63 + n

module _ (f32 : F32) (pc : PacketCodec) where
  open pc use {seal_client}

  abbrev pub Prepared : Type 0
  Prepared = Mirror f32 pc × Result (List ℕ)

  -- The end of the three `prepare_…` of reliable packets.
  unfoldable pub keep_unacked : Mirror f32 pc → ℕ → Result (List ℕ) → Prepared
  keep_unacked self now (err e) = (self, err e)
  keep_unacked self now (ok packet_bytes) = (
    record self { unacked_packets = insert self.seq_num (packet_bytes, now) self.unacked_packets },
    ok packet_bytes,
  )

  pub prepare_reliable : Mirror f32 pc → ClientPayload → ℕ → Prepared
  unfolding keep_unacked
  prepare_reliable self payload now =
      let seq = self.seq_num + 1 in
      let sent = record self { seq_num = seq; sent_packets = insert seq now self.sent_packets } in
      keep_unacked sent now (seal_client self.codec self.session_id seq self.ack_seq_num payload)

  -- The sequence number that the source returns too is the new `seq_num`.
  unfoldable pub prepare_keystrokes : Mirror f32 pc → List ℕ → ℕ → Prepared
  unfolding prepare_reliable
  prepare_keystrokes self keys now = prepare_reliable self (ClientPayload.keystrokes keys) now

  unfoldable pub prepare_keepalive : Mirror f32 pc → ℕ → Prepared
  unfolding prepare_reliable
  prepare_keepalive self now =
      prepare_reliable (record self { last_keepalive_sent = now }) ClientPayload.keep_alive now

  unfoldable pub prepare_resize : Mirror f32 pc → ℕ → ℕ → ℕ → Prepared
  unfolding prepare_reliable
  prepare_resize self cols rows now = prepare_reliable self (ClientPayload.resize cols rows) now

  unfoldable pub prepare_ack : Mirror f32 pc → ℕ → Prepared
  prepare_ack self now =
      let next = record self {
        transient_seq_num = self.transient_seq_num + 1;
        last_ack_sent = now;
      } in
      (
        next,
        seal_client self.codec self.session_id (transient_seq next.transient_seq_num)
            self.ack_seq_num ClientPayload.ack,
      )

  unfoldable pub prepare_fragment_nack : Mirror f32 pc → ℕ → List ℕ → Prepared
  prepare_fragment_nack self frame_seq received_mask =
      let next = record self { transient_seq_num = self.transient_seq_num + 1 } in
      (
        next,
        seal_client self.codec self.session_id (transient_seq next.transient_seq_num)
            self.ack_seq_num (ClientPayload.fragment_nack frame_seq received_mask),
      )
