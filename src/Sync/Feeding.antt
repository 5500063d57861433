-- ===== src/Sync/Feeding.antt =====
-- `feed_packet` of src/server/session.rs as steps of a run.
use rumsh.Prelude.{
  ℕ, ◌+◌, ◌*◌, ◌-◌, ◌≤◌, ◌≡◌, ◌⊎◌, refl, sym, subst, Bool, true, false, ◌&&◌, List, [], ◌∷◌, ok,
  err, arith, inl, inr, ltb, ◌==◌, if◌then◌else◌, length, insert, Result-cases,
}
use rumsh.Protocol.{ClientPayload, ServerPayload, EncryptedClientPacket}
use rumsh.Protocol.ClientPayload.{handshake, keystrokes, resize, ack, fragment_nack}
use rumsh.Protocol.Grid.{GridState, u16_mod}
use rumsh.Protocol.Grid.Roundtrip.Bases.{IsValid}
use rumsh.Protocol.Codec.Interface.{PacketCodec, CodecStats}
use rumsh.Client.Floats.{F32}
use rumsh.Server.Interface.{Backend, secs}
use rumsh.Server.Session.State.{Session, Action}
use rumsh.Server.Session.Queue.{check_sync}
use rumsh.Server.Session.Packets.{
  Answer, send_all, then_sync, handshake_packet, is_transient, nack_actions, transient_packet,
  process, finish, drain, in_order_packet, reliable_packet, session_packet, opened_packet,
  feed_packet,
}
use rumsh.Sync.World.{IsAcked, World, Run, serve}
use rumsh.Sync.Steps.{Queues, Queues-append, Reaches, Reaches-append, quiet-Reaches, reply-Reaches}
use rumsh.Sync.Processing.{actions_of, Gives, then-Gives, process-Gives}
use rumsh.Sync.Serving.{same-Reaches, check_sync-Serves}

module _ (f32 : F32) (pc : PacketCodec) (be : Backend) (queued : ℕ → GridState) where
  module _ (valid : (n : ℕ) → IsValid (queued n))
      (small : (n : ℕ) → (queued n).cols * (queued n).rows ≤ u16_mod) where
    -- An answer whose jobs have the grids of the run.
    abbrev pub Answers : World f32 pc be → Answer pc be → Type 1
    Answers w x = Queues pc queued (actions_of pc be x.1) → Gives f32 pc be queued w x

    if-Answers :
        (w : World f32 pc be) (b : Bool) (x y : Answer pc be)
        → Answers w x
        → Answers w y
        → Answers w (if b then x else y)
    if-Answers w true x y hx hy = hx
    if-Answers w false x y hx hy = hy

    unchanged-Answers :
        (w : World f32 pc be) (r : Run f32 pc be queued w) → Answers w (w.server, ok [])
    unchanged-Answers w r q = same-Reaches f32 pc be queued w r w.server refl

    then_sync-Answers :
        (w : World f32 pc be) (s : Session pc be) (xs : List (Action pc be)) (now : ℕ)
        → Reaches f32 pc be queued w s xs
        → Answers w (then_sync pc be s xs now)
    unfolding then_sync
    then_sync-Answers w s xs now reached q =
        let (s', more) = check_sync pc be s now in
        Reaches-append f32 pc be queued w s s' xs more reached (λ sent r'.
          check_sync-Serves f32 pc be queued valid small (record w { server = s; sent = sent }) r'
            now (Queues-append pc queued xs more q))

    finish-Answers :
        (w : World f32 pc be) (x : Answer pc be) (now : ℕ)
        → Gives f32 pc be queued w x
        → Answers w (finish pc be x now)
    unfolding finish
    finish-Answers w (s, err e) now reached q = reached
    finish-Answers w (s, ok xs) now reached q = then_sync-Answers w s xs now reached q

    module _ (w : World f32 pc be) (r : Run f32 pc be queued w) (wire : EncryptedClientPacket)
        (now : ℕ) (genuine : (wire.ack_seq_num ≡ 0) ⊎ IsAcked wire.ack_seq_num w.acks) where
      -- The session with the acknowledgement of the packet.
      acked-Reaches :
          (s : Session pc be)
          → s.seq_num ≡ w.server.seq_num
          → s.client_ack_seq ≡ wire.ack_seq_num
          → s.state_history ≡ w.server.state_history
          → s.codec ≡ w.server.codec
          → Reaches f32 pc be queued w s []
      acked-Reaches s same_seq acked same_history =
          quiet-Reaches f32 pc be queued w r s (omega (arith, same_seq))
            (inr (subst (λ a. (a ≡ 0) ⊎ IsAcked a w.acks) (sym acked) genuine)) (inl same_history)

      in_order_packet-Answers :
          (payload : ClientPayload) → Answers w (in_order_packet pc be w.server wire payload now)
      unfolding in_order_packet
      in_order_packet-Answers payload =
          let self = w.server in
          let (more, expected, buffered) =
            drain (length self.out_of_order_packets) (self.expected_client_seq + 1)
              self.out_of_order_packets in
          let s = record self {
            expected_client_seq = expected;
            out_of_order_packets = buffered;
            ack_seq_num = expected - 1;
            client_ack_seq = wire.ack_seq_num;
          } in
          let done = process pc be ((wire.seq_num, payload) ∷ more) s in
          finish-Answers w done now (
            then-Gives f32 pc be queued w s done (acked-Reaches s refl refl refl refl) (λ sent r'.
              process-Gives f32 pc be queued ((wire.seq_num, payload) ∷ more)
                (record w { server = s; sent = sent }) r'))

      reliable_packet-Answers :
          (payload : ClientPayload) → Answers w (reliable_packet pc be w.server wire payload now)
      unfolding reliable_packet
      reliable_packet-Answers payload =
          let self = w.server in
          let buffered = record self {
            out_of_order_packets = insert wire.seq_num payload self.out_of_order_packets;
          } in
          if-Answers w (ltb wire.seq_num self.expected_client_seq) _ _ (unchanged-Answers w r) (
            if-Answers w (ltb self.expected_client_seq wire.seq_num) _ _
              (λ q. same-Reaches f32 pc be queued w r buffered refl)
              (in_order_packet-Answers payload))

      nack_actions-Reaches :
          (s : Session pc be) (payload : ClientPayload)
          → Reaches f32 pc be queued w s []
          → Reaches f32 pc be queued w s (nack_actions pc be s payload)
      nack_actions-Reaches s (fragment_nack f m) reached = reached
      nack_actions-Reaches s (handshake v cols rows) reached = reached
      nack_actions-Reaches s (keystrokes keys) reached = reached
      nack_actions-Reaches s (resize cols rows) reached = reached
      nack_actions-Reaches s ack reached = reached
      nack_actions-Reaches s ClientPayload.keep_alive reached = reached

      newer_ack-Reaches :
          (b : Bool)
          → Reaches f32 pc be queued w
              (if b then record w.server { client_ack_seq = wire.ack_seq_num } else w.server)
              []
      newer_ack-Reaches true = acked-Reaches _ refl refl refl refl
      newer_ack-Reaches false = same-Reaches f32 pc be queued w r w.server refl

      transient_packet-Answers :
          (payload : ClientPayload) → Answers w (transient_packet pc be w.server wire payload now)
      unfolding transient_packet
      transient_packet-Answers payload =
          let newer = ltb w.server.client_ack_seq wire.ack_seq_num in
          let acked =
            if newer then record w.server { client_ack_seq = wire.ack_seq_num } else w.server in
          then_sync-Answers w acked (nack_actions pc be acked payload) now
            (nack_actions-Reaches acked payload (newer_ack-Reaches newer))

    module _ (w : World f32 pc be) (r : Run f32 pc be queued w) (wire : EncryptedClientPacket)
        (now : ℕ) (genuine : (wire.ack_seq_num ≡ 0) ⊎ IsAcked wire.ack_seq_num w.acks) where
      session_packet-Answers :
          (payload : ClientPayload) (src_addr : ℕ)
          → Answers w (session_packet pc be w.server wire payload src_addr now)
      unfolding session_packet
      session_packet-Answers payload src_addr =
          let heard = record w.server { last_recv_time = now; current_client_addr = src_addr } in
          let w' : World f32 pc be = record w { server = heard } in
          let r' : Run f32 pc be queued w' = serve w heard r (omega arith) (inl refl) (inl refl) in
          if-Answers w (is_transient pc be wire.seq_num payload) _ _
            (transient_packet-Answers w' r' wire now genuine payload)
            (reliable_packet-Answers w' r' wire now genuine payload)

      handshake_packet-Answers :
          (src_addr : ℕ) → Answers w (handshake_packet pc be w.server wire src_addr now)
      unfolding handshake_packet
      handshake_packet-Answers src_addr =
          let self = w.server in
          let cleared = record self {
            current_client_addr = src_addr;
            last_recv_time = now;
            ack_seq_num = wire.seq_num;
            expected_client_seq = wire.seq_num + 1;
            client_ack_seq = 0;
            out_of_order_packets = [];
            state_history = [];
            dirty = true;
          } in
          let s = record cleared { seq_num = self.seq_num + 1 } in
          let w' : World f32 pc be = record w { server = cleared } in
          let r' : Run f32 pc be queued w' =
            serve w cleared r (omega arith) (inr (inl refl)) (inr refl) in
          let hello = ServerPayload.handshake_ack self.session_id in
          let busy = ltb 0 self.seq_num && ltb (now - self.last_recv_time) (secs 5) in
          let replied : Answer pc be =
            elim (pc.seal_server self.codec s.seq_num wire.seq_num hello) [
              | err e ↦ (s, err e)
              | ok packets ↦ then_sync pc be s (send_all pc be src_addr packets) now
            ] in
          if-Answers w busy (self, ok []) replied (unchanged-Answers w r)
            (elim (Result-cases (pc.seal_server self.codec s.seq_num wire.seq_num hello)) [
              | inr (e, failed) ↦ rw failed (λ q.
                  quiet-Reaches f32 pc be queued w r s (omega arith) (inr (inl refl)) (inr refl)
                    refl)
              | inl (packets, sealed) ↦ rw sealed (
                  then_sync-Answers w s (send_all pc be src_addr packets) now (
                    reply-Reaches f32 pc be queued w' r' s hello wire.seq_num src_addr packets refl
                      refl refl refl refl sealed))
            ])

      -- Whatever the server does with a datagram that opens to a packet of the client is steps of a
      -- run: it may raise its number, take the acknowledgement of the packet, clear its history,
      -- reply and queue a frame, and every packet and job among its actions carries a payload that
      -- these steps send, under the number that they send it with. The acknowledgement of the packet
      -- is one that the client gave, or 0. The grids of the jobs are those that the run queues, which
      -- are valid and have at most 2^16 cells.
      pub feed_packet-Reaches :
          (bytes : List ℕ) (payload : ClientPayload) (stats : CodecStats) (src_addr : ℕ)
          → pc.open_client w.server.codec bytes ≡ ok (wire, payload, stats)
          → Queues pc queued (actions_of pc be (feed_packet pc be w.server bytes src_addr now).1)
          → Reaches f32 pc be queued w
              (feed_packet pc be w.server bytes src_addr now).0
              (actions_of pc be (feed_packet pc be w.server bytes src_addr now).1)
      unfolding feed_packet opened_packet
      feed_packet-Reaches bytes payload stats src_addr opens = rw opens (
          if-Answers w (wire.session_id == 0) _ _ (handshake_packet-Answers src_addr) (
            if-Answers w (wire.session_id == w.server.session_id) _ _
              (session_packet-Answers payload src_addr) (unchanged-Answers w r)))
