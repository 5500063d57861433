-- ===== src/Server/Session/Packets.antt =====
-- `AuthoritativeSession::feed_packet`, and the session's other operations.
use rumsh.Prelude.{
  ℕ, zero, suc, ◌+◌, ◌-◌, ◌/◌, ◌%◌, ◌^◌, Bool, true, ◌&&◌, List, [], ◌∷◌, ◌++◌, map, none, some,
  Result, ok, err, panic, ◌>>=◌, length, Map, lookup, insert, remove, ltb, ◌==◌, if◌then◌else◌,
}
use rumsh.Protocol.{ClientPayload, ServerPayload, EncryptedClientPacket}
use rumsh.Protocol.ClientPayload.{handshake, keystrokes, resize, ack, fragment_nack}
use rumsh.Protocol.Codec.Interface.{PacketCodec, OpenedClient}
use rumsh.Server.Interface.{Backend, secs}
use rumsh.Server.Session.State.{send_packet, resend_fragments, Session, Action}
use rumsh.Server.Session.Queue.{check_sync}

-- The `while let` loop over the buffered packets; each round removes one.
unfoldable pub drain : ℕ → ℕ → Map ClientPayload → List (ℕ × ClientPayload) × ℕ × Map ClientPayload
drain zero expected buffered = ([], expected, buffered)
drain (suc fuel) expected buffered =
    let (rest, expected', buffered') = drain fuel (expected + 1) (remove expected buffered) in
    elim (lookup expected buffered) [
      | none ↦ ([], expected, buffered)
      | some p ↦ ((expected, p) ∷ rest, expected', buffered')
    ]

module _ (pc : PacketCodec) (be : Backend) where
  open pc use {Codec, open_client, seal_server}

  abbrev pub send_all : ℕ → List (List ℕ) → List (Action pc be)
  send_all target packets = map (λ bytes. send_packet bytes target) packets

  -- The answer of a handler: the session, and the actions or an error.
  abbrev pub Answer : Type 0
  Answer = Session pc be × Result (List (Action pc be))

  -- `actions.extend(self.check_sync(now)); Ok(actions)`.
  unfoldable pub then_sync : Session pc be → List (Action pc be) → ℕ → Answer
  then_sync self actions now =
      let (synced, more) = check_sync pc be self now in (synced, ok (actions ++ more))

  -- The arm for session id 0.
  unfoldable pub handshake_packet : Session pc be → EncryptedClientPacket → ℕ → ℕ → Answer
  unfolding then_sync
  handshake_packet self wire_packet src_addr now =
      let reset = record self {
        current_client_addr = src_addr;
        last_recv_time = now;
        ack_seq_num = wire_packet.seq_num;
        expected_client_seq = wire_packet.seq_num + 1;
        client_ack_seq = 0;
        out_of_order_packets = [];
        state_history = [];
        dirty = true;
        seq_num = self.seq_num + 1;
      } in
      let reply =
        seal_server self.codec reset.seq_num wire_packet.seq_num
          (ServerPayload.handshake_ack self.session_id) in
      if ltb 0 self.seq_num && ltb (now - self.last_recv_time) (secs 5)
      then (self, ok [])
      else elim reply [
        | err e ↦ (reset, err e)
        | ok packets ↦ then_sync reset (send_all src_addr packets) now
      ]

  abbrev pub is_transient : ℕ → ClientPayload → Bool
  is_transient seq_num ack = true
  is_transient seq_num (fragment_nack f m) = true
  is_transient seq_num other = seq_num / 2 ^ 63 % 2 == 1

  abbrev pub nack_actions : Session pc be → ClientPayload → List (Action pc be)
  nack_actions self (fragment_nack f m) = resend_fragments f m self.current_client_addr ∷ []
  nack_actions self other = []

  unfoldable pub transient_packet :
      Session pc be → EncryptedClientPacket → ClientPayload → ℕ → Answer
  unfolding then_sync
  transient_packet self wire_packet payload now =
      let acked =
        if ltb self.client_ack_seq wire_packet.ack_seq_num
        then record self { client_ack_seq = wire_packet.ack_seq_num }
        else self in
      then_sync acked (nack_actions acked payload) now

  abbrev pub add_actions : List (Action pc be) → Answer → Answer
  add_actions first (s, ok rest) = (s, ok (first ++ rest))
  add_actions first (s, err e) = (s, err e)

  -- The loop over the packets in order; a failure to seal a reply ends it, and a handshake inside a
  -- session is `unreachable!()`.
  unfoldable pub process : List (ℕ × ClientPayload) → Session pc be → Answer
  process [] self = (self, ok [])
  process ((seq, ack) ∷ ps) self = process ps self
  process ((seq, keystrokes keys) ∷ ps) self =
      process ps (record self { pty = be.write self.pty keys })
  process ((seq, resize cols rows) ∷ ps) self = process ps (record self {
    pty = be.resize self.pty cols rows;
    term_state = be.term_resize self.term_state cols rows;
    dirty = true;
  })
  process ((seq, ClientPayload.keep_alive) ∷ ps) self =
      let replied = record self { seq_num = self.seq_num + 1 } in
      let rest = process ps replied in
      elim (seal_server self.codec replied.seq_num self.ack_seq_num ServerPayload.keep_alive) [
        | err e ↦ (replied, err e)
        | ok packets ↦ add_actions (send_all self.current_client_addr packets) rest
      ]
  process ((seq, fragment_nack f m) ∷ ps) self =
      add_actions (resend_fragments f m self.current_client_addr ∷ []) (process ps self)
  process ((seq, handshake v cols rows) ∷ ps) self = (self, err panic)

  -- `actions.extend(self.check_sync(now))` after the loop, unless it failed.
  unfoldable pub finish : Answer → ℕ → Answer
  unfolding then_sync
  finish (self, err e) now = (self, err e)
  finish (self, ok actions) now = then_sync self actions now

  unfoldable pub in_order_packet :
      Session pc be → EncryptedClientPacket → ClientPayload → ℕ → Answer
  unfolding drain process finish
  in_order_packet self wire_packet payload now =
      let (more, expected, buffered) =
        drain (length self.out_of_order_packets) (self.expected_client_seq + 1)
          self.out_of_order_packets in
      let received = record self {
        expected_client_seq = expected;
        out_of_order_packets = buffered;
        ack_seq_num = expected - 1;
        client_ack_seq = wire_packet.ack_seq_num;
      } in
      finish (process ((wire_packet.seq_num, payload) ∷ more) received) now

  unfoldable pub reliable_packet :
      Session pc be → EncryptedClientPacket → ClientPayload → ℕ → Answer
  unfolding in_order_packet
  reliable_packet self wire_packet payload now =
      let seq_num = wire_packet.seq_num in
      let buffered = record self {
        out_of_order_packets = insert seq_num payload self.out_of_order_packets;
      } in
      let handled = in_order_packet self wire_packet payload now in
      if ltb seq_num self.expected_client_seq
      then (self, ok [])
      else (if ltb self.expected_client_seq seq_num then (buffered, ok []) else handled)

  unfoldable pub session_packet :
      Session pc be → EncryptedClientPacket → ClientPayload → ℕ → ℕ → Answer
  unfolding reliable_packet transient_packet
  session_packet self wire_packet payload src_addr now =
      let heard = record self { last_recv_time = now; current_client_addr = src_addr } in
      let transient = transient_packet heard wire_packet payload now in
      let reliable = reliable_packet heard wire_packet payload now in
      if is_transient wire_packet.seq_num payload then transient else reliable

  unfoldable pub opened_packet : Session pc be → Result OpenedClient → ℕ → ℕ → Answer
  unfolding handshake_packet session_packet
  opened_packet self (err e) src_addr now = (self, ok [])
  opened_packet self (ok (wire_packet, payload, stats)) src_addr now =
      let first = handshake_packet self wire_packet src_addr now in
      let next = session_packet self wire_packet payload src_addr now in
      if wire_packet.session_id == 0
      then first
      else (if wire_packet.session_id == self.session_id then next else (self, ok []))

  unfoldable pub feed_packet : Session pc be → List ℕ → ℕ → ℕ → Answer
  unfolding opened_packet
  feed_packet self packet_bytes src_addr now =
      opened_packet self (open_client self.codec packet_bytes) src_addr now

  -- `saturating_add` of a `usize` of 64 bits.
  abbrev pub saturating_add : ℕ → ℕ → ℕ
  saturating_add a b = if ltb (a + b) (2 ^ 64) then a + b else 2 ^ 64 - 1

  unfoldable pub on_pty_bytes : Session pc be → List ℕ → ℕ → Session pc be
  on_pty_bytes self bytes now =
      let (term, pty) = be.term_write self.term_state self.pty bytes in
      record self {
        term_state = term;
        pty = pty;
        dirty = true;
        last_pty_bytes_time = now;
        pty_bytes_acc = saturating_add self.pty_bytes_acc (length bytes);
      }

  unfoldable pub on_tick : Session pc be → ℕ → Session pc be × List (Action pc be)
  on_tick self now = check_sync pc be self now

  -- `packets.pop().unwrap_or_default()`.
  abbrev pub last_packet : List (List ℕ) → List ℕ
  last_packet [] = []
  last_packet (p ∷ []) = p
  last_packet (p ∷ q ∷ ps) = last_packet (q ∷ ps)

  unfoldable pub prepare_shutdown : Session pc be → Session pc be × Result (Action pc be)
  prepare_shutdown self =
      let next = record self { seq_num = self.seq_num + 1 } in
      (
        next,
        seal_server self.codec next.seq_num 0 ServerPayload.shutdown >>= λ packets.
            ok (send_packet (last_packet packets) self.current_client_addr),
      )
