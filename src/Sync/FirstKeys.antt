-- ===== src/Sync/FirstKeys.antt =====
-- What becomes of the first keys after a handshake: the client counts its packets from 1, and the
-- server expects the number after that of the handshake packet.
use rumsh.Prelude.{
  ℕ, ◌+◌, ◌≤◌, ◌<◌, ◌≡◌, ◌≢◌, sym, ap, ◌∙◌, true, false, ◌||◌, List, [], Result, ok, err, bail,
  insert, ◌^◌, ltb, ◌==◌, if◌then◌else◌, ≢→==, lt→ltb, arith,
}
use rumsh.Protocol.{ClientPayload, EncryptedClientPacket}
use rumsh.Protocol.External.{Bincode, BincodeLaws, Lz4}
use rumsh.Protocol.Codec.Interface.{CodecStats, PacketCodec}
use rumsh.Protocol.Codec.ChaCha.{chacha_codec, seal_client}
use rumsh.Protocol.Codec.Requests.{SameKeys, open_client-seal_client}
use rumsh.Client.Floats.{F32}
use rumsh.Client.Session.State.{Mirror}
use rumsh.Client.Session.Prepare.{prepare_keystrokes, keep_unacked}
use rumsh.Server.Interface.{Backend}
use rumsh.Server.Session.State.{Session}
use rumsh.Server.Session.Packets.{feed_packet, is_transient}

module _ (bincode : Bincode) (lz4 : Lz4) (laws : BincodeLaws bincode) (f32 : F32)
    (be : Backend) where
  abbrev pc : PacketCodec
  pc = chacha_codec bincode lz4

  sealed_of_kept :
      (c c' : Mirror f32 pc) (now : ℕ) (r : Result (List ℕ)) (bytes : List ℕ)
      → keep_unacked f32 pc c now r ≡ (c', ok bytes)
      → r ≡ ok bytes
  unfolding keep_unacked
  sealed_of_kept c c' now (ok b) bytes e = cc e
  sealed_of_kept c c' now (err f) bytes e = cc e

  -- The sealed packet behind the keys that the client prepares.
  sealed_keys :
      (c c' : Mirror f32 pc) (keys : List ℕ) (now : ℕ) (bytes : List ℕ)
      → prepare_keystrokes f32 pc c keys now ≡ (c', ok bytes)
      → seal_client bincode lz4 c.codec c.session_id
          (c.seq_num + 1)
          c.ack_seq_num
          (ClientPayload.keystrokes keys)
        ≡ ok bytes
  unfolding prepare_keystrokes
  sealed_keys c c' keys now bytes e =
      let sent : Mirror f32 pc = record c {
        seq_num = c.seq_num + 1;
        sent_packets = insert (c.seq_num + 1) now c.sent_packets;
      } in
      sealed_of_kept sent c' now
        (seal_client bincode lz4 c.codec c.session_id (c.seq_num + 1) c.ack_seq_num
          (ClientPayload.keystrokes keys))
        bytes e

  -- The server drops a packet of keys below the number that it expects.
  feed_packet-below :
      (s : Session pc be) (bytes keys : List ℕ) (wire : EncryptedClientPacket) (stats : CodecStats)
      (src_addr now : ℕ)
      → pc.open_client s.codec bytes ≡ ok (wire, ClientPayload.keystrokes keys, stats)
      → wire.session_id ≢ 0
      → wire.session_id ≡ s.session_id
      → wire.seq_num < s.expected_client_seq
      → wire.seq_num < 2 ^ 63
      → feed_packet pc be s bytes src_addr now
        ≡ (record s { last_recv_time = now; current_client_addr = src_addr }, ok [])
  unfolding feed_packet
  feed_packet-below s bytes keys wire stats src_addr now opened live same below small =
      let some_id : (wire.session_id == 0) ≡ false = ≢→== wire.session_id 0 live in
      let own_id : (wire.session_id == s.session_id) ≡ true = ground arith in
      let plain : is_transient pc be wire.seq_num (ClientPayload.keystrokes keys) ≡ false =
        ground arith in
      let old : ltb wire.seq_num s.expected_client_seq ≡ true =
        lt→ltb wire.seq_num s.expected_client_seq below in
      rw (opened, feed_packet) (rw (some_id) (rw own_id (rw plain (rw old))))

  -- Keys of a packet whose number is not above that of the handshake never reach the shell: the
  -- server that starts from a handshake with number `k` takes each of the client's first `k`
  -- packets, sealed and opened with the session's keys, for a repetition. It only notes the time and
  -- the address, and it has acknowledged the packet's number before it came.
  pub first_keys_lost :
      (c c' : Mirror f32 pc) (s : Session pc be) (keys bytes : List ℕ) (k src_addr now later : ℕ)
      → s.expected_client_seq ≡ k + 1
      → s.ack_seq_num ≡ k
      → s.session_id ≢ 0
      → c.session_id ≡ s.session_id
      → s.codec.session_id ≡ s.session_id
      → SameKeys c.codec s.codec
      → c.seq_num < k
      → k < 2 ^ 63
      → prepare_keystrokes f32 pc c keys now ≡ (c', ok bytes)
      → (feed_packet pc be s bytes src_addr later
          ≡ (record s { last_recv_time = later; current_client_addr = src_addr }, ok []))
        × (c.seq_num + 1 ≤ s.ack_seq_num)
  first_keys_lost c c' s keys bytes k src_addr now later expected acked live same own keys_same
        early small e =
      let (wire, stats, wire_id, wire_seq, _, opened) =
        open_client-seal_client bincode lz4 laws c.codec s.codec c.session_id (c.seq_num + 1)
          c.ack_seq_num (ClientPayload.keystrokes keys) bytes keys_same
          (sealed_keys c c' keys now bytes e) in
      let known : (c.session_id == 0 || c.session_id == s.codec.session_id) ≡ true = ground arith in
      (
        feed_packet-below s bytes keys wire stats src_addr later
            (opened
              ∙ ap (λ b. if b then ok (wire, ClientPayload.keystrokes keys, stats) else err bail)
                  known)
            (λ z. live (sym same ∙ sym wire_id ∙ z)) (wire_id ∙ same) (omega arith) (omega arith),
        omega arith,
      )
