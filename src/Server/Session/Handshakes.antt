-- ===== src/Server/Session/Handshakes.antt =====
-- A handshake payload inside a running session.
use rumsh.Prelude.{
  ℕ, ◌^◌, ◌<◌, ◌≡◌, ◌≢◌, refl, sym, ◌∙◌, ap, false, List, ok, err, panic, ◌==◌, arith, le→ltb, ≢→==,
  ==-refl,
}
use rumsh.Protocol.{EncryptedClientPacket}
use rumsh.Protocol.ClientPayload.{handshake}
use rumsh.Protocol.Codec.Interface.{PacketCodec, CodecStats}
use rumsh.Server.Interface.{Backend}
use rumsh.Server.Session.State.{Session}
use rumsh.Server.Session.Packets.{
  is_transient, process, finish, in_order_packet, reliable_packet, session_packet, opened_packet,
  feed_packet,
}

module _ (pc : PacketCodec) (be : Backend) where
  in_order_packet_panics :
      (s : Session pc be) (wire : EncryptedClientPacket) (version cols rows now : ℕ)
      → (in_order_packet pc be s wire (handshake version cols rows) now).1 ≡ err panic
  unfolding in_order_packet process finish
  in_order_packet_panics s wire version cols rows now = refl

  -- The server panics on a packet with its session's id and the next expected number (below 2^63)
  -- that holds a handshake.
  pub feed_packet_panics :
      (s : Session pc be) (bytes : List ℕ) (src_addr now version cols rows : ℕ)
      (wire : EncryptedClientPacket) (stats : CodecStats)
      → pc.open_client s.codec bytes ≡ ok (wire, handshake version cols rows, stats)
      → s.session_id ≢ 0
      → wire.session_id ≡ s.session_id
      → wire.seq_num ≡ s.expected_client_seq
      → wire.seq_num < 2 ^ 63
      → (feed_packet pc be s bytes src_addr now).1 ≡ err panic
  unfolding feed_packet opened_packet session_packet reliable_packet
  feed_packet_panics s bytes src_addr now version cols rows wire stats opens live ours next low =
      let heard = record s { last_recv_time = now; current_client_addr = src_addr } in
      let reliable : is_transient pc be wire.seq_num (handshake version cols rows) ≡ false =
        ground arith in
      rw opens (
        rw
          (
            ≢→== wire.session_id 0 (λ e. live (sym ours ∙ e)),
            ap (λ k. k == s.session_id) ours ∙ ==-refl s.session_id,
          )
          (rw reliable (
            rw
              (
                le→ltb wire.seq_num s.expected_client_seq (omega arith),
                le→ltb s.expected_client_seq wire.seq_num (omega arith),
              )
              (in_order_packet_panics heard wire version cols rows now))))
