-- ===== src/Protocol/Codec/ChaCha.antt =====
-- `ChaChaCodec`.
use rumsh.Prelude.{
  ℕ, List, Option, none, some, Result, ok, err, bail, ◌>>=◌, length, ◌==◌, if◌then◌else◌,
}
use rumsh.Crypto
use rumsh.Crypto.{CryptoManager, encrypt, decrypt}
use rumsh.Protocol.{ClientPayload, ServerPayload, EncryptedServerPacket}
use rumsh.Protocol.External.{Bincode, Lz4, Aead}
use rumsh.Protocol.Compression.{serialize_compressed, deserialize_compressed_get_sizes}
use rumsh.Protocol.Fragments
use rumsh.Protocol.Fragments.{FragmentBuffer, Completed, insert_packet}
use rumsh.Protocol.Codec.Interface.{OpenedClient, OpenedServer, PacketCodec}
use rumsh.Protocol.Codec.Chunks.{seal_packets}

pub record ChaChaCodec : Type 0 where
  pub crypto : CryptoManager
  pub handshake_crypto : CryptoManager
  pub session_id : ℕ
  pub fragment_buffer : FragmentBuffer

-- The cipher is that of the key.
unfoldable pub new : Aead → ℕ → ChaChaCodec
new cipher session_id = record {
  crypto = Crypto.new cipher session_id;
  handshake_crypto = Crypto.new cipher 0;
  session_id = session_id;
  fragment_buffer = Fragments.empty;
}

module _ (bincode : Bincode) (lz4 : Lz4) where
  open bincode use {client_payload, server_payload, client_packet, server_packet}

  unfoldable pub seal_client : ChaChaCodec → ℕ → ℕ → ℕ → ClientPayload → Result (List ℕ)
  seal_client self session_id seq ack payload = do
    payload_bytes ← client_payload.serialize payload
    let crypto_to_use = if session_id == 0 then self.handshake_crypto else self.crypto
    ciphertext ← encrypt crypto_to_use seq payload_bytes
    client_packet.serialize (record {
      session_id = session_id;
      seq_num = seq;
      ack_seq_num = ack;
      ciphertext = ciphertext;
    })

  unfoldable pub crypto_for : ChaChaCodec → ℕ → Result CryptoManager
  crypto_for self session_id =
      if session_id == 0
      then ok self.handshake_crypto
      else (if session_id == self.session_id then ok self.crypto else err bail)

  unfoldable pub open_client : ChaChaCodec → List ℕ → Result OpenedClient
  unfolding crypto_for
  open_client self bytes = do
    wire_packet ← client_packet.deserialize bytes
    crypto_to_use ← crypto_for self wire_packet.session_id
    payload_bytes ← decrypt crypto_to_use wire_packet.seq_num wire_packet.ciphertext
    payload ← client_payload.deserialize payload_bytes
    ok (
      wire_packet,
      payload,
      record {
        wire_len = length bytes;
        comp_len = length payload_bytes;
        decomp_len = length payload_bytes;
      },
    )

  unfoldable pub seal_server : ChaChaCodec → ℕ → ℕ → ServerPayload → Result (List (List ℕ))
  seal_server self seq ack payload = do
    payload_bytes ← serialize_compressed server_payload lz4 payload
    ciphertext ← encrypt self.crypto seq payload_bytes
    seal_packets server_packet seq ack ciphertext

  -- The rest of `open_server`, once a ciphertext is whole.
  unfoldable pub open_completed : ChaChaCodec → Completed → Result OpenedServer
  open_completed self (completed_packet, full_ciphertext, total_wire_len) = do
    payload_bytes ← decrypt self.crypto completed_packet.seq_num full_ciphertext
    (payload, comp_len, decomp_len) ←
        deserialize_compressed_get_sizes server_payload lz4 payload_bytes
    ok (
      completed_packet,
      payload,
      record { wire_len = total_wire_len; comp_len = comp_len; decomp_len = decomp_len },
    )

  unfoldable pub open_inserted :
      ChaChaCodec → FragmentBuffer × Option Completed → ChaChaCodec × Result (Option OpenedServer)
  unfolding open_completed
  open_inserted self (buffer, none) = (record self { fragment_buffer = buffer }, ok none)
  open_inserted self (buffer, some c) =
      (record self { fragment_buffer = buffer }, open_completed self c >>= λ r. ok (some r))

  unfoldable pub open_received :
      ChaChaCodec → ℕ → Result EncryptedServerPacket → ChaChaCodec × Result (Option OpenedServer)
  unfolding open_inserted
  open_received self wire_len (err e) = (self, err e)
  open_received self wire_len (ok wire_packet) =
      open_inserted self (insert_packet self.fragment_buffer wire_packet wire_len)

  unfoldable pub open_server : ChaChaCodec → List ℕ → ChaChaCodec × Result (Option OpenedServer)
  unfolding open_received
  open_server self bytes = open_received self (length bytes) (server_packet.deserialize bytes)

  unfoldable pub get_incomplete_frames : ChaChaCodec → List (ℕ × List ℕ)
  get_incomplete_frames self = Fragments.get_incomplete_frames self.fragment_buffer

  abbrev pub chacha_codec : PacketCodec
  chacha_codec = record {
    Codec = ChaChaCodec;
    seal_client = seal_client;
    open_client = open_client;
    seal_server = seal_server;
    open_server = open_server;
    get_incomplete_frames = get_incomplete_frames;
  }
