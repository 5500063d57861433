-- ===== src/Protocol/Codec/Null.antt =====
-- `NullCodec`: the same framing with no encryption and no compression.
use rumsh.Prelude.{
  ℕ, List, Option, none, some, Result, ok, err, bail, ◌>>=◌, length, ◌==◌, if◌then◌else◌, not, ◌&&◌,
  ◌>>◌,
}
use rumsh.Protocol.{ClientPayload, ServerPayload, EncryptedServerPacket}
use rumsh.Protocol.External.{Bincode}
use rumsh.Protocol.Fragments
use rumsh.Protocol.Fragments.{FragmentBuffer, Completed, insert_packet}
use rumsh.Protocol.Codec.Interface.{OpenedClient, OpenedServer, PacketCodec}
use rumsh.Protocol.Codec.Chunks.{seal_packets}

pub record NullCodec : Type 0 where
  pub session_id : ℕ
  pub fragment_buffer : FragmentBuffer

unfoldable pub new : ℕ → NullCodec
new session_id = record { session_id = session_id; fragment_buffer = Fragments.empty }

module _ (bincode : Bincode) where
  open bincode use {client_payload, server_payload, client_packet, server_packet}

  unfoldable pub seal_client : NullCodec → ℕ → ℕ → ℕ → ClientPayload → Result (List ℕ)
  seal_client self session_id seq ack payload = do
    payload_bytes ← client_payload.serialize payload
    client_packet.serialize (record {
      session_id = session_id;
      seq_num = seq;
      ack_seq_num = ack;
      ciphertext = payload_bytes;
    })

  pub check_session : NullCodec → ℕ → Result (Unit {0})
  check_session self session_id =
      if not (session_id == 0) && not (session_id == self.session_id) then err bail else ok tt

  unfoldable pub open_client : NullCodec → List ℕ → Result OpenedClient
  unfolding check_session
  open_client self bytes = do
    wire_packet ← client_packet.deserialize bytes
    check_session self wire_packet.session_id
    payload ← client_payload.deserialize wire_packet.ciphertext
    ok (
      wire_packet,
      payload,
      record {
        wire_len = length bytes;
        comp_len = length wire_packet.ciphertext;
        decomp_len = length wire_packet.ciphertext;
      },
    )

  unfoldable pub seal_server : NullCodec → ℕ → ℕ → ServerPayload → Result (List (List ℕ))
  seal_server self seq ack payload = do
    payload_bytes ← server_payload.serialize payload
    seal_packets server_packet seq ack payload_bytes

  -- The rest of `open_server`, once a ciphertext is whole.
  pub open_completed : NullCodec → Completed → Result OpenedServer
  open_completed self (completed_packet, full_ciphertext, total_wire_len) = do
    payload ← server_payload.deserialize full_ciphertext
    ok (
      completed_packet,
      payload,
      record {
        wire_len = total_wire_len;
        comp_len = length full_ciphertext;
        decomp_len = length full_ciphertext;
      },
    )

  pub open_inserted :
      NullCodec → FragmentBuffer × Option Completed → NullCodec × Result (Option OpenedServer)
  unfolding open_completed
  open_inserted self (buffer, none) = (record self { fragment_buffer = buffer }, ok none)
  open_inserted self (buffer, some c) =
      (record self { fragment_buffer = buffer }, open_completed self c >>= λ r. ok (some r))

  pub open_received :
      NullCodec → ℕ → Result EncryptedServerPacket → NullCodec × Result (Option OpenedServer)
  unfolding open_inserted
  open_received self wire_len (err e) = (self, err e)
  open_received self wire_len (ok wire_packet) =
      open_inserted self (insert_packet self.fragment_buffer wire_packet wire_len)

  unfoldable pub open_server : NullCodec → List ℕ → NullCodec × Result (Option OpenedServer)
  unfolding open_received
  open_server self bytes = open_received self (length bytes) (server_packet.deserialize bytes)

  unfoldable pub get_incomplete_frames : NullCodec → List (ℕ × List ℕ)
  get_incomplete_frames self = Fragments.get_incomplete_frames self.fragment_buffer

  abbrev pub null_codec : PacketCodec
  null_codec = record {
    Codec = NullCodec;
    seal_client = seal_client;
    open_client = open_client;
    seal_server = seal_server;
    open_server = open_server;
    get_incomplete_frames = get_incomplete_frames;
  }
