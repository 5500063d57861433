-- ===== src/Protocol/Codec/Interface.antt =====
-- The trait `PacketCodec`: what a session asks of a codec.
use rumsh.Prelude.{ℕ, List, Option, Result}
use rumsh.Protocol.{ClientPayload, ServerPayload, EncryptedClientPacket, EncryptedServerPacket}

pub record CodecStats : Type 0 where
  pub wire_len : ℕ
  pub comp_len : ℕ
  pub decomp_len : ℕ

abbrev pub OpenedClient : Type 0
OpenedClient = EncryptedClientPacket × ClientPayload × CodecStats

abbrev pub OpenedServer : Type 0
OpenedServer = EncryptedServerPacket × ServerPayload × CodecStats

-- The arguments of `seal_client` are the session, the sequence number, the acknowledgement and the
-- payload. `open_server` may buffer a fragment, also when it fails.
pub record PacketCodec : Type 1 where
  pub Codec : Type 0
  pub seal_client : Codec → ℕ → ℕ → ℕ → ClientPayload → Result (List ℕ)
  pub open_client : Codec → List ℕ → Result OpenedClient
  pub seal_server : Codec → ℕ → ℕ → ServerPayload → Result (List (List ℕ))
  pub open_server : Codec → List ℕ → Codec × Result (Option OpenedServer)
  pub get_incomplete_frames : Codec → List (ℕ × List ℕ)
