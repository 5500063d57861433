-- ===== src/Protocol.antt =====
-- src/protocol.rs: the payloads and packets of both directions, and the sizes of a fragment.
pub mod Grapheme
pub mod Grid
pub mod External
pub mod Compression
pub mod Fragments
pub mod Codec
use rumsh.Prelude.{ℕ, List, Bool}
use Grid.{FrameUpdate}

pub data ClientPayload : Type 0 where
  handshake : (client_version cols rows : ℕ) → ClientPayload
  keystrokes : List ℕ → ClientPayload
  resize : (cols rows : ℕ) → ClientPayload
  keep_alive : ClientPayload
  ack : ClientPayload
  fragment_nack : (frame_seq : ℕ) → (received_mask : List ℕ) → ClientPayload

pub record ClientPacket : Type 0 where
  pub session_id : ℕ
  pub seq_num : ℕ
  pub ack_seq_num : ℕ
  pub payload : ClientPayload

pub data ServerPayload : Type 0 where
  handshake_ack : (session_id : ℕ) → ServerPayload
  frame : FrameUpdate → ServerPayload
  keep_alive : ServerPayload
  shutdown : ServerPayload

pub record ServerPacket : Type 0 where
  pub seq_num : ℕ
  pub ack_seq_num : ℕ
  pub payload : ServerPayload

abbrev pub target_mtu : ℕ
target_mtu = 1200

abbrev pub fragment_payload_size : ℕ
fragment_payload_size = 1024

pub record EncryptedClientPacket : Type 0 where
  pub session_id : ℕ
  pub seq_num : ℕ
  pub ack_seq_num : ℕ
  pub ciphertext : List ℕ

pub record EncryptedServerPacket : Type 0 where
  pub seq_num : ℕ
  pub ack_seq_num : ℕ
  pub frag_idx : ℕ
  pub total_frags : ℕ
  pub ciphertext : List ℕ
