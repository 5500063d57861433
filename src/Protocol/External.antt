-- ===== src/Protocol/External.antt =====
-- What the program takes from other crates, as parameters: bincode's encoding of each message,
-- LZ4, and the cipher of a key. The laws say that each inverts its counterpart.
use rumsh.Prelude.{ℕ, ◌≡◌, List, Result, ok}
use rumsh.Protocol.{ClientPayload, ServerPayload, EncryptedClientPacket, EncryptedServerPacket}

-- `bincode::serde::encode_to_vec` and `borrow_decode_from_slice` with variable-length integers.
pub record Serde (A : Type 0) : Type 0 where
  pub serialize : A → Result (List ℕ)
  pub deserialize : List ℕ → Result A

pub record Bincode : Type 0 where
  pub client_payload : Serde ClientPayload
  pub server_payload : Serde ServerPayload
  pub client_packet : Serde EncryptedClientPacket
  pub server_packet : Serde EncryptedServerPacket

abbrev pub Inverts : {A : Type 0} → Serde A → Type 0
Inverts {A} s = (a : A) (bs : List ℕ) → s.serialize a ≡ ok bs → s.deserialize bs ≡ ok a

pub record BincodeLaws (b : Bincode) : Type 0 where
  pub client_payload_inverts : Inverts b.client_payload
  pub server_payload_inverts : Inverts b.server_payload
  pub client_packet_inverts : Inverts b.client_packet
  pub server_packet_inverts : Inverts b.server_packet

-- `lz4_flex::compress_prepend_size` and `decompress_size_prepended`.
pub record Lz4 : Type 0 where
  pub compress : List ℕ → List ℕ
  pub decompress : List ℕ → Result (List ℕ)

abbrev pub Lz4Inverts : Lz4 → Type 0
Lz4Inverts z = (bs : List ℕ) → z.decompress (z.compress bs) ≡ ok bs

-- `ChaCha20Poly1305` with its key: both take a nonce.
pub record Aead : Type 0 where
  pub encrypt : List ℕ → List ℕ → Result (List ℕ)
  pub decrypt : List ℕ → List ℕ → Result (List ℕ)

abbrev pub AeadInverts : Aead → Type 0
AeadInverts a =
    (nonce plain cipher : List ℕ)
    → a.encrypt nonce plain ≡ ok cipher
    → a.decrypt nonce cipher ≡ ok plain
