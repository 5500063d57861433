-- ===== src/Protocol/Codec/Chunks.antt =====
-- How a ciphertext is cut into packets, and a codec's step from a received packet.
pub mod Cutting
use rumsh.Prelude.{
  ℕ, zero, suc, ◌+◌, ◌%◌, List, [], ◌∷◌, Result, ok, ◌>>=◌, length, take, drop, leb, if◌then◌else◌,
}
use rumsh.Protocol.{EncryptedServerPacket, fragment_payload_size}
use rumsh.Protocol.External.{Serde}

-- `bytes.chunks(FRAGMENT_PAYLOAD_SIZE)`; each round takes at least one byte off.
pub chunks_from : ℕ → List ℕ → List (List ℕ)
chunks_from zero bytes = []
chunks_from (suc fuel) [] = []
chunks_from (suc fuel) (b ∷ bs) =
    take fragment_payload_size (b ∷ bs) ∷ chunks_from fuel (drop fragment_payload_size (b ∷ bs))

unfoldable pub chunks : List ℕ → List (List ℕ)
unfolding chunks_from
chunks bytes = chunks_from (length bytes) bytes

abbrev pub fragment_packet : ℕ → ℕ → ℕ → ℕ → List ℕ → EncryptedServerPacket
fragment_packet seq ack idx total_frags chunk = record {
  seq_num = seq;
  ack_seq_num = ack;
  frag_idx = idx % 65536;
  total_frags = total_frags;
  ciphertext = chunk;
}

module _ (s : Serde EncryptedServerPacket) (seq ack : ℕ) where
  -- The loop over the chunks, from index `idx` on.
  pub seal_chunks : ℕ → ℕ → List (List ℕ) → Result (List (List ℕ))
  seal_chunks total_frags idx [] = ok []
  seal_chunks total_frags idx (c ∷ cs) = do
    packet ← s.serialize (fragment_packet seq ack idx total_frags c)
    rest ← seal_chunks total_frags (idx + 1) cs
    ok (packet ∷ rest)

  -- The common part of the two `seal_server`: one packet, or one for each chunk.
  unfoldable pub seal_packets : List ℕ → Result (List (List ℕ))
  unfolding seal_chunks
  seal_packets ciphertext =
      if leb (length ciphertext) fragment_payload_size
      then (s.serialize (record {
        seq_num = seq;
        ack_seq_num = ack;
        frag_idx = 0;
        total_frags = 1;
        ciphertext = ciphertext;
      })
          >>= λ packet. ok (packet ∷ []))
      else seal_chunks (length (chunks ciphertext) % 65536) 0 (chunks ciphertext)
