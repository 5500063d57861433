-- ===== src/Protocol/Compression.antt =====
-- `serialize_compressed` and `deserialize_compressed` of src/protocol.rs: a flag byte, then the
-- bytes as they are (short messages) or compressed.
use rumsh.Prelude.{
  ℕ, suc, ◌≡◌, List, [], ◌∷◌, Result, ok, err, bail, ◌>>=◌, length, ltb, ◌==◌, if◌then◌else◌, arith,
  Bool-cases, inl, inr,
}
use rumsh.Protocol.External.{Serde, Inverts, Lz4, Lz4Inverts}

module _ {A : Type 0} (s : Serde A) (z : Lz4) where
  unfoldable pub serialize_compressed : A → Result (List ℕ)
  serialize_compressed value = do
    plain ← s.serialize value
    ok (if ltb (length plain) 256 then 0x00 ∷ plain else 0x01 ∷ z.compress plain)

  -- The value, the length received and the length decompressed.
  unfoldable pub deserialize_compressed_get_sizes : List ℕ → Result (A × ℕ × ℕ)
  deserialize_compressed_get_sizes [] = err bail
  deserialize_compressed_get_sizes (flag ∷ payload) =
      if flag == 0x00
      then (s.deserialize payload >>= λ v. ok (v, suc (length payload), length payload))
      else if flag == 0x01
      then (z.decompress payload >>= λ d.
          s.deserialize d >>= λ v. ok (v, suc (length payload), length d))
      else err bail

  unfoldable pub deserialize_compressed : List ℕ → Result A
  unfolding deserialize_compressed_get_sizes
  deserialize_compressed bytes = deserialize_compressed_get_sizes bytes >>= λ r. ok r.0

  -- What is serialized, compressed or not, deserializes to the value, with the length of the bytes
  -- received and of the plain encoding.
  pub deserialize-serialize_compressed :
      Inverts s
      → Lz4Inverts z
      → (value : A) (bytes plain : List ℕ) → s.serialize value ≡ ok plain
      → serialize_compressed value ≡ ok bytes
      → deserialize_compressed_get_sizes bytes ≡ ok (value, length bytes, length plain)
  unfolding serialize_compressed deserialize_compressed_get_sizes
  deserialize-serialize_compressed inv zinv value bytes plain e h =
      elim (Bool-cases (ltb (length plain) 256)) [
        | inl short ↦
            let raw : bytes ≡ 0x00 ∷ plain = ground arith in rw raw (rw (inv value plain e))
        | inr long ↦
            let packed : bytes ≡ 0x01 ∷ z.compress plain = ground arith in
            rw packed (rw (zinv plain) (rw (inv value plain e)))
      ]
