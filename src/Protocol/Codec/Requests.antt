-- ===== src/Protocol/Codec/Requests.antt =====
-- The client's packets as `ChaChaCodec` of the server opens them.
use rumsh.Prelude.{
  ℕ, ◌≡◌, refl, sym, ap, ◌∙◌, inl, inr, ◌||◌, List, ok, err, bail, ok_of_bind, length, ◌==◌,
  if◌then◌else◌, Bool-cases, arith,
}
use rumsh.Crypto.{CryptoManager, encrypt, decrypt}
use rumsh.Crypto.Inverts.{decrypt-encrypt}
use rumsh.Protocol.{ClientPayload, EncryptedClientPacket}
use rumsh.Protocol.External.{Bincode, BincodeLaws, Lz4, AeadInverts}
use rumsh.Protocol.Codec.Interface.{CodecStats}
use rumsh.Protocol.Codec.ChaCha.{ChaChaCodec, seal_client, open_client, crypto_for}

-- The two sides have the same keys, and their ciphers invert.
pub record SameKeys (client server : ChaChaCodec) : Type 0 where
  pub crypto : client.crypto ≡ server.crypto
  pub handshake_crypto : client.handshake_crypto ≡ server.handshake_crypto
  pub crypto_inverts : AeadInverts server.crypto.cipher
  pub handshake_inverts : AeadInverts server.handshake_crypto.cipher

module _ (bincode : Bincode) (lz4 : Lz4) (laws : BincodeLaws bincode) where
  -- The manager that a session id chooses.
  abbrev chosen : ChaChaCodec → ℕ → CryptoManager
  chosen codec session_id = if session_id == 0 then codec.handshake_crypto else codec.crypto

  chosen-inverts :
      (client server : ChaChaCodec) (session_id seq : ℕ) (plain cipher : List ℕ)
      → SameKeys client server
      → encrypt (chosen client session_id) seq plain ≡ ok cipher
      → decrypt (chosen server session_id) seq cipher ≡ ok plain
  chosen-inverts client server session_id seq plain cipher keys e =
      elim (Bool-cases (session_id == 0)) [
        | inl zero_id ↦ rw zero_id (
            decrypt-encrypt server.handshake_crypto seq plain cipher keys.handshake_inverts
              (ap (λ m. encrypt m seq plain) (sym keys.handshake_crypto) ∙ (rw zero_id at e)))
        | inr other ↦ rw other (
            decrypt-encrypt server.crypto seq plain cipher keys.crypto_inverts
              (ap (λ m. encrypt m seq plain) (sym keys.crypto) ∙ (rw other at e)))
      ]

  crypto_for-chosen :
      (server : ChaChaCodec) (session_id : ℕ)
      → crypto_for bincode lz4 server session_id ≡ (
          if session_id == 0 || session_id == server.session_id
          then ok (chosen server session_id)
          else err bail)
  unfolding crypto_for
  crypto_for-chosen server session_id = ground arith

  -- What the client seals is opened as the packet that it is, under the session id 0 or the server's
  -- own; under any other id it is an error.
  pub open_client-seal_client :
      (client server : ChaChaCodec) (session_id seq ack : ℕ) (payload : ClientPayload)
      (bytes : List ℕ)
      → SameKeys client server
      → seal_client bincode lz4 client session_id seq ack payload ≡ ok bytes
      → (wire : EncryptedClientPacket) × (stats : CodecStats) × (wire.session_id ≡ session_id)
        × (wire.seq_num ≡ seq)
        × (wire.ack_seq_num ≡ ack)
        × (open_client bincode lz4 server bytes ≡ (
            if session_id == 0 || session_id == server.session_id
            then ok (wire, payload, stats)
            else err bail))
  unfolding seal_client open_client
  open_client-seal_client client server session_id seq ack payload bytes keys e =
      let (plain, e_plain, e1) = ok_of_bind (bincode.client_payload.serialize payload) _ bytes e in
      let (cipher, e_cipher, e2) =
        ok_of_bind (encrypt (chosen client session_id) seq plain) _ bytes e1 in
      let wire : EncryptedClientPacket = record {
        session_id = session_id;
        seq_num = seq;
        ack_seq_num = ack;
        ciphertext = cipher;
      } in
      let opened = chosen-inverts client server session_id seq plain cipher keys e_cipher in
      (
        wire,
        record { wire_len = length bytes; comp_len = length plain; decomp_len = length plain },
        refl,
        refl,
        refl,
        rw (laws.client_packet_inverts wire bytes e2) (
            rw (crypto_for-chosen server session_id)
              (elim (Bool-cases (session_id == 0 || session_id == server.session_id)) [
                | inl known ↦
                    rw known (rw opened (rw (laws.client_payload_inverts payload plain e_plain)))
                | inr unknown ↦ rw unknown
              ])),
      )
