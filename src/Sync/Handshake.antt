-- ===== src/Sync/Handshake.antt =====
-- The handshakes of src/client/network.rs and src/server/network.rs together, and the sessions that
-- start from them.
use rumsh.Prelude.{
  ℕ, ◌≡◌, ◌⊎◌, inl, inr, refl, sym, ap, subst, ◌∙◌, List, [], ◌∷◌, ◌++◌, Result, ok, err, bail,
  panic, Failure, ok_of_bind, ◌==◌, if◌then◌else◌, Bool-cases, Result-cases,
}
use rumsh.Crypto.{CryptoManager, encrypt}
use rumsh.Crypto.Inverts.{decrypt-encrypt}
use rumsh.Protocol.{ClientPayload, ServerPayload, EncryptedClientPacket, EncryptedServerPacket}
use rumsh.Protocol.External.{Bincode, BincodeLaws, AeadInverts}
use rumsh.Server.Network.Handshake.{
  Sent, sent_to, unwrap, read_handshake, answer_handshake, HandshakeEvent, received,
  HandshakeOutcome, panics, complete, accept, wait_for_client_handshake,
}
use rumsh.Client.Network.Handshake.{handshake_datagram, read_ack}

ok_of_unwrap {ℓ} : {A : Type ℓ} (r : Result A) (a : A) → unwrap r ≡ ok a → r ≡ ok a
ok_of_unwrap (ok b) a e = e
ok_of_unwrap (err f) a e = cc e

module _ (bincode : Bincode) (laws : BincodeLaws bincode) (crypto : CryptoManager)
    (inverts : AeadInverts crypto.cipher) (session_id : ℕ) where
  -- Datagrams that are no handshake.
  abbrev pub Ignored : List HandshakeEvent → Type 0
  Ignored [] = Unit
  Ignored (received bytes src_addr ∷ events) =
      (read_handshake bincode crypto session_id bytes ≡ err bail) × Ignored events
  Ignored other = ⊥

  -- The server reads what the client has sent.
  read_handshake-datagram :
      (cols rows seq : ℕ) (bytes : List ℕ)
      → handshake_datagram bincode crypto cols rows seq ≡ ok bytes
      → (wire : EncryptedClientPacket) × (read_handshake bincode crypto session_id bytes
          ≡ ok (wire, cols, rows))
        × (wire.seq_num ≡ seq)
  unfolding handshake_datagram read_handshake
  read_handshake-datagram cols rows seq bytes e =
      let hello = ClientPayload.handshake 1 cols rows in
      let (plain, e_plain, e1) = ok_of_bind (bincode.client_payload.serialize hello) _ bytes e in
      let (cipher, e_cipher, e2) = ok_of_bind (encrypt crypto seq plain) _ bytes e1 in
      let wire : EncryptedClientPacket = record {
        session_id = 0;
        seq_num = seq;
        ack_seq_num = 0;
        ciphertext = cipher;
      } in
      (
        wire,
        rw (laws.client_packet_inverts wire bytes e2) (
            rw (decrypt-encrypt crypto seq plain cipher inverts e_cipher)
              (rw (laws.client_payload_inverts hello plain e_plain))),
        refl,
      )

  -- The client takes the server's answer to its packet, and no answer to another one.
  read_ack-answer :
      (wire : EncryptedClientPacket) (reply : List ℕ) (cols rows seq : ℕ)
      → answer_handshake bincode crypto session_id wire ≡ ok (ok reply)
      → read_ack bincode crypto cols rows seq reply
        ≡ (if wire.seq_num == seq then ok (session_id, 1) else err bail)
  unfolding answer_handshake read_ack
  read_ack-answer wire reply cols rows seq e =
      let hello = ServerPayload.handshake_ack session_id in
      let (plain, u_plain, e1) =
        ok_of_bind (unwrap (bincode.server_payload.serialize hello)) _ (ok reply) e in
      let (cipher, u_cipher, e2) = ok_of_bind (unwrap (encrypt crypto 1 plain)) _ (ok reply) e1 in
      let packet : EncryptedServerPacket = record {
        seq_num = 1;
        ack_seq_num = wire.seq_num;
        frag_idx = 0;
        total_frags = 1;
        ciphertext = cipher;
      } in
      let e_packet : bincode.server_packet.serialize packet ≡ ok reply = cc e2 in
      let opened =
        laws.server_payload_inverts hello plain
          (ok_of_unwrap (bincode.server_payload.serialize hello) plain u_plain) in
      let deciphered =
        decrypt-encrypt crypto 1 plain cipher inverts
          (ok_of_unwrap (encrypt crypto 1 plain) cipher u_cipher) in
      rw (laws.server_packet_inverts packet reply e_packet)
        (elim (Bool-cases (wire.seq_num == seq)) [
          | inl same ↦ rw same (rw deciphered (rw opened))
          | inr other ↦ rw other
        ])

  -- The packet that is to answer the packet of number `seq`.
  abbrev pub ack_packet : ℕ → List ℕ → EncryptedServerPacket
  ack_packet seq cipher = record {
    seq_num = 1;
    ack_seq_num = seq;
    frag_idx = 0;
    total_frags = 1;
    ciphertext = cipher;
  }

  -- The acknowledgement cannot be serialized, or cannot be sealed.
  abbrev pub Unsealed : Type 0
  Unsealed =
      let hello = ServerPayload.handshake_ack session_id in
      ((e : Failure) × (bincode.server_payload.serialize hello ≡ err e))
      ⊎ ((plain : List ℕ) × (e : Failure) × (bincode.server_payload.serialize hello ≡ ok plain)
          × (encrypt crypto 1 plain ≡ err e))

  -- The acknowledgement, sealed.
  abbrev pub Sealed : List ℕ → Type 0
  Sealed cipher =
      (plain : List ℕ) × (bincode.server_payload.serialize (ServerPayload.handshake_ack session_id)
        ≡ ok plain)
      × (encrypt crypto 1 plain ≡ ok cipher)

  -- What the server sends: nothing if its packet cannot be serialized, and otherwise the packet, to
  -- the client, which accepts it in the round of its own packet, with the server's session id and
  -- number 1, and in no other round.
  abbrev pub Answered : ℕ → ℕ → ℕ → ℕ → List Sent → Type 0
  Answered cols rows seq src_addr sent =
      (cipher : List ℕ) × Sealed cipher
      × (((e : Failure) × (bincode.server_packet.serialize (ack_packet seq cipher) ≡ err e)
            × (sent ≡ []))
          ⊎ ((reply : List ℕ) × (bincode.server_packet.serialize (ack_packet seq cipher) ≡ ok reply)
              × (sent ≡ (reply, src_addr) ∷ [])
              × ((later : ℕ)
                  → read_ack bincode crypto cols rows later reply
                    ≡ (if seq == later then ok (session_id, 1) else err bail))))

  abbrev pub Agrees : ℕ → ℕ → ℕ → ℕ → HandshakeOutcome → Type 0
  Agrees cols rows seq src_addr outcome =
      ((outcome ≡ panics) × Unsealed)
      ⊎ ((sent : List Sent) × (outcome
            ≡ complete sent (record {
              client_addr = src_addr;
              session_id = session_id;
              client_start_seq = seq;
              cols = cols;
              rows = rows;
            }))
          × Answered cols rows seq src_addr sent)

  -- The answer, from the three calls that make it.
  answer_handshake-cases :
      (wire : EncryptedClientPacket)
      → ((e : Failure) × (answer_handshake bincode crypto session_id wire ≡ err e) × Unsealed)
        ⊎ ((cipher : List ℕ) × Sealed cipher
            × (answer_handshake bincode crypto session_id wire
                ≡ ok (bincode.server_packet.serialize (ack_packet wire.seq_num cipher))))
  unfolding answer_handshake
  answer_handshake-cases wire =
      elim (Result-cases
        (bincode.server_payload.serialize (ServerPayload.handshake_ack session_id))) [
          | inr (e, failed) ↦ inl (panic, rw failed refl, inl (e, failed))
          | inl (plain, written) ↦ elim (Result-cases (encrypt crypto 1 plain)) [
            | inr (e, failed) ↦
                inl (panic, rw written (rw failed refl), inr (plain, e, written, failed))
            | inl (cipher, sealed) ↦
                inr (cipher, (plain, written, sealed), rw written (rw sealed refl))
          ]
        ]

  wait-Ignored :
      (noise events : List HandshakeEvent)
      → Ignored noise
      → wait_for_client_handshake bincode crypto session_id (noise ++ events)
        ≡ wait_for_client_handshake bincode crypto session_id events
  unfolding wait_for_client_handshake
  wait-Ignored [] events q = refl
  wait-Ignored (received bytes src_addr ∷ noise) events (skip, q) =
      rw (skip, wait_for_client_handshake) (wait-Ignored noise events q)
  wait-Ignored (HandshakeEvent.receive_failed ∷ noise) events q = absurd q
  wait-Ignored (HandshakeEvent.timed_out ∷ noise) events q = absurd q
  wait-Ignored (HandshakeEvent.signalled ∷ noise) events q = absurd q

  sent_to-Answered :
      (wire : EncryptedClientPacket) (src_addr cols rows : ℕ) (cipher : List ℕ)
      → Sealed cipher
      → answer_handshake bincode crypto session_id wire
        ≡ ok (bincode.server_packet.serialize (ack_packet wire.seq_num cipher))
      → Answered cols rows wire.seq_num src_addr
          (sent_to src_addr (bincode.server_packet.serialize (ack_packet wire.seq_num cipher)))
  sent_to-Answered wire src_addr cols rows cipher sealed answered =
      let packet = ack_packet wire.seq_num cipher in
      (
        cipher,
        sealed,
        elim (Result-cases (bincode.server_packet.serialize packet)) [
          | inr (e, failed) ↦ inl (e, failed, ap (sent_to src_addr) failed)
          | inl (reply, written) ↦ inr (
            reply,
            written,
            ap (sent_to src_addr) written,
            λ later. read_ack-answer wire reply cols rows later (answered ∙ ap ok written),
          )
        ],
      )

  accept-Agrees :
      (wire : EncryptedClientPacket) (src_addr cols rows : ℕ)
      → Agrees cols rows wire.seq_num src_addr
          (accept bincode crypto session_id wire src_addr cols rows)
  unfolding accept
  accept-Agrees wire src_addr cols rows = elim (answer_handshake-cases wire) [
    | inl (e, failed, unsealed) ↦ inl (rw (failed, accept), unsealed)
    | inr (cipher, sealed, answered) ↦ inr (
      sent_to src_addr (bincode.server_packet.serialize (ack_packet wire.seq_num cipher)),
      rw (answered, accept) refl,
      sent_to-Answered wire src_addr cols rows cipher sealed answered,
    )
  ]

  -- A server that waits, and that gets a client's handshake packet after datagrams that are none,
  -- panics exactly if its acknowledgement cannot be serialized or sealed. Otherwise it completes, with
  -- the client's address, size and number; it sends the client exactly one datagram, from which the
  -- client, in the round of this packet only, learns the session id, and none exactly if the packet
  -- with the sealed acknowledgement cannot be serialized.
  pub wait_for_client_handshake-Agrees :
      (noise rest : List HandshakeEvent) (cols rows seq src_addr : ℕ) (bytes : List ℕ)
      → Ignored noise
      → handshake_datagram bincode crypto cols rows seq ≡ ok bytes
      → Agrees cols rows seq src_addr (
          wait_for_client_handshake bincode crypto session_id
            (noise ++ received bytes src_addr ∷ rest))
  unfolding wait_for_client_handshake
  wait_for_client_handshake-Agrees noise rest cols rows seq src_addr bytes quiet e =
      let (wire, read, same) = read_handshake-datagram cols rows seq bytes e in
      subst (Agrees cols rows seq src_addr)
        (sym (
          wait-Ignored noise (received bytes src_addr ∷ rest) quiet
          ∙ rw (read, wait_for_client_handshake)))
        (subst
          (λ n.
            Agrees cols rows n src_addr (accept bincode crypto session_id wire src_addr cols rows))
          same (accept-Agrees wire src_addr cols rows))
