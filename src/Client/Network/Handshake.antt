-- ===== src/Client/Network/Handshake.antt =====
-- The handshake phase of `run_client` of src/client/network.rs: one round for each packet that it
-- sends.
use rumsh.Prelude.{ℕ, ◌+◌, List, [], ◌∷◌, Result, ok, err, bail, ◌>>=◌, ◌==◌, if◌then◌else◌}
use rumsh.Crypto.{CryptoManager, encrypt, decrypt}
use rumsh.Protocol.{ClientPayload, ServerPayload}
use rumsh.Protocol.External.{Bincode}

-- What a round meets after its packet.
pub data Round : Type 0 where
  received : List ℕ → Round
  send_failed receive_failed timed_out : Round

-- The session id and the number of the server's packet.
pub data Connecting : Type 0 where
  still failed : Connecting
  connected : (session_id server_seq : ℕ) → Connecting

abbrev pub acked_session : ServerPayload → Result ℕ
acked_session (ServerPayload.handshake_ack session_id) = ok session_id
acked_session other = err bail

module _ (bincode : Bincode) (crypto_handshake : CryptoManager) (cols rows : ℕ) where
  open bincode use {client_packet, client_payload, server_packet, server_payload}

  unfoldable pub handshake_datagram : ℕ → Result (List ℕ)
  handshake_datagram handshake_seq = do
    payload_bytes ← client_payload.serialize (ClientPayload.handshake 1 cols rows)
    ciphertext ← encrypt crypto_handshake handshake_seq payload_bytes
    client_packet.serialize (record {
      session_id = 0;
      seq_num = handshake_seq;
      ack_seq_num = 0;
      ciphertext = ciphertext;
    })

  -- The chain of conditions on an answer.
  unfoldable pub read_ack : ℕ → List ℕ → Result (ℕ × ℕ)
  read_ack handshake_seq bytes = do
    packet ← server_packet.deserialize bytes
    payload_bytes ←
        if packet.ack_seq_num == handshake_seq
        then decrypt crypto_handshake packet.seq_num packet.ciphertext
        else err bail
    payload ← server_payload.deserialize payload_bytes
    session_id ← acked_session payload
    ok (session_id, packet.seq_num)

  -- The loop at `handshake_seq`: the datagrams that it sends, and how it ends.
  unfoldable pub shake_hands : List Round → ℕ → List (List ℕ) × Connecting
  unfolding handshake_datagram read_ack
  shake_hands [] handshake_seq = ([], still)
  shake_hands (send_failed ∷ rounds) handshake_seq = ([], failed)
  shake_hands (received bytes ∷ rounds) handshake_seq =
      let (sent, end) = shake_hands rounds handshake_seq in
      elim (handshake_datagram handshake_seq) [
        | err e ↦ ([], failed)
        | ok datagram ↦ elim (read_ack handshake_seq bytes) [
          | err e ↦ (datagram ∷ sent, end)
          | ok (session_id, server_seq) ↦ (datagram ∷ [], connected session_id server_seq)
        ]
      ]
  shake_hands (receive_failed ∷ rounds) handshake_seq =
      let (sent, end) = shake_hands rounds (handshake_seq + 1) in
      elim (handshake_datagram handshake_seq) [
        | err e ↦ ([], failed)
        | ok datagram ↦ (datagram ∷ sent, end)
      ]
  shake_hands (timed_out ∷ rounds) handshake_seq =
      let (sent, end) = shake_hands rounds (handshake_seq + 1) in
      elim (handshake_datagram handshake_seq) [
        | err e ↦ ([], failed)
        | ok datagram ↦ (datagram ∷ sent, end)
      ]
