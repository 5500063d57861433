-- ===== src/Server/Network/Handshake.antt =====
-- `wait_for_client_handshake` of src/server/network.rs, over the events that it waits for.
use rumsh.Prelude.{ℕ, List, [], ◌∷◌, Result, ok, err, bail, panic, ◌>>=◌, ◌==◌, if◌then◌else◌}
use rumsh.Crypto.{CryptoManager, encrypt, decrypt}
use rumsh.Protocol.{ClientPayload, ServerPayload, EncryptedClientPacket}
use rumsh.Protocol.External.{Bincode}

pub record HandshakeResult : Type 0 where
  pub client_addr : ℕ
  pub session_id : ℕ
  pub client_start_seq : ℕ
  pub cols : ℕ
  pub rows : ℕ

-- `unwrap`.
abbrev pub unwrap {ℓ} : {A : Type ℓ} → Result A → Result A
unwrap (ok a) = ok a
unwrap (err e) = err panic

-- A datagram that is sent, and where to.
abbrev pub Sent : Type 0
Sent = List ℕ × ℕ

abbrev pub sent_to : ℕ → Result (List ℕ) → List Sent
sent_to addr (ok bytes) = (bytes, addr) ∷ []
sent_to addr (err e) = []

abbrev pub size_of : ClientPayload → Result (ℕ × ℕ)
size_of (ClientPayload.handshake client_version cols rows) = ok (cols, rows)
size_of other = err bail

pub data HandshakeEvent : Type 0 where
  received : (bytes : List ℕ) → (src_addr : ℕ) → HandshakeEvent
  receive_failed timed_out signalled : HandshakeEvent

-- `waiting` is the future that is not ready after the events so far; `exits` ends the process.
pub data HandshakeOutcome : Type 0 where
  waiting exits panics : HandshakeOutcome
  complete : List Sent → HandshakeResult → HandshakeOutcome

module _ (bincode : Bincode) (crypto_handshake : CryptoManager) (session_id : ℕ) where
  open bincode use {client_packet, client_payload, server_packet, server_payload}

  -- The chain of conditions: the packet, and the size that the client asks for.
  unfoldable pub read_handshake : List ℕ → Result (EncryptedClientPacket × ℕ × ℕ)
  read_handshake bytes = do
    wire_packet ← client_packet.deserialize bytes
    payload_bytes ←
        if wire_packet.session_id == 0
        then decrypt crypto_handshake wire_packet.seq_num wire_packet.ciphertext
        else err bail
    payload ← client_payload.deserialize payload_bytes
    (cols, rows) ← size_of payload
    ok (wire_packet, cols, rows)

  -- The datagram of the answer, if it can be serialized.
  unfoldable pub answer_handshake : EncryptedClientPacket → Result (Result (List ℕ))
  answer_handshake wire_packet = do
    ack_bytes ← unwrap (server_payload.serialize (ServerPayload.handshake_ack session_id))
    ciphertext ← unwrap (encrypt crypto_handshake 1 ack_bytes)
    ok (
        server_packet.serialize (record {
          seq_num = 1;
          ack_seq_num = wire_packet.seq_num;
          frag_idx = 0;
          total_frags = 1;
          ciphertext = ciphertext;
        }))

  unfoldable pub accept : EncryptedClientPacket → ℕ → ℕ → ℕ → HandshakeOutcome
  accept wire_packet src_addr cols rows = elim (answer_handshake wire_packet) [
    | err e ↦ panics
    | ok reply ↦ complete (sent_to src_addr reply) (record {
      client_addr = src_addr;
      session_id = session_id;
      client_start_seq = wire_packet.seq_num;
      cols = cols;
      rows = rows;
    })
  ]

  unfoldable pub wait_for_client_handshake : List HandshakeEvent → HandshakeOutcome
  wait_for_client_handshake [] = waiting
  wait_for_client_handshake (received bytes src_addr ∷ events) =
      let rest = wait_for_client_handshake events in
      elim (read_handshake bytes) [
        | err e ↦ rest
        | ok (wire_packet, cols, rows) ↦ accept wire_packet src_addr cols rows
      ]
  wait_for_client_handshake (receive_failed ∷ events) = exits
  wait_for_client_handshake (timed_out ∷ events) = exits
  wait_for_client_handshake (signalled ∷ events) = exits
