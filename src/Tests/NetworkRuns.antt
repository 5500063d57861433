-- ===== src/Tests/NetworkRuns.antt =====
-- The handshake, the first keys and the server's tasks, with messages serialized as lists and a
-- cipher that leaves them as they are.
use rumsh.Prelude.{
  ℕ, zero, suc, ◌+◌, ◌≤◌, ◌<◌, ◌≡◌, refl, sym, ◌∙◌, subst, true, false, List, [], ◌∷◌, none, some,
  Result, ok, err, bail, is_some, lookup, arith,
}
use rumsh.Crypto.{CryptoManager, encrypt, decrypt}
use rumsh.Protocol.{ClientPayload, ServerPayload, EncryptedClientPacket, EncryptedServerPacket}
use rumsh.Protocol.External.{Inverts, Bincode, BincodeLaws, Lz4, Aead, AeadInverts}
use rumsh.Protocol.Fragments.{FrameFragments}
use rumsh.Protocol.Fragments.Bits.{has_bit}
use rumsh.Protocol.Fragments.Masks.{Describes, bit_of}
use rumsh.Protocol.Codec.Interface.{CodecStats, PacketCodec}
use rumsh.Protocol.Codec.ChaCha.{ChaChaCodec, chacha_codec, seal_client, open_client}
use rumsh.Protocol.Codec.Requests.{SameKeys, open_client-seal_client}
use rumsh.Client.Session.State.{Mirror}
use rumsh.Client.Session.State
use rumsh.Client.Session.Prepare.{prepare_keystrokes}
use rumsh.Client.Network.Handshake.{handshake_datagram}
use rumsh.Server.Session.State as ServerState
use rumsh.Server.Session.State.{
  Session, UpdateJob, SessionAction, offload_diff_job, resend_fragments,
}
use rumsh.Server.Session.Packets.{feed_packet}
use rumsh.Server.Network.Handshake.{
  received, complete, read_handshake, answer_handshake, accept, wait_for_client_handshake,
}
use rumsh.Server.Network.Tasks.{
  Shared, Task, send_diff, resend, execute_actions, act, Reach, start, next, idle,
}
use rumsh.Server.Network.Tasks.Flight.{Ordered, Reach-Ordered}
use rumsh.Server.Network.Tasks.Finish.{run_out, run_out-effect, run_out-missing}
use rumsh.Sync.Handshake.{Agrees, wait_for_client_handshake-Agrees}
use rumsh.Sync.FirstKeys.{first_keys_lost}
use rumsh.Tests.ServerRuns.{bare, logging}
use rumsh.Tests.SyncRuns.{whole}

abbrev write_request : ClientPayload → Result (List ℕ)
write_request (ClientPayload.keystrokes keys) = ok (0 ∷ keys)
write_request (ClientPayload.handshake v cols rows) = ok (1 ∷ v ∷ cols ∷ rows ∷ [])
write_request other = err bail

abbrev read_size : List ℕ → Result ClientPayload
read_size (v ∷ cols ∷ rows ∷ []) = ok (ClientPayload.handshake v cols rows)
read_size other = err bail

abbrev read_request : List ℕ → Result ClientPayload
read_request [] = err bail
read_request (zero ∷ keys) = ok (ClientPayload.keystrokes keys)
read_request (suc n ∷ rest) = read_size rest

abbrev write_wire : EncryptedClientPacket → Result (List ℕ)
write_wire p = ok (p.session_id ∷ p.seq_num ∷ p.ack_seq_num ∷ p.ciphertext)

abbrev read_wire : List ℕ → Result EncryptedClientPacket
read_wire (session_id ∷ seq ∷ ack ∷ ciphertext) =
    ok (record {
      session_id = session_id;
      seq_num = seq;
      ack_seq_num = ack;
      ciphertext = ciphertext;
    })
read_wire other = err bail

abbrev write_answer : ServerPayload → Result (List ℕ)
write_answer (ServerPayload.handshake_ack id) = ok (id ∷ [])
write_answer other = err bail

abbrev read_answer : List ℕ → Result ServerPayload
read_answer (id ∷ []) = ok (ServerPayload.handshake_ack id)
read_answer other = err bail

abbrev write_packet : EncryptedServerPacket → Result (List ℕ)
write_packet p = ok (p.seq_num ∷ p.ack_seq_num ∷ p.frag_idx ∷ p.total_frags ∷ p.ciphertext)

abbrev read_packet : List ℕ → Result EncryptedServerPacket
read_packet (seq ∷ ack ∷ idx ∷ total_frags ∷ ciphertext) = ok (record {
  seq_num = seq;
  ack_seq_num = ack;
  frag_idx = idx;
  total_frags = total_frags;
  ciphertext = ciphertext;
})
read_packet other = err bail

abbrev bincode : Bincode
bincode = record {
  client_payload = record { serialize = write_request; deserialize = read_request };
  server_payload = record { serialize = write_answer; deserialize = read_answer };
  client_packet = record { serialize = write_wire; deserialize = read_wire };
  server_packet = record { serialize = write_packet; deserialize = read_packet };
}

request-Inverts : Inverts bincode.client_payload
request-Inverts (ClientPayload.keystrokes keys) bs e =
    subst (λ b. read_request b ≡ ok (ClientPayload.keystrokes keys)) {x = 0 ∷ keys} (cc e) refl
request-Inverts (ClientPayload.handshake v cols rows) bs e =
    subst (λ b. read_request b ≡ ok (ClientPayload.handshake v cols rows))
      {x = 1 ∷ v ∷ cols ∷ rows ∷ []} (cc e) refl
request-Inverts (ClientPayload.resize cols rows) bs e = cc e
request-Inverts ClientPayload.keep_alive bs e = cc e
request-Inverts ClientPayload.ack bs e = cc e
request-Inverts (ClientPayload.fragment_nack seq mask) bs e = cc e

answer-Inverts : Inverts bincode.server_payload
answer-Inverts (ServerPayload.handshake_ack id) bs e =
    subst (λ b. read_answer b ≡ ok (ServerPayload.handshake_ack id)) {x = id ∷ []} (cc e) refl
answer-Inverts (ServerPayload.frame f) bs e = cc e
answer-Inverts ServerPayload.keep_alive bs e = cc e
answer-Inverts ServerPayload.shutdown bs e = cc e

laws : BincodeLaws bincode
laws = record {
  client_payload_inverts = request-Inverts;
  server_payload_inverts = answer-Inverts;
  client_packet_inverts = λ p bs e.
      subst (λ b. read_wire b ≡ ok p) {x = p.session_id ∷ p.seq_num ∷ p.ack_seq_num ∷ p.ciphertext}
        (cc e) refl;
  server_packet_inverts = λ p bs e.
      subst (λ b. read_packet b ≡ ok p)
        {x = p.seq_num ∷ p.ack_seq_num ∷ p.frag_idx ∷ p.total_frags ∷ p.ciphertext} (cc e) refl;
}

abbrev clear : Aead
clear = record { encrypt = λ nonce plain. ok plain; decrypt = λ nonce cipher. ok cipher }

clear-AeadInverts : AeadInverts clear
clear-AeadInverts nonce plain cipher e = sym e

abbrev manager : CryptoManager
manager = record { cipher = clear; salt = [] }

-- A handshake with the number 3 and a screen of 80 by 24.
abbrev hello : List ℕ
hello = 0 ∷ 3 ∷ 0 ∷ 1 ∷ 1 ∷ 80 ∷ 24 ∷ []

hello_made : handshake_datagram bincode manager 80 24 3 ≡ ok hello
unfolding handshake_datagram encrypt
hello_made = refl

-- The client at address 5 gets one datagram.
hello_answered :
    wait_for_client_handshake bincode manager 9 (received hello 5 ∷ [])
    ≡ complete
        ((1 ∷ 3 ∷ 0 ∷ 1 ∷ 9 ∷ [], 5) ∷ [])
        (record { client_addr = 5; session_id = 9; client_start_seq = 3; cols = 80; rows = 24 })
unfolding wait_for_client_handshake read_handshake answer_handshake accept encrypt decrypt
hello_answered = refl

wait_for_client_handshake-Agrees_example :
    Agrees bincode laws manager clear-AeadInverts 9 80 24 3 5
      (wait_for_client_handshake bincode manager 9 (received hello 5 ∷ []))
wait_for_client_handshake-Agrees_example =
    wait_for_client_handshake-Agrees bincode laws manager clear-AeadInverts 9 [] [] 80 24 3 5 hello
      tt hello_made

abbrev stored : Lz4
stored = record { compress = λ bs. bs; decompress = ok }

abbrev codec : ChaChaCodec
codec = record {
  crypto = manager;
  handshake_crypto = manager;
  session_id = 9;
  fragment_buffer = record { frames = [] };
}

keys_same : SameKeys codec codec
keys_same = record {
  crypto = refl;
  handshake_crypto = refl;
  crypto_inverts = clear-AeadInverts;
  handshake_inverts = clear-AeadInverts;
}

abbrev first_keys : List ℕ
first_keys = 9 ∷ 1 ∷ 0 ∷ 0 ∷ b'l' ∷ b's' ∷ []

keys_sealed :
    seal_client bincode stored codec 9 1 0 (ClientPayload.keystrokes (b'l' ∷ b's' ∷ []))
    ≡ ok first_keys
unfolding seal_client encrypt
keys_sealed = refl

open_client-seal_client_example :
    (wire : EncryptedClientPacket) × (stats : CodecStats) × (wire.session_id ≡ 9)
    × (wire.seq_num ≡ 1)
    × (wire.ack_seq_num ≡ 0)
    × (open_client bincode stored codec first_keys
        ≡ ok (wire, ClientPayload.keystrokes (b'l' ∷ b's' ∷ []), stats))
open_client-seal_client_example =
    open_client-seal_client bincode stored laws codec codec 9 1 0
      (ClientPayload.keystrokes (b'l' ∷ b's' ∷ [])) first_keys keys_same keys_sealed

abbrev wire_codec : PacketCodec
wire_codec = chacha_codec bincode stored

abbrev client : Mirror whole wire_codec
client = State.new whole wire_codec 9 codec 1 80 24 false 0

abbrev server : Session wire_codec logging
server = ServerState.new wire_codec logging 9 codec 3 5 tt [] 0

abbrev keys : List ℕ
keys = b'l' ∷ b's' ∷ []

prepared :
    (c' : Mirror whole wire_codec) × (prepare_keystrokes whole wire_codec client keys 1
      ≡ (c', ok first_keys))
unfolding prepare_keystrokes seal_client encrypt State.new
prepared = ((prepare_keystrokes whole wire_codec client keys 1).0, refl)

server_expects :
    (server.expected_client_seq ≡ 3 + 1) × (server.ack_seq_num ≡ 3) × (server.session_id ≡ 9)
unfolding ServerState.new
server_expects = (refl, refl, refl)

same_codec : SameKeys client.codec server.codec
unfolding ServerState.new State.new
same_codec = keys_same

client_starts : (client.session_id ≡ 9) × (client.seq_num ≡ 0)
unfolding State.new
client_starts = (refl, refl)

server_codec : server.codec.session_id ≡ 9
unfolding ServerState.new
server_codec = refl

-- The client's handshake was its third; its first keys are lost.
first_keys_lost_example :
    (feed_packet wire_codec logging server first_keys 5 7
      ≡ (record server { last_recv_time = 7; current_client_addr = 5 }, ok []))
    × (client.seq_num + 1 ≤ server.ack_seq_num)
first_keys_lost_example =
    first_keys_lost bincode stored laws whole logging client prepared.0 server keys first_keys 3 5 1
      7 server_expects.0 server_expects.1 (omega (arith, server_expects.2))
      (client_starts.0 ∙ sym server_expects.2) (server_codec ∙ sym server_expects.2) same_codec
      (omega (arith, client_starts.1)) (omega arith) prepared.1

-- A job whose frame is sealed, on tasks of its own.
abbrev sends : Task (Unit {0})
sends = send_diff ((1 ∷ []) ∷ (2 ∷ []) ∷ []) 5

abbrev shared : Shared
shared = record { diff_in_flight = true; fragment_cache = []; shutdown_sent = false; wire = [] }

run_out-effect_example :
    run_out bare 3 (some sends) shared
    ≡ (record shared { diff_in_flight = false; wire = (2 ∷ [], 5) ∷ (1 ∷ [], 5) ∷ [] }, none)
run_out-effect_example = run_out-effect bare sends 3 shared (omega arith)

-- Of three fragments the client has the second.
abbrev partial : FrameFragments
partial = record { total_frags = 3; wire_len_acc = 9; fragments = (1, 7 ∷ []) ∷ [] }

abbrev three_packets : List (List ℕ)
three_packets = (10 ∷ []) ∷ (11 ∷ []) ∷ (12 ∷ []) ∷ []

partial_bits : (i : ℕ) → i < 3 → bit_of (2 ∷ []) i ≡ is_some (lookup i partial.fragments)
unfolding has_bit
partial_bits zero h = refl
partial_bits (suc zero) h = refl
partial_bits (suc (suc zero)) h = refl
partial_bits (suc (suc (suc i))) h = absurd (omega arith)

partial-Describes : Describes (2 ∷ []) partial
partial-Describes = record { missing = omega arith; bits = partial_bits }

run_out-missing_example :
    run_out bare 4 (some (resend 0 three_packets (2 ∷ []) 5)) shared
    ≡ (record shared { wire = (12 ∷ [], 5) ∷ (10 ∷ [], 5) ∷ [] }, none)
run_out-missing_example =
    run_out-missing bare (2 ∷ []) partial three_packets 5 4 shared partial-Describes refl
      (omega arith)

abbrev nack : SessionAction (Unit {0})
nack = resend_fragments 4 (2 ∷ []) 5

nacked : Reach bare (execute_actions (nack ∷ []) (idle bare))
nacked = next start (act (nack ∷ []) (idle bare))

Reach-Ordered_example : Ordered bare (execute_actions (nack ∷ []) (idle bare))
Reach-Ordered_example = Reach-Ordered bare nacked
