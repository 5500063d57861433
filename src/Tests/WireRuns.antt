-- ===== src/Tests/WireRuns.antt =====
-- Messages on the wire, with a serialization of lists as themselves.
use mathlib.Core.List.{flatten}
use rumsh.Prelude.{
  inl, zero, suc, ℕ, ◌≡◌, refl, List, [], ◌∷◌, ok, Result, length, err, bail, subst, sym, replicate,
  take, drop, ◌<◌, ◌≤◌, ◌≢◌, ◌*◌, none, some, arith, true,
}
use rumsh.Protocol.{ServerPayload, EncryptedServerPacket}
use rumsh.Protocol.External.{Serde, Inverts, Bincode, BincodeLaws, Aead, AeadInverts, Lz4}
use rumsh.Crypto.{encrypt}
use rumsh.Protocol.Fragments.Bits.{or_bit}
use rumsh.Protocol.Fragments.Masks.{Asked, Holding, Describes, get_incomplete_frames-Describes}
use rumsh.Protocol.Fragments.Bounds.{insert_packet_bound}
use rumsh.Protocol.Codec.ChaCha.{ChaChaCodec, seal_server}
use rumsh.Protocol.Codec.Chunks.{chunks, seal_packets}
use rumsh.Protocol.Fragments.{
  FragmentBuffer, FrameFragments, get_incomplete_frames, insert_packet, prune_superseded,
}
use rumsh.Protocol.Fragments.Arrivals.{member, arrive}
use rumsh.Protocol.Fragments.Assembly.{arrive-completes}
use rumsh.Protocol.Codec.Opening.{arrivals, open_each}
use rumsh.Protocol.Codec.Delivery.{open_each-seal_server}
use rumsh.Protocol.Compression.{
  serialize_compressed, deserialize_compressed_get_sizes, deserialize-serialize_compressed,
}

abbrev plain_serde : Serde (List ℕ)
plain_serde = record { serialize = ok; deserialize = ok }

plain-Inverts : Inverts plain_serde
plain-Inverts a bs e = sym e

abbrev stored : Lz4
stored = record { compress = λ bs. bs; decompress = ok }

deserialize-serialize_compressed_example :
    deserialize_compressed_get_sizes plain_serde stored (0 ∷ 7 ∷ 8 ∷ []) ≡ ok (7 ∷ 8 ∷ [], 3, 2)
deserialize-serialize_compressed_example =
    deserialize-serialize_compressed plain_serde stored plain-Inverts (λ bs. refl) (7 ∷ 8 ∷ [])
      (0 ∷ 7 ∷ 8 ∷ []) (7 ∷ 8 ∷ []) refl (unfold serialize_compressed in refl)

-- A serialization of three of the server's messages, one of them too long for one fragment.
abbrev write_payload : ServerPayload → Result (List ℕ)
write_payload ServerPayload.keep_alive = ok []
write_payload ServerPayload.shutdown = ok (2 ∷ [])
write_payload (ServerPayload.handshake_ack id) = ok (id ∷ replicate 1100 7)
write_payload (ServerPayload.frame f) = err bail

abbrev read_payload : List ℕ → Result ServerPayload
read_payload [] = ok ServerPayload.keep_alive
read_payload (b ∷ []) = ok ServerPayload.shutdown
read_payload (id ∷ b ∷ bs) = ok (ServerPayload.handshake_ack id)

abbrev write_packet : EncryptedServerPacket → Result (List ℕ)
write_packet p = ok (p.seq_num ∷ p.ack_seq_num ∷ p.frag_idx ∷ p.total_frags ∷ p.ciphertext)

abbrev read_packet : List ℕ → Result EncryptedServerPacket
read_packet (seq ∷ ack ∷ idx ∷ total_frags ∷ ciphertext) = ok (record {
  seq_num = seq;
  ack_seq_num = ack;
  frag_idx = idx;
  total_frags = total_frags;
  ciphertext = ciphertext;
})
read_packet other = err bail

abbrev bare_bincode : Bincode
bare_bincode = record {
  client_payload = record { serialize = λ p. err bail; deserialize = λ bs. err bail };
  server_payload = record { serialize = write_payload; deserialize = read_payload };
  client_packet = record { serialize = λ p. err bail; deserialize = λ bs. err bail };
  server_packet = record { serialize = write_packet; deserialize = read_packet };
}

payload-Inverts : Inverts bare_bincode.server_payload
payload-Inverts ServerPayload.keep_alive bs e =
    subst (λ b. read_payload b ≡ ok ServerPayload.keep_alive) {x = []} (cc e) refl
payload-Inverts ServerPayload.shutdown bs e =
    subst (λ b. read_payload b ≡ ok ServerPayload.shutdown) {x = 2 ∷ []} (cc e) refl
payload-Inverts (ServerPayload.handshake_ack id) bs e =
    subst (λ b. read_payload b ≡ ok (ServerPayload.handshake_ack id)) {x = id ∷ replicate 1100 7}
      (cc e) refl
payload-Inverts (ServerPayload.frame f) bs e = cc e

packet-Inverts : Inverts bare_bincode.server_packet
packet-Inverts p bs e =
    subst (λ b. read_packet b ≡ ok p)
      {x = p.seq_num ∷ p.ack_seq_num ∷ p.frag_idx ∷ p.total_frags ∷ p.ciphertext} (cc e) refl

bare-BincodeLaws : BincodeLaws bare_bincode
bare-BincodeLaws = record {
  client_payload_inverts = λ p bs e. cc e;
  server_payload_inverts = payload-Inverts;
  client_packet_inverts = λ p bs e. cc e;
  server_packet_inverts = packet-Inverts;
}

abbrev clear : Aead
clear = record { encrypt = λ nonce plain. ok plain; decrypt = λ nonce cipher. ok cipher }

clear-AeadInverts : AeadInverts clear
clear-AeadInverts nonce plain cipher e = sym e

abbrev codec : ChaChaCodec
codec = record {
  crypto = record { cipher = clear; salt = [] };
  handshake_crypto = record { cipher = clear; salt = [] };
  session_id = 9;
  fragment_buffer = record { frames = [] };
}

-- The message with its two fragments.
abbrev message : List ℕ
message = 5 ∷ replicate 1100 7

abbrev first_packet : List ℕ
first_packet = 6 ∷ 2 ∷ 0 ∷ 2 ∷ 1 ∷ take 1023 message

abbrev second_packet : List ℕ
second_packet = 6 ∷ 2 ∷ 1 ∷ 2 ∷ drop 1023 message

abbrev both_packets : List (List ℕ)
both_packets = first_packet ∷ second_packet ∷ []

message_sealed :
    seal_server bare_bincode stored codec 6 2 (ServerPayload.handshake_ack 5) ≡ ok both_packets
unfolding seal_server serialize_compressed encrypt seal_packets chunks
message_sealed = refl

two_chunks : length (chunks (1 ∷ message)) ≡ 2
unfolding chunks
two_chunks = refl

long_body : 1024 < length (1 ∷ message)
long_body = omega arith

short_body : length (1 ∷ message) ≤ 65535 * 1024
short_body = omega arith

others_arrived :
    (j : ℕ)
    → j < length (chunks (1 ∷ message))
    → j ≢ 0
    → member j (arrivals bare_bincode stored both_packets (1 ∷ 1 ∷ [])) ≡ true
others_arrived j lt ne =
    let one : j ≡ 1 = omega (arith, two_chunks, lt, ne) in
    subst (λ k. member k (arrivals bare_bincode stored both_packets (1 ∷ 1 ∷ [])) ≡ true) (sym one)
      refl

body_sealed :
    serialize_compressed bare_bincode.server_payload stored (ServerPayload.handshake_ack 5)
    ≡ ok (1 ∷ message)
unfolding serialize_compressed
body_sealed = refl

body_encrypted : encrypt codec.crypto 6 (1 ∷ message) ≡ ok (1 ∷ message)
unfolding encrypt
body_encrypted = refl

-- The second fragment comes first, and once more.
open_each-seal_server_example :
    open_each bare_bincode stored both_packets (1 ∷ 1 ∷ 0 ∷ []) codec ≡ (
      codec,
      ok none
          ∷ ok none
          ∷ ok (
              some (
                record {
                  seq_num = 6;
                  ack_seq_num = 2;
                  frag_idx = 0;
                  total_frags = 1;
                  ciphertext = [];
                },
                ServerPayload.handshake_ack 5,
                record { wire_len = 1192; comp_len = 1102; decomp_len = 1101 },
              ))
          ∷ [],
    )
unfolding prune_superseded
open_each-seal_server_example =
    open_each-seal_server bare_bincode stored bare-BincodeLaws (λ bs. refl) codec codec 6 2
      (ServerPayload.handshake_ack 5) message (1 ∷ message) (1 ∷ message) both_packets (1 ∷ 1 ∷ [])
      0 clear-AeadInverts refl refl body_sealed body_encrypted long_body short_body message_sealed
      (omega arith) refl (omega (arith, two_chunks), (omega (arith, two_chunks), tt))
      (omega (arith, two_chunks)) refl others_arrived

-- Three pieces: the last comes first, and the middle one twice.
abbrev pieces : List (List ℕ)
pieces = (1 ∷ 2 ∷ []) ∷ (3 ∷ 4 ∷ []) ∷ (5 ∷ []) ∷ []

all_but_first : (j : ℕ) → j < 3 → j ≢ 0 → member j ((2, 30) ∷ (1, 40) ∷ (1, 40) ∷ []) ≡ true
all_but_first zero lt ne = absurd (ne refl)
all_but_first (suc zero) lt ne = refl
all_but_first (suc (suc zero)) lt ne = refl
all_but_first (suc (suc (suc j))) lt ne = absurd (omega arith)

arrive-completes_example :
    arrive 6 2 pieces ((2, 30) ∷ (1, 40) ∷ (1, 40) ∷ (0, 40) ∷ []) (record { frames = [] }) ≡ (
      record { frames = [] },
      none
          ∷ none
          ∷ none
          ∷ some (
            record { seq_num = 6; ack_seq_num = 2; frag_idx = 0; total_frags = 1; ciphertext = [] },
            1 ∷ 2 ∷ 3 ∷ 4 ∷ 5 ∷ [],
            150,
          )
          ∷ [],
    )
unfolding prune_superseded flatten
arrive-completes_example =
    arrive-completes 6 2 pieces [] (omega arith) (omega arith) ((2, 30) ∷ (1, 40) ∷ (1, 40) ∷ []) 0
      40 refl (omega arith, (omega arith, (omega arith, tt))) (omega arith) refl all_but_first

-- Fragments 0 and 65 of 70 have arrived.
abbrev partial_frame : FrameFragments
partial_frame = record {
  total_frags = 70;
  wire_len_acc = 80;
  fragments = (0, 1 ∷ []) ∷ (65, 2 ∷ []) ∷ [];
}

abbrev partial_buffer : FragmentBuffer
partial_buffer = record { frames = (6, partial_frame) ∷ [] }

mask_sent : get_incomplete_frames partial_buffer ≡ (6, 1 ∷ 2 ∷ []) ∷ []
unfolding get_incomplete_frames or_bit
mask_sent = refl

mask-Asked : Asked 6 (1 ∷ 2 ∷ []) (get_incomplete_frames partial_buffer)
mask-Asked = subst (Asked 6 (1 ∷ 2 ∷ [])) (sym mask_sent) (inl (refl, refl))

get_incomplete_frames-Describes_example :
    (e : FrameFragments) × Holding 6 e partial_buffer.frames × Describes (1 ∷ 2 ∷ []) e
get_incomplete_frames-Describes_example =
    get_incomplete_frames-Describes partial_buffer 6 (1 ∷ 2 ∷ []) mask-Asked

insert_packet_bound_example :
    length
      (insert_packet partial_buffer
        (record {
          seq_num = 7;
          ack_seq_num = 2;
          frag_idx = 1;
          total_frags = 3;
          ciphertext = 4 ∷ [];
        })
        40).0.frames
    ≤ 32
insert_packet_bound_example =
    insert_packet_bound partial_buffer
      (record { seq_num = 7; ack_seq_num = 2; frag_idx = 1; total_frags = 3; ciphertext = 4 ∷ [] })
      40 (omega arith)
