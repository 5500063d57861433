-- ===== src/Protocol/Codec/Delivery.antt =====
-- A message from the server's `ChaChaCodec` to the client's, over packets in any order.
use mathlib.Core.List.{flatten}
use rumsh.Prelude.{
  ℕ, ◌+◌, ◌*◌, ◌≤◌, ◌<◌, ◌≡◌, ◌≢◌, refl, sym, ◌∙◌, ap, subst, List, [], ◌∷◌, ◌++◌, Result, ok,
  ◌>>=◌, Option, some, none, get_elem?-some, length, map, arith, true, false, lookup, replicate,
}
use rumsh.Crypto.{encrypt, decrypt}
use rumsh.Protocol.{ServerPayload}
use rumsh.Protocol.External.{Bincode, BincodeLaws, Lz4, Lz4Inverts, AeadInverts}
use rumsh.Protocol.Compression.{serialize_compressed, deserialize-serialize_compressed}
use rumsh.Protocol.Fragments.{FragmentBuffer, Completed, prune_superseded}
use rumsh.Protocol.Fragments.Arrivals.{InRange, member, wire_total, arrive}
use rumsh.Protocol.Fragments.Assembly.{arrive-completes}
use rumsh.Protocol.Codec.Interface.{OpenedServer}
use rumsh.Protocol.Codec.Chunks.{chunks, seal_packets}
use rumsh.Protocol.Codec.Chunks.Cutting.{chunks-flatten, chunks_size, seal_packets-get}
use rumsh.Protocol.Codec.Opening.{
  arrivals, open_each, answer, wire_len, Carried, open_each-arrive, arrivals-append,
  length-arrivals, answers_last, InRange-last,
}
use rumsh.Protocol.Codec.ChaCha.{ChaChaCodec, seal_server, open_completed}

module _ (bincode : Bincode) (lz4 : Lz4) (laws : BincodeLaws bincode) (zlaws : Lz4Inverts lz4) where
  -- The client's answer once the ciphertext is whole.
  open_completed-payload :
      (client : ChaChaCodec) (seq ack wire : ℕ) (payload : ServerPayload)
      (plain body ciphertext : List ℕ)
      → AeadInverts client.crypto.cipher
      → bincode.server_payload.serialize payload ≡ ok plain
      → serialize_compressed bincode.server_payload lz4 payload ≡ ok body
      → encrypt client.crypto seq body ≡ ok ciphertext
      → open_completed bincode lz4 client (
        record { seq_num = seq; ack_seq_num = ack; frag_idx = 0; total_frags = 1; ciphertext = [] },
        ciphertext,
        wire,
      )
        ≡ ok (
          record {
            seq_num = seq;
            ack_seq_num = ack;
            frag_idx = 0;
            total_frags = 1;
            ciphertext = [];
          },
          payload,
          record { wire_len = wire; comp_len = length body; decomp_len = length plain },
        )
  unfolding open_completed encrypt decrypt
  open_completed-payload client seq ack wire payload plain body ciphertext alaws ep eb ec =
      let decrypted : decrypt client.crypto seq ciphertext ≡ ok body = alaws _ body ciphertext ec in
      let decoded =
        deserialize-serialize_compressed bincode.server_payload lz4 laws.server_payload_inverts
          zlaws payload body plain ep eb in
      rw decrypted (rw decoded refl)

  -- A message whose ciphertext takes 2 to 65535 fragments, sealed by the server and opened by a
  -- client with the same keys: the client gets nothing from the first packets, in any order and
  -- some more than once, and from the packet that was the last one missing it gets the message,
  -- under the server's sequence number and acknowledgement and with the sizes counted right. The
  -- client holds fragments of at most 31 other frames.
  pub open_each-seal_server :
      (server client : ChaChaCodec) (seq ack : ℕ) (payload : ServerPayload)
      (plain body ciphertext : List ℕ) (packets : List (List ℕ)) (before : List ℕ) (i : ℕ)
      → AeadInverts client.crypto.cipher
      → server.crypto ≡ client.crypto
      → bincode.server_payload.serialize payload ≡ ok plain
      → serialize_compressed bincode.server_payload lz4 payload ≡ ok body
      → encrypt server.crypto seq body ≡ ok ciphertext
      → 1024 < length ciphertext
      → length ciphertext ≤ 65535 * 1024
      → seal_server bincode lz4 server seq ack payload ≡ ok packets
      → length client.fragment_buffer.frames ≤ 31
      → lookup seq client.fragment_buffer.frames ≡ none
      → InRange seq ack (chunks ciphertext) (arrivals bincode lz4 packets before)
      → i < length (chunks ciphertext)
      → member i (arrivals bincode lz4 packets before) ≡ false
      → ((j : ℕ)
          → j < length (chunks ciphertext)
          → j ≢ i
          → member j (arrivals bincode lz4 packets before) ≡ true)
      → open_each bincode lz4 packets (before ++ i ∷ []) client ≡ (
        record client {
          fragment_buffer = record { frames = prune_superseded seq client.fragment_buffer.frames };
        },
        replicate (length before) (ok none)
            ++ ok (
                some (
                  record {
                    seq_num = seq;
                    ack_seq_num = ack;
                    frag_idx = 0;
                    total_frags = 1;
                    ciphertext = [];
                  },
                  payload,
                  record {
                    wire_len =
                        wire_total (arrivals bincode lz4 packets before)
                        + wire_len bincode lz4 packets i;
                    comp_len = length body;
                    decomp_len = length plain;
                  },
                ))
              ∷ [],
      )
  unfolding seal_server
  open_each-seal_server server client seq ack payload plain body ciphertext packets before i alaws
        keys ep eb ec long short sealed few gone ranges lt absent others =
      let pieces = chunks ciphertext in
      let old = client.fragment_buffer.frames in
      let cut : seal_packets bincode.server_packet seq ack ciphertext ≡ ok packets =
        rw (eb, ec) at sealed in
      let carried : Carried bincode lz4 packets seq ack pieces = λ j jl.
        let (c, at) = get_elem?-some pieces j jl in
        let (p, held, made) =
          seal_packets-get bincode.server_packet seq ack ciphertext packets long short cut j c at
            jl in
        (p, c, held, at, laws.server_packet_inverts _ p made) in
      let w = wire_len bincode lz4 packets i in
      let arrived = arrivals bincode lz4 packets before in
      let (low, high) = chunks_size ciphertext in
      let delivered : FragmentBuffer × List (Option Completed)
          → ChaChaCodec × List (Result (Option OpenedServer)) =
        λ r.
          (record client { fragment_buffer = r.0 }, map (answer bincode lz4 packets client) r.1) in
      let done =
        arrive-completes seq ack pieces old few (omega (arith, low)) arrived i w gone ranges lt
          absent others in
      let completed : Completed = (
        record { seq_num = seq; ack_seq_num = ack; frag_idx = 0; total_frags = 1; ciphertext = [] },
        flatten pieces,
        wire_total arrived + w,
      ) in
      let opened =
        open_completed-payload client seq ack (wire_total arrived + w) payload plain body ciphertext
          alaws ep eb (subst (λ k. encrypt k seq body ≡ ok ciphertext) keys ec) in
      let in_range =
        subst (InRange seq ack pieces) (sym (arrivals-append bincode lz4 packets before i))
          (InRange-last bincode lz4 packets seq ack i w pieces arrived ranges lt) in
      open_each-arrive bincode lz4 packets seq ack pieces carried (before ++ i ∷ []) client
        client.fragment_buffer in_range
      ∙ ap (λ as'. delivered (arrive seq ack pieces as' client.fragment_buffer))
          (arrivals-append bincode lz4 packets before i)
      ∙ ap delivered done
      ∙ ap
          (λ outs. (
            record client { fragment_buffer = record { frames = prune_superseded seq old } },
            outs,
          ))
          (answers_last bincode lz4 packets client (length arrived) (some completed)
            ∙ ap
                (λ n.
                  replicate n (ok none) ++ answer bincode lz4 packets client (some completed) ∷ [])
                (length-arrivals bincode lz4 packets before)
            ∙ ap (λ r. replicate (length before) (ok none) ++ (r >>= λ o. ok (some o)) ∷ [])
                (ap
                    (λ f.
                      open_completed bincode lz4 client (completed.0, f, wire_total arrived + w))
                    (chunks-flatten ciphertext)
                  ∙ opened))
