-- ===== src/Protocol/Codec/Opening.antt =====
-- The fragments of a message, opened one by one by the client's `ChaChaCodec`
-- (src/protocol/codec.rs).
use rumsh.Prelude.{
  ℕ, zero, suc, ◌<◌, ◌≡◌, refl, sym, ◌∙◌, ap, List, [], ◌∷◌, ◌++◌, Result, ok, ◌>>=◌, Option, some,
  none, get_elem?, length, map, replicate,
}
use rumsh.Protocol.{EncryptedServerPacket}
use rumsh.Protocol.External.{Bincode, Lz4}
use rumsh.Protocol.Fragments.{FragmentBuffer, Completed, insert_packet}
use rumsh.Protocol.Fragments.Arrivals.{Arrival, InRange, fragment, arrive, arrive-cons}
use rumsh.Protocol.Codec.Interface.{OpenedServer}
use rumsh.Protocol.Codec.ChaCha.{
  ChaChaCodec, open_server, open_received, open_inserted, open_completed,
}

module _ (bincode : Bincode) (lz4 : Lz4) (packets : List (List ℕ)) where
  -- The client opens the packets with these places; it skips a place with no packet.
  unfoldable pub open_each :
      List ℕ → ChaChaCodec → ChaChaCodec × List (Result (Option OpenedServer))
  open_each [] client = (client, [])
  open_each (i ∷ is) client = elim (get_elem? packets i) [
    | none ↦ open_each is client
    | some p ↦
        let (client', out) = open_server bincode lz4 client p in
        let (client'', outs) = open_each is client' in (client'', out ∷ outs)
  ]

  abbrev pub length_of : Option (List ℕ) → ℕ
  length_of none = 0
  length_of (some p) = length p

  abbrev pub wire_len : ℕ → ℕ
  wire_len i = length_of (get_elem? packets i)

  abbrev pub arrivals : List ℕ → List Arrival
  arrivals [] = []
  arrivals (i ∷ is) = (i, wire_len i) ∷ arrivals is

  -- What the client makes of an output of its fragment buffer.
  abbrev pub answer : ChaChaCodec → Option Completed → Result (Option OpenedServer)
  answer client none = ok none
  answer client (some c) = open_completed bincode lz4 client c >>= λ r. ok (some r)

  abbrev pub with_buffer : ChaChaCodec → FragmentBuffer → ChaChaCodec
  with_buffer client b = record client { fragment_buffer = b }

  open_server-insert :
      (client : ChaChaCodec) (b b' : FragmentBuffer) (p : List ℕ) (packet : EncryptedServerPacket)
      (out : Option Completed)
      → bincode.server_packet.deserialize p ≡ ok packet
      → insert_packet b packet (length p) ≡ (b', out)
      → open_server bincode lz4 (with_buffer client b) p
        ≡ (with_buffer client b', answer client out)
  unfolding open_server open_received open_inserted open_completed
  open_server-insert client b b' p packet none decoded step = rw decoded (rw step refl)
  open_server-insert client b b' p packet (some c) decoded step = rw decoded (rw step refl)

  open_each-cons :
      (i : ℕ) (is : List ℕ) (client client' : ChaChaCodec) (p : List ℕ)
      (out : Result (Option OpenedServer))
      → get_elem? packets i ≡ some p
      → open_server bincode lz4 client p ≡ (client', out)
      → open_each (i ∷ is) client
        ≡ (let (client'', outs) = open_each is client' in (client'', out ∷ outs))
  unfolding open_each
  open_each-cons i is client client' p out held opened = rw (open_each, held) (rw opened refl)

  module _ (seq ack : ℕ) (pieces : List (List ℕ)) where
    -- Each packet decodes to the fragment of its piece.
    abbrev pub Carried : Type 0
    Carried =
        (j : ℕ)
        → j < length pieces
        → (p : List ℕ) × (c : List ℕ) × (get_elem? packets j ≡ some p)
          × (get_elem? pieces j ≡ some c)
          × (bincode.server_packet.deserialize p
              ≡ ok (record {
                seq_num = seq;
                ack_seq_num = ack;
                frag_idx = j;
                total_frags = length pieces;
                ciphertext = c;
              }))

    pub open_each-arrive :
        Carried
        → (order : List ℕ) (client : ChaChaCodec) (b : FragmentBuffer)
        → InRange seq ack pieces (arrivals order)
        → open_each order (with_buffer client b) ≡ (
            let (b', outs) = arrive seq ack pieces (arrivals order) b in
            (with_buffer client b', map (answer client) outs))
    unfolding open_each arrive
    open_each-arrive carried [] client b ranges = refl
    open_each-arrive carried (i ∷ is) client b (lt, ranges) =
        let (p, c, held, piece, decoded) = carried i lt in
        let size : wire_len i ≡ length p = ap (λ o. length_of o) held in
        let b' = (insert_packet b (fragment seq ack pieces i c) (wire_len i)).0 in
        let out = (insert_packet b (fragment seq ack pieces i c) (wire_len i)).1 in
        let opened =
          open_server-insert client b b' p (fragment seq ack pieces i c) out decoded
            (ap (insert_packet b (fragment seq ack pieces i c)) (sym size)) in
        open_each-cons i is (with_buffer client b) (with_buffer client b') p (answer client out)
          held opened
        ∙ ap
            (λ (r : ChaChaCodec × List (Result (Option OpenedServer))).
              (r.0, answer client out ∷ r.1))
            (open_each-arrive carried is client b' ranges)
        ∙ ap
            (λ (r : FragmentBuffer × List (Option Completed)).
              (with_buffer client r.0, map (answer client) r.1))
            (sym (arrive-cons seq ack pieces i (wire_len i) (arrivals is) b b' c out piece refl))

  pub arrivals-append :
      (before : List ℕ) (i : ℕ)
      → arrivals (before ++ i ∷ []) ≡ arrivals before ++ (i, wire_len i) ∷ []
  arrivals-append [] i = refl
  arrivals-append (j ∷ before) i = ap (◌∷◌ (j, wire_len j)) (arrivals-append before i)

  pub length-arrivals : (is : List ℕ) → length (arrivals is) ≡ length is
  length-arrivals [] = refl
  length-arrivals (i ∷ is) = ap suc (length-arrivals is)

  pub answers_last :
      (client : ChaChaCodec) (n : ℕ) (out : Option Completed)
      → map (answer client) (replicate n none ++ out ∷ [])
        ≡ replicate n (ok none) ++ answer client out ∷ []
  answers_last client zero out = refl
  answers_last client (suc n) out = ap (◌∷◌ (ok none)) (answers_last client n out)

  pub InRange-last :
      (seq ack i w : ℕ) (pieces : List (List ℕ)) (before : List Arrival)
      → InRange seq ack pieces before
      → i < length pieces
      → InRange seq ack pieces (before ++ (i, w) ∷ [])
  InRange-last seq ack i w pieces [] ranges lt = (lt, tt)
  InRange-last seq ack i w pieces (a ∷ before) (r, ranges) lt =
      (r, InRange-last seq ack i w pieces before ranges lt)
