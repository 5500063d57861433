-- ===== src/Protocol/Codec/Chunks/Cutting.antt =====
-- The chunks of a ciphertext and the packets of `seal_packets`, in order.
use native.Mathlib.Nat.{mod-eq_of_lt}
use mathlib.Core.List.{flatten}
use rumsh.Prelude.{
  ℕ, zero, suc, ◌+◌, ◌*◌, ◌%◌, ◌≤◌, ◌<◌, ◌≡◌, refl, ◌∙◌, ap, subst, List, [], ◌∷◌, ◌++◌, ok,
  ok_of_bind, some, get_elem?, length, take, drop, false, leb, arith, take-append-drop, length-drop,
}
use rumsh.Protocol.{EncryptedServerPacket}
use rumsh.Protocol.External.{Serde}
use rumsh.Protocol.Codec.Chunks.{chunks_from, chunks, fragment_packet, seal_chunks, seal_packets}

chunks_from-flatten :
    (fuel : ℕ) (bs : List ℕ) → length bs ≤ fuel → flatten (chunks_from fuel bs) ≡ bs
unfolding chunks_from flatten
chunks_from-flatten zero [] enough = refl
chunks_from-flatten zero (b ∷ bs) enough = absurd (omega arith)
chunks_from-flatten (suc fuel) [] enough = refl
chunks_from-flatten (suc fuel) (b ∷ bs) enough =
    ap (◌++◌ (take 1024 (b ∷ bs)))
      (chunks_from-flatten fuel (drop 1024 (b ∷ bs)) (omega (arith, length-drop 1024 (b ∷ bs))))
    ∙ take-append-drop 1024 (b ∷ bs)

pub chunks-flatten : (bs : List ℕ) → flatten (chunks bs) ≡ bs
unfolding chunks
chunks-flatten bs = chunks_from-flatten (length bs) bs (omega arith)

chunks_from_size :
    (fuel : ℕ) (bs : List ℕ)
    → length bs ≤ fuel
    → (length bs ≤ length (chunks_from fuel bs) * 1024)
      × (length (chunks_from fuel bs) * 1024 ≤ length bs + 1023)
unfolding chunks_from
chunks_from_size zero [] enough = (omega arith, omega arith)
chunks_from_size zero (b ∷ bs) enough = absurd (omega arith)
chunks_from_size (suc fuel) [] enough = (omega arith, omega arith)
chunks_from_size (suc fuel) (b ∷ bs) enough =
    let left = length-drop 1024 (b ∷ bs) in
    let (low, high) = chunks_from_size fuel (drop 1024 (b ∷ bs)) (omega (arith, left)) in
    (omega (arith, left, low), omega (arith, left, high))

-- The number of chunks is the length over 1024, rounded up.
pub chunks_size :
    (bs : List ℕ)
    → (length bs ≤ length (chunks bs) * 1024) × (length (chunks bs) * 1024 ≤ length bs + 1023)
unfolding chunks
chunks_size bs = chunks_from_size (length bs) bs (omega arith)

module _ (s : Serde EncryptedServerPacket) (seq ack : ℕ) where
  -- The packet at each place is the fragment of the chunk there.
  pub seal_chunks-get :
      (total idx : ℕ) (cs : List (List ℕ)) (packets : List (List ℕ))
      → seal_chunks s seq ack total idx cs ≡ ok packets
      → (j : ℕ) (c : List ℕ) → get_elem? cs j ≡ some c
      → (p : List ℕ) × (get_elem? packets j ≡ some p)
        × (s.serialize (fragment_packet seq ack (idx + j) total c) ≡ ok p)
  unfolding seal_chunks
  seal_chunks-get total idx [] packets e j c at = cc at
  seal_chunks-get total idx (c' ∷ cs) packets e zero c at =
      let (p, made, e') =
        ok_of_bind (s.serialize (fragment_packet seq ack idx total c')) _ packets e in
      let (rest, more, e'') = ok_of_bind (seal_chunks s seq ack total (idx + 1) cs) _ packets e' in
      let here : idx ≡ idx + 0 = omega arith in
      (
        p,
        cc e'',
        subst (λ n. s.serialize (fragment_packet seq ack n total c) ≡ ok p) here
            (subst (λ x. s.serialize (fragment_packet seq ack idx total x) ≡ ok p) (cc at) made),
      )
  seal_chunks-get total idx (c' ∷ cs) packets e (suc j) c at =
      let (p, made, e') =
        ok_of_bind (s.serialize (fragment_packet seq ack idx total c')) _ packets e in
      let (rest, more, e'') = ok_of_bind (seal_chunks s seq ack total (idx + 1) cs) _ packets e' in
      let (q, found, sealed) = seal_chunks-get total (idx + 1) cs rest more j c at in
      let all : p ∷ rest ≡ packets = cc e'' in
      (
        q,
        subst (λ ps. get_elem? ps (suc j) ≡ some q) all found,
        subst (λ n. s.serialize (fragment_packet seq ack n total c) ≡ ok q) {x = idx + 1 + j}
            {y = idx + suc j} (omega arith) sealed,
      )

  -- A ciphertext of more than one fragment's size, and less than 2^16 of them: the packet at each
  -- place is the fragment with that index, and it is one of two or more.
  pub seal_packets-get :
      (ciphertext : List ℕ) (packets : List (List ℕ))
      → 1024 < length ciphertext
      → length ciphertext ≤ 65535 * 1024
      → seal_packets s seq ack ciphertext ≡ ok packets
      → (j : ℕ) (c : List ℕ) → get_elem? (chunks ciphertext) j ≡ some c
      → j < length (chunks ciphertext)
      → (p : List ℕ) × (get_elem? packets j ≡ some p)
        × (s.serialize (record {
          seq_num = seq;
          ack_seq_num = ack;
          frag_idx = j;
          total_frags = length (chunks ciphertext);
          ciphertext = c;
        })
            ≡ ok p)
  unfolding seal_packets
  seal_packets-get ciphertext packets long short e j c at lt =
      let (low, high) = chunks_size ciphertext in
      let n = length (chunks ciphertext) in
      let cut : leb (length ciphertext) 1024 ≡ false = ground arith in
      let whole : n % 65536 ≡ n = mod-eq_of_lt (omega arith) in
      let place : (0 + j) % 65536 ≡ j = omega arith in
      let sealed : seal_chunks s seq ack n 0 (chunks ciphertext) ≡ ok packets =
        rw (← whole) (rw cut at e) in
      let (p, found, made) = seal_chunks-get n 0 (chunks ciphertext) packets sealed j c at in
      (
        p,
        found,
        subst
            (λ i.
              s.serialize (record {
                seq_num = seq;
                ack_seq_num = ack;
                frag_idx = i;
                total_frags = n;
                ciphertext = c;
              })
              ≡ ok p)
            place made,
      )
