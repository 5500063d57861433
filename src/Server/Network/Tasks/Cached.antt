-- ===== src/Server/Network/Tasks/Cached.antt =====
-- The cache of fragments of `run_server` of src/server/network.rs: its size and its entries.
use rumsh.Prelude.{
  ℕ, ◌+◌, ◌≤◌, ◌<◌, ◌≡◌, inl, inr, [], ◌∷◌, ◌++◌, ok, length, length-append, leb, Bool-cases, arith,
}
use rumsh.Protocol.Codec.Interface.{PacketCodec}
use rumsh.Server.Session.State.{UpdateJob, run_job, pop_front}
use rumsh.Server.Network.Tasks.{Packets, FragmentCache, cache_packets}

module _ (pc : PacketCodec) where
  open pc use {Codec}

  -- The entries of the cache are what some jobs have sealed, in more than one packet.
  pub record Sealed (seq : ℕ) (packets : Packets) : Type 0 where
    pub job : UpdateJob Codec
    pub number : job.seq ≡ seq
    pub made : run_job pc job ≡ ok packets
    pub several : 1 < length packets

  abbrev pub AllSealed : FragmentCache → Type 0
  AllSealed [] = Unit
  AllSealed ((seq, packets) ∷ cache) = Sealed seq packets × AllSealed cache

  AllSealed-append : (xs ys : FragmentCache) → AllSealed xs → AllSealed ys → AllSealed (xs ++ ys)
  AllSealed-append [] ys sx sy = sy
  AllSealed-append ((seq, packets) ∷ xs) ys (s, sx) sy = (s, AllSealed-append xs ys sx sy)

  pop_front-AllSealed : (cache : FragmentCache) → AllSealed cache → AllSealed (pop_front cache)
  pop_front-AllSealed [] s = tt
  pop_front-AllSealed ((seq, packets) ∷ cache) (s, rest) = rest

  pub cache_packets-AllSealed :
      (cache : FragmentCache) (seq : ℕ) (packets : Packets)
      → AllSealed cache
      → Sealed seq packets
      → AllSealed (cache_packets cache seq packets)
  unfolding cache_packets
  cache_packets-AllSealed cache seq packets s made = elim (Bool-cases (leb 4 (length cache))) [
    | inl full ↦ rw full (
        AllSealed-append (pop_front cache) ((seq, packets) ∷ []) (pop_front-AllSealed cache s)
          (made, tt))
    | inr room ↦ rw room (AllSealed-append cache ((seq, packets) ∷ []) s (made, tt))
  ]

  length-pop_front :
      (cache : FragmentCache) → 0 < length cache → length (pop_front cache) + 1 ≡ length cache
  length-pop_front [] h = elim h [ ]
  length-pop_front (e ∷ cache) h = omega arith

  pub cache_packets-le :
      (cache : FragmentCache) (seq : ℕ) (packets : Packets)
      → length cache ≤ 4
      → length (cache_packets cache seq packets) ≤ 4
  unfolding cache_packets
  cache_packets-le cache seq packets h = elim (Bool-cases (leb 4 (length cache))) [
    | inl full ↦ rw full (
        omega (
          arith,
          length-append (pop_front cache) ((seq, packets) ∷ []),
          length-pop_front cache (ground arith),
        ))
    | inr room ↦ rw room (ground (arith, length-append cache ((seq, packets) ∷ [])))
  ]
