-- ===== src/Protocol/Fragments/Bounds.antt =====
-- How many frames the fragment buffer holds.
use rumsh.Prelude.{
  ℕ, ◌≤◌, ap, [], ◌∷◌, length, leb, ◌==◌, Map, insert, remove, length-insert-le, length-remove-le,
  arith, Bool-cases, inl, inr,
}
use rumsh.Protocol.{EncryptedServerPacket}
use rumsh.Protocol.Fragments.{
  FrameFragments, FragmentBuffer, prune_superseded, prune_overflow, add_fragment, complete,
  insert_packet,
}
use rumsh.Protocol.Fragments.Counts.{remove-insert}

prune_superseded_size :
    (seq : ℕ) (m : Map FrameFragments) → length (prune_superseded seq m) ≤ length m
unfolding prune_superseded
prune_superseded_size seq [] = omega arith
prune_superseded_size seq ((k, e) ∷ m) = ground (arith, prune_superseded_size seq m)

prune_overflow_size : (m : Map FrameFragments) → length m ≤ 33 → length (prune_overflow m) ≤ 32
unfolding prune_overflow
prune_overflow_size [] few = omega arith
prune_overflow_size ((k, e) ∷ m) few = ground (arith, length-remove-le k m)

-- The buffer never holds fragments of more than 32 frames.
pub insert_packet_bound :
    (self : FragmentBuffer) (packet : EncryptedServerPacket) (wire_len : ℕ)
    → length self.frames ≤ 32
    → length (insert_packet self packet wire_len).0.frames ≤ 32
unfolding insert_packet complete
insert_packet_bound self packet wire_len few =
    let e = add_fragment self.frames packet wire_len in
    let seq = packet.seq_num in
    elim (Bool-cases (leb packet.total_frags 1)) [
      | inl single ↦ rw single few
      | inr several ↦ elim (Bool-cases (length e.fragments == e.total_frags)) [
        | inl whole ↦
            rw (several, whole)
              (omega (
                arith,
                prune_superseded_size seq (remove seq (insert seq e self.frames)),
                ap length (remove-insert seq e self.frames),
                length-remove-le seq self.frames,
              ))
        | inr partial ↦
            rw (several, partial)
              (prune_overflow_size (insert seq e self.frames)
                (omega (arith, length-insert-le seq e self.frames)))
      ]
    ]
