-- ===== src/Protocol/Fragments.antt =====
-- `FragmentBuffer` of src/protocol/codec.rs: the fragments of the frames that are not complete yet.
pub mod Bits
pub mod Masks
pub mod Bounds
pub mod Counts
pub mod Arrivals
pub mod Assembly
use rumsh.Prelude.{
  ℕ, zero, suc, ◌+◌, ◌-◌, ◌*◌, ◌/◌, ◌%◌, Bool, true, false, ◌||◌, List, [], ◌∷◌, ◌++◌, Option, none,
  some, length, get_elem?, set, replicate, Map, lookup, insert, remove, ltb, leb, ◌==◌,
  if◌then◌else◌,
}
use rumsh.Protocol.{EncryptedServerPacket}
use Bits.{or_bit}

-- `(u16, usize, HashMap<u16, Vec<u8>>)`.
pub record FrameFragments : Type 0 where
  pub total_frags : ℕ
  pub wire_len_acc : ℕ
  pub fragments : Map (List ℕ)

-- Sequence number -> fragments.
pub record FragmentBuffer : Type 0 where
  pub frames : Map FrameFragments

pub empty : FragmentBuffer
empty = record { frames = [] }

-- The packet, the whole ciphertext and its length on the wire.
abbrev pub Completed : Type 0
Completed = EncryptedServerPacket × List ℕ × ℕ

-- The loop `for idx in 0..total_frags`, at `idx` with `left` rounds to go.
pub reassemble : ℕ → ℕ → Map (List ℕ) → List ℕ
reassemble zero idx frags = []
reassemble (suc left) idx frags =
    let rest = reassemble left (idx + 1) (remove idx frags) in
    elim (lookup idx frags) [ none ↦ rest | some piece ↦ piece ++ rest ]

-- The loop that drops incomplete frames older than a completed one.
unfoldable pub prune_superseded : ℕ → Map FrameFragments → Map FrameFragments
prune_superseded seq [] = []
prune_superseded seq ((old_seq, e) ∷ m) =
    if ltb old_seq seq then prune_superseded seq m else (old_seq, e) ∷ m

-- `if self.frames.len() > 32`, the oldest frame goes.
pub prune_overflow : Map FrameFragments → Map FrameFragments
prune_overflow [] = []
prune_overflow ((seq, e) ∷ m) =
    if ltb 32 (suc (length m)) then remove seq ((seq, e) ∷ m) else (seq, e) ∷ m

-- The entry of a frame with one more fragment.
pub add_fragment : Map FrameFragments → EncryptedServerPacket → ℕ → FrameFragments
add_fragment frames packet wire_len =
    let entry : FrameFragments = elim (lookup packet.seq_num frames) [
      | some e ↦ e
      | none ↦ record { total_frags = packet.total_frags; wire_len_acc = 0; fragments = [] }
    ] in
    record entry {
      wire_len_acc = entry.wire_len_acc + wire_len;
      fragments = insert packet.frag_idx packet.ciphertext entry.fragments;
    }

-- A frame whose last fragment has come, and the buffer without it and the frames before it.
pub complete :
    Map FrameFragments → EncryptedServerPacket → FrameFragments → FragmentBuffer × Option Completed
unfolding reassemble prune_superseded
complete frames packet e =
    let completed_packet : EncryptedServerPacket = record {
      seq_num = packet.seq_num;
      ack_seq_num = packet.ack_seq_num;
      frag_idx = 0;
      total_frags = 1;
      ciphertext = [];
    } in
    (
      record { frames = prune_superseded packet.seq_num (remove packet.seq_num frames) },
      some (completed_packet, reassemble e.total_frags 0 e.fragments, e.wire_len_acc),
    )

unfoldable pub insert_packet :
    FragmentBuffer → EncryptedServerPacket → ℕ → FragmentBuffer × Option Completed
unfolding add_fragment complete prune_overflow
insert_packet self packet wire_len =
    let entry = add_fragment self.frames packet wire_len in
    let frames = insert packet.seq_num entry self.frames in
    if leb packet.total_frags 1
    then (self, some (packet, packet.ciphertext, wire_len))
    else if length entry.fragments == entry.total_frags
    then complete frames packet entry
    else (record { frames = prune_overflow frames }, none)

-- `mask[word_idx] |= 1 << bit_idx` for each fragment, if the word is in the mask.
pub mark_received : Map (List ℕ) → List ℕ → List ℕ
unfolding or_bit
mark_received [] mask = mask
mark_received ((idx, _) ∷ frags) mask = mark_received frags (elim (get_elem? mask (idx / 64)) [
  | none ↦ mask
  | some word ↦ set mask (idx / 64) (or_bit word (idx % 64))
])

abbrev pub div_ceil : ℕ → ℕ → ℕ
div_ceil n d = (n + (d - 1)) / d

pub incomplete : Map FrameFragments → List (ℕ × List ℕ)
unfolding mark_received
incomplete [] = []
incomplete ((seq, e) ∷ m) =
    if e.total_frags == 0 || leb e.total_frags (length e.fragments)
    then incomplete m
    else (seq, mark_received e.fragments (replicate (div_ceil e.total_frags 64) 0)) ∷ incomplete m

unfoldable pub get_incomplete_frames : FragmentBuffer → List (ℕ × List ℕ)
unfolding incomplete
get_incomplete_frames self = incomplete self.frames
