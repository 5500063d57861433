-- ===== src/Protocol/Fragments/Arrivals.antt =====
-- The entry of a frame while its fragments arrive.
use mathlib.Core.List.{flatten}
use rumsh.Prelude.{
  ℕ, zero, suc, ◌+◌, ◌≤◌, ◌<◌, ◌≡◌, refl, sym, ◌∙◌, ap, subst, Bool, true, false, ◌||◌, List, [],
  ◌∷◌, ◌++◌, Option, none, some, is_some, length, get_elem?, get_elem?-some, get_elem?-none, ◌-◌,
  ◌==◌, if◌then◌else◌, Map, lookup, insert, remove, lookup-insert, lookup-remove, insert-Rising,
  Rising, arith, Bool-cases, inl, inr, ≢→==, ==→≡, ==-refl,
}
use rumsh.Protocol.{EncryptedServerPacket}
use rumsh.Protocol.Fragments.{
  FrameFragments, FragmentBuffer, Completed, reassemble, prune_overflow, add_fragment,
  insert_packet,
}
use rumsh.Protocol.Fragments.Counts.{EndsBy, length-lt-span, length-ge-span, length-le-span}

-- A fragment that arrives: its index and its length on the wire.
abbrev pub Arrival : Type 0
Arrival = ℕ × ℕ

abbrev pub member : ℕ → List Arrival → Bool
member i [] = false
member i ((j, w) ∷ rest) = (j == i) || member i rest

abbrev pub wire_total : List Arrival → ℕ
wire_total [] = 0
wire_total ((i, w) ∷ rest) = w + wire_total rest

reassemble-suc :
    (left idx : ℕ) (frags : Map (List ℕ)) (piece : List ℕ)
    → lookup idx frags ≡ some piece
    → reassemble (suc left) idx frags ≡ piece ++ reassemble left (idx + 1) (remove idx frags)
unfolding reassemble
reassemble-suc left idx frags piece e = rw (reassemble, e)

-- The pieces joined in the order of the indices.
reassemble-flatten :
    (left idx : ℕ) (frags : Map (List ℕ)) (pieces : List (List ℕ))
    → length pieces ≡ left
    → ((j : ℕ) → j < left → lookup (idx + j) frags ≡ get_elem? pieces j)
    → reassemble left idx frags ≡ flatten pieces
unfolding reassemble flatten
reassemble-flatten zero idx frags [] size have = refl
reassemble-flatten zero idx frags (p ∷ ps) size have = absurd (omega arith)
reassemble-flatten (suc left) idx frags [] size have = absurd (omega arith)
reassemble-flatten (suc left) idx frags (p ∷ ps) size have =
    let here : lookup idx frags ≡ some p =
      subst (λ i. lookup i frags ≡ some p) (omega arith) (have 0 (omega arith)) in
    let later = λ (j : ℕ) (lt : j < left).
      lookup-remove (idx + 1 + j) idx frags
      ∙ rw (≢→== idx (idx + 1 + j) (omega arith)) (
          subst (λ i. lookup i frags ≡ get_elem? ps j) (omega arith)
            (have (suc j) (omega arith))) in
    reassemble-suc left idx frags p here
    ∙ ap (◌++◌ p) (reassemble-flatten left (idx + 1) (remove idx frags) ps (omega arith) later)

module _ (seq ack : ℕ) (pieces : List (List ℕ)) where
  abbrev total : ℕ
  total = length pieces

  -- The fragment `i` of the frame.
  abbrev pub fragment : ℕ → List ℕ → EncryptedServerPacket
  fragment i piece = record {
    seq_num = seq;
    ack_seq_num = ack;
    frag_idx = i;
    total_frags = length pieces;
    ciphertext = piece;
  }

  abbrev pub InRange : List Arrival → Type 0
  InRange [] = Unit
  InRange ((i, w) ∷ rest) = (i < length pieces) × InRange rest

  -- The outputs of the arrivals, in order; an index with no piece gives nothing.
  unfoldable pub arrive : List Arrival → FragmentBuffer → FragmentBuffer × List (Option Completed)
  arrive [] b = (b, [])
  arrive ((i, wire_len) ∷ rest) b = elim (get_elem? pieces i) [
    | none ↦ arrive rest b
    | some piece ↦
        let (b', out) = insert_packet b (fragment i piece) wire_len in
        let (b'', outs) = arrive rest b' in (b'', out ∷ outs)
  ]

  -- The entry of a frame of which the fragments `has` have arrived.
  pub record Holds (has : ℕ → Bool) (wire : ℕ) (e : FrameFragments) : Type 0 where
    pub total_frags : e.total_frags ≡ length pieces
    pub wire_len : e.wire_len_acc ≡ wire
    pub rising : Rising 0 e.fragments
    pub kept : (i : ℕ) → lookup i e.fragments ≡ (if has i then get_elem? pieces i else none)

  abbrev pub or_fresh : Option FrameFragments → FrameFragments
  or_fresh (some e) = e
  or_fresh none = record { total_frags = length pieces; wire_len_acc = 0; fragments = [] }

  abbrev pub entry_of : Map FrameFragments → FrameFragments
  entry_of frames = or_fresh (lookup seq frames)

  pub entry_of-insert :
      (e : FrameFragments) (frames : Map FrameFragments) → entry_of (insert seq e frames) ≡ e
  entry_of-insert e frames =
      let found : lookup seq (insert seq e frames) ≡ some e =
        lookup-insert seq seq e frames
        ∙ ap (λ b. if b then some e else lookup seq frames) (==-refl seq) in
      ap or_fresh found

  -- One arrival, then the rest.
  pub arrive-cons :
      (i w : ℕ) (rest : List Arrival) (b b' : FragmentBuffer) (piece : List ℕ)
      (out : Option Completed)
      → get_elem? pieces i ≡ some piece
      → insert_packet b (fragment i piece) w ≡ (b', out)
      → arrive ((i, w) ∷ rest) b ≡ (let (b'', outs) = arrive rest b' in (b'', out ∷ outs))
  unfolding arrive
  arrive-cons i w rest b b' piece out at step = rw (arrive, at) (rw step refl)

  -- The buffer while the frame is assembled: the frames of before, `old`, and this one's entry.
  pub record Assembling (old : Map FrameFragments) (has : ℕ → Bool) (wire : ℕ)
      (frames : Map FrameFragments) : Type 0 where
    pub holds : Holds has wire (entry_of frames)
    pub same_insert : (e : FrameFragments) → insert seq e frames ≡ insert seq e old
    pub same_remove : remove seq frames ≡ old

  abbrev pub also : ℕ → (ℕ → Bool) → ℕ → Bool
  also i has j = (i == j) || has j

  pub Holds-add_fragment :
      (has : ℕ → Bool) (wire : ℕ) (frames : Map FrameFragments) (i w : ℕ) (piece : List ℕ)
      → Holds has wire (entry_of frames)
      → get_elem? pieces i ≡ some piece
      → Holds (also i has) (wire + w) (add_fragment frames (fragment i piece) w)
  unfolding add_fragment
  Holds-add_fragment has wire frames i w piece h e = record {
    total_frags = h.total_frags;
    wire_len = ap (λ n. n + w) h.wire_len;
    rising = insert-Rising i 0 piece (entry_of frames).fragments (omega arith) h.rising;
    kept = λ j. lookup-insert j i piece (entry_of frames).fragments ∙ elim (Bool-cases (i == j)) [
      | inl same ↦ rw same (sym e ∙ ap (get_elem? pieces) (==→≡ i j same))
      | inr apart ↦ rw apart (h.kept j)
    ];
  }

  module _ (has : ℕ → Bool) (wire : ℕ) (e : FrameFragments) (h : Holds has wire e) where
    kept_ends : EndsBy (length pieces) e.fragments
    kept_ends k out = h.kept k ∙ elim (Bool-cases (has k)) [
      | inl came ↦ rw came (get_elem?-none pieces k out)
      | inr missing ↦ rw missing refl
    ]

    pub Holds-waits :
        (i : ℕ) → i < length pieces → has i ≡ false → (length e.fragments == e.total_frags) ≡ false
    Holds-waits i lt missing =
        let short : length e.fragments < length pieces - 0 =
          length-lt-span 0 (length pieces) i e.fragments h.rising kept_ends (omega arith) lt
            (h.kept i ∙ rw missing refl) in
        ≢→== (length e.fragments) e.total_frags (omega (arith, short, h.total_frags))

    kept_all :
        ((i : ℕ) → i < length pieces → has i ≡ true)
        → (i : ℕ) → i < length pieces
        → lookup i e.fragments ≡ get_elem? pieces i
    kept_all all i lt = h.kept i ∙ rw (all i lt) refl

    pub Holds-whole :
        ((i : ℕ) → i < length pieces → has i ≡ true)
        → ((length e.fragments == e.total_frags) ≡ true)
          × (reassemble e.total_frags 0 e.fragments ≡ flatten pieces)
    Holds-whole all =
        let found = λ (i : ℕ) (lt : i < length pieces).
          let (piece, at) = get_elem?-some pieces i lt in ap is_some (kept_all all i lt ∙ at) in
        let low = length-ge-span 0 (length pieces) e.fragments h.rising (λ k b lt. found k lt) in
        let high = length-le-span 0 (length pieces) e.fragments h.rising kept_ends in
        (
          subst (λ n. (length e.fragments == n) ≡ true) {x = length e.fragments}
              (omega (arith, low, high, h.total_frags)) (==-refl (length e.fragments)),
          reassemble-flatten e.total_frags 0 e.fragments pieces (sym h.total_frags) (λ j lt.
              subst (λ k. lookup k e.fragments ≡ get_elem? pieces j) {x = j} (omega arith)
                (kept_all all j (omega (arith, h.total_frags)))),
        )

  pub Holds-same :
      (has has' : ℕ → Bool) (wire wire' : ℕ) (e : FrameFragments)
      → ((j : ℕ) → has j ≡ has' j)
      → wire ≡ wire'
      → Holds has wire e
      → Holds has' wire' e
  Holds-same has has' wire wire' e same ew h = record {
    total_frags = h.total_frags;
    wire_len = h.wire_len ∙ ew;
    rising = h.rising;
    kept = λ i. h.kept i ∙ ap (λ b. if b then get_elem? pieces i else none) (same i);
  }

  pub prune_overflow_few : (m : Map FrameFragments) → length m ≤ 32 → prune_overflow m ≡ m
  unfolding prune_overflow
  prune_overflow_few [] few = refl
  prune_overflow_few ((k, e) ∷ m) few = ground arith
