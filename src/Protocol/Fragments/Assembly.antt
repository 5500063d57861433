-- ===== src/Protocol/Fragments/Assembly.antt =====
-- The fragments of one frame, in whatever order they come, and the frame they make.
use mathlib.Core.List.{flatten}
use rumsh.Prelude.{
  ℕ, ◌+◌, ◌≤◌, ◌<◌, ◌≡◌, ◌≢◌, refl, sym, ◌∙◌, ap, subst, Bool, true, false, ◌||◌, List, [], ◌∷◌,
  ◌++◌, Option, none, some, length, replicate, get_elem?, get_elem?-some, leb, ◌==◌, Map, lookup,
  insert, remove, length-insert-le, arith, Bool-cases, inl, inr, ==-refl,
}
use rumsh.Protocol.Fragments.{
  FrameFragments, FragmentBuffer, Completed, reassemble, prune_superseded, add_fragment, complete,
  insert_packet,
}
use rumsh.Protocol.Fragments.Counts.{insert-insert, remove-insert, remove_absent}
use rumsh.Protocol.Fragments.Arrivals.{
  Arrival, member, wire_total, or_fresh, entry_of-insert, entry_of, arrive-cons, arrive, InRange,
  fragment, Holds-add_fragment, Holds-waits, Holds-whole, Holds-same, Holds, Assembling, also,
  prune_overflow_few,
}

module _ (seq ack : ℕ) (pieces : List (List ℕ)) where
  module _ (old : Map FrameFragments) (few : length old ≤ 31) (several : 2 ≤ length pieces) where
    -- A fragment seq ack pieces that leaves another one missing is kept.
    insert-Assembling :
        (has : ℕ → Bool) (wire : ℕ) (frames : Map FrameFragments) (i w missing : ℕ) (piece : List ℕ)
        → Assembling seq ack pieces old has wire frames
        → get_elem? pieces i ≡ some piece
        → missing < length pieces
        → also seq ack pieces i has missing ≡ false
        → (frames' : Map FrameFragments) × (insert_packet
              (record { frames = frames })
              (fragment seq ack pieces i piece)
              w
            ≡ (record { frames = frames' }, none))
          × Assembling seq ack pieces old (also seq ack pieces i has) (wire + w) frames'
    unfolding insert_packet
    insert-Assembling has wire frames i w missing piece a at lt gone =
        let e = add_fragment frames (fragment seq ack pieces i piece) w in
        let h = Holds-add_fragment seq ack pieces has wire frames i w piece a.holds at in
        let small : length (insert seq e frames) ≤ 32 =
          rw (a.same_insert e) (omega (arith, length-insert-le seq e old)) in
        let many : leb (length pieces) 1 ≡ false = ground arith in
        (
          insert seq e frames,
          rw
              (
                many,
                Holds-waits seq ack pieces (also seq ack pieces i has) (wire + w) e h missing lt
                    gone,
              )
              (rw (prune_overflow_few seq ack pieces (insert seq e frames) small)),
          record {
            holds =
                subst (Holds seq ack pieces (also seq ack pieces i has) (wire + w))
                  (sym (entry_of-insert seq ack pieces e frames)) h;
            same_insert = λ e'. insert-insert seq e' e frames ∙ a.same_insert e';
            same_remove = remove-insert seq e frames ∙ a.same_remove;
          },
        )

    abbrev whole : ℕ → Completed
    whole wire = (
      record { seq_num = seq; ack_seq_num = ack; frag_idx = 0; total_frags = 1; ciphertext = [] },
      flatten pieces,
      wire,
    )

    complete-whole :
        (m : Map FrameFragments) (i wire : ℕ) (piece : List ℕ) (e : FrameFragments)
        → remove seq m ≡ old
        → reassemble e.total_frags 0 e.fragments ≡ flatten pieces
        → e.wire_len_acc ≡ wire
        → complete m (fragment seq ack pieces i piece) e
          ≡ (record { frames = prune_superseded seq old }, some (whole wire))
    unfolding complete
    complete-whole m i wire piece e removed joined sum = rw (removed, joined, sum)

    -- The last one completes the frame.
    insert-completes :
        (has : ℕ → Bool) (wire : ℕ) (frames : Map FrameFragments) (i w : ℕ) (piece : List ℕ)
        → Assembling seq ack pieces old has wire frames
        → get_elem? pieces i ≡ some piece
        → ((j : ℕ) → j < length pieces → also seq ack pieces i has j ≡ true)
        → insert_packet (record { frames = frames }) (fragment seq ack pieces i piece) w
          ≡ (record { frames = prune_superseded seq old }, some (whole (wire + w)))
    unfolding insert_packet
    insert-completes has wire frames i w piece a at all =
        let e = add_fragment frames (fragment seq ack pieces i piece) w in
        let h = Holds-add_fragment seq ack pieces has wire frames i w piece a.holds at in
        let (full, joined) =
          Holds-whole seq ack pieces (also seq ack pieces i has) (wire + w) e h all in
        let many : leb (length pieces) 1 ≡ false = ground arith in
        rw (many, full)
          (complete-whole (insert seq e frames) i (wire + w) piece e
            (remove-insert seq e frames ∙ a.same_remove) joined h.wire_len)

    -- Fragments of which one is still missing are all kept.
    arrive-waits :
        (before : List Arrival) (has : ℕ → Bool) (wire : ℕ) (frames : Map FrameFragments)
        (missing : ℕ)
        → Assembling seq ack pieces old has wire frames
        → InRange seq ack pieces before
        → missing < length pieces
        → has missing ≡ false
        → member missing before ≡ false
        → (frames' : Map FrameFragments) × ((rest : List Arrival)
            → arrive seq ack pieces (before ++ rest) (record { frames = frames }) ≡ (
                let (b, outs) = arrive seq ack pieces rest (record { frames = frames' }) in
                (b, replicate (length before) none ++ outs)))
          × Assembling seq ack pieces old
              (λ j. member j before || has j)
              (wire + wire_total before)
              frames'
    unfolding arrive
    arrive-waits [] has wire frames missing a ranges lt gone out = (
      frames,
      (λ rest. refl),
      subst (λ n. Assembling seq ack pieces old has n frames) {x = wire} (omega arith) a,
    )
    arrive-waits ((i, w) ∷ before) has wire frames missing a (ilt, ranges) lt gone out =
        let (piece, at) = get_elem?-some pieces i ilt in
        let still : also seq ack pieces i has missing ≡ false = ground arith in
        let absent : member missing before ≡ false = ground arith in
        let (mid, step, a') = insert-Assembling has wire frames i w missing piece a at lt still in
        let (last, rests, a'') =
          arrive-waits before (also seq ack pieces i has) (wire + w) mid missing a' ranges lt still
            absent in
        (
          last,
          (λ rest.
              arrive-cons seq ack pieces i w (before ++ rest) _ _ piece none at step
              ∙ ap (λ (r : FragmentBuffer × List (Option Completed)). (r.0, none ∷ r.1))
                  (rests rest)),
          record {
            holds =
                Holds-same seq ack pieces (λ j. member j before || also seq ack pieces i has j)
                  (λ j. member j ((i, w) ∷ before) || has j) (wire + w + wire_total before)
                  (wire + wire_total ((i, w) ∷ before)) (entry_of seq ack pieces last)
                  (λ j. ground arith) (omega arith) a''.holds;
            same_insert = a''.same_insert;
            same_remove = a''.same_remove;
          },
        )

    -- A frame cut into two or more pieces, whose fragments arrive seq ack pieces in any order and some of them
    -- more than once, is completed by the last one that was missing and not before: every earlier
    -- arrival gives nothing, and that one gives the pieces joined in order, with the length of
    -- all arrivals on the wire. The buffer may hold at most 31 other frames; it then keeps those
    -- that are not older than the frame.
    pub arrive-completes :
        (before : List Arrival) (i w : ℕ)
        → lookup seq old ≡ none
        → InRange seq ack pieces before
        → i < length pieces
        → member i before ≡ false
        → ((j : ℕ) → j < length pieces → j ≢ i → member j before ≡ true)
        → arrive seq ack pieces (before ++ (i, w) ∷ []) (record { frames = old }) ≡ (
          record { frames = prune_superseded seq old },
          replicate (length before) none ++ some (whole (wire_total before + w)) ∷ [],
        )
    unfolding arrive
    arrive-completes before i w gone ranges lt absent others =
        let start : Assembling seq ack pieces old (λ j. false) 0 old = record {
          holds =
              subst (Holds seq ack pieces (λ j. false) 0) (sym (ap (or_fresh seq ack pieces) gone))
                (record { total_frags = refl; wire_len = refl; rising = tt; kept = λ j. refl });
          same_insert = λ e. refl;
          same_remove = remove_absent seq old gone;
        } in
        let (frames, waits, a) =
          arrive-waits before (λ j. false) 0 old i start ranges lt refl absent in
        let (piece, at) = get_elem?-some pieces i lt in
        let has : ℕ → Bool = λ j. member j before || false in
        let all : (j : ℕ) → j < length pieces → also seq ack pieces i has j ≡ true = λ j jl.
          elim (Bool-cases (i == j)) [
            | inl same ↦ rw same refl
            | inr apart ↦ rw (apart, others j jl (λ e. cc (sym e, apart, ==-refl i))) refl
          ] in
        let last = insert-completes has (0 + wire_total before) frames i w piece a at all in
        let sum : 0 + wire_total before + w ≡ wire_total before + w = omega arith in
        waits ((i, w) ∷ [])
        ∙ ap
            (λ (r : FragmentBuffer × List (Option Completed)).
              (r.0, replicate (length before) none ++ r.1))
            (arrive-cons seq ack pieces i w [] _ _ piece _ at last
              ∙ ap (λ n. (record { frames = prune_superseded seq old }, some (whole n) ∷ [])) sum)
