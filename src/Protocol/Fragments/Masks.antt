-- ===== src/Protocol/Fragments/Masks.antt =====
-- The masks that a client sends for the frames it has not got whole.
use rumsh.Prelude.{
  ℕ, zero, suc, ◌/◌, ◌%◌, ◌<◌, ◌≡◌, ◌≢◌, ◌⊎◌, refl, sym, subst, ◌∙◌, ap, ap₂, Bool, true, false,
  ◌||◌, List, [], ◌∷◌, Option, none, some, is_some, length, get_elem?, set, length-set, replicate,
  length-replicate, get_elem?-replicate, get_elem?-some, get_elem?-set_self, get_elem?-set_ne, Map,
  lookup, leb, ◌==◌, arith, inl, inr, Bool-cases, lt_trichotomy, ≢→==,
}
use rumsh.Protocol.Fragments.{
  FrameFragments, FragmentBuffer, mark_received, div_ceil, incomplete, get_incomplete_frames,
}
use rumsh.Protocol.Fragments.Bits.{or_bit, has_bit, has_bit-or_bit}

-- `(mask[i / 64] & (1 << (i % 64))) != 0`, and false out of range.
abbrev pub bit_in : Option ℕ → ℕ → Bool
bit_in none b = false
bit_in (some word) b = has_bit word b

abbrev pub bit_of : List ℕ → ℕ → Bool
bit_of mask i = bit_in (get_elem? mask (i / 64)) (i % 64)

abbrev marked : List ℕ → ℕ → Option ℕ → List ℕ
marked mask idx none = mask
marked mask idx (some word) = set mask (idx / 64) (or_bit word (idx % 64))

abbrev mark : List ℕ → ℕ → List ℕ
mark mask idx = marked mask idx (get_elem? mask (idx / 64))

same_place : (i j : ℕ) → i / 64 ≡ j / 64 → (i % 64 == j % 64) ≡ (i == j)
same_place i j q = ground arith

-- A fragment of another word leaves the bit alone.
bit_of-marked_apart :
    (mask : List ℕ) (idx i : ℕ) (o : Option ℕ)
    → idx / 64 ≢ i / 64
    → bit_of (marked mask idx o) i ≡ ((idx == i) || bit_of mask i)
bit_of-marked_apart mask idx i none ne =
    ap (λ b. b || bit_of mask i) (sym (≢→== idx i (λ e. ne (ap (λ n. n / 64) e))))
bit_of-marked_apart mask idx i (some word) ne =
    ap (λ o. bit_in o (i % 64))
      (get_elem?-set_ne mask (idx / 64) (i / 64) (or_bit word (idx % 64)) ne)
    ∙ ap (λ b. b || bit_of mask i) (sym (≢→== idx i (λ e. ne (ap (λ n. n / 64) e))))

bit_of-marked_here :
    (mask : List ℕ) (idx i word : ℕ)
    → i / 64 < length mask
    → idx / 64 ≡ i / 64
    → get_elem? mask (i / 64) ≡ some word
    → bit_of (marked mask idx (some word)) i ≡ ((idx == i) || bit_of mask i)
bit_of-marked_here mask idx i word lt same found =
    let written : get_elem? (set mask (idx / 64) (or_bit word (idx % 64))) (i / 64)
        ≡ some (or_bit word (idx % 64)) =
      ap (λ k. get_elem? (set mask k (or_bit word (idx % 64))) (i / 64)) same
      ∙ get_elem?-set_self mask (i / 64) (or_bit word (idx % 64)) lt in
    ap (λ o. bit_in o (i % 64)) written
    ∙ has_bit-or_bit word (idx % 64) (i % 64)
    ∙ ap₂ ◌||◌ (same_place idx i same) (sym (ap (λ o. bit_in o (i % 64)) found))

bit_of-mark :
    (mask : List ℕ) (idx i : ℕ)
    → i / 64 < length mask
    → bit_of (mark mask idx) i ≡ ((idx == i) || bit_of mask i)
bit_of-mark mask idx i lt =
    let (word, found) = get_elem?-some mask (i / 64) lt in
    elim (lt_trichotomy (idx / 64) (i / 64)) [
      | inl below ↦ bit_of-marked_apart mask idx i (get_elem? mask (idx / 64)) (omega arith)
      | inr (inr above) ↦ bit_of-marked_apart mask idx i (get_elem? mask (idx / 64)) (omega arith)
      | inr (inl same) ↦
          ap (λ o. bit_of (marked mask idx o) i) (ap (get_elem? mask) same ∙ found)
          ∙ bit_of-marked_here mask idx i word lt same found
    ]

length-mark : (mask : List ℕ) (idx : ℕ) (o : Option ℕ) → length (marked mask idx o) ≡ length mask
length-mark mask idx none = refl
length-mark mask idx (some word) = length-set mask (idx / 64) (or_bit word (idx % 64))

or_head :
    (i idx : ℕ) (piece : List ℕ) (frags : Map (List ℕ)) (b : Bool)
    → (is_some (lookup i frags) || ((idx == i) || b))
      ≡ (is_some (lookup i ((idx, piece) ∷ frags)) || b)
or_head i idx piece frags b = ground arith

has_bit-zero : (b : ℕ) → has_bit 0 b ≡ false
unfolding has_bit
has_bit-zero zero = refl
has_bit-zero (suc b) = has_bit-zero b

bit_of-mark_received :
    (frags : Map (List ℕ)) (mask : List ℕ) (i : ℕ)
    → i / 64 < length mask
    → bit_of (mark_received frags mask) i ≡ (is_some (lookup i frags) || bit_of mask i)
unfolding mark_received
bit_of-mark_received [] mask i lt = refl
bit_of-mark_received ((idx, piece) ∷ frags) mask i lt =
    let size = length-mark mask idx (get_elem? mask (idx / 64)) in
    let rest = bit_of-mark_received frags (mark mask idx) i (omega (arith, size)) in
    let step = bit_of-mark mask idx i lt in
    rest ∙ ap (λ b. is_some (lookup i frags) || b) step ∙ or_head i idx piece frags (bit_of mask i)

-- A pair is in the answer.
abbrev pub Asked : ℕ → List ℕ → List (ℕ × List ℕ) → Type 0
Asked seq mask [] = ⊥
Asked seq mask ((k, m) ∷ rest) = ((k ≡ seq) × (m ≡ mask)) ⊎ Asked seq mask rest

abbrev pub Holding : ℕ → FrameFragments → Map FrameFragments → Type 0
Holding seq e [] = ⊥
Holding seq e ((k, v) ∷ rest) = ((k ≡ seq) × (v ≡ e)) ⊎ Holding seq e rest

-- What a mask says of an entry that is not whole.
pub record Describes (mask : List ℕ) (e : FrameFragments) : Type 0 where
  pub missing : length e.fragments < e.total_frags
  pub bits : (i : ℕ) → i < e.total_frags → bit_of mask i ≡ is_some (lookup i e.fragments)

or_false : (b : Bool) → (b || false) ≡ b
or_false true = refl
or_false false = refl

fresh_mask-Describes :
    (e : FrameFragments)
    → length e.fragments < e.total_frags
    → Describes (mark_received e.fragments (replicate (div_ceil e.total_frags 64) 0)) e
fresh_mask-Describes e less = record {
  missing = less;
  bits = λ i lt.
      let words = div_ceil e.total_frags 64 in
      let inside : i / 64 < words = omega arith in
      bit_of-mark_received e.fragments (replicate words 0) i
        (omega (arith, inside, length-replicate {A = ℕ} words 0))
      ∙ ap (λ b. is_some (lookup i e.fragments) || b)
          (ap (λ o. bit_in o (i % 64)) (get_elem?-replicate words 0 (i / 64) inside)
            ∙ has_bit-zero (i % 64))
      ∙ or_false (is_some (lookup i e.fragments));
}

incomplete_head :
    (k : ℕ) (e : FrameFragments) (m : Map FrameFragments) (seq : ℕ) (mask : List ℕ)
    → length e.fragments < e.total_frags
    → (Asked seq mask (incomplete m) → (e' : FrameFragments) × Holding seq e' m × Describes mask e')
    → Asked seq mask
        ((k, mark_received e.fragments (replicate (div_ceil e.total_frags 64) 0)) ∷ incomplete m)
    → (e' : FrameFragments) × Holding seq e' ((k, e) ∷ m) × Describes mask e'
incomplete_head k e m seq mask less tail (inl (ek, em)) =
    (e, inl (ek, refl), subst (λ n. Describes n e) em (fresh_mask-Describes e less))
incomplete_head k e m seq mask less tail (inr later) =
    let (e', held, d) = tail later in (e', inr held, d)

incomplete-Describes :
    (m : Map FrameFragments) (seq : ℕ) (mask : List ℕ)
    → Asked seq mask (incomplete m)
    → (e : FrameFragments) × Holding seq e m × Describes mask e
unfolding incomplete
incomplete-Describes [] seq mask asked = absurd asked
incomplete-Describes ((k, e) ∷ m) seq mask asked =
    elim (Bool-cases (e.total_frags == 0 || leb e.total_frags (length e.fragments))) [
      | inl whole ↦
          let (e', held, d) = incomplete-Describes m seq mask (rw whole at asked) in
          (e', inr held, d)
      | inr partial ↦
          incomplete_head k e m seq mask (ground arith) (incomplete-Describes m seq mask)
            (rw partial at asked)
    ]

-- Each mask that is sent is that of a frame in the buffer of which a fragment is missing, and its bit
-- for a fragment is set if and only if the fragment has arrived.
pub get_incomplete_frames-Describes :
    (b : FragmentBuffer) (seq : ℕ) (mask : List ℕ)
    → Asked seq mask (get_incomplete_frames b)
    → (e : FrameFragments) × Holding seq e b.frames × Describes mask e
unfolding get_incomplete_frames
get_incomplete_frames-Describes b seq mask asked = incomplete-Describes b.frames seq mask asked
