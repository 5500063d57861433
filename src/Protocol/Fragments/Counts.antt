-- ===== src/Protocol/Fragments/Counts.antt =====
-- How many entries a map with keys in a range has, and what `insert` on the same key does.
use rumsh.Prelude.{
  ℕ, suc, ◌-◌, ◌≤◌, ◌<◌, ◌≡◌, ◌≢◌, refl, sym, ◌∙◌, true, [], ◌∷◌, none, some, length, is_some, Map,
  lookup, insert, remove, Rising, lookup_below, arith, lt_trichotomy, inl, inr, ==-refl, ap,
}

module _ {V : Type 0} where
  pub insert-insert : (k : ℕ) (v w : V) (m : Map V) → insert k v (insert k w m) ≡ insert k v m
  insert-insert k v w [] = ground arith
  insert-insert k v w ((j, u) ∷ m) = ground (arith, insert-insert k v w m)

  pub remove-insert : (k : ℕ) (v : V) (m : Map V) → remove k (insert k v m) ≡ remove k m
  remove-insert k v [] = ground arith
  remove-insert k v ((j, u) ∷ m) = ground (arith, remove-insert k v m)

  pub remove_absent : (k : ℕ) (m : Map V) → lookup k m ≡ none → remove k m ≡ m
  remove_absent k [] gone = refl
  remove_absent k ((j, u) ∷ m) gone = ground (arith, remove_absent k m)

  -- The other keys of a map with a head entry are those of its tail.
  lookup_tail : (j k : ℕ) (v : V) (m : Map V) → k ≢ j → lookup k ((j, v) ∷ m) ≡ lookup k m
  lookup_tail j k v m ne = ground arith

  head_key : (j : ℕ) (v : V) (m : Map V) → lookup j ((j, v) ∷ m) ≡ some v
  head_key j v m = rw (==-refl j)

  abbrev pub EndsBy : ℕ → Map V → Type 0
  EndsBy hi m = (k : ℕ) → hi ≤ k → lookup k m ≡ none

  head_below : (j hi : ℕ) (v : V) (m : Map V) → EndsBy hi ((j, v) ∷ m) → j < hi
  head_below j hi v m e = elim (lt_trichotomy j hi) [
    | inl lt ↦ lt
    | inr (inl same) ↦ cc (sym (head_key j v m) ∙ e j (omega arith))
    | inr (inr gt) ↦ cc (sym (head_key j v m) ∙ e j (omega arith))
  ]

  tail_ends : (j hi : ℕ) (v : V) (m : Map V) → j < hi → EndsBy hi ((j, v) ∷ m) → EndsBy hi m
  tail_ends j hi v m lt e k h = sym (lookup_tail j k v m (omega arith)) ∙ e k h

  pub length-le-span : (lo hi : ℕ) (m : Map V) → Rising lo m → EndsBy hi m → length m ≤ hi - lo
  length-le-span lo hi [] r e = omega arith
  length-le-span lo hi ((j, v) ∷ m) (b, r) e =
      let lt = head_below j hi v m e in
      let rest = length-le-span (suc j) hi m r (tail_ends j hi v m lt e) in omega (arith, rest, lt)

  -- A missing key makes the map shorter than its range.
  pub length-lt-span :
      (lo hi k : ℕ) (m : Map V)
      → Rising lo m
      → EndsBy hi m
      → lo ≤ k
      → k < hi
      → lookup k m ≡ none
      → length m < hi - lo
  length-lt-span lo hi k [] r e hk lk gone = omega arith
  length-lt-span lo hi k ((j, v) ∷ m) (b, r) e hk lk gone =
      let lt = head_below j hi v m e in
      let ends = tail_ends j hi v m lt e in
      elim (lt_trichotomy k j) [
        | inl below ↦ omega (arith, length-le-span (suc j) hi m r ends, lt)
        | inr (inl same) ↦
            cc (sym (head_key j v m) ∙ ap (λ i. lookup i ((j, v) ∷ m)) (sym same) ∙ gone)
        | inr (inr above) ↦ omega (
          arith,
          lt,
          length-lt-span (suc j) hi k m r ends (omega arith) lk
              (sym (lookup_tail j k v m (omega arith)) ∙ gone),
        )
      ]

  -- With every key of the range it is as long as the range.
  pub length-ge-span :
      (lo hi : ℕ) (m : Map V)
      → Rising lo m
      → ((k : ℕ) → lo ≤ k → k < hi → is_some (lookup k m) ≡ true)
      → hi - lo ≤ length m
  length-ge-span lo hi [] r all = elim (lt_trichotomy lo hi) [
    | inl lt ↦ cc (all lo (omega arith) lt)
    | inr (inl same) ↦ omega arith
    | inr (inr gt) ↦ omega arith
  ]
  length-ge-span lo hi ((j, v) ∷ m) (b, r) all =
      let rest =
        length-ge-span (suc j) hi m r (λ k h lt.
          sym (ap is_some (lookup_tail j k v m (omega arith))) ∙ all k (omega arith) lt) in
      elim (lt_trichotomy lo j) [
        | inl above ↦ elim (lt_trichotomy lo hi) [
          | inl lt ↦
              cc (all lo (omega arith) lt, lookup_below lo j ((j, v) ∷ m) above (omega arith, r))
          | inr (inl same) ↦ omega arith
          | inr (inr gt) ↦ omega arith
        ]
        | inr (inl same) ↦ omega (arith, rest)
        | inr (inr gt) ↦ omega arith
      ]
