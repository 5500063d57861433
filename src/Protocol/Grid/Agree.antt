-- ===== src/Protocol/Grid/Agree.antt =====
-- Lists that already hold the new elements below an index and the old ones from it on: the shape
-- of a screen while `patch` walks over it.
use rumsh.Prelude.{
  ℕ, ◌+◌, ◌≤◌, ◌<◌, ◌≡◌, List, some, ltb, if◌then◌else◌, length, get_elem?, set, length-set,
  get_elem?-none, get_elem?_ext, get_elem?-set_self, get_elem?-set_ne, inl, inr, arith, ◌∙◌, sym,
  lt→ltb, le→ltb, Bool-cases, lt_trichotomy,
}

module _ {ℓ} {A : Type ℓ} (new base : List A) where
  pub record Agrees (p : ℕ) (xs : List A) : Type ℓ where
    pub size : length xs ≡ length new
    pub at : (i : ℕ) → get_elem? xs i ≡ (if ltb i p then get_elem? new i else get_elem? base i)

  pub Agrees-init : length base ≡ length new → Agrees 0 base
  Agrees-init e = record { size = e; at = λ i. ground arith }

  -- The whole list is the new one.
  pub Agrees-all : {p : ℕ} {xs : List A} → length new ≤ p → Agrees p xs → xs ≡ new
  Agrees-all {p} {xs} h a = get_elem?_ext xs new λ i. elim (Bool-cases (ltb i p)) [
    | inl below ↦ a.at i ∙ rw below
    | inr above ↦
        get_elem?-none xs i (ground (arith, a.size)) ∙ sym (get_elem?-none new i (ground arith))
  ]

  -- Nothing to write: the old element is the new one.
  pub Agrees-keep :
      {p : ℕ} {xs : List A} → get_elem? new p ≡ get_elem? base p → Agrees p xs → Agrees (p + 1) xs
  Agrees-keep {p} {xs} e a = record { size = a.size; at = λ i. ground (arith, a.at i) }

  pub Agrees-set :
      {p : ℕ} {xs : List A} (v : A)
      → get_elem? new p ≡ some v
      → p < length new
      → Agrees p xs
      → Agrees (p + 1) (set xs p v)
  Agrees-set {p} {xs} v e h a = record {
    size = length-set xs p v ∙ a.size;
    at = λ i. elim (lt_trichotomy i p) [
      | inl lt ↦
          rw (get_elem?-set_ne xs p i v (λ e. omega arith), a.at i, lt→ltb i p lt)
            (rw (lt→ltb i (p + 1) (omega arith)))
      | inr (inl here) ↦
          rw
            (
              here,
              get_elem?-set_self xs p v (omega (arith, a.size)),
              lt→ltb p (p + 1) (omega arith),
            )
            (sym e)
      | inr (inr gt) ↦
          rw (get_elem?-set_ne xs p i v (λ e. omega arith), a.at i, le→ltb i p (omega arith))
            (rw (le→ltb i (p + 1) (omega arith)))
    ];
  }
