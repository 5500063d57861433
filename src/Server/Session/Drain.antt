-- ===== src/Server/Session/Drain.antt =====
-- The buffered packets that follow a packet in order.
use rumsh.Prelude.{
  ℕ, zero, suc, ◌+◌, ◌≤◌, ◌<◌, ◌≡◌, refl, sym, ◌∙◌, ap, ap₂, true, List, [], ◌∷◌, none, some,
  length, ltb, ◌==◌, if◌then◌else◌, Map, lookup, remove, lookup-remove, length-remove-le, arith,
  Option-cases, Bool-cases, is_some, ==→≡, inl, inr,
}
use rumsh.Protocol.{ClientPayload}
use rumsh.Server.Session.Packets.{drain}

length-remove-lt :
    {V : Type 0} (k : ℕ) (v : V) (m : Map V) → lookup k m ≡ some v → length (remove k m) < length m
length-remove-lt k v [] e = cc e
length-remove-lt k v ((j, w) ∷ m) e = ground (arith, length-remove-lt k v m, length-remove-le k m)

-- The packets numbered from `k` on, `n` of them.
abbrev pub run_of : (ℕ → ClientPayload) → ℕ → ℕ → List (ℕ × ClientPayload)
run_of stream k zero = []
run_of stream k (suc n) = (k, stream k) ∷ run_of stream (suc k) n

module _ (stream : ℕ → ClientPayload) where
  -- What is buffered is what was sent.
  abbrev pub Genuine : Map ClientPayload → Type 0
  Genuine m = (k : ℕ) (p : ClientPayload) → lookup k m ≡ some p → p ≡ stream k

  -- What the loop takes out, and what it leaves: nothing under the next number.
  pub record Drained (expected : ℕ) (m : Map ClientPayload)
      (r : List (ℕ × ClientPayload) × ℕ × Map ClientPayload) : Type 0 where
    pub count : ℕ
    pub taken : r.0 ≡ run_of stream expected count
    pub next : r.1 ≡ expected + count
    pub next_missing : lookup r.1 r.2 ≡ none
    pub left :
        (k : ℕ)
        → lookup k r.2 ≡ (
            if ltb k expected
            then lookup k m
            else if ltb k (expected + count)
            then none
            else lookup k m)
    pub was : (k : ℕ) → expected ≤ k → k < r.1 → is_some (lookup k m) ≡ true

  Genuine-remove : (i : ℕ) (m : Map ClientPayload) → Genuine m → Genuine (remove i m)
  Genuine-remove i m g k p e = g k p (ground (arith, lookup-remove k i m))

  pub drain-Drained :
      (fuel expected : ℕ) (m : Map ClientPayload)
      → length m ≤ fuel
      → Genuine m
      → Drained expected m (drain fuel expected m)
  unfolding drain
  drain-Drained zero expected [] enough g = record {
    count = 0;
    taken = refl;
    next = omega arith;
    next_missing = refl;
    left = λ k. ground arith;
    was = λ k lo hi. absurd (omega arith);
  }
  drain-Drained zero expected (x ∷ m) enough g = absurd (omega arith)
  drain-Drained (suc fuel) expected m enough g = elim (Option-cases (lookup expected m)) [
    | inl gone ↦
        rw (drain, gone)
          (record {
            count = 0;
            taken = refl;
            next = omega arith;
            next_missing = gone;
            left = λ k. ground arith;
            was = λ k lo hi. absurd (omega arith);
          })
    | inr (p, found) ↦
        let rest =
          drain-Drained fuel (expected + 1) (remove expected m)
            (omega (arith, length-remove-lt expected p m found)) (Genuine-remove expected m g) in
        rw (drain, found)
          (record {
            count = suc rest.count;
            taken =
                ap₂ (λ q qs. (expected, q) ∷ qs) (g expected p found)
                  (rest.taken
                    ∙ ap (λ n. run_of stream n rest.count) {x = expected + 1} {y = suc expected}
                        (omega arith));
            next = rest.next ∙ omega arith;
            next_missing = rest.next_missing;
            left = λ k. ground (arith, rest.left k, lookup-remove k expected m);
            was = λ k lo hi. elim (Bool-cases (expected == k)) [
              | inl here ↦ rw (← ==→≡ expected k here) (ap is_some found)
              | inr later ↦
                  sym (ap is_some (lookup-remove k expected m ∙ rw later refl))
                  ∙ rest.was k (ground arith) hi
            ];
          })
  ]
