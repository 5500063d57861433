-- ===== src/Server/Session/Delivery.antt =====
-- Whatever datagrams of the reliable stream arrive, in whatever order.
use rumsh.Prelude.{
  ℕ, zero, suc, ◌+◌, ◌-◌, ◌≤◌, ◌<◌, ◌≡◌, ◌⊎◌, refl, sym, ◌∙◌, ap, subst, Bool, true, false, List,
  none, some, ◌==◌, ◌||◌, Map, lookup, insert, lookup-insert, arith, Option-cases, Bool-cases, inl,
  inr, is_some, lt_trichotomy, le→ltb, ==-refl, ==→≡, ≢→==,
}
use rumsh.Protocol.{ClientPayload}
use rumsh.Protocol.Codec.Interface.{PacketCodec}
use rumsh.Server.Interface.{Backend}
use rumsh.Server.Session.Drain.{Genuine, Drained}
use rumsh.Server.Session.InOrder.{deliver, deliver_run, Link}

-- One more number.
abbrev pub also : ℕ → (ℕ → Bool) → ℕ → Bool
also i seen k = (i == k) || seen k

module _ (pc : PacketCodec) (be : Backend) (stream : ℕ → ClientPayload) (start : ℕ)
    (pty0 : be.Pty) where
  deliver_run-append :
      (k n m : ℕ) (pty : be.Pty)
      → deliver_run pc be stream k (n + m) pty
        ≡ deliver_run pc be stream (k + n) m (deliver_run pc be stream k n pty)
  deliver_run-append k zero m pty =
      ap (λ i. deliver_run pc be stream k i pty) {x = 0 + m} {y = m} (omega arith)
      ∙ ap (λ j. deliver_run pc be stream j m pty) {x = k} {y = k + 0} (omega arith)
  deliver_run-append k (suc n) m pty =
      ap (λ i. deliver_run pc be stream k i pty) {x = suc n + m} {y = suc (n + m)} (omega arith)
      ∙ deliver_run-append (suc k) n m (deliver pc be (stream k) pty)
      ∙ ap (λ j. deliver_run pc be stream j m (deliver_run pc be stream k (suc n) pty))
          {x = suc k + n} {y = k + suc n} (omega arith)

  -- A session after the packets `seen` have arrived: `count` of them have reached the PTY, in order
  -- from `start` on, and they are all that have arrived without a gap.
  pub record Flow (seen : ℕ → Bool) (l : Link pc be) : Type 0 where
    pub count : ℕ
    pub expected : l.expected ≡ start + count
    pub ack : l.ack + 1 ≡ l.expected
    pub delivered : l.pty ≡ deliver_run pc be stream start count pty0
    pub genuine : Genuine stream l.buffered
    pub next_missing : lookup l.expected l.buffered ≡ none
    pub kept : (k : ℕ) → seen k ≡ true → (k < l.expected) ⊎ (is_some (lookup k l.buffered) ≡ true)
    pub only : (k : ℕ) → start ≤ k → k < l.expected → seen k ≡ true
    pub buffered_seen : (k : ℕ) → is_some (lookup k l.buffered) ≡ true → seen k ≡ true

  module _ (seen : ℕ → Bool) (l : Link pc be) (f : Flow seen l) (seq : ℕ) where
    pub Flow-duplicate : seq < l.expected → Flow (also seq seen) l
    Flow-duplicate lt = record {
      count = f.count;
      expected = f.expected;
      ack = f.ack;
      delivered = f.delivered;
      genuine = f.genuine;
      next_missing = f.next_missing;
      kept = λ k s. elim (Bool-cases (seq == k)) [
        | inl here ↦ inl (subst (λ n. n < l.expected) (==→≡ seq k here) lt)
        | inr other ↦ f.kept k (ground (arith, s, other))
      ];
      only = λ k lo hi. ground (arith, f.only k lo hi);
      buffered_seen = λ k b. ground (arith, f.buffered_seen k b);
    }

    abbrev pub ahead : Link pc be
    ahead = record l { buffered = insert seq (stream seq) l.buffered }

    pub Flow-ahead : l.expected < seq → Flow (also seq seen) ahead
    Flow-ahead lt = record {
      count = f.count;
      expected = f.expected;
      ack = f.ack;
      delivered = f.delivered;
      genuine = λ k p e. elim (Bool-cases (seq == k)) [
        | inl here ↦
            let same = lookup-insert k seq (stream seq) l.buffered in
            let k_eq = ==→≡ seq k here in cc (same, e, here, ap stream k_eq)
        | inr other ↦
            f.genuine k p (sym (rw other at (lookup-insert k seq (stream seq) l.buffered)) ∙ e)
      ];
      next_missing =
          lookup-insert l.expected seq (stream seq) l.buffered
          ∙ rw (≢→== seq l.expected (omega arith)) f.next_missing;
      kept = λ k s. elim (Bool-cases (seq == k)) [
        | inl here ↦ inr (ap is_some (lookup-insert k seq (stream seq) l.buffered) ∙ rw here refl)
        | inr other ↦ elim (f.kept k (ground (arith, s, other))) [
          | inl done ↦ inl done
          | inr held ↦
              inr (ap is_some (lookup-insert k seq (stream seq) l.buffered) ∙ rw other held)
        ]
      ];
      only = λ k lo hi. ground (arith, f.only k lo hi);
      buffered_seen = λ k b. elim (Bool-cases (seq == k)) [
        | inl here ↦ rw here refl
        | inr other ↦ rw other (
            f.buffered_seen k
              (sym (rw other at (ap is_some (lookup-insert k seq (stream seq) l.buffered))) ∙ b))
      ];
    }

    module _ (r : List (ℕ × ClientPayload) × ℕ × Map ClientPayload)
        (d : Drained stream (l.expected + 1) l.buffered r) where
      abbrev pub advanced : Link pc be
      advanced = record l {
        expected = r.1;
        buffered = r.2;
        ack = r.1 - 1;
        pty = deliver_run pc be stream l.expected (suc d.count) l.pty;
      }

      -- Past the numbers that are taken nothing of the buffer changes.
      Drained-later : (k : ℕ) → l.expected + 1 + d.count ≤ k → lookup k r.2 ≡ lookup k l.buffered
      Drained-later k h =
          d.left k
          ∙ rw (le→ltb k (l.expected + 1) (omega arith))
              (rw (le→ltb k (l.expected + 1 + d.count) h) refl)

      Drained-some :
          (k : ℕ) (p : ClientPayload) → lookup k r.2 ≡ some p → lookup k l.buffered ≡ some p
      Drained-some k p e = ground (arith, d.left k, e)

      pub Flow-in_order : seq ≡ l.expected → Flow (also seq seen) advanced
      Flow-in_order here = record {
        count = f.count + suc d.count;
        expected = d.next ∙ omega (arith, f.expected);
        ack = omega (arith, d.next);
        delivered =
            ap (deliver_run pc be stream l.expected (suc d.count)) f.delivered
            ∙ ap
                (λ e.
                  deliver_run pc be stream e (suc d.count)
                    (deliver_run pc be stream start f.count pty0))
                f.expected
            ∙ sym (deliver_run-append start f.count (suc d.count) pty0);
        genuine = λ k p e. f.genuine k p (Drained-some k p e);
        next_missing = d.next_missing;
        kept = λ k s. elim (lt_trichotomy k r.1) [
          | inl below ↦ inl below
          | inr above ↦
              let high : r.1 ≤ k = elim above [ inl same ↦ omega arith | inr gt ↦ omega arith ] in
              let other : (seq == k) ≡ false = ≢→== seq k (omega (arith, d.next)) in
              elim (f.kept k (ground (arith, s, other))) [
                | inl done ↦ absurd (omega (arith, d.next))
                | inr held ↦ inr (ap is_some (Drained-later k (omega (arith, d.next))) ∙ held)
              ]
        ];
        only = λ k lo hi. elim (lt_trichotomy k l.expected) [
          | inl before ↦ ground (arith, f.only k lo before)
          | inr (inl now) ↦ rw (here ∙ sym now, ==-refl k) refl
          | inr (inr after) ↦ ground (arith, f.buffered_seen k (d.was k (omega arith) hi))
        ];
        buffered_seen = λ k b. elim (Option-cases (lookup k r.2)) [
          | inl gone ↦ cc (b, ap is_some gone)
          | inr (p, found) ↦
              let held = f.buffered_seen k (ap is_some (Drained-some k p found)) in
              ground (arith, held)
        ];
      }
