-- ===== src/Server/Session/Reliable.antt =====
-- Any number of datagrams of the reliable stream, from a new session on.
use rumsh.Prelude.{
  ℕ, ◌+◌, ◌≤◌, ◌<◌, ◌≡◌, ◌≢◌, refl, sym, ◌∙◌, ap, subst, Bool, true, false, List, [], ◌∷◌, ◌++◌,
  ◌==◌, ◌||◌, lookup, arith, inl, inr, ok, err, is_some, Bool-cases,
}
use rumsh.Protocol.{ClientPayload}
use rumsh.Protocol.Codec.Interface.{PacketCodec}
use rumsh.Server.Interface.{Backend}
use rumsh.Server.Session.State.{Session, Action, new}
use rumsh.Server.Session.Packets.{Answer, add_actions, feed_packet}
use rumsh.Server.Session.InOrder.{IsReliable, deliver_run, Link, link, Replies}
use rumsh.Server.Session.Delivery.{Flow, also}
use rumsh.Server.Session.Stream.{Carries, feed_packet-Step}

-- A datagram as it arrives, and the number of the packet in it.
pub record Datagram : Type 0 where
  pub bytes : List ℕ
  pub seq : ℕ
  pub src_addr : ℕ
  pub now : ℕ

-- The packet number `k` is among those that arrived.
abbrev pub arrived : List Datagram → ℕ → Bool
arrived [] k = false
arrived (d ∷ ds) k = (d.seq == k) || arrived ds k

abbrev seen_after : List Datagram → (ℕ → Bool) → ℕ → Bool
seen_after [] seen = seen
seen_after (d ∷ ds) seen = seen_after ds (also d.seq seen)

seen_after-arrived :
    (ds : List Datagram) (seen : ℕ → Bool) (k : ℕ) → seen_after ds seen k ≡ (arrived ds k || seen k)
seen_after-arrived [] seen k = refl
seen_after-arrived (d ∷ ds) seen k =
    let rest = seen_after-arrived ds (also d.seq seen) k in ground (arith, rest)

module _ (pc : PacketCodec) (be : Backend) where
  -- The next datagram, unless this one failed.
  abbrev and_then : Answer pc be → (Session pc be → Answer pc be) → Answer pc be
  and_then (s, err e) next = (s, err e)
  and_then (s, ok actions) next = add_actions pc be actions (next s)

  unfoldable pub feed_all : List Datagram → Session pc be → Answer pc be
  feed_all [] s = (s, ok [])
  feed_all (d ∷ ds) s = and_then (feed_packet pc be s d.bytes d.src_addr d.now) (feed_all ds)

module _ (pc : PacketCodec) (stream : ℕ → ClientPayload) where
  -- Each datagram opens to the packet of the stream with its number.
  abbrev pub CarriesAll : pc.Codec → ℕ → List Datagram → Type 0
  CarriesAll c session_id [] = Unit
  CarriesAll c session_id (d ∷ ds) =
      Carries pc stream c session_id d.bytes d.seq × CarriesAll c session_id ds

module _ (pc : PacketCodec) (be : Backend) (stream : ℕ → ClientPayload) (start : ℕ) (pty0 : be.Pty)
    (seen : ℕ → Bool) (l : Link pc be) (f : Flow pc be stream start pty0 seen l) where
  -- The next number has not arrived.
  Flow-gap : seen (start + f.count) ≡ false
  Flow-gap = elim (Bool-cases (seen (start + f.count))) [
    | inr unseen ↦ unseen
    | inl came ↦ elim (f.kept (start + f.count) came) [
      | inl lower ↦ absurd (omega (arith, f.expected))
      | inr held ↦ cc (held, ap is_some f.next_missing, ap (λ k. lookup k l.buffered) f.expected)
    ]
  ]

module _ (pc : PacketCodec) (be : Backend) (replies : Replies pc be) (stream : ℕ → ClientPayload)
    (rel : (k : ℕ) → IsReliable (stream k)) where
  feed_all-Flow :
      (start : ℕ) (pty0 : be.Pty) (ds : List Datagram) (seen : ℕ → Bool) (s : Session pc be)
      → Flow pc be stream start pty0 seen (link pc be s)
      → s.session_id ≢ 0
      → CarriesAll pc stream s.codec s.session_id ds
      → (s' : Session pc be) × (actions : List (Action pc be)) × (feed_all pc be ds s
          ≡ (s', ok actions))
        × Flow pc be stream start pty0 (seen_after ds seen) (link pc be s')
  unfolding feed_all
  feed_all-Flow start pty0 [] seen s f live c = (s, [], refl, f)
  feed_all-Flow start pty0 (d ∷ ds) seen s f live (c, cs) =
      let step =
        feed_packet-Step pc be replies stream rel start pty0 seen s d.bytes d.seq d.src_addr d.now f
          live c in
      let (s', actions, e, f') =
        feed_all-Flow start pty0 ds (also d.seq seen) step.session step.flow
          (λ z. live (sym step.same_session ∙ z))
          (subst (λ k. CarriesAll pc stream k step.session.session_id ds) (sym step.same_codec)
            (subst (λ k. CarriesAll pc stream s.codec k ds) (sym step.same_session) cs)) in
      (
        s',
        step.actions ++ actions,
        ap (λ a. and_then pc be a (feed_all pc be ds)) step.made
            ∙ ap (add_actions pc be step.actions) e,
        f',
      )

  -- The reliable packets of a client, numbered from `start + 1` on, sent any number of times and
  -- arriving in any order: no datagram fails; the PTY has had the payloads of the first `n` of
  -- them, each once and in order, where `n` is the number of packets that have arrived without a
  -- gap; and the session acknowledges the last of those. A reply to a keep-alive can always be
  -- sealed, the session's id is not 0, and the numbers stay below 2^63.
  pub feed_all-delivers :
      (session_id : ℕ) (codec : pc.Codec) (start addr : ℕ) (term : be.Term) (pty : be.Pty) (now : ℕ)
      (ds : List Datagram)
      → session_id ≢ 0
      → CarriesAll pc stream codec session_id ds
      → (s : Session pc be) × (actions : List (Action pc be)) × (n : ℕ) × (feed_all pc be ds
            (new pc be session_id codec start addr term pty now)
          ≡ (s, ok actions))
        × (s.pty ≡ deliver_run pc be stream (start + 1) n pty)
        × (s.ack_seq_num ≡ start + n)
        × (arrived ds (start + 1 + n) ≡ false)
        × ((k : ℕ) → start < k → k ≤ start + n → arrived ds k ≡ true)
  unfolding new
  feed_all-delivers session_id codec start addr term pty now ds live c =
      let none_seen : ℕ → Bool = λ k. false in
      let s0 = new pc be session_id codec start addr term pty now in
      let f0 : Flow pc be stream (start + 1) pty none_seen (link pc be s0) = record {
        count = 0;
        expected = omega arith;
        ack = refl;
        delivered = refl;
        genuine = λ k p e. cc e;
        next_missing = refl;
        kept = λ k e. cc e;
        only = λ k lo hi. absurd (omega arith);
        buffered_seen = λ k e. cc e;
      } in
      let (s, actions, e, f) = feed_all-Flow (start + 1) pty ds none_seen s0 f0 live c in
      let seen = seen_after ds none_seen in
      let came : (k : ℕ) → seen k ≡ arrived ds k =
        λ k. seen_after-arrived ds none_seen k ∙ ground arith in
      (
        s,
        actions,
        f.count,
        e,
        f.delivered,
        omega (arith, f.expected, f.ack),
        sym (came (start + 1 + f.count))
            ∙ Flow-gap pc be stream (start + 1) pty seen (link pc be s) f,
        λ k lo hi. sym (came k) ∙ f.only k (omega arith) (omega (arith, f.expected)),
      )
