-- ===== src/Server/Session/Stream.antt =====
-- `feed_packet` on the reliable stream.
use rumsh.Prelude.{
  ℕ, suc, ◌+◌, ◌-◌, ◌^◌, ◌<◌, ◌≡◌, ◌≢◌, refl, sym, ◌∙◌, ap, ap₂, subst, Bool, true, false, List, [],
  ◌∷◌, ◌++◌, length, ◌==◌, insert, arith, inl, inr, ok, lt_trichotomy, lt→ltb, le→ltb, ==-refl,
  ≢→==,
}
use rumsh.Protocol.{ClientPayload, EncryptedClientPacket}
use rumsh.Protocol.Codec.Interface.{PacketCodec, CodecStats}
use rumsh.Server.Interface.{Backend}
use rumsh.Server.Session.State.{Session, Action}
use rumsh.Server.Session.Packets.{
  Answer, then_sync, process, finish, drain, in_order_packet, reliable_packet, session_packet,
  opened_packet, feed_packet, is_transient,
}
use rumsh.Server.Session.Queue.{check_sync}
use rumsh.Server.Session.Drain.{run_of, drain-Drained}
use rumsh.Server.Session.InOrder.{
  IsReliable, of_keystrokes, of_resize, of_keep_alive, Link, link, link-check_sync, Replies,
  link-process,
}
use rumsh.Server.Session.Delivery.{Flow, also, Flow-duplicate, Flow-ahead, Flow-in_order}

module _ (pc : PacketCodec) (be : Backend) where
  is_transient-IsReliable :
      (seq : ℕ) (p : ClientPayload) → seq < 2 ^ 63 → IsReliable p → is_transient pc be seq p ≡ false
  is_transient-IsReliable seq _ lt (of_keystrokes keys) = ground arith
  is_transient-IsReliable seq _ lt (of_resize cols rows) = ground arith
  is_transient-IsReliable seq _ lt of_keep_alive = ground arith

module _ (pc : PacketCodec) (stream : ℕ → ClientPayload) where
  -- A datagram that opens to the packet of the stream with its number.
  pub record Carries (c : pc.Codec) (session_id : ℕ) (bytes : List ℕ) (seq : ℕ) : Type 0 where
    pub wire : EncryptedClientPacket
    pub stats : CodecStats
    pub opens : pc.open_client c bytes ≡ ok (wire, stream seq, stats)
    pub number : wire.seq_num ≡ seq
    pub low : seq < 2 ^ 63
    pub session : wire.session_id ≡ session_id

module _ (pc : PacketCodec) (be : Backend) (replies : Replies pc be) (stream : ℕ → ClientPayload)
    (rel : (k : ℕ) → IsReliable (stream k)) (start : ℕ) (pty0 : be.Pty) where
  -- What one datagram does: it succeeds, and the flow goes on with one more number seen.
  pub record Step (seen : ℕ → Bool) (seq : ℕ) (s : Session pc be) (a : Answer pc be) : Type 0 where
    pub session : Session pc be
    pub actions : List (Action pc be)
    pub made : a ≡ (session, ok actions)
    pub flow : Flow pc be stream start pty0 (also seq seen) (link pc be session)
    pub same_session : session.session_id ≡ s.session_id
    pub same_codec : session.codec ≡ s.codec

  module _ (seen : ℕ → Bool) (s : Session pc be)
      (f : Flow pc be stream start pty0 seen (link pc be s)) (wire : EncryptedClientPacket)
      (now : ℕ) where
    in_order_packet-Step :
        wire.seq_num ≡ s.expected_client_seq
        → Step seen wire.seq_num s (in_order_packet pc be s wire (stream wire.seq_num) now)
    unfolding in_order_packet finish then_sync
    in_order_packet-Step here =
        let buf = s.out_of_order_packets in
        let r = drain (length buf) (s.expected_client_seq + 1) buf in
        let d =
          drain-Drained stream (length buf) (s.expected_client_seq + 1) buf (omega arith)
            f.genuine in
        let received = record s {
          expected_client_seq = r.1;
          out_of_order_packets = r.2;
          ack_seq_num = r.1 - 1;
          client_ack_seq = wire.ack_seq_num;
        } in
        let packets : (wire.seq_num, stream wire.seq_num) ∷ r.0
            ≡ run_of stream s.expected_client_seq (suc d.count) =
          ap₂ (λ k ps. (k, stream k) ∷ ps) here
            (d.taken
              ∙ ap (λ k. run_of stream k d.count) {x = s.expected_client_seq + 1}
                  {y = suc s.expected_client_seq} (omega arith)) in
        let (s1, actions, e, l1) =
          link-process pc be stream rel replies (suc d.count) s.expected_client_seq received in
        let s2 = (check_sync pc be s1 now).0 in
        let l2 = link-check_sync pc be s1 now ∙ l1 in
        record {
          session = s2;
          actions = actions ++ (check_sync pc be s1 now).1;
          made = ap (λ a. finish pc be a now) (ap (λ ps. process pc be ps received) packets ∙ e);
          flow =
              subst (Flow pc be stream start pty0 (also wire.seq_num seen)) (sym l2)
                (Flow-in_order pc be stream start pty0 seen (link pc be s) f wire.seq_num r d here);
          same_session = ap (λ (m : Link pc be). m.session_id) l2;
          same_codec = ap (λ (m : Link pc be). m.codec) l2;
        }

    reliable_packet-Step :
        Step seen wire.seq_num s (reliable_packet pc be s wire (stream wire.seq_num) now)
    unfolding reliable_packet
    reliable_packet-Step = elim (lt_trichotomy wire.seq_num s.expected_client_seq) [
      | inl late ↦ rw (lt→ltb wire.seq_num s.expected_client_seq late) (record {
        session = s;
        actions = [];
        made = refl;
        flow = Flow-duplicate pc be stream start pty0 seen (link pc be s) f wire.seq_num late;
        same_session = refl;
        same_codec = refl;
      })
      | inr (inl here) ↦
          rw
            (
              le→ltb wire.seq_num s.expected_client_seq (omega arith),
              le→ltb s.expected_client_seq wire.seq_num (omega arith),
            )
            (in_order_packet-Step here)
      | inr (inr early) ↦
          rw
            (
              le→ltb wire.seq_num s.expected_client_seq (omega arith),
              lt→ltb s.expected_client_seq wire.seq_num early,
            )
            (record {
              session = record s {
                out_of_order_packets =
                    insert wire.seq_num (stream wire.seq_num) s.out_of_order_packets;
              };
              actions = [];
              made = refl;
              flow = Flow-ahead pc be stream start pty0 seen (link pc be s) f wire.seq_num early;
              same_session = refl;
              same_codec = refl;
            })
    ]

  session_packet-Step :
      (seen : ℕ → Bool) (s : Session pc be)
      → Flow pc be stream start pty0 seen (link pc be s)
      → (wire : EncryptedClientPacket) (src_addr now : ℕ) → wire.seq_num < 2 ^ 63
      → Step seen wire.seq_num s (session_packet pc be s wire (stream wire.seq_num) src_addr now)
  unfolding session_packet
  session_packet-Step seen s f wire src_addr now low =
      let heard = record s { last_recv_time = now; current_client_addr = src_addr } in
      let step = reliable_packet-Step seen heard f wire now in
      rw (is_transient-IsReliable pc be wire.seq_num (stream wire.seq_num) low (rel wire.seq_num))
        (record {
          session = step.session;
          actions = step.actions;
          made = step.made;
          flow = step.flow;
          same_session = step.same_session;
          same_codec = step.same_codec;
        })

  pub feed_packet-Step :
      (seen : ℕ → Bool) (s : Session pc be) (bytes : List ℕ) (seq src_addr now : ℕ)
      → Flow pc be stream start pty0 seen (link pc be s)
      → s.session_id ≢ 0
      → Carries pc stream s.codec s.session_id bytes seq
      → Step seen seq s (feed_packet pc be s bytes src_addr now)
  unfolding feed_packet opened_packet
  feed_packet-Step seen s bytes seq src_addr now f live c =
      let opened : pc.open_client s.codec bytes ≡ ok (c.wire, stream c.wire.seq_num, c.stats) =
        c.opens ∙ ap (λ k. ok (c.wire, stream k, c.stats)) (sym c.number) in
      let not_first : (c.wire.session_id == 0) ≡ false =
        ≢→== c.wire.session_id 0 (λ e. live (sym c.session ∙ e)) in
      let ours : (c.wire.session_id == s.session_id) ≡ true =
        ap (λ k. k == s.session_id) c.session ∙ ==-refl s.session_id in
      subst (λ k. Step seen k s (feed_packet pc be s bytes src_addr now)) c.number
        (rw opened (
          rw (not_first, ours)
            (session_packet-Step seen s f c.wire src_addr now
              (subst (λ k. k < 2 ^ 63) (sym c.number) c.low))))
