-- ===== src/Sync/Kept.antt =====
-- What every step of a run of server and client keeps (src/server/session.rs,
-- src/client/session.rs), and the server's steps.
use rumsh.Prelude.{
  ℕ, ◌+◌, ◌*◌, ◌≤◌, ◌<◌, ◌≡◌, ◌⊎◌, refl, sym, subst, ◌∙◌, ap, false, List, [], ◌∷◌, ok, arith, inl,
  inr,
}
use rumsh.Protocol.{ServerPayload}
use rumsh.Protocol.Grid.{GridState, FrameUpdate, diff_from, u16_mod}
use rumsh.Protocol.Grid.Roundtrip.Bases.{IsValid}
use rumsh.Protocol.Codec.Interface.{PacketCodec}
use rumsh.Client.Floats.{F32}
use rumsh.Server.Interface.{Backend}
use rumsh.Server.Session.State.{Session, UpdateJob, offload_diff_job}
use rumsh.Server.Session.Queue.{queue_frame}
use rumsh.Sync.Histories.{Knows, Faithful}
use rumsh.Sync.Frames.{LeadsTo, queue_next, queued_job-LeadsTo}
use rumsh.Sync.Hearing.{is_frame}
use rumsh.Sync.Numbers.{Within}
use rumsh.Sync.Queueing.{queue_frame-Knows, queue_frame-Refers}
use rumsh.Sync.World.{IsSent, IsFrameSent, IsAcked, World}

-- The reference is none, or a frame that the client has acknowledged and at most six numbers old.
abbrev pub IsRecent : List (ℕ × ServerPayload) → List ℕ → ℕ → ℕ → Type 0
IsRecent sent acks n ref_seq =
    (ref_seq ≡ 0) ⊎ (IsAcked ref_seq acks × IsFrameSent ref_seq sent × (n ≤ ref_seq + 6))

IsRecent-sent :
    (sent : List (ℕ × ServerPayload)) (m : ℕ × ServerPayload) (acks : List ℕ) (n ref_seq : ℕ)
    → IsRecent sent acks n ref_seq
    → IsRecent (m ∷ sent) acks n ref_seq
IsRecent-sent sent m acks n ref_seq (inl none_is) = inl none_is
IsRecent-sent sent m acks n ref_seq (inr (acked, (u, was), near)) = inr (acked, (u, inr was), near)

pub IsRecent-acks :
    (sent : List (ℕ × ServerPayload)) (a : ℕ) (acks : List ℕ) (n ref_seq : ℕ)
    → IsRecent sent acks n ref_seq
    → IsRecent sent (a ∷ acks) n ref_seq
IsRecent-acks sent a acks n ref_seq (inl none_is) = inl none_is
IsRecent-acks sent a acks n ref_seq (inr (acked, was, near)) = inr (inr acked, was, near)

module _ (f32 : F32) (pc : PacketCodec) (be : Backend) (queued : ℕ → GridState) where
  pub record Kept (w : World f32 pc be) : Type 0 where
    pub server : Faithful queued w.server.state_history
    pub client : Faithful queued w.client.state_history
    pub rising : Within 0 w.client.state_history w.client.ack_seq_num
    pub kept_sent :
        (n : ℕ) (g : GridState) → Knows w.server.state_history n g → IsFrameSent n w.sent
    pub numbers : (n : ℕ) (p : ServerPayload) → IsSent n p w.sent → (0 < n) × (n ≤ w.server.seq_num)
    pub one_each : (n : ℕ) (p q : ServerPayload) → IsSent n p w.sent → IsSent n q w.sent → p ≡ q
    pub leads :
        (n : ℕ) (u : FrameUpdate) → IsSent n (ServerPayload.frame u) w.sent → LeadsTo queued n u
    pub recent :
        (n : ℕ) (u : FrameUpdate)
        → IsSent n (ServerPayload.frame u) w.sent
        → IsRecent w.sent w.acks n u.ref_seq
    pub acked : (a : ℕ) → IsAcked a w.acks → (a ≤ w.client.ack_seq_num) × (a ≤ w.server.seq_num)
    pub heard : w.client.ack_seq_num ≤ w.server.seq_num
    pub latest : (w.client.ack_seq_num ≡ 0) ⊎ IsAcked w.client.ack_seq_num w.acks
    pub answered : (w.server.client_ack_seq ≡ 0) ⊎ IsAcked w.server.client_ack_seq w.acks
    pub remembered :
        (a : ℕ)
        → IsAcked a w.acks
        → IsFrameSent a w.sent
        → w.client.ack_seq_num < a + 199
        → (g : GridState) × Knows w.client.state_history a g

  module _ (w : World f32 pc be) (k : Kept w) (s : Session pc be) where
    next_one :
        (p : ServerPayload) (n : ℕ) (q r : ServerPayload)
        → IsSent n q ((w.server.seq_num + 1, p) ∷ w.sent)
        → IsSent n r ((w.server.seq_num + 1, p) ∷ w.sent)
        → q ≡ r
    next_one p n q r (inl (en, eq)) (inl (en', eq')) = sym eq ∙ eq'
    next_one p n q r (inl (en, eq)) (inr m) = absurd (omega (arith, (k.numbers n r m).1))
    next_one p n q r (inr m) (inl (en, eq)) = absurd (omega (arith, (k.numbers n q m).1))
    next_one p n q r (inr m) (inr m') = k.one_each n q r m m'

    -- A payload is sent under the next number.
    pub send-Kept :
        (p : ServerPayload)
        → s.seq_num ≡ w.server.seq_num + 1
        → s.client_ack_seq ≡ w.server.client_ack_seq
        → Faithful queued s.state_history
        → ((n : ℕ) (g : GridState)
            → Knows s.state_history n g
            → IsFrameSent n ((w.server.seq_num + 1, p) ∷ w.sent))
        → ((u : FrameUpdate)
            → p ≡ ServerPayload.frame u
            → LeadsTo queued (w.server.seq_num + 1) u
              × IsRecent w.sent w.acks (w.server.seq_num + 1) u.ref_seq)
        → Kept (record w { server = s; sent = (w.server.seq_num + 1, p) ∷ w.sent })
    send-Kept p next same_ack faithful history frame = record {
      server = faithful;
      client = k.client;
      rising = k.rising;
      kept_sent = history;
      numbers = λ n q m. elim m [
        | inl (en, eq) ↦ (omega arith, omega arith)
        | inr old ↦ let (pos, below) = k.numbers n q old in (pos, omega arith)
      ];
      one_each = next_one p;
      leads = λ n u m. elim m [
        | inl (en, eq) ↦ subst (λ j. LeadsTo queued j u) en (frame u eq).0
        | inr old ↦ k.leads n u old
      ];
      recent = λ n u m.
          IsRecent-sent w.sent (w.server.seq_num + 1, p) w.acks n u.ref_seq
            (elim m [
              | inl (en, eq) ↦ subst (λ j. IsRecent w.sent w.acks j u.ref_seq) en (frame u eq).1
              | inr old ↦ k.recent n u old
            ]);
      acked = λ a m. let (low, below) = k.acked a m in (low, omega arith);
      heard = omega (arith, k.heard);
      latest = k.latest;
      answered = subst (λ a. (a ≡ 0) ⊎ IsAcked a w.acks) (sym same_ack) k.answered;
      remembered = λ a m was near. elim was.1 [
        | inl (en, eq) ↦ absurd (omega (arith, (k.acked a m).1))
        | inr old ↦ k.remembered a m (was.0, old) near
      ];
    }

  module _ (w : World f32 pc be) (k : Kept w) where
    pub reply-Kept :
        (s : Session pc be) (p : ServerPayload)
        → is_frame p ≡ false
        → s.seq_num ≡ w.server.seq_num + 1
        → s.client_ack_seq ≡ w.server.client_ack_seq
        → s.state_history ≡ w.server.state_history
        → Kept (record w { server = s; sent = (w.server.seq_num + 1, p) ∷ w.sent })
    reply-Kept s p other next same_ack same_history =
        send-Kept w k s p next same_ack (subst (Faithful queued) (sym same_history) k.server)
          (λ n g m.
            let (u, was) = k.kept_sent n g (subst (λ h. Knows h n g) same_history m) in
            (u, inr was))
          (λ u e. cc (ap is_frame e, other))

    pub serve-Kept :
        (s : Session pc be)
        → w.server.seq_num ≤ s.seq_num
        → (s.client_ack_seq ≡ w.server.client_ack_seq)
          ⊎ (s.client_ack_seq ≡ 0)
          ⊎ IsAcked s.client_ack_seq w.acks
        → (s.state_history ≡ w.server.state_history) ⊎ (s.state_history ≡ [])
        → Kept (record w { server = s })
    serve-Kept s later ack history = record {
      server = elim history [
        | inl same ↦ subst (Faithful queued) (sym same) k.server
        | inr cleared ↦ subst (Faithful queued) (sym cleared) (λ n g m. absurd m)
      ];
      client = k.client;
      rising = k.rising;
      kept_sent = λ n g m. elim history [
        | inl same ↦ k.kept_sent n g (subst (λ h. Knows h n g) same m)
        | inr cleared ↦ absurd (subst (λ h. Knows h n g) cleared m)
      ];
      numbers = λ n p m. let (pos, below) = k.numbers n p m in (pos, omega arith);
      one_each = k.one_each;
      leads = k.leads;
      recent = k.recent;
      acked = λ a m. let (low, below) = k.acked a m in (low, omega arith);
      heard = omega (arith, k.heard);
      latest = k.latest;
      answered = elim ack [
        | inl same ↦ subst (λ a. (a ≡ 0) ⊎ IsAcked a w.acks) (sym same) k.answered
        | inr genuine ↦ genuine
      ];
      remembered = k.remembered;
    }

    refers-IsRecent :
        (ref_seq : ℕ)
        → ((ref_seq ≡ 0)
            ⊎ ((ref_seq ≡ w.server.client_ack_seq)
                × ((g : GridState) × Knows w.server.state_history w.server.client_ack_seq g)
                × (w.server.seq_num + 1 ≤ w.server.client_ack_seq + 6)))
        → IsRecent w.sent w.acks (w.server.seq_num + 1) ref_seq
    refers-IsRecent ref_seq (inl none_is) = inl none_is
    refers-IsRecent ref_seq (inr (same, (g, known), near)) =
        subst (IsRecent w.sent w.acks (w.server.seq_num + 1)) (sym same) (elim k.answered [
          | inl unheard ↦ inl unheard
          | inr genuine ↦ inr (genuine, k.kept_sent _ g known, near)
        ])

    module _ (valid : (n : ℕ) → IsValid (queued n))
        (small : (n : ℕ) → (queued n).cols * (queued n).rows ≤ u16_mod) where
      pub queue-Kept :
          (now : ℕ) (job : UpdateJob pc.Codec) (u : FrameUpdate)
          → (queue_next pc be queued w.server now).1
            ≡ offload_diff_job job w.server.current_client_addr ∷ []
          → diff_from job.current_state job.ref_state job.ref_seq job.is_echo_recommended ≡ ok u
          → Kept (record w {
            server = (queue_next pc be queued w.server now).0;
            sent = (job.seq, ServerPayload.frame u) ∷ w.sent;
          })
      unfolding queue_frame
      queue-Kept now job u queues makes =
          let s = (queue_next pc be queued w.server now).0 in
          let frame = ServerPayload.frame u in
          let (numbered, leads, faithful) =
            queued_job-LeadsTo pc be queued valid small w.server now job u k.server queues makes in
          subst (λ n. Kept (record w { server = s; sent = (n, frame) ∷ w.sent })) numbered
            (send-Kept w k s frame refl refl faithful
              (λ n g m.
                elim (queue_frame-Knows pc be w.server (queued (w.server.seq_num + 1)) now n g m) [
                  | inl new ↦ (u, inl (new, refl))
                  | inr old ↦ let (v, was) = k.kept_sent n g old in (v, inr was)
                ])
              (λ v e.
                let same : u ≡ v = cc e in
                (
                  subst (LeadsTo queued (w.server.seq_num + 1)) same leads,
                  subst
                      (λ (x : FrameUpdate). IsRecent w.sent w.acks (w.server.seq_num + 1) x.ref_seq)
                      same
                      (refers-IsRecent u.ref_seq (
                        queue_frame-Refers pc be w.server (queued (w.server.seq_num + 1)) now job u
                          queues makes)),
                )))
