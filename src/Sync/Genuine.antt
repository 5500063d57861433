-- ===== src/Sync/Genuine.antt =====
-- The client's steps in a run (`feed_packet` of src/client/session.rs), and what becomes of a frame.
use rumsh.Prelude.{
  ℕ, ◌+◌, ◌≤◌, ◌<◌, ◌≡◌, ◌⊎◌, refl, sym, subst, ap, false, [], ◌∷◌, some, arith, inl, inr, leb,
  Bool-cases, ◌==◌,
}
use rumsh.Protocol.{ServerPayload}
use rumsh.Protocol.Grid.{GridState, FrameUpdate, blank}
use rumsh.Protocol.Codec.Interface.{PacketCodec}
use rumsh.Client.Floats.{F32}
use rumsh.Client.Session.State.{Mirror}
use rumsh.Client.Session.Receive.{base_state}
use rumsh.Server.Interface.{Backend}
use rumsh.Server.Session.State.{History, find_state, push_state, Session}
use rumsh.Sync.Histories.{Knows, Faithful, push_state-Faithful}
use rumsh.Sync.Hearing.{is_frame, key}
use rumsh.Sync.Numbers.{
  Within, Within-raise, push_state-Within, push_state-Knows, push_state-Knows_new,
}
use rumsh.Sync.World.{IsSent, IsFrameSent, IsAcked, World}
use rumsh.Sync.Kept.{Kept, IsRecent-acks}

Knows-find_state :
    (h : History) (n : ℕ) (g : GridState)
    → Knows h n g
    → (g' : GridState) × (find_state n h ≡ some g')
Knows-find_state [] n g m = absurd m
Knows-find_state ((j, s) ∷ h) n g m = elim (Bool-cases (j == n)) [
  | inl here ↦ (s, rw here refl)
  | inr other ↦ elim m [
    | inl (ej, es) ↦ absurd (ground arith)
    | inr later ↦ let (g', found) = Knows-find_state h n g later in (g', rw other found)
  ]
]

module _ (f32 : F32) (pc : PacketCodec) (be : Backend) (queued : ℕ → GridState) where
  module _ (w : World f32 pc be) (k : Kept f32 pc be queued w) where
    -- A history and an acknowledgement that the client may have next.
    pub record IsNext (state : History × ℕ) : Type 0 where
      pub faithful : Faithful queued state.0
      pub rising : Within 0 state.0 state.1
      pub later : w.client.ack_seq_num ≤ state.1
      pub heard : state.1 ≤ w.server.seq_num
      pub remembered :
          (a : ℕ)
          → IsAcked a (state.1 ∷ w.acks)
          → IsFrameSent a w.sent
          → state.1 < a + 199
          → (g : GridState) × Knows state.0 a g

    pub next-Kept :
        (c : Mirror f32 pc)
        → IsNext (key f32 pc c)
        → Kept f32 pc be queued (record w { client = c; acks = c.ack_seq_num ∷ w.acks })
    next-Kept c n = record {
      server = k.server;
      client = n.faithful;
      rising = n.rising;
      kept_sent = k.kept_sent;
      numbers = k.numbers;
      one_each = k.one_each;
      leads = k.leads;
      recent = λ j u m. IsRecent-acks w.sent c.ack_seq_num w.acks j u.ref_seq (k.recent j u m);
      acked = λ a m. elim m [
        | inl now_acked ↦ (omega arith, omega (arith, n.heard))
        | inr before ↦ let (low, below) = k.acked a before in (omega (arith, n.later), below)
      ];
      heard = n.heard;
      latest = inr (inl refl);
      answered = elim k.answered [ inl unheard ↦ inl unheard | inr genuine ↦ inr (inr genuine) ];
      remembered = n.remembered;
    }

    pub old-IsNext : IsNext (key f32 pc w.client)
    old-IsNext = record {
      faithful = k.client;
      rising = k.rising;
      later = omega arith;
      heard = k.heard;
      remembered = λ a m was near. elim m [
        | inl latest ↦ elim k.latest [
          | inl none_heard ↦
              absurd (omega (arith, (k.numbers a (ServerPayload.frame was.0) was.1).0))
          | inr acked ↦ k.remembered a (subst (λ j. IsAcked j w.acks) latest acked) was near
        ]
        | inr before ↦ k.remembered a before was near
      ];
    }

    -- Something newer than all that the client has heard.
    module _ (n : ℕ) (p : ServerPayload) (sent : IsSent n p w.sent)
        (newer : leb n w.client.ack_seq_num ≡ false) where
      new_number : (w.client.ack_seq_num < n) × (n ≤ w.server.seq_num)
      new_number = (ground arith, (k.numbers n p sent).1)

      pub other-IsNext : is_frame p ≡ false → IsNext (w.client.state_history, n)
      other-IsNext other =
          let (above, below) = new_number in
          record {
            faithful = k.client;
            rising =
                Within-raise 0 w.client.state_history w.client.ack_seq_num n (omega arith) k.rising;
            later = omega arith;
            heard = below;
            remembered = λ a m was near. elim m [
              | inl here ↦
                  let frame =
                    k.one_each n p (ServerPayload.frame was.0) sent
                      (subst (λ j. IsSent j (ServerPayload.frame was.0) w.sent) (sym here) was.1) in
                  cc (ap is_frame frame, other)
              | inr before ↦ k.remembered a before was (omega arith)
            ];
          }

      pub frame-IsNext : IsNext (push_state w.client.state_history n (queued n), n)
      frame-IsNext =
          let h = w.client.state_history in
          let top = w.client.ack_seq_num in
          let (above, below) = new_number in
          record {
            faithful = push_state-Faithful queued h n (omega arith) k.client;
            rising = push_state-Within h top n (queued n) above k.rising;
            later = omega arith;
            heard = below;
            remembered = λ a m was near. elim m [
              | inl here ↦ (
                queued n,
                subst (λ j. Knows (push_state h n (queued n)) j (queued n)) here
                    (push_state-Knows_new h n (queued n)),
              )
              | inr before ↦
                  let (g, known) = k.remembered a before was (omega arith) in
                  (g, push_state-Knows h top n a (queued n) g k.rising above near known)
            ];
          }

    -- The client has the reference of a frame that is newer than all that it has heard.
    pub frame_base :
        (n : ℕ) (u : FrameUpdate)
        → IsSent n (ServerPayload.frame u) w.sent
        → w.client.ack_seq_num < n
        → (base : GridState) × (base_state f32 pc w.client u ≡ some base)
    unfolding base_state
    frame_base n u sent newer = elim (k.recent n u sent) [
      | inl full ↦ (blank u.cols u.rows, rw full refl)
      | inr (acked, was, near) ↦
          let (g, known) = k.remembered u.ref_seq acked was (omega arith) in
          let (base, found) = Knows-find_state w.client.state_history u.ref_seq g known in
          elim (Bool-cases (u.ref_seq == 0)) [
            | inl full ↦ (blank u.cols u.rows, rw full refl)
            | inr partial ↦ (base, rw partial found)
          ]
    ]

    pub act-Kept :
        (c : Mirror f32 pc)
        → key f32 pc c ≡ key f32 pc w.client
        → Kept f32 pc be queued (record w { client = c })
    act-Kept c same = record {
      server = k.server;
      client = subst (λ (x : History × ℕ). Faithful queued x.0) (sym same) k.client;
      rising = subst (λ (x : History × ℕ). Within 0 x.0 x.1) (sym same) k.rising;
      kept_sent = k.kept_sent;
      numbers = k.numbers;
      one_each = k.one_each;
      leads = k.leads;
      recent = k.recent;
      acked = λ a m.
          subst (λ (x : History × ℕ). (a ≤ x.1) × (a ≤ w.server.seq_num)) (sym same) (k.acked a m);
      heard = subst (λ (x : History × ℕ). x.1 ≤ w.server.seq_num) (sym same) k.heard;
      latest = subst (λ (x : History × ℕ). (x.1 ≡ 0) ⊎ IsAcked x.1 w.acks) (sym same) k.latest;
      answered = k.answered;
      remembered =
          subst
            (λ (x : History × ℕ).
              (a : ℕ)
              → IsAcked a w.acks
              → IsFrameSent a w.sent
              → x.1 < a + 199
              → (g : GridState) × Knows x.0 a g)
            (sym same) k.remembered;
    }

  pub start-Kept :
      (s : Session pc be) (c : Mirror f32 pc)
      → s.state_history ≡ []
      → s.client_ack_seq ≡ 0
      → key f32 pc c ≡ ([], 0)
      → Kept f32 pc be queued (record { server = s; sent = []; client = c; acks = [] })
  start-Kept s c cleared unheard fresh = record {
    server = subst (Faithful queued) (sym cleared) (λ n g m. absurd m);
    client = subst (λ (x : History × ℕ). Faithful queued x.0) (sym fresh) (λ n g m. absurd m);
    rising = subst (λ (x : History × ℕ). Within 0 x.0 x.1) (sym fresh) (omega arith);
    kept_sent = λ n g m. absurd (subst (λ h. Knows h n g) cleared m);
    numbers = λ n p m. absurd m;
    one_each = λ n p q m m'. absurd m;
    leads = λ n u m. absurd m;
    recent = λ n u m. absurd m;
    acked = λ a m. absurd m;
    heard = subst (λ (x : History × ℕ). x.1 ≤ s.seq_num) (sym fresh) (omega arith);
    latest = inl (ap (λ (x : History × ℕ). x.1) fresh);
    answered = inl unheard;
    remembered = λ a m was near. absurd m;
  }
