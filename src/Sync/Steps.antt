-- ===== src/Sync/Steps.antt =====
-- The operations of src/server/session.rs as steps of a run: what their actions send.
use rumsh.Prelude.{
  ℕ, ◌+◌, ◌*◌, ◌≤◌, ◌≡◌, ◌⊎◌, refl, sym, subst, ◌∙◌, false, List, [], ◌∷◌, ◌++◌, ok, inl, inr,
}
use rumsh.Protocol.{ServerPayload}
use rumsh.Protocol.Grid.{GridState, FrameUpdate, diff_from, u16_mod}
use rumsh.Protocol.Grid.Roundtrip.Bases.{IsValid}
use rumsh.Protocol.Codec.Interface.{PacketCodec}
use rumsh.Client.Floats.{F32}
use rumsh.Server.Interface.{Backend}
use rumsh.Server.Session.State.{
  Session, Action, SessionAction, send_packet, offload_diff_job, resend_fragments, shutdown,
}
use rumsh.Server.Session.Queue.{queue_frame}
use rumsh.Server.Session.Packets.{send_all}
use rumsh.Sync.Frames.{queue_next, queue_frame-LeadsTo}
use rumsh.Sync.Hearing.{is_frame}
use rumsh.Sync.World.{IsSent, IsAcked, World, Run, queue, reply, serve}
use rumsh.Sync.Shown.{Run-Kept}

abbrev pub IsIn : List ℕ → List (List ℕ) → Type 0
IsIn bytes [] = ⊥
IsIn bytes (p ∷ ps) = (p ≡ bytes) ⊎ IsIn bytes ps

abbrev pub Extends : List (ℕ × ServerPayload) → List (ℕ × ServerPayload) → Type 0
Extends sent sent' = (n : ℕ) (p : ServerPayload) → IsSent n p sent → IsSent n p sent'

module _ (pc : PacketCodec) where
  -- Every packet is sealed from a payload that was sent, and every job makes a frame that was.
  abbrev pub Accounted :
      pc.Codec → List (ℕ × ServerPayload) → List (SessionAction pc.Codec) → Type 0
  Accounted codec sent [] = Unit
  Accounted codec sent (send_packet bytes target ∷ xs) =
      ((n : ℕ) × (ack : ℕ) × (p : ServerPayload) × (packets : List (List ℕ)) × (pc.seal_server codec
            n ack p
          ≡ ok packets)
        × IsIn bytes packets
        × IsSent n p sent)
      × Accounted codec sent xs
  Accounted codec sent (offload_diff_job job target ∷ xs) =
      ((u : FrameUpdate) × (diff_from job.current_state job.ref_state job.ref_seq
            job.is_echo_recommended
          ≡ ok u)
        × IsSent job.seq (ServerPayload.frame u) sent)
      × Accounted codec sent xs
  Accounted codec sent (resend_fragments n mask target ∷ xs) = Accounted codec sent xs
  Accounted codec sent (shutdown ∷ xs) = Accounted codec sent xs

  Accounted-Extends :
      (codec : pc.Codec) (sent sent' : List (ℕ × ServerPayload))
      (xs : List (SessionAction pc.Codec))
      → Extends sent sent'
      → Accounted codec sent xs
      → Accounted codec sent' xs
  Accounted-Extends codec sent sent' [] more a = tt
  Accounted-Extends codec sent sent' (send_packet bytes target ∷ xs) more
        ((n, ack, p, ps, e, m, s), a) =
      ((n, ack, p, ps, e, m, more n p s), Accounted-Extends codec sent sent' xs more a)
  Accounted-Extends codec sent sent' (offload_diff_job job target ∷ xs) more ((u, e, s), a) =
      ((u, e, more job.seq (ServerPayload.frame u) s), Accounted-Extends codec sent sent' xs more a)
  Accounted-Extends codec sent sent' (resend_fragments n mask target ∷ xs) more a =
      Accounted-Extends codec sent sent' xs more a
  Accounted-Extends codec sent sent' (shutdown ∷ xs) more a =
      Accounted-Extends codec sent sent' xs more a

  Accounted-append :
      (codec : pc.Codec) (sent : List (ℕ × ServerPayload)) (xs ys : List (SessionAction pc.Codec))
      → Accounted codec sent xs
      → Accounted codec sent ys
      → Accounted codec sent (xs ++ ys)
  Accounted-append codec sent [] ys a b = b
  Accounted-append codec sent (send_packet bytes target ∷ xs) ys (x, a) b =
      (x, Accounted-append codec sent xs ys a b)
  Accounted-append codec sent (offload_diff_job job target ∷ xs) ys (x, a) b =
      (x, Accounted-append codec sent xs ys a b)
  Accounted-append codec sent (resend_fragments n mask target ∷ xs) ys a b =
      Accounted-append codec sent xs ys a b
  Accounted-append codec sent (shutdown ∷ xs) ys a b = Accounted-append codec sent xs ys a b

  -- The grids of the jobs are those queued under their numbers.
  abbrev pub Queues : (ℕ → GridState) → List (SessionAction pc.Codec) → Type 0
  Queues queued [] = Unit
  Queues queued (send_packet bytes target ∷ xs) = Queues queued xs
  Queues queued (offload_diff_job job target ∷ xs) =
      (job.current_state ≡ queued job.seq) × Queues queued xs
  Queues queued (resend_fragments n mask target ∷ xs) = Queues queued xs
  Queues queued (shutdown ∷ xs) = Queues queued xs

  pub Queues-append :
      (queued : ℕ → GridState) (xs ys : List (SessionAction pc.Codec))
      → Queues queued (xs ++ ys)
      → Queues queued ys
  Queues-append queued [] ys q = q
  Queues-append queued (send_packet bytes target ∷ xs) ys q = Queues-append queued xs ys q
  Queues-append queued (offload_diff_job job target ∷ xs) ys (e, q) = Queues-append queued xs ys q
  Queues-append queued (resend_fragments n mask target ∷ xs) ys q = Queues-append queued xs ys q
  Queues-append queued (shutdown ∷ xs) ys q = Queues-append queued xs ys q

  sealed-Accounted :
      (be : Backend) (codec : pc.Codec) (n ack : ℕ) (p : ServerPayload)
      (sent : List (ℕ × ServerPayload)) (target : ℕ) (all packets : List (List ℕ))
      → ((bytes : List ℕ) → IsIn bytes packets → IsIn bytes all)
      → pc.seal_server codec n ack p ≡ ok all
      → IsSent n p sent
      → Accounted codec sent (send_all pc be target packets)
  sealed-Accounted be codec n ack p sent target all [] within e m = tt
  sealed-Accounted be codec n ack p sent target all (b ∷ packets) within e m = (
    (n, ack, p, all, e, within b (inl refl), m),
    sealed-Accounted be codec n ack p sent target all packets (λ bytes i. within bytes (inr i)) e m,
  )

module _ (f32 : F32) (pc : PacketCodec) (be : Backend) (queued : ℕ → GridState) where
  -- Some steps of the server lead to the session, with nothing sent but what the actions send.
  abbrev pub Reaches : World f32 pc be → Session pc be → List (Action pc be) → Type 1
  Reaches w s xs =
      (sent : List (ℕ × ServerPayload)) × Run f32 pc be queued
        (record w { server = s; sent = sent })
      × Extends w.sent sent
      × Accounted pc w.server.codec sent xs
      × (s.codec ≡ w.server.codec)

  -- One operation after another.
  pub Reaches-append :
      (w : World f32 pc be) (s s' : Session pc be) (xs ys : List (Action pc be))
      → Reaches w s xs
      → ((sent : List (ℕ × ServerPayload))
          → Run f32 pc be queued (record w { server = s; sent = sent })
          → Reaches (record w { server = s; sent = sent }) s' ys)
      → Reaches w s' (xs ++ ys)
  Reaches-append w s s' xs ys (sent, r, more, a, same) next =
      let (sent', r', more', b, same') = next sent r in
      (
        sent',
        r',
        (λ n p m. more' n p (more n p m)),
        Accounted-append pc w.server.codec sent' xs ys
            (Accounted-Extends pc w.server.codec sent sent' xs more' a)
            (subst (λ c. Accounted pc c sent' ys) same b),
        same' ∙ same,
      )

  module _ (w : World f32 pc be) (r : Run f32 pc be queued w) where
    -- A step that sends nothing.
    pub quiet-Reaches :
        (s : Session pc be)
        → w.server.seq_num ≤ s.seq_num
        → (s.client_ack_seq ≡ w.server.client_ack_seq)
          ⊎ (s.client_ack_seq ≡ 0)
          ⊎ IsAcked s.client_ack_seq w.acks
        → (s.state_history ≡ w.server.state_history) ⊎ (s.state_history ≡ [])
        → s.codec ≡ w.server.codec
        → Reaches w s []
    quiet-Reaches s later ack history same =
        (w.sent, serve w s r later ack history, (λ n p m. m), tt, same)

    -- A payload that is no frame, sealed.
    pub reply-Reaches :
        (s : Session pc be) (p : ServerPayload) (ack target : ℕ) (packets : List (List ℕ))
        → is_frame p ≡ false
        → s.seq_num ≡ w.server.seq_num + 1
        → s.client_ack_seq ≡ w.server.client_ack_seq
        → s.state_history ≡ w.server.state_history
        → s.codec ≡ w.server.codec
        → pc.seal_server w.server.codec (w.server.seq_num + 1) ack p ≡ ok packets
        → Reaches w s (send_all pc be target packets)
    reply-Reaches s p ack target packets other next same_ack same_history same sealed =
        let sent = (w.server.seq_num + 1, p) ∷ w.sent in
        (
          sent,
          reply w s p r other next same_ack same_history,
          (λ n q m. inr m),
          sealed-Accounted pc be w.server.codec (w.server.seq_num + 1) ack p sent target packets
              packets (λ bytes i. i) sealed (inl (refl, refl)),
          same,
        )

    -- A frame is queued.
    pub queue-Reaches :
        (valid : (n : ℕ) → IsValid (queued n))
        → ((n : ℕ) → (queued n).cols * (queued n).rows ≤ u16_mod)
        → (now : ℕ)
        → Reaches w
            (queue_next pc be queued w.server now).0
            (queue_next pc be queued w.server now).1
    unfolding queue_frame
    queue-Reaches valid small now =
        let kept = Run-Kept f32 pc be queued valid small r in
        let (job, u, queues, number, made, leads, faithful) =
          queue_frame-LeadsTo pc be queued valid small w.server now kept.server in
        let sent = (job.seq, ServerPayload.frame u) ∷ w.sent in
        (
          sent,
          queue w now job u r queues made,
          (λ n q m. inr m),
          subst (Accounted pc w.server.codec sent) (sym queues) ((u, made, inl (refl, refl)), tt),
          refl,
        )
