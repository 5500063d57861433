-- ===== src/Sync/Reach.antt =====
-- Runs of a server and a client, over a network that loses, repeats and reorders frames.
use rumsh.Prelude.{
  ℕ, ◌+◌, ◌*◌, ◌≤◌, ◌<◌, ◌≡◌, ◌⊎◌, sym, subst, ◌∙◌, List, [], ◌∷◌, none, ok, inl, inr, arith,
}
use rumsh.Protocol.Grid.{GridState, FrameUpdate, diff_from, u16_mod}
use rumsh.Protocol.Grid.Roundtrip.Bases.{IsValid}
use rumsh.Protocol.Codec.Interface.{PacketCodec}
use rumsh.Client.Floats.{F32}
use rumsh.Client.Session.State.{Mirror}
use rumsh.Client.Session.Prepare.{prepare_ack}
use rumsh.Client.Session.Receive.{base_state, frame_payload, show_frame, push_ack}
use rumsh.Server.Interface.{Backend}
use rumsh.Server.Session.State.{History, Session, UpdateJob, offload_diff_job}
use rumsh.Sync.Histories.{Faithful}
use rumsh.Sync.Frames.{LeadsTo, queue_next, queued_job-LeadsTo}
use rumsh.Sync.Client.{frame_payload-cases, frame_payload-Faithful}

module _ (f32 : F32) (pc : PacketCodec) (be : Backend) (queued : ℕ → GridState) where
  -- The frames that were sent, each with its number.
  abbrev pub Sent : Type 0
  Sent = List (ℕ × FrameUpdate)

  abbrev pub IsSent : ℕ → FrameUpdate → Sent → Type 0
  IsSent seq u [] = ⊥
  IsSent seq u ((k, v) ∷ sent) = ((k ≡ seq) × (v ≡ u)) ⊎ IsSent seq u sent

  -- The server's session, the frames sent and the client's session after some steps. `queued k` is
  -- the grid that the server queues as frame `k`. The server queues a frame for whatever reference
  -- the client's acknowledgements, also wrong ones, have left; it may do anything else that keeps
  -- or clears its history. The client takes any frame sent so far.
  pub data Reach : Session pc be → Sent → Mirror f32 pc → Type 1 where
    start :
        (s : Session pc be) (c : Mirror f32 pc)
        → s.state_history ≡ []
        → c.state_history ≡ []
        → Reach s [] c
    queue :
        (s : Session pc be) (sent : Sent) (c : Mirror f32 pc) (now : ℕ) (job : UpdateJob pc.Codec)
        (u : FrameUpdate)
        → Reach s sent c
        → (queue_next pc be queued s now).1 ≡ offload_diff_job job s.current_client_addr ∷ []
        → diff_from job.current_state job.ref_state job.ref_seq job.is_echo_recommended ≡ ok u
        → Reach (queue_next pc be queued s now).0 ((job.seq, u) ∷ sent) c
    serve :
        (s s' : Session pc be) (sent : Sent) (c : Mirror f32 pc)
        → Reach s sent c
        → (s'.state_history ≡ s.state_history) ⊎ (s'.state_history ≡ [])
        → Reach s' sent c
    receive :
        (s : Session pc be) (sent : Sent) (c : Mirror f32 pc) (seq now : ℕ) (u : FrameUpdate)
        → Reach s sent c
        → IsSent seq u sent
        → Reach s sent (frame_payload f32 pc c u seq now).0
    act :
        (s : Session pc be) (sent : Sent) (c c' : Mirror f32 pc)
        → Reach s sent c
        → c'.state_history ≡ c.state_history
        → Reach s sent c'

  -- What every step keeps.
  record Kept (s : Session pc be) (sent : Sent) (c : Mirror f32 pc) : Type 0 where
    server : Faithful queued s.state_history
    client : Faithful queued c.state_history
    frames : (seq : ℕ) (u : FrameUpdate) → IsSent seq u sent → (0 < seq) × LeadsTo queued seq u

  empty-Faithful : {h : History} → h ≡ [] → Faithful queued h
  empty-Faithful e = subst (Faithful queued) (sym e) (λ seq g m. absurd m)

  module _ (valid : (k : ℕ) → IsValid (queued k))
      (small : (k : ℕ) → (queued k).cols * (queued k).rows ≤ u16_mod) where
    Reach-Kept :
        {s : Session pc be} {sent : Sent} {c : Mirror f32 pc} → Reach s sent c → Kept s sent c
    Reach-Kept (start s c es ec) = record {
      server = empty-Faithful es;
      client = empty-Faithful ec;
      frames = λ seq u m. absurd m;
    }
    Reach-Kept (queue s sent c now job u r ej eu) =
        let kept = Reach-Kept r in
        let (numbered, leads, faithful) =
          queued_job-LeadsTo pc be queued valid small s now job u kept.server ej eu in
        record {
          server = faithful;
          client = kept.client;
          frames = λ seq v m. elim m [
            | inr before ↦ kept.frames seq v before
            | inl (ek, ev) ↦ (
              omega (arith, ek, numbered),
              subst (λ k. LeadsTo queued k v) (numbered ∙ ek)
                  (subst (LeadsTo queued (s.seq_num + 1)) ev leads),
            )
          ];
        }
    Reach-Kept (serve s s' sent c r e) =
        let kept = Reach-Kept r in
        record {
          server = elim e [
            | inl same ↦ subst (Faithful queued) (sym same) kept.server
            | inr cleared ↦ empty-Faithful cleared
          ];
          client = kept.client;
          frames = kept.frames;
        }
    Reach-Kept (receive s sent c seq now u r m) =
        let kept = Reach-Kept r in
        let (pos, leads) = kept.frames seq u m in
        record {
          server = kept.server;
          client = frame_payload-Faithful f32 pc queued c kept.client u seq now leads pos;
          frames = kept.frames;
        }
    Reach-Kept (act s sent c c' r e) =
        let kept = Reach-Kept r in
        record {
          server = kept.server;
          client = subst (Faithful queued) (sym e) kept.client;
          frames = kept.frames;
        }

    -- At any point of any run, whichever frame sent so far reaches the client, late, again or out of
    -- order, the client either lacks the grid that it refers to, and then only acknowledges, or shows
    -- exactly the grid that the server queued under the frame's number, with no error of `patch`.
    -- The queued grids are valid and have at most 2^16 cells.
    pub Reach-frame_payload :
        (s : Session pc be) (sent : Sent) (c : Mirror f32 pc) (seq now : ℕ) (u : FrameUpdate)
        → Reach s sent c
        → IsSent seq u sent
        → ((base_state f32 pc c u ≡ none)
            × (frame_payload f32 pc c u seq now ≡ push_ack f32 pc [] (prepare_ack f32 pc c now)))
          ⊎ (frame_payload f32 pc c u seq now
              ≡ show_frame f32 pc c (queued seq) u.is_echo_enabled seq now)
    Reach-frame_payload s sent c seq now u r m =
        let kept = Reach-Kept r in
        let (pos, leads) = kept.frames seq u m in
        frame_payload-cases f32 pc queued c kept.client u seq now leads
