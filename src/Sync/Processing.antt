-- ===== src/Sync/Processing.antt =====
-- The loop of `feed_packet` of src/server/session.rs over the packets in order, as steps of a run.
use rumsh.Prelude.{
  ℕ, ◌+◌, refl, true, List, [], ◌∷◌, ◌++◌, Result, ok, err, arith, inl, inr, Result-cases,
}
use rumsh.Protocol.{ClientPayload, ServerPayload}
use rumsh.Protocol.ClientPayload.{handshake, keystrokes, resize, ack, fragment_nack}
use rumsh.Protocol.Grid.{GridState}
use rumsh.Protocol.Codec.Interface.{PacketCodec}
use rumsh.Client.Floats.{F32}
use rumsh.Server.Interface.{Backend}
use rumsh.Server.Session.State.{Session, Action, resend_fragments}
use rumsh.Server.Session.Packets.{Answer, send_all, add_actions, process}
use rumsh.Sync.World.{World, Run}
use rumsh.Sync.Steps.{Reaches, Reaches-append, quiet-Reaches, reply-Reaches}
use rumsh.Sync.Serving.{same-Reaches}

module _ (pc : PacketCodec) (be : Backend) where
  -- An error sends nothing.
  abbrev pub actions_of : Result (List (Action pc be)) → List (Action pc be)
  actions_of (ok xs) = xs
  actions_of (err e) = []

module _ (f32 : F32) (pc : PacketCodec) (be : Backend) (queued : ℕ → GridState) where
  abbrev pub Gives : World f32 pc be → Answer pc be → Type 1
  Gives w x = Reaches f32 pc be queued w x.0 (actions_of pc be x.1)

  add_actions-Gives :
      (w : World f32 pc be) (first : List (Action pc be)) (x : Answer pc be)
      → Reaches f32 pc be queued w x.0 (first ++ actions_of pc be x.1)
      → Gives w (add_actions pc be first x)
  add_actions-Gives w first (s, ok rest) reached = reached
  add_actions-Gives w first (s, err e) (sent, r, more, accounted, same) = (sent, r, more, tt, same)

  -- An answer after a first step.
  pub then-Gives :
      (w : World f32 pc be) (s : Session pc be) (x : Answer pc be)
      → Reaches f32 pc be queued w s []
      → ((sent : List (ℕ × ServerPayload))
          → Run f32 pc be queued (record w { server = s; sent = sent })
          → Gives (record w { server = s; sent = sent }) x)
      → Gives w x
  then-Gives w s x = Reaches-append f32 pc be queued w s x.0 [] (actions_of pc be x.1)

  -- The packets in order.
  pub process-Gives :
      (ps : List (ℕ × ClientPayload)) (w : World f32 pc be)
      → Run f32 pc be queued w
      → Gives w (process pc be ps w.server)
  unfolding process
  process-Gives [] w r = same-Reaches f32 pc be queued w r w.server refl
  process-Gives ((seq, ack) ∷ ps) w r = process-Gives ps w r
  process-Gives ((seq, keystrokes keys) ∷ ps) w r =
      let s = record w.server { pty = be.write w.server.pty keys } in
      then-Gives w s (process pc be ps s) (same-Reaches f32 pc be queued w r s refl)
        (λ sent r'. process-Gives ps (record w { server = s; sent = sent }) r')
  process-Gives ((seq, resize cols rows) ∷ ps) w r =
      let s = record w.server {
        pty = be.resize w.server.pty cols rows;
        term_state = be.term_resize w.server.term_state cols rows;
        dirty = true;
      } in
      then-Gives w s (process pc be ps s) (same-Reaches f32 pc be queued w r s refl)
        (λ sent r'. process-Gives ps (record w { server = s; sent = sent }) r')
  process-Gives ((seq, ClientPayload.keep_alive) ∷ ps) w r =
      let self = w.server in
      let s = record self { seq_num = self.seq_num + 1 } in
      let rest = process pc be ps s in
      elim (Result-cases
        (pc.seal_server self.codec (self.seq_num + 1) self.ack_seq_num ServerPayload.keep_alive)) [
          | inr (e, failed) ↦
              rw (process, failed)
                (quiet-Reaches f32 pc be queued w r s (omega arith) (inl refl) (inl refl) refl)
          | inl (packets, sealed) ↦
              let target = self.current_client_addr in
              rw (process, sealed)
                (add_actions-Gives w (send_all pc be target packets) rest (
                  Reaches-append f32 pc be queued w s rest.0 (send_all pc be target packets)
                    (actions_of pc be rest.1)
                    (reply-Reaches f32 pc be queued w r s ServerPayload.keep_alive self.ack_seq_num
                      target packets refl refl refl refl refl sealed)
                    (λ sent r'. process-Gives ps (record w { server = s; sent = sent }) r')))
        ]
  process-Gives ((seq, fragment_nack f m) ∷ ps) w r =
      let self = w.server in
      let again : List (Action pc be) = resend_fragments f m self.current_client_addr ∷ [] in
      let rest = process pc be ps self in
      add_actions-Gives w again rest (
        Reaches-append f32 pc be queued w self rest.0 again (actions_of pc be rest.1)
          (same-Reaches f32 pc be queued w r self refl)
          (λ sent r'. process-Gives ps (record w { sent = sent }) r'))
  process-Gives ((seq, handshake v cols rows) ∷ ps) w r =
      same-Reaches f32 pc be queued w r w.server refl
