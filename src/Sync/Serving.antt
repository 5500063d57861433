-- ===== src/Sync/Serving.antt =====
-- `check_sync` of src/server/session.rs as steps of a run.
use rumsh.Prelude.{
  ℕ, ◌*◌, ◌-◌, ◌≤◌, ◌≡◌, refl, sym, subst, ap, Bool, true, false, not, ◌&&◌, List, [], Result, ok,
  err, arith, inl, ltb, leb, if◌then◌else◌,
}
use rumsh.Protocol.Grid.{GridState, u16_mod}
use rumsh.Protocol.Grid.Roundtrip.Bases.{IsValid}
use rumsh.Protocol.Codec.Interface.{PacketCodec}
use rumsh.Client.Floats.{F32}
use rumsh.Server.Interface.{Backend, millis}
use rumsh.Server.Session.State.{History, Session, Action}
use rumsh.Server.Session.Queue.{queue_frame, is_identical, sync_grid, check_sync}
use rumsh.Sync.World.{World, Run}
use rumsh.Sync.Steps.{Queues, Reaches, Reaches-append, quiet-Reaches, queue-Reaches}

module _ (f32 : F32) (pc : PacketCodec) (be : Backend) (queued : ℕ → GridState) where
  -- The session and the actions of an operation, if the grids that it queues are those of the run.
  abbrev pub Serves : World f32 pc be → Session pc be × List (Action pc be) → Type 1
  Serves w x = Queues pc queued x.1 → Reaches f32 pc be queued w x.0 x.1

  pub if-Serves :
      (w : World f32 pc be) (b : Bool) (x y : Session pc be × List (Action pc be))
      → Serves w x
      → Serves w y
      → Serves w (if b then x else y)
  if-Serves w true x y hx hy = hx
  if-Serves w false x y hx hy = hy

  -- A session that differs in nothing that the client depends on.
  -- What a run depends on.
  abbrev pub core : Session pc be → ℕ × ℕ × History × pc.Codec
  core s = (s.seq_num, s.client_ack_seq, s.state_history, s.codec)

  pub same-Reaches :
      (w : World f32 pc be) (r : Run f32 pc be queued w) (s : Session pc be)
      → core s ≡ core w.server
      → Reaches f32 pc be queued w s []
  same-Reaches w r s same =
      let same_seq = ap (λ (c : ℕ × ℕ × History × pc.Codec). c.0) same in
      quiet-Reaches f32 pc be queued w r s (omega (arith, same_seq))
        (inl (ap (λ (c : ℕ × ℕ × History × pc.Codec). c.1) same))
        (inl (ap (λ (c : ℕ × ℕ × History × pc.Codec). c.2) same))
        (ap (λ (c : ℕ × ℕ × History × pc.Codec). c.3) same)

  calm_core :
      (s : Session pc be) (b : Bool)
      → core (if b then record s { pty_bytes_acc = 0 } else s) ≡ core s
  calm_core s true = refl
  calm_core s false = refl

  module _ (valid : (n : ℕ) → IsValid (queued n))
      (small : (n : ℕ) → (queued n).cols * (queued n).rows ≤ u16_mod) where
    queue-Serves :
        (w : World f32 pc be) (r : Run f32 pc be queued w) (grid : GridState) (now : ℕ)
        → Serves w (queue_frame pc be w.server grid now)
    unfolding queue_frame
    queue-Serves w r grid now q =
        subst
          (λ g.
            Reaches f32 pc be queued w (queue_frame pc be w.server g now).0
              (queue_frame pc be w.server g now).1)
          (sym q.0) (queue-Reaches f32 pc be queued w r valid small now)

    sync_grid-Serves :
        (w : World f32 pc be) (r : Run f32 pc be queued w) (grid : Result GridState) (now : ℕ)
        → Serves w (sync_grid pc be w.server grid now)
    unfolding sync_grid
    sync_grid-Serves w r (err e) now = λ q. same-Reaches w r w.server refl
    sync_grid-Serves w r (ok grid) now =
        if-Serves w
          (is_identical pc be w.server.state_history grid
            && not (ltb w.server.last_sent_ack_seq w.server.ack_seq_num))
          _ _ (λ q. same-Reaches w r (record w.server { dirty = false }) refl)
          (queue-Serves w r grid now)

    calmed-Serves :
        (w : World f32 pc be) (r : Run f32 pc be queued w) (calm : Session pc be) (term : be.Term)
        (grid : Result GridState) (now : ℕ)
        → core calm ≡ core w.server
        → Serves w (sync_grid pc be (record calm { term_state = term }) grid now)
    calmed-Serves w r calm term grid now same q =
        let s = record calm { term_state = term } in
        let answer = sync_grid pc be s grid now in
        Reaches-append f32 pc be queued w s answer.0 [] answer.1 (same-Reaches w r s same)
          (λ sent r'. sync_grid-Serves (record w { server = s; sent = sent }) r' grid now q)

    pub check_sync-Serves :
        (w : World f32 pc be) (r : Run f32 pc be queued w) (now : ℕ)
        → Serves w (check_sync pc be w.server now)
    unfolding check_sync
    check_sync-Serves w r now =
        let self = w.server in
        let calm =
          if leb (millis 50) (now - self.last_pty_bytes_time)
          then record self { pty_bytes_acc = 0 }
          else self in
        let same : core calm ≡ core self = calm_core self _ in
        if-Serves w _ (self, []) _ (λ q. same-Reaches w r self refl)
          (if-Serves w _ (calm, []) _ (λ q. same-Reaches w r calm same)
            (calmed-Serves w r calm _ _ now same))
