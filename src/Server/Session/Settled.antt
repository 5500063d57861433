-- ===== src/Server/Session/Settled.antt =====
-- A session of src/server/session.rs after a frame was queued: nothing is left for `check_sync`.
pub mod Answers
use rumsh.Prelude.{
  ℕ, ◌+◌, ◌-◌, ◌≡◌, ◌⊎◌, refl, sym, ◌∙◌, ap, Bool, true, false, not, ◌&&◌, List, [], ◌∷◌, ◌++◌,
  Result, ok, err, arith, inl, inr, ltb, leb, ◌==◌, if◌then◌else◌, length, Bool-cases, Result-cases,
  insert,
}
use rumsh.Protocol.{ClientPayload, ServerPayload, EncryptedClientPacket}
use rumsh.Protocol.ClientPayload.{handshake, keystrokes, resize, ack, fragment_nack}
use rumsh.Protocol.Grid.{GridState}
use rumsh.Protocol.Codec.Interface.{PacketCodec, OpenedClient}
use rumsh.Server.Interface.{Backend, millis, secs}
use rumsh.Server.Session.State.{
  Session, Action, SessionAction, send_packet, offload_diff_job, resend_fragments, shutdown,
}
use rumsh.Server.Session.Queue.{queue_frame, is_identical, sync_grid, min_interval, check_sync}
use rumsh.Server.Session.Packets.{
  Answer, send_all, then_sync, handshake_packet, is_transient, nack_actions, transient_packet,
  add_actions, process, finish, drain, in_order_packet, reliable_packet, session_packet,
  opened_packet, feed_packet, on_tick,
}

-- The jobs among some actions.
abbrev pub jobs : {C : Type 0} → List (SessionAction C) → ℕ
jobs [] = 0
jobs (send_packet bytes target ∷ actions) = jobs actions
jobs (offload_diff_job job target ∷ actions) = jobs actions + 1
jobs (resend_fragments n mask target ∷ actions) = jobs actions
jobs (shutdown ∷ actions) = jobs actions

pub jobs-append :
    {C : Type 0} (xs ys : List (SessionAction C)) → jobs (xs ++ ys) ≡ jobs xs + jobs ys
jobs-append [] ys = omega arith
jobs-append (send_packet bytes target ∷ xs) ys = jobs-append xs ys
jobs-append (offload_diff_job job target ∷ xs) ys = omega (arith, jobs-append xs ys)
jobs-append (resend_fragments n mask target ∷ xs) ys = jobs-append xs ys
jobs-append (shutdown ∷ xs) ys = jobs-append xs ys

module _ (pc : PacketCodec) (be : Backend) where
  -- Nothing has changed since the last frame.
  abbrev pub IsClean : Session pc be → Type 0
  IsClean s = (s.dirty ≡ false) × (s.ack_seq_num ≡ s.last_sent_ack_seq)

  -- A job leaves a clean session behind.
  abbrev pub IsSettled : Session pc be × List (Action pc be) → Type 0
  IsSettled x = (jobs x.1 ≡ 0) ⊎ IsClean x.0

  if-IsSettled :
      (b : Bool) (x y : Session pc be × List (Action pc be))
      → IsSettled x
      → IsSettled y
      → IsSettled (if b then x else y)
  if-IsSettled true x y hx hy = hx
  if-IsSettled false x y hx hy = hy

  sync_grid-IsSettled :
      (s : Session pc be) (grid : Result GridState) (now : ℕ)
      → IsSettled (sync_grid pc be s grid now)
  unfolding sync_grid queue_frame
  sync_grid-IsSettled s (err e) now = inl refl
  sync_grid-IsSettled s (ok grid) now =
      if-IsSettled
        (is_identical pc be s.state_history grid && not (ltb s.last_sent_ack_seq s.ack_seq_num)) _ _
        (inl refl) (inr (refl, refl))

  pub check_sync-IsSettled : (s : Session pc be) (now : ℕ) → IsSettled (check_sync pc be s now)
  unfolding check_sync
  check_sync-IsSettled s now =
      let calm =
        if leb (millis 50) (now - s.last_pty_bytes_time)
        then record s { pty_bytes_acc = 0 }
        else s in
      let (term, grid) = be.update_and_get_state calm.term_state in
      let taken = record calm { term_state = term } in
      let synced = sync_grid pc be taken grid now in
      let changed =
        if not s.dirty && leb s.ack_seq_num s.last_sent_ack_seq then (calm, []) else synced in
      if-IsSettled (ltb 0 s.seq_num && ltb (now - s.last_sync_time) (min_interval pc be s now))
        (s, []) changed (inl refl)
        (if-IsSettled (not s.dirty && leb s.ack_seq_num s.last_sent_ack_seq) (calm, []) synced
          (inl refl) (sync_grid-IsSettled taken grid now))

  -- A clean session stays so, and its tick does nothing.
  pub on_tick-IsClean :
      (s : Session pc be) (now : ℕ)
      → IsClean s
      → ((on_tick pc be s now).1 ≡ []) × IsClean (on_tick pc be s now).0
  unfolding on_tick check_sync
  on_tick-IsClean s now (clean, acked) =
      let waits = ltb 0 s.seq_num && ltb (now - s.last_sync_time) (min_interval pc be s now) in
      let quiet : (not s.dirty && leb s.ack_seq_num s.last_sent_ack_seq) ≡ true = ground arith in
      elim (Bool-cases waits) [
        | inl early ↦ rw early (refl, (clean, acked))
        | inr due ↦
            rw (due, quiet)
              (elim (Bool-cases (leb (millis 50) (now - s.last_pty_bytes_time))) [
                | inl long ↦ rw long (refl, (clean, acked))
                | inr short ↦ rw short (refl, (clean, acked))
              ])
      ]
