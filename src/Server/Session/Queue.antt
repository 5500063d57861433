-- ===== src/Server/Session/Queue.antt =====
-- `AuthoritativeSession::check_sync`: when a frame is queued, and against which reference.
use rumsh.Prelude.{
  ℕ, ◌+◌, ◌-◌, Bool, true, false, not, ◌&&◌, List, [], ◌∷◌, none, some, is_some, Result, ok, err,
  ltb, leb, if◌then◌else◌, ite,
}
use rumsh.Protocol.Grid.{GridState}
use rumsh.Protocol.Codec.Interface.{PacketCodec}
use rumsh.Server.Interface.{Backend, millis}
use rumsh.Server.Session.State.{
  GridState-discrete, UpdateJob, offload_diff_job, History, find_state, last_state, prune_history,
  push_state, Session, Action,
}

module _ (pc : PacketCodec) (be : Backend) where
  open pc use {Codec}

  -- From "Retain up to 200 states" on: the frame is queued.
  unfoldable pub queue_frame : Session pc be → GridState → ℕ → Session pc be × List (Action pc be)
  unfolding prune_history push_state
  queue_frame self grid now =
      let history = prune_history self.client_ack_seq self.state_history in
      let force_full_sync = ltb 5 (self.seq_num - self.client_ack_seq) in
      let ref_state = if force_full_sync then none else find_state self.client_ack_seq history in
      let seq = self.seq_num + 1 in
      let job : UpdateJob Codec = record {
        seq = seq;
        ack_seq = self.ack_seq_num;
        ref_seq = if is_some ref_state then self.client_ack_seq else 0;
        ref_state = ref_state;
        current_state = grid;
        codec = self.codec;
        is_echo_recommended = be.is_echo_recommended self.pty;
      } in
      (
        record self {
          last_sent_ack_seq = self.ack_seq_num;
          dirty = false;
          last_sync_time = now;
          seq_num = seq;
          state_history = push_state history seq grid;
        },
        offload_diff_job job self.current_client_addr ∷ [],
      )

  unfoldable pub is_identical : History → GridState → Bool
  is_identical h grid = elim (last_state h) [
    | none ↦ false
    | some s ↦ ite (GridState-discrete s grid) true false
  ]

  unfoldable pub sync_grid :
      Session pc be → Result GridState → ℕ → Session pc be × List (Action pc be)
  unfolding queue_frame is_identical
  sync_grid self (err e) now = (self, [])
  sync_grid self (ok grid) now =
      let queued = queue_frame self grid now in
      if is_identical self.state_history grid && not (ltb self.last_sent_ack_seq self.ack_seq_num)
      then (record self { dirty = false }, [])
      else queued

  abbrev pub is_flooding : Session pc be → ℕ → Bool
  is_flooding self now =
      ltb 2048 self.pty_bytes_acc && ltb (now - self.last_pty_bytes_time) (millis 50)

  abbrev pub min_interval : Session pc be → ℕ → ℕ
  min_interval self now = if is_flooding self now then millis 150 else millis 16

  unfoldable pub check_sync : Session pc be → ℕ → Session pc be × List (Action pc be)
  unfolding sync_grid
  check_sync self now =
      let calm =
        if leb (millis 50) (now - self.last_pty_bytes_time)
        then record self { pty_bytes_acc = 0 }
        else self in
      let (term, state) = be.update_and_get_state calm.term_state in
      let synced = sync_grid (record calm { term_state = term }) state now in
      if ltb 0 self.seq_num && ltb (now - self.last_sync_time) (min_interval self now)
      then (self, [])
      else (if not self.dirty && leb self.ack_seq_num self.last_sent_ack_seq
          then (calm, [])
          else synced)
