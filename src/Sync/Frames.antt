-- ===== src/Sync/Frames.antt =====
-- A frame that the server queues, and what it gives on the client.
use rumsh.Prelude.{
  ℕ, ◌+◌, ◌*◌, ◌≤◌, ◌≡◌, ◌⊎◌, refl, sym, subst, ◌∙◌, ap, ap₂, Bool, true, false, List, [], ◌∷◌,
  Option, none, some, ok, ok_of_bind, ltb, ◌==◌, if◌then◌else◌, is_some, arith, inl, inr, ≢→==, ◌-◌,
}
use rumsh.Protocol.Grid.{
  GridState, FrameUpdate, diff_from, diff_rows, use_ref, patch, apply_diff, blank, u16_mod,
}
use rumsh.Protocol.Grid.Roundtrip.{diff_from-patch, diff_from-patch-blank}
use rumsh.Protocol.Grid.Roundtrip.Bases.{IsValid}
use rumsh.Protocol.Codec.Interface.{PacketCodec}
use rumsh.Server.Interface.{Backend}
use rumsh.Server.Session.State.{
  History, find_state, prune_history, Session, UpdateJob, SessionAction, offload_diff_job,
}
use rumsh.Server.Session.Queue.{queue_frame}
use rumsh.Sync.Histories.{Faithful, find_state-Knows, prune_history-Faithful, push_state-Faithful}

-- The header of a difference.
pub diff_from-header :
    (new : GridState) (ref : Option GridState) (ref_seq : ℕ) (echo : Bool) (d : FrameUpdate)
    → diff_from new ref ref_seq echo ≡ ok d
    → (d.ref_seq ≡ ref_seq) × (d.cols ≡ new.cols) × (d.rows ≡ new.rows)
unfolding diff_from
diff_from-header new ref ref_seq echo d e =
    let (rows, _, made) =
      ok_of_bind (diff_rows new (use_ref new.cols new.rows ref) new.rows 0) _ d e in
    let same : d ≡ record {
      ref_seq = ref_seq;
      cols = new.cols;
      rows = new.rows;
      cursor_x = new.cursor_x;
      cursor_y = new.cursor_y;
      cursor_visible = new.cursor_visible;
      row_updates = rows;
      is_echo_enabled = echo;
    } =
      cc made in
    (
      ap (λ (u : FrameUpdate). u.ref_seq) same,
      ap (λ (u : FrameUpdate). u.cols) same,
      ap (λ (u : FrameUpdate). u.rows) same,
    )

apply_diff-patch : (g : GridState) (u : FrameUpdate) → apply_diff g u ≡ patch g u
unfolding apply_diff
apply_diff-patch g u = refl

module _ (queued : ℕ → GridState) where
  -- The grid that an update refers to.
  abbrev pub referred : FrameUpdate → GridState
  referred u = if u.ref_seq == 0 then blank u.cols u.rows else queued u.ref_seq

  -- The update leads to the grid that was queued under the number.
  abbrev pub LeadsTo : ℕ → FrameUpdate → Type 0
  LeadsTo seq u = apply_diff (referred u) u ≡ ok (queued seq)

  module _ (valid : (k : ℕ) → IsValid (queued k))
      (small : (k : ℕ) → (queued k).cols * (queued k).rows ≤ u16_mod) where
    diff_from-LeadsTo :
        (seq ack : ℕ) (h : History) (ref : Option GridState) (echo : Bool)
        → Faithful queued h
        → (ref ≡ none) ⊎ (ref ≡ find_state ack h)
        → (u : FrameUpdate) × (diff_from (queued seq) ref (if is_some ref then ack else 0) echo
            ≡ ok u)
          × LeadsTo seq u
    diff_from-LeadsTo seq ack h none echo f from =
        let new = queued seq in
        let (u, e, patched) = diff_from-patch-blank new 0 echo (valid seq) (small seq) in
        let (ref_seq, cols, rows) = diff_from-header new none 0 echo u e in
        let base : referred u ≡ blank new.cols new.rows =
          ap (λ n. if n == 0 then blank u.cols u.rows else queued n) ref_seq
          ∙ ap₂ blank cols rows in
        (u, e, apply_diff-patch (referred u) u ∙ ap (λ g. patch g u) base ∙ patched)
    diff_from-LeadsTo seq ack h (some g) echo f from =
        let new = queued seq in
        let found : find_state ack h ≡ some g = elim from [
          | inl none_is ↦ cc none_is
          | inr found ↦ sym found
        ] in
        let (pos, known) = f ack g (find_state-Knows ack h g found) in
        let v : IsValid g = subst IsValid (sym known) (valid ack) in
        let (u, e, patched) = diff_from-patch new g ack echo (valid seq) v (small seq) in
        let (ref_seq, cols, rows) = diff_from-header new (some g) ack echo u e in
        let base : referred u ≡ g =
          ap (λ b. if b then blank u.cols u.rows else queued u.ref_seq)
            (ap (λ n. n == 0) ref_seq ∙ ≢→== ack 0 (omega arith))
          ∙ ap queued ref_seq
          ∙ sym known in
        (u, e, apply_diff-patch (referred u) u ∙ ap (λ g'. patch g' u) base ∙ patched)

if_cases :
    (b : Bool) (o : Option GridState)
    → ((if b then none else o) ≡ none) ⊎ ((if b then none else o) ≡ o)
if_cases true o = inl refl
if_cases false o = inr refl

module _ (pc : PacketCodec) (be : Backend) (queued : ℕ → GridState) where
  -- The number that the next frame of a session gets.
  abbrev pub next_seq : Session pc be → ℕ
  next_seq s = s.seq_num + 1

  abbrev pub queue_next : Session pc be → ℕ → Session pc be × List (SessionAction pc.Codec)
  queue_next s now = queue_frame pc be s (queued (next_seq s)) now

module _ (pc : PacketCodec) (be : Backend) (queued : ℕ → GridState)
    (valid : (k : ℕ) → IsValid (queued k))
    (small : (k : ℕ) → (queued k).cols * (queued k).rows ≤ u16_mod) where
  -- The job that is queued makes an update that leads to the grid.
  pub queue_frame-LeadsTo :
      (s : Session pc be) (now : ℕ)
      → Faithful queued s.state_history
      → (job : UpdateJob pc.Codec) × (u : FrameUpdate) × ((queue_next pc be queued s now).1
          ≡ offload_diff_job job s.current_client_addr ∷ [])
        × (job.seq ≡ next_seq pc be queued s)
        × (diff_from job.current_state job.ref_state job.ref_seq job.is_echo_recommended ≡ ok u)
        × LeadsTo queued (next_seq pc be queued s) u
        × Faithful queued (queue_next pc be queued s now).0.state_history
  unfolding queue_frame
  queue_frame-LeadsTo s now f =
      let history = prune_history s.client_ack_seq s.state_history in
      let kept = prune_history-Faithful queued s.client_ack_seq s.state_history f in
      let forced = ltb 5 (s.seq_num - s.client_ack_seq) in
      let found = find_state s.client_ack_seq history in
      let ref = if forced then none else found in
      let from : (ref ≡ none) ⊎ (ref ≡ found) = if_cases forced found in
      let (u, e, leads) =
        diff_from-LeadsTo queued valid small (next_seq pc be queued s) s.client_ack_seq history ref
          (be.is_echo_recommended s.pty) kept from in
      (
        record {
          seq = next_seq pc be queued s;
          ack_seq = s.ack_seq_num;
          ref_seq = if is_some ref then s.client_ack_seq else 0;
          ref_state = ref;
          current_state = queued (next_seq pc be queued s);
          codec = s.codec;
          is_echo_recommended = be.is_echo_recommended s.pty;
        },
        u,
        refl,
        refl,
        e,
        leads,
        push_state-Faithful queued history (next_seq pc be queued s) (omega arith) kept,
      )

  -- The same, of the job that was queued.
  pub queued_job-LeadsTo :
      (s : Session pc be) (now : ℕ) (job : UpdateJob pc.Codec) (u : FrameUpdate)
      → Faithful queued s.state_history
      → (queue_next pc be queued s now).1 ≡ offload_diff_job job s.current_client_addr ∷ []
      → diff_from job.current_state job.ref_state job.ref_seq job.is_echo_recommended ≡ ok u
      → (s.seq_num + 1 ≡ job.seq)
        × LeadsTo queued (s.seq_num + 1) u
        × Faithful queued (queue_next pc be queued s now).0.state_history
  queued_job-LeadsTo s now job u f queues makes =
      let (job', u', queues', number, makes', leads, faithful) = queue_frame-LeadsTo s now f in
      let same_job : job' ≡ job = cc (queues, queues') in
      let same : u' ≡ u = cc (
        makes,
        makes',
        ap
            (λ (j : UpdateJob pc.Codec).
              diff_from j.current_state j.ref_state j.ref_seq j.is_echo_recommended)
            same_job,
      ) in
      (
        sym number ∙ ap (λ (j : UpdateJob pc.Codec). j.seq) same_job,
        subst (LeadsTo queued (s.seq_num + 1)) same leads,
        faithful,
      )
