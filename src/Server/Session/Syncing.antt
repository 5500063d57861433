-- ===== src/Server/Session/Syncing.antt =====
-- What `sync_grid`, the end of `check_sync` of src/server/session.rs, makes of the grid.
use rumsh.Prelude.{
  ℕ, ◌+◌, ◌-◌, ◌≤◌, ◌<◌, ◌≡◌, ◌≢◌, ◌⊎◌, refl, sym, Bool, true, false, not, ◌&&◌, List, [], ◌∷◌,
  Result, ok, err, Failure, length, ltb, if◌then◌else◌, arith, Bool-cases, inl, inr, Option, none,
  some, is_some,
}
use rumsh.Protocol.Grid.{GridState}
use rumsh.Protocol.Codec.Interface.{PacketCodec}
use rumsh.Server.Interface.{Backend}
use rumsh.Server.Session.State.{
  Session, Action, UpdateJob, offload_diff_job, find_state, last_state, History, prune_history,
}
use rumsh.Server.Session.Queue.{sync_grid, queue_frame, is_identical}
use rumsh.Server.Session.Newest.{
  prune_history_size, push_state_size, find_state-prune_history, last_state-push_state,
  is_identical-cases,
}

-- What a frame refers to: the grid that the client acknowledged, if the session still has it and it
-- is at most five numbers behind, and otherwise nothing.
abbrev pub RefersTo : History → ℕ → ℕ → Option GridState → ℕ → Type 0
RefersTo history ack lag ref_state ref_seq =
    ((ref_state ≡ none) × (ref_seq ≡ 0) × ((5 < lag) ⊎ (find_state ack history ≡ none)))
    ⊎ ((g : GridState) × (ref_state ≡ some g)
        × (find_state ack history ≡ some g)
        × (ref_seq ≡ ack)
        × (lag ≤ 5))

reference_cases :
    (history : History) (lag ack : ℕ) (found : Option GridState)
    → find_state ack history ≡ found
    → let ref = if ltb 5 lag then none else found in
      RefersTo history ack lag ref (if is_some ref then ack else 0)
reference_cases history lag ack none e = elim (Bool-cases (ltb 5 lag)) [
  | inl far ↦ inl (rw far (refl, refl, inr e))
  | inr near ↦ inl (rw near (refl, refl, inr e))
]
reference_cases history lag ack (some g) e = elim (Bool-cases (ltb 5 lag)) [
  | inl far ↦ inl (rw far (refl, refl, inl (ground arith)))
  | inr near ↦ inr (g, rw near refl, e, rw near refl, ground arith)
]

module _ (pc : PacketCodec) (be : Backend) where
  -- What `check_sync` reads and writes.
  pub record Key : Type 0 where
    pub seq_num : ℕ
    pub ack_seq_num : ℕ
    pub client_ack_seq : ℕ
    pub last_sent_ack_seq : ℕ
    pub last_sync_time : ℕ
    pub current_client_addr : ℕ
    pub dirty : Bool
    pub state_history : History
    pub codec : pc.Codec
    pub pty : be.Pty

  abbrev pub key : Session pc be → Key
  key s = record {
    seq_num = s.seq_num;
    ack_seq_num = s.ack_seq_num;
    client_ack_seq = s.client_ack_seq;
    last_sent_ack_seq = s.last_sent_ack_seq;
    last_sync_time = s.last_sync_time;
    current_client_addr = s.current_client_addr;
    dirty = s.dirty;
    state_history = s.state_history;
    codec = s.codec;
    pty = s.pty;
  }

  -- The grid was queued: one job for the client, with that grid, under the next number, with the
  -- acknowledgement, the codec and the echo hint of the moment. The grid is then the last one of the
  -- history.
  pub record Queued (k : Key) (grid : GridState) (s' : Session pc be)
      (actions : List (Action pc be)) (now : ℕ) : Type 0 where
    pub job : UpdateJob pc.Codec
    pub only : actions ≡ offload_diff_job job k.current_client_addr ∷ []
    pub shows : job.current_state ≡ grid
    pub number : (job.seq ≡ k.seq_num + 1) × (s'.seq_num ≡ job.seq)
    pub acknowledged : (job.ack_seq ≡ k.ack_seq_num) × (s'.last_sent_ack_seq ≡ k.ack_seq_num)
    pub reference :
        RefersTo k.state_history k.client_ack_seq
          (k.seq_num - k.client_ack_seq)
          job.ref_state
          job.ref_seq
    pub sealing : job.codec ≡ k.codec
    pub echo : job.is_echo_recommended ≡ be.is_echo_recommended k.pty
    pub newest : last_state s'.state_history ≡ some grid
    pub clean : s'.dirty ≡ false
    pub time : s'.last_sync_time ≡ now

  -- Nothing was sent, and the session is left with that key.
  abbrev pub Silent : Key → Session pc be → List (Action pc be) → Type 0
  Silent k s' actions = (actions ≡ []) × (key s' ≡ k)

  -- A frame is due, and this is what the emulator gives. A grid that is the last one already and
  -- that owes no acknowledgement only makes the session clean; any other is queued.
  abbrev pub Synced : Key → Result GridState → Session pc be × List (Action pc be) → ℕ → Type 0
  Synced k state (s', actions) now =
      ((e : Failure) × (state ≡ err e) × Silent k s' actions)
      ⊎ ((grid : GridState) × (state ≡ ok grid)
          × (((last_state k.state_history ≡ some grid)
                × (k.ack_seq_num ≤ k.last_sent_ack_seq)
                × Silent (record k { dirty = false }) s' actions)
              ⊎ (((last_state k.state_history ≢ some grid) ⊎ (k.last_sent_ack_seq < k.ack_seq_num))
                  × Queued k grid s' actions now)))

  queue_frame-Queued :
      (s : Session pc be) (grid : GridState) (now : ℕ)
      → let (s', actions) = queue_frame pc be s grid now in Queued (key s) grid s' actions now
  unfolding queue_frame
  queue_frame-Queued s grid now =
      let history = prune_history s.client_ack_seq s.state_history in
      let found = find_state s.client_ack_seq history in
      let lag = s.seq_num - s.client_ack_seq in
      let ref = if ltb 5 lag then none else found in
      record {
        job = record {
          seq = s.seq_num + 1;
          ack_seq = s.ack_seq_num;
          ref_seq = if is_some ref then s.client_ack_seq else 0;
          ref_state = ref;
          current_state = grid;
          codec = s.codec;
          is_echo_recommended = be.is_echo_recommended s.pty;
        };
        only = refl;
        shows = refl;
        number = (refl, refl);
        acknowledged = (refl, refl);
        reference =
            reference_cases s.state_history lag s.client_ack_seq found
              (sym (find_state-prune_history s.client_ack_seq s.state_history));
        sealing = refl;
        echo = refl;
        newest = last_state-push_state history (s.seq_num + 1) grid;
        clean = refl;
        time = refl;
      }

  pub sync_grid-Synced :
      (s : Session pc be) (state : Result GridState) (now : ℕ)
      → Synced (key s) state (sync_grid pc be s state now) now
  unfolding sync_grid
  sync_grid-Synced s (err e) now = inl (e, refl, (refl, refl))
  sync_grid-Synced s (ok grid) now = inr (
    grid,
    refl,
    elim (is_identical-cases pc be s.state_history grid) [
      | inr (changed, other) ↦ rw changed (inr (inl other, queue_frame-Queued s grid now))
      | inl (same, last) ↦ elim (Bool-cases (ltb s.last_sent_ack_seq s.ack_seq_num)) [
        | inl owes ↦ rw (same, owes) (inr (inr (ground arith), queue_frame-Queued s grid now))
        | inr owes_none ↦ rw (same, owes_none) (inl (last, ground arith, (refl, refl)))
      ]
    ],
  )

  if_size :
      (b : Bool) (x y : Session pc be × List (Action pc be))
      → length x.0.state_history ≤ 200
      → length y.0.state_history ≤ 200
      → length (if b then x else y).0.state_history ≤ 200
  if_size true x y hx hy = hx
  if_size false x y hx hy = hy

  pub sync_grid_size :
      (s : Session pc be) (state : Result GridState) (now : ℕ)
      → length s.state_history ≤ 200
      → length (sync_grid pc be s state now).0.state_history ≤ 200
  unfolding sync_grid queue_frame
  sync_grid_size s (err e) now few = few
  sync_grid_size s (ok grid) now few =
      if_size
        (is_identical pc be s.state_history grid && not (ltb s.last_sent_ack_seq s.ack_seq_num))
        (record s { dirty = false }, []) (queue_frame pc be s grid now) few
        (push_state_size (prune_history s.client_ack_seq s.state_history) (s.seq_num + 1) grid
          (omega (arith, prune_history_size s.client_ack_seq s.state_history)))
