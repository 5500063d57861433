-- ===== src/Sync/Queueing.antt =====
-- The reference of a frame that the server queues (`queue_frame`, from src/server/session.rs): none,
-- or a grid that is at most five numbers old.
use rumsh.Prelude.{
  ℕ, suc, ◌+◌, ◌-◌, ◌≤◌, ◌≡◌, ◌⊎◌, refl, sym, subst, ◌∙◌, ap, Bool, true, false, List, [], ◌∷◌,
  ◌++◌, ◌&&◌, Option, none, some, ok, length, ltb, is_some, if◌then◌else◌, arith, inl, inr,
  Bool-cases,
}
use rumsh.Protocol.Grid.{GridState, FrameUpdate, diff_from}
use rumsh.Protocol.Codec.Interface.{PacketCodec}
use rumsh.Server.Interface.{Backend}
use rumsh.Server.Session.State.{
  History, find_state, prune_history, push_state, pop_front, Session, UpdateJob, offload_diff_job,
  SessionAction,
}
use rumsh.Server.Session.Queue.{queue_frame}
use rumsh.Sync.Histories.{Knows, find_state-Knows}
use rumsh.Sync.Frames.{diff_from-header}

prune_history-Knows :
    (ack : ℕ) (h : History) (n : ℕ) (g : GridState) → Knows (prune_history ack h) n g → Knows h n g
unfolding prune_history
prune_history-Knows ack [] n g m = m
prune_history-Knows ack ((k, s) ∷ h) n g m =
    elim (Bool-cases (ltb k ack && ltb 100 (suc (length h)))) [
      | inl old ↦ inr (prune_history-Knows ack h n g (rw old at m))
      | inr young ↦ rw young at m
    ]

append_inv :
    (h : History) (k n : ℕ) (x g : GridState) → Knows (h ++ (k, x) ∷ []) n g → (k ≡ n) ⊎ Knows h n g
append_inv [] k n x g (inl (e, same)) = inl e
append_inv [] k n x g (inr m) = inr m
append_inv ((j, s) ∷ h) k n x g (inl here) = inr (inl here)
append_inv ((j, s) ∷ h) k n x g (inr m) = elim (append_inv h k n x g m) [
  | inl e ↦ inl e
  | inr old ↦ inr (inr old)
]

pop_front-Knows : (h : History) (n : ℕ) (g : GridState) → Knows (pop_front h) n g → Knows h n g
pop_front-Knows [] n g m = m
pop_front-Knows (e ∷ h) n g m = inr m

push_state_inv :
    (h : History) (k n : ℕ) (x g : GridState) → Knows (push_state h k x) n g → (k ≡ n) ⊎ Knows h n g
unfolding push_state
push_state_inv h k n x g m =
    let longer = h ++ (k, x) ∷ [] in
    elim (Bool-cases (ltb 200 (length longer))) [
      | inl full ↦ append_inv h k n x g (pop_front-Knows longer n g (rw full at m))
      | inr room ↦ append_inv h k n x g (rw room at m)
    ]

-- The reference of the first job among some actions.
abbrev ref_of : {C : Type 0} → List (SessionAction C) → ℕ
ref_of (offload_diff_job job addr ∷ actions) = job.ref_seq
ref_of actions = 0

module _ (pc : PacketCodec) (be : Backend) (s : Session pc be) (grid : GridState) (now : ℕ) where
  -- What the server remembers after it has queued a frame.
  pub queue_frame-Knows :
      (n : ℕ) (g : GridState)
      → Knows (queue_frame pc be s grid now).0.state_history n g
      → (s.seq_num + 1 ≡ n) ⊎ Knows s.state_history n g
  unfolding queue_frame
  queue_frame-Knows n g m =
      let history = prune_history s.client_ack_seq s.state_history in
      elim (push_state_inv history (s.seq_num + 1) n grid g m) [
        | inl new ↦ inl new
        | inr old ↦ inr (prune_history-Knows s.client_ack_seq s.state_history n g old)
      ]

  -- The reference is none or the grid that the client has acknowledged, at most five frames ago.
  abbrev pub Refers : ℕ → Type 0
  Refers ref_seq =
      (ref_seq ≡ 0)
      ⊎ ((ref_seq ≡ s.client_ack_seq)
          × ((g : GridState) × Knows s.state_history s.client_ack_seq g)
          × (s.seq_num + 1 ≤ s.client_ack_seq + 6))

  job_ref :
      (forced : Bool) (found : Option GridState)
      → ltb 5 (s.seq_num - s.client_ack_seq) ≡ forced
      → find_state s.client_ack_seq (prune_history s.client_ack_seq s.state_history) ≡ found
      → Refers (if is_some (if forced then none else found) then s.client_ack_seq else 0)
  job_ref true found late e = inl refl
  job_ref false none recent e = inl refl
  job_ref false (some g) recent e =
      let history = prune_history s.client_ack_seq s.state_history in
      inr (
        refl,
        (
          g,
          prune_history-Knows s.client_ack_seq s.state_history s.client_ack_seq g
              (find_state-Knows s.client_ack_seq history g e),
        ),
        ground arith,
      )

  pub queue_frame-Refers :
      (job : UpdateJob pc.Codec) (u : FrameUpdate)
      → (queue_frame pc be s grid now).1 ≡ offload_diff_job job s.current_client_addr ∷ []
      → diff_from job.current_state job.ref_state job.ref_seq job.is_echo_recommended ≡ ok u
      → Refers u.ref_seq
  unfolding queue_frame
  queue_frame-Refers job u queued made =
      let (ref_seq, cols, rows) =
        diff_from-header job.current_state job.ref_state job.ref_seq job.is_echo_recommended u
          made in
      subst Refers (sym (ref_seq ∙ sym (ap ref_of queued))) (job_ref _ _ refl refl)
