-- ===== src/Server/Session/State.antt =====
-- The state of `AuthoritativeSession`, its actions, its history of grids, and `UpdateJob::run`.
use rumsh.Prelude.{
  ℕ, suc, ◌+◌, Bool, false, ◌&&◌, List, [], ◌∷◌, ◌++◌, Option, none, some, Result, ◌>>=◌, length,
  Map, ltb, ◌==◌, if◌then◌else◌, ℕ_discrete,
}
use rumsh.Protocol.{ClientPayload, ServerPayload}
use rumsh.Protocol.Grid.{GridState, diff_from}
use rumsh.Protocol.Codec.Interface.{PacketCodec}
use rumsh.Server.Interface.{Backend}

-- The derived `PartialEq` of `GridState`.
unfoldable pub GridState-discrete : Discrete GridState
unfolding ℕ_discrete
GridState-discrete = hlevel ℕ_discrete

pub record UpdateJob (C : Type 0) : Type 0 where
  pub seq : ℕ
  pub ack_seq : ℕ
  pub ref_seq : ℕ
  pub ref_state : Option GridState
  pub current_state : GridState
  pub codec : C
  pub is_echo_recommended : Bool

pub data SessionAction (C : Type 0) : Type 0 where
  send_packet : (bytes : List ℕ) → (target : ℕ) → SessionAction C
  offload_diff_job : (job : UpdateJob C) → (target : ℕ) → SessionAction C
  resend_fragments : (frame_seq : ℕ) → (received_mask : List ℕ) → (target : ℕ) → SessionAction C
  shutdown : SessionAction C

abbrev pub History : Type 0
History = List (ℕ × GridState)

-- `history.iter().find(|(seq, _)| *seq == wanted)`, and `history.back()`.
abbrev pub find_state : ℕ → History → Option GridState
find_state wanted [] = none
find_state wanted ((seq, s) ∷ h) = if seq == wanted then some s else find_state wanted h

abbrev pub last_state : History → Option GridState
last_state [] = none
last_state ((seq, s) ∷ []) = some s
last_state ((seq, s) ∷ e ∷ h) = last_state (e ∷ h)

-- `while front.0 < client_ack && len > 100 { pop_front }`.
unfoldable pub prune_history : ℕ → History → History
prune_history client_ack [] = []
prune_history client_ack ((seq, s) ∷ h) =
    if ltb seq client_ack && ltb 100 (suc (length h))
    then prune_history client_ack h
    else (seq, s) ∷ h

-- `push_back`, then `pop_front` if there are more than 200.
abbrev pub pop_front {ℓ} : {A : Type ℓ} → List A → List A
pop_front [] = []
pop_front (x ∷ xs) = xs

unfoldable pub push_state : History → ℕ → GridState → History
push_state h seq s =
    let longer = h ++ (seq, s) ∷ [] in if ltb 200 (length longer) then pop_front longer else longer

module _ (pc : PacketCodec) where
  open pc use {Codec, seal_server}

  -- `UpdateJob::run`.
  unfoldable pub run_job : UpdateJob Codec → Result (List (List ℕ))
  run_job job = do
    update ← diff_from job.current_state job.ref_state job.ref_seq job.is_echo_recommended
    seal_server job.codec job.seq job.ack_seq (ServerPayload.frame update)

module _ (pc : PacketCodec) (be : Backend) where
  open pc use {Codec, open_client, seal_server}

  pub record Session : Type 0 where
    pub session_id : ℕ
    pub seq_num : ℕ
    pub ack_seq_num : ℕ
    pub expected_client_seq : ℕ
    pub out_of_order_packets : Map ClientPayload
    pub client_ack_seq : ℕ
    pub last_sent_ack_seq : ℕ
    pub state_history : History
    pub codec : Codec
    pub current_client_addr : ℕ
    pub last_recv_time : ℕ
    pub last_sync_time : ℕ
    pub last_pty_bytes_time : ℕ
    pub pty_bytes_acc : ℕ
    pub dirty : Bool
    pub term_state : be.Term
    pub pty : be.Pty

  abbrev pub Action : Type 0
  Action = SessionAction Codec

  unfoldable pub new : ℕ → Codec → ℕ → ℕ → be.Term → be.Pty → ℕ → Session
  new session_id codec client_start_seq initial_client_addr term pty now = record {
    session_id = session_id;
    seq_num = 0;
    ack_seq_num = client_start_seq;
    expected_client_seq = client_start_seq + 1;
    out_of_order_packets = [];
    client_ack_seq = 0;
    last_sent_ack_seq = 0;
    state_history = [];
    codec = codec;
    current_client_addr = initial_client_addr;
    last_recv_time = now;
    last_sync_time = now;
    last_pty_bytes_time = now;
    pty_bytes_acc = 0;
    dirty = false;
    term_state = term;
    pty = pty;
  }
