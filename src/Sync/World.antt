-- ===== src/Sync/World.antt =====
-- Runs of the server (src/server/session.rs) and of the client (src/client/session.rs) in which the
-- server's `client_ack_seq` is a number that the client did acknowledge. The network loses, repeats
-- and reorders datagrams.
use rumsh.Prelude.{ℕ, ◌+◌, ◌≤◌, ◌≡◌, ◌⊎◌, false, List, [], ◌∷◌, some, ok}
use rumsh.Protocol.{ServerPayload}
use rumsh.Protocol.Grid.{GridState, FrameUpdate, diff_from}
use rumsh.Protocol.Codec.Interface.{PacketCodec, OpenedServer}
use rumsh.Client.Floats.{F32}
use rumsh.Client.Session.State.{Mirror, ClientAction}
use rumsh.Client.Session.Receive.{feed_packet}
use rumsh.Server.Interface.{Backend}
use rumsh.Server.Session.State.{Session, UpdateJob, offload_diff_job}
use rumsh.Sync.Frames.{queue_next}
use rumsh.Sync.Hearing.{is_frame}

-- The payloads that were sent, each with its number.
abbrev pub IsSent : ℕ → ServerPayload → List (ℕ × ServerPayload) → Type 0
IsSent n p [] = ⊥
IsSent n p ((k, q) ∷ sent) = ((k ≡ n) × (q ≡ p)) ⊎ IsSent n p sent

abbrev pub IsFrameSent : ℕ → List (ℕ × ServerPayload) → Type 0
IsFrameSent n sent = (u : FrameUpdate) × IsSent n (ServerPayload.frame u) sent

-- The numbers that the client has acknowledged.
abbrev pub IsAcked : ℕ → List ℕ → Type 0
IsAcked a [] = ⊥
IsAcked a (k ∷ acks) = (k ≡ a) ⊎ IsAcked a acks

module _ (f32 : F32) (pc : PacketCodec) (be : Backend) where
  pub record World : Type 0 where
    pub server : Session pc be
    pub sent : List (ℕ × ServerPayload)
    pub client : Mirror f32 pc
    pub acks : List ℕ

  module _ (queued : ℕ → GridState) where
    -- `queued k` is the grid that the server queues as frame `k`. `start` is a new connection,
    -- `queue` queues a frame, `reply` sends any other payload and `serve` is whatever else the
    -- server does, for example with the client's packets. `hear` gives the client a datagram of
    -- something sent so far, and `act` is whatever else the client does.
    pub data Run : World → Type 1 where
      start :
          (s : Session pc be) (c : Mirror f32 pc)
          → s.state_history ≡ []
          → s.client_ack_seq ≡ 0
          → c.state_history ≡ []
          → c.ack_seq_num ≡ 0
          → Run (record { server = s; sent = []; client = c; acks = [] })
      queue :
          (w : World) (now : ℕ) (job : UpdateJob pc.Codec) (u : FrameUpdate)
          → Run w
          → (queue_next pc be queued w.server now).1
            ≡ offload_diff_job job w.server.current_client_addr ∷ []
          → diff_from job.current_state job.ref_state job.ref_seq job.is_echo_recommended ≡ ok u
          → Run (record w {
            server = (queue_next pc be queued w.server now).0;
            sent = (job.seq, ServerPayload.frame u) ∷ w.sent;
          })
      reply :
          (w : World) (s : Session pc be) (p : ServerPayload)
          → Run w
          → is_frame p ≡ false
          → s.seq_num ≡ w.server.seq_num + 1
          → s.client_ack_seq ≡ w.server.client_ack_seq
          → s.state_history ≡ w.server.state_history
          → Run (record w { server = s; sent = (w.server.seq_num + 1, p) ∷ w.sent })
      serve :
          (w : World) (s : Session pc be)
          → Run w
          → w.server.seq_num ≤ s.seq_num
          → (s.client_ack_seq ≡ w.server.client_ack_seq)
            ⊎ (s.client_ack_seq ≡ 0)
            ⊎ IsAcked s.client_ack_seq w.acks
          → (s.state_history ≡ w.server.state_history) ⊎ (s.state_history ≡ [])
          → Run (record w { server = s })
      hear :
          (w : World) (bytes : List ℕ) (now : ℕ) (codec : pc.Codec) (opened : OpenedServer)
          (actions : List ClientAction)
          → Run w
          → pc.open_server w.client.codec bytes ≡ (codec, ok (some opened))
          → IsSent opened.0.seq_num opened.1 w.sent
          → (feed_packet f32 pc w.client bytes now).1 ≡ ok actions
          → Run (record w {
            client = (feed_packet f32 pc w.client bytes now).0;
            acks = (feed_packet f32 pc w.client bytes now).0.ack_seq_num ∷ w.acks;
          })
      act :
          (w : World) (c : Mirror f32 pc)
          → Run w
          → c.state_history ≡ w.client.state_history
          → c.ack_seq_num ≡ w.client.ack_seq_num
          → Run (record w { client = c })
