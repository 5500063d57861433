-- ===== src/Client/Session/State.antt =====
-- The state of `MirrorSession`, its actions, and how a step ends.
use rumsh.Prelude.{ℕ, Bool, true, false, List, [], ◌++◌, Result, ok, err, Map}
use rumsh.Protocol.Grid.{GridState}
use rumsh.Protocol.Codec.Interface.{PacketCodec}
use rumsh.Client.Floats.{F32}
use rumsh.Client.Escape
use rumsh.Client.Escape.{EscapeState}
use rumsh.Client.Terminal
use rumsh.Client.Terminal.{TerminalInner, set_overlay_enabled}
use rumsh.Server.Interface.{secs}

pub data ClientAction : Type 0 where
  send_packet : List ℕ → ClientAction
  paint suspend show_help disconnect : ClientAction

module _ (f32 : F32) (pc : PacketCodec) where
  pub record Mirror : Type 0 where
    pub session_id : ℕ
    pub seq_num : ℕ
    pub ack_seq_num : ℕ
    pub codec : pc.Codec
    pub last_recv_time : ℕ
    pub is_echo_enabled : Bool
    pub sent_packets : Map ℕ
    pub unacked_packets : Map (List ℕ × ℕ)
    pub last_arq_check : ℕ
    pub last_keepalive_sent : ℕ
    pub keepalive_interval : ℕ
    pub last_ack_sent : ℕ
    pub is_reconnecting : Bool
    pub transient_seq_num : ℕ
    pub last_nack_check : ℕ
    pub nacked_frames : Map ℕ
    pub expected_server_seq : ℕ
    pub loss_window : List Bool
    pub state_history : List (ℕ × GridState)
    pub last_telemetry_calc : ℕ
    pub bytes_recv_acc : ℕ
    pub comp_acc : ℕ
    pub decomp_acc : ℕ
    pub paint_count_acc : ℕ
    pub mirror : TerminalInner f32.F
    pub interpreter : EscapeState

  unfoldable pub new : ℕ → pc.Codec → ℕ → ℕ → ℕ → Bool → ℕ → Mirror
  new session_id codec start_server_seq cols rows overlay now = record {
    session_id = session_id;
    seq_num = 0;
    ack_seq_num = 0;
    codec = codec;
    last_recv_time = now;
    is_echo_enabled = true;
    sent_packets = [];
    unacked_packets = [];
    last_arq_check = now;
    last_keepalive_sent = now;
    keepalive_interval = secs 2;
    last_ack_sent = now;
    is_reconnecting = false;
    transient_seq_num = 0;
    last_nack_check = now;
    nacked_frames = [];
    expected_server_seq = start_server_seq;
    loss_window = [];
    state_history = [];
    last_telemetry_calc = now;
    bytes_recv_acc = 0;
    comp_acc = 0;
    decomp_acc = 0;
    paint_count_acc = 0;
    mirror = set_overlay_enabled (Terminal.new f32 cols rows) overlay;
    interpreter = Escape.new;
  }

  -- What a step returns: the session, and the actions or an error.
  abbrev pub Answer : Type 0
  Answer = Mirror × Result (List ClientAction)

  abbrev pub add_actions : List ClientAction → Answer → Answer
  add_actions first (s, ok rest) = (s, ok (first ++ rest))
  add_actions first (s, err e) = (s, err e)

  -- The next stage of a step, unless this one failed.
  abbrev pub and_then : Answer → (Mirror → Answer) → Answer
  and_then (s, err e) next = (s, err e)
  and_then (s, ok actions) next = add_actions actions (next s)

  -- A call of the terminal, then the rest.
  abbrev pub with_mirror : Mirror → Result (TerminalInner f32.F) → (Mirror → Answer) → Answer
  with_mirror s (ok m) next = next (record s { mirror = m })
  with_mirror s (err e) next = (s, err e)
