-- ===== src/Server/Network/Serving.antt =====
-- The loops of `run_server` of src/server/network.rs that take what the PTY, the timer, the socket
-- and the signals give, and its shutdown. Between two `await`s a loop is one step; the tasks that
-- the actions start are polled in any order.
pub mod Skipped
pub mod InFlight
pub mod Asked
pub mod Ends
use rumsh.Prelude.{
  ℕ, zero, suc, Bool, List, [], ◌∷◌, ◌++◌, Option, none, some, Result, ok, err, bail, panic, true,
  false, if◌then◌else◌,
}
use rumsh.Protocol.Codec.Interface.{PacketCodec}
use rumsh.Server.Interface.{Backend}
use rumsh.Server.Session.State.{Session, Action, SessionAction, send_packet}
use rumsh.Server.Session.Packets.{Answer, feed_packet, on_pty_bytes, on_tick, prepare_shutdown}
use rumsh.Server.Network.Tasks.{Task, Shared, Tasks, transmit, execute_actions, poll, still_running}

-- `polled` is the task with the index; `woken` is the shutdown handler, at its channel or its timer.
pub data ServerEvent : Type 0 where
  pty_data : (bytes : List ℕ) → (now : ℕ) → ServerEvent
  pty_closed : ServerEvent
  timer : (now : ℕ) → ServerEvent
  received : (bytes : List ℕ) → (src_addr now : ℕ) → ServerEvent
  receive_failed : ServerEvent
  polled : (idx : ℕ) → ServerEvent
  woken : ServerEvent
  signalled : ServerEvent

-- `closing` has the packets of the shutdown that are still to be sent.
pub data Phase : Type 0 where
  serving : Phase
  closing : (left : ℕ) → (bytes : List ℕ) → (target : ℕ) → Phase
  finished : Phase
  panicked : Phase

-- The task with the index runs to its next `await`; a task that there is not does nothing.
unfoldable pub poll_at :
    (pc : PacketCodec) → ℕ → Shared → List (Task pc.Codec) → Shared × List (Task pc.Codec)
poll_at pc idx sh [] = (sh, [])
poll_at pc zero sh (task ∷ running) =
    let (sh', left) = poll pc task sh in (sh', still_running left ++ running)
poll_at pc (suc idx) sh (task ∷ running) =
    let (sh', running') = poll_at pc idx sh running in (sh', task ∷ running')

module _ (pc : PacketCodec) (be : Backend) where
  pub record Server : Type 0 where
    pub session : Session pc be
    pub tasks : Tasks pc.Codec
    pub phase : Phase

  abbrev pub execute_answer : Server → Answer pc be → Server
  execute_answer self (session, ok actions) = record self {
    session = session;
    tasks = execute_actions actions self.tasks;
  }
  execute_answer self (session, err bail) = record self { session = session }
  execute_answer self (session, err panic) = record self { session = session; phase = panicked }

  -- The timer skips its turn while a difference is in flight.
  unfoldable pub on_timer : ℕ → Server → Server
  on_timer now self =
      let (session, actions) = on_tick pc be self.session now in
      if self.tasks.shared.diff_in_flight
      then self
      else record self { session = session; tasks = execute_actions actions self.tasks }

  abbrev pub send_shutdown : ℕ → List ℕ → ℕ → Server → Server
  send_shutdown left bytes target self = record self {
    tasks = record self.tasks { shared = transmit bytes target self.tasks.shared };
    phase = closing left bytes target;
  }

  -- `if let Ok(SessionAction::SendPacket { .. }) = action`.
  abbrev pub begin_shutdown : Server → Session pc be × Result (Action pc be) → Server
  begin_shutdown self (session, ok (send_packet bytes target)) =
      send_shutdown 2 bytes target (record self { session = session })
  begin_shutdown self (session, other) = record self { session = session; phase = finished }

  -- The shutdown handler goes on: its channel is read, or its timer of 50 ms is over.
  unfoldable pub wake : Phase → Server → Server
  wake serving self =
      if self.tasks.shared.shutdown_sent
      then begin_shutdown
          (record self {
            tasks = record self.tasks {
              shared = record self.tasks.shared { shutdown_sent = false };
            };
          })
          (prepare_shutdown pc be self.session)
      else self
  wake (closing zero bytes target) self = record self { phase = finished }
  wake (closing (suc left) bytes target) self = send_shutdown left bytes target self
  wake finished self = self
  wake panicked self = self

  unfoldable pub serve_event : ServerEvent → Server → Server
  unfolding on_timer wake poll_at
  serve_event (pty_data bytes now) self = record self {
    session = on_pty_bytes pc be self.session bytes now;
  }
  serve_event pty_closed self = record self {
    tasks = record self.tasks { shared = record self.tasks.shared { shutdown_sent = true } };
  }
  serve_event (timer now) self = on_timer now self
  serve_event (received bytes src_addr now) self =
      execute_answer self (feed_packet pc be self.session bytes src_addr now)
  serve_event receive_failed self = self
  serve_event (polled idx) self =
      let (shared, running) = poll_at pc idx self.tasks.shared self.tasks.running in
      record self { tasks = record { shared = shared; running = running } }
  serve_event woken self = wake self.phase self
  serve_event signalled self = record self { phase = finished }

  abbrev pub is_over : Phase → Bool
  is_over finished = true
  is_over panicked = true
  is_over other = false

  unfoldable pub serve_events : List ServerEvent → Server → Server
  unfolding serve_event
  serve_events [] self = self
  serve_events (e ∷ events) self =
      let next = serve_events events (serve_event e self) in
      if is_over self.phase then self else next
