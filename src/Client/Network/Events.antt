-- ===== src/Client/Network/Events.antt =====
-- The event loop of `run_client` of src/client/network.rs. Standard input, the socket and the clock
-- are what the events and the readings of the clock say; a write is taken to succeed.
pub mod Sound
pub mod Ends
use rumsh.Prelude.{
  ℕ, ◌+◌, ◌-◌, ◌*◌, min, max, Bool, true, false, List, [], ◌∷◌, ◌++◌, Option, none, some, Result,
  ok, err, Failure, bail, panic, ltb, ◌==◌, if◌then◌else◌,
}
use rumsh.Prelude.Stateful.{M, ◌>>=◌, ◌>>◌, pure}
use rumsh.Protocol.Codec.Interface.{PacketCodec}
use rumsh.Client.Floats.{F32}
use rumsh.Client.Frame
use rumsh.Client.Frame.{TerminalFrame}
use rumsh.Client.Paint
use rumsh.Client.Paint.{Command}
use rumsh.Client.Lifecycle
use rumsh.Client.Lifecycle.{LifecycleBackend, with_backend, clear_and_resize, drop_lifecycle}
use rumsh.Client.Session.State
use rumsh.Client.Session.State.{ClientAction, Mirror, Answer}
use rumsh.Client.Session.State.ClientAction.{send_packet, paint, suspend, show_help, disconnect}
use rumsh.Client.Session.Receive.{feed_packet}
use rumsh.Client.Session.Stdin.{feed_stdin, on_winch}
use rumsh.Client.Session.Tick.{on_tick, copy_frame_if_dirty}
use rumsh.Server.Interface.{millis}

-- What the race of the timer, the socket and the channel gives.
pub data LoopEvent : Type 0 where
  tick : LoopEvent
  recv : (packet : List ℕ) → (src : ℕ) → LoopEvent
  recv_failed : LoopEvent
  stdin : List ℕ → LoopEvent
  resize : (cols rows : ℕ) → LoopEvent
  closed : LoopEvent

-- After a frame that took `paint_duration` to paint, and after none.
abbrev pub paced : ℕ → ℕ
paced paint_duration = min (max (paint_duration * 3) (millis 16)) (millis 100)

abbrev pub quickened : ℕ → ℕ
quickened tick_interval =
    if ltb (millis 16) tick_interval
    then max (tick_interval - millis 1) (millis 16)
    else tick_interval

module _ (f32 : F32) (pc : PacketCodec) (lb : LifecycleBackend) (server_addr : ℕ) (clock : ℕ → ℕ)
    (format : TerminalFrame f32.F → List ℕ) where
  -- The variables of `run_client`, with the datagrams and the commands that went out, and how often
  -- the clock was read.
  pub record Client : Type 0 where
    pub session : Mirror f32 pc
    pub back_buffer : TerminalFrame f32.F
    pub tick_interval : ℕ
    pub backend : lb.Backend
    pub wire : List (List ℕ)
    pub output : List Command
    pub readings : ℕ

  -- `Instant::now()`.
  abbrev pub now : M Client ℕ
  now c = (record c { readings = c.readings + 1 }, ok (clock c.readings))

  abbrev pub painted_by :
      Client → Result (TerminalFrame f32.F × List Command × Bool) → Client × Result (Unit {0})
  painted_by c (err e) = (c, err e)
  painted_by c (ok (back_buffer, commands, real_update)) =
      (record c { back_buffer = back_buffer; output = c.output ++ commands }, ok tt)

  -- What the renderer writes; an error of it is logged, so only a panic gets through.
  unfoldable pub repaint : M Client (Unit {0})
  repaint c = painted_by c (Paint.paint format c.back_buffer)

  abbrev pub taken_by :
      Client → Result (Mirror f32 pc × TerminalFrame f32.F × Bool) → Client × Result Bool
  taken_by c (err e) = (c, err e)
  taken_by c (ok (session, back_buffer, copied)) =
      (record c { session = session; back_buffer = back_buffer }, ok copied)

  -- The frame is taken over: whether there is one.
  unfoldable pub take_frame : M Client Bool
  take_frame c = taken_by c (copy_frame_if_dirty f32 pc c.session c.back_buffer)

  abbrev pub set_interval : ℕ → M Client (Unit {0})
  set_interval d c = (record c { tick_interval = d }, ok tt)

  abbrev pub quicken : M Client (Unit {0})
  quicken c = set_interval (quickened c.tick_interval) c

  unfoldable pub paint_frame : M Client (Unit {0})
  unfolding take_frame repaint
  paint_frame = do
    paint_start ← now
    copied ← take_frame
    let shown = do repaint; paint_end ← now; set_interval (paced (paint_end - paint_start))
    if copied then shown else quicken

  -- A call of the session.
  abbrev pub call : (Mirror f32 pc → Answer f32 pc) → M Client (List ClientAction)
  call step c = let (session, answer) = step c.session in (record c { session = session }, answer)

  -- `let _ = call`: an error is dropped, a panic is not.
  abbrev pub drop_bail : Result (List ClientAction) → Result (Unit {0})
  drop_bail (ok actions) = ok tt
  drop_bail (err bail) = ok tt
  drop_bail (err panic) = err panic

  unfoldable pub resized_to : ℕ → ℕ → ℕ → M Client (Unit {0})
  resized_to cols rows time c =
      let (d, answer) = call (λ session. on_winch f32 pc session cols rows time) c in
      (d, drop_bail answer)

  -- The callback of the lifecycle.
  unfoldable pub on_resume : Option (ℕ × ℕ) → M Client (Unit {0})
  unfolding resized_to
  on_resume none = pure tt
  on_resume (some (cols, rows)) = do time ← now; resized_to cols rows time

  abbrev pub lifecycle_call : (lb.Backend → lb.Backend × Option (ℕ × ℕ)) → M Client (Option (ℕ × ℕ))
  lifecycle_call step c =
      let (backend, size) = step c.backend in (record c { backend = backend }, ok size)

  -- Whether the loop is to end. The text of the help, and the key that ends it, are left out.
  unfoldable pub execute : ClientAction → M Client Bool
  unfolding paint_frame on_resume
  execute (send_packet bytes) c = (record c { wire = c.wire ++ bytes ∷ [] }, ok false)
  execute paint c = (do paint_frame; pure false) c
  execute suspend c =
      (do size ← lifecycle_call (Lifecycle.suspend lb); on_resume size; pure false) c
  execute show_help c =
      (do size ← lifecycle_call (clear_and_resize lb); on_resume size; pure false) c
  execute disconnect c = (c, ok true)

  unfoldable pub execute_all : List ClientAction → M Client Bool
  unfolding execute
  execute_all [] = pure false
  execute_all (a ∷ actions) = do
    should_exit ← execute a
    let rest = execute_all actions
    if should_exit then pure true else rest

  -- The actions for an event; `none` ends the loop.
  abbrev pub some_actions : M Client (List ClientAction) → M Client (Option (List ClientAction))
  some_actions m = do actions ← m; pure (some actions)

  unfoldable pub react : LoopEvent → ℕ → M Client (Option (List ClientAction))
  react tick time = some_actions (call (λ session. on_tick f32 pc session time))
  react (recv packet src) time =
      if src == server_addr
      then some_actions (call (λ session. feed_packet f32 pc session packet time))
      else pure (some [])
  react recv_failed time = pure none
  react (stdin bytes) time = some_actions (call (λ session. feed_stdin f32 pc session bytes time))
  react (resize cols rows) time =
      some_actions (call (λ session. on_winch f32 pc session cols rows time))
  react closed time = pure none

  abbrev pub execute_some : Option (List ClientAction) → M Client Bool
  execute_some none = pure true
  execute_some (some actions) = execute_all actions

  -- One round of the loop.
  unfoldable pub turn : LoopEvent → M Client Bool
  unfolding react execute_all
  turn event = do time ← now; actions ← react event time; execute_some actions

  unfoldable pub turns : List LoopEvent → M Client Bool
  unfolding turn
  turns [] = pure false
  turns (event ∷ events) = do
    exit ← turn event
    let rest = turns events
    if exit then pure true else rest

  unfoldable pub send_initial : List ClientAction → M Client (Unit {0})
  send_initial [] c = (c, ok tt)
  send_initial (send_packet bytes ∷ actions) c =
      send_initial actions (record c { wire = c.wire ++ bytes ∷ [] })
  send_initial (other ∷ actions) c = send_initial actions c

  -- From the size of the terminal on.
  unfoldable pub run_session : ℕ → ℕ → List LoopEvent → M Client Bool
  unfolding send_initial turns
  run_session cols rows events = do
    time ← now
    init_actions ← call (λ session. on_winch f32 pc session cols rows time)
    send_initial init_actions
    turns events

  unfoldable pub new_client : ℕ → pc.Codec → ℕ → Bool → ℕ → ℕ → lb.Backend → Client
  new_client session_id codec server_seq overlay cols rows backend = record {
    session = State.new f32 pc session_id codec server_seq cols rows overlay (clock 0);
    back_buffer = Frame.new f32 0 0;
    tick_interval = millis 16;
    backend = backend;
    wire = [];
    output = [];
    readings = 1;
  }

  -- How `run_client` stands after the events: it did not start, it waits for another event, or it
  -- returned, and dropped the lifecycle.
  pub data Ending : Type 0 where
    not_started : lb.Backend → Failure → Ending
    waiting : Client → Ending
    returned : (c : Client) → (backend : lb.Backend) → Result (Unit {0}) → Ending

  abbrev pub end_by : Client × Result Bool → Ending
  end_by (c, ok false) = waiting c
  end_by (c, ok true) = returned c (drop_lifecycle lb c.backend) (ok tt)
  end_by (c, err e) = returned c (drop_lifecycle lb c.backend) (err e)

  unfoldable pub started :
      ℕ → pc.Codec → ℕ → Bool → List LoopEvent → lb.Backend × Result (ℕ × ℕ) → Ending
  unfolding run_session new_client
  started session_id codec server_seq overlay events (backend, err e) = not_started backend e
  started session_id codec server_seq overlay events (backend, ok (cols, rows)) = end_by (
      run_session cols rows events
        (new_client session_id codec server_seq overlay cols rows backend))

  -- `run_client`, once the handshake has given the session and the number of the server.
  unfoldable pub run_client : ℕ → pc.Codec → ℕ → Bool → List LoopEvent → lb.Backend → Ending
  unfolding started
  run_client session_id codec server_seq overlay events b =
      started session_id codec server_seq overlay events (with_backend lb b)
