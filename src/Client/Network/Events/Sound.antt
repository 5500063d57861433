-- ===== src/Client/Network/Events/Sound.antt =====
-- The pace of the event loop of `run_client` of src/client/network.rs, and the modes of the terminal.
use rumsh.Prelude.{
  ℕ, ◌-◌, ◌≤◌, Bool, true, false, List, [], ◌∷◌, Option, none, some, Result, ok, err, ◌==◌,
  if◌then◌else◌, ◌≡◌, refl, arith,
}
use rumsh.Prelude.Stateful.{M, ◌>>=◌, pure, resume}
use rumsh.Protocol.Codec.Interface.{PacketCodec}
use rumsh.Client.Floats.{F32}
use rumsh.Client.Frame.{TerminalFrame}
use rumsh.Client.Lifecycle
use rumsh.Client.Lifecycle.{LifecycleBackend, with_backend, clear_and_resize}
use rumsh.Client.Lifecycle.Modes.{KeepsModes, Held, suspend-Held, clear_and_resize-Held}
use rumsh.Client.Session.State.{ClientAction, Mirror, Answer}
use rumsh.Client.Session.State.ClientAction.{send_packet, paint, suspend, show_help, disconnect}
use rumsh.Client.Session.Receive.{feed_packet}
use rumsh.Client.Session.Stdin.{feed_stdin, on_winch}
use rumsh.Client.Session.Tick.{on_tick, copy_frame_if_dirty}
use rumsh.Server.Interface.{millis}
use rumsh.Client.Paint.{Command}
use rumsh.Client.Network.Events.{
  LoopEvent, Client, now, repaint, take_frame, painted_by, taken_by, set_interval, quicken,
  paint_frame, call, some_actions, resized_to, on_resume, lifecycle_call, execute, execute_all,
  react, execute_some, turn, turns, paced, quickened, tick, recv, recv_failed, stdin, resize,
  closed,
}

module _ (f32 : F32) (pc : PacketCodec) (lb : LifecycleBackend) (keeps : KeepsModes lb)
    (server_addr : ℕ) (clock : ℕ → ℕ) (format : TerminalFrame f32.F → List ℕ) where
  abbrev pub State : Type 0
  State = Client f32 pc lb server_addr clock format

  -- The program has the terminal, and ticks every 16 to 100 milliseconds.
  pub record Sound (c : State) : Type 0 where
    pub slowest : c.tick_interval ≤ millis 100
    pub fastest : millis 16 ≤ c.tick_interval
    pub held : Held (keeps.modes c.backend)

  -- Code that keeps that, also when it fails.
  pub record Keeps {A : Type 0} (m : M State A) : Type 0 where
    pub run : (c : State) → Sound c → Sound (m c).0

  resume-Sound :
      {A B : Type 0} (r : State × Result A) (next : A → M State B)
      → Sound r.0
      → ((a : A) → Keeps (next a))
      → Sound (resume r next).0
  resume-Sound (c, ok a) next sound keep = (keep a).run c sound
  resume-Sound (c, err e) next sound keep = sound

  pub >>=-Keeps :
      {A B : Type 0} (m : M State A) (next : A → M State B)
      → Keeps m
      → ((a : A) → Keeps (next a))
      → Keeps (m >>= next)
  >>=-Keeps m next first then_keep = record {
    run = λ c sound. resume-Sound (m c) next (first.run c sound) then_keep;
  }

  -- What leaves the interval and the terminal alone keeps it.
  pub carry :
      (c d : State) → d.tick_interval ≡ c.tick_interval → d.backend ≡ c.backend → Sound c → Sound d
  carry c d interval backend sound = record {
    slowest = rw interval sound.slowest;
    fastest = rw interval sound.fastest;
    held = rw backend sound.held;
  }

  pure-Keeps : {A : Type 0} (a : A) → Keeps (pure a)
  pure-Keeps a = record { run = λ c sound. sound }

  if-Keeps :
      {A : Type 0} (b : Bool) (m n : M State A) → Keeps m → Keeps n → Keeps (if b then m else n)
  if-Keeps true m n yes_keeps no_keeps = yes_keeps
  if-Keeps false m n yes_keeps no_keeps = no_keeps

  pub now-Keeps : Keeps (now f32 pc lb server_addr clock format)
  now-Keeps = record { run = λ c sound. carry c _ refl refl sound }

  pub call-Keeps :
      (step : Mirror f32 pc → Answer f32 pc) → Keeps (call f32 pc lb server_addr clock format step)
  call-Keeps step = record { run = λ c sound. carry c _ refl refl sound }

  paced-within : (d : ℕ) → (millis 16 ≤ paced d) × (paced d ≤ millis 100)
  paced-within d = (omega arith, omega arith)

  quickened-within :
      (d : ℕ)
      → millis 16 ≤ d
      → d ≤ millis 100
      → (millis 16 ≤ quickened d) × (quickened d ≤ millis 100)
  quickened-within d low high = (ground arith, ground arith)

  set_interval-Keeps : (d : ℕ) → Keeps (set_interval f32 pc lb server_addr clock format (paced d))
  set_interval-Keeps d = record {
    run = λ c sound. record {
      slowest = (paced-within d).1;
      fastest = (paced-within d).0;
      held = sound.held;
    };
  }

  quicken-Keeps : Keeps (quicken f32 pc lb server_addr clock format)
  quicken-Keeps = record {
    run = λ c sound.
        let within = quickened-within c.tick_interval sound.fastest sound.slowest in
        record { slowest = within.1; fastest = within.0; held = sound.held };
  }

  painted_by-Sound :
      (c : State) (r : Result (TerminalFrame f32.F × List Command × Bool))
      → Sound c
      → Sound (painted_by f32 pc lb server_addr clock format c r).0
  painted_by-Sound c (err e) sound = sound
  painted_by-Sound c (ok (back_buffer, commands, real_update)) sound = carry c _ refl refl sound

  taken_by-Sound :
      (c : State) (r : Result (Mirror f32 pc × TerminalFrame f32.F × Bool))
      → Sound c
      → Sound (taken_by f32 pc lb server_addr clock format c r).0
  taken_by-Sound c (err e) sound = sound
  taken_by-Sound c (ok (session, back_buffer, copied)) sound = carry c _ refl refl sound

  repaint-Keeps : Keeps (repaint f32 pc lb server_addr clock format)
  unfolding repaint
  repaint-Keeps = record { run = λ c sound. painted_by-Sound c _ sound }

  take_frame-Keeps : Keeps (take_frame f32 pc lb server_addr clock format)
  unfolding take_frame
  take_frame-Keeps = record {
    run = λ c sound. taken_by-Sound c (copy_frame_if_dirty f32 pc c.session c.back_buffer) sound;
  }

  paint_frame-Keeps : Keeps (paint_frame f32 pc lb server_addr clock format)
  unfolding paint_frame
  paint_frame-Keeps = >>=-Keeps _ _ now-Keeps (λ (paint_start : ℕ).
      >>=-Keeps _ _ take_frame-Keeps (λ (copied : Bool).
        if-Keeps copied _ _
          (>>=-Keeps _ _ repaint-Keeps (λ done.
            >>=-Keeps _ _ now-Keeps
              (λ (paint_end : ℕ). set_interval-Keeps (paint_end - paint_start))))
          quicken-Keeps))

  resized_to-Keeps :
      (cols rows time : ℕ) → Keeps (resized_to f32 pc lb server_addr clock format cols rows time)
  unfolding resized_to
  resized_to-Keeps cols rows time = record { run = λ c sound. carry c _ refl refl sound }

  on_resume-Keeps :
      (size : Option (ℕ × ℕ)) → Keeps (on_resume f32 pc lb server_addr clock format size)
  unfolding on_resume
  on_resume-Keeps none = pure-Keeps tt
  on_resume-Keeps (some (cols, rows)) =
      >>=-Keeps _ _ now-Keeps (λ (time : ℕ). resized_to-Keeps cols rows time)

  lifecycle_call-Keeps :
      (step : lb.Backend → lb.Backend × Option (ℕ × ℕ))
      → ((b : lb.Backend) → Held (keeps.modes b) → Held (keeps.modes (step b).0))
      → Keeps (lifecycle_call f32 pc lb server_addr clock format step)
  lifecycle_call-Keeps step holds = record {
    run = λ c sound. record {
      slowest = sound.slowest;
      fastest = sound.fastest;
      held = holds c.backend sound.held;
    };
  }

  execute-Keeps : (a : ClientAction) → Keeps (execute f32 pc lb server_addr clock format a)
  unfolding execute
  execute-Keeps (send_packet bytes) = record { run = λ c sound. carry c _ refl refl sound }
  execute-Keeps paint = >>=-Keeps _ _ paint_frame-Keeps (λ done. pure-Keeps false)
  execute-Keeps suspend =
      >>=-Keeps _ _ (lifecycle_call-Keeps (Lifecycle.suspend lb) (suspend-Held lb keeps))
        (λ size. >>=-Keeps _ _ (on_resume-Keeps size) (λ done. pure-Keeps false))
  execute-Keeps show_help =
      >>=-Keeps _ _ (lifecycle_call-Keeps (clear_and_resize lb) (clear_and_resize-Held lb keeps))
        (λ size. >>=-Keeps _ _ (on_resume-Keeps size) (λ done. pure-Keeps false))
  execute-Keeps disconnect = pure-Keeps true

  execute_all-Keeps :
      (actions : List ClientAction) → Keeps (execute_all f32 pc lb server_addr clock format actions)
  unfolding execute_all
  execute_all-Keeps [] = pure-Keeps false
  execute_all-Keeps (a ∷ actions) = >>=-Keeps _ _ (execute-Keeps a) (λ (should_exit : Bool).
      if-Keeps should_exit _ _ (pure-Keeps true) (execute_all-Keeps actions))

  execute_some-Keeps :
      (actions : Option (List ClientAction))
      → Keeps (execute_some f32 pc lb server_addr clock format actions)
  execute_some-Keeps none = pure-Keeps true
  execute_some-Keeps (some actions) = execute_all-Keeps actions

  answered-Keeps :
      (step : Mirror f32 pc → Answer f32 pc)
      → Keeps (
          some_actions f32 pc lb server_addr clock format
            (call f32 pc lb server_addr clock format step))
  answered-Keeps step = >>=-Keeps _ _ (call-Keeps step) (λ actions. pure-Keeps (some actions))

  react-Keeps :
      (event : LoopEvent) (time : ℕ) → Keeps (react f32 pc lb server_addr clock format event time)
  unfolding react
  react-Keeps tick time = answered-Keeps (λ session. on_tick f32 pc session time)
  react-Keeps (recv packet src) time =
      if-Keeps (src == server_addr) _ _
        (answered-Keeps (λ session. feed_packet f32 pc session packet time)) (pure-Keeps (some []))
  react-Keeps recv_failed time = pure-Keeps none
  react-Keeps (stdin bytes) time = answered-Keeps (λ session. feed_stdin f32 pc session bytes time)
  react-Keeps (resize cols rows) time =
      answered-Keeps (λ session. on_winch f32 pc session cols rows time)
  react-Keeps closed time = pure-Keeps none

  turn-Keeps : (event : LoopEvent) → Keeps (turn f32 pc lb server_addr clock format event)
  unfolding turn
  turn-Keeps event =
      >>=-Keeps _ _ now-Keeps (λ (time : ℕ).
        >>=-Keeps _ _ (react-Keeps event time) (λ actions. execute_some-Keeps actions))

  pub turns-Keeps :
      (events : List LoopEvent) → Keeps (turns f32 pc lb server_addr clock format events)
  unfolding turns
  turns-Keeps [] = pure-Keeps false
  turns-Keeps (event ∷ events) =
      >>=-Keeps _ _ (turn-Keeps event)
        (λ (exit : Bool). if-Keeps exit _ _ (pure-Keeps true) (turns-Keeps events))
