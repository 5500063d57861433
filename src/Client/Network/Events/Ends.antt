-- ===== src/Client/Network/Events/Ends.antt =====
-- How `run_client` of src/client/network.rs stands after its events.
use rumsh.Prelude.{ℕ, Bool, true, false, List, [], ◌∷◌, Result, ok, err, ◌≡◌, refl, subst, arith}
use rumsh.Protocol.Codec.Interface.{PacketCodec}
use rumsh.Client.Floats.{F32}
use rumsh.Client.Frame.{TerminalFrame}
use rumsh.Client.Lifecycle.{LifecycleBackend, with_backend}
use rumsh.Client.Lifecycle.Modes.{
  KeepsModes, StoppedOutside, drop_lifecycle-modes, with_backend-Held, with_backend-stops,
}
use rumsh.Client.Session.State.{ClientAction}
use rumsh.Client.Session.State.ClientAction.{send_packet, paint, suspend, show_help, disconnect}
use rumsh.Client.Session.Stdin.{on_winch}
use rumsh.Client.Network.Events.{
  LoopEvent, Client, send_initial, run_session, Ending, not_started, waiting, returned, end_by,
  started, run_client, new_client,
}
use rumsh.Client.Network.Events.Sound.{
  Sound, Keeps, carry, >>=-Keeps, now-Keeps, call-Keeps, turns-Keeps,
}

module _ (f32 : F32) (pc : PacketCodec) (lb : LifecycleBackend) (keeps : KeepsModes lb)
    (server_addr : ℕ) (clock : ℕ → ℕ) (format : TerminalFrame f32.F → List ℕ) where
  send_initial-Sound :
      (actions : List ClientAction) (c : Client f32 pc lb server_addr clock format)
      → Sound f32 pc lb keeps server_addr clock format c
      → Sound f32 pc lb keeps server_addr clock format
          (send_initial f32 pc lb server_addr clock format actions c).0
  unfolding send_initial
  send_initial-Sound [] c sound = sound
  send_initial-Sound (send_packet bytes ∷ actions) c sound =
      send_initial-Sound actions _
        (carry f32 pc lb keeps server_addr clock format c _ refl refl sound)
  send_initial-Sound (paint ∷ actions) c sound = send_initial-Sound actions c sound
  send_initial-Sound (suspend ∷ actions) c sound = send_initial-Sound actions c sound
  send_initial-Sound (show_help ∷ actions) c sound = send_initial-Sound actions c sound
  send_initial-Sound (disconnect ∷ actions) c sound = send_initial-Sound actions c sound

  send_initial-Keeps :
      (actions : List ClientAction)
      → Keeps f32 pc lb keeps server_addr clock format
          (send_initial f32 pc lb server_addr clock format actions)
  send_initial-Keeps actions = record { run = send_initial-Sound actions }

  run_session-Keeps :
      (cols rows : ℕ) (events : List LoopEvent)
      → Keeps f32 pc lb keeps server_addr clock format
          (run_session f32 pc lb server_addr clock format cols rows events)
  unfolding run_session
  run_session-Keeps cols rows events =
      >>=-Keeps f32 pc lb keeps server_addr clock format _ _
        (now-Keeps f32 pc lb keeps server_addr clock format)
        (λ (time : ℕ).
          >>=-Keeps f32 pc lb keeps server_addr clock format _ _
            (call-Keeps f32 pc lb keeps server_addr clock format
              (λ session. on_winch f32 pc session cols rows time))
            (λ init_actions.
              >>=-Keeps f32 pc lb keeps server_addr clock format _ _
                (send_initial-Keeps init_actions)
                (λ done. turns-Keeps f32 pc lb keeps server_addr clock format events)))

  -- How `run_client` should stand, by how it ended.
  pub EndsSound : Ending f32 pc lb server_addr clock format → Type 0
  EndsSound (not_started backend e) = StoppedOutside (keeps.modes backend).stops
  EndsSound (waiting c) = Sound f32 pc lb keeps server_addr clock format c
  EndsSound (returned c backend answer) =
      (keeps.modes backend).raw ≡ false
      × (keeps.modes backend).alternate ≡ false
      × StoppedOutside (keeps.modes backend).stops

  end_by-EndsSound :
      (r : Client f32 pc lb server_addr clock format × Result Bool)
      → Sound f32 pc lb keeps server_addr clock format r.0
      → EndsSound (end_by f32 pc lb server_addr clock format r)
  unfolding EndsSound
  end_by-EndsSound (c, ok false) sound = sound
  end_by-EndsSound (c, ok true) sound =
      rw (drop_lifecycle-modes lb keeps c.backend) (refl, refl, sound.held.outside)
  end_by-EndsSound (c, err e) sound =
      rw (drop_lifecycle-modes lb keeps c.backend) (refl, refl, sound.held.outside)

  module _ (session_id : ℕ) (codec : pc.Codec) (server_seq : ℕ) (overlay : Bool)
      (events : List LoopEvent) where
    started-EndsSound :
        (b : lb.Backend) (r : lb.Backend × Result (ℕ × ℕ))
        → StoppedOutside (keeps.modes b).stops
        → with_backend lb b ≡ r
        → EndsSound (
            started f32 pc lb server_addr clock format session_id codec server_seq overlay events r)
    unfolding EndsSound started new_client
    started-EndsSound b (backend, err e) outside returns =
        subst (λ (r : lb.Backend × Result (ℕ × ℕ)). StoppedOutside (keeps.modes r.0).stops) returns
          (with_backend-stops lb keeps b outside)
    started-EndsSound b (backend, ok (cols, rows)) outside returns = end_by-EndsSound _ (
        (run_session-Keeps cols rows events).run
          (new_client f32 pc lb server_addr clock format session_id codec server_seq overlay cols
            rows backend)
          (record {
            slowest = omega arith;
            fastest = omega arith;
            held = with_backend-Held lb keeps b backend (cols, rows) outside returns;
          }))

    -- If the calls of the backend work, and whatever events come: while the client waits for an event
    -- its tick is 16 to 100 milliseconds and the terminal is in raw mode on the alternate screen; when
    -- it has returned, also by an error or a panic, both modes are off again; and it is never stopped
    -- by `~^Z` with one of them on, if it was not before the start.
    pub run_client-EndsSound :
        (b : lb.Backend)
        → StoppedOutside (keeps.modes b).stops
        → EndsSound (
            run_client f32 pc lb server_addr clock format session_id codec server_seq overlay events
              b)
    unfolding run_client
    run_client-EndsSound b outside = started-EndsSound b (with_backend lb b) outside refl
