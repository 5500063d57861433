-- ===== src/Server/Network/Serving/Ends.antt =====
-- The end of `run_server` of src/server/network.rs once the shell is gone.
use rumsh.Prelude.{
  ℕ, zero, suc, ◌+◌, ◌≤◌, ◌≡◌, refl, sym, subst, ap, ◌∙◌, Bool, true, false, List, [], ◌∷◌, Result,
  ok, err, bail, panic, arith, inl, inr, if◌then◌else◌, Bool-cases,
}
use rumsh.Protocol.Codec.Interface.{PacketCodec}
use rumsh.Server.Interface.{Backend}
use rumsh.Server.Session.State.{
  Session, Action, send_packet, offload_diff_job, resend_fragments, shutdown,
}
use rumsh.Server.Session.Packets.{Answer, feed_packet, on_tick, prepare_shutdown}
use rumsh.Server.Network.Tasks.{execute_actions}
use rumsh.Server.Network.Serving.Asked.{execute_actions_asked, poll_at_asked}
use rumsh.Server.Network.Serving.{
  ServerEvent, pty_data, pty_closed, timer, received, receive_failed, polled, woken, signalled,
  Phase, serving, closing, finished, panicked, Server, execute_answer, on_timer, begin_shutdown,
  wake, serve_event, is_over, serve_events,
}

-- How often the shutdown handler is woken.
abbrev pub wakes : List ServerEvent → ℕ
wakes [] = 0
wakes (woken ∷ events) = wakes events + 1
wakes (pty_data bytes now ∷ events) = wakes events
wakes (pty_closed ∷ events) = wakes events
wakes (timer now ∷ events) = wakes events
wakes (received bytes src_addr now ∷ events) = wakes events
wakes (receive_failed ∷ events) = wakes events
wakes (polled idx ∷ events) = wakes events
wakes (signalled ∷ events) = wakes events

module _ (pc : PacketCodec) (be : Backend) where
  -- The server is over after `n` wakes.
  abbrev EndsIn : ℕ → Phase → Bool → Type 0
  EndsIn n serving asked = (asked ≡ true) × (4 ≤ n)
  EndsIn n (closing left bytes target) asked = left + 1 ≤ n
  EndsIn n finished asked = Unit
  EndsIn n panicked asked = Unit

  abbrev Ends : ℕ → Server pc be → Type 0
  Ends n s = EndsIn n s.phase s.tasks.shared.shutdown_sent

  still_asked :
      (n : ℕ) (phase : Phase) (a b : Bool)
      → (a ≡ true → b ≡ true)
      → EndsIn n phase a
      → EndsIn n phase b
  still_asked n serving a b stays (asked, enough) = (stays asked, enough)
  still_asked n (closing left bytes target) a b stays enough = enough
  still_asked n finished a b stays over = tt
  still_asked n panicked a b stays over = tt

  execute_answer-Ends :
      (n : ℕ) (s : Server pc be) (x : Answer pc be) → Ends n s → Ends n (execute_answer pc be s x)
  execute_answer-Ends n s (session, ok actions) ends =
      still_asked n s.phase s.tasks.shared.shutdown_sent _ (execute_actions_asked actions s.tasks)
        ends
  execute_answer-Ends n s (session, err bail) ends = ends
  execute_answer-Ends n s (session, err panic) ends = tt

  begin_shutdown-Ends :
      (n : ℕ) (s : Server pc be) (x : Session pc be × Result (Action pc be))
      → 3 ≤ n
      → Ends n (begin_shutdown pc be s x)
  begin_shutdown-Ends n s (session, ok (send_packet bytes target)) enough = omega arith
  begin_shutdown-Ends n s (session, ok (offload_diff_job job target)) enough = tt
  begin_shutdown-Ends n s (session, ok (resend_fragments k mask target)) enough = tt
  begin_shutdown-Ends n s (session, ok shutdown) enough = tt
  begin_shutdown-Ends n s (session, err e) enough = tt

  wake-Ends :
      (n : ℕ) (phase : Phase) (s : Server pc be)
      → s.phase ≡ phase
      → EndsIn (n + 1) phase s.tasks.shared.shutdown_sent
      → Ends n (wake pc be phase s)
  unfolding wake
  wake-Ends n serving s at (asked, enough) =
      let read = record s {
        tasks = record s.tasks { shared = record s.tasks.shared { shutdown_sent = false } };
      } in
      let started = begin_shutdown pc be read (prepare_shutdown pc be s.session) in
      subst (λ b. Ends n (if b then started else s)) (sym asked)
        (begin_shutdown-Ends n read (prepare_shutdown pc be s.session) (omega arith))
  wake-Ends n (closing zero bytes target) s at enough = tt
  wake-Ends n (closing (suc left) bytes target) s at enough = omega arith
  wake-Ends n finished s at over = rw at tt
  wake-Ends n panicked s at over = rw at tt

  if-Ends :
      (n : ℕ) (b : Bool) (x y : Server pc be) → Ends n x → Ends n y → Ends n (if b then x else y)
  if-Ends n true x y hx hy = hx
  if-Ends n false x y hx hy = hy

  serve_event-Ends :
      (e : ServerEvent) (events : List ServerEvent) (s : Server pc be)
      → Ends (wakes (e ∷ events)) s
      → Ends (wakes events) (serve_event pc be e s)
  unfolding serve_event on_timer
  serve_event-Ends (pty_data bytes now) events s ends = ends
  serve_event-Ends pty_closed events s ends =
      still_asked (wakes events) s.phase s.tasks.shared.shutdown_sent true (λ a. refl) ends
  serve_event-Ends (timer now) events s ends =
      let (session, actions) = on_tick pc be s.session now in
      if-Ends (wakes events) s.tasks.shared.diff_in_flight s
        (record s { session = session; tasks = execute_actions actions s.tasks }) ends
        (still_asked (wakes events) s.phase s.tasks.shared.shutdown_sent _
          (execute_actions_asked actions s.tasks) ends)
  serve_event-Ends (received bytes src_addr now) events s ends =
      execute_answer-Ends (wakes events) s (feed_packet pc be s.session bytes src_addr now) ends
  serve_event-Ends receive_failed events s ends = ends
  serve_event-Ends (polled idx) events s ends =
      still_asked (wakes events) s.phase s.tasks.shared.shutdown_sent _
        (λ asked. poll_at_asked pc idx s.tasks.shared s.tasks.running ∙ asked) ends
  serve_event-Ends woken events s ends = wake-Ends (wakes events) s.phase s refl ends
  serve_event-Ends signalled events s ends = tt

  none_left : (phase : Phase) (asked : Bool) → EndsIn 0 phase asked → is_over pc be phase ≡ true
  none_left serving asked (a, enough) = absurd (omega arith)
  none_left (closing left bytes target) asked enough = absurd (omega arith)
  none_left finished asked over = refl
  none_left panicked asked over = refl

  serve_events-Ends :
      (events : List ServerEvent) (s : Server pc be)
      → Ends (wakes events) s
      → is_over pc be (serve_events pc be events s).phase ≡ true
  unfolding serve_events
  serve_events-Ends [] s ends = none_left s.phase s.tasks.shared.shutdown_sent ends
  serve_events-Ends (e ∷ events) s ends = elim (Bool-cases (is_over pc be s.phase)) [
    | inl over ↦ rw over over
    | inr going ↦
        rw going
          (serve_events-Ends events (serve_event pc be e s) (serve_event-Ends e events s ends))
  ]

  -- After the output of the shell of a server that is not yet shutting down has closed, whatever
  -- else happens and in whatever order, the server is over at the latest when its shutdown handler
  -- has been woken four times.
  pub pty_closed-serve_events :
      (events : List ServerEvent) (s : Server pc be)
      → s.phase ≡ serving
      → 4 ≤ wakes events
      → is_over pc be (serve_events pc be (pty_closed ∷ events) s).phase ≡ true
  unfolding serve_event serve_events
  pty_closed-serve_events events s open_one enough =
      let asked = serve_event pc be pty_closed s in
      rw (ap (is_over pc be) open_one) (
        serve_events-Ends events asked
          (subst (λ phase. EndsIn (wakes events) phase true) (sym open_one) (refl, enough)))
