-- ===== src/Server/Network/Serving/InFlight.antt =====
-- The flag of the difference in flight in any run of the loops of `run_server`
-- (src/server/network.rs).
use mathlib.Core.List.{append_assoc}
use rumsh.Prelude.{
  ℕ, zero, suc, sym, subst, Bool, true, false, List, [], ◌∷◌, ◌++◌, Result, ok, err, bail, panic,
  inl, inr, if◌then◌else◌, Bool-cases,
}
use rumsh.Protocol.Codec.Interface.{PacketCodec}
use rumsh.Server.Interface.{Backend}
use rumsh.Server.Session.State.{
  Session, Action, send_packet, offload_diff_job, resend_fragments, shutdown,
}
use rumsh.Server.Session.Packets.{Answer, feed_packet, on_tick, prepare_shutdown}
use rumsh.Server.Network.Tasks.{Task, Shared, run, execute_actions}
use rumsh.Server.Network.Tasks.Flight.{Ordered, execute_actions-Ordered, Step-Ordered}
use rumsh.Server.Network.Serving.{
  ServerEvent, pty_data, pty_closed, timer, received, receive_failed, polled, woken, signalled,
  Phase, serving, closing, finished, panicked, poll_at, Server, execute_answer, on_timer,
  begin_shutdown, wake, serve_event, is_over, serve_events,
}

module _ (pc : PacketCodec) (be : Backend) where
  open pc use {Codec}

  poll_at-Ordered :
      (idx : ℕ) (sh : Shared) (before running : List (Task Codec))
      → Ordered pc (record { shared = sh; running = before ++ running })
      → Ordered pc (record {
        shared = (poll_at pc idx sh running).0;
        running = before ++ (poll_at pc idx sh running).1;
      })
  unfolding poll_at
  poll_at-Ordered idx sh before [] o = o
  poll_at-Ordered zero sh before (task ∷ running) o = Step-Ordered pc (run before running task sh) o
  poll_at-Ordered (suc idx) sh before (task ∷ running) o =
      let one = task ∷ [] in
      let (sh', running') = poll_at pc idx sh running in
      subst (λ ts. Ordered pc (record { shared = sh'; running = ts }))
        (append_assoc before one running')
        (poll_at-Ordered idx sh (before ++ one) running (
          subst (λ ts. Ordered pc (record { shared = sh; running = ts }))
            (sym (append_assoc before one running)) o))

  execute_answer-Ordered :
      (s : Server pc be) (x : Answer pc be)
      → Ordered pc s.tasks
      → Ordered pc (execute_answer pc be s x).tasks
  execute_answer-Ordered s (session, ok actions) o = execute_actions-Ordered pc actions s.tasks o
  execute_answer-Ordered s (session, err bail) o = o
  execute_answer-Ordered s (session, err panic) o = o

  begin_shutdown-Ordered :
      (s : Server pc be) (x : Session pc be × Result (Action pc be))
      → Ordered pc s.tasks
      → Ordered pc (begin_shutdown pc be s x).tasks
  begin_shutdown-Ordered s (session, ok (send_packet bytes target)) o = record {
    one = o.one;
    few = o.few;
    sealed = o.sealed;
  }
  begin_shutdown-Ordered s (session, ok (offload_diff_job job target)) o = o
  begin_shutdown-Ordered s (session, ok (resend_fragments n mask target)) o = o
  begin_shutdown-Ordered s (session, ok shutdown) o = o
  begin_shutdown-Ordered s (session, err e) o = o

  if-Ordered :
      (b : Bool) (x y : Server pc be)
      → Ordered pc x.tasks
      → Ordered pc y.tasks
      → Ordered pc (if b then x else y).tasks
  if-Ordered true x y ox oy = ox
  if-Ordered false x y ox oy = oy

  wake-Ordered :
      (phase : Phase) (s : Server pc be)
      → Ordered pc s.tasks
      → Ordered pc (wake pc be phase s).tasks
  unfolding wake
  wake-Ordered serving s o =
      let read = record s {
        tasks = record s.tasks { shared = record s.tasks.shared { shutdown_sent = false } };
      } in
      if-Ordered s.tasks.shared.shutdown_sent
        (begin_shutdown pc be read (prepare_shutdown pc be s.session)) s
        (begin_shutdown-Ordered read (prepare_shutdown pc be s.session)
          (record { one = o.one; few = o.few; sealed = o.sealed }))
        o
  wake-Ordered (closing zero bytes target) s o = o
  wake-Ordered (closing (suc left) bytes target) s o = record {
    one = o.one;
    few = o.few;
    sealed = o.sealed;
  }
  wake-Ordered finished s o = o
  wake-Ordered panicked s o = o

  serve_event-Ordered :
      (e : ServerEvent) (s : Server pc be)
      → Ordered pc s.tasks
      → Ordered pc (serve_event pc be e s).tasks
  unfolding serve_event on_timer
  serve_event-Ordered (pty_data bytes now) s o = o
  serve_event-Ordered pty_closed s o = record { one = o.one; few = o.few; sealed = o.sealed }
  serve_event-Ordered (timer now) s o =
      let (session, actions) = on_tick pc be s.session now in
      if-Ordered s.tasks.shared.diff_in_flight s
        (record s { session = session; tasks = execute_actions actions s.tasks }) o
        (execute_actions-Ordered pc actions s.tasks o)
  serve_event-Ordered (received bytes src_addr now) s o =
      execute_answer-Ordered s (feed_packet pc be s.session bytes src_addr now) o
  serve_event-Ordered receive_failed s o = o
  serve_event-Ordered (polled idx) s o = poll_at-Ordered idx s.tasks.shared [] s.tasks.running o
  serve_event-Ordered woken s o = wake-Ordered s.phase s o
  serve_event-Ordered signalled s o = o

  -- Whatever the PTY, the timer, the socket, the tasks and the signals do, in any order: from tasks
  -- that are in order on, the flag is set exactly when one difference is in progress, there is never
  -- a second one, and the cache has at most four frames, each sealed by a job under its number.
  pub serve_events-Ordered :
      (events : List ServerEvent) (s : Server pc be)
      → Ordered pc s.tasks
      → Ordered pc (serve_events pc be events s).tasks
  unfolding serve_events
  serve_events-Ordered [] s o = o
  serve_events-Ordered (e ∷ events) s o = elim (Bool-cases (is_over pc be s.phase)) [
    | inl over ↦ rw over o
    | inr going ↦
        rw going (serve_events-Ordered events (serve_event pc be e s) (serve_event-Ordered e s o))
  ]
