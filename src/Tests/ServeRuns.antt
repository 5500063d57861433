-- ===== src/Tests/ServeRuns.antt =====
-- Runs of the loops of the server.
use rumsh.Prelude.{◌≡◌, refl, true, List, [], ◌∷◌, none, ok, map, arith}
use rumsh.Server.Session
use rumsh.Server.Session.State.{UpdateJob, offload_diff_job, prune_history, push_state}
use rumsh.Server.Session.Queue.{check_sync, sync_grid, is_identical, queue_frame}
use rumsh.Server.Session.Packets.{
  feed_packet, opened_packet, session_packet, reliable_packet, in_order_packet, drain, process,
  finish, then_sync,
}
use rumsh.Server.Network.Tasks.{Tasks, idle}
use rumsh.Server.Network.Serving.{
  ServerEvent, pty_closed, timer, received, polled, woken, serving, Server, serve_event, is_over,
  serve_events,
}
use rumsh.Server.Network.Serving.Skipped.{skipped_frame_lost}
use rumsh.Server.Network.Serving.Ends.{pty_closed-serve_events}
use rumsh.Tests.ServerRuns.{bare}
use rumsh.Tests.SyncRuns.{letter}
use rumsh.Tests.FeedRuns.{showing, shown_server}

abbrev quiet : Tasks (Unit {0})
quiet = idle bare

abbrev flying : Server bare showing
flying = record {
  session = shown_server;
  tasks = record quiet { shared = record quiet.shared { diff_in_flight = true } };
  phase = serving;
}

abbrev queued_job : UpdateJob (Unit {0})
queued_job = record {
  seq = 1;
  ack_seq = 1;
  ref_seq = 0;
  ref_state = none;
  current_state = letter 1;
  codec = tt;
  is_echo_recommended = true;
}

keys_queued :
    (feed_packet bare showing shown_server (9 ∷ 1 ∷ 0 ∷ b'k' ∷ []) 1 5).1
    ≡ ok (offload_diff_job queued_job 1 ∷ [])
unfolding feed_packet opened_packet session_packet reliable_packet in_order_packet drain process
    finish then_sync check_sync sync_grid is_identical queue_frame prune_history push_state
    Session.State.new
keys_queued = refl

skipped_frame_lost_example :
    ((serve_event bare showing (received (9 ∷ 1 ∷ 0 ∷ b'k' ∷ []) 1 5) flying).tasks ≡ flying.tasks)
    × ((serve_events bare showing
          (map timer (20 ∷ 40 ∷ []))
          (record (serve_event bare showing (received (9 ∷ 1 ∷ 0 ∷ b'k' ∷ []) 1 5) flying) {
            tasks = quiet;
          })).tasks
        ≡ quiet)
skipped_frame_lost_example =
    skipped_frame_lost bare showing flying (9 ∷ 1 ∷ 0 ∷ b'k' ∷ []) 1 5 queued_job 1 (20 ∷ 40 ∷ [])
      quiet refl keys_queued

abbrev last_events : List ServerEvent
last_events = woken ∷ timer 20 ∷ woken ∷ polled 0 ∷ woken ∷ woken ∷ []

pty_closed-serve_events_example :
    is_over bare showing (serve_events bare showing (pty_closed ∷ last_events) flying).phase ≡ true
pty_closed-serve_events_example =
    pty_closed-serve_events bare showing last_events flying refl (omega arith)
