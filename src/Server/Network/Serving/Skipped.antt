-- ===== src/Server/Network/Serving/Skipped.antt =====
-- A frame that `feed_packet` queues while a difference is in flight, in the loops of `run_server` of
-- src/server/network.rs.
use rumsh.Prelude.{
  ℕ, ◌≡◌, refl, ◌∙◌, ap, true, List, [], ◌∷◌, ok, err, arith, inl, inr, map, Bool-cases,
}
use rumsh.Protocol.Codec.Interface.{PacketCodec}
use rumsh.Server.Interface.{Backend}
use rumsh.Server.Session.State.{UpdateJob, offload_diff_job}
use rumsh.Server.Session.Packets.{Answer, feed_packet}
use rumsh.Server.Session.Settled.{jobs, IsClean, on_tick-IsClean}
use rumsh.Server.Session.Settled.Answers.{Settles, feed_packet-Settles}
use rumsh.Server.Network.Tasks.{Tasks, execute_action, execute_actions}
use rumsh.Server.Network.Serving.{
  timer, received, Server, on_timer, execute_answer, serve_event, is_over, serve_events,
}

module _ (pc : PacketCodec) (be : Backend) where
  -- The ticks of a clean session do nothing to the tasks.
  timer-IsClean :
      (now : ℕ) (s : Server pc be)
      → IsClean pc be s.session
      → ((on_timer pc be now s).tasks ≡ s.tasks) × IsClean pc be (on_timer pc be now s).session
  unfolding on_timer execute_actions
  timer-IsClean now s clean =
      let (none_due, still) = on_tick-IsClean pc be s.session now clean in
      elim (Bool-cases s.tasks.shared.diff_in_flight) [
        | inl flying ↦ rw flying (refl, clean)
        | inr idle ↦ rw (idle, none_due) (refl, still)
      ]

  ticks-IsClean :
      (times : List ℕ) (s : Server pc be)
      → IsClean pc be s.session
      → (serve_events pc be (map timer times) s).tasks ≡ s.tasks
  unfolding serve_events serve_event
  ticks-IsClean [] s clean = refl
  ticks-IsClean (now ∷ times) s clean =
      let (same, still) = timer-IsClean now s clean in
      elim (Bool-cases (is_over pc be s.phase)) [
        | inl over ↦ rw over refl
        | inr going ↦ rw going (ticks-IsClean times (on_timer pc be now s) still ∙ same)
      ]

  -- The skipped job, if the answer has settled.
  skip_answer :
      (s : Server pc be) (x : Answer pc be) (job : UpdateJob pc.Codec) (target : ℕ)
      → s.tasks.shared.diff_in_flight ≡ true
      → x.1 ≡ ok (offload_diff_job job target ∷ [])
      → Settles pc be x
      → ((execute_answer pc be s x).tasks ≡ s.tasks)
        × IsClean pc be (execute_answer pc be s x).session
  unfolding execute_actions execute_action
  skip_answer s (session, err e) job target flying queues settles = cc queues
  skip_answer s (session, ok actions) job target flying queues settles =
      let same : actions ≡ offload_diff_job job target ∷ [] = cc queues in
      elim settles [
        | inl none_queued ↦ absurd (omega (arith, none_queued, ap jobs same))
        | inr clean ↦ (rw (same, flying) refl, clean)
      ]

  -- When a packet makes the session queue a frame, with no other action, while a difference is in
  -- flight, the frame is skipped: no task starts. And then no number of ticks of the timer sends it, also once the
  -- difference has landed, whatever the tasks are by then.
  pub skipped_frame_lost :
      (s : Server pc be) (bytes : List ℕ) (src_addr now : ℕ) (job : UpdateJob pc.Codec) (target : ℕ)
      (times : List ℕ) (later : Tasks pc.Codec)
      → s.tasks.shared.diff_in_flight ≡ true
      → (feed_packet pc be s.session bytes src_addr now).1 ≡ ok (offload_diff_job job target ∷ [])
      → let after = serve_event pc be (received bytes src_addr now) s in
        (after.tasks ≡ s.tasks)
        × ((serve_events pc be (map timer times) (record after { tasks = later })).tasks ≡ later)
  unfolding serve_event
  skipped_frame_lost s bytes src_addr now job target times later flying queues =
      let x = feed_packet pc be s.session bytes src_addr now in
      let (skipped, clean) =
        skip_answer s x job target flying queues
          (feed_packet-Settles pc be s.session bytes src_addr now) in
      (skipped, ticks-IsClean times (record (execute_answer pc be s x) { tasks = later }) clean)
