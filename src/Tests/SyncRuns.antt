-- ===== src/Tests/SyncRuns.antt =====
-- One frame from a server to a client.
use rumsh.Prelude.{
  length, some, ◌≤◌, ℕ, ◌+◌, ◌-◌, ◌*◌, ◌≡◌, ◌⊎◌, refl, true, false, [], ◌∷◌, none, ok, arith, inl,
  ltb, ltb,
}
use rumsh.Protocol.Grapheme
use rumsh.Protocol.Grid.{GridState, FrameUpdate, plain_cell, diff_from, LocalCellData-discrete}
use rumsh.Protocol.Grid.Roundtrip.Bases.{IsValid}
use rumsh.Client.Floats.{F32}
use rumsh.Client.Session.State
use rumsh.Client.Session.State.{Mirror}
use rumsh.Client.Session.Prepare.{prepare_ack}
use rumsh.Protocol.{ServerPayload}
use rumsh.Protocol.Codec.Interface.{PacketCodec}
use rumsh.Client.Session.Receive.Progress.{Sound, feed_packet-Sound}
use rumsh.Client.Session.Receive.{feed_packet, base_state, frame_payload, show_frame, push_ack}
use rumsh.Server.Session
use rumsh.Server.Session.State.{UpdateJob, offload_diff_job, prune_history, push_state}
use rumsh.Server.Session.Queue.{queue_frame}
use rumsh.Sync.Frames.{queue_next}
use rumsh.Sync.Reach.{Reach, start, queue, Reach-frame_payload}
use rumsh.Tests.ServerRuns.{bare, logging}

-- Whole numbers for `f32`.
abbrev pub whole : F32
whole = record {
  F = ℕ;
  lit = λ num den. num;
  of_int = λ n. n;
  to_u32 = λ n. n;
  add = λ a b. a + b;
  sub = λ a b. a - b;
  mul = λ a b. a * b;
  div = λ a b. a;
  abs = λ a. a;
  round = λ a. a;
  gt = λ a b. ltb b a;
}

-- Every frame shows one letter.
abbrev pub letter : ℕ → GridState
letter k = record {
  cols = 1;
  rows = 1;
  cursor_x = 0;
  cursor_y = 0;
  cursor_visible = true;
  cells = plain_cell b'a' ∷ [];
  row_wrapped = false ∷ [];
}

pub letter-IsValid : (k : ℕ) → IsValid (letter k)
letter-IsValid k = record { cells_size = refl; wrapped_size = refl }

abbrev server : Session.State.Session bare logging
server = Session.State.new bare logging 9 tt 0 1 tt [] 0

abbrev pub client : Mirror whole bare
client = State.new whole bare 9 tt 1 1 1 false 0

abbrev pub first_job : UpdateJob (Unit {0})
first_job = record {
  seq = 1;
  ack_seq = 0;
  ref_seq = 0;
  ref_state = none;
  current_state = letter 1;
  codec = tt;
  is_echo_recommended = true;
}

abbrev pub first_update : FrameUpdate
first_update = record {
  ref_seq = 0;
  cols = 1;
  rows = 1;
  cursor_x = 0;
  cursor_y = 0;
  cursor_visible = true;
  row_updates =
      record { y = 0; cells = record { x = 0; cell = plain_cell b'a' } ∷ []; is_wrapped = false }
      ∷ [];
  is_echo_enabled = true;
}

first_queued : (queue_next bare logging letter server 5).1 ≡ offload_diff_job first_job 1 ∷ []
unfolding queue_frame prune_history push_state Session.State.new
first_queued = refl

pub first_made : diff_from (letter 1) none 0 true ≡ ok first_update
unfolding diff_from LocalCellData-discrete Grapheme.new
first_made = refl

first_sent :
    Reach whole bare logging letter
      (queue_next bare logging letter server 5).0
      ((1, first_update) ∷ [])
      client
unfolding Session.State.new State.new
first_sent =
    queue server [] client 5 first_job first_update (start server client refl refl) first_queued
      first_made

Reach-frame_payload_example :
    ((base_state whole bare client first_update ≡ none)
      × (frame_payload whole bare client first_update 1 8
          ≡ push_ack whole bare [] (prepare_ack whole bare client 8)))
    ⊎ (frame_payload whole bare client first_update 1 8
        ≡ show_frame whole bare client (letter 1) true 1 8)
Reach-frame_payload_example =
    Reach-frame_payload whole bare logging letter letter-IsValid (λ k. omega arith)
      (queue_next bare logging letter server 5).0 ((1, first_update) ∷ []) client 1 8 first_update
      first_sent (inl (refl, refl))

-- A codec whose every datagram is the server's keep-alive number 5.
abbrev beating : PacketCodec
beating = record bare {
  open_server = λ c bytes. (
    c,
    ok (
        some (
          record { seq_num = 5; ack_seq_num = 0; frag_idx = 0; total_frags = 1; ciphertext = [] },
          ServerPayload.keep_alive,
          record { wire_len = 3; comp_len = 0; decomp_len = 0 },
        )),
  );
}

abbrev beaten_client : Mirror whole beating
beaten_client = State.new whole beating 9 tt 1 1 1 false 0

no_losses : length beaten_client.loss_window ≤ 100
unfolding State.new
no_losses = omega arith

no_states : length beaten_client.state_history ≤ 200
unfolding State.new
no_states = omega arith

feed_packet-Sound_example :
    Sound whole beating beaten_client.ack_seq_num
      (feed_packet whole beating beaten_client (1 ∷ []) 8).0
feed_packet-Sound_example =
    feed_packet-Sound whole beating beaten_client (1 ∷ []) 8 no_losses no_states
