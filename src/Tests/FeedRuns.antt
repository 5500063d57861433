-- ===== src/Tests/FeedRuns.antt =====
-- A packet of keys that a server of a run is fed.
use rumsh.Prelude.{◌≤◌, ◌≡◌, true, none, length, refl, [], ◌∷◌, ok, arith, inl}
use rumsh.Protocol.{EncryptedClientPacket}
use rumsh.Protocol.ClientPayload.{keystrokes}
use rumsh.Server.Interface.{Backend}
use rumsh.Server.Session
use rumsh.Server.Session.Throttle.{Checked, check_sync-Checked}
use rumsh.Server.Session.State.{Session, offload_diff_job, prune_history, push_state}
use rumsh.Server.Session.Queue.{check_sync, sync_grid, is_identical, queue_frame}
use rumsh.Server.Session.Packets.{
  feed_packet, opened_packet, session_packet, reliable_packet, in_order_packet, drain, process,
  finish, then_sync,
}
use rumsh.Client.Session.State
use rumsh.Client.Session.State.{Mirror}
use rumsh.Sync.World.{World, Run, start}
use rumsh.Sync.Steps.{Queues, Reaches}
use rumsh.Sync.Processing.{actions_of}
use rumsh.Sync.Feeding.{feed_packet-Reaches}
use rumsh.Tests.ServerRuns.{bare, logging}
use rumsh.Tests.SyncRuns.{whole, letter, letter-IsValid, client}

-- A screen with one letter.
abbrev pub showing : Backend
showing = record logging { update_and_get_state = λ t. (t, ok (letter 1)) }

abbrev pub shown_server : Session bare showing
shown_server = Session.State.new bare showing 9 tt 0 1 tt [] 0

abbrev first_world : World whole bare showing
first_world = record { server = shown_server; sent = []; client = client; acks = [] }

first_run : Run whole bare showing letter first_world
unfolding Session.State.new State.new
first_run = start shown_server client refl refl refl refl

abbrev keys_packet : EncryptedClientPacket
keys_packet = record { session_id = 9; seq_num = 1; ack_seq_num = 0; ciphertext = b'k' ∷ [] }

keys_queue :
    Queues bare letter (
      actions_of bare showing (feed_packet bare showing shown_server (9 ∷ 1 ∷ 0 ∷ b'k' ∷ []) 1 5).1)
unfolding feed_packet opened_packet session_packet reliable_packet in_order_packet drain process
    finish then_sync check_sync sync_grid is_identical queue_frame prune_history push_state
    Session.State.new
keys_queue = (refl, tt)

feed_packet-Reaches_example :
    Reaches whole bare showing letter first_world
      (feed_packet bare showing shown_server (9 ∷ 1 ∷ 0 ∷ b'k' ∷ []) 1 5).0
      (actions_of bare showing
        (feed_packet bare showing shown_server (9 ∷ 1 ∷ 0 ∷ b'k' ∷ []) 1 5).1)
feed_packet-Reaches_example =
    feed_packet-Reaches whole bare showing letter letter-IsValid (λ k. omega arith) first_world
      first_run keys_packet 5 (inl refl) (9 ∷ 1 ∷ 0 ∷ b'k' ∷ []) (keystrokes (b'k' ∷ []))
      (record { wire_len = 3; comp_len = 0; decomp_len = 0 }) 1 refl keys_queue

-- A screen that has changed is queued.
abbrev dirty_server : Session bare showing
dirty_server = record shown_server { dirty = true }

dirty_queued :
    (check_sync bare showing dirty_server 7).1
    ≡ offload_diff_job
        (record {
          seq = 1;
          ack_seq = 0;
          ref_seq = 0;
          ref_state = none;
          current_state = letter 1;
          codec = tt;
          is_echo_recommended = true;
        })
        1
      ∷ []
unfolding check_sync sync_grid is_identical queue_frame prune_history push_state Session.State.new
dirty_queued = refl

no_history : length dirty_server.state_history ≤ 200
unfolding Session.State.new
no_history = omega arith

check_sync-Checked_example :
    Checked bare showing dirty_server 7 (check_sync bare showing dirty_server 7)
check_sync-Checked_example = check_sync-Checked bare showing dirty_server 7 no_history
