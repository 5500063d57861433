-- ===== src/Tests/HearRuns.antt =====
-- A first frame that a client hears, and acknowledges.
use rumsh.Prelude.{◌<◌, ◌≡◌, ◌⊎◌, refl, true, false, [], ◌∷◌, some, ok, err, Failure, arith, inl}
use rumsh.Protocol.{ServerPayload, EncryptedServerPacket}
use rumsh.Protocol.Codec.Interface.{PacketCodec, CodecStats}
use rumsh.Client.Session.State
use rumsh.Client.Session.State.{Mirror}
use rumsh.Client.Session.Receive.{feed_packet}
use rumsh.Server.Session
use rumsh.Server.Session.State.{Session, offload_diff_job, prune_history, push_state}
use rumsh.Server.Session.Queue.{queue_frame}
use rumsh.Sync.Histories.{Knows}
use rumsh.Sync.Frames.{queue_next}
use rumsh.Sync.Hearing.{shown_datagram}
use rumsh.Sync.World.{World, Run, start, queue}
use rumsh.Sync.Shown.{Run-feed_packet}
use rumsh.Tests.ServerRuns.{bare, logging}
use rumsh.Tests.SyncRuns.{whole, letter, letter-IsValid, first_job, first_update, first_made}

abbrev first_packet : EncryptedServerPacket
first_packet = record {
  seq_num = 1;
  ack_seq_num = 0;
  frag_idx = 0;
  total_frags = 1;
  ciphertext = [];
}

abbrev no_stats : CodecStats
no_stats = record { wire_len = 3; comp_len = 0; decomp_len = 0 }

-- A codec whose every datagram is the first frame.
abbrev framing : PacketCodec
framing = record bare {
  open_server =
      λ c bytes. (c, ok (some (first_packet, ServerPayload.frame first_update, no_stats)));
}

abbrev new_server : Session framing logging
new_server = Session.State.new framing logging 9 tt 0 1 tt [] 0

abbrev new_client : Mirror whole framing
new_client = State.new whole framing 9 tt 1 1 1 false 0

abbrev sent_world : World whole framing logging
sent_world = record {
  server = (queue_next framing logging letter new_server 5).0;
  sent = (1, ServerPayload.frame first_update) ∷ [];
  client = new_client;
  acks = [];
}

queued_first :
    (queue_next framing logging letter new_server 5).1 ≡ offload_diff_job first_job 1 ∷ []
unfolding queue_frame prune_history push_state Session.State.new
queued_first = refl

sent_run : Run whole framing logging letter sent_world
unfolding Session.State.new State.new
sent_run =
    queue (record { server = new_server; sent = []; client = new_client; acks = [] }) 5 first_job
      first_update (start new_server new_client refl refl refl refl) queued_first first_made

none_heard : new_client.ack_seq_num < 1
unfolding State.new
none_heard = omega arith

Run-feed_packet_example :
    (feed_packet whole framing new_client (7 ∷ []) 8
      ≡ shown_datagram whole framing new_client first_packet no_stats (letter 1) true 8)
    × (((e : Failure) × ((feed_packet whole framing new_client (7 ∷ []) 8).1 ≡ err e))
        ⊎ (Knows (feed_packet whole framing new_client (7 ∷ []) 8).0.state_history 1 (letter 1)
            × ((feed_packet whole framing new_client (7 ∷ []) 8).0.ack_seq_num ≡ 1)))
Run-feed_packet_example =
    Run-feed_packet whole framing logging letter letter-IsValid (λ k. omega arith) sent_world
      (7 ∷ []) 8 tt first_packet first_update no_stats sent_run refl (inl (refl, refl)) none_heard
