-- ===== src/Sync/Shown.antt =====
-- A frame of src/server/session.rs whose references are acknowledged, at `feed_packet` of
-- src/client/session.rs.
use rumsh.Prelude.{
  ℕ, ◌*◌, ◌≤◌, ◌<◌, ◌≡◌, ◌⊎◌, refl, sym, subst, ◌∙◌, ap, ap₂, false, List, ◌∷◌, some, ok, arith,
  inl, inr, leb, Bool-cases, Result-cases, Failure, err,
}
use rumsh.Protocol.{ServerPayload, EncryptedServerPacket}
use rumsh.Protocol.Grid.{GridState, FrameUpdate, u16_mod}
use rumsh.Protocol.Grid.Roundtrip.Bases.{IsValid}
use rumsh.Protocol.Codec.Interface.{PacketCodec, CodecStats, OpenedServer}
use rumsh.Client.Floats.{F32}
use rumsh.Client.Session.State.{Mirror, ClientAction, Answer}
use rumsh.Client.Session.Receive.{base_state, received, feed_packet, opened_packet}
use rumsh.Server.Interface.{Backend}
use rumsh.Server.Session.State.{History, push_state}
use rumsh.Sync.Histories.{Knows}
use rumsh.Sync.Hearing.{
  is_frame, key, old-Ends, other-Ends, opened_packet-frame, shown_datagram, shown_datagram-Ends,
}
use rumsh.Sync.Numbers.{push_state-Knows_new}
use rumsh.Sync.World.{IsSent, World, Run, start, queue, reply, serve, hear, act}
use rumsh.Sync.Kept.{Kept, reply-Kept, serve-Kept, queue-Kept}
use rumsh.Sync.Genuine.{
  IsNext, start-Kept, next-Kept, act-Kept, old-IsNext, other-IsNext, frame-IsNext, frame_base,
}

payload-cases :
    (p : ServerPayload) → (is_frame p ≡ false) ⊎ ((u : FrameUpdate) × (ServerPayload.frame u ≡ p))
payload-cases (ServerPayload.frame u) = inr (u, refl)
payload-cases ServerPayload.keep_alive = inl refl
payload-cases ServerPayload.shutdown = inl refl
payload-cases (ServerPayload.handshake_ack id) = inl refl

module _ (f32 : F32) (pc : PacketCodec) where
  feed_packet-opened_packet :
      (c : Mirror f32 pc) (bytes : List ℕ) (now : ℕ) (codec : pc.Codec) (opened : OpenedServer)
      → pc.open_server c.codec bytes ≡ (codec, ok (some opened))
      → feed_packet f32 pc c bytes now
        ≡ opened_packet f32 pc (record c { codec = codec }) opened now
  unfolding feed_packet received
  feed_packet-opened_packet c bytes now codec opened opens = rw opens refl

  module _ (be : Backend) (queued : ℕ → GridState) (w : World f32 pc be)
      (k : Kept f32 pc be queued w) (codec : pc.Codec) (packet : EncryptedServerPacket)
      (stats : CodecStats) (now : ℕ) where
    abbrev opened_client : Mirror f32 pc
    opened_client = record w.client { codec = codec }

    -- A frame that is newer than all that the client has heard is shown.
    frame_shown :
        (u : FrameUpdate)
        → IsSent packet.seq_num (ServerPayload.frame u) w.sent
        → leb packet.seq_num w.client.ack_seq_num ≡ false
        → opened_packet f32 pc opened_client (packet, ServerPayload.frame u, stats) now
          ≡ shown_datagram f32 pc opened_client packet stats
              (queued packet.seq_num)
              u.is_echo_enabled
              now
    unfolding base_state
    frame_shown u sent newer =
        let (base, found) = frame_base f32 pc be queued w k packet.seq_num u sent (ground arith) in
        opened_packet-frame f32 pc opened_client packet stats now queued u base k.client newer
          (k.leads packet.seq_num u sent) found

    hear-IsNext :
        (p : ServerPayload) (actions : List ClientAction)
        → IsSent packet.seq_num p w.sent
        → (opened_packet f32 pc opened_client (packet, p, stats) now).1 ≡ ok actions
        → IsNext f32 pc be queued w k
            (key f32 pc (opened_packet f32 pc opened_client (packet, p, stats) now).0)
    hear-IsNext p actions sent fine = elim (Bool-cases (leb packet.seq_num w.client.ack_seq_num)) [
      | inl old ↦
          subst (IsNext f32 pc be queued w k)
            (sym (old-Ends f32 pc opened_client packet stats now p old actions fine))
            (old-IsNext f32 pc be queued w k)
      | inr newer ↦ elim (payload-cases p) [
        | inl other ↦
            subst (IsNext f32 pc be queued w k)
              (sym (other-Ends f32 pc opened_client packet stats now p newer other actions fine))
              (other-IsNext f32 pc be queued w k packet.seq_num p sent newer other)
        | inr (u, frame) ↦
            let is_sent = subst (λ q. IsSent packet.seq_num q w.sent) (sym frame) sent in
            let same =
              ap (λ q. opened_packet f32 pc opened_client (packet, q, stats) now) (sym frame)
              ∙ frame_shown u is_sent newer in
            let ends =
              shown_datagram-Ends f32 pc opened_client packet stats now (queued packet.seq_num)
                u.is_echo_enabled actions (ap (λ (a : Answer f32 pc). a.1) (sym same) ∙ fine) in
            subst (IsNext f32 pc be queued w k)
              (sym (ap (λ (a : Answer f32 pc). key f32 pc a.0) same ∙ ends))
              (frame-IsNext f32 pc be queued w k packet.seq_num p sent newer)
      ]
    ]

    hear-Kept :
        (bytes : List ℕ) (p : ServerPayload) (actions : List ClientAction)
        → pc.open_server w.client.codec bytes ≡ (codec, ok (some (packet, p, stats)))
        → IsSent packet.seq_num p w.sent
        → (feed_packet f32 pc w.client bytes now).1 ≡ ok actions
        → Kept f32 pc be queued (record w {
          client = (feed_packet f32 pc w.client bytes now).0;
          acks = (feed_packet f32 pc w.client bytes now).0.ack_seq_num ∷ w.acks;
        })
    hear-Kept bytes p actions opens sent fine =
        let fed = feed_packet-opened_packet w.client bytes now codec (packet, p, stats) opens in
        let c = (feed_packet f32 pc w.client bytes now).0 in
        next-Kept f32 pc be queued w k c (
          subst (λ (a : Answer f32 pc). IsNext f32 pc be queued w k (key f32 pc a.0)) (sym fed)
            (hear-IsNext p actions sent (ap (λ (a : Answer f32 pc). a.1) (sym fed) ∙ fine)))

  module _ (be : Backend) (queued : ℕ → GridState) (valid : (n : ℕ) → IsValid (queued n))
      (small : (n : ℕ) → (queued n).cols * (queued n).rows ≤ u16_mod) where
    pub Run-Kept : {w : World f32 pc be} → Run f32 pc be queued w → Kept f32 pc be queued w
    Run-Kept (start s c cleared unheard no_history no_ack) =
        start-Kept f32 pc be queued s c cleared unheard (ap₂ (λ h a. (h, a)) no_history no_ack)
    Run-Kept (queue w now job u r queues makes) =
        queue-Kept f32 pc be queued w (Run-Kept r) valid small now job u queues makes
    Run-Kept (reply w s p r other next same_ack same_history) =
        reply-Kept f32 pc be queued w (Run-Kept r) s p other next same_ack same_history
    Run-Kept (serve w s r later ack history) =
        serve-Kept f32 pc be queued w (Run-Kept r) s later ack history
    Run-Kept (hear w bytes now codec (packet, p, stats) actions r opens sent fine) =
        hear-Kept be queued w (Run-Kept r) codec packet stats now bytes p actions opens sent fine
    Run-Kept (act w c r same_history same_ack) =
        act-Kept f32 pc be queued w (Run-Kept r) c (ap₂ (λ h a. (h, a)) same_history same_ack)

    -- In any run in which the server only takes acknowledgements that the client gave, over a
    -- network that loses, repeats and reorders datagrams, and whatever the client's screen and its
    -- codec hold: when a datagram opens to a frame that was sent and is newer than all that the
    -- client has heard, the client shows exactly the grid that the server queued under its number,
    -- and never drops it for a missing reference. Unless drawing fails, its history then has that
    -- grid under that number, and the number is what it acknowledges. The queued grids are valid
    -- and have at most 2^16 cells.
    pub Run-feed_packet :
        (w : World f32 pc be) (bytes : List ℕ) (now : ℕ) (codec : pc.Codec)
        (packet : EncryptedServerPacket) (u : FrameUpdate) (stats : CodecStats)
        → Run f32 pc be queued w
        → pc.open_server w.client.codec bytes
          ≡ (codec, ok (some (packet, ServerPayload.frame u, stats)))
        → IsSent packet.seq_num (ServerPayload.frame u) w.sent
        → w.client.ack_seq_num < packet.seq_num
        → let grid = queued packet.seq_num in
          let answer = feed_packet f32 pc w.client bytes now in
          (answer
            ≡ shown_datagram f32 pc
                (record w.client { codec = codec })
                packet
                stats
                grid
                u.is_echo_enabled
                now)
          × (((e : Failure) × (answer.1 ≡ err e))
              ⊎ (Knows answer.0.state_history packet.seq_num grid
                  × (answer.0.ack_seq_num ≡ packet.seq_num)))
    Run-feed_packet w bytes now codec packet u stats r opens sent newer =
        let kept = Run-Kept r in
        let seq = packet.seq_num in
        let c = record w.client { codec = codec } in
        let shown =
          feed_packet-opened_packet w.client bytes now codec _ opens
          ∙ frame_shown be queued w kept codec packet stats now u sent (ground arith) in
        (
          shown,
          elim (Result-cases (feed_packet f32 pc w.client bytes now).1) [
            | inr failed ↦ inl failed
            | inl (actions, fine) ↦
                let ends =
                  shown_datagram-Ends f32 pc c packet stats now (queued seq) u.is_echo_enabled
                    actions (ap (λ (a : Answer f32 pc). a.1) (sym shown) ∙ fine) in
                let is : key f32 pc (feed_packet f32 pc w.client bytes now).0
                    ≡ (push_state w.client.state_history seq (queued seq), seq) =
                  ap (λ (a : Answer f32 pc). key f32 pc a.0) shown ∙ ends in
                inr (
                  subst (λ (x : History × ℕ). Knows x.0 seq (queued seq)) (sym is)
                      (push_state-Knows_new w.client.state_history seq (queued seq)),
                  ap (λ (x : History × ℕ). x.1) is,
                )
          ],
        )
