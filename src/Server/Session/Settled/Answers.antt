-- ===== src/Server/Session/Settled/Answers.antt =====
-- The answers of `feed_packet` of src/server/session.rs, and whether a job is among their actions.
use rumsh.Prelude.{
  ℕ, ◌+◌, ◌-◌, ◌≡◌, ◌⊎◌, refl, Bool, true, false, ◌&&◌, List, [], ◌∷◌, Result, ok, err, arith, inl,
  inr, ltb, ◌==◌, if◌then◌else◌, length, Result-cases, insert,
}
use rumsh.Protocol.{ClientPayload, ServerPayload, EncryptedClientPacket}
use rumsh.Protocol.ClientPayload.{handshake, keystrokes, resize, ack, fragment_nack}
use rumsh.Protocol.Codec.Interface.{PacketCodec, OpenedClient}
use rumsh.Server.Interface.{Backend, secs}
use rumsh.Server.Session.State.{Session, Action, resend_fragments}
use rumsh.Server.Session.Settled.{jobs, jobs-append, IsClean, check_sync-IsSettled}
use rumsh.Server.Session.Queue.{check_sync}
use rumsh.Server.Session.Packets.{
  Answer, send_all, then_sync, handshake_packet, is_transient, nack_actions, transient_packet,
  add_actions, process, finish, drain, in_order_packet, reliable_packet, session_packet,
  opened_packet, feed_packet,
}

module _ (pc : PacketCodec) (be : Backend) where
  -- An answer, with no job in it, and with one only when it is clean.
  abbrev IsIdle : Answer pc be → Type 0
  IsIdle (s, ok actions) = jobs actions ≡ 0
  IsIdle (s, err e) = Unit

  abbrev pub Settles : Answer pc be → Type 0
  Settles (s, ok actions) = (jobs actions ≡ 0) ⊎ IsClean pc be s
  Settles (s, err e) = Unit

  if-Settles :
      (b : Bool) (x y : Answer pc be) → Settles x → Settles y → Settles (if b then x else y)
  if-Settles true x y hx hy = hx
  if-Settles false x y hx hy = hy

  add_actions-IsIdle :
      (first : List (Action pc be)) (x : Answer pc be)
      → jobs first ≡ 0
      → IsIdle x
      → IsIdle (add_actions pc be first x)
  add_actions-IsIdle first (s, ok rest) none_first none_rest =
      omega (arith, jobs-append first rest, none_first, none_rest)
  add_actions-IsIdle first (s, err e) none_first none_rest = tt

  jobs-send_all : (target : ℕ) (packets : List (List ℕ)) → jobs (send_all pc be target packets) ≡ 0
  jobs-send_all target [] = refl
  jobs-send_all target (p ∷ packets) = jobs-send_all target packets

  process-IsIdle : (ps : List (ℕ × ClientPayload)) (s : Session pc be) → IsIdle (process pc be ps s)
  unfolding process
  process-IsIdle [] s = refl
  process-IsIdle ((seq, ack) ∷ ps) s = process-IsIdle ps s
  process-IsIdle ((seq, keystrokes keys) ∷ ps) s = process-IsIdle ps _
  process-IsIdle ((seq, resize cols rows) ∷ ps) s = process-IsIdle ps _
  process-IsIdle ((seq, ClientPayload.keep_alive) ∷ ps) s =
      elim (Result-cases
        (pc.seal_server s.codec (s.seq_num + 1) s.ack_seq_num ServerPayload.keep_alive)) [
          | inr (e, failed) ↦ rw (process, failed) tt
          | inl (packets, sealed) ↦
              rw (process, sealed)
                (add_actions-IsIdle (send_all pc be s.current_client_addr packets) _
                  (jobs-send_all s.current_client_addr packets) (process-IsIdle ps _))
        ]
  process-IsIdle ((seq, fragment_nack f m) ∷ ps) s =
      add_actions-IsIdle (resend_fragments f m s.current_client_addr ∷ []) (process pc be ps s) refl
        (process-IsIdle ps s)
  process-IsIdle ((seq, handshake v cols rows) ∷ ps) s = tt

  then_sync-Settles :
      (s : Session pc be) (actions : List (Action pc be)) (now : ℕ)
      → jobs actions ≡ 0
      → Settles (then_sync pc be s actions now)
  unfolding then_sync
  then_sync-Settles s actions now none_first =
      let (s', more) = check_sync pc be s now in
      elim (check_sync-IsSettled pc be s now) [
        | inl none_more ↦ inl (omega (arith, jobs-append actions more, none_first, none_more))
        | inr clean ↦ inr clean
      ]

  finish-Settles : (x : Answer pc be) (now : ℕ) → IsIdle x → Settles (finish pc be x now)
  unfolding finish
  finish-Settles (s, err e) now idle = tt
  finish-Settles (s, ok actions) now idle = then_sync-Settles s actions now idle

  nack_actions-idle :
      (s : Session pc be) (payload : ClientPayload) → jobs (nack_actions pc be s payload) ≡ 0
  nack_actions-idle s (fragment_nack f m) = refl
  nack_actions-idle s (handshake v cols rows) = refl
  nack_actions-idle s (keystrokes keys) = refl
  nack_actions-idle s (resize cols rows) = refl
  nack_actions-idle s ack = refl
  nack_actions-idle s ClientPayload.keep_alive = refl

  module _ (s : Session pc be) (wire : EncryptedClientPacket) (now : ℕ) where
    reliable_packet-Settles :
        (payload : ClientPayload) → Settles (reliable_packet pc be s wire payload now)
    unfolding reliable_packet in_order_packet
    reliable_packet-Settles payload =
        let (more, expected, buffered) =
          drain (length s.out_of_order_packets) (s.expected_client_seq + 1)
            s.out_of_order_packets in
        let received = record s {
          expected_client_seq = expected;
          out_of_order_packets = buffered;
          ack_seq_num = expected - 1;
          client_ack_seq = wire.ack_seq_num;
        } in
        let later = record s {
          out_of_order_packets = insert wire.seq_num payload s.out_of_order_packets;
        } in
        let ps = (wire.seq_num, payload) ∷ more in
        let handled = finish pc be (process pc be ps received) now in
        let early = ltb s.expected_client_seq wire.seq_num in
        if-Settles (ltb wire.seq_num s.expected_client_seq) (s, ok [])
          (if early then (later, ok []) else handled) (inl refl)
          (if-Settles early (later, ok []) handled (inl refl)
            (finish-Settles (process pc be ps received) now (process-IsIdle ps received)))

    transient_packet-Settles :
        (payload : ClientPayload) → Settles (transient_packet pc be s wire payload now)
    unfolding transient_packet
    transient_packet-Settles payload =
        let acked =
          if ltb s.client_ack_seq wire.ack_seq_num
          then record s { client_ack_seq = wire.ack_seq_num }
          else s in
        then_sync-Settles acked (nack_actions pc be acked payload) now
          (nack_actions-idle acked payload)

    handshake_packet-Settles : (src_addr : ℕ) → Settles (handshake_packet pc be s wire src_addr now)
    unfolding handshake_packet
    handshake_packet-Settles src_addr =
        let reset = record s {
          current_client_addr = src_addr;
          last_recv_time = now;
          ack_seq_num = wire.seq_num;
          expected_client_seq = wire.seq_num + 1;
          client_ack_seq = 0;
          out_of_order_packets = [];
          state_history = [];
          dirty = true;
          seq_num = s.seq_num + 1;
        } in
        let reply =
          pc.seal_server s.codec reset.seq_num wire.seq_num
            (ServerPayload.handshake_ack s.session_id) in
        let busy = ltb 0 s.seq_num && ltb (now - s.last_recv_time) (secs 5) in
        let replied : Answer pc be = elim reply [
          | err e ↦ (reset, err e)
          | ok packets ↦ then_sync pc be reset (send_all pc be src_addr packets) now
        ] in
        if-Settles busy (s, ok []) replied (inl refl)
          (elim (Result-cases reply) [
            | inr (e, failed) ↦ rw failed tt
            | inl (packets, sealed) ↦ rw sealed (
                then_sync-Settles reset (send_all pc be src_addr packets) now
                  (jobs-send_all src_addr packets))
          ])

  opened_packet-Settles :
      (s : Session pc be) (opened : Result OpenedClient) (src_addr now : ℕ)
      → Settles (opened_packet pc be s opened src_addr now)
  unfolding opened_packet session_packet
  opened_packet-Settles s (err e) src_addr now = inl refl
  opened_packet-Settles s (ok (wire, payload, stats)) src_addr now =
      let heard = record s { last_recv_time = now; current_client_addr = src_addr } in
      let transient = transient_packet pc be heard wire payload now in
      let reliable = reliable_packet pc be heard wire payload now in
      let next = if is_transient pc be wire.seq_num payload then transient else reliable in
      let own : Answer pc be = if wire.session_id == s.session_id then next else (s, ok []) in
      if-Settles (wire.session_id == 0) (handshake_packet pc be s wire src_addr now) own
        (handshake_packet-Settles s wire now src_addr)
        (if-Settles (wire.session_id == s.session_id) next (s, ok [])
          (if-Settles (is_transient pc be wire.seq_num payload) transient reliable
            (transient_packet-Settles heard wire now payload)
            (reliable_packet-Settles heard wire now payload))
          (inl refl))

  -- Once a packet has made the session queue a frame, it holds that nothing is left to send.
  pub feed_packet-Settles :
      (s : Session pc be) (bytes : List ℕ) (src_addr now : ℕ)
      → Settles (feed_packet pc be s bytes src_addr now)
  unfolding feed_packet
  feed_packet-Settles s bytes src_addr now =
      opened_packet-Settles s (pc.open_client s.codec bytes) src_addr now
