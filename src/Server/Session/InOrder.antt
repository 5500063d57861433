-- ===== src/Server/Session/InOrder.antt =====
-- The reliable packets of a session and its PTY.
use rumsh.Prelude.{
  ℕ, zero, suc, ◌+◌, ◌-◌, ◌≡◌, refl, ◌∙◌, ap, Bool, true, false, List, [], ◌∷◌, ◌++◌, ltb, leb,
  if◌then◌else◌, not, ◌&&◌, Map, Bool-cases, inl, inr, Result, ok, err,
}
use rumsh.Protocol.{ClientPayload, ServerPayload}
use rumsh.Protocol.ClientPayload.{keystrokes, resize}
use rumsh.Protocol.Grid.{GridState}
use rumsh.Protocol.Codec.Interface.{PacketCodec}
use rumsh.Server.Interface.{Backend, millis}
use rumsh.Server.Session.State.{Session, Action}
use rumsh.Server.Session.Queue.{check_sync, sync_grid, queue_frame, is_identical, min_interval}
use rumsh.Server.Session.Packets.{process, send_all}
use rumsh.Server.Session.Drain.{run_of}

-- The payloads of the reliable stream.
pub data IsReliable : ClientPayload → Type 0 where
  of_keystrokes : (keys : List ℕ) → IsReliable (keystrokes keys)
  of_resize : (cols rows : ℕ) → IsReliable (resize cols rows)
  of_keep_alive : IsReliable ClientPayload.keep_alive

module _ (pc : PacketCodec) (be : Backend) where
  -- What a payload does to the PTY.
  abbrev pub deliver : ClientPayload → be.Pty → be.Pty
  deliver (keystrokes keys) pty = be.write pty keys
  deliver (resize cols rows) pty = be.resize pty cols rows
  deliver other pty = pty

  -- The payloads numbered from `k` on, `n` of them, one after another.
  abbrev pub deliver_run : (ℕ → ClientPayload) → ℕ → ℕ → be.Pty → be.Pty
  deliver_run stream k zero pty = pty
  deliver_run stream k (suc n) pty = deliver_run stream (suc k) n (deliver (stream k) pty)

  -- The part of a session that the reliable stream uses.
  pub record Link : Type 0 where
    pub session_id : ℕ
    pub codec : pc.Codec
    pub expected : ℕ
    pub buffered : Map ClientPayload
    pub ack : ℕ
    pub pty : be.Pty

  abbrev pub link : Session pc be → Link
  link s = record {
    session_id = s.session_id;
    codec = s.codec;
    expected = s.expected_client_seq;
    buffered = s.out_of_order_packets;
    ack = s.ack_seq_num;
    pty = s.pty;
  }

  link-sync_grid :
      (s : Session pc be) (state : Result GridState) (now : ℕ)
      → link (sync_grid pc be s state now).0 ≡ link s
  unfolding sync_grid queue_frame
  link-sync_grid s (err e) now = refl
  link-sync_grid s (ok grid) now =
      elim (Bool-cases
        (is_identical pc be s.state_history grid && not (ltb s.last_sent_ack_seq s.ack_seq_num))) [
          | inl same ↦ rw same refl
          | inr changed ↦ rw changed refl
        ]

  link_either :
      (b : Bool) (x y : Session pc be × List (Action pc be)) (l : Link)
      → link x.0 ≡ l
      → link y.0 ≡ l
      → link (if b then x else y).0 ≡ l
  link_either true x y l hx hy = hx
  link_either false x y l hx hy = hy

  link_calm :
      (b : Bool) (s : Session pc be)
      → link (if b then record s { pty_bytes_acc = 0 } else s) ≡ link s
  link_calm true s = refl
  link_calm false s = refl

  -- A synchronization leaves the stream alone.
  pub link-check_sync : (s : Session pc be) (now : ℕ) → link (check_sync pc be s now).0 ≡ link s
  unfolding check_sync
  link-check_sync s now =
      let calm =
        if leb (millis 50) (now - s.last_pty_bytes_time)
        then record s { pty_bytes_acc = 0 }
        else s in
      let (term, state) = be.update_and_get_state calm.term_state in
      let refreshed = record calm { term_state = term } in
      let kept : link calm ≡ link s = link_calm (leb (millis 50) (now - s.last_pty_bytes_time)) s in
      let idle = not s.dirty && leb s.ack_seq_num s.last_sent_ack_seq in
      let synced = sync_grid pc be refreshed state now in
      link_either (ltb 0 s.seq_num && ltb (now - s.last_sync_time) (min_interval pc be s now))
        (s, []) (if idle then (calm, []) else synced) (link s) refl
        (link_either idle (calm, []) synced (link s) kept
          (link-sync_grid refreshed state now ∙ kept))

  -- Sealing a keep-alive always succeeds.
  abbrev pub Replies : Type 0
  Replies =
      (c : pc.Codec) (seq ack : ℕ)
      → (ps : List (List ℕ)) × (pc.seal_server c seq ack ServerPayload.keep_alive ≡ ok ps)

  -- One packet, before the packets `ps`.
  process-cons :
      Replies
      → (k : ℕ) (p : ClientPayload) (ps : List (ℕ × ClientPayload)) (s : Session pc be)
      → IsReliable p
      → (s1 : Session pc be) × (link s1 ≡ record (link s) { pty = deliver p s.pty })
        × ((s' : Session pc be) (actions : List (Action pc be))
            → process pc be ps s1 ≡ (s', ok actions)
            → (all : List (Action pc be)) × (process pc be ((k, p) ∷ ps) s ≡ (s', ok all)))
  unfolding process
  process-cons replies k _ ps s (of_keystrokes keys) =
      (record s { pty = be.write s.pty keys }, refl, (λ s' actions e. (actions, e)))
  process-cons replies k _ ps s (of_resize cols rows) = (
    record s {
      pty = be.resize s.pty cols rows;
      term_state = be.term_resize s.term_state cols rows;
      dirty = true;
    },
    refl,
    (λ s' actions e. (actions, e)),
  )
  process-cons replies k _ ps s of_keep_alive =
      let (packets, sealed) = replies s.codec (s.seq_num + 1) s.ack_seq_num in
      (
        record s { seq_num = s.seq_num + 1 },
        refl,
        (λ s' actions e. (
          send_all pc be s.current_client_addr packets ++ actions,
          rw (process, sealed) (rw e refl),
        )),
      )

  pub link-process :
      (stream : ℕ → ClientPayload)
      → ((k : ℕ) → IsReliable (stream k))
      → Replies
      → (n k : ℕ) (s : Session pc be)
      → (s' : Session pc be) × (actions : List (Action pc be)) × (process pc be
            (run_of stream k n)
            s
          ≡ (s', ok actions))
        × (link s' ≡ record (link s) { pty = deliver_run stream k n s.pty })
  unfolding process
  link-process stream rel replies zero k s = (s, [], refl, refl)
  link-process stream rel replies (suc n) k s =
      let (s1, l1, next) = process-cons replies k (stream k) (run_of stream (suc k) n) s (rel k) in
      let (s', actions, e, l) = link-process stream rel replies n (suc k) s1 in
      let (all, e') = next s' actions e in
      (s', all, e', l ∙ ap (λ (m : Link). record m { pty = deliver_run stream (suc k) n m.pty }) l1)
