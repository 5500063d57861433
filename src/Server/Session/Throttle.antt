-- ===== src/Server/Session/Throttle.antt =====
-- When `check_sync` of src/server/session.rs queues a frame, which one, and what the session is
-- afterwards.
use rumsh.Prelude.{
  ℕ, ◌-◌, ◌≤◌, ◌<◌, ◌≡◌, ◌⊎◌, refl, sym, subst, Bool, true, false, not, ◌&&◌, List, [], length, ltb,
  leb, if◌then◌else◌, arith, Bool-cases, inl, inr,
}
use rumsh.Protocol.Codec.Interface.{PacketCodec}
use rumsh.Server.Interface.{Backend, millis}
use rumsh.Server.Session.State.{Session, Action}
use rumsh.Server.Session.Queue.{check_sync, sync_grid, min_interval}
use rumsh.Server.Session.Syncing.{Key, key, Silent, Synced, sync_grid-Synced, sync_grid_size}

late_cases :
    (n d i : ℕ) (b : Bool)
    → (ltb 0 n && ltb d i) ≡ b
    → ((b ≡ true) × (0 < n) × (d < i)) ⊎ ((b ≡ false) × ((n ≡ 0) ⊎ (i ≤ d)))
late_cases n d i true e = inl (refl, ground arith, ground arith)
late_cases n d i false e = inr (
  refl,
  elim (Bool-cases (ltb 0 n)) [
    | inl some_sent ↦ inr (ground arith)
    | inr none_sent ↦ inl (ground arith)
  ],
)

busy_cases :
    (dirty : Bool) (a l : ℕ) (b : Bool)
    → (not dirty && leb a l) ≡ b
    → ((b ≡ true) × (dirty ≡ false) × (a ≤ l)) ⊎ ((b ≡ false) × ((dirty ≡ true) ⊎ (l < a)))
busy_cases true a l true e = cc e
busy_cases true a l false e = inr (refl, inl refl)
busy_cases false a l true e = inl (refl, refl, ground arith)
busy_cases false a l false e = inr (refl, inr (ground arith))

module _ (pc : PacketCodec) (be : Backend) where
  -- A frame is due when the last one is old enough, and there is something to send.
  abbrev pub Due : Session pc be → ℕ → Type 0
  Due s now =
      ((s.seq_num ≡ 0) ⊎ (min_interval pc be s now ≤ now - s.last_sync_time))
      × ((s.dirty ≡ true) ⊎ (s.last_sent_ack_seq < s.ack_seq_num))

  abbrev pub NotDue : Session pc be → ℕ → Type 0
  NotDue s now =
      ((0 < s.seq_num) × (now - s.last_sync_time < min_interval pc be s now))
      ⊎ ((s.dirty ≡ false) × (s.ack_seq_num ≤ s.last_sent_ack_seq))

  -- The interval in nanoseconds: the shell floods when more than 2048 bytes have come and the last of
  -- them less than 50 ms ago.
  abbrev pub IsInterval : Session pc be → ℕ → ℕ → Type 0
  IsInterval s now interval =
      ((2048 < s.pty_bytes_acc) × (now - s.last_pty_bytes_time < 50000000) × (interval ≡ 150000000))
      ⊎ (((s.pty_bytes_acc ≤ 2048) ⊎ (50000000 ≤ now - s.last_pty_bytes_time))
          × (interval ≡ 16000000))

  min_interval-IsInterval :
      (s : Session pc be) (now : ℕ) → IsInterval s now (min_interval pc be s now)
  min_interval-IsInterval s now = elim (Bool-cases (ltb 2048 s.pty_bytes_acc)) [
    | inr few ↦ inr (inl (ground arith), rw few refl)
    | inl many ↦ elim (Bool-cases (ltb (now - s.last_pty_bytes_time) (millis 50))) [
      | inl recent ↦ inl (ground arith, ground arith, rw (many, recent) refl)
      | inr calm ↦ inr (inr (ground arith), rw (many, calm) refl)
    ]
  ]

  abbrev pub Checked : Session pc be → ℕ → Session pc be × List (Action pc be) → Type 0
  Checked s now (s', actions) =
      ((NotDue s now × Silent pc be (key pc be s) s' actions)
        ⊎ (Due s now
            × Synced pc be (key pc be s) (be.update_and_get_state s.term_state).1 (s', actions)
                now))
      × (length s'.state_history ≤ 200)
      × IsInterval s now (min_interval pc be s now)

  -- With the byte counter reset or not.
  calm_sync-Checked :
      (b : Bool) (s : Session pc be) (now : ℕ)
      → length s.state_history ≤ 200
      → let calm = if b then record s { pty_bytes_acc = 0 } else s in
        let (term, state) = be.update_and_get_state calm.term_state in
        let r = sync_grid pc be (record calm { term_state = term }) state now in
        Synced pc be (key pc be s) (be.update_and_get_state s.term_state).1 r now
        × (length r.0.state_history ≤ 200)
  calm_sync-Checked true s now few =
      let (term, state) = be.update_and_get_state s.term_state in
      let calm = record s { pty_bytes_acc = 0; term_state = term } in
      (sync_grid-Synced pc be calm state now, sync_grid_size pc be calm state now few)
  calm_sync-Checked false s now few =
      let (term, state) = be.update_and_get_state s.term_state in
      let calm = record s { term_state = term } in
      (sync_grid-Synced pc be calm state now, sync_grid_size pc be calm state now few)

  calm_key :
      (b : Bool) (s : Session pc be)
      → key pc be (if b then record s { pty_bytes_acc = 0 } else s) ≡ key pc be s
  calm_key true s = refl
  calm_key false s = refl

  Silent-Checked :
      (s s' : Session pc be) (now : ℕ)
      → length s.state_history ≤ 200
      → NotDue s now
      → key pc be s' ≡ key pc be s
      → Checked s now (s', [])
  Silent-Checked s s' now few not_due same = (
    inl (not_due, (refl, same)),
    subst (λ (k : Key pc be). length k.state_history ≤ 200) (sym same) few,
    min_interval-IsInterval s now,
  )

  -- `check_sync` exactly: when no frame is due, as the last one is less than the interval old or
  -- nothing is dirty and no acknowledgement is owed, it sends nothing and changes nothing of the
  -- `Key`. When one is due, it takes the grid of the emulator; if that fails, it does nothing either.
  -- If the grid is the one queued last and no acknowledgement is owed, it sends nothing and the
  -- session is clean. In every other case it queues this very grid, in one job, as `Queued` and
  -- `RefersTo` of Syncing say. The interval is 150 ms while the shell floods, and else 16 ms. The
  -- history has at most 200 grids, if it had no more.
  pub check_sync-Checked :
      (s : Session pc be) (now : ℕ)
      → length s.state_history ≤ 200
      → Checked s now (check_sync pc be s now)
  unfolding check_sync
  check_sync-Checked s now few =
      let slow = leb (millis 50) (now - s.last_pty_bytes_time) in
      let calm = if slow then record s { pty_bytes_acc = 0 } else s in
      let (term, state) = be.update_and_get_state calm.term_state in
      let synced = sync_grid pc be (record calm { term_state = term }) state now in
      let idle = not s.dirty && leb s.ack_seq_num s.last_sent_ack_seq in
      let early = ltb 0 s.seq_num && ltb (now - s.last_sync_time) (min_interval pc be s now) in
      let on_time = if idle then (calm, []) else synced in
      elim (late_cases s.seq_num (now - s.last_sync_time) (min_interval pc be s now) early refl) [
        | inl (is_early, some_sent, soon) ↦
            subst (λ b. Checked s now (if b then (s, []) else on_time)) (sym is_early)
              (Silent-Checked s s now few (inl (some_sent, soon)) refl)
        | inr (is_late, old) ↦
            subst (λ b. Checked s now (if b then (s, []) else on_time)) (sym is_late)
              (elim (busy_cases s.dirty s.ack_seq_num s.last_sent_ack_seq idle refl) [
                | inl (is_idle, clean, acked) ↦
                    subst (λ b. Checked s now (if b then (calm, []) else synced)) (sym is_idle)
                      (Silent-Checked s calm now few (inr (clean, acked)) (calm_key slow s))
                | inr (is_busy, something) ↦
                    let (exact, size) = calm_sync-Checked slow s now few in
                    subst (λ b. Checked s now (if b then (calm, []) else synced)) (sym is_busy)
                      (inr ((old, something), exact), size, min_interval-IsInterval s now)
              ])
      ]
