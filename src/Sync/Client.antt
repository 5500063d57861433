-- ===== src/Sync/Client.antt =====
-- `FrameUpdate`s on the client: the base, the screen and the history.
use rumsh.Prelude.{
  ℕ, ◌-◌, ◌<◌, ◌≡◌, ◌⊎◌, refl, sym, subst, ◌∙◌, ap, Bool, true, false, List, [], ◌∷◌, none, some,
  Result, ok, err, ◌>>=◌, leb, ◌==◌, if◌then◌else◌, inl, inr, Bool-cases, Option-cases,
}
use rumsh.Protocol.Grid.{GridState, FrameUpdate, apply_diff}
use rumsh.Protocol.Codec.Interface.{PacketCodec}
use rumsh.Client.Floats.{F32}
use rumsh.Client.Terminal.{TerminalInner, apply_frame, abort_prediction}
use rumsh.Client.Session.State.{Mirror, ClientAction, Answer, with_mirror}
use rumsh.Client.Session.State.ClientAction.{paint}
use rumsh.Client.Session.Prepare.{Prepared, prepare_ack}
use rumsh.Client.Session.Receive.{base_state, frame_payload, show_frame, push_ack}
use rumsh.Server.Interface.{millis}
use rumsh.Server.Session.State.{History, push_state}
use rumsh.Sync.Histories.{Faithful, find_state-Knows, push_state-Faithful}
use rumsh.Sync.Frames.{referred, LeadsTo}

module _ (f32 : F32) (pc : PacketCodec) where
  push_ack_state :
      (actions : List ClientAction) (p : Prepared f32 pc) → (push_ack f32 pc actions p).0 ≡ p.0
  unfolding push_ack
  push_ack_state actions (s, ok bytes) = refl
  push_ack_state actions (s, err e) = refl

  prepare_ack_history :
      (s : Mirror f32 pc) (now : ℕ) → (prepare_ack f32 pc s now).0.state_history ≡ s.state_history
  unfolding prepare_ack
  prepare_ack_history s now = refl

  acked_history :
      (actions : List ClientAction) (s : Mirror f32 pc) (now : ℕ)
      → (push_ack f32 pc actions (prepare_ack f32 pc s now)).0.state_history ≡ s.state_history
  acked_history actions s now =
      ap (λ (m : Mirror f32 pc). m.state_history)
        (push_ack_state actions (prepare_ack f32 pc s now))
      ∙ prepare_ack_history s now

  if_history :
      (b : Bool) (x y : Answer f32 pc) (h : History)
      → x.0.state_history ≡ h
      → y.0.state_history ≡ h
      → (if b then x else y).0.state_history ≡ h
  if_history true x y h hx hy = hx
  if_history false x y h hx hy = hy

  with_mirror_history :
      (s : Mirror f32 pc) (m : Result (TerminalInner f32.F)) (next : Mirror f32 pc → Answer f32 pc)
      (h : History)
      → ((m' : TerminalInner f32.F) → (next (record s { mirror = m' })).0.state_history ≡ h)
      → ((with_mirror f32 pc s m next).0.state_history ≡ s.state_history)
        ⊎ ((with_mirror f32 pc s m next).0.state_history ≡ h)
  with_mirror_history s (ok m) next h e = inr (e m)
  with_mirror_history s (err f) next h e = inl refl

  show_frame_history :
      (c : Mirror f32 pc) (g : GridState) (echo : Bool) (seq now : ℕ)
      → ((show_frame f32 pc c g echo seq now).0.state_history ≡ c.state_history)
        ⊎ ((show_frame f32 pc c g echo seq now).0.state_history ≡ push_state c.state_history seq g)
  unfolding show_frame
  show_frame_history c g echo seq now =
      let shown : Result (TerminalInner f32.F) =
        apply_frame c.mirror g seq >>= λ m. if echo then ok m.0 else abort_prediction m.0 in
      let next : Mirror f32 pc → Answer f32 pc = λ drawn.
        let kept = record drawn { state_history = push_state drawn.state_history seq g } in
        if leb (millis 30) (now - kept.last_ack_sent)
        then push_ack f32 pc (paint ∷ []) (prepare_ack f32 pc kept now)
        else (kept, ok (paint ∷ [])) in
      with_mirror_history (record c { is_echo_enabled = echo }) shown next
        (push_state c.state_history seq g)
        (λ m'.
          let kept = record c {
            is_echo_enabled = echo;
            mirror = m';
            state_history = push_state c.state_history seq g;
          } in
          if_history (leb (millis 30) (now - kept.last_ack_sent))
            (push_ack f32 pc (paint ∷ []) (prepare_ack f32 pc kept now)) (kept, ok (paint ∷ []))
            (push_state c.state_history seq g) (acked_history (paint ∷ []) kept now) refl)

  module _ (queued : ℕ → GridState) (c : Mirror f32 pc) (f : Faithful queued c.state_history)
      (u : FrameUpdate) (seq now : ℕ) (leads : LeadsTo queued seq u) where
    -- The base, if the client has it, is the grid that the server referred to.
    base_state-referred :
        (base : GridState) → base_state f32 pc c u ≡ some base → base ≡ referred queued u
    unfolding base_state
    base_state-referred base e = elim (Bool-cases (u.ref_seq == 0)) [
      | inl full ↦ rw full (cc (rw full at e))
      | inr partial ↦
          rw partial
            (f u.ref_seq base (find_state-Knows u.ref_seq c.state_history base (rw partial at e))).1
    ]

    pub frame_payload-cases :
        ((base_state f32 pc c u ≡ none)
          × (frame_payload f32 pc c u seq now ≡ push_ack f32 pc [] (prepare_ack f32 pc c now)))
        ⊎ (frame_payload f32 pc c u seq now
            ≡ show_frame f32 pc c (queued seq) u.is_echo_enabled seq now)
    unfolding frame_payload
    frame_payload-cases = elim (Option-cases (base_state f32 pc c u)) [
      | inl missing ↦ inl (missing, rw (frame_payload, missing) refl)
      | inr (base, found) ↦
          let applied : apply_diff base u ≡ ok (queued seq) =
            ap (λ g. apply_diff g u) (base_state-referred base found) ∙ leads in
          inr (rw (frame_payload, found, applied) refl)
    ]

    pub frame_payload-Faithful :
        0 < seq → Faithful queued (frame_payload f32 pc c u seq now).0.state_history
    frame_payload-Faithful pos = elim frame_payload-cases [
      | inl (missing, e) ↦
          subst (Faithful queued)
            (sym (ap (λ (a : Answer f32 pc). a.0.state_history) e ∙ acked_history [] c now)) f
      | inr shown ↦
          let same = ap (λ (a : Answer f32 pc). a.0.state_history) shown in
          elim (show_frame_history c (queued seq) u.is_echo_enabled seq now) [
            | inl kept ↦ subst (Faithful queued) (sym (same ∙ kept)) f
            | inr pushed ↦
                subst (Faithful queued) (sym (same ∙ pushed))
                  (push_state-Faithful queued c.state_history seq pos f)
          ]
    ]
