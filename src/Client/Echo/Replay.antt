-- ===== src/Client/Echo/Replay.antt =====
-- `reconcile_frame` and the batches that the server has not confirmed.
use mathlib.Core.List.{append-nil, append_assoc}
use rumsh.Prelude.{
  ℕ, ◌≡◌, refl, sym, ◌∙◌, ap, ap₂, subst, true, false, List, [], ◌∷◌, ◌++◌, Result, ok, ◌>>=◌,
  ok_of_bind, leb, ltb, if◌then◌else◌, arith, Bool-cases, inl, inr,
}
use rumsh.Client.Frame.{TerminalFrame}
use rumsh.Client.Echo.{
  PredictionEntry, LocalEchoEngine, Echo, apply_bytes, apply_keystrokes, drop_confirmed, reapply,
  reconcile_frame,
}
use rumsh.Client.Echo.Rollback.{type_all}

abbrev pub fresh : ℕ → LocalEchoEngine
fresh epoch = record { unconfirmed_inputs = []; current_epoch = epoch }

-- The batches after those that the server has confirmed.
abbrev pub unconfirmed : ℕ → List (List ℕ × ℕ) → List (List ℕ × ℕ)
unconfirmed ack [] = []
unconfirmed ack ((bytes, seq) ∷ rest) =
    if leb seq ack then unconfirmed ack rest else (bytes, seq) ∷ rest

-- The keys and number of each entry, all of one epoch.
abbrev Records : ℕ → List (List ℕ × ℕ) → List PredictionEntry → Type 0
Records epoch [] [] = Unit
Records epoch [] (e ∷ es) = ⊥
Records epoch (b ∷ bs) [] = ⊥
Records epoch (b ∷ bs) (e ∷ es) =
    ((e.bytes ≡ b.0) × (e.seq_num ≡ b.1) × (e.epoch ≡ epoch)) × Records epoch bs es

drop_confirmed-Records :
    (ack epoch : ℕ) (batches : List (List ℕ × ℕ)) (es : List PredictionEntry)
    → Records epoch batches es
    → Records epoch (unconfirmed ack batches) (drop_confirmed ack epoch es)
unfolding drop_confirmed
drop_confirmed-Records ack epoch [] [] r = tt
drop_confirmed-Records ack epoch [] (e ∷ es) r = elim r [ ]
drop_confirmed-Records ack epoch (b ∷ bs) [] r = elim r [ ]
drop_confirmed-Records ack epoch (b ∷ bs) (e ∷ es) ((eb, es', ee), r) =
    elim (Bool-cases (leb e.seq_num ack)) [
      | inl done ↦
          rw (done, subst (λ n. leb n ack ≡ true) es' done)
            (drop_confirmed-Records ack epoch bs es r)
      | inr open_ ↦
          rw (open_, subst (λ n. leb n ack ≡ false) es' open_)
            (let young : ltb e.epoch epoch ≡ false = ground arith in rw young ((eb, es', ee), r))
    ]

module _ {F : Type 0} where
  -- What a batch adds to the engine.
  apply_keystrokes-Records :
      (engine engine' : LocalEchoEngine) (f g : TerminalFrame F) (bytes : List ℕ) (seq : ℕ)
      → apply_keystrokes engine f bytes seq ≡ ok (engine', g)
      → (e : PredictionEntry) × (engine'
          ≡ record engine { unconfirmed_inputs = engine.unconfirmed_inputs ++ e ∷ [] })
        × (e.bytes ≡ bytes)
        × (e.seq_num ≡ seq)
        × (e.epoch ≡ engine.current_epoch)
  unfolding apply_keystrokes
  apply_keystrokes-Records engine engine' f g bytes seq h =
      let (d, _, made) = ok_of_bind (apply_bytes f [] bytes) _ (engine', g) h in
      (
        record {
          seq_num = seq;
          bytes = bytes;
          epoch = engine.current_epoch;
          old_cursor_x = f.cursor_x;
          old_cursor_y = f.cursor_y;
          old_cells = d.1;
        },
        cc made,
        refl,
        refl,
        refl,
      )

  type_all-Records :
      (batches : List (List ℕ × ℕ)) (engine engine' : LocalEchoEngine) (f g : TerminalFrame F)
      → type_all batches engine f ≡ ok (engine', g)
      → (es : List PredictionEntry) × (engine'
          ≡ record engine { unconfirmed_inputs = engine.unconfirmed_inputs ++ es })
        × Records engine.current_epoch batches es
  unfolding type_all
  type_all-Records [] engine engine' f g h =
      let same : engine ≡ engine' = cc h in
      (
        [],
        sym same
            ∙ ap (λ us. record engine { unconfirmed_inputs = us })
                (sym (append-nil engine.unconfirmed_inputs)),
        tt,
      )
  type_all-Records ((bytes, seq) ∷ rest) engine engine' f g h =
      let (mid, step, h') = ok_of_bind (apply_keystrokes engine f bytes seq) _ (engine', g) h in
      let (e, grown, eb, en, ee) = apply_keystrokes-Records engine mid.0 f mid.1 bytes seq step in
      let (es, more, r) = type_all-Records rest mid.0 engine' mid.1 g h' in
      (
        e ∷ es,
        more
            ∙ ap
                (λ (m : LocalEchoEngine). record m {
                  unconfirmed_inputs = m.unconfirmed_inputs ++ es;
                })
                grown
            ∙ ap (λ us. record engine { unconfirmed_inputs = us })
                (append_assoc engine.unconfirmed_inputs (e ∷ []) es),
        (
          (eb, en, ee),
          subst (λ n. Records n rest es) (ap (λ (m : LocalEchoEngine). m.current_epoch) grown) r,
        ),
      )

  -- Typing the entries again is typing their batches.
  reapply-type_all :
      (epoch : ℕ) (batches : List (List ℕ × ℕ)) (es : List PredictionEntry)
      (engine : LocalEchoEngine) (f : TerminalFrame F)
      → Records epoch batches es
      → reapply es engine f ≡ type_all batches engine f
  unfolding reapply type_all
  reapply-type_all epoch [] [] engine f r = refl
  reapply-type_all epoch [] (e ∷ es) engine f r = elim r [ ]
  reapply-type_all epoch (b ∷ bs) [] engine f r = elim r [ ]
  reapply-type_all epoch ((bytes, seq) ∷ bs) (e ∷ es) engine f ((eb, en, ee), r) =
      let rest = λ (m : Echo F). reapply-type_all epoch bs es m.0 m.1 r in
      ap₂ (λ k n. apply_keystrokes engine f k n >>= λ m. reapply es m.0 m.1) eb en
      ∙ ap (λ (next : Echo F → Result (Echo F)). apply_keystrokes engine f bytes seq >>= next)
          (λ i m. rest m i)

  -- After any batches typed since an engine with nothing unconfirmed, `reconcile_frame` on any frame
  -- is typing, on that frame and with nothing else unconfirmed, the batches from the first on that
  -- the acknowledgement does not cover.
  pub reconcile_frame-type_all :
      (batches : List (List ℕ × ℕ)) (epoch ack : ℕ) (engine : LocalEchoEngine)
      (f g shown : TerminalFrame F)
      → type_all batches (fresh epoch) f ≡ ok (engine, g)
      → reconcile_frame engine shown ack ≡ type_all (unconfirmed ack batches) (fresh epoch) shown
  unfolding reconcile_frame
  reconcile_frame-type_all batches epoch ack engine f g shown h =
      let (es, made, r) = type_all-Records batches (fresh epoch) engine f g h in
      ap
        (λ (m : LocalEchoEngine).
          reapply (drop_confirmed ack m.current_epoch m.unconfirmed_inputs)
            (record m { unconfirmed_inputs = [] }) shown)
        made
      ∙ reapply-type_all epoch (unconfirmed ack batches) (drop_confirmed ack epoch es) (fresh epoch)
          shown (drop_confirmed-Records ack epoch batches es r)
