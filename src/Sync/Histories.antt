-- ===== src/Sync/Histories.antt =====
-- The histories of grids that both sides keep, against the grids that the server queued.
use rumsh.Prelude.{
  ℕ, suc, ◌<◌, ◌≡◌, ◌⊎◌, sym, subst, ◌∙◌, ap, ◌&&◌, [], ◌∷◌, ◌++◌, some, length, ltb, ◌==◌, inl,
  inr, Bool-cases, ==→≡,
}
use rumsh.Protocol.Grid.{GridState}
use rumsh.Server.Session.State.{History, find_state, prune_history, push_state, pop_front}

-- The history has the grid under the number.
abbrev pub Knows : History → ℕ → GridState → Type 0
Knows [] seq g = ⊥
Knows ((k, s) ∷ h) seq g = ((k ≡ seq) × (s ≡ g)) ⊎ Knows h seq g

pub find_state-Knows :
    (wanted : ℕ) (h : History) (g : GridState) → find_state wanted h ≡ some g → Knows h wanted g
find_state-Knows wanted [] g e = cc e
find_state-Knows wanted ((k, s) ∷ h) g e = elim (Bool-cases (k == wanted)) [
  | inl here ↦ inl (==→≡ k wanted here, cc (rw here at e))
  | inr other ↦ inr (find_state-Knows wanted h g (rw other at e))
]

-- Every entry is the grid that was queued under its number, which is not 0.
abbrev pub Faithful : (ℕ → GridState) → History → Type 0
Faithful queued h = (seq : ℕ) (g : GridState) → Knows h seq g → (0 < seq) × (g ≡ queued seq)

module _ (queued : ℕ → GridState) where
  pub prune_history-Faithful :
      (ack : ℕ) (h : History) → Faithful queued h → Faithful queued (prune_history ack h)
  unfolding prune_history
  prune_history-Faithful ack [] f = f
  prune_history-Faithful ack ((k, s) ∷ h) f =
      elim (Bool-cases (ltb k ack && ltb 100 (suc (length h)))) [
        | inl old ↦ rw old (prune_history-Faithful ack h (λ seq g m. f seq g (inr m)))
        | inr young ↦ rw young f
      ]

  append-Faithful :
      (h : History) (seq : ℕ)
      → 0 < seq
      → Faithful queued h
      → Faithful queued (h ++ (seq, queued seq) ∷ [])
  append-Faithful [] seq pos f k g (inl (ek, eg)) =
      (subst (λ n. 0 < n) ek pos, sym eg ∙ ap queued ek)
  append-Faithful [] seq pos f k g (inr m) = absurd m
  append-Faithful ((j, s) ∷ h) seq pos f k g (inl here) = f k g (inl here)
  append-Faithful ((j, s) ∷ h) seq pos f k g (inr m) =
      append-Faithful h seq pos (λ k' g' m'. f k' g' (inr m')) k g m

  pop_front-Faithful : (h : History) → Faithful queued h → Faithful queued (pop_front h)
  pop_front-Faithful [] f = f
  pop_front-Faithful (x ∷ h) f = λ seq g m. f seq g (inr m)

  pub push_state-Faithful :
      (h : History) (seq : ℕ)
      → 0 < seq
      → Faithful queued h
      → Faithful queued (push_state h seq (queued seq))
  unfolding push_state
  push_state-Faithful h seq pos f =
      let longer = h ++ (seq, queued seq) ∷ [] in
      let grown = append-Faithful h seq pos f in
      elim (Bool-cases (ltb 200 (length longer))) [
        | inl full ↦ rw full (pop_front-Faithful longer grown)
        | inr room ↦ rw room grown
      ]
