-- ===== src/Server/Session/Newest.antt =====
-- The history of grids of src/server/session.rs: its size, its last grid and what pruning leaves.
use rumsh.Prelude.{
  ℕ, suc, ◌+◌, ◌-◌, ◌≤◌, ◌<◌, ◌≡◌, ◌≢◌, ◌⊎◌, refl, ◌∙◌, ap, true, false, ◌&&◌, List, [], ◌∷◌, ◌++◌,
  length, ltb, ◌==◌, if_pos, if_neg, arith, Bool-cases, Option-cases, inl, inr, length-append, some,
}
use rumsh.Protocol.Grid.{GridState}
use rumsh.Protocol.Codec.Interface.{PacketCodec}
use rumsh.Server.Interface.{Backend}
use rumsh.Server.Session.State.{
  GridState-discrete, find_state, last_state, History, prune_history, push_state, pop_front,
}
use rumsh.Server.Session.Queue.{is_identical}

pub prune_history_size : (ack : ℕ) (h : History) → length (prune_history ack h) ≤ length h
unfolding prune_history
prune_history_size ack [] = omega arith
prune_history_size ack ((k, g) ∷ h) = ground (arith, prune_history_size ack h)

length-pop_front : {A : Type 0} (xs : List A) → length (pop_front xs) ≡ length xs - 1
length-pop_front [] = omega arith
length-pop_front (x ∷ xs) = omega arith

pub push_state_size :
    (h : History) (seq : ℕ) (g : GridState) → length h ≤ 200 → length (push_state h seq g) ≤ 200
unfolding push_state
push_state_size h seq g few =
    let longer = h ++ (seq, g) ∷ [] in
    let size : length longer ≡ length h + 1 = length-append h ((seq, g) ∷ []) in
    ground (arith, size, length-pop_front longer)

-- The frame that the client acknowledged is not pruned.
pub find_state-prune_history :
    (ack : ℕ) (h : History) → find_state ack (prune_history ack h) ≡ find_state ack h
unfolding prune_history
find_state-prune_history ack [] = refl
find_state-prune_history ack ((k, g) ∷ h) =
    elim (Bool-cases (ltb k ack && ltb 100 (suc (length h)))) [
      | inl old ↦
          let other : (k == ack) ≡ false = ground arith in
          rw (old, other) (find_state-prune_history ack h)
      | inr young ↦ rw young refl
    ]

last_state-append : (h : History) (k : ℕ) (g : GridState) → last_state (h ++ (k, g) ∷ []) ≡ some g
last_state-append [] k g = refl
last_state-append (e ∷ []) k g = refl
last_state-append (e ∷ f ∷ h) k g = last_state-append (f ∷ h) k g

last_state-pop_front :
    (e : ℕ × GridState) (h : History)
    → 0 < length h
    → last_state (pop_front (e ∷ h)) ≡ last_state (e ∷ h)
last_state-pop_front e [] some_left = absurd (omega arith)
last_state-pop_front e (f ∷ h) some_left = refl

last_popped :
    (h : History) (k : ℕ) (g : GridState)
    → 200 < length (h ++ (k, g) ∷ [])
    → last_state (pop_front (h ++ (k, g) ∷ [])) ≡ some g
last_popped [] k g full = absurd (omega arith)
last_popped (e ∷ h) k g full =
    last_state-pop_front e (h ++ (k, g) ∷ []) (omega arith) ∙ last_state-append (e ∷ h) k g

-- The grid that was queued last is the last one of the history.
pub last_state-push_state :
    (h : History) (k : ℕ) (g : GridState) → last_state (push_state h k g) ≡ some g
unfolding push_state
last_state-push_state h k g = elim (Bool-cases (ltb 200 (length (h ++ (k, g) ∷ [])))) [
  | inl full ↦ rw full (last_popped h k g (ground arith))
  | inr room ↦ rw room (last_state-append h k g)
]

-- What the code's test of the grid says.
pub is_identical-cases :
    (pc : PacketCodec) (be : Backend) (h : History) (grid : GridState)
    → ((is_identical pc be h grid ≡ true) × (last_state h ≡ some grid))
      ⊎ ((is_identical pc be h grid ≡ false) × (last_state h ≢ some grid))
unfolding is_identical
is_identical-cases pc be h grid = elim (Option-cases (last_state h)) [
  | inl empty ↦ inr (rw (is_identical, empty) refl, λ e. cc (e, empty))
  | inr (s, last) ↦ elim (GridState-discrete s grid) [
    | yes same ↦ inl (rw (is_identical, last) (if_pos _ same true false), last ∙ ap some same)
    | no other ↦
        inr (rw (is_identical, last) (if_neg _ other true false), λ e. other (cc (e, last)))
  ]
]
