-- ===== src/Sync/Numbers.antt =====
-- The numbers of the grids that the client keeps (`state_history` of src/client/session.rs): they
-- rise, so a grid stays for the next 199 numbers.
use rumsh.Prelude.{
  ℕ, suc, ◌+◌, ◌≤◌, ◌<◌, refl, [], ◌∷◌, ◌++◌, length, length-append, ltb, arith, inl, inr,
  Bool-cases,
}
use rumsh.Protocol.Grid.{GridState}
use rumsh.Server.Session.State.{History, push_state, pop_front}
use rumsh.Sync.Histories.{Knows}

-- The numbers rise strictly from `low` on, up to `top`.
abbrev pub Within : ℕ → History → ℕ → Type 0
Within low [] top = low ≤ suc top
Within low ((k, g) ∷ h) top = (low ≤ k) × Within (suc k) h top

Within-length : (low : ℕ) (h : History) (top : ℕ) → Within low h top → low + length h ≤ suc top
Within-length low [] top w = omega arith
Within-length low ((k, g) ∷ h) top (at, rest) = omega (arith, at, Within-length (suc k) h top rest)

Within-lower :
    (low low' : ℕ) (h : History) (top : ℕ) → low' ≤ low → Within low h top → Within low' h top
Within-lower low low' [] top h w = omega arith
Within-lower low low' ((k, g) ∷ h) top le (at, rest) = (omega arith, rest)

pub Within-raise :
    (low : ℕ) (h : History) (top top' : ℕ) → top ≤ top' → Within low h top → Within low h top'
Within-raise low [] top top' h w = omega arith
Within-raise low ((k, g) ∷ h) top top' le (at, rest) = (at, Within-raise (suc k) h top top' le rest)

Within-append :
    (low : ℕ) (h : History) (top k : ℕ) (g : GridState)
    → top < k
    → Within low h top
    → Within low (h ++ (k, g) ∷ []) k
Within-append low [] top k g lt w = (omega arith, omega arith)
Within-append low ((j, s) ∷ h) top k g lt (at, rest) = (at, Within-append (suc j) h top k g lt rest)

Within-pop_front : (low : ℕ) (h : History) (top : ℕ) → Within low h top → Within 0 (pop_front h) top
Within-pop_front low [] top w = omega arith
Within-pop_front low ((k, g) ∷ h) top (at, rest) = Within-lower (suc k) 0 h top (omega arith) rest

-- A newer grid keeps the order.
pub push_state-Within :
    (h : History) (top k : ℕ) (g : GridState)
    → top < k
    → Within 0 h top
    → Within 0 (push_state h k g) k
unfolding push_state
push_state-Within h top k g lt w =
    let longer = h ++ (k, g) ∷ [] in
    let grown = Within-append 0 h top k g lt w in
    elim (Bool-cases (ltb 200 (length longer))) [
      | inl full ↦ rw full (Within-pop_front 0 longer k grown)
      | inr room ↦ rw room grown
    ]

Knows-append :
    (h : History) (k a : ℕ) (x g : GridState) → Knows h a g → Knows (h ++ (k, x) ∷ []) a g
Knows-append [] k a x g m = absurd m
Knows-append ((j, s) ∷ h) k a x g (inl here) = inl here
Knows-append ((j, s) ∷ h) k a x g (inr m) = inr (Knows-append h k a x g m)

Knows-last : (h : History) (k : ℕ) (x : GridState) → Knows (h ++ (k, x) ∷ []) k x
Knows-last [] k x = inl (refl, refl)
Knows-last ((j, s) ∷ h) k x = inr (Knows-last h k x)

-- A grid that is not among the 200 numbers before `k` may be the one that makes room.
Knows-pop_front :
    (h : History) (top k a : ℕ) (g : GridState)
    → 200 ≤ length h
    → Within 0 h top
    → k < a + 199
    → top < k
    → Knows h a g
    → Knows (pop_front h) a g
Knows-pop_front [] top k a g long w near lt m = absurd m
Knows-pop_front ((j, s) ∷ h) top k a g long (at, rest) near lt (inr m) = m
Knows-pop_front ((j, s) ∷ h) top k a g long (at, rest) near lt (inl (ej, es)) =
    absurd (omega (arith, Within-length (suc j) h top rest))

push_longer :
    (h : History) (top k a : ℕ) (x g : GridState)
    → Within 0 h top
    → k < a + 199
    → top < k
    → 200 < length (h ++ (k, x) ∷ [])
    → Knows h a g
    → Knows (pop_front (h ++ (k, x) ∷ [])) a g
push_longer [] top k a x g w near lt long m = absurd m
push_longer ((j, s) ∷ h) top k a x g w near lt long m =
    let size = length-append h ((k, x) ∷ []) in
    let popped = Knows-pop_front ((j, s) ∷ h) top k a g (omega arith) w near lt m in
    Knows-append h k a x g popped

-- A grid stays when a newer one comes whose number is less than 199 higher.
pub push_state-Knows :
    (h : History) (top k a : ℕ) (x g : GridState)
    → Within 0 h top
    → top < k
    → k < a + 199
    → Knows h a g
    → Knows (push_state h k x) a g
unfolding push_state
push_state-Knows h top k a x g w lt near m =
    let longer = h ++ (k, x) ∷ [] in
    elim (Bool-cases (ltb 200 (length longer))) [
      | inl full ↦ rw full (push_longer h top k a x g w near lt (ground arith) m)
      | inr room ↦ rw room (Knows-append h k a x g m)
    ]

last_stays :
    (h : History) (k : ℕ) (x : GridState)
    → 200 < length (h ++ (k, x) ∷ [])
    → Knows (pop_front (h ++ (k, x) ∷ [])) k x
last_stays [] k x long = absurd (omega arith)
last_stays (e ∷ h) k x long = Knows-last h k x

-- The new grid is there.
pub push_state-Knows_new : (h : History) (k : ℕ) (x : GridState) → Knows (push_state h k x) k x
unfolding push_state
push_state-Knows_new h k x = elim (Bool-cases (ltb 200 (length (h ++ (k, x) ∷ [])))) [
  | inl full ↦ rw full (last_stays h k x (ground arith))
  | inr room ↦ rw room (Knows-last h k x)
]
