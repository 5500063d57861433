-- ===== src/Prelude/Maps.antt =====
-- `BTreeMap` and `HashMap` with integer keys, as association lists in rising order of the keys.
use Prim.Native.Nat.{ℕ, suc, ◌+◌, ◌≤◌, ◌<◌}
use mathlib.Core.Path.{◌≡◌, refl}
use mathlib.Core.List.{List, [], ◌∷◌}
use mathlib.Core.Option.{Option, none, some}
use native.Mathlib.Omega.{arith}
use rumsh.Prelude.Tests.{ltb, ◌==◌, if◌then◌else◌}
use rumsh.Prelude.Lists.{length}

abbrev pub Map {ℓ} : Type ℓ → Type ℓ
Map V = List (ℕ × V)

module _ {ℓ} {V : Type ℓ} where
  abbrev pub lookup : ℕ → Map V → Option V
  lookup k [] = none
  lookup k ((j, v) ∷ m) = if j == k then some v else lookup k m

  abbrev pub insert : ℕ → V → Map V → Map V
  insert k v [] = (k, v) ∷ []
  insert k v ((j, w) ∷ m) =
      if j == k
      then (k, v) ∷ m
      else (if ltb k j then (k, v) ∷ (j, w) ∷ m else (j, w) ∷ insert k v m)

  abbrev pub remove : ℕ → Map V → Map V
  remove k [] = []
  remove k ((j, v) ∷ m) = if j == k then remove k m else (j, v) ∷ remove k m

module _ {V : Type 0} where
  pub lookup-insert :
      (j k : ℕ) (v : V) (m : Map V)
      → lookup j (insert k v m) ≡ (if k == j then some v else lookup j m)
  lookup-insert j k v [] = refl
  lookup-insert j k v ((i, w) ∷ m) = ground (arith, lookup-insert j k v m)

  pub lookup-remove :
      (j k : ℕ) (m : Map V) → lookup j (remove k m) ≡ (if k == j then none else lookup j m)
  lookup-remove j k [] = ground arith
  lookup-remove j k ((i, w) ∷ m) = ground (arith, lookup-remove j k m)

  pub length-insert-le : (k : ℕ) (v : V) (m : Map V) → length (insert k v m) ≤ length m + 1
  length-insert-le k v [] = omega arith
  length-insert-le k v ((i, w) ∷ m) = ground (arith, length-insert-le k v m)

  -- A new key makes the map longer by one.
  pub length-insert_new :
      (k : ℕ) (v : V) (m : Map V) → lookup k m ≡ none → length (insert k v m) ≡ length m + 1
  length-insert_new k v [] h = omega arith
  length-insert_new k v ((i, w) ∷ m) h = ground (arith, length-insert_new k v m)

  pub length-remove-le : (k : ℕ) (m : Map V) → length (remove k m) ≤ length m
  length-remove-le k [] = omega arith
  length-remove-le k ((i, w) ∷ m) = ground (arith, length-remove-le k m)

  -- The keys rise along the list, from `lo` on.
  abbrev pub Rising : ℕ → Map V → Type 0
  Rising lo [] = Unit
  Rising lo ((k, v) ∷ m) = (lo ≤ k) × Rising (suc k) m

  pub Rising-weaken : (lo hi : ℕ) (m : Map V) → lo ≤ hi → Rising hi m → Rising lo m
  Rising-weaken lo hi [] h r = tt
  Rising-weaken lo hi ((k, v) ∷ m) h (b, r) = (omega arith, r)

  pub lookup_below : (k lo : ℕ) (m : Map V) → k < lo → Rising lo m → lookup k m ≡ none
  lookup_below k lo [] h r = refl
  lookup_below k lo ((j, v) ∷ m) h (b, r) = ground (arith, lookup_below k (suc j) m)

  pub insert-Rising :
      (k lo : ℕ) (v : V) (m : Map V) → lo ≤ k → Rising lo m → Rising lo (insert k v m)
  insert-Rising k lo v [] h r = (h, tt)
  insert-Rising k lo v ((j, w) ∷ m) h (b, r) =
      ground (arith, insert-Rising k (suc j) v m, Rising-weaken (suc k) (suc j) m)

  pub remove-Rising : (k lo : ℕ) (m : Map V) → Rising lo m → Rising lo (remove k m)
  remove-Rising k lo [] r = tt
  remove-Rising k lo ((j, w) ∷ m) (b, r) = ground (
    arith,
    remove-Rising k (suc j) m r,
    remove-Rising k lo m (Rising-weaken lo (suc j) m (omega arith) r),
  )
