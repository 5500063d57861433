-- ===== src/Prelude/Fallible.antt =====
-- Fallible code. `bail` is an error value (`anyhow::Error`, its message dropped); `panic` is a
-- panic, such as an index out of range.
use Prim.Native.Nat.{ℕ}
use mathlib.Core.Path.{◌≡◌, refl}
use mathlib.Core.Logic.{◌⊎◌, inl, inr}
use mathlib.Core.List.{List}
use mathlib.Core.Option.{Option, none, some}
use rumsh.Prelude.Lists.{length, get_elem?, set}
use rumsh.Prelude.Tests.{ltb, if◌then◌else◌}

pub data Failure : Type 0 where
  bail panic : Failure

pub data Result {ℓ} (A : Type ℓ) : Type ℓ where
  ok : A → Result A
  err : Failure → Result A

-- A failure skips the rest.
infixl 5 ◌>>=◌
abbrev pub ◌>>=◌ {ℓ κ} : {A : Type ℓ} {B : Type κ} → Result A → (A → Result B) → Result B
err failure >>= next = err failure
ok a >>= next = next a

infixl 5 ◌>>◌
abbrev pub ◌>>◌ {ℓ} : {B : Type ℓ} → Result (Unit {0}) → Result B → Result B
check >> next = check >>= λ done. next

abbrev pub or_fail {ℓ} : {A : Type ℓ} → Failure → Option A → Result A
or_fail e (some a) = ok a
or_fail e none = err e

-- `xs[i]`.
abbrev pub index {ℓ} : {A : Type ℓ} → List A → ℕ → Result A
index xs i = or_fail panic (get_elem? xs i)

-- `xs[i] = v`.
abbrev pub set_index {ℓ} : {A : Type ℓ} → List A → ℕ → A → Result (List A)
set_index xs i v = if ltb i (length xs) then ok (set xs i v) else err panic

-- What a chain that succeeds went through.
pub ok_of_bind {ℓ κ} :
    {A : Type ℓ} {B : Type κ} (m : Result A) (next : A → Result B) (b : B)
    → (m >>= next) ≡ ok b
    → (a : A) × (m ≡ ok a) × (next a ≡ ok b)
ok_of_bind (ok a) next b e = (a, refl, e)
ok_of_bind (err f) next b e = cc e

pub Result-cases {ℓ} :
    {A : Type ℓ} (r : Result A) → ((a : A) × (r ≡ ok a)) ⊎ ((e : Failure) × (r ≡ err e))
Result-cases (ok a) = inl (a, refl)
Result-cases (err e) = inr (e, refl)
