-- ===== src/Prelude/Stateful.antt =====
-- Code that works on a mutable state and may fail: a failure leaves the state as it is by then, and
-- skips the rest. The bind is that of `Result` with a state, so a module uses one of the two.
use mathlib.Core.Path.{◌≡◌, refl}
use rumsh.Prelude.Fallible.{Result, ok, err, bail}

abbrev pub M : Type 0 → Type 0 → Type 0
M S A = S → S × Result A

-- The rest of a run, after its first part.
abbrev pub resume : {S A B : Type 0} → S × Result A → (A → M S B) → S × Result B
resume (s, ok a) next = next a s
resume (s, err e) next = (s, err e)

infixl 5 ◌>>=◌ ◌>>◌
abbrev pub ◌>>=◌ : {S A B : Type 0} → M S A → (A → M S B) → M S B
◌>>=◌ m next s = resume (m s) next

abbrev pub ◌>>◌ : {S B : Type 0} → M S (Unit {0}) → M S B → M S B
m >> next = m >>= λ done. next

abbrev pub pure : {S A : Type 0} → A → M S A
pure a s = (s, ok a)

-- `e?` for a call that does not touch the state.
abbrev pub lift : {S A : Type 0} → Result A → M S A
lift r s = (s, r)

abbrev pub modify : {S : Type 0} → (S → S) → M S (Unit {0})
modify f s = (f s, ok tt)

abbrev pub bail_out : {S A : Type 0} → M S A
bail_out s = (s, err bail)

-- What a run that succeeds went through.
pub ok_of_resume :
    {S A B : Type 0} (r : S × Result A) (next : A → M S B) (end : S) (b : B)
    → resume r next ≡ (end, ok b)
    → (a : A) × (r.1 ≡ ok a) × (next a r.0 ≡ (end, ok b))
ok_of_resume (s, ok a) next end b e = (a, refl, e)
ok_of_resume (s, err f) next end b e = cc e
