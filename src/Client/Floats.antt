-- ===== src/Client/Floats.antt =====
-- `f32`, which the language has and the program only uses for its telemetry: a type with the
-- operations that the program calls, and no law.
use rumsh.Prelude.{ℕ, Bool}

pub record F32 : Type 1 where
  pub F : Type 0
  -- A literal such as 0.8, as 8 / 10.
  pub lit : (num den : ℕ) → F
  -- `n as f32`, and `x as u32`.
  pub of_int : ℕ → F
  pub to_u32 : F → ℕ
  pub add : F → F → F
  pub sub : F → F → F
  pub mul : F → F → F
  pub div : F → F → F
  pub abs : F → F
  pub round : F → F
  -- `x > y`.
  pub gt : F → F → Bool
