-- ===== src/Msgpack/Floats.antt =====
-- The host's floating-point conversions, which the codec calls: a double and a float are their
-- bit patterns of 64 and 32 bits.
use luatest.Prelude.{ℕ, ◌^◌, ◌<◌, ◌≡◌, Bool, true}

pub record Floats : Type 0 where
  -- `(float)d`
  pub narrow : ℕ → ℕ
  -- `(double)f`
  pub widen : ℕ → ℕ
  -- `a == b` on doubles
  pub same : ℕ → ℕ → Bool
  -- a float has 32 bits
  pub narrow-lt : (d : ℕ) → narrow d < 2 ^ 32
  -- the conversions keep the sign of zero, the one difference that `==` does not see
  pub widen-narrow : (d : ℕ) → d < 2 ^ 64 → same (widen (narrow d)) d ≡ true → widen (narrow d) ≡ d
