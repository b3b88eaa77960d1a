-- ===== src/Std/Reals.antt =====
-- The floating point numbers and functions of the C library that mmo, mmoccskill and battlecc use. What they
-- compute is left open.
use luatest.Prelude.{Bool}
use luatest.Prelude.Int.{ℤ}

pub record Reals : Type 1 where
  pub Real : Type 0
  pub plus : Real → Real → Real
  pub minus : Real → Real → Real
  pub times : Real → Real → Real
  pub over : Real → Real → Real
  pub sqrt : Real → Real
  pub cos : Real → Real
  pub sin : Real → Real
  pub acos : Real → Real
  pub le : Real → Real → Bool
  pub lt : Real → Real → Bool
  pub of_int : ℤ → Real
  pub pi : Real
  -- The conversion to int.
  pub to_int : Real → ℤ
  -- The conversion to int16_t.
  pub to_int16 : Real → ℤ
