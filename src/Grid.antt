-- ===== src/Grid.antt =====
-- The positions of slg/new/map.h, slg/cc/world.h, mmo/cc/common.h and mmoccskill/cc/common.h: two
-- int16_t each.

use luatest.Prelude.{
  ℕ, suc, ◌/◌, ◌≡◌, refl, ap, List, [], ◌∷◌, Bool, true, false, ◌&&◌, ◌||◌, inl, inr, arith,
  Bool-cases, ◌≢◌,
}
use luatest.Prelude.Int.{ℤ, pos, negsuc, ◌-ℤ◌, eqb_ℤ, eqb_ℤ-eq, eqb_ℤ_refl}
use luatest.Std.Order.{LinearOrder, int_order, fields_order}
use luatest.Std.Set.{In}
use luatest.Memory.{bits_of, signed}

pub record Pos : Type 0 where
  pub x : ℤ
  pub y : ℤ

-- A conversion to int16_t.
unfoldable pub int16 : ℤ → ℤ
int16 v = signed 2 (bits_of 2 v)

infix 50 ◌==ₚ◌
abbrev pub ◌==ₚ◌ : Pos → Pos → Bool
p ==ₚ q = eqb_ℤ p.x q.x && eqb_ℤ p.y q.y

pub ==ₚ-eq : (p q : Pos) → (p ==ₚ q) ≡ true → p ≡ q
==ₚ-eq p q h =
    let ex : p.x ≡ q.x = eqb_ℤ-eq p.x q.x (ground arith) in
    let ey : p.y ≡ q.y = eqb_ℤ-eq p.y q.y (ground arith) in cc (ex, ey)

pub ==ₚ_refl : (p : Pos) → (p ==ₚ p) ≡ true
==ₚ_refl p = rw (eqb_ℤ_refl p.x, eqb_ℤ_refl p.y) refl

pub ==ₚ-ne : (p q : Pos) → (p ==ₚ q) ≡ false → p ≢ q
==ₚ-ne p q h e = cc (h, ap (λ (r : Pos). p ==ₚ r) e, ==ₚ_refl p)

-- The order that the maps over positions are modelled with.
abbrev pub pos_key : Pos → ℤ × ℤ
pos_key p = (p.x, p.y)

abbrev pub pair_order : LinearOrder (ℤ × ℤ)
pair_order = fields_order int_order int_order

pub pos_connected :
    (p q : Pos)
    → pair_order.lt (pos_key p) (pos_key q) ≡ false
    → pair_order.lt (pos_key q) (pos_key p) ≡ false
    → p ≡ q
pos_connected p q h k =
    ap (λ (a : ℤ × ℤ). record { x = a.0; y = a.1 })
      (pair_order.connected (pos_key p) (pos_key q) h k)

abbrev pub pos_order : LinearOrder Pos
pos_order = record {
  lt = λ p q. pair_order.lt (pos_key p) (pos_key q);
  irrefl = λ p. pair_order.irrefl (pos_key p);
  trans = λ p q r. pair_order.trans (pos_key p) (pos_key q) (pos_key r);
  connected = pos_connected;
}

-- Membership as a test.
unfoldable pub mem : Pos → List Pos → Bool
mem p [] = false
mem p (q ∷ qs) = let rest = mem p qs in p ==ₚ q || rest

pub mem-In : (p : Pos) (qs : List Pos) → mem p qs ≡ true → In p qs
unfolding mem
mem-In p [] h = cc h
mem-In p (q ∷ qs) h = elim (Bool-cases (p ==ₚ q)) [
  | inl e ↦ inl (==ₚ-eq p q e)
  | inr e ↦ inr (mem-In p qs (ground arith))
]

pub In-mem : (p : Pos) (qs : List Pos) → In p qs → mem p qs ≡ true
unfolding mem
In-mem p [] m = absurd m
In-mem p (q ∷ qs) (inl e) = ground (arith, ==ₚ_refl p, ap (λ (r : Pos). p ==ₚ r) e)
In-mem p (q ∷ qs) (inr m) = ground (arith, In-mem p qs m)

-- Division of integers, towards 0.
unfoldable pub quot : ℤ → ℕ → ℤ
quot (pos n) k = pos (n / k)
quot (negsuc n) k = pos 0 -ℤ pos (suc n / k)
