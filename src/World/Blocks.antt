-- ===== src/World/Blocks.antt =====
-- The blocks of a world, and the search for a path between them.
use luatest.Prelude.{
  ◌≡◌, ◌≢◌, refl, ◌⊎◌, inl, inr, ◌*◌, suc, ℕ, Bool, true, false, not, arith, Bool-cases, ◌&&◌,
  if◌then◌else◌,
}
use luatest.Prelude.Int.{ℤ, pos, pos_part, eqb_ℤ}
use luatest.Std.Set.{In}
use luatest.Std.Map
use luatest.Grid.{Pos, pos_order, ◌==ₚ◌, ==ₚ-eq, ==ₚ-ne}
use luatest.Astar.{no_path}
use luatest.Astar.Find.{IsAnswer, find-IsAnswer}
use luatest.Mmo.Paths.{places, In-places, length-places}
use luatest.World.{World, has, inarea, isblock, setblock, astar}

module _ {A : Type 0} where
  setblock_out : (p : Pos) (v : ℤ) (w : World A) → inarea w p ≡ false → setblock p v w ≡ w
  unfolding setblock
  setblock_out p v w h = rw (setblock, h) refl

  blocked_in : (w : World A) (p : Pos) → inarea w p ≡ true → isblock w p ≡ has (w.block p)
  unfolding isblock
  blocked_in w p h = rw (isblock, h) refl

  inarea-setblock : (p q : Pos) (v : ℤ) (w : World A) → inarea (setblock p v w) q ≡ inarea w q
  unfolding setblock inarea
  inarea-setblock p q v w = elim (Bool-cases (inarea w p)) [
    | inr out ↦ rw (setblock, out) refl
    | inl here ↦ elim (Bool-cases (eqb_ℤ v (pos 0))) [
      | inl zero ↦ rw (setblock, here, zero) refl
      | inr set ↦ rw (setblock, here, set) refl
    ]
  ]

  block_at :
      (p : Pos) (v : ℤ) (w : World A)
      → inarea w p ≡ true
      → has ((setblock p v w).block p) ≡ not (eqb_ℤ v (pos 0))
  unfolding setblock
  block_at p v w here = elim (Bool-cases (eqb_ℤ v (pos 0))) [
    | inl zero ↦ rw (setblock, here, zero, Map.erase_self pos_order p w.block) refl
    | inr set ↦ rw (setblock, here, set, Map.assign_self pos_order p v w.block) refl
  ]

  block_elsewhere :
      (p q : Pos) (v : ℤ) (w : World A)
      → inarea w p ≡ true
      → q ≢ p
      → (setblock p v w).block q ≡ w.block q
  unfolding setblock
  block_elsewhere p q v w here other = elim (Bool-cases (eqb_ℤ v (pos 0))) [
    | inl zero ↦ rw (setblock, here, zero) (Map.erase_other pos_order p q w.block other)
    | inr set ↦ rw (setblock, here, set) (Map.assign_other pos_order p q v w.block other)
  ]

  -- After `setblock` a position of the world that it names is blocked exactly when the value is not 0;
  -- all other positions, and those outside the world, are as before.
  isblock-setblock :
      (p q : Pos) (v : ℤ) (w : World A)
      → isblock (setblock p v w) q
        ≡ (if q ==ₚ p && inarea w p then not (eqb_ℤ v (pos 0)) else isblock w q)
  unfolding isblock
  isblock-setblock p q v w = elim (Bool-cases (inarea w p)) [
    | inr out ↦ rw (setblock_out p v w out) (ground (arith, out))
    | inl here ↦ elim (Bool-cases (q ==ₚ p)) [
      | inl same ↦
          let e : q ≡ p = ==ₚ-eq q p same in
          rw (same, here, e, inarea-setblock p p v w, here, block_at p v w here) refl
      | inr other ↦
          rw (other, inarea-setblock p q v w, block_elsewhere p q v w here (==ₚ-ne q p other)) refl
    ]
  ]

  In-places_world : (w : World A) (q : Pos) → isblock w q ≡ false → In q (places w.len w.wid)
  unfolding isblock inarea
  In-places_world w q h =
      In-places w.len w.wid q (ground arith) (ground arith) (ground arith) (ground arith)

  -- In every world `astar` ends. It gives no path if the start or the end is blocked or they are the
  -- same; in all other cases it gives, from the end to the start, a walk of steps over free positions
  -- with some positions left out that lie on a line with their neighbours, or no path, and then no
  -- walk leads from the start to the end.
  World-astar-IsAnswer :
      (root : ℕ → ℕ) (s e : Pos) (quick : Bool) (w : World A)
      → (((isblock w s ≡ true) ⊎ ((isblock w e ≡ true) ⊎ (s ≡ e)))
          × (astar root s e quick w ≡ no_path))
        ⊎ ((s ≢ e) × IsAnswer (isblock w) s e (astar root s e quick w))
  unfolding astar
  World-astar-IsAnswer root s e quick w =
      find-IsAnswer root (isblock w) (places w.len w.wid) (suc (pos_part w.len * pos_part w.wid)) s
        e quick (In-places_world w) (length-places w.len w.wid)
