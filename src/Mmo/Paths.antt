-- ===== src/Mmo/Paths.antt =====
-- The search for a path on a map.
use luatest.Prelude.{
  ◌≡◌, ◌≢◌, ap, refl, ◌⊎◌, inl, inr, ℕ, zero, suc, ◌*◌, ◌<◌, List, [], ◌∷◌, Bool, true, false,
  arith, length, Bool-cases, ltb,
}
use luatest.Prelude.Int.{ℤ, pos, negsuc, pos_part, ltb_ℤ, ◌-ℤ◌}
use luatest.Std.Set.{In}
use luatest.Grid.{Pos}
use luatest.Astar.{no_path}
use luatest.Astar.Find.{IsAnswer, find-IsAnswer}
use luatest.Mmo.Squares.{length-columns, In-columns}
use luatest.Mmo.{GameMap, in_area, impassable, astar, columns}

-- The numbers below another, and the positions of a map.
below : ℕ → List ℤ
below zero = []
below (suc n) = pos n ∷ below n

length-below : (n : ℕ) → length (below n) ≡ n
unfolding below
length-below zero = refl
length-below (suc n) = ap suc (length-below n)

In-below : (n k : ℕ) → k < n → In (pos k) (below n)
unfolding below
In-below zero k h = absurd (omega arith)
In-below (suc n) k h = elim (Bool-cases (ltb k n)) [
  | inl less ↦ inr (In-below n k (ground arith))
  | inr more ↦ inl (ap pos (ground (arith, h)))
]

-- A coordinate between 0 and a length is in the list of the numbers below it.
In-below_ℤ :
    (v n : ℤ) → ltb_ℤ v (pos 0) ≡ false → ltb_ℤ (n -ℤ pos 1) v ≡ false → In v (below (pos_part n))
In-below_ℤ (pos k) (pos n) h g = In-below n k (ground arith)
In-below_ℤ (pos k) (negsuc n) h g = absurd (ground (arith, g))
In-below_ℤ (negsuc k) n h g = absurd (ground (arith, h))

-- The positions of a rectangle from the origin.
pub places : ℤ → ℤ → List Pos
unfolding below
places len wid = columns (below (pos_part len)) (below (pos_part wid))

pub In-places :
    (len wid : ℤ) (q : Pos)
    → ltb_ℤ q.x (pos 0) ≡ false
    → ltb_ℤ (len -ℤ pos 1) q.x ≡ false
    → ltb_ℤ q.y (pos 0) ≡ false
    → ltb_ℤ (wid -ℤ pos 1) q.y ≡ false
    → In q (places len wid)
unfolding places
In-places len wid q h k f g =
    In-columns (below (pos_part len)) (below (pos_part wid)) q (In-below_ℤ q.x len h k)
      (In-below_ℤ q.y wid f g)

pub length-places : (len wid : ℤ) → length (places len wid) < suc (pos_part len * pos_part wid)
unfolding places
length-places len wid =
    rw
      (
        length-columns (below (pos_part len)) (below (pos_part wid)),
        length-below (pos_part len),
        length-below (pos_part wid),
      )
      (omega arith)

module _ {A : Type 0} where
  In-places_map : (m : GameMap A) (q : Pos) → impassable m q ≡ false → In q (places m.len m.wid)
  unfolding impassable in_area
  In-places_map m q h =
      In-places m.len m.wid q (ground arith) (ground arith) (ground arith) (ground arith)

  -- On every map `astar` ends. It gives no path if the start or the end is impassable or they are the
  -- same; in all other cases it gives, from the end to the start, a walk of steps over passable
  -- positions with some positions left out that lie on a line with their neighbours, or no path, and
  -- then no walk leads from the start to the end.
  pub astar-IsAnswer :
      (root : ℕ → ℕ) (s e : Pos) (quick : Bool) (m : GameMap A)
      → (((impassable m s ≡ true) ⊎ ((impassable m e ≡ true) ⊎ (s ≡ e)))
          × (astar root s e quick m ≡ no_path))
        ⊎ ((s ≢ e) × IsAnswer (impassable m) s e (astar root s e quick m))
  unfolding astar
  astar-IsAnswer root s e quick m =
      find-IsAnswer root (impassable m) (places m.len m.wid) (suc (pos_part m.len * pos_part m.wid))
        s e quick (In-places_map m) (length-places m.len m.wid)
