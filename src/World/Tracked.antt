-- ===== src/World/Tracked.antt =====
-- Each actor of a world is in the set of its cell, and the cells have no other ids; each stands within
-- the world.
use luatest.Prelude.{◌≡◌, refl, inl, inr, List, [], ◌∷◌, some, Option-cases, Bool-cases}
use luatest.Prelude.Int.{ℤ, pos, eqb_ℤ}
use luatest.Std.Map
use luatest.Std.Map.{Map}
use luatest.Std.Reals.{Reals}
use luatest.Grid.{Pos}
use luatest.Cells.Tracks.{Tracks, put-Tracks, take-Tracks, move-Tracks}
use luatest.World.{
  Actor, World, create, cell_of, correctpos, placed, moved, inarea, setblock, addactor, delactor,
  setpos,
}
use luatest.World.Calls.{Call, blocks, adds, sets, dels, step, run}

module _ (R : Reals) where
  open R use {Real, lt, of_int}

  abbrev pub IsTracked : World Real → Type 0
  IsTracked w = Tracks (cell_of R) w.actor w.aoi

  create-IsTracked : (len wid : ℤ) → IsTracked (create R len wid)
  unfolding create
  create-IsTracked len wid = record {
    is_cells = record { sorted = λ c ids h. absurd (cc h); filled = λ c ids h. absurd (cc h) };
    listed = λ id v h. absurd (cc h);
    standing = λ c id k. absurd (cc (k.1.0));
  }

  -- What `setblock` leaves as it is.
  pub setblock_rest :
      (p : Pos) (v : ℤ) (w : World Real)
      → ((setblock p v w).actor ≡ w.actor)
        × ((setblock p v w).aoi ≡ w.aoi)
        × ((setblock p v w).len ≡ w.len)
        × ((setblock p v w).wid ≡ w.wid)
  unfolding setblock
  setblock_rest p v w = elim (Bool-cases (inarea w p)) [
    | inr out ↦ rw (setblock, out) (refl, refl, refl, refl)
    | inl here ↦ elim (Bool-cases (eqb_ℤ v (pos 0))) [
      | inl zero ↦ rw (setblock, here, zero) (refl, refl, refl, refl)
      | inr set ↦ rw (setblock, here, set) (refl, refl, refl, refl)
    ]
  ]

  pub addactor-IsTracked :
      (id : ℤ) (a : Actor Real) (w : World Real) → IsTracked w → IsTracked (addactor R id a w)
  unfolding addactor
  addactor-IsTracked id a w t = elim (Option-cases (w.actor id)) [
    | inr (old, h) ↦ rw (addactor, h) t
    | inl h ↦ rw (addactor, h) (put-Tracks (cell_of R) id (correctpos R w a) w.actor w.aoi h t)
  ]

  pub delactor-IsTracked : (id : ℤ) (w : World Real) → IsTracked w → IsTracked (delactor R id w)
  unfolding delactor
  delactor-IsTracked id w t = elim (Option-cases (w.actor id)) [
    | inl h ↦ rw (delactor, h) t
    | inr (a, h) ↦ rw (delactor, h) (take-Tracks (cell_of R) id a w.actor w.aoi h t)
  ]

  pub moved-IsTracked :
      (id : ℤ) (a a' : Actor Real) (w : World Real)
      → w.actor id ≡ some a
      → IsTracked w
      → IsTracked (moved R id a a' w)
  unfolding moved
  moved-IsTracked id a a' w h t = move-Tracks (cell_of R) id a a' w.actor w.aoi h t

  pub setpos-IsTracked :
      (id : ℤ) (x y : Real) (dx dy : ℤ) (w : World Real)
      → IsTracked w
      → IsTracked ((setpos R id x y dx dy w).0)
  unfolding setpos
  setpos-IsTracked id x y dx dy w t = elim (Option-cases (w.actor id)) [
    | inl h ↦ rw (setpos, h) t
    | inr (a, h) ↦ rw (setpos, h) (moved-IsTracked id a (placed R x y dx dy a w) w h t)
  ]

  step-IsTracked : (c : Call R) (w : World Real) → IsTracked w → IsTracked (step R c w)
  unfolding step
  step-IsTracked (blocks x y v) w t =
      let (same, kept, _, _) = setblock_rest (record { x = x; y = y }) v w in rw (same, kept) t
  step-IsTracked (adds id x y dx dy camp) w t =
      addactor-IsTracked id
        (record {
          id = id;
          x = x;
          y = y;
          dx = dx;
          dy = dy;
          camp = camp;
          attrs = Map.no_keys;
          skills = Map.no_keys;
        })
        w t
  step-IsTracked (sets id x y dx dy) w t = setpos-IsTracked id x y dx dy w t
  step-IsTracked (dels id) w t = delactor-IsTracked id w t

  run_on : (cs : List (Call R)) (w : World Real) → IsTracked w → IsTracked (run R cs w)
  unfolding run
  run_on [] w t = t
  run_on (c ∷ cs) w t = run_on cs (step R c w) (step-IsTracked c w t)

  -- Whatever calls are made on a new world, each actor is in the set of the cell it stands in, no set
  -- has an id besides, and no set is empty.
  pub World-run-IsTracked :
      (cs : List (Call R)) (len wid : ℤ) → IsTracked (run R cs (create R len wid))
  World-run-IsTracked cs len wid = run_on cs (create R len wid) (create-IsTracked len wid)
