-- ===== src/World/Calls.antt =====
-- mmoccskill/cc/lworld.cc: the Lua functions that change a world, on arguments converted by the Lua
-- API, and those that ask for something. No result is `none`.
use luatest.Prelude.{ℕ, List, [], ◌∷◌, reverse, Option, Bool}
use luatest.Prelude.Int.{ℤ}
use luatest.Std.Map
use luatest.Std.Reals.{Reals}
use luatest.Grid.{Pos}
use luatest.Mmo.Lua.{coordinates, unless_empty, ret_of}
use luatest.World.{World, setblock, addactor, delactor, setpos, aoi_ids, astar}

module _ (R : Reals) where
  open R use {Real}

  pub data Call : Type 0 where
    blocks : ℤ → ℤ → ℤ → Call
    adds : ℤ → Real → Real → ℤ → ℤ → ℤ → Call
    sets : ℤ → Real → Real → ℤ → ℤ → Call
    dels : ℤ → Call

  unfoldable pub step : Call → World Real → World Real
  unfolding setblock addactor setpos delactor
  step (blocks x y v) w = setblock (record { x = x; y = y }) v w
  step (adds id x y dx dy camp) w =
      addactor R id
        (record {
          id = id;
          x = x;
          y = y;
          dx = dx;
          dy = dy;
          camp = camp;
          attrs = Map.no_keys;
          skills = Map.no_keys;
        })
        w
  step (sets id x y dx dy) w = (setpos R id x y dx dy w).0
  step (dels id) w = delactor R id w

  unfoldable pub run : List Call → World Real → World Real
  unfolding step
  run [] w = w
  run (c ∷ cs) w = run cs (step c w)

  unfoldable pub lua_setpos :
      ℤ → Real → Real → ℤ → ℤ → World Real → Option (List ℤ) × Option (List ℤ)
  unfolding setpos
  lua_setpos id x y dx dy w =
      let (seen, gone) = (setpos R id x y dx dy w).1 in (unless_empty seen, unless_empty gone)

  unfoldable pub lua_aoiids : ℤ → World Real → Option (List ℤ)
  unfolding aoi_ids
  lua_aoiids id w = unless_empty (aoi_ids R id w)

-- The positions of `ret`, from its last one.
unfoldable pub lua_astar : {A : Type 0} → (ℕ → ℕ) → Pos → Pos → Bool → World A → Option (List ℤ)
unfolding astar coordinates
lua_astar root s e quick w = unless_empty (coordinates (reverse (ret_of (astar root s e quick w))))
