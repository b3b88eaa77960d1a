-- ===== src/Mmo/Tests.antt =====
-- A map on concrete calls, and its theorems there.
use luatest.Prelude.{◌≡◌, ◌≢◌, ◌↔◌, ◌⊎◌, refl, ℕ, ◌/◌, List, [], ◌∷◌, ◌++◌, some, none, true, false}
use luatest.Prelude.Int.{ℤ, pos, pos_part, ◌+ℤ◌, ◌-ℤ◌, ◌*ℤ◌, leb_ℤ, ltb_ℤ}
use luatest.Std.Reals.{Reals}
use luatest.Std.Set
use luatest.Std.Set.{In}
use luatest.Std.Map
use luatest.Memory.{bits_of, signed}
use luatest.Grid.{Pos, int16, mem}
use luatest.Cells.{put, take_out}
use luatest.Cells.Laws.{At}
use luatest.Astar
use luatest.Astar.{path, no_path}
use luatest.Astar.Find.{IsAnswer}
use luatest.Mmo.{
  Entity, GameMap, create, from, column, columns, norm, sort_insert, sort, offsets, in_square,
  in_area, impassable, add_obstacle, get_aoi, diff_aoi, astar, cell_of, add_cell, del_cell,
  add_entity, update_pos, del_entity,
}
use luatest.Mmo.Entities.{
  IsTracked, Call, adds, updates, dels, blocks, frees, step, run, run-IsTracked,
}
use luatest.Mmo.Paths.{astar-IsAnswer}
use luatest.Mmo.Views.{IsInner}
use luatest.Mmo.Diff.{In-diff_aoi}
use luatest.Mmo.Search.{Query, is_wanted, aoi_search, filter, up_to, all_ids, aoi_search-filter}
use luatest.Mmo.Lua.{lua_get_aoi, In-lua_get_aoi}

program : Unit {0}
unfolding Set.insert Set.erase Map.assign Map.erase bits_of signed int16 mem put take_out
    Astar.direct_cost Astar.moved Astar.cost Astar.open_insert Astar.find_pre Astar.collinear
    Astar.join Astar.back Astar.found Astar.weigh_of Astar.relax Astar.relax_all Astar.round
    Astar.loop Astar.find from column columns norm sort_insert sort offsets create in_area
    impassable add_obstacle astar cell_of add_cell del_cell add_entity update_pos del_entity step
    run
program = tt

-- Whole numbers for the floating point ones.
abbrev pub whole : Reals
whole = record {
  Real = ℤ;
  plus = λ a b. a +ℤ b;
  minus = λ a b. a -ℤ b;
  times = λ a b. a *ℤ b;
  over = λ a b. pos (pos_part a / pos_part b);
  sqrt = λ a. a;
  cos = λ a. a;
  sin = λ a. a;
  acos = λ a. a;
  le = λ a b. leb_ℤ a b;
  lt = λ a b. ltb_ℤ a b;
  of_int = λ a. a;
  to_int = λ a. a;
  pi = pos 3;
  to_int16 = λ a. a;
}

abbrev at : ℕ → ℕ → Pos
at x y = record { x = pos x; y = pos y }

-- A map of three columns and three rows with an obstacle in the middle.
abbrev small : GameMap ℤ
small = add_obstacle (at 1 1) (record {
  len = pos 3;
  wid = pos 3;
  search_order = [];
  entities = Map.no_keys;
  cell_entities = Map.no_keys;
  obstacle = Map.no_keys;
})

-- The position next to the corner is left out, which is on a line with its neighbours.
astar-round : astar (λ n. n) (at 0 0) (at 2 0) false small ≡ path (at 2 0 ∷ at 0 0 ∷ [])
unfolding program
astar-round = refl

astar-middle : astar (λ n. n) (at 0 0) (at 1 1) false small ≡ no_path
unfolding program
astar-middle = refl

astar-IsAnswer_example :
    (((impassable small (at 0 0) ≡ true) ⊎ ((impassable small (at 2 2) ≡ true) ⊎ (at 0 0 ≡ at 2 2)))
      × (astar (λ n. n) (at 0 0) (at 2 2) false small ≡ no_path))
    ⊎ ((at 0 0 ≢ at 2 2)
        × IsAnswer
            (impassable small)
            (at 0 0)
            (at 2 2)
            (astar (λ n. n) (at 0 0) (at 2 2) false small))
astar-IsAnswer_example = astar-IsAnswer (λ n. n) (at 0 0) (at 2 2) false small

abbrev walker : Entity ℤ
walker = record { id = pos 7; x = pos 30; y = pos 60; dx = pos 0; dy = pos 1; atk_type = pos 1 }

abbrev calls : List (Call whole)
calls = adds (at 0 0) walker ∷ updates (pos 7) (pos 31) (pos 60) (pos 0) (pos 1) ∷ []

abbrev world : GameMap ℤ
world = run whole calls (create whole (pos 100) (pos 100))

abbrev moved_walker : Entity ℤ
moved_walker = record walker { x = pos 31 }

world-IsTracked : IsTracked whole world
world-IsTracked = run-IsTracked whole calls (pos 100) (pos 100)

-- An obstacle comes and goes while the walker is on the map.
abbrev all_calls : List (Call whole)
all_calls = blocks (at 3 3) ∷ calls ++ frees (at 3 3) ∷ dels (pos 7) ∷ []

run-IsTracked_example : IsTracked whole (run whole all_calls (create whole (pos 100) (pos 100)))
run-IsTracked_example = run-IsTracked whole all_calls (pos 100) (pos 100)

world_order : world.search_order ≡ offsets
unfolding create run step add_entity update_pos add_cell del_cell impassable in_area column
    Map.assign
world_order = refl

world_walker : world.entities (pos 7) ≡ some moved_walker
unfolding program
world_walker = refl

walker_IsInner : IsInner (cell_of whole moved_walker)
unfolding cell_of
walker_IsInner = (refl, refl)

In-lua_get_aoi_example :
    (ids : List ℤ) × ((lua_get_aoi whole (pos 7) world ≡ some ids)
      × ((z : ℤ)
          → In z ids ↔ (
              (o : Entity ℤ) × ((world.entities z ≡ some o)
                × (in_square
                      (cell_of whole moved_walker).x
                      (cell_of whole moved_walker).y
                      (cell_of whole o)
                    ≡ true)))))
In-lua_get_aoi_example =
    In-lua_get_aoi whole (pos 7) moved_walker world world-IsTracked world_order world_walker
      walker_IsInner

In-diff_aoi_example :
    (In (pos 7) (diff_aoi (at 30 40) (at 31 60) world).1 ↔ (
      (c : Pos) × (At c (pos 7) world.cell_entities
        × (in_square (pos 30) (pos 40) c ≡ true)
        × (in_square (pos 31) (pos 60) c ≡ false))))
    × (In (pos 7) (diff_aoi (at 30 40) (at 31 60) world).0 ↔ (
        (c : Pos) × (At c (pos 7) world.cell_entities
          × (in_square (pos 31) (pos 60) c ≡ true)
          × (in_square (pos 30) (pos 60) c ≡ false))))
In-diff_aoi_example =
    In-diff_aoi (at 30 40) (at 31 60) (pos 7) world refl (refl, refl) (refl, refl) world_order

abbrev query : Query ℤ
query = record {
  id = pos 7;
  num = pos 2;
  atk_type = pos 1;
  range_tp = pos 1;
  p1 = pos 5;
  p2 = pos 0;
}

aoi_search-filter_example :
    ((world.entities query.id ≡ none) × (aoi_search whole query world ≡ []))
    ⊎ ((entity : Entity ℤ) × ((world.entities query.id ≡ some entity)
          × (aoi_search whole query world
              ≡ up_to query.num (
                  filter
                    (is_wanted whole query entity world)
                    (all_ids (get_aoi (cell_of whole entity) world))))))
aoi_search-filter_example = aoi_search-filter whole query world
