-- ===== src/World/Tests.antt =====
-- A world on concrete calls, and its theorems there.
use luatest.Prelude.{◌≡◌, ◌≢◌, ◌↔◌, refl, ◌*◌, ℕ, List, [], ◌∷◌, some, none, true, arith}
use luatest.Prelude.Int.{ℤ, pos}
use luatest.Std.Set
use luatest.Std.Set.{In}
use luatest.Std.Map
use luatest.Grid.{Pos, quot, int16}
use luatest.Cells.{put, take_out}
use luatest.Mmo.{from, column, columns, norm, sort_insert, sort, aoi_cells, shifted}
use luatest.Mmo.Search.{take}
use luatest.Mmo.Tests.{whole}
use luatest.Memory.{bits_of, signed}
use luatest.World.{
  Actor, World, aoi_max, directions, grid, coincide, push_ids, push_cells, traversal_area, cell_of,
  pos_of, aoi_ids, diff, placed, moved, setpos, create, clamp, correctpos, addactor, delactor,
  isblock, inarea, setblock,
}
use luatest.World.Calls.{Call, blocks, adds, sets, step, run, lua_setpos}
use luatest.World.Tracked.{IsTracked, World-run-IsTracked}
use luatest.World.Within.{ArePlaced, KeepsOrder, run-ArePlaced}
use luatest.World.Around.{IsInt16}
use luatest.Range.{circle}
use luatest.World.Search.{Query, Dis, ids_of, range_func, search}
use luatest.World.Nearest.{AreHits, IsChoice, search-IsChoice}
use luatest.World.Sorting.{nth_sorted, nth_sorted_parts}
use luatest.World.Seen.{IsNewIn, In-aoi_ids, In-setpos}

program : Unit {0}
unfolding Set.insert Set.erase Map.assign Map.erase bits_of signed int16 put take_out from column
    columns norm sort_insert sort aoi_cells shifted take directions grid quot coincide push_ids
    push_cells traversal_area cell_of pos_of aoi_ids diff placed moved setpos create clamp
    correctpos addactor delactor isblock inarea setblock step run lua_setpos
program = tt

abbrev at : ℕ → ℕ → Pos
at x y = record { x = pos x; y = pos y }

abbrev calls : List (Call whole)
calls =
    blocks (pos 1) (pos 1) (pos 1)
    ∷ adds (pos 7) (pos 3) (pos 6) (pos 0) (pos 1) (pos 1)
    ∷ adds (pos 8) (pos 90) (pos 2) (pos 0) (pos 1) (pos 2)
    ∷ sets (pos 7) (pos 4) (pos 6) (pos 0) (pos 1)
    ∷ []

abbrev world : World ℤ
world = run whole calls (create whole (pos 50) (pos 40))

abbrev walker : Actor ℤ
walker = record {
  id = pos 7;
  x = pos 4;
  y = pos 6;
  dx = pos 0;
  dy = pos 1;
  camp = pos 1;
  attrs = Map.no_keys;
  skills = Map.no_keys;
}

world_walker : world.actor (pos 7) ≡ some walker
unfolding program
world_walker = refl

world_view : aoi_ids whole (pos 7) world ≡ pos 7 ∷ []
unfolding program
world_view = refl

world_setpos :
    lua_setpos whole (pos 7) (pos 48) (pos 2) (pos 0) (pos 0) world ≡ (some (pos 8 ∷ []), none)
unfolding program
world_setpos = refl

world-IsTracked : IsTracked whole world
world-IsTracked = World-run-IsTracked whole calls (pos 50) (pos 40)

World-run-IsTracked_example : IsTracked whole (run whole calls (create whole (pos 50) (pos 40)))
World-run-IsTracked_example = World-run-IsTracked whole calls (pos 50) (pos 40)

whole_order : KeepsOrder whole
whole_order a b h = ground (arith, h)

run-ArePlaced_example :
    ArePlaced whole (pos 50) (pos 40) (run whole calls (create whole (pos 50) (pos 40)))
run-ArePlaced_example = run-ArePlaced whole whole_order (pos 50) (pos 40) refl refl calls

world_dirs : world.dirs ≡ directions
unfolding program
world_dirs = refl

walker-IsInt16 : IsInt16 (pos_of whole walker)
unfolding pos_of
walker-IsInt16 = (refl, refl)

In-aoi_ids_example :
    (ids : List ℤ) × ((aoi_ids whole (pos 7) world ≡ take aoi_max ids)
      × ((z : ℤ)
          → In z ids ↔ (
              (o : Actor ℤ) × ((world.actor z ≡ some o)
                × (coincide
                      (cell_of whole o)
                      (grid (pos_of whole walker)).x
                      (grid (pos_of whole walker)).y
                    ≡ true)))))
In-aoi_ids_example =
    In-aoi_ids whole (pos 7) walker world world-IsTracked world_dirs walker-IsInt16 world_walker

abbrev moved_walker : Actor ℤ
moved_walker = placed whole (pos 48) (pos 2) (pos 0) (pos 0) walker world

moved-IsInt16 : IsInt16 (pos_of whole moved_walker)
unfolding program
moved-IsInt16 = (refl, refl)

In-setpos_example :
    (news : List ℤ) × ((olds : List ℤ) × (((setpos whole
            (pos 7)
            (pos 48)
            (pos 2)
            (pos 0)
            (pos 0)
            world).1.0
          ≡ take aoi_max news)
        × ((setpos whole (pos 7) (pos 48) (pos 2) (pos 0) (pos 0) world).1.1
            ≡ take (aoi_max * 2) olds)
        × ((z : ℤ)
            → In z news ↔ (
                IsNewIn whole
                  ((setpos whole (pos 7) (pos 48) (pos 2) (pos 0) (pos 0) world).0)
                  (pos_of whole moved_walker)
                  (pos_of whole walker)
                  z
                × (z ≢ pos 7)))
        × ((z : ℤ)
            → In z olds
              ↔ IsNewIn whole
                  ((setpos whole (pos 7) (pos 48) (pos 2) (pos 0) (pos 0) world).0)
                  (pos_of whole walker)
                  (pos_of whole moved_walker)
                  z)))
In-setpos_example =
    In-setpos whole (pos 7) (pos 48) (pos 2) (pos 0) (pos 0) walker world world-IsTracked world_dirs
      world_walker walker-IsInt16 moved-IsInt16

abbrev query : Query ℤ
query = record { id = pos 7; num = pos 1; samecamp = true; rtp = pos 1; p1 = pos 5; p2 = pos 0 }

query_range : range_func whole (pos 1) (pos 5) (pos 0) ≡ some (λ p d op. circle whole p (pos 5) op)
unfolding range_func
query_range = refl

search-IsChoice_example :
    (all : List (Dis ℤ)) × ((chosen : List (Dis ℤ)) × ((left : List (Dis ℤ)) × ((search whole
              nth_sorted query world
            ≡ ids_of chosen)
          × IsChoice whole 1 all chosen left
          × AreHits whole
              (λ p d op. circle whole p (pos 5) op)
              true
              walker
              world
              (aoi_ids whole (pos 7) world)
              all)))
search-IsChoice_example =
    search-IsChoice whole nth_sorted nth_sorted_parts query walker world
      (λ p d op. circle whole p (pos 5) op) refl world_walker query_range
