-- ===== src/Slg/Tests.antt =====
-- A world on concrete calls, and its theorems there.
use luatest.Prelude.{◌≡◌, ◌↔◌, refl, ℕ, List, [], ◌∷◌, some, true, false}
use luatest.Prelude.Int.{ℤ, pos, negsuc}
use luatest.Std.Set
use luatest.Std.Set.{In}
use luatest.Std.Map
use luatest.Std.Difference.{past, set_difference}
use luatest.Memory.{bits_of, signed}
use luatest.Std.Table.{erase_at, find_at}
use luatest.Grid.{Pos, int16}
use luatest.Mmo.{from, column, columns}
use luatest.Land.{span, area, endless}
use luatest.Land.Covers.{covers}
use luatest.Sight.{sort_ids, inarea, cross, intersect, march_in_vision}
use luatest.Slg.{
  World, Entity, View, Change, create, checkpos, isblock, clamp, correctpos, any_block, haveblock,
  put_block, setblock, occupy, vacate, addentity, delentity, ids_at, areaids, inview, troops_in,
  report, view_loop, troop_view, settroop, setview,
}
use luatest.Slg.Entities.{IsGround}
use luatest.Slg.Ground.{Reached, created, added, trooped, viewed, Reached-IsGround}
use luatest.Slg.Views.{In-areaids}
use luatest.Slg.Reports.{Reports, Differs, IsInView, In-troop_view}

program : Unit {0}
unfolding Set.insert Map.assign Map.erase past set_difference bits_of signed int16 from column
    columns span area endless sort_ids inarea cross intersect march_in_vision create checkpos
    isblock clamp correctpos any_block haveblock put_block setblock occupy vacate addentity
    delentity ids_at areaids inview troops_in report view_loop troop_view erase_at find_at settroop
    setview
program = tt

abbrev at : ℕ → ℕ → Pos
at x y = record { x = pos x; y = pos y }

abbrev castle : Entity
castle = record { bl = at 1 1; tr = at 2 2 }

abbrev empty_world : World
empty_world = create (pos 9) (pos 9)

with_castle : (w : World) × (addentity (pos 4) castle empty_world ≡ some w)
unfolding program
with_castle = (_, refl)

castle_Reached : Reached (with_castle.0)
castle_Reached = added (pos 4) castle (created (pos 9) (pos 9)) (with_castle.1)

-- Another entity that overlaps is not added.
overlap :
    addentity (pos 5) (record { bl = at 2 2; tr = at 3 3 }) (with_castle.0) ≡ some (with_castle.0)
unfolding program with_castle
overlap = refl

Reached-IsGround_example : IsGround (with_castle.0)
Reached-IsGround_example = Reached-IsGround (with_castle.0) castle_Reached

castle_ends :
    endless
      (correctpos (with_castle.0) (record { x = negsuc 3; y = pos 2 }))
      (correctpos (with_castle.0) (at 40 40))
    ≡ false
unfolding program with_castle
castle_ends = refl

In-areaids_example :
    (ids : List ℤ) × ((areaids (record { x = negsuc 3; y = pos 2 }) (at 40 40) (with_castle.0)
        ≡ some ids)
      × ((z : ℤ)
          → In z ids ↔ (
              (e : Entity) × ((p : Pos) × (((with_castle.0).entity z ≡ some e)
                  × (covers e.bl e.tr p ≡ true)
                  × (covers
                        (correctpos (with_castle.0) (record { x = negsuc 3; y = pos 2 }))
                        (correctpos (with_castle.0) (at 40 40))
                        p
                      ≡ true))))))
In-areaids_example =
    In-areaids (with_castle.0) (record { x = negsuc 3; y = pos 2 }) (at 40 40) castle_Reached
      castle_ends

-- A view on the way of a troop.
abbrev watched : World
watched =
    setview (pos 1) (some (at 0 0, at 5 5))
      (settroop (pos 7) (some (record { n = at 0 8; e = at 8 0 })) empty_world)

watched_changes : (troop_view watched).1 ≡ (pos 1, (pos 7 ∷ [], [])) ∷ []
unfolding program
watched_changes = refl

watched-Reached : Reached watched
watched-Reached =
    viewed (pos 1) (some (at 0 0, at 5 5))
      (trooped (pos 7) (some (record { n = at 0 8; e = at 8 0 })) (created (pos 9) (pos 9)))

In-troop_view_example :
    ((c : Change)
      → In c (troop_view watched).1
      → (v : View) × (In (c.0, v) watched.view × Reports watched.troop v c.1.0 c.1.1))
    × ((vid : ℤ) (v : View)
        → In (vid, v) watched.view
        → ((z : ℤ)
            → Differs v z watched.troop
            → (adds : List ℤ) × ((dels : List ℤ) × (In (vid, (adds, dels)) (troop_view watched).1
                  × Reports watched.troop v adds dels)))
          × ((news : List ℤ) × (In (vid, record v { troop = news }) (troop_view watched).0.view
                × ((z : ℤ) → In z news ↔ IsInView v z watched.troop))))
In-troop_view_example = In-troop_view watched watched-Reached
