-- ===== src/Land/Tests.antt =====
-- A map on concrete calls, and its theorem there.
use luatest.Prelude.{◌≡◌, refl, ℕ, List, [], ◌∷◌, Option, some, none, false, if◌then◌else◌}
use luatest.Prelude.Int.{ℤ, pos}
use luatest.Std.Order.{int_order}
use luatest.Std.Set
use luatest.Std.Map
use luatest.Grid.{Pos, pos_order}
use luatest.Mmo.{from, column, columns}
use luatest.Land.{
  Entity, Land, create, check_pos, obstacle, span, area, endless, any_obstacle, area_obstacle,
  visit, traversal_area, add_obstalce, add_entity, del_entity, collect, area_eid,
}
use luatest.Land.Covers.{within, del_entity-add_entity}

program : Unit {0}
unfolding Set.insert Map.assign Map.erase from column columns create check_pos obstacle span area
    endless any_obstacle area_obstacle visit traversal_area add_obstalce add_entity del_entity
    collect area_eid
program = tt

abbrev at : ℕ → ℕ → Pos
at x y = record { x = pos x; y = pos y }

abbrev castle : Entity
castle = record { id = pos 4; bl = at 1 1; tr = at 2 2 }

abbrev tower : Entity
tower = record { id = pos 5; bl = at 2 2; tr = at 3 3 }

abbrev and_then : Option Land → (Land → Option Land) → Option Land
and_then none f = none
and_then (some m) f = f m

abbrev with_castle : Option Land
with_castle = add_entity castle (create (pos 9) (pos 9))

abbrev with_both : Option Land
with_both = and_then with_castle (add_entity tower)

abbrev ids_in : Pos → Pos → Option Land → Option (List ℤ)
ids_in bl tr none = none
ids_in bl tr (some m) = area_eid bl tr m

both_seen : ids_in (at 0 0) (at 4 4) with_both ≡ some (pos 4 ∷ pos 5 ∷ [])
unfolding program
both_seen = refl

-- The castle loses the position that the tower has taken, also when the tower is gone.
castle_left : ids_in (at 2 2) (at 2 2) (and_then with_both (del_entity (pos 5))) ≡ some []
unfolding program
castle_left = refl

abbrev castle_land : Land
castle_land = record {
  len = pos 9;
  wid = pos 9;
  entity = Map.assign int_order (pos 4) castle Map.no_keys;
  pos_eid = Map.assign pos_order (at 2 2) (pos 4) Map.no_keys;
}

tower_ends : endless tower.bl tower.tr ≡ false
unfolding endless
tower_ends = refl

del_entity-add_entity_example :
    (added : Land) × ((deleted : Land) × ((add_entity tower castle_land ≡ some added)
        × (added.entity (pos 5) ≡ some tower)
        × (added.pos_eid (at 2 2) ≡ (
            if within castle_land tower (at 2 2)
            then some (pos 5)
            else castle_land.pos_eid (at 2 2)))
        × (del_entity (pos 5) added ≡ some deleted)
        × (deleted.entity (pos 5) ≡ none)
        × (deleted.pos_eid (at 2 2)
            ≡ (if within castle_land tower (at 2 2) then none else castle_land.pos_eid (at 2 2)))))
del_entity-add_entity_example = del_entity-add_entity tower castle_land (at 2 2) tower_ends
