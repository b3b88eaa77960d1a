-- ===== src/Land.antt =====
-- slg/new/map.h and slg/new/map.cc: the obstacles and the entities of a map, and the positions they
-- cover. `none` stands for a loop that never ends: `x <= tr.x_` holds for every int16_t at 32767.
pub mod Covers
mod Tests
use luatest.Prelude.{
  ℕ, suc, List, [], ◌∷◌, Option, none, some, Bool, true, false, not, ◌||◌, if◌then◌else◌,
}
use luatest.Prelude.Int.{ℤ, pos, negsuc, pos_part, ◌+ℤ◌, ◌-ℤ◌, ltb_ℤ, leb_ℤ, eqb_ℤ}
use luatest.Std.Order.{int_order}
use luatest.Std.Set
use luatest.Std.Map
use luatest.Std.Map.{Map}
use luatest.Std.Difference.{whole_key}
use luatest.Grid.{Pos, pos_order}
use luatest.Mmo.{from, columns}

pub record Entity : Type 0 where
  pub id : ℤ
  pub bl : Pos
  pub tr : Pos

-- `len_`, `wid_`, `entity_` and `pos_eid_` of `Map`.
pub record Land : Type 0 where
  pub len : ℤ
  pub wid : ℤ
  pub entity : Map ℤ Entity
  pub pos_eid : Map Pos ℤ

abbrev pub obstacle_id : ℤ
obstacle_id = negsuc 9999998

unfoldable pub create : ℤ → ℤ → Land
create len wid = record { len = len; wid = wid; entity = Map.no_keys; pos_eid = Map.no_keys }

unfoldable pub check_pos : Land → Pos → Bool
check_pos m p =
    if ltb_ℤ p.x (pos 0)
    then false
    else if leb_ℤ m.len p.x
    then false
    else if ltb_ℤ p.y (pos 0)
    then false
    else if leb_ℤ m.wid p.y
    then false
    else true

abbrev pub has : Option ℤ → Bool
has none = false
has (some id) = true

unfoldable pub obstacle : Land → Pos → Bool
obstacle m p = if not (check_pos m p) then true else has (m.pos_eid p)

-- The numbers from one to another.
unfoldable pub span : ℤ → ℤ → List ℤ
unfolding from
span lo hi = from (pos_part (hi +ℤ pos 1 -ℤ lo)) lo

-- The positions of the two loops, in order.
unfoldable pub area : Pos → Pos → List Pos
unfolding span columns
area bl tr = columns (span bl.x tr.x) (span bl.y tr.y)

-- Whether the loops would go on for ever.
unfoldable pub endless : Pos → Pos → Bool
endless bl tr =
    if eqb_ℤ tr.x (pos 32767)
    then true
    else if ltb_ℤ tr.x bl.x
    then false
    else eqb_ℤ tr.y (pos 32767)

unfoldable pub any_obstacle : Land → List Pos → Bool
unfolding obstacle
any_obstacle m [] = false
any_obstacle m (p ∷ ps) = let rest = any_obstacle m ps in if obstacle m p then true else rest

-- The return inside the loops ends them.
unfoldable pub area_obstacle : Pos → Pos → Land → Option Bool
unfolding any_obstacle area endless
area_obstacle bl tr m =
    if any_obstacle m (area bl tr) then some true else if endless bl tr then none else some false

-- The loop bodies of `traversal_area` with their tests, for a callback that changes `pos_eid_`.
unfoldable pub visit :
    (Pos → Map Pos ℤ → Map Pos ℤ) → (Pos → Bool) → List Pos → Map Pos ℤ → Map Pos ℤ
visit cb check [] eids = eids
visit cb check (p ∷ ps) eids = visit cb check ps (if check p then cb p eids else eids)

unfoldable pub traversal_area :
    Pos → Pos → (Pos → Map Pos ℤ → Map Pos ℤ) → Land → Option (Map Pos ℤ)
unfolding visit area endless
traversal_area bl tr cb m =
    if endless bl tr then none else some (visit cb (check_pos m) (area bl tr) m.pos_eid)

abbrev pub with_eids : Land → Option (Map Pos ℤ) → Option Land
with_eids m none = none
with_eids m (some eids) = some (record m { pos_eid = eids })

unfoldable pub add_obstalce : Pos → Pos → Land → Option Land
unfolding traversal_area
add_obstalce bl tr m =
    with_eids m (traversal_area bl tr (λ p. Map.assign pos_order p obstacle_id) m)

unfoldable pub del_obstacle : Pos → Pos → Land → Option Land
unfolding traversal_area
del_obstacle bl tr m = with_eids m (traversal_area bl tr (Map.erase pos_order) m)

unfoldable pub add_entity : Entity → Land → Option Land
unfolding traversal_area
add_entity e m =
    let m' : Land = record m { entity = Map.assign int_order e.id e m.entity } in
    with_eids m' (traversal_area e.bl e.tr (λ p. Map.assign pos_order p e.id) m')

unfoldable pub del_entity : ℤ → Land → Option Land
unfolding traversal_area
del_entity id m = elim (m.entity id) [
  | none ↦ some m
  | some e ↦
      with_eids (record m { entity = Map.erase int_order id m.entity })
        (traversal_area e.bl e.tr (Map.erase pos_order) m)
]

-- The callback of `area_eid`, over the positions; `set_` is gone through in the order of the ids.
unfoldable pub collect : Land → List Pos → List ℤ → List ℤ
collect m [] set = set
collect m (p ∷ ps) set = collect m ps (
    if not (check_pos m p) then set else elim (m.pos_eid p) [
      | none ↦ set
      | some id ↦ if eqb_ℤ id obstacle_id then set else Set.insert int_order whole_key id set
    ])

unfoldable pub area_eid : Pos → Pos → Land → Option (List ℤ)
unfolding collect endless area
area_eid bl tr m = if endless bl tr then none else some (collect m (area bl tr) [])
