-- ===== src/Slg.antt =====
-- slg/cc/world.h, slg/cc/world.cc and slg/cc/lworld.cc: the entities, blocks, troops and views of a
-- world. `none` stands for a loop that never ends: `x <= tr.x_` holds for every int16_t at 32767.
pub mod Entities
pub mod Ground
pub mod Moves
pub mod Ascending
pub mod Reports
pub mod Views
mod Tests
use luatest.Prelude.{List, [], ◌∷◌, Option, none, some, Bool, true, false, not, ◌&&◌, if◌then◌else◌}
use luatest.Prelude.Int.{ℤ, pos, ◌-ℤ◌, ltb_ℤ, leb_ℤ, eqb_ℤ}
use luatest.Std.Order.{int_order}
use luatest.Std.Set
use luatest.Std.Map
use luatest.Std.Map.{Map}
use luatest.Std.Difference.{whole_key, set_difference}
use luatest.Std.Table.{erase_at, find_at}
use luatest.Grid.{Pos, pos_order, ◌==ₚ◌}
use luatest.Land.{area, endless}
use luatest.Sight.{march_in_vision, sort_ids}

pub record Troop : Type 0 where
  pub n : Pos
  pub e : Pos

pub record View : Type 0 where
  pub bl : Pos
  pub tr : Pos
  pub troop : List ℤ

pub record Entity : Type 0 where
  pub bl : Pos
  pub tr : Pos

-- The struct `World`. The troops and the views stand in the order in which the hash tables go through
-- them; `block` is only asked at positions of the world.
pub record World : Type 0 where
  pub len : ℤ
  pub wid : ℤ
  pub entity : Map ℤ Entity
  pub pos_entity : Map Pos ℤ
  pub block : Pos → Bool
  pub troop : List (ℤ × Troop)
  pub view : List (ℤ × View)

unfoldable pub create : ℤ → ℤ → World
create len wid = record {
  len = len;
  wid = wid;
  entity = Map.no_keys;
  pos_entity = Map.no_keys;
  block = λ p. false;
  troop = [];
  view = [];
}

unfoldable pub checkpos : World → Pos → Bool
checkpos w p =
    leb_ℤ (pos 0) p.x
    && leb_ℤ p.x (w.len -ℤ pos 1)
    && leb_ℤ (pos 0) p.y
    && leb_ℤ p.y (w.wid -ℤ pos 1)

unfoldable pub isblock : World → Pos → Bool
isblock w p = if not (checkpos w p) then true else w.block p

unfoldable pub clamp : ℤ → ℤ → ℤ
clamp len v =
    let low = if ltb_ℤ v (pos 0) then pos 0 else v in
    if ltb_ℤ (len -ℤ pos 1) low then len -ℤ pos 1 else low

unfoldable pub correctpos : World → Pos → Pos
unfolding clamp
correctpos w p = record { x = clamp w.len p.x; y = clamp w.wid p.y }

unfoldable pub any_block : World → List Pos → Bool
unfolding isblock
any_block w [] = false
any_block w (p ∷ ps) = let rest = any_block w ps in if isblock w p then true else rest

-- The return inside the loops ends them.
unfoldable pub haveblock : Pos → Pos → World → Option Bool
unfolding any_block area endless
haveblock bl tr w =
    if any_block w (area bl tr) then some true else if endless bl tr then none else some false

-- `block_[p.x_][p.y_] = v`
unfoldable pub put_block : Pos → Bool → (Pos → Bool) → Pos → Bool
put_block p v block q = if q ==ₚ p then v else block q

unfoldable pub setblock : Pos → Bool → World → World
unfolding put_block
setblock p v w = if not (checkpos w p) then w else record w { block = put_block p v w.block }

-- The loop bodies of `addentity` and of `delentity`, over the positions.
unfoldable pub occupy : ℤ → List Pos → World → World
unfolding setblock
occupy id [] w = w
occupy id (p ∷ ps) w =
    occupy id ps
      (setblock p true (record w { pos_entity = Map.assign pos_order p id w.pos_entity }))

unfoldable pub vacate : List Pos → World → World
unfolding setblock
vacate [] w = w
vacate (p ∷ ps) w =
    vacate ps (setblock p false (record w { pos_entity = Map.erase pos_order p w.pos_entity }))

unfoldable pub addentity : ℤ → Entity → World → Option World
unfolding haveblock occupy
addentity id e w = elim (w.entity id) [
  | some old ↦ some w
  | none ↦ elim (haveblock e.bl e.tr w) [
    | none ↦ none
    | some b ↦
        if b
        then some w
        else some
            (occupy id (area e.bl e.tr) (record w { entity = Map.assign int_order id e w.entity }))
  ]
]

unfoldable pub delentity : ℤ → World → Option World
unfolding vacate
delentity id w = elim (w.entity id) [
  | none ↦ some w
  | some e ↦
      if endless e.bl e.tr
      then none
      else let w' = vacate (area e.bl e.tr) w in
        some (record w' { entity = Map.erase int_order id w'.entity })
]

-- The loop bodies of `areaids`.
unfoldable pub ids_at : World → List Pos → List ℤ
ids_at w [] = []
ids_at w (p ∷ ps) =
    let rest = ids_at w ps in elim (w.pos_entity p) [ none ↦ rest | some id ↦ id ∷ rest ]

-- `sort_ids` also keeps one of equal ids only, as `unique` does after `sort`.
unfoldable pub areaids : Pos → Pos → World → Option (List ℤ)
unfolding correctpos ids_at area endless
areaids bl tr w =
    let bl' = correctpos w bl in
    let tr' = correctpos w tr in
    if endless bl' tr' then none else some (sort_ids (ids_at w (area bl' tr')))

-- The code of `march_in_vision` of slg/new/map.cc.
unfoldable pub inview : Pos → Pos → Pos → Pos → Bool
unfolding march_in_vision
inview n e bl tr = march_in_vision n e bl tr

-- The loop over the troops.
unfoldable pub troops_in : View → List (ℤ × Troop) → List ℤ
unfolding inview
troops_in v [] = []
troops_in v ((id, t) ∷ ts) =
    let rest = troops_in v ts in if inview t.n t.e v.bl v.tr then id ∷ rest else rest

abbrev pub Change : Type 0
Change = ℤ × (List ℤ × List ℤ)

-- A call of the callback of `troop_view`, which is left out where nothing changes.
unfoldable pub report : ℤ → List ℤ → List ℤ → List Change → List Change
report vid [] [] rest = rest
report vid [] (d ∷ dels) rest = (vid, ([], d ∷ dels)) ∷ rest
report vid (a ∷ adds) dels rest = (vid, (a ∷ adds, dels)) ∷ rest

-- The loop over the views: the views after it, and the calls of the callback.
unfoldable pub view_loop : List (ℤ × Troop) → List (ℤ × View) → List (ℤ × View) × List Change
unfolding troops_in sort_ids set_difference report
view_loop ts [] = ([], [])
view_loop ts ((vid, v) ∷ vs) =
    let (views, changes) = view_loop ts vs in
    let ntroop = sort_ids (troops_in v ts) in
    (
      (vid, record v { troop = ntroop }) ∷ views,
      report vid (set_difference ntroop v.troop) (set_difference v.troop ntroop) changes,
    )

unfoldable pub troop_view : World → World × List Change
unfolding view_loop
troop_view w =
    let (views, changes) = view_loop w.troop w.view in (record w { view = views }, changes)

-- The Lua function `setentity`, without an entity where the third argument is not an integer.
unfoldable pub setentity : ℤ → Option Entity → World → Option World
unfolding addentity delentity
setentity id none w = delentity id w
setentity id (some e) w = addentity id e w

unfoldable pub settroop : ℤ → Option Troop → World → World
unfolding erase_at
settroop id none w = record w { troop = erase_at id w.troop }
settroop id (some t) w = record w { troop = (id, t) ∷ erase_at id w.troop }

abbrev pub troop_of : Option View → List ℤ
troop_of none = []
troop_of (some v) = v.troop

-- A view that is there keeps its troops.
unfoldable pub setview : ℤ → Option (Pos × Pos) → World → World
unfolding erase_at find_at
setview id none w = record w { view = erase_at id w.view }
setview id (some (bl, tr)) w = record w {
  view =
      (id, record { bl = bl; tr = tr; troop = troop_of (find_at id w.view) }) ∷ erase_at id w.view;
}
