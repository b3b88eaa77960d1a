-- ===== src/Sight.antt =====
-- slg/new/map.h and slg/new/map.cc: the marches and the visions of a map.
pub mod Tracked
pub mod Lua
pub mod Changes
mod Tests
use luatest.Prelude.{
  List, [], ◌∷◌, ◌++◌, Option, none, some, Bool, true, false, ◌&&◌, ◌||◌, if◌then◌else◌,
}
use luatest.Prelude.Int.{ℤ, pos, ◌+ℤ◌, ◌-ℤ◌, ◌*ℤ◌, ltb_ℤ, leb_ℤ, eqb_ℤ}
use luatest.Std.Order.{int_order}
use luatest.Std.Set
use luatest.Std.Map
use luatest.Std.Map.{Map}
use luatest.Std.Difference.{whole_key, set_difference}
use luatest.Grid.{Pos, int16, quot}
use luatest.Cells.{Cells, put, take_out}
use luatest.Land.{area, endless}

pub record March : Type 0 where
  pub id : ℤ
  pub cur : Pos
  pub end : Pos

pub record Vision : Type 0 where
  pub id : ℤ
  pub bl : Pos
  pub tr : Pos
  pub march : List ℤ

-- `march_`, `vision_` and `pos_vids_` of `Map`. The marches stand in the order in which the hash map
-- goes through them.
pub record Sight : Type 0 where
  pub march : List March
  pub vision : Map ℤ Vision
  pub pos_vids : Cells

unfoldable pub empty_sight : Sight
empty_sight = record { march = []; vision = Map.no_keys; pos_vids = Map.no_keys }

unfoldable pub center : Vision → Pos
center v = record { x = int16 (quot (v.bl.x +ℤ v.tr.x) 2); y = int16 (quot (v.bl.y +ℤ v.tr.y) 2) }

unfoldable pub erase_march : ℤ → List March → List March
erase_march id [] = []
erase_march id (m ∷ ms) = let rest = erase_march id ms in if eqb_ℤ m.id id then rest else m ∷ rest

unfoldable pub add_march : March → Sight → Sight
unfolding erase_march
add_march m s = record s { march = m ∷ erase_march m.id s.march }

unfoldable pub del_march : ℤ → Sight → Sight
unfolding erase_march
del_march id s = record s { march = erase_march id s.march }

unfoldable pub clear_march : Sight → Sight
clear_march s = record s { march = [] }

unfoldable pub del_vision : ℤ → Sight → Sight
del_vision id s = elim (s.vision id) [
  | none ↦ s
  | some v ↦ record s {
    vision = Map.erase int_order id s.vision;
    pos_vids = take_out (center v) id s.pos_vids;
  }
]

-- The vision is stored, and its id put into the set of its center.
unfoldable pub store : Vision → Sight → Sight
store v s = record s {
  vision = Map.assign int_order v.id v s.vision;
  pos_vids = put (center v) v.id s.pos_vids;
}

unfoldable pub set_vision : Vision → Sight → Sight
unfolding del_vision store
set_vision v s = elim (s.vision v.id) [
  | none ↦ store v s
  | some old ↦ store (record v { march = old.march }) (del_vision v.id s)
]

unfoldable pub inarea : Pos → Pos → Pos → Bool
inarea p bl tr =
    if ltb_ℤ p.x bl.x
    then false
    else if ltb_ℤ tr.x p.x
    then false
    else if ltb_ℤ p.y bl.y
    then false
    else if ltb_ℤ tr.y p.y
    then false
    else true

-- As an integer: the callers use its sign only, which the conversion to float keeps.
unfoldable pub cross : Pos → Pos → Pos → ℤ
cross a b c = int16 (b.x -ℤ a.x) *ℤ int16 (c.y -ℤ a.y) -ℤ int16 (c.x -ℤ a.x) *ℤ int16 (b.y -ℤ a.y)

abbrev pub max_ℤ : ℤ → ℤ → ℤ
max_ℤ a b = if ltb_ℤ a b then b else a

abbrev pub min_ℤ : ℤ → ℤ → ℤ
min_ℤ a b = if ltb_ℤ b a then b else a

unfoldable pub intersect : Pos → Pos → Pos → Pos → Bool
unfolding cross
intersect a b c d =
    if ltb_ℤ (max_ℤ a.x b.x) (min_ℤ c.x d.x)
      || ltb_ℤ (max_ℤ c.x d.x) (min_ℤ a.x b.x)
      || ltb_ℤ (max_ℤ a.y b.y) (min_ℤ c.y d.y)
      || ltb_ℤ (max_ℤ c.y d.y) (min_ℤ a.y b.y)
    then false
    else leb_ℤ (cross a b c *ℤ cross a b d) (pos 0) && leb_ℤ (cross c d a *ℤ cross c d b) (pos 0)

unfoldable pub march_in_vision : Pos → Pos → Pos → Pos → Bool
unfolding inarea intersect
march_in_vision cur end bl tr =
    let p1 : Pos = record { x = bl.x; y = bl.y } in
    let p2 : Pos = record { x = bl.x; y = tr.y } in
    let p3 : Pos = record { x = tr.x; y = tr.y } in
    let p4 : Pos = record { x = tr.x; y = bl.y } in
    if inarea cur bl tr || inarea end bl tr
    then true
    else intersect cur end p1 p2
      || intersect cur end p2 p3
      || intersect cur end p3 p4
      || intersect cur end p4 p1

-- The loop over the marches.
unfoldable pub seen_by : Vision → List March → List ℤ
unfolding march_in_vision
seen_by v [] = []
seen_by v (m ∷ ms) =
    let rest = seen_by v ms in if march_in_vision m.cur m.end v.bl v.tr then m.id ∷ rest else rest

unfoldable pub vision_march : ℤ → Sight → List ℤ
unfolding seen_by
vision_march vid s = elim (s.vision vid) [ none ↦ [] | some v ↦ seen_by v s.march ]

-- `sort`, on ids of which none occurs twice.
unfoldable pub sort_ids : List ℤ → List ℤ
sort_ids [] = []
sort_ids (id ∷ ids) = Set.insert int_order whole_key id (sort_ids ids)

-- `vision_diff`: the map, `adds` and `dels`.
unfoldable pub vision_diff : ℤ → Sight → Sight × (List ℤ × List ℤ)
unfolding vision_march sort_ids set_difference
vision_diff vid s = elim (s.vision vid) [
  | none ↦ (s, ([], []))
  | some vis ↦
      let news = sort_ids (vision_march vid s) in
      (
        record s { vision = Map.assign int_order vid (record vis { march = news }) s.vision },
        (set_difference news vis.march, set_difference vis.march news),
      )
]

-- The loops of `area_vid`, over the positions.
unfoldable pub vids_at : Cells → List Pos → List ℤ
vids_at cells [] = []
vids_at cells (c ∷ cs) =
    let rest = vids_at cells cs in elim (cells c) [ none ↦ rest | some ids ↦ ids ++ rest ]

unfoldable pub area_vid : Pos → Pos → Sight → Option (List ℤ)
unfolding vids_at area endless
area_vid bl tr s = if endless bl tr then none else some (vids_at s.pos_vids (area bl tr))
