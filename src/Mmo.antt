-- ===== src/Mmo.antt =====
-- mmo/cc/map.h and mmo/cc/map.cc: the entities of a map, the cells they stand in, and what an entity
-- sees.
pub mod Entities
pub mod Paths
pub mod Squares
pub mod Views
pub mod Diff
pub mod Search
pub mod Lua
pub mod Tests
use luatest.Prelude.{
  ℕ, zero, suc, ◌+◌, ◌*◌, List, [], ◌∷◌, ◌++◌, Option, none, some, Bool, true, false, not, ◌&&◌,
  ◌||◌, if◌then◌else◌, length, leb, ltb,
}
use luatest.Prelude.Int.{ℤ, pos, negsuc, pos_part, neg_part, ◌+ℤ◌, ◌-ℤ◌, ltb_ℤ, leb_ℤ, eqb_ℤ}
use luatest.Std.Order.{int_order}
use luatest.Std.Map
use luatest.Std.Map.{Map}
use luatest.Std.Reals.{Reals}
use luatest.Grid.{Pos, int16, pos_order, ◌==ₚ◌}
use luatest.Cells.{Cells, put, take_out}
use luatest.Range.{Vec, circle, sector, rectangle}
use luatest.Astar.{Outcome, find}

pub record Entity (A : Type 0) : Type 0 where
  pub id : ℤ
  pub x : A
  pub y : A
  pub dx : ℤ
  pub dy : ℤ
  pub atk_type : ℤ

-- The struct `Map`.
pub record GameMap (A : Type 0) : Type 0 where
  pub len : ℤ
  pub wid : ℤ
  pub search_order : List Pos
  pub entities : Map ℤ (Entity A)
  pub cell_entities : Cells
  pub obstacle : Map Pos (Unit {0})

abbrev pub search_max : ℕ
search_max = 10

-- `-max` and the numbers behind it.
unfoldable pub from : ℕ → ℤ → List ℤ
from zero v = []
from (suc n) v = v ∷ from n (v +ℤ pos 1)

unfoldable pub column : ℤ → List ℤ → List Pos
column x [] = []
column x (y ∷ ys) = record { x = x; y = y } ∷ column x ys

unfoldable pub columns : List ℤ → List ℤ → List Pos
columns [] ys = []
columns (x ∷ xs) ys = column x ys ++ columns xs ys

-- `Pos::operator<`
unfoldable pub norm : Pos → ℕ
norm p =
    (pos_part p.x + neg_part p.x) * (pos_part p.x + neg_part p.x)
    + (pos_part p.y + neg_part p.y) * (pos_part p.y + neg_part p.y)

-- `std::sort`, which leaves the order of equal elements open: here the earlier one stays in front.
unfoldable pub sort_insert : Pos → List Pos → List Pos
sort_insert p [] = p ∷ []
sort_insert p (q ∷ qs) =
    let rest = sort_insert p qs in if ltb (norm q) (norm p) then q ∷ rest else p ∷ q ∷ qs

unfoldable pub sort : List Pos → List Pos
sort [] = []
sort (p ∷ ps) = sort_insert p (sort ps)

-- The positions that the constructor of `Map` puts into `search_order_`.
unfoldable pub offsets : List Pos
unfolding from columns sort
offsets = let side = from (search_max + search_max + 1) (negsuc 9) in sort (columns side side)

-- `get_aoi` looks at the cell in this direction, cut to int16_t.
unfoldable pub shifted : Pos → Pos → Pos
shifted cell ps = record { x = int16 (cell.x +ℤ ps.x); y = int16 (cell.y +ℤ ps.y) }

-- A cell in the square about another.
unfoldable pub in_square : ℤ → ℤ → Pos → Bool
in_square x y cell =
    leb_ℤ (x -ℤ pos search_max) cell.x
    && leb_ℤ cell.x (x +ℤ pos search_max)
    && leb_ℤ (y -ℤ pos search_max) cell.y
    && leb_ℤ cell.y (y +ℤ pos search_max)

-- The cells of `order` about `cell` that have a set, with it.
unfoldable pub aoi_cells : Cells → Pos → List Pos → List (Pos × List ℤ)
aoi_cells cells cell [] = []
aoi_cells cells cell (ps ∷ order) =
    let c = shifted cell ps in
    let rest = aoi_cells cells cell order in
    elim (cells c) [ none ↦ rest | some ids ↦ (c, ids) ∷ rest ]

-- The ids of the cells outside a square.
unfoldable pub ids_outside : ℤ → ℤ → List (Pos × List ℤ) → List ℤ
ids_outside x y [] = []
ids_outside x y ((c, ids) ∷ seen) =
    let rest = ids_outside x y seen in if in_square x y c then rest else ids ++ rest

abbrev pub is_some : Option (Unit {0}) → Bool
is_some none = false
is_some (some u) = true

module _ {A : Type 0} where
  unfoldable pub in_area : GameMap A → Pos → Bool
  in_area m p =
      if ltb_ℤ p.x (pos 0)
      then false
      else if ltb_ℤ (m.len -ℤ pos 1) p.x
      then false
      else if ltb_ℤ p.y (pos 0)
      then false
      else if ltb_ℤ (m.wid -ℤ pos 1) p.y
      then false
      else true

  unfoldable pub impassable : GameMap A → Pos → Bool
  impassable m p = if in_area m p then is_some (m.obstacle p) else true

  unfoldable pub add_obstacle : Pos → GameMap A → GameMap A
  add_obstacle p m =
      if in_area m p then record m { obstacle = Map.assign pos_order p tt m.obstacle } else m

  unfoldable pub del_obstacle : Pos → GameMap A → GameMap A
  del_obstacle p m = record m { obstacle = Map.erase pos_order p m.obstacle }

  -- `get_aoi`: the calls of `cb`, in order.
  unfoldable pub get_aoi : Pos → GameMap A → List (Pos × List ℤ)
  get_aoi cell m = aoi_cells m.cell_entities cell m.search_order

  -- `diff_aoi`: `add` and `del`. The test for `add` is on the column of the old cell and on the row
  -- of the new one, as in the source.
  unfoldable pub diff_aoi : Pos → Pos → GameMap A → List ℤ × List ℤ
  unfolding ids_outside get_aoi
  diff_aoi ocell ncell m = if ocell ==ₚ ncell then ([], []) else (
    ids_outside ocell.x ncell.y (get_aoi ncell m),
    ids_outside ncell.x ncell.y (get_aoi ocell m),
  )

  -- `astar_.find` on this map, with more fuel than the map has positions.
  unfoldable pub astar : (ℕ → ℕ) → Pos → Pos → Bool → GameMap A → Outcome
  unfolding impassable
  astar root s e quick m =
      find root (impassable m) (suc (pos_part m.len * pos_part m.wid)) s e quick

module _ (R : Reals) where
  open R use {Real, of_int, to_int16}

  -- `Map::Map`
  unfoldable pub create : ℤ → ℤ → GameMap Real
  unfolding offsets
  create len wid = record {
    len = len;
    wid = wid;
    search_order = offsets;
    entities = Map.no_keys;
    cell_entities = Map.no_keys;
    obstacle = Map.no_keys;
  }

  -- The division by `cell_len_`, which is 1, and the conversion to int16_t.
  unfoldable pub cell_of : Entity Real → Pos
  cell_of e = record {
    x = to_int16 (R.over e.x (of_int (pos 1)));
    y = to_int16 (R.over e.y (of_int (pos 1)));
  }

  unfoldable pub add_cell : Entity Real → GameMap Real → GameMap Real
  add_cell e m = record m { cell_entities = put (cell_of e) e.id m.cell_entities }

  unfoldable pub del_cell : Entity Real → GameMap Real → GameMap Real
  del_cell e m = record m { cell_entities = take_out (cell_of e) e.id m.cell_entities }

  -- `p` is the position that the source declares and tests without giving it a value.
  unfoldable pub add_entity : Pos → Entity Real → GameMap Real → GameMap Real
  unfolding add_cell
  add_entity p e m = elim (m.entities e.id) [
    | some old ↦ m
    | none ↦
        if impassable m p
        then m
        else add_cell e (record m { entities = Map.assign int_order e.id e m.entities })
  ]

  unfoldable pub update_pos : ℤ → Real → Real → ℤ → ℤ → GameMap Real → GameMap Real
  unfolding add_cell del_cell
  update_pos id x y dx dy m = elim (m.entities id) [
    | none ↦ m
    | some e ↦
        let e' : Entity Real = record e { x = x; y = y; dx = dx; dy = dy } in
        let m' = del_cell e m in
        add_cell e' (record m' { entities = Map.assign int_order id e' m'.entities })
  ]

  unfoldable pub del_entity : ℤ → GameMap Real → GameMap Real
  unfolding del_cell
  del_entity id m = elim (m.entities id) [
    | none ↦ m
    | some e ↦ let m' = del_cell e m in record m' { entities = Map.erase int_order id m'.entities }
  ]
