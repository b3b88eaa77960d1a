-- ===== src/Cells.antt =====
-- Sets of ids by the position of a cell, as `cell_entities_` of mmo/cc/map.h, `aoi_` of
-- mmoccskill/cc/aoi.h and `pos_vids_` of slg/new/map.h keep them.
pub mod Laws
pub mod Take
pub mod Tracks
use luatest.Prelude.{ℕ, List, [], ◌∷◌, Option, none, some}
use luatest.Prelude.Int.{ℤ}
use luatest.Std.Order.{int_order}
use luatest.Std.Set
use luatest.Std.Map
use luatest.Std.Map.{Map}
use luatest.Grid.{Pos, pos_order}

abbrev pub Cells : Type 0
Cells = Map Pos (List ℤ)

abbrev pub id_key : ℤ → ℤ
id_key id = id

-- `operator[]` makes an empty set where there is none.
abbrev pub ids_of : Option (List ℤ) → List ℤ
ids_of none = []
ids_of (some ids) = ids

-- `cells[c].insert(id)`
unfoldable pub put : Pos → ℤ → Cells → Cells
put c id m = Map.assign pos_order c (Set.insert int_order id_key id (ids_of (m c))) m

pub keep_ids : Pos → List ℤ → Cells → Cells
keep_ids c [] m = Map.erase pos_order c m
keep_ids c (x ∷ xs) m = Map.assign pos_order c (x ∷ xs) m

pub take_found : Pos → ℤ → Cells → Option (List ℤ) → Cells
unfolding keep_ids
take_found c id m none = m
take_found c id m (some ids) = keep_ids c (Set.erase int_order id_key id ids) m

-- The id is erased from the set of its cell, and the set too where it is empty then.
unfoldable pub take_out : Pos → ℤ → Cells → Cells
unfolding take_found
take_out c id m = take_found c id m (m c)
