-- ===== src/Sight/Lua.antt =====
-- slg/new/lmap.cc: the Lua functions that ask for something and those that change the entities, on
-- arguments converted by the Lua API.
-- Of two, the outer `none` stands for a loop that never ends, the inner one for no result.
use luatest.Prelude.{List, Option, none, some, Bool}
use luatest.Prelude.Int.{ℤ}
use luatest.Grid.{Pos}
use luatest.Mmo.Lua.{unless_empty}
use luatest.Land.{Land, area_obstacle, area_eid, add_obstalce, del_obstacle, add_entity, del_entity}
use luatest.Sight.{Sight, vision_march, area_vid}

abbrev ended : Option (List ℤ) → Option (Option (List ℤ))
ended none = none
ended (some ids) = some (unless_empty ids)

unfoldable lua_area_obstacle : Pos → Pos → Land → Option Bool
unfolding area_obstacle
lua_area_obstacle bl tr m = area_obstacle bl tr m

unfoldable lua_area_eid : Pos → Pos → Land → Option (Option (List ℤ))
unfolding area_eid
lua_area_eid bl tr m = ended (area_eid bl tr m)

unfoldable lua_area_vid : Pos → Pos → Sight → Option (Option (List ℤ))
unfolding area_vid
lua_area_vid bl tr s = ended (area_vid bl tr s)

unfoldable lua_vision_march : ℤ → Sight → Option (List ℤ)
unfolding vision_march
lua_vision_march vid s = unless_empty (vision_march vid s)

-- The functions that change the obstacles and the entities; `none` is a loop that never ends.
data Edit : Type 0 where
  adds_obstacle : Pos → Pos → Edit
  dels_obstacle : Pos → Pos → Edit
  adds : ℤ → Pos → Pos → Edit
  dels : ℤ → Edit

unfoldable edit : Edit → Land → Option Land
unfolding add_obstalce del_obstacle add_entity del_entity
edit (adds_obstacle bl tr) m = add_obstalce bl tr m
edit (dels_obstacle bl tr) m = del_obstacle bl tr m
edit (adds eid bl tr) m = add_entity (record { id = eid; bl = bl; tr = tr }) m
edit (dels eid) m = del_entity eid m
