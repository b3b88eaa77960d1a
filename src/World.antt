-- ===== src/World.antt =====
-- mmoccskill/cc/world.h, mmoccskill/cc/world.cc and mmoccskill/cc/aoi.cc: the actors of a world, its
-- blocks, and what an actor sees.
pub mod Search
pub mod Calls
pub mod Tracked
pub mod Within
pub mod Blocks
pub mod Around
pub mod Pushed
pub mod Seen
pub mod Nearest
pub mod Sorting
mod Tests
use luatest.Prelude.{
  ℕ, zero, suc, ◌+◌, ◌*◌, ◌/◌, List, [], ◌∷◌, ◌++◌, Option, none, some, Bool, true, false, not,
  ◌&&◌, ◌||◌, if◌then◌else◌, length, leb, ltb,
}
use luatest.Prelude.Int.{ℤ, pos, negsuc, pos_part, ◌+ℤ◌, ◌-ℤ◌, ltb_ℤ, leb_ℤ, eqb_ℤ}
use luatest.Std.Order.{int_order}
use luatest.Std.Map
use luatest.Std.Map.{Map}
use luatest.Std.Reals.{Reals}
use luatest.Grid.{Pos, pos_order, quot}
use luatest.Cells.{Cells, put, take_out}
use luatest.Astar.{Outcome, find}
use luatest.Mmo.{from, columns, sort, aoi_cells}

pub record Actor (A : Type 0) : Type 0 where
  pub id : ℤ
  pub x : A
  pub y : A
  pub dx : ℤ
  pub dy : ℤ
  pub camp : ℤ
  pub attrs : Map ℤ A
  pub skills : Map ℤ ℤ

-- `World`, with `dirs_` and `aoi_` of its `Aoi`.
pub record World (A : Type 0) : Type 0 where
  pub len : ℤ
  pub wid : ℤ
  pub actor : Map ℤ (Actor A)
  pub block : Map Pos ℤ
  pub dirs : List Pos
  pub aoi : Cells

abbrev pub aoi_len : ℕ
aoi_len = 10

abbrev pub aoi_max : ℕ
aoi_max = 200

-- `Aoi::Aoi`, whose order is the one of `Pos` in mmo.
unfoldable pub directions : List Pos
unfolding from columns sort
directions = let side = from 3 (negsuc 0) in sort (columns side side)

unfoldable pub grid : Pos → Pos
unfolding quot
grid p = record { x = quot p.x aoi_len; y = quot p.y aoi_len }

unfoldable pub coincide : Pos → ℤ → ℤ → Bool
coincide g gx gy =
    if ltb_ℤ g.x (gx -ℤ pos 1)
    then false
    else if ltb_ℤ (gx +ℤ pos 1) g.x
    then false
    else if ltb_ℤ g.y (gy -ℤ pos 1)
    then false
    else if ltb_ℤ (gy +ℤ pos 1) g.y
    then false
    else true

-- A loop of `push_back` over the ids of a set, which stops at a size and skips some ids.
unfoldable pub push_ids : (ℤ → Bool) → ℕ → List ℤ → List ℤ → List ℤ
push_ids keep limit [] ret = ret
push_ids keep limit (id ∷ ids) ret =
    if leb limit (length ret)
    then ret
    else push_ids keep limit ids (if keep id then ret ++ id ∷ [] else ret)

-- The calls of a callback with such a loop, on the cells that pass a test.
unfoldable pub push_cells : (Pos → Bool) → (ℤ → Bool) → ℕ → List (Pos × List ℤ) → List ℤ → List ℤ
unfolding push_ids
push_cells enters keep limit [] ret = ret
push_cells enters keep limit ((g, ids) ∷ seen) ret =
    push_cells enters keep limit seen (if enters g then push_ids keep limit ids ret else ret)

abbrev pub has : Option ℤ → Bool
has none = false
has (some v) = true

module _ {A : Type 0} where
  unfoldable pub inarea : World A → Pos → Bool
  inarea w p =
      if ltb_ℤ p.x (pos 0) || ltb_ℤ (w.len -ℤ pos 1) p.x
      then false
      else if ltb_ℤ p.y (pos 0) || ltb_ℤ (w.wid -ℤ pos 1) p.y
      then false
      else true

  unfoldable pub isblock : World A → Pos → Bool
  isblock w p = if not (inarea w p) then true else has (w.block p)

  unfoldable pub setblock : Pos → ℤ → World A → World A
  setblock p v w =
      if not (inarea w p)
      then w
      else if eqb_ℤ v (pos 0)
      then record w { block = Map.erase pos_order p w.block }
      else record w { block = Map.assign pos_order p v w.block }

  -- The calls of the callback by `Aoi::traversal_area`, in order.
  unfoldable pub traversal_area : Pos → World A → List (Pos × List ℤ)
  unfolding grid aoi_cells
  traversal_area p w = aoi_cells w.aoi (grid p) w.dirs

  -- `Aoi::diff`: `adds` and `dels`.
  unfoldable pub diff : ℤ → Pos → Pos → World A → List ℤ × List ℤ
  unfolding traversal_area push_cells
  diff aid bp np w =
      let bg = grid bp in
      let ng = grid np in
      (
        push_cells (λ g. not (coincide g bg.x bg.y)) (λ id. not (eqb_ℤ id aid)) aoi_max
            (traversal_area np w) [],
        push_cells (λ g. not (coincide g ng.x ng.y)) (λ id. true) (aoi_max * 2)
            (traversal_area bp w) [],
      )

  -- `Astar::find` of this world: the code of mmo/cc/astar.cc with `isblock` for `impassable`, with more
  -- fuel than the world has positions.
  unfoldable pub astar : (ℕ → ℕ) → Pos → Pos → Bool → World A → Outcome
  unfolding isblock
  astar root s e quick w = find root (isblock w) (suc (pos_part w.len * pos_part w.wid)) s e quick

module _ (R : Reals) where
  open R use {Real, of_int, to_int16, lt}

  -- `World::World`
  unfoldable pub create : ℤ → ℤ → World Real
  unfolding directions
  create len wid = record {
    len = len;
    wid = wid;
    actor = Map.no_keys;
    block = Map.no_keys;
    dirs = directions;
    aoi = Map.no_keys;
  }

  -- The conversion of an actor's coordinates to int16_t.
  unfoldable pub pos_of : Actor Real → Pos
  pos_of a = record { x = to_int16 a.x; y = to_int16 a.y }

  -- The cell that `Aoi::add` and `Aoi::del` compute, by a division of floats.
  unfoldable pub cell_of : Actor Real → Pos
  cell_of a = record {
    x = to_int16 (R.over a.x (of_int (pos aoi_len)));
    y = to_int16 (R.over a.y (of_int (pos aoi_len)));
  }

  unfoldable pub clamp : ℤ → Real → Real
  clamp len v =
      let low = if lt v (of_int (pos 0)) then of_int (pos 0) else v in
      if lt (of_int (len -ℤ pos 1)) low then of_int (len -ℤ pos 1) else low

  unfoldable pub correctpos : World Real → Actor Real → Actor Real
  unfolding clamp
  correctpos w a = record a { x = clamp w.len a.x; y = clamp w.wid a.y }

  unfoldable pub addactor : ℤ → Actor Real → World Real → World Real
  unfolding correctpos
  addactor id a w = elim (w.actor id) [
    | some old ↦ w
    | none ↦
        let a' = correctpos w a in
        record w { actor = Map.assign int_order id a' w.actor; aoi = put (cell_of a') id w.aoi }
  ]

  unfoldable pub delactor : ℤ → World Real → World Real
  delactor id w = elim (w.actor id) [
    | none ↦ w
    | some a ↦ record w {
      actor = Map.erase int_order id w.actor;
      aoi = take_out (cell_of a) id w.aoi;
    }
  ]

  -- The actor after `setpos`, and the world with it.
  unfoldable pub placed : Real → Real → ℤ → ℤ → Actor Real → World Real → Actor Real
  unfolding correctpos
  placed x y dx dy a w = correctpos w (record a { x = x; y = y; dx = dx; dy = dy })

  unfoldable pub moved : ℤ → Actor Real → Actor Real → World Real → World Real
  moved id a a' w = record w {
    actor = Map.assign int_order id a' w.actor;
    aoi = put (cell_of a') id (take_out (cell_of a) id w.aoi);
  }

  -- `setpos`: the world, `adds` and `dels`.
  unfoldable pub setpos : ℤ → Real → Real → ℤ → ℤ → World Real → World Real × (List ℤ × List ℤ)
  unfolding placed moved diff
  setpos id x y dx dy w = elim (w.actor id) [
    | none ↦ (w, ([], []))
    | some a ↦
        let a' = placed x y dx dy a w in
        let w' = moved id a a' w in (w', diff id (pos_of a) (pos_of a') w')
  ]

  unfoldable pub aoi_ids : ℤ → World Real → List ℤ
  unfolding traversal_area push_cells
  aoi_ids id w = elim (w.actor id) [
    | none ↦ []
    | some a ↦ push_cells (λ g. true) (λ z. true) aoi_max (traversal_area (pos_of a) w) []
  ]
