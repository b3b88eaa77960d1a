-- ===== src/Mmo/Lua.antt =====
-- mmo/cc/lmap.cc: the Lua functions that ask for something, on arguments converted by the Lua API. No
-- result is `none`.
use luatest.Prelude.{
  ◌≡◌, ◌∙◌, ap, refl, ◌↔◌, inl, inr, ℕ, List, [], ◌∷◌, Option, none, some, Bool, true,
  if◌then◌else◌,
}
use mathlib.Core.Path.{subst}
use luatest.Prelude.Int.{ℤ}
use luatest.Std.Reals.{Reals}
use luatest.Std.Set.{In, In-append_left, In-append_right, In-of-append}
use luatest.Grid.{Pos, ◌==ₚ◌}
use luatest.Astar.{Outcome, path, no_path, stuck}
use luatest.Mmo.{Entity, GameMap, cell_of, get_aoi, diff_aoi, astar, in_square, offsets, aoi_cells}
use luatest.Mmo.Search.{Query, aoi_search, all_ids}
use luatest.Mmo.Views.{IsInner, looked, In-aoi_cells}
use luatest.Mmo.Entities.{IsTracked}

-- The coordinates of the positions, one after the other.
unfoldable pub coordinates : List Pos → List ℤ
coordinates [] = []
coordinates (p ∷ ps) = p.x ∷ p.y ∷ coordinates ps

abbrev pub unless_empty : List ℤ → Option (List ℤ)
unless_empty [] = none
unless_empty (x ∷ xs) = some (x ∷ xs)

-- What the search has put into `ret`.
abbrev pub ret_of : Outcome → List Pos
ret_of (path ps) = ps
ret_of no_path = []
ret_of stuck = []

unfoldable pub lua_astar : {A : Type 0} → (ℕ → ℕ) → Pos → Pos → Bool → GameMap A → Option (List ℤ)
unfolding coordinates astar
lua_astar root s e quick m = unless_empty (coordinates (ret_of (astar root s e quick m)))

unfoldable pub lua_diff_aoi : {A : Type 0} → Pos → Pos → GameMap A → Option (List ℤ × List ℤ)
unfolding diff_aoi
lua_diff_aoi o n m = if o ==ₚ n then none else some (diff_aoi o n m)

module _ (R : Reals) where
  open R use {Real}

  unfoldable pub lua_get_aoi : ℤ → GameMap Real → Option (List ℤ)
  unfolding get_aoi all_ids
  lua_get_aoi id m = elim (m.entities id) [
    | none ↦ none
    | some e ↦ some (all_ids (get_aoi (cell_of R e) m))
  ]

  unfoldable pub lua_aoi_search : Query Real → GameMap Real → Option (List ℤ)
  unfolding aoi_search
  lua_aoi_search info m = unless_empty (aoi_search R info m)

In-all_ids :
    (id : ℤ) (seen : List (Pos × List ℤ))
    → In id (all_ids seen) ↔ ((c : Pos) × ((ids : List ℤ) × (In (c, ids) seen × In id ids)))
unfolding all_ids
In-all_ids id [] = (λ m. absurd m, λ m. absurd (m.1.1.0))
In-all_ids id ((c, ids) ∷ seen) = (
  λ m. elim (In-of-append id ids (all_ids seen) m) [
    | inl n ↦ (c, (ids, (inl refl, n)))
    | inr r ↦ let (d, (xs, (k, n))) = (In-all_ids id seen).0 r in (d, (xs, (inr k, n)))
  ],
  λ m.
      let (d, (xs, (k, n))) = m in
      elim k [
        | inl g ↦
            In-append_left id ids (all_ids seen)
              (subst (In id) (ap (λ (z : Pos × List ℤ). z.1) g) n)
        | inr r ↦ In-append_right id ids (all_ids seen) ((In-all_ids id seen).1 (d, (xs, (r, n))))
      ],
)

-- On a map with the offsets of its constructor, whose entities are in their cells, let an entity
-- stand in a cell so far from the bounds of int16_t that the square about it fits. Then the Lua
-- function `get_aoi` lists exactly the ids of the entities whose cells lie in that square.
pub In-lua_get_aoi :
    (R : Reals) (id : ℤ) (e : Entity R.Real) (m : GameMap R.Real)
    → IsTracked R m
    → m.search_order ≡ offsets
    → m.entities id ≡ some e
    → IsInner (cell_of R e)
    → (ids : List ℤ) × ((lua_get_aoi R id m ≡ some ids)
        × ((z : ℤ)
            → In z ids ↔ (
                (o : Entity R.Real) × ((m.entities z ≡ some o)
                  × (in_square (cell_of R e).x (cell_of R e).y (cell_of R o) ≡ true)))))
unfolding lua_get_aoi get_aoi
In-lua_get_aoi R id e m v order h i = (
  all_ids (aoi_cells m.cell_entities (cell_of R e) m.search_order),
  (
    rw (lua_get_aoi, h) refl,
    λ z. rw order (
      λ k.
          let (c, (ids, (n, l))) =
            (In-all_ids z (aoi_cells m.cell_entities (cell_of R e) offsets)).0 k in
          let (seen, f) = (In-aoi_cells m.cell_entities (cell_of R e) c ids offsets).0 n in
          let (o, (there, at)) = v.tracks.standing c z (ids, (f, l)) in
          (
            o,
            (
              there,
              ap (in_square (cell_of R e).x (cell_of R e).y) at ∙ (looked (cell_of R e) c i).0 seen,
            ),
          ),
      λ k.
          let (o, (there, near)) = k in
          let (ids, (f, l)) = v.tracks.listed z o there in
          (In-all_ids z (aoi_cells m.cell_entities (cell_of R e) offsets)).1 (
            cell_of R o,
            (
              ids,
              (
                (In-aoi_cells m.cell_entities (cell_of R e) (cell_of R o) ids offsets).1
                    ((looked (cell_of R e) (cell_of R o) i).1 near, f),
                l,
              ),
            ),
          ),
    ),
  ),
)
