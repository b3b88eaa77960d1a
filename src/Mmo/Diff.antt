-- ===== src/Mmo/Diff.antt =====
-- `diff_aoi` compares what is seen from two cells.
use luatest.Prelude.{◌≡◌, ◌↔◌, true, false}
use luatest.Prelude.Int.{ℤ}
use luatest.Std.Reals.{Reals}
use luatest.Std.Set.{In}
use luatest.Grid.{Pos, ◌==ₚ◌}
use luatest.Cells.Laws.{At}
use luatest.Mmo.{GameMap, offsets, in_square, aoi_cells, ids_outside, get_aoi, diff_aoi}
use luatest.Mmo.Views.{IsInner, looked, In-aoi_cells, In-ids_outside}

module _ {A : Type 0} where
  In-outside :
      (p : Pos) (x y id : ℤ) (m : GameMap A)
      → IsInner p
      → m.search_order ≡ offsets
      → In id (ids_outside x y (get_aoi p m)) ↔ (
          (c : Pos) × (At c id m.cell_entities
            × (in_square p.x p.y c ≡ true)
            × (in_square x y c ≡ false)))
  unfolding get_aoi
  In-outside p x y id m i order = rw order (
    λ k.
        let (c, (ids, (n, o, l))) =
          (In-ids_outside x y id (aoi_cells m.cell_entities p offsets)).0 k in
        let (seen, e) = (In-aoi_cells m.cell_entities p c ids offsets).0 n in
        (c, ((ids, (e, l)), (looked p c i).0 seen, o)),
    λ k.
        let (c, ((ids, (e, l)), h, o)) = k in
        (In-ids_outside x y id (aoi_cells m.cell_entities p offsets)).1 (
          c,
          (ids, ((In-aoi_cells m.cell_entities p c ids offsets).1 ((looked p c i).1 h, e), o, l)),
        ),
  )

  -- Let two different cells lie so far from the bounds of int16_t that the squares about them fit.
  -- On a map with the offsets of its constructor, `diff_aoi` lists as `del` exactly the ids in the
  -- cells of the square about the old cell that are not in the square about the new one. It lists as
  -- `add` exactly the ids in the cells of the square about the new cell that are not in the square
  -- about the position with the column of the old cell and the row of the new one.
  pub In-diff_aoi :
      (o n : Pos) (id : ℤ) (m : GameMap A)
      → (o ==ₚ n) ≡ false
      → IsInner o
      → IsInner n
      → m.search_order ≡ offsets
      → (In id (diff_aoi o n m).1 ↔ (
          (c : Pos) × (At c id m.cell_entities
            × (in_square o.x o.y c ≡ true)
            × (in_square n.x n.y c ≡ false))))
        × (In id (diff_aoi o n m).0 ↔ (
            (c : Pos) × (At c id m.cell_entities
              × (in_square n.x n.y c ≡ true)
              × (in_square o.x n.y c ≡ false))))
  unfolding diff_aoi
  In-diff_aoi o n id m apart i j order =
      rw apart (In-outside o n.x n.y id m i order, In-outside n o.x n.y id m j order)
