-- ===== src/Slg/Views.antt =====
-- What `areaids` answers.
use luatest.Prelude.{
  ◌≡◌, ◌∙◌, sym, ap, refl, ◌↔◌, inl, inr, List, [], ◌∷◌, some, true, false, Option-cases,
}
use luatest.Prelude.Int.{ℤ}
use luatest.Std.Set.{In}
use luatest.Grid.{Pos}
use luatest.Land.{area, endless}
use luatest.Land.Covers.{covers, In-area}
use luatest.Sight.{sort_ids}
use luatest.Sight.Changes.{In-sort_ids}
use luatest.Cells.Laws.{some_inj}
use luatest.Slg.{World, Entity, correctpos, ids_at, areaids}
use luatest.Slg.Ground.{Reached, Reached-IsGround}

In-ids_at :
    (w : World) (z : ℤ) (ps : List Pos)
    → In z (ids_at w ps) ↔ ((p : Pos) × (In p ps × (w.pos_entity p ≡ some z)))
unfolding ids_at
In-ids_at w z [] = (λ m. absurd m, λ m. absurd (m.1.0))
In-ids_at w z (p ∷ ps) = elim (Option-cases (w.pos_entity p)) [
  | inl h ↦
      rw (ids_at, h)
        (
          λ m. let (q, (k, e)) = (In-ids_at w z ps).0 m in (q, (inr k, e)),
          λ m. elim (m.1.0) [
            | inl e ↦ absurd (cc (h, m.1.1, ap w.pos_entity e))
            | inr k ↦ (In-ids_at w z ps).1 (m.0, (k, m.1.1))
          ],
        )
  | inr (id, h) ↦
      rw (ids_at, h)
        (
          λ m. elim m [
            | inl e ↦ (p, (inl refl, h ∙ ap some (sym e)))
            | inr r ↦ let (q, (k, e)) = (In-ids_at w z ps).0 r in (q, (inr k, e))
          ],
          λ m. elim (m.1.0) [
            | inl e ↦ inl (some_inj (sym (m.1.1) ∙ ap w.pos_entity e ∙ h))
            | inr k ↦ inr ((In-ids_at w z ps).1 (m.0, (k, m.1.1)))
          ],
        )
]

-- In a world that calls lead to, where `setblock` frees no position that has the id of an entity, let
-- the loops of `areaids` end. It then gives a list with exactly the ids of the entities whose
-- rectangles share a position with the given rectangle, cut to the world.
pub In-areaids :
    (w : World) (bl tr : Pos)
    → Reached w
    → endless (correctpos w bl) (correctpos w tr) ≡ false
    → (ids : List ℤ) × ((areaids bl tr w ≡ some ids)
        × ((z : ℤ)
            → In z ids ↔ (
                (e : Entity) × ((p : Pos) × ((w.entity z ≡ some e)
                    × (covers e.bl e.tr p ≡ true)
                    × (covers (correctpos w bl) (correctpos w tr) p ≡ true))))))
unfolding areaids
In-areaids w bl tr r h =
    let g = Reached-IsGround w r in
    let ps = area (correctpos w bl) (correctpos w tr) in
    (
      sort_ids (ids_at w ps),
      (
        rw h refl,
        λ z. (
          λ m.
              let (p, (k, at)) = (In-ids_at w z ps).0 ((In-sort_ids z (ids_at w ps)).0 m) in
              let (e, (there, c)) = g.holder p z at in
              (e, (p, (there, c, (In-area (correctpos w bl) (correctpos w tr) p).0 k))),
          λ m.
              let (e, (p, (there, c, d))) = m in
              (In-sort_ids z (ids_at w ps)).1 (
                (In-ids_at w z ps).1
                  (p, ((In-area (correctpos w bl) (correctpos w tr) p).1 d, g.held p z e there c))),
        ),
      ),
    )
