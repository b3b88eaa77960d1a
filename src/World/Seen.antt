-- ===== src/World/Seen.antt =====
-- What an actor of a world sees, and what comes into view and leaves it by `setpos`.
use luatest.Prelude.{
  ◌≡◌, ◌≢◌, ◌∙◌, sym, ap, refl, ◌↔◌, List, ◌*◌, Bool, true, false, not, Bool-cases, some, inl, inr,
  arith,
}
use mathlib.Core.Path.{subst}
use luatest.Prelude.Int.{ℤ, eqb_ℤ, eqb_ℤ-eq, eqb_ℤ_refl}
use luatest.Std.Set.{In}
use luatest.Std.Reals.{Reals}
use luatest.Grid.{Pos}
use luatest.Mmo.Search.{take, filter}
use luatest.Mmo.Views.{In-aoi_cells}
use luatest.World.{
  Actor, World, aoi_max, directions, grid, coincide, traversal_area, cell_of, pos_of, aoi_ids, diff,
  placed, moved, setpos,
}
use luatest.World.Tracked.{IsTracked, moved-IsTracked}
use luatest.World.Around.{IsInt16, looked}
use luatest.World.Pushed.{entered, push_cells-take, In-filter, In-entered}

not-true : (b : Bool) → not b ≡ true → b ≡ false
not-true b h = ground (arith, h)

module _ (R : Reals) where
  open R use {Real}

  In-traversed :
      (enters : Pos → Bool) (p : Pos) (z : ℤ) (w : World Real)
      → IsTracked R w
      → w.dirs ≡ directions
      → IsInt16 p
      → In z (entered enters (traversal_area p w)) ↔ (
          (o : Actor Real) × ((w.actor z ≡ some o)
            × (coincide (cell_of R o) (grid p).x (grid p).y ≡ true)
            × (enters (cell_of R o) ≡ true)))
  unfolding traversal_area
  In-traversed enters p z w t order i = (
    λ k.
        let (c, (ids, (n, h, l))) = (In-entered enters z (traversal_area p w)).0 k in
        let (seen, f) = (In-aoi_cells w.aoi (grid p) c ids w.dirs).0 n in
        let (d, (m, e)) = seen in
        let (o, (there, at)) = t.standing c z (ids, (f, l)) in
        (
          o,
          (
            there,
            ap (λ (q : Pos). coincide q (grid p).x (grid p).y) at
                ∙ (looked p c i).0 (d, (subst (In d) order m, e)),
            ap enters at ∙ h,
          ),
        ),
    λ k.
        let (o, (there, near, h)) = k in
        let (ids, (f, l)) = t.listed z o there in
        let (d, (m, e)) = (looked p (cell_of R o) i).1 near in
        (In-entered enters z (traversal_area p w)).1 (
          cell_of R o,
          (
            ids,
            (
              (In-aoi_cells w.aoi (grid p) (cell_of R o) ids w.dirs).1
                  ((d, (subst (In d) (sym order) m, e)), f),
              h,
              l,
            ),
          ),
        ),
  )

  -- In a world with the directions of its constructor, whose actors are in their cells, let an actor
  -- stand at a position of two int16_t. Then `aoi_ids` lists the first 200 of a list that has exactly
  -- the ids of the actors in its cell and in the eight cells about it.
  pub In-aoi_ids :
      (id : ℤ) (a : Actor Real) (w : World Real)
      → IsTracked R w
      → w.dirs ≡ directions
      → IsInt16 (pos_of R a)
      → w.actor id ≡ some a
      → (ids : List ℤ) × ((aoi_ids R id w ≡ take aoi_max ids)
          × ((z : ℤ)
              → In z ids ↔ (
                  (o : Actor Real) × ((w.actor z ≡ some o)
                    × (coincide (cell_of R o) (grid (pos_of R a)).x (grid (pos_of R a)).y
                        ≡ true)))))
  unfolding aoi_ids
  In-aoi_ids id a w t order i h = (
    filter (λ z. true) (entered (λ g. true) (traversal_area (pos_of R a) w)),
    (
      rw (aoi_ids, h)
          (push_cells-take (λ z. true) aoi_max (λ g. true) (traversal_area (pos_of R a) w)),
      λ z. (
        λ k.
            let (m, _) =
              (In-filter (λ z. true) z (entered (λ g. true) (traversal_area (pos_of R a) w))).0 k in
            let (o, (there, near, _)) = (In-traversed (λ g. true) (pos_of R a) z w t order i).0 m in
            (o, (there, near)),
        λ k.
            let (o, (there, near)) = k in
            (In-filter (λ z. true) z (entered (λ g. true) (traversal_area (pos_of R a) w))).1 (
              (In-traversed (λ g. true) (pos_of R a) z w t order i).1 (o, (there, near, refl)),
              refl,
            ),
      ),
    ),
  )

  -- The actors of a world near the cell of a position, and not near that of another.
  pub IsNewIn : World Real → Pos → Pos → ℤ → Type 0
  IsNewIn w p q z =
      (o : Actor Real) × ((w.actor z ≡ some o)
        × (coincide (cell_of R o) (grid p).x (grid p).y ≡ true)
        × (coincide (cell_of R o) (grid q).x (grid q).y ≡ false))

  In-outside :
      (p q : Pos) (z : ℤ) (w : World Real)
      → IsTracked R w
      → w.dirs ≡ directions
      → IsInt16 p
      → In z (entered (λ g. not (coincide g (grid q).x (grid q).y)) (traversal_area p w))
        ↔ IsNewIn w p q z
  unfolding IsNewIn
  In-outside p q z w t order i = (
    λ k.
        let (o, (there, near, far)) =
          (In-traversed (λ g. not (coincide g (grid q).x (grid q).y)) p z w t order i).0 k in
        (o, (there, near, not-true (coincide (cell_of R o) (grid q).x (grid q).y) far)),
    λ k.
        let (o, (there, near, far)) = k in
        (In-traversed (λ g. not (coincide g (grid q).x (grid q).y)) p z w t order i).1
          (o, (there, near, ap not far)),
  )

  other_id : (z id : ℤ) → not (eqb_ℤ z id) ≡ true → z ≢ id
  other_id z id h e = cc (h, ap (λ (y : ℤ). eqb_ℤ y id) e, eqb_ℤ_refl id)

  is_other : (z id : ℤ) → z ≢ id → not (eqb_ℤ z id) ≡ true
  is_other z id h = elim (Bool-cases (eqb_ℤ z id)) [
    | inl e ↦ absurd (h (eqb_ℤ-eq z id e))
    | inr e ↦ ap not e
  ]

  -- What `diff` lists in a world with the directions of its constructor.
  pub In-diff :
      (id : ℤ) (bp np : Pos) (w : World Real)
      → IsTracked R w
      → w.dirs ≡ directions
      → IsInt16 bp
      → IsInt16 np
      → (news : List ℤ) × ((olds : List ℤ) × (((diff id bp np w).0 ≡ take aoi_max news)
            × ((diff id bp np w).1 ≡ take (aoi_max * 2) olds)
            × ((z : ℤ) → In z news ↔ (IsNewIn w np bp z × (z ≢ id)))
            × ((z : ℤ) → In z olds ↔ IsNewIn w bp np z)))
  unfolding diff
  In-diff id bp np w t order i j = (
    filter mine (entered far_old (traversal_area np w)),
    (
      filter (λ z. true) (entered far_new (traversal_area bp w)),
      (
        push_cells-take mine aoi_max far_old (traversal_area np w),
        push_cells-take (λ z. true) (aoi_max * 2) far_new (traversal_area bp w),
        λ z. (
          λ k.
              let (m, apart) = (In-filter mine z (entered far_old (traversal_area np w))).0 k in
              ((In-outside np bp z w t order j).0 m, other_id z id apart),
          λ k.
              (In-filter mine z (entered far_old (traversal_area np w))).1
                ((In-outside np bp z w t order j).1 k.0, is_other z id k.1),
        ),
        λ z. (
          λ k.
              (In-outside bp np z w t order i).0
                ((In-filter (λ z. true) z (entered far_new (traversal_area bp w))).0 k).0,
          λ k.
              (In-filter (λ z. true) z (entered far_new (traversal_area bp w))).1
                ((In-outside bp np z w t order i).1 k, refl),
        ),
      ),
    ),
  )
    where
      mine : ℤ → Bool
      mine z = not (eqb_ℤ z id)

      far_old : Pos → Bool
      far_old g = not (coincide g (grid bp).x (grid bp).y)

      far_new : Pos → Bool
      far_new g = not (coincide g (grid np).x (grid np).y)

  -- In a world with the directions of its constructor, whose actors are in their cells, let an actor
  -- move by `setpos` between positions of two int16_t. `adds` is then the first 200 of a list that
  -- has exactly the ids of the other actors within one cell of the new position and not of the old
  -- one, in the world after the move; `dels` is the first 400 of a list that has exactly the ids of
  -- the actors within one cell of the old position and not of the new one.
  pub In-setpos :
      (id : ℤ) (x y : Real) (dx dy : ℤ) (a : Actor Real) (w : World Real)
      → IsTracked R w
      → w.dirs ≡ directions
      → w.actor id ≡ some a
      → IsInt16 (pos_of R a)
      → IsInt16 (pos_of R (placed R x y dx dy a w))
      → (news : List ℤ) × ((olds : List ℤ) × (((setpos R id x y dx dy w).1.0 ≡ take aoi_max news)
            × ((setpos R id x y dx dy w).1.1 ≡ take (aoi_max * 2) olds)
            × ((z : ℤ)
                → In z news ↔ (
                    IsNewIn
                      ((setpos R id x y dx dy w).0)
                      (pos_of R (placed R x y dx dy a w))
                      (pos_of R a)
                      z
                    × (z ≢ id)))
            × ((z : ℤ)
                → In z olds
                  ↔ IsNewIn
                      ((setpos R id x y dx dy w).0)
                      (pos_of R a)
                      (pos_of R (placed R x y dx dy a w))
                      z)))
  unfolding setpos
  In-setpos id x y dx dy a w t order h i j =
      rw (setpos, h)
        (In-diff id (pos_of R a) (pos_of R a') w' (moved-IsTracked R id a a' w h t) order i j)
    where
      a' : Actor Real
      a' = placed R x y dx dy a w

      w' : World Real
      w' = moved R id a a' w
