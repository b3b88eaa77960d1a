-- ===== src/Cells/Tracks.antt =====
-- Objects with ids, each in the set of the cell it stands in and in no other.
use luatest.Prelude.{◌≡◌, ◌∙◌, sym, ap, inl, inr, none, some}
use mathlib.Core.Path.{subst}
use luatest.Prelude.Int.{ℤ}
use luatest.Std.Order.{int_order}
use luatest.Std.Map
use luatest.Std.Map.{Map}
use luatest.Grid.{Pos}
use luatest.Cells.{Cells, put, take_out}
use luatest.Cells.Laws.{At, IsCells, At-put, put-IsCells, some_inj, same_id}
use luatest.Cells.Take.{At-take_out, take_out-IsCells}

module _ {V : Type 0} (cell : V → Pos) where
  pub record Tracks (objects : Map ℤ V) (m : Cells) : Type 0 where
    pub is_cells : IsCells m
    pub listed : (id : ℤ) (v : V) → objects id ≡ some v → At (cell v) id m
    pub standing : (c : Pos) (id : ℤ) → At c id m → (v : V) × ((objects id ≡ some v) × (cell v ≡ c))

  -- A new object is put into its cell.
  pub put-Tracks :
      (id : ℤ) (v : V) (objects : Map ℤ V) (m : Cells)
      → objects id ≡ none
      → Tracks objects m
      → Tracks (Map.assign int_order id v objects) (put (cell v) id m)
  put-Tracks id v objects m new t = record {
    is_cells = put-IsCells (cell v) id m t.is_cells;
    listed = λ z w e. elim (Map.assign-some int_order id z v w objects e) [
      | inl (same, g) ↦ (At-put (cell v) (cell w) id z m).1 (inl (ap cell (sym g), same))
      | inr (other, f) ↦ (At-put (cell v) (cell w) id z m).1 (inr (t.listed z w f))
    ];
    standing = λ c z k. elim ((At-put (cell v) c id z m).0 k) [
      | inl (p, q) ↦ (
        v,
        (ap (Map.assign int_order id v objects) q ∙ Map.assign_self int_order id v objects, sym p),
      )
      | inr old ↦
          let (w, (f, at)) = t.standing c z old in
          (w, (Map.assign_other int_order id z v objects (λ q. cc (f, ap objects q, new)) ∙ f, at))
    ];
  }

  -- An object is taken out of its cell and away.
  pub take-Tracks :
      (id : ℤ) (v : V) (objects : Map ℤ V) (m : Cells)
      → objects id ≡ some v
      → Tracks objects m
      → Tracks (Map.erase int_order id objects) (take_out (cell v) id m)
  take-Tracks id v objects m there t = record {
    is_cells = take_out-IsCells (cell v) id m t.is_cells;
    listed = λ z w e.
        let (other, f) = Map.erase-some int_order id z objects w e in
        (At-take_out (cell v) (cell w) id z m t.is_cells).1 (t.listed z w f, λ p. other p.1);
    standing = λ c z k.
        let (old, apart) = (At-take_out (cell v) c id z m t.is_cells).0 k in
        let (w, (f, at)) = t.standing c z old in
        (
          w,
          (
            Map.erase_other int_order id z objects
                  (λ q. apart (sym at ∙ ap cell (some_inj (sym f ∙ ap objects q ∙ there)), q))
                ∙ f,
            at,
          ),
        );
  }

  -- An object moves: it is taken out of its old cell, changed, and put into the new one.
  pub move-Tracks :
      (id : ℤ) (v w : V) (objects : Map ℤ V) (m : Cells)
      → objects id ≡ some v
      → Tracks objects m
      → Tracks (Map.assign int_order id w objects) (put (cell w) id (take_out (cell v) id m))
  move-Tracks id v w objects m there t = record {
    is_cells =
        put-IsCells (cell w) id (take_out (cell v) id m)
          (take_out-IsCells (cell v) id m t.is_cells);
    listed = λ z u e.
        (At-put (cell w) (cell u) id z (take_out (cell v) id m)).1
          (elim (Map.assign-some int_order id z w u objects e) [
            | inl (same, g) ↦ inl (ap cell (sym g), same)
            | inr (other, f) ↦ inr (
                (At-take_out (cell v) (cell u) id z m t.is_cells).1
                  (t.listed z u f, λ p. other p.1))
          ]);
    standing = λ c z k. elim ((At-put (cell w) c id z (take_out (cell v) id m)).0 k) [
      | inl (p, q) ↦ (
        w,
        (ap (Map.assign int_order id w objects) q ∙ Map.assign_self int_order id w objects, sym p),
      )
      | inr kept ↦
          let (old, apart) = (At-take_out (cell v) c id z m t.is_cells).0 kept in
          let (u, (f, at)) = t.standing c z old in
          (
            u,
            (
              Map.assign_other int_order id z w objects
                    (λ q. apart (sym at ∙ ap cell (some_inj (sym f ∙ ap objects q ∙ there)), q))
                  ∙ f,
              at,
            ),
          )
    ];
  }

  -- An object is changed and stays in its cell.
  pub stay-Tracks :
      (id : ℤ) (v w : V) (objects : Map ℤ V) (m : Cells)
      → objects id ≡ some v
      → cell w ≡ cell v
      → Tracks objects m
      → Tracks (Map.assign int_order id w objects) m
  stay-Tracks id v w objects m there same t = record {
    is_cells = t.is_cells;
    listed = λ z u e. elim (Map.assign-some int_order id z w u objects e) [
      | inl (k, g) ↦
          subst (λ c. At c z m) (sym same ∙ ap cell g) (t.listed z v (ap objects k ∙ there))
      | inr (other, f) ↦ t.listed z u f
    ];
    standing = λ c z k.
        let (u, (f, at)) = t.standing c z k in
        elim (same_id z id) [
          | inl e ↦ (
            w,
            (
              ap (Map.assign int_order id w objects) e ∙ Map.assign_self int_order id w objects,
              same ∙ ap cell (some_inj (sym there ∙ ap objects (sym e) ∙ f)) ∙ at,
            ),
          )
          | inr e ↦ (u, (Map.assign_other int_order id z w objects e ∙ f, at))
        ];
  }
