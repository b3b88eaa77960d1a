-- ===== src/Mmo/Entities.antt =====
-- Each entity of a map is in the set of its cell, and the cells have no other ids.
use luatest.Prelude.{
  ◌≡◌, ◌∙◌, sym, ap, refl, inl, inr, List, [], ◌∷◌, some, Option-cases, Bool-cases,
}
use mathlib.Core.Path.{subst}
use luatest.Prelude.Int.{ℤ}
use luatest.Std.Order.{int_order}
use luatest.Std.Map
use luatest.Std.Map.{Map}
use luatest.Std.Reals.{Reals}
use luatest.Grid.{Pos}
use luatest.Cells.{put, take_out}
use luatest.Cells.Tracks.{Tracks, put-Tracks, take-Tracks, move-Tracks}
use luatest.Mmo.{
  Entity, GameMap, cell_of, add_cell, del_cell, add_entity, update_pos, del_entity, impassable,
  in_area, add_obstacle, del_obstacle, create,
}

module _ (R : Reals) where
  open R use {Real}

  pub record IsTracked (m : GameMap Real) : Type 0 where
    pub own_id : (id : ℤ) (e : Entity Real) → m.entities id ≡ some e → e.id ≡ id
    pub tracks : Tracks (cell_of R) m.entities m.cell_entities

  create-IsTracked : (len wid : ℤ) → IsTracked (create R len wid)
  unfolding create
  create-IsTracked len wid = record {
    own_id = λ id e h. absurd (cc h);
    tracks = record {
      is_cells = record { sorted = λ c ids h. absurd (cc h); filled = λ c ids h. absurd (cc h) };
      listed = λ id v h. absurd (cc h);
      standing = λ c id k. absurd (cc (k.1.0));
    };
  }

  -- A map of ids to entities with these ids keeps to that.
  assign_own :
      (id : ℤ) (e : Entity Real) (objects : Map ℤ (Entity Real))
      → e.id ≡ id
      → ((z : ℤ) (v : Entity Real) → objects z ≡ some v → v.id ≡ z)
      → (z : ℤ) (v : Entity Real) → Map.assign int_order id e objects z ≡ some v
      → v.id ≡ z
  assign_own id e objects own h z v k = elim (Map.assign-some int_order id z e v objects k) [
    | inl (same, g) ↦ sym (ap Entity.id g) ∙ own ∙ sym same
    | inr (other, g) ↦ h z v g
  ]

  pub add_entity-IsTracked :
      (p : Pos) (e : Entity Real) (m : GameMap Real) → IsTracked m → IsTracked (add_entity R p e m)
  unfolding add_entity add_cell
  add_entity-IsTracked p e m v = elim (Option-cases (m.entities e.id)) [
    | inr (old, h) ↦ rw (add_entity, h) v
    | inl h ↦ elim (Bool-cases (impassable m p)) [
      | inl blocked ↦ rw (add_entity, h, blocked) v
      | inr free ↦
          rw (add_entity, h, free)
            (record {
              own_id = assign_own e.id e m.entities refl v.own_id;
              tracks = put-Tracks (cell_of R) e.id e m.entities m.cell_entities h v.tracks;
            })
    ]
  ]

  pub update_pos-IsTracked :
      (id : ℤ) (x y : Real) (dx dy : ℤ) (m : GameMap Real)
      → IsTracked m
      → IsTracked (update_pos R id x y dx dy m)
  unfolding update_pos add_cell del_cell
  update_pos-IsTracked id x y dx dy m v = elim (Option-cases (m.entities id)) [
    | inl h ↦ rw (update_pos, h) v
    | inr (e, h) ↦
        let e' : Entity Real = record e { x = x; y = y; dx = dx; dy = dy } in
        rw (update_pos, h)
          (record {
            own_id = assign_own id e' m.entities (v.own_id id e h) v.own_id;
            tracks =
                subst
                  (λ k.
                    Tracks (cell_of R) (Map.assign int_order id e' m.entities)
                      (put (cell_of R e') k (take_out (cell_of R e) k m.cell_entities)))
                  (sym (v.own_id id e h))
                  (move-Tracks (cell_of R) id e e' m.entities m.cell_entities h v.tracks);
          })
  ]

  pub del_entity-IsTracked :
      (id : ℤ) (m : GameMap Real) → IsTracked m → IsTracked (del_entity R id m)
  unfolding del_entity del_cell
  del_entity-IsTracked id m v = elim (Option-cases (m.entities id)) [
    | inl h ↦ rw (del_entity, h) v
    | inr (e, h) ↦
        rw (del_entity, h)
          (record {
            own_id = λ z w k. v.own_id z w (Map.erase-some int_order id z m.entities w k).1;
            tracks =
                subst
                  (λ k.
                    Tracks (cell_of R) (Map.erase int_order id m.entities)
                      (take_out (cell_of R e) k m.cell_entities))
                  (sym (v.own_id id e h))
                  (take-Tracks (cell_of R) id e m.entities m.cell_entities h v.tracks);
          })
  ]

  add_obstacle-IsTracked : (p : Pos) (m : GameMap Real) → IsTracked m → IsTracked (add_obstacle p m)
  unfolding add_obstacle
  add_obstacle-IsTracked p m v = elim (Bool-cases (in_area m p)) [
    | inl h ↦ rw (add_obstacle, h) (record { own_id = v.own_id; tracks = v.tracks })
    | inr h ↦ rw (add_obstacle, h) v
  ]

  del_obstacle-IsTracked : (p : Pos) (m : GameMap Real) → IsTracked m → IsTracked (del_obstacle p m)
  unfolding del_obstacle
  del_obstacle-IsTracked p m v = record { own_id = v.own_id; tracks = v.tracks }

  -- The Lua functions that change the map; `p` as in `add_entity`.
  pub data Call : Type 0 where
    adds : Pos → Entity Real → Call
    updates : ℤ → Real → Real → ℤ → ℤ → Call
    dels : ℤ → Call
    blocks : Pos → Call
    frees : Pos → Call

  unfoldable pub step : Call → GameMap Real → GameMap Real
  unfolding add_entity update_pos del_entity add_obstacle del_obstacle
  step (adds p e) m = add_entity R p e m
  step (updates id x y dx dy) m = update_pos R id x y dx dy m
  step (dels id) m = del_entity R id m
  step (blocks p) m = add_obstacle p m
  step (frees p) m = del_obstacle p m

  unfoldable pub run : List Call → GameMap Real → GameMap Real
  unfolding step
  run [] m = m
  run (c ∷ cs) m = run cs (step c m)

  run_on : (cs : List Call) (m : GameMap Real) → IsTracked m → IsTracked (run cs m)
  unfolding run step
  run_on [] m v = v
  run_on (adds p e ∷ cs) m v = run_on cs (add_entity R p e m) (add_entity-IsTracked p e m v)
  run_on (updates id x y dx dy ∷ cs) m v =
      run_on cs (update_pos R id x y dx dy m) (update_pos-IsTracked id x y dx dy m v)
  run_on (dels id ∷ cs) m v = run_on cs (del_entity R id m) (del_entity-IsTracked id m v)
  run_on (blocks p ∷ cs) m v = run_on cs (add_obstacle p m) (add_obstacle-IsTracked p m v)
  run_on (frees p ∷ cs) m v = run_on cs (del_obstacle p m) (del_obstacle-IsTracked p m v)

  -- Whatever calls are made on a new map, each entity is in the set of the cell it stands in, no set
  -- has an id besides, and no set is empty.
  pub run-IsTracked : (cs : List Call) (len wid : ℤ) → IsTracked (run cs (create R len wid))
  run-IsTracked cs len wid = run_on cs (create R len wid) (create-IsTracked len wid)
