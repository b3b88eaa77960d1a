-- ===== src/Land/Covers.antt =====
-- What the entities leave in the positions.
use luatest.Prelude.{
  ◌≡◌, ◌≢◌, ◌∙◌, sym, ap, refl, ◌↔◌, inl, inr, List, [], ◌∷◌, Option, none, some, Bool, true, false,
  Bool-cases, ◌&&◌, ◌||◌, if◌then◌else◌, arith,
}
use luatest.Prelude.Int.{ℤ, pos, pos_part, leb_ℤ, ltb_ℤ, ◌+ℤ◌, ◌-ℤ◌}
use luatest.Std.Order.{int_order}
use luatest.Std.Set.{In}
use luatest.Std.Map
use luatest.Std.Map.{Map}
use luatest.Grid.{Pos, pos_order, mem, mem-In, In-mem, ◌==ₚ◌, ==ₚ-eq, ==ₚ-ne}
use luatest.Mmo.Squares.{In-from, In-of-from, In-columns, In-of-columns}
use luatest.Land.{
  Entity, Land, check_pos, span, area, endless, visit, traversal_area, add_entity, del_entity,
}

-- A position in the rectangle.
unfoldable pub covers : Pos → Pos → Pos → Bool
covers bl tr p = leb_ℤ bl.x p.x && leb_ℤ p.x tr.x && leb_ℤ bl.y p.y && leb_ℤ p.y tr.y

upper :
    (lo hi v : ℤ)
    → leb_ℤ lo v ≡ true
    → ltb_ℤ v (lo +ℤ pos (pos_part (hi +ℤ pos 1 -ℤ lo))) ≡ true
    → leb_ℤ v hi ≡ true
upper lo hi v h k = ground (arith, h, k)

room :
    (lo hi v : ℤ)
    → leb_ℤ lo v ≡ true
    → leb_ℤ v hi ≡ true
    → ltb_ℤ v (lo +ℤ pos (pos_part (hi +ℤ pos 1 -ℤ lo))) ≡ true
room lo hi v h k = ground (arith, h, k)

four :
    (a b c d : Bool) → a && b && c && d ≡ true → (a ≡ true) × (b ≡ true) × (c ≡ true) × (d ≡ true)
four a b c d h = (ground (arith, h), ground (arith, h), ground (arith, h), ground (arith, h))

In-span : (lo hi v : ℤ) → In v (span lo hi) ↔ ((leb_ℤ lo v ≡ true) × (leb_ℤ v hi ≡ true))
unfolding span
In-span lo hi v = (
  λ m. let (h, k) = In-of-from (pos_part (hi +ℤ pos 1 -ℤ lo)) lo v m in (h, upper lo hi v h k),
  λ m. In-from (pos_part (hi +ℤ pos 1 -ℤ lo)) lo v m.0 (room lo hi v m.0 m.1),
)

pub In-area : (bl tr p : Pos) → In p (area bl tr) ↔ (covers bl tr p ≡ true)
unfolding area covers
In-area bl tr p = (
  λ m.
      let (hx, hy) = In-of-columns (span bl.x tr.x) (span bl.y tr.y) p m in
      let (a, b) = (In-span bl.x tr.x p.x).0 hx in
      let (c, d) = (In-span bl.y tr.y p.y).0 hy in rw (a, b, c, d) refl,
  λ h.
      let (a, b, c, d) =
        four (leb_ℤ bl.x p.x) (leb_ℤ p.x tr.x) (leb_ℤ bl.y p.y) (leb_ℤ p.y tr.y) h in
      In-columns (span bl.x tr.x) (span bl.y tr.y) p ((In-span bl.x tr.x p.x).1 (a, b))
        ((In-span bl.y tr.y p.y).1 (c, d)),
)

pub mem-area : (bl tr p : Pos) → mem p (area bl tr) ≡ covers bl tr p
mem-area bl tr p = elim (Bool-cases (mem p (area bl tr))) [
  | inl h ↦ h ∙ sym ((In-area bl tr p).0 (mem-In p (area bl tr) h))
  | inr h ↦ elim (Bool-cases (covers bl tr p)) [
    | inl k ↦ absurd (cc (h, In-mem p (area bl tr) ((In-area bl tr p).1 k)))
    | inr k ↦ h ∙ sym k
  ]
]

if_same : (b : Bool) (v : Option ℤ) → (if b && true then v else v) ≡ v
if_same b v = ground arith

if_false : (b : Bool) (v w : Option ℤ) → (if b && false then v else w) ≡ w
if_false b v w = ground arith

-- A visit whose callback puts the same thing at each position, or nothing.
module _ (cb : Pos → Map Pos ℤ → Map Pos ℤ) (v : Option ℤ) (check : Pos → Bool)
    (self : (p : Pos) (eids : Map Pos ℤ) → cb p eids p ≡ v)
    (other : (p q : Pos) (eids : Map Pos ℤ) → q ≢ p → cb p eids q ≡ eids q) where
  visit_one :
      (p q : Pos) (seen : Bool) (eids : Map Pos ℤ)
      → (if seen && check q then v else (if check p then cb p eids else eids) q)
        ≡ (if (q ==ₚ p || seen) && check q then v else eids q)
  visit_one p q seen eids = elim (Bool-cases (q ==ₚ p)) [
    | inl h ↦
        let e : q ≡ p = ==ₚ-eq q p h in
        elim (Bool-cases (check p)) [
          | inl c ↦ rw (h, ap check e, c, ap (cb p eids) e, self p eids) (if_same seen v)
          | inr c ↦ rw (h, ap check e, c) (if_false seen v (eids q))
        ]
    | inr h ↦ elim (Bool-cases (check p)) [
      | inl c ↦ rw (h, c, other p q eids (==ₚ-ne q p h)) refl
      | inr c ↦ rw (h, c) refl
    ]
  ]

  visit_lem :
      (ps : List Pos) (eids : Map Pos ℤ) (q : Pos)
      → visit cb check ps eids q ≡ (if mem q ps && check q then v else eids q)
  unfolding visit mem
  visit_lem [] eids q = refl
  visit_lem (p ∷ ps) eids q =
      visit_lem ps (if check p then cb p eids else eids) q ∙ visit_one p q (mem q ps) eids

-- The positions of a map in the rectangle.
abbrev pub within : Land → Entity → Pos → Bool
within m e q = covers e.bl e.tr q && check_pos m q

-- The map with an entity, and without it.
unfoldable with_entity : Entity → Land → Land
unfolding visit area
with_entity e m = record m {
  entity = Map.assign int_order e.id e m.entity;
  pos_eid = visit (λ p. Map.assign pos_order p e.id) (check_pos m) (area e.bl e.tr) m.pos_eid;
}

unfoldable without_entity : Entity → Land → Land
unfolding visit area
without_entity e m = record m {
  entity = Map.erase int_order e.id m.entity;
  pos_eid = visit (Map.erase pos_order) (check_pos m) (area e.bl e.tr) m.pos_eid;
}

add_entity_lem :
    (e : Entity) (m : Land) → endless e.bl e.tr ≡ false → add_entity e m ≡ some (with_entity e m)
unfolding add_entity traversal_area with_entity check_pos
add_entity_lem e m h = rw h refl

del_entity_lem :
    (e : Entity) (m : Land)
    → m.entity e.id ≡ some e
    → endless e.bl e.tr ≡ false
    → del_entity e.id m ≡ some (without_entity e m)
unfolding del_entity traversal_area without_entity check_pos
del_entity_lem e m there h = rw (del_entity, there) (rw h refl)

with-pos_eid :
    (e : Entity) (m : Land) (q : Pos)
    → (with_entity e m).pos_eid q ≡ (if within m e q then some e.id else m.pos_eid q)
unfolding with_entity
with-pos_eid e m q =
    visit_lem (λ p. Map.assign pos_order p e.id) (some e.id) (check_pos m)
      (λ p eids. Map.assign_self pos_order p e.id eids)
      (λ p q eids. Map.assign_other pos_order p q e.id eids) (area e.bl e.tr) m.pos_eid q
    ∙ ap (λ b. if b && check_pos m q then some e.id else m.pos_eid q) (mem-area e.bl e.tr q)

without-pos_eid :
    (e : Entity) (m : Land) (q : Pos)
    → (without_entity e m).pos_eid q ≡ (if within m e q then none else m.pos_eid q)
unfolding without_entity
without-pos_eid e m q =
    visit_lem (Map.erase pos_order) none (check_pos m) (λ p eids. Map.erase_self pos_order p eids)
      (λ p q eids. Map.erase_other pos_order p q eids) (area e.bl e.tr) m.pos_eid q
    ∙ ap (λ b. if b && check_pos m q then none else m.pos_eid q) (mem-area e.bl e.tr q)

if_twice :
    (b : Bool) (v w : Option ℤ) → (if b then none else if b then v else w) ≡ (if b then none else w)
if_twice b v w = ground arith

-- Let the loops over the rectangle of an entity end. Then `add_entity` ends, and the positions of the
-- map in the rectangle have the id of the entity, whatever they had, the others what they had. A
-- `del_entity` of it then ends too and takes the entity away; the positions of the map in the
-- rectangle have no id any more, whatever they had before `add_entity`, the others what they had.
pub del_entity-add_entity :
    (e : Entity) (m : Land) (q : Pos)
    → endless e.bl e.tr ≡ false
    → (added : Land) × ((deleted : Land) × ((add_entity e m ≡ some added)
          × (added.entity e.id ≡ some e)
          × (added.pos_eid q ≡ (if within m e q then some e.id else m.pos_eid q))
          × (del_entity e.id added ≡ some deleted)
          × (deleted.entity e.id ≡ none)
          × (deleted.pos_eid q ≡ (if within m e q then none else m.pos_eid q))))
unfolding with_entity without_entity check_pos
del_entity-add_entity e m q h =
    let there : (with_entity e m).entity e.id ≡ some e =
      Map.assign_self int_order e.id e m.entity in
    (
      with_entity e m,
      (
        without_entity e (with_entity e m),
        (
          add_entity_lem e m h,
          there,
          with-pos_eid e m q,
          del_entity_lem e (with_entity e m) there h,
          Map.erase_self int_order e.id (Map.assign int_order e.id e m.entity),
          without-pos_eid e (with_entity e m) q
              ∙ ap (λ (v : Option ℤ). if within m e q then none else v) (with-pos_eid e m q)
              ∙ if_twice (within m e q) (some e.id) (m.pos_eid q),
        ),
      ),
    )
