-- ===== src/Slg/Entities.antt =====
-- Where the entities of a world stand, and that adding and deleting one keeps it so.
use luatest.Prelude.{
  ◌≡◌, ◌∙◌, sym, ap, inl, inr, none, some, Bool, true, false, if◌then◌else◌, Bool-cases,
  Option-cases,
}
use mathlib.Core.Path.{subst}
use luatest.Prelude.Int.{ℤ}
use luatest.Std.Order.{int_order}
use luatest.Std.Map
use luatest.Grid.{Pos, mem, mem-In}
use luatest.Cells.Laws.{some_inj}
use luatest.Land.{area, endless}
use luatest.Land.Covers.{covers, mem-area}
use luatest.Slg.{
  World, Entity, create, checkpos, isblock, any_block, haveblock, occupy, vacate, addentity,
  delentity,
}
use luatest.Slg.Moves.{
  any_block-none, occupy-Kept, vacate-Kept, pos_entity-occupy, pos_entity-vacate, isblock-occupy,
  isblock-vacate,
}

-- A position has the id of an entity exactly where the entity's rectangle is, and is blocked there.
pub record IsGround (w : World) : Type 0 where
  pub held :
      (p : Pos) (id : ℤ) (e : Entity)
      → w.entity id ≡ some e
      → covers e.bl e.tr p ≡ true
      → w.pos_entity p ≡ some id
  pub holder :
      (p : Pos) (id : ℤ)
      → w.pos_entity p ≡ some id
      → (e : Entity) × ((w.entity id ≡ some e) × (covers e.bl e.tr p ≡ true))
  pub blocked : (p : Pos) (id : ℤ) → w.pos_entity p ≡ some id → isblock w p ≡ true

pub create-IsGround : (len wid : ℤ) → IsGround (create len wid)
unfolding create
create-IsGround len wid = record {
  held = λ p id e h. absurd (cc h);
  holder = λ p id h. absurd (cc h);
  blocked = λ p id h. absurd (cc h);
}

-- The position of a map of an entity in the list of the positions.
covered : (e : Entity) (p : Pos) → covers e.bl e.tr p ≡ true → mem p (area e.bl e.tr) ≡ true
covered e p h = mem-area e.bl e.tr p ∙ h

occupied : ℤ → Entity → World → World
occupied id e w =
    occupy id (area e.bl e.tr) (record w { entity = Map.assign int_order id e w.entity })

module _ (id : ℤ) (e : Entity) (w : World) where
  entity_occupied : (occupied id e w).entity ≡ Map.assign int_order id e w.entity
  unfolding occupied
  entity_occupied =
      (occupy-Kept id (area e.bl e.tr)
        (record w { entity = Map.assign int_order id e w.entity })).entity

  pos_occupied :
      (p : Pos)
      → (occupied id e w).pos_entity p
        ≡ (if mem p (area e.bl e.tr) then some id else w.pos_entity p)
  unfolding occupied
  pos_occupied p =
      pos_entity-occupy id (area e.bl e.tr)
        (record w { entity = Map.assign int_order id e w.entity }) p

  block_occupied :
      (p : Pos)
      → isblock (occupied id e w) p ≡ (if mem p (area e.bl e.tr) then true else isblock w p)
  unfolding occupied isblock checkpos
  block_occupied p =
      isblock-occupy id (area e.bl e.tr) (record w { entity = Map.assign int_order id e w.entity })
        p

  occupied-IsGround :
      w.entity id ≡ none
      → any_block w (area e.bl e.tr) ≡ false
      → IsGround w
      → IsGround (occupied id e w)
  occupied-IsGround new free g = record {
    held = λ p z f h k.
        elim (Map.assign-some int_order id z e f w.entity
          (sym (ap (λ (m : Map.Map ℤ Entity). m z) entity_occupied) ∙ h)) [
            | inl (same, there) ↦
                pos_occupied p
                ∙ ap (λ (b : Bool). if b then some id else w.pos_entity p)
                    (covered e p (ap (λ (x : Entity). covers x.bl x.tr p) there ∙ k))
                ∙ ap some (sym same)
            | inr (other, old) ↦
                let at : w.pos_entity p ≡ some z = g.held p z f old k in
                elim (Bool-cases (mem p (area e.bl e.tr))) [
                  | inl inside ↦ absurd (
                      cc (
                        g.blocked p z at,
                        any_block-none w (area e.bl e.tr) p free (mem-In p (area e.bl e.tr) inside),
                      ))
                  | inr outside ↦
                      pos_occupied p
                      ∙ ap (λ (b : Bool). if b then some id else w.pos_entity p) outside
                      ∙ at
                ]
          ];
    holder = λ p z h. elim (Bool-cases (mem p (area e.bl e.tr))) [
      | inl inside ↦
          let same : id ≡ z = some_inj (
            sym (pos_occupied p ∙ ap (λ (b : Bool). if b then some id else w.pos_entity p) inside)
            ∙ h) in
          (
            e,
            (
              ap (λ (m : Map.Map ℤ Entity). m z) entity_occupied
                  ∙ ap (Map.assign int_order id e w.entity) (sym same)
                  ∙ Map.assign_self int_order id e w.entity,
              sym (mem-area e.bl e.tr p) ∙ inside,
            ),
          )
      | inr outside ↦
          let old : w.pos_entity p ≡ some z =
            sym (pos_occupied p ∙ ap (λ (b : Bool). if b then some id else w.pos_entity p) outside)
            ∙ h in
          let (f, (there, k)) = g.holder p z old in
          (
            f,
            (
              ap (λ (m : Map.Map ℤ Entity). m z) entity_occupied
                  ∙ Map.assign_other int_order id z e w.entity (λ q. cc (there, ap w.entity q, new))
                  ∙ there,
              k,
            ),
          )
    ];
    blocked = λ p z h. elim (Bool-cases (mem p (area e.bl e.tr))) [
      | inl inside ↦ block_occupied p ∙ ap (λ (b : Bool). if b then true else isblock w p) inside
      | inr outside ↦
          block_occupied p
          ∙ ap (λ (b : Bool). if b then true else isblock w p) outside
          ∙ g.blocked p z (
              sym
                (pos_occupied p ∙ ap (λ (b : Bool). if b then some id else w.pos_entity p) outside)
              ∙ h)
    ];
  }

vacated : ℤ → Entity → World → World
vacated id e w =
    let w' = vacate (area e.bl e.tr) w in record w' { entity = Map.erase int_order id w'.entity }

module _ (id : ℤ) (e : Entity) (w : World) where
  entity_vacated : (vacated id e w).entity ≡ Map.erase int_order id w.entity
  unfolding vacated
  entity_vacated = ap (Map.erase int_order id) (vacate-Kept (area e.bl e.tr) w).entity

  pos_vacated :
      (p : Pos)
      → (vacated id e w).pos_entity p ≡ (if mem p (area e.bl e.tr) then none else w.pos_entity p)
  unfolding vacated
  pos_vacated p = pos_entity-vacate (area e.bl e.tr) w p

  -- A position that has an id after it had it before, and is not the entity's.
  pos_left :
      (p : Pos) (z : ℤ)
      → (vacated id e w).pos_entity p ≡ some z
      → (mem p (area e.bl e.tr) ≡ false) × (w.pos_entity p ≡ some z)
  pos_left p z h = elim (Bool-cases (mem p (area e.bl e.tr))) [
    | inl inside ↦
        absurd
          (cc (h, pos_vacated p ∙ ap (λ (b : Bool). if b then none else w.pos_entity p) inside))
    | inr outside ↦ (
      outside,
      sym (pos_vacated p ∙ ap (λ (b : Bool). if b then none else w.pos_entity p) outside) ∙ h,
    )
  ]

  vacated-IsGround : w.entity id ≡ some e → IsGround w → IsGround (vacated id e w)
  unfolding vacated isblock checkpos
  vacated-IsGround there g = record {
    held = λ p z f h k.
        let (other, old) =
          Map.erase-some int_order id z w.entity f
            (sym (ap (λ (m : Map.Map ℤ Entity). m z) entity_vacated) ∙ h) in
        let at : w.pos_entity p ≡ some z = g.held p z f old k in
        elim (Bool-cases (mem p (area e.bl e.tr))) [
          | inl inside ↦ absurd (
              other (some_inj (sym at ∙ g.held p id e there (sym (mem-area e.bl e.tr p) ∙ inside))))
          | inr outside ↦
              pos_vacated p ∙ ap (λ (b : Bool). if b then none else w.pos_entity p) outside ∙ at
        ];
    holder = λ p z h.
        let (outside, old) = pos_left p z h in
        let (f, (stands, k)) = g.holder p z old in
        (
          f,
          (
            ap (λ (m : Map.Map ℤ Entity). m z) entity_vacated
                ∙ Map.erase_other int_order id z w.entity (λ q. cc (
                  outside,
                  mem-area e.bl e.tr p,
                  ap (λ (x : Entity). covers x.bl x.tr p)
                      (some_inj (sym stands ∙ ap w.entity q ∙ there)),
                  k,
                ))
                ∙ stands,
            k,
          ),
        );
    blocked = λ p z h.
        let (outside, old) = pos_left p z h in
        isblock-vacate (area e.bl e.tr) w p outside ∙ g.blocked p z old;
  }

pub addentity-IsGround :
    (id : ℤ) (e : Entity) (w u : World) → addentity id e w ≡ some u → IsGround w → IsGround u
unfolding addentity haveblock occupied
addentity-IsGround id e w u h g = elim (Option-cases (w.entity id)) [
  | inr (old, there) ↦ subst IsGround (some_inj (rw (addentity, there) at h)) g
  | inl new ↦ elim (Bool-cases (any_block w (area e.bl e.tr))) [
    | inl taken ↦ subst IsGround (some_inj (rw (addentity, new, taken) at h)) g
    | inr free ↦ elim (Bool-cases (endless e.bl e.tr)) [
      | inl ever ↦ absurd (cc (rw (addentity, new, free, ever) at h))
      | inr ends ↦
          subst IsGround (some_inj (rw (addentity, new, free, ends) at h))
            (occupied-IsGround id e w new free g)
    ]
  ]
]

pub delentity-IsGround : (id : ℤ) (w u : World) → delentity id w ≡ some u → IsGround w → IsGround u
unfolding delentity vacated
delentity-IsGround id w u h g = elim (Option-cases (w.entity id)) [
  | inl gone ↦ subst IsGround (some_inj (rw (delentity, gone) at h)) g
  | inr (e, there) ↦ elim (Bool-cases (endless e.bl e.tr)) [
    | inl ever ↦ absurd (cc (rw (delentity, there, ever) at h))
    | inr ends ↦
        subst IsGround (some_inj (rw (delentity, there, ends) at h))
          (vacated-IsGround id e w there g)
  ]
]
