-- ===== src/Slg/Moves.antt =====
-- What the loops over the positions of an entity do.
use luatest.Prelude.{
  ◌≡◌, ◌∙◌, ap, refl, inl, inr, List, [], ◌∷◌, Option, none, some, Bool, true, false, ◌&&◌, ◌||◌,
  if◌then◌else◌, Bool-cases, arith,
}
use luatest.Prelude.Int.{ℤ}
use luatest.Std.Map
use luatest.Std.Set.{In}
use luatest.Grid.{Pos, pos_order, mem, ◌==ₚ◌, ==ₚ-eq, ==ₚ-ne}
use luatest.Slg.{World, checkpos, isblock, any_block, put_block, setblock, occupy, vacate}

-- What the loops leave as it is.
pub record Kept (w w' : World) : Type 0 where
  pub len : w'.len ≡ w.len
  pub wid : w'.wid ≡ w.wid
  pub entity : w'.entity ≡ w.entity
  pub view : w'.view ≡ w.view
  pub troop : w'.troop ≡ w.troop

Kept-trans : (u v w : World) → Kept u v → Kept v w → Kept u w
Kept-trans u v w h k = record {
  len = k.len ∙ h.len;
  wid = k.wid ∙ h.wid;
  entity = k.entity ∙ h.entity;
  view = k.view ∙ h.view;
  troop = k.troop ∙ h.troop;
}

pub setblock-Kept : (p : Pos) (v : Bool) (w : World) → Kept w (setblock p v w)
unfolding setblock
setblock-Kept p v w = elim (Bool-cases (checkpos w p)) [
  | inl h ↦ rw h (record { len = refl; wid = refl; entity = refl; view = refl; troop = refl })
  | inr h ↦ rw h (record { len = refl; wid = refl; entity = refl; view = refl; troop = refl })
]

pub pos_entity-setblock :
    (p : Pos) (v : Bool) (w : World) → (setblock p v w).pos_entity ≡ w.pos_entity
unfolding setblock
pos_entity-setblock p v w = elim (Bool-cases (checkpos w p)) [
  | inl h ↦ rw h refl
  | inr h ↦ rw h refl
]

checkpos-Kept : (w w' : World) (p : Pos) → Kept w w' → checkpos w' p ≡ checkpos w p
unfolding checkpos
checkpos-Kept w w' p k = rw (k.len, k.wid) refl

if_and : (b v x : Bool) → x ≡ (if b && false then v else x)
if_and b v x = ground arith

pub isblock-setblock_at :
    (p q : Pos) (v : Bool) (w : World)
    → isblock (setblock p v w) q ≡ (if q ==ₚ p && checkpos w p then v else isblock w q)
unfolding setblock isblock put_block checkpos
isblock-setblock_at p q v w = elim (Bool-cases (checkpos w p)) [
  | inr out ↦ rw out (if_and (q ==ₚ p) v (isblock w q))
  | inl here ↦ elim (Bool-cases (q ==ₚ p)) [
    | inl same ↦ rw (here, same, ap (checkpos w) (==ₚ-eq q p same), here) refl
    | inr other ↦ rw (here, other) refl
  ]
]

pub any_block-none :
    (w : World) (ps : List Pos) (p : Pos) → any_block w ps ≡ false → In p ps → isblock w p ≡ false
unfolding any_block
any_block-none w [] p h m = absurd m
any_block-none w (q ∷ qs) p h (inl e) = ground (arith, h, ap (isblock w) e)
any_block-none w (q ∷ qs) p h (inr m) = any_block-none w qs p (ground (arith, h)) m

pub occupy-Kept : (id : ℤ) (ps : List Pos) (w : World) → Kept w (occupy id ps w)
unfolding occupy
occupy-Kept id [] w = record { len = refl; wid = refl; entity = refl; view = refl; troop = refl }
occupy-Kept id (p ∷ ps) w =
    let w1 : World = record w { pos_entity = Map.assign pos_order p id w.pos_entity } in
    let k = setblock-Kept p true w1 in
    Kept-trans w (setblock p true w1) (occupy id ps (setblock p true w1))
      (record { len = k.len; wid = k.wid; entity = k.entity; view = k.view; troop = k.troop })
      (occupy-Kept id ps (setblock p true w1))

pub vacate-Kept : (ps : List Pos) (w : World) → Kept w (vacate ps w)
unfolding vacate
vacate-Kept [] w = record { len = refl; wid = refl; entity = refl; view = refl; troop = refl }
vacate-Kept (p ∷ ps) w =
    let w1 : World = record w { pos_entity = Map.erase pos_order p w.pos_entity } in
    let k = setblock-Kept p false w1 in
    Kept-trans w (setblock p false w1) (vacate ps (setblock p false w1))
      (record { len = k.len; wid = k.wid; entity = k.entity; view = k.view; troop = k.troop })
      (vacate-Kept ps (setblock p false w1))

-- After one position and then the others, against all of them.
if_next :
    {A : Type 0} (here seen : Bool) (a b : A)
    → (if seen then a else if here then a else b) ≡ (if here || seen then a else b)
if_next here seen a b = ground arith

assign_at :
    (p q : Pos) (id : ℤ) (w : World)
    → Map.assign pos_order p id w.pos_entity q ≡ (if q ==ₚ p then some id else w.pos_entity q)
assign_at p q id w = elim (Bool-cases (q ==ₚ p)) [
  | inl h ↦ rw h (
      ap (Map.assign pos_order p id w.pos_entity) (==ₚ-eq q p h)
      ∙ Map.assign_self pos_order p id w.pos_entity)
  | inr h ↦ rw h (Map.assign_other pos_order p q id w.pos_entity (==ₚ-ne q p h))
]

erase_at_pos :
    (p q : Pos) (w : World)
    → Map.erase pos_order p w.pos_entity q ≡ (if q ==ₚ p then none else w.pos_entity q)
erase_at_pos p q w = elim (Bool-cases (q ==ₚ p)) [
  | inl h ↦ rw h (
      ap (Map.erase pos_order p w.pos_entity) (==ₚ-eq q p h)
      ∙ Map.erase_self pos_order p w.pos_entity)
  | inr h ↦ rw h (Map.erase_other pos_order p q w.pos_entity (==ₚ-ne q p h))
]

pub pos_entity-occupy :
    (id : ℤ) (ps : List Pos) (w : World) (q : Pos)
    → (occupy id ps w).pos_entity q ≡ (if mem q ps then some id else w.pos_entity q)
unfolding occupy mem
pos_entity-occupy id [] w q = refl
pos_entity-occupy id (p ∷ ps) w q =
    let w1 : World = record w { pos_entity = Map.assign pos_order p id w.pos_entity } in
    pos_entity-occupy id ps (setblock p true w1) q
    ∙ ap (λ (o : Option ℤ). if mem q ps then some id else o)
        (ap (λ (m : Map.Map Pos ℤ). m q) (pos_entity-setblock p true w1) ∙ assign_at p q id w)
    ∙ if_next (q ==ₚ p) (mem q ps) (some id) (w.pos_entity q)

pub pos_entity-vacate :
    (ps : List Pos) (w : World) (q : Pos)
    → (vacate ps w).pos_entity q ≡ (if mem q ps then none else w.pos_entity q)
unfolding vacate mem
pos_entity-vacate [] w q = refl
pos_entity-vacate (p ∷ ps) w q =
    let w1 : World = record w { pos_entity = Map.erase pos_order p w.pos_entity } in
    pos_entity-vacate ps (setblock p false w1) q
    ∙ ap (λ (o : Option ℤ). if mem q ps then none else o)
        (ap (λ (m : Map.Map Pos ℤ). m q) (pos_entity-setblock p false w1) ∙ erase_at_pos p q w)
    ∙ if_next (q ==ₚ p) (mem q ps) none (w.pos_entity q)

-- A position outside the world is blocked anyway.
blocked_anyway :
    (p q : Pos) (w : World)
    → (if q ==ₚ p && checkpos w p then true else isblock w q)
      ≡ (if q ==ₚ p then true else isblock w q)
unfolding isblock
blocked_anyway p q w = elim (Bool-cases (q ==ₚ p)) [
  | inr h ↦ rw h refl
  | inl h ↦ elim (Bool-cases (checkpos w p)) [
    | inl c ↦ rw (h, c) refl
    | inr c ↦ rw (h, c, ap (checkpos w) (==ₚ-eq q p h), c) refl
  ]
]

pub isblock-occupy :
    (id : ℤ) (ps : List Pos) (w : World) (q : Pos)
    → isblock (occupy id ps w) q ≡ (if mem q ps then true else isblock w q)
unfolding occupy mem isblock checkpos
isblock-occupy id [] w q = refl
isblock-occupy id (p ∷ ps) w q =
    let w1 : World = record w { pos_entity = Map.assign pos_order p id w.pos_entity } in
    isblock-occupy id ps (setblock p true w1) q
    ∙ ap (λ (b : Bool). if mem q ps then true else b)
        (isblock-setblock_at p q true w1 ∙ blocked_anyway p q w1)
    ∙ if_next (q ==ₚ p) (mem q ps) true (isblock w q)

-- A position that is not among those given up keeps its block.
pub isblock-vacate :
    (ps : List Pos) (w : World) (q : Pos) → mem q ps ≡ false → isblock (vacate ps w) q ≡ isblock w q
unfolding vacate mem isblock checkpos
isblock-vacate [] w q h = refl
isblock-vacate (p ∷ ps) w q h =
    let w1 : World = record w { pos_entity = Map.erase pos_order p w.pos_entity } in
    let other : (q ==ₚ p) ≡ false = ground (arith, h) in
    isblock-vacate ps (setblock p false w1) q (ground (arith, h))
    ∙ isblock-setblock_at p q false w1
    ∙ ap (λ (b : Bool). if b && checkpos w1 p then false else isblock w1 q) other
