-- ===== src/Slg/Ground.antt =====
-- Where the entities stand in the worlds that calls lead to.
use luatest.Prelude.{
  ◌≡◌, ◌∙◌, sym, ap, inl, inr, Option, none, some, Bool, true, false, if◌then◌else◌, Bool-cases,
  arith, ◌&&◌,
}
use luatest.Prelude.Int.{ℤ}
use luatest.Std.Map
use luatest.Grid.{Pos, ◌==ₚ◌, ==ₚ-eq}
use luatest.Slg.{
  World, Entity, Troop, create, checkpos, isblock, setblock, addentity, delentity, settroop,
  setview, troop_view,
}
use luatest.Slg.Moves.{setblock-Kept, pos_entity-setblock, isblock-setblock_at}
use luatest.Slg.Entities.{IsGround, create-IsGround, addentity-IsGround, delentity-IsGround}

-- The calls on a world, as long as `setblock` frees no position that an entity stands on.
pub data Reached : World → Type 0 where
  created : (len wid : ℤ) → Reached (create len wid)
  added : {w u : World} (id : ℤ) (e : Entity) → Reached w → addentity id e w ≡ some u → Reached u
  deleted : {w u : World} (id : ℤ) → Reached w → delentity id w ≡ some u → Reached u
  closed : {w : World} (p : Pos) → Reached w → Reached (setblock p true w)
  opened : {w : World} (p : Pos) → Reached w → w.pos_entity p ≡ none → Reached (setblock p false w)
  trooped : {w : World} (id : ℤ) (t : Option Troop) → Reached w → Reached (settroop id t w)
  viewed : {w : World} (id : ℤ) (v : Option (Pos × Pos)) → Reached w → Reached (setview id v w)
  reported : {w : World} → Reached w → Reached ((troop_view w).0)

setblock-IsGround :
    (p : Pos) (v : Bool) (w : World)
    → ((q : Pos) (id : ℤ) → w.pos_entity q ≡ some id → isblock (setblock p v w) q ≡ true)
    → IsGround w
    → IsGround (setblock p v w)
setblock-IsGround p v w b g =
    let same = pos_entity-setblock p v w in
    let kept = (setblock-Kept p v w).entity in
    record {
      held = λ q id e h k.
          ap (λ (m : Map.Map Pos ℤ). m q) same
          ∙ g.held q id e (sym (ap (λ (m : Map.Map ℤ Entity). m id) kept) ∙ h) k;
      holder = λ q id h.
          let (e, (there, k)) = g.holder q id (sym (ap (λ (m : Map.Map Pos ℤ). m q) same) ∙ h) in
          (e, (ap (λ (m : Map.Map ℤ Entity). m id) kept ∙ there, k));
      blocked = λ q id h. b q id (sym (ap (λ (m : Map.Map Pos ℤ). m q) same) ∙ h);
    }

if_true : (b x : Bool) → x ≡ true → (if b then true else x) ≡ true
if_true b x h = ground (arith, h)

closed_stays : (p q : Pos) (w : World) → isblock w q ≡ true → isblock (setblock p true w) q ≡ true
closed_stays p q w h =
    isblock-setblock_at p q true w ∙ if_true (q ==ₚ p && checkpos w p) (isblock w q) h

opened_stays :
    (p q : Pos) (id : ℤ) (w : World)
    → w.pos_entity p ≡ none
    → w.pos_entity q ≡ some id
    → isblock w q ≡ true
    → isblock (setblock p false w) q ≡ true
opened_stays p q id w free h b = elim (Bool-cases (q ==ₚ p)) [
  | inl same ↦ absurd (cc (free, h, ap w.pos_entity (==ₚ-eq q p same)))
  | inr other ↦
      isblock-setblock_at p q false w
      ∙ ap (λ (c : Bool). if c && checkpos w p then false else isblock w q) other
      ∙ b
]

-- In every world that calls lead to, where `setblock` frees no position that has the id of an entity,
-- a position has the id of an entity exactly if it lies in the rectangle of that entity, so that no two
-- entities overlap, and it is blocked then.
pub Reached-IsGround : (w : World) → Reached w → IsGround w
unfolding isblock checkpos settroop setview troop_view
Reached-IsGround _ (created len wid) = create-IsGround len wid
Reached-IsGround u (added {w} id e r h) = addentity-IsGround id e w u h (Reached-IsGround w r)
Reached-IsGround u (deleted {w} id r h) = delentity-IsGround id w u h (Reached-IsGround w r)
Reached-IsGround _ (closed {w} p r) =
    let g = Reached-IsGround w r in
    setblock-IsGround p true w (λ q id h. closed_stays p q w (g.blocked q id h)) g
Reached-IsGround _ (opened {w} p r free) =
    let g = Reached-IsGround w r in
    setblock-IsGround p false w (λ q id h. opened_stays p q id w free h (g.blocked q id h)) g
Reached-IsGround _ (trooped {w} id none r) =
    let g = Reached-IsGround w r in record { held = g.held; holder = g.holder; blocked = g.blocked }
Reached-IsGround _ (trooped {w} id (some t) r) =
    let g = Reached-IsGround w r in record { held = g.held; holder = g.holder; blocked = g.blocked }
Reached-IsGround _ (viewed {w} id none r) =
    let g = Reached-IsGround w r in record { held = g.held; holder = g.holder; blocked = g.blocked }
Reached-IsGround _ (viewed {w} id (some v) r) =
    let g = Reached-IsGround w r in record { held = g.held; holder = g.holder; blocked = g.blocked }
Reached-IsGround _ (reported {w} r) =
    let g = Reached-IsGround w r in record { held = g.held; holder = g.holder; blocked = g.blocked }
