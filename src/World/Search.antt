-- ===== src/World/Search.antt =====
-- mmoccskill/cc/aoi.cc: `search`, and mmoccskill/cc/skill.h, mmoccskill/cc/skill.cc and
-- mmoccskill/cc/skillfunc.cc: a skill, which uses it.
use luatest.Prelude.{
  ℕ, zero, suc, ◌-◌, List, [], ◌∷◌, Option, none, some, Bool, false, not, ◌&&◌, if◌then◌else◌,
  length, leb,
}
use luatest.Prelude.Int.{ℤ, pos, pos_part, ◌+ℤ◌, leb_ℤ, eqb_ℤ}
use luatest.Std.Order.{int_order}
use luatest.Std.Map
use luatest.Std.Map.{Map}
use luatest.Std.Reals.{Reals}
use luatest.Range.{Vec, circle, sector, rectangle}
use luatest.Mmo.Search.{take}
use luatest.World.{Actor, World, aoi_ids}

-- The struct `Search`.
pub record Query (A : Type 0) : Type 0 where
  pub id : ℤ
  pub num : ℤ
  pub samecamp : Bool
  pub rtp : ℤ
  pub p1 : A
  pub p2 : A

pub record Dis (A : Type 0) : Type 0 where
  pub id : ℤ
  pub dis : A

unfoldable pub ids_of : {A : Type 0} → List (Dis A) → List ℤ
ids_of [] = []
ids_of (v ∷ vs) = v.id ∷ ids_of vs

pub record Skillcfg (A : Type 0) : Type 0 where
  pub cd : ℤ
  pub num : ℤ
  pub samecamp : Bool
  pub rtp : ℤ
  pub p1 : A
  pub p2 : A
  pub param : List A

-- `Param::operator[]`, with the value for an index out of range.
unfoldable pub param_at : {A : Type 0} → A → List A → ℕ → A
param_at z params zero = z
param_at z [] (suc idx) = z
param_at z (v ∷ params) (suc zero) = v
param_at z (v ∷ params) (suc (suc idx)) = param_at z params (suc idx)

module _ (R : Reals) where
  open R use {Real, plus, minus, times, of_int}

  unfoldable pub range_func : ℤ → Real → Real → Option (Vec Real → Vec Real → Vec Real → Bool)
  range_func rtp p1 p2 =
      if eqb_ℤ rtp (pos 1)
      then some (λ p d op. circle R p p1 op)
      else if eqb_ℤ rtp (pos 2)
      then some (λ p d op. sector R p d p1 p2 op)
      else if eqb_ℤ rtp (pos 3)
      then some (λ p d op. rectangle R p d p1 p2 op)
      else none

  unfoldable pub distance : Actor Real → Actor Real → Real
  distance actor oactor =
      let dx = minus oactor.x actor.x in
      let dy = minus oactor.y actor.y in plus (times dx dx) (times dy dy)

  -- The tests on another actor.
  unfoldable pub is_hit :
      (Vec Real → Vec Real → Vec Real → Bool) → Bool → Actor Real → Actor Real → Bool
  is_hit rangefunc samecamp actor oactor =
      if samecamp && not (eqb_ℤ actor.camp oactor.camp)
      then false
      else if not samecamp && eqb_ℤ actor.camp oactor.camp
      then false
      else rangefunc (record { x = actor.x; y = actor.y })
          (record { x = of_int actor.dx; y = of_int actor.dy })
          (record { x = oactor.x; y = oactor.y })

  -- The loop that fills `dis`.
  unfoldable pub hits : (Actor Real → Bool) → Actor Real → World Real → List ℤ → List (Dis Real)
  unfolding distance
  hits hit actor w [] = []
  hits hit actor w (oid ∷ ids) =
      let rest = hits hit actor w ids in
      elim (w.actor oid) [
        | none ↦ rest
        | some oactor ↦
            if hit oactor then record { id = oid; dis = distance actor oactor } ∷ rest else rest
      ]

  -- `attrs[k]`, which makes an entry of 0 where there is none.
  unfoldable pub attr : ℤ → Map ℤ Real → Real × Map ℤ Real
  attr k attrs = elim (attrs k) [
    | none ↦ (of_int (pos 0), Map.assign int_order k (of_int (pos 0)) attrs)
    | some v ↦ (v, attrs)
  ]

  -- `Skillfunc::fattr`, with the attributes after it.
  unfoldable pub fattr : ℤ → Map ℤ Real → Real × Map ℤ Real
  unfolding attr
  fattr k attrs =
      let (base, attrs1) = attr k attrs in
      let (add, attrs2) = attr (k +ℤ pos 1) attrs1 in
      let (per, attrs3) = attr (k +ℤ pos 2) attrs2 in
      (times (plus base add) (plus (of_int (pos 1)) per), attrs3)

  -- The Lua function `skillcfg`: `insert` keeps an entry that is there. `cfg` is the variable that the
  -- source declares without giving its numbers a value; the table of the call is not read.
  unfoldable pub skillcfg : Skillcfg Real → ℤ → Map ℤ (Skillcfg Real) → Map ℤ (Skillcfg Real)
  skillcfg cfg skillid cfgs = elim (cfgs skillid) [
    | none ↦ Map.assign int_order skillid cfg cfgs
    | some old ↦ cfgs
  ]

  -- `nth_element` of the C++ library: the list with the place where the nth one goes.
  module _ (nth_element : ℕ → List (Dis Real) → List (Dis Real)) where
    -- What `ret` gets: all of `dis`, or the first ones after `nth_element`.
    unfoldable pub pick : ℕ → List (Dis Real) → List ℤ
    unfolding ids_of take
    pick num dis =
        if leb (length dis) num then ids_of dis else take num (ids_of (nth_element (num - 1) dis))

    unfoldable pub search : Query Real → World Real → List ℤ
    unfolding range_func is_hit hits pick aoi_ids
    search info w = if leb_ℤ info.num (pos 0) then [] else elim (w.actor info.id) [
      | none ↦ []
      | some actor ↦ elim (range_func info.rtp info.p1 info.p2) [
        | none ↦ []
        | some rangefunc ↦
            pick (pos_part info.num)
              (hits (is_hit rangefunc info.samecamp actor) actor w (aoi_ids R info.id w))
      ]
    ]

    -- The loop over the ids that `search` lists: `s100` damages each by the first parameter.
    unfoldable pub damages : Skillcfg Real → World Real → List ℤ → List (ℤ × Real)
    unfolding param_at
    damages cfg w [] = []
    damages cfg w (oid ∷ ids) =
        let rest = damages cfg w ids in
        elim (w.actor oid) [
          | none ↦ rest
          | some oactor ↦ (oactor.id, param_at (of_int (pos 0)) cfg.param 1) ∷ rest
        ]

    -- `Skill::useskill`, on `skillcfg_`, with what `damage` prints of each target: its id and the
    -- value. `func_` has the one function `s100` of `init_skillfunc`, at the key 100.
    unfoldable pub useskill : Map ℤ (Skillcfg Real) → ℤ → ℤ → World Real → List (ℤ × Real)
    unfolding search damages
    useskill cfgs id skillid w = elim (w.actor id) [
      | none ↦ []
      | some actor ↦ elim (cfgs skillid) [
        | none ↦ []
        | some cfg ↦
            if eqb_ℤ skillid (pos 100)
            then damages cfg w (
                search
                  (record {
                    id = id;
                    num = cfg.num;
                    samecamp = cfg.samecamp;
                    rtp = cfg.rtp;
                    p1 = cfg.p1;
                    p2 = cfg.p2;
                  })
                  w)
            else []
      ]
    ]
