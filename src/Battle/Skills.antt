-- ===== src/Battle/Skills.antt =====
-- battlecc/cc/skill.cc and battlecc/cc/skillfunc.cc: the skills.
use luatest.Prelude.{
  ℕ, zero, suc, ◌+◌, ◌/◌, ◌==◌, List, [], ◌∷◌, ◌++◌, Option, none, some, if◌then◌else◌,
}
use luatest.Prelude.Int.{ℤ, pos, negsuc, eqb_ℤ, ◌-ℤ◌}
use luatest.Std.Order.{string_order}
use luatest.Std.Map
use luatest.Std.Reals.{Reals}
use luatest.Battle.{
  attr_atk, attr_def, event_skill, event_atked, Ref, Skillcfg, Func, heals, strikes_back, Actor,
  eskill, eatk, eatked, damaged, healed, Battle, actor_at, change_at, lose, print,
}
use luatest.Battle.Buffs.{buffattr, buff_roundend, buffevent}

abbrev pub me : List ℕ
me = b'm' ∷ b'e' ∷ []

abbrev pub enemy : List ℕ
enemy = b'e' ∷ b'n' ∷ b'e' ∷ b'm' ∷ b'y' ∷ []

-- `blo_ / 100`, rounded to 0.
unfoldable pub camp : ℤ → ℤ
camp (pos n) = pos (n / 100)
camp (negsuc n) = pos 0 -ℤ pos ((n + 1) / 100)

module _ (R : Reals) where
  abbrev pub zero_real : R.Real
  zero_real = R.of_int (pos 0)

  unfoldable pub at_place : ℕ → List R.Real → R.Real
  at_place n [] = zero_real
  at_place zero (x ∷ xs) = x
  at_place (suc n) (x ∷ xs) = at_place n xs

  -- `Param::operator[]`, where 0 becomes the largest size_t.
  unfoldable pub param : Option (List R.Real) → ℕ → R.Real
  unfolding at_place
  param none idx = zero_real
  param (some p) zero = zero_real
  param (some p) (suc n) = at_place n p

  -- `fattr`; an `Actor*` that points to no actor is null.
  unfoldable pub fattr : Option Ref → ℤ → Battle R → R.Real
  unfolding actor_at
  fattr none k b = zero_real
  fattr (some r) k b = elim (actor_at R r b) [ none ↦ zero_real | some a ↦ a.attrs k ]

  unfoldable pub blo_of : Option Ref → Battle R → Option ℤ
  unfolding actor_at
  blo_of none b = none
  blo_of (some r) b = elim (actor_at R r b) [ none ↦ none | some a ↦ some a.blo ]

  unfoldable pub damage : R.Real → Battle R → Battle R
  unfolding blo_of lose
  damage v b = elim (blo_of b.targ b) [
    | none ↦ lose R b
    | some t ↦ elim (blo_of b.src b) [ none ↦ lose R b | some s ↦ print R (damaged t v s) b ]
  ]

  unfoldable pub addhp : R.Real → Battle R → Battle R
  unfolding blo_of lose
  addhp v b = elim (blo_of b.targ b) [ none ↦ lose R b | some t ↦ print R (healed t v) b ]

  -- A change of `*targ_`.
  unfoldable pub on_targ : (Actor R → Actor R) → Battle R → Battle R
  unfolding change_at lose
  on_targ f b = elim b.targ [ none ↦ lose R b | some r ↦ change_at R r f b ]

  -- A call of a closure.
  unfoldable pub call : Func R → Battle R → Battle R
  unfolding addhp damage param lose
  call (heals v) b = addhp v b
  call (strikes_back p) b = elim b.e [
    | eskill id ↦ lose R b
    | eatk s t v ↦ lose R b
    | eatked s t v ↦ damage (R.times v (param p 1)) (record b { targ = some s; src = some t })
  ]

  unfoldable pub attack : Battle R → Battle R
  unfolding fattr param damage
  attack b =
      damage
        (R.minus (R.times (fattr b.src attr_atk b) (param b.params 1)) (fattr b.targ attr_def b)) b

  unfoldable pub heal : Battle R → Battle R
  unfolding fattr param on_targ buff_roundend
  heal b =
      on_targ
        (buff_roundend R (pos 10) (heals (R.times (fattr b.targ attr_atk b) (param b.params 1)))) b

  -- For an empty vector, `arr.size() - 1` is the largest size_t, and the loop reads past the end.
  unfoldable pub strengthen : Battle R → Battle R
  unfolding on_targ buffattr lose
  strengthen b = elim b.params [
    | none ↦ lose R b
    | some [] ↦ lose R b
    | some (x ∷ xs) ↦ on_targ (buffattr R (pos 10) (x ∷ xs)) b
  ]

  unfoldable pub heal_later : Battle R → Battle R
  unfolding param on_targ buffevent
  heal_later b = on_targ (buffevent R (pos 10) event_skill (heals (param b.params 1))) b

  unfoldable pub counter : Battle R → Battle R
  unfolding on_targ buffevent
  counter b = on_targ (buffevent R (pos 10) event_atked (strikes_back b.params)) b

  -- `skillfunc_`, for the hundreds of an id.
  unfoldable pub skillfunc : ℕ → Option (Battle R → Battle R)
  unfolding attack heal strengthen heal_later counter
  skillfunc n =
      if n == 1
      then some attack
      else if n == 2
      then some heal
      else if n == 3
      then some strengthen
      else if n == 4
      then some heal_later
      else if n == 5
      then some counter
      else none

  unfoldable pub push_me : Battle R → Battle R
  push_me b = elim b.src [ none ↦ b | some r ↦ record b { targs = b.targs ++ r ∷ [] } ]

  -- The loop of the target function "enemy": the first actor of another camp.
  unfoldable pub first_enemy : ℤ → List Ref → Battle R → Battle R
  unfolding blo_of camp lose
  first_enemy m [] b = b
  first_enemy m (r ∷ rs) b =
      let rest = first_enemy m rs b in
      elim (blo_of (some r) b) [
        | none ↦ lose R b
        | some om ↦ if eqb_ℤ m (camp om) then rest else record b { targs = b.targs ++ r ∷ [] }
      ]

  unfoldable pub push_enemy : Battle R → Battle R
  unfolding blo_of camp first_enemy lose
  push_enemy b = elim (blo_of b.src b) [
    | none ↦ lose R b
    | some m ↦ first_enemy (camp m) b.atk_order b
  ]

  unfoldable pub targf : List ℕ → Option (Battle R → Battle R)
  unfolding push_me push_enemy
  targf name =
      if Map.same string_order name me
      then some push_me
      else if Map.same string_order name enemy
      then some push_enemy
      else none

  -- The loop over `targs_`.
  unfoldable pub on_targs : (Battle R → Battle R) → List Ref → Battle R → Battle R
  on_targs action [] b = b
  on_targs action (r ∷ rs) b = on_targs action rs (action (record b { targ = some r }))

  -- `useskill` from the call of `targf` on.
  unfoldable pub use_on : Skillcfg R → (Battle R → Battle R) → Battle R → Battle R
  unfolding on_targs
  use_on cfg action b = elim b.targs [
    | [] ↦ b
    | r ∷ rs ↦
        let b' = on_targs action (r ∷ rs) (record b { params = some cfg.aparams }) in
        record b' { src = none }
  ]

  abbrev pub cleared : Battle R → Battle R
  cleared b = record b { targ = none; params = none; targs = [] }

  unfoldable pub useskill : ℕ → Battle R → Battle R
  unfolding targf skillfunc use_on
  useskill skillid b =
      let b' = cleared b in
      elim b.src [
        | none ↦ b'
        | some s ↦ elim (b.skillcfg (pos skillid)) [
          | none ↦ b'
          | some cfg ↦ elim (targf cfg.targ) [
            | none ↦ b'
            | some f ↦ elim (skillfunc (skillid / 100)) [
              | none ↦ b'
              | some action ↦ use_on cfg action (f (record b' { params = some cfg.tparams }))
            ]
          ]
        ]
      ]
