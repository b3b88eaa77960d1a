-- ===== src/Battle.antt =====
-- battlecc/cc/battle.h and battlecc/cc/skill.h: the data of a battle. A pointer to an actor is its
-- vector and its place there, and a float is a `Real` of the parameter.
pub mod Buffs
pub mod Skills
pub mod Rounds
pub mod Owned
pub mod Added
pub mod Running
pub mod Turns
pub mod Idle
pub mod Over
pub mod Healing
pub mod Log
pub mod Outcome
mod Tests
use luatest.Prelude.{
  ℕ, zero, suc, ◌+◌, List, [], ◌∷◌, ◌++◌, Option, none, some, Bool, true, false, if◌then◌else◌,
}
use luatest.Prelude.Int.{ℤ, pos}
use luatest.Std.Map
use luatest.Std.Map.{Map}
use luatest.Std.Reals.{Reals}

abbrev pub attr_atk : ℤ
attr_atk = pos 20

abbrev pub attr_def : ℤ
attr_def = pos 30

abbrev pub attr_hp : ℤ
attr_hp = pos 10

abbrev pub event_skill : ℤ
event_skill = pos 10

abbrev pub event_atked : ℤ
event_atked = pos 12

-- An `Actor*`.
pub data Ref : Type 0 where
  in_atk : ℕ → Ref
  in_def : ℕ → Ref

module _ (R : Reals) where
  pub record Skillcfg : Type 0 where
    pub targ : List ℕ
    pub tparams : List R.Real
    pub aparams : List R.Real

  -- The closures of skillfunc.cc, by what they capture. A captured `Param` is the numbers that it
  -- points to.
  pub data Func : Type 0 where
    heals : R.Real → Func
    strikes_back : Option (List R.Real) → Func

  pub record Buff : Type 0 where
    pub id : ℕ
    pub tid : ℤ
    pub event : ℤ
    pub endtm : ℤ
    pub attrs : List (ℤ × R.Real)

  -- An attribute that the hash table does not have reads as 0, as `[]` makes it.
  pub record Actor : Type 0 where
    pub lo : ℤ
    pub blo : ℤ
    pub attrs : ℤ → R.Real
    pub buffs : List Buff
    pub idx : ℕ
    pub roundend : List (ℤ × Func)
    pub eventfunc : ℤ → List (ℤ × Func)

  pub data Eventdata : Type 0 where
    eskill : ℤ → Eventdata
    eatk : Ref → Ref → R.Real → Eventdata
    eatked : Ref → Ref → R.Real → Eventdata

  -- What is written to `cout`.
  pub data Line : Type 0 where
    damaged : ℤ → R.Real → ℤ → Line
    healed : ℤ → R.Real → Line

  -- A `Battle` with its `Skill`. `out` is what was written, and `lost` is set where the source follows
  -- a null pointer, reads past the end of a vector or a field that was not written.
  pub record Battle : Type 0 where
    pub round : ℤ
    pub atk : List Actor
    pub def : List Actor
    pub atk_order : List Ref
    pub src : Option Ref
    pub targ : Option Ref
    pub params : Option (List R.Real)
    pub targs : List Ref
    pub e : Eventdata
    pub skillcfg : Map ℤ Skillcfg
    pub out : List Line
    pub lost : Bool

  unfoldable pub nth : ℕ → List Actor → Option Actor
  nth n [] = none
  nth zero (a ∷ rest) = some a
  nth (suc n) (a ∷ rest) = nth n rest

  unfoldable pub change : ℕ → (Actor → Actor) → List Actor → List Actor
  change n f [] = []
  change zero f (a ∷ rest) = f a ∷ rest
  change (suc n) f (a ∷ rest) = a ∷ change n f rest

  unfoldable pub actor_at : Ref → Battle → Option Actor
  unfolding nth
  actor_at (in_atk n) b = nth n b.atk
  actor_at (in_def n) b = nth n b.def

  unfoldable pub change_at : Ref → (Actor → Actor) → Battle → Battle
  unfolding change
  change_at (in_atk n) f b = record b { atk = change n f b.atk }
  change_at (in_def n) f b = record b { def = change n f b.def }

  unfoldable pub lose : Battle → Battle
  lose b = record b { lost = true }

  abbrev pub print : Line → Battle → Battle
  print l b = record b { out = b.out ++ l ∷ [] }
