-- ===== src/Battle/Tests.antt =====
-- A battle on concrete calls, and its theorems there.
use luatest.Prelude.{map, ◌++◌, ◌≡◌, refl, [], ◌∷◌, some, false}
use luatest.Prelude.Int.{ℤ, pos, ◌+ℤ◌, ◌-ℤ◌, ◌*ℤ◌, ltb_ℤ, leb_ℤ}
use luatest.Std.Order.{lt_string}
use luatest.Std.Map
use luatest.Std.Table.{erase_at, assign_at}
use luatest.Std.Reals.{Reals}
use luatest.Battle.{in_atk, Battle, healed, damaged, nth, change, actor_at, change_at, lose}
use luatest.Battle.Buffs.{
  insert_buff, raise, lower, lower_all, erase_event, removebuff, drop_buffs, initbuff, raise_all,
  keep_buff, buffattr, buff_roundend, assign_event, buffevent,
}
use luatest.Battle.Skills.{
  me, at_place, param, fattr, blo_of, damage, addhp, on_targ, call, attack, heal, strengthen,
  heal_later, counter, skillfunc, push_me, camp, first_enemy, push_enemy, targf, on_targs, use_on,
  useskill,
}
use luatest.Battle.Rounds.{
  call_all, trigger, end_turn, end_turns, roundend, refs, turn, turns, ordered, round, placed,
  start, create, fighter, setinfo, set_skillcfg, cfg_of,
}
use luatest.Battle.Healing.{gains}
use luatest.Battle.Outcome.{line_up, start-gains}
use luatest.Battle.Over.{IsOver, Reached, created, manned, taught, started, Reached-IsOver}

program : Unit {0}
unfolding lt_string Map.assign erase_at assign_at nth change actor_at change_at lose insert_buff
    raise lower lower_all erase_event removebuff drop_buffs initbuff raise_all keep_buff buffattr
    buff_roundend assign_event buffevent at_place param fattr blo_of damage addhp on_targ call
    attack heal strengthen heal_later counter skillfunc push_me camp first_enemy push_enemy targf
    on_targs use_on useskill call_all trigger end_turn end_turns roundend refs turn turns ordered
    round placed start create fighter setinfo set_skillcfg
program = tt

-- Whole numbers in place of floats.
abbrev whole : Reals
whole = record {
  Real = ℤ;
  plus = λ a b. a +ℤ b;
  minus = λ a b. a -ℤ b;
  times = λ a b. a *ℤ b;
  over = λ a b. a;
  sqrt = λ a. a;
  cos = λ a. a;
  sin = λ a. a;
  acos = λ a. a;
  le = λ a b. leb_ℤ a b;
  lt = λ a b. ltb_ℤ a b;
  of_int = λ a. a;
  to_int = λ a. a;
  pi = pos 3;
  to_int16 = λ a. a;
}

abbrev ready : Battle whole
ready = set_skillcfg whole (setinfo whole 65535 (pos 0) (create whole))

-- Each actor heals itself once.
start-ready :
    (start whole ready).out
    ≡ healed (pos 102) (pos 10)
      ∷ healed (pos 105) (pos 10)
      ∷ healed (pos 202) (pos 10)
      ∷ healed (pos 205) (pos 10)
      ∷ []
unfolding program
start-ready = refl

start-not-lost : (start whole ready).lost ≡ false
unfolding program
start-not-lost = refl

-- The first attacker strikes the first defender.
struck :
    (useskill whole 100 (record (start whole ready) { src = some (in_atk 0); out = [] })).out
    ≡ damaged (pos 202) (pos 30) (pos 102) ∷ []
unfolding program
struck = refl

ready-Reached : Reached whole ready
unfolding set_skillcfg
ready-Reached = taught _ (manned 65535 (pos 0) created)

Reached-IsOver_example : IsOver whole (start whole ready)
Reached-IsOver_example = Reached-IsOver whole (start whole ready) (started ready-Reached)

start-gains_example :
    ((start whole ready).lost ≡ ready.lost)
    × ((start whole ready).out
        ≡ ready.out ++ map (gains whole (cfg_of whole me (pos 10 ∷ []))) (line_up whole ready))
unfolding set_skillcfg Map.assign lt_string
start-gains_example =
    start-gains whole ready (cfg_of whole me (pos 10 ∷ [])) ready-Reached refl refl
