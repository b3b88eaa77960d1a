-- ===== src/Battle/Rounds.antt =====
-- battlecc/cc/battle.cc, and the rounds of battlecc/cc/skill.cc and battlecc/cc/lbattle.cc.
use luatest.Prelude.{ℕ, suc, List, [], ◌∷◌, ◌++◌, none, some, false, map, if◌then◌else◌}
use luatest.Prelude.Int.{ℤ, pos, ◌+ℤ◌, eqb_ℤ}
use luatest.Std.Order.{int_order}
use luatest.Std.Map
use luatest.Std.Reals.{Reals}
use luatest.Battle.{
  attr_hp, attr_atk, attr_def, event_skill, Ref, in_atk, in_def, Skillcfg, Func, Actor, Eventdata,
  eskill, Battle, actor_at, change_at, lose,
}
use luatest.Battle.Buffs.{drop_buffs}
use luatest.Battle.Skills.{me, enemy, zero_real, call, useskill}

module _ (R : Reals) where
  -- The loops over `roundend_` and over the functions of an event, in the order of the list.
  unfoldable pub call_all : List (ℤ × Func R) → Battle R → Battle R
  unfolding call
  call_all [] b = b
  call_all ((id, f) ∷ fs) b = call_all fs (call R f b)

  unfoldable pub trigger : Ref → ℤ → Eventdata R → Battle R → Battle R
  unfolding call_all actor_at lose
  trigger p event data_ b = elim (actor_at R p b) [
    | none ↦ lose R b
    | some a ↦
        let b' =
          call_all (a.eventfunc event) (record b { e = data_; src = some p; targ = some p }) in
        record b' { src = none; targ = none }
  ]

  -- A turn of the loop of `Skill::roundend`.
  unfoldable pub end_turn : Ref → Battle R → Battle R
  unfolding call_all drop_buffs actor_at change_at lose
  end_turn p b = elim (actor_at R p b) [
    | none ↦ lose R b
    | some a ↦
        let b' = call_all a.roundend (record b { src = some p; targ = some p }) in
        change_at R p (λ a. drop_buffs R b.round a.buffs a) (record b' { src = none; targ = none })
  ]

  unfoldable pub end_turns : List Ref → Battle R → Battle R
  unfolding end_turn
  end_turns [] b = b
  end_turns (p ∷ ps) b = end_turns ps (end_turn p b)

  unfoldable pub roundend : Battle R → Battle R
  unfolding end_turns
  roundend b = end_turns b.atk_order b

  -- The addresses of the actors of a vector.
  unfoldable pub refs : (ℕ → Ref) → ℕ → List (Actor R) → List Ref
  refs side n [] = []
  refs side n (a ∷ rest) = side n ∷ refs side (suc n) rest

  -- A turn of the loop of `Battle::round`.
  unfoldable pub turn : Ref → Battle R → Battle R
  unfolding useskill trigger
  turn p b = trigger p event_skill (eskill (pos 200)) (useskill R 400 (record b { src = some p }))

  unfoldable pub turns : List Ref → Battle R → Battle R
  unfolding turn
  turns [] b = b
  turns (p ∷ ps) b = turns ps (turn p b)

  unfoldable pub ordered : Battle R → Battle R
  unfolding refs
  ordered b = record b { atk_order = refs in_atk 0 b.atk ++ refs in_def 0 b.def }

  unfoldable pub round : Battle R → Battle R
  unfolding ordered turns roundend
  round b = let b' = ordered b in roundend (turns b'.atk_order b')

  -- `blo_ = base + lo_`
  unfoldable pub placed : ℤ → Actor R → Actor R
  placed base a = record a { blo = base +ℤ a.lo }

  unfoldable pub start : Battle R → Battle R
  unfolding round placed
  start b = round (record b {
    atk = map (placed (pos 100)) b.atk;
    def = map (placed (pos 200)) b.def;
    round = pos 1;
  })

  -- The Lua function `create`. The members that the constructor gives no value are null or 0.
  unfoldable pub create : Battle R
  create = record {
    round = pos 0;
    atk = [];
    def = [];
    atk_order = [];
    src = none;
    targ = none;
    params = none;
    targs = [];
    e = eskill (pos 0);
    skillcfg = Map.no_keys;
    out = [];
    lost = false;
  }

  -- The Lua function `setinfo`. `idx_` and `blo_` get no value there.
  unfoldable pub fighter : ℕ → ℤ → ℤ → Actor R
  fighter idx blo lo = record {
    lo = lo;
    blo = blo;
    attrs = info;
    buffs = [];
    idx = idx;
    roundend = [];
    eventfunc = λ event. [];
  }
    where
      info : ℤ → R.Real
      info k =
          if eqb_ℤ k attr_hp
          then R.of_int (pos 100)
          else if eqb_ℤ k attr_atk
          then R.of_int (pos 20)
          else if eqb_ℤ k attr_def
          then R.of_int (pos 10)
          else zero_real R

  unfoldable pub setinfo : ℕ → ℤ → Battle R → Battle R
  unfolding fighter
  setinfo idx blo b =
      let team : List (Actor R) = fighter idx blo (pos 2) ∷ fighter idx blo (pos 5) ∷ [] in
      record b { atk = team; def = team }

  abbrev pub cfg_of : List ℕ → List R.Real → Skillcfg R
  cfg_of targ aparams = record { targ = targ; tparams = []; aparams = aparams }

  -- The Lua function `skillcfg`.
  unfoldable pub set_skillcfg : Battle R → Battle R
  set_skillcfg b = record b {
    skillcfg = Map.assign int_order (pos 400) (cfg_of me (R.of_int (pos 10) ∷ [])) (
        Map.assign int_order (pos 300) (cfg_of me (R.of_int attr_atk ∷ R.of_int (pos 10) ∷ [])) (
          Map.assign int_order (pos 200) (cfg_of me (R.of_int (pos 2) ∷ []))
            (Map.assign int_order (pos 100) (cfg_of enemy (R.of_int (pos 2) ∷ [])) b.skillcfg)));
  }
