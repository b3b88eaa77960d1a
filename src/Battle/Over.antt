-- ===== src/Battle/Over.antt =====
-- When a battle is over, its actors are left without buffs.
use luatest.Prelude.{
  ◌≡◌, ◌∙◌, ap, refl, inl, inr, ℕ, zero, suc, ◌+◌, List, [], ◌∷◌, map, some, All, arith,
  Option-cases,
}
use mathlib.Core.Path.{subst}
use luatest.Prelude.Int.{ℤ, pos}
use luatest.Std.Set.{In, In-append_left, In-append_right}
use luatest.Std.Map.{Map}
use luatest.Std.Reals.{Reals}
use luatest.Battle.{Ref, in_atk, in_def, Skillcfg, Actor, Battle, nth, actor_at, change_at, lose}
use luatest.Battle.Buffs.{drop_buffs}
use luatest.Battle.Rounds.{
  end_turn, end_turns, roundend, refs, turns, ordered, round, placed, start, fighter, setinfo,
  create,
}
use luatest.Battle.Owned.{IsOwned, IsIdle, IsIdle-IsOwned}
use luatest.Battle.Running.{IsRunning}
use luatest.Battle.Turns.{turns-Keeps}
use luatest.Battle.Idle.{
  IdleAt, end_turns-IdleAt, end_turns-IsRunning, end_turn-there, after_calls, after_calls-Calm,
  nth-All,
}

module _ (R : Reals) where
  -- Neither team has an actor with buffs.
  pub record IsOver (b : Battle R) : Type 0 where
    pub idle_atk : All (IsIdle R) b.atk
    pub idle_def : All (IsIdle R) b.def

  change_at-order :
      (p : Ref) (f : Actor R → Actor R) (b : Battle R) → (change_at R p f b).atk_order ≡ b.atk_order
  unfolding change_at
  change_at-order (in_atk n) f b = refl
  change_at-order (in_def n) f b = refl

  end_turn-order : (p : Ref) (b : Battle R) → (end_turn R p b).atk_order ≡ b.atk_order
  unfolding end_turn lose
  end_turn-order p b = elim (Option-cases (actor_at R p b)) [
    | inl h ↦ rw (end_turn, h) refl
    | inr (a, h) ↦
        ap (λ (c : Battle R). c.atk_order) (end_turn-there R p a b h)
        ∙ change_at-order p (λ o. drop_buffs R b.round o.buffs o) (after_calls R p a b)
        ∙ (after_calls-Calm R p a b).same_order
  ]

  end_turns-order : (ps : List Ref) (b : Battle R) → (end_turns R ps b).atk_order ≡ b.atk_order
  unfolding end_turns
  end_turns-order [] b = refl
  end_turns-order (p ∷ ps) b = end_turns-order ps (end_turn R p b) ∙ end_turn-order p b

  roundend-IsOver : (b : Battle R) → IsRunning R b → IsOver (roundend R b)
  unfolding roundend IdleAt actor_at
  roundend-IsOver b r =
      let u = end_turns-IsRunning R b.atk_order b r in
      let same = end_turns-order b.atk_order b in
      record {
        idle_atk = nth-All R (IsIdle R) _ (λ n a h.
            end_turns-IdleAt R (in_atk n) b.atk_order b r
              (subst (In (in_atk n)) same (u.listed_atk n a h)) a h);
        idle_def = nth-All R (IsIdle R) _ (λ n a h.
            end_turns-IdleAt R (in_def n) b.atk_order b r
              (subst (In (in_def n)) same (u.listed_def n a h)) a h);
      }

  In-refs :
      (side : ℕ → Ref) (k n : ℕ) (xs : List (Actor R)) (a : Actor R)
      → nth R n xs ≡ some a
      → In (side (k + n)) (refs R side k xs)
  unfolding refs nth
  In-refs side k n [] a h = absurd (cc h)
  In-refs side k zero (x ∷ xs) a h = inl (ap side (omega arith))
  In-refs side k (suc n) (x ∷ xs) a h = inr (
      subst (λ i. In (side i) (refs R side (suc k) xs)) (omega arith)
        (In-refs side (suc k) n xs a h))

  ordered-IsRunning :
      (b : Battle R)
      → b.round ≡ pos 1
      → All (IsOwned R) b.atk
      → All (IsOwned R) b.def
      → IsRunning R (ordered R b)
  unfolding ordered
  ordered-IsRunning b first o p = record {
    first = first;
    owned_atk = o;
    owned_def = p;
    listed_atk = λ n a h.
        In-append_left (in_atk n) (refs R in_atk 0 b.atk) (refs R in_def 0 b.def) (
          subst (λ i. In (in_atk i) (refs R in_atk 0 b.atk)) (omega arith)
            (In-refs in_atk 0 n b.atk a h));
    listed_def = λ n a h.
        In-append_right (in_def n) (refs R in_atk 0 b.atk) (refs R in_def 0 b.def) (
          subst (λ i. In (in_def i) (refs R in_def 0 b.def)) (omega arith)
            (In-refs in_def 0 n b.def a h));
  }

  placed-IsOwned :
      (base : ℤ) (xs : List (Actor R))
      → All (IsIdle R) xs
      → All (IsOwned R) (map (placed R base) xs)
  unfolding placed
  placed-IsOwned base [] h = tt
  placed-IsOwned base (x ∷ xs) (h, hs) =
      let o = IsIdle-IsOwned R x h in
      (
        record { at_end = o.at_end; at_event = o.at_event; brief = o.brief },
        placed-IsOwned base xs hs,
      )

  start-IsOver : (b : Battle R) → IsOver b → IsOver (start R b)
  unfolding start round
  start-IsOver b over =
      let c : Battle R = record b {
        atk = map (placed R (pos 100)) b.atk;
        def = map (placed R (pos 200)) b.def;
        round = pos 1;
      } in
      roundend-IsOver (turns R (ordered R c).atk_order (ordered R c)) (
        turns-Keeps R (ordered R c).atk_order (ordered R c) (
          ordered-IsRunning c refl (placed-IsOwned (pos 100) b.atk over.idle_atk)
            (placed-IsOwned (pos 200) b.def over.idle_def)))

  -- The battles that calls of the Lua functions lead to, with any skills in `skillcfg_`.
  pub data Reached : Battle R → Type 0 where
    created : Reached (create R)
    manned : {b : Battle R} (idx : ℕ) (blo : ℤ) → Reached b → Reached (setinfo R idx blo b)
    taught :
        {b : Battle R} (cfg : Map ℤ (Skillcfg R))
        → Reached b
        → Reached (record b { skillcfg = cfg })
    started : {b : Battle R} → Reached b → Reached (start R b)

  -- Whatever calls lead to a battle, with any skills, no actor has a buff, or a function for an event or
  -- for the end of a round, once a call has returned.
  pub Reached-IsOver : (b : Battle R) → Reached b → IsOver b
  unfolding create setinfo fighter
  Reached-IsOver _ created = record { idle_atk = tt; idle_def = tt }
  Reached-IsOver _ (manned {b} idx blo r) =
      let idle : (lo : ℤ) → IsIdle R (fighter R idx blo lo) =
        λ lo. record { no_buffs = refl; no_ends = refl; no_events = λ event. refl } in
      record {
        idle_atk = (idle (pos 2), (idle (pos 5), tt));
        idle_def = (idle (pos 2), (idle (pos 5), tt));
      }
  Reached-IsOver _ (taught {b} cfg r) =
      let o = Reached-IsOver b r in record { idle_atk = o.idle_atk; idle_def = o.idle_def }
  Reached-IsOver _ (started {b} r) = start-IsOver b (Reached-IsOver b r)
