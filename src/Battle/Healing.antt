-- ===== src/Battle/Healing.antt =====
-- The turn of an actor whose skill is the one of `skillfunc_[400]` on itself.
use luatest.Prelude.{
  ◌≡◌, ◌≢◌, ◌∙◌, sym, ap, refl, ℕ, zero, suc, ◌+◌, ◌%◌, ◌^◌, List, [], ◌∷◌, ◌++◌, none, some, true,
}
use mathlib.Core.Path.{subst}
use luatest.Prelude.Int.{ℤ, pos}
use luatest.Std.Order.{string_order}
use luatest.Std.Map
use luatest.Std.Table.{erase_at, assign_at}
use luatest.Std.Reals.{Reals}
use luatest.Battle.{
  event_skill, Ref, in_atk, in_def, Skillcfg, heals, Actor, eskill, Line, healed, Battle, nth,
  change, actor_at, change_at,
}
use luatest.Battle.Buffs.{keep_buff, initbuff, assign_event, buffevent}
use luatest.Battle.Skills.{
  me, param, blo_of, addhp, on_targ, call, heal_later, skillfunc, push_me, targf, on_targs, use_on,
  useskill,
}
use luatest.Battle.Rounds.{call_all, trigger, turn}

module _ (R : Reals) where
  -- What the numbers of the skill make an actor gain.
  abbrev pub gain : Skillcfg R → R.Real
  unfolding param
  gain cfg = param R (some cfg.aparams) 1

  unfoldable pub blessed : Skillcfg R → Actor R → Actor R
  unfolding buffevent
  blessed cfg a = buffevent R (pos 10) event_skill (heals (gain cfg)) a

  -- The battle after the skill, up to the actors and the log.
  abbrev aimed : Skillcfg R → Ref → Battle R → Battle R
  aimed cfg p b = record b {
    src = some p;
    targ = some p;
    params = some cfg.aparams;
    targs = p ∷ [];
  }

  useskill-blessed :
      (cfg : Skillcfg R) (p : Ref) (b : Battle R)
      → b.skillcfg (pos 400) ≡ some cfg
      → Map.same string_order cfg.targ me ≡ true
      → useskill R 400 (record b { src = some p })
        ≡ record (change_at R p (blessed cfg) (aimed cfg p b)) { src = none }
  unfolding useskill targf use_on push_me on_targs skillfunc heal_later on_targ blessed
  useskill-blessed cfg p b found self = rw (useskill, found, targf, self) refl

  nth_hit :
      (n : ℕ) (f : Actor R → Actor R) (xs : List (Actor R)) (a : Actor R)
      → nth R n xs ≡ some a
      → nth R n (change R n f xs) ≡ some (f a)
  unfolding nth change
  nth_hit n f [] a h = absurd (cc h)
  nth_hit zero f (x ∷ xs) a h = ap some (ap f (cc h))
  nth_hit (suc n) f (x ∷ xs) a h = nth_hit n f xs a h

  -- What `nth` gives after a change elsewhere.
  nth_miss :
      (m n : ℕ) (f : Actor R → Actor R) (xs : List (Actor R))
      → n ≢ m
      → nth R n (change R m f xs) ≡ nth R n xs
  unfolding nth change
  nth_miss m n f [] d = refl
  nth_miss zero zero f (x ∷ xs) d = absurd (d refl)
  nth_miss zero (suc n) f (x ∷ xs) d = refl
  nth_miss (suc m) zero f (x ∷ xs) d = refl
  nth_miss (suc m) (suc n) f (x ∷ xs) d = nth_miss m n f xs (λ e. d (ap suc e))

  pub actor_at_hit :
      (p : Ref) (f : Actor R → Actor R) (b : Battle R) (a : Actor R)
      → actor_at R p b ≡ some a
      → actor_at R p (change_at R p f b) ≡ some (f a)
  unfolding actor_at change_at
  actor_at_hit (in_atk n) f b a h = nth_hit n f b.atk a h
  actor_at_hit (in_def n) f b a h = nth_hit n f b.def a h

  pub actor_at_miss :
      (q p : Ref) (f : Actor R → Actor R) (b : Battle R)
      → q ≢ p
      → actor_at R q (change_at R p f b) ≡ actor_at R q b
  unfolding actor_at change_at
  actor_at_miss (in_atk n) (in_atk m) f b d = nth_miss m n f b.atk (λ e. d (ap in_atk e))
  actor_at_miss (in_def n) (in_def m) f b d = nth_miss m n f b.def (λ e. d (ap in_def e))
  actor_at_miss (in_atk n) (in_def m) f b d = refl
  actor_at_miss (in_def n) (in_atk m) f b d = refl

  -- The actors are where they were.
  pub record SameTeams (b c : Battle R) : Type 0 where
    pub same_atk : c.atk ≡ b.atk
    pub same_def : c.def ≡ b.def

  pub actor_at-SameTeams :
      (p : Ref) (b c : Battle R) → SameTeams b c → actor_at R p c ≡ actor_at R p b
  unfolding actor_at
  actor_at-SameTeams (in_atk n) b c s = ap (nth R n) s.same_atk
  actor_at-SameTeams (in_def n) b c s = ap (nth R n) s.same_def

  -- What else the turns read stays.
  pub record Alike (b c : Battle R) : Type 0 where
    pub out : c.out ≡ b.out
    pub lost : c.lost ≡ b.lost
    pub order : c.atk_order ≡ b.atk_order
    pub skills : c.skillcfg ≡ b.skillcfg

  pub change_at-Alike :
      (p : Ref) (f : Actor R → Actor R) (b : Battle R) → Alike b (change_at R p f b)
  unfolding change_at
  change_at-Alike (in_atk n) f b = record { out = refl; lost = refl; order = refl; skills = refl }
  change_at-Alike (in_def n) f b = record { out = refl; lost = refl; order = refl; skills = refl }

  abbrev pub gains : Skillcfg R → Actor R → Line R
  gains cfg a = healed a.blo (gain cfg)

  call-heals :
      (cfg : Skillcfg R) (blo : ℤ) (b : Battle R)
      → blo_of R b.targ b ≡ some blo
      → call R (heals (gain cfg)) b ≡ record b { out = b.out ++ healed blo (gain cfg) ∷ [] }
  unfolding call addhp
  call-heals cfg blo b h = rw (call, addhp, h) refl

  blessed-events :
      (cfg : Skillcfg R) (a : Actor R)
      → a.eventfunc event_skill ≡ []
      → (id : ℤ) × ((blessed cfg a).eventfunc event_skill ≡ (id, heals (gain cfg)) ∷ [])
  unfolding blessed buffevent keep_buff initbuff assign_event assign_at erase_at
  blessed-events cfg a h = (pos ((a.idx + 1) % 2 ^ 16), rw h refl)

  -- The battle at the call of the function of the event.
  abbrev entered : Ref → Battle R → Battle R
  entered p b = record b { e = eskill (pos 200); src = some p; targ = some p }

  blo_blessed :
      (cfg : Skillcfg R) (p : Ref) (b : Battle R) (a : Actor R)
      → actor_at R p b ≡ some (blessed cfg a)
      → blo_of R (some p) (entered p b) ≡ some a.blo
  unfolding blo_of blessed buffevent keep_buff initbuff
  blo_blessed cfg p b a h =
      rw
        (
          blo_of,
          actor_at-SameTeams p b (entered p b) (record { same_atk = refl; same_def = refl }),
          h,
        )
        refl

  trigger-heals :
      (cfg : Skillcfg R) (p : Ref) (b : Battle R) (a : Actor R)
      → actor_at R p b ≡ some (blessed cfg a)
      → a.eventfunc event_skill ≡ []
      → trigger R p event_skill (eskill (pos 200)) b
        ≡ record (entered p b) { out = b.out ++ gains cfg a ∷ []; src = none; targ = none }
  unfolding trigger call_all
  trigger-heals cfg p b a h quiet =
      let (id, only) = blessed-events cfg a quiet in
      rw (trigger, h, only, call-heals cfg a.blo (entered p b) (blo_blessed cfg p b a h)) refl

  -- A turn gives the actor the buff and the event takes effect at once; other actors stay.
  pub record Turned (cfg : Skillcfg R) (p : Ref) (a : Actor R) (b c : Battle R) : Type 0 where
    pub out : c.out ≡ b.out ++ gains cfg a ∷ []
    pub lost : c.lost ≡ b.lost
    pub order : c.atk_order ≡ b.atk_order
    pub skills : c.skillcfg ≡ b.skillcfg
    pub mine : actor_at R p c ≡ some (blessed cfg a)
    pub others : (q : Ref) → q ≢ p → actor_at R q c ≡ actor_at R q b

  pub turn-Turned :
      (cfg : Skillcfg R) (p : Ref) (a : Actor R) (b : Battle R)
      → b.skillcfg (pos 400) ≡ some cfg
      → Map.same string_order cfg.targ me ≡ true
      → actor_at R p b ≡ some a
      → a.eventfunc event_skill ≡ []
      → Turned cfg p a b (turn R p b)
  unfolding turn
  turn-Turned cfg p a b found self h quiet =
      let u = change_at R p (blessed cfg) (aimed cfg p b) in
      let w : Battle R = record u { src = none } in
      let here : actor_at R p u ≡ some (blessed cfg a) =
        actor_at_hit p (blessed cfg) (aimed cfg p b) a (
          actor_at-SameTeams p b (aimed cfg p b) (record { same_atk = refl; same_def = refl })
          ∙ h) in
      let there : actor_at R p w ≡ some (blessed cfg a) =
        actor_at-SameTeams p u w (record { same_atk = refl; same_def = refl }) ∙ here in
      let same = change_at-Alike p (blessed cfg) (aimed cfg p b) in
      let v : Battle R = record (entered p w) {
        out = w.out ++ gains cfg a ∷ [];
        src = none;
        targ = none;
      } in
      let whole : turn R p b ≡ v =
        ap (trigger R p event_skill (eskill (pos 200))) (useskill-blessed cfg p b found self)
        ∙ trigger-heals cfg p w a there quiet in
      subst (Turned cfg p a b) (sym whole) (record {
        out = ap (λ (o : List (Line R)). o ++ gains cfg a ∷ []) same.out;
        lost = same.lost;
        order = same.order;
        skills = same.skills;
        mine = actor_at-SameTeams p u v (record { same_atk = refl; same_def = refl }) ∙ here;
        others = λ q d.
            actor_at-SameTeams q u v (record { same_atk = refl; same_def = refl })
            ∙ actor_at_miss q p (blessed cfg) (aimed cfg p b) d
            ∙ actor_at-SameTeams q b (aimed cfg p b) (record { same_atk = refl; same_def = refl });
      })
