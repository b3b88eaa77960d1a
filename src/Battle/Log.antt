-- ===== src/Battle/Log.antt =====
-- What a battle writes to the log where every actor has the skill of `skillfunc_[400]` on itself.
use luatest.Prelude.{
  ◌≡◌, ◌≢◌, ◌∙◌, sym, ap, refl, ◌⊎◌, inl, inr, ℕ, zero, suc, List, [], ◌∷◌, ◌++◌, map, none, some,
  true, All, Bool-cases,
}
use mathlib.Core.Path.{subst}
use mathlib.Core.List.{append_assoc, append-nil}
use luatest.Prelude.Int.{ℤ, pos, leb_ℤ}
use luatest.Std.Order.{string_order}
use luatest.Std.Map
use luatest.Std.Table.{erase_at}
use luatest.Std.Reals.{Reals}
use luatest.Battle.{
  event_skill, Ref, in_atk, in_def, Skillcfg, Buff, Actor, Line, Battle, nth, change, actor_at,
  change_at,
}
use luatest.Battle.Buffs.{removebuff, drop_buffs, keep_buff, initbuff, buffevent}
use luatest.Battle.Skills.{me}
use luatest.Battle.Rounds.{call_all, end_turn, end_turns, turn, turns}
use luatest.Battle.Idle.{end_turn-there, after_calls}
use luatest.Battle.Healing.{
  blessed, gains, actor_at-SameTeams, change_at-Alike, Turned, turn-Turned,
}

module _ (R : Reals) where
  -- The addresses of actors that wait for their turns, all different.
  unfoldable pub Ready : List Ref → List (Actor R) → Battle R → Type 0
  Ready [] [] b = Unit
  Ready (p ∷ ps) (x ∷ xs) b =
      (actor_at R p b ≡ some x)
      × (x.eventfunc event_skill ≡ [])
      × (x.roundend ≡ [])
      × All (λ q. p ≢ q) ps
      × Ready ps xs b
  Ready [] (x ∷ xs) b = ⊥
  Ready (p ∷ ps) [] b = ⊥

  -- An actor without functions for the end of the round.
  unfoldable pub QuietAt : Battle R → Ref → Type 0
  QuietAt b q = (x : Actor R) × ((actor_at R q b ≡ some x) × (x.roundend ≡ []))

  module _ (cfg : Skillcfg R) (self : Map.same string_order cfg.targ me ≡ true) where
    Ready-Turned :
        (p : Ref) (a : Actor R) (b c : Battle R) (ps : List Ref) (xs : List (Actor R))
        → Turned R cfg p a b c
        → All (λ q. p ≢ q) ps
        → Ready ps xs b
        → Ready ps xs c
    unfolding Ready
    Ready-Turned p a b c [] [] t d r = r
    Ready-Turned p a b c (q ∷ ps) (x ∷ xs) t (d, ds) (at, quiet, ends, other, rest) =
        (t.others q (λ e. d (sym e)) ∙ at, quiet, ends, other, Ready-Turned p a b c ps xs t ds rest)
    Ready-Turned p a b c [] (x ∷ xs) t d r = r
    Ready-Turned p a b c (q ∷ ps) [] t d r = r

    -- What the turns of some actors do.
    pub record Gained (ps : List Ref) (xs : List (Actor R)) (b c : Battle R) : Type 0 where
      pub out : c.out ≡ b.out ++ map (gains R cfg) xs
      pub lost : c.lost ≡ b.lost
      pub order : c.atk_order ≡ b.atk_order
      pub quiet : All (QuietAt c) ps
      pub others : (q : Ref) → All (λ p. q ≢ p) ps → actor_at R q c ≡ actor_at R q b

    blessed-ends : (a : Actor R) → (blessed R cfg a).roundend ≡ a.roundend
    unfolding blessed buffevent keep_buff initbuff
    blessed-ends a = refl

    pub turns-Gained :
        (ps : List Ref) (xs : List (Actor R)) (b : Battle R)
        → b.skillcfg (pos 400) ≡ some cfg
        → Ready ps xs b
        → Gained ps xs b (turns R ps b)
    unfolding turns Ready QuietAt
    turns-Gained [] [] b found r = record {
      out = sym (append-nil b.out);
      lost = refl;
      order = refl;
      quiet = tt;
      others = λ q d. refl;
    }
    turns-Gained [] (x ∷ xs) b found r = absurd r
    turns-Gained (p ∷ ps) [] b found r = absurd r
    turns-Gained (p ∷ ps) (x ∷ xs) b found (at, none_yet, ends, other, rest) =
        let c = turn R p b in
        let t = turn-Turned R cfg p x b found self at none_yet in
        let g =
          turns-Gained ps xs c (ap (λ (m : Map.Map ℤ (Skillcfg R)). m (pos 400)) t.skills ∙ found)
            (Ready-Turned p x b c ps xs t other rest) in
        record {
          out =
              g.out
              ∙ ap (λ (o : List (Line R)). o ++ map (gains R cfg) xs) t.out
              ∙ append_assoc b.out (gains R cfg x ∷ []) (map (gains R cfg) xs);
          lost = g.lost ∙ t.lost;
          order = g.order ∙ t.order;
          quiet = ((blessed R cfg x, (g.others p other ∙ t.mine, blessed-ends x ∙ ends)), g.quiet);
          others = λ q d. g.others q d.1 ∙ t.others q d.0;
        }

  drop_buffs-ends :
      (now : ℤ) (bs : List (Buff R)) (a : Actor R)
      → a.roundend ≡ []
      → (drop_buffs R now bs a).roundend ≡ []
  unfolding drop_buffs removebuff erase_at
  drop_buffs-ends now [] a h = h
  drop_buffs-ends now (b ∷ bs) a h = elim (Bool-cases (leb_ℤ b.endtm now)) [
    | inl k ↦ rw k (drop_buffs-ends now bs (removebuff R b a) (ap (erase_at (pos b.id)) h))
    | inr k ↦ rw k h
  ]

  nth_forward :
      (m n : ℕ) (f : Actor R → Actor R) (xs : List (Actor R)) (x : Actor R)
      → nth R n xs ≡ some x
      → (y : Actor R) × ((nth R n (change R m f xs) ≡ some y) × ((y ≡ x) ⊎ (y ≡ f x)))
  unfolding nth change
  nth_forward m n f [] x h = absurd (cc h)
  nth_forward zero zero f (a ∷ xs) x h = (f a, (refl, inr (ap f (cc h))))
  nth_forward zero (suc n) f (a ∷ xs) x h = (x, (h, inl refl))
  nth_forward (suc m) zero f (a ∷ xs) x h = (a, (refl, inl (cc h)))
  nth_forward (suc m) (suc n) f (a ∷ xs) x h = nth_forward m n f xs x h

  change_at-QuietAt :
      (q p : Ref) (f : Actor R → Actor R) (b : Battle R)
      → ((a : Actor R) → a.roundend ≡ [] → (f a).roundend ≡ [])
      → QuietAt b q
      → QuietAt (change_at R p f b) q
  unfolding QuietAt actor_at change_at
  change_at-QuietAt (in_atk n) (in_atk m) f b k (x, (h, e)) =
      let (y, (there, same)) = nth_forward m n f b.atk x h in
      (
        y,
        (
          there,
          elim same [
            | inl s ↦ ap (λ (a : Actor R). a.roundend) s ∙ e
            | inr s ↦ ap (λ (a : Actor R). a.roundend) s ∙ k x e
          ],
        ),
      )
  change_at-QuietAt (in_def n) (in_def m) f b k (x, (h, e)) =
      let (y, (there, same)) = nth_forward m n f b.def x h in
      (
        y,
        (
          there,
          elim same [
            | inl s ↦ ap (λ (a : Actor R). a.roundend) s ∙ e
            | inr s ↦ ap (λ (a : Actor R). a.roundend) s ∙ k x e
          ],
        ),
      )
  change_at-QuietAt (in_atk n) (in_def m) f b k h = h
  change_at-QuietAt (in_def n) (in_atk m) f b k h = h

  -- The end of the round, where no actor has a function for it.
  pub record Ended (b c : Battle R) : Type 0 where
    pub out : c.out ≡ b.out
    pub lost : c.lost ≡ b.lost
    pub quiet : (q : Ref) → QuietAt b q → QuietAt c q

  end_turn-Ended : (p : Ref) (b : Battle R) → QuietAt b p → Ended b (end_turn R p b)
  unfolding QuietAt after_calls call_all
  end_turn-Ended p b (x, (h, e)) =
      let f : Actor R → Actor R = λ a. drop_buffs R b.round a.buffs a in
      let c : Battle R = record b { src = none; targ = none } in
      let still : after_calls R p x b ≡ c = rw (after_calls, e) refl in
      let same = change_at-Alike R p f c in
      subst (Ended b) (sym (end_turn-there R p x b h ∙ ap (change_at R p f) still)) (record {
        out = same.out;
        lost = same.lost;
        quiet = λ q (y, (k, d)).
            change_at-QuietAt q p f c (λ a. drop_buffs-ends b.round a.buffs a)
              (
                y,
                (actor_at-SameTeams R q b c (record { same_atk = refl; same_def = refl }) ∙ k, d),
              );
      })

  All-map :
      {A : Type 0} (P Q : A → Type 0) (xs : List A) → ((x : A) → P x → Q x) → All P xs → All Q xs
  All-map P Q [] f h = tt
  All-map P Q (x ∷ xs) f (h, hs) = (f x h, All-map P Q xs f hs)

  pub end_turns-Ended :
      (ps : List Ref) (b : Battle R) → All (QuietAt b) ps → Ended b (end_turns R ps b)
  unfolding end_turns
  end_turns-Ended [] b h = record { out = refl; lost = refl; quiet = λ q k. k }
  end_turns-Ended (p ∷ ps) b (h, hs) =
      let c = end_turn R p b in
      let first = end_turn-Ended p b h in
      let rest = end_turns-Ended ps c (All-map (QuietAt b) (QuietAt c) ps first.quiet hs) in
      record {
        out = rest.out ∙ first.out;
        lost = rest.lost ∙ first.lost;
        quiet = λ q k. rest.quiet q (first.quiet q k);
      }
