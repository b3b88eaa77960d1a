-- ===== src/Battle/Outcome.antt =====
-- What `start` writes where every actor has the skill of `skillfunc_[400]` on itself.
use luatest.Prelude.{
  ◌≡◌, ◌≢◌, ◌∙◌, sym, ap, refl, ℕ, zero, suc, ◌+◌, ◌<◌, List, [], ◌∷◌, ◌++◌, map, some, All, arith,
}
use mathlib.Core.Path.{subst}
use luatest.Prelude.Int.{ℤ, pos}
use luatest.Std.Order.{string_order}
use luatest.Std.Map
use luatest.Std.Reals.{Reals}
use luatest.Battle.{event_skill, Ref, in_atk, in_def, Skillcfg, Actor, Battle, nth, actor_at}
use luatest.Battle.Skills.{me}
use luatest.Battle.Rounds.{roundend, refs, turns, ordered, round, placed, start}
use luatest.Battle.Owned.{IsIdle}
use luatest.Battle.Over.{IsOver, Reached, Reached-IsOver}
use luatest.Battle.Healing.{gains}
use luatest.Battle.Log.{Ready, QuietAt, turns-Gained, end_turns-Ended}

All-append : {A : Type 0} (P : A → Type 0) (xs ys : List A) → All P xs → All P ys → All P (xs ++ ys)
All-append P [] ys h k = k
All-append P (x ∷ xs) ys (h, hs) k = (h, All-append P xs ys hs k)

module _ (R : Reals) where
  -- An address is not among those behind it.
  refs-above :
      (side : ℕ → Ref) (other : (i j : ℕ) → i < j → side i ≢ side j) (j k : ℕ) (xs : List (Actor R))
      → j < k
      → All (λ q. side j ≢ q) (refs R side k xs)
  unfolding refs
  refs-above side other j k [] h = tt
  refs-above side other j k (x ∷ xs) h =
      (other j k h, refs-above side other j (suc k) xs (omega (arith, h)))

  All-refs :
      (P : Ref → Type 0) (side : ℕ → Ref) (k : ℕ) (xs : List (Actor R))
      → ((n : ℕ) → P (side n))
      → All P (refs R side k xs)
  unfolding refs
  All-refs P side k [] h = tt
  All-refs P side k (x ∷ xs) h = (h k, All-refs P side (suc k) xs h)

  Ready-refs :
      (side : ℕ → Ref) (other : (i j : ℕ) → i < j → side i ≢ side j) (k : ℕ) (xs : List (Actor R))
      (b : Battle R)
      → ((n : ℕ) (x : Actor R) → nth R n xs ≡ some x → actor_at R (side (k + n)) b ≡ some x)
      → All (IsIdle R) xs
      → Ready R (refs R side k xs) xs b
  unfolding refs Ready nth
  Ready-refs side other k [] b h i = tt
  Ready-refs side other k (x ∷ xs) b h (i, is') = (
    subst (λ n. actor_at R (side n) b ≡ some x) (omega arith) (h zero x refl),
    i.no_events event_skill,
    i.no_ends,
    refs-above side other k (suc k) xs (omega arith),
    Ready-refs side other (suc k) xs b
        (λ n y e. subst (λ j. actor_at R (side j) b ≡ some y) (omega arith) (h (suc n) y e)) is',
  )

  Ready-append :
      (ps qs : List Ref) (xs ys : List (Actor R)) (b : Battle R)
      → All (λ p. All (λ q. p ≢ q) qs) ps
      → Ready R ps xs b
      → Ready R qs ys b
      → Ready R (ps ++ qs) (xs ++ ys) b
  unfolding Ready
  Ready-append [] qs [] ys b d r s = s
  Ready-append [] qs (x ∷ xs) ys b d r s = absurd r
  Ready-append (p ∷ ps) qs [] ys b d r s = absurd r
  Ready-append (p ∷ ps) qs (x ∷ xs) ys b (d, ds) (at, quiet, ends, other, rest) s =
      (at, quiet, ends, All-append (λ q. p ≢ q) ps qs other d, Ready-append ps qs xs ys b ds rest s)

  atk_inj : {i j : ℕ} → in_atk i ≡ in_atk j → i ≡ j
  atk_inj e = cc e

  def_inj : {i j : ℕ} → in_def i ≡ in_def j → i ≡ j
  def_inj e = cc e

  ordered-Ready :
      (b : Battle R) → IsOver R b → Ready R ((ordered R b).atk_order) (b.atk ++ b.def) (ordered R b)
  unfolding ordered actor_at
  ordered-Ready b o =
      Ready-append (refs R in_atk 0 b.atk) (refs R in_def 0 b.def) b.atk b.def _
        (All-refs (λ p. All (λ q. p ≢ q) (refs R in_def 0 b.def)) in_atk 0 b.atk
          (λ n. All-refs (λ q. in_atk n ≢ q) in_def 0 b.def (λ m e. absurd (cc e))))
        (Ready-refs in_atk (λ i j l e. absurd (omega (arith, l, atk_inj e))) 0 b.atk _
          (λ n x h. subst (λ i. nth R i b.atk ≡ some x) (omega arith) h) o.idle_atk)
        (Ready-refs in_def (λ i j l e. absurd (omega (arith, l, def_inj e))) 0 b.def _
          (λ n x h. subst (λ i. nth R i b.def ≡ some x) (omega arith) h) o.idle_def)

  placed-IsIdle :
      (base : ℤ) (xs : List (Actor R)) → All (IsIdle R) xs → All (IsIdle R) (map (placed R base) xs)
  unfolding placed
  placed-IsIdle base [] h = tt
  placed-IsIdle base (x ∷ xs) (h, hs) = (
    record { no_buffs = h.no_buffs; no_ends = h.no_ends; no_events = h.no_events },
    placed-IsIdle base xs hs,
  )

  -- The teams in their places, the attackers first.
  abbrev pub line_up : Battle R → List (Actor R)
  line_up b = map (placed R (pos 100)) b.atk ++ map (placed R (pos 200)) b.def

  -- Let calls lead to a battle, and its skill 400 be one with the target "me". Then `start` never
  -- follows a null pointer and never reads past the end of a vector, and it writes that each attacker
  -- and then each defender gains the first number of the skill.
  pub start-gains :
      (b : Battle R) (cfg : Skillcfg R)
      → Reached R b
      → b.skillcfg (pos 400) ≡ some cfg
      → cfg.targ ≡ me
      → ((start R b).lost ≡ b.lost) × ((start R b).out ≡ b.out ++ map (gains R cfg) (line_up b))
  unfolding start round roundend ordered
  start-gains b cfg r found self =
      let over = Reached-IsOver R b r in
      let c : Battle R = record b {
        atk = map (placed R (pos 100)) b.atk;
        def = map (placed R (pos 200)) b.def;
        round = pos 1;
      } in
      let ps = (ordered R c).atk_order in
      let named = ap (λ t. Map.same string_order t me) self ∙ Map.same_refl string_order me in
      let g = turns-Gained R cfg named ps (line_up b) (ordered R c) found (
        ordered-Ready c (record {
          idle_atk = placed-IsIdle (pos 100) b.atk over.idle_atk;
          idle_def = placed-IsIdle (pos 200) b.def over.idle_def;
        })) in
      let d = turns R ps (ordered R c) in
      let e = end_turns-Ended R d.atk_order d (subst (All (QuietAt R d)) (sym g.order) g.quiet) in
      (e.lost ∙ g.lost, e.out ∙ g.out)
