-- ===== src/Battle/Turns.antt =====
-- The turns of the actors keep what holds while they run.
use luatest.Prelude.{
  ◌≡◌, ◌∙◌, refl, inl, inr, ℕ, ◌/◌, List, [], ◌∷◌, Option, none, some, Bool-cases, Option-cases,
}
use luatest.Prelude.Int.{ℤ, pos, eqb_ℤ}
use luatest.Std.Order.{string_order}
use luatest.Std.Map
use luatest.Std.Reals.{Reals}
use luatest.Battle.{event_skill, Ref, Skillcfg, Func, Eventdata, eskill, Battle, actor_at, lose}
use luatest.Battle.Skills.{
  blo_of, call, skillfunc, push_me, first_enemy, push_enemy, targf, on_targs, use_on, cleared,
  useskill, camp, me, enemy,
}
use luatest.Battle.Rounds.{call_all, trigger, turn, turns}
use luatest.Battle.Running.{
  IsRunning, Keeps, AllKeep, Calm, Calm-refl, Calm-IsRunning, call-Calm, skillfunc-AllKeep,
}

module _ (R : Reals) where
  push_me-Keeps : Keeps R (push_me R)
  unfolding push_me
  push_me-Keeps b r = elim (Option-cases b.src) [
    | inl h ↦ rw (push_me, h) r
    | inr (s, h) ↦ rw (push_me, h) r
  ]

  first_enemy-Keeps : (m : ℤ) (rs : List Ref) → Keeps R (first_enemy R m rs)
  unfolding first_enemy lose
  first_enemy-Keeps m [] b r = r
  first_enemy-Keeps m (x ∷ xs) b r = elim (Option-cases (blo_of R (some x) b)) [
    | inl h ↦ rw (first_enemy, h) r
    | inr (om, h) ↦ elim (Bool-cases (eqb_ℤ m (camp om))) [
      | inl k ↦ rw (first_enemy, h, k) (first_enemy-Keeps m xs b r)
      | inr k ↦ rw (first_enemy, h, k) r
    ]
  ]

  push_enemy-Keeps : Keeps R (push_enemy R)
  unfolding push_enemy lose
  push_enemy-Keeps b r = elim (Option-cases (blo_of R b.src b)) [
    | inl h ↦ rw (push_enemy, h) r
    | inr (m, h) ↦ rw (push_enemy, h) (first_enemy-Keeps (camp m) b.atk_order b r)
  ]

  targf-AllKeep : (name : List ℕ) → AllKeep R (targf R name)
  unfolding targf
  targf-AllKeep name = elim (Bool-cases (Map.same string_order name me)) [
    | inl h ↦ rw (targf, h) push_me-Keeps
    | inr h ↦ elim (Bool-cases (Map.same string_order name enemy)) [
      | inl k ↦ rw (targf, h, k) push_enemy-Keeps
      | inr k ↦ rw (targf, h, k) tt
    ]
  ]

  on_targs-Keeps :
      (action : Battle R → Battle R) (rs : List Ref)
      → Keeps R action
      → Keeps R (on_targs R action rs)
  unfolding on_targs
  on_targs-Keeps action [] k b r = r
  on_targs-Keeps action (x ∷ xs) k b r =
      on_targs-Keeps action xs k _ (k (record b { targ = some x }) r)

  use_on-Keeps :
      (cfg : Skillcfg R) (action : Battle R → Battle R)
      → Keeps R action
      → Keeps R (use_on R cfg action)
  unfolding use_on
  use_on-Keeps cfg action k b r = go b.targs refl
    where
      go : (ts : List Ref) → b.targs ≡ ts → IsRunning R (use_on R cfg action b)
      go [] h = rw (use_on, h) r
      go (x ∷ xs) h =
          rw (use_on, h)
            (on_targs-Keeps action (x ∷ xs) k (record b { params = some cfg.aparams }) r)

  use-Keeps :
      (cfg : Skillcfg R) (skillid : ℕ) (b : Battle R)
      → b.skillcfg (pos skillid) ≡ some cfg
      → IsRunning R b
      → IsRunning R (useskill R skillid b)
  unfolding useskill
  use-Keeps cfg skillid b found r = elim (Option-cases b.src) [
    | inl h ↦ rw (useskill, h) r
    | inr (s, h) ↦
        go s h (targf R cfg.targ) refl (targf-AllKeep cfg.targ) (skillfunc R (skillid / 100)) refl
          (skillfunc-AllKeep R (skillid / 100))
  ]
    where
      go :
          (s : Ref)
          → b.src ≡ some s
          → (f : Option (Battle R → Battle R)) → targf R cfg.targ ≡ f
          → AllKeep R f
          → (g : Option (Battle R → Battle R)) → skillfunc R (skillid / 100) ≡ g
          → AllKeep R g
          → IsRunning R (useskill R skillid b)
      go s h none hf kf g hg kg = rw (useskill, h, found, hf) r
      go s h (some f) hf kf none hg kg = rw (useskill, h, found, hf, hg) r
      go s h (some f) hf kf (some g) hg kg =
          rw (useskill, h, found, hf, hg)
            (use_on-Keeps cfg g kg (f (record (cleared R b) { params = some cfg.tparams }))
              (kf (record (cleared R b) { params = some cfg.tparams }) r))

  useskill-Keeps : (skillid : ℕ) → Keeps R (useskill R skillid)
  unfolding useskill
  useskill-Keeps skillid b r = elim (Option-cases (b.skillcfg (pos skillid))) [
    | inr (cfg, h) ↦ use-Keeps cfg skillid b h r
    | inl h ↦ elim (Option-cases b.src) [
      | inl k ↦ rw (useskill, k) r
      | inr (s, k) ↦ rw (useskill, k, h) r
    ]
  ]

  pub call_all-Calm : (fs : List (ℤ × Func R)) (b : Battle R) → Calm R b (call_all R fs b)
  unfolding call_all
  call_all-Calm [] b = Calm-refl R b
  call_all-Calm ((id, f) ∷ fs) b =
      let c = call-Calm R f b in
      let d = call_all-Calm fs (call R f b) in
      record {
        same_round = d.same_round ∙ c.same_round;
        same_order = d.same_order ∙ c.same_order;
        same_atk = d.same_atk ∙ c.same_atk;
        same_def = d.same_def ∙ c.same_def;
      }

  trigger-Keeps : (p : Ref) (event : ℤ) (d : Eventdata R) → Keeps R (trigger R p event d)
  unfolding trigger lose
  trigger-Keeps p event d b r = elim (Option-cases (actor_at R p b)) [
    | inl h ↦ rw (trigger, h) r
    | inr (a, h) ↦
        rw (trigger, h)
          (Calm-IsRunning R (record b { e = d; src = some p; targ = some p }) _
            (call_all-Calm (a.eventfunc event) (record b { e = d; src = some p; targ = some p })) r)
  ]

  pub turns-Keeps : (ps : List Ref) → Keeps R (turns R ps)
  unfolding turns turn
  turns-Keeps [] b r = r
  turns-Keeps (p ∷ ps) b r = turns-Keeps ps (turn R p b) (
      trigger-Keeps p event_skill (eskill (pos 200)) _
        (useskill-Keeps 400 (record b { src = some p }) r))
