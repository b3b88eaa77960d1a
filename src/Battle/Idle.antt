-- ===== src/Battle/Idle.antt =====
-- The end of a round leaves the actors without buffs.
use luatest.Prelude.{
  ◌≡◌, ◌∙◌, sym, ap, refl, ◌⊎◌, inl, inr, ℕ, zero, suc, List, [], ◌∷◌, none, some, All,
  Option-cases,
}
use mathlib.Core.Path.{subst}
use luatest.Prelude.Int.{ℤ, pos}
use luatest.Std.Set.{In}
use luatest.Std.Reals.{Reals}
use luatest.Battle.{Ref, in_atk, in_def, Actor, Battle, nth, change, actor_at, change_at, lose}
use luatest.Battle.Buffs.{drop_buffs}
use luatest.Battle.Rounds.{call_all, end_turn, end_turns}
use luatest.Battle.Owned.{IsOwned, IsIdle, IsIdle-IsOwned, drop_buffs-IsIdle}
use luatest.Battle.Running.{IsRunning, Calm, Calm-IsRunning, nth-change, change_at-IsRunning}
use luatest.Battle.Turns.{call_all-Calm}

module _ (R : Reals) where
  nth-change_same :
      (n : ℕ) (f : Actor R → Actor R) (xs : List (Actor R)) (a : Actor R)
      → nth R n (change R n f xs) ≡ some a
      → (o : Actor R) × ((nth R n xs ≡ some o) × (a ≡ f o))
  unfolding nth change
  nth-change_same n f [] a h = absurd (cc h)
  nth-change_same zero f (x ∷ xs) a h = (x, (refl, sym (cc h)))
  nth-change_same (suc n) f (x ∷ xs) a h = nth-change_same n f xs a h

  actor_at-change_at :
      (p : Ref) (f : Actor R → Actor R) (b : Battle R) (a : Actor R)
      → actor_at R p (change_at R p f b) ≡ some a
      → (o : Actor R) × ((actor_at R p b ≡ some o) × (a ≡ f o))
  unfolding actor_at change_at
  actor_at-change_at (in_atk n) f b a h = nth-change_same n f b.atk a h
  actor_at-change_at (in_def n) f b a h = nth-change_same n f b.def a h

  -- Where another actor changes, too.
  actor_at_other :
      (q p : Ref) (f : Actor R → Actor R) (b : Battle R) (a : Actor R)
      → actor_at R q (change_at R p f b) ≡ some a
      → (o : Actor R) × ((actor_at R q b ≡ some o) × ((a ≡ o) ⊎ (a ≡ f o)))
  unfolding actor_at change_at
  actor_at_other (in_atk n) (in_atk m) f b a h = nth-change R m n f b.atk a h
  actor_at_other (in_def n) (in_def m) f b a h = nth-change R m n f b.def a h
  actor_at_other (in_atk n) (in_def m) f b a h = (a, (h, inl refl))
  actor_at_other (in_def n) (in_atk m) f b a h = (a, (h, inl refl))

  actor_at-Calm : (r : Ref) (b c : Battle R) → Calm R b c → actor_at R r c ≡ actor_at R r b
  unfolding actor_at
  actor_at-Calm (in_atk n) b c s = ap (nth R n) s.same_atk
  actor_at-Calm (in_def n) b c s = ap (nth R n) s.same_def

  All-nth :
      (P : Actor R → Type 0) (n : ℕ) (xs : List (Actor R)) (a : Actor R)
      → All P xs
      → nth R n xs ≡ some a
      → P a
  unfolding nth
  All-nth P n [] a h e = absurd (cc e)
  All-nth P zero (x ∷ xs) a h e = subst P (cc e) h.0
  All-nth P (suc n) (x ∷ xs) a h e = All-nth P n xs a h.1 e

  pub nth-All :
      (P : Actor R → Type 0) (xs : List (Actor R))
      → ((n : ℕ) (a : Actor R) → nth R n xs ≡ some a → P a)
      → All P xs
  unfolding nth
  nth-All P [] h = tt
  nth-All P (x ∷ xs) h = (h zero x refl, nth-All P xs (λ n a e. h (suc n) a e))

  actor_at-IsOwned :
      (r : Ref) (b : Battle R) (a : Actor R) → IsRunning R b → actor_at R r b ≡ some a → IsOwned R a
  unfolding actor_at
  actor_at-IsOwned (in_atk n) b a r h = All-nth (IsOwned R) n b.atk a r.owned_atk h
  actor_at-IsOwned (in_def n) b a r h = All-nth (IsOwned R) n b.def a r.owned_def h

  unfoldable pub IdleAt : Ref → Battle R → Type 0
  IdleAt r b = (a : Actor R) → actor_at R r b ≡ some a → IsIdle R a

  drop-IsIdle :
      (now : ℤ) (a : Actor R) → now ≡ pos 1 → IsOwned R a → IsIdle R (drop_buffs R now a.buffs a)
  drop-IsIdle now a h o =
      subst (λ t. IsIdle R (drop_buffs R t a.buffs a)) (sym h) (drop_buffs-IsIdle R a.buffs a o)

  -- What `end_turn` does, if the actor is there.
  unfoldable pub after_calls : Ref → Actor R → Battle R → Battle R
  unfolding call_all
  after_calls p a b =
      let b' = call_all R a.roundend (record b { src = some p; targ = some p }) in
      record b' { src = none; targ = none }

  pub after_calls-Calm : (p : Ref) (a : Actor R) (b : Battle R) → Calm R b (after_calls p a b)
  unfolding after_calls
  after_calls-Calm p a b =
      let c = call_all-Calm R a.roundend (record b { src = some p; targ = some p }) in
      record {
        same_round = c.same_round;
        same_order = c.same_order;
        same_atk = c.same_atk;
        same_def = c.same_def;
      }

  end_turn-none :
      (p : Ref) (b : Battle R) → actor_at R p b ≡ none → actor_at R p (end_turn R p b) ≡ none
  unfolding end_turn lose
  end_turn-none p b h =
      rw (end_turn, h)
        (actor_at-Calm p b (lose R b)
            (record { same_round = refl; same_order = refl; same_atk = refl; same_def = refl })
          ∙ h)

  pub end_turn-there :
      (p : Ref) (a : Actor R) (b : Battle R)
      → actor_at R p b ≡ some a
      → end_turn R p b ≡ change_at R p (λ o. drop_buffs R b.round o.buffs o) (after_calls p a b)
  unfolding end_turn after_calls
  end_turn-there p a b h = rw (end_turn, h) refl

  end_turn-IsRunning : (p : Ref) (b : Battle R) → IsRunning R b → IsRunning R (end_turn R p b)
  unfolding end_turn lose
  end_turn-IsRunning p b r = elim (Option-cases (actor_at R p b)) [
    | inl h ↦ rw (end_turn, h) r
    | inr (a, h) ↦ subst (IsRunning R) (sym (end_turn-there p a b h)) (
        change_at-IsRunning R p _ (after_calls p a b)
          (λ o k. IsIdle-IsOwned R _ (drop-IsIdle b.round o r.first k))
          (Calm-IsRunning R b (after_calls p a b) (after_calls-Calm p a b) r))
  ]

  end_turn_self : (p : Ref) (b : Battle R) → IsRunning R b → IdleAt p (end_turn R p b)
  unfolding IdleAt
  end_turn_self p b r a h = elim (Option-cases (actor_at R p b)) [
    | inl k ↦ absurd (cc (h, end_turn-none p b k))
    | inr (x, k) ↦
        let c = after_calls p x b in
        let (o, (there, e)) =
          actor_at-change_at p (λ o. drop_buffs R b.round o.buffs o) c a
            (ap (actor_at R p) (sym (end_turn-there p x b k)) ∙ h) in
        subst (IsIdle R) (sym e) (
          drop-IsIdle b.round o r.first
            (actor_at-IsOwned p b o r (sym (actor_at-Calm p b c (after_calls-Calm p x b)) ∙ there)))
  ]

  end_turn_other :
      (q p : Ref) (b : Battle R) → IsRunning R b → IdleAt q b → IdleAt q (end_turn R p b)
  unfolding IdleAt end_turn lose
  end_turn_other q p b r i a h = elim (Option-cases (actor_at R p b)) [
    | inl k ↦ i a (lost_same k)
    | inr (x, k) ↦
        let c = after_calls p x b in
        let (o, (there, e)) =
          actor_at_other q p (λ o. drop_buffs R b.round o.buffs o) c a
            (ap (actor_at R q) (sym (end_turn-there p x b k)) ∙ h) in
        let before : actor_at R q b ≡ some o =
          sym (actor_at-Calm q b c (after_calls-Calm p x b)) ∙ there in
        elim e [
          | inl same ↦ subst (IsIdle R) (sym same) (i o before)
          | inr changed ↦
              subst (IsIdle R) (sym changed)
                (drop-IsIdle b.round o r.first (actor_at-IsOwned q b o r before))
        ]
  ]
    where
      lost_same : actor_at R p b ≡ none → actor_at R q b ≡ some a
      lost_same k =
          sym (
            actor_at-Calm q b (lose R b)
              (record { same_round = refl; same_order = refl; same_atk = refl; same_def = refl }))
          ∙ rw (end_turn, k) at h

  end_turns_done :
      (q : Ref) (ps : List Ref) (b : Battle R)
      → IsRunning R b
      → IdleAt q b
      → IdleAt q (end_turns R ps b)
  unfolding end_turns
  end_turns_done q [] b r i = i
  end_turns_done q (p ∷ ps) b r i =
      end_turns_done q ps (end_turn R p b) (end_turn-IsRunning p b r) (end_turn_other q p b r i)

  pub end_turns-IdleAt :
      (q : Ref) (ps : List Ref) (b : Battle R)
      → IsRunning R b
      → In q ps
      → IdleAt q (end_turns R ps b)
  unfolding end_turns
  end_turns-IdleAt q [] b r m = absurd m
  end_turns-IdleAt q (p ∷ ps) b r (inl e) =
      end_turns_done q ps (end_turn R p b) (end_turn-IsRunning p b r)
        (subst (λ x. IdleAt x (end_turn R p b)) (sym e) (end_turn_self p b r))
  end_turns-IdleAt q (p ∷ ps) b r (inr m) =
      end_turns-IdleAt q ps (end_turn R p b) (end_turn-IsRunning p b r) m

  pub end_turns-IsRunning :
      (ps : List Ref) (b : Battle R) → IsRunning R b → IsRunning R (end_turns R ps b)
  unfolding end_turns
  end_turns-IsRunning [] b r = r
  end_turns-IsRunning (p ∷ ps) b r =
      end_turns-IsRunning ps (end_turn R p b) (end_turn-IsRunning p b r)
