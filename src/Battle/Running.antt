-- ===== src/Battle/Running.antt =====
-- What holds while the actors of a battle take their turns.
use luatest.Prelude.{
  ◌≡◌, sym, refl, ◌⊎◌, inl, inr, ℕ, zero, suc, List, [], ◌∷◌, Option, none, some, All, Bool-cases,
  Option-cases, ◌==◌,
}
use luatest.Prelude.Int.{ℤ, pos}
use luatest.Std.Set.{In}
use luatest.Std.Reals.{Reals}
use luatest.Battle.{
  event_skill, event_atked, Ref, in_atk, in_def, Func, heals, strikes_back, Actor, Eventdata,
  eskill, eatk, eatked, Battle, nth, change, change_at, lose,
}
use luatest.Battle.Skills.{
  blo_of, damage, addhp, on_targ, call, attack, heal, strengthen, heal_later, counter, skillfunc,
}
use luatest.Battle.Owned.{IsOwned}
use luatest.Battle.Added.{buffattr-IsOwned, buff_roundend-IsOwned, buffevent-IsOwned}

module _ (R : Reals) where
  -- In the first round, each actor is in the order, and its functions are its buffs'.
  pub record Running (round : ℤ) (order : List Ref) (atk def : List (Actor R)) : Type 0 where
    pub first : round ≡ pos 1
    pub owned_atk : All (IsOwned R) atk
    pub owned_def : All (IsOwned R) def
    pub listed_atk : (n : ℕ) (a : Actor R) → nth R n atk ≡ some a → In (in_atk n) order
    pub listed_def : (n : ℕ) (a : Actor R) → nth R n def ≡ some a → In (in_def n) order

  abbrev pub IsRunning : Battle R → Type 0
  IsRunning b = Running b.round b.atk_order b.atk b.def

  pub nth-change :
      (m n : ℕ) (f : Actor R → Actor R) (as' : List (Actor R)) (a : Actor R)
      → nth R n (change R m f as') ≡ some a
      → (o : Actor R) × ((nth R n as' ≡ some o) × ((a ≡ o) ⊎ (a ≡ f o)))
  unfolding nth change
  nth-change m n f [] a h = absurd (cc h)
  nth-change zero zero f (x ∷ xs) a h = (x, (refl, inr (sym (cc h))))
  nth-change zero (suc n) f (x ∷ xs) a h = (a, (h, inl refl))
  nth-change (suc m) zero f (x ∷ xs) a h = (x, (refl, inl (sym (cc h))))
  nth-change (suc m) (suc n) f (x ∷ xs) a h = nth-change m n f xs a h

  pub All-change :
      (P : Actor R → Type 0) (m : ℕ) (f : Actor R → Actor R) (as' : List (Actor R))
      → ((a : Actor R) → P a → P (f a))
      → All P as'
      → All P (change R m f as')
  unfolding change
  All-change P m f [] k h = tt
  All-change P zero f (x ∷ xs) k (h, hs) = (k x h, hs)
  All-change P (suc m) f (x ∷ xs) k (h, hs) = (h, All-change P m f xs k hs)

  pub change_at-IsRunning :
      (p : Ref) (f : Actor R → Actor R) (b : Battle R)
      → ((a : Actor R) → IsOwned R a → IsOwned R (f a))
      → IsRunning b
      → IsRunning (change_at R p f b)
  unfolding change_at
  change_at-IsRunning (in_atk m) f b k r = record {
    first = r.first;
    owned_atk = All-change (IsOwned R) m f b.atk k r.owned_atk;
    owned_def = r.owned_def;
    listed_atk = λ n a h. let (o, (old, e)) = nth-change m n f b.atk a h in r.listed_atk n o old;
    listed_def = r.listed_def;
  }
  change_at-IsRunning (in_def m) f b k r = record {
    first = r.first;
    owned_atk = r.owned_atk;
    owned_def = All-change (IsOwned R) m f b.def k r.owned_def;
    listed_atk = r.listed_atk;
    listed_def = λ n a h. let (o, (old, e)) = nth-change m n f b.def a h in r.listed_def n o old;
  }

  -- What a function of a battle may do, as far as the turns go.
  abbrev pub Keeps : (Battle R → Battle R) → Type 0
  Keeps f = (b : Battle R) → IsRunning b → IsRunning (f b)

  -- Functions that leave the round, the order and the actors alone.
  pub record Calm (b c : Battle R) : Type 0 where
    pub same_round : c.round ≡ b.round
    pub same_order : c.atk_order ≡ b.atk_order
    pub same_atk : c.atk ≡ b.atk
    pub same_def : c.def ≡ b.def

  pub Calm-refl : (b : Battle R) → Calm b b
  Calm-refl b = record { same_round = refl; same_order = refl; same_atk = refl; same_def = refl }

  pub Calm-IsRunning : (b c : Battle R) → Calm b c → IsRunning b → IsRunning c
  Calm-IsRunning b c s r = rw (s.same_round, s.same_order, s.same_atk, s.same_def) r

  damage-Calm : (v : R.Real) (b : Battle R) → Calm b (damage R v b)
  unfolding damage lose
  damage-Calm v b = elim (Option-cases (blo_of R b.targ b)) [
    | inl h ↦
        rw (damage, h)
          (record { same_round = refl; same_order = refl; same_atk = refl; same_def = refl })
    | inr (t, h) ↦ elim (Option-cases (blo_of R b.src b)) [
      | inl k ↦
          rw (damage, h, k)
            (record { same_round = refl; same_order = refl; same_atk = refl; same_def = refl })
      | inr (s, k) ↦
          rw (damage, h, k)
            (record { same_round = refl; same_order = refl; same_atk = refl; same_def = refl })
    ]
  ]

  addhp-Calm : (v : R.Real) (b : Battle R) → Calm b (addhp R v b)
  unfolding addhp lose
  addhp-Calm v b = elim (Option-cases (blo_of R b.targ b)) [
    | inl h ↦
        rw (addhp, h)
          (record { same_round = refl; same_order = refl; same_atk = refl; same_def = refl })
    | inr (t, h) ↦
        rw (addhp, h)
          (record { same_round = refl; same_order = refl; same_atk = refl; same_def = refl })
  ]

  pub call-Calm : (f : Func R) (b : Battle R) → Calm b (call R f b)
  unfolding call lose
  call-Calm (heals v) b = addhp-Calm v b
  call-Calm (strikes_back p) b = go b.e refl
    where
      go : (e : Eventdata R) → b.e ≡ e → Calm b (call R (strikes_back p) b)
      go (eskill id) h =
          rw (call, h)
            (record { same_round = refl; same_order = refl; same_atk = refl; same_def = refl })
      go (eatk s t v) h =
          rw (call, h)
            (record { same_round = refl; same_order = refl; same_atk = refl; same_def = refl })
      go (eatked s t v) h =
          rw (call, h)
            (let d = damage-Calm _ (record b { targ = some s; src = some t }) in
              record {
                same_round = d.same_round;
                same_order = d.same_order;
                same_atk = d.same_atk;
                same_def = d.same_def;
              })

  on_targ-Keeps :
      (f : Actor R → Actor R)
      → ((a : Actor R) → IsOwned R a → IsOwned R (f a))
      → Keeps (on_targ R f)
  unfolding on_targ lose
  on_targ-Keeps f k b r = elim (Option-cases b.targ) [
    | inl h ↦ rw (on_targ, h) r
    | inr (p, h) ↦ rw (on_targ, h) (change_at-IsRunning p f b k r)
  ]

  attack-Keeps : Keeps (attack R)
  unfolding attack
  attack-Keeps b r = Calm-IsRunning b _ (damage-Calm _ b) r

  heal-Keeps : Keeps (heal R)
  unfolding heal
  heal-Keeps b r = on_targ-Keeps _ (λ a o. buff_roundend-IsOwned R (pos 10) _ a o) b r

  strengthen-Keeps : Keeps (strengthen R)
  unfolding strengthen lose
  strengthen-Keeps b r = go b.params refl
    where
      go : (p : Option (List R.Real)) → b.params ≡ p → IsRunning (strengthen R b)
      go none h = rw (strengthen, h) r
      go (some []) h = rw (strengthen, h) r
      go (some (x ∷ xs)) h =
          rw (strengthen, h) (on_targ-Keeps _ (λ a o. buffattr-IsOwned R (pos 10) (x ∷ xs) a o) b r)

  heal_later-Keeps : Keeps (heal_later R)
  unfolding heal_later
  heal_later-Keeps b r =
      on_targ-Keeps _ (λ a o. buffevent-IsOwned R (pos 10) event_skill _ a refl o) b r

  counter-Keeps : Keeps (counter R)
  unfolding counter
  counter-Keeps b r =
      on_targ-Keeps _ (λ a o. buffevent-IsOwned R (pos 10) event_atked _ a refl o) b r

  -- What holds of a function, if there is one.
  abbrev pub AllKeep : Option (Battle R → Battle R) → Type 0
  AllKeep none = Unit
  AllKeep (some f) = Keeps f

  pub skillfunc-AllKeep : (n : ℕ) → AllKeep (skillfunc R n)
  unfolding skillfunc
  skillfunc-AllKeep n = elim (Bool-cases (n == 1)) [
    | inl h ↦ rw (skillfunc, h) attack-Keeps
    | inr h1 ↦ elim (Bool-cases (n == 2)) [
      | inl h ↦ rw (skillfunc, h1, h) heal-Keeps
      | inr h2 ↦ elim (Bool-cases (n == 3)) [
        | inl h ↦ rw (skillfunc, h1, h2, h) strengthen-Keeps
        | inr h3 ↦ elim (Bool-cases (n == 4)) [
          | inl h ↦ rw (skillfunc, h1, h2, h3, h) heal_later-Keeps
          | inr h4 ↦ elim (Bool-cases (n == 5)) [
            | inl h ↦ rw (skillfunc, h1, h2, h3, h4, h) counter-Keeps
            | inr h5 ↦ rw (skillfunc, h1, h2, h3, h4, h5) tt
          ]
        ]
      ]
    ]
  ]
