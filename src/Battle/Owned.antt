-- ===== src/Battle/Owned.antt =====
-- The functions of an actor belong to its buffs, and go with them.
use luatest.Prelude.{◌≡◌, ◌≢◌, ◌∙◌, sym, ap, refl, inl, inr, List, [], ◌∷◌, true, All, Bool-cases}
use mathlib.Core.Path.{subst}
use luatest.Prelude.Int.{ℤ, pos, ltb_ℤ, leb_ℤ, eqb_ℤ, eqb_ℤ-eq, eqb_ℤ_refl}
use luatest.Std.Set.{In}
use luatest.Std.Table.{erase_at, In-erase_at}
use luatest.Std.Reals.{Reals}
use luatest.Battle.{Func, Buff, Actor}
use luatest.Battle.Buffs.{erase_event, removebuff, drop_buffs}

module _ (R : Reals) where
  -- Each function has its buff among `bs`, and the buffs end with the first round.
  pub record Owned (bs : List (Buff R)) (a : Actor R) : Type 0 where
    pub at_end :
        (id : ℤ) (f : Func R) → In (id, f) a.roundend → (x : Buff R) × (In x bs × (pos x.id ≡ id))
    pub at_event :
        (event id : ℤ) (f : Func R)
        → In (id, f) (a.eventfunc event)
        → (x : Buff R) × (In x bs
            × (pos x.id ≡ id)
            × (x.event ≡ event)
            × (ltb_ℤ (pos 0) event ≡ true))
    pub brief : All (λ (x : Buff R). x.endtm ≡ pos 1) bs

  abbrev pub IsOwned : Actor R → Type 0
  IsOwned a = Owned a.buffs a

  -- An actor without buffs and without functions.
  pub record IsIdle (a : Actor R) : Type 0 where
    pub no_buffs : a.buffs ≡ []
    pub no_ends : a.roundend ≡ []
    pub no_events : (event : ℤ) → a.eventfunc event ≡ []

  pub IsIdle-IsOwned : (a : Actor R) → IsIdle a → IsOwned a
  IsIdle-IsOwned a i = record {
    at_end = λ id f m. absurd (subst (In (id, f)) i.no_ends m);
    at_event = λ event id f m. absurd (subst (In (id, f)) (i.no_events event) m);
    brief = subst (All (λ (x : Buff R). x.endtm ≡ pos 1)) (sym i.no_buffs) tt;
  }

  event_left :
      (b : Buff R) (a : Actor R) (event id : ℤ) (f : Func R)
      → In (id, f) ((removebuff R b a).eventfunc event)
      → (ltb_ℤ (pos 0) event ≡ true → b.event ≡ event → id ≢ pos b.id)
        × In (id, f) (a.eventfunc event)
  unfolding removebuff erase_event
  event_left b a event id f m = elim (Bool-cases (ltb_ℤ (pos 0) b.event)) [
    | inr h ↦ (λ k e. absurd (cc (h, k, ap (ltb_ℤ (pos 0)) e)), rw h at m)
    | inl h ↦ elim (Bool-cases (eqb_ℤ event b.event)) [
      | inl k ↦
          let n : In (id, f) (erase_at (pos b.id) (a.eventfunc b.event)) = rw (h, k) at m in
          let (d, old) = In-erase_at id (pos b.id) f (a.eventfunc b.event) n in
          (λ _ _. d, subst (λ i. In (id, f) (a.eventfunc i)) (sym (eqb_ℤ-eq event b.event k)) old)
      | inr k ↦ (λ _ e. absurd (cc (k, eqb_ℤ_refl event, ap (eqb_ℤ event) e)), rw (h, k) at m)
    ]
  ]

  removebuff-Owned :
      (b : Buff R) (bs : List (Buff R)) (a : Actor R)
      → Owned (b ∷ bs) a
      → Owned bs (removebuff R b a)
  unfolding removebuff
  removebuff-Owned b bs a o = record {
    at_end = λ id f m.
        let (other, old) = In-erase_at id (pos b.id) f a.roundend m in
        let (x, (there, same)) = o.at_end id f old in
        elim there [
          | inl e ↦ absurd (other (sym same ∙ ap (λ (y : Buff R). pos y.id) e))
          | inr n ↦ (x, (n, same))
        ];
    at_event = λ event id f m.
        let (other, old) = event_left b a event id f m in
        let (x, (there, same, kind, after)) = o.at_event event id f old in
        elim there [
          | inl e ↦ absurd (
              other after (sym (ap (λ (y : Buff R). y.event) e) ∙ kind)
                (sym same ∙ ap (λ (y : Buff R). pos y.id) e))
          | inr n ↦ (x, (n, same, kind, after))
        ];
    brief = o.brief.1;
  }

  none_in : {A : Type 0} (es : List (ℤ × A)) → ((id : ℤ) (f : A) → ¬ In (id, f) es) → es ≡ []
  none_in [] h = refl
  none_in ((id, f) ∷ es) h = absurd (h id f (inl refl))

  due : (b : Buff R) → b.endtm ≡ pos 1 → leb_ℤ b.endtm (pos 1) ≡ true
  due b h = rw h refl

  -- At the end of the first round all buffs go, and all functions.
  pub drop_buffs-IsIdle :
      (bs : List (Buff R)) (a : Actor R) → Owned bs a → IsIdle (drop_buffs R (pos 1) bs a)
  unfolding drop_buffs
  drop_buffs-IsIdle [] a o = record {
    no_buffs = refl;
    no_ends = none_in a.roundend (λ id f m. absurd ((o.at_end id f m).1.0));
    no_events =
        λ event. none_in (a.eventfunc event) (λ id f m. absurd ((o.at_event event id f m).1.0));
  }
  drop_buffs-IsIdle (b ∷ bs) a o =
      rw (due b o.brief.0) (drop_buffs-IsIdle bs (removebuff R b a) (removebuff-Owned b bs a o))
