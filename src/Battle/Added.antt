-- ===== src/Battle/Added.antt =====
-- The functions that a new buff brings belong to it.
use luatest.Prelude.{◌≡◌, sym, refl, ◌⊎◌, inl, inr, List, [], ◌∷◌, true, All, Bool-cases}
use mathlib.Core.Path.{subst}
use luatest.Prelude.Int.{ℤ, pos, ltb_ℤ, eqb_ℤ, eqb_ℤ-eq}
use luatest.Std.Set.{In}
use luatest.Std.Table.{In-assign_at}
use luatest.Std.Reals.{Reals}
use luatest.Battle.{Func, Buff, Actor}
use luatest.Battle.Buffs.{
  insert_buff, initbuff, raise_all, keep_buff, buffattr, buff_roundend, assign_event, buffevent,
}
use luatest.Battle.Owned.{IsOwned}

module _ (R : Reals) where
  In-insert_new : (x : Buff R) (bs : List (Buff R)) → In x (insert_buff R x bs)
  unfolding insert_buff
  In-insert_new x [] = inl refl
  In-insert_new x (b ∷ bs) = elim (Bool-cases (ltb_ℤ x.endtm b.endtm)) [
    | inl h ↦ rw h (inl refl)
    | inr h ↦ rw h (inr (In-insert_new x bs))
  ]

  In-insert_old : (x y : Buff R) (bs : List (Buff R)) → In y bs → In y (insert_buff R x bs)
  unfolding insert_buff
  In-insert_old x y [] m = absurd m
  In-insert_old x y (b ∷ bs) m = elim (Bool-cases (ltb_ℤ x.endtm b.endtm)) [
    | inl h ↦ rw h (inr m)
    | inr h ↦ rw h (elim m [ inl e ↦ inl e | inr n ↦ inr (In-insert_old x y bs n) ])
  ]

  All-insert_buff :
      (P : Buff R → Type 0) (x : Buff R) (bs : List (Buff R))
      → P x
      → All P bs
      → All P (insert_buff R x bs)
  unfolding insert_buff
  All-insert_buff P x [] h k = (h, tt)
  All-insert_buff P x (b ∷ bs) h (k, ks) = elim (Bool-cases (ltb_ℤ x.endtm b.endtm)) [
    | inl l ↦ rw l (h, (k, ks))
    | inr l ↦ rw l (k, All-insert_buff P x bs h ks)
  ]

  -- An actor as it is before a new buff is inserted: each new function has the id of the buff.
  record Adds (x : Buff R) (a u : Actor R) : Type 0 where
    pub same : u.buffs ≡ a.buffs
    pub first : x.endtm ≡ pos 1
    pub ends :
        (id : ℤ) (f : Func R) → In (id, f) u.roundend → (id ≡ pos x.id) ⊎ In (id, f) a.roundend
    pub events :
        (event id : ℤ) (f : Func R)
        → In (id, f) (u.eventfunc event)
        → ((id ≡ pos x.id) × ((x.event ≡ event) × (ltb_ℤ (pos 0) event ≡ true)))
          ⊎ In (id, f) (a.eventfunc event)

  keep_buff-IsOwned :
      (x : Buff R) (a u : Actor R) → Adds x a u → IsOwned R a → IsOwned R (keep_buff R (x, u))
  unfolding keep_buff
  keep_buff-IsOwned x a u d o = record {
    at_end = λ id f m. elim (d.ends id f m) [
      | inl e ↦ (x, (In-insert_new x u.buffs, sym e))
      | inr n ↦
          let (y, (there, same)) = o.at_end id f n in
          (y, (In-insert_old x y u.buffs (subst (In y) (sym d.same) there), same))
    ];
    at_event = λ event id f m. elim (d.events event id f m) [
      | inl (e, (kind, after)) ↦ (x, (In-insert_new x u.buffs, sym e, kind, after))
      | inr n ↦
          let (y, (there, same, kind, after)) = o.at_event event id f n in
          (y, (In-insert_old x y u.buffs (subst (In y) (sym d.same) there), same, kind, after))
    ];
    brief =
        All-insert_buff (λ (y : Buff R). y.endtm ≡ pos 1) x u.buffs d.first
          (subst (All (λ (y : Buff R). y.endtm ≡ pos 1)) (sym d.same) o.brief);
  }

  -- Only the attributes change under `raise_all`.
  record Raised (x y : Buff R) (a u : Actor R) : Type 0 where
    pub time : y.endtm ≡ x.endtm
    pub buffs : u.buffs ≡ a.buffs
    pub ends : u.roundend ≡ a.roundend
    pub events : u.eventfunc ≡ a.eventfunc

  raise_all-Raised :
      (arr : List R.Real) (x : Buff R) (a : Actor R)
      → Raised x (raise_all R arr x a).0 a (raise_all R arr x a).1
  unfolding raise_all
  raise_all-Raised [] x a = record { time = refl; buffs = refl; ends = refl; events = refl }
  raise_all-Raised (k ∷ []) x a = record { time = refl; buffs = refl; ends = refl; events = refl }
  raise_all-Raised (k ∷ v ∷ arr) x a =
      let r = raise_all-Raised arr _ _ in
      record { time = r.time; buffs = r.buffs; ends = r.ends; events = r.events }

  pub buffattr-IsOwned :
      (tid : ℤ) (arr : List R.Real) (a : Actor R) → IsOwned R a → IsOwned R (buffattr R tid arr a)
  unfolding buffattr initbuff
  buffattr-IsOwned tid arr a o =
      let r = raise_all-Raised arr (initbuff R tid a).0 (initbuff R tid a).1 in
      keep_buff-IsOwned _ a _
        (record {
          same = r.buffs;
          first = r.time;
          ends = λ id f m. inr (subst (In (id, f)) r.ends m);
          events = λ event id f m.
              inr (subst (λ (g : ℤ → List (ℤ × Func R)). In (id, f) (g event)) r.events m);
        })
        o

  pub buff_roundend-IsOwned :
      (tid : ℤ) (func : Func R) (a : Actor R) → IsOwned R a → IsOwned R (buff_roundend R tid func a)
  unfolding buff_roundend initbuff
  buff_roundend-IsOwned tid func a o =
      keep_buff-IsOwned _ a _
        (record {
          same = refl;
          first = refl;
          ends = λ id f m. In-assign_at id _ f func a.roundend m;
          events = λ event id f m. inr m;
        })
        o

  pub buffevent-IsOwned :
      (tid event : ℤ) (func : Func R) (a : Actor R)
      → ltb_ℤ (pos 0) event ≡ true
      → IsOwned R a
      → IsOwned R (buffevent R tid event func a)
  unfolding buffevent initbuff assign_event
  buffevent-IsOwned tid event func a after o =
      keep_buff-IsOwned _ a _
        (record {
          same = refl;
          first = refl;
          ends = λ id f m. inr m;
          events = λ i id f m. elim (Bool-cases (eqb_ℤ i event)) [
            | inl h ↦
                let e = eqb_ℤ-eq i event h in
                elim (In-assign_at id _ f func (a.eventfunc event) (rw h at m)) [
                  | inl same ↦
                      inl (same, (sym e, subst (λ j. ltb_ℤ (pos 0) j ≡ true) (sym e) after))
                  | inr old ↦ inr (subst (λ j. In (id, f) (a.eventfunc j)) (sym e) old)
                ]
            | inr h ↦ inr (rw h at m)
          ];
        })
        o
