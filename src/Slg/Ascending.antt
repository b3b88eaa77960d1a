-- ===== src/Slg/Ascending.antt =====
-- The troops that a view keeps stand in ascending order.
use luatest.Prelude.{
  ◌≡◌, ◌∙◌, sym, ap, inl, inr, List, [], ◌∷◌, none, some, true, false, All, Bool-cases,
  Option-cases,
}
use mathlib.Core.Path.{subst}
use luatest.Prelude.Int.{ℤ, eqb_ℤ}
use luatest.Std.Difference.{IsAscending}
use luatest.Std.Table.{erase_at, find_at}
use luatest.Cells.Laws.{some_inj}
use luatest.Land.{area, endless}
use luatest.Sight.Tracked.{sort_ids-IsAscending}
use luatest.Slg.{
  World, Troop, View, Entity, create, any_block, haveblock, addentity, delentity, troops_in,
  view_loop, troop_view, settroop, troop_of, setview,
}
use luatest.Slg.Moves.{setblock-Kept, occupy-Kept, vacate-Kept}
use luatest.Slg.Ground.{Reached, created, added, deleted, closed, opened, trooped, viewed, reported}

-- The views keep the ids of their troops in ascending order.
abbrev pub AreAscending : List (ℤ × View) → Type 0
AreAscending = All (λ e. IsAscending e.1.troop)

loop-AreAscending :
    (ts : List (ℤ × Troop)) (vs : List (ℤ × View)) → AreAscending (view_loop ts vs).0
unfolding view_loop
loop-AreAscending ts [] = tt
loop-AreAscending ts ((vid, v) ∷ vs) =
    (sort_ids-IsAscending (troops_in v ts), loop-AreAscending ts vs)

erase-AreAscending :
    (id : ℤ) (vs : List (ℤ × View)) → AreAscending vs → AreAscending (erase_at id vs)
unfolding erase_at
erase-AreAscending id [] h = tt
erase-AreAscending id ((k, v) ∷ vs) (h, hs) = elim (Bool-cases (eqb_ℤ k id)) [
  | inl e ↦ rw e (erase-AreAscending id vs hs)
  | inr e ↦ rw e (h, erase-AreAscending id vs hs)
]

find-AreAscending :
    (id : ℤ) (vs : List (ℤ × View)) → AreAscending vs → IsAscending (troop_of (find_at id vs))
unfolding find_at
find-AreAscending id [] h = tt
find-AreAscending id ((k, v) ∷ vs) (h, hs) = elim (Bool-cases (eqb_ℤ k id)) [
  | inl e ↦ rw e h
  | inr e ↦ rw e (find-AreAscending id vs hs)
]

addentity-view : (id : ℤ) (e : Entity) (w u : World) → addentity id e w ≡ some u → u.view ≡ w.view
unfolding addentity haveblock
addentity-view id e w u h = elim (Option-cases (w.entity id)) [
  | inr (old, there) ↦ ap World.view (sym (some_inj (rw (addentity, there) at h)))
  | inl new ↦ elim (Bool-cases (any_block w (area e.bl e.tr))) [
    | inl taken ↦ ap World.view (sym (some_inj (rw (addentity, new, taken) at h)))
    | inr free ↦ elim (Bool-cases (endless e.bl e.tr)) [
      | inl ever ↦ absurd (cc (rw (addentity, new, free, ever) at h))
      | inr ends ↦
          ap World.view (sym (some_inj (rw (addentity, new, free, ends) at h)))
          ∙ (occupy-Kept id (area e.bl e.tr) _).view
    ]
  ]
]

delentity-view : (id : ℤ) (w u : World) → delentity id w ≡ some u → u.view ≡ w.view
unfolding delentity
delentity-view id w u h = elim (Option-cases (w.entity id)) [
  | inl gone ↦ ap World.view (sym (some_inj (rw (delentity, gone) at h)))
  | inr (e, there) ↦ elim (Bool-cases (endless e.bl e.tr)) [
    | inl ever ↦ absurd (cc (rw (delentity, there, ever) at h))
    | inr ends ↦
        ap World.view (sym (some_inj (rw (delentity, there, ends) at h)))
        ∙ (vacate-Kept (area e.bl e.tr) w).view
  ]
]

pub Reached-AreAscending : (w : World) → Reached w → AreAscending w.view
unfolding create settroop setview troop_view
Reached-AreAscending _ (created len wid) = tt
Reached-AreAscending u (added {w} id e r h) =
    subst AreAscending (sym (addentity-view id e w u h)) (Reached-AreAscending w r)
Reached-AreAscending u (deleted {w} id r h) =
    subst AreAscending (sym (delentity-view id w u h)) (Reached-AreAscending w r)
Reached-AreAscending _ (closed {w} p r) =
    subst AreAscending (sym (setblock-Kept p true w).view) (Reached-AreAscending w r)
Reached-AreAscending _ (opened {w} p r free) =
    subst AreAscending (sym (setblock-Kept p false w).view) (Reached-AreAscending w r)
Reached-AreAscending _ (trooped {w} id none r) = Reached-AreAscending w r
Reached-AreAscending _ (trooped {w} id (some t) r) = Reached-AreAscending w r
Reached-AreAscending _ (viewed {w} id none r) =
    erase-AreAscending id w.view (Reached-AreAscending w r)
Reached-AreAscending _ (viewed {w} id (some v) r) = (
  find-AreAscending id w.view (Reached-AreAscending w r),
  erase-AreAscending id w.view (Reached-AreAscending w r),
)
Reached-AreAscending _ (reported {w} r) = loop-AreAscending w.troop w.view
