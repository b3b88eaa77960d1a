-- ===== src/Slg/Reports.antt =====
-- What `troop_view` reports.
use luatest.Prelude.{◌≡◌, sym, ap, refl, ◌↔◌, ◌⊎◌, inl, inr, List, [], ◌∷◌, true, Bool-cases}
use mathlib.Core.Path.{subst}
use luatest.Prelude.Int.{ℤ}
use luatest.Std.Set.{In}
use luatest.Std.Difference.{IsAscending, set_difference, In-set_difference}
use luatest.Sight.{sort_ids}
use luatest.Sight.Changes.{In-sort_ids}
use luatest.Sight.Tracked.{sort_ids-IsAscending}
use luatest.Slg.{World, Troop, View, Change, inview, troops_in, report, view_loop, troop_view}
use luatest.Slg.Ground.{Reached}
use luatest.Slg.Ascending.{AreAscending, Reached-AreAscending}

-- A troop with this id crosses the view.
unfoldable pub IsInView : View → ℤ → List (ℤ × Troop) → Type 0
IsInView v z ts = (t : Troop) × (In (z, t) ts × (inview t.n t.e v.bl v.tr ≡ true))

In-troops_in : (v : View) (z : ℤ) (ts : List (ℤ × Troop)) → In z (troops_in v ts) ↔ IsInView v z ts
unfolding troops_in IsInView
In-troops_in v z [] = (λ m. absurd m, λ m. absurd (m.1.0))
In-troops_in v z ((id, t) ∷ ts) = elim (Bool-cases (inview t.n t.e v.bl v.tr)) [
  | inl h ↦ rw h (
    λ k. elim k [
      | inl e ↦ (t, (inl (ap (λ (i : ℤ). (i, t)) e), h))
      | inr r ↦ let (u, (a, b)) = (In-troops_in v z ts).0 r in (u, (inr a, b))
    ],
    λ k.
        let (u, (a, b)) = k in
        elim a [
          | inl e ↦ inl (ap (λ (p : ℤ × Troop). p.0) e)
          | inr r ↦ inr ((In-troops_in v z ts).1 (u, (r, b)))
        ],
  )
  | inr h ↦ rw h (
    λ k. let (u, (a, b)) = (In-troops_in v z ts).0 k in (u, (inr a, b)),
    λ k.
        let (u, (a, b)) = k in
        elim a [
          | inl e ↦ absurd (cc (h, b, ap (λ (p : ℤ × Troop). inview (p.1).n (p.1).e v.bl v.tr) e))
          | inr r ↦ (In-troops_in v z ts).1 (u, (r, b))
        ],
  )
]

-- What the callback gets for a view: the troops that came into it, and those that left it.
pub record Reports (ts : List (ℤ × Troop)) (v : View) (adds dels : List ℤ) : Type 0 where
  pub came : (z : ℤ) → In z adds ↔ (IsInView v z ts × (¬ In z v.troop))
  pub went : (z : ℤ) → In z dels ↔ (In z v.troop × (¬ IsInView v z ts))

unfoldable pub now_in : View → List (ℤ × Troop) → List ℤ
now_in v ts = sort_ids (troops_in v ts)

In-now_in : (v : View) (z : ℤ) (ts : List (ℤ × Troop)) → In z (now_in v ts) ↔ IsInView v z ts
unfolding now_in
In-now_in v z ts = (
  λ m. (In-troops_in v z ts).0 ((In-sort_ids z (troops_in v ts)).0 m),
  λ m. (In-sort_ids z (troops_in v ts)).1 ((In-troops_in v z ts).1 m),
)

differences-Reports :
    (v : View) (ts : List (ℤ × Troop))
    → IsAscending v.troop
    → Reports ts v (set_difference (now_in v ts) v.troop) (set_difference v.troop (now_in v ts))
unfolding now_in
differences-Reports v ts old =
    let news = now_in v ts in
    let up : IsAscending news = sort_ids-IsAscending (troops_in v ts) in
    record {
      came = λ z. (
        λ m.
            let (a, b) = (In-set_difference news v.troop up old z).0 m in
            ((In-now_in v z ts).0 a, b),
        λ m. (In-set_difference news v.troop up old z).1 ((In-now_in v z ts).1 m.0, m.1),
      );
      went = λ z. (
        λ m.
            let (a, b) = (In-set_difference v.troop news old up z).0 m in
            (a, λ k. b ((In-now_in v z ts).1 k)),
        λ m. (In-set_difference v.troop news old up z).1 (m.0, λ k. m.1 ((In-now_in v z ts).0 k)),
      );
    }

In-of-report :
    (vid : ℤ) (adds dels : List ℤ) (rest : List Change) (c : Change)
    → In c (report vid adds dels rest)
    → (c ≡ (vid, (adds, dels))) ⊎ In c rest
unfolding report
In-of-report vid [] [] rest c m = inr m
In-of-report vid [] (d ∷ dels) rest c m = m
In-of-report vid (a ∷ adds) dels rest c m = m

In-report_old :
    (vid : ℤ) (adds dels : List ℤ) (rest : List Change) (c : Change)
    → In c rest
    → In c (report vid adds dels rest)
unfolding report
In-report_old vid [] [] rest c m = m
In-report_old vid [] (d ∷ dels) rest c m = inr m
In-report_old vid (a ∷ adds) dels rest c m = inr m

In-report_new :
    (vid z : ℤ) (adds dels : List ℤ) (rest : List Change)
    → In z adds ⊎ In z dels
    → In (vid, (adds, dels)) (report vid adds dels rest)
unfolding report
In-report_new vid z [] [] rest (inl m) = absurd m
In-report_new vid z [] [] rest (inr m) = absurd m
In-report_new vid z [] (d ∷ dels) rest m = inl refl
In-report_new vid z (a ∷ adds) dels rest m = inl refl

-- A troop came into the view or left it.
abbrev pub Differs : View → ℤ → List (ℤ × Troop) → Type 0
Differs v z ts = (IsInView v z ts × (¬ In z v.troop)) ⊎ (In z v.troop × (¬ IsInView v z ts))

module _ (ts : List (ℤ × Troop)) where
  loop_reported :
      (vs : List (ℤ × View)) (c : Change)
      → AreAscending vs
      → In c (view_loop ts vs).1
      → (v : View) × (In (c.0, v) vs × Reports ts v c.1.0 c.1.1)
  unfolding view_loop now_in
  loop_reported [] c h m = absurd m
  loop_reported ((vid, v) ∷ vs) c (h, hs) m = elim (In-of-report vid _ _ (view_loop ts vs).1 c m) [
    | inl e ↦ (
      v,
      (
        inl (ap (λ (d : Change). (d.0, v)) e),
        subst (λ (d : Change). Reports ts v d.1.0 d.1.1) (sym e) (differences-Reports v ts h),
      ),
    )
    | inr n ↦ let (u, (a, b)) = loop_reported vs c hs n in (u, (inr a, b))
  ]

  loop-Reports :
      (vs : List (ℤ × View)) (vid : ℤ) (v : View) (z : ℤ)
      → AreAscending vs
      → In (vid, v) vs
      → Differs v z ts
      → (adds : List ℤ) × ((dels : List ℤ) × (In (vid, (adds, dels)) (view_loop ts vs).1
            × Reports ts v adds dels))
  unfolding view_loop now_in
  loop-Reports [] vid v z h m d = absurd m
  loop-Reports ((id, u) ∷ vs) vid v z (h, hs) (inr m) d =
      let (adds, (dels, (a, b))) = loop-Reports vs vid v z hs m d in
      (adds, (dels, (In-report_old id _ _ (view_loop ts vs).1 (vid, (adds, dels)) a, b)))
  loop-Reports ((id, u) ∷ vs) vid v z (h, hs) (inl e) d =
      let same : v ≡ u = ap (λ (p : ℤ × View). p.1) e in
      let r = differences-Reports u ts h in
      let d' : Differs u z ts = subst (λ x. Differs x z ts) same d in
      (
        set_difference (now_in u ts) u.troop,
        (
          set_difference u.troop (now_in u ts),
          (
            subst
                (λ i.
                  In
                    (
                      i,
                      (set_difference (now_in u ts) u.troop, set_difference u.troop (now_in u ts)),
                    )
                    (view_loop ts ((id, u) ∷ vs)).1)
                (sym (ap (λ (p : ℤ × View). p.0) e))
                (In-report_new id z _ _ (view_loop ts vs).1 (elim d' [
                  | inl new ↦ inl ((r.came z).1 new)
                  | inr old ↦ inr ((r.went z).1 old)
                ])),
            subst
                (λ x.
                  Reports ts x (set_difference (now_in u ts) u.troop)
                    (set_difference u.troop (now_in u ts)))
                (sym same) r,
          ),
        ),
      )

  loop_kept :
      (vs : List (ℤ × View)) (vid : ℤ) (v : View)
      → In (vid, v) vs
      → In (vid, record v { troop = now_in v ts }) (view_loop ts vs).0
  unfolding view_loop now_in
  loop_kept [] vid v m = absurd m
  loop_kept ((id, u) ∷ vs) vid v (inl e) =
      inl (ap (λ (p : ℤ × View). (p.0, record (p.1) { troop = now_in (p.1) ts })) e)
  loop_kept ((id, u) ∷ vs) vid v (inr m) = inr (loop_kept vs vid v m)

-- In a world that calls lead to, where `setblock` frees no position that has the id of an entity,
-- every call of the callback is for a view, with exactly the troops that came into it and those that
-- left it. For each view to which or from which a troop moved there is a call, and each view keeps
-- exactly the troops that are in it now.
pub In-troop_view :
    (w : World)
    → Reached w
    → ((c : Change)
        → In c (troop_view w).1
        → (v : View) × (In (c.0, v) w.view × Reports w.troop v c.1.0 c.1.1))
      × ((vid : ℤ) (v : View)
          → In (vid, v) w.view
          → ((z : ℤ)
              → Differs v z w.troop
              → (adds : List ℤ) × ((dels : List ℤ) × (In (vid, (adds, dels)) (troop_view w).1
                    × Reports w.troop v adds dels)))
            × ((news : List ℤ) × (In (vid, record v { troop = news }) (troop_view w).0.view
                  × ((z : ℤ) → In z news ↔ IsInView v z w.troop))))
unfolding troop_view
In-troop_view w r =
    let up = Reached-AreAscending w r in
    (
      λ c m. loop_reported w.troop w.view c up m,
      λ vid v m. (
        λ z d. loop-Reports w.troop w.view vid v z up m d,
        (now_in v w.troop, (loop_kept w.troop w.view vid v m, λ z. In-now_in v z w.troop)),
      ),
    )
