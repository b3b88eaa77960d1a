-- ===== src/Sight/Changes.antt =====
-- What `vision_diff` reports.
use luatest.Prelude.{◌≡◌, ◌∙◌, sym, ap, refl, ◌↔◌, inl, inr, List, [], ◌∷◌, some, Bool-cases, true}
use mathlib.Core.Path.{subst}
use luatest.Prelude.Int.{ℤ}
use luatest.Std.Order.{int_order}
use luatest.Std.Set
use luatest.Std.Set.{In}
use luatest.Std.Map
use luatest.Std.Difference.{whole_key, IsAscending, In-set_difference}
use luatest.Cells.Laws.{In-put_self}
use luatest.Sight.{
  March, Vision, Sight, march_in_vision, seen_by, vision_march, sort_ids, vision_diff,
}
use luatest.Sight.Tracked.{IsSight, sort_ids-IsAscending}

-- A march with this id is in sight of the vision.
unfoldable pub IsSeen : Vision → ℤ → List March → Type 0
IsSeen v z ms =
    (m : March) × (In m ms × (m.id ≡ z) × (march_in_vision m.cur m.end v.bl v.tr ≡ true))

In-seen_by : (v : Vision) (z : ℤ) (ms : List March) → In z (seen_by v ms) ↔ IsSeen v z ms
unfolding seen_by IsSeen
In-seen_by v z [] = (λ m. absurd m, λ m. absurd (m.1.0))
In-seen_by v z (m ∷ ms) = elim (Bool-cases (march_in_vision m.cur m.end v.bl v.tr)) [
  | inl h ↦ rw h (
    λ k. elim k [
      | inl e ↦ (m, (inl refl, sym e, h))
      | inr r ↦ let (n, (a, b, c)) = (In-seen_by v z ms).0 r in (n, (inr a, b, c))
    ],
    λ k.
        let (n, (a, b, c)) = k in
        elim a [
          | inl e ↦ inl (sym b ∙ ap March.id e)
          | inr r ↦ inr ((In-seen_by v z ms).1 (n, (r, b, c)))
        ],
  )
  | inr h ↦ rw h (
    λ k. let (n, (a, b, c)) = (In-seen_by v z ms).0 k in (n, (inr a, b, c)),
    λ k.
        let (n, (a, b, c)) = k in
        elim a [
          | inl e ↦ absurd (cc (h, c, ap (λ (o : March). march_in_vision o.cur o.end v.bl v.tr) e))
          | inr r ↦ (In-seen_by v z ms).1 (n, (r, b, c))
        ],
  )
]

pub In-sort_ids : (z : ℤ) (ids : List ℤ) → In z (sort_ids ids) ↔ In z ids
unfolding sort_ids
In-sort_ids z [] = (λ m. m, λ m. m)
In-sort_ids z (id ∷ ids) = (
  λ m. elim (Set.In-of-insert int_order whole_key id z (sort_ids ids) m) [
    | inl e ↦ inl e
    | inr k ↦ inr ((In-sort_ids z ids).0 k)
  ],
  λ m. elim m [
    | inl e ↦
        subst (λ w. In w (Set.insert int_order whole_key id (sort_ids ids))) (sym e)
          (In-put_self id (sort_ids ids))
    | inr k ↦ Set.In-insert_old int_order whole_key id z (sort_ids ids) ((In-sort_ids z ids).1 k)
  ],
)

-- On a map whose visions have their marches in order, `vision_diff` of a vision gives as `adds`
-- exactly the ids of the marches in sight that the vision has not seen before, as `dels` exactly the
-- ids it has seen before of which no march is in sight, and the vision keeps the ids in sight.
pub In-vision_diff :
    (vid : ℤ) (vis : Vision) (s : Sight)
    → IsSight s
    → s.vision vid ≡ some vis
    → (news : List ℤ) × (((vision_diff vid s).0.vision vid ≡ some (record vis { march = news }))
        × ((z : ℤ) → In z news ↔ IsSeen vis z s.march)
        × ((z : ℤ) → In z (vision_diff vid s).1.0 ↔ (IsSeen vis z s.march × (¬ In z vis.march)))
        × ((z : ℤ) → In z (vision_diff vid s).1.1 ↔ (In z vis.march × (¬ IsSeen vis z s.march))))
unfolding vision_diff vision_march
In-vision_diff vid vis s i h = (
  news,
  rw (vision_diff, h)
      (
        rw (vision_march, h) (Map.assign_self int_order vid (record vis { march = news }) s.vision),
        seen,
        λ z.
            rw (vision_march, h)
              (
                λ m.
                    let (a, b) = (In-set_difference news vis.march up old z).0 m in
                    ((seen z).0 a, b),
                λ m. (In-set_difference news vis.march up old z).1 ((seen z).1 m.0, m.1),
              ),
        λ z.
            rw (vision_march, h)
              (
                λ m.
                    let (a, b) = (In-set_difference vis.march news old up z).0 m in
                    (a, λ k. b ((seen z).1 k)),
                λ m. (In-set_difference vis.march news old up z).1 (m.0, λ k. m.1 ((seen z).0 k)),
              ),
      ),
)
  where
    news : List ℤ
    news = sort_ids (seen_by vis s.march)

    seen : (z : ℤ) → In z news ↔ IsSeen vis z s.march
    seen z = (
      λ m. (In-seen_by vis z s.march).0 ((In-sort_ids z (seen_by vis s.march)).0 m),
      λ m. (In-sort_ids z (seen_by vis s.march)).1 ((In-seen_by vis z s.march).1 m),
    )

    up : IsAscending news
    up = sort_ids-IsAscending (seen_by vis s.march)

    old : IsAscending vis.march
    old = i.ascending vid vis h
