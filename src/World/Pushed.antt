-- ===== src/World/Pushed.antt =====
-- The loops that push ids, against the first ones of a list.
use luatest.Prelude.{
  ◌≡◌, ◌∙◌, sym, ap, refl, ◌↔◌, inl, inr, ℕ, List, [], ◌∷◌, ◌++◌, Bool, true, false, Bool-cases,
  leb, length, if◌then◌else◌,
}
use mathlib.Core.Path.{subst}
use luatest.Prelude.Int.{ℤ, pos}
use luatest.Std.Set.{In, In-append_left, In-append_right, In-of-append}
use luatest.Grid.{Pos}
use luatest.Mmo.Search.{
  filter, take, fill, is_full, up_to, filter-append, fill_full, fill-append, fill-up_to,
}
use luatest.World.{push_ids, push_cells}

-- The ids of the cells that pass a test.
unfoldable pub entered : (Pos → Bool) → List (Pos × List ℤ) → List ℤ
entered enters [] = []
entered enters ((g, ids) ∷ seen) =
    let rest = entered enters seen in if enters g then ids ++ rest else rest

fill_free :
    (num : ℤ) (ret : List ℤ) (x : ℤ) (xs : List ℤ)
    → is_full num ret ≡ false
    → fill num ret (x ∷ xs) ≡ fill num (ret ++ x ∷ []) xs
unfolding fill
fill_free num ret x xs h = rw h refl

module _ (keep : ℤ → Bool) (limit : ℕ) where
  push_ids-fill :
      (ids ret : List ℤ) → push_ids keep limit ids ret ≡ fill (pos limit) ret (filter keep ids)
  unfolding push_ids fill filter is_full
  push_ids-fill [] ret = refl
  push_ids-fill (id ∷ ids) ret = elim (Bool-cases (leb limit (length ret))) [
    | inl full ↦ rw full (sym (fill_full (pos limit) ret (filter keep (id ∷ ids)) full))
    | inr free ↦ elim (Bool-cases (keep id)) [
      | inl k ↦
          rw (free, k)
            (push_ids-fill ids (ret ++ id ∷ [])
              ∙ sym (fill_free (pos limit) ret id (filter keep ids) free))
      | inr k ↦ rw (free, k) (push_ids-fill ids ret)
    ]
  ]

  push_cells-fill :
      (enters : Pos → Bool) (seen : List (Pos × List ℤ)) (ret : List ℤ)
      → push_cells enters keep limit seen ret
        ≡ fill (pos limit) ret (filter keep (entered enters seen))
  unfolding push_cells entered filter fill
  push_cells-fill enters [] ret = refl
  push_cells-fill enters ((g, ids) ∷ seen) ret = elim (Bool-cases (enters g)) [
    | inl h ↦
        rw (h, push_ids-fill ids ret, filter-append keep ids (entered enters seen))
          (push_cells-fill enters seen (fill (pos limit) ret (filter keep ids))
            ∙ sym
                (fill-append (pos limit) ret (filter keep ids) (filter keep (entered enters seen))))
    | inr h ↦ rw h (push_cells-fill enters seen ret)
  ]

  -- From an empty list the loops push the kept ids of the cells that pass, up to the limit.
  pub push_cells-take :
      (enters : Pos → Bool) (seen : List (Pos × List ℤ))
      → push_cells enters keep limit seen [] ≡ take limit (filter keep (entered enters seen))
  unfolding up_to
  push_cells-take enters seen =
      push_cells-fill enters seen [] ∙ fill-up_to (pos limit) (filter keep (entered enters seen))

pub In-filter :
    (keep : ℤ → Bool) (z : ℤ) (ids : List ℤ) → In z (filter keep ids) ↔ (In z ids × (keep z ≡ true))
unfolding filter
In-filter keep z [] = (λ m. absurd m, λ m. m.0)
In-filter keep z (x ∷ xs) = elim (Bool-cases (keep x)) [
  | inl h ↦ rw h (
    λ m. elim m [
      | inl e ↦ (inl e, ap keep e ∙ h)
      | inr k ↦ let (n, t) = (In-filter keep z xs).0 k in (inr n, t)
    ],
    λ m. elim (m.0) [ inl e ↦ inl e | inr k ↦ inr ((In-filter keep z xs).1 (k, m.1)) ],
  )
  | inr h ↦ rw h (
    λ m. let (n, t) = (In-filter keep z xs).0 m in (inr n, t),
    λ m. elim (m.0) [
      | inl e ↦ absurd (cc (h, m.1, ap keep e))
      | inr k ↦ (In-filter keep z xs).1 (k, m.1)
    ],
  )
]

pub In-entered :
    (enters : Pos → Bool) (z : ℤ) (seen : List (Pos × List ℤ))
    → In z (entered enters seen)
      ↔ ((c : Pos) × ((ids : List ℤ) × (In (c, ids) seen × (enters c ≡ true) × In z ids)))
unfolding entered
In-entered enters z [] = (λ m. absurd m, λ m. absurd (m.1.1.0))
In-entered enters z ((g, ids) ∷ seen) = elim (Bool-cases (enters g)) [
  | inr h ↦ rw h (
    λ m. let (d, (xs, (k, o, n))) = (In-entered enters z seen).0 m in (d, (xs, (inr k, o, n))),
    λ m.
        let (d, (xs, (k, o, n))) = m in
        elim k [
          | inl e ↦ absurd (cc (h, o, ap (λ (y : Pos × List ℤ). enters y.0) e))
          | inr r ↦ (In-entered enters z seen).1 (d, (xs, (r, o, n)))
        ],
  )
  | inl h ↦ rw h (
    λ m. elim (In-of-append z ids (entered enters seen) m) [
      | inl n ↦ (g, (ids, (inl refl, h, n)))
      | inr r ↦
          let (d, (xs, (k, o, n))) = (In-entered enters z seen).0 r in (d, (xs, (inr k, o, n)))
    ],
    λ m.
        let (d, (xs, (k, o, n))) = m in
        elim k [
          | inl e ↦
              In-append_left z ids (entered enters seen)
                (subst (In z) (ap (λ (y : Pos × List ℤ). y.1) e) n)
          | inr r ↦
              In-append_right z ids (entered enters seen)
                ((In-entered enters z seen).1 (d, (xs, (r, o, n))))
        ],
  )
]
