-- ===== src/Std/Difference.antt =====
-- std::set_difference, on ranges in ascending order.
use luatest.Prelude.{◌≡◌, ◌∙◌, sym, ◌↔◌, inl, inr, List, [], ◌∷◌, true, Bool-cases, if◌then◌else◌}
use luatest.Prelude.Int.{ℤ, ltb_ℤ}
use luatest.Std.Order.{int_order, asymm}
use mathlib.Core.Path.{subst}
use luatest.Std.Set.{In, Sorted, Above, All-In, In-ne, ne_of_lt, key-eq}

abbrev pub whole_key : ℤ → ℤ
whole_key id = id

abbrev pub IsAscending : List ℤ → Type 0
IsAscending xs = Sorted int_order whole_key xs

-- The loop at one element of the first range, with what follows for the rest of it.
unfoldable pub past : ℤ → (List ℤ → List ℤ) → List ℤ → List ℤ
past x rest [] = x ∷ rest []
past x rest (y ∷ ys) =
    let next = past x rest ys in
    if ltb_ℤ x y then x ∷ rest (y ∷ ys) else if ltb_ℤ y x then next else rest ys

unfoldable pub set_difference : List ℤ → List ℤ → List ℤ
unfolding past
set_difference [] ys = []
set_difference (x ∷ xs) ys = past x (set_difference xs) ys

IsMinus : ℤ → List ℤ → List ℤ → List ℤ → Type 0
IsMinus z zs xs ys = In z zs ↔ (In z xs × (¬ In z ys))

-- An element below all of a range is not in it.
below_absent : (x y : ℤ) (ys : List ℤ) → IsAscending (y ∷ ys) → ltb_ℤ x y ≡ true → ¬ In x (y ∷ ys)
below_absent x y ys s h (inl e) = ne_of_lt int_order whole_key x y h e
below_absent x y ys s h (inr m) =
    cc (asymm int_order x y h, All-In (Above int_order whole_key y) ys s.0 x m)

past-IsMinus :
    (x : ℤ) (xs ys : List ℤ)
    → ((zs : List ℤ) → IsAscending zs → (z : ℤ) → IsMinus z (set_difference xs zs) xs zs)
    → IsAscending (x ∷ xs)
    → IsAscending ys
    → (z : ℤ) → IsMinus z (past x (set_difference xs) ys) (x ∷ xs) ys
unfolding past IsMinus
past-IsMinus x xs [] ih s t z = (
  λ m. elim m [ inl e ↦ (inl e, λ n. n) | inr n ↦ (inr (((ih [] tt z).0 n).0), λ k. k) ],
  λ m. elim (m.0) [ inl e ↦ inl e | inr n ↦ inr ((ih [] tt z).1 (n, λ k. k)) ],
)
past-IsMinus x xs (y ∷ ys) ih s t z = elim (Bool-cases (ltb_ℤ x y)) [
  | inl less ↦ rw less (
    λ m. elim m [
      | inl e ↦ (inl e, λ n. below_absent x y ys t less (subst (λ w. In w (y ∷ ys)) e n))
      | inr n ↦ let (a, b) = (ih (y ∷ ys) t z).0 n in (inr a, b)
    ],
    λ m. elim (m.0) [ inl e ↦ inl e | inr n ↦ inr ((ih (y ∷ ys) t z).1 (n, m.1)) ],
  )
  | inr more ↦ elim (Bool-cases (ltb_ℤ y x)) [
    | inl k ↦
        rw (more, k)
          (
            λ m.
                let (a, b) = (past-IsMinus x xs ys ih s t.1 z).0 m in
                (
                  a,
                  λ n. elim n [
                    | inl e ↦ below_absent y x xs s k (subst (λ w. In w (x ∷ xs)) e a)
                    | inr r ↦ b r
                  ],
                ),
            λ m. (past-IsMinus x xs ys ih s t.1 z).1 (m.0, λ n. m.1 (inr n)),
          )
    | inr k ↦
        let same : x ≡ y = key-eq int_order whole_key x y more k in
        rw (more, k)
          (
            λ m.
                let (a, b) = (ih ys t.1 z).0 m in
                (
                  inr a,
                  λ n. elim n [
                    | inl e ↦ In-ne int_order whole_key x z xs s.0 a (e ∙ sym same)
                    | inr r ↦ b r
                  ],
                ),
            λ m. elim (m.0) [
              | inl e ↦ absurd (m.1 (inl (e ∙ same)))
              | inr n ↦ (ih ys t.1 z).1 (n, λ r. m.1 (inr r))
            ],
          )
  ]
]

-- The difference has exactly the elements of the first range that are not in the second.
pub In-set_difference :
    (xs ys : List ℤ)
    → IsAscending xs
    → IsAscending ys
    → (z : ℤ) → In z (set_difference xs ys) ↔ (In z xs × (¬ In z ys))
unfolding set_difference IsMinus
In-set_difference [] ys s t z = (λ m. absurd m, λ m. m.0)
In-set_difference (x ∷ xs) ys s t z =
    past-IsMinus x xs ys (λ zs u w. In-set_difference xs zs s.1 u w) s t z
