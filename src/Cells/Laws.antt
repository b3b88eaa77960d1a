-- ===== src/Cells/Laws.antt =====
-- What is in the cells after an id is put in or taken out.
use luatest.Prelude.{
  ◌≡◌, ◌≢◌, ◌∙◌, sym, ap, refl, ◌⊎◌, ◌↔◌, inl, inr, List, [], ◌∷◌, some, arith, Option-cases,
  Bool-cases,
}
use mathlib.Core.Path.{subst}
use luatest.Prelude.Int.{ℤ}
use luatest.Std.Order.{int_order}
use luatest.Std.Set
use luatest.Std.Set.{In, Sorted}
use luatest.Std.Map
use luatest.Grid.{Pos, pos_order, ◌==ₚ◌, ==ₚ-eq, ==ₚ-ne}
use luatest.Cells.{Cells, id_key, ids_of, put}

-- The id is in the set of the cell.
abbrev pub At : Pos → ℤ → Cells → Type 0
At c id m = (ids : List ℤ) × ((m c ≡ some ids) × In id ids)

-- The sets are sorted, and none is empty.
pub record IsCells (m : Cells) : Type 0 where
  pub sorted : (c : Pos) (ids : List ℤ) → m c ≡ some ids → Sorted int_order id_key ids
  pub filled : (c : Pos) (ids : List ℤ) → m c ≡ some ids → ids ≢ []

pub some_inj : {A : Type 0} {x y : A} → some x ≡ some y → x ≡ y
some_inj e = cc e

-- The set of a cell, empty where the cell has none.
ids-Sorted : (m : Cells) (c : Pos) → IsCells m → Sorted int_order id_key (ids_of (m c))
ids-Sorted m c v = elim (Option-cases (m c)) [
  | inl n ↦ rw n tt
  | inr (ids, e) ↦ rw e (v.sorted c ids e)
]

-- Whether an id equals another is decided.
pub same_id : (a b : ℤ) → (a ≡ b) ⊎ (a ≢ b)
same_id a b = elim (Bool-cases (Map.same int_order a b)) [
  | inl h ↦ inl (Map.same-eq int_order a b h)
  | inr h ↦ inr (λ e. cc (h, ap (Map.same int_order a) e, Map.same_refl int_order a))
]

pub same_pos : (a b : Pos) → (a ≡ b) ⊎ (a ≢ b)
same_pos a b = elim (Bool-cases (a ==ₚ b)) [
  | inl h ↦ inl (==ₚ-eq a b h)
  | inr h ↦ inr (==ₚ-ne a b h)
]

pub In-put_self : (id : ℤ) (ids : List ℤ) → In id (Set.insert int_order id_key id ids)
unfolding Set.insert
In-put_self id [] = inl refl
In-put_self id (x ∷ xs) = ground (arith, int_order.connected id x, In-put_self id xs)

pub At-put :
    (c d : Pos) (id z : ℤ) (m : Cells) → At d z (put c id m) ↔ (((d ≡ c) × (z ≡ id)) ⊎ At d z m)
unfolding put
At-put c d id z m = (to, from)
  where
    to : At d z (put c id m) → ((d ≡ c) × (z ≡ id)) ⊎ At d z m
    to (ids, (e, k)) =
        elim (Map.assign-some pos_order c d (Set.insert int_order id_key id (ids_of (m c))) ids m
          e) [
            | inl (same, g) ↦
                elim (Set.In-of-insert int_order id_key id z (ids_of (m c))
                  (subst (In z) (sym g) k)) [
                    | inl now ↦ inl (same, now)
                    | inr old ↦ elim (Option-cases (m c)) [
                      | inl n ↦ absurd (subst (In z) (ap ids_of n) old)
                      | inr (ids', f) ↦ inr (ids', (ap m same ∙ f, subst (In z) (ap ids_of f) old))
                    ]
                  ]
            | inr (other, f) ↦ inr (ids, (f, k))
          ]

    from : ((d ≡ c) × (z ≡ id)) ⊎ At d z m → At d z (put c id m)
    from (inl (p, q)) = (
      Set.insert int_order id_key id (ids_of (m c)),
      (
        ap (put c id m) p
            ∙ Map.assign_self pos_order c (Set.insert int_order id_key id (ids_of (m c))) m,
        subst (λ w. In w (Set.insert int_order id_key id (ids_of (m c)))) (sym q)
            (In-put_self id (ids_of (m c))),
      ),
    )
    from (inr (ids, (e, k))) = elim (same_pos d c) [
      | inl p ↦ (
        Set.insert int_order id_key id (ids_of (m c)),
        (
          ap (put c id m) p
              ∙ Map.assign_self pos_order c (Set.insert int_order id_key id (ids_of (m c))) m,
          Set.In-insert_old int_order id_key id z (ids_of (m c))
              (subst (In z) (sym (ap ids_of (sym (ap m p) ∙ e))) k),
        ),
      )
      | inr p ↦ (
        ids,
        (Map.assign_other pos_order c d (Set.insert int_order id_key id (ids_of (m c))) m p ∙ e, k),
      )
    ]

pub put-IsCells : (c : Pos) (id : ℤ) (m : Cells) → IsCells m → IsCells (put c id m)
unfolding put
put-IsCells c id m v = record {
  sorted = λ d ids e.
      elim (Map.assign-some pos_order c d (Set.insert int_order id_key id (ids_of (m c))) ids m e) [
        | inl (same, g) ↦
            subst (Sorted int_order id_key) g
              (Set.insert-Sorted int_order id_key id (ids_of (m c)) (ids-Sorted m c v))
        | inr (other, f) ↦ v.sorted d ids f
      ];
  filled = λ d ids e.
      elim (Map.assign-some pos_order c d (Set.insert int_order id_key id (ids_of (m c))) ids m e) [
        | inl (same, g) ↦ λ n. subst (In id) (g ∙ n) (In-put_self id (ids_of (m c)))
        | inr (other, f) ↦ v.filled d ids f
      ];
}
