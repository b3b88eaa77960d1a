-- ===== src/Cells/Take.antt =====
-- Taking an id out of its cell.
use luatest.Prelude.{
  ◌≡◌, ◌≢◌, ◌∙◌, sym, ap, refl, ◌⊎◌, ◌↔◌, inl, inr, List, [], ◌∷◌, Option, none, some,
}
use mathlib.Core.Path.{subst}
use luatest.Prelude.Int.{ℤ}
use luatest.Std.Order.{int_order}
use luatest.Std.Set
use luatest.Std.Set.{In, Sorted}
use luatest.Std.Map
use luatest.Grid.{Pos, pos_order}
use luatest.Cells.{Cells, id_key, keep_ids, take_found, take_out}
use luatest.Cells.Laws.{At, IsCells, some_inj, same_pos}

keep_ids-some :
    (c d : Pos) (xs ids : List ℤ) (m : Cells)
    → keep_ids c xs m d ≡ some ids
    → ((d ≡ c) × (xs ≡ ids) × (ids ≢ [])) ⊎ ((d ≢ c) × (m d ≡ some ids))
unfolding keep_ids
keep_ids-some c d [] ids m e = inr (Map.erase-some pos_order c d m ids e)
keep_ids-some c d (x ∷ xs) ids m e = elim (Map.assign-some pos_order c d (x ∷ xs) ids m e) [
  | inl (same, g) ↦ inl (same, g, λ n. cc (g, n))
  | inr old ↦ inr old
]

keep_ids_self : (c : Pos) (z : ℤ) (xs : List ℤ) (m : Cells) → In z xs → keep_ids c xs m c ≡ some xs
unfolding keep_ids
keep_ids_self c z [] m k = absurd k
keep_ids_self c z (x ∷ xs) m k = Map.assign_self pos_order c (x ∷ xs) m

keep_ids_other : (c d : Pos) (xs : List ℤ) (m : Cells) → d ≢ c → keep_ids c xs m d ≡ m d
unfolding keep_ids
keep_ids_other c d [] m h = Map.erase_other pos_order c d m h
keep_ids_other c d (x ∷ xs) m h = Map.assign_other pos_order c d (x ∷ xs) m h

found_At :
    (c d : Pos) (id z : ℤ) (m : Cells) (o : Option (List ℤ))
    → IsCells m
    → m c ≡ o
    → At d z (take_found c id m o) ↔ (At d z m × (¬ ((d ≡ c) × (z ≡ id))))
unfolding take_found
found_At c d id z m none v h = (λ k. (k, λ p. cc (h, ap m p.0, k.1.0)), λ p. p.0)
found_At c d id z m (some ids) v h = (to, from)
  where
    left : List ℤ
    left = Set.erase int_order id_key id ids

    to : At d z (keep_ids c left m) → At d z m × (¬ ((d ≡ c) × (z ≡ id)))
    to (xs, (e, k)) = elim (keep_ids-some c d left xs m e) [
      | inl (same, g, _) ↦
          let kept : In z left = subst (In z) (sym g) k in
          (
            (ids, (ap m same ∙ h, Set.In-of-erase int_order id_key id z ids kept)),
            λ p. Set.erase-ne int_order id_key id z ids (v.sorted c ids h) kept p.1,
          )
      | inr (other, f) ↦ ((xs, (f, k)), λ p. other p.0)
    ]

    from : At d z m × (¬ ((d ≡ c) × (z ≡ id))) → At d z (keep_ids c left m)
    from ((xs, (e, k)), apart) = elim (same_pos d c) [
      | inl p ↦
          let there : In z ids = subst (In z) (some_inj (sym e ∙ ap m p ∙ h)) k in
          let kept : In z left = Set.In-erase int_order id_key id z ids there (λ q. apart (p, q)) in
          (left, (ap (keep_ids c left m) p ∙ keep_ids_self c z left m kept, kept))
      | inr p ↦ (xs, (keep_ids_other c d left m p ∙ e, k))
    ]

pub At-take_out :
    (c d : Pos) (id z : ℤ) (m : Cells)
    → IsCells m
    → At d z (take_out c id m) ↔ (At d z m × (¬ ((d ≡ c) × (z ≡ id))))
unfolding take_out
At-take_out c d id z m v = found_At c d id z m (m c) v refl

found-IsCells :
    (c : Pos) (id : ℤ) (m : Cells) (o : Option (List ℤ))
    → m c ≡ o
    → IsCells m
    → IsCells (take_found c id m o)
unfolding take_found
found-IsCells c id m none h v = v
found-IsCells c id m (some ids) h v = record {
  sorted = λ d xs e. elim (keep_ids-some c d (Set.erase int_order id_key id ids) xs m e) [
    | inl (same, g, _) ↦
        subst (Sorted int_order id_key) g
          (Set.erase-Sorted int_order id_key id ids (v.sorted c ids h))
    | inr (other, f) ↦ v.sorted d xs f
  ];
  filled = λ d xs e. elim (keep_ids-some c d (Set.erase int_order id_key id ids) xs m e) [
    | inl (same, g, n) ↦ n
    | inr (other, f) ↦ v.filled d xs f
  ];
}

pub take_out-IsCells : (c : Pos) (id : ℤ) (m : Cells) → IsCells m → IsCells (take_out c id m)
unfolding take_out
take_out-IsCells c id m v = found-IsCells c id m (m c) refl v
