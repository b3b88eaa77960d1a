-- ===== src/Rank/Append.antt =====
-- Adding elements in their order puts each behind the others.
use luatest.Prelude.{
  ◌≡◌, ◌≢◌, ◌∙◌, sym, ap, refl, ◌≤◌, ◌<◌, List, [], ◌∷◌, ◌++◌, none, length, arith, All, inl, inr,
  length-append, Option-cases,
}
use mathlib.Core.Path.{subst}
use mathlib.Core.List.{append_assoc, append-nil}
use luatest.Std.Order.{asymm}
use luatest.Std.Set
use luatest.Std.Set.{
  In, Above, Sorted, All-In, In-All, In-append_left, In-append_right, In-of-append,
}
use luatest.Rank.{Rankele, Rank, rank_key, rank_order, add, erase_old, evict}
use luatest.Rank.Valid.{IsValid, id_unique, insert_new-inserted, inserted}
use luatest.Rank.Evict.{evict-cases}
use luatest.Rank.Add.{add-IsValid}

abbrev Behind : Rankele → List Rankele → Type 0
Behind e xs = All (λ w. Above rank_order rank_key w e) xs

insert-last :
    (e : Rankele) (xs : List Rankele)
    → Behind e xs
    → Set.insert rank_order rank_key e xs ≡ xs ++ e ∷ []
unfolding Set.insert
insert-last e [] h = refl
insert-last e (x ∷ xs) h =
    rw (asymm rank_order (rank_key x) (rank_key e) h.0, h.0) (ap (◌∷◌ x) (insert-last e xs h.1))

evict-kept : (r : Rank) → length r.ranks ≤ r.max → evict r ≡ r
evict-kept r h = elim (evict-cases r) [
  | inl (_, same) ↦ same
  | inr (xs, (l, (over, _, _))) ↦ absurd (omega arith)
]

-- An element behind all others, of a new id, where there is room for it.
add-last :
    (e : Rankele) (r : Rank)
    → r.id_it e.id ≡ none
    → Behind e r.ranks
    → length r.ranks < r.max
    → ((add e r).ranks ≡ r.ranks ++ e ∷ []) × ((add e r).max ≡ r.max)
unfolding add erase_old inserted
add-last e r absent behind room =
    (ap Rank.ranks same ∙ insert-last e r.ranks behind, ap Rank.max same)
  where
    fits : length (inserted e r).ranks ≤ r.max
    fits =
        omega
          (arith, room, ap length (insert-last e r.ranks behind), length-append r.ranks (e ∷ []))

    same : add e r ≡ inserted e r
    same = rw (absent, insert_new-inserted e r absent) (evict-kept (inserted e r) fits)

abbrev pub adds : List Rankele → Rank → Rank
adds [] r = r
adds (e ∷ es) r = adds es (add e r)

-- No two elements have the same id.
abbrev pub IdsDiffer : List Rankele → Type 0
IdsDiffer [] = Unit
IdsDiffer (e ∷ es) = All (λ w. w.id ≢ e.id) es × IdsDiffer es

pub ids_differ : (r : Rank) → IsValid r → IdsDiffer r.ranks
ids_differ r v = go r.ranks v.is_indexed.ranks_sorted (λ z m. m)
  where
    go :
        (es : List Rankele)
        → Sorted rank_order rank_key es
        → ((z : Rankele) → In z es → In z r.ranks)
        → IdsDiffer es
    go [] s h = tt
    go (e ∷ es) s h = (
      In-All (λ w. w.id ≢ e.id) es
          (λ w m f.
            Set.In-ne rank_order rank_key e w es s.0 m
              (ap rank_key (id_unique r v.is_indexed w e (h w (inr m)) (h e (inl refl)) f))),
      go es s.1 (λ z m. h z (inr m)),
    )

behind :
    (xs : List Rankele) (e : Rankele) (es : List Rankele)
    → Sorted rank_order rank_key (xs ++ e ∷ es)
    → Behind e xs
behind [] e es s = tt
behind (x ∷ xs) e es s = (
  All-In (Above rank_order rank_key x) (xs ++ e ∷ es) s.0 e
      (In-append_right e xs (e ∷ es) (inl refl)),
  behind xs e es s.1,
)

other_id :
    (xs : List Rankele) (e : Rankele) (es : List Rankele) (z : Rankele)
    → IdsDiffer (xs ++ e ∷ es)
    → In z xs
    → z.id ≢ e.id
other_id [] e es z d m = absurd m
other_id (x ∷ xs) e es z d (inl f) = λ g.
    All-In (λ w. w.id ≢ x.id) (xs ++ e ∷ es) d.0 e (In-append_right e xs (e ∷ es) (inl refl))
      (sym g ∙ ap Rankele.id f)
other_id (x ∷ xs) e es z d (inr m) = other_id xs e es z d.1 m

absent_id :
    (e : Rankele) (es : List Rankele) (r : Rank)
    → IsValid r
    → IdsDiffer (r.ranks ++ e ∷ es)
    → r.id_it e.id ≡ none
absent_id e es r v d = elim (Option-cases (r.id_it e.id)) [
  | inl h ↦ h
  | inr (z, h) ↦
      let (m, same) = v.is_indexed.found e.id z h in absurd (other_id r.ranks e es z d m same)
]

-- Elements that continue a ranking in its order, with ids of their own, are added behind it.
pub adds-append :
    (es : List Rankele) (r : Rank)
    → IsValid r
    → Sorted rank_order rank_key (r.ranks ++ es)
    → IdsDiffer (r.ranks ++ es)
    → length (r.ranks ++ es) ≤ r.max
    → IsValid (adds es r) × ((adds es r).ranks ≡ r.ranks ++ es)
adds-append [] r v s d h = (v, sym (append-nil r.ranks))
adds-append (e ∷ es) r v s d h =
    let (step, size) =
      add-last e r (absent_id e es r v d) (behind r.ranks e es s)
        (omega (arith, h, length-append r.ranks (e ∷ es))) in
    let next : (add e r).ranks ++ es ≡ r.ranks ++ e ∷ es =
      ap (λ l. l ++ es) step ∙ append_assoc r.ranks (e ∷ []) es in
    let (w, all) =
      adds-append es (add e r) (add-IsValid e r v) (subst (Sorted rank_order rank_key) (sym next) s)
        (subst IdsDiffer (sym next) d) (omega (arith, h, size, ap length next)) in
    (w, all ∙ next)
