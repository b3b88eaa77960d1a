-- ===== src/Rank/Valid.antt =====
-- The index of a ranking and its elements agree, and the size keeps to its bound.
use mathlib.Core.Path.{subst}
use luatest.Prelude.{
  ◌≡◌, ◌≢◌, ◌∙◌, sym, ap, refl, ℕ, ◌≤◌, List, Option, none, some, length, Option-cases, inl, inr,
  ◌↔◌,
}
use luatest.Prelude.Int.{ℤ}
use luatest.Std.Order.{string_order}
use luatest.Std.Set
use luatest.Std.Set.{In, Sorted}
use luatest.Std.Map
use luatest.Rank.{
  Rankele, Rank, rank_key, rank_order, rank_erase, remove, erase_old, insert_at, insert_new,
}

-- Each element is what the index has for its id, and the index has nothing else.
pub record IsIndexed (r : Rank) : Type 0 where
  pub ranks_sorted : Sorted rank_order rank_key r.ranks
  pub indexed : (z : Rankele) → In z r.ranks → r.id_it z.id ≡ some z
  pub found : (id : List ℕ) (z : Rankele) → r.id_it id ≡ some z → In z r.ranks × (z.id ≡ id)

pub record IsValid (r : Rank) : Type 0 where
  pub is_indexed : IsIndexed r
  pub small : length r.ranks ≤ r.max

some_inj : {A : Type 0} {x y : A} → some x ≡ some y → x ≡ y
some_inj e = cc e

pub rank_id : {x y : Rankele} → rank_key x ≡ rank_key y → x.id ≡ y.id
rank_id e = ap (λ (k : ℤ × (ℤ × List ℕ)). k.1.1) e

pub key_inj : (x y : Rankele) → rank_key x ≡ rank_key y → x ≡ y
key_inj x y e = ap (λ (k : ℤ × (ℤ × List ℕ)). record { id = k.1.1; score = k.0; tm = k.1.0 }) e

-- Two elements with the same id are the same.
pub id_unique :
    (r : Rank) → IsIndexed r → (x y : Rankele) → In x r.ranks → In y r.ranks → x.id ≡ y.id → x ≡ y
id_unique r v x y m n e = some_inj (sym (v.indexed x m) ∙ ap r.id_it e ∙ v.indexed y n)

pub remove-IsIndexed :
    (e : Rankele) (r : Rank) → IsIndexed r → In e r.ranks → IsIndexed (remove e r)
unfolding remove
remove-IsIndexed e r v m = record {
  ranks_sorted = Set.erase-Sorted rank_order rank_key e r.ranks v.ranks_sorted;
  indexed = λ z n.
      Map.erase_other string_order e.id z.id r.id_it (λ f.
        Set.erase-ne rank_order rank_key e z r.ranks v.ranks_sorted n
          (ap rank_key (id_unique r v z e (old z n) m f)))
      ∙ v.indexed z (old z n);
  found = λ id z f.
      let (d, g) = Map.erase-some string_order e.id id r.id_it z f in
      let (n, same) = v.found id z g in
      (Set.In-erase rank_order rank_key e z r.ranks n (λ k. d (sym same ∙ rank_id k)), same);
}
  where
    old : (z : Rankele) → In z (rank_erase e r.ranks) → In z r.ranks
    old z n = Set.In-of-erase rank_order rank_key e z r.ranks n

-- `add` erases by the new id, which is the id of the element found.
pub erase_old-IsIndexed :
    (ele : Rankele) (r : Rank) (o : Option Rankele)
    → r.id_it ele.id ≡ o
    → IsIndexed r
    → IsIndexed (erase_old ele r o)
unfolding erase_old remove
erase_old-IsIndexed ele r none e v = v
erase_old-IsIndexed ele r (some it) e v =
    let (m, same) = v.found ele.id it e in
    subst
      (λ id.
        IsIndexed
          (record r { ranks = rank_erase it r.ranks; id_it = Map.erase string_order id r.id_it }))
      same (remove-IsIndexed it r v m)

-- What is left has other ids, and was there before.
pub erase_old-In :
    (ele z : Rankele) (r : Rank) (o : Option Rankele)
    → r.id_it ele.id ≡ o
    → IsIndexed r
    → In z (erase_old ele r o).ranks ↔ (In z r.ranks × (z.id ≢ ele.id))
unfolding erase_old
erase_old-In ele z r none e v = (λ m. (m, λ f. absent m f), λ p. p.0)
  where
    absent : In z r.ranks → z.id ≢ ele.id
    absent m f = cc (v.indexed z m, ap r.id_it f, e)
erase_old-In ele z r (some it) e v = (to, from)
  where
    there : In it r.ranks × (it.id ≡ ele.id)
    there = v.found ele.id it e

    to : In z (rank_erase it r.ranks) → In z r.ranks × (z.id ≢ ele.id)
    to m =
        let old = Set.In-of-erase rank_order rank_key it z r.ranks m in
        (
          old,
          λ f.
              Set.erase-ne rank_order rank_key it z r.ranks v.ranks_sorted m
                (ap rank_key (id_unique r v z it old there.0 (f ∙ sym there.1))),
        )

    from : In z r.ranks × (z.id ≢ ele.id) → In z (rank_erase it r.ranks)
    from (m, d) = Set.In-erase rank_order rank_key it z r.ranks m (λ k. d (rank_id k ∙ there.1))

pub erase_old-fresh :
    (ele : Rankele) (r : Rank) (o : Option Rankele)
    → r.id_it ele.id ≡ o
    → (erase_old ele r o).id_it ele.id ≡ none
unfolding erase_old
erase_old-fresh ele r none e = e
erase_old-fresh ele r (some it) e = Map.erase_self string_order ele.id r.id_it

-- The element that the insertion points to has the key of the new one, and is the same.
insert_at-same :
    (ele : Rankele) (es : List Rankele)
    → insert_at ele es (Set.find rank_order rank_key ele es) ≡ ele
unfolding insert_at
insert_at-same ele es = elim (Option-cases (Set.find rank_order rank_key ele es)) [
  | inl e ↦ rw e refl
  | inr (it, e) ↦ rw e (key_inj it ele (Set.find-some rank_order rank_key ele it es e).1)
]

unfoldable pub inserted : Rankele → Rank → Rank
inserted ele r = record r {
  ranks = Set.insert rank_order rank_key ele r.ranks;
  id_it = Map.assign string_order ele.id ele r.id_it;
}

pub insert_new-inserted :
    (ele : Rankele) (r : Rank) → r.id_it ele.id ≡ none → insert_new ele r ≡ inserted ele r
unfolding insert_new inserted
insert_new-inserted ele r e =
    rw (insert_at-same ele r.ranks, Map.insert_new string_order ele.id ele r.id_it e) refl

inserted-IsIndexed :
    (ele : Rankele) (r : Rank) → r.id_it ele.id ≡ none → IsIndexed r → IsIndexed (inserted ele r)
unfolding inserted
inserted-IsIndexed ele r e v = record {
  ranks_sorted = Set.insert-Sorted rank_order rank_key ele r.ranks v.ranks_sorted;
  indexed = λ z m. elim (Set.In-of-insert rank_order rank_key ele z r.ranks m) [
    | inl f ↦
        subst (λ w. Map.assign string_order ele.id ele r.id_it w.id ≡ some w) (sym f)
          (Map.assign_self string_order ele.id ele r.id_it)
    | inr n ↦ Map.assign_other string_order ele.id z.id ele r.id_it (new z n) ∙ v.indexed z n
  ];
  found = λ id z f. elim (Map.assign-some string_order ele.id id ele z r.id_it f) [
    | inl (same, eq) ↦ (
      subst (λ w. In w (Set.insert rank_order rank_key ele r.ranks)) eq self,
      ap Rankele.id (sym eq) ∙ sym same,
    )
    | inr (d, g) ↦
        let (n, same) = v.found id z g in
        (Set.In-insert_old rank_order rank_key ele z r.ranks n, same)
  ];
}
  where
    new : (z : Rankele) → In z r.ranks → z.id ≢ ele.id
    new z m f = cc (v.indexed z m, ap r.id_it f, e)

    self : In ele (Set.insert rank_order rank_key ele r.ranks)
    self = Set.In-insert_self rank_order rank_key ele r.ranks (λ w m k. new w m (rank_id k))

pub insert_new-IsIndexed :
    (ele : Rankele) (r : Rank) → r.id_it ele.id ≡ none → IsIndexed r → IsIndexed (insert_new ele r)
insert_new-IsIndexed ele r e v =
    subst IsIndexed (sym (insert_new-inserted ele r e)) (inserted-IsIndexed ele r e v)
