-- ===== src/Rank/Add.antt =====
-- `add` keeps the best elements, one for each id.
use mathlib.Core.Path.{subst}
use luatest.Prelude.{
  ◌↔◌, ◌≡◌, ◌≢◌, sym, refl, suc, ◌≤◌, Option, none, some, length, arith, ◌⊎◌, inl, inr,
}
use luatest.Std.Set
use luatest.Std.Set.{In}
use luatest.Rank.{Rankele, Rank, rank_key, rank_order, add, erase_old, insert_new, evict}
use luatest.Rank.Valid.{
  IsIndexed, IsValid, erase_old-IsIndexed, erase_old-In, erase_old-fresh, insert_new-IsIndexed,
  insert_new-inserted, inserted, rank_id,
}
use luatest.Rank.Evict.{evict-IsIndexed, evict-small, max-evict, In-of-evict, In-evict, Beaten}

-- The ranking between the first two statements of `add`, and before the last.
cleared : Rankele → Rank → Rank
unfolding erase_old
cleared e r = erase_old e r (r.id_it e.id)

filled : Rankele → Rank → Rank
unfolding insert_new cleared
filled e r = insert_new e (cleared e r)

cleared-IsIndexed : (e : Rankele) (r : Rank) → IsIndexed r → IsIndexed (cleared e r)
unfolding cleared
cleared-IsIndexed e r v = erase_old-IsIndexed e r (r.id_it e.id) refl v

filled-inserted : (e : Rankele) (r : Rank) → filled e r ≡ inserted e (cleared e r)
unfolding filled cleared
filled-inserted e r = insert_new-inserted e (cleared e r) (erase_old-fresh e r (r.id_it e.id) refl)

filled-IsIndexed : (e : Rankele) (r : Rank) → IsIndexed r → IsIndexed (filled e r)
unfolding filled cleared
filled-IsIndexed e r v =
    insert_new-IsIndexed e (cleared e r) (erase_old-fresh e r (r.id_it e.id) refl)
      (cleared-IsIndexed e r v)

max-erase_old : (e : Rankele) (r : Rank) (o : Option Rankele) → (erase_old e r o).max ≡ r.max
unfolding erase_old
max-erase_old e r none = refl
max-erase_old e r (some it) = refl

length-erase_old :
    (e : Rankele) (r : Rank) (o : Option Rankele) → length (erase_old e r o).ranks ≤ length r.ranks
unfolding erase_old
length-erase_old e r none = omega arith
length-erase_old e r (some it) = Set.length-erase rank_order rank_key it r.ranks

max-filled : (e : Rankele) (r : Rank) → (filled e r).max ≡ r.max
unfolding filled insert_new cleared
max-filled e r = max-erase_old e r (r.id_it e.id)

length-filled :
    (e : Rankele) (r : Rank) → IsValid r → length (filled e r).ranks ≤ suc (filled e r).max
unfolding filled insert_new cleared
length-filled e r v = omega (
  arith,
  v.small,
  max-filled e r,
  length-erase_old e r (r.id_it e.id),
  Set.length-insert rank_order rank_key e (cleared e r).ranks,
)

-- After `add` on a valid ranking, the index has the elements and nothing else, the elements stand in
-- their order, and they are no more than the size.
pub add-IsValid : (e : Rankele) (r : Rank) → IsValid r → IsValid (add e r)
unfolding add filled cleared
add-IsValid e r v = record {
  is_indexed = evict-IsIndexed (filled e r) (filled-IsIndexed e r v.is_indexed);
  small =
      subst (λ m. length (evict (filled e r)).ranks ≤ m) (sym (max-evict (filled e r)))
        (evict-small (filled e r) (filled-IsIndexed e r v.is_indexed) (length-filled e r v));
}

In-filled :
    (e z : Rankele) (r : Rank)
    → IsIndexed r
    → In z (filled e r).ranks ↔ ((z ≡ e) ⊎ (In z r.ranks × (z.id ≢ e.id)))
unfolding inserted cleared
In-filled e z r v = rw (filled-inserted e r) (to, from)
  where
    old : In z (cleared e r).ranks ↔ (In z r.ranks × (z.id ≢ e.id))
    old = erase_old-In e z r (r.id_it e.id) refl v

    to : In z (inserted e (cleared e r)).ranks → (z ≡ e) ⊎ (In z r.ranks × (z.id ≢ e.id))
    to m = elim (Set.In-of-insert rank_order rank_key e z (cleared e r).ranks m) [
      | inl f ↦ inl f
      | inr n ↦ inr (old.0 n)
    ]

    from : (z ≡ e) ⊎ (In z r.ranks × (z.id ≢ e.id)) → In z (inserted e (cleared e r)).ranks
    from (inl f) =
        subst (λ w. In w (inserted e (cleared e r)).ranks) (sym f)
          (Set.In-insert_self rank_order rank_key e (cleared e r).ranks
            (λ w m k. ((erase_old-In e w r (r.id_it e.id) refl v).0 m).1 (rank_id k)))
    from (inr p) = Set.In-insert_old rank_order rank_key e z (cleared e r).ranks (old.1 p)

-- On a valid ranking, what `add` leaves is the new element or was there with another id. Of these,
-- all are left, except one with a full ranking of elements above it.
pub In-add :
    (e z : Rankele) (r : Rank)
    → IsValid r
    → (In z (add e r).ranks → (z ≡ e) ⊎ (In z r.ranks × (z.id ≢ e.id)))
      × ((z ≡ e) ⊎ (In z r.ranks × (z.id ≢ e.id)) → In z (add e r).ranks ⊎ Beaten z (add e r))
unfolding add filled cleared
In-add e z r v = (
  λ m.
      (In-filled e z r v.is_indexed).0
        (In-of-evict z (filled e r) (filled-IsIndexed e r v.is_indexed) m),
  λ p.
      In-evict z (filled e r) (filled-IsIndexed e r v.is_indexed) (length-filled e r v)
        ((In-filled e z r v.is_indexed).1 p),
)
