-- ===== src/Rank/Evict.antt =====
-- `evict` drops the last element where the ranking is over its size.
use mathlib.Core.Path.{subst}
use mathlib.Core.List.{append-nil}
use luatest.Prelude.{
  ◌≡◌, ◌∙◌, sym, ap, refl, suc, ◌≤◌, ◌<◌, List, [], ◌∷◌, ◌++◌, some, length, arith, All, inl, inr,
  ◌⊎◌, length-append, leb, false, Bool-cases, tests,
}
use luatest.Std.Set
use luatest.Std.Set.{In, Above, Sorted, In-of-append, In-append_left, In-append_right}
use luatest.Rank.{Rankele, Rank, rank_key, rank_order, rank_erase, remove, last, evict_last, evict}
use luatest.Rank.Valid.{IsIndexed, remove-IsIndexed}

-- A list that is not empty ends with its last element.
last_split :
    (e : Rankele) (es : List Rankele)
    → (xs : List Rankele) × ((l : Rankele) × ((e ∷ es ≡ xs ++ l ∷ []) × (last (e ∷ es) ≡ some l)))
unfolding last
last_split e [] = ([], (e, (refl, refl)))
last_split e (f ∷ es) =
    let (xs, (l, (same, is_last))) = last_split f es in (e ∷ xs, (l, (ap (◌∷◌ e) same, is_last)))

-- What `evict` does: nothing up to the size, and else it removes the last element.
abbrev Kept : Rank → Type 0
Kept r = (length r.ranks ≤ r.max) × (evict r ≡ r)

abbrev Dropped : Rank → Type 0
Dropped r =
    (xs : List Rankele) × ((l : Rankele) × ((r.max < length r.ranks)
        × (r.ranks ≡ xs ++ l ∷ [])
        × (evict r ≡ remove l r)))

over_split :
    (r : Rank) (es : List Rankele) → r.ranks ≡ es → leb (length r.ranks) r.max ≡ false → Dropped r
unfolding evict evict_last
over_split r [] e h = absurd (ground (arith, ap length e))
over_split r (f ∷ es) e h =
    let (xs, (l, (same, is_last))) = last_split f es in
    (xs, (l, (ground arith, e ∙ same, rw (h, e, is_last))))

pub evict-cases : (r : Rank) → Kept r ⊎ Dropped r
unfolding evict
evict-cases r = elim (Bool-cases (leb (length r.ranks) r.max)) [
  | inl h ↦ inl (omega tests, rw h)
  | inr h ↦ inr (over_split r r.ranks refl h)
]

-- The elements that are left when the last one is removed.
remove_ranks :
    (r : Rank) (xs : List Rankele) (l : Rankele)
    → IsIndexed r
    → r.ranks ≡ xs ++ l ∷ []
    → (remove l r).ranks ≡ xs ++ []
unfolding remove
remove_ranks r xs l v e =
    ap (rank_erase l) e
    ∙ Set.erase_middle rank_order rank_key xs l []
        (subst (Sorted rank_order rank_key) e v.ranks_sorted)

-- A valid index stays valid, and the bound holds where the ranking was one element over it.
pub evict-IsIndexed : (r : Rank) → IsIndexed r → IsIndexed (evict r)
evict-IsIndexed r v = elim (evict-cases r) [
  | inl (_, same) ↦ subst IsIndexed (sym same) v
  | inr (xs, (l, (_, e, same))) ↦
      subst IsIndexed (sym same)
        (remove-IsIndexed l r v (subst (In l) (sym e) (In-append_right l xs (l ∷ []) (inl refl))))
]

pub max-evict : (r : Rank) → (evict r).max ≡ r.max
unfolding remove
max-evict r = elim (evict-cases r) [
  | inl (_, same) ↦ ap Rank.max same
  | inr (xs, (l, (_, e, same))) ↦ ap Rank.max same
]

dropped_ranks :
    (r : Rank) (xs : List Rankele) (l : Rankele)
    → IsIndexed r
    → r.ranks ≡ xs ++ l ∷ []
    → evict r ≡ remove l r
    → (evict r).ranks ≡ xs
dropped_ranks r xs l v e same = ap Rank.ranks same ∙ remove_ranks r xs l v e ∙ append-nil xs

pub evict-small :
    (r : Rank) → IsIndexed r → length r.ranks ≤ suc r.max → length (evict r).ranks ≤ r.max
evict-small r v h = elim (evict-cases r) [
  | inl (small, same) ↦ rw same small
  | inr (xs, (l, (_, e, same))) ↦
      rw (dropped_ranks r xs l v e same) (omega (arith, h, ap length e, length-append xs (l ∷ [])))
]

pub In-of-evict : (z : Rankele) (r : Rank) → IsIndexed r → In z (evict r).ranks → In z r.ranks
In-of-evict z r v m = elim (evict-cases r) [
  | inl (_, same) ↦ subst (λ s. In z s.ranks) same m
  | inr (xs, (l, (_, e, same))) ↦
      subst (In z) (sym e)
        (In-append_left z xs (l ∷ []) (subst (In z) (dropped_ranks r xs l v e same) m))
]

-- All that stands before the last element is above it.
before_last :
    (xs : List Rankele) (l : Rankele)
    → Sorted rank_order rank_key (xs ++ l ∷ [])
    → All (λ w. Above rank_order rank_key w l) xs
before_last [] l s = tt
before_last (x ∷ xs) l s = (
  Set.All-In (Above rank_order rank_key x) (xs ++ l ∷ []) s.0 l
      (In-append_right l xs (l ∷ []) (inl refl)),
  before_last xs l s.1,
)

-- An element that `evict` drops leaves a full ranking of elements above it.
abbrev pub Beaten : Rankele → Rank → Type 0
Beaten z r = (length r.ranks ≡ r.max) × All (λ w. Above rank_order rank_key w z) r.ranks

pub In-evict :
    (z : Rankele) (r : Rank)
    → IsIndexed r
    → length r.ranks ≤ suc r.max
    → In z r.ranks
    → In z (evict r).ranks ⊎ Beaten z (evict r)
In-evict z r v h m = elim (evict-cases r) [
  | inl (_, same) ↦ inl (subst (λ s. In z s.ranks) (sym same) m)
  | inr (xs, (l, (over, e, same))) ↦
      let left = dropped_ranks r xs l v e same in
      elim (In-of-append z xs (l ∷ []) (subst (In z) e m)) [
        | inl n ↦ inl (subst (In z) (sym left) n)
        | inr (inr n) ↦ absurd n
        | inr (inl f) ↦ inr (
          omega
              (arith, h, over, ap length left, ap length e, length-append xs (l ∷ []), max-evict r),
          rw (f, left) (before_last xs l (subst (Sorted rank_order rank_key) e v.ranks_sorted)),
        )
      ]
]
