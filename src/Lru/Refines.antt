-- ===== src/Lru/Refines.antt =====
-- `update` keeps a valid cache and does what the specification says.
use mathlib.Core.Path.{subst}
use luatest.Prelude.{
  ◌≡◌, ◌≢◌, ◌∙◌, sym, ap, refl, ℕ, zero, suc, ◌≤◌, List, [], ◌∷◌, ◌++◌, Option, none, some, length,
  arith, inl, inr, length-append,
}
use luatest.Std.Order.{string_order}
use luatest.Std.Set.{In, All-In, In-All, In-append_left, In-append_right, In-of-append}
use luatest.Std.Map
use luatest.Lru.{Node, Lru, erase_node, del, del_found, push_front, evict, update}
use luatest.Lru.Valid.{
  Distinct, IsIndexed, IsValid, shrink-IsIndexed, del-IsIndexed, push_front-IsIndexed,
}
use luatest.Lru.Update.{view, remove, take, id_at, view-del, evict-cases}

take-all : (k : ℕ) (xs : List (List ℕ)) → length xs ≤ k → take k xs ≡ xs
unfolding take
take-all zero [] h = refl
take-all zero (x ∷ xs) h = absurd (omega arith)
take-all (suc k) [] h = refl
take-all (suc k) (x ∷ xs) h = ap (◌∷◌ x) (take-all k xs (omega arith))

id_at-end : (k : ℕ) (xs : List (List ℕ)) → length xs ≤ k → id_at k xs ≡ []
unfolding id_at
id_at-end k [] h = refl
id_at-end zero (x ∷ xs) h = absurd (omega arith)
id_at-end (suc k) (x ∷ xs) h = id_at-end k xs (omega arith)

take-append : (xs ys : List (List ℕ)) → take (length xs) (xs ++ ys) ≡ xs
unfolding take
take-append [] ys = refl
take-append (x ∷ xs) ys = ap (◌∷◌ x) (take-append xs ys)

id_at-append : (xs : List (List ℕ)) (y : List ℕ) → id_at (length xs) (xs ++ y ∷ []) ≡ y
unfolding id_at
id_at-append [] y = refl
id_at-append (x ∷ xs) y = id_at-append xs y

view-append : (xs ys : List Node) → view (xs ++ ys) ≡ view xs ++ view ys
view-append [] ys = refl
view-append (x ∷ xs) ys = ap (◌∷◌ x.id) (view-append xs ys)

length-view : (xs : List Node) → length (view xs) ≡ length xs
length-view [] = refl
length-view (x ∷ xs) = ap suc (length-view xs)

Distinct-front : (xs : List Node) (l : Node) → Distinct (xs ++ l ∷ []) → Distinct xs
Distinct-front [] l d = tt
Distinct-front (x ∷ xs) l d = (
  In-All (λ w. w.address ≢ x.address) xs
      (λ z m.
        All-In (λ w. w.address ≢ x.address) (xs ++ l ∷ []) d.0 z (In-append_left z xs (l ∷ []) m)),
  Distinct-front xs l d.1,
)

last-ne : (xs : List Node) (l z : Node) → Distinct (xs ++ l ∷ []) → In z xs → z.address ≢ l.address
last-ne [] l z d m = absurd m
last-ne (x ∷ xs) l z d (inl f) = λ e.
    All-In (λ w. w.address ≢ x.address) (xs ++ l ∷ []) d.0 l
      (In-append_right l xs (l ∷ []) (inl refl)) (sym e ∙ ap Node.address f)
last-ne (x ∷ xs) l z d (inr m) = last-ne xs l z d.1 m

dropped-IsIndexed :
    (s : Lru) (xs : List Node) (l : Node)
    → IsIndexed s
    → s.ids ≡ xs ++ l ∷ []
    → IsIndexed (record s { ids = xs; it = Map.erase string_order l.id s.it })
dropped-IsIndexed s xs l v e =
    shrink-IsIndexed s l xs v (subst (In l) (sym e) (In-append_right l xs (l ∷ []) (inl refl)))
      (Distinct-front xs l d)
      (λ z m. (subst (In z) (sym e) (In-append_left z xs (l ∷ []) m), last-ne xs l z d m))
      (λ z m other. elim (In-of-append z xs (l ∷ []) (subst (In z) e m)) [
        | inl n ↦ n
        | inr (inl f) ↦ absurd (other (ap Node.address f))
        | inr (inr n) ↦ absurd n
      ])
  where
    d : Distinct (xs ++ l ∷ [])
    d = subst Distinct e v.distinct

-- `evict` of a cache that is at most one id too large cuts it to its number.
Cut : Lru → List ℕ × Lru → Type 0
Cut s r =
    IsValid r.1
    × (r.1.num ≡ s.num)
    × (r.0 ≡ id_at s.num (view s.ids))
    × (view r.1.ids ≡ take s.num (view s.ids))

dropped-Cut :
    (s : Lru) (xs : List Node) (l : Node)
    → IsIndexed s
    → length xs ≡ s.num
    → s.ids ≡ xs ++ l ∷ []
    → Cut s (l.id, record s { ids = xs; it = Map.erase string_order l.id s.it })
unfolding Cut
dropped-Cut s xs l v long e = (
  record { is_indexed = dropped-IsIndexed s xs l v e; small = omega (arith, long) },
  refl,
  sym (
      ap (λ k. id_at k (view s.ids)) count
      ∙ ap (id_at (length (view xs))) ids
      ∙ id_at-append (view xs) l.id),
  sym (
      ap (λ k. take k (view s.ids)) count
      ∙ ap (take (length (view xs))) ids
      ∙ take-append (view xs) (l.id ∷ [])),
)
  where
    count : s.num ≡ length (view xs)
    count = sym (length-view xs ∙ long)

    ids : view s.ids ≡ view xs ++ l.id ∷ []
    ids = ap view e ∙ view-append xs (l ∷ [])

evict-Cut : (s : Lru) → IsIndexed s → length s.ids ≤ suc s.num → Cut s (evict s)
unfolding Cut
evict-Cut s v h = elim (evict-cases s) [
  | inl (small, same) ↦ subst (Cut s) (sym same) (
    record { is_indexed = v; small = small },
    refl,
    sym (id_at-end s.num (view s.ids) (omega (arith, small, length-view s.ids))),
    sym (take-all s.num (view s.ids) (omega (arith, small, length-view s.ids))),
  )
  | inr (xs, l, (over, e, same)) ↦
      subst (Cut s) (sym same)
        (dropped-Cut s xs l v (omega (arith, h, over, ap length e, length-append xs (l ∷ []))) e)
]

length-erase_node : (a : ℕ) (ns : List Node) → length (erase_node a ns) ≤ length ns
unfolding erase_node
length-erase_node a [] = omega arith
length-erase_node a (n ∷ ns) = ground (arith, length-erase_node a ns)

-- `del` of a valid cache leaves a valid cache without the id, of the same size.
Removed : List ℕ → Lru → Lru → Type 0
Removed id s r = IsValid r × (r.num ≡ s.num) × (r.it id ≡ none)

del_found-Removed :
    (id : List ℕ) (s : Lru) (o : Option ℕ)
    → s.it id ≡ o
    → IsValid s
    → IsIndexed (del_found id s o)
    → Removed id s (del_found id s o)
unfolding del_found Removed
del_found-Removed id s none e v w = (v, refl, e)
del_found-Removed id s (some a) e v w = (
  record { is_indexed = w; small = omega (arith, v.small, length-erase_node a s.ids) },
  refl,
  Map.erase_self string_order id s.it,
)

del-Removed : (id : List ℕ) (s : Lru) → IsValid s → Removed id s (del id s)
unfolding del
del-Removed id s v = del_found-Removed id s (s.it id) refl v (del-IsIndexed id s v.is_indexed)

-- On a valid cache `update` leaves a valid cache of the same size. With the new id put before the
-- others, what was there of it removed, the cache holds the first ids, up to its size, and the
-- result is the next id, or the empty string where there is none.
pub update-refines :
    (id : List ℕ) (s : Lru)
    → IsValid s
    → IsValid (update id s).1
      × ((update id s).1.num ≡ s.num)
      × ((update id s).0 ≡ id_at s.num (id ∷ remove id (view s.ids)))
      × (view (update id s).1.ids ≡ take s.num (id ∷ remove id (view s.ids)))
unfolding update push_front Removed Cut
update-refines id s v =
    let (w, num, absent) = del-Removed id s v in
    let (valid, same, evicted, left) =
      evict-Cut (push_front id (del id s)) (push_front-IsIndexed id (del id s) absent w.is_indexed)
        (omega (arith, w.small)) in
    let ids = ap (◌∷◌ id) (view-del id s v) in
    (
      valid,
      same ∙ num,
      evicted ∙ ap (λ k. id_at k (id ∷ view (del id s).ids)) num ∙ ap (id_at s.num) ids,
      left ∙ ap (λ k. take k (id ∷ view (del id s).ids)) num ∙ ap (take s.num) ids,
    )

-- On a valid cache `del` leaves a valid cache of the same size, whose ids are those that were there
-- without the given one, in the same order.
pub del-refines :
    (id : List ℕ) (s : Lru)
    → IsValid s
    → IsValid (del id s) × ((del id s).num ≡ s.num) × (view (del id s).ids ≡ remove id (view s.ids))
unfolding Removed
del-refines id s v = let (w, num, absent) = del-Removed id s v in (w, num, view-del id s v)
