-- ===== src/Rank/Orders.antt =====
-- `get_order` and `info` agree on the places of the elements.
use mathlib.Core.Path.{subst}
use mathlib.Core.List.{append_assoc}
use luatest.Prelude.{
  ◌≡◌, ◌↔◌, ◌≢◌, ◌∙◌, sym, ap, refl, ℕ, zero, suc, ◌+◌, ◌-◌, ◌≤◌, List, [], ◌∷◌, ◌++◌, some, length,
  arith, All, Option-cases, inl, inr, length-append, ltb, if◌then◌else◌, false, Bool-cases,
}
use luatest.Prelude.Int.{pos, negsuc}
use luatest.Std.Order.{asymm}
use luatest.Std.Set
use luatest.Std.Set.{In, Sorted, Above, In-append_right}
use luatest.Rank.{
  Rankele, Rank, rank_key, rank_order, order_of_key, get_order, order_at, position, clamp, between,
  info, passed, pred,
}
use luatest.Rank.Valid.{IsValid}

order_after :
    (e : Rankele) (fs : List Rankele) → All (Above rank_order rank_key e) fs → order_of_key e fs ≡ 0
unfolding order_of_key
order_after e [] h = refl
order_after e (f ∷ fs) h =
    rw (asymm rank_order (rank_key e) (rank_key f) h.0) (order_after e fs h.1)

-- In a sorted list the elements before one are those with a smaller key.
order_of_key-length :
    (e : Rankele) (xs ys : List Rankele)
    → Sorted rank_order rank_key (xs ++ e ∷ ys)
    → order_of_key e (xs ++ e ∷ ys) ≡ length xs
unfolding order_of_key
order_of_key-length e [] ys s = rw (rank_order.irrefl (rank_key e)) (order_after e ys s.0)
order_of_key-length e (x ∷ xs) ys s =
    rw
      (Set.All-In (Above rank_order rank_key x) (xs ++ e ∷ ys) s.0 e
        (In-append_right e xs (e ∷ ys) (inl refl)))
      (ap suc (order_of_key-length e xs ys s.1))

-- On a valid ranking `get_order` of an element's id is its place, counted from 1.
pub get_order-place :
    (r : Rank) (xs : List Rankele) (e : Rankele) (ys : List Rankele)
    → IsValid r
    → r.ranks ≡ xs ++ e ∷ ys
    → get_order e.id r ≡ pos (length xs + 1)
unfolding get_order order_at
get_order-place r xs e ys v split =
    rw
      (
        v.is_indexed.indexed e
            (subst (In e) (sym split) (In-append_right e xs (e ∷ ys) (inl refl))),
        ap (order_of_key e) split,
        order_of_key-length e xs ys
            (subst (Sorted rank_order rank_key) split v.is_indexed.ranks_sorted),
      )
      refl

-- On a valid ranking `get_order` is -1 exactly for the ids that no element has.
get_order-absent :
    (r : Rank) (id : List ℕ)
    → IsValid r
    → (get_order id r ≡ negsuc 0) ↔ ((z : Rankele) → In z r.ranks → z.id ≢ id)
unfolding get_order order_at
get_order-absent r id v = elim (Option-cases (r.id_it id)) [
  | inl e ↦ (λ _ z m f. cc (v.is_indexed.indexed z m, ap r.id_it f, e), λ _. rw e refl)
  | inr (z, e) ↦ (
    λ f. absurd (cc (rw e at f)),
    λ h. absurd (h z (v.is_indexed.found id z e).0 (v.is_indexed.found id z e).1),
  )
]

-- What `between` passes on is the part of the list between the two positions.
from_start :
    (q : ℕ) (es : List Rankele)
    → q ≤ length es
    → (mid ys : List Rankele) × ((between 0 q es ≡ some mid) × (es ≡ mid ++ ys) × (length mid ≡ q))
unfolding between passed
from_start zero es k = ([], es, (refl, refl, refl))
from_start (suc q) [] k = absurd (omega arith)
from_start (suc q) (e ∷ es) k =
    let (mid, ys, (got, same, long)) = from_start q es (omega arith) in
    (e ∷ mid, ys, (rw got refl, ap (◌∷◌ e) same, ap suc long))

Part : ℕ → ℕ → List Rankele → Type 0
Part p q es =
    (xs mid ys : List Rankele) × ((between p q es ≡ some mid)
      × (es ≡ xs ++ (mid ++ ys))
      × (length xs ≡ p)
      × (p + length mid ≡ q))

between-Part : (p q : ℕ) (es : List Rankele) → p ≤ q → q ≤ length es → Part p q es
unfolding between Part
between-Part zero q es h k =
    let (mid, ys, (got, same, long)) = from_start q es k in
    ([], mid, ys, (got, same, refl, omega (arith, long)))
between-Part (suc p) zero es h k = absurd (omega arith)
between-Part (suc p) (suc q) [] h k = absurd (omega arith)
between-Part (suc p) (suc q) (e ∷ es) h k =
    let (xs, mid, ys, (got, same, start, end)) = between-Part p q es (omega arith) (omega arith) in
    (e ∷ xs, mid, ys, (got, ap (◌∷◌ e) same, ap suc start, omega (arith, end)))

-- Both bounds are cut to the size.
abbrev pub least : ℕ → ℕ → ℕ
least a b = if ltb a b then a else b

info-between :
    (n m : ℕ) (r : Rank)
    → info (pos (suc n)) (pos m) r
      ≡ between (least n (length r.ranks)) (least m (length r.ranks)) r.ranks
unfolding info position clamp pred
info-between n m r = elim (Bool-cases (ltb (length r.ranks) m)) [
  | inl h ↦
      let back : ltb m (length r.ranks) ≡ false = ground arith in
      let self : ltb (length r.ranks) (length r.ranks) ≡ false = ground arith in
      rw (h, back, self) refl
  | inr h ↦ rw h refl
]

regroup :
    (pre xs ys post : List Rankele) (e : Rankele)
    → pre ++ ((xs ++ e ∷ ys) ++ post) ≡ (pre ++ xs) ++ e ∷ (ys ++ post)
regroup pre xs ys post e =
    ap (◌++◌ pre) (append_assoc xs (e ∷ ys) post) ∙ sym (append_assoc pre xs (e ∷ (ys ++ post)))

-- Where the part is not empty, it starts at the place asked for.
starts : (n m size p k : ℕ) → p ≡ least n size → least n size + suc k ≡ least m size → p ≡ n
starts n m size p k h e = ground arith

place_in_part :
    (n m : ℕ) (r : Rank) (pre mid post xs ys : List Rankele) (e : Rankele)
    → IsValid r
    → r.ranks ≡ pre ++ (mid ++ post)
    → length pre ≡ least n (length r.ranks)
    → least n (length r.ranks) + length mid ≡ least m (length r.ranks)
    → mid ≡ xs ++ e ∷ ys
    → get_order e.id r ≡ pos (n + length xs + 1)
place_in_part n m r pre mid post xs ys e v same start end split =
    get_order-place r (pre ++ xs) e (ys ++ post) v
      (same ∙ ap (λ l. pre ++ (l ++ post)) split ∙ regroup pre xs ys post e)
    ∙ ap (λ k. pos (k + 1))
        (length-append pre xs
          ∙ ap (λ k. k + length xs)
              (starts n m (length r.ranks) (length pre) (length xs + length ys) start
                (omega (arith, end, ap length split, length-append xs (e ∷ ys)))))

cut_order : (n m size : ℕ) → n ≤ m → least n size ≤ least m size
cut_order n m size h = ground arith

cut_small : (m size : ℕ) → least m size ≤ size
cut_small m size = ground arith

cut_length : (n m size k : ℕ) → n ≤ m → least n size + k ≡ least m size → k ≡ least m size - n
cut_length n m size k h e = ground arith

-- On a valid ranking `info` from the place n + 1 to the place m, with n at most m, lists the elements of
-- the ranking at these places in their order, with id, score and time, as far as there are any, and
-- `get_order` gives the place of each.
pub info-get_order :
    (n m : ℕ) (r : Rank)
    → IsValid r
    → n ≤ m
    → (es : List Rankele) × ((info (pos (suc n)) (pos m) r ≡ some es)
        × (length es ≡ least m (length r.ranks) - n)
        × ((pre post : List Rankele) × ((r.ranks ≡ pre ++ (es ++ post))
              × (length pre ≡ least n (length r.ranks))))
        × ((xs : List Rankele) (e : Rankele) (ys : List Rankele)
            → es ≡ xs ++ e ∷ ys
            → get_order e.id r ≡ pos (n + length xs + 1)))
unfolding Part
info-get_order n m r v h =
    let (pre, mid, post, (got, same, start, end)) =
      between-Part (least n (length r.ranks)) (least m (length r.ranks)) r.ranks
        (cut_order n m (length r.ranks) h) (cut_small m (length r.ranks)) in
    (
      mid,
      (
        info-between n m r ∙ got,
        cut_length n m (length r.ranks) (length mid) h end,
        (pre, post, (same, start)),
        λ xs e ys split. place_in_part n m r pre mid post xs ys e v same start end split,
      ),
    )
