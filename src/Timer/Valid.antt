-- ===== src/Timer/Valid.antt =====
-- The two sets of a timer hold the same elements, each in its order.
use mathlib.Core.Path.{subst}
use luatest.Prelude.{
  ◌↔◌, Option-cases, ◌≡◌, ◌≢◌, ◌∙◌, sym, List, ap, Option, none, some, refl, ℕ, ◌⊎◌, inl, inr,
}
use luatest.Prelude.Int.{ℤ}
use luatest.Std.Set
use luatest.Std.Set.{In, Sorted}
use luatest.Timer.{
  Ele, Timer, id_key, tm_key, id_order, tm_order, timer_find, timer_erase, iter_erase, del, add,
  erase_found, insert_new,
}

pub record IsValid (t : Timer) : Type 0 where
  pub timer_sorted : Sorted id_order id_key t.timer
  pub iter_sorted : Sorted tm_order tm_key t.iter
  pub to_iter : (z : Ele) → In z t.timer → In z t.iter
  pub to_timer : (z : Ele) → In z t.iter → In z t.timer

tm_id : {x y : Ele} → tm_key x ≡ tm_key y → id_key x ≡ id_key y
tm_id e = ap (λ (k : ℤ × (ℤ × List ℕ)). k.1) e

-- An element of a valid timer is erased from both sets.
pub erase_both-IsValid :
    (e : Ele) (t : Timer)
    → IsValid t
    → In e t.timer
    → IsValid (record { timer = timer_erase e t.timer; iter = iter_erase e t.iter })
erase_both-IsValid e t v m = record {
  timer_sorted = Set.erase-Sorted id_order id_key e t.timer v.timer_sorted;
  iter_sorted = Set.erase-Sorted tm_order tm_key e t.iter v.iter_sorted;
  to_iter = λ z n.
      Set.In-erase tm_order tm_key e z t.iter
        (v.to_iter z (Set.In-of-erase id_order id_key e z t.timer n))
        (λ f. Set.erase-ne id_order id_key e z t.timer v.timer_sorted n (tm_id f));
  to_timer = λ z n.
      let old = v.to_timer z (Set.In-of-erase tm_order tm_key e z t.iter n) in
      Set.In-erase id_order id_key e z t.timer old (λ f.
        Set.erase-ne tm_order tm_key e z t.iter v.iter_sorted n
          (ap tm_key (Set.In-unique id_order id_key z e t.timer v.timer_sorted old m f)));
}

erase_found-IsValid :
    (ele : Ele) (t : Timer) (r : Option Ele)
    → timer_find ele t.timer ≡ r
    → IsValid t
    → IsValid (erase_found t r)
unfolding erase_found
erase_found-IsValid ele t none e v = v
erase_found-IsValid ele t (some it) e v =
    erase_both-IsValid it t v (Set.find-some id_order id_key ele it t.timer e).0

pub del-IsValid : (ele : Ele) (t : Timer) → IsValid t → IsValid (del ele t)
unfolding del
del-IsValid ele t v = erase_found-IsValid ele t (timer_find ele t.timer) refl v

-- What `del` leaves.
erase_found-In :
    (ele z : Ele) (t : Timer) (r : Option Ele)
    → timer_find ele t.timer ≡ r
    → IsValid t
    → In z (erase_found t r).timer
    → In z t.timer × (id_key z ≢ id_key ele)
unfolding erase_found
erase_found-In ele z t none e v m =
    (m, Set.find-none id_order id_key ele z t.timer v.timer_sorted e m)
erase_found-In ele z t (some it) e v m = (
  Set.In-of-erase id_order id_key it z t.timer m,
  λ f.
      Set.erase-ne id_order id_key it z t.timer v.timer_sorted m
        (f ∙ sym (Set.find-some id_order id_key ele it t.timer e).1),
)

erase_found_kept :
    (ele z : Ele) (t : Timer) (r : Option Ele)
    → timer_find ele t.timer ≡ r
    → In z t.timer
    → id_key z ≢ id_key ele
    → In z (erase_found t r).timer
unfolding erase_found
erase_found_kept ele z t none e m d = m
erase_found_kept ele z t (some it) e m d =
    Set.In-erase id_order id_key it z t.timer m
      (λ f. d (f ∙ (Set.find-some id_order id_key ele it t.timer e).1))

pub del-In :
    (ele z : Ele) (t : Timer)
    → IsValid t
    → In z (del ele t).timer
    → In z t.timer × (id_key z ≢ id_key ele)
unfolding del
del-In ele z t v m = erase_found-In ele z t (timer_find ele t.timer) refl v m

pub del_kept :
    (ele z : Ele) (t : Timer) → In z t.timer → id_key z ≢ id_key ele → In z (del ele t).timer
unfolding del
del_kept ele z t m d = erase_found_kept ele z t (timer_find ele t.timer) refl m d

-- Where no element has the key, the new one goes into both sets.
insert_both-IsValid :
    (e : Ele) (t : Timer)
    → IsValid t
    → ((z : Ele) → In z t.timer → id_key z ≢ id_key e)
    → IsValid (record {
      timer = Set.insert id_order id_key e t.timer;
      iter = Set.insert tm_order tm_key e t.iter;
    })
insert_both-IsValid e t v new = record {
  timer_sorted = Set.insert-Sorted id_order id_key e t.timer v.timer_sorted;
  iter_sorted = Set.insert-Sorted tm_order tm_key e t.iter v.iter_sorted;
  to_iter = λ z m. elim (Set.In-of-insert id_order id_key e z t.timer m) [
    | inl f ↦
        subst (λ w. In w (Set.insert tm_order tm_key e t.iter)) (sym f)
          (Set.In-insert_self tm_order tm_key e t.iter (λ w n g. new w (v.to_timer w n) (tm_id g)))
    | inr old ↦ Set.In-insert_old tm_order tm_key e z t.iter (v.to_iter z old)
  ];
  to_timer = λ z m. elim (Set.In-of-insert tm_order tm_key e z t.iter m) [
    | inl f ↦
        subst (λ w. In w (Set.insert id_order id_key e t.timer)) (sym f)
          (Set.In-insert_self id_order id_key e t.timer new)
    | inr old ↦ Set.In-insert_old id_order id_key e z t.timer (v.to_timer z old)
  ];
}

-- After `del` no element has the key, so `add` inserts.
pub add-insert :
    (e : Ele) (t : Timer)
    → IsValid t
    → add e t ≡ record {
      timer = Set.insert id_order id_key e (del e t).timer;
      iter = Set.insert tm_order tm_key e (del e t).iter;
    }
unfolding add insert_new
add-insert e t v = elim (Option-cases (timer_find e (del e t).timer)) [
  | inl absent ↦ rw absent
  | inr (it, found) ↦
      let (m, same) = Set.find-some id_order id_key e it (del e t).timer found in
      absurd ((del-In e it t v m).1 same)
]

pub add-IsValid : (e : Ele) (t : Timer) → IsValid t → IsValid (add e t)
add-IsValid e t v =
    rw (add-insert e t v)
      (insert_both-IsValid e (del e t) (del-IsValid e t v) (λ z m. (del-In e z t v m).1))

-- After `add` a timer is there exactly if it is the new one, or was there with another id or text.
pub In-add_iff :
    (e z : Ele) (t : Timer)
    → IsValid t
    → In z (add e t).timer ↔ ((z ≡ e) ⊎ (In z t.timer × (id_key z ≢ id_key e)))
In-add_iff e z t v = rw (add-insert e t v) (to, from)
  where
    to :
        In z (Set.insert id_order id_key e (del e t).timer)
        → (z ≡ e) ⊎ (In z t.timer × (id_key z ≢ id_key e))
    to m = elim (Set.In-of-insert id_order id_key e z (del e t).timer m) [
      | inl f ↦ inl f
      | inr n ↦ inr (del-In e z t v n)
    ]

    from :
        (z ≡ e) ⊎ (In z t.timer × (id_key z ≢ id_key e))
        → In z (Set.insert id_order id_key e (del e t).timer)
    from (inl f) =
        subst (λ w. In w (Set.insert id_order id_key e (del e t).timer)) (sym f)
          (Set.In-insert_self id_order id_key e (del e t).timer (λ w m. (del-In e w t v m).1))
    from (inr (m, d)) = Set.In-insert_old id_order id_key e z (del e t).timer (del_kept e z t m d)

-- After `del` a timer is there exactly if it was there with another id or text.
pub In-del_iff :
    (e z : Ele) (t : Timer)
    → IsValid t
    → In z (del e t).timer ↔ (In z t.timer × (id_key z ≢ id_key e))
In-del_iff e z t v = (del-In e z t v, λ p. del_kept e z t p.0 p.1)
