-- ===== src/Timer/Calls.antt =====
-- `delid`: every timer of an id goes, and no other.
use luatest.Prelude.{
  ◌↔◌, ◌≡◌, ◌≢◌, ◌∙◌, sym, List, [], ◌∷◌, ◌++◌, ap, refl, ℕ, ◌⊎◌, inl, inr, Bool, true, false,
  arith, All, Bool-cases, if◌then◌else◌,
}
use luatest.Prelude.Int.{ℤ, pos, ltb_ℤ, ltb_ℤ-antisymm}
use luatest.Std.Order.{lt_string}
use luatest.Std.Set
use luatest.Std.Set.{In, Sorted, All-In, In-All, In-append_right, In-append_left, In-of-append}
use luatest.Timer.{Ele, Timer, id_key, id_order, iter_erase, lower_bound, delid_loop, delid}
use luatest.Timer.Valid.{IsValid, erase_both-IsValid}

abbrev probe : ℤ → Ele
probe id = record { id = id; tm = pos 0; info = [] }

abbrev lt_id : Ele → Ele → Bool
lt_id = Set.lt id_order id_key

lower_bound-append : (p : Ele) (ts : List Ele) → (lower_bound p ts).0 ++ (lower_bound p ts).1 ≡ ts
unfolding lower_bound
lower_bound-append p [] = refl
lower_bound-append p (t ∷ ts) = elim (Bool-cases (lt_id t p)) [
  | inl h ↦ rw h (ap (◌∷◌ t) (lower_bound-append p ts))
  | inr h ↦ rw h
]

-- In front of the bound the ids are smaller.
smaller_id : (id : ℤ) (t : Ele) → lt_id t (probe id) ≡ true → t.id ≢ id
unfolding lt_string
smaller_id id t h e = go t.info (rw e at h)
  where
    go :
        (s : List ℕ)
        → (if ltb_ℤ id id then true else if ltb_ℤ id id then false else lt_string s []) ≡ true
        → ⊥
    go [] h = ground arith
    go (b ∷ s) h = ground arith

before-ne : (id : ℤ) (z : Ele) (ts : List Ele) → In z (lower_bound (probe id) ts).0 → z.id ≢ id
unfolding lower_bound
before-ne id z [] m = absurd m
before-ne id z (t ∷ ts) m = elim (Bool-cases (lt_id t (probe id))) [
  | inl h ↦
      let n : (z ≡ t) ⊎ In z (lower_bound (probe id) ts).0 = rw h at m in
      elim n [
        | inl e ↦ λ f. smaller_id id t h (ap (λ (w : Ele). w.id) (sym e) ∙ f)
        | inr old ↦ before-ne id z ts old
      ]
  | inr h ↦ absurd (rw h at m)
]

-- From the bound on no element is smaller than the probe.
abbrev FromBound : ℤ → List Ele → Type 0
FromBound id = All (λ y. lt_id y (probe id) ≡ false)

not_lt : (p y z : Ele) → lt_id y p ≡ false → lt_id y z ≡ true → lt_id z p ≡ false
not_lt p y z h k = elim (Bool-cases (lt_id z p)) [
  | inl e ↦ absurd (cc (id_order.trans (id_key y) (id_key z) (id_key p) k e, h))
  | inr e ↦ e
]

from_bound :
    (id : ℤ) (ts : List Ele)
    → Sorted id_order id_key ts
    → FromBound id (lower_bound (probe id) ts).1
unfolding lower_bound
from_bound id [] s = tt
from_bound id (t ∷ ts) s = elim (Bool-cases (lt_id t (probe id))) [
  | inl h ↦ rw h (from_bound id ts s.1)
  | inr h ↦ rw h (
    h,
    In-All (λ y. lt_id y (probe id) ≡ false) ts
        (λ y m. not_lt (probe id) t y h (All-In (λ w. lt_id t w ≡ true) ts s.0 y m)),
  )
]

ne_of_ltb : (a b : ℤ) → ltb_ℤ a b ≡ true → b ≢ a
ne_of_ltb a b h e = absurd (ground (arith, ap (λ (i : ℤ). ltb_ℤ a i) e))

-- An element that the loop stops at, and all behind it, have larger ids.
larger_id : (id : ℤ) (t z : Ele) → ltb_ℤ id t.id ≡ true → lt_id t z ≡ true → z.id ≢ id
larger_id id t z h k e = absurd (ground (arith, ap (λ (i : ℤ). ltb_ℤ id i) e))

module _ (id : ℤ) where
  loop_old : (z : Ele) (ts iter : List Ele) → In z (delid_loop id ts iter).timer → In z ts
  unfolding delid_loop
  loop_old z [] iter m = m
  loop_old z (t ∷ ts) iter m = ground (arith, loop_old z ts (iter_erase t iter))

  loop_kept :
      (z : Ele) (ts iter : List Ele) → In z ts → z.id ≢ id → In z (delid_loop id ts iter).timer
  unfolding delid_loop
  loop_kept z [] iter m d = m
  loop_kept z (t ∷ ts) iter m d = ground (arith, loop_kept z ts (iter_erase t iter), same)
    where
      same : ltb_ℤ t.id id ≡ false → ltb_ℤ id t.id ≡ false → t.id ≡ id
      same = ltb_ℤ-antisymm t.id id

  loop-ne :
      (z : Ele) (ts iter : List Ele)
      → Sorted id_order id_key ts
      → FromBound id ts
      → In z (delid_loop id ts iter).timer
      → z.id ≢ id
  unfolding delid_loop
  loop-ne z [] iter s b m = absurd m
  loop-ne z (t ∷ ts) iter s b m = elim (Bool-cases (ltb_ℤ t.id id)) [
    | inl h ↦ cc (rw h at (b.0))
    | inr h ↦ elim (Bool-cases (ltb_ℤ id t.id)) [
      | inl k ↦
          let n : (z ≡ t) ⊎ In z ts = rw (h, k) at m in
          elim n [
            | inl e ↦ λ f. ne_of_ltb id t.id k (ap (λ (w : Ele). w.id) (sym e) ∙ f)
            | inr old ↦ larger_id id t z k (All-In (λ w. lt_id t w ≡ true) ts s.0 z old)
          ]
      | inr k ↦ loop-ne z ts (iter_erase t iter) s.1 b.1 (rw (h, k) at m)
    ]
  ]

  -- Each round leaves a valid timer.
  loop-IsValid :
      (before ts iter : List Ele)
      → IsValid (record { timer = before ++ ts; iter = iter })
      → IsValid (record {
        timer = before ++ (delid_loop id ts iter).timer;
        iter = (delid_loop id ts iter).iter;
      })
  unfolding delid_loop
  loop-IsValid before [] iter v = v
  loop-IsValid before (t ∷ ts) iter v = elim (Bool-cases (ltb_ℤ t.id id)) [
    | inl h ↦ rw h v
    | inr h ↦ elim (Bool-cases (ltb_ℤ id t.id)) [
      | inl k ↦ rw (h, k) v
      | inr k ↦
          rw (h, k)
            (loop-IsValid before ts (iter_erase t iter) (
              rw (Set.erase_middle id_order id_key before t ts v.timer_sorted) at (
                erase_both-IsValid t (record { timer = before ++ t ∷ ts; iter = iter }) v
                  (In-append_right t before (t ∷ ts) (inl refl)))))
    ]
  ]

pub delid-IsValid : (id : ℤ) (t : Timer) → IsValid t → IsValid (delid id t)
unfolding delid
delid-IsValid id t v =
    loop-IsValid id (lower_bound (probe id) t.timer).0 (lower_bound (probe id) t.timer).1 t.iter
      (rw (lower_bound-append (probe id) t.timer) v)

-- `delid` removes the timers of its id, and keeps the others.
pub In-delid_iff :
    (id : ℤ) (t : Timer) (z : Ele)
    → IsValid t
    → In z (delid id t).timer ↔ (In z t.timer × (z.id ≢ id))
unfolding delid
In-delid_iff id t z v = (λ m. (old m, gone m), λ p. kept p.0 p.1)
  where
    front : List Ele
    front = (lower_bound (probe id) t.timer).0

    back : List Ele
    back = (lower_bound (probe id) t.timer).1

    whole : front ++ back ≡ t.timer
    whole = lower_bound-append (probe id) t.timer

    rest : List Ele
    rest = (delid_loop id back t.iter).timer

    old : In z (front ++ rest) → In z t.timer
    old m = rw whole at (elim (In-of-append z front rest m) as (λ _. In z (front ++ back)) [
      | inl n ↦ In-append_left z front back n
      | inr n ↦ In-append_right z front back (loop_old id z back t.iter n)
    ])

    gone : In z (front ++ rest) → z.id ≢ id
    gone m = elim (In-of-append z front rest m) [
      | inl n ↦ before-ne id z t.timer n
      | inr n ↦
          loop-ne id z back t.iter
            (Set.Sorted-of-append_right id_order id_key front back (rw whole v.timer_sorted))
            (from_bound id t.timer v.timer_sorted) n
    ]

    kept : In z t.timer → z.id ≢ id → In z (front ++ rest)
    kept m d = elim (In-of-append z front back (rw whole m)) [
      | inl n ↦ In-append_left z front rest n
      | inr n ↦ In-append_right z front rest (loop_kept id z back t.iter n d)
    ]
