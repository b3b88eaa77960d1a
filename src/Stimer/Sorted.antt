-- ===== src/Stimer/Sorted.antt =====
-- The elements stand in the order of their times, and those of one time in the order of their calls.
use mathlib.Core.Path.{subst}
use mathlib.Core.List.{append-nil}
use luatest.Prelude.{
  sym, ◌≡◌, ap, refl, List, [], ◌∷◌, ◌++◌, Bool, true, false, not, All, arith, if◌then◌else◌,
  if_both, if_cases, Bool-cases, inl, inr, ◌&&◌,
}
use luatest.Prelude.Int.{ℤ, ltb_ℤ, leb_ℤ}
use luatest.Stimer.{
  Ele, Call, adds, expires, clears, add, expire_loop, numbers, unless_empty, expire, clear, step,
  run,
}

abbrev pub NotBefore : Ele → Ele → Type 0
NotBefore a b = ltb_ℤ b.endtm a.endtm ≡ false

abbrev pub IsSorted : List Ele → Type 0
IsSorted [] = Unit
IsSorted (e ∷ es) = All (NotBefore e) es × IsSorted es

unfoldable pub filter : (Ele → Bool) → List Ele → List Ele
filter p [] = []
filter p (e ∷ es) = let rest = filter p es in if p e then e ∷ rest else rest

add-All :
    (a e : Ele) (ts : List Ele)
    → NotBefore a e
    → All (NotBefore a) ts
    → All (NotBefore a) (add e ts)
unfolding add
add-All a e [] h k = (h, tt)
add-All a e (t ∷ ts) h k =
    if_both (All (NotBefore a)) (ltb_ℤ e.endtm t.endtm) (h, k) (k.0, add-All a e ts h k.1)

later_All :
    (e t : Ele) (ts : List Ele)
    → ltb_ℤ e.endtm t.endtm ≡ true
    → All (NotBefore t) ts
    → All (NotBefore e) ts
later_All e t [] h k = tt
later_All e t (u ∷ us) h k = (ground (arith, k.0), later_All e t us h k.1)

add-IsSorted : (e : Ele) (ts : List Ele) → IsSorted ts → IsSorted (add e ts)
unfolding add
add-IsSorted e [] s = (tt, tt)
add-IsSorted e (t ∷ ts) s =
    if_cases IsSorted (ltb_ℤ e.endtm t.endtm) _ _ (λ h. ((ground arith, later_All e t ts h s.0), s))
      (λ h. (add-All t e ts h s.0, add-IsSorted e ts s.1))

-- The elements of one end time.
abbrev pub at_time : ℤ → Ele → Bool
at_time tm e = not (ltb_ℤ e.endtm tm) && not (ltb_ℤ tm e.endtm)

-- No element of a time before the first.
filter-before :
    (tm : ℤ) (t : Ele) (ts : List Ele)
    → ltb_ℤ tm t.endtm ≡ true
    → All (NotBefore t) ts
    → filter (at_time tm) ts ≡ []
unfolding filter
filter-before tm t [] h k = refl
filter-before tm t (u ∷ us) h k =
    let other : at_time tm u ≡ false = ground (arith, k.0) in rw other (filter-before tm t us h k.1)

filter-add :
    (tm : ℤ) (e : Ele) (ts : List Ele)
    → IsSorted ts
    → filter (at_time tm) (add e ts) ≡ filter (at_time tm) ts ++ filter (at_time tm) (e ∷ [])
unfolding add filter
filter-add tm e [] s = refl
filter-add tm e (t ∷ ts) s = elim (Bool-cases (ltb_ℤ e.endtm t.endtm)) [
  | inl before ↦ elim (Bool-cases (at_time tm e)) [
    | inl at ↦
        let none_there : filter (at_time tm) (t ∷ ts) ≡ [] = front before at in
        rw (before, at, none_there) refl
    | inr other ↦ rw (before, other) (sym (append-nil (filter (at_time tm) (t ∷ ts))))
  ]
  | inr behind ↦ elim (Bool-cases (at_time tm t)) [
    | inl at ↦ rw (behind, at) (ap (◌∷◌ t) (filter-add tm e ts s.1))
    | inr other ↦ rw (behind, other) (filter-add tm e ts s.1)
  ]
]
  where
    front : ltb_ℤ e.endtm t.endtm ≡ true → at_time tm e ≡ true → filter (at_time tm) (t ∷ ts) ≡ []
    front before at =
        let later : ltb_ℤ tm t.endtm ≡ true = ground arith in
        let other : at_time tm t ≡ false = ground arith in
        rw other (filter-before tm t ts later s.0)

-- On a sorted timer `add` leaves a sorted timer with the new element behind those of its time, and
-- with the elements of every other time as they were.
pub add_stable :
    (e : Ele) (ts : List Ele)
    → IsSorted ts
    → IsSorted (add e ts)
      × ((tm : ℤ)
          → filter (at_time tm) (add e ts) ≡ filter (at_time tm) ts ++ filter (at_time tm) (e ∷ []))
add_stable e ts s = (add-IsSorted e ts s, λ tm. filter-add tm e ts s)

abbrev pub is_due : ℤ → Ele → Bool
is_due nowtm e = leb_ℤ e.endtm nowtm

abbrev pub is_later : ℤ → Ele → Bool
is_later nowtm e = not (leb_ℤ e.endtm nowtm)

-- Behind an element that is not due nothing is.
later_none :
    (nowtm : ℤ) (t : Ele) (ts : List Ele)
    → leb_ℤ t.endtm nowtm ≡ false
    → All (NotBefore t) ts
    → (filter (is_due nowtm) ts ≡ []) × (filter (is_later nowtm) ts ≡ ts)
unfolding filter
later_none nowtm t [] h k = (refl, refl)
later_none nowtm t (u ∷ us) h k =
    let later : leb_ℤ u.endtm nowtm ≡ false = ground (arith, k.0) in
    let (none_due, all_later) = later_none nowtm t us h k.1 in
    (rw later none_due, rw later (ap (◌∷◌ u) all_later))

expire_loop-filter :
    (nowtm : ℤ) (ts : List Ele)
    → IsSorted ts
    → expire_loop nowtm ts ≡ (filter (is_due nowtm) ts, filter (is_later nowtm) ts)
unfolding expire_loop filter
expire_loop-filter nowtm [] s = refl
expire_loop-filter nowtm (t ∷ ts) s = elim (Bool-cases (leb_ℤ t.endtm nowtm)) [
  | inl due ↦ rw (due, expire_loop-filter nowtm ts s.1) refl
  | inr later ↦
      let (none_due, all_later) = later_none nowtm t ts later s.0 in
      rw (later, none_due, all_later) refl
]

-- On a sorted timer `expire` returns the numbers of the elements that end by then, in their order, or
-- no result where there are none, and keeps the others, in their order.
pub expire-filter :
    (nowtm : ℤ) (ts : List Ele)
    → IsSorted ts
    → ((expire nowtm ts).0 ≡ unless_empty (numbers (filter (is_due nowtm) ts)))
      × ((expire nowtm ts).1 ≡ filter (is_later nowtm) ts)
unfolding expire
expire-filter nowtm ts s = rw (expire_loop-filter nowtm ts s) (refl, refl)

filter-All : (P : Ele → Type 0) (p : Ele → Bool) (ts : List Ele) → All P ts → All P (filter p ts)
unfolding filter
filter-All P p [] h = tt
filter-All P p (t ∷ ts) h =
    if_both (All P) (p t) (h.0, filter-All P p ts h.1) (filter-All P p ts h.1)

filter-IsSorted : (p : Ele → Bool) (ts : List Ele) → IsSorted ts → IsSorted (filter p ts)
unfolding filter
filter-IsSorted p [] s = tt
filter-IsSorted p (t ∷ ts) s =
    if_both IsSorted (p t) (filter-All (NotBefore t) p ts s.0, filter-IsSorted p ts s.1)
      (filter-IsSorted p ts s.1)

step-IsSorted : (c : Call) (ts : List Ele) → IsSorted ts → IsSorted (step c ts)
unfolding step clear
step-IsSorted (adds e) ts s = add-IsSorted e ts s
step-IsSorted (expires nowtm) ts s =
    subst IsSorted (sym (expire-filter nowtm ts s).1) (filter-IsSorted (is_later nowtm) ts s)
step-IsSorted clears ts s = tt

-- Whatever calls are made on a sorted timer, it stays sorted.
pub run-IsSorted : (cs : List Call) (ts : List Ele) → IsSorted ts → IsSorted (run cs ts)
unfolding run
run-IsSorted [] ts s = s
run-IsSorted (c ∷ cs) ts s = run-IsSorted cs (step c ts) (step-IsSorted c ts s)
