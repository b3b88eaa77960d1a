-- ===== src/Timer/Expire.antt =====
-- `expire`: what is due goes, in the order of the times, and the rest stays. Runs of calls.
use luatest.Prelude.{
  ◌≡◌, ◌↔◌, List, [], ◌∷◌, ◌++◌, ap, refl, inl, inr, true, false, arith, All, map, Bool-cases,
}
use luatest.Prelude.Int.{ℤ, leb_ℤ}
use luatest.Std.Set
use luatest.Std.Set.{In, All-In, In-All, In-append_right, In-of-append}
use luatest.Timer.{
  Ele, Timer, id_key, tm_key, tm_order, timer_erase, expire_loop, expire, add, del, delid,
}
use luatest.Timer.Valid.{IsValid, erase_both-IsValid, add-IsValid, del-IsValid}
use luatest.Timer.Calls.{delid-IsValid}

abbrev pub IsDue : ℤ → Ele → Type 0
IsDue now e = leb_ℤ e.tm now ≡ true

abbrev pub IsLater : ℤ → Ele → Type 0
IsLater now e = leb_ℤ e.tm now ≡ false

module _ (now : ℤ) where
  loop-IsValid :
      (iter timer : List Ele)
      → IsValid (record { timer = timer; iter = iter })
      → IsValid (expire_loop now iter timer).1
  unfolding expire_loop
  loop-IsValid [] timer v = v
  loop-IsValid (e ∷ es) timer v = elim (Bool-cases (leb_ℤ e.tm now)) [
    | inl h ↦ rw h (
        loop-IsValid es (timer_erase e timer) (
          rw (Set.erase_head tm_order tm_key e es) at (
            erase_both-IsValid e (record { timer = timer; iter = e ∷ es }) v
              (v.to_timer e (inl refl)))))
    | inr h ↦ rw h v
  ]

  loop-append :
      (iter timer : List Ele)
      → (expire_loop now iter timer).0 ++ (expire_loop now iter timer).1.iter ≡ iter
  unfolding expire_loop
  loop-append [] timer = refl
  loop-append (e ∷ es) timer = elim (Bool-cases (leb_ℤ e.tm now)) [
    | inl h ↦ rw h (ap (◌∷◌ e) (loop-append es (timer_erase e timer)))
    | inr h ↦ rw h
  ]

  loop-IsDue : (iter timer : List Ele) → All (IsDue now) (expire_loop now iter timer).0
  unfolding expire_loop
  loop-IsDue [] timer = tt
  loop-IsDue (e ∷ es) timer = elim (Bool-cases (leb_ℤ e.tm now)) [
    | inl h ↦ rw h (h, loop-IsDue es (timer_erase e timer))
    | inr h ↦ rw h tt
  ]

  later : (e z : Ele) → IsLater now e → Set.lt tm_order tm_key e z ≡ true → IsLater now z
  later e z h k = ground arith

  loop-IsLater :
      (iter timer : List Ele)
      → Set.Sorted tm_order tm_key iter
      → All (IsLater now) (expire_loop now iter timer).1.iter
  unfolding expire_loop
  loop-IsLater [] timer s = tt
  loop-IsLater (e ∷ es) timer s = elim (Bool-cases (leb_ℤ e.tm now)) [
    | inl h ↦ rw h (loop-IsLater es (timer_erase e timer) s.1)
    | inr h ↦ rw h (
      h,
      In-All (IsLater now) es
          (λ z m. later e z h (All-In (λ w. Set.lt tm_order tm_key e w ≡ true) es s.0 z m)),
    )
  ]

  -- `expire` on a valid timer leaves a valid timer. It returns the ids and texts of a first part
  -- of the elements in the order of their times: this part is due, and all that stays is not.
  pub expire_lem :
      (t : Timer)
      → IsValid t
      → IsValid (expire now t).1
        × ((due : List Ele) × ((expire now t).0 ≡ map id_key due)
            × (due ++ (expire now t).1.iter ≡ t.iter)
            × All (IsDue now) due
            × All (IsLater now) (expire now t).1.iter)
  unfolding expire
  expire_lem t v = (
    loop-IsValid t.iter t.timer v,
    (
      (expire_loop now t.iter t.timer).0,
      refl,
      loop-append t.iter t.timer,
      loop-IsDue t.iter t.timer,
      loop-IsLater t.iter t.timer v.iter_sorted,
    ),
  )

  -- After `expire` a timer is there exactly if it was there and is not due.
  pub In-expire_iff :
      (t : Timer) (z : Ele)
      → IsValid t
      → In z (expire now t).1.timer ↔ (In z t.timer × IsLater now z)
  In-expire_iff t z v = (λ m. (kept m, stays (valid.to_iter z m)), λ p. left p.0 p.1)
    where
      valid : IsValid (expire now t).1
      valid = (expire_lem t v).0

      due : List Ele
      due = (expire_lem t v).1.0

      whole : due ++ (expire now t).1.iter ≡ t.iter
      whole = (expire_lem t v).1.2

      stays : In z (expire now t).1.iter → IsLater now z
      stays m = All-In (IsLater now) (expire now t).1.iter (expire_lem t v).1.4 z m

      kept : In z (expire now t).1.timer → In z t.timer
      kept m =
          v.to_timer z
            (rw whole at (In-append_right z due (expire now t).1.iter (valid.to_iter z m)))

      left : In z t.timer → IsLater now z → In z (expire now t).1.timer
      left m h = elim (In-of-append z due (expire now t).1.iter (rw whole (v.to_iter z m))) [
        | inl n ↦ cc (All-In (IsDue now) due (expire_lem t v).1.3 z n, h)
        | inr n ↦ valid.to_timer z n
      ]

-- The calls that the Lua object takes.
pub data Call : Type 0 where
  adds : Ele → Call
  deletes : Ele → Call
  deletes_id : ℤ → Call
  expires : ℤ → Call

unfoldable pub step : Call → Timer → Timer
step (adds e) t = add e t
step (deletes e) t = del e t
step (deletes_id id) t = delid id t
step (expires now) t = (expire now t).1

unfoldable pub run : List Call → Timer → Timer
unfolding step
run [] t = t
run (c ∷ cs) t = run cs (step c t)

pub step-IsValid : (c : Call) (t : Timer) → IsValid t → IsValid (step c t)
unfolding step
step-IsValid (adds e) t v = add-IsValid e t v
step-IsValid (deletes e) t v = del-IsValid e t v
step-IsValid (deletes_id id) t v = delid-IsValid id t v
step-IsValid (expires now) t v = (expire_lem now t v).0

-- Whatever calls are made on a valid timer, both of its sets stay sorted and hold the same elements.
pub run-IsValid : (cs : List Call) (t : Timer) → IsValid t → IsValid (run cs t)
unfolding run
run-IsValid [] t v = v
run-IsValid (c ∷ cs) t v = run-IsValid cs (step c t) (step-IsValid c t v)
