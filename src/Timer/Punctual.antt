-- ===== src/Timer/Punctual.antt =====
-- A timer that is added is handed out in the end.
use luatest.Prelude.{◌≢◌, ap, refl, inl, inr, List, [], ◌∷◌, map, All}
use luatest.Prelude.Int.{ℤ}
use luatest.Std.Set.{In, In-of-append}
use luatest.Timer.{Ele, Timer, id_key, add, expire}
use luatest.Timer.Valid.{IsValid, add-IsValid, In-add_iff, In-del_iff}
use luatest.Timer.Calls.{In-delid_iff}
use luatest.Timer.Expire.{
  Call, adds, deletes, deletes_id, expires, step, run, IsDue, IsLater, step-IsValid, run-IsValid,
  expire_lem, In-expire_iff,
}

-- A call that neither replaces nor deletes a timer, and comes too early to hand it out.
abbrev pub Spares : Ele → Call → Type 0
Spares e (adds x) = id_key e ≢ id_key x
Spares e (deletes x) = id_key e ≢ id_key x
Spares e (deletes_id id) = e.id ≢ id
Spares e (expires now) = IsLater now e

In-map : {A B : Type 0} (f : A → B) (x : A) (xs : List A) → In x xs → In (f x) (map f xs)
In-map f x [] m = absurd m
In-map f x (y ∷ ys) (inl e) = inl (ap f e)
In-map f x (y ∷ ys) (inr m) = inr (In-map f x ys m)

step_kept :
    (e : Ele) (c : Call) (t : Timer) → IsValid t → Spares e c → In e t.timer → In e (step c t).timer
unfolding step
step_kept e (adds x) t v h m = (In-add_iff x e t v).1 (inr (m, h))
step_kept e (deletes x) t v h m = (In-del_iff x e t v).1 (m, h)
step_kept e (deletes_id id) t v h m = (In-delid_iff id t e v).1 (m, h)
step_kept e (expires now) t v h m = (In-expire_iff now t e v).1 (m, h)

run_kept :
    (e : Ele) (cs : List Call) (t : Timer)
    → IsValid t
    → All (Spares e) cs
    → In e t.timer
    → In e (run cs t).timer
unfolding run
run_kept e [] t v h m = m
run_kept e (c ∷ cs) t v (s, h) m =
    run_kept e cs (step c t) (step-IsValid c t v) h (step_kept e c t v s m)

-- What is there and due is handed out, and is gone.
expire-In :
    (now : ℤ) (e : Ele) (t : Timer)
    → IsValid t
    → IsDue now e
    → In e t.timer
    → In (id_key e) (expire now t).0 × ¬ In e (expire now t).1.timer
expire-In now e t v h m =
    let (u, (due, out, whole, early, stays)) = expire_lem now t v in
    let gone : ¬ In e (expire now t).1.timer =
      λ n. absurd (cc (h, ((In-expire_iff now t e v).0 n).1)) in
    (
      elim (In-of-append e due (expire now t).1.iter (rw whole (v.to_iter e m))) [
        | inl n ↦ rw out (In-map id_key e due n)
        | inr n ↦ absurd (gone (u.to_timer e n))
      ],
      gone,
    )

-- Let a timer be added to a valid object. After calls that neither replace nor delete it, and that
-- expire only before its time, `expire` at its time or later hands it out, and it is gone then.
pub expire-run-add :
    (e : Ele) (cs : List Call) (now : ℤ) (t : Timer)
    → IsValid t
    → All (Spares e) cs
    → IsDue now e
    → In (id_key e) (expire now (run cs (add e t))).0
      × ¬ In e (expire now (run cs (add e t))).1.timer
expire-run-add e cs now t v h k =
    let w = add-IsValid e t v in
    expire-In now e (run cs (add e t)) (run-IsValid cs (add e t) w) k
      (run_kept e cs (add e t) w h ((In-add_iff e e t v).1 (inl refl)))
