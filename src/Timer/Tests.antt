-- ===== src/Timer/Tests.antt =====
-- The timer on concrete calls, and its theorems there.
use luatest.Prelude.{◌≡◌, ◌≢◌, ◌↔◌, refl, ap, arith, ℕ, List, [], ◌∷◌, ◌++◌, map, All}
use luatest.Prelude.Int.{ℤ, pos}
use luatest.Std.Order.{lt_string}
use luatest.Std.Set.{In, find, insert, erase}
use luatest.Timer.{Ele, Timer, id_key, empty, add, del, delid, expire}
use luatest.Timer.Valid.{IsValid}
use luatest.Timer.Punctual.{Spares, expire-run-add}
use luatest.Timer.Expire.{
  Call, adds, expires, deletes_id, run, run-IsValid, expire_lem, In-expire_iff, IsDue, IsLater,
}

program : Unit {0}
unfolding find insert erase lt_string add del delid expire run
program = tt

-- Two timers of the id 1, due at 30 and at 10, and one of the id 2, due at 20.
abbrev first : Ele
first = record { id = pos 1; tm = pos 30; info = b'a' ∷ [] }

abbrev second : Ele
second = record { id = pos 1; tm = pos 10; info = b'b' ∷ [] }

abbrev third : Ele
third = record { id = pos 2; tm = pos 20; info = b'a' ∷ [] }

abbrev calls : List Call
calls = adds first ∷ adds second ∷ adds third ∷ []

abbrev three : Timer
three = record { timer = first ∷ second ∷ third ∷ []; iter = second ∷ third ∷ first ∷ [] }

run-three : run calls empty ≡ three
unfolding program
run-three = refl

expire-three : (expire (pos 20) three).0 ≡ (pos 1, b'b' ∷ []) ∷ (pos 2, b'a' ∷ []) ∷ []
unfolding program
expire-three = refl

empty-IsValid : IsValid empty
empty-IsValid = record {
  timer_sorted = tt;
  iter_sorted = tt;
  to_iter = λ z m. m;
  to_timer = λ z m. m;
}

run-IsValid_example : IsValid (run calls empty)
run-IsValid_example = run-IsValid calls empty empty-IsValid

three-IsValid : IsValid three
three-IsValid = rw run-three at run-IsValid_example

expire_lem_example :
    IsValid (expire (pos 20) three).1
    × ((due : List Ele) × ((expire (pos 20) three).0 ≡ map id_key due)
        × (due ++ (expire (pos 20) three).1.iter ≡ three.iter)
        × All (IsDue (pos 20)) due
        × All (IsLater (pos 20)) (expire (pos 20) three).1.iter)
expire_lem_example = expire_lem (pos 20) three three-IsValid

In-expire_iff_example :
    In first (expire (pos 20) three).1.timer ↔ (In first three.timer × IsLater (pos 20) first)
In-expire_iff_example = In-expire_iff (pos 20) three first three-IsValid

abbrev head_or : ℕ → List ℕ → ℕ
head_or d [] = d
head_or d (b ∷ bs) = b

-- While the first timer waits, the second is added and handed out, and all of the id 2 are deleted.
abbrev meanwhile : List Call
meanwhile = adds second ∷ expires (pos 10) ∷ deletes_id (pos 2) ∷ []

other_text : id_key first ≢ id_key second
other_text e = absurd (omega (arith, ap (λ (k : ℤ × List ℕ). head_or 0 k.1) e))

meanwhile-Spares : All (Spares first) meanwhile
meanwhile-Spares = (other_text, (refl, (λ e. absurd (cc e), tt)))

expire-run-add_example :
    In (id_key first) (expire (pos 30) (run meanwhile (add first empty))).0
    × ¬ In first (expire (pos 30) (run meanwhile (add first empty))).1.timer
expire-run-add_example =
    expire-run-add first meanwhile (pos 30) empty empty-IsValid meanwhile-Spares refl
