-- ===== src/Stimer/Tests.antt =====
-- The battle timer on concrete calls, and its theorems there.
use luatest.Prelude.{◌≡◌, refl, List, [], ◌∷◌, ◌++◌, some, none}
use luatest.Prelude.Int.{ℤ, pos}
use luatest.Stimer.{
  Ele, Call, adds, add, expire_loop, numbers, unless_empty, expire, clear, step, run,
}
use luatest.Stimer.Sorted.{
  IsSorted, filter, at_time, is_due, is_later, add_stable, expire-filter, run-IsSorted,
}

program : Unit {0}
unfolding add expire_loop numbers expire clear step run filter
program = tt

abbrev first : Ele
first = record { id = pos 1; buffid = pos 7; endtm = pos 20 }

abbrev second : Ele
second = record { id = pos 2; buffid = pos 8; endtm = pos 10 }

abbrev third : Ele
third = record { id = pos 3; buffid = pos 9; endtm = pos 20 }

abbrev calls : List Call
calls = adds first ∷ adds second ∷ adds third ∷ []

abbrev three : List Ele
three = second ∷ first ∷ third ∷ []

run-three : run calls [] ≡ three
unfolding program
run-three = refl

expire-second : expire (pos 10) three ≡ (some (pos 2 ∷ pos 8 ∷ []), first ∷ third ∷ [])
unfolding program
expire-second = refl

expire-none : expire (pos 9) three ≡ (none, three)
unfolding program
expire-none = refl

three-IsSorted : IsSorted three
three-IsSorted = rw run-three at (run-IsSorted calls [] tt)

add_stable_example :
    IsSorted (add first three)
    × ((tm : ℤ)
        → filter (at_time tm) (add first three)
          ≡ filter (at_time tm) three ++ filter (at_time tm) (first ∷ []))
add_stable_example = add_stable first three three-IsSorted

expire-filter_example :
    ((expire (pos 10) three).0 ≡ unless_empty (numbers (filter (is_due (pos 10)) three)))
    × ((expire (pos 10) three).1 ≡ filter (is_later (pos 10)) three)
expire-filter_example = expire-filter (pos 10) three three-IsSorted
