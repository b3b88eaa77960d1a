-- ===== src/Stimer.antt =====
-- battle/cc/stimer.cc: the ends of buffs, expired in the order of their times.
pub mod Sorted
pub mod Tests
use luatest.Prelude.{List, [], ◌∷◌, Option, none, some, Bool, true, false, if◌then◌else◌}
use luatest.Prelude.Int.{ℤ, ltb_ℤ, leb_ℤ}

pub record Ele : Type 0 where
  pub id : ℤ
  pub buffid : ℤ
  pub endtm : ℤ

-- `Stimer::timer_`, a std::multiset by the end time: a new element goes behind those of its time.
unfoldable pub add : Ele → List Ele → List Ele
add e [] = e ∷ []
add e (t ∷ ts) = let rest = add e ts in if ltb_ℤ e.endtm t.endtm then e ∷ t ∷ ts else t ∷ rest

-- The loop of `expire`: the elements it passes on, and what stays.
unfoldable pub expire_loop : ℤ → List Ele → List Ele × List Ele
expire_loop nowtm [] = ([], [])
expire_loop nowtm (v ∷ vs) =
    let (due, rest) = expire_loop nowtm vs in
    if leb_ℤ v.endtm nowtm then (v ∷ due, rest) else ([], v ∷ vs)

-- `ret`: the id and the buff's id of each.
unfoldable pub numbers : List Ele → List ℤ
numbers [] = []
numbers (v ∷ vs) = v.id ∷ v.buffid ∷ numbers vs

unfoldable pub unless_empty : List ℤ → Option (List ℤ)
unless_empty [] = none
unless_empty (x ∷ xs) = some (x ∷ xs)

-- The Lua function `expire`: no result where nothing is due.
unfoldable pub expire : ℤ → List Ele → Option (List ℤ) × List Ele
unfolding expire_loop numbers unless_empty
expire nowtm timer = let (due, rest) = expire_loop nowtm timer in (unless_empty (numbers due), rest)

unfoldable pub clear : List Ele → List Ele
clear timer = []

-- The Lua functions that change the timer.
pub data Call : Type 0 where
  adds : Ele → Call
  expires : ℤ → Call
  clears : Call

unfoldable pub step : Call → List Ele → List Ele
unfolding add expire clear
step (adds e) timer = add e timer
step (expires nowtm) timer = (expire nowtm timer).1
step clears timer = clear timer

unfoldable pub run : List Call → List Ele → List Ele
unfolding step
run [] timer = timer
run (c ∷ cs) timer = run cs (step c timer)
