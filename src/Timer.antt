-- ===== src/Timer.antt =====
-- timer/cc/ltimer.cc: timers by id and text, expired in the order of their times.
pub mod Valid
pub mod Calls
pub mod Expire
pub mod Punctual
pub mod Tests
use luatest.Prelude.{
  ℕ, List, [], ◌∷◌, ◌++◌, map, Option, none, some, Bool, true, false, if◌then◌else◌,
}
use luatest.Prelude.Int.{ℤ, pos, ltb_ℤ, leb_ℤ}
use luatest.Std.Order.{LinearOrder, int_order, string_order, fields_order}
use luatest.Std.Set

pub record Ele : Type 0 where
  pub id : ℤ
  pub tm : ℤ
  pub info : List ℕ

-- `Ele::operator<` compares the id and then the text; `Itercmp` compares the time first.
abbrev pub id_key : Ele → ℤ × List ℕ
id_key e = (e.id, e.info)

abbrev pub tm_key : Ele → ℤ × (ℤ × List ℕ)
tm_key e = (e.tm, (e.id, e.info))

abbrev pub id_order : LinearOrder (ℤ × List ℕ)
id_order = fields_order int_order string_order

abbrev pub tm_order : LinearOrder (ℤ × (ℤ × List ℕ))
tm_order = fields_order int_order id_order

-- `iter` holds iterators into `timer`, which are its elements.
pub record Timer : Type 0 where
  pub timer : List Ele
  pub iter : List Ele

abbrev pub timer_find : Ele → List Ele → Option Ele
timer_find = Set.find id_order id_key

abbrev pub timer_erase : Ele → List Ele → List Ele
timer_erase = Set.erase id_order id_key

abbrev pub iter_erase : Ele → List Ele → List Ele
iter_erase = Set.erase tm_order tm_key

abbrev pub empty : Timer
empty = record { timer = []; iter = [] }

erase_found : Timer → Option Ele → Timer
erase_found t none = t
erase_found t (some it) = record { timer = timer_erase it t.timer; iter = iter_erase it t.iter }

unfoldable pub del : Ele → Timer → Timer
unfolding erase_found
del ele t = erase_found t (timer_find ele t.timer)

-- `timer_.insert(ele)` inserts, and `ok` is true, where no element has the key.
insert_new : Ele → Timer → Option Ele → Timer
insert_new ele t none = record {
  timer = Set.insert id_order id_key ele t.timer;
  iter = Set.insert tm_order tm_key ele t.iter;
}
insert_new ele t (some it) = t

unfoldable pub add : Ele → Timer → Timer
unfolding insert_new del
add ele t = let t' = del ele t in insert_new ele t' (timer_find ele t'.timer)

-- The elements before `lower_bound(ele)`, and those from there on.
unfoldable pub lower_bound : Ele → List Ele → List Ele × List Ele
lower_bound ele [] = ([], [])
lower_bound ele (t ∷ ts) =
    let (before, from) = lower_bound ele ts in
    if Set.lt id_order id_key t ele then (t ∷ before, from) else ([], t ∷ ts)

-- The loop of `delid` from the bound on: what stays of both sets.
unfoldable pub delid_loop : ℤ → List Ele → List Ele → Timer
delid_loop id [] iter = record { timer = []; iter = iter }
delid_loop id (t ∷ ts) iter =
    let rest = delid_loop id ts (iter_erase t iter) in
    if ltb_ℤ t.id id
    then record { timer = t ∷ ts; iter = iter }
    else if ltb_ℤ id t.id
    then record { timer = t ∷ ts; iter = iter }
    else rest

unfoldable pub delid : ℤ → Timer → Timer
unfolding lower_bound delid_loop
delid id t =
    let (before, from) = lower_bound (record { id = id; tm = pos 0; info = [] }) t.timer in
    let rest = delid_loop id from t.iter in
    record { timer = before ++ rest.timer; iter = rest.iter }

-- The loop of `expire` over `iter_`: the elements it passes on, and what stays of both sets.
unfoldable pub expire_loop : ℤ → List Ele → List Ele → List Ele × Timer
expire_loop tm [] timer = ([], record { timer = timer; iter = [] })
expire_loop tm (e ∷ es) timer =
    let (due, rest) = expire_loop tm es (timer_erase e timer) in
    if leb_ℤ e.tm tm then (e ∷ due, rest) else ([], record { timer = timer; iter = e ∷ es })

-- The Lua function `expire`: the ids and texts of what is due.
unfoldable pub expire : ℤ → Timer → List (ℤ × List ℕ) × Timer
unfolding expire_loop
expire tm t = let (due, rest) = expire_loop tm t.iter t.timer in (map id_key due, rest)
