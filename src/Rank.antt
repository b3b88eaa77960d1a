-- ===== src/Rank.antt =====
-- rank/cc/lrank.cc: a ranking of bounded size, by score, time and id.
pub mod Valid
pub mod Create
pub mod Evict
pub mod Add
pub mod Orders
pub mod Append
pub mod Serial
pub mod Tests
use luatest.Prelude.{
  ℕ, zero, suc, ◌+◌, ltb, List, [], ◌∷◌, ◌++◌, Option, none, some, Bool, true, false, if◌then◌else◌,
  length, leb,
}
use luatest.Prelude.Int.{ℤ, pos, negsuc, leb_ℤ}
use luatest.Std.Order.{LinearOrder, int_order, string_order, fields_order, opposite}
use luatest.Std.Set
use luatest.Std.Map
use luatest.Std.Map.{Map}

pub record Rankele : Type 0 where
  pub id : List ℕ
  pub score : ℤ
  pub tm : ℤ

-- `Rankele::operator<`: a higher score first, then an earlier time, then the id.
abbrev pub rank_key : Rankele → ℤ × (ℤ × List ℕ)
rank_key e = (e.score, (e.tm, e.id))

abbrev pub rank_order : LinearOrder (ℤ × (ℤ × List ℕ))
rank_order = fields_order (opposite int_order) (fields_order int_order string_order)

-- `id_it` holds iterators into `ranks`, which are its elements.
pub record Rank : Type 0 where
  pub ranks : List Rankele
  pub id_it : Map (List ℕ) Rankele
  pub max : ℕ

abbrev pub rank_erase : Rankele → List Rankele → List Rankele
rank_erase = Set.erase rank_order rank_key

-- `lrank.create` of the `int` it is given.
unfoldable pub create : ℤ → Option Rank
create num =
    if leb_ℤ num (pos 0)
    then none
    else some (record { ranks = []; id_it = Map.no_keys; max = size num })
  where
    size : ℤ → ℕ
    size (pos n) = n
    size (negsuc n) = 0

-- `ranks_.erase(it); id_it_.erase(it->id_);`
unfoldable pub remove : Rankele → Rank → Rank
remove it r = record r {
  ranks = rank_erase it r.ranks;
  id_it = Map.erase string_order it.id r.id_it;
}

-- `prev(ranks_.end())`
unfoldable pub last : List Rankele → Option Rankele
last [] = none
last (e ∷ []) = some e
last (e ∷ f ∷ es) = last (f ∷ es)

pub evict_last : Rank → Option Rankele → Rank
unfolding remove
evict_last r none = r
evict_last r (some it) = remove it r

unfoldable pub evict : Rank → Rank
unfolding last evict_last
evict r = if leb (length r.ranks) r.max then r else evict_last r (last r.ranks)

-- The first statement of `add`, on what `id_it_.find(ele.id_)` finds.
pub erase_old : Rankele → Rank → Option Rankele → Rank
erase_old ele r none = r
erase_old ele r (some it) = record r {
  ranks = rank_erase it r.ranks;
  id_it = Map.erase string_order ele.id r.id_it;
}

-- `ranks_.insert(ele)` points to the element with the key of `ele`, the one that was there if any.
pub insert_at : Rankele → List Rankele → Option Rankele → Rankele
insert_at ele ranks none = ele
insert_at ele ranks (some it) = it

pub insert_new : Rankele → Rank → Rank
unfolding insert_at
insert_new ele r =
    let it = insert_at ele r.ranks (Set.find rank_order rank_key ele r.ranks) in
    record r {
      ranks = Set.insert rank_order rank_key ele r.ranks;
      id_it = Map.insert string_order ele.id it r.id_it;
    }

unfoldable pub add : Rankele → Rank → Rank
unfolding erase_old insert_new evict
add ele r = evict (insert_new ele (erase_old ele r (r.id_it ele.id)))

-- The number of the elements before a key.
unfoldable pub order_of_key : Rankele → List Rankele → ℕ
order_of_key e [] = 0
order_of_key e (f ∷ fs) =
    let rest = order_of_key e fs in if Set.lt rank_order rank_key f e then suc rest else rest

order_at : List Rankele → Option Rankele → ℤ
unfolding order_of_key
order_at ranks none = negsuc 0
order_at ranks (some it) = pos (order_of_key it ranks + 1)

-- `Rank::get_order`
unfoldable pub get_order : List ℕ → Rank → ℤ
unfolding order_at
get_order id r = order_at r.ranks (r.id_it id)

-- `Lrank::get_order`: no result for an order that is not positive.
unfoldable pub lua_get_order : List ℕ → Rank → Option ℤ
unfolding get_order
lua_get_order id r = let order = get_order id r in if leb_ℤ order (pos 0) then none else some order

-- `find_by_order` of an `int` converted to size_t: a position, with the number of elements as `end()`.
unfoldable pub position : ℤ → ℕ → ℕ
position (pos n) size = if ltb n size then n else size
position (negsuc n) size = size

-- `if (ub > ranks.size()) ub = ranks.size();` compares as size_t.
unfoldable pub clamp : ℤ → ℕ → ℤ
clamp (pos n) size = if ltb size n then pos size else pos n
clamp (negsuc n) size = pos size

pub passed : Rankele → Option (List Rankele) → Option (List Rankele)
passed e none = none
passed e (some es) = some (e ∷ es)

-- The elements from a position up to another. From a later position the loop runs past `end()`.
unfoldable pub between : ℕ → ℕ → List Rankele → Option (List Rankele)
unfolding passed
between zero zero es = some []
between zero (suc q) [] = none
between zero (suc q) (e ∷ es) = passed e (between zero q es)
between (suc p) zero es = none
between (suc p) (suc q) [] = none
between (suc p) (suc q) (e ∷ es) = between p q es

pub pred : ℤ → ℤ
pred (pos zero) = negsuc 0
pred (pos (suc n)) = pos n
pred (negsuc n) = negsuc (suc n)

-- `Lrank::info`: the elements whose id, score and time the table lists.
unfoldable pub info : ℤ → ℤ → Rank → Option (List Rankele)
unfolding position clamp between pred
info lb ub r =
    let size = length r.ranks in
    between (position (pred lb) size) (position (clamp ub size) size) r.ranks
