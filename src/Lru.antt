-- ===== src/Lru.antt =====
-- lru/cc/llru.cc: the ids used last, up to a number.
pub mod Valid
pub mod Create
pub mod Update
pub mod Refines
pub mod Tests
use luatest.Prelude.{
  ℕ, suc, ◌+◌, List, [], ◌∷◌, Option, none, some, Bool, true, false, if◌then◌else◌, length, leb,
  ◌==◌,
}
use luatest.Prelude.Int.{ℤ, pos, negsuc, leb_ℤ}
use luatest.Std.Order.{string_order}
use luatest.Std.Map
use luatest.Std.Map.{Map}

-- A node of `list<string>` has an address, which an iterator to it holds.
pub record Node : Type 0 where
  pub address : ℕ
  pub id : List ℕ

-- `next` is the address of the next node that is made; no two nodes get the same.
pub record Lru : Type 0 where
  pub ids : List Node
  pub it : Map (List ℕ) ℕ
  pub num : ℕ
  pub next : ℕ

-- `llru.create` of the `int` it is given: no object for a number that is not positive.
unfoldable pub create : ℤ → Option Lru
create num =
    if leb_ℤ num (pos 0)
    then none
    else some (record { ids = []; it = Map.no_keys; num = size num; next = 0 })
  where
    size : ℤ → ℕ
    size (pos n) = n
    size (negsuc n) = 0

-- `ids_.erase(it)`
unfoldable pub erase_node : ℕ → List Node → List Node
erase_node a [] = []
erase_node a (n ∷ ns) = let rest = erase_node a ns in if n.address == a then ns else n ∷ rest

pub del_found : List ℕ → Lru → Option ℕ → Lru
unfolding erase_node
del_found id s none = s
del_found id s (some a) = record s { ids = erase_node a s.ids; it = Map.erase string_order id s.it }

unfoldable pub del : List ℕ → Lru → Lru
unfolding del_found
del id s = del_found id s (s.it id)

-- `ids_.push_front(id); it_[id] = ids_.begin();`
unfoldable pub push_front : List ℕ → Lru → Lru
push_front id s = record s {
  ids = record { address = s.next; id = id } ∷ s.ids;
  it = Map.assign string_order id s.next s.it;
  next = suc s.next;
}

-- The last id, and the list without its node.
unfoldable pub pop_back : List Node → Option (List ℕ × List Node)
pop_back [] = none
pop_back (n ∷ []) = some (n.id, [])
pop_back (n ∷ m ∷ ns) = elim (pop_back (m ∷ ns)) [
  | none ↦ none
  | some (id, rest) ↦ some (id, n ∷ rest)
]

pub evict_back : Lru → Option (List ℕ × List Node) → List ℕ × Lru
evict_back s none = ([], s)
evict_back s (some (evi, rest)) =
    (evi, record s { ids = rest; it = Map.erase string_order evi s.it })

-- The evicted id with the new state; without an eviction the string stays empty.
unfoldable pub evict : Lru → List ℕ × Lru
unfolding pop_back evict_back
evict s = if leb (length s.ids) s.num then ([], s) else evict_back s (pop_back s.ids)

unfoldable pub update : List ℕ → Lru → List ℕ × Lru
unfolding del push_front evict
update id s = evict (push_front id (del id s))

-- `Llru::update`: no result where the evicted id is empty.
unfoldable pub lua_update : List ℕ → Lru → Option (List ℕ) × Lru
unfolding update
lua_update id s = let (evi, s') = update id s in (if length evi == 0 then none else some evi, s')
