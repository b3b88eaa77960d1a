-- ===== src/Lru/Tests.antt =====
-- The cache on concrete calls, and its theorems there.
use luatest.Prelude.{◌≡◌, refl, [], ◌∷◌, some, none, arith}
use luatest.Prelude.Int.{pos}
use luatest.Std.Order.{lt_string}
use luatest.Std.Map
use luatest.Lru.{Lru, create, erase_node, del, push_front, pop_back, evict, update, lua_update}
use luatest.Lru.Valid.{IsValid}
use luatest.Lru.Update.{view, remove, take, id_at}
use luatest.Lru.Refines.{update-refines, del-refines}

program : Unit {0}
unfolding Map.erase Map.assign lt_string create erase_node del push_front pop_back evict update
    lua_update remove take id_at
program = tt

abbrev fresh : Lru
fresh = record { ids = []; it = Map.no_keys; num = 2; next = 0 }

create-two : create (pos 2) ≡ some fresh
unfolding program
create-two = refl

create-none : create (pos 0) ≡ none
unfolding program
create-none = refl

abbrev two : Lru
two = (update (b'b' ∷ []) (update (b'a' ∷ []) fresh).1).1

two_ids : view two.ids ≡ (b'b' ∷ []) ∷ (b'a' ∷ []) ∷ []
unfolding program
two_ids = refl

-- A third id drives out the oldest.
evicted : (lua_update (b'c' ∷ []) two).0 ≡ some (b'a' ∷ [])
unfolding program
evicted = refl

-- An id that is there goes to the front, and nothing is evicted.
moved : view (update (b'a' ∷ []) two).1.ids ≡ (b'a' ∷ []) ∷ (b'b' ∷ []) ∷ []
unfolding program
moved = refl

-- The empty id is evicted with no result.
silent : (lua_update (b'c' ∷ []) (update (b'b' ∷ []) (update [] fresh).1).1).0 ≡ none
unfolding program
silent = refl

fresh-IsValid : IsValid fresh
fresh-IsValid = record {
  is_indexed = record {
    distinct = tt;
    below = λ n m. absurd m;
    indexed = λ n m. absurd m;
    found = λ id a e. cc;
  };
  small = omega arith;
}

two-IsValid : IsValid two
two-IsValid =
    (update-refines (b'b' ∷ []) (update (b'a' ∷ []) fresh).1
      (update-refines (b'a' ∷ []) fresh fresh-IsValid).0).0

update-refines_example :
    IsValid (update (b'c' ∷ []) two).1
    × ((update (b'c' ∷ []) two).1.num ≡ two.num)
    × ((update (b'c' ∷ []) two).0 ≡ id_at two.num ((b'c' ∷ []) ∷ remove (b'c' ∷ []) (view two.ids)))
    × (view (update (b'c' ∷ []) two).1.ids
        ≡ take two.num ((b'c' ∷ []) ∷ remove (b'c' ∷ []) (view two.ids)))
update-refines_example = update-refines (b'c' ∷ []) two two-IsValid

del-refines_example :
    IsValid (del (b'a' ∷ []) two)
    × ((del (b'a' ∷ []) two).num ≡ two.num)
    × (view (del (b'a' ∷ []) two).ids ≡ remove (b'a' ∷ []) (view two.ids))
del-refines_example = del-refines (b'a' ∷ []) two two-IsValid
