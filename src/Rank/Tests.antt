-- ===== src/Rank/Tests.antt =====
-- The ranking on concrete calls, and its theorems there.
use luatest.Prelude.{◌≡◌, ◌≢◌, ◌⊎◌, refl, List, [], ◌∷◌, ◌++◌, some, none, length, ◌+◌, ◌-◌, arith}
use luatest.Prelude.Int.{pos}
use luatest.Std.Order.{lt_string}
use luatest.Std.Set.{In, find, insert, erase}
use luatest.Std.Map
use luatest.Rank.{
  Rankele, Rank, create, last, evict, remove, add, order_of_key, get_order, lua_get_order, position,
  clamp, between, info,
}
use luatest.Rank.Valid.{IsValid}
use luatest.Rank.Evict.{Beaten}
use luatest.Rank.Add.{add-IsValid, In-add}
use luatest.Rank.Orders.{get_order-place, info-get_order, least}

program : Unit {0}
unfolding find insert erase Map.erase Map.assign Map.insert lt_string create last evict remove add
    order_of_key get_order lua_get_order position clamp between info
program = tt

-- Two players, of which the second has the higher score, and a third with the score of the first
-- and an earlier time.
abbrev first : Rankele
first = record { id = b'a' ∷ []; score = pos 10; tm = pos 5 }

abbrev second : Rankele
second = record { id = b'b' ∷ []; score = pos 20; tm = pos 6 }

abbrev third : Rankele
third = record { id = b'c' ∷ []; score = pos 10; tm = pos 4 }

abbrev fresh : Rank
fresh = record { ranks = []; id_it = Map.no_keys; max = 2 }

create-two : create (pos 2) ≡ some fresh
unfolding program
create-two = refl

create-none : create (pos 0) ≡ none
unfolding program
create-none = refl

-- A ranking of two: the third player drives out the first.
abbrev two : Rank
two = add first (add second fresh)

two_ranks : two.ranks ≡ second ∷ first ∷ []
unfolding program
two_ranks = refl

third_in : (add third two).ranks ≡ second ∷ third ∷ []
unfolding program
third_in = refl

first_out : lua_get_order first.id (add third two) ≡ none
unfolding program
first_out = refl

info_two : info (pos 2) (pos 9) two ≡ some (first ∷ [])
unfolding program
info_two = refl

fresh-IsValid : IsValid fresh
fresh-IsValid = record {
  is_indexed = record { ranks_sorted = tt; indexed = λ z m. absurd m; found = λ id z e. cc };
  small = omega arith;
}

add-IsValid_example : IsValid (add second fresh)
add-IsValid_example = add-IsValid second fresh fresh-IsValid

two-IsValid : IsValid two
two-IsValid = add-IsValid first (add second fresh) add-IsValid_example

In-add_example :
    (In first (add third two).ranks
      → (first ≡ third) ⊎ (In first two.ranks × (first.id ≢ third.id)))
    × ((first ≡ third) ⊎ (In first two.ranks × (first.id ≢ third.id))
        → In first (add third two).ranks ⊎ Beaten first (add third two))
In-add_example = In-add third first two two-IsValid

get_order-place_example : get_order first.id two ≡ pos (length (second ∷ []) + 1)
get_order-place_example = get_order-place two (second ∷ []) first [] two-IsValid two_ranks

info-get_order_example :
    (es : List Rankele) × ((info (pos 2) (pos 9) two ≡ some es)
      × (length es ≡ least 9 (length two.ranks) - 1)
      × ((pre post : List Rankele) × ((two.ranks ≡ pre ++ (es ++ post))
            × (length pre ≡ least 1 (length two.ranks))))
      × ((xs : List Rankele) (e : Rankele) (ys : List Rankele)
          → es ≡ xs ++ e ∷ ys
          → get_order e.id two ≡ pos (1 + length xs + 1)))
info-get_order_example = info-get_order 1 9 two two-IsValid (omega arith)
