-- ===== src/Lru/Create.antt =====
-- `create` makes a valid cache.
use luatest.Prelude.{◌≡◌, refl, ◌⊎◌, inl, inr, ℕ, zero, suc, [], some, none, arith, false}
use luatest.Prelude.Int.{ℤ, pos, negsuc, ltb_ℤ}
use luatest.Std.Map
use luatest.Lru.{Lru, create}
use luatest.Lru.Valid.{IsValid}

empty : ℕ → Lru
empty n = record { ids = []; it = Map.no_keys; num = n; next = 0 }

empty-IsValid : (n : ℕ) → IsValid (empty n)
unfolding empty
empty-IsValid n = record {
  is_indexed = record {
    distinct = tt;
    below = λ n m. absurd m;
    indexed = λ n m. absurd m;
    found = λ id a e. cc;
  };
  small = omega arith;
}

-- `create` gives nothing for a number that is not positive, and else an empty valid cache of that
-- size.
create-IsValid :
    (num : ℤ)
    → ((ltb_ℤ (pos 0) num ≡ false) × (create num ≡ none))
      ⊎ ((s : Lru) × ((create num ≡ some s) × IsValid s × (s.ids ≡ []) × (pos s.num ≡ num)))
unfolding create empty
create-IsValid (negsuc n) = inl (ground arith, ground arith)
create-IsValid (pos zero) = inl (refl, refl)
create-IsValid (pos (suc n)) =
    inr (empty (suc n), (ground arith, empty-IsValid (suc n), refl, refl))
