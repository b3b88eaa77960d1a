-- ===== src/Rank/Create.antt =====
-- `create` makes a valid ranking.
use luatest.Prelude.{◌≡◌, refl, ◌⊎◌, inl, inr, ℕ, zero, suc, [], some, none, arith, false}
use luatest.Prelude.Int.{ℤ, pos, negsuc, ltb_ℤ}
use luatest.Std.Map
use luatest.Rank.{Rank, create}
use luatest.Rank.Valid.{IsValid}

empty : ℕ → Rank
empty n = record { ranks = []; id_it = Map.no_keys; max = n }

empty-IsValid : (n : ℕ) → IsValid (empty n)
unfolding empty
empty-IsValid n = record {
  is_indexed = record { ranks_sorted = tt; indexed = λ z m. absurd m; found = λ id z e. cc };
  small = omega arith;
}

-- `create` gives nothing for a number that is not positive, and else an empty valid ranking of that
-- size.
create-ranks :
    (num : ℤ)
    → ((ltb_ℤ (pos 0) num ≡ false) × (create num ≡ none))
      ⊎ ((r : Rank) × ((create num ≡ some r) × IsValid r × (r.ranks ≡ []) × (pos r.max ≡ num)))
unfolding create empty
create-ranks (negsuc n) = inl (ground arith, ground arith)
create-ranks (pos zero) = inl (refl, refl)
create-ranks (pos (suc n)) = inr (empty (suc n), (ground arith, empty-IsValid (suc n), refl, refl))
