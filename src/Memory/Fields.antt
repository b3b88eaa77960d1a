-- ===== src/Memory/Fields.antt =====
-- Fields of a number of bytes, as rank/cc/lrank.cc and the ltrie.cc of trie/hat and trie/pdbs write
-- and read them.
use mathlib.Core.Path.{subst}
use luatest.Prelude.{
  ◌≡◌, ◌∙◌, ap, refl, ℕ, zero, suc, ◌/◌, ◌^◌, ◌<◌, List, [], ◌∷◌, ◌++◌, some, length, arith,
}
use luatest.Prelude.Int.{ℤ, pos, negsuc}
use luatest.Memory.{
  to_memory, of_memory, bits_of, signed, length-to_memory, of_memory-to_memory, bits_of-lt,
  signed-bits_of_pos, signed-bits_of_negsuc,
}
use luatest.Memory.Reads.{split, split-append}

unfoldable pub front : ℕ → List ℕ → List ℕ
front zero bs = []
front (suc n) [] = []
front (suc n) (b ∷ bs) = b ∷ front n bs

-- An int64_t.
abbrev pub IsInt64 : ℤ → Type 0
IsInt64 (pos n) = n < 256 ^ 8 / 2
IsInt64 (negsuc n) = n < 256 ^ 8 / 2

pub front-length : (bs : List ℕ) → front (length bs) bs ≡ bs
unfolding front
front-length [] = refl
front-length (b ∷ bs) = ap (◌∷◌ b) (front-length bs)

split_at : (k : ℕ) (xs rest : List ℕ) → length xs ≡ k → split k (xs ++ rest) ≡ some (xs, rest)
split_at k xs rest h = subst (λ n. split n (xs ++ rest) ≡ some (xs, rest)) h (split-append xs rest)

pub split-to_memory :
    (k v : ℕ) (rest : List ℕ) → split k (to_memory k v ++ rest) ≡ some (to_memory k v, rest)
split-to_memory k v rest = split_at k (to_memory k v) rest (length-to_memory k v)

pub int_back : (v : ℤ) → IsInt64 v → signed 8 (of_memory (to_memory 8 (bits_of 8 v))) ≡ v
int_back (pos n) h =
    ap (signed 8) (of_memory-to_memory 8 (bits_of 8 (pos n)) (bits_of-lt 8 (pos n) (omega arith)))
    ∙ signed-bits_of_pos 8 n h
int_back (negsuc n) h =
    ap (signed 8)
      (of_memory-to_memory 8 (bits_of 8 (negsuc n)) (bits_of-lt 8 (negsuc n) (omega arith)))
    ∙ signed-bits_of_negsuc 8 n h
