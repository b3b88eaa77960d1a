-- ===== src/Trie/Pdbs.antt =====
-- trie/pdbs/ltrie.cc: the Lua functions, on arguments converted by the Lua API.
use luatest.Prelude.{
  ℕ, ◌+◌, ◌/◌, ◌%◌, ◌^◌, List, [], ◌∷◌, ◌++◌, Option, none, some, ◌&&◌, length, ltb, if◌then◌else◌,
}
use luatest.Prelude.Int.{ℤ, pos, ltb_ℤ, leb_ℤ}
use luatest.Memory.{to_memory, bits_of}
use luatest.Memory.Fields.{front}
use luatest.Trie.{Entry, Library, Loaded, load}

-- The length goes into a uint16_t, and so many bytes of the key follow it.
unfoldable pub entry_bytes : Entry → List ℕ
entry_bytes (k, v) =
    let klen = length k % 2 ^ 16 in to_memory 2 klen ++ (front klen k ++ to_memory 8 (bits_of 8 v))

unfoldable pub seri_loop : List Entry → List ℕ
unfolding entry_bytes
seri_loop [] = []
seri_loop (e ∷ es) = entry_bytes e ++ seri_loop es

-- The loop of `prefix` that fills the table, with its counter; an entry takes two places.
unfoldable pub prefix_loop : ℤ → ℕ → List Entry → List Entry
prefix_loop num c [] = []
prefix_loop num c (e ∷ es) =
    let rest = prefix_loop num (c + 2) es in
    if ltb_ℤ (pos 0) num && leb_ℤ num (pos ((c + 2) / 2)) then e ∷ [] else e ∷ rest

-- `too_long` is the error `trie k too long` that Lua raises.
pub data Inserted (A : Type 0) : Type 0 where
  inserted : A → Inserted A
  too_long : Inserted A

module _ (L : Library) where
  unfoldable pub insert : List ℕ → ℤ → L.Trie → Inserted L.Trie
  insert k v t =
      if ltb 65535 (length k)
      then too_long
      else elim (L.find k t) [ some old ↦ inserted t | none ↦ inserted (L.assign k v t) ]

  unfoldable pub erase : List ℕ → L.Trie → L.Trie
  erase k t = L.erase k t

  unfoldable pub value : List ℕ → L.Trie → Option ℤ
  value k t = L.find k t

  unfoldable pub prefix : List ℕ → ℤ → L.Trie → List Entry
  unfolding prefix_loop
  prefix pre num t = prefix_loop num 0 (L.prefix_range pre t)

  unfoldable pub seri : L.Trie → List ℕ
  unfolding seri_loop
  seri t = seri_loop (L.entries t)

  unfoldable pub deseri : List ℕ → L.Trie → Loaded L.Trie
  unfolding load
  deseri bs t = load L 2 bs t
