-- ===== src/Trie/Hat.antt =====
-- trie/hat/ltrie.cc: the Lua functions, on arguments converted by the Lua API.
use luatest.Prelude.{ℕ, ◌%◌, ◌^◌, List, [], ◌∷◌, ◌++◌, Option, length}
use luatest.Prelude.Int.{ℤ}
use luatest.Memory.{to_memory, bits_of}
use luatest.Trie.{Entry, Library, Loaded, load}

-- The length goes into a uint32_t, and the whole key follows it.
unfoldable pub entry_bytes : Entry → List ℕ
entry_bytes (key, v) = to_memory 4 (length key % 2 ^ 32) ++ (key ++ to_memory 8 (bits_of 8 v))

unfoldable pub seri_loop : List Entry → List ℕ
unfolding entry_bytes
seri_loop [] = []
seri_loop (e ∷ es) = entry_bytes e ++ seri_loop es

module _ (L : Library) where
  unfoldable pub set : List ℕ → ℤ → L.Trie → L.Trie
  set key v t = L.assign key v t

  unfoldable pub get : List ℕ → L.Trie → Option ℤ
  get key t = L.find key t

  unfoldable pub erase : List ℕ → L.Trie → L.Trie
  erase key t = L.erase key t

  unfoldable pub size : L.Trie → ℕ
  size t = L.size t

  -- The entries of the table of the result.
  unfoldable pub prefix_range : List ℕ → L.Trie → List Entry
  prefix_range range t = L.prefix_range range t

  unfoldable pub erase_prefix : List ℕ → L.Trie → L.Trie
  erase_prefix pre t = L.erase_prefix pre t

  unfoldable pub seri : L.Trie → List ℕ
  unfolding seri_loop
  seri t = seri_loop (L.entries t)

  unfoldable pub deseri : List ℕ → L.Trie → Loaded L.Trie
  unfolding load
  deseri bs t = load L 4 bs t
