-- ===== src/Trie.antt =====
-- trie/hat/ltrie.cc and trie/pdbs/ltrie.cc: maps from strings to int64_t over a trie of a library,
-- tsl::htrie_map and the trie of the GNU policy-based data structures. What both sources share is here.
pub mod Hat
pub mod Pdbs
pub mod Loading
pub mod RoundTrip
pub mod Reached
mod Listed
mod Tests
use luatest.Prelude.{
  ℕ, zero, suc, List, [], ◌∷◌, ◌++◌, Option, none, some, Bool, true, false, ◌==◌, ◌≡◌, ◌≢◌, ◌↔◌,
  length, if◌then◌else◌,
}
use luatest.Prelude.Int.{ℤ}
use luatest.Std.Set.{In}
use luatest.Memory.{to_memory, of_memory, bits_of, signed}
use luatest.Memory.Reads.{split, ◌>>=◌}

abbrev pub Entry : Type 0
Entry = List ℕ × ℤ

-- Whether a string begins with another.
unfoldable pub starts_with : List ℕ → List ℕ → Bool
starts_with [] key = true
starts_with (b ∷ bs) [] = false
starts_with (b ∷ bs) (c ∷ cs) = let rest = starts_with bs cs in if b == c then rest else false

-- What the sources call of the libraries.
pub record Library : Type 1 where
  pub Trie : Type 0
  pub new : Trie
  pub find : List ℕ → Trie → Option ℤ
  -- `trie[key] = v`; of a key that makes the library throw, nothing is said here.
  pub assign : List ℕ → ℤ → Trie → Trie
  pub erase : List ℕ → Trie → Trie
  pub erase_prefix : List ℕ → Trie → Trie
  pub size : Trie → ℕ
  -- From `begin()` to `end()`.
  pub entries : Trie → List Entry
  -- From `first` to `second` of the prefix range.
  pub prefix_range : List ℕ → Trie → List Entry

-- What the libraries document, of keys that they take.
pub record IsLibrary (IsTaken : List ℕ → Type 0) (L : Library) : Type 0 where
  pub find-new : (k : List ℕ) → L.find k L.new ≡ none
  pub assign_self :
      (k : List ℕ) (v : ℤ) (t : L.Trie) → IsTaken k → L.find k (L.assign k v t) ≡ some v
  pub assign_other :
      (k x : List ℕ) (v : ℤ) (t : L.Trie)
      → IsTaken k
      → x ≢ k
      → L.find x (L.assign k v t) ≡ L.find x t
  pub erase_self : (k : List ℕ) (t : L.Trie) → L.find k (L.erase k t) ≡ none
  pub erase_other : (k x : List ℕ) (t : L.Trie) → x ≢ k → L.find x (L.erase k t) ≡ L.find x t
  pub find-erase_prefix :
      (p k : List ℕ) (t : L.Trie)
      → L.find k (L.erase_prefix p t) ≡ (if starts_with p k then none else L.find k t)
  pub In-entries :
      (k : List ℕ) (v : ℤ) (t : L.Trie) → In (k, v) (L.entries t) ↔ (L.find k t ≡ some v)
  pub In-prefix_range :
      (p k : List ℕ) (v : ℤ) (t : L.Trie)
      → In (k, v) (L.prefix_range p t) ↔ ((L.find k t ≡ some v) × (starts_with p k ≡ true))

-- The reads of a turn of `deseri`, with a length field of `w` bytes; `none` is a read past the end.
unfoldable pub read_entry : ℕ → List ℕ → Option (Entry × List ℕ)
read_entry w bs = do
  (len, b1) ← split w bs
  (key, b2) ← split (of_memory len) b1
  (val, b3) ← split 8 b2
  some ((key, signed 8 (of_memory val)), b3)

-- `past_end` is a read past the end, and `stuck` stands for no more fuel.
pub data Loaded (A : Type 0) : Type 0 where
  loaded : A → Loaded A
  past_end : Loaded A
  stuck : Loaded A

module _ (L : Library) where
  unfoldable pub load_loop : ℕ → ℕ → List ℕ → L.Trie → Loaded L.Trie
  load_loop w fuel [] t = loaded t
  load_loop w zero (b ∷ bs) t = stuck
  load_loop w (suc fuel) (b ∷ bs) t = elim (read_entry w (b ∷ bs)) [
    | none ↦ past_end
    | some ((key, v), rest) ↦ load_loop w fuel rest (L.assign key v t)
  ]

  -- `deseri`; each turn uses up bytes, so their number is enough fuel.
  unfoldable pub load : ℕ → List ℕ → L.Trie → Loaded L.Trie
  unfolding load_loop
  load w bs t = load_loop w (length bs) bs t
