-- ===== src/Trie/RoundTrip.antt =====
-- What `deseri` makes of what `seri` wrote.
use native.Mathlib.Nat.{mod-eq_of_lt}
use luatest.Prelude.{
  ◌≡◌, ◌∙◌, sym, ap, refl, inl, inr, ℕ, List, [], ◌∷◌, Option, none, some, All, Option-cases,
  length, ◌≤◌, arith,
}
use luatest.Prelude.Int.{ℤ}
use luatest.Memory.Fields.{IsInt64, front-length}
use luatest.Trie.{Entry, Library, IsLibrary, loaded, load}
use luatest.Trie.Hat
use luatest.Trie.Pdbs
use luatest.Trie.Loading.{
  IsStorable, plain_bytes, plain_loop, assigns, load-plain, assigns_other, assigns_self,
}

-- The first value where there is one, and otherwise the second.
abbrev pub first_of : Option ℤ → Option ℤ → Option ℤ
first_of none w = w
first_of (some v) w = some v

hat-plain : (es : List Entry) → All (IsStorable 4) es → Hat.seri_loop es ≡ plain_loop 4 es
unfolding Hat.seri_loop Hat.entry_bytes plain_loop plain_bytes
hat-plain [] h = refl
hat-plain ((k, v) ∷ es) ((small, val), h) = rw (mod-eq_of_lt small, hat-plain es h) refl

pub pdbs-plain : (es : List Entry) → All (IsStorable 2) es → Pdbs.seri_loop es ≡ plain_loop 2 es
unfolding Pdbs.seri_loop Pdbs.entry_bytes plain_loop plain_bytes
pdbs-plain [] h = refl
pdbs-plain ((k, v) ∷ es) ((small, val), h) =
    rw (mod-eq_of_lt small, front-length k, pdbs-plain es h) refl

-- The keys that tsl::htrie_map takes at all events: their size is limited to the largest uint16_t, less
-- one.
abbrev pub IsShort : List ℕ → Type 0
IsShort k = length k ≤ 65534

-- The key is one that the library takes, and the value an int64_t.
abbrev pub IsKept : Entry → Type 0
IsKept e = IsShort e.0 × IsInt64 e.1

kept-IsShort : (es : List Entry) → All IsKept es → All (λ (e : Entry). IsShort e.0) es
kept-IsShort [] h = tt
kept-IsShort (e ∷ es) ((short, val), h) = (short, kept-IsShort es h)

kept-IsStorable : (es : List Entry) → All IsKept es → All (IsStorable 4) es
kept-IsStorable [] h = tt
kept-IsStorable (e ∷ es) ((short, val), h) = ((omega (arith, short), val), kept-IsStorable es h)

module _ (L : Library) {IsTaken : List ℕ → Type 0} (laws : IsLibrary IsTaken L) where
  some_value : {v w : ℤ} → some v ≡ some w → v ≡ w
  some_value e = cc e

  -- All entries of a trie, assigned to another, go before its values.
  pub find-assigns :
      (t s : L.Trie) (k : List ℕ)
      → All (λ (e : Entry). IsTaken e.0) (L.entries t)
      → L.find k (assigns L (L.entries t) s) ≡ first_of (L.find k t) (L.find k s)
  find-assigns t s k y = elim (Option-cases (L.find k t)) [
    | inl h ↦ rw h (
        assigns_other L laws (L.entries t) k s y
          (λ v m. absurd (cc (h, (laws.In-entries k v t).0 m))))
    | inr (v, h) ↦ rw h (
        assigns_self L laws (L.entries t) k v s y
          (λ w m. some_value (sym ((laws.In-entries k w t).0 m) ∙ h))
          (inl ((laws.In-entries k v t).1 h)))
  ]

module _ (L : Library) (laws : IsLibrary IsShort L) where
  -- Let a library keep its laws for keys of at most 65534 bytes, and a trie have such keys and int64_t
  -- values. Then `deseri` of what `seri` of it wrote ends with a trie where `get` gives the values of
  -- the first trie, and for its other keys those of the trie that was read into.
  pub get-deseri-seri :
      (t s : L.Trie)
      → All IsKept (L.entries t)
      → (r : L.Trie) × ((Hat.deseri L (Hat.seri L t) s ≡ loaded r)
          × ((k : List ℕ) → Hat.get L k r ≡ first_of (Hat.get L k t) (Hat.get L k s)))
  unfolding Hat.deseri Hat.seri Hat.get
  get-deseri-seri t s h =
      let stored = kept-IsStorable (L.entries t) h in
      (
        assigns L (L.entries t) s,
        (
          ap (λ bs. load L 4 bs s) (hat-plain (L.entries t) stored)
              ∙ load-plain L 3 (L.entries t) s stored,
          λ k. find-assigns L laws t s k (kept-IsShort (L.entries t) h),
        ),
      )
