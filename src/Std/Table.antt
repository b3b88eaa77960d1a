-- ===== src/Std/Table.antt =====
-- Hash tables that a source goes through, as their entries, with one entry for a key.
use luatest.Prelude.{
  ◌≡◌, ◌≢◌, ◌∙◌, sym, ap, ◌⊎◌, inl, inr, List, [], ◌∷◌, Option, none, some, false, if◌then◌else◌,
  Bool-cases,
}
use luatest.Prelude.Int.{ℤ, eqb_ℤ, eqb_ℤ_refl}
use luatest.Std.Set.{In}

unfoldable pub erase_at : {A : Type 0} → ℤ → List (ℤ × A) → List (ℤ × A)
erase_at id [] = []
erase_at id ((k, a) ∷ es) = let rest = erase_at id es in if eqb_ℤ k id then rest else (k, a) ∷ rest

unfoldable pub find_at : {A : Type 0} → ℤ → List (ℤ × A) → Option A
find_at id [] = none
find_at id ((k, a) ∷ es) = let rest = find_at id es in if eqb_ℤ k id then some a else rest

-- `table[id] = a`
unfoldable pub assign_at : {A : Type 0} → ℤ → A → List (ℤ × A) → List (ℤ × A)
unfolding erase_at
assign_at id a es = (id, a) ∷ erase_at id es

not_same : (id k i : ℤ) → eqb_ℤ i k ≡ false → id ≡ k → id ≢ i
not_same id k i h q e = absurd (cc (h, eqb_ℤ_refl k, ap (λ (j : ℤ). eqb_ℤ j k) (sym q ∙ e)))

pub In-erase_at :
    {A : Type 0} (id k : ℤ) (f : A) (es : List (ℤ × A))
    → In (id, f) (erase_at k es)
    → (id ≢ k) × In (id, f) es
unfolding erase_at
In-erase_at id k f [] m = absurd m
In-erase_at {A = A} id k f ((i, g) ∷ es) m = elim (Bool-cases (eqb_ℤ i k)) [
  | inl h ↦
      let n : In (id, f) (erase_at k es) = rw h at m in
      let (d, o) = In-erase_at id k f es n in (d, inr o)
  | inr h ↦
      let n : (◌≡◌ {A = ℤ × A} (id, f) (i, g)) ⊎ In (id, f) (erase_at k es) = rw h at m in
      elim n [
        | inl e ↦ (λ q. not_same id k i h q (ap (λ (p : ℤ × A). p.0) e), inl e)
        | inr o ↦ let (d, old) = In-erase_at id k f es o in (d, inr old)
      ]
]

pub In-assign_at :
    {A : Type 0} (id k : ℤ) (f v : A) (es : List (ℤ × A))
    → In (id, f) (assign_at k v es)
    → (id ≡ k) ⊎ In (id, f) es
unfolding assign_at
In-assign_at {A = A} id k f v es (inl e) = inl (ap (λ (p : ℤ × A). p.0) e)
In-assign_at id k f v es (inr m) = inr ((In-erase_at id k f es m).1)
