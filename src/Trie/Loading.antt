-- ===== src/Trie/Loading.antt =====
-- Loading bytes that were written entry by entry.
use mathlib.Core.List.{append_assoc, append-nil}
use luatest.Prelude.{
  ◌≡◌, ◌≢◌, ◌∙◌, sym, ap, refl, inl, inr, ◌⊎◌, ℕ, zero, suc, ◌≤◌, ◌<◌, ◌^◌, List, [], ◌∷◌, ◌++◌,
  some, length, length-append, arith, All, Bool-cases,
}
use luatest.Prelude.Int.{ℤ}
use luatest.Std.Order.{string_order}
use luatest.Std.Map
use luatest.Std.Set.{In}
use luatest.Memory.{to_memory, bits_of, of_memory-to_memory}
use luatest.Memory.Reads.{split-append}
use luatest.Memory.Fields.{IsInt64, split-to_memory, int_back}
use luatest.Trie.{Entry, Library, IsLibrary, read_entry, loaded, load_loop, load}

-- What an entry is written as, if its length fits the field.
unfoldable pub plain_bytes : ℕ → Entry → List ℕ
plain_bytes w e = to_memory w (length e.0) ++ (e.0 ++ to_memory 8 (bits_of 8 e.1))

unfoldable pub plain_loop : ℕ → List Entry → List ℕ
plain_loop w [] = []
plain_loop w (e ∷ es) = plain_bytes w e ++ plain_loop w es

-- The key is shorter than the field can say, and the value an int64_t.
abbrev pub IsStorable : ℕ → Entry → Type 0
IsStorable w e = (length e.0 < 256 ^ w) × IsInt64 e.1

read_entry-plain :
    (w : ℕ) (e : Entry) (rest : List ℕ)
    → IsStorable w e
    → read_entry w (plain_bytes w e ++ rest) ≡ some (e, rest)
unfolding read_entry plain_bytes
read_entry-plain w e rest (small, val) =
    rw
      (
        append_assoc (to_memory w (length e.0)) (e.0 ++ s) rest,
        append_assoc e.0 s rest,
        split-to_memory w (length e.0) (e.0 ++ (s ++ rest)),
        of_memory-to_memory w (length e.0) small,
        split-append e.0 (s ++ rest),
        split-to_memory 8 (bits_of 8 e.1) rest,
        int_back e.1 val,
      )
      refl
  where
    s : List ℕ
    s = to_memory 8 (bits_of 8 e.1)

plain-cons :
    (w : ℕ) (e : Entry) (rest : List ℕ)
    → (b : ℕ) × ((bs : List ℕ) × (plain_bytes (suc w) e ++ rest ≡ b ∷ bs))
unfolding plain_bytes to_memory
plain-cons w e rest = (_, (_, refl))

pub same_key : (k x : List ℕ) → (k ≡ x) ⊎ (k ≢ x)
same_key k x = elim (Bool-cases (Map.same string_order k x)) [
  | inl h ↦ inl (Map.same-eq string_order k x h)
  | inr h ↦ inr (λ e. cc (h, ap (Map.same string_order k) (sym e), Map.same_refl string_order k))
]

module _ (L : Library) where
  -- The entries are assigned one after the other.
  unfoldable pub assigns : List Entry → L.Trie → L.Trie
  assigns [] t = t
  assigns ((k, v) ∷ es) t = assigns es (L.assign k v t)

  turn_on :
      (w fuel b : ℕ) (bs : List ℕ) (e : Entry) (rest : List ℕ) (t : L.Trie)
      → read_entry w (b ∷ bs) ≡ some (e, rest)
      → load_loop L w (suc fuel) (b ∷ bs) t ≡ load_loop L w fuel rest (L.assign e.0 e.1 t)
  unfolding load_loop
  turn_on w fuel b bs e rest t h = rw (load_loop, h) refl

  turn :
      (w fuel : ℕ) (e : Entry) (rest : List ℕ) (t : L.Trie)
      → IsStorable (suc w) e
      → load_loop L (suc w) (suc fuel) (plain_bytes (suc w) e ++ rest) t
        ≡ load_loop L (suc w) fuel rest (L.assign e.0 e.1 t)
  turn w fuel e rest t h =
      let (b, (bs, same)) = plain-cons w e rest in
      ap (λ l. load_loop L (suc w) (suc fuel) l t) same
      ∙ turn_on (suc w) fuel b bs e rest t
          (ap (read_entry (suc w)) (sym same) ∙ read_entry-plain (suc w) e rest h)

  loop-plain :
      (w : ℕ) (es : List Entry) (fuel : ℕ) (t : L.Trie)
      → All (IsStorable (suc w)) es
      → length es ≤ fuel
      → load_loop L (suc w) fuel (plain_loop (suc w) es) t ≡ loaded (assigns es t)
  unfolding plain_loop load_loop assigns
  loop-plain w [] fuel t h k = refl
  loop-plain w (e ∷ es) zero t h k = absurd (omega arith)
  loop-plain w (e ∷ es) (suc fuel) t h k =
      turn w fuel e (plain_loop (suc w) es) t h.0
      ∙ loop-plain w es fuel (L.assign e.0 e.1 t) h.1 (omega arith)

  length-plain : (w : ℕ) (es : List Entry) → length es ≤ length (plain_loop (suc w) es)
  unfolding plain_loop
  length-plain w [] = omega arith
  length-plain w (e ∷ es) =
      let (b, (bs, same)) = plain-cons w e [] in
      omega (
        arith,
        length-plain w es,
        length-append (plain_bytes (suc w) e) (plain_loop (suc w) es),
        ap length (sym (append-nil (plain_bytes (suc w) e)) ∙ same),
      )

  -- What was written entry by entry is assigned entry by entry.
  pub load-plain :
      (w : ℕ) (es : List Entry) (t : L.Trie)
      → All (IsStorable (suc w)) es
      → load L (suc w) (plain_loop (suc w) es) t ≡ loaded (assigns es t)
  unfolding load
  load-plain w es t h = loop-plain w es (length (plain_loop (suc w) es)) t h (length-plain w es)

  module _ {IsTaken : List ℕ → Type 0} (laws : IsLibrary IsTaken L) where
    -- A key that no entry has keeps its value.
    pub assigns_other :
        (es : List Entry) (k : List ℕ) (t : L.Trie)
        → All (λ (e : Entry). IsTaken e.0) es
        → ((v : ℤ) → ¬ In (k, v) es)
        → L.find k (assigns es t) ≡ L.find k t
    unfolding assigns
    assigns_other [] k t y h = refl
    assigns_other ((x, v) ∷ es) k t (y, ys) h =
        assigns_other es k (L.assign x v t) ys (λ w m. h w (inr m))
        ∙ laws.assign_other x k v t y (λ e. h v (inl (ap (λ (y : List ℕ). (y, v)) e)))

    -- A key whose entries all have a value, and that has an entry or the value already, has it.
    pub assigns_self :
        (es : List Entry) (k : List ℕ) (v : ℤ) (t : L.Trie)
        → All (λ (e : Entry). IsTaken e.0) es
        → ((w : ℤ) → In (k, w) es → w ≡ v)
        → In (k, v) es ⊎ (L.find k t ≡ some v)
        → L.find k (assigns es t) ≡ some v
    unfolding assigns
    assigns_self [] k v t ys one (inl m) = absurd m
    assigns_self [] k v t ys one (inr h) = h
    assigns_self ((x, u) ∷ es) k v t (y, ys) one there = elim (same_key k x) [
      | inl e ↦
          let same : u ≡ v = one u (inl (ap (λ (y : List ℕ). (y, u)) e)) in
          assigns_self es k v (L.assign x u t) ys (λ w m. one w (inr m))
            (inr (ap (λ z. L.find z (L.assign x u t)) e ∙ laws.assign_self x u t y ∙ ap some same))
      | inr e ↦
          assigns_self es k v (L.assign x u t) ys (λ w m. one w (inr m))
            (elim there [
              | inl (inl f) ↦ absurd (e (ap (λ (y : Entry). y.0) f))
              | inl (inr m) ↦ inl m
              | inr h ↦ inr (laws.assign_other x k u t y e ∙ h)
            ])
    ]
