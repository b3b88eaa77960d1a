-- ===== src/Trie/Reached.antt =====
-- trie/pdbs/ltrie.cc: the tries that calls lead to, and what `deseri` makes of them.
use luatest.Prelude.{
  ◌≡◌, ◌∙◌, sym, ap, refl, inl, inr, ℕ, zero, suc, ◌<◌, ◌^◌, ◌/◌, List, [], ◌∷◌, Option, none, some,
  length, ltb, arith, All, Option-cases, Bool-cases,
}
use mathlib.Core.Path.{subst}
use luatest.Prelude.Int.{ℤ}
use luatest.Std.Set.{In-All}
use luatest.Memory.{IsByte, of_memory, signed}
use luatest.Memory.Reads.{split, ◌>>=◌}
use luatest.Memory.Fields.{IsInt64}
use luatest.Trie.{Entry, Library, IsLibrary, read_entry, loaded, past_end, load_loop, load}
use luatest.Trie.Pdbs.{inserted, insert, erase, value, seri, deseri}
use luatest.Trie.Loading.{IsStorable, assigns, load-plain, same_key}
use luatest.Trie.RoundTrip.{first_of, pdbs-plain, find-assigns}

of_memory-lt : (n : ℕ) (bs : List ℕ) → length bs ≡ n → All IsByte bs → of_memory bs < 256 ^ n
unfolding of_memory
of_memory-lt zero [] e h = omega arith
of_memory-lt zero (b ∷ bs) e h = absurd (omega (arith, e))
of_memory-lt (suc n) [] e h = absurd (omega (arith, e))
of_memory-lt (suc n) (b ∷ bs) e h = omega (arith, h.0, of_memory-lt n bs (omega (arith, e)) h.1)

signed-IsInt64 : (v : ℕ) → v < 256 ^ 8 → IsInt64 (signed 8 v)
unfolding signed
signed-IsInt64 v h = elim (Bool-cases (ltb v (256 ^ 8 / 2))) [
  | inl k ↦ rw k (ground (arith, k))
  | inr k ↦ rw k (ground (arith, k, h))
]

-- What holds of a result, if there is one.
abbrev Yields : {A : Type 0} → (A → Type 0) → Option A → Type 0
Yields P none = Unit
Yields P (some a) = P a

Yields-bind :
    {A B : Type 0} (P : A → Type 0) (Q : B → Type 0) (m : Option A) (f : A → Option B)
    → Yields P m
    → ((a : A) → P a → Yields Q (f a))
    → Yields Q (m >>= f)
Yields-bind P Q none f h k = tt
Yields-bind P Q (some a) f h k = k a h

-- What `split` gives: so many bytes, and the bytes behind them.
record Splits (n : ℕ) (p : List ℕ × List ℕ) : Type 0 where
  pub long : length p.0 ≡ n
  pub taken : All IsByte p.0
  pub left : All IsByte p.1

split-Splits : (n : ℕ) (bs : List ℕ) → All IsByte bs → Yields (Splits n) (split n bs)
unfolding split
split-Splits zero bs h = record { long = refl; taken = tt; left = h }
split-Splits (suc n) [] h = tt
split-Splits (suc n) (b ∷ bs) h =
    Yields-bind (Splits n) (Splits (suc n)) (split n bs) _ (split-Splits n bs h.1)
      λ p s. record { long = ap suc s.long; taken = (h.0, s.taken); left = s.left }

-- What a turn of `deseri` reads.
abbrev IsRead : ℕ → Entry × List ℕ → Type 0
IsRead w r = IsStorable w r.0 × All IsByte r.1

read_entry-IsRead : (w : ℕ) (bs : List ℕ) → All IsByte bs → Yields (IsRead w) (read_entry w bs)
unfolding read_entry
read_entry-IsRead w bs h =
    Yields-bind (Splits w) (IsRead w) (split w bs) _ (split-Splits w bs h) λ p s.
      Yields-bind (Splits (of_memory p.0)) (IsRead w) (split (of_memory p.0) p.1) _
        (split-Splits (of_memory p.0) p.1 s.left)
        λ q t. Yields-bind (Splits 8) (IsRead w) (split 8 q.1) _ (split-Splits 8 q.1 t.left) λ r u.
          (
            (
              rw t.long (of_memory-lt w p.0 s.long s.taken),
              signed-IsInt64 (of_memory r.0) (of_memory-lt 8 r.0 u.long u.taken),
            ),
            u.left,
          )

loaded_inj : {A : Type 0} (a b : A) → loaded a ≡ loaded b → a ≡ b
loaded_inj a b e = cc e

inserted_inj : {A : Type 0} (a b : A) → inserted a ≡ inserted b → a ≡ b
inserted_inj a b e = cc e

module _ (L : Library) (laws : IsLibrary (λ k. Unit) L) where
  All-taken : (es : List Entry) → All {0, 0} (λ (e : Entry). Unit) es
  All-taken [] = tt
  All-taken (e ∷ es) = (tt, All-taken es)

  -- All keys and values fit their fields.
  Fitting : ℕ → L.Trie → Type 0
  Fitting w t = (k : List ℕ) (v : ℤ) → L.find k t ≡ some v → IsStorable w (k, v)

  assign-Fitting :
      (w : ℕ) (k : List ℕ) (v : ℤ) (t : L.Trie)
      → IsStorable w (k, v)
      → Fitting w t
      → Fitting w (L.assign k v t)
  unfolding Fitting
  assign-Fitting w k v t h f x u e = elim (same_key x k) [
    | inl same ↦
        let there : L.find x (L.assign k v t) ≡ some v =
          ap (λ y. L.find y (L.assign k v t)) same ∙ laws.assign_self k v t tt in
        subst (IsStorable w) (cc (same, e, there)) h
    | inr other ↦ f x u (sym (laws.assign_other k x v t tt other) ∙ e)
  ]

  loop-Fitting :
      (w fuel : ℕ) (bs : List ℕ) (t r : L.Trie)
      → All IsByte bs
      → Fitting w t
      → load_loop L w fuel bs t ≡ loaded r
      → Fitting w r
  unfolding load_loop
  loop-Fitting w fuel [] t r h f e = subst (Fitting w) (loaded_inj t r e) f
  loop-Fitting w zero (b ∷ bs) t r h f e = absurd (cc e)
  loop-Fitting w (suc fuel) (b ∷ bs) t r h f e =
      go (read_entry w (b ∷ bs)) (read_entry-IsRead w (b ∷ bs) h)
        (λ key v rest y left.
          loop-Fitting w fuel rest (L.assign key v t) r left (assign-Fitting w key v t y f))
        e
    where
      go :
          (o : Option (Entry × List ℕ))
          → Yields (IsRead w) o
          → ((key : List ℕ) (v : ℤ) (rest : List ℕ)
              → IsStorable w (key, v)
              → All IsByte rest
              → load_loop L w fuel rest (L.assign key v t) ≡ loaded r
              → Fitting w r)
          → (elim o [
            | none ↦ past_end
            | some ((key, v), rest) ↦ load_loop L w fuel rest (L.assign key v t)
          ])
            ≡ loaded r
          → Fitting w r
      go none y next e = absurd (cc e)
      go (some ((key, v), rest)) (y, left) next e = next key v rest y left e

  -- The tries that calls of the Lua functions lead to, with the int64_t values and the bytes that Lua
  -- hands over; a call that raises the error changes nothing.
  pub data Reached : L.Trie → Type 0 where
    created : Reached L.new
    added :
        {t u : L.Trie} (k : List ℕ) (v : ℤ)
        → Reached t
        → IsInt64 v
        → insert L k v t ≡ inserted u
        → Reached u
    erased : {t : L.Trie} (k : List ℕ) → Reached t → Reached (erase L k t)
    read :
        {t u : L.Trie} (bs : List ℕ)
        → Reached t
        → All IsByte bs
        → deseri L bs t ≡ loaded u
        → Reached u

  insert-Fitting :
      (k : List ℕ) (v : ℤ) (t u : L.Trie)
      → IsInt64 v
      → insert L k v t ≡ inserted u
      → Fitting 2 t
      → Fitting 2 u
  unfolding insert
  insert-Fitting k v t u small e f = elim (Bool-cases (ltb 65535 (length k))) [
    | inl long ↦ absurd (cc (rw long at e))
    | inr short ↦ elim (Option-cases (L.find k t)) [
      | inl new ↦
          subst (Fitting 2) (inserted_inj (L.assign k v t) u (rw (insert, short, new) at e))
            (assign-Fitting 2 k v t (ground (arith, short), small) f)
      | inr (old, there) ↦ subst (Fitting 2) (inserted_inj t u (rw (insert, short, there) at e)) f
    ]
  ]

  Reached-Fitting : (t : L.Trie) → Reached t → Fitting 2 t
  unfolding Fitting erase deseri load
  Reached-Fitting _ created = λ x u e. absurd (cc (e, laws.find-new x))
  Reached-Fitting u (added {t} k v past small e) =
      insert-Fitting k v t u small e (Reached-Fitting t past)
  Reached-Fitting _ (erased {t} k past) = λ x u e. elim (same_key x k) [
    | inl same ↦ absurd (cc (e, ap (λ y. L.find y (L.erase k t)) same, laws.erase_self k t))
    | inr other ↦ Reached-Fitting t past x u (sym (laws.erase_other k x t other) ∙ e)
  ]
  Reached-Fitting u (read {t} bs past h e) =
      loop-Fitting 2 (length bs) bs t u h (Reached-Fitting t past) e

  -- Let a library keep its laws. Of every trie that calls lead to, `deseri` of what `seri` wrote ends
  -- with a trie where `value` gives the values of the first trie, and for its other keys those of the
  -- trie that was read into.
  pub value-deseri-seri :
      (t s : L.Trie)
      → Reached t
      → (r : L.Trie) × ((deseri L (seri L t) s ≡ loaded r)
          × ((k : List ℕ) → value L k r ≡ first_of (value L k t) (value L k s)))
  unfolding deseri seri value Fitting
  value-deseri-seri t s past =
      let stored : All (IsStorable 2) (L.entries t) =
        In-All (IsStorable 2) (L.entries t)
          (λ e m. Reached-Fitting t past e.0 e.1 ((laws.In-entries e.0 e.1 t).0 m)) in
      (
        assigns L (L.entries t) s,
        (
          ap (λ bs. load L 2 bs s) (pdbs-plain (L.entries t) stored)
              ∙ load-plain L 1 (L.entries t) s stored,
          λ k. find-assigns L laws t s k (All-taken (L.entries t)),
        ),
      )
