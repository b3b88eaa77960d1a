-- ===== src/Memory/Reads.antt =====
-- Reads from memory through a pointer that moves on, as in msgpack/cc/msgpack.h and
-- rank/cc/lrank.cc.
use luatest.Prelude.{
  ℕ, zero, suc, ◌≤◌, ◌≡◌, refl, List, [], ◌∷◌, ◌++◌, Option, none, some, length, arith,
}

-- `none` is a read past the end of the input, which the sources do not test for.
infixl 5 ◌>>=◌
abbrev pub ◌>>=◌ {ℓ κ} : {A : Type ℓ} {B : Type κ} → Option A → (A → Option B) → Option B
none >>= f = none
some a >>= f = f a

-- The first `n` bytes from a pointer, and what is behind them.
unfoldable pub split : ℕ → List ℕ → Option (List ℕ × List ℕ)
split zero bs = some ([], bs)
split (suc n) [] = none
split (suc n) (b ∷ bs) = do (front, rest) ← split n bs; some (b ∷ front, rest)

pub split-append : (xs rest : List ℕ) → split (length xs) (xs ++ rest) ≡ some (xs, rest)
unfolding split
split-append [] rest = refl
split-append (x ∷ xs) rest = rw (split-append xs rest)

-- What is left is no longer than `n`.
abbrev pub Fits {ℓ} : {A : Type ℓ} → ℕ → Option (A × List ℕ) → Type 0
Fits n none = Unit
Fits n (some p) = length p.1 ≤ n

pub split-Fits : (k : ℕ) (bs : List ℕ) → Fits (length bs) (split k bs)
unfolding split
split-Fits zero bs = omega arith
split-Fits (suc k) [] = tt
split-Fits (suc k) (b ∷ bs) = go (split k bs) (split-Fits k bs)
  where
    go :
        (r : Option (List ℕ × List ℕ))
        → Fits (length bs) r
        → Fits (suc (length bs)) (r >>= λ p. some (b ∷ p.0, p.1))
    go none h = tt
    go (some p) h = omega arith

pub bind-Fits {ℓ κ} :
    {A : Type ℓ} {B : Type κ} (n : ℕ) (m : Option (A × List ℕ))
    (f : A × List ℕ → Option (B × List ℕ))
    → Fits n m
    → ((p : A × List ℕ) → length p.1 ≤ n → Fits n (f p))
    → Fits n (m >>= f)
bind-Fits n none f h k = tt
bind-Fits n (some p) f h k = k p h

pub Fits-mono {ℓ} : {A : Type ℓ} (n k : ℕ) (m : Option (A × List ℕ)) → n ≤ k → Fits n m → Fits k m
Fits-mono n k none h f = tt
Fits-mono n k (some p) h f = omega arith
