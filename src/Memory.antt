-- ===== src/Memory.antt =====
-- Numbers as the bytes that a little-endian host stores for them, which msgpack and rank copy, and
-- `endian_change` of msgpack/cc/msgpack.h, which reverses these bytes.
pub mod Reads
pub mod Fields
use mathlib.Core.List.{reverse-reverse}
use native.Mathlib.Nat.{mod-eq_of_lt, mod-lt}
use luatest.Prelude.{
  ℕ, zero, suc, ◌+◌, ◌-◌, ◌*◌, ◌/◌, ◌%◌, ◌^◌, ◌<◌, ◌≡◌, refl, ap, ◌∙◌, List, [], ◌∷◌, reverse,
  arith, length, length-reverse, All, All-reverse, ltb, if◌then◌else◌,
}
use luatest.Prelude.Int.{ℤ, pos, negsuc}

abbrev pub IsByte : ℕ → Type 0
IsByte b = b < 256

-- The `k` bytes of a number in memory, lowest first.
unfoldable pub to_memory : ℕ → ℕ → List ℕ
to_memory zero v = []
to_memory (suc k) v = (v % 256) ∷ to_memory k (v / 256)

unfoldable pub of_memory : List ℕ → ℕ
of_memory [] = 0
of_memory (b ∷ bs) = b + 256 * of_memory bs

-- `endian_change` at a type of `k` bytes.
unfoldable pub endian_change : ℕ → ℕ → ℕ
endian_change k v = of_memory (reverse (to_memory k v))

-- The bits of a signed integer in a type of `k` bytes, and the integer that such bits stand for.
unfoldable pub bits_of : ℕ → ℤ → ℕ
bits_of k (pos n) = n % 256 ^ k
bits_of k (negsuc n) = 256 ^ k - 1 - n % 256 ^ k

unfoldable pub signed : ℕ → ℕ → ℤ
signed k v = if ltb v (256 ^ k / 2) then pos v else negsuc (256 ^ k - 1 - v)

pub length-to_memory : (k v : ℕ) → length (to_memory k v) ≡ k
unfolding to_memory
length-to_memory zero v = refl
length-to_memory (suc k) v = ap suc (length-to_memory k (v / 256))

pub to_memory-IsByte : (k v : ℕ) → All IsByte (to_memory k v)
unfolding to_memory
to_memory-IsByte zero v = tt
to_memory-IsByte (suc k) v = (omega arith, to_memory-IsByte k (v / 256))

pub of_memory-to_memory : (k v : ℕ) → v < 256 ^ k → of_memory (to_memory k v) ≡ v
unfolding to_memory of_memory
of_memory-to_memory zero v h = omega arith
of_memory-to_memory (suc k) v h = omega (arith, of_memory-to_memory k (v / 256) (omega arith))

pub to_memory-of_memory : (bs : List ℕ) → All IsByte bs → to_memory (length bs) (of_memory bs) ≡ bs
unfolding to_memory of_memory
to_memory-of_memory [] h = refl
to_memory-of_memory (b ∷ bs) h =
    ground (arith, to_memory-of_memory bs h.1, ap (λ (t : ℕ). to_memory (length bs) t) low, digit)
  where
    low : (b + 256 * of_memory bs) / 256 ≡ of_memory bs
    low = omega (arith, h.0)

    digit : (b + 256 * of_memory bs) % 256 ≡ b
    digit = omega (arith, h.0)

-- The stored bytes of a changed number are those of the number, backwards.
pub to_memory-endian_change : (k v : ℕ) → to_memory k (endian_change k v) ≡ reverse (to_memory k v)
unfolding endian_change
to_memory-endian_change k v = rw (len) at (
    to_memory-of_memory (reverse (to_memory k v))
      (All-reverse IsByte (to_memory k v) (to_memory-IsByte k v)))
  where
    len : length (reverse (to_memory k v)) ≡ k
    len = rw (length-reverse (to_memory k v)) (length-to_memory k v)

-- Changing twice gives the number back.
pub endian_change-endian_change : (k v : ℕ) → v < 256 ^ k → endian_change k (endian_change k v) ≡ v
unfolding endian_change
endian_change-endian_change k v h =
    ap of_memory (ap reverse (to_memory-endian_change k v) ∙ reverse-reverse (to_memory k v))
    ∙ of_memory-to_memory k v h

of_memory-lt : (k : ℕ) (bs : List ℕ) → length bs ≡ k → All IsByte bs → of_memory bs < 256 ^ k
unfolding of_memory
of_memory-lt zero [] e h = omega arith
of_memory-lt zero (b ∷ bs) e h = absurd (omega arith)
of_memory-lt (suc k) [] e h = absurd (omega arith)
of_memory-lt (suc k) (b ∷ bs) e h = omega (arith, of_memory-lt k bs (omega arith) h.1, h.0)

pub endian_change-lt : (k v : ℕ) → endian_change k v < 256 ^ k
unfolding endian_change
endian_change-lt k v =
    of_memory-lt k (reverse (to_memory k v)) (length-reverse (to_memory k v) ∙ length-to_memory k v)
      (All-reverse IsByte (to_memory k v) (to_memory-IsByte k v))

fits : (k n : ℕ) → n < 256 ^ k / 2 → n < 256 ^ k
fits k n h = omega arith

-- A signed integer that fits a type is what its bits there stand for.
pub signed-bits_of_pos : (k n : ℕ) → n < 256 ^ k / 2 → signed k (bits_of k (pos n)) ≡ pos n
unfolding signed bits_of
signed-bits_of_pos k n h = rw (mod-eq_of_lt (fits k n h)) (ground arith)

pub signed-bits_of_negsuc : (k n : ℕ) → n < 256 ^ k / 2 → signed k (bits_of k (negsuc n)) ≡ negsuc n
unfolding signed bits_of
signed-bits_of_negsuc k n h = rw (mod-eq_of_lt (fits k n h)) (ground arith)

pub bits_of-lt : (k : ℕ) (v : ℤ) → 0 < 256 ^ k → bits_of k v < 256 ^ k
unfolding bits_of
bits_of-lt k (pos n) h = mod-lt n h
bits_of-lt k (negsuc n) h = omega arith
