-- ===== src/Mmo/Squares.antt =====
-- Lists of consecutive numbers, and of the positions of a rectangle.
use luatest.Prelude.{
  ◌≡◌, ap, refl, inl, inr, ℕ, zero, suc, ◌*◌, List, [], ◌∷◌, true, arith, length, length-append,
  Bool-cases,
}
use luatest.Prelude.Int.{ℤ, pos, leb_ℤ, ltb_ℤ, ◌+ℤ◌, eqb_ℤ, eqb_ℤ-eq}
use luatest.Std.Set.{In, In-append_left, In-append_right, In-of-append}
use luatest.Grid.{Pos}
use luatest.Mmo.{column, columns, from}

pub In-from : (n : ℕ) (w v : ℤ) → leb_ℤ w v ≡ true → ltb_ℤ v (w +ℤ pos n) ≡ true → In v (from n w)
unfolding from
In-from zero w v h k = absurd (ground (arith, h, k))
In-from (suc n) w v h k = elim (Bool-cases (eqb_ℤ v w)) [
  | inl e ↦ inl (eqb_ℤ-eq v w e)
  | inr e ↦ inr (In-from n (w +ℤ pos 1) v (ground (arith, h, e)) (ground (arith, k)))
]

pub In-of-from :
    (n : ℕ) (w v : ℤ) → In v (from n w) → (leb_ℤ w v ≡ true) × (ltb_ℤ v (w +ℤ pos n) ≡ true)
unfolding from
In-of-from zero w v m = absurd m
In-of-from (suc n) w v (inl e) = (ground (arith, e), ground (arith, e))
In-of-from (suc n) w v (inr m) =
    let (h, k) = In-of-from n (w +ℤ pos 1) v m in (ground (arith, h), ground (arith, k))

length-column : (x : ℤ) (ys : List ℤ) → length (column x ys) ≡ length ys
unfolding column
length-column x [] = refl
length-column x (y ∷ ys) = ap suc (length-column x ys)

pub length-columns : (xs ys : List ℤ) → length (columns xs ys) ≡ length xs * length ys
unfolding columns
length-columns [] ys = omega arith
length-columns (x ∷ xs) ys =
    omega
      (arith, length-append (column x ys) (columns xs ys), length-column x ys, length-columns xs ys)

In-column : (x : ℤ) (ys : List ℤ) (p : Pos) → p.x ≡ x → In p.y ys → In p (column x ys)
unfolding column
In-column x [] p e m = absurd m
In-column x (y ∷ ys) p e (inl f) = inl (cc (e, f))
In-column x (y ∷ ys) p e (inr m) = inr (In-column x ys p e m)

pub In-columns : (xs ys : List ℤ) (p : Pos) → In p.x xs → In p.y ys → In p (columns xs ys)
unfolding columns
In-columns [] ys p m n = absurd m
In-columns (x ∷ xs) ys p (inl e) n =
    In-append_left p (column x ys) (columns xs ys) (In-column x ys p e n)
In-columns (x ∷ xs) ys p (inr m) n =
    In-append_right p (column x ys) (columns xs ys) (In-columns xs ys p m n)

In-of-column : (x : ℤ) (ys : List ℤ) (p : Pos) → In p (column x ys) → (p.x ≡ x) × In p.y ys
unfolding column
In-of-column x [] p m = absurd m
In-of-column x (y ∷ ys) p (inl e) = (ap Pos.x e, inl (ap Pos.y e))
In-of-column x (y ∷ ys) p (inr m) = let (e, k) = In-of-column x ys p m in (e, inr k)

pub In-of-columns : (xs ys : List ℤ) (p : Pos) → In p (columns xs ys) → In p.x xs × In p.y ys
unfolding columns
In-of-columns [] ys p m = absurd m
In-of-columns (x ∷ xs) ys p m = elim (In-of-append p (column x ys) (columns xs ys) m) [
  | inl k ↦ let (e, n) = In-of-column x ys p k in (inl e, n)
  | inr k ↦ let (h, n) = In-of-columns xs ys p k in (inr h, n)
]
