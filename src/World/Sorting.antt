-- ===== src/World/Sorting.antt =====
-- An `nth_element` on whole numbers, which sorts the list, for the tests of mmoccskill.
use luatest.Prelude.{
  ◌≡◌, ◌∙◌, ap, refl, inl, inr, ℕ, zero, suc, List, [], ◌∷◌, true, false, Bool-cases, length, arith,
  if◌then◌else◌,
}
use luatest.Prelude.Int.{ℤ, ltb_ℤ}
use mathlib.Core.List.{Perm}
use mathlib.Core.List.Perm
use luatest.Mmo.Search.{take}
use luatest.Mmo.Tests.{whole}
use luatest.World.Search.{Dis}
use luatest.World.Nearest.{drop, NoneBelow, NoneNearer, KeepsParts}

unfoldable pub near_insert : Dis ℤ → List (Dis ℤ) → List (Dis ℤ)
near_insert u [] = u ∷ []
near_insert u (v ∷ vs) =
    let rest = near_insert u vs in if ltb_ℤ v.dis u.dis then v ∷ rest else u ∷ v ∷ vs

unfoldable pub near_sort : List (Dis ℤ) → List (Dis ℤ)
near_sort [] = []
near_sort (u ∷ us) = near_insert u (near_sort us)

unfoldable pub nth_sorted : ℕ → List (Dis ℤ) → List (Dis ℤ)
unfolding near_sort
nth_sorted n us = near_sort us

near_insert-perm : (u : Dis ℤ) (vs : List (Dis ℤ)) → Perm (near_insert u vs) (u ∷ vs)
unfolding near_insert
near_insert-perm u [] = Perm.refl (u ∷ [])
near_insert-perm u (v ∷ vs) = elim (Bool-cases (ltb_ℤ v.dis u.dis)) [
  | inl less ↦ rw less (Perm.trans (Perm.cons v (near_insert-perm u vs)) (Perm.swap u v vs))
  | inr more ↦ rw more (Perm.refl (u ∷ v ∷ vs))
]

length-near_insert : (u : Dis ℤ) (vs : List (Dis ℤ)) → length (near_insert u vs) ≡ suc (length vs)
unfolding near_insert
length-near_insert u [] = refl
length-near_insert u (v ∷ vs) = ground (arith, length-near_insert u vs)

near_sort-perm : (us : List (Dis ℤ)) → Perm (near_sort us) us
unfolding near_sort
near_sort-perm [] = Perm.nil
near_sort-perm (u ∷ us) =
    Perm.trans (near_insert-perm u (near_sort us)) (Perm.cons u (near_sort-perm us))

length-near_sort : (us : List (Dis ℤ)) → length (near_sort us) ≡ length us
unfolding near_sort
length-near_sort [] = refl
length-near_sort (u ∷ us) = length-near_insert u (near_sort us) ∙ ap suc (length-near_sort us)

abbrev Below : Dis ℤ → List (Dis ℤ) → Type 0
Below u vs = NoneBelow whole u vs

Ordered : List (Dis ℤ) → Type 0
Ordered [] = Unit
Ordered (u ∷ us) = Below u us × Ordered us

Below-insert :
    (u x : Dis ℤ) (vs : List (Dis ℤ))
    → ltb_ℤ x.dis u.dis ≡ false
    → Below u vs
    → Below u (near_insert x vs)
unfolding near_insert NoneBelow
Below-insert u x [] h b = (h, tt)
Below-insert u x (v ∷ vs) h (low, b) = elim (Bool-cases (ltb_ℤ v.dis x.dis)) [
  | inl less ↦ rw less (low, Below-insert u x vs h b)
  | inr more ↦ rw more (h, (low, b))
]

ltb_trans : (a b c : ℤ) → ltb_ℤ b a ≡ false → ltb_ℤ c b ≡ false → ltb_ℤ c a ≡ false
ltb_trans a b c h k = ground (arith, h, k)

ltb_asymm : (a b : ℤ) → ltb_ℤ a b ≡ true → ltb_ℤ b a ≡ false
ltb_asymm a b h = ground (arith, h)

Below-trans :
    (u v : Dis ℤ) (vs : List (Dis ℤ)) → ltb_ℤ v.dis u.dis ≡ false → Below v vs → Below u vs
unfolding NoneBelow
Below-trans u v [] h b = tt
Below-trans u v (w ∷ vs) h (low, b) = (ltb_trans u.dis v.dis w.dis h low, Below-trans u v vs h b)

insert-Ordered : (x : Dis ℤ) (vs : List (Dis ℤ)) → Ordered vs → Ordered (near_insert x vs)
unfolding near_insert Ordered NoneBelow
insert-Ordered x [] o = (tt, tt)
insert-Ordered x (v ∷ vs) (b, o) = elim (Bool-cases (ltb_ℤ v.dis x.dis)) [
  | inl less ↦ rw less (Below-insert v x vs (ltb_asymm v.dis x.dis less) b, insert-Ordered x vs o)
  | inr more ↦ rw more ((more, Below-trans x v vs more b), (b, o))
]

sort-Ordered : (us : List (Dis ℤ)) → Ordered (near_sort us)
unfolding near_sort Ordered
sort-Ordered [] = tt
sort-Ordered (u ∷ us) = insert-Ordered u (near_sort us) (sort-Ordered us)

Below-drop : (n : ℕ) (u : Dis ℤ) (vs : List (Dis ℤ)) → Below u vs → Below u (drop n vs)
unfolding drop NoneBelow
Below-drop zero u vs b = b
Below-drop (suc n) u [] b = b
Below-drop (suc n) u (v ∷ vs) b = Below-drop n u vs b.1

Ordered-parted : (n : ℕ) (us : List (Dis ℤ)) → Ordered us → NoneNearer whole (take n us) (drop n us)
unfolding take drop Ordered NoneNearer
Ordered-parted zero us o = tt
Ordered-parted (suc n) [] o = tt
Ordered-parted (suc n) (u ∷ us) (b, o) = (Below-drop n u us b, Ordered-parted n us o)

pub nth_sorted_parts : KeepsParts whole nth_sorted
unfolding nth_sorted
nth_sorted_parts n us h = record {
  same_length = length-near_sort us;
  same = near_sort-perm us;
  parted = Ordered-parted (suc n) (near_sort us) (sort-Ordered us);
}
