-- ===== src/Std/Set.antt =====
-- std::set: the elements in ascending order of their keys, none twice. An iterator to an element
-- is the element itself, since an element neither moves nor changes while it is in the set.
use mathlib.Core.Path.{subst}
use luatest.Prelude.{
  ◌≤◌, suc, length, ◌++◌, ◌∙◌, if_cases, if_both, ◌≡◌, refl, sym, ap, ◌≢◌, ◌⊎◌, inl, inr, List, [],
  ◌∷◌, Bool, true, false, Option, none, some, arith, All, if◌then◌else◌, Bool-cases,
}
use luatest.Std.Order.{LinearOrder, asymm}

-- Membership, with the place kept.
abbrev pub In : {A : Type 0} → A → List A → Type 0
In x [] = ⊥
In x (y ∷ ys) = (x ≡ y) ⊎ In x ys

pub All-In : {A : Type 0} (P : A → Type 0) (xs : List A) → All P xs → (z : A) → In z xs → P z
All-In P [] h z m = absurd m
All-In P (x ∷ xs) h z (inl e) = subst P (sym e) h.0
All-In P (x ∷ xs) h z (inr m) = All-In P xs h.1 z m

pub In-All : {A : Type 0} (P : A → Type 0) (xs : List A) → ((z : A) → In z xs → P z) → All P xs
In-All P [] h = tt
In-All P (x ∷ xs) h = (h x (inl refl), In-All P xs (λ z m. h z (inr m)))

pub In-append_left : {A : Type 0} (z : A) (xs ys : List A) → In z xs → In z (xs ++ ys)
In-append_left z [] ys m = absurd m
In-append_left z (x ∷ xs) ys (inl e) = inl e
In-append_left z (x ∷ xs) ys (inr m) = inr (In-append_left z xs ys m)

pub In-append_right : {A : Type 0} (z : A) (xs ys : List A) → In z ys → In z (xs ++ ys)
In-append_right z [] ys m = m
In-append_right z (x ∷ xs) ys m = inr (In-append_right z xs ys m)

pub In-of-append : {A : Type 0} (z : A) (xs ys : List A) → In z (xs ++ ys) → In z xs ⊎ In z ys
In-of-append z [] ys m = inr m
In-of-append z (x ∷ xs) ys (inl e) = inl (inl e)
In-of-append z (x ∷ xs) ys (inr m) = elim (In-of-append z xs ys m) [
  | inl n ↦ inl (inr n)
  | inr n ↦ inr n
]

module _ {A K : Type 0} (o : LinearOrder K) (key : A → K) where
  abbrev pub lt : A → A → Bool
  lt a b = o.lt (key a) (key b)

  abbrev pub Above : A → A → Type 0
  Above a b = lt a b ≡ true

  abbrev pub Sorted : List A → Type 0
  Sorted [] = Unit
  Sorted (x ∷ xs) = All (Above x) xs × Sorted xs

  unfoldable pub find : A → List A → Option A
  find x [] = none
  find x (y ∷ ys) = if lt x y then none else if lt y x then find x ys else some y

  -- An element with the same key stays, and the new one is dropped.
  unfoldable pub insert : A → List A → List A
  insert x [] = x ∷ []
  insert x (y ∷ ys) = if lt x y then x ∷ y ∷ ys else if lt y x then y ∷ insert x ys else y ∷ ys

  unfoldable pub erase : A → List A → List A
  erase x [] = []
  erase x (y ∷ ys) = if lt x y then y ∷ ys else if lt y x then y ∷ erase x ys else ys

  All-Above : (x y : A) (ys : List A) → lt x y ≡ true → All (Above y) ys → All (Above x) ys
  All-Above x y [] h t = tt
  All-Above x y (z ∷ zs) h t = (o.trans (key x) (key y) (key z) h t.0, All-Above x y zs h t.1)

  -- Of a key above all others, no element of the set has it.
  pub In-ne : (x z : A) (ys : List A) → All (Above x) ys → In z ys → key z ≢ key x
  In-ne x z ys h m e = cc (All-In (Above x) ys h z m, o.irrefl (key x), ap (o.lt (key x)) e)

  pub ne_of_lt : (x y : A) → lt x y ≡ true → key x ≢ key y
  ne_of_lt x y h e = cc (h, o.irrefl (key y), ap (λ (k : K). o.lt k (key y)) e)

  pub key-eq : (x y : A) → lt x y ≡ false → lt y x ≡ false → key x ≡ key y
  key-eq x y h k = o.connected (key x) (key y) h k

  pub In-insert_self :
      (x : A) (ys : List A) → ((z : A) → In z ys → key z ≢ key x) → In x (insert x ys)
  unfolding insert
  In-insert_self x [] h = inl refl
  In-insert_self x (y ∷ ys) h =
      ground (arith, h y (inl refl), key-eq y x, In-insert_self x ys (λ z m. h z (inr m)))

  pub In-insert_old : (x z : A) (ys : List A) → In z ys → In z (insert x ys)
  unfolding insert
  In-insert_old x z [] m = absurd m
  In-insert_old x z (y ∷ ys) m = ground (arith, In-insert_old x z ys)

  pub In-of-insert : (x z : A) (ys : List A) → In z (insert x ys) → (z ≡ x) ⊎ In z ys
  unfolding insert
  In-of-insert x z [] m = m
  In-of-insert x z (y ∷ ys) m = ground (arith, In-of-insert x z ys)

  insert-All : (P : A → Type 0) (x : A) (ys : List A) → P x → All P ys → All P (insert x ys)
  insert-All P x ys px h = In-All P (insert x ys) λ z m. elim (In-of-insert x z ys m) [
    | inl e ↦ subst P (sym e) px
    | inr old ↦ All-In P ys h z old
  ]

  pub insert-Sorted : (x : A) (ys : List A) → Sorted ys → Sorted (insert x ys)
  unfolding insert
  insert-Sorted x [] s = (tt, tt)
  insert-Sorted x (y ∷ ys) s =
      if_cases Sorted (lt x y) _ _ (λ h. ((h, All-Above x y ys h s.0), s))
        λ _.
          if_cases Sorted (lt y x) _ _
            (λ h. (insert-All (Above y) x ys h s.0, insert-Sorted x ys s.1)) (λ _. s)

  pub In-of-erase : (x z : A) (ys : List A) → In z (erase x ys) → In z ys
  unfolding erase
  In-of-erase x z [] m = m
  In-of-erase x z (y ∷ ys) m = ground (arith, In-of-erase x z ys)

  pub In-erase : (x z : A) (ys : List A) → In z ys → key z ≢ key x → In z (erase x ys)
  unfolding erase
  In-erase x z [] m d = m
  In-erase x z (y ∷ ys) m d = ground (arith, In-erase x z ys, key-eq x y)

  -- Nothing with the key of the erased element is left.
  pub erase-ne : (x z : A) (ys : List A) → Sorted ys → In z (erase x ys) → key z ≢ key x
  unfolding erase
  erase-ne x z [] s = λ m. absurd m
  erase-ne x z (y ∷ ys) s =
      if_cases P (lt x y) _ _ (λ h m e. In-ne x z (y ∷ ys) (h, All-Above x y ys h s.0) m e)
        λ h.
          if_cases P (lt y x) _ _
            (λ k m. elim m [
              | inl e ↦ λ f. ne_of_lt y x k (ap key (sym e) ∙ f)
              | inr old ↦ erase-ne x z ys s.1 old
            ])
            (λ k m e. In-ne y z ys s.0 m (e ∙ key-eq x y h k))
    where
      P : List A → Type 0
      P l = In z l → key z ≢ key x

  pub erase-Sorted : (x : A) (ys : List A) → Sorted ys → Sorted (erase x ys)
  unfolding erase
  erase-Sorted x [] s = tt
  erase-Sorted x (y ∷ ys) s = if_both Sorted (lt x y) s (
      if_both Sorted (lt y x)
        (
          In-All (Above y) (erase x ys) (λ z m. All-In (Above y) ys s.0 z (In-of-erase x z ys m)),
          erase-Sorted x ys s.1,
        )
        s.1)

  pub length-insert : (x : A) (ys : List A) → length (insert x ys) ≤ suc (length ys)
  unfolding insert
  length-insert x [] = omega arith
  length-insert x (y ∷ ys) = ground (arith, length-insert x ys)

  pub length-erase : (x : A) (ys : List A) → length (erase x ys) ≤ length ys
  unfolding erase
  length-erase x [] = omega arith
  length-erase x (y ∷ ys) = ground (arith, length-erase x ys)

  -- `find` returns the element of the key, if there is one.
  pub find-some : (x y : A) (ys : List A) → find x ys ≡ some y → In y ys × (key y ≡ key x)
  unfolding find
  find-some x y [] e = cc
  find-some x y (z ∷ ys) e = ground (arith, find-some x y ys, key-eq z x)

  pub find-none : (x z : A) (ys : List A) → Sorted ys → find x ys ≡ none → In z ys → key z ≢ key x
  unfolding find
  find-none x z [] s e m = absurd m
  find-none x z (y ∷ ys) s e m = elim (Bool-cases (lt x y)) [
    | inl h ↦ In-ne x z (y ∷ ys) (h, All-Above x y ys h s.0) m
    | inr h ↦ elim (Bool-cases (lt y x)) [
      | inl k ↦ elim m [
        | inl f ↦ λ g. ne_of_lt y x k (ap key (sym f) ∙ g)
        | inr old ↦ find-none x z ys s.1 (rw (h, k) at e) old
      ]
      | inr k ↦ cc (rw (h, k) at e)
    ]
  ]

  -- A key stands for at most one element.
  pub In-unique : (a b : A) (ys : List A) → Sorted ys → In a ys → In b ys → key a ≡ key b → a ≡ b
  In-unique a b [] s m n e = absurd m
  In-unique a b (y ∷ ys) s (inl f) (inl g) e = f ∙ sym g
  In-unique a b (y ∷ ys) s (inl f) (inr n) e = absurd (In-ne y b ys s.0 n (sym e ∙ ap key f))
  In-unique a b (y ∷ ys) s (inr m) (inl g) e = absurd (In-ne y a ys s.0 m (e ∙ ap key g))
  In-unique a b (y ∷ ys) s (inr m) (inr n) e = In-unique a b ys s.1 m n e

  pub erase_head : (x : A) (ys : List A) → erase x (x ∷ ys) ≡ ys
  unfolding erase
  erase_head x ys = rw (o.irrefl (key x))

  erase_later : (w x : A) (ys : List A) → lt w x ≡ true → erase x (w ∷ ys) ≡ w ∷ erase x ys
  unfolding erase
  erase_later w x ys h = rw (asymm o (key w) (key x) h, h)

  pub erase_middle :
      (xs : List A) (x : A) (ys : List A)
      → Sorted (xs ++ x ∷ ys)
      → erase x (xs ++ x ∷ ys) ≡ xs ++ ys
  erase_middle [] x ys s = erase_head x ys
  erase_middle (w ∷ xs) x ys s =
      erase_later w x (xs ++ x ∷ ys)
        (All-In (Above w) (xs ++ x ∷ ys) s.0 x (In-append_right x xs (x ∷ ys) (inl refl)))
      ∙ ap (◌∷◌ w) (erase_middle xs x ys s.1)

  pub Sorted-of-append_right : (xs ys : List A) → Sorted (xs ++ ys) → Sorted ys
  Sorted-of-append_right [] ys s = s
  Sorted-of-append_right (x ∷ xs) ys s = Sorted-of-append_right xs ys s.1
