-- ===== src/Trie/Listed.antt =====
-- A library that keeps its entries in a list, for the tests of the tries.
use luatest.Prelude.{
  ◌≡◌, ◌≢◌, ◌∙◌, sym, ap, refl, inl, inr, ◌↔◌, ℕ, List, [], ◌∷◌, Option, none, some, Bool, true,
  false, not, length, arith, Bool-cases, if◌then◌else◌,
}
use luatest.Prelude.Int.{ℤ}
use luatest.Std.Order.{string_order}
use luatest.Std.Map
use luatest.Std.Set.{In}
use luatest.Trie.{Entry, starts_with, Library, IsLibrary}

abbrev eq : List ℕ → List ℕ → Bool
eq k x = Map.same string_order k x

-- The entries whose keys pass a test.
unfoldable pub keep : (List ℕ → Bool) → List Entry → List Entry
keep p [] = []
keep p (e ∷ es) = let rest = keep p es in if p e.0 then e ∷ rest else rest

-- The first entry of a key is the one that counts.
unfoldable pub look : List ℕ → List Entry → Option ℤ
look k [] = none
look k (e ∷ es) = let rest = look k es in if eq k e.0 then some e.1 else rest

unfoldable pub visible : List Entry → List Entry
unfolding keep
visible [] = []
visible (e ∷ es) = e ∷ keep (λ x. not (eq x e.0)) (visible es)

unfoldable pub listed : Library
unfolding look keep visible
listed = record {
  Trie = List Entry;
  new = [];
  find = look;
  assign = λ k v es. (k, v) ∷ es;
  erase = λ k es. keep (λ x. not (eq x k)) es;
  erase_prefix = λ p es. keep (λ x. not (starts_with p x)) es;
  size = λ es. length (visible es);
  entries = visible;
  prefix_range = λ p es. keep (starts_with p) (visible es);
}

look-keep :
    (p : List ℕ → Bool) (k : List ℕ) (es : List Entry)
    → look k (keep p es) ≡ (if p k then look k es else none)
unfolding look keep
look-keep p k [] = ground arith
look-keep p k (e ∷ es) = elim (Bool-cases (p e.0)) [
  | inl h ↦ elim (Bool-cases (eq k e.0)) [
    | inl same ↦ rw (h, same, ap p (Map.same-eq string_order k e.0 same), h) refl
    | inr other ↦ rw (h, other) (look-keep p k es)
  ]
  | inr h ↦ elim (Bool-cases (eq k e.0)) [
    | inl same ↦
        let out : p k ≡ false = ap p (Map.same-eq string_order k e.0 same) ∙ h in
        rw (h, same, out) (look-keep p k es ∙ ap (λ b. if b then look k es else none) out)
    | inr other ↦ rw (h, other) (look-keep p k es)
  ]
]

In-keep :
    (p : List ℕ → Bool) (e : Entry) (es : List Entry)
    → In e (keep p es) ↔ (In e es × (p e.0 ≡ true))
unfolding keep
In-keep p e [] = (λ m. absurd m, λ m. m.0)
In-keep p e (f ∷ es) = elim (Bool-cases (p f.0)) [
  | inl h ↦ rw h (
    λ m. elim m [
      | inl g ↦ (inl g, ap (λ (y : Entry). p y.0) g ∙ h)
      | inr n ↦ let (a, b) = (In-keep p e es).0 n in (inr a, b)
    ],
    λ m. elim (m.0) [ inl g ↦ inl g | inr n ↦ inr ((In-keep p e es).1 (n, m.1)) ],
  )
  | inr h ↦ rw h (
    λ m. let (a, b) = (In-keep p e es).0 m in (inr a, b),
    λ m. elim (m.0) [
      | inl g ↦ absurd (cc (h, m.1, ap (λ (y : Entry). p y.0) g))
      | inr n ↦ (In-keep p e es).1 (n, m.1)
    ],
  )
]

eq-ne : (k x : List ℕ) → eq k x ≡ false → k ≢ x
eq-ne k x h e = cc (h, e, Map.same_refl string_order k)

value_of : (v w : ℤ) → some v ≡ some w → v ≡ w
value_of v w e = cc e

In-visible : (k : List ℕ) (v : ℤ) (es : List Entry) → In (k, v) (visible es) ↔ (look k es ≡ some v)
unfolding visible look
In-visible k v [] = (λ m. absurd m, λ e. cc e)
In-visible k v (e ∷ es) = elim (Bool-cases (eq k e.0)) [
  | inl h ↦
      let same : k ≡ e.0 = Map.same-eq string_order k e.0 h in
      rw h (
        λ m. elim m [
          | inl g ↦ ap (λ (y : Entry). some y.1) (sym g)
          | inr n ↦ absurd (cc (h, ((In-keep (λ x. not (eq x e.0)) (k, v) (visible es)).0 n).1))
        ],
        λ f. inl (λ i. (same i, value_of v e.1 (sym f) i)),
      )
  | inr h ↦ rw h (
    λ m. elim m [
      | inl g ↦ absurd (eq-ne k e.0 h (ap (λ (y : Entry). y.0) g))
      | inr n ↦ (In-visible k v es).0 ((In-keep (λ x. not (eq x e.0)) (k, v) (visible es)).0 n).0
    ],
    λ f.
        inr (
          (In-keep (λ x. not (eq x e.0)) (k, v) (visible es)).1
            ((In-visible k v es).1 f, ap not h)),
  )
]

look-assign_self : (k : List ℕ) (v : ℤ) (es : List Entry) → look k ((k, v) ∷ es) ≡ some v
unfolding look
look-assign_self k v es = rw (Map.same_refl string_order k) refl

look-assign_other :
    (k x : List ℕ) (v : ℤ) (es : List Entry) → x ≢ k → look x ((k, v) ∷ es) ≡ look x es
unfolding look
look-assign_other k x v es d = rw (Map.same-ne string_order x k d) refl

look-erase_self : (k : List ℕ) (es : List Entry) → look k (keep (λ x. not (eq x k)) es) ≡ none
look-erase_self k es =
    look-keep (λ x. not (eq x k)) k es
    ∙ ap (λ b. if not b then look k es else none) (Map.same_refl string_order k)

look-erase_other :
    (k x : List ℕ) (es : List Entry) → x ≢ k → look x (keep (λ y. not (eq y k)) es) ≡ look x es
look-erase_other k x es d =
    look-keep (λ y. not (eq y k)) x es
    ∙ ap (λ b. if not b then look x es else none) (Map.same-ne string_order x k d)

if_not : (b : Bool) (o : Option ℤ) → (if not b then o else none) ≡ (if b then none else o)
if_not b o = ground arith

pub listed-IsLibrary : {IsTaken : List ℕ → Type 0} → IsLibrary IsTaken listed
unfolding listed
listed-IsLibrary = record {
  find-new = λ k. refl;
  assign_self = λ k v es y. look-assign_self k v es;
  assign_other = λ k x v es y. look-assign_other k x v es;
  erase_self = look-erase_self;
  erase_other = look-erase_other;
  find-erase_prefix =
      λ p k es. look-keep (λ x. not (starts_with p x)) k es ∙ if_not (starts_with p k) (look k es);
  In-entries = In-visible;
  In-prefix_range = λ p k v es. (
    λ m.
        let (n, h) = (In-keep (starts_with p) (k, v) (visible es)).0 m in
        ((In-visible k v es).0 n, h),
    λ m. (In-keep (starts_with p) (k, v) (visible es)).1 ((In-visible k v es).1 m.0, m.1),
  );
}
