-- ===== src/Std/Map.antt =====
-- std::unordered_map: a function from the keys, compared through their order.
use luatest.Prelude.{
  ◌≡◌, ◌≢◌, ◌⊎◌, Bool, true, false, Option, none, some, arith, if◌then◌else◌, Bool-cases, inl, inr,
}
use luatest.Std.Order.{LinearOrder}

abbrev pub Map : Type 0 → Type 0 → Type 0
Map K V = K → Option V

abbrev pub no_keys : {K V : Type 0} → Map K V
no_keys k = none

module _ {K : Type 0} (o : LinearOrder K) where
  abbrev pub same : K → K → Bool
  same a b = if o.lt a b then false else if o.lt b a then false else true

  pub same_refl : (a : K) → same a a ≡ true
  same_refl a = rw (o.irrefl a)

  pub same-eq : (a b : K) → same a b ≡ true → a ≡ b
  same-eq a b h = ground (arith, o.connected a b)

  pub same-ne : (a b : K) → a ≢ b → same a b ≡ false
  same-ne a b d = elim (Bool-cases (same a b)) [ inl h ↦ absurd (d (same-eq a b h)) | inr h ↦ h ]

module _ {K V : Type 0} (o : LinearOrder K) where
  unfoldable pub erase : K → Map K V → Map K V
  erase k m x = if same o x k then none else m x

  -- `it[k] = v`
  unfoldable pub assign : K → V → Map K V → Map K V
  assign k v m x = if same o x k then some v else m x

  -- `insert({k, v})` keeps the value of a key that is there.
  unfoldable pub insert : K → V → Map K V → Map K V
  insert k v m = elim (m k) [ none ↦ assign k v m | some w ↦ m ]

  pub erase_self : (k : K) (m : Map K V) → erase k m k ≡ none
  unfolding erase
  erase_self k m = rw (same_refl o k)

  pub erase_other : (k x : K) (m : Map K V) → x ≢ k → erase k m x ≡ m x
  unfolding erase
  erase_other k x m d = rw (same-ne o x k d)

  pub assign_self : (k : K) (v : V) (m : Map K V) → assign k v m k ≡ some v
  unfolding assign
  assign_self k v m = rw (same_refl o k)

  pub assign_other : (k x : K) (v : V) (m : Map K V) → x ≢ k → assign k v m x ≡ m x
  unfolding assign
  assign_other k x v m d = rw (same-ne o x k d)

  pub insert_new : (k : K) (v : V) (m : Map K V) → m k ≡ none → insert k v m ≡ assign k v m
  unfolding insert
  insert_new k v m h = rw (insert, h)

  pub erase-some : (k x : K) (m : Map K V) (v : V) → erase k m x ≡ some v → (x ≢ k) × (m x ≡ some v)
  unfolding erase
  erase-some k x m v e = elim (Bool-cases (same o x k)) [
    | inl h ↦ cc (rw h at e)
    | inr h ↦ (λ f. cc (h, f, same_refl o k), rw h at e)
  ]

  pub assign-some :
      (k x : K) (v w : V) (m : Map K V)
      → assign k v m x ≡ some w
      → ((x ≡ k) × (v ≡ w)) ⊎ ((x ≢ k) × (m x ≡ some w))
  unfolding assign
  assign-some k x v w m e = elim (Bool-cases (same o x k)) [
    | inl h ↦ inl (same-eq o x k h, cc (rw h at e))
    | inr h ↦ inr ((λ f. cc (h, f, same_refl o k)), rw h at e)
  ]
