-- ===== src/Std/Order.antt =====
-- Strict orders as the comparison functions of the source: `<` on int64_t and on std::string, and
-- the comparison of several fields one after the other.
use luatest.Prelude.{
  ℕ, ◌≡◌, refl, List, [], ◌∷◌, Bool, true, false, arith, ltb, if◌then◌else◌, Bool-cases, inl, inr,
}
use luatest.Prelude.Int.{ℤ, ltb_ℤ, ltb_ℤ-antisymm}

-- A comparison function with the laws of a strict linear order.
pub record LinearOrder (K : Type 0) : Type 0 where
  pub lt : K → K → Bool
  pub irrefl : (a : K) → lt a a ≡ false
  pub trans : (a b c : K) → lt a b ≡ true → lt b c ≡ true → lt a c ≡ true
  pub connected : (a b : K) → lt a b ≡ false → lt b a ≡ false → a ≡ b

module _ {K : Type 0} (o : LinearOrder K) where
  pub asymm : (a b : K) → o.lt a b ≡ true → o.lt b a ≡ false
  asymm a b h = elim (Bool-cases (o.lt b a)) [
    | inl back ↦ absurd (cc (o.trans a b a h back, o.irrefl a))
    | inr e ↦ e
  ]

pub ltb_ℤ-trans : (a b c : ℤ) → ltb_ℤ a b ≡ true → ltb_ℤ b c ≡ true → ltb_ℤ a c ≡ true
ltb_ℤ-trans a b c h k = ground arith

pub ltb_ℤ-irrefl : (a : ℤ) → ltb_ℤ a a ≡ false
ltb_ℤ-irrefl a = ground arith

abbrev pub int_order : LinearOrder ℤ
int_order = record {
  lt = ltb_ℤ;
  irrefl = ltb_ℤ-irrefl;
  trans = ltb_ℤ-trans;
  connected = ltb_ℤ-antisymm;
}

-- `<` on std::string compares the bytes from the front.
unfoldable pub lt_string : List ℕ → List ℕ → Bool
lt_string [] [] = false
lt_string [] (b ∷ bs) = true
lt_string (a ∷ as') [] = false
lt_string (a ∷ as') (b ∷ bs) = if ltb a b then true else if ltb b a then false else lt_string as' bs

pub lt_string_irrefl : (s : List ℕ) → lt_string s s ≡ false
unfolding lt_string
lt_string_irrefl [] = refl
lt_string_irrefl (a ∷ s) = ground (arith, lt_string_irrefl s)

pub lt_string_trans :
    (s t u : List ℕ) → lt_string s t ≡ true → lt_string t u ≡ true → lt_string s u ≡ true
unfolding lt_string
lt_string_trans [] [] u h k = k
lt_string_trans [] (b ∷ t) [] h k = k
lt_string_trans [] (b ∷ t) (c ∷ u) h k = refl
lt_string_trans (a ∷ s) [] u h k = cc
lt_string_trans (a ∷ s) (b ∷ t) [] h k = cc
lt_string_trans (a ∷ s) (b ∷ t) (c ∷ u) h k = ground (arith, lt_string_trans s t u)

pub lt_string-connected : (s t : List ℕ) → lt_string s t ≡ false → lt_string t s ≡ false → s ≡ t
unfolding lt_string
lt_string-connected [] [] h k = refl
lt_string-connected [] (b ∷ t) h k = cc
lt_string-connected (a ∷ s) [] h k = cc
lt_string-connected (a ∷ s) (b ∷ t) h k = ground (arith, lt_string-connected s t)

abbrev pub string_order : LinearOrder (List ℕ)
string_order = record {
  lt = lt_string;
  irrefl = lt_string_irrefl;
  trans = lt_string_trans;
  connected = lt_string-connected;
}

-- The opposite order, for `return a > b`.
abbrev pub opposite : {K : Type 0} → LinearOrder K → LinearOrder K
opposite o = record {
  lt = λ a b. o.lt b a;
  irrefl = o.irrefl;
  trans = λ a b c h k. o.trans c b a k h;
  connected = λ a b h k. o.connected a b k h;
}

-- `if (a.x != b.x) return a.x < b.x; return a.y < b.y;`
module _ {K L : Type 0} (p : LinearOrder K) (q : LinearOrder L) where
  abbrev pub lt_fields : K × L → K × L → Bool
  lt_fields a b = if p.lt a.0 b.0 then true else if p.lt b.0 a.0 then false else q.lt a.1 b.1

  pub lt_fields_irrefl : (a : K × L) → lt_fields a a ≡ false
  lt_fields_irrefl a = rw (p.irrefl a.0, q.irrefl a.1)

  pub lt_fields_trans :
      (a b c : K × L) → lt_fields a b ≡ true → lt_fields b c ≡ true → lt_fields a c ≡ true
  lt_fields_trans a b c h k = ground (
    arith,
    p.trans a.0 b.0 c.0,
    p.trans b.0 c.0 a.0,
    p.trans c.0 a.0 b.0,
    p.connected a.0 b.0,
    p.connected b.0 c.0,
    q.trans a.1 b.1 c.1,
  )

  pub lt_fields-connected : (a b : K × L) → lt_fields a b ≡ false → lt_fields b a ≡ false → a ≡ b
  lt_fields-connected a b h k = ground (arith, p.connected a.0 b.0, q.connected a.1 b.1)

  abbrev pub fields_order : LinearOrder (K × L)
  fields_order = record {
    lt = lt_fields;
    irrefl = lt_fields_irrefl;
    trans = lt_fields_trans;
    connected = lt_fields-connected;
  }
