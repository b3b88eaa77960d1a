-- ===== src/Msgpack/RoundTrip/Depth.antt =====
-- msgpack/cc/lmsgpack.cc: the limit of `encode_table` on nested tables.
use Prim.Native.Nat.{max}
use mathlib.Core.Path.{subst}
use luatest.Prelude.{
  ℕ, suc, ◌+◌, ◌%◌, ◌^◌, ◌≤◌, ◌≡◌, ◌∙◌, refl, inl, inr, true, false, arith, ltb, if◌then◌else◌,
  Bool-cases, List,
}
use luatest.Msgpack.Pack.{Pack, pack_nil, pack_boolean, pack_integer, pack_double, pack_string}
use luatest.Msgpack.Floats.{Floats}
use luatest.Msgpack.Encode.{
  Value, Entries, Encoder, Result, ok, raise, ◌>>=◌, is_array, pack_head, table_len, enter, leave,
  put, encode_call, fresh, finish, encode, encode_entries,
}
use luatest.Msgpack.RoundTrip.View.{height, height_items, height_pairs}

-- The encoder goes on only where `n` more levels stay within ten.
abbrev Within : ℕ → Encoder → Result Encoder → Type 0
Within n s (ok t) = (s.dep ≤ 10 → n + s.dep ≤ 10) × (t.dep ≡ s.dep)
Within n s (raise e) = Unit

bind-Within :
    (n k : ℕ) (s : Encoder) (m : Result Encoder) (f : Encoder → Result Encoder)
    → Within n s m
    → ((t : Encoder) → Within k t (f t))
    → Within (max n k) s (m >>= f)
bind-Within n k s (raise e) f w g = tt
bind-Within n k s (ok t) f w g = go (f t) (g t)
  where
    go : (r : Result Encoder) → Within k t r → Within (max n k) s r
    go (raise e) q = tt
    go (ok u) q = (λ d. deep d, q.1 ∙ w.1)
      where
        deep : s.dep ≤ 10 → max n k + s.dep ≤ 10
        deep d =
            let one = w.0 d in
            let two : k + t.dep ≤ 10 = q.0 (omega (arith, w.1)) in omega (arith, one, two, w.1)

not_over : (d : ℕ) → ltb 10 (d + 1) ≡ false → d + 1 ≤ 10
not_over d h = ground arith

table-Within :
    (fl : Floats) (rawlen : ℕ) (es : Entries) (s : Encoder) (n : ℕ)
    → ((t : Encoder) → Within n t (encode_entries fl (is_array rawlen es) es t))
    → Within (suc n) s (encode fl (Value.table rawlen es) s)
unfolding encode enter
table-Within fl rawlen es s n h = elim (Bool-cases (ltb 10 (s.dep + 1))) [
  | inl e ↦ rw e tt
  | inr e ↦
      rw e (go (not_over s.dep e) (encode_entries fl (is_array rawlen es) es inside) (h inside))
]
  where
    inside : Encoder
    inside = record {
      pack = pack_head (is_array rawlen es) (table_len es % 2 ^ 32) s.pack;
      dep = s.dep + 1;
    }

    go :
        s.dep + 1 ≤ 10
        → (r : Result Encoder) → Within n inside r
        → Within (suc n) s (r >>= λ t. ok (leave t))
    go shallow (ok t) w = (λ d. omega (arith, w.0 shallow), unfold leave in omega (arith, w.1))
    go shallow (raise e) w = tt

put-Within : (s : Encoder) (f : Pack → Pack) → Within 0 s (put f s)
put-Within s f = (λ d. omega arith, refl)

array_height :
    (rawlen : ℕ) (es : Entries)
    → is_array rawlen es ≡ true
    → height_items es ≡ (if is_array rawlen es then height_items es else height_pairs es)
array_height rawlen es a = rw a

object_height :
    (rawlen : ℕ) (es : Entries)
    → is_array rawlen es ≡ false
    → height_pairs es ≡ (if is_array rawlen es then height_items es else height_pairs es)
object_height rawlen es a = rw a

max_assoc : (a b c : ℕ) → max a (max b c) ≡ max (max a b) c
max_assoc a b c = omega arith

mutual
  unfolding encode height

  encode-Within : (v : Value) (fl : Floats) (s : Encoder) → Within (height v) s (encode fl v s)
  encode-Within Value.nil fl s = put-Within s pack_nil
  encode-Within (Value.boolean b) fl s = put-Within s (pack_boolean b)
  encode-Within (Value.integer v) fl s = put-Within s (pack_integer v)
  encode-Within (Value.number d) fl s = put-Within s (pack_double fl d)
  encode-Within (Value.string p) fl s = put-Within s (pack_string p)
  encode-Within (Value.table rawlen es) fl s = elim (Bool-cases (is_array rawlen es)) [
    | inl a ↦
        subst (λ n. Within (suc n) s (encode fl (Value.table rawlen es) s))
          (array_height rawlen es a)
          (table-Within fl rawlen es s (height_items es) (λ t. rw a (items-Within es fl t)))
    | inr a ↦
        subst (λ n. Within (suc n) s (encode fl (Value.table rawlen es) s))
          (object_height rawlen es a)
          (table-Within fl rawlen es s (height_pairs es) (λ t. rw a (pairs-Within es fl t)))
  ]
  encode-Within (Value.other t) fl s = tt

  items-Within :
      (es : Entries) (fl : Floats) (s : Encoder)
      → Within (height_items es) s (encode_entries fl true es s)
  items-Within Entries.end fl s = (λ d. omega arith, refl)
  items-Within (Entries.entry k v es) fl s =
      bind-Within (height v) (height_items es) s (encode fl v s) _ (encode-Within v fl s)
        (λ t. items-Within es fl t)

  pairs-Within :
      (es : Entries) (fl : Floats) (s : Encoder)
      → Within (height_pairs es) s (encode_entries fl false es s)
  pairs-Within Entries.end fl s = (λ d. omega arith, refl)
  pairs-Within (Entries.entry k v es) fl s =
      subst (λ n. Within n s (encode_entries fl false (Entries.entry k v es) s)) (max_assoc _ _ _)
        (bind-Within (height k) (max (height v) (height_pairs es)) s (encode fl k s) _
          (encode-Within k fl s)
          λ t.
            bind-Within (height v) (height_pairs es) t (encode fl v t) _ (encode-Within v fl t)
              (λ u. pairs-Within es fl u))

-- `encode` succeeds only on values with at most ten levels of tables.
pub encode_call-height :
    (fl : Floats) (cap : ℕ) (v : Value) {bs : List ℕ} → encode_call fl cap v ≡ ok bs → height v ≤ 10
unfolding encode_call
encode_call-height fl cap v {bs} e = go (encode fl v (fresh cap)) (encode-Within v fl (fresh cap)) e
  where
    go :
        (r : Result Encoder)
        → Within (height v) (fresh cap) r
        → (r >>= λ s. finish s) ≡ ok bs
        → height v ≤ 10
    go (ok t) w f = omega (arith, w.0 (omega arith))
    go (raise x) w f = cc
