-- ===== src/Msgpack/RoundTrip/Values.antt =====
-- msgpack/cc/lmsgpack.cc: whole Lua values, through `encode` and back through `decode`.
use luatest.Prelude.{
  ℕ, suc, ◌+◌, ◌%◌, ◌^◌, ◌≤◌, ◌<◌, ◌≡◌, refl, List, Bool, true, false, arith, length, inl, inr,
  Bool-cases,
}
use luatest.Prelude.{ltb}
use luatest.Prelude.Int.{ℤ}
use native.Mathlib.Nat.{mod-eq_of_lt}
use luatest.Msgpack.RoundTrip.Steps.{
  Encodes, EncodesItems, EncodesPairs, atom, nil_items, nil_pairs, cons_items, cons_pairs,
  table_items, table_pairs,
}
use luatest.Msgpack.Floats.{Floats}
use luatest.Msgpack.RoundTrip.View.{
  height, height_items, height_pairs, view, view_items, view_pairs, IsPackable, ItemsPackable,
  PairsPackable,
}
use luatest.Msgpack.Pack.{pack_nil, pack_boolean, pack_integer, pack_double, pack_string}
use luatest.Msgpack.Unpack.{Val, int, dou, str, arr, map}
use luatest.Msgpack.Encode.{
  Value, Entries, Encoder, ok, table_len, enter, leave, is_array, pack_head, encode, encode_entries,
}
use luatest.Msgpack.Decode.{rebuild}
use luatest.Msgpack.RoundTrip.Heads.{Codes}
use luatest.Msgpack.RoundTrip.Numbers.{IsInt64, pack_integer-Codes, pack_double-Codes}
use luatest.Msgpack.RoundTrip.Sizes.{
  pack_nil-Codes, pack_boolean-Codes, pack_string-Codes, pack_arr_head-Codes, pack_map_head-Codes,
}

module _ (fl : Floats) where
  -- The encoder goes on from `s`, and what it wrote decodes to the view of the value.
  abbrev Done : Value → Encoder → Type 0
  Done v s = (t : Encoder) × (encode fl v s ≡ ok t) × Encodes fl s t (view v)

  abbrev ItemsDone : Entries → Encoder → Type 0
  ItemsDone es s =
      (t : Encoder) × (encode_entries fl true es s ≡ ok t)
      × EncodesItems fl s t (table_len es) (view_items es)

  abbrev PairsDone : Entries → Encoder → Type 0
  PairsDone es s =
      (t : Encoder) × (encode_entries fl false es s ≡ ok t)
      × EncodesPairs fl s t (table_len es) (view_pairs es)

  nil-Done : (s : Encoder) → Done Value.nil s
  unfolding encode view rebuild
  nil-Done s = (
    record s { pack = pack_nil s.pack },
    refl,
    atom fl s _ Val.nil _ (λ _ _ _. refl) (pack_nil-Codes fl s.pack),
  )

  boolean-Done : (b : Bool) (s : Encoder) → Done (Value.boolean b) s
  unfolding encode view rebuild
  boolean-Done b s = (
    record s { pack = pack_boolean b s.pack },
    refl,
    atom fl s _ (Val.boolean b) _ (λ _ _ _. refl) (pack_boolean-Codes fl s.pack b),
  )

  integer-Done : (v : ℤ) (s : Encoder) → IsInt64 v → Done (Value.integer v) s
  unfolding encode view rebuild
  integer-Done v s h = (
    record s { pack = pack_integer v s.pack },
    refl,
    atom fl s _ (int v) _ (λ _ _ _. refl) (pack_integer-Codes fl s.pack v h),
  )

  number-Done : (d : ℕ) (s : Encoder) → d < 2 ^ 64 → Done (Value.number d) s
  unfolding encode view rebuild
  number-Done d s h = (
    record s { pack = pack_double fl d s.pack },
    refl,
    atom fl s _ (dou d) _ (λ _ _ _. refl) (pack_double-Codes fl s.pack d h),
  )

  string-Done : (p : List ℕ) (s : Encoder) → length p < 2 ^ 31 → Done (Value.string p) s
  unfolding encode view rebuild
  string-Done p s h = (
    record s { pack = pack_string p s.pack },
    refl,
    atom fl s _ (str p) _ (λ _ _ _. refl) (pack_string-Codes fl s.pack p h),
  )

  -- Where a table's entries are written to, under a head for an array or a map.
  abbrev inside : Bool → Entries → Encoder → Encoder
  inside b es s = record { pack = pack_head b (table_len es % 2 ^ 32) s.pack; dep = s.dep + 1 }

  table-encode :
      (rawlen : ℕ) (es : Entries) (b : Bool) (s u : Encoder)
      → s.dep < 10
      → is_array rawlen es ≡ b
      → encode_entries fl b es (inside b es s) ≡ ok u
      → encode fl (Value.table rawlen es) s ≡ ok (leave u)
  unfolding encode enter
  table-encode rawlen es b s u h a e = rw (a, shallow, e)
    where
      shallow : ltb 10 (s.dep + 1) ≡ false
      shallow = ground arith

  array-Done :
      (rawlen : ℕ) (es : Entries) (s : Encoder)
      → s.dep < 10
      → table_len es < 2 ^ 32
      → is_array rawlen es ≡ true
      → ItemsDone es (inside true es s)
      → Done (Value.table rawlen es) s
  unfolding view pack_head
  array-Done rawlen es s h fits a (u, e, enc) = (
    leave u,
    table-encode rawlen es true s u h a e,
    rw (view, a)
        (table_items fl s (inside true es s) u (table_len es) (view_items es) head refl enc),
  )
    where
      head : Codes fl s.pack (arr (table_len es)) (inside true es s).pack
      head = rw (mod-eq_of_lt fits) (pack_arr_head-Codes fl s.pack (table_len es) fits)

  object-Done :
      (rawlen : ℕ) (es : Entries) (s : Encoder)
      → s.dep < 10
      → table_len es < 2 ^ 32
      → is_array rawlen es ≡ false
      → PairsDone es (inside false es s)
      → Done (Value.table rawlen es) s
  unfolding view pack_head
  object-Done rawlen es s h fits a (u, e, enc) = (
    leave u,
    table-encode rawlen es false s u h a e,
    rw (view, a)
        (table_pairs fl s (inside false es s) u (table_len es) (view_pairs es) head refl enc),
  )
    where
      head : Codes fl s.pack (map (table_len es)) (inside false es s).pack
      head = rw (mod-eq_of_lt fits) (pack_map_head-Codes fl s.pack (table_len es) fits)

deeper : (n d : ℕ) → suc n + d ≤ 10 → n + (d + 1) ≤ 10
deeper n d h = omega arith

mutual
  unfolding height view table_len encode

  pub encode-Done :
      (v : Value) (fl : Floats) (s : Encoder)
      → IsPackable fl v
      → height v + s.dep ≤ 10
      → Done fl v s
  encode-Done Value.nil fl s p h = nil-Done fl s
  encode-Done (Value.boolean b) fl s p h = boolean-Done fl b s
  encode-Done (Value.integer v) fl s p h = integer-Done fl v s p
  encode-Done (Value.number d) fl s p h = number-Done fl d s p
  encode-Done (Value.string q) fl s p h = string-Done fl q s p
  encode-Done (Value.table rawlen es) fl s p h = elim (Bool-cases (is_array rawlen es)) [
    | inl a ↦ array-Done fl rawlen es s (omega arith) p.0 a (
        items-Done es fl (inside fl true es s) (p.1 a) (deeper (height_items es) s.dep (rw a at h)))
    | inr a ↦ object-Done fl rawlen es s (omega arith) p.0 a (
        pairs-Done es fl (inside fl false es s) (p.2 a)
          (deeper (height_pairs es) s.dep (rw a at h)))
  ]
  encode-Done (Value.other t) fl s p h = absurd p

  items-Done :
      (es : Entries) (fl : Floats) (s : Encoder)
      → ItemsPackable fl es
      → height_items es + s.dep ≤ 10
      → ItemsDone fl es s
  items-Done Entries.end fl s p h = (s, refl, nil_items fl s)
  items-Done (Entries.entry k v es) fl s p h =
      let (t, e, enc) = encode-Done v fl s p.0 (omega arith) in
      let (u, e', enc') = items-Done es fl t p.1 (omega (arith, enc.same_dep)) in
      (u, rw (e, e'), cons_items fl s t u (table_len es) (view v) (view_items es) enc enc')

  pairs-Done :
      (es : Entries) (fl : Floats) (s : Encoder)
      → PairsPackable fl es
      → height_pairs es + s.dep ≤ 10
      → PairsDone fl es s
  pairs-Done Entries.end fl s p h = (s, refl, nil_pairs fl s)
  pairs-Done (Entries.entry k v es) fl s p h =
      let (t, e, enc) = encode-Done k fl s p.1 (omega arith) in
      let (u, e', enc') = encode-Done v fl t p.2 (omega (arith, enc.same_dep)) in
      let (w, e'', enc'') = pairs-Done es fl u p.3 (omega (arith, enc.same_dep, enc'.same_dep)) in
      (
        w,
        rw (e, e', e''),
        cons_pairs fl s t u w (table_len es) (view k) (view v) (view_pairs es) p.0 enc enc' enc'',
      )
