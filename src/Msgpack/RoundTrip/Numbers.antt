-- ===== src/Msgpack/RoundTrip/Numbers.antt =====
-- `pack_integer` and `pack_double`, read back by `parse`.
use native.Mathlib.Nat.{mod-eq_of_lt}
use luatest.Prelude.{
  if_cases, ℕ, ◌/◌, ◌%◌, ◌^◌, ◌<◌, ◌≤◌, ◌≡◌, refl, List, ◌∷◌, some, arith, true, false,
}
use luatest.Prelude.Int.{ℤ, pos, negsuc, ltb_ℤ, leb_ℤ}
use luatest.Memory.{bits_of, signed, signed-bits_of_pos, signed-bits_of_negsuc, bits_of-lt}
use luatest.Msgpack.Floats.{Floats}
use luatest.Msgpack.Pack.{
  Pack, write_byte, write_changed, pack_nonnegative, pack_negative, pack_integer, pack_double,
  negative_fixnum,
}
use luatest.Msgpack.Unpack.{
  int, dou, parse, parse_marker, parse_switch, negative_value, parse_field,
}
use luatest.Msgpack.RoundTrip.Heads.{Codes, code_marker, code_field, write_changed-one}

-- The values of an int64_t.
abbrev pub IsInt64 : ℤ → Type 0
IsInt64 (pos n) = n < 2 ^ 63
IsInt64 (negsuc n) = n < 2 ^ 63

reading : Unit {0}
unfolding parse parse_marker parse_switch
reading = tt

module _ (fl : Floats) (s : Pack) where
  -- A field that the reader takes for unsigned.
  code_unsigned :
      (m k n : ℕ)
      → k ≤ 8
      → n < 256 ^ k
      → ((bs : List ℕ) → parse fl (m % 256 ∷ bs) ≡ parse_field k (λ v. int (pos v)) bs)
      → Codes fl s (int (pos n)) (write_changed k (bits_of k (pos n)) (write_byte m s))
  unfolding bits_of
  code_unsigned m k n slim h r =
      rw (mod-eq_of_lt h) (code_field fl s m k n (λ v. int (pos v)) slim h r)

  -- A field that the reader takes for signed.
  code_signed :
      (m k : ℕ) (v : ℤ)
      → k ≤ 8
      → 0 < 256 ^ k
      → signed k (bits_of k v) ≡ v
      → ((bs : List ℕ) → parse fl (m % 256 ∷ bs) ≡ parse_field k (λ n. int (signed k n)) bs)
      → Codes fl s (int v) (write_changed k (bits_of k v) (write_byte m s))
  code_signed m k v slim p e r =
      rw e at (code_field fl s m k (bits_of k v) (λ n. int (signed k n)) slim (bits_of-lt k v p) r)

  fixnum : (n : ℕ) → n < 128 → (bs : List ℕ) → parse fl (n % 256 ∷ bs) ≡ some (int (pos n), bs)
  unfolding reading
  fixnum n h bs = ground arith

  code_fixnum : (n : ℕ) → n < 128 → Codes fl s (int (pos n)) (write_byte (bits_of 1 (pos n)) s)
  unfolding bits_of
  code_fixnum n h =
      let small : n < 256 ^ 1 = omega arith in
      rw (mod-eq_of_lt small) (code_marker fl s n (int (pos n)) (fixnum n h))

  negative_fixnum_read :
      (n : ℕ)
      → n < 32
      → (bs : List ℕ) → parse fl (negative_fixnum (negsuc n) % 256 ∷ bs) ≡ some (int (negsuc n), bs)
  unfolding reading negative_fixnum negative_value
  negative_fixnum_read n h bs = ground arith

  pub pack_nonnegative-Codes :
      (n : ℕ) → n < 2 ^ 63 → Codes fl s (int (pos n)) (pack_nonnegative (pos n) s)
  unfolding pack_nonnegative reading
  pack_nonnegative-Codes n h =
      if_cases C (ltb_ℤ v (pos 128)) _ _ (λ e. code_fixnum n (ground arith))
        λ _.
          if_cases C (leb_ℤ v (pos 0xff)) _ _
            (λ e.
              rw (write_changed-one (bits_of 1 v)) at
                (code_unsigned 0xcc 1 n (omega arith) (ground arith) (λ _. refl)))
            λ _.
              if_cases C (leb_ℤ v (pos 0xffff)) _ _
                (λ e. code_unsigned 0xcd 2 n (omega arith) (ground arith) (λ _. refl))
                λ _.
                  if_cases C (leb_ℤ v (pos 0xffffffff)) _ _
                    (λ e. code_unsigned 0xce 4 n (omega arith) (ground arith) (λ _. refl))
                    λ _.
                      code_signed 0xcf 8 v (omega arith) (omega arith)
                        (signed-bits_of_pos 8 n (omega arith)) (λ _. refl)
    where
      v : ℤ
      v = pos n

      C : Pack → Type 0
      C = Codes fl s (int v)

  pub pack_negative-Codes :
      (n : ℕ) → n < 2 ^ 63 → Codes fl s (int (negsuc n)) (pack_negative (negsuc n) s)
  unfolding pack_negative reading
  pack_negative-Codes n h =
      if_cases C (leb_ℤ (negsuc 31) v) _ _
        (λ e. code_marker fl s (negative_fixnum v) (int v) (negative_fixnum_read n (ground arith)))
        λ _.
          if_cases C (leb_ℤ (negsuc 127) v) _ _
            (λ e.
              rw (write_changed-one (bits_of 1 v)) at
                (code 0xd0 1 (omega arith) (omega arith) (ground arith) (λ _. refl)))
            λ _.
              if_cases C (leb_ℤ (negsuc 32767) v) _ _
                (λ e. code 0xd1 2 (omega arith) (omega arith) (ground arith) (λ _. refl))
                λ _.
                  if_cases C (leb_ℤ (negsuc 2147483647) v) _ _
                    (λ e. code 0xd2 4 (omega arith) (omega arith) (ground arith) (λ _. refl))
                    λ _. code 0xd3 8 (omega arith) (omega arith) (omega arith) (λ _. refl)
    where
      v : ℤ
      v = negsuc n

      C : Pack → Type 0
      C = Codes fl s (int v)

      code :
          (m k : ℕ)
          → k ≤ 8
          → 0 < 256 ^ k
          → n < 256 ^ k / 2
          → ((bs : List ℕ) → parse fl (m % 256 ∷ bs) ≡ parse_field k (λ n. int (signed k n)) bs)
          → C (write_changed k (bits_of k v) (write_byte m s))
      code m k slim p fits r = code_signed m k v slim p (signed-bits_of_negsuc k n fits) r

  pub pack_integer-Codes : (v : ℤ) → IsInt64 v → Codes fl s (int v) (pack_integer v s)
  unfolding pack_integer
  pack_integer-Codes (pos n) h = rw (nonneg) (pack_nonnegative-Codes n h)
    where
      nonneg : leb_ℤ (pos 0) (pos n) ≡ true
      nonneg = ground arith
  pack_integer-Codes (negsuc n) h = rw (negative) (pack_negative-Codes n h)
    where
      negative : leb_ℤ (pos 0) (negsuc n) ≡ false
      negative = ground arith

  pub pack_double-Codes : (d : ℕ) → d < 2 ^ 64 → Codes fl s (dou d) (pack_double fl d s)
  unfolding pack_double reading
  pack_double-Codes d h =
      if_cases (Codes fl s (dou d)) (fl.same (fl.widen (fl.narrow d)) d) _ _
        (λ e. rw (fl.widen-narrow d h e) at (
          code_field fl s 0xca 4 (fl.narrow d) (λ f. dou (fl.widen f)) (omega arith)
            (fl.narrow-lt d) (λ _. refl)))
        (λ _. code_field fl s 0xcb 8 d dou (omega arith) h (λ _. refl))
