-- ===== src/Msgpack/RoundTrip/Sizes.antt =====
-- `pack_string`, `pack_arr_head` and `pack_map_head`, read back by `parse`.
use luatest.Prelude.{
  ℕ, ◌+◌, ◌%◌, ◌^◌, ◌<◌, ◌≤◌, ◌≡◌, refl, ◌∙◌, List, ◌∷◌, [], ◌++◌, some, arith, ltb, if_cases,
  length, true, Bool,
}
use native.Mathlib.Nat.{mod-eq_of_lt}
use luatest.Memory.Fields.{front-length}
use luatest.Msgpack.Floats.{Floats}
use luatest.Memory.{to_memory, endian_change}
use luatest.Msgpack.Pack.{
  Pack, write_byte, write_changed, pack_arr_head, pack_map_head, pack_string, pack_string_head,
  pack_nil, pack_boolean,
}
use luatest.Msgpack.Unpack.{
  arr, map, str, nil, boolean, parse, parse_marker, parse_switch, parse_sized_str, parse_str,
}
use luatest.Msgpack.RoundTrip.Writes.{Writes, Writes-trans, write_byte-Writes, write_changed-Writes}
use luatest.Msgpack.RoundTrip.Heads.{
  Codes, code_marker, code_field, code_string, parselen-to_memory, write_changed-one,
}

reading : Unit {0}
unfolding parse parse_marker parse_switch
reading = tt

module _ (fl : Floats) (s : Pack) where
  pub pack_nil-Codes : Codes fl s nil (pack_nil s)
  unfolding pack_nil reading
  pack_nil-Codes = code_marker fl s 0xc0 nil (λ _. refl)

  pub pack_boolean-Codes : (b : Bool) → Codes fl s (boolean b) (pack_boolean b s)
  unfolding pack_boolean reading
  pack_boolean-Codes true = code_marker fl s 0xc3 (boolean true) (λ _. refl)
  pack_boolean-Codes b = code_marker fl s 0xc2 (boolean b) (λ _. refl)

  fixarr : (n : ℕ) → n < 16 → (bs : List ℕ) → parse fl ((0x90 + n) % 256 ∷ bs) ≡ some (arr n, bs)
  unfolding reading
  fixarr n h bs = ground arith

  fixmap : (n : ℕ) → n < 16 → (bs : List ℕ) → parse fl ((0x80 + n) % 256 ∷ bs) ≡ some (map n, bs)
  unfolding reading
  fixmap n h bs = ground arith

  pub pack_arr_head-Codes : (n : ℕ) → n < 2 ^ 32 → Codes fl s (arr n) (pack_arr_head n s)
  unfolding pack_arr_head reading
  pack_arr_head-Codes n h =
      if_cases C (ltb n 16) _ _ (λ e. code_marker fl s (0x90 + n) (arr n) (fixarr n (ground arith)))
        λ _.
          if_cases C (ltb n 65536) _ _
            (λ e. code_field fl s 0xdc 2 n arr (omega arith) (ground arith) (λ _. refl))
            λ _. code_field fl s 0xdd 4 n arr (omega arith) h (λ _. refl)
    where
      C : Pack → Type 0
      C = Codes fl s (arr n)

  pub pack_map_head-Codes : (n : ℕ) → n < 2 ^ 32 → Codes fl s (map n) (pack_map_head n s)
  unfolding pack_map_head reading
  pack_map_head-Codes n h =
      if_cases C (ltb n 16) _ _ (λ e. code_marker fl s (0x80 + n) (map n) (fixmap n (ground arith)))
        λ _.
          if_cases C (ltb n 65536) _ _
            (λ e. code_field fl s 0xde 2 n map (omega arith) (ground arith) (λ _. refl))
            λ _. code_field fl s 0xdf 4 n map (omega arith) h (λ _. refl)
    where
      C : Pack → Type 0
      C = Codes fl s (map n)

  -- A head of a string of `n` bytes.
  record Heads (n : ℕ) (t : Pack) : Type 0 where
    bytes : List ℕ
    nonempty : 0 < length bytes
    writes : Writes s bytes t
    reads : (bs : List ℕ) → parse fl (bytes ++ bs) ≡ parse_str n bs

  fixstr : (n : ℕ) → n < 32 → (bs : List ℕ) → parse fl ((0xa0 + n) % 256 ∷ bs) ≡ parse_str n bs
  unfolding reading
  fixstr n h bs = ground arith

  head_field :
      (m k n : ℕ)
      → k ≤ 8
      → n < 256 ^ k
      → ((bs : List ℕ) → parse fl (m % 256 ∷ bs) ≡ parse_sized_str k bs)
      → Heads n (write_changed k n (write_byte m s))
  head_field m k n slim fits h = record {
    bytes = m % 256 ∷ to_memory k (endian_change k n);
    nonempty = omega arith;
    writes =
        Writes-trans (m % 256 ∷ []) (to_memory k (endian_change k n)) (write_byte-Writes m s)
          (write_changed-Writes k n (write_byte m s) slim);
    reads = λ rest. h _ ∙ unfold parse_sized_str in rw (parselen-to_memory k n rest fits);
  }

  pack_string_head-Heads : (n : ℕ) → n < 2 ^ 32 → Heads n (pack_string_head n s)
  unfolding pack_string_head reading
  pack_string_head-Heads n h =
      if_cases (Heads n) (ltb n 32) _ _
        (λ e. record {
          bytes = (0xa0 + n) % 256 ∷ [];
          nonempty = omega arith;
          writes = write_byte-Writes (0xa0 + n) s;
          reads = fixstr n (ground arith);
        })
        λ _.
          if_cases (Heads n) (ltb n 256) _ _
            (λ e.
              rw (write_changed-one n) at
                (head_field 0xd9 1 n (omega arith) (ground arith) (λ _. refl)))
            λ _.
              if_cases (Heads n) (ltb n 65536) _ _
                (λ e. head_field 0xda 2 n (omega arith) (ground arith) (λ _. refl))
                λ _. head_field 0xdb 4 n (omega arith) h (λ _. refl)

  pub pack_string-Codes : (p : List ℕ) → length p < 2 ^ 31 → Codes fl s (str p) (pack_string p s)
  unfolding pack_string
  pack_string-Codes p h =
      let fits : length p < 2 ^ 32 = omega (arith, h) in
      let head = pack_string_head-Heads (length p) fits in
      rw (mod-eq_of_lt fits, front-length p)
        (code_string fl s p (pack_string_head (length p) s) head.bytes head.nonempty h head.writes
          head.reads)
