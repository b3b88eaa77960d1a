-- ===== src/Msgpack/Encode/Bounds.antt =====
-- `encode` never writes outside the buffer, and it counts the depth right.
use mathlib.Core.Path.{subst}
use luatest.Prelude.{
  refl, ℕ, ◌+◌, ◌%◌, ◌^◌, ◌≤◌, ◌<◌, ◌≡◌, ◌∙◌, List, [], ◌∷◌, Bool, true, false, arith, length, ltb,
  if_both, Bool-cases, inl, inr,
}
use luatest.Prelude.Int.{ℤ, pos, negsuc, ltb_ℤ, leb_ℤ}
use luatest.Msgpack.Floats.{Floats}
use native.Mathlib.Nat.{mod-eq_of_lt}
use luatest.Memory.{bits_of}
use luatest.Memory.Fields.{front-length}
use luatest.Msgpack.RoundTrip.Writes.{
  IsSized, Wrote-IsSized, Writes, write-Writes, write_byte-Writes, write_changed-Writes,
}
use luatest.Msgpack.Pack.{
  Pack, write_byte, write_changed, pack_nil, pack_boolean, negative_fixnum, pack_nonnegative,
  pack_negative, pack_integer, pack_double, pack_string_head, pack_string, pack_arr_head,
  pack_map_head,
}
use luatest.Msgpack.Encode.{
  Value, Entries, Encoder, Result, ok, raise, ◌>>=◌, enter, leave, put, is_array, pack_head,
  table_len, encode, encode_entries,
}

-- The buffer has the size of an int, the bytes lie in it, and no copy went wrong.
pub record InBounds (s : Pack) : Type 0 where
  pub sized : IsSized s
  pub tame : s.wild ≡ false

Writes-InBounds : {s t : Pack} (bs : List ℕ) → Writes s bs t → InBounds s → InBounds t
Writes-InBounds bs w h = record {
  sized = Wrote-IsSized bs h.sized (w h.sized);
  tame = (w h.sized).same_wild ∙ h.tame;
}

write_byte-InBounds : (v : ℕ) (s : Pack) → InBounds s → InBounds (write_byte v s)
write_byte-InBounds v s h = Writes-InBounds (v % 256 ∷ []) (write_byte-Writes v s) h

field-InBounds :
    (k v m : ℕ) (s : Pack) → k ≤ 8 → InBounds s → InBounds (write_changed k v (write_byte m s))
field-InBounds k v m s slim h =
    Writes-InBounds _ (write_changed-Writes k v (write_byte m s) slim) (write_byte-InBounds m s h)

-- A call of the writer that keeps to the buffer.
abbrev Keeps : (Pack → Pack) → Type 0
Keeps f = (s : Pack) → InBounds s → InBounds (f s)

nil-Keeps : Keeps pack_nil
unfolding pack_nil
nil-Keeps = write_byte-InBounds 0xc0

boolean-Keeps : (b : Bool) → Keeps (pack_boolean b)
unfolding pack_boolean
boolean-Keeps true = write_byte-InBounds 0xc3
boolean-Keeps b = write_byte-InBounds 0xc2

pack_nonnegative-Keeps : (v : ℤ) → Keeps (pack_nonnegative v)
unfolding pack_nonnegative
pack_nonnegative-Keeps v s h =
    if_both InBounds (ltb_ℤ v (pos 128)) (write_byte-InBounds (bits_of 1 v) s h) (
      if_both InBounds (leb_ℤ v (pos 0xff))
        (write_byte-InBounds (bits_of 1 v) (write_byte 0xcc s) (write_byte-InBounds 0xcc s h))
        (if_both InBounds (leb_ℤ v (pos 0xffff))
          (field-InBounds 2 (bits_of 2 v) 0xcd s (omega arith) h)
          (if_both InBounds (leb_ℤ v (pos 0xffffffff))
            (field-InBounds 4 (bits_of 4 v) 0xce s (omega arith) h)
            (field-InBounds 8 (bits_of 8 v) 0xcf s (omega arith) h))))

pack_negative-Keeps : (v : ℤ) → Keeps (pack_negative v)
unfolding pack_negative
pack_negative-Keeps v s h =
    if_both InBounds (leb_ℤ (negsuc 31) v) (write_byte-InBounds (negative_fixnum v) s h) (
      if_both InBounds (leb_ℤ (negsuc 127) v)
        (write_byte-InBounds (bits_of 1 v) (write_byte 0xd0 s) (write_byte-InBounds 0xd0 s h))
        (if_both InBounds (leb_ℤ (negsuc 32767) v)
          (field-InBounds 2 (bits_of 2 v) 0xd1 s (omega arith) h)
          (if_both InBounds (leb_ℤ (negsuc 2147483647) v)
            (field-InBounds 4 (bits_of 4 v) 0xd2 s (omega arith) h)
            (field-InBounds 8 (bits_of 8 v) 0xd3 s (omega arith) h))))

pack_integer-Keeps : (v : ℤ) → Keeps (pack_integer v)
unfolding pack_integer
pack_integer-Keeps v s h =
    if_both InBounds (leb_ℤ (pos 0) v) (pack_nonnegative-Keeps v s h) (pack_negative-Keeps v s h)

pack_double-Keeps : (fl : Floats) (d : ℕ) → Keeps (pack_double fl d)
unfolding pack_double
pack_double-Keeps fl d s h =
    if_both InBounds (fl.same (fl.widen (fl.narrow d)) d)
      (field-InBounds 4 (fl.narrow d) 0xca s (omega arith) h)
      (field-InBounds 8 d 0xcb s (omega arith) h)

pack_string_head-Keeps : (p : List ℕ) → Keeps (pack_string_head (length p))
unfolding pack_string_head
pack_string_head-Keeps p s h =
    if_both InBounds (ltb (length p) 32) (write_byte-InBounds (0xa0 + length p) s h) (
      if_both InBounds (ltb (length p) 256)
        (write_byte-InBounds (length p) (write_byte 0xd9 s) (write_byte-InBounds 0xd9 s h))
        (if_both InBounds (ltb (length p) 65536)
          (field-InBounds 2 (length p) 0xda s (omega arith) h)
          (field-InBounds 4 (length p) 0xdb s (omega arith) h)))

pack_string-Keeps : (p : List ℕ) → length p < 2 ^ 31 → Keeps (pack_string p)
unfolding pack_string
pack_string-Keeps p short s h =
    let fits : length p < 2 ^ 32 = omega (arith, short) in
    rw (mod-eq_of_lt fits, front-length p)
      (Writes-InBounds p (write-Writes p (pack_string_head (length p) s) short)
        (pack_string_head-Keeps p s h))

pack_head-Keeps : (b : Bool) (n : ℕ) → Keeps (pack_head b n)
unfolding pack_head pack_arr_head pack_map_head
pack_head-Keeps true n s h = if_both InBounds (ltb n 16) (write_byte-InBounds (0x90 + n) s h) (
    if_both InBounds (ltb n 65536) (field-InBounds 2 n 0xdc s (omega arith) h)
      (field-InBounds 4 n 0xdd s (omega arith) h))
pack_head-Keeps false n s h = if_both InBounds (ltb n 16) (write_byte-InBounds (0x80 + n) s h) (
    if_both InBounds (ltb n 65536) (field-InBounds 2 n 0xde s (omega arith) h)
      (field-InBounds 4 n 0xdf s (omega arith) h))

-- All strings of a value are shorter than 2^31 bytes.
abbrev mutual
  pub IsShort : Value → Type 0
  IsShort (Value.string p) = length p < 2 ^ 31
  IsShort (Value.table rawlen es) = AreShort es
  IsShort _ = Unit

  pub AreShort : Entries → Type 0
  AreShort Entries.end = Unit
  AreShort (Entries.entry k v es) = IsShort k × IsShort v × AreShort es

-- Where the encoder goes on, the bytes lie in the buffer and the depth is what it was.
record Keeping (s t : Encoder) : Type 0 where
  in_bounds : InBounds s.pack → InBounds t.pack
  same_dep : t.dep ≡ s.dep

abbrev Safe : Encoder → Result Encoder → Type 0
Safe s (ok t) = Keeping s t
Safe s (raise e) = Unit

Keeping-trans : {s t u : Encoder} → Keeping s t → Keeping t u → Keeping s u
Keeping-trans p q = record {
  in_bounds = λ h. q.in_bounds (p.in_bounds h);
  same_dep = q.same_dep ∙ p.same_dep;
}

bind-Safe :
    (s : Encoder) (m : Result Encoder) (f : Encoder → Result Encoder)
    → Safe s m
    → ((t : Encoder) → Safe t (f t))
    → Safe s (m >>= f)
bind-Safe s (raise e) f h k = tt
bind-Safe s (ok t) f h k = go (f t) (k t)
  where
    go : (r : Result Encoder) → Safe t r → Safe s r
    go (ok u) q = Keeping-trans h q
    go (raise e) q = tt

put-Safe : (f : Pack → Pack) (s : Encoder) → Keeps f → Safe s (put f s)
put-Safe f s k = record { in_bounds = k s.pack; same_dep = refl }

-- Where a table's entries are written to.
abbrev inside : Bool → ℕ → Encoder → Encoder
inside b n s = record { pack = pack_head b n s.pack; dep = s.dep + 1 }

leave-Keeping : (b : Bool) (n : ℕ) (s t : Encoder) → Keeping (inside b n s) t → Keeping s (leave t)
unfolding leave
leave-Keeping b n s t k = record {
  in_bounds = λ h. k.in_bounds (pack_head-Keeps b n s.pack h);
  same_dep = omega (arith, k.same_dep);
}

table-Safe :
    (fl : Floats) (rawlen : ℕ) (es : Entries) (s : Encoder)
    → ((b : Bool) (t : Encoder) → Safe t (encode_entries fl b es t))
    → Safe s (encode fl (Value.table rawlen es) s)
unfolding encode enter
table-Safe fl rawlen es s h = elim (Bool-cases (ltb 10 (s.dep + 1))) [
  | inl e ↦ rw e tt
  | inr e ↦ rw e (go (encode_entries fl b es (inside b n s)) (h b (inside b n s)))
]
  where
    b : Bool
    b = is_array rawlen es

    n : ℕ
    n = table_len es % 2 ^ 32

    go : (r : Result Encoder) → Safe (inside b n s) r → Safe s (r >>= λ t. ok (leave t))
    go (ok t) k = leave-Keeping b n s t k
    go (raise e) k = tt

mutual
  unfolding encode

  encode-Safe : (v : Value) (fl : Floats) (s : Encoder) → IsShort v → Safe s (encode fl v s)
  encode-Safe Value.nil fl s h = put-Safe pack_nil s nil-Keeps
  encode-Safe (Value.boolean b) fl s h = put-Safe (pack_boolean b) s (boolean-Keeps b)
  encode-Safe (Value.integer v) fl s h = put-Safe (pack_integer v) s (pack_integer-Keeps v)
  encode-Safe (Value.number d) fl s h = put-Safe (pack_double fl d) s (pack_double-Keeps fl d)
  encode-Safe (Value.string p) fl s h = put-Safe (pack_string p) s (pack_string-Keeps p h)
  encode-Safe (Value.table rawlen es) fl s h =
      table-Safe fl rawlen es s (λ b t. entries-Safe es fl b t h)
  encode-Safe (Value.other t) fl s h = tt

  entries-Safe :
      (es : Entries) (fl : Floats) (b : Bool) (s : Encoder)
      → AreShort es
      → Safe s (encode_entries fl b es s)
  entries-Safe Entries.end fl b s h = record { in_bounds = λ i. i; same_dep = refl }
  entries-Safe (Entries.entry k v es) fl true s (hk, hv, hs) =
      bind-Safe s (encode fl v s) _ (encode-Safe v fl s hv) (λ t. entries-Safe es fl true t hs)
  entries-Safe (Entries.entry k v es) fl false s (hk, hv, hs) =
      bind-Safe s (encode fl k s) _ (encode-Safe k fl s hk) λ t.
        bind-Safe t (encode fl v t) _ (encode-Safe v fl t hv) (λ u. entries-Safe es fl false u hs)

-- Let the buffer have the size of an int, and the strings of a value be shorter than 2^31 bytes. An
-- `encode` that ends with no error has then written nothing outside the buffer, has copied no negative
-- number of bytes, and has left the depth as it was.
pub encode-InBounds :
    (fl : Floats) (v : Value) (s : Encoder) {t : Encoder}
    → IsShort v
    → encode fl v s ≡ ok t
    → InBounds s.pack
    → InBounds t.pack × (t.dep ≡ s.dep)
encode-InBounds fl v s {t} short e h =
    let k : Keeping s t = subst (Safe s) e (encode-Safe v fl s short) in (k.in_bounds h, k.same_dep)
