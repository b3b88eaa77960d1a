-- ===== src/Msgpack/Tests.antt =====
-- The codec on concrete values, and its theorems there.
use luatest.Prelude.{
  ℕ, ◌≤◌, ◌≡◌, ◌≢◌, refl, List, [], ◌∷◌, true, false, arith, length, ltb, if◌then◌else◌, ◌==◌,
}
use luatest.Prelude.Int.{pos, negsuc}
use luatest.Memory.{to_memory, of_memory, endian_change, bits_of, signed}
use luatest.Memory.Fields.{front}
use luatest.Msgpack.Floats.{Floats}
use luatest.Msgpack.Pack.{
  size_of_sum, write, write_byte, write_changed, pack_nil, pack_boolean, negative_fixnum,
  pack_nonnegative, pack_negative, pack_integer, pack_double, pack_string_head, pack_string,
  pack_arr_head, pack_map_head,
}
use luatest.Memory.Reads.{split}
use luatest.Msgpack.Unpack.{
  parselen, parse_str, parse_sized_str, parse_field, parse_switch, negative_value, parse_marker,
  parse,
}
use luatest.Msgpack.Encode.{
  Value, Entries, Encoder, ok, raise, overflow, table_len, enter, leave, is_array, pack_head,
  encode, fresh, finish, encode_call,
}
use luatest.Msgpack.Encode.Bounds.{InBounds, encode-InBounds}
use luatest.Msgpack.Decode.{
  Outcome, is_key, settable, rebuild, accept, decode, decode_call, stuck, overrun,
}
use luatest.Msgpack.Decode.Total.{decode_call-ne-stuck}
use luatest.Msgpack.RoundTrip.Calls.{decode_call-encode_call, decode_call_truncated}
use luatest.Msgpack.RoundTrip.Depth.{encode_call-height}
use luatest.Msgpack.RoundTrip.View.{height, view, IsPackable}

program : Unit {0}
unfolding to_memory of_memory endian_change bits_of signed front size_of_sum write write_byte
    write_changed pack_nil pack_boolean negative_fixnum pack_nonnegative pack_negative pack_integer
    pack_double pack_string_head pack_string pack_arr_head pack_map_head split parselen parse_str
    parse_sized_str parse_field parse_switch negative_value parse_marker parse table_len enter leave
    is_array pack_head encode finish encode_call is_key settable rebuild accept decode decode_call
    height view
program = tt

zero_same : (d : ℕ) → (0 == d) ≡ true → 0 ≡ d
zero_same d e = ground arith

-- Host conversions under which no double is a float.
abbrev wide : Floats
wide = record {
  narrow = λ d. 0;
  widen = λ f. 0;
  same = λ a b. a == b;
  narrow-lt = λ d. omega arith;
  widen-narrow = λ d h e. zero_same d e;
}

-- { -3, 300, "ab" } and { k = true }, one in the other.
abbrev inner : Value
inner = Value.table 0 (Entries.entry (Value.string (b'k' ∷ [])) (Value.boolean true) Entries.end)

abbrev outer : Value
outer = Value.table 3 (
    Entries.entry (Value.integer (pos 1)) (Value.integer (negsuc 2)) (
      Entries.entry (Value.integer (pos 2)) (Value.integer (pos 300))
        (Entries.entry (Value.integer (pos 3)) inner Entries.end)))

encode_outer :
    encode_call wide 100 outer
    ≡ ok (0x93 ∷ 0xfd ∷ 0xcd ∷ 0x01 ∷ 0x2c ∷ 0x81 ∷ 0xa1 ∷ b'k' ∷ 0xc3 ∷ [])
unfolding program
encode_outer = refl

outer-IsPackable : IsPackable wide outer
unfolding program
outer-IsPackable = (omega arith, λ _. (omega arith, (omega arith, (inner-IsPackable, tt))), λ h. cc)
  where
    inner-IsPackable : IsPackable wide inner
    inner-IsPackable = (omega arith, λ h. cc, λ _. (refl, omega arith, tt, tt))

outer-height : height outer ≤ 10
unfolding program
outer-height = omega arith

decode_call-encode_call_example :
    (bs : List ℕ) × (decode_call wide bs ≡ Outcome.ok (view outer, []))
    × (encode_call wide 100 outer ≡ (if ltb (length bs) 100 then ok bs else raise overflow))
decode_call-encode_call_example =
    decode_call-encode_call wide 100 outer (omega arith) outer-IsPackable outer-height

encode_call-height_example : height outer ≤ 10
encode_call-height_example = encode_call-height wide 100 outer encode_outer

decode_call-ne-stuck_example : decode_call wide (0x92 ∷ 0x91 ∷ 0xc0 ∷ []) ≢ stuck
decode_call-ne-stuck_example = decode_call-ne-stuck wide (0x92 ∷ 0x91 ∷ 0xc0 ∷ [])

decode_call_truncated_example : decode_call wide (0xa5 ∷ b'a' ∷ b'b' ∷ []) ≡ overrun
decode_call_truncated_example =
    decode_call_truncated wide 5 (b'a' ∷ b'b' ∷ []) (omega arith) (omega arith)

abbrev after_nil : Encoder
after_nil = record {
  pack = record { cap = 4; out = 0xc0 ∷ []; over = false; wild = false };
  dep = 0;
}

encode_nil : encode wide Value.nil (fresh 4) ≡ ok after_nil
unfolding program
encode_nil = refl

encode-InBounds_example : InBounds after_nil.pack × (after_nil.dep ≡ 0)
encode-InBounds_example =
    encode-InBounds wide Value.nil (fresh 4) tt encode_nil
      (record { sized = record { small = omega arith; in_bounds = omega arith }; tame = refl })
