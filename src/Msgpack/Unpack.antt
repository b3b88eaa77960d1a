-- ===== src/Msgpack/Unpack.antt =====
-- msgpack/cc/msgpack.h and msgpack.cc: `Msgpack::Unpack`, the reader of one value.
pub mod Shrinks
use luatest.Prelude.{
  ℕ, zero, suc, ◌-◌, List, [], ◌∷◌, Bool, true, false, ◌&&◌, Option, none, some, leb, ◌==◌,
  if◌then◌else◌,
}
use luatest.Prelude.Int.{ℤ, pos, negsuc}
use luatest.Memory.Reads.{split, ◌>>=◌}
use luatest.Memory.{of_memory, endian_change, signed}
use luatest.Msgpack.Floats.{Floats}

-- `Val`: the tag `tp_` with the member of `data_` that goes with it.
pub data Val : Type 0 where
  nil : Val
  boolean : Bool → Val
  int : ℤ → Val
  dou : ℕ → Val
  str : List ℕ → Val
  arr : ℕ → Val
  map : ℕ → Val
  err : Val

-- `parselen` at a type of `k` bytes.
unfoldable pub parselen : ℕ → List ℕ → Option (ℕ × List ℕ)
parselen k bs = do (raw, rest) ← split k bs; some (endian_change k (of_memory raw), rest)

abbrev pub within : ℕ → ℕ → ℕ → Bool
within lo hi m = leb lo m && leb m hi

-- A string of `len` bytes, which `decode` reads from `data_.s_`.
unfoldable pub parse_str : ℕ → List ℕ → Option (Val × List ℕ)
parse_str len bs = do (s, rest) ← split len bs; some (str s, rest)

-- The cases that read a field of `k` bytes after the marker.
unfoldable pub parse_sized_str : ℕ → List ℕ → Option (Val × List ℕ)
parse_sized_str k bs = do (len, rest) ← parselen k bs; parse_str len rest

unfoldable pub parse_field : ℕ → (ℕ → Val) → List ℕ → Option (Val × List ℕ)
parse_field k make bs = do (v, rest) ← parselen k bs; some (make v, rest)

-- `data.i_ = v` for an unsigned and a signed `v` of `k` bytes.
abbrev pub from_unsigned : ℕ → Val
from_unsigned v = int (pos v)

abbrev pub from_signed : ℕ → ℕ → Val
from_signed k v = int (signed k v)

-- The `switch (m)`.
unfoldable pub parse_switch : Floats → ℕ → List ℕ → Option (Val × List ℕ)
parse_switch fl m bs =
    if m == 0xc0
    then some (nil, bs)
    else if m == 0xc2
    then some (boolean false, bs)
    else if m == 0xc3
    then some (boolean true, bs)
    else if m == 0xd9
    then parse_sized_str 1 bs
    else if m == 0xc4
    then parse_sized_str 1 bs
    else if m == 0xda
    then parse_sized_str 2 bs
    else if m == 0xc5
    then parse_sized_str 2 bs
    else if m == 0xdb
    then parse_sized_str 4 bs
    else if m == 0xc6
    then parse_sized_str 4 bs
    else if m == 0xca
    then parse_field 4 (λ f. dou (fl.widen f)) bs
    else if m == 0xcb
    then parse_field 8 dou bs
    else if m == 0xcc
    then parse_field 1 from_unsigned bs
    else if m == 0xcd
    then parse_field 2 from_unsigned bs
    else if m == 0xce
    then parse_field 4 from_unsigned bs
    else if m == 0xcf
    then parse_field 8 (from_signed 8) bs
    else if m == 0xd0
    then parse_field 1 (from_signed 1) bs
    else if m == 0xd1
    then parse_field 2 (from_signed 2) bs
    else if m == 0xd2
    then parse_field 4 (from_signed 4) bs
    else if m == 0xd3
    then parse_field 8 (from_signed 8) bs
    else if m == 0xdc
    then parse_field 2 arr bs
    else if m == 0xdd
    then parse_field 4 arr bs
    else if m == 0xde
    then parse_field 2 map bs
    else if m == 0xdf
    then parse_field 4 map bs
    else some (err, bs)

-- `-32 + m - 0xe0` for an `m` from 0xe0 to 0xff.
unfoldable pub negative_value : ℕ → ℤ
negative_value m = negsuc (0xff - m)

unfoldable pub parse_marker : Floats → ℕ → List ℕ → Option (Val × List ℕ)
parse_marker fl m bs =
    if leb m 0x7f
    then some (int (pos m), bs)
    else if within 0xe0 0xff m
    then some (int (negative_value m), bs)
    else if within 0xa0 0xbf m
    then parse_str (m - 0xa0) bs
    else if within 0x80 0x8f m
    then some (map (m - 0x80), bs)
    else if within 0x90 0x9f m
    then some (arr (m - 0x90), bs)
    else parse_switch fl m bs

-- `parse`: the bytes from `ps_` to `pe_` give the value and the bytes that are left.
unfoldable pub parse : Floats → List ℕ → Option (Val × List ℕ)
parse fl [] = some (err, [])
parse fl (m ∷ bs) = parse_marker fl m bs
