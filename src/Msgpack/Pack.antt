-- ===== src/Msgpack/Pack.antt =====
-- msgpack/cc/msgpack.h and msgpack.cc: `Msgpack::Pack`, the writer.
use luatest.Prelude.{
  ℕ, suc, ◌-◌, ◌+◌, ◌%◌, ◌^◌, List, [], ◌∷◌, ◌++◌, Bool, true, length, ltb, leb, if◌then◌else◌,
}
use luatest.Prelude.Int.{ℤ, pos, negsuc, ltb_ℤ, leb_ℤ}
use luatest.Memory.{to_memory, endian_change, bits_of}
use luatest.Memory.Fields.{front}
use luatest.Msgpack.Floats.{Floats}

-- `cap` is the size of `buff_`, which an int sets, and `out` holds its first `len_` bytes. `wild` is
-- set where `memcpy` gets a negative length; C++ says nothing of what follows.
pub record Pack : Type 0 where
  pub cap : ℕ
  pub out : List ℕ
  pub over : Bool
  pub wild : Bool

-- `len_ + len` for two ints, compared with a size_t: the sum of 32 bits is extended by its sign.
unfoldable pub size_of_sum : ℕ → ℕ → ℕ
size_of_sum n len =
    let sum = (n + len) % 2 ^ 32 in if ltb sum (2 ^ 31) then sum else sum + (2 ^ 64 - 2 ^ 32)

-- The bytes are fewer than 2^32; their number becomes an int, which is negative from 2^31 on.
unfoldable pub write : List ℕ → Pack → Pack
unfolding size_of_sum
write p s =
    if s.over
    then s
    else if leb s.cap (size_of_sum (length s.out) (length p))
    then record s { over = true }
    else if leb (2 ^ 31) (length p)
    then record s { wild = true }
    else record s { out = s.out ++ p }

-- `write(&v, sizeof(v))` of a one-byte value.
unfoldable pub write_byte : ℕ → Pack → Pack
write_byte v = write (v % 256 ∷ [])

-- `v = endian_change(v); write(&v, sizeof(v));` at a type of `k` bytes.
unfoldable pub write_changed : ℕ → ℕ → Pack → Pack
write_changed k v = write (to_memory k (endian_change k v))

unfoldable pub pack_nil : Pack → Pack
pack_nil = write_byte 0xc0

unfoldable pub pack_boolean : Bool → Pack → Pack
pack_boolean val = write_byte (if val then 0xc3 else 0xc2)

-- `uint8_t v = 0xe0 + val + 32` for a `val` from -32 to -1.
unfoldable pub negative_fixnum : ℤ → ℕ
negative_fixnum (pos n) = (0xe0 + n + 32) % 256
negative_fixnum (negsuc n) = (0xe0 + 32 - suc n) % 256

unfoldable pub pack_nonnegative : ℤ → Pack → Pack
pack_nonnegative val s =
    if ltb_ℤ val (pos 128)
    then write_byte (bits_of 1 val) s
    else if leb_ℤ val (pos 0xff)
    then write_byte (bits_of 1 val) (write_byte 0xcc s)
    else if leb_ℤ val (pos 0xffff)
    then write_changed 2 (bits_of 2 val) (write_byte 0xcd s)
    else if leb_ℤ val (pos 0xffffffff)
    then write_changed 4 (bits_of 4 val) (write_byte 0xce s)
    else write_changed 8 (bits_of 8 val) (write_byte 0xcf s)

-- `negsuc n` is -(n + 1): the bounds are -32, -128, -32768 and -2147483648.
unfoldable pub pack_negative : ℤ → Pack → Pack
pack_negative val s =
    if leb_ℤ (negsuc 31) val
    then write_byte (negative_fixnum val) s
    else if leb_ℤ (negsuc 127) val
    then write_byte (bits_of 1 val) (write_byte 0xd0 s)
    else if leb_ℤ (negsuc 32767) val
    then write_changed 2 (bits_of 2 val) (write_byte 0xd1 s)
    else if leb_ℤ (negsuc 2147483647) val
    then write_changed 4 (bits_of 4 val) (write_byte 0xd2 s)
    else write_changed 8 (bits_of 8 val) (write_byte 0xd3 s)

unfoldable pub pack_integer : ℤ → Pack → Pack
pack_integer val s = if leb_ℤ (pos 0) val then pack_nonnegative val s else pack_negative val s

unfoldable pub pack_double : Floats → ℕ → Pack → Pack
pack_double fl val s =
    if fl.same (fl.widen (fl.narrow val)) val
    then write_changed 4 (fl.narrow val) (write_byte 0xca s)
    else write_changed 8 val (write_byte 0xcb s)

-- The head that `pack_string` writes before the bytes.
unfoldable pub pack_string_head : ℕ → Pack → Pack
pack_string_head len s =
    if ltb len 32
    then write_byte (0xa0 + len) s
    else if ltb len 256
    then write_byte len (write_byte 0xd9 s)
    else if ltb len 65536
    then write_changed 2 len (write_byte 0xda s)
    else write_changed 4 len (write_byte 0xdb s)

-- The length goes into a uint32_t.
unfoldable pub pack_string : List ℕ → Pack → Pack
pack_string p s = let len = length p % 2 ^ 32 in write (front len p) (pack_string_head len s)

unfoldable pub pack_arr_head : ℕ → Pack → Pack
pack_arr_head len s =
    if ltb len 16
    then write_byte (0x90 + len) s
    else if ltb len 65536
    then write_changed 2 len (write_byte 0xdc s)
    else write_changed 4 len (write_byte 0xdd s)

unfoldable pub pack_map_head : ℕ → Pack → Pack
pack_map_head len s =
    if ltb len 16
    then write_byte (0x80 + len) s
    else if ltb len 65536
    then write_changed 2 len (write_byte 0xde s)
    else write_changed 4 len (write_byte 0xdf s)
