-- ===== src/Msgpack/Encode.antt =====
-- msgpack/cc/lmsgpack.cc: `Encode`, which walks a Lua value and writes it.
pub mod Bounds
use luatest.Prelude.{
  ℕ, suc, ◌+◌, ◌-◌, ◌%◌, ◌^◌, List, [], Bool, true, false, ltb, ◌==◌, if◌then◌else◌,
}
use luatest.Prelude.Int.{ℤ}
use luatest.Msgpack.Floats.{Floats}
use luatest.Msgpack.Pack.{
  Pack, pack_nil, pack_boolean, pack_integer, pack_double, pack_string, pack_arr_head,
  pack_map_head,
}

-- A Lua value as the Lua API shows it. A table is its raw length (`lua_rawlen`) with its entries
-- in the order in which `lua_traversal` visits them; `other` is a value of any further type.
mutual
  pub data Value : Type 0 where
    nil : Value
    boolean : Bool → Value
    integer : ℤ → Value
    number : ℕ → Value
    string : List ℕ → Value
    table : ℕ → Entries → Value
    other : ℕ → Value

  pub data Entries : Type 0 where
    end : Entries
    entry : Value → Value → Entries → Entries

pub data Error : Type 0 where
  -- "msgpack dep err"
  too_deep : Error
  -- "msgpack encode type err %d"
  bad_type : ℕ → Error
  -- "msgpack buff overflow"
  overflow : Error
  -- Not an error of the source: `memcpy` got a negative length.
  wild_copy : Error

pub data Result {ℓ} (A : Type ℓ) : Type ℓ where
  ok : A → Result A
  raise : Error → Result A

infixl 5 ◌>>=◌
abbrev pub ◌>>=◌ {ℓ κ} : {A : Type ℓ} {B : Type κ} → Result A → (A → Result B) → Result B
ok a >>= f = f a
raise e >>= f = raise e

-- `Encode`, less the Lua state.
pub record Encoder : Type 0 where
  pub pack : Pack
  pub dep : ℕ

abbrev pub put : (Pack → Pack) → Encoder → Result Encoder
put f s = ok (record s { pack = f s.pack })

-- `table_len` counts the entries.
unfoldable pub table_len : Entries → ℕ
table_len end = 0
table_len (entry k v es) = suc (table_len es)

-- `++dep_`, with the test of the depth.
unfoldable pub enter : Encoder → Result Encoder
enter s = if ltb 10 (s.dep + 1) then raise too_deep else ok (record s { dep = s.dep + 1 })

-- `--dep_`
unfoldable pub leave : Encoder → Encoder
leave s = record s { dep = s.dep - 1 }

-- Both counts are cut to 32 bits before they are compared.
unfoldable pub is_array : ℕ → Entries → Bool
unfolding table_len
is_array rawlen es = rawlen % 2 ^ 32 == table_len es % 2 ^ 32

-- The head that `encode_table` writes.
unfoldable pub pack_head : Bool → ℕ → Pack → Pack
pack_head true = pack_arr_head
pack_head false = pack_map_head

-- `encode`, `encode_table`, and the two callbacks over the entries: an array's values, a map's keys
-- and values.
unfoldable mutual
  pub encode : Floats → Value → Encoder → Result Encoder
  encode fl nil s = put pack_nil s
  encode fl (boolean b) s = put (pack_boolean b) s
  encode fl (integer v) s = put (pack_integer v) s
  encode fl (number d) s = put (pack_double fl d) s
  encode fl (string p) s = put (pack_string p) s
  encode fl (table rawlen es) s = do
    s1 ← enter s
    s2 ← put (pack_head (is_array rawlen es) (table_len es % 2 ^ 32)) s1
    s3 ← encode_entries fl (is_array rawlen es) es s2
    ok (leave s3)
  encode fl (other type) s = raise (bad_type type)

  pub encode_entries : Floats → Bool → Entries → Encoder → Result Encoder
  encode_entries fl array end s = ok s
  encode_entries fl true (entry k v es) s = do s1 ← encode fl v s; encode_entries fl true es s1
  encode_entries fl false (entry k v es) s = do
    s1 ← encode fl k s
    s2 ← encode fl v s1
    encode_entries fl false es s2

abbrev pub fresh : ℕ → Encoder
fresh cap = record { pack = record { cap = cap; out = []; over = false; wild = false }; dep = 0 }

unfoldable pub finish : Encoder → Result (List ℕ)
finish s =
    if s.pack.wild then raise wild_copy else if s.pack.over then raise overflow else ok s.pack.out

-- The Lua function `encode` of a packer with a buffer of `cap` bytes.
unfoldable pub encode_call : Floats → ℕ → Value → Result (List ℕ)
encode_call fl cap v = do s ← encode fl v (fresh cap); finish s
