-- ===== src/Msgpack/Decode.antt =====
-- msgpack/cc/lmsgpack.cc: `Decode`, which rebuilds a Lua value from the bytes.
pub mod Total
use luatest.Prelude.{
  ℕ, zero, suc, ◌+◌, ◌*◌, List, Bool, true, false, Option, none, some, length, if◌then◌else◌,
}
use luatest.Prelude.Int.{ℤ}
use luatest.Msgpack.Floats.{Floats}
use luatest.Msgpack.Unpack.{Val, int, dou, str, arr, map, err, parse}

-- What stands on the Lua stack. `array` is a table whose items were set at 1, 2, …; `object` is
-- a table whose pairs were set one after the other.
mutual
  pub data Built : Type 0 where
    nil : Built
    boolean : Bool → Built
    integer : ℤ → Built
    number : ℕ → Built
    string : List ℕ → Built
    array : Items → Built
    object : Pairs → Built

  pub data Items : Type 0 where
    end : Items
    item : Built → Items → Items

  pub data Pairs : Type 0 where
    done : Pairs
    pair : Built → Built → Pairs → Pairs

pub data Outcome {ℓ} (A : Type ℓ) : Type ℓ where
  -- the value, with the bytes from `ps_` on
  ok : A → Outcome A
  -- "msgpack unpack err"
  unpack_err : Outcome A
  -- `lua_settable` refuses a key that is nil or not a number
  bad_key : Outcome A
  -- a read past `pe_`
  overrun : Outcome A
  -- no outcome of the program: the fuel ran out
  stuck : Outcome A

infixl 5 ◌>>=◌ ◌>>◌
abbrev pub ◌>>=◌ {ℓ κ} : {A : Type ℓ} {B : Type κ} → Outcome A → (A → Outcome B) → Outcome B
ok a >>= f = f a
unpack_err >>= f = unpack_err
bad_key >>= f = bad_key
overrun >>= f = overrun
stuck >>= f = stuck

abbrev pub ◌>>◌ {ℓ} : {B : Type ℓ} → Outcome (Unit {0}) → Outcome B → Outcome B
m >> k = m >>= λ _. k

-- Lua takes any key but nil and a NaN, the one number that is not equal to itself.
unfoldable pub is_key : Floats → Built → Bool
is_key fl nil = false
is_key fl (number d) = fl.same d d
is_key fl _ = true

-- What `lua_settable` tests.
unfoldable pub settable : Floats → Built → Outcome (Unit {0})
settable fl k = if is_key fl k then ok tt else bad_key

-- The `switch (val.tp_)`, over the loops that fill an array and a map.
unfoldable pub rebuild :
    (ℕ → List ℕ → Outcome (Items × List ℕ))
    → (ℕ → List ℕ → Outcome (Pairs × List ℕ))
    → Val
    → List ℕ
    → Outcome (Built × List ℕ)
rebuild items pairs Val.nil rest = ok (nil, rest)
rebuild items pairs (Val.boolean b) rest = ok (boolean b, rest)
rebuild items pairs (int v) rest = ok (integer v, rest)
rebuild items pairs (dou d) rest = ok (number d, rest)
rebuild items pairs (str p) rest = ok (string p, rest)
rebuild items pairs (arr len) rest = do (xs, left) ← items len rest; ok (array xs, left)
rebuild items pairs (map len) rest = do (ps, left) ← pairs len rest; ok (object ps, left)
rebuild items pairs err rest = unpack_err

-- What `decode` makes of the result of `parse`.
unfoldable pub accept :
    (ℕ → List ℕ → Outcome (Items × List ℕ))
    → (ℕ → List ℕ → Outcome (Pairs × List ℕ))
    → Option (Val × List ℕ)
    → Outcome (Built × List ℕ)
unfolding rebuild
accept items pairs none = overrun
accept items pairs (some (v, rest)) = rebuild items pairs v rest

-- The method `decode` and its two loops; each call and each round takes one unit of fuel.
unfoldable mutual
  pub decode : Floats → ℕ → List ℕ → Outcome (Built × List ℕ)
  decode fl zero bs = stuck
  decode fl (suc fuel) bs = accept (decode_items fl fuel) (decode_pairs fl fuel) (parse fl bs)

  pub decode_items : Floats → ℕ → ℕ → List ℕ → Outcome (Items × List ℕ)
  decode_items fl zero zero bs = ok (end, bs)
  decode_items fl zero (suc n) bs = stuck
  decode_items fl (suc fuel) zero bs = ok (end, bs)
  decode_items fl (suc fuel) (suc n) bs = do
    (x, rest) ← decode fl fuel bs
    (xs, left) ← decode_items fl fuel n rest
    ok (item x xs, left)

  pub decode_pairs : Floats → ℕ → ℕ → List ℕ → Outcome (Pairs × List ℕ)
  decode_pairs fl zero zero bs = ok (done, bs)
  decode_pairs fl zero (suc n) bs = stuck
  decode_pairs fl (suc fuel) zero bs = ok (done, bs)
  decode_pairs fl (suc fuel) (suc n) bs = do
    (k, rest) ← decode fl fuel bs
    (v, left) ← decode fl fuel rest
    settable fl k
    (ps, last) ← decode_pairs fl fuel n left
    ok (pair k v ps, last)

-- The fuel that is enough for any input.
abbrev pub fuel_for : List ℕ → ℕ
fuel_for bs = 2 * length bs + 1

-- The Lua function `decode`: bytes behind the first value are left alone.
unfoldable pub decode_call : Floats → List ℕ → Outcome (Built × List ℕ)
decode_call fl bs = decode fl (fuel_for bs) bs
