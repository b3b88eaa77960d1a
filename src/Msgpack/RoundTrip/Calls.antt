-- ===== src/Msgpack/RoundTrip/Calls.antt =====
-- msgpack/cc/lmsgpack.cc: the Lua functions `encode` and `decode`, one after the other.
use mathlib.Core.List.{append-nil}
use luatest.Prelude.{
  ◌*◌, ap, ◌∙◌, ℕ, suc, ◌+◌, ◌≤◌, ◌<◌, ◌^◌, ◌≡◌, refl, List, [], ◌∷◌, none, arith, length, ltb,
  if◌then◌else◌,
}
use luatest.Msgpack.Floats.{Floats}
use luatest.Memory.Reads.{split}
use luatest.Msgpack.Unpack.{parse_str, parse, parse_marker}
use luatest.Msgpack.Encode.{
  Value, Encoder, ok, raise, overflow, wild_copy, fresh, finish, encode_call,
}
use luatest.Msgpack.Decode.{Outcome, decode, decode_call, accept, overrun, fuel_for}
use luatest.Msgpack.RoundTrip.Steps.{Encodes}
use luatest.Msgpack.RoundTrip.Values.{encode-Done}
use luatest.Msgpack.RoundTrip.View.{height, view, IsPackable}

-- Let the buffer have the size of an int. A value of the format's types, with strings shorter than
-- 2^31 bytes and at most ten levels of tables, has bytes that `decode` turns into its view and uses
-- up; `encode` returns them if they are fewer than the bytes of its buffer, and raises the overflow
-- error otherwise.
pub decode_call-encode_call :
    (fl : Floats) (cap : ℕ) (v : Value)
    → cap < 2 ^ 31
    → IsPackable fl v
    → height v ≤ 10
    → (bs : List ℕ) × (decode_call fl bs ≡ Outcome.ok (view v, []))
      × (encode_call fl cap v ≡ (if ltb (length bs) cap then ok bs else raise overflow))
unfolding encode_call decode_call finish
decode_call-encode_call fl cap v small p h =
    let (t, e, enc) = encode-Done v fl (fresh cap) p (omega arith) in
    (enc.bytes, back enc, rw e (written t enc))
  where
    back :
        {t : Encoder} (enc : Encodes fl (fresh cap) t (view v))
        → decode fl (fuel_for enc.bytes) enc.bytes ≡ Outcome.ok (view v, [])
    back enc =
        rw (append-nil enc.bytes) at
          (enc.reads (fuel_for enc.bytes) [] (rw (append-nil enc.bytes) (omega arith)))

    written :
        (t : Encoder) (enc : Encodes fl (fresh cap) t (view v))
        → (if t.pack.wild
            then raise wild_copy
            else if t.pack.over
            then raise overflow
            else ok t.pack.out)
          ≡ (if ltb (length enc.bytes) cap then ok enc.bytes else raise overflow)
    written t enc =
        let w = enc.writes (record { small = small; in_bounds = omega arith }) in
        rw w.same_wild (ground (arith, w.room refl, w.appended, w.bounded enc.nonempty))

split_short : (n : ℕ) (p : List ℕ) → length p < n → split n p ≡ none
unfolding split
split_short (suc n) [] h = refl
split_short (suc n) (b ∷ p) h = rw (split_short n p (omega arith))
split_short n p h = absurd (omega arith)

decode_truncated :
    (fl : Floats) (f n : ℕ) (p : List ℕ)
    → n < 32
    → length p < n
    → decode fl (suc f) ((0xa0 + n) ∷ p) ≡ overrun
unfolding decode accept parse
decode_truncated fl f n p h short = rw (marker) (refl)
  where
    marker : parse_marker fl (0xa0 + n) p ≡ none
    marker = unfold parse_marker parse_str in ground (arith, split_short n p)

-- A short string that is cut off before its end makes `decode` read past the input: there is no
-- test of the bytes that are left, and no error.
pub decode_call_truncated :
    (fl : Floats) (n : ℕ) (p : List ℕ)
    → n < 32
    → length p < n
    → decode_call fl ((0xa0 + n) ∷ p) ≡ overrun
unfolding decode_call
decode_call_truncated fl n p h short =
    ap (λ (f : ℕ). decode fl f ((0xa0 + n) ∷ p)) (omega arith)
    ∙ decode_truncated fl (2 * suc (length p)) n p h short
