-- ===== src/Msgpack/RoundTrip/Heads.antt =====
-- Markers with a field of a few bytes, and the reader on them.
use mathlib.Core.List.{append_assoc}
use luatest.Prelude.{
  arith, length-append, sym, ℕ, ◌%◌, ◌^◌, ◌<◌, ◌≤◌, ◌≡◌, refl, ap, ◌∙◌, List, [], ◌∷◌, ◌++◌, some,
  length,
}
use luatest.Memory.Reads.{split, split-append}
use luatest.Memory.{
  to_memory, of_memory, endian_change, length-to_memory, to_memory-endian_change,
  endian_change-endian_change, endian_change-lt, of_memory-to_memory,
}
use luatest.Msgpack.Floats.{Floats}
use luatest.Msgpack.Pack.{Pack, write, write_byte, write_changed}
use luatest.Msgpack.Unpack.{Val, str, parselen, parse_str, parse_field, parse}
use luatest.Msgpack.RoundTrip.Writes.{
  Writes, write-Writes, Writes-trans, write_byte-Writes, write_changed-Writes,
}

-- Between `s` and `t` the writer emitted bytes that the reader turns into `v`, whatever follows.
pub record Codes (fl : Floats) (s : Pack) (v : Val) (t : Pack) : Type 0 where
  pub bytes : List ℕ
  pub nonempty : 0 < length bytes
  pub writes : Writes s bytes t
  pub reads : (rest : List ℕ) → parse fl (bytes ++ rest) ≡ some (v, rest)

-- `parselen` reads back the field that was written with its bytes changed.
pub parselen-to_memory :
    (k v : ℕ) (rest : List ℕ)
    → v < 256 ^ k
    → parselen k (to_memory k (endian_change k v) ++ rest) ≡ some (v, rest)
unfolding parselen
parselen-to_memory k v rest h = rw (front) (ap (λ (n : ℕ). some (n, rest)) back)
  where
    raw : List ℕ
    raw = to_memory k (endian_change k v)

    front : split k (raw ++ rest) ≡ some (raw, rest)
    front =
        ap (λ (n : ℕ). split n (raw ++ rest)) (sym (length-to_memory k (endian_change k v)))
        ∙ split-append raw rest

    back : endian_change k (of_memory raw) ≡ v
    back =
        ap (endian_change k) (of_memory-to_memory k (endian_change k v) (endian_change-lt k v))
        ∙ endian_change-endian_change k v h

module _ (fl : Floats) (s : Pack) where
  -- A value that is its marker alone.
  pub code_marker :
      (m : ℕ) (v : Val)
      → ((bs : List ℕ) → parse fl (m % 256 ∷ bs) ≡ some (v, bs))
      → Codes fl s v (write_byte m s)
  code_marker m v h = record {
    bytes = m % 256 ∷ [];
    nonempty = omega arith;
    writes = write_byte-Writes m s;
    reads = λ rest. h rest;
  }

  -- A marker and a field of `k` bytes.
  pub code_field :
      (m k n : ℕ) (make : ℕ → Val)
      → k ≤ 8
      → n < 256 ^ k
      → ((bs : List ℕ) → parse fl (m % 256 ∷ bs) ≡ parse_field k make bs)
      → Codes fl s (make n) (write_changed k n (write_byte m s))
  code_field m k n make slim fits h = record {
    bytes = m % 256 ∷ to_memory k (endian_change k n);
    nonempty = omega arith;
    writes =
        Writes-trans (m % 256 ∷ []) (to_memory k (endian_change k n)) (write_byte-Writes m s)
          (write_changed-Writes k n (write_byte m s) slim);
    reads = λ rest. h _ ∙ field rest;
  }
    where
      field :
          (rest : List ℕ)
          → parse_field k make (to_memory k (endian_change k n) ++ rest) ≡ some (make n, rest)
      field rest = unfold parse_field in rw (parselen-to_memory k n rest fits)

  -- A string: its head gives the length, and its bytes follow.
  pub code_string :
      (p : List ℕ) (t : Pack) (head : List ℕ)
      → 0 < length head
      → length p < 2 ^ 31
      → Writes s head t
      → ((bs : List ℕ) → parse fl (head ++ bs) ≡ parse_str (length p) bs)
      → Codes fl s (str p) (write p t)
  code_string p t head some_head short w h = record {
    bytes = head ++ p;
    nonempty = omega (arith, length-append head p);
    writes = Writes-trans head p w (write-Writes p t short);
    reads = λ rest. rw (append_assoc head p rest) (h (p ++ rest) ∙ body rest);
  }
    where
      body : (rest : List ℕ) → parse_str (length p) (p ++ rest) ≡ some (str p, rest)
      body rest = unfold parse_str in rw (split-append p rest)

-- One byte reads the same in both orders.
pub write_changed-one : (v : ℕ) → write_changed 1 v ≡ write_byte v
unfolding write_changed write_byte
write_changed-one v = ap write (to_memory-endian_change 1 v ∙ unfold to_memory in refl)
