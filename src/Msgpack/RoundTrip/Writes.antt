-- ===== src/Msgpack/RoundTrip/Writes.antt =====
-- The writer's buffer across a sequence of writes.
use mathlib.Core.List.{append_assoc, append-nil}
use luatest.Prelude.{
  sym, refl, ℕ, ◌+◌, ◌%◌, ◌^◌, ◌<◌, ◌≤◌, leb, ◌≡◌, ap, ◌∙◌, List, [], ◌∷◌, ◌++◌, false, arith,
  length, length-append,
}
use luatest.Msgpack.Pack.{Pack, size_of_sum, write, write_byte, write_changed}
use luatest.Memory.{to_memory, endian_change, length-to_memory}

-- The buffer has the size of an int, and the bytes lie in it.
pub record IsSized (s : Pack) : Type 0 where
  pub small : s.cap < 2 ^ 31
  pub in_bounds : length s.out ≤ s.cap

-- From `s` to `t` the bytes `bs` were written, all of them unless the buffer overflowed; it does
-- not overflow where they fit with a byte to spare.
pub record Wrote (s : Pack) (bs : List ℕ) (t : Pack) : Type 0 where
  pub same_cap : t.cap ≡ s.cap
  pub same_wild : t.wild ≡ s.wild
  pub room : s.over ≡ false → length s.out + length bs < s.cap → t.over ≡ false
  pub kept : t.over ≡ false → s.over ≡ false
  pub appended : t.over ≡ false → t.out ≡ s.out ++ bs
  pub bounded : 0 < length bs → t.over ≡ false → length s.out + length bs < s.cap
  pub inside : length t.out ≤ t.cap

abbrev pub Writes : Pack → List ℕ → Pack → Type 0
Writes s bs t = IsSized s → Wrote s bs t

pub Wrote-IsSized : {s t : Pack} (bs : List ℕ) → IsSized s → Wrote s bs t → IsSized t
Wrote-IsSized bs z w = record { small = omega (arith, z.small, w.same_cap); in_bounds = w.inside }

-- With lengths below 2^31 the test of `write` is the one of the plain sum.
size_test :
    (n len cap : ℕ)
    → n ≤ cap
    → cap < 2 ^ 31
    → len < 2 ^ 31
    → leb cap (size_of_sum n len) ≡ leb cap (n + len)
unfolding size_of_sum
size_test n len cap h c l = ground arith

short_test : (len : ℕ) → len < 2 ^ 31 → leb (2 ^ 31) len ≡ false
short_test len h = ground arith

pub write-Writes : (p : List ℕ) (s : Pack) → length p < 2 ^ 31 → Writes s p (write p s)
unfolding write
write-Writes p s l z =
    rw (size_test (length s.out) (length p) s.cap z.in_bounds z.small l, short_test (length p) l)
      (record {
        same_cap = ground arith;
        same_wild = ground arith;
        room = ground arith;
        kept = ground arith;
        appended = ground arith;
        bounded = ground arith;
        inside = ground (arith, z.in_bounds, length-append s.out p);
      })

pub write_byte-Writes : (v : ℕ) (s : Pack) → Writes s (v % 256 ∷ []) (write_byte v s)
unfolding write_byte
write_byte-Writes v s = write-Writes (v % 256 ∷ []) s (omega arith)

pub write_changed-Writes :
    (k v : ℕ) (s : Pack) → k ≤ 8 → Writes s (to_memory k (endian_change k v)) (write_changed k v s)
unfolding write_changed
write_changed-Writes k v s h =
    write-Writes (to_memory k (endian_change k v)) s
      (omega (arith, length-to_memory k (endian_change k v)))

pub Writes-trans :
    {s t u : Pack} (xs ys : List ℕ) → Writes s xs t → Writes t ys u → Writes s (xs ++ ys) u
Writes-trans {s} {t} {u} xs ys f g z = let p = f z in joined p (g (Wrote-IsSized xs z p))
  where
    size : length (xs ++ ys) ≡ length xs + length ys
    size = length-append xs ys

    joined : Wrote s xs t → Wrote t ys u → Wrote s (xs ++ ys) u
    joined p q =
        let grown : t.over ≡ false → length t.out ≡ length s.out + length xs =
          λ o. ap length (p.appended o) ∙ length-append s.out xs in
        record {
          same_cap = q.same_cap ∙ p.same_cap;
          same_wild = q.same_wild ∙ p.same_wild;
          room = λ o h.
              let first = p.room o (omega (arith, size)) in
              q.room first (omega (arith, size, grown first, p.same_cap));
          kept = λ o. p.kept (q.kept o);
          appended = λ o. q.appended o ∙ rw (p.appended (q.kept o)) (append_assoc s.out xs ys);
          bounded = λ h o.
              ground (arith, size, grown (q.kept o), p.same_cap, q.bounded, p.bounded, q.kept o, o);
          inside = q.inside;
        }

pub Writes-refl : (s : Pack) → Writes s [] s
Writes-refl s z = record {
  same_cap = refl;
  same_wild = refl;
  room = λ o h. o;
  kept = λ o. o;
  appended = λ o. sym (append-nil s.out);
  bounded = λ h. absurd (omega arith);
  inside = z.in_bounds;
}
