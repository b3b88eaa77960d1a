-- ===== src/Msgpack/RoundTrip/Steps.antt =====
-- msgpack/cc/lmsgpack.cc: one step of `encode`, and of `decode` on what it wrote.
use mathlib.Core.List.{append_assoc}
use luatest.Prelude.{
  ℕ, zero, suc, ◌+◌, ◌*◌, ◌<◌, ◌≡◌, refl, ap, ◌∙◌, List, [], ◌++◌, true, arith, length,
  length-append,
}
use luatest.Msgpack.Floats.{Floats}
use luatest.Msgpack.Pack.{Pack}
use luatest.Msgpack.Unpack.{Val, arr, map}
use luatest.Msgpack.Encode.{Encoder, leave}
use luatest.Msgpack.Decode.{
  Built, Items, Pairs, Outcome, is_key, settable, rebuild, accept, decode, decode_items,
  decode_pairs,
}
use luatest.Msgpack.RoundTrip.Writes.{Writes, Writes-refl, Writes-trans}
use luatest.Msgpack.RoundTrip.Heads.{Codes}

-- From `s` to `s'` the encoder wrote bytes that `decode` turns into `b`, whatever follows.
pub record Encodes (fl : Floats) (s s' : Encoder) (b : Built) : Type 0 where
  pub bytes : List ℕ
  pub nonempty : 0 < length bytes
  pub writes : Writes s.pack bytes s'.pack
  pub same_dep : s'.dep ≡ s.dep
  pub reads :
      (f : ℕ) (rest : List ℕ)
      → 2 * length (bytes ++ rest) < f
      → decode fl f (bytes ++ rest) ≡ Outcome.ok (b, rest)

-- The same of the entries of an array and of a map.
pub record EncodesItems (fl : Floats) (s s' : Encoder) (n : ℕ) (xs : Items) : Type 0 where
  pub bytes : List ℕ
  pub writes : Writes s.pack bytes s'.pack
  pub same_dep : s'.dep ≡ s.dep
  pub reads :
      (f : ℕ) (rest : List ℕ)
      → 2 * length (bytes ++ rest) + 1 < f
      → decode_items fl f n (bytes ++ rest) ≡ Outcome.ok (xs, rest)

pub record EncodesPairs (fl : Floats) (s s' : Encoder) (n : ℕ) (ps : Pairs) : Type 0 where
  pub bytes : List ℕ
  pub writes : Writes s.pack bytes s'.pack
  pub same_dep : s'.dep ≡ s.dep
  pub reads :
      (f : ℕ) (rest : List ℕ)
      → 2 * length (bytes ++ rest) + 1 < f
      → decode_pairs fl f n (bytes ++ rest) ≡ Outcome.ok (ps, rest)

module _ (fl : Floats) where
  -- A value that is one call of the writer.
  pub atom :
      (s : Encoder) (t : Pack) (v : Val) (b : Built)
      → ((i : ℕ → List ℕ → Outcome (Items × List ℕ)) (p : ℕ → List ℕ → Outcome (Pairs × List ℕ))
            (rest : List ℕ)
          → rebuild i p v rest ≡ Outcome.ok (b, rest))
      → Codes fl s.pack v t
      → Encodes fl s (record s { pack = t }) b
  atom s t v b h c = record {
    bytes = c.bytes;
    nonempty = c.nonempty;
    writes = c.writes;
    same_dep = refl;
    reads = read;
  }
    where
      read :
          (f : ℕ) (rest : List ℕ)
          → 2 * length (c.bytes ++ rest) < f
          → decode fl f (c.bytes ++ rest) ≡ Outcome.ok (b, rest)
      read zero rest less = absurd (omega arith)
      read (suc f) rest less =
          unfold decode accept in rw (c.reads rest) (h (decode_items fl f) (decode_pairs fl f) rest)

  pub nil_items : (s : Encoder) → EncodesItems fl s s 0 Items.end
  nil_items s = record { bytes = []; writes = Writes-refl s.pack; same_dep = refl; reads = read }
    where
      read :
          (f : ℕ) (rest : List ℕ)
          → 2 * length rest + 1 < f
          → decode_items fl f 0 rest ≡ Outcome.ok (Items.end, rest)
      read zero rest less = absurd (omega arith)
      read (suc f) rest less = unfold decode in refl

  pub nil_pairs : (s : Encoder) → EncodesPairs fl s s 0 Pairs.done
  nil_pairs s = record { bytes = []; writes = Writes-refl s.pack; same_dep = refl; reads = read }
    where
      read :
          (f : ℕ) (rest : List ℕ)
          → 2 * length rest + 1 < f
          → decode_pairs fl f 0 rest ≡ Outcome.ok (Pairs.done, rest)
      read zero rest less = absurd (omega arith)
      read (suc f) rest less = unfold decode in refl

  pub cons_items :
      (s t u : Encoder) (n : ℕ) (b : Built) (xs : Items)
      → Encodes fl s t b
      → EncodesItems fl t u n xs
      → EncodesItems fl s u (suc n) (Items.item b xs)
  cons_items s t u n b xs one more = record {
    bytes = one.bytes ++ more.bytes;
    writes = Writes-trans one.bytes more.bytes one.writes more.writes;
    same_dep = more.same_dep ∙ one.same_dep;
    reads = λ f rest less.
        rw (append_assoc one.bytes more.bytes rest)
          (read f rest (rw (append_assoc one.bytes more.bytes rest) at less));
  }
    where
      read :
          (f : ℕ) (rest : List ℕ)
          → 2 * length (one.bytes ++ (more.bytes ++ rest)) + 1 < f
          → decode_items fl f (suc n) (one.bytes ++ (more.bytes ++ rest))
            ≡ Outcome.ok (Items.item b xs, rest)
      read zero rest less = absurd (omega arith)
      read (suc f) rest less =
          unfold decode in
          rw (
            one.reads f (more.bytes ++ rest) (omega arith),
            more.reads f rest
                (omega (arith, one.nonempty, length-append one.bytes (more.bytes ++ rest))),
          )

  pub cons_pairs :
      (s t u w : Encoder) (n : ℕ) (k b : Built) (ps : Pairs)
      → is_key fl k ≡ true
      → Encodes fl s t k
      → Encodes fl t u b
      → EncodesPairs fl u w n ps
      → EncodesPairs fl s w (suc n) (Pairs.pair k b ps)
  cons_pairs s t u w n k b ps ok_key one two more = record {
    bytes = one.bytes ++ (two.bytes ++ more.bytes);
    writes =
        Writes-trans one.bytes (two.bytes ++ more.bytes) one.writes
          (Writes-trans two.bytes more.bytes two.writes more.writes);
    same_dep = more.same_dep ∙ two.same_dep ∙ one.same_dep;
    reads = λ f rest less. rw (regroup rest) (read f rest (rw (regroup rest) at less));
  }
    where
      regroup :
          (rest : List ℕ)
          → (one.bytes ++ (two.bytes ++ more.bytes)) ++ rest
            ≡ one.bytes ++ (two.bytes ++ (more.bytes ++ rest))
      regroup rest =
          append_assoc one.bytes (two.bytes ++ more.bytes) rest
          ∙ ap (◌++◌ one.bytes) (append_assoc two.bytes more.bytes rest)

      keyed : settable fl k ≡ Outcome.ok tt
      keyed = unfold settable in rw ok_key

      read :
          (f : ℕ) (rest : List ℕ)
          → 2 * length (one.bytes ++ (two.bytes ++ (more.bytes ++ rest))) + 1 < f
          → decode_pairs fl f (suc n) (one.bytes ++ (two.bytes ++ (more.bytes ++ rest)))
            ≡ Outcome.ok (Pairs.pair k b ps, rest)
      read zero rest less = absurd (omega arith)
      read (suc f) rest less =
          let first = length-append one.bytes (two.bytes ++ (more.bytes ++ rest)) in
          let second = length-append two.bytes (more.bytes ++ rest) in
          unfold decode in
          rw (
            one.reads f (two.bytes ++ (more.bytes ++ rest)) (omega arith),
            two.reads f (more.bytes ++ rest) (omega (arith, first)),
            keyed,
            more.reads f rest (omega (arith, one.nonempty, first, second)),
          )

  -- A table: its head, then its entries, one level down.
  pub table_items :
      (s t u : Encoder) (n : ℕ) (xs : Items)
      → Codes fl s.pack (arr n) t.pack
      → t.dep ≡ s.dep + 1
      → EncodesItems fl t u n xs
      → Encodes fl s (leave u) (Built.array xs)
  unfolding leave
  table_items s t u n xs c down es = record {
    bytes = c.bytes ++ es.bytes;
    nonempty = omega (arith, c.nonempty, length-append c.bytes es.bytes);
    writes = Writes-trans c.bytes es.bytes c.writes es.writes;
    same_dep = omega (arith, down, es.same_dep);
    reads = λ f rest less.
        rw (append_assoc c.bytes es.bytes rest)
          (read f rest (rw (append_assoc c.bytes es.bytes rest) at less));
  }
    where
      read :
          (f : ℕ) (rest : List ℕ)
          → 2 * length (c.bytes ++ (es.bytes ++ rest)) < f
          → decode fl f (c.bytes ++ (es.bytes ++ rest)) ≡ Outcome.ok (Built.array xs, rest)
      read zero rest less = absurd (omega arith)
      read (suc f) rest less =
          unfold decode accept rebuild in
          rw (
            c.reads (es.bytes ++ rest),
            es.reads f rest (omega (arith, c.nonempty, length-append c.bytes (es.bytes ++ rest))),
          )

  pub table_pairs :
      (s t u : Encoder) (n : ℕ) (ps : Pairs)
      → Codes fl s.pack (map n) t.pack
      → t.dep ≡ s.dep + 1
      → EncodesPairs fl t u n ps
      → Encodes fl s (leave u) (Built.object ps)
  unfolding leave
  table_pairs s t u n ps c down es = record {
    bytes = c.bytes ++ es.bytes;
    nonempty = omega (arith, c.nonempty, length-append c.bytes es.bytes);
    writes = Writes-trans c.bytes es.bytes c.writes es.writes;
    same_dep = omega (arith, down, es.same_dep);
    reads = λ f rest less.
        rw (append_assoc c.bytes es.bytes rest)
          (read f rest (rw (append_assoc c.bytes es.bytes rest) at less));
  }
    where
      read :
          (f : ℕ) (rest : List ℕ)
          → 2 * length (c.bytes ++ (es.bytes ++ rest)) < f
          → decode fl f (c.bytes ++ (es.bytes ++ rest)) ≡ Outcome.ok (Built.object ps, rest)
      read zero rest less = absurd (omega arith)
      read (suc f) rest less =
          unfold decode accept rebuild in
          rw (
            c.reads (es.bytes ++ rest),
            es.reads f rest (omega (arith, c.nonempty, length-append c.bytes (es.bytes ++ rest))),
          )
