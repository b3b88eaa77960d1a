-- ===== src/Msgpack/Decode/Total.antt =====
-- `decode` ends on every input: the fuel that the model gives it is enough.
use mathlib.Core.Path.{subst}
use luatest.Prelude.{
  Bool-cases, refl, ℕ, zero, suc, ◌+◌, ◌*◌, ◌<◌, ◌≡◌, List, [], ◌∷◌, Option, none, some, arith,
  length, ◌≢◌, inl, inr,
}
use luatest.Msgpack.Floats.{Floats}
use luatest.Msgpack.Unpack.{Val, int, dou, str, arr, map, err, parse}
use luatest.Msgpack.Unpack.Shrinks.{parse_shrinks}
use luatest.Msgpack.Decode.{
  Built, Items, Pairs, Outcome, ok, unpack_err, bad_key, overrun, stuck, ◌>>=◌, ◌>>◌, settable,
  rebuild, accept, decode, decode_items, decode_pairs, decode_call, fuel_for, is_key,
}

-- The fuel did not run out, and less than `n` bytes are left.
abbrev Ends {ℓ} : {A : Type ℓ} → ℕ → Outcome (A × List ℕ) → Type 0
Ends n (ok p) = length p.1 < n
Ends n unpack_err = Unit
Ends n bad_key = Unit
Ends n overrun = Unit
Ends n stuck = ⊥

bind-Ends {ℓ κ} :
    {A : Type ℓ} {B : Type κ} (n k : ℕ) (m : Outcome (A × List ℕ))
    (f : A × List ℕ → Outcome (B × List ℕ))
    → Ends n m
    → ((p : A × List ℕ) → length p.1 < n → Ends k (f p))
    → Ends k (m >>= f)
bind-Ends n k (ok p) f h g = g p h
bind-Ends n k unpack_err f h g = tt
bind-Ends n k bad_key f h g = tt
bind-Ends n k overrun f h g = tt
bind-Ends n k stuck f h g = h

settable-Ends {ℓ} :
    {B : Type ℓ} (fl : Floats) (key : Built) (n : ℕ) (m : Outcome (B × List ℕ))
    → Ends n m
    → Ends n (settable fl key >> m)
unfolding settable
settable-Ends fl key n m h = elim (Bool-cases (is_key fl key)) [ inl e ↦ rw e h | inr e ↦ rw e tt ]

rebuild-Ends :
    (n : ℕ) (items : ℕ → List ℕ → Outcome (Items × List ℕ))
    (pairs : ℕ → List ℕ → Outcome (Pairs × List ℕ)) (v : Val) (rest : List ℕ)
    → length rest < n
    → ((k : ℕ) → Ends n (items k rest))
    → ((k : ℕ) → Ends n (pairs k rest))
    → Ends n (rebuild items pairs v rest)
unfolding rebuild
rebuild-Ends n items pairs Val.nil rest h i p = h
rebuild-Ends n items pairs (Val.boolean b) rest h i p = h
rebuild-Ends n items pairs (int v) rest h i p = h
rebuild-Ends n items pairs (dou d) rest h i p = h
rebuild-Ends n items pairs (str s) rest h i p = h
rebuild-Ends n items pairs (arr len) rest h i p =
    bind-Ends n n (items len rest) _ (i len) (λ _ g. g)
rebuild-Ends n items pairs (map len) rest h i p =
    bind-Ends n n (pairs len rest) _ (p len) (λ _ g. g)
rebuild-Ends n items pairs err rest h i p = tt

accept-Ends :
    (n : ℕ) (items : ℕ → List ℕ → Outcome (Items × List ℕ))
    (pairs : ℕ → List ℕ → Outcome (Pairs × List ℕ)) (o : Option (Val × List ℕ))
    → ((v : Val) (rest : List ℕ)
        → o ≡ some (v, rest)
        → (length rest < n) × ((k : ℕ) → Ends n (items k rest)) × ((k : ℕ) → Ends n (pairs k rest)))
    → Ends n (accept items pairs o)
unfolding accept
accept-Ends n items pairs none h = tt
accept-Ends n items pairs (some (v, rest)) h =
    let (small, i, p) = h v rest refl in rebuild-Ends n items pairs v rest small i p

empty-Ends :
    (fl : Floats) (items : ℕ → List ℕ → Outcome (Items × List ℕ))
    (pairs : ℕ → List ℕ → Outcome (Pairs × List ℕ))
    → Ends 0 (accept items pairs (parse fl []))
unfolding accept parse
empty-Ends fl items pairs = tt

mutual
  unfolding decode

  decode-Ends :
      (fuel : ℕ) (fl : Floats) (bs : List ℕ)
      → 2 * length bs < fuel
      → Ends (length bs) (decode fl fuel bs)
  decode-Ends zero fl bs h = absurd (omega arith)
  decode-Ends (suc fuel) fl [] h = empty-Ends fl (decode_items fl fuel) (decode_pairs fl fuel)
  decode-Ends (suc fuel) fl (m ∷ bs) h =
      accept-Ends (suc (length bs)) (decode_items fl fuel) (decode_pairs fl fuel)
        (parse fl (m ∷ bs))
        λ v rest e.
          let small = parse_shrinks fl m bs v rest e in
          (
            omega arith,
            λ k. items-Ends fuel fl k rest (suc (length bs)) (omega arith) (omega arith),
            λ k. pairs-Ends fuel fl k rest (suc (length bs)) (omega arith) (omega arith),
          )

  items-Ends :
      (fuel : ℕ) (fl : Floats) (k : ℕ) (bs : List ℕ) (n : ℕ)
      → 2 * length bs + 1 < fuel
      → length bs < n
      → Ends n (decode_items fl fuel k bs)
  items-Ends zero fl k bs n h g = absurd (omega arith)
  items-Ends (suc fuel) fl zero bs n h g = g
  items-Ends (suc fuel) fl (suc k) bs n h g =
      bind-Ends (length bs) n (decode fl fuel bs) _ (decode-Ends fuel fl bs (omega arith))
        λ p small.
          bind-Ends n n (decode_items fl fuel k p.1) _
            (items-Ends fuel fl k p.1 n (omega arith) (omega arith)) λ q left. left

  pairs-Ends :
      (fuel : ℕ) (fl : Floats) (k : ℕ) (bs : List ℕ) (n : ℕ)
      → 2 * length bs + 1 < fuel
      → length bs < n
      → Ends n (decode_pairs fl fuel k bs)
  pairs-Ends zero fl k bs n h g = absurd (omega arith)
  pairs-Ends (suc fuel) fl zero bs n h g = g
  pairs-Ends (suc fuel) fl (suc k) bs n h g =
      bind-Ends (length bs) n (decode fl fuel bs) _ (decode-Ends fuel fl bs (omega arith))
        λ p small.
          bind-Ends (length p.1) n (decode fl fuel p.1) _ (decode-Ends fuel fl p.1 (omega arith))
            λ q less. settable-Ends fl p.0 n _ (
              bind-Ends n n (decode_pairs fl fuel k q.1) _
                (pairs-Ends fuel fl k q.1 n (omega arith) (omega arith)) (λ r left. left))

-- `decode` never runs out of fuel, whatever bytes it is given.
pub decode_call-ne-stuck : (fl : Floats) (bs : List ℕ) → decode_call fl bs ≢ stuck
unfolding decode_call
decode_call-ne-stuck fl bs e =
    subst (Ends (length bs)) e (decode-Ends (fuel_for bs) fl bs (omega arith))
