-- ===== src/Rank/Serial/RoundTrip.antt =====
-- `deseri` ends on every input, and reads back what `seri` writes.
use mathlib.Core.Path.{subst}
use mathlib.Core.List.{append_assoc, append-nil}
use native.Mathlib.Nat.{mod-eq_of_lt}
use luatest.Prelude.{
  ◌≡◌, ◌∙◌, sym, ap, refl, ℕ, zero, suc, ◌^◌, ◌≤◌, ◌<◌, List, [], ◌∷◌, ◌++◌, some, length, arith,
  All, length-append,
}
use luatest.Memory.{to_memory, bits_of, of_memory-to_memory}
use luatest.Memory.Reads.{split-append}
use luatest.Memory.Fields.{IsInt64, front-length, split-to_memory, int_back}
use luatest.Std.Set.{Sorted}
use luatest.Rank.{Rankele, Rank, rank_key, rank_order, add}
use luatest.Rank.Valid.{IsValid}
use luatest.Rank.Append.{adds, adds-append, ids_differ, IdsDiffer}
use luatest.Rank.Serial.{ele_bytes, seri_loop, seri, read_ele, loaded, deseri_loop, deseri}

-- The length of the id fits a uint16_t.
abbrev pub IsStorable : Rankele → Type 0
IsStorable e = (length e.id < 2 ^ 16) × IsInt64 e.score × IsInt64 e.tm

read_ele-ele_bytes :
    (e : Rankele) (rest : List ℕ) → IsStorable e → read_ele (ele_bytes e ++ rest) ≡ some (e, rest)
unfolding read_ele ele_bytes
read_ele-ele_bytes e rest (small, score, tm) =
    rw
      (
        mod-eq_of_lt small,
        front-length e.id,
        append_assoc (to_memory 2 (length e.id)) (e.id ++ (s ++ t)) rest,
        append_assoc e.id (s ++ t) rest,
        append_assoc s t rest,
        split-to_memory 2 (length e.id) (e.id ++ (s ++ (t ++ rest))),
        of_memory-to_memory 2 (length e.id) (omega (arith, small)),
        split-append e.id (s ++ (t ++ rest)),
        split-to_memory 8 (bits_of 8 e.score) (t ++ rest),
        split-to_memory 8 (bits_of 8 e.tm) rest,
        int_back e.score score,
        int_back e.tm tm,
      )
      refl
  where
    s : List ℕ
    s = to_memory 8 (bits_of 8 e.score)

    t : List ℕ
    t = to_memory 8 (bits_of 8 e.tm)

-- The bytes of an element are not empty.
ele_bytes-cons :
    (e : Rankele) (rest : List ℕ) → (b : ℕ) × ((bs : List ℕ) × (ele_bytes e ++ rest ≡ b ∷ bs))
unfolding ele_bytes to_memory
ele_bytes-cons e rest = (_, (_, refl))

turn_on :
    (fuel b : ℕ) (bs : List ℕ) (e : Rankele) (rest : List ℕ) (r : Rank)
    → read_ele (b ∷ bs) ≡ some (e, rest)
    → deseri_loop (suc fuel) (b ∷ bs) r ≡ deseri_loop fuel rest (add e r)
unfolding deseri_loop
turn_on fuel b bs e rest r h = rw (deseri_loop, h) refl

turn :
    (fuel : ℕ) (e : Rankele) (rest : List ℕ) (r : Rank)
    → IsStorable e
    → deseri_loop (suc fuel) (ele_bytes e ++ rest) r ≡ deseri_loop fuel rest (add e r)
turn fuel e rest r h =
    let (b, (bs, same)) = ele_bytes-cons e rest in
    let read : read_ele (b ∷ bs) ≡ some (e, rest) =
      ap read_ele (sym same) ∙ read_ele-ele_bytes e rest h in
    ap (λ l. deseri_loop (suc fuel) l r) same ∙ turn_on fuel b bs e rest r read

loop-seri_loop :
    (es : List Rankele) (fuel : ℕ) (r : Rank)
    → All IsStorable es
    → length es ≤ fuel
    → deseri_loop fuel (seri_loop es) r ≡ loaded (adds es r)
unfolding seri_loop deseri_loop
loop-seri_loop [] fuel r h k = refl
loop-seri_loop (e ∷ es) zero r h k = absurd (omega arith)
loop-seri_loop (e ∷ es) (suc fuel) r h k =
    turn fuel e (seri_loop es) r h.0 ∙ loop-seri_loop es fuel (add e r) h.1 (omega arith)

length-seri_loop : (es : List Rankele) → length es ≤ length (seri_loop es)
unfolding seri_loop
length-seri_loop [] = omega arith
length-seri_loop (e ∷ es) =
    let (b, (bs, same)) = ele_bytes-cons e [] in
    omega (
      arith,
      length-seri_loop es,
      length-append (ele_bytes e) (seri_loop es),
      ap length (sym (append-nil (ele_bytes e)) ∙ same),
    )

-- What `seri` writes of a valid ranking, with ids shorter than 2^16 and int64_t values, `deseri` adds
-- to an empty ranking of the same size: a valid ranking with the same elements.
pub deseri-seri :
    (r start : Rank)
    → IsValid r
    → All IsStorable r.ranks
    → IsValid start
    → start.ranks ≡ []
    → start.max ≡ r.max
    → (s : Rank) × ((deseri (seri r) start ≡ loaded s) × IsValid s × (s.ranks ≡ r.ranks))
unfolding deseri seri
deseri-seri r start v h w none_yet size =
    let all : start.ranks ++ r.ranks ≡ r.ranks = ap (λ l. l ++ r.ranks) none_yet in
    let (valid, same) =
      adds-append r.ranks start w
        (subst (Sorted rank_order rank_key) (sym all) v.is_indexed.ranks_sorted)
        (subst IdsDiffer (sym all) (ids_differ r v))
        (omega (arith, ap length all, v.small, size)) in
    (
      adds r.ranks start,
      (
        loop-seri_loop r.ranks (length (seri_loop r.ranks)) start h (length-seri_loop r.ranks),
        valid,
        same ∙ all,
      ),
    )
