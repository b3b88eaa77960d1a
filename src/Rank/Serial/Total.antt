-- ===== src/Rank/Serial/Total.antt =====
-- `deseri` ends on every input.
use luatest.Prelude.{ℕ, zero, suc, ◌≤◌, List, [], ◌∷◌, Option, none, some, length, arith}
use luatest.Memory.Reads.{split}
use luatest.Memory.Reads.{Fits, split-Fits, bind-Fits, Fits-mono}
use luatest.Rank.{Rankele, Rank, add}
use luatest.Rank.Valid.{IsValid}
use luatest.Rank.Add.{add-IsValid}
use luatest.Rank.Serial.{read_ele, Loaded, loaded, past_end, stuck, deseri_loop, deseri}

-- A field uses up what it reads, and the length field is not empty.
field-Fits : (n k : ℕ) (bs : List ℕ) → length bs ≤ n → Fits n (split k bs)
field-Fits n k bs h = Fits-mono (length bs) n (split k bs) h (split-Fits k bs)

first-Fits : (k b : ℕ) (bs : List ℕ) → Fits (length bs) (split (suc k) (b ∷ bs))
unfolding split
first-Fits k b bs = bind-Fits (length bs) (split k bs) _ (split-Fits k bs) (λ p h. h)

read_ele-Fits : (b : ℕ) (bs : List ℕ) → Fits (length bs) (read_ele (b ∷ bs))
unfolding read_ele
read_ele-Fits b bs = bind-Fits (length bs) (split 2 (b ∷ bs)) _ (first-Fits 1 b bs) λ p h.
    bind-Fits (length bs) (split _ p.1) _ (field-Fits (length bs) _ p.1 h) λ q i.
      bind-Fits (length bs) (split 8 q.1) _ (field-Fits (length bs) 8 q.1 i)
        λ s j. bind-Fits (length bs) (split 8 s.1) _ (field-Fits (length bs) 8 s.1 j) λ t k. k

-- A valid ranking, or a read past the end.
abbrev pub IsSound : Loaded → Type 0
IsSound (loaded r) = IsValid r
IsSound past_end = Unit
IsSound stuck = ⊥

loop-IsSound :
    (fuel : ℕ) (bs : List ℕ) (r : Rank)
    → length bs ≤ fuel
    → IsValid r
    → IsSound (deseri_loop fuel bs r)
unfolding deseri_loop
loop-IsSound fuel [] r h v = v
loop-IsSound zero (b ∷ bs) r h v = absurd (omega arith)
loop-IsSound (suc fuel) (b ∷ bs) r h v =
    go (read_ele (b ∷ bs)) (read_ele-Fits b bs)
      (λ e rest k. loop-IsSound fuel rest (add e r) (omega arith) (add-IsValid e r v))
  where
    go :
        (o : Option (Rankele × List ℕ))
        → Fits (length bs) o
        → ((e : Rankele) (rest : List ℕ)
            → length rest ≤ length bs
            → IsSound (deseri_loop fuel rest (add e r)))
        → IsSound (elim o [ none ↦ past_end | some (e, rest) ↦ deseri_loop fuel rest (add e r) ])
    go none f next = tt
    go (some (e, rest)) f next = next e rest f

-- On a valid ranking `deseri` ends with a valid ranking or with a read past the end of its input:
-- it never runs out of the fuel that the model gives it.
pub deseri-IsSound : (bs : List ℕ) (r : Rank) → IsValid r → IsSound (deseri bs r)
unfolding deseri
deseri-IsSound bs r v = loop-IsSound (length bs) bs r (omega arith) v
