-- ===== src/Rank/Serial.antt =====
-- rank/cc/lrank.cc: `seri` and `deseri`, on a little-endian host.
pub mod RoundTrip
pub mod Total
pub mod Tests
use luatest.Prelude.{ℕ, zero, suc, ◌%◌, ◌^◌, List, [], ◌∷◌, ◌++◌, Option, none, some, length}
use luatest.Memory.{to_memory, of_memory, bits_of, signed}
use luatest.Memory.Reads.{split, ◌>>=◌}
use luatest.Memory.Fields.{front}
use luatest.Rank.{Rankele, Rank, add}

-- The length goes into a uint16_t, and so many bytes of the id follow it.
unfoldable pub ele_bytes : Rankele → List ℕ
ele_bytes e =
    let len = length e.id % 2 ^ 16 in
    to_memory 2 len
    ++ (front len e.id ++ (to_memory 8 (bits_of 8 e.score) ++ to_memory 8 (bits_of 8 e.tm)))

unfoldable pub seri_loop : List Rankele → List ℕ
seri_loop [] = []
seri_loop (e ∷ es) = ele_bytes e ++ seri_loop es

unfoldable pub seri : Rank → List ℕ
unfolding seri_loop
seri r = seri_loop r.ranks

-- One turn of the loop of `deseri`; `none` is a read past the end of the input.
unfoldable pub read_ele : List ℕ → Option (Rankele × List ℕ)
read_ele bs = do
  (len, b1) ← split 2 bs
  (id, b2) ← split (of_memory len) b1
  (score, b3) ← split 8 b2
  (tm, b4) ← split 8 b3
  some (record { id = id; score = signed 8 (of_memory score); tm = signed 8 (of_memory tm) }, b4)

-- `past_end` is a read past the end, and `stuck` stands for no more fuel.
pub data Loaded : Type 0 where
  loaded : Rank → Loaded
  past_end : Loaded
  stuck : Loaded

unfoldable pub deseri_loop : ℕ → List ℕ → Rank → Loaded
deseri_loop fuel [] r = loaded r
deseri_loop zero (b ∷ bs) r = stuck
deseri_loop (suc fuel) (b ∷ bs) r = elim (read_ele (b ∷ bs)) [
  | none ↦ past_end
  | some (e, rest) ↦ deseri_loop fuel rest (add e r)
]

-- Each turn uses up bytes, so their number is enough fuel.
unfoldable pub deseri : List ℕ → Rank → Loaded
unfolding deseri_loop
deseri bs r = deseri_loop (length bs) bs r
