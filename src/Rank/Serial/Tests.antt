-- ===== src/Rank/Serial/Tests.antt =====
-- The serialised ranking on a concrete one, and its theorems there.
use luatest.Prelude.{◌≡◌, refl, [], ◌∷◌, arith}
use luatest.Prelude.Int.{pos, negsuc}
use luatest.Std.Order.{lt_string}
use luatest.Std.Set.{find, insert, erase}
use luatest.Std.Map
use luatest.Memory.{to_memory, bits_of, of_memory, signed}
use luatest.Memory.Reads.{split}
use luatest.Memory.Fields.{front}
use luatest.Rank.{Rankele, Rank, last, evict, remove, add}
use luatest.Rank.Valid.{IsValid}
use luatest.Rank.Add.{add-IsValid}
use luatest.Rank.Serial.{
  ele_bytes, seri_loop, seri, read_ele, loaded, past_end, deseri_loop, deseri,
}
use luatest.Rank.Serial.RoundTrip.{deseri-seri}
use luatest.Rank.Serial.Total.{deseri-IsSound, IsSound}

program : Unit {0}
unfolding find insert erase Map.erase Map.assign Map.insert lt_string last evict remove add
    to_memory bits_of of_memory signed split front ele_bytes seri_loop seri read_ele deseri_loop
    deseri
program = tt

abbrev player : Rankele
player = record { id = b'a' ∷ []; score = pos 10; tm = negsuc 0 }

abbrev fresh : Rank
fresh = record { ranks = []; id_it = Map.no_keys; max = 2 }

abbrev one : Rank
one = add player fresh

seri-one :
    seri one
    ≡ 1 ∷ 0 ∷ b'a' ∷ 10 ∷ 0 ∷ 0 ∷ 0 ∷ 0 ∷ 0 ∷ 0 ∷ 0 ∷ 255 ∷ 255 ∷ 255 ∷ 255 ∷ 255 ∷ 255 ∷ 255 ∷ 255
      ∷ []
unfolding program
seri-one = refl

-- A truncated input is read past its end.
deseri-cut : deseri (1 ∷ 0 ∷ b'a' ∷ []) fresh ≡ past_end
unfolding program
deseri-cut = refl

one_ranks : one.ranks ≡ player ∷ []
unfolding program
one_ranks = refl

one_max : fresh.max ≡ one.max
unfolding program
one_max = refl

fresh-IsValid : IsValid fresh
fresh-IsValid = record {
  is_indexed = record { ranks_sorted = tt; indexed = λ z m. absurd m; found = λ id z e. cc };
  small = omega arith;
}

one-IsValid : IsValid one
one-IsValid = add-IsValid player fresh fresh-IsValid

deseri-seri_example :
    (s : Rank) × ((deseri (seri one) fresh ≡ loaded s) × IsValid s × (s.ranks ≡ one.ranks))
deseri-seri_example =
    deseri-seri one fresh one-IsValid (rw one_ranks ((omega arith, omega arith, omega arith), tt))
      fresh-IsValid refl one_max

deseri-IsSound_example : IsSound (deseri (seri one) fresh)
deseri-IsSound_example = deseri-IsSound (seri one) fresh fresh-IsValid
