-- ===== src/Trie/Tests.antt =====
-- The tries on a library that keeps its entries in a list, and their theorems there.
use luatest.Prelude.{◌≡◌, refl, ℕ, List, [], ◌∷◌, arith}
use luatest.Prelude.Int.{pos, negsuc}
use luatest.Std.Order.{lt_string}
use luatest.Memory.{to_memory, of_memory, bits_of, signed}
use luatest.Memory.Reads.{split}
use luatest.Memory.Fields.{front}
use luatest.Trie.{Library, starts_with, read_entry, loaded, past_end, load_loop, load}
use luatest.Trie.Hat
use luatest.Trie.Pdbs
use luatest.Trie.Pdbs.{inserted, too_long}
use luatest.Trie.Listed.{keep, look, visible, listed, listed-IsLibrary}
use luatest.Trie.RoundTrip.{first_of, get-deseri-seri}
use luatest.Trie.Reached.{created, added, value-deseri-seri}

program : Unit {0}
unfolding lt_string to_memory of_memory bits_of signed split front starts_with read_entry load_loop
    load Hat.entry_bytes Hat.seri_loop Hat.set Hat.get Hat.seri Hat.deseri Pdbs.entry_bytes
    Pdbs.seri_loop Pdbs.prefix_loop Pdbs.insert Pdbs.erase Pdbs.value Pdbs.prefix Pdbs.seri
    Pdbs.deseri keep look visible listed
program = tt

abbrev ab : List ℕ
ab = b'a' ∷ b'b' ∷ []

abbrev ac : List ℕ
ac = b'a' ∷ b'c' ∷ []

abbrev hat_of : Library.Trie listed
hat_of = Hat.set listed ab (pos 5) (Library.new listed)

pdbs_ab :
    (r : Library.Trie listed) × (Pdbs.insert listed ab (negsuc 1) (Library.new listed) ≡ inserted r)
unfolding program
pdbs_ab = (_, refl)

pdbs_two : (r : Library.Trie listed) × (Pdbs.insert listed ac (pos 3) (pdbs_ab.0) ≡ inserted r)
unfolding program pdbs_ab
pdbs_two = (_, refl)

prefix_first : Pdbs.prefix listed (b'a' ∷ []) (pos 1) (pdbs_two.0) ≡ (ac, pos 3) ∷ []
unfolding program pdbs_ab pdbs_two
prefix_first = refl

hat_cut : Hat.deseri listed (1 ∷ 0 ∷ 0 ∷ 0 ∷ b'a' ∷ 7 ∷ []) (Library.new listed) ≡ past_end
unfolding program
hat_cut = refl

get-deseri-seri_example :
    (r : Library.Trie listed) × ((Hat.deseri listed (Hat.seri listed hat_of) (Library.new listed)
        ≡ loaded r)
      × ((k : List ℕ)
          → Hat.get listed k r
            ≡ first_of (Hat.get listed k hat_of) (Hat.get listed k (Library.new listed))))
unfolding program
get-deseri-seri_example =
    get-deseri-seri listed listed-IsLibrary hat_of (Library.new listed)
      ((omega arith, omega arith), tt)

value-deseri-seri_example :
    (r : Library.Trie listed) × ((Pdbs.deseri listed
          (Pdbs.seri listed (pdbs_two.0))
          (Library.new listed)
        ≡ loaded r)
      × ((k : List ℕ)
          → Pdbs.value listed k r
            ≡ first_of
                (Pdbs.value listed k (pdbs_two.0))
                (Pdbs.value listed k (Library.new listed))))
value-deseri-seri_example =
    value-deseri-seri listed listed-IsLibrary (pdbs_two.0) (Library.new listed) (
      added ac (pos 3) (added ab (negsuc 1) created (omega arith) (pdbs_ab.1)) (omega arith)
        (pdbs_two.1))
