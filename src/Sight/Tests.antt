-- ===== src/Sight/Tests.antt =====
-- A map on concrete calls, and its theorems there.
use luatest.Prelude.{◌≡◌, ◌↔◌, refl, ℕ, List, [], ◌∷◌, some}
use luatest.Prelude.Int.{ℤ, pos}
use luatest.Std.Set
use luatest.Std.Set.{In}
use luatest.Std.Map
use luatest.Std.Difference.{past, set_difference}
use luatest.Memory.{bits_of, signed}
use luatest.Grid.{Pos, int16, quot}
use luatest.Cells.{put, take_out}
use luatest.Sight.{
  Vision, Sight, empty_sight, center, erase_march, add_march, del_march, clear_march, del_vision,
  store, set_vision, inarea, cross, intersect, march_in_vision, seen_by, vision_march, sort_ids,
  vision_diff,
}
use luatest.Sight.Tracked.{IsSight, Call, marches, sets, halts, diffs, step, run, run-IsSight}
use luatest.Sight.Changes.{IsSeen, In-vision_diff}

program : Unit {0}
unfolding Set.insert Set.erase Map.assign Map.erase bits_of signed int16 quot put take_out past
    set_difference empty_sight center erase_march add_march del_march clear_march del_vision store
    set_vision inarea cross intersect march_in_vision seen_by vision_march sort_ids vision_diff step
    run
program = tt

abbrev at : ℕ → ℕ → Pos
at x y = record { x = pos x; y = pos y }

-- A march through the area, one past it, and one that ends in it.
abbrev calls : List Call
calls =
    sets (pos 1) (at 10 10) (at 20 20)
    ∷ marches (record { id = pos 7; cur = at 5 15; end = at 30 16 })
    ∷ marches (record { id = pos 8; cur = at 5 5; end = at 30 6 })
    ∷ diffs (pos 1)
    ∷ halts (pos 7)
    ∷ marches (record { id = pos 9; cur = at 0 0; end = at 12 12 })
    ∷ []

abbrev sight : Sight
sight = run calls empty_sight

abbrev watcher : Vision
watcher = record { id = pos 1; bl = at 10 10; tr = at 20 20; march = pos 7 ∷ [] }

sight_watcher : sight.vision (pos 1) ≡ some watcher
unfolding program
sight_watcher = refl

sight_diff : (vision_diff (pos 1) sight).1 ≡ (pos 9 ∷ [], pos 7 ∷ [])
unfolding program
sight_diff = refl

run-IsSight_example : IsSight (run calls empty_sight)
run-IsSight_example = run-IsSight calls

sight-IsSight : IsSight sight
sight-IsSight = run-IsSight calls

In-vision_diff_example :
    (news : List ℤ) × (((vision_diff (pos 1) sight).0.vision (pos 1)
        ≡ some (record watcher { march = news }))
      × ((z : ℤ) → In z news ↔ IsSeen watcher z sight.march)
      × ((z : ℤ)
          → In z (vision_diff (pos 1) sight).1.0
            ↔ (IsSeen watcher z sight.march × (¬ In z watcher.march)))
      × ((z : ℤ)
          → In z (vision_diff (pos 1) sight).1.1
            ↔ (In z watcher.march × (¬ IsSeen watcher z sight.march))))
In-vision_diff_example = In-vision_diff (pos 1) watcher sight sight-IsSight sight_watcher
