-- ===== src/Sight/Tracked.antt =====
-- Each vision of a map is in the set of its center, and the marches it has seen are in order.
use luatest.Prelude.{◌≡◌, refl, inl, inr, List, [], ◌∷◌, none, some, Option-cases}
use mathlib.Core.Path.{subst}
use luatest.Prelude.Int.{ℤ}
use luatest.Std.Order.{int_order}
use luatest.Std.Set
use luatest.Std.Map
use luatest.Std.Difference.{whole_key, IsAscending}
use luatest.Grid.{Pos}
use luatest.Cells.Tracks.{Tracks, put-Tracks, take-Tracks, stay-Tracks}
use luatest.Sight.{
  March, Vision, Sight, empty_sight, center, add_march, del_march, clear_march, del_vision, store,
  set_vision, vision_march, sort_ids, vision_diff,
}

pub record IsSight (s : Sight) : Type 0 where
  pub tracks : Tracks center s.vision s.pos_vids
  pub ascending : (id : ℤ) (v : Vision) → s.vision id ≡ some v → IsAscending v.march

pub sort_ids-IsAscending : (ids : List ℤ) → IsAscending (sort_ids ids)
unfolding sort_ids
sort_ids-IsAscending [] = tt
sort_ids-IsAscending (id ∷ ids) =
    Set.insert-Sorted int_order whole_key id (sort_ids ids) (sort_ids-IsAscending ids)

empty_sight-IsSight : IsSight empty_sight
unfolding empty_sight
empty_sight-IsSight = record {
  tracks = record {
    is_cells = record { sorted = λ c ids h. absurd (cc h); filled = λ c ids h. absurd (cc h) };
    listed = λ id v h. absurd (cc h);
    standing = λ c id k. absurd (cc (k.1.0));
  };
  ascending = λ id v h. absurd (cc h);
}

store-IsSight :
    (v : Vision) (s : Sight)
    → s.vision v.id ≡ none
    → IsAscending v.march
    → IsSight s
    → IsSight (store v s)
unfolding store
store-IsSight v s new up i = record {
  tracks = put-Tracks center v.id v s.vision s.pos_vids new i.tracks;
  ascending = λ z u h. elim (Map.assign-some int_order v.id z v u s.vision h) [
    | inl (same, g) ↦ subst (λ (w : Vision). IsAscending w.march) g up
    | inr (other, f) ↦ i.ascending z u f
  ];
}

pub del_vision-IsSight : (id : ℤ) (s : Sight) → IsSight s → IsSight (del_vision id s)
unfolding del_vision
del_vision-IsSight id s i = elim (Option-cases (s.vision id)) [
  | inl h ↦ rw (del_vision, h) i
  | inr (v, h) ↦
      rw (del_vision, h)
        (record {
          tracks = take-Tracks center id v s.vision s.pos_vids h i.tracks;
          ascending = λ z u k. i.ascending z u (Map.erase-some int_order id z s.vision u k).1;
        })
]

del_vision_gone : (id : ℤ) (s : Sight) → (del_vision id s).vision id ≡ none
unfolding del_vision
del_vision_gone id s = elim (Option-cases (s.vision id)) [
  | inl h ↦ rw (del_vision, h) h
  | inr (v, h) ↦ rw (del_vision, h) (Map.erase_self int_order id s.vision)
]

pub set_vision-IsSight :
    (v : Vision) (s : Sight) → IsAscending v.march → IsSight s → IsSight (set_vision v s)
unfolding set_vision
set_vision-IsSight v s up i = elim (Option-cases (s.vision v.id)) [
  | inl h ↦ rw (set_vision, h) (store-IsSight v s h up i)
  | inr (old, h) ↦
      rw (set_vision, h)
        (store-IsSight (record v { march = old.march }) (del_vision v.id s) (del_vision_gone v.id s)
          (i.ascending v.id old h) (del_vision-IsSight v.id s i))
]

pub vision_diff-IsSight : (vid : ℤ) (s : Sight) → IsSight s → IsSight ((vision_diff vid s).0)
unfolding vision_diff center
vision_diff-IsSight vid s i = elim (Option-cases (s.vision vid)) [
  | inl h ↦ rw (vision_diff, h) i
  | inr (vis, h) ↦
      let news = sort_ids (vision_march vid s) in
      let vis' : Vision = record vis { march = news } in
      rw (vision_diff, h)
        (record {
          tracks =
              stay-Tracks center vid vis vis' s.vision s.pos_vids h (same_center vis news) i.tracks;
          ascending = λ z u k. elim (Map.assign-some int_order vid z vis' u s.vision k) [
            | inl (same, g) ↦
                subst (λ (w : Vision). IsAscending w.march) g
                  (sort_ids-IsAscending (vision_march vid s))
            | inr (other, f) ↦ i.ascending z u f
          ];
        })
]
  where
    same_center : (vis : Vision) (news : List ℤ) → center (record vis { march = news }) ≡ center vis
    same_center vis news = refl

-- The calls that change the marches and the visions.
pub data Call : Type 0 where
  marches : March → Call
  halts : ℤ → Call
  clears : Call
  sets : ℤ → Pos → Pos → Call
  drops : ℤ → Call
  diffs : ℤ → Call

unfoldable pub step : Call → Sight → Sight
unfolding add_march del_march clear_march set_vision del_vision vision_diff
step (marches m) s = add_march m s
step (halts id) s = del_march id s
step clears s = clear_march s
step (sets id bl tr) s = set_vision (record { id = id; bl = bl; tr = tr; march = [] }) s
step (drops id) s = del_vision id s
step (diffs vid) s = (vision_diff vid s).0

unfoldable pub run : List Call → Sight → Sight
unfolding step
run [] s = s
run (c ∷ cs) s = run cs (step c s)

step-IsSight : (c : Call) (s : Sight) → IsSight s → IsSight (step c s)
unfolding step add_march del_march clear_march
step-IsSight (marches m) s i = record { tracks = i.tracks; ascending = i.ascending }
step-IsSight (halts id) s i = record { tracks = i.tracks; ascending = i.ascending }
step-IsSight clears s i = record { tracks = i.tracks; ascending = i.ascending }
step-IsSight (sets id bl tr) s i =
    set_vision-IsSight (record { id = id; bl = bl; tr = tr; march = [] }) s tt i
step-IsSight (drops id) s i = del_vision-IsSight id s i
step-IsSight (diffs vid) s i = vision_diff-IsSight vid s i

run_on : (cs : List Call) (s : Sight) → IsSight s → IsSight (run cs s)
unfolding run
run_on [] s i = i
run_on (c ∷ cs) s i = run_on cs (step c s) (step-IsSight c s i)

-- Whatever calls are made on a new map, each vision is in the set of its center, no set has an id
-- besides, no set is empty, and the marches that a vision has seen are in ascending order.
pub run-IsSight : (cs : List Call) → IsSight (run cs empty_sight)
run-IsSight cs = run_on cs empty_sight empty_sight-IsSight
