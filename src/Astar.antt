-- ===== src/Astar.antt =====
-- mmo/cc/astar.cc: the search for a path between two positions of a map. mmoccskill/cc/astar.cc is
-- the same code with another name for the test of a position.
pub mod Route
pub mod Inv
pub mod Rounds
pub mod Find
use luatest.Prelude.{
  ℕ, zero, suc, ◌+◌, ◌*◌, List, [], ◌∷◌, reverse, Option, none, some, Bool, true, false, ltb,
  length, if◌then◌else◌,
}
use luatest.Prelude.Int.{ℤ, pos, negsuc, pos_part, neg_part, ◌+ℤ◌, ◌-ℤ◌, ◌*ℤ◌, eqb_ℤ}
use luatest.Grid.{Pos, int16, mem, ◌==ₚ◌}

pub record State : Type 0 where
  pub x : ℤ
  pub y : ℤ
  pub cost : ℕ
  pub weigh : ℕ

pub record Dircost : Type 0 where
  pub x : ℤ
  pub y : ℤ
  pub cost : ℕ

abbrev pub lweigh : ℕ
lweigh = 100

abbrev pub hweigh : ℕ
hweigh = 141

unfoldable pub direct_cost : List Dircost
direct_cost =
    record { x = pos 0; y = pos 1; cost = lweigh }
    ∷ record { x = pos 0; y = negsuc 0; cost = lweigh }
    ∷ record { x = pos 1; y = pos 0; cost = lweigh }
    ∷ record { x = negsuc 0; y = pos 0; cost = lweigh }
    ∷ record { x = pos 1; y = pos 1; cost = hweigh }
    ∷ record { x = negsuc 0; y = pos 1; cost = hweigh }
    ∷ record { x = pos 1; y = negsuc 0; cost = hweigh }
    ∷ record { x = negsuc 0; y = negsuc 0; cost = hweigh }
    ∷ []

-- Where a state stands.
abbrev pub place : State → Pos
place s = record { x = s.x; y = s.y }

-- The position in a direction; `s.x_ + d.x_` is cut to int16_t.
unfoldable pub moved : Pos → Dircost → Pos
moved p d = record { x = int16 (p.x +ℤ d.x); y = int16 (p.y +ℤ d.y) }

-- The parameter of `cost` is the integer part of `100 * sqrt(n)`, as the C library computes it.
unfoldable pub cost : (ℕ → ℕ) → Pos → Pos → ℕ
cost root s e = root (square (int16 (s.x -ℤ e.x)) + square (int16 (s.y -ℤ e.y)))
  where
    square : ℤ → ℕ
    square v = let n = pos_part v + neg_part v in n * n

-- `multiset::insert` by the weigh: behind the states of the same weigh.
unfoldable pub open_insert : State → List State → List State
open_insert s [] = s ∷ []
open_insert s (t ∷ ts) =
    let rest = open_insert s ts in if ltb s.weigh t.weigh then s ∷ t ∷ ts else t ∷ rest

-- `pres`: each position with the one it was reached from, the last one put in first.
unfoldable pub find_pre : Pos → List (Pos × Pos) → Option Pos
find_pre p [] = none
find_pre p ((q, pre) ∷ qs) = let rest = find_pre p qs in if p ==ₚ q then some pre else rest

-- `openlist`, `closelist` and `pres`.
pub record Search : Type 0 where
  pub open_list : List State
  pub close_list : List Pos
  pub pres : List (Pos × Pos)

-- Three positions on a line, by `dx1 * dy2 == dy1 * dx2` on int16_t differences.
unfoldable pub collinear : Pos → Pos → Pos → Bool
collinear p pp ppp =
    eqb_ℤ (int16 (pp.x -ℤ p.x) *ℤ int16 (ppp.y -ℤ p.y))
      (int16 (pp.y -ℤ p.y) *ℤ int16 (ppp.x -ℤ p.x))

-- A position joins `ret`, which stands here with its last element first: it takes the place of the
-- last one if it is on a line with the last two.
unfoldable pub join : Pos → List Pos → List Pos
join p [] = p ∷ []
join p (pp ∷ []) = p ∷ pp ∷ []
join p (pp ∷ ppp ∷ ps) = if collinear p pp ppp then p ∷ ppp ∷ ps else p ∷ pp ∷ ppp ∷ ps

-- The loop over `pres` from a position back; `none` is no more fuel.
unfoldable pub back : ℕ → List (Pos × Pos) → Pos → List Pos → Option (List Pos)
back zero pres p ret = none
back (suc fuel) pres p ret = elim (find_pre p pres) [
  | none ↦ some ret
  | some pre ↦ back fuel pres pre (join pre ret)
]

-- `stuck` stands for no more fuel, `no_path` for an empty `ret`.
pub data Outcome : Type 0 where
  path : List Pos → Outcome
  no_path : Outcome
  stuck : Outcome

-- `ret`, in its order.
unfoldable pub found : Option (List Pos) → Outcome
found none = stuck
found (some ret) = path (reverse ret)

-- The weigh of a new state at `p1`, of cost `c`, on the way to `e`.
unfoldable pub weigh_of : (ℕ → ℕ) → Pos → Bool → Pos → ℕ → ℕ
weigh_of root e quick p1 c =
    if p1 ==ₚ e then 0 else if quick then cost root p1 e else c + cost root p1 e

module _ (root : ℕ → ℕ) (impassable : Pos → Bool) (e : Pos) (quick : Bool) where
  -- The body of the loop over the directions, from the state `s`.
  unfoldable pub relax : State → Dircost → Search → Search
  relax s d t =
      let p1 = moved (place s) d in
      let c = s.cost + d.cost in
      let s1 : State = record {
        x = p1.x;
        y = p1.y;
        cost = c;
        weigh = weigh_of root e quick p1 c;
      } in
      if impassable p1 then t else if mem p1 t.close_list then t else elim (find_pre p1 t.pres) [
        | none ↦ record t { open_list = open_insert s1 t.open_list; pres = (p1, place s) ∷ t.pres }
        | some pre ↦ t
      ]

  unfoldable pub relax_all : State → List Dircost → Search → Search
  relax_all s [] t = t
  relax_all s (d ∷ ds) t = relax_all s ds (relax s d t)

  -- A round on the state `s`, which has left the front of `openlist`, where it is not at the end.
  unfoldable pub round : State → Search → Search
  round s t =
      if mem (place s) t.close_list
      then t
      else relax_all s direct_cost (record t { close_list = place s ∷ t.close_list })

  unfoldable pub loop : ℕ → Search → Outcome
  loop zero t = elim t.open_list [ [] ↦ no_path | s ∷ rest ↦ stuck ]
  loop (suc fuel) t = elim t.open_list [
    | [] ↦ no_path
    | s ∷ rest ↦ elim (place s ==ₚ e) [
      | true ↦ found (back (suc (length t.pres)) t.pres (place s) (place s ∷ []))
      | false ↦ loop fuel (round s (record t { open_list = rest }))
    ]
  ]

-- `Astar::find`, with fuel for the loop.
unfoldable pub find : (ℕ → ℕ) → (Pos → Bool) → ℕ → Pos → Pos → Bool → Outcome
find root impassable fuel s e quick =
    if impassable s
    then no_path
    else if impassable e
    then no_path
    else if s ==ₚ e
    then no_path
    else loop root impassable e quick fuel (record {
      open_list = record { x = s.x; y = s.y; cost = 0; weigh = cost root s e } ∷ [];
      close_list = [];
      pres = [];
    })
