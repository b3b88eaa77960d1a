-- ===== src/Astar/Find.antt =====
-- The search ends, with a way to the end or with the proof that there is none.
use luatest.Prelude.{
  ◌≡◌, ◌≢◌, ◌∙◌, sym, ap, refl, ◌⊎◌, inl, inr, ℕ, zero, suc, ◌≤◌, ◌<◌, List, [], ◌∷◌, reverse, Bool,
  true, false, length, arith, Bool-cases,
}
use mathlib.Core.Path.{subst}
use luatest.Std.Set.{In}
use luatest.Grid.{Pos, ◌==ₚ◌, ==ₚ-eq, ==ₚ-ne, mem, mem-In}
use luatest.Astar.{
  State, Search, place, direct_cost, moved, find_pre, relax_all, round, back, loop, found, find,
  Outcome, path, no_path, stuck, cost,
}
use luatest.Astar.Route.{HasKey, Reach, here, step, Walk, Thinned, back_lem}
use luatest.Astar.Inv.{Inv}
use luatest.Astar.Rounds.{relax_all-Inv, relax_all-work, work, unkeyed}

module _ (impassable : Pos → Bool) (s e : Pos) where
  -- The result lists, from the end to the start, a walk thinned; or no walk leads to the end.
  abbrev pub IsAnswer : Outcome → Type 0
  IsAnswer (path ps) =
      (thin walk : List Pos) × ((ps ≡ reverse thin) × Walk impassable s e walk × Thinned walk thin)
  IsAnswer no_path = ¬ Reach impassable s e
  IsAnswer stuck = ⊥

  -- With nothing left to try, all that can be reached is closed.
  reach_closed :
      (p q : Pos) (t : Search)
      → Inv impassable s e p [] t
      → t.open_list ≡ []
      → Reach impassable s q
      → In q t.close_list
  reach_closed p q t v h here = v.started
  reach_closed p q t v h (step {r} w (d, (n, at, f))) =
      elim (v.tried r d (reach_closed p r t v h w) n (sym (ap impassable at) ∙ f)) [
        | inl (inl c) ↦ subst (λ z. In z t.close_list) (sym at) c
        | inl (inr k) ↦ elim (v.keyed (moved r d) k) [
          | inl c ↦ subst (λ z. In z t.close_list) (sym at) c
          | inr (z, (m, same)) ↦ absurd (subst (In z) h m)
        ]
        | inr (same, none_left) ↦ absurd none_left
      ]

  no_path-IsAnswer :
      (p : Pos) (t : Search) → Inv impassable s e p [] t → t.open_list ≡ [] → ¬ Reach impassable s e
  no_path-IsAnswer p t v h w = v.not_end (reach_closed p e t v h w)

  -- A state of a closed position leaves `openlist`.
  pop-Inv :
      (p q : Pos) (st : State) (rest : List State) (t : Search)
      → Inv impassable s e p [] t
      → t.open_list ≡ st ∷ rest
      → In (place st) t.close_list
      → Inv impassable s e q [] (record t { open_list = rest })
  pop-Inv p q st rest t v h m = record {
    linked = v.linked;
    started = v.started;
    waiting = λ z k. v.waiting z (subst (In z) (sym h) (inr k));
    closed = v.closed;
    keyed = λ r k. elim (v.keyed r k) [
      | inl c ↦ inl c
      | inr (z, (c, same)) ↦ elim (subst (In z) h c) [
        | inl g ↦ inl (subst (λ w. In w t.close_list) (sym (ap place g) ∙ same) m)
        | inr g ↦ inr (z, (g, same))
      ]
    ];
    tried = λ r d c n f. elim (v.tried r d c n f) [
      | inl k ↦ inl k
      | inr (same, none_left) ↦ absurd none_left
    ];
    not_end = v.not_end;
  }

  -- A state of another position leaves `openlist`, and its position is closed.
  close-Inv :
      (p : Pos) (st : State) (rest : List State) (t : Search)
      → Inv impassable s e p [] t
      → t.open_list ≡ st ∷ rest
      → place st ≢ e
      → Inv impassable s e
          (place st)
          direct_cost
          (record t { open_list = rest; close_list = place st ∷ t.close_list })
  close-Inv p st rest t v h other = record {
    linked = v.linked;
    started = inr v.started;
    waiting = λ z k. v.waiting z (subst (In z) (sym h) (inr k));
    closed = λ q k. elim k [
      | inl g ↦
          inr
            (subst (λ w. HasKey w t.pres) (sym g) (v.waiting st (subst (In st) (sym h) (inl refl))))
      | inr c ↦ v.closed q c
    ];
    keyed = λ r k. elim (v.keyed r k) [
      | inl c ↦ inl (inr c)
      | inr (z, (c, same)) ↦ elim (subst (In z) h c) [
        | inl g ↦ inl (inl (sym same ∙ ap place g))
        | inr g ↦ inr (z, (g, same))
      ]
    ];
    tried = λ r d k n f. elim k [
      | inl g ↦ inr (g, n)
      | inr c ↦ elim (v.tried r d c n f) [
        | inl (inl w) ↦ inl (inl (inr w))
        | inl (inr w) ↦ inl (inr w)
        | inr (same, none_left) ↦ absurd none_left
      ]
    ];
    not_end = λ k. elim k [ inl g ↦ other (sym g) | inr c ↦ v.not_end c ];
  }

module _ (root : ℕ → ℕ) (impassable : Pos → Bool) (s e : Pos) (quick : Bool) where
  round-Inv :
      (p : Pos) (st : State) (rest : List State) (t : Search)
      → Inv impassable s e p [] t
      → t.open_list ≡ st ∷ rest
      → place st ≢ e
      → Inv impassable s e
          (place st)
          []
          (round root impassable e quick st (record t { open_list = rest }))
  unfolding round
  round-Inv p st rest t v h other = elim (Bool-cases (mem (place st) t.close_list)) [
    | inl m ↦
        rw m (pop-Inv impassable s e p (place st) st rest t v h (mem-In (place st) t.close_list m))
    | inr m ↦ rw m (
        relax_all-Inv root impassable s e quick st direct_cost
          (record t { open_list = rest; close_list = place st ∷ t.close_list })
          (close-Inv impassable s e p st rest t v h other) (λ d n. n) (inl refl))
  ]

  module _ (cells : List Pos) (all : (q : Pos) → impassable q ≡ false → In q cells) where
    round-work :
        (st : State) (rest : List State) (t : Search)
        → t.open_list ≡ st ∷ rest
        → suc (
            work root impassable s e quick cells all
              (round root impassable e quick st (record t { open_list = rest })))
          ≤ work root impassable s e quick cells all t
    unfolding round work
    round-work st rest t h = elim (Bool-cases (mem (place st) t.close_list)) [
      | inl m ↦ rw m (omega (arith, ap length h))
      | inr m ↦ rw m (
          omega (
            arith,
            ap length h,
            relax_all-work root impassable s e quick cells all st direct_cost
                (record t { open_list = rest; close_list = place st ∷ t.close_list }),
          ))
    ]

    loop_end :
        (fuel : ℕ) (t : Search) → t.open_list ≡ [] → loop root impassable e quick fuel t ≡ no_path
    unfolding loop
    loop_end zero t h = rw (loop, h) refl
    loop_end (suc fuel) t h = rw (loop, h) refl

    loop_found :
        (fuel : ℕ) (t : Search) (st : State) (rest : List State)
        → t.open_list ≡ st ∷ rest
        → (place st ==ₚ e) ≡ true
        → loop root impassable e quick (suc fuel) t
          ≡ found (back (suc (length t.pres)) t.pres (place st) (place st ∷ []))
    unfolding loop
    loop_found fuel t st rest h k = rw (loop, h, k) refl

    loop_on :
        (fuel : ℕ) (t : Search) (st : State) (rest : List State)
        → t.open_list ≡ st ∷ rest
        → (place st ==ₚ e) ≡ false
        → loop root impassable e quick (suc fuel) t
          ≡ loop root impassable e quick fuel
              (round root impassable e quick st (record t { open_list = rest }))
    unfolding loop
    loop_on fuel t st rest h k = rw (loop, h, k) refl

    List-cases :
        (ts : List State) → (ts ≡ []) ⊎ ((st : State) × ((rest : List State) × (ts ≡ st ∷ rest)))
    List-cases [] = inl refl
    List-cases (st ∷ rest) = inr (st, (rest, refl))

    -- At the end, the way back over `pres` is the answer.
    arrive :
        (q : Pos) (p : Pos) (st : State) (t : Search)
        → Inv impassable s e p [] t
        → In st t.open_list
        → place st ≡ q
        → q ≡ e
        → IsAnswer impassable s e (found (back (suc (length t.pres)) t.pres q (q ∷ [])))
    unfolding found
    arrive q p st t v m at same =
        let (out, walk, (r, w, thin)) =
          back_lem impassable s q t.pres v.linked
            (subst (λ z. HasKey z t.pres) at (v.waiting st m)) in
        rw r (out, walk, (refl, subst (λ z. Walk impassable s z walk) same w, thin))

    loop-IsAnswer :
        (fuel : ℕ) (p : Pos) (t : Search)
        → Inv impassable s e p [] t
        → work root impassable s e quick cells all t ≤ fuel
        → IsAnswer impassable s e (loop root impassable e quick fuel t)
    loop-IsAnswer zero p t v h = elim (List-cases t.open_list) [
      | inl none_left ↦
          rw (loop_end zero t none_left) (no_path-IsAnswer impassable s e p t v none_left)
      | inr (st, (rest, at)) ↦ absurd (some_left t st rest at h)
    ]
      where
        some_left :
            (t : Search) (st : State) (rest : List State)
            → t.open_list ≡ st ∷ rest
            → ¬ (work root impassable s e quick cells all t ≤ 0)
        some_left t st rest at h = omega (arith, round-work st rest t at)
    loop-IsAnswer (suc fuel) p t v h = elim (List-cases t.open_list) [
      | inl none_left ↦
          rw (loop_end (suc fuel) t none_left) (no_path-IsAnswer impassable s e p t v none_left)
      | inr (st, (rest, at)) ↦ elim (Bool-cases (place st ==ₚ e)) [
        | inl k ↦ rw (loop_found fuel t st rest at k) (
            arrive (place st) p st t v (subst (In st) (sym at) (inl refl)) refl
              (==ₚ-eq (place st) e k))
        | inr k ↦ rw (loop_on fuel t st rest at k) (
            loop-IsAnswer fuel (place st)
              (round root impassable e quick st (record t { open_list = rest }))
              (round-Inv p st rest t v at (==ₚ-ne (place st) e k))
              (omega (arith, h, round-work st rest t at)))
      ]
    ]

-- A search in which the start is closed and nothing is known besides.
start_Inv :
    (impassable : Pos → Bool) (s e : Pos)
    → s ≢ e
    → Inv impassable s e s direct_cost (record { open_list = []; close_list = s ∷ []; pres = [] })
unfolding find_pre
start_Inv impassable s e other = record {
  linked = tt;
  started = inl refl;
  waiting = λ z k. absurd k;
  closed = λ q k. elim k [ inl g ↦ inl g | inr n ↦ absurd n ];
  keyed = λ q k. absurd (cc (k.1));
  tried = λ q d k n f. elim k [ inl g ↦ inr (g, n) | inr m ↦ absurd m ];
  not_end = λ k. elim k [ inl g ↦ other (sym g) | inr n ↦ n ];
}

module _ (root : ℕ → ℕ) (impassable : Pos → Bool) (s e : Pos) (quick : Bool) (cells : List Pos)
    (all : (q : Pos) → impassable q ≡ false → In q cells) where
  -- The loop from the state that `find` makes.
  unfoldable first : ℕ → State
  first w = record { x = s.x; y = s.y; cost = 0; weigh = w }

  unkeyed_none : (cs : List Pos) → unkeyed cs [] ≡ length cs
  unfolding unkeyed find_pre
  unkeyed_none [] = refl
  unkeyed_none (c ∷ cs) = omega (arith, unkeyed_none cs)

  first_round :
      (fuel w : ℕ)
      → s ≢ e
      → length cells ≤ fuel
      → IsAnswer impassable s e (
          loop root impassable e quick
            (suc fuel)
            (record { open_list = first w ∷ []; close_list = []; pres = [] }))
  unfolding round mem work first
  first_round fuel w other h =
      let apart : (s ==ₚ e) ≡ false = elim (Bool-cases (s ==ₚ e)) [
        | inl k ↦ absurd (other (==ₚ-eq s e k))
        | inr k ↦ k
      ] in
      let begun : Search = record { open_list = []; close_list = s ∷ []; pres = [] } in
      rw
        (loop_on root impassable s e quick cells all fuel
          (record { open_list = first w ∷ []; close_list = []; pres = [] }) (first w) [] refl apart)
        (loop-IsAnswer root impassable s e quick cells all fuel s
          (relax_all root impassable e quick (first w) direct_cost begun)
          (relax_all-Inv root impassable s e quick (first w) direct_cost begun
            (start_Inv impassable s e other) (λ d n. n) (inl refl))
          (omega (
            arith,
            h,
            unkeyed_none cells,
            relax_all-work root impassable s e quick cells all (first w) direct_cost begun,
          )))

-- Let `cells` be a list that has every passable position, and let the fuel be more than its length.
-- Then `find` ends. It gives no path if the start or the end is impassable or they are the same; in
-- all other cases it gives, from the end to the start, a walk of steps over passable positions with
-- some positions left out that lie on a line with their neighbours, or no path, and then no walk
-- leads from the start to the end.
pub find-IsAnswer :
    (root : ℕ → ℕ) (impassable : Pos → Bool) (cells : List Pos) (fuel : ℕ) (s e : Pos)
    (quick : Bool)
    → ((q : Pos) → impassable q ≡ false → In q cells)
    → length cells < fuel
    → (((impassable s ≡ true) ⊎ ((impassable e ≡ true) ⊎ (s ≡ e)))
        × (find root impassable fuel s e quick ≡ no_path))
      ⊎ ((s ≢ e) × IsAnswer impassable s e (find root impassable fuel s e quick))
unfolding find first
find-IsAnswer root impassable cells zero s e quick all h = absurd (omega arith)
find-IsAnswer root impassable cells (suc fuel) s e quick all h = elim (Bool-cases (impassable s)) [
  | inl a ↦ inl (inl a, rw a refl)
  | inr a ↦ elim (Bool-cases (impassable e)) [
    | inl b ↦ inl (inr (inl b), rw (a, b) refl)
    | inr b ↦ elim (Bool-cases (s ==ₚ e)) [
      | inl c ↦ inl (inr (inr (==ₚ-eq s e c)), rw (a, b, c) refl)
      | inr c ↦ inr (
        ==ₚ-ne s e c,
        rw (a, b, c)
            (first_round root impassable s e quick cells all fuel (cost root s e) (==ₚ-ne s e c)
              (omega arith)),
      )
    ]
  ]
]
