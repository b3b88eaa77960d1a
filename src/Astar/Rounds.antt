-- ===== src/Astar/Rounds.antt =====
-- A round of the search keeps the invariant and does its share of the work.
use luatest.Prelude.{
  ◌≡◌, ◌∙◌, sym, ap, refl, ◌⊎◌, inl, inr, ℕ, suc, ◌+◌, ◌≤◌, List, [], ◌∷◌, Option, none, some, Bool,
  false, length, arith, Bool-cases, Option-cases,
}
use mathlib.Core.Path.{subst}
use luatest.Std.Set.{In}
use luatest.Grid.{Pos, ◌==ₚ◌, ==ₚ-eq, mem, mem-In, In-mem}
use luatest.Astar.{
  State, Dircost, Search, place, direct_cost, moved, find_pre, relax, relax_all, weigh_of,
}
use luatest.Astar.Route.{find_pre_self, find_pre_ne}
use luatest.Astar.Inv.{Inv, Known, added, skip-Inv, add-Inv, length-open_insert}

-- The cells that have no key yet.
abbrev pub lacking : Option Pos → ℕ
lacking none = 1
lacking (some r) = 0

unfoldable pub unkeyed : List Pos → List (Pos × Pos) → ℕ
unkeyed [] l = 0
unkeyed (c ∷ cs) l = lacking (find_pre c l) + unkeyed cs l

lacking_mono :
    (c p r : Pos) (l : List (Pos × Pos))
    → lacking (find_pre c ((p, r) ∷ l)) ≤ lacking (find_pre c l)
lacking_mono c p r l = elim (Bool-cases (c ==ₚ p)) [
  | inl e ↦
      rw (ap (λ (z : Pos). find_pre z ((p, r) ∷ l)) (==ₚ-eq c p e) ∙ find_pre_self p r l)
        (omega arith)
  | inr e ↦ rw (find_pre_ne c p r l e) (omega arith)
]

unkeyed_mono :
    (cs : List Pos) (p r : Pos) (l : List (Pos × Pos)) → unkeyed cs ((p, r) ∷ l) ≤ unkeyed cs l
unfolding unkeyed
unkeyed_mono [] p r l = omega arith
unkeyed_mono (c ∷ cs) p r l = omega (arith, lacking_mono c p r l, unkeyed_mono cs p r l)

unkeyed_drop :
    (cs : List Pos) (p r : Pos) (l : List (Pos × Pos))
    → In p cs
    → find_pre p l ≡ none
    → suc (unkeyed cs ((p, r) ∷ l)) ≤ unkeyed cs l
unfolding unkeyed
unkeyed_drop [] p r l m h = absurd m
unkeyed_drop (c ∷ cs) p r l (inl e) h =
    let now : lacking (find_pre c ((p, r) ∷ l)) ≡ 0 =
      ap lacking (ap (λ (z : Pos). find_pre z ((p, r) ∷ l)) (sym e) ∙ find_pre_self p r l) in
    let before : lacking (find_pre c l) ≡ 1 =
      ap lacking (ap (λ (z : Pos). find_pre z l) (sym e) ∙ h) in
    omega (arith, now, before, unkeyed_mono cs p r l)
unkeyed_drop (c ∷ cs) p r l (inr m) h =
    omega (arith, lacking_mono c p r l, unkeyed_drop cs p r l m h)

module _ (root : ℕ → ℕ) (impassable : Pos → Bool) (s e : Pos) (quick : Bool) where
  -- The state that `relax` adds.
  unfoldable fresh_state : State → Dircost → State
  fresh_state st d = record {
    x = (moved (place st) d).x;
    y = (moved (place st) d).y;
    cost = st.cost + d.cost;
    weigh = weigh_of root e quick (moved (place st) d) (st.cost + d.cost);
  }

  -- `relax` adds a passable position that is not known yet, and nothing else.
  relax-cases :
      (st : State) (d : Dircost) (t : Search)
      → ((relax root impassable e quick st d t ≡ t)
          × (impassable (moved (place st) d) ≡ false → Known impassable s e (moved (place st) d) t))
        ⊎ ((relax root impassable e quick st d t
              ≡ added impassable s e (place st) (fresh_state st d) t)
            × (impassable (moved (place st) d) ≡ false)
            × (¬ In (moved (place st) d) t.close_list)
            × (find_pre (moved (place st) d) t.pres ≡ none))
  unfolding relax added fresh_state
  relax-cases st d t = elim (Bool-cases (impassable (moved (place st) d))) [
    | inl h ↦ inl (rw h refl, λ f. absurd (cc (h, f)))
    | inr h ↦ elim (Bool-cases (mem (moved (place st) d) t.close_list)) [
      | inl m ↦ inl (rw (h, m) refl, λ f. inl (mem-In (moved (place st) d) t.close_list m))
      | inr m ↦ elim (Option-cases (find_pre (moved (place st) d) t.pres)) [
        | inl n ↦ inr (
          rw (h, m, n) refl,
          h,
          (λ k. absurd (cc (m, In-mem (moved (place st) d) t.close_list k))),
          n,
        )
        | inr (r, n) ↦ inl (rw (h, m, n) refl, λ f. inr (r, n))
      ]
    ]
  ]

  relax-Inv :
      (st : State) (d : Dircost) (ds : List Dircost) (t : Search)
      → Inv impassable s e (place st) (d ∷ ds) t
      → In d direct_cost
      → In (place st) t.close_list
      → Inv impassable s e (place st) ds (relax root impassable e quick st d t)
  unfolding fresh_state
  relax-Inv st d ds t v n m = elim (relax-cases st d t) [
    | inl (same, known) ↦
        subst (Inv impassable s e (place st) ds) (sym same)
          (skip-Inv impassable s e (place st) d ds t v known)
    | inr (same, f, unseen, absent) ↦
        subst (Inv impassable s e (place st) ds) (sym same)
          (add-Inv impassable s e (place st) d ds (fresh_state st d) t v refl n m f unseen absent)
  ]

  close_list-relax :
      (st : State) (d : Dircost) (t : Search)
      → (relax root impassable e quick st d t).close_list ≡ t.close_list
  unfolding added
  close_list-relax st d t = elim (relax-cases st d t) [
    | inl (same, known) ↦ ap Search.close_list same
    | inr (same, f, unseen, absent) ↦ ap Search.close_list same
  ]

  pub relax_all-Inv :
      (st : State) (ds : List Dircost) (t : Search)
      → Inv impassable s e (place st) ds t
      → ((d : Dircost) → In d ds → In d direct_cost)
      → In (place st) t.close_list
      → Inv impassable s e (place st) [] (relax_all root impassable e quick st ds t)
  unfolding relax_all
  relax_all-Inv st [] t v n m = v
  relax_all-Inv st (d ∷ ds) t v n m =
      relax_all-Inv st ds (relax root impassable e quick st d t)
        (relax-Inv st d ds t v (n d (inl refl)) m) (λ c k. n c (inr k))
        (subst (In (place st)) (sym (close_list-relax st d t)) m)

  -- The cells without a key and the states in `openlist`.
  module _ (cells : List Pos) (all : (q : Pos) → impassable q ≡ false → In q cells) where
    unfoldable pub work : Search → ℕ
    unfolding unkeyed
    work t = unkeyed cells t.pres + length t.open_list

    relax-work :
        (st : State) (d : Dircost) (t : Search)
        → work (relax root impassable e quick st d t) ≤ work t
    unfolding work added fresh_state
    relax-work st d t = elim (relax-cases st d t) [
      | inl (same, known) ↦ omega (arith, ap work same)
      | inr (same, f, unseen, absent) ↦ omega (
        arith,
        ap work same,
        length-open_insert (fresh_state st d) t.open_list,
        unkeyed_drop cells (moved (place st) d) (place st) t.pres (all (moved (place st) d) f)
            absent,
      )
    ]

    pub relax_all-work :
        (st : State) (ds : List Dircost) (t : Search)
        → work (relax_all root impassable e quick st ds t) ≤ work t
    unfolding relax_all
    relax_all-work st [] t = omega arith
    relax_all-work st (d ∷ ds) t =
        omega
          (arith, relax_all-work st ds (relax root impassable e quick st d t), relax-work st d t)
