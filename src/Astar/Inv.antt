-- ===== src/Astar/Inv.antt =====
-- What holds of the lists of the search after every round.
use luatest.Prelude.{
  ◌≡◌, ◌∙◌, sym, ap, refl, ◌⊎◌, inl, inr, suc, List, [], ◌∷◌, none, Bool, false, length, arith,
  Bool-cases, ltb, if_both,
}
use mathlib.Core.Path.{subst}
use luatest.Std.Set.{In}
use luatest.Grid.{Pos, ◌==ₚ◌, ==ₚ-eq}
use luatest.Astar.{State, Dircost, Search, place, direct_cost, moved, find_pre, open_insert}
use luatest.Astar.Route.{HasKey, find_pre_self, find_pre_ne, HasKey-cons, Linked}

pub In-open_insert_self : (s : State) (ts : List State) → In s (open_insert s ts)
unfolding open_insert
In-open_insert_self s [] = inl refl
In-open_insert_self s (t ∷ ts) =
    if_both (In s) (ltb s.weigh t.weigh) (inl refl) (inr (In-open_insert_self s ts))

pub In-open_insert_old : (s z : State) (ts : List State) → In z ts → In z (open_insert s ts)
unfolding open_insert
In-open_insert_old s z [] m = absurd m
In-open_insert_old s z (t ∷ ts) m = ground (arith, In-open_insert_old s z ts)

pub In-of-open_insert :
    (s z : State) (ts : List State) → In z (open_insert s ts) → (z ≡ s) ⊎ In z ts
unfolding open_insert
In-of-open_insert s z [] m = m
In-of-open_insert s z (t ∷ ts) m = ground (arith, In-of-open_insert s z ts)

pub length-open_insert : (s : State) (ts : List State) → length (open_insert s ts) ≡ suc (length ts)
unfolding open_insert
length-open_insert s [] = refl
length-open_insert s (t ∷ ts) = ground (arith, length-open_insert s ts)

module _ (impassable : Pos → Bool) (s e : Pos) where
  -- A closed position, or one that has been put into `openlist`.
  abbrev pub Known : Pos → Search → Type 0
  Known p t = In p t.close_list ⊎ HasKey p t.pres

  -- `ds` are the directions that have still to be tried from `p`.
  pub record Inv (p : Pos) (ds : List Dircost) (t : Search) : Type 0 where
    pub linked : Linked impassable s t.pres
    pub started : In s t.close_list
    pub waiting : (z : State) → In z t.open_list → HasKey (place z) t.pres
    pub closed : (q : Pos) → In q t.close_list → (q ≡ s) ⊎ HasKey q t.pres
    pub keyed :
        (q : Pos)
        → HasKey q t.pres
        → In q t.close_list ⊎ ((z : State) × (In z t.open_list × (place z ≡ q)))
    pub tried :
        (q : Pos) (d : Dircost)
        → In q t.close_list
        → In d direct_cost
        → impassable (moved q d) ≡ false
        → Known (moved q d) t ⊎ ((q ≡ p) × In d ds)
    pub not_end : ¬ In e t.close_list

  -- The state that `relax` leaves where it adds nothing.
  pub skip-Inv :
      (p : Pos) (d : Dircost) (ds : List Dircost) (t : Search)
      → Inv p (d ∷ ds) t
      → (impassable (moved p d) ≡ false → Known (moved p d) t)
      → Inv p ds t
  skip-Inv p d ds t v known = record {
    linked = v.linked;
    started = v.started;
    waiting = v.waiting;
    closed = v.closed;
    keyed = v.keyed;
    tried = λ q c m n f. elim (v.tried q c m n f) [
      | inl k ↦ inl k
      | inr (same, inl at) ↦ inl (
          subst (λ z. Known z t) (sym (ap (λ z. moved z c) same ∙ ap (moved p) at))
            (known (sym (ap impassable (ap (λ z. moved z c) same ∙ ap (moved p) at)) ∙ f)))
      | inr (same, inr later) ↦ inr (same, later)
    ];
    not_end = v.not_end;
  }

  -- The state with a new position, reached from the closed position `p`.
  unfoldable pub added : Pos → State → Search → Search
  added p s1 t = record t { open_list = open_insert s1 t.open_list; pres = (place s1, p) ∷ t.pres }

  pub add-Inv :
      (p : Pos) (d : Dircost) (ds : List Dircost) (s1 : State) (t : Search)
      → Inv p (d ∷ ds) t
      → place s1 ≡ moved p d
      → In d direct_cost
      → In p t.close_list
      → impassable (moved p d) ≡ false
      → ¬ In (moved p d) t.close_list
      → find_pre (moved p d) t.pres ≡ none
      → Inv p ds (added p s1 t)
  unfolding added
  add-Inv p d ds s1 t v at n m f unseen fresh = record {
    linked = (
      (d, (n, at, ap impassable at ∙ f)),
      v.closed p m,
      λ g. unseen (subst (λ z. In z t.close_list) (sym g ∙ at) v.started),
      ap (λ z. find_pre z t.pres) at ∙ fresh,
      v.linked,
    );
    started = v.started;
    waiting = λ z k. elim (In-of-open_insert s1 z t.open_list k) [
      | inl g ↦ subst (λ w. HasKey (place w) ((place s1, p) ∷ t.pres)) (sym g) self
      | inr old ↦ HasKey-cons (place z) (place s1) p t.pres (v.waiting z old)
    ];
    closed = λ q k. elim (v.closed q k) [
      | inl g ↦ inl g
      | inr g ↦ inr (HasKey-cons q (place s1) p t.pres g)
    ];
    keyed = λ q k. elim (Bool-cases (q ==ₚ place s1)) [
      | inl g ↦ inr (s1, (In-open_insert_self s1 t.open_list, sym (==ₚ-eq q (place s1) g)))
      | inr g ↦ elim (v.keyed q (k.0, sym (find_pre_ne q (place s1) p t.pres g) ∙ k.1)) [
        | inl c ↦ inl c
        | inr (z, (c, same)) ↦ inr (z, (In-open_insert_old s1 z t.open_list c, same))
      ]
    ];
    tried = λ q c k l g. elim (v.tried q c k l g) [
      | inl (inl h) ↦ inl (inl h)
      | inl (inr h) ↦ inl (inr (HasKey-cons (moved q c) (place s1) p t.pres h))
      | inr (same, inl now) ↦ inl (
          inr (
            subst (λ z. HasKey z ((place s1, p) ∷ t.pres))
              (at ∙ sym (ap (λ z. moved z c) same ∙ ap (moved p) now)) self))
      | inr (same, inr later) ↦ inr (same, later)
    ];
    not_end = v.not_end;
  }
    where
      self : HasKey (place s1) ((place s1, p) ∷ t.pres)
      self = (p, find_pre_self (place s1) p t.pres)
