-- ===== src/Astar/Route.antt =====
-- The way back over `pres` from a position to the start.
use luatest.Prelude.{
  ◌≡◌, ◌≢◌, ◌∙◌, sym, ap, refl, ◌⊎◌, inl, inr, ℕ, zero, suc, ◌<◌, List, [], ◌∷◌, Option, none, some,
  Bool, true, false, length, arith, Bool-cases,
}
use mathlib.Core.Path.{subst}
use luatest.Std.Set.{In}
use luatest.Grid.{Pos, ◌==ₚ◌, ==ₚ-eq, ==ₚ_refl}
use luatest.Astar.{Dircost, direct_cost, moved, find_pre, collinear, join, back}

-- A passable position one step away in one of the eight directions.
abbrev pub Step : (Pos → Bool) → Pos → Pos → Type 0
Step impassable p q = (d : Dircost) × (In d direct_cost × (q ≡ moved p d) × (impassable q ≡ false))

-- The positions that steps lead to from `s`.
pub data Reach (impassable : Pos → Bool) (s : Pos) : Pos → Type 0 where
  here : Reach impassable s s
  step : {r q : Pos} → Reach impassable s r → Step impassable r q → Reach impassable s q

-- A list of positions from `s` to `e`, each a step from the one before.
abbrev pub Walk : (Pos → Bool) → Pos → Pos → List Pos → Type 0
Walk impassable s e [] = ⊥
Walk impassable s e (p ∷ []) = (p ≡ s) × (p ≡ e)
Walk impassable s e (p ∷ q ∷ ps) = (p ≡ s) × Step impassable p q × Walk impassable q e (q ∷ ps)

-- A walk without some positions between its ends, each of them on a line with the position before
-- it on the walk and the next one that is kept.
pub data Thinned : List Pos → List Pos → Type 0 where
  ends : (p : Pos) → Thinned (p ∷ []) (p ∷ [])
  keep : (p : Pos) {ps qs : List Pos} → Thinned ps qs → Thinned (p ∷ ps) (p ∷ qs)
  drop :
      (p q r : Pos) {ps qs : List Pos}
      → collinear p q r ≡ true
      → Thinned (q ∷ ps) (q ∷ r ∷ qs)
      → Thinned (p ∷ q ∷ ps) (p ∷ r ∷ qs)

abbrev pub HasKey : Pos → List (Pos × Pos) → Type 0
HasKey p l = (r : Pos) × (find_pre p l ≡ some r)

pub find_pre_self : (p r : Pos) (l : List (Pos × Pos)) → find_pre p ((p, r) ∷ l) ≡ some r
unfolding find_pre
find_pre_self p r l = rw (==ₚ_refl p) refl

pub find_pre_ne :
    (p q r : Pos) (l : List (Pos × Pos))
    → (p ==ₚ q) ≡ false
    → find_pre p ((q, r) ∷ l) ≡ find_pre p l
unfolding find_pre
find_pre_ne p q r l h = rw h refl

-- A key stays a key.
pub HasKey-cons : (p q r : Pos) (l : List (Pos × Pos)) → HasKey p l → HasKey p ((q, r) ∷ l)
HasKey-cons p q r l (t, h) = elim (Bool-cases (p ==ₚ q)) [
  | inl e ↦ (r, ap (λ (z : Pos). find_pre z ((q, r) ∷ l)) (==ₚ-eq p q e) ∙ find_pre_self q r l)
  | inr e ↦ (t, find_pre_ne p q r l e ∙ h)
]

-- Each key is a step from its value, which is the start or an older key; no key is there twice, and
-- none is the start.
abbrev pub Linked : (Pos → Bool) → Pos → List (Pos × Pos) → Type 0
Linked impassable s [] = Unit
Linked impassable s ((q, pre) ∷ l) =
    Step impassable pre q
    × ((pre ≡ s) ⊎ HasKey pre l)
    × (q ≢ s)
    × (find_pre q l ≡ none)
    × Linked impassable s l

pub no_start :
    (impassable : Pos → Bool) (s : Pos) (l : List (Pos × Pos))
    → Linked impassable s l
    → find_pre s l ≡ none
unfolding find_pre
no_start impassable s [] h = refl
no_start impassable s ((q, pre) ∷ l) (_, _, d, _, h) = elim (Bool-cases (s ==ₚ q)) [
  | inl e ↦ absurd (d (sym (==ₚ-eq s q e)))
  | inr e ↦ rw e (no_start impassable s l h)
]

-- What `back` returns from `p`, when it has gone from the end `e` to `p`.
abbrev pub Arrives : (Pos → Bool) → Pos → Pos → Option (List Pos) → Type 0
Arrives impassable s e r =
    (out walk : List Pos) × ((r ≡ some out) × Walk impassable s e walk × Thinned walk out)

join-Thinned :
    (pre p : Pos) (ws rs : List Pos)
    → Thinned (p ∷ ws) (p ∷ rs)
    → (out : List Pos) × ((join pre (p ∷ rs) ≡ pre ∷ out) × Thinned (pre ∷ p ∷ ws) (pre ∷ out))
unfolding join
join-Thinned pre p ws [] t = (p ∷ [], (refl, keep pre t))
join-Thinned pre p ws (r ∷ rs) t = elim (Bool-cases (collinear pre p r)) [
  | inl h ↦ (r ∷ rs, (rw h refl, drop pre p r h t))
  | inr h ↦ (p ∷ r ∷ rs, (rw h refl, keep pre t))
]

no_key : (p r : Pos) → find_pre p [] ≢ some r
unfolding find_pre
no_key p r e = cc e

back_end :
    (fuel : ℕ) (pres : List (Pos × Pos)) (p : Pos) (ret : List Pos)
    → find_pre p pres ≡ none
    → back (suc fuel) pres p ret ≡ some ret
unfolding back
back_end fuel pres p ret h = rw (back, h) refl

back_on :
    (fuel : ℕ) (pres : List (Pos × Pos)) (p pre : Pos) (ret : List Pos)
    → find_pre p pres ≡ some pre
    → back (suc fuel) pres p ret ≡ back fuel pres pre (join pre ret)
unfolding back
back_on fuel pres p pre ret h = rw (back, h) refl

module _ (impassable : Pos → Bool) (s e : Pos) (pres : List (Pos × Pos)) where
  back-Arrives :
      (l : List (Pos × Pos))
      → Linked impassable s l
      → ((p r : Pos) → find_pre p l ≡ some r → find_pre p pres ≡ some r)
      → find_pre s pres ≡ none
      → (fuel : ℕ) (p : Pos) (ws rs : List Pos) → length l < fuel
      → (p ≡ s) ⊎ HasKey p l
      → Walk impassable p e (p ∷ ws)
      → Thinned (p ∷ ws) (p ∷ rs)
      → Arrives impassable s e (back fuel pres p (p ∷ rs))
  back-Arrives l h agree first zero p ws rs f k w t = absurd (omega arith)
  back-Arrives l h agree first (suc fuel) p ws rs f (inl same) w t =
      let none_there : find_pre p pres ≡ none = ap (λ z. find_pre z pres) same ∙ first in
      (
        p ∷ rs,
        p ∷ ws,
        (
          back_end fuel pres p (p ∷ rs) none_there,
          subst (λ z. Walk impassable z e (p ∷ ws)) same w,
          t,
        ),
      )
  back-Arrives [] h agree first (suc fuel) p ws rs f (inr (r, k)) w t = absurd (no_key p r k)
  back-Arrives ((q, pre) ∷ l) h agree first (suc fuel) p ws rs f (inr (r, k)) w t =
      elim (Bool-cases (p ==ₚ q)) [
        | inl e ↦
            let same : p ≡ q = ==ₚ-eq p q e in
            let at : find_pre p pres ≡ some pre =
              ap (λ (z : Pos). find_pre z pres) same ∙ agree q pre (find_pre_self q pre l) in
            let (out, (joined, thin)) = join-Thinned pre p ws rs t in
            rw (back_on fuel pres p pre (p ∷ rs) at, joined)
              (back-Arrives l h.4 later first fuel pre (p ∷ ws) out (omega arith) h.1
                (refl, subst (Step impassable pre) (sym same) h.0, w) thin)
        | inr e ↦
            back-Arrives l h.4 later first (suc fuel) p ws rs (omega arith)
              (inr (r, sym (find_pre_ne p q pre l e) ∙ k)) w t
      ]
    where
      later : (p r : Pos) → find_pre p l ≡ some r → find_pre p pres ≡ some r
      later p r g = elim (Bool-cases (p ==ₚ q)) [
        | inl e ↦ absurd (cc (g, ap (λ (z : Pos). find_pre z l) (==ₚ-eq p q e), h.3))
        | inr e ↦ agree p r (find_pre_ne p q pre l e ∙ g)
      ]

-- From a key of `pres`, the way back is a walk from the start, thinned.
pub back_lem :
    (impassable : Pos → Bool) (s e : Pos) (pres : List (Pos × Pos))
    → Linked impassable s pres
    → HasKey e pres
    → Arrives impassable s e (back (suc (length pres)) pres e (e ∷ []))
back_lem impassable s e pres h k =
    back-Arrives impassable s e pres pres h (λ p r g. g) (no_start impassable s pres h)
      (suc (length pres)) e [] [] (omega arith) (inr k) (refl, refl) (ends e)
