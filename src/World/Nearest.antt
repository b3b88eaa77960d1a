-- ===== src/World/Nearest.antt =====
-- What `search` lists.
use luatest.Prelude.{
  ◌≡◌, ◌∙◌, sym, ap, refl, ◌⊎◌, inl, inr, ℕ, zero, suc, ◌-◌, ◌≤◌, ◌<◌, List, [], ◌∷◌, ◌++◌, some,
  Bool, false, Option-cases, Bool-cases, length, leb, arith, All, none,
}
use luatest.Prelude.Int.{ℤ, pos, negsuc, pos_part, leb_ℤ}
use mathlib.Core.Path.{subst}
use mathlib.Core.List.{Perm, append-nil}
use mathlib.Core.List.Perm
use luatest.Std.Reals.{Reals}
use luatest.Range.{Vec}
use luatest.Mmo.Search.{take, filter}
use luatest.World.{Actor, World, aoi_ids}
use luatest.World.Search.{Query, Dis, ids_of, range_func, distance, is_hit, hits, pick, search}

one_less : (k : ℕ) → suc k - 1 ≡ k
one_less k = omega arith

-- A number that is not 0 or less.
positive : (v : ℤ) → leb_ℤ v (pos 0) ≡ false → (k : ℕ) × (pos_part v ≡ suc k)
positive (pos zero) h = absurd (cc h)
positive (pos (suc k)) h = (k, refl)
positive (negsuc k) h = absurd (ground (arith, h))

unfoldable pub drop : {A : Type 0} → ℕ → List A → List A
drop zero xs = xs
drop (suc n) [] = []
drop (suc n) (x ∷ xs) = drop n xs

take-drop : {A : Type 0} (n : ℕ) (xs : List A) → take n xs ++ drop n xs ≡ xs
unfolding take drop
take-drop zero xs = refl
take-drop (suc n) [] = refl
take-drop (suc n) (x ∷ xs) = ap (◌∷◌ x) (take-drop n xs)

length-take : {A : Type 0} (n : ℕ) (xs : List A) → n ≤ length xs → length (take n xs) ≡ n
unfolding take
length-take zero xs h = refl
length-take (suc n) [] h = absurd (omega (arith, h))
length-take (suc n) (x ∷ xs) h = ap suc (length-take n xs (omega (arith, h)))

ids_of-take : {A : Type 0} (n : ℕ) (vs : List (Dis A)) → take n (ids_of vs) ≡ ids_of (take n vs)
unfolding take ids_of
ids_of-take zero vs = refl
ids_of-take (suc n) [] = refl
ids_of-take (suc n) (v ∷ vs) = ap (◌∷◌ v.id) (ids_of-take n vs)

module _ (R : Reals) where
  open R use {Real, lt}

  -- None of a list is nearer than a certain one, and than any of another list.
  unfoldable pub NoneBelow : Dis Real → List (Dis Real) → Type 0
  NoneBelow u [] = Unit
  NoneBelow u (v ∷ vs) = (lt v.dis u.dis ≡ false) × NoneBelow u vs

  unfoldable pub NoneNearer : List (Dis Real) → List (Dis Real) → Type 0
  NoneNearer [] vs = Unit
  NoneNearer (u ∷ us) vs = NoneBelow u vs × NoneNearer us vs

  none_left : (us : List (Dis Real)) → NoneNearer us []
  unfolding NoneNearer NoneBelow
  none_left [] = tt
  none_left (u ∷ us) = (tt, none_left us)

  -- What the C++ library documents of `nth_element` for a place in a list: the elements are the same,
  -- and none behind the place is less than one up to it.
  pub record IsPartition (n : ℕ) (vs vs' : List (Dis Real)) : Type 0 where
    pub same : Perm vs' vs
    pub same_length : length vs' ≡ length vs
    pub parted : NoneNearer (take (suc n) vs') (drop (suc n) vs')

  abbrev pub KeepsParts : (ℕ → List (Dis Real) → List (Dis Real)) → Type 0
  KeepsParts nth_element =
      (n : ℕ) (vs : List (Dis Real)) → n < length vs → IsPartition n vs (nth_element n vs)

  -- The actors that an actor's `search` reaches, by their ids.
  unfoldable pub reaches :
      (Vec Real → Vec Real → Vec Real → Bool) → Bool → Actor Real → World Real → ℤ → Bool
  reaches rangefunc samecamp actor w oid = elim (w.actor oid) [
    | none ↦ false
    | some o ↦ is_hit R rangefunc samecamp actor o
  ]

  -- The distance that goes with an id is that to its actor.
  abbrev pub IsMeasured : Actor Real → World Real → Dis Real → Type 0
  IsMeasured actor w v = (o : Actor Real) × ((w.actor v.id ≡ some o) × (v.dis ≡ distance R actor o))

  -- The ids that are reached among certain ones, each as often as it is there, and their distances.
  pub record AreHits (rangefunc : Vec Real → Vec Real → Vec Real → Bool) (samecamp : Bool)
      (actor : Actor Real) (w : World Real) (ids : List ℤ) (all : List (Dis Real)) : Type 0 where
    pub reached : ids_of all ≡ filter (reaches rangefunc samecamp actor w) ids
    pub measured : All (IsMeasured actor w) all

  module _ (rangefunc : Vec Real → Vec Real → Vec Real → Bool) (samecamp : Bool)
      (actor : Actor Real) (w : World Real) where
    abbrev here : List ℤ → List (Dis Real)
    here ids = hits R (is_hit R rangefunc samecamp actor) actor w ids

    hits-reached :
        (ids : List ℤ) → ids_of (here ids) ≡ filter (reaches rangefunc samecamp actor w) ids
    unfolding hits filter reaches ids_of
    hits-reached [] = refl
    hits-reached (oid ∷ ids) = elim (Option-cases (w.actor oid)) [
      | inl h ↦ rw (hits, ids_of, filter, reaches, h) (hits-reached ids)
      | inr (o, h) ↦ elim (Bool-cases (is_hit R rangefunc samecamp actor o)) [
        | inl hit ↦ rw (hits, ids_of, filter, reaches, h, hit) (ap (◌∷◌ oid) (hits-reached ids))
        | inr miss ↦ rw (hits, ids_of, filter, reaches, h, miss) (hits-reached ids)
      ]
    ]

    hits-IsMeasured : (ids : List ℤ) → All (IsMeasured actor w) (here ids)
    unfolding hits
    hits-IsMeasured [] = tt
    hits-IsMeasured (oid ∷ ids) = elim (Option-cases (w.actor oid)) [
      | inl h ↦ rw (hits, h) (hits-IsMeasured ids)
      | inr (o, h) ↦ elim (Bool-cases (is_hit R rangefunc samecamp actor o)) [
        | inl hit ↦ rw (hits, h, hit) ((o, (h, refl)), hits-IsMeasured ids)
        | inr miss ↦ rw (hits, h, miss) (hits-IsMeasured ids)
      ]
    ]

  -- Some of the hits are listed and the others are left.
  pub record IsChoice (num : ℕ) (all chosen left : List (Dis Real)) : Type 0 where
    pub same : Perm (chosen ++ left) all
    pub counted : (length chosen ≡ num) ⊎ ((length chosen ≤ num) × (left ≡ []))
    pub nearest : NoneNearer chosen left

  pick-IsChoice :
      (nth_element : ℕ → List (Dis Real) → List (Dis Real)) (k : ℕ) (all : List (Dis Real))
      → KeepsParts nth_element
      → (chosen : List (Dis Real)) × ((left : List (Dis Real)) × ((pick R nth_element (suc k) all
              ≡ ids_of chosen)
            × IsChoice (suc k) all chosen left))
  unfolding pick
  pick-IsChoice nth_element k all parts = elim (Bool-cases (leb (length all) (suc k))) [
    | inl few ↦ (
      all,
      (
        [],
        (
          rw (pick, few) refl,
          record {
            same = subst (λ vs. Perm vs all) (sym (append-nil all)) (Perm.refl all);
            counted = inr (ground (arith, few), refl);
            nearest = none_left all;
          },
        ),
      ),
    )
    | inr many ↦
        let p = parts k all (ground (arith, many)) in
        (
          take (suc k) (nth_element k all),
          (
            drop (suc k) (nth_element k all),
            (
              rw (pick, many, one_less k) (ids_of-take (suc k) (nth_element k all)),
              record {
                same =
                    subst (λ vs. Perm vs all) (sym (take-drop (suc k) (nth_element k all))) p.same;
                counted =
                    inl (
                      length-take (suc k) (nth_element k all)
                        (ground (arith, many, p.same_length)));
                nearest = p.parted;
              },
            ),
          ),
        )
  ]

  search-pick :
      (nth_element : ℕ → List (Dis Real) → List (Dis Real)) (info : Query Real) (actor : Actor Real)
      (w : World Real) (rangefunc : Vec Real → Vec Real → Vec Real → Bool)
      → leb_ℤ info.num (pos 0) ≡ false
      → w.actor info.id ≡ some actor
      → range_func R info.rtp info.p1 info.p2 ≡ some rangefunc
      → search R nth_element info w
        ≡ pick R nth_element
            (pos_part info.num)
            (here rangefunc info.samecamp actor w (aoi_ids R info.id w))
  unfolding search
  search-pick nth_element info actor w rangefunc h there ranged = rw (search, h, there, ranged) refl

  -- Let `nth_element` do what the C++ library documents. Asked for a positive number of ids about an
  -- actor, in a range of a known kind, `search` chooses among the ids that `aoi_ids` lists of actors
  -- in the range and of the asked side, each as often as `aoi_ids` lists it: all where there are no
  -- more than the number, and otherwise so many that none of the others is nearer than one of these.
  pub search-IsChoice :
      (nth_element : ℕ → List (Dis Real) → List (Dis Real))
      → KeepsParts nth_element
      → (info : Query Real) (actor : Actor Real) (w : World Real)
        (rangefunc : Vec Real → Vec Real → Vec Real → Bool)
      → leb_ℤ info.num (pos 0) ≡ false
      → w.actor info.id ≡ some actor
      → range_func R info.rtp info.p1 info.p2 ≡ some rangefunc
      → (all : List (Dis Real)) × ((chosen : List (Dis Real)) × ((left : List (Dis Real)) × ((search
                  R nth_element info w
                ≡ ids_of chosen)
              × IsChoice (pos_part info.num) all chosen left
              × AreHits rangefunc info.samecamp actor w (aoi_ids R info.id w) all)))
  search-IsChoice nth_element parts info actor w rangefunc h there ranged =
      let all = here rangefunc info.samecamp actor w (aoi_ids R info.id w) in
      let (k, e) = positive info.num h in
      let (chosen, (left, (picked, choice))) =
        subst
          (λ n.
            (chosen : List (Dis Real)) × ((left : List (Dis Real)) × ((pick R nth_element n all
                  ≡ ids_of chosen)
                × IsChoice n all chosen left)))
          (sym e) (pick-IsChoice nth_element k all parts) in
      (
        all,
        (
          chosen,
          (
            left,
            (
              search-pick nth_element info actor w rangefunc h there ranged ∙ picked,
              choice,
              record {
                reached = hits-reached rangefunc info.samecamp actor w (aoi_ids R info.id w);
                measured = hits-IsMeasured rangefunc info.samecamp actor w (aoi_ids R info.id w);
              },
            ),
          ),
        ),
      )
