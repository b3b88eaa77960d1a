-- ===== src/Mmo/Search.antt =====
-- mmo/cc/map.cc: `aoi_search`, which lists entities of a range about an entity.
use luatest.Prelude.{
  ◌≡◌, ◌∙◌, ◌⊎◌, Option-cases, sym, ap, refl, inl, inr, ℕ, zero, suc, ◌+◌, List, [], ◌∷◌, ◌++◌,
  none, some, Bool, true, false, not, ◌&&◌, if◌then◌else◌, length, leb, arith, Bool-cases,
  length-append,
}
use mathlib.Core.List.{append_assoc, append-nil}
use luatest.Prelude.Int.{ℤ, pos, negsuc, eqb_ℤ}
use luatest.Std.Reals.{Reals}
use luatest.Grid.{Pos}
use luatest.Range.{Vec, circle, sector, rectangle}
use luatest.Mmo.{Entity, GameMap, cell_of, get_aoi}

-- The struct `Search`.
pub record Query (A : Type 0) : Type 0 where
  pub id : ℤ
  pub num : ℤ
  pub atk_type : ℤ
  pub range_tp : ℤ
  pub p1 : A
  pub p2 : A

-- `ret.size() >= info.num_` compares as size_t, where a negative number is too large to be reached.
unfoldable pub is_full : ℤ → List ℤ → Bool
is_full (pos n) ret = leb n (length ret)
is_full (negsuc n) ret = false

module _ (wanted : ℤ → Bool) (num : ℤ) where
  -- The loop over the ids of a cell, on what is listed so far.
  unfoldable pub search_ids : List ℤ → List ℤ → List ℤ
  search_ids [] ret = ret
  search_ids (oid ∷ ids) ret = elim (wanted oid) [
    | false ↦ search_ids ids ret
    | true ↦ elim (is_full num (ret ++ oid ∷ [])) [
      | true ↦ ret ++ oid ∷ []
      | false ↦ search_ids ids (ret ++ oid ∷ [])
    ]
  ]

  -- The calls of `cb` by `get_aoi`.
  unfoldable pub search_cells : List (Pos × List ℤ) → List ℤ → List ℤ
  search_cells [] ret = ret
  search_cells ((c, ids) ∷ seen) ret =
      search_cells seen (if is_full num ret then ret else search_ids ids ret)

module _ (R : Reals) where
  open R use {Real, of_int}

  -- `range_func`
  unfoldable pub range_func : Query Real → Vec Real → Vec Real → Vec Real → Bool
  range_func info p1 d p2 =
      if eqb_ℤ info.range_tp (pos 1)
      then circle R p1 info.p1 p2
      else if eqb_ℤ info.range_tp (pos 2)
      then sector R p1 d info.p1 info.p2 p2
      else if eqb_ℤ info.range_tp (pos 3)
      then rectangle R p1 d info.p1 info.p2 p2
      else false

  -- The tests on an id that a cell has.
  unfoldable pub is_wanted : Query Real → Entity Real → GameMap Real → ℤ → Bool
  unfolding range_func
  is_wanted info entity m oid = elim (m.entities oid) [
    | none ↦ false
    | some oentity ↦
        if eqb_ℤ info.atk_type (pos 0) && eqb_ℤ entity.atk_type oentity.atk_type
        then false
        else if eqb_ℤ info.atk_type (pos 1) && not (eqb_ℤ entity.atk_type oentity.atk_type)
        then false
        else range_func info (record { x = entity.x; y = entity.y })
            (record { x = of_int entity.dx; y = of_int entity.dy })
            (record { x = oentity.x; y = oentity.y })
  ]

  unfoldable pub aoi_search : Query Real → GameMap Real → List ℤ
  aoi_search info m = elim (m.entities info.id) [
    | none ↦ []
    | some entity ↦
        search_cells (is_wanted info entity m) info.num (get_aoi (cell_of R entity) m) []
  ]

-- The reference definition: the wanted ids of all cells, the first ones up to the number.
unfoldable pub filter : (ℤ → Bool) → List ℤ → List ℤ
filter p [] = []
filter p (x ∷ xs) = let rest = filter p xs in if p x then x ∷ rest else rest

unfoldable pub take : {A : Type 0} → ℕ → List A → List A
take zero xs = []
take (suc n) [] = []
take (suc n) (x ∷ xs) = x ∷ take n xs

unfoldable pub up_to : ℤ → List ℤ → List ℤ
up_to (pos n) xs = take n xs
up_to (negsuc n) xs = xs

unfoldable pub all_ids : List (Pos × List ℤ) → List ℤ
all_ids [] = []
all_ids ((c, ids) ∷ seen) = ids ++ all_ids seen

pub filter-append :
    (p : ℤ → Bool) (xs ys : List ℤ) → filter p (xs ++ ys) ≡ filter p xs ++ filter p ys
unfolding filter
filter-append p [] ys = refl
filter-append p (x ∷ xs) ys = elim (Bool-cases (p x)) [
  | inl h ↦ rw h (ap (◌∷◌ x) (filter-append p xs ys))
  | inr h ↦ rw h (filter-append p xs ys)
]

-- Listing one after the other until the list is full.
unfoldable pub fill : ℤ → List ℤ → List ℤ → List ℤ
fill num ret [] = ret
fill num ret (x ∷ xs) = fill num (if is_full num ret then ret else ret ++ x ∷ []) xs

pub fill_full : (num : ℤ) (ret xs : List ℤ) → is_full num ret ≡ true → fill num ret xs ≡ ret
unfolding fill
fill_full num ret [] h = refl
fill_full num ret (x ∷ xs) h = rw h (fill_full num ret xs h)

pub fill-append :
    (num : ℤ) (ret xs ys : List ℤ) → fill num ret (xs ++ ys) ≡ fill num (fill num ret xs) ys
unfolding fill
fill-append num ret [] ys = refl
fill-append num ret (x ∷ xs) ys =
    fill-append num (if is_full num ret then ret else ret ++ x ∷ []) xs ys

fill_any : (n : ℕ) (ret xs : List ℤ) → fill (negsuc n) ret xs ≡ ret ++ xs
unfolding fill is_full
fill_any n ret [] = sym (append-nil ret)
fill_any n ret (x ∷ xs) = fill_any n (ret ++ x ∷ []) xs ∙ append_assoc ret (x ∷ []) xs

-- With room for `k` more.
fill_room :
    (n k : ℕ) (ret xs : List ℤ) → length ret + k ≡ n → fill (pos n) ret xs ≡ ret ++ take k xs
unfolding fill is_full take
fill_room n zero ret [] e = sym (append-nil ret)
fill_room n (suc k) ret [] e = sym (append-nil ret)
fill_room n zero ret (x ∷ xs) e =
    let full : leb n (length ret) ≡ true = ground (arith, e) in
    rw full (fill_full (pos n) ret xs full ∙ sym (append-nil ret))
fill_room n (suc k) ret (x ∷ xs) e =
    let free : leb n (length ret) ≡ false = ground (arith, e) in
    rw free (
      fill_room n k (ret ++ x ∷ []) xs (omega (arith, e, length-append ret (x ∷ [])))
      ∙ append_assoc ret (x ∷ []) (take k xs))

pub fill-up_to : (num : ℤ) (xs : List ℤ) → fill num [] xs ≡ up_to num xs
unfolding up_to
fill-up_to (pos n) xs = fill_room n n [] xs (omega arith)
fill-up_to (negsuc n) xs = fill_any n [] xs

module _ (wanted : ℤ → Bool) (num : ℤ) where
  search_none : (ret : List ℤ) → search_ids wanted num [] ret ≡ fill num ret (filter wanted [])
  unfolding search_ids fill filter
  search_none ret = refl

  search_last :
      (oid : ℤ) (ids ret : List ℤ)
      → wanted oid ≡ true
      → is_full num (ret ++ oid ∷ []) ≡ true
      → search_ids wanted num (oid ∷ ids) ret ≡ ret ++ oid ∷ []
  unfolding search_ids
  search_last oid ids ret w f = rw (search_ids, w, f) refl

  search_more :
      (oid : ℤ) (ids ret : List ℤ)
      → wanted oid ≡ true
      → is_full num (ret ++ oid ∷ []) ≡ false
      → search_ids wanted num (oid ∷ ids) ret ≡ search_ids wanted num ids (ret ++ oid ∷ [])
  unfolding search_ids
  search_more oid ids ret w f = rw (search_ids, w, f) refl

  search_skip :
      (oid : ℤ) (ids ret : List ℤ)
      → wanted oid ≡ false
      → search_ids wanted num (oid ∷ ids) ret ≡ search_ids wanted num ids ret
  unfolding search_ids
  search_skip oid ids ret w = rw (search_ids, w) refl

  filter-true :
      (x : ℤ) (xs : List ℤ) → wanted x ≡ true → filter wanted (x ∷ xs) ≡ x ∷ filter wanted xs
  unfolding filter
  filter-true x xs h = rw h refl

  filter-false :
      (x : ℤ) (xs : List ℤ) → wanted x ≡ false → filter wanted (x ∷ xs) ≡ filter wanted xs
  unfolding filter
  filter-false x xs h = rw h refl

  fill_on :
      (ret : List ℤ) (x : ℤ) (xs : List ℤ)
      → is_full num ret ≡ false
      → fill num ret (x ∷ xs) ≡ fill num (ret ++ x ∷ []) xs
  unfolding fill
  fill_on ret x xs h = rw h refl

  search_ids-fill :
      (ids ret : List ℤ)
      → is_full num ret ≡ false
      → search_ids wanted num ids ret ≡ fill num ret (filter wanted ids)
  search_ids-fill [] ret h = search_none ret
  search_ids-fill (oid ∷ ids) ret h = elim (Bool-cases (wanted oid)) [
    | inl w ↦
        rw (filter-true oid ids w, fill_on ret oid (filter wanted ids) h)
          (elim (Bool-cases (is_full num (ret ++ oid ∷ []))) [
            | inl f ↦
                search_last oid ids ret w f
                ∙ sym (fill_full num (ret ++ oid ∷ []) (filter wanted ids) f)
            | inr f ↦ search_more oid ids ret w f ∙ search_ids-fill ids (ret ++ oid ∷ []) f
          ])
    | inr w ↦
        search_skip oid ids ret w
        ∙ search_ids-fill ids ret h
        ∙ ap (fill num ret) (sym (filter-false oid ids w))
  ]

  search_cells-fill :
      (seen : List (Pos × List ℤ)) (ret : List ℤ)
      → search_cells wanted num seen ret ≡ fill num ret (filter wanted (all_ids seen))
  unfolding search_cells all_ids fill filter
  search_cells-fill [] ret = refl
  search_cells-fill ((c, ids) ∷ seen) ret = elim (Bool-cases (is_full num ret)) [
    | inl h ↦ rw h (
        search_cells-fill seen ret
        ∙ fill_full num ret (filter wanted (all_ids seen)) h
        ∙ sym (fill_full num ret (filter wanted (ids ++ all_ids seen)) h))
    | inr h ↦
        rw (h, search_ids-fill ids ret h, filter-append wanted ids (all_ids seen))
          (search_cells-fill seen (fill num ret (filter wanted ids))
            ∙ sym (fill-append num ret (filter wanted ids) (filter wanted (all_ids seen))))
  ]

-- `aoi_search` from an entity lists the wanted ids of the cells that `get_aoi` looks at, in that order,
-- up to the number; all of them where the number is negative. Without the entity it lists nothing.
pub aoi_search-filter :
    (R : Reals) (info : Query R.Real) (m : GameMap R.Real)
    → ((m.entities info.id ≡ none) × (aoi_search R info m ≡ []))
      ⊎ ((entity : Entity R.Real) × ((m.entities info.id ≡ some entity)
            × (aoi_search R info m
                ≡ up_to info.num
                    (filter (is_wanted R info entity m) (all_ids (get_aoi (cell_of R entity) m))))))
unfolding aoi_search
aoi_search-filter R info m = elim (Option-cases (m.entities info.id)) [
  | inl h ↦ inl (h, rw (aoi_search, h) refl)
  | inr (entity, h) ↦ inr (
    entity,
    (
      h,
      rw (aoi_search, h)
          (search_cells-fill (is_wanted R info entity m) info.num (get_aoi (cell_of R entity) m) []
            ∙ fill-up_to info.num
                (filter (is_wanted R info entity m) (all_ids (get_aoi (cell_of R entity) m)))),
    ),
  )
]
