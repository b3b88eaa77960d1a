-- ===== src/Mmo/Views.antt =====
-- What `get_aoi` looks at, and what `diff_aoi` lists.
use luatest.Prelude.{
  ◌≡◌, ◌∙◌, sym, ap, refl, ◌⊎◌, ◌↔◌, inl, inr, ◌+◌, List, [], ◌∷◌, some, Bool, true, false, arith,
  Option-cases, Bool-cases, ◌&&◌,
}
use mathlib.Core.Path.{subst}
use luatest.Prelude.Int.{ℤ, pos, negsuc, leb_ℤ, ◌+ℤ◌, ◌-ℤ◌}
use luatest.Memory.{signed-bits_of_pos, signed-bits_of_negsuc}
use luatest.Std.Set.{In, In-append_left, In-append_right, In-of-append}
use luatest.Grid.{Pos, int16}
use luatest.Cells.{Cells}
use luatest.Mmo.Squares.{In-from, In-of-from, In-columns, In-of-columns}
use luatest.Mmo.{
  search_max, from, columns, sort_insert, sort, offsets, shifted, in_square, aoi_cells, ids_outside,
}

-- A number that fits is left as it is.
pub int16_lem : (v : ℤ) → leb_ℤ (negsuc 32767) v ≡ true → leb_ℤ v (pos 32767) ≡ true → int16 v ≡ v
unfolding int16
int16_lem (pos n) h k = signed-bits_of_pos 2 n (ground (arith, k))
int16_lem (negsuc n) h k = signed-bits_of_negsuc 2 n (ground (arith, h))

In-sort_insert : (p q : Pos) (ps : List Pos) → In q (sort_insert p ps) ↔ ((q ≡ p) ⊎ In q ps)
unfolding sort_insert
In-sort_insert p q [] = (λ m. m, λ m. m)
In-sort_insert p q (r ∷ rs) =
    (ground (arith, In-sort_insert p q rs), ground (arith, In-sort_insert p q rs))

pub In-sort : (q : Pos) (ps : List Pos) → In q (sort ps) ↔ In q ps
unfolding sort
In-sort q [] = (λ m. m, λ m. m)
In-sort q (p ∷ ps) = (
  λ m. elim ((In-sort_insert p q (sort ps)).0 m) [
    | inl e ↦ inl e
    | inr k ↦ inr ((In-sort q ps).0 k)
  ],
  λ m. elim m [
    | inl e ↦ (In-sort_insert p q (sort ps)).1 (inl e)
    | inr k ↦ (In-sort_insert p q (sort ps)).1 (inr ((In-sort q ps).1 k))
  ],
)

-- The offsets that a map has are those of a square.
abbrev near : ℤ → Bool
near v = leb_ℤ (negsuc 9) v && leb_ℤ v (pos 10)

In-offsets : (d : Pos) → In d offsets ↔ ((near d.x ≡ true) × (near d.y ≡ true))
unfolding offsets
In-offsets d = (
  λ m.
      let (h, k) = In-of-columns side side d ((In-sort d (columns side side)).0 m) in
      (bounds d.x h, bounds d.y k),
  λ p. (In-sort d (columns side side)).1 (In-columns side side d (inside d.x p.0) (inside d.y p.1)),
)
  where
    side : List ℤ
    side = from (search_max + search_max + 1) (negsuc 9)

    bounds : (v : ℤ) → In v side → near v ≡ true
    bounds v m =
        let (h, k) = In-of-from (search_max + search_max + 1) (negsuc 9) v m in ground (arith, h, k)

    inside : (v : ℤ) → near v ≡ true → In v side
    inside v h =
        In-from (search_max + search_max + 1) (negsuc 9) v (ground (arith, h)) (ground (arith, h))

-- A position so far from the bounds of int16_t that the square about it fits.
abbrev fits : ℤ → Bool
fits v = leb_ℤ (negsuc 32757) v && leb_ℤ v (pos 32757)

abbrev pub IsInner : Pos → Type 0
IsInner p = (fits p.x ≡ true) × (fits p.y ≡ true)

add_near : (a d : ℤ) → fits a ≡ true → near d ≡ true → int16 (a +ℤ d) ≡ a +ℤ d
add_near a d h k = int16_lem (a +ℤ d) (ground (arith, h, k)) (ground (arith, h, k))

pub add-sub : (a b : ℤ) → a +ℤ (b -ℤ a) ≡ b
add-sub a b = ground arith

in_square-near :
    (p c : Pos)
    → in_square p.x p.y c ≡ true
    → (near (c.x -ℤ p.x) ≡ true) × (near (c.y -ℤ p.y) ≡ true)
unfolding in_square
in_square-near p c h = (ground (arith, h), ground (arith, h))

near_low : (a d : ℤ) → near d ≡ true → leb_ℤ (a -ℤ pos 10) (a +ℤ d) ≡ true
near_low a d h = ground (arith, h)

near_high : (a d : ℤ) → near d ≡ true → leb_ℤ (a +ℤ d) (a +ℤ pos 10) ≡ true
near_high a d h = ground (arith, h)

in_square-shift :
    (p d : Pos)
    → near d.x ≡ true
    → near d.y ≡ true
    → in_square p.x p.y (record { x = p.x +ℤ d.x; y = p.y +ℤ d.y }) ≡ true
unfolding in_square
in_square-shift p d h k =
    rw (near_low p.x d.x h, near_high p.x d.x h, near_low p.y d.y k, near_high p.y d.y k) refl

shifted_lem :
    (p d : Pos)
    → IsInner p
    → near d.x ≡ true
    → near d.y ≡ true
    → shifted p d ≡ record { x = p.x +ℤ d.x; y = p.y +ℤ d.y }
unfolding shifted
shifted_lem p d i h k = rw (add_near p.x d.x i.0 h, add_near p.y d.y i.1 k) refl

-- The cells that `get_aoi` looks at are those of the square.
pub looked :
    (p c : Pos)
    → IsInner p
    → ((d : Pos) × (In d offsets × (c ≡ shifted p d))) ↔ (in_square p.x p.y c ≡ true)
looked p c i = (to, from')
  where
    to : (d : Pos) × (In d offsets × (c ≡ shifted p d)) → in_square p.x p.y c ≡ true
    to (d, (m, e)) =
        let (h, k) = (In-offsets d).0 m in
        ap (in_square p.x p.y) (e ∙ shifted_lem p d i h k) ∙ in_square-shift p d h k

    from' : in_square p.x p.y c ≡ true → (d : Pos) × (In d offsets × (c ≡ shifted p d))
    from' h =
        let (hx, hy) = in_square-near p c h in
        let d : Pos = record { x = c.x -ℤ p.x; y = c.y -ℤ p.y } in
        (
          d,
          (
            (In-offsets d).1 (hx, hy),
            sym (shifted_lem p d i hx hy ∙ cc (add-sub p.x c.x, add-sub p.y c.y)),
          ),
        )

pub In-aoi_cells :
    (cells : Cells) (p c : Pos) (ids : List ℤ) (order : List Pos)
    → In (c, ids) (aoi_cells cells p order)
      ↔ (((d : Pos) × (In d order × (c ≡ shifted p d))) × (cells c ≡ some ids))
unfolding aoi_cells
In-aoi_cells cells p c ids [] = (λ m. absurd m, λ m. absurd (m.0.1.0))
In-aoi_cells cells p c ids (ps ∷ order) = elim (Option-cases (cells (shifted p ps))) [
  | inl h ↦
      rw (aoi_cells, h)
        (
          λ m.
              let ((d, (k, e)), f) = (In-aoi_cells cells p c ids order).0 m in ((d, (inr k, e)), f),
          λ m. elim (m.0.1.0) [
            | inl g ↦ absurd (cc (h, m.1, ap cells (m.0.1.1 ∙ ap (shifted p) g)))
            | inr k ↦ (In-aoi_cells cells p c ids order).1 ((m.0.0, (k, m.0.1.1)), m.1)
          ],
        )
  | inr (xs, h) ↦
      rw (aoi_cells, h)
        (
          λ m. elim m [
            | inl g ↦ (
              (ps, (inl refl, ap (λ (z : Pos × List ℤ). z.0) g)),
              ap cells (ap (λ (z : Pos × List ℤ). z.0) g)
                  ∙ h
                  ∙ ap some (sym (ap (λ (z : Pos × List ℤ). z.1) g)),
            )
            | inr k ↦
                let ((d, (n, e)), f) = (In-aoi_cells cells p c ids order).0 k in
                ((d, (inr n, e)), f)
          ],
          λ m. elim (m.0.1.0) [
            | inl g ↦ inl (first m.0.1.1 g m.1 h)
            | inr k ↦ inr ((In-aoi_cells cells p c ids order).1 ((m.0.0, (k, m.0.1.1)), m.1))
          ],
        )
]
  where
    first :
        {d : Pos} {xs : List ℤ}
        → c ≡ shifted p d
        → d ≡ ps
        → cells c ≡ some ids
        → cells (shifted p ps) ≡ some xs
        → ◌≡◌ {A = Pos × List ℤ} (c, ids) (shifted p ps, xs)
    first e g f h = cc (e, ap (shifted p) g, f, ap cells (e ∙ ap (shifted p) g), h)

pub In-ids_outside :
    (x y id : ℤ) (seen : List (Pos × List ℤ))
    → In id (ids_outside x y seen)
      ↔ ((c : Pos) × ((ids : List ℤ) × (In (c, ids) seen × (in_square x y c ≡ false) × In id ids)))
unfolding ids_outside
In-ids_outside x y id [] = (λ m. absurd m, λ m. absurd (m.1.1.0))
In-ids_outside x y id ((c, ids) ∷ seen) = elim (Bool-cases (in_square x y c)) [
  | inl h ↦ rw h (
    λ m. let (d, (xs, (k, o, n))) = (In-ids_outside x y id seen).0 m in (d, (xs, (inr k, o, n))),
    λ m.
        let (d, (xs, (k, o, n))) = m in
        elim k [
          | inl g ↦ absurd (cc (h, o, ap (λ (z : Pos × List ℤ). in_square x y z.0) g))
          | inr r ↦ (In-ids_outside x y id seen).1 (d, (xs, (r, o, n)))
        ],
  )
  | inr h ↦ rw h (
    λ m. elim (In-of-append id ids (ids_outside x y seen) m) [
      | inl n ↦ (c, (ids, (inl refl, h, n)))
      | inr r ↦
          let (d, (xs, (k, o, n))) = (In-ids_outside x y id seen).0 r in (d, (xs, (inr k, o, n)))
    ],
    λ m.
        let (d, (xs, (k, o, n))) = m in
        elim k [
          | inl g ↦
              In-append_left id ids (ids_outside x y seen)
                (subst (In id) (ap (λ (z : Pos × List ℤ). z.1) g) n)
          | inr r ↦
              In-append_right id ids (ids_outside x y seen)
                ((In-ids_outside x y id seen).1 (d, (xs, (r, o, n))))
        ],
  )
]
