-- ===== src/World/Around.antt =====
-- The cells that `traversal_area` looks at.
use luatest.Prelude.{
  ◌≡◌, ◌∙◌, sym, ap, refl, ◌↔◌, ℕ, suc, ◌/◌, List, Bool, true, false, arith, ◌&&◌, ◌≤◌,
  if◌then◌else◌,
}
use luatest.Prelude.Int.{ℤ, pos, negsuc, ltb_ℤ, leb_ℤ, ◌+ℤ◌, ◌-ℤ◌}
use luatest.Std.Set.{In}
use luatest.Grid.{Pos, quot, int16}
use luatest.Mmo.{from, columns, shifted}
use luatest.Mmo.Squares.{In-from, In-of-from, In-columns, In-of-columns}
use luatest.Mmo.Views.{int16_lem, In-sort, add-sub}
use luatest.World.{aoi_len, directions, grid, coincide}

-- The numbers -1, 0 and 1.
abbrev near : ℤ → Bool
near v = leb_ℤ (negsuc 0) v && leb_ℤ v (pos 1)

In-directions : (d : Pos) → In d directions ↔ ((near d.x ≡ true) × (near d.y ≡ true))
unfolding directions
In-directions d = (
  λ m.
      let (h, k) = In-of-columns side side d ((In-sort d (columns side side)).0 m) in
      (bounds d.x h, bounds d.y k),
  λ p. (In-sort d (columns side side)).1 (In-columns side side d (inside d.x p.0) (inside d.y p.1)),
)
  where
    side : List ℤ
    side = from 3 (negsuc 0)

    bounds : (v : ℤ) → In v side → near v ≡ true
    bounds v m = let (h, k) = In-of-from 3 (negsuc 0) v m in ground (arith, h, k)

    inside : (v : ℤ) → near v ≡ true → In v side
    inside v h = In-from 3 (negsuc 0) v (ground (arith, h)) (ground (arith, h))

-- An int16_t.
abbrev pub is_int16 : ℤ → Bool
is_int16 v = leb_ℤ (negsuc 32767) v && leb_ℤ v (pos 32767)

abbrev pub IsInt16 : Pos → Type 0
IsInt16 p = (is_int16 p.x ≡ true) × (is_int16 p.y ≡ true)

abbrev small : ℤ → Bool
small v = leb_ℤ (negsuc 3276) v && leb_ℤ v (pos 3276)

tenth : (n : ℕ) → n ≤ 32768 → n / 10 ≤ 3276
tenth n h = omega (arith, h)

quot_small : (v : ℤ) → is_int16 v ≡ true → small (quot v aoi_len) ≡ true
unfolding quot
quot_small (pos n) h = ground (arith, tenth n (ground (arith, h)))
quot_small (negsuc n) h = ground (arith, tenth (suc n) (ground (arith, h)))

add_near : (a d : ℤ) → small a ≡ true → near d ≡ true → int16 (a +ℤ d) ≡ a +ℤ d
add_near a d h k = int16_lem (a +ℤ d) (ground (arith, h, k)) (ground (arith, h, k))

shifted_lem :
    (g d : Pos)
    → small g.x ≡ true
    → small g.y ≡ true
    → near d.x ≡ true
    → near d.y ≡ true
    → shifted g d ≡ record { x = g.x +ℤ d.x; y = g.y +ℤ d.y }
unfolding shifted
shifted_lem g d i j h k = rw (add_near g.x d.x i h, add_near g.y d.y j k) refl

-- The four tests of `coincide`, none of which may hold.
tests_false :
    (a b c d : Bool)
    → (if a then false else if b then false else if c then false else if d then false else true)
      ≡ true
    → (a ≡ false) × (b ≡ false) × (c ≡ false) × (d ≡ false)
tests_false a b c d h = (ground (arith, h), ground (arith, h), ground (arith, h), ground (arith, h))

near-sub :
    (a g : ℤ) → ltb_ℤ a (g -ℤ pos 1) ≡ false → ltb_ℤ (g +ℤ pos 1) a ≡ false → near (a -ℤ g) ≡ true
near-sub a g h k = ground (arith, h, k)

coincide-near :
    (c g : Pos)
    → coincide c g.x g.y ≡ true
    → (near (c.x -ℤ g.x) ≡ true) × (near (c.y -ℤ g.y) ≡ true)
unfolding coincide
coincide-near c g h =
    let (low_x, high_x, low_y, high_y) =
      tests_false (ltb_ℤ c.x (g.x -ℤ pos 1)) (ltb_ℤ (g.x +ℤ pos 1) c.x) (ltb_ℤ c.y (g.y -ℤ pos 1))
        (ltb_ℤ (g.y +ℤ pos 1) c.y) h in
    (near-sub c.x g.x low_x high_x, near-sub c.y g.y low_y high_y)

add_low : (a d : ℤ) → near d ≡ true → ltb_ℤ (a +ℤ d) (a -ℤ pos 1) ≡ false
add_low a d h = ground (arith, h)

add_high : (a d : ℤ) → near d ≡ true → ltb_ℤ (a +ℤ pos 1) (a +ℤ d) ≡ false
add_high a d h = ground (arith, h)

coincide-shift :
    (g d : Pos)
    → near d.x ≡ true
    → near d.y ≡ true
    → coincide (record { x = g.x +ℤ d.x; y = g.y +ℤ d.y }) g.x g.y ≡ true
unfolding coincide
coincide-shift g d h k =
    rw (add_low g.x d.x h, add_high g.x d.x h, add_low g.y d.y k, add_high g.y d.y k) refl

-- From a position of two int16_t, the cells looked at are those that `coincide` with its cell.
pub looked :
    (p c : Pos)
    → IsInt16 p
    → ((d : Pos) × (In d directions × (c ≡ shifted (grid p) d)))
      ↔ (coincide c (grid p).x (grid p).y ≡ true)
unfolding grid
looked p c i = (to, back)
  where
    at_x : small (grid p).x ≡ true
    at_x = quot_small p.x i.0

    at_y : small (grid p).y ≡ true
    at_y = quot_small p.y i.1

    to :
        (d : Pos) × (In d directions × (c ≡ shifted (grid p) d))
        → coincide c (grid p).x (grid p).y ≡ true
    to (d, (m, e)) =
        let (h, k) = (In-directions d).0 m in
        ap (λ (z : Pos). coincide z (grid p).x (grid p).y)
          (e ∙ shifted_lem (grid p) d at_x at_y h k)
        ∙ coincide-shift (grid p) d h k

    back :
        coincide c (grid p).x (grid p).y ≡ true
        → (d : Pos) × (In d directions × (c ≡ shifted (grid p) d))
    back h =
        let (hx, hy) = coincide-near c (grid p) h in
        let d : Pos = record { x = c.x -ℤ (grid p).x; y = c.y -ℤ (grid p).y } in
        (
          d,
          (
            (In-directions d).1 (hx, hy),
            sym (
                shifted_lem (grid p) d at_x at_y hx hy
                ∙ cc (add-sub (grid p).x c.x, add-sub (grid p).y c.y)),
          ),
        )
