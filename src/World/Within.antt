-- ===== src/World/Within.antt =====
-- The actors of a world stand within it.
use luatest.Prelude.{
  ◌≡◌, ◌∙◌, sym, ap, refl, inl, inr, List, [], ◌∷◌, some, Option-cases, Bool-cases, true, false,
  arith,
}
use mathlib.Core.Path.{subst}
use luatest.Prelude.Int.{ℤ, pos, ◌-ℤ◌, leb_ℤ}
use luatest.Std.Order.{int_order}
use luatest.Std.Map
use luatest.Std.Map.{Map}
use luatest.Std.Reals.{Reals}
use luatest.Grid.{Pos}
use luatest.World.{
  Actor, World, create, clamp, correctpos, placed, moved, setblock, addactor, delactor, setpos,
}
use luatest.World.Calls.{Call, blocks, adds, sets, dels, step, run}
use luatest.World.Tracked.{setblock_rest}

module _ (R : Reals) where
  open R use {Real, lt, of_int}

  -- A coordinate that is not below 0 and not above the last one of a length.
  pub record IsWithin (len : ℤ) (v : Real) : Type 0 where
    pub above : lt v (of_int (pos 0)) ≡ false
    pub below : lt (of_int (len -ℤ pos 1)) v ≡ false

  pub record ArePlaced (len wid : ℤ) (w : World Real) : Type 0 where
    pub len_same : w.len ≡ len
    pub wid_same : w.wid ≡ wid
    pub placed_x : (id : ℤ) (a : Actor Real) → w.actor id ≡ some a → IsWithin len a.x
    pub placed_y : (id : ℤ) (a : Actor Real) → w.actor id ≡ some a → IsWithin wid a.y

  -- Integers are compared alike before and after the conversion.
  abbrev pub KeepsOrder : Type 0
  KeepsOrder = (a b : ℤ) → leb_ℤ a b ≡ true → lt (of_int b) (of_int a) ≡ false

  clamp-IsWithin :
      (len : ℤ) (v : Real) → KeepsOrder → leb_ℤ (pos 1) len ≡ true → IsWithin len (clamp R len v)
  unfolding clamp
  clamp-IsWithin len v keeps h = elim (Bool-cases (lt v (of_int (pos 0)))) [
    | inl low ↦ elim (Bool-cases (lt (of_int (len -ℤ pos 1)) (of_int (pos 0)))) [
      | inl none_left ↦ absurd (cc (none_left, keeps (pos 0) (len -ℤ pos 1) (ground (arith, h))))
      | inr room ↦
          rw (clamp, low, room) (record { above = keeps (pos 0) (pos 0) refl; below = room })
    ]
    | inr high ↦ elim (Bool-cases (lt (of_int (len -ℤ pos 1)) v)) [
      | inl over ↦
          rw (clamp, high, over)
            (record {
              above = keeps (pos 0) (len -ℤ pos 1) (ground (arith, h));
              below = keeps (len -ℤ pos 1) (len -ℤ pos 1) (ground arith);
            })
      | inr fits ↦ rw (clamp, high, fits) (record { above = high; below = fits })
    ]
  ]

  module _ (keeps : KeepsOrder) (len wid : ℤ) (hl : leb_ℤ (pos 1) len ≡ true)
      (hw : leb_ℤ (pos 1) wid ≡ true) where
    -- An actor with a corrected position joins the world.
    assign-ArePlaced :
        (id : ℤ) (a : Actor Real) (w w' : World Real)
        → w'.len ≡ w.len
        → w'.wid ≡ w.wid
        → w'.actor ≡ Map.assign int_order id (correctpos R w a) w.actor
        → ArePlaced len wid w
        → ArePlaced len wid w'
    unfolding correctpos
    assign-ArePlaced id a w w' el ew ea v = record {
      len_same = el ∙ v.len_same;
      wid_same = ew ∙ v.wid_same;
      placed_x = λ z b h.
          elim (Map.assign-some int_order id z (correctpos R w a) b w.actor
            (sym (ap (λ (m : Map ℤ (Actor Real)). m z) ea) ∙ h)) [
              | inl (same, g) ↦
                  subst (IsWithin len) (ap (λ l. clamp R l a.x) (sym v.len_same) ∙ ap Actor.x g)
                    (clamp-IsWithin len a.x keeps hl)
              | inr (other, f) ↦ v.placed_x z b f
            ];
      placed_y = λ z b h.
          elim (Map.assign-some int_order id z (correctpos R w a) b w.actor
            (sym (ap (λ (m : Map ℤ (Actor Real)). m z) ea) ∙ h)) [
              | inl (same, g) ↦
                  subst (IsWithin wid) (ap (λ l. clamp R l a.y) (sym v.wid_same) ∙ ap Actor.y g)
                    (clamp-IsWithin wid a.y keeps hw)
              | inr (other, f) ↦ v.placed_y z b f
            ];
    }

    addactor-ArePlaced :
        (id : ℤ) (a : Actor Real) (w : World Real)
        → ArePlaced len wid w
        → ArePlaced len wid (addactor R id a w)
    unfolding addactor
    addactor-ArePlaced id a w v = elim (Option-cases (w.actor id)) [
      | inr (old, h) ↦ rw (addactor, h) v
      | inl h ↦
          assign-ArePlaced id a w (addactor R id a w) (rw (addactor, h) refl)
            (rw (addactor, h) refl) (rw (addactor, h) refl) v
    ]

    setpos-ArePlaced :
        (id : ℤ) (x y : Real) (dx dy : ℤ) (w : World Real)
        → ArePlaced len wid w
        → ArePlaced len wid ((setpos R id x y dx dy w).0)
    unfolding setpos placed moved
    setpos-ArePlaced id x y dx dy w v = elim (Option-cases (w.actor id)) [
      | inl h ↦ rw (setpos, h) v
      | inr (a, h) ↦
          assign-ArePlaced id (record a { x = x; y = y; dx = dx; dy = dy }) w
            ((setpos R id x y dx dy w).0) (rw (setpos, h) refl) (rw (setpos, h) refl)
            (rw (setpos, h) refl) v
    ]

    delactor-ArePlaced :
        (id : ℤ) (w : World Real) → ArePlaced len wid w → ArePlaced len wid (delactor R id w)
    unfolding delactor
    delactor-ArePlaced id w v = elim (Option-cases (w.actor id)) [
      | inl h ↦ rw (delactor, h) v
      | inr (a, h) ↦
          rw (delactor, h)
            (record {
              len_same = v.len_same;
              wid_same = v.wid_same;
              placed_x = λ z b k. v.placed_x z b (Map.erase-some int_order id z w.actor b k).1;
              placed_y = λ z b k. v.placed_y z b (Map.erase-some int_order id z w.actor b k).1;
            })
    ]

    setblock-ArePlaced :
        (p : Pos) (b : ℤ) (w : World Real)
        → ArePlaced len wid w
        → ArePlaced len wid (setblock p b w)
    setblock-ArePlaced p b w v =
        let (same, _, el, ew) = setblock_rest R p b w in
        record {
          len_same = el ∙ v.len_same;
          wid_same = ew ∙ v.wid_same;
          placed_x = λ z a k. v.placed_x z a (sym (ap (λ (m : Map ℤ (Actor Real)). m z) same) ∙ k);
          placed_y = λ z a k. v.placed_y z a (sym (ap (λ (m : Map ℤ (Actor Real)). m z) same) ∙ k);
        }

    run_on :
        (cs : List (Call R)) (w : World Real) → ArePlaced len wid w → ArePlaced len wid (run R cs w)
    unfolding run step
    run_on [] w v = v
    run_on (blocks x y b ∷ cs) w v =
        run_on cs (step R (blocks x y b) w) (setblock-ArePlaced (record { x = x; y = y }) b w v)
    run_on (adds id x y dx dy camp ∷ cs) w v = run_on cs (step R (adds id x y dx dy camp) w) (
        addactor-ArePlaced id
          (record {
            id = id;
            x = x;
            y = y;
            dx = dx;
            dy = dy;
            camp = camp;
            attrs = Map.no_keys;
            skills = Map.no_keys;
          })
          w v)
    run_on (sets id x y dx dy ∷ cs) w v =
        run_on cs (step R (sets id x y dx dy) w) (setpos-ArePlaced id x y dx dy w v)
    run_on (dels id ∷ cs) w v = run_on cs (step R (dels id) w) (delactor-ArePlaced id w v)

    -- Let integers be compared alike as floats, and let a world have a row and a column. Whatever
    -- calls are made on it, no actor stands below 0 or above the last column or row.
    pub run-ArePlaced : (cs : List (Call R)) → ArePlaced len wid (run R cs (create R len wid))
    unfolding create
    run-ArePlaced cs = run_on cs (create R len wid) (record {
      len_same = refl;
      wid_same = refl;
      placed_x = λ z a h. absurd (cc h);
      placed_y = λ z a h. absurd (cc h);
    })
