-- ===== src/Battle/Buffs.antt =====
-- battlecc/cc/skill.cc: the buffs of an actor.
use luatest.Prelude.{ℕ, ◌+◌, ◌%◌, ◌^◌, List, [], ◌∷◌, if◌then◌else◌}
use luatest.Prelude.Int.{ℤ, pos, ltb_ℤ, leb_ℤ, eqb_ℤ}
use luatest.Std.Table.{erase_at, assign_at}
use luatest.Std.Reals.{Reals}
use luatest.Battle.{Func, Buff, Actor}

module _ (R : Reals) where
  -- `buffs_.insert(buff)`, into a multiset by `endtm_`: a new buff goes behind those of its time.
  unfoldable pub insert_buff : Buff R → List (Buff R) → List (Buff R)
  insert_buff buff [] = buff ∷ []
  insert_buff buff (b ∷ bs) =
      let rest = insert_buff buff bs in if ltb_ℤ buff.endtm b.endtm then buff ∷ b ∷ bs else b ∷ rest

  -- `attrs_[k] += v`
  unfoldable pub raise : ℤ → R.Real → (ℤ → R.Real) → ℤ → R.Real
  raise k v attrs i = if eqb_ℤ i k then R.plus (attrs k) v else attrs i

  unfoldable pub lower : ℤ → R.Real → (ℤ → R.Real) → ℤ → R.Real
  lower k v attrs i = if eqb_ℤ i k then R.minus (attrs k) v else attrs i

  unfoldable pub lower_all : List (ℤ × R.Real) → (ℤ → R.Real) → ℤ → R.Real
  unfolding lower
  lower_all [] attrs = attrs
  lower_all ((k, v) ∷ es) attrs = lower_all es (lower k v attrs)

  unfoldable pub erase_event : ℤ → ℕ → (ℤ → List (ℤ × Func R)) → ℤ → List (ℤ × Func R)
  unfolding erase_at
  erase_event event id funcs i =
      let left = erase_at (pos id) (funcs event) in if eqb_ℤ i event then left else funcs i

  unfoldable pub removebuff : Buff R → Actor R → Actor R
  unfolding lower_all erase_event erase_at
  removebuff buff a = record a {
    roundend = erase_at (pos buff.id) a.roundend;
    attrs = lower_all buff.attrs a.attrs;
    eventfunc =
        if ltb_ℤ (pos 0) buff.event
        then erase_event buff.event buff.id a.eventfunc
        else a.eventfunc;
  }

  -- The loop over the buffs at the end of a round.
  unfoldable pub drop_buffs : ℤ → List (Buff R) → Actor R → Actor R
  unfolding removebuff
  drop_buffs round [] a = record a { buffs = [] }
  drop_buffs round (b ∷ bs) a =
      let rest = drop_buffs round bs (removebuff b a) in
      if leb_ℤ b.endtm round then rest else record a { buffs = b ∷ bs }

  -- `initbuff`, with `idx_` as a uint16_t: the buff, and the actor with its new `idx_`.
  unfoldable pub initbuff : ℤ → Actor R → Buff R × Actor R
  initbuff tid a =
      let id = (a.idx + 1) % 2 ^ 16 in
      (
        record { id = id; tid = tid; event = pos 0; endtm = pos 1; attrs = [] },
        record a { idx = id },
      )

  -- The loop of `buffattr`, where `i < arr.size() - 1` holds as long as two numbers are left.
  unfoldable pub raise_all : List R.Real → Buff R → Actor R → Buff R × Actor R
  unfolding assign_at raise
  raise_all [] buff a = (buff, a)
  raise_all (k ∷ []) buff a = (buff, a)
  raise_all (k ∷ v ∷ arr) buff a =
      raise_all arr (record buff { attrs = assign_at (R.to_int k) v buff.attrs })
        (record a { attrs = raise (R.to_int k) v a.attrs })

  unfoldable pub keep_buff : Buff R × Actor R → Actor R
  unfolding insert_buff
  keep_buff (buff, a) = record a { buffs = insert_buff buff a.buffs }

  unfoldable pub buffattr : ℤ → List R.Real → Actor R → Actor R
  unfolding initbuff raise_all keep_buff
  buffattr tid arr a = let (buff, a') = initbuff tid a in keep_buff (raise_all arr buff a')

  unfoldable pub buff_roundend : ℤ → Func R → Actor R → Actor R
  unfolding initbuff assign_at keep_buff
  buff_roundend tid func a =
      let (buff, a') = initbuff tid a in
      keep_buff (buff, record a' { roundend = assign_at (pos buff.id) func a'.roundend })

  unfoldable pub assign_event : ℤ → ℕ → Func R → (ℤ → List (ℤ × Func R)) → ℤ → List (ℤ × Func R)
  unfolding assign_at
  assign_event event id func funcs i =
      let added = assign_at (pos id) func (funcs event) in if eqb_ℤ i event then added else funcs i

  unfoldable pub buffevent : ℤ → ℤ → Func R → Actor R → Actor R
  unfolding initbuff assign_event keep_buff
  buffevent tid event func a =
      let (buff, a') = initbuff tid a in
      keep_buff (
        record buff { event = event },
        record a' { eventfunc = assign_event event buff.id func a'.eventfunc },
      )
