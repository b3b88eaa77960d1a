-- ===== src/Msgpack/Unpack/Shrinks.antt =====
-- `parse` takes at least a byte, unless nothing is left.
use mathlib.Core.Path.{subst}
use luatest.Prelude.{
  ◌-◌, if_both, leb, ◌==◌, true, false, ℕ, ◌≤◌, ◌≡◌, List, ◌∷◌, Option, some, arith, length,
}
use luatest.Msgpack.Floats.{Floats}
use luatest.Prelude.Int.{pos}
use luatest.Memory.Reads.{split, Fits, split-Fits, bind-Fits, Fits-mono}
use luatest.Msgpack.Unpack.{
  int, map, arr, negative_value, Val, err, parselen, parse_str, parse_sized_str, parse_field,
  parse_switch, parse_marker, parse, within,
}

parselen-Fits : (k : ℕ) (bs : List ℕ) → Fits (length bs) (parselen k bs)
unfolding parselen
parselen-Fits k bs = bind-Fits (length bs) (split k bs) _ (split-Fits k bs) (λ p h. h)

parse_str-Fits : (len : ℕ) (bs : List ℕ) → Fits (length bs) (parse_str len bs)
unfolding parse_str
parse_str-Fits len bs = bind-Fits (length bs) (split len bs) _ (split-Fits len bs) (λ p h. h)

parse_sized_str-Fits : (k : ℕ) (bs : List ℕ) → Fits (length bs) (parse_sized_str k bs)
unfolding parse_sized_str
parse_sized_str-Fits k bs =
    bind-Fits (length bs) (parselen k bs) _ (parselen-Fits k bs)
      (λ p h. Fits-mono (length p.1) (length bs) (parse_str p.0 p.1) h (parse_str-Fits p.0 p.1))

parse_field-Fits : (k : ℕ) (make : ℕ → Val) (bs : List ℕ) → Fits (length bs) (parse_field k make bs)
unfolding parse_field
parse_field-Fits k make bs = bind-Fits (length bs) (parselen k bs) _ (parselen-Fits k bs) (λ p h. h)

module _ (fl : Floats) (m : ℕ) (bs : List ℕ) where
  -- The markers by what follows them: nothing, a string, a field.
  alone : (v : Val) → Fits (length bs) (some (v, bs))
  alone v = omega arith

  parse_switch-Fits : Fits (length bs) (parse_switch fl m bs)
  unfolding parse_switch
  parse_switch-Fits = if_both P (m == 0xc0) (alone Val.nil) (
      if_both P (m == 0xc2) (alone (Val.boolean false)) (
        if_both P (m == 0xc3) (alone (Val.boolean true)) (
          if_both P (m == 0xd9) (parse_sized_str-Fits 1 bs) (
            if_both P (m == 0xc4) (parse_sized_str-Fits 1 bs) (
              if_both P (m == 0xda) (parse_sized_str-Fits 2 bs) (
                if_both P (m == 0xc5) (parse_sized_str-Fits 2 bs) (
                  if_both P (m == 0xdb) (parse_sized_str-Fits 4 bs) (
                    if_both P (m == 0xc6) (parse_sized_str-Fits 4 bs) (
                      if_both P (m == 0xca) (parse_field-Fits 4 _ bs) (
                        if_both P (m == 0xcb) (parse_field-Fits 8 _ bs) (
                          if_both P (m == 0xcc) (parse_field-Fits 1 _ bs) (
                            if_both P (m == 0xcd) (parse_field-Fits 2 _ bs) (
                              if_both P (m == 0xce) (parse_field-Fits 4 _ bs) (
                                if_both P (m == 0xcf) (parse_field-Fits 8 _ bs) (
                                  if_both P (m == 0xd0) (parse_field-Fits 1 _ bs) (
                                    if_both P (m == 0xd1) (parse_field-Fits 2 _ bs) (
                                      if_both P (m == 0xd2) (parse_field-Fits 4 _ bs) (
                                        if_both P (m == 0xd3) (parse_field-Fits 8 _ bs) (
                                          if_both P (m == 0xdc) (parse_field-Fits 2 _ bs) (
                                            if_both P (m == 0xdd) (parse_field-Fits 4 _ bs) (
                                              if_both P (m == 0xde) (parse_field-Fits 2 _ bs) (
                                                if_both P (m == 0xdf) (parse_field-Fits 4 _ bs)
                                                  (alone err)))))))))))))))))))))))
    where
      P : Option (Val × List ℕ) → Type 0
      P = Fits (length bs)

  parse_marker-Fits : Fits (length bs) (parse_marker fl m bs)
  unfolding parse_marker
  parse_marker-Fits = if_both P (leb m 0x7f) (alone (int (pos m))) (
      if_both P (within 0xe0 0xff m) (alone (int (negative_value m))) (
        if_both P (within 0xa0 0xbf m) (parse_str-Fits _ bs) (
          if_both P (within 0x80 0x8f m) (alone (map (m - 0x80)))
            (if_both P (within 0x90 0x9f m) (alone (arr (m - 0x90))) parse_switch-Fits))))
    where
      P : Option (Val × List ℕ) → Type 0
      P = Fits (length bs)

-- Whatever `parse` returns on a byte or more, it has taken one.
pub parse_shrinks :
    (fl : Floats) (m : ℕ) (bs : List ℕ) (v : Val) (rest : List ℕ)
    → parse fl (m ∷ bs) ≡ some (v, rest)
    → length rest ≤ length bs
unfolding parse
parse_shrinks fl m bs v rest e = subst (Fits (length bs)) e (parse_marker-Fits fl m bs)
