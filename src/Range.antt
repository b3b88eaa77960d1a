-- ===== src/Range.antt =====
-- mmo/cc/range.h, of which mmoccskill/cc/range.h is a copy: whether a point lies in a figure.
use luatest.Prelude.{Bool, ◌&&◌, if◌then◌else◌, false}
use luatest.Prelude.Int.{pos}
use luatest.Std.Reals.{Reals}

pub record Vec (A : Type 0) : Type 0 where
  pub x : A
  pub y : A

module _ (R : Reals) where
  open R use {Real, plus, minus, times, over, sqrt, cos, sin, acos, le, of_int, pi}

  unfoldable pub m : Vec Real → Real
  m v = sqrt (plus (times v.x v.x) (times v.y v.y))

  unfoldable pub rad : Real → Real
  rad ang = times (over ang (of_int (pos 180))) pi

  unfoldable pub mul : Vec Real → Vec Real → Real
  mul v1 v2 = plus (times v1.x v2.x) (times v1.y v2.y)

  unfoldable pub cosv_2vec : Vec Real → Vec Real → Real
  cosv_2vec v1 v2 = over (mul v1 v2) (times (m v1) (m v2))

  unfoldable pub cosv_3vec : Vec Real → Vec Real → Vec Real → Real
  cosv_3vec v1 v2 v3 =
      let v12 : Vec Real = record { x = minus v2.x v1.x; y = minus v2.y v1.y } in
      let v13 : Vec Real = record { x = minus v3.x v1.x; y = minus v3.y v1.y } in cosv_2vec v12 v13

  unfoldable pub circle : Vec Real → Real → Vec Real → Bool
  circle p r p1 =
      let dx = minus p1.x p.x in
      let dy = minus p1.y p.y in le (plus (times dx dx) (times dy dy)) (times r r)

  -- Both coordinates of `dp` are moved by `d.y_`, as in the source.
  unfoldable pub sector : Vec Real → Vec Real → Real → Real → Vec Real → Bool
  sector p d r ang p1 =
      let dp : Vec Real = record { x = plus p.x d.y; y = plus p.y d.y } in
      if circle p r p1 then le (cos (rad ang)) (cosv_3vec p dp p1) else false

  unfoldable pub rectangle : Vec Real → Vec Real → Real → Real → Vec Real → Bool
  rectangle p d l w p1 =
      let dp : Vec Real = record { x = plus p.x d.y; y = plus p.y d.y } in
      let cosv = cosv_3vec p dp p1 in
      let dis : Vec Real = record { x = minus p1.x p.x; y = minus p1.y p.y } in
      let dism = m dis in
      let rx = times dism cosv in
      let ry = times dism (sin (acos cosv)) in
      le (of_int (pos 0)) rx && le rx l && le (of_int (pos 0)) ry && le ry w
