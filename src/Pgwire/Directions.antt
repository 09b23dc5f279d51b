-- ===== src/Pgwire/Directions.antt =====
-- ryudb/server/pgwire.py, `_parse_fetch`: the direction, the count and the cursor's name of FETCH and
-- MOVE, from the words behind the keyword.
use ryu_db.Common.{
  String, ◌||◌, List, [], ◌∷◌, Option, none, some, Result, ok, err, ◌=ₛ◌, ◌>>=◌, pg_error,
  if◌then◌else◌,
}
use ryu_db.Common.Integers.{ℤ}
use ryu_db.Pgwire.Window.{Direction}

-- `str.upper` and `int`, with `none` for a ValueError.
pub record Words : Type 0 where
  pub upper : String → String
  pub int : String → Option ℤ

abbrev pub Target : Type 0
Target = Direction × Option ℤ × String

-- `l[-1]` and `l[:-1]` of a list that begins with `t`
abbrev last_of : String → List String → String
last_of t [] = t
last_of t (s ∷ ss) = last_of s ss

abbrev init_of : String → List String → List String
init_of t [] = []
init_of t (s ∷ ss) = t ∷ init_of s ss

module _ (w : Words) where
  unfoldable pub to_int : String → Result ℤ
  to_int tok = elim (w.int tok) [ none ↦ err (pg_error "42601") | some n ↦ ok n ]

  -- A direction that stands alone.
  unfoldable pub alone : Direction → List String → String → Result Target
  alone d [] name = ok (d, none, name)
  alone d (t ∷ ts) name = err (pg_error "42601")

  -- ABSOLUTE and RELATIVE: exactly one number.
  unfoldable pub counted : Direction → List String → String → Result Target
  unfolding to_int
  counted d (t ∷ []) name = do n ← to_int t; ok (d, some n, name)
  counted d ts name = err (pg_error "42601")

  -- FORWARD and BACKWARD: nothing, ALL or a number, and what comes after is not read.
  unfoldable pub ranged : Direction → Direction → List String → String → Result Target
  unfolding to_int
  ranged d all [] name = ok (d, none, name)
  ranged d all (t ∷ ts) name =
      if w.upper t =ₛ "ALL" then ok (all, none, name) else do n ← to_int t; ok (d, some n, name)

  -- The words before FROM or IN.
  unfoldable pub parse_direction : List String → String → Result Target
  unfolding alone counted ranged to_int
  parse_direction [] name = ok (Direction.next, none, name)
  parse_direction (t ∷ ts) name =
      let t0 = w.upper t in
      if t0 =ₛ "NEXT"
      then alone Direction.next ts name
      else if t0 =ₛ "PRIOR"
      then alone Direction.prior ts name
      else if t0 =ₛ "FIRST"
      then alone Direction.first ts name
      else if t0 =ₛ "LAST"
      then alone Direction.last ts name
      else if t0 =ₛ "ALL"
      then alone Direction.forward_all ts name
      else if t0 =ₛ "ABSOLUTE"
      then counted Direction.absolute ts name
      else if t0 =ₛ "RELATIVE"
      then counted Direction.relative ts name
      else if t0 =ₛ "FORWARD"
      then ranged Direction.forward Direction.forward_all ts name
      else if t0 =ₛ "BACKWARD"
      then ranged Direction.backward Direction.backward_all ts name
      else do n ← to_int t; ok (Direction.forward, some n, name)

  -- `dir_tokens` without a FROM or an IN at its end.
  unfoldable pub drop_from : List String → List String
  drop_from [] = []
  drop_from (t ∷ ts) =
      let word = w.upper (last_of t ts) in
      if word =ₛ "FROM" || word =ₛ "IN" then init_of t ts else t ∷ ts

  unfoldable pub parse_fetch : List String → Result Target
  unfolding parse_direction drop_from
  parse_fetch [] = err (pg_error "42601")
  parse_fetch (t ∷ ts) = parse_direction (drop_from (init_of t ts)) (last_of t ts)
