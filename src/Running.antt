-- ===== src/Running.antt =====
-- ryudb/exec/executor.py, running aggregates over a window (`_rows_offset`, `_frame_bounds`,
-- `_gather_diff`, and the prefix sums and COUNT(*) of `_window_running`), at one row of the sorted frame.
-- The arithmetic of a column and `iloc` are parameters.
pub mod Sums
use ryu_db.Common.{
  ℕ, ◌+◌, String, Bool, Option, none, some, List, [], ◌∷◌, ◌++◌, Result, ok, err, type_error, ◌>>=◌,
  if◌then◌else◌, ◌=ₛ◌,
}
use ryu_db.Common.Integers.{ℤ, pos, ◌+ℤ◌, ◌-ℤ◌, leb_ℤ, ltb_ℤ}
use ryu_db.Plan.{FrameBound, Frame}

-- `b.n` in arithmetic.
abbrev pub distance : Option ℕ → Result ℤ
distance none = err type_error
distance (some n) = ok (pos n)

unfoldable pub rows_offset : FrameBound → ℤ → ℤ → Result ℤ
rows_offset b pos_in_part psize =
    if b.kind =ₛ "UNBOUNDED_PRECEDING"
    then ok (pos 0)
    else if b.kind =ₛ "UNBOUNDED_FOLLOWING"
    then ok (psize -ℤ pos 1)
    else if b.kind =ₛ "CURRENT_ROW"
    then ok pos_in_part
    else if b.kind =ₛ "PRECEDING"
    then (do n ← distance b.n; ok (pos_in_part -ℤ n))
    else do n ← distance b.n; ok (pos_in_part +ℤ n)

-- The two `where` lines.
abbrev pub clamp_lo : ℤ → ℤ
clamp_lo lo = if leb_ℤ (pos 0) lo then lo else pos 0

abbrev pub clamp_hi : ℤ → ℤ → ℤ
clamp_hi psize hi = if leb_ℤ hi (psize -ℤ pos 1) then hi else psize -ℤ pos 1

abbrev pub clamped : ℤ → ℤ × ℤ → ℤ × ℤ
clamped psize (lo, hi) = (clamp_lo lo, clamp_hi psize hi)

abbrev pub range_bounds : Frame → ℤ → ℤ → ℤ → ℤ × ℤ
range_bounds frame psize peer_start peer_end = (
  if frame.start.kind =ₛ "CURRENT_ROW" then peer_start else pos 0,
  if frame.end.kind =ₛ "CURRENT_ROW" then peer_end else psize -ℤ pos 1,
)

abbrev pub rows_bounds : Frame → ℤ → ℤ → Result (ℤ × ℤ)
rows_bounds frame pos_in_part psize = do
  lo ← rows_offset frame.start pos_in_part psize
  hi ← rows_offset frame.end pos_in_part psize
  ok (lo, hi)

unfoldable pub frame_bounds : Frame → ℤ → ℤ → ℤ → ℤ → Result (ℤ × ℤ)
unfolding rows_offset
frame_bounds frame pos_in_part psize peer_start peer_end = do
  bounds ←
      if frame.mode =ₛ "RANGE"
      then ok (range_bounds frame psize peer_start peer_end)
      else rows_bounds frame pos_in_part psize
  ok (clamped psize bounds)

-- `result` of COUNT(*).
unfoldable pub count_star : ℤ × ℤ → ℤ
count_star (lo, hi) = if leb_ℤ lo hi then hi -ℤ lo +ℤ pos 1 else pos 0

-- The numbers of a column: 0, `+`, `-`, and `iloc` at one position.
pub record Numbers (N : Type 0) : Type 0 where
  pub nought : N
  pub add : N → N → N
  pub sub : N → N → N
  pub iloc : List N → ℤ → N

module _ {N : Type 0} (a : Numbers N) where
  abbrev pub cumsum : N → List N → List N
  cumsum s [] = []
  cumsum s (v ∷ vs) = a.add s v ∷ cumsum (a.add s v) vs

  -- `work.groupby("_pid")[...].cumsum()`, the column split into its partitions.
  unfoldable pub prefix_sums : List (List N) → List N
  prefix_sums [] = []
  prefix_sums (part ∷ parts) = cumsum a.nought part ++ prefix_sums parts

  unfoldable pub gather_diff : List N → ℤ → ℤ × ℤ → N
  gather_diff prefix pstart (lo, hi) =
      let abs_hi = pstart +ℤ hi in
      let abs_lo_m1 = if ltb_ℤ (pos 0) lo then pstart +ℤ lo -ℤ pos 1 else pos 0 in
      let sub = if ltb_ℤ (pos 0) lo then a.iloc prefix abs_lo_m1 else a.nought in
      a.sub (a.iloc prefix abs_hi) sub
