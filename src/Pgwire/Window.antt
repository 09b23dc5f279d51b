-- ===== src/Pgwire/Window.antt =====
-- ryudb/server/pgwire.py, `_cursor_window`: which rows of a cursor's frozen result FETCH and MOVE
-- take. The tuple that the function returns is a record; positions and counts are Python integers.
pub mod Bounds
pub mod Paging
use ryu_db.Common.{
  ℕ, Bool, true, false, ◌&&◌, ◌||◌, Option, none, some, Result, ok, err, type_error, if◌then◌else◌,
}
use ryu_db.Common.Integers.{ℤ, pos, negsuc, ◌+ℤ◌, ◌-ℤ◌, ltb_ℤ, leb_ℤ, min_ℤ, max_ℤ}

-- The directions that `_parse_fetch` gives.
pub data Direction : Type 0 where
  next forward forward_all prior backward backward_all first last absolute relative : Direction

pub record Window : Type 0 where
  pub start : ℤ
  pub size : ℤ
  pub new_offset : ℤ
  pub is_reverse : Bool

abbrev pub window : ℤ → ℤ → ℤ → Bool → Window
window start size new_offset is_reverse = record {
  start = start;
  size = size;
  new_offset = new_offset;
  is_reverse = is_reverse;
}

-- The inner function `cap`.
unfoldable pub cap : ℤ → ℤ → ℤ
cap maxrows n = if leb_ℤ maxrows (pos 0) then n else min_ℤ n maxrows

-- NEXT and FORWARD, PRIOR and BACKWARD, with the count that the call has come to.
unfoldable pub forward_by : ℤ → ℤ → ℤ → ℤ → Window
unfolding cap
forward_by count offset total maxrows =
    let n = min_ℤ (cap maxrows count) (total -ℤ offset) in window offset n (offset +ℤ n) false

unfoldable pub backward_by : ℤ → ℤ → ℤ → Window
unfolding cap
backward_by count offset maxrows =
    let n = min_ℤ (cap maxrows count) offset in window (offset -ℤ n) n (offset -ℤ n) true

-- The last lines of ABSOLUTE and of RELATIVE: `before` is where a position outside the table is cut off from.
unfoldable pub at_position : ℤ → ℤ → ℤ → ℤ → Window
at_position position before offset total =
    if ltb_ℤ position (pos 1) || ltb_ℤ total position
    then window offset (pos 0) (max_ℤ (pos 0) (min_ℤ total before)) false
    else window (position -ℤ pos 1) (pos 1) position false

-- The one row of FIRST and of LAST, under the cap.
unfoldable pub one_row : ℤ → ℤ → ℤ
unfolding cap
one_row n maxrows = if ltb_ℤ (pos 0) maxrows then min_ℤ n (cap maxrows (pos 1)) else n

-- Where ABSOLUTE counts to: from the start, or from the end.
unfoldable pub absolute_position : ℤ → ℤ → ℤ
absolute_position n total =
    if leb_ℤ (pos 0) n && leb_ℤ n (pos 0)
    then pos 0
    else if ltb_ℤ (pos 0) n
    then n
    else total +ℤ n +ℤ pos 1

-- A direction that needs a count and has none compares or adds `None`.
unfoldable pub cursor_window : Direction → Option ℤ → ℤ → ℤ → ℤ → Result Window
unfolding forward_by backward_by at_position one_row absolute_position
cursor_window Direction.next none offset total maxrows =
    ok (forward_by (pos 1) offset total maxrows)
cursor_window Direction.next (some count) offset total maxrows =
    ok (forward_by count offset total maxrows)
cursor_window Direction.forward none offset total maxrows =
    ok (forward_by (pos 1) offset total maxrows)
cursor_window Direction.forward (some count) offset total maxrows =
    ok (forward_by count offset total maxrows)
cursor_window Direction.forward_all count offset total maxrows =
    let end = if leb_ℤ maxrows (pos 0) then total else min_ℤ total (offset +ℤ maxrows) in
    ok (window offset (end -ℤ offset) end false)
cursor_window Direction.prior none offset total maxrows = ok (backward_by (pos 1) offset maxrows)
cursor_window Direction.prior (some count) offset total maxrows =
    ok (backward_by count offset maxrows)
cursor_window Direction.backward none offset total maxrows = ok (backward_by (pos 1) offset maxrows)
cursor_window Direction.backward (some count) offset total maxrows =
    ok (backward_by count offset maxrows)
cursor_window Direction.backward_all count offset total maxrows =
    let start = if leb_ℤ maxrows (pos 0) then offset else max_ℤ (pos 0) (offset -ℤ maxrows) in
    ok (window start (offset -ℤ start) start true)
cursor_window Direction.first count offset total maxrows =
    let n = one_row (min_ℤ (if ltb_ℤ (pos 0) total then pos 1 else pos 0) total) maxrows in
    ok (window (pos 0) n n false)
cursor_window Direction.last count offset total maxrows =
    let n = one_row (if ltb_ℤ (pos 0) total then pos 1 else pos 0) maxrows in
    ok (window (max_ℤ (pos 0) (total -ℤ n)) n total false)
cursor_window Direction.absolute none offset total maxrows = err type_error
cursor_window Direction.absolute (some n) offset total maxrows =
    let position = absolute_position n total in ok (at_position position position offset total)
cursor_window Direction.relative none offset total maxrows = err type_error
cursor_window Direction.relative (some count) offset total maxrows =
    let position = offset +ℤ pos 1 +ℤ count in
    ok (at_position position (position -ℤ pos 1) offset total)
