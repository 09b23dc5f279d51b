-- ===== src/Pgwire/Window/Bounds.antt =====
-- Where the windows of `_cursor_window` lie.
use ryu_db.Common.{
  ◌≡◌, refl, ◌⊎◌, inl, inr, Option, none, some, ok, ◌||◌, Bool-cases, false, if◌then◌else◌,
}
use ryu_db.Common.Integers.{ℤ, pos, ◌+ℤ◌, ◌-ℤ◌, ◌≤ℤ◌, ltb_ℤ, leb_ℤ, min_ℤ, max_ℤ, int_laws}
use ryu_db.Pgwire.Window.{
  Direction, Window, window, forward_by, backward_by, at_position, cap, one_row, absolute_position,
  cursor_window,
}

-- `total` rows: the page lies among them, and so does the position after it; the cap of Execute, 0 for
-- none, is kept.
pub record IsWithin (total maxrows : ℤ) (w : Window) : Type 0 where
  pub starts : pos 0 ≤ℤ w.start
  pub counts : pos 0 ≤ℤ w.size
  pub ends : w.start +ℤ w.size ≤ℤ total
  pub from : pos 0 ≤ℤ w.new_offset
  pub to : w.new_offset ≤ℤ total
  pub capped : (maxrows ≤ℤ pos 0) ⊎ (w.size ≤ℤ maxrows)

-- The count that a direction takes: none or one that is not negative for the relative moves, any
-- number for a position, and nothing is asked where it is not read.
abbrev pub IsCount : Direction → Option ℤ → Type 0
IsCount Direction.absolute count = (n : ℤ) × (count ≡ some n)
IsCount Direction.relative count = (n : ℤ) × (count ≡ some n)
IsCount d none = Unit {0}
IsCount d (some n) = pos 0 ≤ℤ n

module _ (offset total maxrows : ℤ) (o : pos 0 ≤ℤ offset) (t : offset ≤ℤ total) where
  pub forward_by-IsWithin :
      (count : ℤ)
      → pos 0 ≤ℤ count
      → pos 0 ≤ℤ maxrows
      → IsWithin total maxrows (forward_by count offset total maxrows)
  unfolding forward_by cap
  forward_by-IsWithin count c m = grind int_laws

  pub backward_by-IsWithin :
      (count : ℤ)
      → pos 0 ≤ℤ count
      → pos 0 ≤ℤ maxrows
      → IsWithin total maxrows (backward_by count offset maxrows)
  unfolding backward_by cap
  backward_by-IsWithin count c m = grind int_laws

  pub at_position-IsWithin :
      (position before : ℤ) → IsWithin total maxrows (at_position position before offset total)
  unfolding at_position
  at_position-IsWithin position before =
      elim (Bool-cases (ltb_ℤ position (pos 1) || ltb_ℤ total position)) [
        | inl outside ↦ rw outside (grind int_laws)
        | inr inside ↦ rw inside (grind int_laws)
      ]

  one_row_bounds :
      (n : ℤ)
      → pos 0 ≤ℤ n
      → n ≤ℤ pos 1
      → pos 0 ≤ℤ maxrows
      → (pos 0 ≤ℤ one_row n maxrows)
        × (one_row n maxrows ≤ℤ n)
        × ((maxrows ≤ℤ pos 0) ⊎ (one_row n maxrows ≤ℤ maxrows))
  unfolding one_row cap
  one_row_bounds n z u m = grind int_laws

  first-IsWithin :
      (n : ℤ)
      → pos 0 ≤ℤ n
      → n ≤ℤ pos 1
      → n ≤ℤ total
      → pos 0 ≤ℤ maxrows
      → IsWithin total maxrows (window (pos 0) (one_row n maxrows) (one_row n maxrows) false)
  first-IsWithin n z u le m = grind (int_laws, one_row_bounds n z u m)

  last-IsWithin :
      (n : ℤ)
      → pos 0 ≤ℤ n
      → n ≤ℤ pos 1
      → n ≤ℤ total
      → pos 0 ≤ℤ maxrows
      → IsWithin total maxrows
          (window (max_ℤ (pos 0) (total -ℤ one_row n maxrows)) (one_row n maxrows) total false)
  last-IsWithin n z u le m = grind (int_laws, one_row_bounds n z u m)

  -- Every FETCH and MOVE from a position in the table, with a count that is not negative where it
  -- counts rows and with any where it is a position, gives a page inside the table, a new position
  -- inside the table, and no more rows than the cap of Execute where there is one.
  pub cursor_window-IsWithin :
      (d : Direction) (count : Option ℤ)
      → IsCount d count
      → pos 0 ≤ℤ maxrows
      → (w : Window) × (cursor_window d count offset total maxrows ≡ ok w)
        × IsWithin total maxrows w
  unfolding cursor_window
  cursor_window-IsWithin Direction.next none c m =
      (_, refl, forward_by-IsWithin (pos 1) (omega int_laws) m)
  cursor_window-IsWithin Direction.next (some n) c m = (_, refl, forward_by-IsWithin n c m)
  cursor_window-IsWithin Direction.forward none c m =
      (_, refl, forward_by-IsWithin (pos 1) (omega int_laws) m)
  cursor_window-IsWithin Direction.forward (some n) c m = (_, refl, forward_by-IsWithin n c m)
  cursor_window-IsWithin Direction.forward_all count c m = (_, refl, grind int_laws)
  cursor_window-IsWithin Direction.prior none c m =
      (_, refl, backward_by-IsWithin (pos 1) (omega int_laws) m)
  cursor_window-IsWithin Direction.prior (some n) c m = (_, refl, backward_by-IsWithin n c m)
  cursor_window-IsWithin Direction.backward none c m =
      (_, refl, backward_by-IsWithin (pos 1) (omega int_laws) m)
  cursor_window-IsWithin Direction.backward (some n) c m = (_, refl, backward_by-IsWithin n c m)
  cursor_window-IsWithin Direction.backward_all count c m =
      elim (Bool-cases (leb_ℤ maxrows (pos 0))) [
        | inl free ↦ rw free (_, refl, grind int_laws)
        | inr capped ↦ rw capped (_, refl, grind int_laws)
      ]
  cursor_window-IsWithin Direction.first count c m = (
    _,
    refl,
    first-IsWithin (min_ℤ (if ltb_ℤ (pos 0) total then pos 1 else pos 0) total) (grind int_laws)
        (grind int_laws) (grind int_laws) m,
  )
  cursor_window-IsWithin Direction.last count c m = (
    _,
    refl,
    last-IsWithin (if ltb_ℤ (pos 0) total then pos 1 else pos 0) (grind int_laws) (grind int_laws)
        (grind int_laws) m,
  )
  cursor_window-IsWithin Direction.absolute none (n, e) m = cc
  cursor_window-IsWithin Direction.absolute (some n) c m =
      (_, refl, at_position-IsWithin (absolute_position n total) (absolute_position n total))
  cursor_window-IsWithin Direction.relative none (n, e) m = cc
  cursor_window-IsWithin Direction.relative (some n) c m =
      (_, refl, at_position-IsWithin (offset +ℤ pos 1 +ℤ n) (offset +ℤ pos 1 +ℤ n -ℤ pos 1))
