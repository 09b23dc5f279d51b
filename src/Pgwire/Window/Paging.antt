-- ===== src/Pgwire/Window/Paging.antt =====
-- Reading a whole result by FETCH, page by page.
use ryu_db.Common.{
  ℕ, zero, suc, ◌+◌, ◌-◌, ◌≤◌, ◌<◌, ◌≡◌, refl, ap, false, Option, none, some, List, [], ◌++◌,
  length, take, drop, drop-add, drop_all, take-append-drop, Result, ok, err, arith, ◌==◌,
  if◌then◌else◌, Bool-cases, inl, inr,
}
use Prim.Native.Nat.{min}
use ryu_db.Common.Integers.{ℤ, pos, pos_part, pos-add, pos-sub, min-pos}
use ryu_db.Pgwire.Window.{Direction, Window, window, cap, forward_by, cursor_window}

module _ {R : Type 0} (rows : List R) where
  -- The rows of a window that goes forward.
  abbrev pub page : Window → List R
  page w = take (pos_part w.size) (drop (pos_part w.start) rows)

  -- What a client has seen after a page and the pages behind it.
  abbrev pub seen : List R → Option (List R) → Option (List R)
  seen rs none = none
  seen rs (some later) = some (rs ++ later)

  -- The answer to one FETCH: an empty page is the last.
  abbrev pub turn_page : Result Window → (ℤ → Option (List R)) → Option (List R)
  turn_page (err e) later = none
  turn_page (ok w) later =
      if pos_part w.size == 0 then some [] else seen (page w) (later w.new_offset)

  -- A client that sends FETCH FORWARD `n` until a page is empty, for at most `fuel` pages: the rows it
  -- has seen, or `none` if the pages do not end.
  unfoldable pub fetch_pages : ℕ → ℕ → ℤ → Option (List R)
  fetch_pages zero n offset = none
  fetch_pages (suc fuel) n offset =
      turn_page (cursor_window Direction.forward (some (pos n)) offset (pos (length rows)) (pos 0))
        (fetch_pages fuel n)

-- A window forward of a position in the table, in natural numbers.
forward_by_nat :
    (n o total : ℕ)
    → o ≤ total
    → forward_by (pos n) (pos o) (pos total) (pos 0)
      ≡ window (pos o) (pos (min n (total - o))) (pos (o + min n (total - o))) false
unfolding forward_by cap
forward_by_nat n o total h =
    rw (pos-sub total o h, min-pos n (total - o), pos-add o (min n (total - o))) refl

forward_window :
    (n o total : ℕ)
    → o ≤ total
    → cursor_window Direction.forward (some (pos n)) (pos o) (pos total) (pos 0)
      ≡ ok (window (pos o) (pos (min n (total - o))) (pos (o + min n (total - o))) false)
unfolding cursor_window
forward_window n o total h = ap ok (forward_by_nat n o total h)

module _ {R : Type 0} (rows : List R) where
  -- One page: the next rows, and the rest of the table behind it.
  pages_step :
      (fuel n o : ℕ)
      → o ≤ length rows
      → let m = min n (length rows - o) in
        fetch_pages rows (suc fuel) n (pos o) ≡ (
          if m == 0
          then some []
          else seen rows (take m (drop o rows)) (fetch_pages rows fuel n (pos (o + m))))
  unfolding fetch_pages
  pages_step fuel n o h =
      ap (λ r. turn_page rows r (fetch_pages rows fuel n)) (forward_window n o (length rows) h)

  -- Reading a result by FETCH FORWARD with a count of at least 1 ends, after no more pages than there
  -- are rows and one, and gives every row from the position on, in order, once.
  pub fetch_pages-drop :
      (fuel n o : ℕ)
      → 1 ≤ n
      → o ≤ length rows
      → length rows - o < fuel
      → fetch_pages rows fuel n (pos o) ≡ some (drop o rows)
  fetch_pages-drop zero n o pn h enough = absurd (omega arith)
  fetch_pages-drop (suc fuel) n o pn h enough =
      let m = min n (length rows - o) in
      elim (Bool-cases (m == 0)) [
        | inl done ↦ rw (pages_step fuel n o h, done, drop_all o rows (ground arith)) refl
        | inr more ↦
            rw
              (
                pages_step fuel n o h,
                more,
                fetch_pages-drop fuel n (o + m) pn (omega arith) (ground arith),
              )
              (ap some (rw (drop-add rows o m) (take-append-drop m (drop o rows))))
      ]
