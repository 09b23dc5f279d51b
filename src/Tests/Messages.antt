-- ===== src/Tests/Messages.antt =====
-- Messages, pages and statements of the PostgreSQL front at concrete inputs.
use ryu_db.Common.{ℕ, ◌≡◌, refl, true, false, none, some, List, [], ◌∷◌, All, ok, arith}
use ryu_db.Common.Integers.{pos, negsuc, ◌+ℤ◌, ◌-ℤ◌}
use ryu_db.Pgwire.Bytes.{to_be}
use ryu_db.Pgwire.Frames.{Frame, frame_bytes}
use ryu_db.Pgwire.Messages.{BindMessage, read_bind}
use ryu_db.Pgwire.Messages.Clients.{write_bind}
use ryu_db.Pgwire.Messages.RoundTrip.{read_bind-write}
use ryu_db.Pgwire.Sql.{is_empty, split_statements}
use ryu_db.Pgwire.Sql.Lossless.{dense, joined, dense-split_statements}
use ryu_db.Pgwire.Window.{Direction, Window, window, cursor_window}
use ryu_db.Pgwire.Window.Bounds.{IsWithin, cursor_window-IsWithin}
use ryu_db.Pgwire.Window.Paging.{fetch_pages, fetch_pages-drop}
use ryu_db.Tests.Fronts.{ascii, utf8}

-- Two parameters, one of them NULL.
abbrev bound : BindMessage
bound = record {
  portal = "p";
  stmt_name = "s";
  fmts = 0 ∷ [];
  params = some (52 ∷ 50 ∷ []) ∷ none ∷ [];
  rfmts = [];
}

read_bind-write_example : read_bind utf8 (write_bind utf8 bound) ≡ ok bound
read_bind-write_example =
    read_bind-write utf8 bound (record { decode-encode = refl; no_nul = refl })
      (record { decode-encode = refl; no_nul = refl })
      (record { counted = omega arith; within = (omega arith, tt) })
      (record { counted = omega arith; within = tt }) (omega arith) (omega arith, (tt, tt)) refl
      refl

-- ReadyForQuery in bytes.
ready_bytes : frame_bytes utf8 (λ n. "") (Frame.ready "T") ≡ ok (90 ∷ 0 ∷ 0 ∷ 0 ∷ 5 ∷ 84 ∷ [])
unfolding frame_bytes to_be
ready_bytes = refl

-- FETCH FORWARD 5 from the second of three rows, under a cap of one row.
cursor_window-IsWithin_example :
    (w : Window) × (cursor_window Direction.forward (some (pos 5)) (pos 1) (pos 3) (pos 1) ≡ ok w)
    × IsWithin (pos 3) (pos 1) w
cursor_window-IsWithin_example =
    cursor_window-IsWithin (pos 1) (pos 3) (pos 1) (omega arith) (omega arith) Direction.forward
      (some (pos 5)) (omega arith) (omega arith)

-- A negative count is taken as it is: FETCH FORWARD -1 at the start moves the position before it.
negative_count :
    cursor_window Direction.forward (some (negsuc 0)) (pos 0) (pos 3) (pos 0)
    ≡ ok (window (pos 0) (negsuc 0) (negsuc 0) false)
unfolding cursor_window ◌+ℤ◌ ◌-ℤ◌
negative_count = refl

abbrev numbers : List ℕ
numbers = 10 ∷ 11 ∷ 12 ∷ []

fetch_pages-drop_example : fetch_pages numbers 4 2 (pos 0) ≡ some numbers
fetch_pages-drop_example = fetch_pages-drop numbers 4 2 0 (omega arith) (omega arith) (omega arith)

-- BACKWARD 2 after FORWARD 2 from the first row gives the rows of FORWARD again.
backward_again :
    (cursor_window Direction.forward (some (pos 2)) (pos 1) (pos 4) (pos 0)
      ≡ ok (window (pos 1) (pos 2) (pos 3) false))
    × (cursor_window Direction.backward (some (pos 2)) (pos 3) (pos 4) (pos 0)
        ≡ ok (window (pos 1) (pos 2) (pos 1) true))
unfolding cursor_window ◌+ℤ◌ ◌-ℤ◌
backward_again = (refl, refl)

dense-split_statements_example :
    All (λ s. is_empty s ≡ false) (split_statements ascii "SELECT ';' ; COMMIT;;")
    × (dense ascii (joined (split_statements ascii "SELECT ';' ; COMMIT;;"))
        ≡ dense ascii "SELECT ';' ; COMMIT;;")
dense-split_statements_example = dense-split_statements ascii "SELECT ';' ; COMMIT;;"

-- A semicolon in quotes does not end a statement.
split_quoted : split_statements ascii "SELECT ';' ; COMMIT;;" ≡ "SELECT ';'" ∷ "COMMIT" ∷ []
unfolding split_statements
split_quoted = refl
