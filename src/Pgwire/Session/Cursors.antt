-- ===== src/Pgwire/Session/Cursors.antt =====
-- ryudb/server/pgwire.py: the statements on SQL cursors (`_declare`, `_fetch`, `_close_stmt`,
-- `_try_cursor_stmt`). What the regular expressions take from the texts of DECLARE and CLOSE and the
-- words behind FETCH and MOVE are parameters.
use ryu_db.Common.{
  ℕ, zero, suc, ◌+◌, String, Bool, true, false, ◌&&◌, List, [], ◌∷◌, Option, none, some, ltb, ◌=ₛ◌,
  Result, ok, err, pg_error, if◌then◌else◌,
}
use ryu_db.Common.Actions.{return, raise, ask, lift, ◌>>=◌, ◌>>◌}
use ryu_db.Common.Dict.{Dict, lookup, insert, erase, has_key}
use ryu_db.Common.Integers.{ℤ, pos, pos_part, max_ℤ}
use ryu_db.Server.Cursors.{Cursor, open_cursor, get_cursor, close_cursor}
use ryu_db.Pgwire.Frames.{Frame, Tag}
use ryu_db.Pgwire.Window.{Direction, Window, cursor_window}
use ryu_db.Pgwire.Directions.{Words, parse_fetch}
use ryu_db.Pgwire.Session.{
  Answer, Host, World, Method, update, send, send_all, close_all_cursors, keyword, exec, data_rows,
}

-- The name and the query of a DECLARE, or its PGError; the words behind FETCH or MOVE; the name that a
-- CLOSE has, `none` for ALL, or its PGError.
pub record Grammar : Type 0 where
  pub declare_parts : String → Result (String × String)
  pub fetch_words : String → List String
  pub close_name : String → Result (Option String)
  pub words : Words

-- `list(range(n - 1, -1, -1))`
abbrev pub downwards : ℕ → List ℕ
downwards zero = []
downwards (suc n) = n ∷ downwards n

module _ {E X T : Type 0} (h : Host E X T) where
  -- `self.server.open_cursor(self, result, select_sql)`, with its ProtocolError as a PGError. Only a
  -- cursor that is opened takes an id.
  unfoldable pub opened_on :
      World E X T → Result String × Dict (Cursor T) → Result String × World E X T
  opened_on w (err e, store) = (err (pg_error "54000"), w)
  opened_on w (ok cid, store) =
      (ok cid, record w { ids = λ n. w.ids (n + 1); conn = record w.conn { store = store } })

  unfoldable pub open_on : T → String → Method E X T String
  open_on t sql w = opened_on w (open_cursor h.num_rows h.max_cursors (w.ids 0) t sql w.conn.store)

  -- `_declare` behind the query's result.
  unfoldable pub declare_result : String → String → Answer T → Method E X T (Unit {0})
  declare_result name sql (Answer.table t) = do
    cid ← open_on t sql
    update (λ c. record c { cursors = insert name (cid, pos 0) c.cursors })
    send (Frame.command_complete (Tag.word "DECLARE CURSOR"))
  declare_result name sql answer = raise (pg_error "42P11")

  -- `_declare` behind its checks.
  unfoldable pub declare_query : String → String → Method E X T (Unit {0})
  declare_query name select_sql = do
    result ← exec h select_sql
    declare_result name select_sql result

  unfoldable pub declare : Grammar → String → Method E X T (Unit {0})
  declare g sql = do
    (name, select_sql) ← lift (g.declare_parts sql)
    taken ← ask (λ w. has_key name w.conn.cursors)
    if taken then raise (pg_error "42P03") else declare_query name select_sql

  -- The page of a window: BACKWARD gives its rows last first.
  unfoldable pub page_of : Cursor T → Window → Result T
  page_of cur win = elim (h.slice cur.table win.start (max_ℤ (pos 0) win.size)) [
    | err e ↦ err e
    | ok page ↦ ok (
        if win.is_reverse && ltb 0 (pos_part win.size)
        then h.take page (downwards (pos_part win.size))
        else page)
  ]

  unfoldable pub fetch_window : Bool → String → String → Cursor T → Window → Method E X T (Unit {0})
  fetch_window true name cid cur win = do
    update (λ c. record c { cursors = insert name (cid, win.new_offset) c.cursors })
    send (Frame.command_complete (Tag.move (pos_part win.size)))
  fetch_window false name cid cur win = do
    page ← lift (page_of cur win)
    send (Frame.row_description (h.schema page))
    send_all (data_rows h page)
    update (λ c. record c { cursors = insert name (cid, win.new_offset) c.cursors })
    send (Frame.command_complete (Tag.fetch (pos_part win.size)))

  -- `_fetch` behind `get_cursor`: a cursor that is gone loses its name.
  unfoldable pub fetch_from :
      Direction
      → Option ℤ
      → ℕ
      → Bool
      → String
      → String
      → ℤ
      → Option (Cursor T)
      → Method E X T (Unit {0})
  fetch_from d count maxrows move name cid offset none = do
    update (λ c. record c { cursors = erase name c.cursors })
    raise (pg_error "34000")
  fetch_from d count maxrows move name cid offset (some cur) = do
    win ← lift (cursor_window d count offset (pos cur.total) (pos maxrows))
    fetch_window move name cid cur win

  -- `_fetch` behind the look-up of the name.
  unfoldable pub fetch_entry :
      Direction → Option ℤ → ℕ → Bool → String → Option (String × ℤ) → Method E X T (Unit {0})
  fetch_entry d count maxrows move name none = raise (pg_error "34000")
  fetch_entry d count maxrows move name (some (cid, offset)) = do
    cur ← ask (λ w. get_cursor cid w.conn.store)
    fetch_from d count maxrows move name cid offset cur

  unfoldable pub fetch : Grammar → String → ℕ → Bool → Method E X T (Unit {0})
  fetch g sql maxrows move = do
    (d, count, name) ← lift (parse_fetch g.words (g.fetch_words sql))
    entry ← ask (λ w. lookup name w.conn.cursors)
    fetch_entry d count maxrows move name entry

-- `_close_stmt` behind the look-up: the name and the table go.
unfoldable pub close_entry :
    {E X T : Type 0} → String → Option (String × ℤ) → Method E X T (Unit {0})
close_entry name none = raise (pg_error "34000")
close_entry name (some (cid, offset)) = do
  update (λ c. record c { cursors = erase name c.cursors; store = (close_cursor cid c.store).1 })
  send (Frame.command_complete (Tag.word "CLOSE CURSOR"))

unfoldable pub close_target : {E X T : Type 0} → Option String → Method E X T (Unit {0})
close_target none = do
  update close_all_cursors
  send (Frame.command_complete (Tag.word "CLOSE ALL"))
close_target (some name) = do entry ← ask (λ w. lookup name w.conn.cursors); close_entry name entry

unfoldable pub close_stmt : {E X T : Type 0} → Grammar → String → Method E X T (Unit {0})
close_stmt g sql = do target ← lift (g.close_name sql); close_target target

-- The statements that `_try_cursor_stmt` takes, by their keyword.
pub data CursorStmt : Type 0 where
  declaring fetching moving closing other : CursorStmt

unfoldable pub cursor_stmt : String → CursorStmt
cursor_stmt kw =
    if kw =ₛ "DECLARE"
    then CursorStmt.declaring
    else if kw =ₛ "FETCH"
    then CursorStmt.fetching
    else if kw =ₛ "MOVE"
    then CursorStmt.moving
    else if kw =ₛ "CLOSE"
    then CursorStmt.closing
    else CursorStmt.other

module _ {E X T : Type 0} (h : Host E X T) (g : Grammar) (sql : String) (maxrows : ℕ) where
  unfoldable pub run_cursor_stmt : CursorStmt → Method E X T Bool
  run_cursor_stmt CursorStmt.declaring = declare h g sql >> return true
  run_cursor_stmt CursorStmt.fetching = fetch h g sql maxrows false >> return true
  run_cursor_stmt CursorStmt.moving = fetch h g sql maxrows true >> return true
  run_cursor_stmt CursorStmt.closing = close_stmt g sql >> return true
  run_cursor_stmt CursorStmt.other = return false

  unfoldable pub try_cursor_stmt : Method E X T Bool
  try_cursor_stmt = run_cursor_stmt (cursor_stmt (keyword h sql))
