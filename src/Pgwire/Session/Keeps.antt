-- ===== src/Pgwire/Session/Keeps.antt =====
-- The statements keep the cursors of a connection and the server's tables for them in agreement.
use ryu_db.Common.{
  ℕ, String, ◌≡◌, refl, Bool, true, false, not, ◌&&◌, ◌||◌, Option, none, some, Error, Result, ok,
  err, arith, ◌=ₛ◌, Bool-cases, inl, inr, ◌⊎◌, ◌+◌,
}
use ryu_db.Common.Actions.{resume}
use ryu_db.Common.Dict.{lookup, insert, has_key, has_key-none}
use ryu_db.Common.Integers.{ℤ, pos}
use ryu_db.Server.Cursors.{Cursor, get_cursor, close_cursor}
use ryu_db.Server.Cursors.Limit.{open_cursor_cases}
use ryu_db.Pgwire.Window.{Direction, Window, cursor_window}
use ryu_db.Pgwire.Directions.{parse_fetch}
use ryu_db.Pgwire.Session.{
  Answer, Host, World, Method, end_txn, close_all_cursors, exec, gate, keyword, limit_rows,
  emit_frames, emit_result,
}
use ryu_db.Pgwire.Session.Cursors.{
  Grammar, open_on, opened_on, declare_result, declare_query, declare, page_of, fetch_window,
  fetch_from, fetch_entry, fetch, close_entry, close_target, close_stmt, CursorStmt,
  run_cursor_stmt,
}
use ryu_db.Pgwire.Session.Owned.{
  IsOwned, moved_cursor, new_cursor, closed_cursor, all_closed, has_table,
}

abbrev pub IsOwnedIn : {E X T : Type 0} → World E X T → Type 0
IsOwnedIn w = IsOwned w.conn.cursors w.conn.store w.ids

-- A method that keeps the agreement, whether it returns or raises.
abbrev pub Keeps : {E X T A : Type 0} → Method E X T A → Type 0
Keeps {E} {X} {T} m = (w : World E X T) → IsOwnedIn w → IsOwnedIn (m w).1

module _ {E X T A B : Type 0} where
  pub resume-Keeps :
      (r : Result A × World E X T) (next : A → Method E X T B)
      → IsOwnedIn r.1
      → ((a : A) → Keeps (next a))
      → IsOwnedIn (resume r next).1
  resume-Keeps (err e, w) next h k = h
  resume-Keeps (ok a, w) next h k = k a w h

  -- The same at one state.
  pub resume_at :
      (r : Result A) (w : World E X T) (next : A → Method E X T B)
      → IsOwnedIn w
      → ((a : A) → IsOwnedIn (next a w).1)
      → IsOwnedIn (resume (r, w) next).1
  resume_at (err e) w next h k = h
  resume_at (ok a) w next h k = k a

module _ {E X T : Type 0} (h : Host E X T) (g : Grammar) where
  pub exec-Keeps : (sql : String) → Keeps (exec h sql)
  unfolding exec
  exec-Keeps sql w o = o

  pub gate-Keeps : (sql : String) → Keeps (gate h sql)
  unfolding gate
  gate-Keeps sql w o = elim (Bool-cases (w.conn.failed && not (keyword h sql =ₛ "ROLLBACK"))) [
    | inl closed ↦ rw closed o
    | inr passes ↦ rw passes o
  ]

  end_txn-Keeps :
      (kw : String) (w : World E X T)
      → IsOwnedIn w
      → IsOwnedIn (record w { conn = end_txn kw w.conn })
  unfolding end_txn close_all_cursors
  end_txn-Keeps kw w o = elim (Bool-cases (kw =ₛ "COMMIT" || kw =ₛ "ROLLBACK")) [
    | inl ends ↦ rw ends (all_closed o)
    | inr other ↦ rw other o
  ]

  emit_frames-Keeps :
      (sql : String) (result : Answer T) (describe : Bool) (maxrows : ℕ)
      → Keeps (emit_frames {X = X} h sql result describe maxrows)
  unfolding emit_frames
  emit_frames-Keeps sql (Answer.table t) describe maxrows w o =
      resume-Keeps (limit_rows h maxrows t, w) _ o
        (λ capped w' o'.
          resume-Keeps (limit_rows h h.max_rows capped, w') _ o' (λ rows w'' o''. o''))
  emit_frames-Keeps sql (Answer.count n) describe maxrows w o = o
  emit_frames-Keeps sql Answer.nothing describe maxrows w o = o

  pub emit_result-Keeps :
      (sql : String) (result : Answer T) (describe : Bool) (maxrows : ℕ)
      → Keeps (emit_result {X = X} h sql result describe maxrows)
  unfolding emit_result
  emit_result-Keeps sql result describe maxrows w o =
      resume-Keeps (emit_frames h sql result describe maxrows w) _
        (emit_frames-Keeps sql result describe maxrows w o)
        (λ done w' o'. end_txn-Keeps (keyword h sql) w' o')

  open_on_cases :
      (t : T) (sql : String) (w : World E X T)
      → (open_on h t sql w ≡ (err (Error.pg_error "54000"), w))
        ⊎ ((cur : Cursor T) × (open_on h t sql w ≡ (
          ok (w.ids 0),
          record w {
            ids = λ n. w.ids (n + 1);
            conn = record w.conn { store = insert (w.ids 0) cur w.conn.store };
          },
        )))
  unfolding open_on opened_on
  open_on_cases t sql w =
      elim (open_cursor_cases h.num_rows h.max_cursors (w.ids 0) t sql w.conn.store) [
        | inl full ↦ inl (rw full refl)
        | inr room ↦ inr (record { table = t; total = h.num_rows t; sql = sql }, rw room refl)
      ]

  declare_result-Keeps :
      (name sql : String) (answer : Answer T) (w : World E X T)
      → has_key name w.conn.cursors ≡ false
      → IsOwnedIn w
      → IsOwnedIn (declare_result h name sql answer w).1
  unfolding declare_result
  declare_result-Keeps name sql (Answer.table t) w free o = elim (open_on_cases t sql w) [
    | inl full ↦ rw full o
    | inr (cur, room) ↦ rw room (new_cursor o name (pos 0) cur free)
  ]
  declare_result-Keeps name sql (Answer.count n) w free o = o
  declare_result-Keeps name sql Answer.nothing w free o = o

  declare_query-Keeps :
      (name sql : String) (w : World E X T)
      → has_key name w.conn.cursors ≡ false
      → IsOwnedIn w
      → IsOwnedIn (declare_query h name sql w).1
  unfolding declare_query exec
  declare_query-Keeps name sql w free o =
      let (answer, engine, txn) = h.run_sql w.engine w.conn.txn sql in
      let w' : World E X T = record w { engine = engine; conn = record w.conn { txn = txn } } in
      resume_at answer w' (λ result. declare_result h name sql result) o
        (λ result. declare_result-Keeps name sql result w' free o)

  declare-Keeps : (sql : String) → Keeps (declare {X = X} h g sql)
  unfolding declare
  declare-Keeps sql w o =
      resume-Keeps (g.declare_parts sql, w) _ o
        (λ parts w' o'. elim (Bool-cases (has_key parts.0 w'.conn.cursors)) [
          | inl taken ↦ rw taken o'
          | inr free ↦ rw free (declare_query-Keeps parts.0 parts.1 w' free o')
        ])

  -- FETCH and MOVE, of a cursor that the connection has.
  fetch_window-Keeps :
      (move : Bool) (name cid : String) (offset : ℤ) (cur : Cursor T) (win : Window)
      (w : World E X T)
      → lookup name w.conn.cursors ≡ some (cid, offset)
      → IsOwnedIn w
      → IsOwnedIn (fetch_window h move name cid cur win w).1
  unfolding fetch_window
  fetch_window-Keeps true name cid offset cur win w found o =
      moved_cursor o name cid win.new_offset offset found
  fetch_window-Keeps false name cid offset cur win w found o =
      resume_at (page_of h cur win) w _ o
        (λ page. moved_cursor o name cid win.new_offset offset found)

  fetch_from-Keeps :
      (d : Direction) (n : Option ℤ) (maxrows : ℕ) (move : Bool) (name cid : String) (offset : ℤ)
      (cur : Option (Cursor T)) (w : World E X T)
      → lookup name w.conn.cursors ≡ some (cid, offset)
      → lookup cid w.conn.store ≡ cur
      → IsOwnedIn w
      → IsOwnedIn (fetch_from h d n maxrows move name cid offset cur w).1
  unfolding fetch_from
  fetch_from-Keeps d n maxrows move name cid offset none w found gone o =
      absurd (ground (arith, has_table o name cid offset found, has_key-none cid w.conn.store gone))
  fetch_from-Keeps d n maxrows move name cid offset (some cur) w found there o =
      resume_at (cursor_window d n offset (pos cur.total) (pos maxrows)) w _ o
        (λ win. fetch_window-Keeps move name cid offset cur win w found o)

  fetch_entry-Keeps :
      (d : Direction) (n : Option ℤ) (maxrows : ℕ) (move : Bool) (name : String)
      (entry : Option (String × ℤ)) (w : World E X T)
      → lookup name w.conn.cursors ≡ entry
      → IsOwnedIn w
      → IsOwnedIn (fetch_entry h d n maxrows move name entry w).1
  unfolding fetch_entry get_cursor
  fetch_entry-Keeps d n maxrows move name none w found o = o
  fetch_entry-Keeps d n maxrows move name (some (cid, offset)) w found o =
      fetch_from-Keeps d n maxrows move name cid offset (lookup cid w.conn.store) w found refl o

  fetch-Keeps :
      (sql : String) (maxrows : ℕ) (move : Bool) → Keeps (fetch {X = X} h g sql maxrows move)
  unfolding fetch
  fetch-Keeps sql maxrows move w o =
      resume_at (parse_fetch g.words (g.fetch_words sql)) w _ o
        (λ t. fetch_entry-Keeps t.0 t.1 maxrows move t.2 (lookup t.2 w.conn.cursors) w refl o)

  close_entry-Keeps :
      (name : String) (entry : Option (String × ℤ)) (w : World E X T)
      → lookup name w.conn.cursors ≡ entry
      → IsOwnedIn w
      → IsOwnedIn (close_entry name entry w).1
  unfolding close_entry close_cursor
  close_entry-Keeps name none w found o = o
  close_entry-Keeps name (some (cid, offset)) w found o = closed_cursor o name cid offset found

  close_target-Keeps :
      (target : Option String) → Keeps (close_target {E = E} {X = X} {T = T} target)
  unfolding close_target close_all_cursors
  close_target-Keeps none w o = all_closed o
  close_target-Keeps (some name) w o = close_entry-Keeps name (lookup name w.conn.cursors) w refl o

  close_stmt-Keeps : (sql : String) → Keeps (close_stmt {E = E} {X = X} {T = T} g sql)
  unfolding close_stmt
  close_stmt-Keeps sql w o =
      resume_at (g.close_name sql) w _ o (λ target. close_target-Keeps target w o)

  pub run_cursor_stmt-Keeps :
      (sql : String) (maxrows : ℕ) (s : CursorStmt)
      → Keeps (run_cursor_stmt {X = X} h g sql maxrows s)
  unfolding run_cursor_stmt
  run_cursor_stmt-Keeps sql maxrows CursorStmt.declaring w o =
      resume-Keeps (declare h g sql w) _ (declare-Keeps sql w o) (λ done w' o'. o')
  run_cursor_stmt-Keeps sql maxrows CursorStmt.fetching w o =
      resume-Keeps (fetch h g sql maxrows false w) _ (fetch-Keeps sql maxrows false w o)
        (λ done w' o'. o')
  run_cursor_stmt-Keeps sql maxrows CursorStmt.moving w o =
      resume-Keeps (fetch h g sql maxrows true w) _ (fetch-Keeps sql maxrows true w o)
        (λ done w' o'. o')
  run_cursor_stmt-Keeps sql maxrows CursorStmt.closing w o =
      resume-Keeps (close_stmt g sql w) _ (close_stmt-Keeps sql w o) (λ done w' o'. o')
  run_cursor_stmt-Keeps sql maxrows CursorStmt.other w o = o
