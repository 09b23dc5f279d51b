-- ===== src/Pgwire/Session/Agreement.antt =====
-- Every message keeps the cursors of a connection and the server's tables for them in agreement, and
-- the end of a transaction closes them.
use ryu_db.Common.{
  ℕ, String, Bool, true, false, not, ◌||◌, List, [], ◌∷◌, Option, none, some, Error, Result, ok,
  err, ◌==◌, if◌then◌else◌, Bool-cases, inl, inr,
}
use ryu_db.Common.Actions.{◌>>=◌}
use ryu_db.Common.Dict.{lookup, erase}
use ryu_db.Wal.Bytes.{Bytes}
use ryu_db.Pgwire.Bytes.{cstring_and_rest}
use ryu_db.Pgwire.Messages.{read_parse, read_bind, read_execute, read_target}
use ryu_db.Pgwire.Params.{substitute_params}
use ryu_db.Pgwire.Sql.{split_statements}
use ryu_db.Pgwire.Session.{Answer, Portal, World, Method, in_txn, keyword, exec, gate}
use ryu_db.Pgwire.Session.Cursors.{cursor_stmt, try_cursor_stmt}
use ryu_db.Pgwire.Session.Keeps.{
  IsOwnedIn, Keeps, resume-Keeps, resume_at, exec-Keeps, gate-Keeps, emit_result-Keeps,
  run_cursor_stmt-Keeps,
}
use ryu_db.Pgwire.Session.Handlers.{
  Front, send_ready, query_stmt, query_loop, simple_query, parse, bind, describe_result,
  describe_output, describe_statement, describe_portal, describe, execute_sql, execute_open,
  execute_portal, execute, close, dispatch, recover, settle, handle, is_blank, is_query, get_or,
}

module _ {E X T Tree : Type 0} (f : Front E X T Tree) where
  -- Running a statement, and going on at what it has left.
  exec_then :
      {B : Type 0} (sql : String) (next : Answer T → Method E X T B)
      → ((a : Answer T) → Keeps (next a))
      → Keeps (exec f.host sql >>= next)
  exec_then sql next k w o =
      resume-Keeps (exec f.host sql w) next (exec-Keeps f.host f.grammar sql w o) k

  try_cursor_stmt-Keeps :
      (sql : String) (maxrows : ℕ) → Keeps (try_cursor_stmt {X = X} f.host f.grammar sql maxrows)
  unfolding try_cursor_stmt
  try_cursor_stmt-Keeps sql maxrows =
      run_cursor_stmt-Keeps f.host f.grammar sql maxrows (cursor_stmt (keyword f.host sql))

  -- A choice between two methods.
  either-Keeps :
      {A : Type 0} (b : Bool) (m n : Method E X T A)
      → Keeps m
      → Keeps n
      → Keeps (if b then m else n)
  either-Keeps true m n hm hn = hm
  either-Keeps false m n hm hn = hn

  query_stmt-Keeps : (stmt : String) → Keeps (query_stmt f stmt)
  unfolding query_stmt
  query_stmt-Keeps stmt w o =
      resume-Keeps (try_cursor_stmt f.host f.grammar stmt 0 w) _ (try_cursor_stmt-Keeps stmt 0 w o)
        (λ done.
          either-Keeps done _ _ (λ w' o'. o')
            (exec_then stmt _ (λ a. emit_result-Keeps f.host f.grammar stmt a true 0)))

  query_loop-Keeps : (stmts : List String) → Keeps (query_loop f stmts)
  unfolding query_loop
  query_loop-Keeps [] w o = o
  query_loop-Keeps (stmt ∷ stmts) w o =
      resume-Keeps (gate f.host stmt w) _ (gate-Keeps f.host f.grammar stmt w o) (λ proceed w' o'.
        resume-Keeps ((if proceed then query_stmt f stmt else (λ v. (ok tt, v))) w') _
          (either-Keeps proceed (query_stmt f stmt) (λ v. (ok tt, v)) (query_stmt-Keeps stmt)
            (λ v p. p) w' o')
          (λ done. query_loop-Keeps stmts))

  simple_query-Keeps : (payload : Bytes) → Keeps (simple_query f payload)
  unfolding simple_query send_ready
  simple_query-Keeps payload =
      let sql = (cstring_and_rest f.utf8 payload).0 in
      let stmts = split_statements f.host.unicode sql in
      either-Keeps (is_blank f sql) _ _ (λ w o. o)
        (λ w o.
          resume-Keeps (query_loop f stmts w) _ (query_loop-Keeps stmts w o) (λ done w' o'. o'))

  describe_result-Keeps :
      (portal : String) (answer : Result (Answer T)) → Keeps (describe_result f portal answer)
  unfolding describe_result
  describe_result-Keeps portal (ok (Answer.table t)) w o = o
  describe_result-Keeps portal (ok (Answer.count n)) w o = o
  describe_result-Keeps portal (ok Answer.nothing) w o = o
  describe_result-Keeps portal (err e) w o = o

  describe_output-Keeps : (sql portal : String) → Keeps (describe_output f sql portal)
  unfolding describe_output exec
  describe_output-Keeps sql portal w o =
      elim (Bool-cases (is_blank f sql || not (is_query f (keyword f.host sql)))) [
        | inl skipped ↦ rw skipped o
        | inr runs ↦ rw runs (describe_result-Keeps portal _ _ o)
      ]

  describe_portal-Keeps : (name : String) → Keeps (describe_portal f name)
  unfolding describe_portal
  describe_portal-Keeps name w o =
      let (sql, params, oids) = get_or name ("", [], []) w.conn.portals in
      resume_at (substitute_params f.sql_text sql params oids) w _ o
        (λ full. describe_output-Keeps full name w o)

  describe-Keeps : (payload : Bytes) → Keeps (describe f payload)
  unfolding describe describe_statement
  describe-Keeps payload =
      either-Keeps (read_target f.utf8 payload).0 _ _ (λ w o. o)
        (describe_portal-Keeps (read_target f.utf8 payload).1)

  execute_sql-Keeps :
      (sql full : String) (maxrows : ℕ) (cached : Option T)
      → Keeps (execute_sql f sql full maxrows cached)
  unfolding execute_sql
  execute_sql-Keeps sql full maxrows (some t) =
      emit_result-Keeps f.host f.grammar sql (Answer.table t) false maxrows
  execute_sql-Keeps sql full maxrows none =
      either-Keeps (is_blank f full) _ _ (λ w o. o)
        (exec_then full _ (λ a. emit_result-Keeps f.host f.grammar sql a true maxrows))

  execute_open-Keeps :
      (entry : Portal) (maxrows : ℕ) (cached : Option T)
      → Keeps (execute_open f entry maxrows cached)
  unfolding execute_open
  execute_open-Keeps (sql, params, oids) maxrows cached w o =
      resume_at (substitute_params f.sql_text sql params oids) w _ o (λ full.
        resume-Keeps (try_cursor_stmt f.host f.grammar full maxrows w) _
          (try_cursor_stmt-Keeps full maxrows w o)
          (λ done. either-Keeps done _ _ (λ w' o'. o') (execute_sql-Keeps sql full maxrows cached)))

  execute_portal-Keeps :
      (portal : String) (maxrows : ℕ) (entry : Option Portal)
      → Keeps (execute_portal f portal maxrows entry)
  unfolding execute_portal
  execute_portal-Keeps portal maxrows none w o = o
  execute_portal-Keeps portal maxrows (some entry) w o =
      let cached = lookup portal w.conn.portal_cache in
      let w' : World E X T = record w {
        conn = record w.conn { portal_cache = erase portal w.conn.portal_cache };
      } in
      resume-Keeps (gate f.host entry.0 w') _ (gate-Keeps f.host f.grammar entry.0 w' o)
        (λ proceed. either-Keeps proceed _ _ (execute_open-Keeps entry maxrows cached) (λ v p. p))

  execute-Keeps : (payload : Bytes) → Keeps (execute f payload)
  unfolding execute
  execute-Keeps payload w o =
      resume_at (read_execute f.utf8 payload) w _ o
        (λ m. execute_portal-Keeps m.0 m.1 (lookup m.0 w.conn.portals) w o)

  close-Keeps : (payload : Bytes) → Keeps (close f payload)
  unfolding close
  close-Keeps payload w o = elim (Bool-cases (read_target f.utf8 payload).0) [
    | inl statement ↦ rw statement o
    | inr portal ↦ rw portal o
  ]

  parse-Keeps : (payload : Bytes) → Keeps (parse f payload)
  unfolding parse
  parse-Keeps payload w o = resume_at (read_parse f.utf8 payload) w _ o (λ m. o)

  bind-Keeps : (payload : Bytes) → Keeps (bind f payload)
  unfolding bind
  bind-Keeps payload w o = resume_at (read_bind f.utf8 payload) w _ o (λ m. o)

  dispatch-Keeps : (t : ℕ) (payload : Bytes) → Keeps (dispatch f t payload)
  unfolding dispatch send_ready
  dispatch-Keeps t payload = either-Keeps (t == b'Q') _ _ (simple_query-Keeps payload) (
      either-Keeps (t == b'P') _ _ (parse-Keeps payload) (
        either-Keeps (t == b'B') _ _ (bind-Keeps payload) (
          either-Keeps (t == b'D') _ _ (describe-Keeps payload) (
            either-Keeps (t == b'E') _ _ (execute-Keeps payload) (
              either-Keeps (t == b'S') _ _ (λ w o. o)
                (either-Keeps (t == b'C') _ _ (close-Keeps payload)
                  (either-Keeps (t == b'H') _ _ (λ w o. o) (λ w o. o))))))))

  recover-IsOwned : (e : Error) (w : World E X T) → IsOwnedIn w → IsOwnedIn (recover f e w).1
  unfolding recover send_ready
  recover-IsOwned e w o = elim (Bool-cases (in_txn w.conn)) [
    | inl open_txn ↦ rw open_txn o
    | inr idle ↦ rw idle o
  ]

  settle-IsOwned : (r : Result (Unit {0}) × World E X T) → IsOwnedIn r.1 → IsOwnedIn (settle f r)
  unfolding settle
  settle-IsOwned (ok done, w) o = o
  settle-IsOwned (err e, w) o = recover-IsOwned e w o

  -- Every message of a client, whatever it makes the front do or raise, keeps the cursors of the
  -- connection and the server's tables for them in agreement: no cursor loses its table, and no table
  -- stays that no cursor has.
  pub handle-IsOwned :
      (t : ℕ) (payload : Bytes) (w : World E X T) → IsOwnedIn w → IsOwnedIn (handle f t payload w)
  unfolding handle
  handle-IsOwned t payload w o =
      settle-IsOwned (dispatch f t payload w) (dispatch-Keeps t payload w o)
