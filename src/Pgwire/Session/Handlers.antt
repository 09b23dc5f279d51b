-- ===== src/Pgwire/Session/Handlers.antt =====
-- ryudb/server/pgwire.py: the handlers of `PGConn`, one per message of the client, and the message
-- loop with what it does about an exception. Sending does not fail.
use ryu_db.Common.{
  ℕ, String, Bool, true, false, not, ◌||◌, List, [], ◌∷◌, Option, none, some, ◌==◌, ◌=ₛ◌, Error,
  Result, ok, err, if◌then◌else◌,
}
use ryu_db.Common.Actions.{return, ask, lift, ◌>>=◌, ◌>>◌}
use ryu_db.Common.Dict.{Dict, lookup, insert, erase}
use ryu_db.Wal.Bytes.{Bytes}
use ryu_db.Pgwire.Bytes.{Utf8, cstring_and_rest}
use ryu_db.Pgwire.Frames.{Frame}
use ryu_db.Pgwire.Messages.{read_parse, read_bind, read_execute, read_target}
use ryu_db.Pgwire.Params.{SqlText, substitute_params}
use ryu_db.Pgwire.Sql.{is_empty, strip, split_statements}
use ryu_db.Pgwire.Session.{
  Answer, Host, Portal, World, Method, update, send, in_txn, status, keyword, exec, gate,
  emit_result,
}
use ryu_db.Pgwire.Session.Cursors.{Grammar, try_cursor_stmt}

-- The parameters of a connection in one record.
pub record Front (E X T Tree : Type 0) : Type 0 where
  pub host : Host E X T
  pub grammar : Grammar
  pub sql_text : SqlText Tree
  pub utf8 : Utf8

abbrev pub value_or {ℓ} : {V : Type ℓ} → V → Option V → V
value_or v none = v
value_or v (some w) = w

-- `d.get(k, v)`
abbrev pub get_or {ℓ} : {V : Type ℓ} → String → V → Dict V → V
get_or k v d = value_or v (lookup k d)

module _ {E X T : Type 0} where
  -- `self._send(_ready(self._status()))`
  unfoldable pub send_ready : Method E X T (Unit {0})
  send_ready w = send (Frame.ready (status w.conn)) w

  abbrev pub find_portal : String → Method E X T Portal
  find_portal name w = (ok (get_or name ("", [], []) w.conn.portals), w)

module _ {E X T Tree : Type 0} (f : Front E X T Tree) where
  abbrev pub is_blank : String → Bool
  is_blank sql = is_empty (strip f.host.unicode sql)

  -- A statement of a simple query that the gate has let through.
  unfoldable pub query_stmt : String → Method E X T (Unit {0})
  query_stmt stmt = do
    done ← try_cursor_stmt f.host f.grammar stmt 0
    if done then return tt else do result ← exec f.host stmt; emit_result f.host stmt result true 0

  -- The loop of `_simple_query`.
  unfoldable pub query_loop : List String → Method E X T (Unit {0})
  query_loop [] = return tt
  query_loop (stmt ∷ stmts) = do
    proceed ← gate f.host stmt
    (if proceed then query_stmt stmt else return tt)
    query_loop stmts

  unfoldable pub simple_query : Bytes → Method E X T (Unit {0})
  simple_query payload =
      let sql = (cstring_and_rest f.utf8 payload).0 in
      if is_blank sql
      then send Frame.empty_query >> send_ready
      else query_loop (split_statements f.host.unicode sql) >> send_ready

  unfoldable pub parse : Bytes → Method E X T (Unit {0})
  parse payload = do
    m ← lift (read_parse f.utf8 payload)
    update (λ c. record c {
      statements = insert m.name m.sql c.statements;
      oids = insert m.name m.oids c.oids;
    })
    send Frame.parse_complete

  unfoldable pub bind : Bytes → Method E X T (Unit {0})
  bind payload = do
    m ← lift (read_bind f.utf8 payload)
    update (λ c. record c {
      portals =
          insert m.portal
            (get_or m.stmt_name "" c.statements, m.params, get_or m.stmt_name [] c.oids) c.portals;
    })
    send Frame.bind_complete

  -- The result of `_describe_output`'s query: an exception is NoData.
  unfoldable pub describe_result : String → Result (Answer T) → Method E X T (Unit {0})
  describe_result portal (ok (Answer.table t)) = do
    send (Frame.row_description (f.host.schema t))
    update (λ c. record c { portal_cache = insert portal t c.portal_cache })
  describe_result portal answer = send Frame.no_data

  abbrev pub is_query : String → Bool
  is_query kw = kw =ₛ "SELECT" || kw =ₛ "WITH" || kw =ₛ "VALUES" || kw =ₛ "TABLE"

  unfoldable pub describe_output : String → String → Method E X T (Unit {0})
  describe_output sql portal w =
      if is_blank sql || not (is_query (keyword f.host sql))
      then send Frame.no_data w
      else (let (result, w') = exec f.host sql w in describe_result portal result w')

  -- `_describe` of a statement, and of a portal.
  unfoldable pub describe_statement : String → Method E X T (Unit {0})
  describe_statement name = do
    oids ← ask (λ w. get_or name [] w.conn.oids)
    send (Frame.parameter_description oids)
    send Frame.no_data

  unfoldable pub describe_portal : String → Method E X T (Unit {0})
  describe_portal name = do
    (sql, params, oids) ← find_portal name
    full ← lift (substitute_params f.sql_text sql params oids)
    describe_output full name

  unfoldable pub describe : Bytes → Method E X T (Unit {0})
  describe payload =
      let (is_statement, name) = read_target f.utf8 payload in
      if is_statement then describe_statement name else describe_portal name

  -- `_execute` past the cursor statements, with what Describe has kept, if it has.
  unfoldable pub execute_sql : String → String → ℕ → Option T → Method E X T (Unit {0})
  execute_sql sql full maxrows (some cached) =
      emit_result f.host sql (Answer.table cached) false maxrows
  execute_sql sql full maxrows none =
      if is_blank full
      then send Frame.empty_query
      else do result ← exec f.host full; emit_result f.host sql result true maxrows

  -- `_execute` past the gate.
  unfoldable pub execute_open : Portal → ℕ → Option T → Method E X T (Unit {0})
  execute_open (sql, params, oids) maxrows cached = do
    full ← lift (substitute_params f.sql_text sql params oids)
    done ← try_cursor_stmt f.host f.grammar full maxrows
    if done then return tt else execute_sql sql full maxrows cached

  unfoldable pub execute_portal : String → ℕ → Option Portal → Method E X T (Unit {0})
  execute_portal portal maxrows none = send Frame.empty_query
  execute_portal portal maxrows (some entry) = do
    cached ← ask (λ w. lookup portal w.conn.portal_cache)
    update (λ c. record c { portal_cache = erase portal c.portal_cache })
    proceed ← gate f.host entry.0
    if proceed then execute_open entry maxrows cached else return tt

  unfoldable pub execute : Bytes → Method E X T (Unit {0})
  execute payload = do
    (portal, maxrows) ← lift (read_execute f.utf8 payload)
    entry ← ask (λ w. lookup portal w.conn.portals)
    execute_portal portal maxrows entry

  unfoldable pub close : Bytes → Method E X T (Unit {0})
  close payload = do
    let (is_statement, name) = read_target f.utf8 payload
    update (λ c.
        if is_statement
        then record c { statements = erase name c.statements }
        else record c { portals = erase name c.portals })
    send Frame.close_complete

  -- What `loop` calls for a type byte.
  unfoldable pub dispatch : ℕ → Bytes → Method E X T (Unit {0})
  dispatch t payload =
      if t == b'Q'
      then simple_query payload
      else if t == b'P'
      then parse payload
      else if t == b'B'
      then bind payload
      else if t == b'D'
      then describe payload
      else if t == b'E'
      then execute payload
      else if t == b'S'
      then send_ready
      else if t == b'C'
      then close payload
      else if t == b'H'
      then return tt
      else send (Frame.error_response "ERROR" "08P01" "unsupported message type") >> send_ready

  -- The SQLSTATE of an exception.
  unfoldable pub sqlstate_of : Error → String
  sqlstate_of Error.cancelled = "57014"
  sqlstate_of (Error.pg_error code) = code
  sqlstate_of e = if f.host.is_parse_error e then "42601" else "XX000"

  -- The `except` clauses of `loop`.
  unfoldable pub recover : Error → Method E X T (Unit {0})
  recover e = do
    send (Frame.error_response "ERROR" (sqlstate_of e) (f.host.message e))
    update (λ c. if in_txn c then record c { failed = true } else c)
    send_ready

  -- One round of `loop`: the handler, and what an exception of it leads to.
  unfoldable pub settle : Result (Unit {0}) × World E X T → World E X T
  settle (ok done, w) = w
  settle (err e, w) = (recover e w).1

  unfoldable pub handle : ℕ → Bytes → World E X T → World E X T
  handle t payload w = settle (dispatch t payload w)

  -- The rounds of `loop` over the messages that a client sends, up to a Terminate.
  unfoldable pub loop : List (ℕ × Bytes) → World E X T → World E X T
  loop [] w = w
  loop ((t, payload) ∷ messages) w =
      let rest = loop messages (handle t payload w) in if t == b'X' then w else rest
