-- ===== src/Pgwire/Session.antt =====
-- ryudb/server/pgwire.py, `PGConn`: the state of one connection and what its handlers share.
pub mod Cursors
pub mod Handlers
pub mod Owned
pub mod Keeps
pub mod Agreement
pub mod Ready
pub mod Aborted
pub mod Prepared
use ryu_db.Common.{
  ℕ, String, Bool, true, false, not, ◌&&◌, ◌||◌, List, [], ◌∷◌, ◌++◌, Option, none, some, map, ltb,
  ◌=ₛ◌, ◌==◌, Error, Result, ok, err, cancelled, if◌then◌else◌,
}
use ryu_db.Common.Actions.{Action, return, raise, ask, assign, lift, ◌>>=◌, ◌>>◌}
use ryu_db.Common.Dict.{Dict, lookup, insert, erase}
use ryu_db.Common.Integers.{ℤ, pos}
use ryu_db.Wal.Bytes.{Bytes}
use ryu_db.Server.Cursors.{Cursor, close_cursor}
use ryu_db.Pgwire.Frames.{Frame, Tag, Field, Cell}
use ryu_db.Pgwire.Sql.{Unicode, first_keyword}

-- What a statement returns: a SELECT its frame as an Arrow table, a write its count, anything else None.
pub data Answer (T : Type 0) : Type 0 where
  table : T → Answer T
  count : ℕ → Answer T
  nothing : Answer T

-- What the front calls. `run_sql` is `Server.run_sql` on the worker, with `df_to_arrow` after it: over
-- the engine and the connection's transaction. Then pyarrow's tables; `classify`'s answer whether an
-- exception is a parse error, and its message; the limits of the two servers.
pub record Host (E X T : Type 0) : Type 0 where
  pub run_sql : E → Option X → String → Result (Answer T) × E × Option X
  pub num_rows : T → ℕ
  pub schema : T → List Field
  pub rows : T → List (List Cell)
  pub slice : T → ℤ → ℤ → Result T
  pub take : T → List ℕ → T
  pub is_parse_error : Error → Bool
  pub message : Error → String
  pub unicode : Unicode
  pub max_rows : ℕ
  pub max_cursors : ℕ

-- A portal: SQL, parameters, their types.
abbrev pub Portal : Type 0
Portal = String × List (Option Bytes) × List ℤ

-- The fields of `PGConn` that change. `store` is `_ryudb_cursors`, which the server keeps on it.
pub record Conn (X T : Type 0) : Type 0 where
  pub txn : Option X
  pub failed : Bool
  pub statements : Dict String
  pub oids : Dict (List ℤ)
  pub portals : Dict Portal
  pub portal_cache : Dict T
  pub cursors : Dict (String × ℤ)
  pub store : Dict (Cursor T)

-- The connection, the engine, the ids that `uuid4` will give, and the messages sent so far.
pub record World (E X T : Type 0) : Type 0 where
  pub conn : Conn X T
  pub engine : E
  pub ids : ℕ → String
  pub sent : List Frame

abbrev pub is_open {ℓ} : {X : Type ℓ} → Option X → Bool
is_open none = false
is_open (some x) = true

abbrev pub Method : Type 0 → Type 0 → Type 0 → Type 0 → Type 0
Method E X T A = Action (World E X T) A

module _ {E X T : Type 0} where
  -- `self.x = ...`
  abbrev pub update : (Conn X T → Conn X T) → Method E X T (Unit {0})
  update f = assign (λ w. record w { conn = f w.conn })

  abbrev pub send : Frame → Method E X T (Unit {0})
  send frame = assign (λ w. record w { sent = w.sent ++ frame ∷ [] })

  abbrev pub send_all : List Frame → Method E X T (Unit {0})
  send_all frames = assign (λ w. record w { sent = w.sent ++ frames })

-- The loop of `_close_all_cursors`.
unfoldable pub close_each : {T : Type 0} → Dict (String × ℤ) → Dict (Cursor T) → Dict (Cursor T)
close_each [] store = store
close_each ((name, (cid, offset)) ∷ cursors) store = close_each cursors (close_cursor cid store).1

module _ {X T : Type 0} where
  unfoldable pub in_txn : Conn X T → Bool
  in_txn c = is_open c.txn

  unfoldable pub status : Conn X T → String
  status c = if c.failed then "E" else if in_txn c then "T" else "I"

  unfoldable pub close_all_cursors : Conn X T → Conn X T
  close_all_cursors c = record c { store = close_each c.cursors c.store; cursors = [] }

  -- What the end of a transaction, by its keyword, does to the connection.
  unfoldable pub end_txn : String → Conn X T → Conn X T
  end_txn kw c =
      let c' = record c { failed = c.failed && not (kw =ₛ "ROLLBACK") } in
      if kw =ₛ "COMMIT" || kw =ₛ "ROLLBACK" then close_all_cursors c' else c'

module _ {E X T : Type 0} (h : Host E X T) where
  abbrev pub keyword : String → String
  keyword sql = first_keyword h.unicode sql

  unfoldable pub exec : String → Method E X T (Answer T)
  exec sql w =
      let (answer, engine, txn) = h.run_sql w.engine w.conn.txn sql in
      (answer, record w { engine = engine; conn = record w.conn { txn = txn } })

  unfoldable pub gate : String → Method E X T Bool
  gate sql w =
      if w.conn.failed && not (keyword sql =ₛ "ROLLBACK")
      then (send (
              Frame.error_response "ERROR" "25P02"
                "current transaction is aborted, commands ignored until end of transaction block")
            >> return false)
          w
      else return true w

  unfoldable pub command_tag : String → Answer T → Tag
  command_tag sql (Answer.count n) =
      let kw = keyword sql in
      if kw =ₛ "INSERT"
      then Tag.insert n
      else if kw =ₛ "DELETE"
      then Tag.delete n
      else if kw =ₛ "UPDATE"
      then Tag.update n
      else if kw =ₛ "MERGE"
      then Tag.merge n
      else Tag.select n
  command_tag sql (Answer.table t) = Tag.select (h.num_rows t)
  command_tag sql Answer.nothing =
      let kw = keyword sql in if kw =ₛ "" then Tag.word "OK" else Tag.word kw

  -- `_data_rows`
  unfoldable pub data_rows : T → List Frame
  data_rows t = if h.num_rows t == 0 then [] else map Frame.data_row (h.rows t)

  -- The first `n` rows where `n` is a limit, 0 for none, that the table goes beyond.
  unfoldable pub limit_rows : ℕ → T → Result T
  limit_rows n t = if ltb 0 n && ltb n (h.num_rows t) then h.slice t (pos 0) (pos n) else ok t

  -- The first part of `_emit_result`: the messages of one result.
  unfoldable pub emit_frames : String → Answer T → Bool → ℕ → Method E X T (Unit {0})
  emit_frames sql (Answer.table t) describe maxrows = do
    capped ← lift (limit_rows maxrows t)
    rows ← lift (limit_rows h.max_rows capped)
    send_all (if describe then Frame.row_description (h.schema capped) ∷ [] else [])
    send_all (data_rows rows)
    send (Frame.command_complete (Tag.select (h.num_rows rows)))
  emit_frames sql (Answer.count n) describe maxrows =
      send (Frame.command_complete (command_tag sql (Answer.count n)))
  emit_frames sql Answer.nothing describe maxrows =
      send (Frame.command_complete (command_tag sql Answer.nothing))

  unfoldable pub emit_result : String → Answer T → Bool → ℕ → Method E X T (Unit {0})
  emit_result sql result describe maxrows = do
    emit_frames sql result describe maxrows
    update (end_txn (keyword sql))
