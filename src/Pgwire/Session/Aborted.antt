-- ===== src/Pgwire/Session/Aborted.antt =====
-- Simple queries and Executes in an aborted transaction, which `_gate` of ryudb/server/pgwire.py stops.
-- Describe does not pass the gate.
use ryu_db.Common.{
  ℕ, String, ◌≡◌, refl, ap, sym, true, false, List, [], ◌∷◌, ◌++◌, append_assoc, append-nil, All,
  some, ok, ◌=ₛ◌,
}
use ryu_db.Common.Dict.{lookup, erase}
use ryu_db.Wal.Bytes.{Bytes}
use ryu_db.Pgwire.Bytes.{cstring_and_rest}
use ryu_db.Pgwire.Frames.{Frame}
use ryu_db.Pgwire.Sql.{split_statements}
use ryu_db.Pgwire.Messages.{read_execute}
use ryu_db.Pgwire.Session.{World, Portal, status, gate, keyword}
use ryu_db.Pgwire.Session.Handlers.{
  Front, send_ready, query_loop, simple_query, execute, execute_portal, dispatch, settle, handle,
  is_blank,
}

-- The error of the gate.
abbrev pub refusal : Frame
refusal =
    Frame.error_response "ERROR" "25P02"
      "current transaction is aborted, commands ignored until end of transaction block"

-- One for each statement.
abbrev pub refusals : List String → List Frame
refusals [] = []
refusals (s ∷ ss) = refusal ∷ refusals ss

module _ {E X T Tree : Type 0} (f : Front E X T Tree) where
  abbrev pub says : World E X T → List Frame → World E X T
  says w frames = record w { sent = w.sent ++ frames }

  gate_closed :
      (sql : String) (w : World E X T)
      → w.conn.failed ≡ true
      → (keyword f.host sql =ₛ "ROLLBACK") ≡ false
      → gate f.host sql w ≡ (ok false, says w (refusal ∷ []))
  unfolding gate
  gate_closed sql w failed other = rw (failed, other) refl

  query_loop_aborted :
      (stmts : List String) (w : World E X T)
      → w.conn.failed ≡ true
      → All (λ s. (keyword f.host s =ₛ "ROLLBACK") ≡ false) stmts
      → query_loop f stmts w ≡ (ok tt, says w (refusals stmts))
  unfolding query_loop
  query_loop_aborted [] w failed h =
      ap (λ s. (ok tt, record w { sent = s })) (sym (append-nil w.sent))
  query_loop_aborted (s ∷ ss) w failed h =
      rw
        (
          gate_closed s w failed h.0,
          query_loop_aborted ss (says w (refusal ∷ [])) failed h.1,
          append_assoc w.sent (refusal ∷ []) (refusals ss),
        )
        refl

  -- While the transaction is aborted, a simple query (message `Q`) without a ROLLBACK changes neither the engine nor
  -- the connection: every statement is answered by error 25P02, and the query by ReadyForQuery with `E`.
  pub query_aborted :
      (payload : Bytes) (w : World E X T) (sql : String)
      → (cstring_and_rest f.utf8 payload).0 ≡ sql
      → is_blank f sql ≡ false
      → w.conn.failed ≡ true
      → All (λ s. (keyword f.host s =ₛ "ROLLBACK") ≡ false) (split_statements f.host.unicode sql)
      → handle f b'Q' payload w
        ≡ says w (refusals (split_statements f.host.unicode sql) ++ Frame.ready "E" ∷ [])
  unfolding handle dispatch simple_query settle send_ready status
  query_aborted payload w sql text full failed h =
      let stmts = split_statements f.host.unicode sql in
      rw
        (
          text,
          full,
          query_loop_aborted stmts w failed h,
          failed,
          append_assoc w.sent (refusals stmts) (Frame.ready "E" ∷ []),
        )
        refl

  -- The same of an Execute, which takes what Describe has kept for the portal with it.
  pub execute_aborted :
      (payload : Bytes) (w : World E X T) (portal : String) (maxrows : ℕ) (entry : Portal)
      → read_execute f.utf8 payload ≡ ok (portal, maxrows)
      → lookup portal w.conn.portals ≡ some entry
      → w.conn.failed ≡ true
      → (keyword f.host entry.0 =ₛ "ROLLBACK") ≡ false
      → handle f b'E' payload w ≡ record w {
        conn = record w.conn { portal_cache = erase portal w.conn.portal_cache };
        sent = w.sent ++ refusal ∷ [];
      }
  unfolding handle dispatch execute execute_portal settle gate
  execute_aborted payload w portal maxrows entry parts found failed other =
      rw (parts, found, failed, other) refl
