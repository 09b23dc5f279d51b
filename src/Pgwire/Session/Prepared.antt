-- ===== src/Pgwire/Session/Prepared.antt =====
-- Prepared statements: what Describe has run, Execute does not run again.
use text.Mathlib.TextEquality.{eq_iff}
use text.Mathlib.TextPositions.{eq_refl}
use ryu_db.Common.{
  ℕ, ◌≤◌, ap, ◌∙◌, map, length, ◌==◌, if◌then◌else◌, append_assoc, append-nil, String, ◌≡◌, refl,
  subst, sym, true, false, ◌⊎◌, inl, inr, List, [], ◌∷◌, ◌++◌, Option, some, ok, arith,
}
use ryu_db.Common.Dict.{lookup, insert, erase, lookup-insert}
use ryu_db.Common.Integers.{ℤ}
use ryu_db.Wal.Bytes.{Bytes}
use ryu_db.Pgwire.Frames.{Frame, Cell, Tag}
use ryu_db.Pgwire.Messages.{read_execute, read_target}
use ryu_db.Pgwire.Params.{substitute_params}
use ryu_db.Common.Actions.{resume}
use ryu_db.Pgwire.Session.{
  Answer, World, keyword, exec, gate, emit_result, emit_frames, limit_rows, data_rows, end_txn,
  update,
}
use ryu_db.Pgwire.Session.Cursors.{CursorStmt, cursor_stmt, run_cursor_stmt, try_cursor_stmt}
use ryu_db.Pgwire.Session.Handlers.{
  Front, describe, describe_portal, describe_output, describe_result, execute, execute_portal,
  execute_open, execute_sql, dispatch, settle, handle, is_blank, is_query, get_or,
}

module _ {E X T Tree : Type 0} (f : Front E X T Tree) where
  limit_rows-all :
      (n : ℕ) (t : T) → (n ≡ 0) ⊎ (f.host.num_rows t ≤ n) → limit_rows f.host n t ≡ ok t
  unfolding limit_rows
  limit_rows-all n t (inl none) = ground arith
  limit_rows-all n t (inr few) = ground arith

  data_rows-map :
      (t : T)
      → length (f.host.rows t) ≡ f.host.num_rows t
      → data_rows f.host t ≡ map Frame.data_row (f.host.rows t)
  unfolding data_rows
  data_rows-map t counted = go (f.host.rows t) (f.host.num_rows t) counted
    where
      go :
          (rows : List (List Cell)) (n : ℕ)
          → length rows ≡ n
          → (if n == 0 then [] else map Frame.data_row rows) ≡ map Frame.data_row rows
      go [] n h = ground arith
      go (r ∷ rows) n h = ground arith

  -- A table within both limits is sent whole.
  emit_frames-all :
      (sql : String) (t : T) (maxrows : ℕ) (w : World E X T)
      → length (f.host.rows t) ≡ f.host.num_rows t
      → (maxrows ≡ 0) ⊎ (f.host.num_rows t ≤ maxrows)
      → (f.host.max_rows ≡ 0) ⊎ (f.host.num_rows t ≤ f.host.max_rows)
      → emit_frames f.host sql (Answer.table t) false maxrows w ≡ (
        ok tt,
        record w {
          sent =
              ((w.sent ++ []) ++ map Frame.data_row (f.host.rows t))
              ++ Frame.command_complete (Tag.select (f.host.num_rows t)) ∷ [];
        },
      )
  unfolding emit_frames
  emit_frames-all sql t maxrows w counted asked allowed =
      rw
        (
          limit_rows-all maxrows t asked,
          limit_rows-all f.host.max_rows t allowed,
          data_rows-map t counted,
        )
        refl

module _ {E X T Tree : Type 0} (f : Front E X T Tree) where
  query_cases :
      (kw : String)
      → is_query f kw ≡ true
      → (kw ≡ "SELECT") ⊎ (kw ≡ "WITH") ⊎ (kw ≡ "VALUES") ⊎ (kw ≡ "TABLE")
  query_cases kw h =
      ground (arith, eq_iff kw "SELECT", eq_iff kw "WITH", eq_iff kw "VALUES", eq_iff kw "TABLE")

  query-cursor_stmt : (kw : String) → is_query f kw ≡ true → cursor_stmt kw ≡ CursorStmt.other
  unfolding cursor_stmt
  query-cursor_stmt kw h = elim (query_cases kw h) [
    | inl e ↦ subst (λ k. cursor_stmt k ≡ CursorStmt.other) (sym e) refl
    | inr (inl e) ↦ subst (λ k. cursor_stmt k ≡ CursorStmt.other) (sym e) refl
    | inr (inr (inl e)) ↦ subst (λ k. cursor_stmt k ≡ CursorStmt.other) (sym e) refl
    | inr (inr (inr e)) ↦ subst (λ k. cursor_stmt k ≡ CursorStmt.other) (sym e) refl
  ]

  query-try_cursor_stmt :
      (sql : String) (maxrows : ℕ) (w : World E X T)
      → is_query f (keyword f.host sql) ≡ true
      → try_cursor_stmt f.host f.grammar sql maxrows w ≡ (ok false, w)
  unfolding try_cursor_stmt run_cursor_stmt
  query-try_cursor_stmt sql maxrows w h = rw (query-cursor_stmt (keyword f.host sql) h) refl

  -- The connection after the query has run, and has been described and taken back from the cache.
  abbrev pub described : World E X T → String → T → E → Option X → World E X T
  described w portal t engine txn = record w {
    engine = engine;
    conn = record w.conn { txn = txn; portal_cache = insert portal t w.conn.portal_cache };
    sent = w.sent ++ Frame.row_description (f.host.schema t) ∷ [];
  }

  module _ (w : World E X T) (portal sql full : String) (params : List (Option Bytes))
      (oids : List ℤ) (t : T) (engine : E) (txn : Option X)
      (bound : lookup portal w.conn.portals ≡ some (sql, params, oids))
      (substituted : substitute_params f.sql_text sql params oids ≡ ok full)
      (written : is_blank f full ≡ false) (query : is_query f (keyword f.host full) ≡ true)
      (runs : f.host.run_sql w.engine w.conn.txn full ≡ (ok (Answer.table t), engine, txn)) where
    describe_runs :
        (payload : Bytes)
        → read_target f.utf8 payload ≡ (false, portal)
        → handle f b'D' payload w ≡ described w portal t engine txn
    unfolding handle dispatch describe describe_portal describe_output describe_result exec settle
    describe_runs payload target =
        let found : get_or portal ("", [], []) w.conn.portals ≡ (sql, params, oids) =
          rw bound refl in
        rw (target, found, substituted, written, query, runs) refl

    -- Execute takes the table from the cache.
    describe_execute-emit_result :
        (d e : Bytes) (maxrows : ℕ)
        → read_target f.utf8 d ≡ (false, portal)
        → read_execute f.utf8 e ≡ ok (portal, maxrows)
        → w.conn.failed ≡ false
        → handle f b'E' e (handle f b'D' d w)
          ≡ settle f (
              emit_result f.host sql (Answer.table t) false maxrows (
                let v = described w portal t engine txn in
                record v {
                  conn = record v.conn { portal_cache = erase portal v.conn.portal_cache };
                }))
    unfolding handle dispatch execute execute_portal execute_open execute_sql gate
    describe_execute-emit_result d e maxrows target parts open_gate =
        let v = described w portal t engine txn in
        let cached : lookup portal v.conn.portal_cache ≡ some t =
          rw (lookup-insert portal portal t w.conn.portal_cache, eq_refl portal) refl in
        rw
          (
            describe_runs d target,
            parts,
            bound,
            cached,
            open_gate,
            substituted,
            query-try_cursor_stmt full maxrows _ query,
          )
          refl

    -- Describe of a bound portal with a query that succeeds, and then Execute of it, in a connection
    -- whose transaction is not aborted: the engine has run the query once, and the client gets one row
    -- description, then every row, then the count. This is for a table no longer than the limit of the
    -- Execute and that of the server, where they are set.
    pub describe_execute :
        (d e : Bytes) (maxrows : ℕ)
        → read_target f.utf8 d ≡ (false, portal)
        → read_execute f.utf8 e ≡ ok (portal, maxrows)
        → w.conn.failed ≡ false
        → length (f.host.rows t) ≡ f.host.num_rows t
        → (maxrows ≡ 0) ⊎ (f.host.num_rows t ≤ maxrows)
        → (f.host.max_rows ≡ 0) ⊎ (f.host.num_rows t ≤ f.host.max_rows)
        → ((handle f b'E' e (handle f b'D' d w)).engine ≡ engine)
          × ((handle f b'E' e (handle f b'D' d w)).sent
              ≡ w.sent
                ++ (Frame.row_description (f.host.schema t)
                    ∷ (map Frame.data_row (f.host.rows t)
                        ++ Frame.command_complete (Tag.select (f.host.num_rows t)) ∷ [])))
    unfolding emit_result settle
    describe_execute d e maxrows target parts open_gate counted asked allowed =
        let v = described w portal t engine txn in
        let v' : World E X T = record v {
          conn = record v.conn { portal_cache = erase portal v.conn.portal_cache };
        } in
        let same = describe_execute-emit_result d e maxrows target parts open_gate in
        let out = emit_frames-all f sql t maxrows v' counted asked allowed in
        (
          ap (λ x. x.engine) same
              ∙ ap (λ r. (settle f (resume r (λ _. update (end_txn (keyword f.host sql))))).engine)
                  out,
          ap (λ x. x.sent) same
              ∙ ap (λ r. (settle f (resume r (λ _. update (end_txn (keyword f.host sql))))).sent)
                  out
              ∙ simp (append_assoc, append-nil) refl,
        )
