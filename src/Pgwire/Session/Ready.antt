-- ===== src/Pgwire/Session/Ready.antt =====
-- When a client is told that the connection is ready, and with which status.
use ryu_db.Common.{
  ℕ, String, ◌≡◌, refl, ap, Bool, Option, none, some, if◌then◌else◌, inl, inr, true, false, ◌||◌,
  List, [], ◌∷◌, ◌++◌, Error, Result, ok, err, ◌==◌, arith, Bool-cases,
}
use ryu_db.Common.Actions.{resume}
use ryu_db.Wal.Bytes.{Bytes}
use ryu_db.Pgwire.Bytes.{cstring_and_rest}
use ryu_db.Pgwire.Frames.{Frame}
use ryu_db.Pgwire.Sql.{split_statements}
use ryu_db.Pgwire.Session.{World, Conn, send, status, in_txn, is_open}
use ryu_db.Pgwire.Session.Handlers.{
  Front, send_ready, query_loop, simple_query, dispatch, recover, sqlstate_of, settle, handle,
  is_blank,
}

-- The letters of the protocol: an aborted transaction, an open one, none.
abbrev pub letter : {X : Type 0} → Bool → Option X → String
letter true txn = "E"
letter false (some x) = "T"
letter false none = "I"

module _ {X T : Type 0} where
  status-letter : (c : Conn X T) → status c ≡ letter c.failed c.txn
  unfolding status in_txn
  status-letter c = go c.failed c.txn
    where
      go :
          (failed : Bool) (txn : Option X)
          → (if failed then "E" else if is_open txn then "T" else "I") ≡ letter failed txn
      go true txn = refl
      go false none = refl
      go false (some x) = refl

module _ {E X T : Type 0} where
  -- The last message is ReadyForQuery, with the letter for the connection as it is then.
  abbrev pub IsReady : World E X T → Type 0
  IsReady w =
      (before : List Frame) × (w.sent
        ≡ before ++ Frame.ready (letter w.conn.failed w.conn.txn) ∷ [])

  said-IsReady :
      (w : World E X T) → IsReady (record w { sent = w.sent ++ Frame.ready (status w.conn) ∷ [] })
  said-IsReady w = (w.sent, ap (λ l. w.sent ++ Frame.ready l ∷ []) (status-letter w.conn))

module _ {E X T Tree : Type 0} (f : Front E X T Tree) where
  recover-IsReady : (e : Error) (w : World E X T) → IsReady (recover f e w).1
  unfolding recover send_ready
  recover-IsReady e w =
      let v : World E X T = record w {
        conn = if in_txn w.conn then record w.conn { failed = true } else w.conn;
        sent = w.sent ++ Frame.error_response "ERROR" (sqlstate_of f e) (f.host.message e) ∷ [];
      } in
      said-IsReady v

  settle-IsReady :
      (r : Result (Unit {0}) × World E X T) → IsReady (settle f (resume r (λ _. send_ready)))
  unfolding settle send_ready
  settle-IsReady (ok done, w) = said-IsReady w
  settle-IsReady (err e, w) = recover-IsReady e w

  query-IsReady :
      (payload : Bytes) (w : World E X T) → IsReady (settle f (simple_query f payload w))
  unfolding simple_query
  query-IsReady payload w =
      let sql = (cstring_and_rest f.utf8 payload).0 in
      elim (Bool-cases (is_blank f sql)) [
        | inl blank ↦ rw blank (settle-IsReady (send Frame.empty_query w))
        | inr full ↦ rw full (settle-IsReady (query_loop f (split_statements f.host.unicode sql) w))
      ]

  sync : (t : ℕ) → (t == b'Q' || t == b'S') ≡ true → (t == b'Q') ≡ false → t ≡ b'S'
  sync t h other = ground arith

  -- A simple query and a Sync, whatever the statements do or raise, are answered by messages of which
  -- the last is ReadyForQuery, with `E` if the connection's transaction is then aborted, `T` if one is
  -- open and not aborted, and `I` otherwise.
  pub handle-IsReady :
      (t : ℕ) (payload : Bytes) (w : World E X T)
      → (t == b'Q' || t == b'S') ≡ true
      → IsReady (handle f t payload w)
  unfolding handle dispatch
  handle-IsReady t payload w h = elim (Bool-cases (t == b'Q')) [
    | inl query ↦ rw query (query-IsReady payload w)
    | inr other ↦ rw (other, sync t h other) (settle-IsReady (ok tt, w))
  ]
