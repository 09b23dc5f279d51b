-- ===== src/Server/Sessions/Isolation.antt =====
-- One connection's requests leave the transactions of the others alone.
use text.Mathlib.TextEquality.{eq_iff}
use text.Mathlib.TextPositions.{eq_refl}
use ryu_db.Common.{
  String, ◌≡◌, refl, ◌∙◌, true, false, Option, none, List, [], ◌∷◌, All, arith, Bool-cases,
  Option-cases, inl, inr, ◌=ₛ◌, if◌then◌else◌,
}
use ryu_db.Common.Dict.{Dict, insert, contains}
use ryu_db.Server.Sessions.{SqlEngine, Sessions, txn_of, has_open, has_open_txn, run_sql}

txn_of-insert :
    {X : Type 0} (v w : String) (x : Option X) (d : Dict (Option X))
    → txn_of w (insert v x d) ≡ (if v =ₛ w then x else txn_of w d)
txn_of-insert v w x [] = refl
txn_of-insert v w x ((u, y) ∷ d) =
    ground (arith, eq_iff v w, eq_iff u v, eq_iff u w, txn_of-insert v w x d)

-- The slot is what was put into it.
pub record IsSlot {E X R : Type 0} (api : SqlEngine E X R) : Type 0 where
  pub txn-set : (x : Option X) (e : E) → api.txn (api.set_txn x e) ≡ x

module _ {E X R : Type 0} (api : SqlEngine E X R) where
  -- Requests of connections, in the order in which the engine serves them.
  unfoldable pub serve : List (String × String) → Sessions E X → Sessions E X
  serve [] s = s
  serve ((ws, sql) ∷ requests) s = serve requests (run_sql api ws sql s).1

  -- A request loads its own connection's transaction, and the connection keeps what is left of it.
  pub run_sql-txn_of :
      (ws sql : String) (s : Sessions E X)
      → txn_of ws (run_sql api ws sql s).1.txns
        ≡ api.txn (api.sql sql (api.set_txn (txn_of ws s.txns) s.engine)).1
  unfolding run_sql
  run_sql-txn_of ws sql s = rw (txn_of-insert ws ws _ s.txns, eq_refl ws) refl

  -- However many requests of other connections the engine serves, with whatever result, a connection's
  -- transaction is the one that its own last request has left, and between requests the engine holds
  -- none.
  pub serve-isolated :
      (c : String) (requests : List (String × String)) (s : Sessions E X)
      → IsSlot api
      → All (λ r. (r.0 =ₛ c) ≡ false) requests
      → api.txn s.engine ≡ none
      → (txn_of c (serve requests s).txns ≡ txn_of c s.txns)
        × (api.txn (serve requests s).engine ≡ none)
  unfolding serve run_sql
  serve-isolated c [] s slot h idle = (refl, idle)
  serve-isolated c ((ws, sql) ∷ requests) s slot h idle =
      let s' = (run_sql api ws sql s).1 in
      let (txn, empty) = serve-isolated c requests s' slot h.1 (slot.txn-set none _) in
      (txn ∙ rw (txn_of-insert ws c _ s.txns, h.0) refl, empty)

has_open-txn_of :
    {X : Type 0} (ws : String) (txns : Dict (Option X)) (conns : List String)
    → has_open txns conns ≡ false
    → contains ws conns ≡ true
    → txn_of ws txns ≡ none
unfolding has_open
has_open-txn_of ws txns [] h there = cc
has_open-txn_of ws txns (c ∷ conns) h there = elim (Bool-cases (c =ₛ ws)) [
  | inl same ↦ ground (arith, eq_iff c ws, Option-cases (txn_of ws txns))
  | inr other ↦ has_open-txn_of ws txns conns (ground arith) (ground arith)
]

-- The admin operations that `has_open_txn` guards find no live connection with a transaction where it
-- answers no.
pub has_open_txn-txn_of :
    {E X : Type 0} (ws : String) (s : Sessions E X)
    → has_open_txn s ≡ false
    → contains ws s.conns ≡ true
    → txn_of ws s.txns ≡ none
unfolding has_open_txn
has_open_txn-txn_of ws s h there = has_open-txn_of ws s.txns s.conns h there
