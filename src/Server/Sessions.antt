-- ===== src/Server/Sessions.antt =====
-- ryudb/server/app.py: the transactions of the connections (`run_sql`, `has_open_txn`), and connecting
-- and disconnecting. A connection is named by the text of its `id`.
pub mod Isolation
use ryu_db.Common.{
  String, Bool, true, false, not, ◌||◌, Option, none, some, List, [], ◌∷◌, Result, ◌=ₛ◌,
  if◌then◌else◌, keep_if,
}
use ryu_db.Common.Dict.{Dict, lookup, insert, set_add}

-- The engine as `run_sql` uses it: its slot `_txn`, and `engine.sql`, which returns or raises and
-- leaves the engine with whatever is in the slot then.
pub record SqlEngine (E X R : Type 0) : Type 0 where
  pub set_txn : Option X → E → E
  pub txn : E → Option X
  pub sql : String → E → Result R × E

-- `txns` is the attribute `_ryudb_txn` of the connection objects, `conns` the keys of `_conns`.
pub record Sessions (E X : Type 0) : Type 0 where
  pub engine : E
  pub txns : Dict (Option X)
  pub conns : List String

-- `getattr(ws, "_ryudb_txn", None)`
abbrev pub txn_of {ℓ} : {X : Type ℓ} → String → Dict (Option X) → Option X
txn_of ws [] = none
txn_of ws ((w, x) ∷ d) = if w =ₛ ws then x else txn_of ws d

abbrev pub is_some {ℓ} : {X : Type ℓ} → Option X → Bool
is_some none = false
is_some (some x) = true

unfoldable pub has_open : {X : Type 0} → Dict (Option X) → List String → Bool
has_open txns [] = false
has_open txns (ws ∷ conns) = is_some (txn_of ws txns) || has_open txns conns

module _ {E X : Type 0} where
  unfoldable pub has_open_txn : Sessions E X → Bool
  has_open_txn s = has_open s.txns s.conns

  -- The start of a handler, and its `finally`.
  unfoldable pub connect : String → Sessions E X → Sessions E X
  connect ws s = record s { conns = set_add ws s.conns; txns = insert ws none s.txns }

  unfoldable pub disconnect : String → Sessions E X → Sessions E X
  disconnect ws s = record s { conns = keep_if (λ c. not (c =ₛ ws)) s.conns }

module _ {E X R : Type 0} (api : SqlEngine E X R) where
  unfoldable pub run_sql : String → String → Sessions E X → Result R × Sessions E X
  run_sql ws sql s =
      let (result, e) = api.sql sql (api.set_txn (txn_of ws s.txns) s.engine) in
      (result, record s { engine = api.set_txn none e; txns = insert ws (api.txn e) s.txns })
