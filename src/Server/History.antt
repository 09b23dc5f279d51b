-- ===== src/Server/History.antt =====
-- ryudb/server/app.py: the ring buffer of the queries that have run (`record_history`, `history`).
pub mod Newest
use ryu_db.Common.{ℕ, ◌+◌, ◌-◌, String, List, [], ◌∷◌, ◌++◌, Option, length, drop}

-- The times are texts of Python floats: `duration_ms` rounded, and the clock.
pub record Entry : Type 0 where
  pub id : Option String
  pub sql : String
  pub duration_ms : String
  pub rows : ℕ
  pub kind : String
  pub ts : String

-- `deque(maxlen=size).append(e)`: what is too much goes at the left.
unfoldable pub record_history : ℕ → Entry → List Entry → List Entry
record_history size entry history =
    drop (length (history ++ entry ∷ []) - size) (history ++ entry ∷ [])
