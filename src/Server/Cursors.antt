-- ===== src/Server/Cursors.antt =====
-- ryudb/server/app.py, the result cursors of one connection (`open_cursor`, `get_cursor`,
-- `close_cursor`). A cursor's id is the text that `uuid.uuid4().hex` gave; a table is a parameter.
pub mod Limit
use ryu_db.Common.{
  ℕ, String, Bool, Option, List, length, leb, Result, ok, err, protocol_error, if◌then◌else◌,
}
use ryu_db.Common.Dict.{Dict, lookup, insert, erase, has_key}

pub record Cursor (T : Type 0) : Type 0 where
  pub table : T
  pub total : ℕ
  pub sql : String

module _ {T : Type 0} where
  -- `num_rows` is the table's; the id is new.
  unfoldable pub open_cursor :
      (T → ℕ) → ℕ → String → T → String → Dict (Cursor T) → Result String × Dict (Cursor T)
  open_cursor num_rows max_cursors cid table sql cursors =
      if leb max_cursors (length cursors) then (err protocol_error, cursors) else (
        ok cid,
        insert cid (record { table = table; total = num_rows table; sql = sql }) cursors,
      )

  unfoldable pub get_cursor : String → Dict (Cursor T) → Option (Cursor T)
  get_cursor cid cursors = lookup cid cursors

  unfoldable pub close_cursor : String → Dict (Cursor T) → Bool × Dict (Cursor T)
  close_cursor cid cursors = (has_key cid cursors, erase cid cursors)
