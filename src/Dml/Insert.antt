-- ===== src/Dml/Insert.antt =====
-- ryudb/exec/executor.py: `_insert` and `_insert_select`. What the SELECT gives is a parameter: the number
-- of its rows, and its columns.
use ryu_db.Common.{ℕ, String, not, Option, List, length, ◌==◌, parse_error, if◌then◌else◌}
use ryu_db.Common.Actions.{Action, return, raise, lift, ◌>>=◌}
use ryu_db.Catalog.{TableInfo, get}
use ryu_db.Wal.Codec.{Serial}
use ryu_db.Wal.File.{Outcome}
use ryu_db.Engine.{Engine}
use ryu_db.Engine.Ops.{store_insert}
use ryu_db.Dml.{Rows, Pandas, Source, enforce_unique}
use ryu_db.Dml.Values.{
  Reading, Lit, target_columns, check_columns, check_widths, provided, resolve_rows, values_frame,
  select_frame,
}

-- The methods of the engine on frames of such rows.
abbrev pub Method : Type 0 → Type 0 → Type 0 → Type 0
Method V C A = Action (Engine (Rows V) C) A

module _ {L V T K C : Type 0} (pd : Pandas L V T) (src : Source L V T K) where
  -- The last lines of the three: the check of the keys, and the frame into the buffer or the log.
  unfoldable pub store_checked : Serial (Rows V) → Outcome → String → Rows V → Method V C ℕ
  unfolding enforce_unique store_insert
  store_checked s io table frame = do
    _ ← λ e. lift (enforce_unique pd src table frame e) e
    _ ← store_insert s io table frame
    return (length frame)

  unfoldable pub insert_values :
      {X : Type 0}
      → Reading X L
      → Serial (Rows V)
      → Outcome
      → String
      → Option (List String)
      → List (List (Lit X))
      → Method V C ℕ
  unfolding check_columns check_widths resolve_rows values_frame store_checked
  insert_values r s io table columns rows = do
    info ← lift (get src.tables table)
    let cols = target_columns columns info.columns
    _ ← lift (check_columns cols info.columns)
    _ ← lift (check_widths (length cols) rows)
    pyrows ← lift (resolve_rows r info.constraints cols info.columns rows)
    frame ← lift (values_frame pd (src.types table) (length rows) info.columns pyrows)
    store_checked s io table frame

  -- `_insert_select` from the frame of the SELECT on.
  unfoldable pub insert_frame :
      Serial (Rows V)
      → Outcome
      → String
      → TableInfo (Option L)
      → List String
      → ℕ × List (List (Option L))
      → Method V C ℕ
  unfolding select_frame store_checked
  insert_frame s io table info cols (n, columns) =
      if n == 0
      then return 0
      else if not (length columns == length cols)
      then raise parse_error
      else do
        frame ← lift (
            select_frame pd (src.types table) info.constraints n (provided cols columns)
              info.columns)
        store_checked s io table frame

  unfoldable pub insert_select :
      Serial (Rows V)
      → Outcome
      → String
      → Option (List String)
      → Method V C (ℕ × List (List (Option L)))
      → Method V C ℕ
  unfolding check_columns insert_frame
  insert_select s io table columns source = do
    info ← lift (get src.tables table)
    let cols = target_columns columns info.columns
    _ ← lift (check_columns cols info.columns)
    selected ← source
    insert_frame s io table info cols selected
