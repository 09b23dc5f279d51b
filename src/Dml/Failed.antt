-- ===== src/Dml/Failed.antt =====
-- What a statement that raises leaves behind: `_insert`, `_insert_select`, `_delete` and `_update` of
-- ryudb/exec/executor.py.
use ryu_db.Common.{
  String, true, ◌≡◌, refl, sym, Option, none, some, List, [], ◌∷◌, map, length, Error, Result, ok,
  err,
}
use ryu_db.Common.Actions.{resume}
use ryu_db.Catalog.{TableInfo, get}
use ryu_db.Txn
use ryu_db.Txn.{Transaction}
use ryu_db.Wal.Codec.{Serial}
use ryu_db.Wal.File.{Outcome}
use ryu_db.Engine.{Engine, invalidate_table_caches}
use ryu_db.Engine.Ops.{store_insert, store_delete}
use ryu_db.Engine.Failed.{
  SameDelta, Undone, Undone-err, lift-Undone, lift-SameDelta, first-Undone, store_insert-Undone,
  store_delete-Undone, commit-SameDelta,
}
use ryu_db.Dml.{Rows, Pandas, Source, scan, enforce_unique}
use ryu_db.Dml.Values.{
  Reading, Lit, target_columns, check_columns, check_widths, resolve_rows, values_frame,
}
use ryu_db.Dml.Targets.{
  Predicate, Assignment, select_targets, project, require_pk, check_assignments, set_columns,
  check_not_null,
}
use ryu_db.Dml.Insert.{Method, store_checked, insert_values}
use ryu_db.Dml.Update.{
  on_txn, refuse_in, discard, replace_rows, delete_found, delete_rows, update_found, update_rows,
}

module _ {L V T K C : Type 0} (pd : Pandas L V T) (src : Source L V T K) where
  store_checked-Undone :
      (s : Serial (Rows V)) (io : Outcome) (table : String) (frame : Rows V) (e : Engine (Rows V) C)
      → Undone e (store_checked pd src s io table frame e)
  unfolding store_checked
  store_checked-Undone s io table frame e =
      lift-Undone (enforce_unique pd src table frame e) _ e λ _.
        first-Undone e (store_insert s io table frame e) (λ _. length frame)
          (store_insert-Undone s io table frame e)

  -- An INSERT of values.
  pub insert_values-Undone :
      {X : Type 0} (r : Reading X L) (s : Serial (Rows V)) (io : Outcome) (table : String)
      (columns : Option (List String)) (rows : List (List (Lit X))) (e : Engine (Rows V) C)
      → Undone e (insert_values pd src r s io table columns rows e)
  unfolding insert_values
  insert_values-Undone r s io table columns rows e = lift-Undone (get src.tables table) _ e λ info.
      let cols = target_columns columns info.columns in
      lift-Undone (check_columns cols info.columns) _ e λ _.
        lift-Undone (check_widths (length cols) rows) _ e λ _.
          lift-Undone (resolve_rows r info.constraints cols info.columns rows) _ e λ pyrows.
            lift-Undone (values_frame pd (src.types table) (length rows) info.columns pyrows) _ e
              λ frame. store_checked-Undone s io table frame e

  delete_found-Undone :
      (s : Serial (Rows V)) (io : Outcome) (table : String) (pk : List String) (targets : Rows V)
      (e : Engine (Rows V) C)
      → Undone e (delete_found pd src s io table pk targets e)
  unfolding delete_found
  delete_found-Undone s io table pk [] e = tt
  delete_found-Undone s io table pk (row ∷ rows) e =
      first-Undone e (store_delete s io table (map (project pk) (row ∷ rows)) e)
        (λ _. length (row ∷ rows))
        (store_delete-Undone s io table (map (project pk) (row ∷ rows)) e)

  -- A DELETE.
  pub delete_rows-Undone :
      (s : Serial (Rows V)) (io : Outcome) (table : String) (predicate : Predicate V)
      (e : Engine (Rows V) C)
      → Undone e (delete_rows pd src s io table predicate e)
  unfolding delete_rows
  delete_rows-Undone s io table predicate e = lift-Undone (get src.tables table) _ e λ info.
      lift-Undone (require_pk info.constraints.primary_key) _ e λ pk.
        lift-Undone (select_targets predicate (scan src info table e)) _ e
          λ targets. delete_found-Undone s io table pk targets e

  replace_rows-SameDelta :
      (s : Serial (Rows V)) (io : Outcome) (order : List String → List String) (table : String)
      (tombstone new_frame : Rows V) (e : Engine (Rows V) C)
      → SameDelta e.delta (replace_rows pd src s io order table tombstone new_frame e)
  unfolding replace_rows invalidate_table_caches
  replace_rows-SameDelta s io order table tombstone new_frame e =
      let e1 =
        on_txn (λ txn. Txn.tombstone_append txn table tombstone true)
          (record e { txn = some (Txn.fresh e.commit_ts) }) in
      let e2 =
        invalidate_table_caches table (on_txn (λ txn. Txn.buffer_append txn table new_frame) e1) in
      lift-SameDelta (enforce_unique pd src table new_frame e1) _ e1
        λ _. commit-SameDelta s io order e2

  discard-Undone :
      (table : String) (e : Engine (Rows V) C) (r : Result (Unit {0}) × Engine (Rows V) C)
      → e.txn ≡ none
      → SameDelta e.delta r
      → Undone e (discard table r)
  unfolding discard invalidate_table_caches
  discard-Undone table e (err x, e') idle h = (h, sym idle)
  discard-Undone table e (ok u, e') idle h = tt

  update_found-Undone :
      (s : Serial (Rows V)) (io : Outcome) (order : List String → List String) (table : String)
      (info : TableInfo (Option L)) (pk : List String) (assignments : List (Assignment L V))
      (targets : Rows V) (e : Engine (Rows V) C)
      → e.txn ≡ none
      → Undone e (update_found pd src s io order table info pk assignments targets e)
  unfolding update_found
  update_found-Undone s io order table info pk assignments [] e idle = tt
  update_found-Undone s io order table info pk assignments (row ∷ rows) e idle =
      let targets = row ∷ rows in
      lift-Undone (set_columns pd (src.types table) targets assignments targets) _ e λ new_frame.
        lift-Undone (check_not_null info.constraints.not_null new_frame) _ e λ _.
          let r = replace_rows pd src s io order table (map (project pk) targets) new_frame e in
          first-Undone e (discard table r) (λ _. length targets)
            (discard-Undone table e r idle
              (replace_rows-SameDelta s io order table (map (project pk) targets) new_frame e))

  refused-Undone :
      {A : Type 0} (t : Option (Transaction (Rows V))) (next : Method V C A) (e : Engine (Rows V) C)
      → e.txn ≡ t
      → (e.txn ≡ none → Undone e (next e))
      → Undone e (resume (refuse_in t, e) (λ _. next))
  refused-Undone none next e now h = h now
  refused-Undone (some txn) next e now h = (refl, refl)

  update_rows-Undone :
      (s : Serial (Rows V)) (io : Outcome) (order : List String → List String) (table : String)
      (assignments : List (Assignment L V)) (predicate : Predicate V) (e : Engine (Rows V) C)
      → Undone e (update_rows pd src s io order table assignments predicate e)
  unfolding update_rows
  update_rows-Undone s io order table assignments predicate e =
      lift-Undone (get src.tables table) _ e λ info.
        lift-Undone (require_pk info.constraints.primary_key) _ e λ pk.
          refused-Undone e.txn _ e refl λ idle.
            lift-Undone (check_assignments info.columns assignments) _ e λ _.
              lift-Undone (select_targets predicate (scan src info table e)) _ e
                λ targets. update_found-Undone s io order table info pk assignments targets e idle

  -- An UPDATE that raises leaves the committed rows and the transaction as they were before it, wherever
  -- it raises: at the checks, at the declared keys, or at the write of its commit to the log.
  pub update_rows-undone :
      (s : Serial (Rows V)) (io : Outcome) (order : List String → List String) (table : String)
      (assignments : List (Assignment L V)) (predicate : Predicate V) (e : Engine (Rows V) C)
      (x : Error)
      → (update_rows pd src s io order table assignments predicate e).0 ≡ err x
      → ((update_rows pd src s io order table assignments predicate e).1.delta ≡ e.delta)
        × ((update_rows pd src s io order table assignments predicate e).1.txn ≡ e.txn)
  update_rows-undone s io order table assignments predicate e x raised =
      Undone-err e (update_rows pd src s io order table assignments predicate e) x raised
        (update_rows-Undone s io order table assignments predicate e)
