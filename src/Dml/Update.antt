-- ===== src/Dml/Update.antt =====
-- ryudb/exec/executor.py: `_delete` and `_update`.
use ryu_db.Common.{
  ℕ, String, true, Option, none, some, List, [], ◌∷◌, map, length, Result, ok, err, not_implemented,
}
use ryu_db.Common.Actions.{return, assign, lift, ◌>>=◌}
use ryu_db.Catalog.{TableInfo, get}
use ryu_db.Txn
use ryu_db.Txn.{Transaction}
use ryu_db.Wal.Codec.{Serial}
use ryu_db.Wal.File.{Outcome}
use ryu_db.Engine.{Engine, invalidate_table_caches}
use ryu_db.Engine.Ops.{store_delete, commit}
use ryu_db.Dml.{Rows, Pandas, Source, scan, enforce_unique}
use ryu_db.Dml.Targets.{
  Predicate, Assignment, select_targets, project, require_pk, check_assignments, set_columns,
  check_not_null,
}
use ryu_db.Dml.Insert.{Method}

-- `raise NotImplementedError` in a transaction.
abbrev pub refuse_in : {F : Type 0} → Option (Transaction F) → Result (Unit {0})
refuse_in none = ok tt
refuse_in (some txn) = err not_implemented

module _ {V C : Type 0} where
  -- `self._txn.tombstone_append` and `self._txn.buffer_append`
  abbrev pub on_txn :
      (Transaction (Rows V) → Transaction (Rows V)) → Engine (Rows V) C → Engine (Rows V) C
  on_txn f e = record e { txn = elim e.txn [ none ↦ none | some txn ↦ some (f txn) ] }

  -- The `except` of `_update`.
  unfoldable pub discard :
      String → Result (Unit {0}) × Engine (Rows V) C → Result (Unit {0}) × Engine (Rows V) C
  unfolding invalidate_table_caches
  discard table (ok _, e) = (ok tt, e)
  discard table (err x, e) = (err x, invalidate_table_caches table (record e { txn = none }))

module _ {L V T K C : Type 0} (pd : Pandas L V T) (src : Source L V T K) where
  unfoldable pub delete_found :
      Serial (Rows V) → Outcome → String → List String → Rows V → Method V C ℕ
  unfolding store_delete
  delete_found s io table pk [] = return 0
  delete_found s io table pk (row ∷ rows) = do
    _ ← store_delete s io table (map (project pk) (row ∷ rows))
    return (length (row ∷ rows))

  unfoldable pub delete_rows : Serial (Rows V) → Outcome → String → Predicate V → Method V C ℕ
  unfolding scan select_targets delete_found
  delete_rows s io table predicate = do
    info ← lift (get src.tables table)
    pk ← lift (require_pk info.constraints.primary_key)
    targets ← λ e. lift (select_targets predicate (scan src info table e)) e
    delete_found s io table pk targets

  -- The `try` of `_update`, and the assignment of the transaction before it.
  unfoldable pub replace_rows :
      Serial (Rows V)
      → Outcome
      → (List String → List String)
      → String
      → Rows V
      → Rows V
      → Method V C (Unit {0})
  unfolding enforce_unique invalidate_table_caches commit
  replace_rows s io order table tombstone new_frame = do
    _ ← assign (λ e. record e { txn = some (Txn.fresh e.commit_ts) })
    _ ← assign (on_txn (λ txn. Txn.tombstone_append txn table tombstone true))
    _ ← λ e. lift (enforce_unique pd src table new_frame e) e
    _ ← assign (on_txn (λ txn. Txn.buffer_append txn table new_frame))
    _ ← assign (invalidate_table_caches table)
    commit s io order

  -- `_update` from the targets on.
  unfoldable pub update_found :
      Serial (Rows V)
      → Outcome
      → (List String → List String)
      → String
      → TableInfo (Option L)
      → List String
      → List (Assignment L V)
      → Rows V
      → Method V C ℕ
  unfolding set_columns check_not_null discard replace_rows
  update_found s io order table info pk assignments [] = return 0
  update_found s io order table info pk assignments (row ∷ rows) = do
    let targets = row ∷ rows
    new_frame ← lift (set_columns pd (src.types table) targets assignments targets)
    _ ← lift (check_not_null info.constraints.not_null new_frame)
    _ ← λ e. discard table (replace_rows s io order table (map (project pk) targets) new_frame e)
    return (length targets)

  unfoldable pub update_rows :
      Serial (Rows V)
      → Outcome
      → (List String → List String)
      → String
      → List (Assignment L V)
      → Predicate V
      → Method V C ℕ
  unfolding check_assignments select_targets scan update_found
  update_rows s io order table assignments predicate = do
    info ← lift (get src.tables table)
    pk ← lift (require_pk info.constraints.primary_key)
    _ ← λ e. lift (refuse_in e.txn) e
    _ ← lift (check_assignments info.columns assignments)
    targets ← λ e. lift (select_targets predicate (scan src info table e)) e
    update_found s io order table info pk assignments targets
