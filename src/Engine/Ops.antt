-- ===== src/Engine/Ops.antt =====
-- ryudb/exec/executor.py, the operations of the transaction layer: BEGIN, COMMIT, ROLLBACK, snapshots
-- and restore, and the step of `_insert` and `_delete` that stores a frame.
use ryu_db.Common.{
  ℕ, String, false, Option, none, some, List, [], ◌∷◌, leb, ltb, Result, ok, err, runtime_error,
  keep_if, if◌then◌else◌, ◌=ₛ◌,
}
use ryu_db.Common.Dict.{lookup, insert}
use ryu_db.Delta
use ryu_db.Txn
use ryu_db.Txn.{Transaction}
use ryu_db.Wal.Codec.{Serial, Kind}
use ryu_db.Wal.File
use ryu_db.Wal.File.{Outcome}
use ryu_db.Engine.{Engine, write_commit, txn_batches, invalidate_all, invalidate_table_caches}

module _ {F C : Type 0} where
  -- Each operation below is given `self._txn` first, to branch on it.
  unfoldable pub begin_in : Option (Transaction F) → Engine F C → Result (Unit {0}) × Engine F C
  begin_in (some txn) e = (err runtime_error, e)
  begin_in none e = (ok tt, record e { txn = some (Txn.fresh e.commit_ts) })

  unfoldable pub begin : Engine F C → Result (Unit {0}) × Engine F C
  unfolding begin_in
  begin e = begin_in e.txn e

  unfoldable pub finish_txn : Result ℕ × Engine F C → Result (Unit {0}) × Engine F C
  finish_txn (err x, e) = (err x, e)
  finish_txn (ok ts, e) = (ok tt, record e { txn = none })

  unfoldable pub commit_in :
      Serial F
      → Outcome
      → (List String → List String)
      → Option (Transaction F)
      → Engine F C
      → Result (Unit {0}) × Engine F C
  unfolding write_commit txn_batches finish_txn
  commit_in s io order none e = (err runtime_error, e)
  commit_in s io order (some txn) e = finish_txn (write_commit s io (txn_batches order txn) e)

  unfoldable pub commit :
      Serial F → Outcome → (List String → List String) → Engine F C → Result (Unit {0}) × Engine F C
  unfolding commit_in
  commit s io order e = commit_in s io order e.txn e

  unfoldable pub rollback_in : Option (Transaction F) → Engine F C → Result (Unit {0}) × Engine F C
  unfolding invalidate_all
  rollback_in none e = (err runtime_error, e)
  rollback_in (some txn) e = (ok tt, record (invalidate_all (Txn.tables txn) e) { txn = none })

  unfoldable pub rollback : Engine F C → Result (Unit {0}) × Engine F C
  unfolding rollback_in
  rollback e = rollback_in e.txn e

  unfoldable pub txn_control :
      Serial F
      → Outcome
      → (List String → List String)
      → String
      → Engine F C
      → Result (Unit {0}) × Engine F C
  txn_control s io order kind e =
      if kind =ₛ "begin"
      then begin e
      else if kind =ₛ "commit"
      then commit s io order e
      else if kind =ₛ "rollback"
      then rollback e
      else (err runtime_error, e)

  unfoldable pub snapshot : String → Engine F C → Engine F C
  snapshot name e = record e { snapshots = insert name e.commit_ts e.snapshots }

  -- `_restore_to` past its two checks.
  unfoldable pub rewind_to : Serial F → ℕ → Engine F C → Engine F C
  unfolding invalidate_all
  rewind_to s target e =
      let (delta, touched) = Delta.rewind e.delta target in
      invalidate_all touched (record e {
        delta = delta;
        commit_ts = target;
        wal = File.truncate s.crc32 target e.wal;
        snapshots = keep_if (λ n. leb n.1 target) e.snapshots;
      })

  unfoldable pub restore_in :
      Serial F → ℕ → Option (Transaction F) → Engine F C → Result (Unit {0}) × Engine F C
  unfolding rewind_to
  restore_in s target (some txn) e = (err runtime_error, e)
  restore_in s target none e =
      if ltb e.commit_ts target then (err runtime_error, e) else (ok tt, rewind_to s target e)

  unfoldable pub restore_to : Serial F → ℕ → Engine F C → Result (Unit {0}) × Engine F C
  unfolding restore_in
  restore_to s target e = restore_in s target e.txn e

  unfoldable pub restore_found : Serial F → Option ℕ → Engine F C → Result (Unit {0}) × Engine F C
  unfolding restore_to
  restore_found s none e = (err runtime_error, e)
  restore_found s (some ts) e = restore_to s ts e

  unfoldable pub restore : Serial F → String → Engine F C → Result (Unit {0}) × Engine F C
  unfolding restore_found
  restore s name e = restore_found s (lookup name e.snapshots) e

  -- The result of `_write_commit` passed over.
  unfoldable pub ignore_ts : Result ℕ × Engine F C → Result (Unit {0}) × Engine F C
  ignore_ts (err x, e) = (err x, e)
  ignore_ts (ok ts, e) = (ok tt, e)

  unfoldable pub store_insert_in :
      Serial F
      → Outcome
      → String
      → F
      → Option (Transaction F)
      → Engine F C
      → Result (Unit {0}) × Engine F C
  unfolding write_commit invalidate_table_caches ignore_ts
  store_insert_in s io table frame (some txn) e = (
    ok tt,
    invalidate_table_caches table (record e { txn = some (Txn.buffer_append txn table frame) }),
  )
  store_insert_in s io table frame none e =
      ignore_ts (write_commit s io ((table, Kind.insert, frame) ∷ []) e)

  -- The last step of `_insert`, with the frame that it has built and checked: into the buffer of the
  -- transaction, or committed at once.
  unfoldable pub store_insert :
      Serial F → Outcome → String → F → Engine F C → Result (Unit {0}) × Engine F C
  unfolding store_insert_in
  store_insert s io table frame e = store_insert_in s io table frame e.txn e

  unfoldable pub store_delete_in :
      Serial F
      → Outcome
      → String
      → F
      → Option (Transaction F)
      → Engine F C
      → Result (Unit {0}) × Engine F C
  unfolding write_commit invalidate_table_caches ignore_ts
  store_delete_in s io table frame (some txn) e = (
    ok tt,
    invalidate_table_caches table
        (record e { txn = some (Txn.tombstone_append txn table frame false) }),
  )
  store_delete_in s io table frame none e =
      ignore_ts (write_commit s io ((table, Kind.tombstone, frame) ∷ []) e)

  -- The last step of `_delete`, with the primary keys of the rows that it has found.
  unfoldable pub store_delete :
      Serial F → Outcome → String → F → Engine F C → Result (Unit {0}) × Engine F C
  unfolding store_delete_in
  store_delete s io table frame e = store_delete_in s io table frame e.txn e
