-- ===== src/Engine/Steps.antt =====
-- Every operation of the transaction layer (ryudb/exec/executor.py), and every crash, as a step; and
-- the agreement of log and store along any sequence of steps.
use ryu_db.Common.{
  ℕ, String, ◌≡◌, refl, sym, ap, ◌∙◌, true, false, Option, none, some, List, [], ◌∷◌, leb, ltb,
  keep_if, All-keep_if, Result, ok, err, Bool-cases, inl, inr, append-nil, non_empty,
}
use ryu_db.Common.Ascending.{keep_if-IsAscending}
use ryu_db.Delta
use ryu_db.Delta.{batch_ts, tombstone_ts}
use ryu_db.Delta.Rewind.{with_ts-rewind, rewind-IsStore}
use ryu_db.Wal.Codec.{Serial, IsLossless, Kind, CommitBatch}
use ryu_db.Wal.Cut.{commit_ts, replay_file-truncate_file}
use ryu_db.Wal.File
use ryu_db.Wal.File.{Wal, Outcome, contents}
use ryu_db.Wal.Handle.{truncate-contents}
use ryu_db.Wal.Log.{Commit}
use ryu_db.Wal.Scan.{next_record_empty}
use ryu_db.Txn
use ryu_db.Txn.{Transaction}
use ryu_db.Engine.{Engine, write_commit, txn_batches, invalidate_all, invalidate_table_caches}
use ryu_db.Engine.Ops.{
  begin_in, rollback_in, restore_in, commit_in, store_insert_in, store_delete_in, finish_txn,
  ignore_ts, restore_found, rewind_to, snapshot, restore_to,
}
use ryu_db.Engine.View.{log_inserts-kept, log_tombs-kept}
use ryu_db.Engine.Durable.{IsDurable, Restores, IsDurable-SameData, invalidate_all-SameData}
use ryu_db.Engine.Commit.{logged, write_commit-IsDurable}

-- Some log agrees with the engine.
abbrev pub Durable : {F C : Type 0} → Serial F → String → Engine F C → Type 0
Durable {F} s p e = (log : List (Commit F)) × IsDurable s p log e

module _ {F C : Type 0} (s : Serial F) (p : String) where
  pub with_txn :
      (e : Engine F C) (txn : Option (Transaction F))
      → Durable s p e
      → Durable s p (record e { txn = txn })
  with_txn e txn h = (
    h.0,
    IsDurable-SameData s p h.0 e (record e { txn = txn })
        (record { same_ts = refl; same_delta = refl; same_wal = refl }) h.1,
  )

  pub invalidated-Durable :
      (e : Engine F C) (table : String)
      → Durable s p e
      → Durable s p (invalidate_table_caches table e)
  unfolding invalidate_table_caches
  invalidated-Durable e table h = (
    h.0,
    IsDurable-SameData s p h.0 e (invalidate_table_caches table e)
        (record { same_ts = refl; same_delta = refl; same_wal = refl }) h.1,
  )

  finish_txn-Durable :
      (out : Result ℕ × Engine F C) → Durable s p out.1 → Durable s p (finish_txn out).1
  unfolding finish_txn
  finish_txn-Durable (ok ts, e) h = with_txn e none h
  finish_txn-Durable (err x, e) h = h

  ignore_ts-Durable :
      (out : Result ℕ × Engine F C) → Durable s p out.1 → Durable s p (ignore_ts out).1
  unfolding ignore_ts
  ignore_ts-Durable (ok ts, e) h = h
  ignore_ts-Durable (err x, e) h = h

module _ {F C : Type 0} (s : Serial F) (p : String) (e : Engine F C) (h : Durable s p e) where
  touched_txn :
      (table : String) (txn : Transaction F)
      → Durable s p (invalidate_table_caches table (record e { txn = some txn }))
  unfolding invalidate_table_caches
  touched_txn table txn = (
    h.0,
    IsDurable-SameData s p h.0 e _ (record { same_ts = refl; same_delta = refl; same_wal = refl })
        h.1,
  )

  invalidated_idle : (ts : List String) → Durable s p (record (invalidate_all ts e) { txn = none })
  invalidated_idle ts =
      let same = invalidate_all-SameData ts e in
      (
        h.0,
        IsDurable-SameData s p h.0 e (record (invalidate_all ts e) { txn = none })
            (record {
              same_ts = same.same_ts;
              same_delta = same.same_delta;
              same_wal = same.same_wal;
            })
            h.1,
      )

  pub begin-Durable : (o : Option (Transaction F)) → Durable s p (begin_in o e).1
  unfolding begin_in
  begin-Durable none = with_txn s p e (some (Txn.fresh e.commit_ts)) h
  begin-Durable (some txn) = h

  pub write_commit-Durable :
      (io : Outcome) (batches : List (CommitBatch F))
      → Restores io
      → Durable s p (write_commit s io batches e).1
  write_commit-Durable io batches fine = (
    logged (write_commit s io batches e).0 batches h.0,
    write_commit-IsDurable s p h.0 e h.1 io batches fine,
  )

  pub rollback-Durable : (o : Option (Transaction F)) → Durable s p (rollback_in o e).1
  unfolding rollback_in
  rollback-Durable none = h
  rollback-Durable (some txn) = invalidated_idle (Txn.tables txn)

  pub snapshot-Durable : (name : String) → Durable s p (snapshot name e)
  unfolding snapshot
  snapshot-Durable name = (
    h.0,
    IsDurable-SameData s p h.0 e (snapshot name e)
        (record { same_ts = refl; same_delta = refl; same_wal = refl }) h.1,
  )

  -- A successful restore leaves the commits at or before the target, in the file and in the store.
  pub rewind_to-IsDurable :
      (lossless : IsLossless s) (target : ℕ)
      → IsDurable s p (keep_if (λ c. leb (commit_ts c) target) h.0) (rewind_to s target e)
  unfolding rewind_to
  rewind_to-IsDurable lossless target =
      IsDurable-SameData s p _ _ _
        (invalidate_all-SameData (Delta.rewind e.delta target).1 (record e {
          delta = (Delta.rewind e.delta target).0;
          commit_ts = target;
          wal = File.truncate s.crc32 target e.wal;
          snapshots = keep_if (λ n. leb n.1 target) e.snapshots;
        }))
        (record {
          at_path = cut.1;
          on_disk =
              (replay_file-truncate_file s lossless target h.0 e.commit_ts (contents e.wal.file) []
                h.1.in_order h.1.on_disk (next_record_empty s.crc32)).0
              ∙ ap ok (
                  sym (
                    cut.0
                    ∙ ap (File.truncate_file s.crc32 target)
                        (sym (append-nil (contents e.wal.file)))));
          in_order = keep_if-IsAscending commit_ts target e.commit_ts h.0 h.1.in_order;
          full =
              All-keep_if (λ c. non_empty c.1 ≡ true) (λ c. leb (commit_ts c) target) h.0 h.1.full;
          inserts = λ t.
              (with_ts-rewind e.delta target t h.1.store.once).0
              ∙ unfold Delta.batches_at_with_ts Delta.batches_with_ts in
                ap (keep_if (λ b. leb (batch_ts b) target)) (h.1.inserts t)
                ∙ sym (log_inserts-kept t target h.0);
          tombs = λ t.
              (with_ts-rewind e.delta target t h.1.store.once).1
              ∙ unfold Delta.tombstones_at_with_ts Delta.tombstones_with_ts in
                ap (keep_if (λ b. leb (tombstone_ts b) target)) (h.1.tombs t)
                ∙ sym (log_tombs-kept t target h.0);
          store = rewind-IsStore e.delta target e.commit_ts h.1.store;
        })
    where
      cut :
          (contents (File.truncate s.crc32 target e.wal).file
            ≡ File.truncate_file s.crc32 target (contents e.wal.file))
          × ((File.truncate s.crc32 target e.wal).path ≡ some p)
      cut = truncate-contents s.crc32 target e.wal h.1.at_path

  pub restore-Durable :
      (lossless : IsLossless s) (target : ℕ) (o : Option (Transaction F))
      → Durable s p (restore_in s target o e).1
  unfolding restore_in
  restore-Durable lossless target (some txn) = h
  restore-Durable lossless target none = elim (Bool-cases (ltb e.commit_ts target)) [
    | inl beyond ↦ rw beyond h
    | inr within ↦
        rw within (keep_if (λ c. leb (commit_ts c) target) h.0, rewind_to-IsDurable lossless target)
  ]

  pub restore_found-Durable :
      (lossless : IsLossless s) (o : Option ℕ) → Durable s p (restore_found s o e).1
  unfolding restore_found restore_to
  restore_found-Durable lossless none = h
  restore_found-Durable lossless (some ts) = restore-Durable lossless ts e.txn

  pub commit-Durable :
      (io : Outcome) (order : List String → List String) (o : Option (Transaction F))
      → Restores io
      → Durable s p (commit_in s io order o e).1
  unfolding commit_in
  commit-Durable io order none fine = h
  commit-Durable io order (some txn) fine =
      finish_txn-Durable s p (write_commit s io (txn_batches order txn) e)
        (write_commit-Durable io (txn_batches order txn) fine)

  pub store_insert-Durable :
      (io : Outcome) (table : String) (frame : F) (o : Option (Transaction F))
      → Restores io
      → Durable s p (store_insert_in s io table frame o e).1
  unfolding store_insert_in
  store_insert-Durable io table frame none fine =
      ignore_ts-Durable s p (write_commit s io ((table, Kind.insert, frame) ∷ []) e)
        (write_commit-Durable io ((table, Kind.insert, frame) ∷ []) fine)
  store_insert-Durable io table frame (some txn) fine =
      touched_txn table (Txn.buffer_append txn table frame)

  pub store_delete-Durable :
      (io : Outcome) (table : String) (frame : F) (o : Option (Transaction F))
      → Restores io
      → Durable s p (store_delete_in s io table frame o e).1
  unfolding store_delete_in
  store_delete-Durable io table frame none fine =
      ignore_ts-Durable s p (write_commit s io ((table, Kind.tombstone, frame) ∷ []) e)
        (write_commit-Durable io ((table, Kind.tombstone, frame) ∷ []) fine)
  store_delete-Durable io table frame (some txn) fine =
      touched_txn table (Txn.tombstone_append txn table frame false)
