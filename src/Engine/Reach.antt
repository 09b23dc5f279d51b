-- ===== src/Engine/Reach.antt =====
-- Runs of the transaction layer of ryudb/exec/executor.py: operations, restarts and crashes in any
-- order, and what a restart gives back at any point of such a run.
use ryu_db.Common.{
  ℕ, ◌+◌, ◌≤◌, String, ◌≡◌, refl, sym, ap, ◌∙◌, true, ◌⊎◌, inl, inr, Option, none, some, List, [],
  ◌∷◌, ◌++◌, arith, All-append, ok, length, take, append-nil, non_empty, take_all,
}
use native.Mathlib.Decide.{dec_lt}
use ryu_db.Common.Dict.{lookup}
use ryu_db.Common.Ascending.{snoc-IsAscending}
use ryu_db.Delta
use ryu_db.Wal.Bytes.{Bytes}
use ryu_db.Wal.Codec.{Serial, IsLossless, CommitBatch, build_record}
use ryu_db.Wal.Cut.{commit_ts}
use ryu_db.Wal.File.{Outcome, contents}
use ryu_db.Wal.Log.{Commit, log_bytes, log_bytes-snoc}
use ryu_db.Wal.Records.{build_record-IsRecord}
use ryu_db.Wal.Scan.{next_record_empty, next_record_torn}
use ryu_db.Txn.{Transaction}
use ryu_db.Engine.{Engine, start, write_commit, invalidate_table_caches}
use ryu_db.Engine.Ops.{
  begin, commit, rollback, snapshot, restore, restore_to, store_insert, store_delete,
}
use ryu_db.Engine.Durable.{IsDurable, Restores}
use ryu_db.Engine.Commit.{write_commit-written}
use ryu_db.Engine.Recovery.{start-IsDurable}
use ryu_db.Engine.Steps.{
  Durable, with_txn, invalidated-Durable, begin-Durable, commit-Durable, rollback-Durable,
  snapshot-Durable, restore-Durable, restore_found-Durable, store_insert-Durable,
  store_delete-Durable,
}

-- What the read path gets from the committed store, table by table, is the same.
pub record SameViews {F C : Type 0} (e e' : Engine F C) : Type 0 where
  pub same_batches :
      (t : String) → Delta.batches_with_ts e'.delta t ≡ Delta.batches_with_ts e.delta t
  pub same_tombstones :
      (t : String) → Delta.tombstones_with_ts e'.delta t ≡ Delta.tombstones_with_ts e.delta t

-- One step from `e` to `e'`: an operation, a restart, or a crash that cut the write of a commit after
-- `n` bytes of its record. The write of an operation went through, or it failed and the file got its
-- old length back; a write whose repair failed too is no step. The statements that buffer more than one
-- change, as UPDATE, are steps of their own on the transaction and the caches, and a commit.
pub data Step {F C : Type 0} (s : Serial F) (p : String) (e e' : Engine F C) : Type 0 where
  begins : e' ≡ (begin e).1 → Step s p e e'
  commits :
      (io : Outcome) (order : List String → List String)
      → Restores io
      → e' ≡ (commit s io order e).1
      → Step s p e e'
  rolls_back : e' ≡ (rollback e).1 → Step s p e e'
  snapshots : (name : String) → e' ≡ snapshot name e → Step s p e e'
  restores : (name : String) → e' ≡ (restore s name e).1 → Step s p e e'
  restores_to : (ts : ℕ) → e' ≡ (restore_to s ts e).1 → Step s p e e'
  inserts :
      (io : Outcome) (table : String) (frame : F)
      → Restores io
      → e' ≡ (store_insert s io table frame e).1
      → Step s p e e'
  deletes :
      (io : Outcome) (table : String) (frame : F)
      → Restores io
      → e' ≡ (store_delete s io table frame e).1
      → Step s p e e'
  sets_txn : (txn : Option (Transaction F)) → e' ≡ record e { txn = txn } → Step s p e e'
  invalidates : (table : String) → e' ≡ invalidate_table_caches table e → Step s p e e'
  restarts : e' ≡ start s (some p) e.wal.file → Step s p e e'
  crashes :
      (b : CommitBatch F) (bs : List (CommitBatch F)) (bytes : Bytes) (n : ℕ)
      → build_record s (e.commit_ts + 1) (b ∷ bs) ≡ ok bytes
      → e' ≡ start s (some p) (some (contents e.wal.file ++ take n bytes))
      → Step s p e e'

pub data Reach {F C : Type 0} (s : Serial F) (p : String) (e : Engine F C)
    : Engine F C → Type 0 where
  here : Reach s p e e
  next : {e₁ e₂ : Engine F C} → Reach s p e e₁ → Step s p e₁ e₂ → Reach s p e e₂

module _ {F C : Type 0} (s : Serial F) (lossless : IsLossless s) (p : String) where
  -- A restart over the file of an engine that agrees with its log.
  restart-IsDurable :
      (log : List (Commit F)) (e : Engine F C)
      → IsDurable s p log e
      → IsDurable s p log (start {F = F} {C = C} s (some p) e.wal.file)
        × ((start {F = F} {C = C} s (some p) e.wal.file).commit_ts ≤ e.commit_ts)
  restart-IsDurable log e h =
      start-IsDurable s lossless p log e.commit_ts e.wal.file (contents e.wal.file) []
        (sym (append-nil (contents e.wal.file))) h.on_disk (next_record_empty s.crc32) h.in_order
        h.full

  -- A crash in the write of a commit: the log is as before, or has the whole commit.
  crash-IsDurable :
      (log : List (Commit F)) (e : Engine F C) (b : CommitBatch F) (bs : List (CommitBatch F))
      (bytes : Bytes) (n : ℕ)
      → IsDurable s p log e
      → build_record s (e.commit_ts + 1) (b ∷ bs) ≡ ok bytes
      → IsDurable s p log
          (start {F = F} {C = C} s (some p) (some (contents e.wal.file ++ take n bytes)))
        ⊎ IsDurable s p
            (log ++ (e.commit_ts + 1, b ∷ bs) ∷ [])
            (start {F = F} {C = C} s (some p) (some (contents e.wal.file ++ take n bytes)))
  crash-IsDurable log e b bs bytes n h built = elim (dec_lt n (length bytes)) [
    | yes torn ↦
        inl
          (start-IsDurable s lossless p log e.commit_ts (some (contents e.wal.file ++ take n bytes))
            (contents e.wal.file) (take n bytes) (unfold contents in refl) h.on_disk
            (next_record_torn s (e.commit_ts + 1) (b ∷ bs)
              (build_record-IsRecord s lossless (e.commit_ts + 1) (b ∷ bs) bytes built) n torn)
            h.in_order h.full).0
    | no whole ↦
        inr
          (start-IsDurable s lossless p (log ++ (e.commit_ts + 1, b ∷ bs) ∷ []) (e.commit_ts + 1)
            (some (contents e.wal.file ++ take n bytes)) (contents e.wal.file ++ bytes) []
            (unfold contents in
              ap (λ x. contents e.wal.file ++ x) (take_all n bytes (omega arith))
              ∙ sym (append-nil (contents e.wal.file ++ bytes)))
            (log_bytes-snoc s log (e.commit_ts + 1) (b ∷ bs) (contents e.wal.file) bytes h.on_disk
              built)
            (next_record_empty s.crc32)
            (snoc-IsAscending commit_ts e.commit_ts (e.commit_ts + 1) log (e.commit_ts + 1, b ∷ bs)
              (omega arith) refl h.in_order)
            (All-append (λ c. non_empty c.1 ≡ true) log ((e.commit_ts + 1, b ∷ bs) ∷ []) h.full
              (refl, tt))).0
  ]

  Step-Durable : {e e' : Engine F C} → Step s p e e' → Durable s p e → Durable s p e'
  unfolding begin commit rollback restore restore_to store_insert store_delete
  Step-Durable {e} (begins eq) h = rw eq (begin-Durable s p e h e.txn)
  Step-Durable {e} (commits io order fine eq) h = rw eq (commit-Durable s p e h io order e.txn fine)
  Step-Durable {e} (rolls_back eq) h = rw eq (rollback-Durable s p e h e.txn)
  Step-Durable {e} (snapshots name eq) h = rw eq (snapshot-Durable s p e h name)
  Step-Durable {e} (restores name eq) h =
      rw eq (restore_found-Durable s p e h lossless (lookup name e.snapshots))
  Step-Durable {e} (restores_to ts eq) h = rw eq (restore-Durable s p e h lossless ts e.txn)
  Step-Durable {e} (inserts io table frame fine eq) h =
      rw eq (store_insert-Durable s p e h io table frame e.txn fine)
  Step-Durable {e} (deletes io table frame fine eq) h =
      rw eq (store_delete-Durable s p e h io table frame e.txn fine)
  Step-Durable {e} (sets_txn txn eq) h = rw eq (with_txn s p e txn h)
  Step-Durable {e} (invalidates table eq) h = rw eq (invalidated-Durable s p e table h)
  Step-Durable {e} (restarts eq) h = rw eq (h.0, (restart-IsDurable h.0 e h.1).0)
  Step-Durable {e} (crashes b bs bytes n built eq) h =
      rw eq (elim (crash-IsDurable h.0 e b bs bytes n h.1 built) [
        | inl before ↦ (h.0, before)
        | inr after ↦ (h.0 ++ (e.commit_ts + 1, b ∷ bs) ∷ [], after)
      ])

  Reach-Durable : {e e' : Engine F C} → Durable s p e → Reach s p e e' → Durable s p e'
  Reach-Durable h here = h
  Reach-Durable h (next r st) = Step-Durable st (Reach-Durable h r)

  first-Durable : Durable s p (start {F = F} {C = C} s (some p) none)
  first-Durable = (
    [],
    (start-IsDurable s lossless p [] 0 none [] [] (unfold contents in refl)
        (unfold log_bytes in refl) (next_record_empty s.crc32) tt tt).0,
  )

  same_log-SameViews :
      (log : List (Commit F)) (e e' : Engine F C)
      → IsDurable s p log e
      → IsDurable s p log e'
      → SameViews e e'
  same_log-SameViews log e e' h h' = record {
    same_batches = λ t. h'.inserts t ∙ sym (h.inserts t);
    same_tombstones = λ t. h'.tombs t ∙ sym (h.tombs t);
  }

  -- At any point of a run that began with no log file, and in which the log file got its old length back
  -- after every write that failed, a restart gives back, for every table, the same committed batches and
  -- tombstones under the same timestamps, and a counter that is not ahead.
  pub restart-SameViews :
      (e : Engine F C)
      → Reach s p (start s (some p) none) e
      → SameViews e (start s (some p) e.wal.file)
        × ((start {F = F} {C = C} s (some p) e.wal.file).commit_ts ≤ e.commit_ts)
  restart-SameViews e r =
      let (log, h) = Reach-Durable first-Durable r in
      let (h', le) = restart-IsDurable log e h in
      (same_log-SameViews log e (start s (some p) e.wal.file) h h', le)

  -- After a run in which the log file got its old length back after every write that failed, a crash at
  -- any point of the write of a commit's record is all or nothing: after the restart every table has
  -- either the batches and tombstones from before, or those that the commit would have left.
  pub crash-atomic :
      (e : Engine F C) (b : CommitBatch F) (bs : List (CommitBatch F)) (bytes : Bytes) (n : ℕ)
      → Reach s p (start s (some p) none) e
      → build_record s (e.commit_ts + 1) (b ∷ bs) ≡ ok bytes
      → SameViews e (start s (some p) (some (contents e.wal.file ++ take n bytes)))
        ⊎ SameViews
            (write_commit s Outcome.written (b ∷ bs) e).1
            (start s (some p) (some (contents e.wal.file ++ take n bytes)))
  crash-atomic e b bs bytes n r built =
      let (log, h) = Reach-Durable first-Durable r in
      let crashed : Engine F C = start s (some p) (some (contents e.wal.file ++ take n bytes)) in
      elim (crash-IsDurable log e b bs bytes n h built) [
        | inl before ↦ inl (same_log-SameViews log e crashed h before)
        | inr after ↦ inr (
            same_log-SameViews (log ++ (e.commit_ts + 1, b ∷ bs) ∷ [])
              (write_commit s Outcome.written (b ∷ bs) e).1 crashed
              (write_commit-written s p log e h b bs bytes built) after)
      ]
