-- ===== src/Engine/Commit.antt =====
-- `_write_commit` of ryudb/exec/executor.py and the agreement of log and delta store.
use ryu_db.Common.{
  ℕ, ◌+◌, String, ◌≡◌, refl, ap, ◌∙◌, true, some, List, [], ◌∷◌, ◌++◌, arith, Error, Result, ok,
  err, io_error,
}
use ryu_db.Wal.Bytes.{Bytes}
use ryu_db.Wal.Codec.{Serial, CommitBatch, build_record}
use ryu_db.Wal.File
use ryu_db.Wal.File.{Wal, Outcome, contents, acquire, write_record}
use ryu_db.Wal.Handle.{
  write_commit_cons, contents-acquire, path-acquire, write_record-written, write_record_failed,
}
use ryu_db.Wal.Log.{Commit}
use ryu_db.Engine.{Engine, finish_commit, write_commit, apply_batches, batch_tables, invalidate_all}
use ryu_db.Engine.Durable.{
  IsDurable, Restores, invalidate_all-SameData, IsDurable-SameData, log-snoc-IsDurable,
  later-IsDurable,
}

-- The log after a commit: one commit longer, if it went through and has batches.
abbrev pub logged :
    {F : Type 0} → Result ℕ → List (CommitBatch F) → List (Commit F) → List (Commit F)
logged (ok ts) [] log = log
logged (ok ts) (b ∷ bs) log = log ++ (ts, b ∷ bs) ∷ []
logged (err x) batches log = log

module _ {F C : Type 0} (s : Serial F) (e : Engine F C) where
  write_commit_ok :
      (io : Outcome) (batches : List (CommitBatch F)) (w : Wal)
      → File.write_commit s io (e.commit_ts + 1) batches e.wal ≡ (ok tt, w)
      → write_commit s io batches e ≡ (
        ok (e.commit_ts + 1),
        invalidate_all (batch_tables batches []) (record e {
          commit_ts = e.commit_ts + 1;
          wal = w;
          delta = apply_batches (e.commit_ts + 1) e.delta batches;
        }),
      )
  unfolding write_commit
  write_commit_ok io batches w h =
      ap (finish_commit (e.commit_ts + 1) batches (record e { commit_ts = e.commit_ts + 1 })) h

  write_commit_err :
      (io : Outcome) (batches : List (CommitBatch F)) (w : Wal) (x : Error)
      → File.write_commit s io (e.commit_ts + 1) batches e.wal ≡ (err x, w)
      → write_commit s io batches e ≡ (err x, record e { commit_ts = e.commit_ts + 1; wal = w })
  unfolding write_commit
  write_commit_err io batches w x h =
      ap (finish_commit (e.commit_ts + 1) batches (record e { commit_ts = e.commit_ts + 1 })) h

module _ {F C : Type 0} (s : Serial F) (p : String) (log : List (Commit F)) (e : Engine F C)
    (h : IsDurable s p log e) where
  -- The invariant after `_write_commit`, over the two shapes of its result.
  abbrev After : List (CommitBatch F) → Result ℕ × Engine F C → Type 0
  After batches out = IsDurable s p (logged out.0 batches log) out.1

  After-ok :
      (io : Outcome) (b : CommitBatch F) (bs : List (CommitBatch F)) (bytes : Bytes) (w : Wal)
      → File.write_commit s io (e.commit_ts + 1) (b ∷ bs) e.wal ≡ (ok tt, w)
      → build_record s (e.commit_ts + 1) (b ∷ bs) ≡ ok bytes
      → w.path ≡ some p
      → contents w.file ≡ contents e.wal.file ++ bytes
      → After (b ∷ bs) (write_commit s io (b ∷ bs) e)
  After-ok io b bs bytes w done built at grown = rw (write_commit_ok s e io (b ∷ bs) w done) (
      IsDurable-SameData s p _ _ _
        (invalidate_all-SameData (batch_tables (b ∷ bs) []) (record e {
          commit_ts = e.commit_ts + 1;
          wal = w;
          delta = apply_batches (e.commit_ts + 1) e.delta (b ∷ bs);
        }))
        (log-snoc-IsDurable s p log e h (e.commit_ts + 1) b bs bytes w (omega arith) built at
          grown))

  After-err :
      (io : Outcome) (batches : List (CommitBatch F)) (w : Wal) (x : Error)
      → File.write_commit s io (e.commit_ts + 1) batches e.wal ≡ (err x, w)
      → w.path ≡ some p
      → contents w.file ≡ contents e.wal.file
      → After batches (write_commit s io batches e)
  After-err io batches w x failed at same =
      rw (write_commit_err s e io batches w x failed)
        (later-IsDurable s p log e h (e.commit_ts + 1) w (omega arith) at same)

  After-nothing : (io : Outcome) → After [] (write_commit s io [] e)
  unfolding File.write_commit apply_batches
  After-nothing io = rw (write_commit_ok s e io [] e.wal refl) (
      IsDurable-SameData s p log _ _
        (invalidate_all-SameData (batch_tables [] []) (record e { commit_ts = e.commit_ts + 1 }))
        (later-IsDurable s p log e h (e.commit_ts + 1) e.wal (omega arith) h.at_path refl))

  -- `_write_commit` appends one record for the commit and its batches to the store, or raises and
  -- changes neither, if the write goes through or fails and the file gets its old length back.
  pub write_commit-IsDurable :
      (io : Outcome) (batches : List (CommitBatch F))
      → Restores io
      → IsDurable s p
          (logged (write_commit s io batches e).0 batches log)
          (write_commit s io batches e).1
  write_commit-IsDurable io [] fine = After-nothing io
  write_commit-IsDurable io (b ∷ bs) fine =
      go io fine (build_record s (e.commit_ts + 1) (b ∷ bs)) refl
    where
      w : Wal
      w = acquire true e.wal

      same : contents w.file ≡ contents e.wal.file
      same = contents-acquire e.wal h.at_path true

      go :
          (io : Outcome)
          → Restores io
          → (r : Result Bytes) → build_record s (e.commit_ts + 1) (b ∷ bs) ≡ r
          → After (b ∷ bs) (write_commit s io (b ∷ bs) e)
      go io fine (err x) eq =
          After-err io (b ∷ bs) w x
            (write_commit_cons s io (e.commit_ts + 1) b bs e.wal h.at_path ∙ rw eq)
            (path-acquire e.wal h.at_path true) same
      go Outcome.written fine (ok bytes) eq =
          After-ok Outcome.written b bs bytes (write_record Outcome.written bytes w).1
            (write_commit_cons s Outcome.written (e.commit_ts + 1) b bs e.wal h.at_path
              ∙ rw eq (
                  ap (λ (r : Result (Unit {0})). (r, (write_record Outcome.written bytes w).1))
                    (write_record-written w bytes).0))
            eq ((write_record-written w bytes).2 ∙ path-acquire e.wal h.at_path true)
            ((write_record-written w bytes).1 ∙ ap (λ x. x ++ bytes) same)
      go (Outcome.failed n restored) fine (ok bytes) eq =
          After-err (Outcome.failed n restored) (b ∷ bs)
            (write_record (Outcome.failed n restored) bytes w).1 io_error
            (write_commit_cons s (Outcome.failed n restored) (e.commit_ts + 1) b bs e.wal h.at_path
              ∙ rw eq (
                  ap
                    (λ (r : Result (Unit {0})).
                      (r, (write_record (Outcome.failed n restored) bytes w).1))
                    (write_record_failed w bytes n restored).0))
            ((write_record_failed w bytes n restored).2 ∙ path-acquire e.wal h.at_path true)
            ((write_record_failed w bytes n restored).1 ∙ rw fine same)

  -- A commit whose record could be built and written.
  pub write_commit-written :
      (b : CommitBatch F) (bs : List (CommitBatch F)) (bytes : Bytes)
      → build_record s (e.commit_ts + 1) (b ∷ bs) ≡ ok bytes
      → IsDurable s p
          (log ++ (e.commit_ts + 1, b ∷ bs) ∷ [])
          (write_commit s Outcome.written (b ∷ bs) e).1
  write_commit-written b bs bytes built =
      let w = acquire true e.wal in
      let done =
        write_commit_cons s Outcome.written (e.commit_ts + 1) b bs e.wal h.at_path
        ∙ rw built (
            ap (λ (r : Result (Unit {0})). (r, (write_record Outcome.written bytes w).1))
              (write_record-written w bytes).0) in
      rw
        (← (
          ap (λ out. logged (out.0) (b ∷ bs) log)
            (write_commit_ok s e Outcome.written (b ∷ bs) (write_record Outcome.written bytes w).1
              done)))
        (write_commit-IsDurable Outcome.written (b ∷ bs) tt)
