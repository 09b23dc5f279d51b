-- ===== src/Tests/Runs.antt =====
-- Runs of the transaction layer of ryudb/exec/executor.py over concrete data.
use ryu_db.Common.{
  ℕ, ◌+◌, ◌≤◌, ◌≡◌, ◌⊎◌, refl, List, [], ◌∷◌, ◌++◌, some, none, ok, take, keep_if, leb, true, false,
  arith,
}
use ryu_db.Wal.Bytes.{pack, to_le, from_le}
use ryu_db.Wal.Codec.{Kind, build_payload, build_record}
use ryu_db.Wal.Cut.{commit_ts}
use ryu_db.Wal.File
use ryu_db.Wal.File.{Outcome, contents, next_record, acquire, open_path}
use ryu_db.Wal.Log.{Commit, log_bytes}
use ryu_db.Wal.Scan.{next_record_empty}
use ryu_db.Engine.{Engine, start, write_commit, load}
use ryu_db.Engine.Commit.{logged, write_commit-IsDurable}
use ryu_db.Engine.Durable.{IsDurable}
use ryu_db.Engine.Ops.{begin, commit, store_insert, rewind_to}
use ryu_db.Engine.Recovery.{start-IsDurable}
use ryu_db.Engine.Steps.{Durable, rewind_to-IsDurable}
use ryu_db.Engine.Reach.{SameViews, Step, Reach, restart-SameViews, crash-atomic}
use ryu_db.Tests.Codec.{codec, codec-IsLossless}
use ryu_db.Tests.Storage.{one_batch, two_batches, record_1, record_1_built}

-- An engine on a new data directory.
abbrev pub first : Engine (List ℕ) ℕ
first = start codec (some "wal") none

abbrev begun : Engine (List ℕ) ℕ
begun = (begin first).1

abbrev filled : Engine (List ℕ) ℕ
filled = (store_insert codec Outcome.written "t" (5 ∷ 6 ∷ []) begun).1

abbrev committed : Engine (List ℕ) ℕ
committed = (commit codec Outcome.written (λ ts. ts) filled).1

-- BEGIN, INSERT, COMMIT.
run_to_committed : Reach codec "wal" first committed
run_to_committed =
    Reach.next
      (Reach.next (Reach.next Reach.here (Step.begins refl))
        (Step.inserts Outcome.written "t" (5 ∷ 6 ∷ []) tt refl))
      (Step.commits Outcome.written (λ ts. ts) tt refl)

restart-SameViews_example :
    SameViews committed (start codec (some "wal") committed.wal.file)
    × ((start {F = List ℕ} {C = ℕ} codec (some "wal") committed.wal.file).commit_ts
        ≤ committed.commit_ts)
restart-SameViews_example =
    restart-SameViews codec codec-IsLossless "wal" committed run_to_committed

first_record : build_record codec (first.commit_ts + 1) one_batch ≡ ok record_1
unfolding start load File.replay
first_record = record_1_built

-- A crash after 10 bytes of the first record.
crash-atomic_example :
    SameViews first (start codec (some "wal") (some (contents first.wal.file ++ take 10 record_1)))
    ⊎ SameViews
        (write_commit codec Outcome.written one_batch first).1
        (start codec (some "wal") (some (contents first.wal.file ++ take 10 record_1)))
crash-atomic_example =
    crash-atomic codec codec-IsLossless "wal" first ("t", Kind.insert, 5 ∷ 6 ∷ []) [] record_1 10
      Reach.here first_record

first-IsDurable : IsDurable codec "wal" [] first
first-IsDurable =
    (start-IsDurable codec codec-IsLossless "wal" [] 0 none [] [] (unfold contents in refl)
      (unfold log_bytes in refl) (next_record_empty codec.crc32) tt tt).0

write_commit-IsDurable_example :
    IsDurable codec "wal"
      (logged (write_commit codec (Outcome.failed 3 true) one_batch first).0 one_batch [])
      (write_commit codec (Outcome.failed 3 true) one_batch first).1
write_commit-IsDurable_example =
    write_commit-IsDurable codec "wal" [] first first-IsDurable (Outcome.failed 3 true) one_batch
      refl

abbrev log_1 : List (Commit (List ℕ))
log_1 = (1, one_batch) ∷ []

log_1_built : log_bytes codec log_1 ≡ ok record_1
unfolding log_bytes
log_1_built = rw record_1_built refl

short : next_record codec.crc32 (34 ∷ 0 ∷ []) ≡ none
unfolding next_record
short = refl

-- One whole record, then the first bytes of a header.
start-IsDurable_example :
    IsDurable codec "wal" log_1
      (start {F = List ℕ} {C = ℕ} codec (some "wal") (some (record_1 ++ 34 ∷ 0 ∷ [])))
    × ((start {F = List ℕ} {C = ℕ} codec (some "wal") (some (record_1 ++ 34 ∷ 0 ∷ []))).commit_ts
        ≤ 1)
start-IsDurable_example =
    start-IsDurable codec codec-IsLossless "wal" log_1 1 (some (record_1 ++ 34 ∷ 0 ∷ [])) record_1
      (34 ∷ 0 ∷ []) (unfold contents in refl) log_1_built short ((tt, omega arith, tt)) (refl, tt)

abbrev written_1 : Engine (List ℕ) ℕ
written_1 = (write_commit codec Outcome.written one_batch first).1

one_log : Durable codec "wal" written_1
one_log = (
  logged (write_commit codec Outcome.written one_batch first).0 one_batch [],
  write_commit-IsDurable codec "wal" [] first first-IsDurable Outcome.written one_batch tt,
)

-- Back to before the first commit.
rewind_to-IsDurable_example :
    IsDurable codec "wal"
      (keep_if (λ c. leb (commit_ts c) 0) one_log.0)
      (rewind_to codec 0 written_1)
rewind_to-IsDurable_example = rewind_to-IsDurable codec "wal" written_1 one_log codec-IsLossless 0

-- A write that failed and whose repair failed too, and a commit after it.
abbrev buried : Engine (List ℕ) ℕ
buried =
    (write_commit codec Outcome.written two_batches
      (write_commit codec (Outcome.failed 8 false) one_batch first).1).1

-- The commit went through, and a restart does not find it behind the torn record.
buried_commit :
    (buried.commit_ts ≡ 2)
    × ((start {F = List ℕ} {C = ℕ} codec (some "wal") buried.wal.file).commit_ts ≡ 0)
unfolding write_commit start load File.write_commit File.replay next_record contents
    File.replay_file build_record build_payload pack to_le from_le
buried_commit = (refl, refl)
