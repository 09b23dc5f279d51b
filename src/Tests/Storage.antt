-- ===== src/Tests/Storage.antt =====
-- Records of the write-ahead log (ryudb/wal.py) and the delta store (ryudb/delta.py) at concrete data.
use ryu_db.Common.{ℕ, ◌≡◌, refl, List, [], ◌∷◌, ◌++◌, ok, take, keep_if, leb, arith}
use ryu_db.Wal.Bytes.{Bytes, to_le, pack, unpack}
use ryu_db.Wal.Codec.{
  CommitBatch, Kind, kind_by_tag, build_batches, build_payload, build_record, parse_payload,
}
use ryu_db.Wal.File.{replay_file, truncate_file}
use ryu_db.Wal.Log.{Commit, log_bytes, log_entries}
use ryu_db.Wal.Records.{entries, parse_payload-build}
use ryu_db.Wal.Recovery.{replay_file-torn}
use ryu_db.Wal.Stable.{replay_file-stable}
use ryu_db.Wal.Cut.{commit_ts, replay_file-truncate_file}
use ryu_db.Wal.Scan.{next_record_empty}
use ryu_db.Tests.Codec.{codec, codec-IsLossless}

abbrev pub one_batch : List (CommitBatch (List ℕ))
one_batch = ("t", Kind.insert, 5 ∷ 6 ∷ []) ∷ []

abbrev pub two_batches : List (CommitBatch (List ℕ))
two_batches = ("t", Kind.insert, 7 ∷ []) ∷ ("u", Kind.tombstone, 5 ∷ []) ∷ []

abbrev payload_1 : Bytes
payload_1 =
    1 ∷ 0 ∷ 0 ∷ 0 ∷ 0 ∷ 0 ∷ 0 ∷ 0 ∷ 1 ∷ 0 ∷ 0 ∷ 0 ∷ 0 ∷ 1 ∷ 0 ∷ 0 ∷ 0 ∷ 116 ∷ 2 ∷ 0 ∷ 0 ∷ 0 ∷ 5 ∷ 6
    ∷ []

abbrev pub record_1 : Bytes
record_1 = 24 ∷ 0 ∷ 0 ∷ 0 ∷ 181 ∷ 228 ∷ 228 ∷ 27 ∷ payload_1

abbrev record_2 : Bytes
record_2 =
    34 ∷ 0 ∷ 0 ∷ 0 ∷ 141 ∷ 185 ∷ 116 ∷ 85 ∷ 2 ∷ 0 ∷ 0 ∷ 0 ∷ 0 ∷ 0 ∷ 0 ∷ 0 ∷ 2 ∷ 0 ∷ 0 ∷ 0 ∷ 0 ∷ 1
    ∷ 0 ∷ 0 ∷ 0 ∷ 116 ∷ 1 ∷ 0 ∷ 0 ∷ 0 ∷ 7 ∷ 1 ∷ 1 ∷ 0 ∷ 0 ∷ 0 ∷ 117 ∷ 1 ∷ 0 ∷ 0 ∷ 0 ∷ 5 ∷ []

payload_1_built : build_payload codec 1 one_batch ≡ ok payload_1
unfolding build_payload build_batches pack to_le kind_by_tag
payload_1_built = refl

pub record_1_built : build_record codec 1 one_batch ≡ ok record_1
unfolding build_record build_payload build_batches pack to_le kind_by_tag
record_1_built = refl

record_2_built : build_record codec 2 two_batches ≡ ok record_2
unfolding build_record build_payload build_batches pack to_le kind_by_tag
record_2_built = refl

abbrev log_1 : List (Commit (List ℕ))
log_1 = (1, one_batch) ∷ []

abbrev log_2 : List (Commit (List ℕ))
log_2 = (1, one_batch) ∷ (2, two_batches) ∷ []

log_1_built : log_bytes codec log_1 ≡ ok record_1
unfolding log_bytes build_record build_payload build_batches pack to_le kind_by_tag
log_1_built = refl

log_2_built : log_bytes codec log_2 ≡ ok (record_1 ++ record_2)
unfolding log_bytes build_record build_payload build_batches pack to_le kind_by_tag
log_2_built = refl

parse_payload-build_example :
    (parse_payload codec payload_1 ≡ ok (entries 1 one_batch))
    × (unpack 8 (take 8 payload_1) ≡ ok 1)
parse_payload-build_example =
    parse_payload-build codec codec-IsLossless 1 one_batch payload_1 payload_1_built

-- The second record lacks its last two bytes.
replay_file-torn_example :
    replay_file codec (record_1 ++ take 40 record_2) ≡ (entries 1 one_batch, record_1)
replay_file-torn_example =
    replay_file-torn codec codec-IsLossless log_1 2 two_batches record_1 record_2 40 log_1_built
      record_2_built (omega arith)

replay_file-stable_example :
    ((rest : Bytes) × (take 50 (record_1 ++ record_2)
        ≡ (replay_file codec (take 50 (record_1 ++ record_2))).1 ++ rest))
    × (replay_file codec (replay_file codec (take 50 (record_1 ++ record_2))).1
        ≡ replay_file codec (take 50 (record_1 ++ record_2)))
replay_file-stable_example = replay_file-stable codec (take 50 (record_1 ++ record_2))

replay_file-truncate_file_example :
    (log_bytes codec (keep_if (λ c. leb (commit_ts c) 1) log_2)
      ≡ ok (truncate_file codec.crc32 1 ((record_1 ++ record_2) ++ [])))
    × (replay_file codec (truncate_file codec.crc32 1 ((record_1 ++ record_2) ++ [])) ≡ (
      log_entries (keep_if (λ c. leb (commit_ts c) 1) log_2),
      truncate_file codec.crc32 1 ((record_1 ++ record_2) ++ []),
    ))
replay_file-truncate_file_example =
    replay_file-truncate_file codec codec-IsLossless 1 log_2 2 (record_1 ++ record_2) []
      ((omega arith, tt), omega arith, (tt, omega arith, tt)) log_2_built
      (next_record_empty codec.crc32)
