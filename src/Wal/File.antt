-- ===== src/Wal/File.antt =====
-- The `WAL` class of ryudb/wal.py over the bytes of its file. The loops walk the bytes from the
-- current offset on; `offset + n > size` is the test that fewer than `n` of them are left.
use ryu_db.Common.{
  ℕ, zero, suc, ◌+◌, ◌%◌, ◌^◌, String, Bool, true, false, Option, none, some, List, [], ◌∷◌, ◌++◌,
  length, take, drop, Result, ok, err, io_error, ltb, ◌==◌, if◌then◌else◌,
}
use ryu_db.Wal.Bytes.{Bytes, from_le, unpack}
use ryu_db.Wal.Codec.{Serial, CommitBatch, Entry, build_record, parse_payload}

-- `path` and whether `_fh` is set, with the file at `path` (`none`: there is none).
pub record Wal : Type 0 where
  pub path : Option String
  pub acquired : Bool
  pub file : Option Bytes

-- The outcome of `write`, `flush` and `fsync`: all done, or an exception with the number of bytes
-- that had reached the file, and whether truncating back to the old length then worked.
pub data Outcome : Type 0 where
  written : Outcome
  failed : ℕ → Bool → Outcome

-- `WAL(path)` in a new process, over the file that is there.
abbrev pub fresh : Option String → Option Bytes → Wal
fresh path file = record { path = path; acquired = false; file = file }

unfoldable pub open_file : Bool → Wal → Option Bytes → Wal
open_file create w (some bytes) = record w { acquired = true }
open_file create w none = if create then record w { acquired = true; file = some [] } else w

unfoldable pub open_path : Bool → Wal → Option String → Wal
unfolding open_file
open_path create w none = w
open_path create w (some path) = open_file create w w.file

-- `_acquire`: whether there is a handle is `acquired` of the result.
unfoldable pub acquire : Bool → Wal → Wal
unfolding open_path
acquire create w = if w.acquired then w else open_path create w w.path

unfoldable pub contents : Option Bytes → Bytes
contents none = []
contents (some bytes) = bytes

-- The part that the loops of `replay` and `truncate` share: header, length and CRC of the record
-- at the offset. The payload, and the bytes after it; `none` where the code breaks off.
unfoldable pub next_record : (Bytes → ℕ) → Bytes → Option (Bytes × Bytes)
next_record crc32 rest =
    if ltb (length rest) 8
    then none
    else let payload_len = from_le (take 4 rest) in
      let crc = from_le (take 4 (drop 4 rest)) in
      let body = drop 8 rest in
      if ltb (length body) payload_len
      then none
      else let payload = take payload_len body in
        if crc32 payload % 2 ^ 32 == crc then some (payload, drop payload_len body) else none

-- One durable append; an exception of the file operations leaves the file as `Outcome` says.
unfoldable pub write_record : Outcome → Bytes → Wal → Result (Unit {0}) × Wal
write_record written bytes w = (ok tt, record w { file = some (contents w.file ++ bytes) })
write_record (failed reached restored) bytes w = (
  err io_error,
  record w {
    file = some (if restored then contents w.file else contents w.file ++ take reached bytes);
  },
)

module _ {ℓ} {F : Type ℓ} where
  -- The loop of `replay`, at most a round for each byte: the records and the last good offset.
  unfoldable pub replay_loop : Serial F → ℕ → Bytes → ℕ → List (Entry F) → List (Entry F) × ℕ
  replay_loop s zero rest offset records = (records, offset)
  replay_loop s (suc fuel) [] offset records = (records, offset)
  replay_loop s (suc fuel) (b ∷ bs) offset records = elim (next_record s.crc32 (b ∷ bs)) [
    | none ↦ (records, offset)
    | some (payload, rest) ↦ elim (parse_payload s payload) [
      | err e ↦ (records, offset)
      | ok parsed ↦ replay_loop s fuel rest (offset + 8 + length payload) (records ++ parsed)
    ]
  ]

  unfoldable pub replay_file : Serial F → Bytes → List (Entry F) × Bytes
  unfolding replay_loop
  replay_file s bytes =
      let (records, offset) = replay_loop s (length bytes) bytes 0 [] in
      (records, if offset == length bytes then bytes else take offset bytes)

  unfoldable pub replay : Serial F → Wal → List (Entry F) × Wal
  unfolding replay_file acquire contents
  replay s w =
      let w' = acquire false w in
      if w'.acquired
      then (let (records, bytes) = replay_file s (contents w'.file) in
          (records, record w' { file = some bytes }))
      else ([], w')

  unfoldable pub write_commit :
      Serial F → Outcome → ℕ → List (CommitBatch F) → Wal → Result (Unit {0}) × Wal
  unfolding acquire write_record contents
  write_commit s io commit_ts [] w = (ok tt, w)
  write_commit s io commit_ts (b ∷ bs) w =
      let w' = acquire true w in
      if w'.acquired
      then elim (build_record s commit_ts (b ∷ bs)) [
        | err e ↦ (err e, w')
        | ok bytes ↦ write_record io bytes w'
      ]
      else (ok tt, w')

-- The loop of `truncate`: the offset up to which the file is kept.
unfoldable pub truncate_loop : (Bytes → ℕ) → ℕ → ℕ → Bytes → ℕ → ℕ
truncate_loop crc32 max_ts zero rest offset = offset
truncate_loop crc32 max_ts (suc fuel) [] offset = offset
truncate_loop crc32 max_ts (suc fuel) (b ∷ bs) offset = elim (next_record crc32 (b ∷ bs)) [
  | none ↦ offset
  | some (payload, rest) ↦ elim (unpack 8 (take 8 payload)) [
    | err e ↦ offset
    | ok commit_ts ↦
        let later = truncate_loop crc32 max_ts fuel rest (offset + 8 + length payload) in
        if ltb max_ts commit_ts then offset else later
  ]
]

unfoldable pub truncate_file : (Bytes → ℕ) → ℕ → Bytes → Bytes
unfolding truncate_loop
truncate_file crc32 max_ts bytes =
    let keep_until = truncate_loop crc32 max_ts (length bytes) bytes 0 in
    if keep_until == length bytes then bytes else take keep_until bytes

unfoldable pub truncate : (Bytes → ℕ) → ℕ → Wal → Wal
unfolding truncate_file acquire contents
truncate crc32 max_ts w =
    let w' = acquire false w in
    if w'.acquired
    then record w' { file = some (truncate_file crc32 max_ts (contents w'.file)) }
    else w'

-- `close`
unfoldable pub close : Wal → Wal
close w = record w { acquired = false }
