-- ===== src/Wal/Recovery.antt =====
-- Replay after a crash (`WAL.replay`): what comes back from a file of whole records, from one with a
-- torn tail, and from any file at all.
use ryu_db.Common.{
  ℕ, zero, suc, ◌+◌, ◌<◌, ◌≤◌, ◌≡◌, sym, ap, ap₂, ◌∙◌, none, List, [], ◌∷◌, ◌++◌, arith, length,
  take, ok, ◌==◌, if◌then◌else◌, length-append, take-append_left, append_assoc, append-nil,
  take_all,
}
use ryu_db.Wal.Bytes.{Bytes}
use ryu_db.Wal.Codec.{Serial, IsLossless, CommitBatch, Entry, build_record}
use ryu_db.Wal.File.{next_record, replay_loop, replay_file}
use ryu_db.Wal.Records.{entries, build_record-IsRecord}
use ryu_db.Wal.Log.{Commit, log_entries, log_bytes, log_bytes-inv, log_bytes-nil}
use ryu_db.Wal.Scan.{
  next_record-record, length-record, next_record_torn, replay_loop_step, replay_loop_stop,
}

-- The cut at the end of a first part, made only if something follows it.
pub cut_at :
    (offset : ℕ) (b tail : Bytes)
    → offset ≡ length b
    → (if offset == length (b ++ tail) then b ++ tail else take offset (b ++ tail)) ≡ b
cut_at offset b tail e =
    ground
      (arith, length-append b tail, take-append_left offset b tail e, take_all offset (b ++ tail))

module _ {ℓ} {F : Type ℓ} (s : Serial F) (lossless : IsLossless s) where
  replay_loop-log :
      (log : List (Commit F)) (b tail : Bytes) (fuel offset : ℕ) (records : List (Entry F))
      → log_bytes s log ≡ ok b
      → next_record s.crc32 tail ≡ none
      → length (b ++ tail) ≤ fuel
      → replay_loop s fuel (b ++ tail) offset records
        ≡ (records ++ log_entries log, offset + length b)
  replay_loop-log [] b tail fuel offset records h stop fits =
      let e = log_bytes-nil s b h in
      rw e (
        replay_loop_stop s fuel tail offset records stop
        ∙ ap₂ (λ (x : List (Entry F)) (y : ℕ). (x, y)) (sym (append-nil records)) (omega arith))
  replay_loop-log ((ts, batches) ∷ log) b tail zero offset records h stop fits =
      let (bytes, rest, built, h', shape) = log_bytes-inv s ts batches log b h in
      let r = build_record-IsRecord s lossless ts batches bytes built in
      absurd (
        omega (
          arith,
          length-record s ts batches r,
          length-append b tail,
          length-append bytes rest,
          ap length shape,
        ))
  replay_loop-log ((ts, batches) ∷ log) b tail (suc fuel) offset records h stop fits =
      let (bytes, rest, built, h', shape) = log_bytes-inv s ts batches log b h in
      let r = build_record-IsRecord s lossless ts batches bytes built in
      ap (λ x. replay_loop s (suc fuel) (x ++ tail) offset records) shape
      ∙ ap (λ x. replay_loop s (suc fuel) x offset records) (append_assoc bytes rest tail)
      ∙ replay_loop_step s fuel (bytes ++ (rest ++ tail)) (rest ++ tail) r.payload
          (entries ts batches) offset records (next_record-record s ts batches r (rest ++ tail))
          r.parses
      ∙ replay_loop-log log rest tail fuel (offset + 8 + length r.payload)
          (records ++ entries ts batches) h' stop
          (omega (
            arith,
            length-record s ts batches r,
            length-append b tail,
            length-append bytes rest,
            length-append rest tail,
            ap length shape,
          ))
      ∙ ap₂ (λ (x : List (Entry F)) (y : ℕ). (x, y))
          (append_assoc records (entries ts batches) (log_entries log))
          (omega (arith, length-record s ts batches r, length-append bytes rest, ap length shape))

  -- A file of whole records and a tail at which the loop breaks off: the records come back in order,
  -- and the file is cut to them.
  pub replay_file-log :
      (log : List (Commit F)) (b tail : Bytes)
      → log_bytes s log ≡ ok b
      → next_record s.crc32 tail ≡ none
      → replay_file s (b ++ tail) ≡ (log_entries log, b)
  unfolding replay_file
  replay_file-log log b tail h stop =
      ap
        (λ (p : List (Entry F) × ℕ).
          (p.0, if p.1 == length (b ++ tail) then b ++ tail else take p.1 (b ++ tail)))
        (replay_loop-log log b tail (length (b ++ tail)) 0 [] h stop (omega arith))
      ∙ ap (λ (x : Bytes). (log_entries log, x)) (cut_at (0 + length b) b tail (omega arith))

  -- Crash recovery: a file of the records of `log` followed by any proper prefix of one more record
  -- replays to exactly the batches of `log`, in order, and is cut back to those records.
  pub replay_file-torn :
      (log : List (Commit F)) (ts : ℕ) (batches : List (CommitBatch F)) (b bytes : Bytes) (n : ℕ)
      → log_bytes s log ≡ ok b
      → build_record s ts batches ≡ ok bytes
      → n < length bytes
      → replay_file s (b ++ take n bytes) ≡ (log_entries log, b)
  replay_file-torn log ts batches b bytes n h built torn = replay_file-log log b (take n bytes) h (
      next_record_torn s ts batches (build_record-IsRecord s lossless ts batches bytes built) n
        torn)
