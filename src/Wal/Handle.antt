-- ===== src/Wal/Handle.antt =====
-- The methods of `WAL` with a data directory, as operations on the bytes of the file (`_acquire`,
-- `replay`, `write_commit`, `truncate`).
use ryu_db.Common.{
  ℕ, ◌++◌, String, ◌≡◌, refl, Bool, true, false, ap, sym, ◌∙◌, some, List, [], ◌∷◌, arith, take, ok,
  err, io_error, Bool-cases, inl, inr, if◌then◌else◌,
}
use ryu_db.Wal.Bytes.{Bytes}
use ryu_db.Wal.Codec.{Serial, CommitBatch, build_record}
use ryu_db.Wal.File.{
  Wal, Outcome, acquire, contents, replay, replay_file, write_record, write_commit, truncate,
  truncate_file, replay_loop, truncate_loop,
}

module _ (w : Wal) {p : String} (at : w.path ≡ some p) where
  pub contents-acquire : (create : Bool) → contents (acquire create w).file ≡ contents w.file
  unfolding acquire contents
  contents-acquire create = ground arith

  pub path-acquire : (create : Bool) → (acquire create w).path ≡ some p
  unfolding acquire
  path-acquire create = ground arith

  pub acquired-acquire : (acquire true w).acquired ≡ true
  unfolding acquire
  acquired-acquire = ground arith

  -- Without a handle there is no file.
  pub contents_unopened : (acquire false w).acquired ≡ false → contents w.file ≡ []
  unfolding acquire contents
  contents_unopened h = ground arith

module _ {ℓ} {F : Type ℓ} (s : Serial F) where
  pub write_commit_cons :
      (io : Outcome) (ts : ℕ) (b : CommitBatch F) (bs : List (CommitBatch F)) (w : Wal) {p : String}
      → w.path ≡ some p
      → write_commit s io ts (b ∷ bs) w ≡ elim (build_record s ts (b ∷ bs)) [
        | err e ↦ (err e, acquire true w)
        | ok bytes ↦ write_record io bytes (acquire true w)
      ]
  unfolding write_commit
  write_commit_cons io ts b bs w at = rw (acquired-acquire w at)

  replay_file_nil : replay_file s [] ≡ ([], [])
  unfolding replay_file replay_loop
  replay_file_nil = refl

  -- `replay` returns the records of the file, and leaves in it what `replay_file` keeps.
  pub replay-contents :
      (w : Wal) {p : String}
      → w.path ≡ some p
      → ((replay s w).0 ≡ (replay_file s (contents w.file)).0)
        × (contents (replay s w).1.file ≡ (replay_file s (contents w.file)).1)
        × ((replay s w).1.path ≡ some p)
  unfolding replay
  replay-contents w at = elim (Bool-cases (acquire false w).acquired) [
    | inl opened ↦ rw opened (
      ap (λ x. (replay_file s x).0) (contents-acquire w at false),
      unfold contents in ap (λ x. (replay_file s x).1) (contents-acquire w at false),
      path-acquire w at false,
    )
    | inr closed ↦
        let none_there = contents_unopened w at closed in
        rw closed (
          sym (ap (λ x. (replay_file s x).0) none_there ∙ ap (λ x. x.0) replay_file_nil),
          contents-acquire w at false
              ∙ none_there
              ∙ sym (ap (λ x. (replay_file s x).1) none_there ∙ ap (λ x. x.1) replay_file_nil),
          path-acquire w at false,
        )
  ]

module _ (crc32 : Bytes → ℕ) (max_ts : ℕ) where
  truncate_file_nil : truncate_file crc32 max_ts [] ≡ []
  unfolding truncate_file truncate_loop
  truncate_file_nil = refl

  pub truncate-contents :
      (w : Wal) {p : String}
      → w.path ≡ some p
      → (contents (truncate crc32 max_ts w).file ≡ truncate_file crc32 max_ts (contents w.file))
        × ((truncate crc32 max_ts w).path ≡ some p)
  unfolding truncate
  truncate-contents w at = elim (Bool-cases (acquire false w).acquired) [
    | inl opened ↦ rw opened (
      unfold contents in ap (truncate_file crc32 max_ts) (contents-acquire w at false),
      path-acquire w at false,
    )
    | inr closed ↦
        let none_there = contents_unopened w at closed in
        rw closed (
          contents-acquire w at false
              ∙ none_there
              ∙ sym (ap (truncate_file crc32 max_ts) none_there ∙ truncate_file_nil),
          path-acquire w at false,
        )
  ]

-- An append that succeeds adds the record's bytes; one that fails and restores the length adds none.
module _ (w : Wal) (bytes : Bytes) where
  pub write_record-written :
      ((write_record Outcome.written bytes w).0 ≡ ok tt)
      × (contents (write_record Outcome.written bytes w).1.file ≡ contents w.file ++ bytes)
      × ((write_record Outcome.written bytes w).1.path ≡ w.path)
  unfolding write_record contents
  write_record-written = (refl, refl, refl)

  pub write_record_failed :
      (n : ℕ) (restored : Bool)
      → ((write_record (Outcome.failed n restored) bytes w).0 ≡ err io_error)
        × (contents (write_record (Outcome.failed n restored) bytes w).1.file
            ≡ (if restored then contents w.file else contents w.file ++ take n bytes))
        × ((write_record (Outcome.failed n restored) bytes w).1.path ≡ w.path)
  unfolding write_record contents
  write_record_failed n restored = (refl, refl, refl)
