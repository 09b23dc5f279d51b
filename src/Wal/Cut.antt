-- ===== src/Wal/Cut.antt =====
-- The durable restore (`WAL.truncate`): which records of a log stay in the file.
use ryu_db.Common.{
  ℕ, zero, suc, ◌+◌, ◌≤◌, ◌≡◌, refl, sym, ap, ◌∙◌, inl, inr, none, List, [], ◌∷◌, ◌++◌, arith,
  length, take, leb, ltb, ok, ◌==◌, if◌then◌else◌, length-append, append_assoc, append-nil,
  Bool-cases, keep_if,
}
use ryu_db.Common.Ascending.{IsAscending, keep_if_beyond, All-trans}
use ryu_db.Wal.Bytes.{Bytes}
use ryu_db.Wal.Codec.{Serial, IsLossless}
use ryu_db.Wal.File.{next_record, replay_file, truncate_loop, truncate_file}
use ryu_db.Wal.Log.{Commit, log_entries, log_bytes, log_bytes-inv, log_bytes-nil}
use ryu_db.Wal.Records.{build_record-IsRecord}
use ryu_db.Wal.Recovery.{cut_at, replay_file-log}
use ryu_db.Wal.Scan.{
  next_record-record, length-record, truncate_loop_step, truncate_loop_stop, next_record_empty,
}

abbrev pub commit_ts {ℓ} : {F : Type ℓ} → Commit F → ℕ
commit_ts c = c.0

module _ {ℓ} {F : Type ℓ} (s : Serial F) (lossless : IsLossless s) (max_ts : ℕ) where
  -- The commits at or before `max_ts`.
  abbrev kept_log : List (Commit F) → List (Commit F)
  kept_log log = keep_if (λ c. leb (commit_ts c) max_ts) log

  -- `b'` is what the loop keeps of `b ++ tail`.
  abbrev Cuts : List (Commit F) → Bytes → Bytes → ℕ → ℕ → Type 0
  Cuts log b tail fuel offset =
      (b' : Bytes) × (rest : Bytes) × (log_bytes s (kept_log log) ≡ ok b')
      × (b ≡ b' ++ rest)
      × (truncate_loop s.crc32 max_ts fuel (b ++ tail) offset ≡ offset + length b')

  truncate_loop-log :
      (log : List (Commit F)) (c : ℕ) (b tail : Bytes) (fuel offset : ℕ)
      → IsAscending commit_ts c log
      → log_bytes s log ≡ ok b
      → next_record s.crc32 tail ≡ none
      → length (b ++ tail) ≤ fuel
      → Cuts log b tail fuel offset
  unfolding log_bytes
  truncate_loop-log [] c b tail fuel offset up h stop fits =
      let e = log_bytes-nil s b h in
      (
        [],
        b,
        refl,
        refl,
        rw e (truncate_loop_stop s.crc32 max_ts fuel tail offset stop ∙ omega arith),
      )
  truncate_loop-log ((ts, batches) ∷ log) c b tail zero offset up h stop fits =
      let (bytes, rest, built, h', shape) = log_bytes-inv s ts batches log b h in
      absurd (
        omega (
          arith,
          length-record s ts batches (build_record-IsRecord s lossless ts batches bytes built),
          length-append b tail,
          length-append bytes rest,
          ap length shape,
        ))
  truncate_loop-log ((ts, batches) ∷ log) c b tail (suc fuel) offset up h stop fits =
      let (bytes, rest, built, h', shape) = log_bytes-inv s ts batches log b h in
      let r = build_record-IsRecord s lossless ts batches bytes built in
      let step : truncate_loop s.crc32 max_ts (suc fuel) (b ++ tail) offset ≡ (
          if ltb max_ts ts
          then offset
          else truncate_loop s.crc32 max_ts fuel (rest ++ tail) (offset + 8 + length r.payload)) =
        ap (λ x. truncate_loop s.crc32 max_ts (suc fuel) (x ++ tail) offset) shape
        ∙ ap (λ x. truncate_loop s.crc32 max_ts (suc fuel) x offset) (append_assoc bytes rest tail)
        ∙ truncate_loop_step s.crc32 max_ts fuel (bytes ++ (rest ++ tail)) (rest ++ tail) r.payload
            ts offset (next_record-record s ts batches r (rest ++ tail)) r.stamped in
      elim (Bool-cases (leb ts max_ts)) [
        | inl kept ↦
            let (b', rest', built', shape', run) =
              truncate_loop-log log c rest tail fuel (offset + 8 + length r.payload) up.2 h' stop (
                omega (
                  arith,
                  length-record s ts batches r,
                  length-append b tail,
                  length-append bytes rest,
                  length-append rest tail,
                  ap length shape,
                )) in
            (
              bytes ++ b',
              rest',
              rw kept (rw built (rw built' refl)),
              shape ∙ ap (λ x. bytes ++ x) shape' ∙ sym (append_assoc bytes b' rest'),
              step
                  ∙ ground (arith, kept, run, length-record s ts batches r, length-append bytes b'),
            )
        | inr late ↦ (
          [],
          b,
          ap (log_bytes s) (
              keep_if_beyond commit_ts max_ts ((ts, batches) ∷ log)
                (ground arith, All-trans commit_ts max_ts ts log (ground arith) up.0)),
          refl,
          step ∙ ground (arith, late),
        )
      ]

  -- On a log in commit order, `truncate(max_ts)` leaves in the file exactly the records at or before
  -- `max_ts`, and drops a torn tail: a replay then returns their batches and changes nothing more.
  pub replay_file-truncate_file :
      (log : List (Commit F)) (c : ℕ) (b tail : Bytes)
      → IsAscending commit_ts c log
      → log_bytes s log ≡ ok b
      → next_record s.crc32 tail ≡ none
      → (log_bytes s (keep_if (λ c. leb (commit_ts c) max_ts) log)
          ≡ ok (truncate_file s.crc32 max_ts (b ++ tail)))
        × (replay_file s (truncate_file s.crc32 max_ts (b ++ tail)) ≡ (
          log_entries (keep_if (λ c. leb (commit_ts c) max_ts) log),
          truncate_file s.crc32 max_ts (b ++ tail),
        ))
  unfolding truncate_file
  replay_file-truncate_file log c b tail up h stop =
      let (b', rest, built, shape, run) =
        truncate_loop-log log c b tail (length (b ++ tail)) 0 up h stop (omega arith) in
      let whole : b ++ tail ≡ b' ++ (rest ++ tail) =
        ap (λ x. x ++ tail) shape ∙ append_assoc b' rest tail in
      let cut : truncate_file s.crc32 max_ts (b ++ tail) ≡ b' =
        ap (λ (k : ℕ). if k == length (b ++ tail) then b ++ tail else take k (b ++ tail)) run
        ∙ ap (λ (x : Bytes). if 0 + length b' == length x then x else take (0 + length b') x) whole
        ∙ cut_at (0 + length b') b' (rest ++ tail) (omega arith) in
      let back : replay_file s b' ≡ (log_entries (kept_log log), b') =
        ap (replay_file s) (sym (append-nil b'))
        ∙ replay_file-log s lossless (kept_log log) b' [] built (next_record_empty s.crc32) in
      (
        built ∙ ap ok (sym cut),
        ap (replay_file s) cut
            ∙ back
            ∙ ap (λ (x : Bytes). (log_entries (kept_log log), x)) (sym cut),
      )
