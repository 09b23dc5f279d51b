-- ===== src/Wal/Scan.antt =====
-- The loops of `replay` and `truncate` at a whole record, at a torn one, and on arbitrary bytes.
use ryu_db.Common.{
  ℕ, zero, suc, ◌+◌, ◌-◌, ◌<◌, ◌≤◌, ◌≡◌, refl, ap, ◌∙◌, none, some, List, [], ◌∷◌, ◌++◌, arith,
  length, take, Error, ok, err, ltb, if◌then◌else◌, length-append, take-append_left,
  drop-append_left, append_assoc, length-take, lt→ltb,
}
use native.Mathlib.Decide.{dec_lt}
use ryu_db.Wal.Bytes.{Bytes, to_le, unpack, length-to_le}
use ryu_db.Wal.Codec.{Serial, CommitBatch, Entry, parse_payload}
use ryu_db.Wal.File.{next_record, replay_loop, truncate_loop}
use ryu_db.Wal.Records.{frame_record, next_record_fields, IsRecord}

module _ {ℓ} {F : Type ℓ} (s : Serial F) (ts : ℕ) (batches : List (CommitBatch F)) {bytes : Bytes}
    (r : IsRecord s ts batches bytes) where
  frame_record-append :
      (len crc : ℕ) (body rest : Bytes)
      → frame_record len crc body ++ rest ≡ frame_record len crc (body ++ rest)
  unfolding frame_record
  frame_record-append len crc body rest = simp append_assoc

  -- A built record, whatever follows it, is read whole.
  pub next_record-record :
      (rest : Bytes) → next_record s.crc32 (bytes ++ rest) ≡ some (r.payload, rest)
  next_record-record rest =
      ap (λ b. next_record s.crc32 (b ++ rest)) r.shape
      ∙ ap (next_record s.crc32) (frame_record-append (length r.payload) r.crc r.payload rest)
      ∙ next_record_fields s.crc32 (length r.payload) r.crc (r.payload ++ rest) r.len_fits
          r.crc_fits
      ∙ ground (
        arith,
        length-append r.payload rest,
        take-append_left (length r.payload) r.payload rest refl,
        drop-append_left (length r.payload) r.payload rest refl,
        r.crc_matches,
      )

  pub length-record : length bytes ≡ 8 + length r.payload
  unfolding frame_record
  length-record =
      ap length r.shape
      ∙ omega (
        arith,
        length-append (to_le 4 (length r.payload)) (to_le 4 r.crc ++ r.payload),
        length-append (to_le 4 r.crc) r.payload,
        length-to_le 4 (length r.payload),
        length-to_le 4 r.crc,
      )

-- `take` past the first part of a concatenation.
take-append_right {ℓ} :
    {A : Type ℓ} (n m : ℕ) (xs ys : List A)
    → n ≡ length xs + m
    → take n (xs ++ ys) ≡ xs ++ take m ys
take-append_right n m [] ys e = ap (λ k. take k ys) (let e' : n ≡ m = omega arith in e')
take-append_right zero m (x ∷ xs) ys e = absurd (omega arith)
take-append_right (suc n) m (x ∷ xs) ys e =
    ap (λ l. x ∷ l) (take-append_right n m xs ys (omega arith))

take-frame_record :
    (n len crc : ℕ) (body : Bytes)
    → 8 ≤ n
    → take n (frame_record len crc body) ≡ frame_record len crc (take (n - 8) body)
unfolding frame_record
take-frame_record n len crc body h =
    take-append_right n (n - 4) (to_le 4 len) (to_le 4 crc ++ body)
      (omega (arith, length-to_le 4 len))
    ∙ ap (λ l. to_le 4 len ++ l)
        (take-append_right (n - 4) (n - 8) (to_le 4 crc) body (omega (arith, length-to_le 4 crc)))

next_record_short :
    (crc32 : Bytes → ℕ) (rest : Bytes) → length rest < 8 → next_record crc32 rest ≡ none
unfolding next_record
next_record_short crc32 rest h = rw (lt→ltb (length rest) 8 h)

-- A proper prefix of a built record is read as a torn tail.
pub next_record_torn {ℓ} :
    {F : Type ℓ} (s : Serial F) (ts : ℕ) (batches : List (CommitBatch F)) {bytes : Bytes}
    (r : IsRecord s ts batches bytes) (n : ℕ)
    → n < length bytes
    → next_record s.crc32 (take n bytes) ≡ none
next_record_torn s ts batches {bytes} r n h = elim (dec_lt n 8) [
  | yes short ↦ next_record_short s.crc32 (take n bytes) (omega (arith, length-take n bytes))
  | no long ↦
      ap (λ b. next_record s.crc32 (take n b)) r.shape
      ∙ ap (next_record s.crc32)
          (take-frame_record n (length r.payload) r.crc r.payload (omega arith))
      ∙ next_record_fields s.crc32 (length r.payload) r.crc (take (n - 8) r.payload) r.len_fits
          r.crc_fits
      ∙ rw (
          lt→ltb (length (take (n - 8) r.payload)) (length r.payload)
            (omega (arith, length-take (n - 8) r.payload, length-record s ts batches r)))
]

-- The two loops, as equations over any bytes.
pub next_record_empty : (crc32 : Bytes → ℕ) → next_record crc32 [] ≡ none
unfolding next_record
next_record_empty crc32 = refl

module _ {ℓ} {F : Type ℓ} (s : Serial F) where
  pub replay_loop_step :
      (fuel : ℕ) (b rest payload : Bytes) (parsed : List (Entry F)) (offset : ℕ)
      (records : List (Entry F))
      → next_record s.crc32 b ≡ some (payload, rest)
      → parse_payload s payload ≡ ok parsed
      → replay_loop s (suc fuel) b offset records
        ≡ replay_loop s fuel rest (offset + 8 + length payload) (records ++ parsed)
  unfolding replay_loop
  replay_loop_step fuel [] rest payload parsed offset records h k =
      cc (next_record_empty s.crc32, h)
  replay_loop_step fuel (x ∷ b) rest payload parsed offset records h k = rw (h, k, replay_loop)

  pub replay_loop_stop :
      (fuel : ℕ) (b : Bytes) (offset : ℕ) (records : List (Entry F))
      → next_record s.crc32 b ≡ none
      → replay_loop s fuel b offset records ≡ (records, offset)
  unfolding replay_loop
  replay_loop_stop zero b offset records h = refl
  replay_loop_stop (suc fuel) [] offset records h = refl
  replay_loop_stop (suc fuel) (x ∷ b) offset records h = rw (h, replay_loop)

  pub replay_loop_bad :
      (fuel : ℕ) (b rest payload : Bytes) (e : Error) (offset : ℕ) (records : List (Entry F))
      → next_record s.crc32 b ≡ some (payload, rest)
      → parse_payload s payload ≡ err e
      → replay_loop s fuel b offset records ≡ (records, offset)
  unfolding replay_loop
  replay_loop_bad zero b rest payload e offset records h k = refl
  replay_loop_bad (suc fuel) [] rest payload e offset records h k = refl
  replay_loop_bad (suc fuel) (x ∷ b) rest payload e offset records h k = rw (h, k, replay_loop)

module _ (crc32 : Bytes → ℕ) (max_ts : ℕ) where
  pub truncate_loop_step :
      (fuel : ℕ) (b rest payload : Bytes) (ts offset : ℕ)
      → next_record crc32 b ≡ some (payload, rest)
      → unpack 8 (take 8 payload) ≡ ok ts
      → truncate_loop crc32 max_ts (suc fuel) b offset ≡ (
          if ltb max_ts ts
          then offset
          else truncate_loop crc32 max_ts fuel rest (offset + 8 + length payload))
  unfolding truncate_loop
  truncate_loop_step fuel [] rest payload ts offset h k = cc (next_record_empty crc32, h)
  truncate_loop_step fuel (x ∷ b) rest payload ts offset h k = rw (h, k, truncate_loop)

  pub truncate_loop_stop :
      (fuel : ℕ) (b : Bytes) (offset : ℕ)
      → next_record crc32 b ≡ none
      → truncate_loop crc32 max_ts fuel b offset ≡ offset
  unfolding truncate_loop
  truncate_loop_stop zero b offset h = refl
  truncate_loop_stop (suc fuel) [] offset h = refl
  truncate_loop_stop (suc fuel) (x ∷ b) offset h = rw (h, truncate_loop)
