-- ===== src/Wal/Records.antt =====
-- One record, written and read back (`_build_record`, `_parse_payload`, and the checks of the loops).
use native.Mathlib.Nat.{mod-lt}
use ryu_db.Common.{
  ℕ, suc, String, ◌%◌, ◌^◌, ◌<◌, ◌≡◌, refl, sym, ap, ◌∙◌, none, some, List, [], ◌∷◌, ◌++◌, arith,
  length, take, drop, Result, ok, err, ◌>>=◌, ltb, ◌==◌, if◌then◌else◌, length-append,
  take-append_left, drop-append_left, append_assoc,
}
use ryu_db.Wal.Bytes.{
  Bytes, to_le, from_le, pack, unpack, length-to_le, from_le-to_le, unpack_from-to_le, unpack-to_le,
}
use ryu_db.Wal.Codec.{
  Serial, IsLossless, Kind, CommitBatch, Entry, kind_by_tag, tag_by_kind, build_batches,
  build_payload, build_record, parse_batches, parse_payload,
}
use ryu_db.Wal.File.{next_record}

-- Inversion of a bind that succeeds.
pub >>=-ok {ℓ κ} :
    {A : Type ℓ} {B : Type κ} (call : Result A) (next : A → Result B) {out : B}
    → (call >>= next) ≡ ok out
    → (got : A) × (call ≡ ok got) × (next got ≡ ok out)
>>=-ok (err raised) next done = cc
>>=-ok (ok got) next done = (got, refl, done)

pub ok-injective {ℓ} : {A : Type ℓ} {a b : A} → ◌≡◌ {A = Result A} (ok a) (ok b) → a ≡ b
ok-injective e = cc

-- The fields of a record on disk.
unfoldable pub frame_record : ℕ → ℕ → Bytes → Bytes
frame_record len crc body = to_le 4 len ++ (to_le 4 crc ++ body)

-- The checks of the loops on any two header fields and what follows them.
module _ (crc32 : Bytes → ℕ) (h₁ h₂ body : Bytes) (four₁ : length h₁ ≡ 4)
    (four₂ : length h₂ ≡ 4) where
  drop-header : drop 8 (h₁ ++ (h₂ ++ body)) ≡ body
  drop-header =
      ap (drop 8) (sym (append_assoc h₁ h₂ body))
      ∙ drop-append_left 8 (h₁ ++ h₂) body (omega (arith, length-append h₁ h₂))

  pub next_record_parts : next_record crc32 (h₁ ++ (h₂ ++ body)) ≡ (
      if ltb (length body) (from_le h₁)
      then none
      else if crc32 (take (from_le h₁) body) % 2 ^ 32 == from_le h₂
      then some (take (from_le h₁) body, drop (from_le h₁) body)
      else none)
  unfolding next_record
  next_record_parts = ground (
    arith,
    length-append h₁ (h₂ ++ body),
    length-append h₂ body,
    take-append_left 4 h₁ (h₂ ++ body) (sym four₁),
    drop-append_left 4 h₁ (h₂ ++ body) (sym four₁),
    take-append_left 4 h₂ body (sym four₂),
    drop-header,
  )

module _ (crc32 : Bytes → ℕ) (len crc : ℕ) (body : Bytes) (h : len < 2 ^ 32)
    (k : crc < 2 ^ 32) where
  pub next_record_fields : next_record crc32 (frame_record len crc body) ≡ (
      if ltb (length body) len
      then none
      else if crc32 (take len body) % 2 ^ 32 == crc
      then some (take len body, drop len body)
      else none)
  unfolding frame_record
  next_record_fields =
      next_record_parts crc32 (to_le 4 len) (to_le 4 crc) body (length-to_le 4 len)
        (length-to_le 4 crc)
      ∙ rw (from_le-to_le 4 len h, from_le-to_le 4 crc k)

tag_by_kind-kind_by_tag : (k : Kind) → tag_by_kind (kind_by_tag k) ≡ ok k
unfolding tag_by_kind kind_by_tag
tag_by_kind-kind_by_tag Kind.insert = refl
tag_by_kind-kind_by_tag Kind.tombstone = refl
tag_by_kind-kind_by_tag Kind.tombstone_update = refl

kind_by_tag-lt : (k : Kind) → kind_by_tag k < 256 ^ 1
unfolding kind_by_tag
kind_by_tag-lt Kind.insert = omega arith
kind_by_tag-lt Kind.tombstone = omega arith
kind_by_tag-lt Kind.tombstone_update = omega arith

module _ {ℓ} {F : Type ℓ} where
  -- What replay returns of a commit.
  abbrev pub entries : ℕ → List (CommitBatch F) → List (Entry F)
  entries ts [] = []
  entries ts ((table, kind, frame) ∷ batches) = (ts, table, kind, frame) ∷ entries ts batches

  -- One batch on disk, before the bytes of the batches that follow it.
  batch_bytes : Serial F → String → Kind → F → Bytes → Bytes
  batch_bytes s table kind frame rest =
      to_le 1 (kind_by_tag kind)
      ++ (to_le 4 (length (s.encode table))
          ++ (s.encode table
              ++ (to_le 4 (length (s.serialize_frame frame)) ++ (s.serialize_frame frame ++ rest))))

  build_batches-inv :
      (s : Serial F) (table : String) (kind : Kind) (frame : F) (batches : List (CommitBatch F))
      (body : Bytes)
      → build_batches s ((table, kind, frame) ∷ batches) ≡ ok body
      → (rest : Bytes) × (build_batches s batches ≡ ok rest)
        × (length (s.encode table) < 256 ^ 4)
        × (length (s.serialize_frame frame) < 256 ^ 4)
        × (body ≡ batch_bytes s table kind frame rest)
  unfolding build_batches pack batch_bytes
  build_batches-inv s table kind frame batches body h = ground arith

module _ {ℓ} {F : Type ℓ} (s : Serial F) (lossless : IsLossless s) (ts : ℕ) where
  parse_batches-bytes :
      (table : String) (kind : Kind) (frame : F) (n : ℕ) (rest : Bytes) (out : List (Entry F))
      → length (s.encode table) < 256 ^ 4
      → length (s.serialize_frame frame) < 256 ^ 4
      → parse_batches s ts n rest ≡ ok out
      → parse_batches s ts (suc n) (batch_bytes s table kind frame rest)
        ≡ ok ((ts, table, kind, frame) ∷ out)
  unfolding parse_batches batch_bytes
  parse_batches-bytes table kind frame n rest out h k e = simp (
    unpack_from-to_le 1 (kind_by_tag kind) _ (kind_by_tag-lt kind),
    unpack_from-to_le 4 (length (s.encode table)) _ h,
    take-append_left (length (s.encode table)) (s.encode table) _ refl,
    drop-append_left (length (s.encode table)) (s.encode table) _ refl,
    lossless.decode-encode table,
    unpack_from-to_le 4 (length (s.serialize_frame frame)) _ k,
    take-append_left (length (s.serialize_frame frame)) (s.serialize_frame frame) rest refl,
    drop-append_left (length (s.serialize_frame frame)) (s.serialize_frame frame) rest refl,
    tag_by_kind-kind_by_tag kind,
    lossless.deserialize-serialize frame,
    e,
  )

  parse_batches-build :
      (batches : List (CommitBatch F)) (body : Bytes)
      → build_batches s batches ≡ ok body
      → parse_batches s ts (length batches) body ≡ ok (entries ts batches)
  unfolding parse_batches
  parse_batches-build [] body h = refl
  parse_batches-build ((table, kind, frame) ∷ batches) body h =
      let (rest, built, name_fits, arrow_fits, shape) =
        build_batches-inv s table kind frame batches body h in
      rw shape (
        parse_batches-bytes table kind frame (length batches) rest (entries ts batches) name_fits
          arrow_fits (parse_batches-build batches rest built))

  build_payload-inv :
      (batches : List (CommitBatch F)) (payload : Bytes)
      → build_payload s ts batches ≡ ok payload
      → (body : Bytes) × (build_batches s batches ≡ ok body)
        × (ts < 256 ^ 8)
        × (length batches < 256 ^ 4)
        × (payload ≡ to_le 8 ts ++ (to_le 4 (length batches) ++ body))
  unfolding build_payload pack
  build_payload-inv batches payload h = ground arith

  -- A commit's payload parses into its batches, under its timestamp.
  pub parse_payload-build :
      (batches : List (CommitBatch F)) (payload : Bytes)
      → build_payload s ts batches ≡ ok payload
      → (parse_payload s payload ≡ ok (entries ts batches)) × (unpack 8 (take 8 payload) ≡ ok ts)
  unfolding parse_payload
  parse_payload-build batches payload h =
      let (body, built, ts_fits, n_fits, shape) = build_payload-inv batches payload h in
      (
        rw shape (
            simp (
              unpack_from-to_le 8 ts (to_le 4 (length batches) ++ body) ts_fits,
              unpack_from-to_le 4 (length batches) body n_fits,
              parse_batches-build batches body built,
            )),
        rw shape (
            rw
              (take-append_left 8 (to_le 8 ts) (to_le 4 (length batches) ++ body)
                (sym (length-to_le 8 ts)))
              (unpack-to_le 8 ts ts_fits)),
      )

-- What a built record is on disk, with the payload that the loops read out of it.
pub record IsRecord {ℓ} {F : Type ℓ} (s : Serial F) (ts : ℕ) (batches : List (CommitBatch F))
    (bytes : Bytes) : Type ℓ where
  pub payload : Bytes
  pub crc : ℕ
  pub shape : bytes ≡ frame_record (length payload) crc payload
  pub len_fits : length payload < 2 ^ 32
  pub crc_fits : crc < 2 ^ 32
  pub crc_matches : s.crc32 payload % 2 ^ 32 ≡ crc
  pub parses : parse_payload s payload ≡ ok (entries ts batches)
  pub stamped : unpack 8 (take 8 payload) ≡ ok ts

module _ {ℓ} {F : Type ℓ} (s : Serial F) (lossless : IsLossless s) where
  build_record-inv :
      (ts : ℕ) (batches : List (CommitBatch F)) (bytes : Bytes)
      → build_record s ts batches ≡ ok bytes
      → (payload : Bytes) × (build_payload s ts batches ≡ ok payload)
        × (length payload < 2 ^ 32)
        × (bytes ≡ frame_record (length payload) (s.crc32 payload % 2 ^ 32) payload)
  unfolding build_record pack frame_record
  build_record-inv ts batches bytes h = ground arith

  pub build_record-IsRecord :
      (ts : ℕ) (batches : List (CommitBatch F)) (bytes : Bytes)
      → build_record s ts batches ≡ ok bytes
      → IsRecord s ts batches bytes
  build_record-IsRecord ts batches bytes h =
      let (payload, built, fits, shape) = build_record-inv ts batches bytes h in
      record {
        payload = payload;
        crc = s.crc32 payload % 2 ^ 32;
        shape = shape;
        len_fits = fits;
        crc_fits = mod-lt (s.crc32 payload) (omega arith);
        crc_matches = refl;
        parses = (parse_payload-build s lossless ts batches payload built).0;
        stamped = (parse_payload-build s lossless ts batches payload built).1;
      }
