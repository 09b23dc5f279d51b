-- ===== src/Wal/Codec.antt =====
-- The record format of ryudb/wal.py (`_build_record`, `_parse_payload`). The UTF-8 codec, the Arrow
-- IPC codec of a frame and `zlib.crc32` are parameters.
use ryu_db.Common.{
  ℕ, zero, suc, ◌%◌, ◌^◌, String, ◌≡◌, List, [], ◌∷◌, ◌++◌, length, take, drop, Result, ok, err,
  key_error, ◌>>=◌, ◌==◌, if◌then◌else◌,
}
use ryu_db.Wal.Bytes.{Bytes, pack, unpack_from}

pub record Serial {ℓ} (F : Type ℓ) : Type ℓ where
  pub encode : String → Bytes
  pub decode : Bytes → Result String
  pub serialize_frame : F → Bytes
  pub deserialize_frame : Bytes → Result F
  pub crc32 : Bytes → ℕ

-- Reading back what was written gives the text and the frame again.
pub record IsLossless {ℓ} {F : Type ℓ} (s : Serial F) : Type ℓ where
  pub decode-encode : (t : String) → s.decode (s.encode t) ≡ ok t
  pub deserialize-serialize : (f : F) → s.deserialize_frame (s.serialize_frame f) ≡ ok f

-- The tags of `_KIND_BY_TAG`.
pub data Kind : Type 0 where
  insert tombstone tombstone_update : Kind

unfoldable pub kind_by_tag : Kind → ℕ
kind_by_tag insert = 0
kind_by_tag tombstone = 1
kind_by_tag tombstone_update = 2

unfoldable pub tag_by_kind : ℕ → Result Kind
tag_by_kind b =
    if b == 0
    then ok insert
    else if b == 1
    then ok tombstone
    else if b == 2
    then ok tombstone_update
    else err key_error

-- A batch of a commit, `(table, kind, frame)`, and what replay returns of it.
abbrev pub CommitBatch {ℓ} : Type ℓ → Type ℓ
CommitBatch F = String × Kind × F

abbrev pub Entry {ℓ} : Type ℓ → Type ℓ
Entry F = ℕ × String × Kind × F

module _ {ℓ} {F : Type ℓ} where
  unfoldable pub build_batches : Serial F → List (CommitBatch F) → Result Bytes
  unfolding kind_by_tag
  build_batches s [] = ok []
  build_batches s ((table, kind, frame) ∷ batches) = do
    let name = s.encode table
    let arrow = s.serialize_frame frame
    kind_byte ← pack 1 (kind_by_tag kind)
    name_len ← pack 4 (length name)
    arrow_len ← pack 4 (length arrow)
    rest ← build_batches s batches
    ok (kind_byte ++ (name_len ++ (name ++ (arrow_len ++ (arrow ++ rest)))))

  unfoldable pub build_payload : Serial F → ℕ → List (CommitBatch F) → Result Bytes
  unfolding build_batches
  build_payload s commit_ts batches = do
    ts ← pack 8 commit_ts
    n_batches ← pack 4 (length batches)
    body ← build_batches s batches
    ok (ts ++ (n_batches ++ body))

  -- Header (payload length and CRC) and payload.
  unfoldable pub build_record : Serial F → ℕ → List (CommitBatch F) → Result Bytes
  build_record s commit_ts batches = do
    payload ← build_payload s commit_ts batches
    payload_len ← pack 4 (length payload)
    crc ← pack 4 (s.crc32 payload % 2 ^ 32)
    ok (payload_len ++ (crc ++ payload))

  -- The loop of `_parse_payload`: `rest` is the payload from `pos` on.
  unfoldable pub parse_batches : Serial F → ℕ → ℕ → Bytes → Result (List (Entry F))
  unfolding tag_by_kind
  parse_batches s commit_ts zero rest = ok []
  parse_batches s commit_ts (suc n) rest = do
    (kind_byte, after_kind) ← unpack_from 1 rest
    (name_len, after_len) ← unpack_from 4 after_kind
    name ← s.decode (take name_len after_len)
    (arrow_len, after_arrow_len) ← unpack_from 4 (drop name_len after_len)
    let arrow_bytes = take arrow_len after_arrow_len
    kind ← tag_by_kind kind_byte
    frame ← s.deserialize_frame arrow_bytes
    out ← parse_batches s commit_ts n (drop arrow_len after_arrow_len)
    ok ((commit_ts, name, kind, frame) ∷ out)

  unfoldable pub parse_payload : Serial F → Bytes → Result (List (Entry F))
  unfolding parse_batches
  parse_payload s payload = do
    (commit_ts, after_ts) ← unpack_from 8 payload
    (n_batches, after_count) ← unpack_from 4 after_ts
    parse_batches s commit_ts n_batches after_count
