-- ===== src/Wal/Log.antt =====
-- A log of commits: the bytes that `write_commit` appends for it, and the batches in it.
use ryu_db.Common.{
  ℕ, ◌≡◌, List, [], ◌∷◌, ◌++◌, arith, Result, ok, ◌>>=◌, append-nil, append_assoc, ap, sym, ◌∙◌,
  refl,
}
use ryu_db.Wal.Bytes.{Bytes}
use ryu_db.Wal.Codec.{Serial, CommitBatch, Entry, build_record}
use ryu_db.Wal.Records.{entries}

-- A commit: its timestamp and its batches.
abbrev pub Commit {ℓ} : Type ℓ → Type ℓ
Commit F = ℕ × List (CommitBatch F)

module _ {ℓ} {F : Type ℓ} where
  abbrev pub log_entries : List (Commit F) → List (Entry F)
  log_entries [] = []
  log_entries ((ts, batches) ∷ log) = entries ts batches ++ log_entries log

  unfoldable pub log_bytes : Serial F → List (Commit F) → Result Bytes
  log_bytes s [] = ok []
  log_bytes s ((ts, batches) ∷ log) = do
    bytes ← build_record s ts batches
    rest ← log_bytes s log
    ok (bytes ++ rest)

  pub log_bytes-inv :
      (s : Serial F) (ts : ℕ) (batches : List (CommitBatch F)) (log : List (Commit F)) (b : Bytes)
      → log_bytes s ((ts, batches) ∷ log) ≡ ok b
      → (bytes : Bytes) × (rest : Bytes) × (build_record s ts batches ≡ ok bytes)
        × (log_bytes s log ≡ ok rest)
        × (b ≡ bytes ++ rest)
  unfolding log_bytes
  log_bytes-inv s ts batches log b h = ground arith

  pub log_bytes-nil : (s : Serial F) (b : Bytes) → log_bytes s [] ≡ ok b → b ≡ []
  unfolding log_bytes
  log_bytes-nil s b h = cc

  -- One more commit is one more record at the end of the file.
  pub log_bytes-snoc :
      (s : Serial F) (log : List (Commit F)) (ts : ℕ) (batches : List (CommitBatch F))
      (b bytes : Bytes)
      → log_bytes s log ≡ ok b
      → build_record s ts batches ≡ ok bytes
      → log_bytes s (log ++ (ts, batches) ∷ []) ≡ ok (b ++ bytes)
  unfolding log_bytes
  log_bytes-snoc s [] ts batches b bytes h k =
      ground (arith, k, append-nil bytes, log_bytes-nil s b h)
  log_bytes-snoc s ((t, l) ∷ log) ts batches b bytes h k =
      let (r, rest, built, h', shape) = log_bytes-inv s t l log b h in
      rw built (
        rw (log_bytes-snoc s log ts batches rest bytes h' k)
          (ap ok (sym (append_assoc r rest bytes) ∙ ap (λ x. x ++ bytes) (sym shape))))

  pub log_entries-append :
      (log log' : List (Commit F)) → log_entries (log ++ log') ≡ log_entries log ++ log_entries log'
  log_entries-append [] log' = refl
  log_entries-append ((t, l) ∷ log) log' =
      ap (λ x. entries t l ++ x) (log_entries-append log log')
      ∙ sym (append_assoc (entries t l) (log_entries log) (log_entries log'))
