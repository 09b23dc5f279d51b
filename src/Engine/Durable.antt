-- ===== src/Engine/Durable.antt =====
-- The log and the delta store of `Engine` agree: the invariant of ryudb/exec/executor.py that the log
-- file holds the commits whose batches the store holds, and what each operation does to it.
use ryu_db.Common.{
  ℕ, ◌≤◌, String, ◌≡◌, refl, sym, ap, ◌∙◌, true, some, List, [], ◌∷◌, ◌++◌, All, All-append,
  non_empty, ok, append-nil,
}
use ryu_db.Common.Ascending.{IsAscending, snoc-IsAscending, IsAscending-mono}
use ryu_db.Delta
use ryu_db.Delta.{DeltaStore, Batch, Tombstone, batch_ts, tombstone_ts}
use ryu_db.Delta.Invariant.{IsStore, IsStore-mono}
use ryu_db.Wal.Bytes.{Bytes}
use ryu_db.Wal.Codec.{Serial, CommitBatch, build_record}
use ryu_db.Wal.Cut.{commit_ts}
use ryu_db.Wal.File.{Wal, Outcome, contents}
use ryu_db.Wal.Log.{Commit, log_entries, log_entries-append, log_bytes, log_bytes-snoc}
use ryu_db.Wal.Records.{entries}
use ryu_db.Engine.{Engine, apply_batches, invalidate_all, invalidate_table_caches}
use ryu_db.Engine.View.{
  log_inserts, log_tombs, log_inserts-append, log_tombs-append, inserts-apply_batches,
  tombs-apply_batches, apply_batches-IsStore,
}

-- With the log at path `p`, the file holds the records of `log`, in commit order and none empty, and
-- the store holds exactly its batches.
pub record IsDurable {F C : Type 0} (s : Serial F) (p : String) (log : List (Commit F))
    (e : Engine F C) : Type 0 where
  pub at_path : e.wal.path ≡ some p
  pub on_disk : log_bytes s log ≡ ok (contents e.wal.file)
  pub in_order : IsAscending commit_ts e.commit_ts log
  pub full : All (λ c. non_empty c.1 ≡ true) log
  pub inserts : (t : String) → Delta.batches_with_ts e.delta t ≡ log_inserts t (log_entries log)
  pub tombs : (t : String) → Delta.tombstones_with_ts e.delta t ≡ log_tombs t (log_entries log)
  pub store : IsStore e.commit_ts e.delta

-- The file operations of a commit went through, or the file got its old length back.
abbrev pub Restores : Outcome → Type 0
Restores Outcome.written = Unit {0}
Restores (Outcome.failed n restored) = restored ≡ true

module _ {F C : Type 0} where
  -- The fields that the agreement is about are those of `e`.
  pub record SameData (e e' : Engine F C) : Type 0 where
    pub same_ts : e'.commit_ts ≡ e.commit_ts
    pub same_delta : e'.delta ≡ e.delta
    pub same_wal : e'.wal ≡ e.wal

  -- Dropping cache entries changes no other field.
  pub invalidate_all-SameData :
      (ts : List String) (e : Engine F C) → SameData e (invalidate_all ts e)
  unfolding invalidate_all
  invalidate_all-SameData [] e = record { same_ts = refl; same_delta = refl; same_wal = refl }
  invalidate_all-SameData (t ∷ ts) e =
      let h = invalidate_all-SameData ts (invalidate_table_caches t e) in
      record { same_ts = h.same_ts; same_delta = h.same_delta; same_wal = h.same_wal }

  pub IsDurable-SameData :
      (s : Serial F) (p : String) (log : List (Commit F)) (e e' : Engine F C)
      → SameData e e'
      → IsDurable s p log e
      → IsDurable s p log e'
  IsDurable-SameData s p log e e' same h = record {
    at_path = ap (λ (w : Wal). w.path) same.same_wal ∙ h.at_path;
    on_disk = h.on_disk ∙ ap (λ (w : Wal). ok (contents w.file)) (sym same.same_wal);
    in_order = rw (same.same_ts) h.in_order;
    full = h.full;
    inserts = λ t. ap (λ d. Delta.batches_with_ts d t) same.same_delta ∙ h.inserts t;
    tombs = λ t. ap (λ d. Delta.tombstones_with_ts d t) same.same_delta ∙ h.tombs t;
    store = rw (same.same_ts, same.same_delta) h.store;
  }

module _ {F C : Type 0} (s : Serial F) (p : String) (log : List (Commit F)) (e : Engine F C)
    (h : IsDurable s p log e) where
  -- What the invariant says once the batches of a new commit are in the store and, if the commit has
  -- any, their record is in the file.
  pub log-snoc-IsDurable :
      (ts : ℕ) (b : CommitBatch F) (bs : List (CommitBatch F)) (bytes : Bytes) (w : Wal)
      → e.commit_ts ≤ ts
      → build_record s ts (b ∷ bs) ≡ ok bytes
      → w.path ≡ some p
      → contents w.file ≡ contents e.wal.file ++ bytes
      → IsDurable s p
          (log ++ (ts, b ∷ bs) ∷ [])
          (record e { commit_ts = ts; wal = w; delta = apply_batches ts e.delta (b ∷ bs) })
  log-snoc-IsDurable ts b bs bytes w le built at grown = record {
    at_path = at;
    on_disk = log_bytes-snoc s log ts (b ∷ bs) _ bytes h.on_disk built ∙ ap ok (sym grown);
    in_order = snoc-IsAscending commit_ts e.commit_ts ts log (ts, b ∷ bs) le refl h.in_order;
    full = All-append (λ c. non_empty c.1 ≡ true) log ((ts, b ∷ bs) ∷ []) h.full (refl, tt);
    inserts = λ t.
        inserts-apply_batches t ts e.delta (b ∷ bs)
        ∙ ap (λ x. x ++ log_inserts t (entries ts (b ∷ bs))) (h.inserts t)
        ∙ sym (
            ap (log_inserts t) (log_entries-append log ((ts, b ∷ bs) ∷ []))
            ∙ log_inserts-append t (log_entries log) (entries ts (b ∷ bs) ++ [])
            ∙ ap (λ x. log_inserts t (log_entries log) ++ log_inserts t x)
                (append-nil (entries ts (b ∷ bs))));
    tombs = λ t.
        tombs-apply_batches t ts e.delta (b ∷ bs)
        ∙ ap (λ x. x ++ log_tombs t (entries ts (b ∷ bs))) (h.tombs t)
        ∙ sym (
            ap (log_tombs t) (log_entries-append log ((ts, b ∷ bs) ∷ []))
            ∙ log_tombs-append t (log_entries log) (entries ts (b ∷ bs) ++ [])
            ∙ ap (λ x. log_tombs t (log_entries log) ++ log_tombs t x)
                (append-nil (entries ts (b ∷ bs))));
    store = apply_batches-IsStore e.commit_ts ts e.delta (b ∷ bs) le h.store;
  }

  -- The counter moves and the file keeps its contents.
  pub later-IsDurable :
      (ts : ℕ) (w : Wal)
      → e.commit_ts ≤ ts
      → w.path ≡ some p
      → contents w.file ≡ contents e.wal.file
      → IsDurable s p log (record e { commit_ts = ts; wal = w })
  later-IsDurable ts w le at same = record {
    at_path = at;
    on_disk = h.on_disk ∙ ap ok (sym same);
    in_order = IsAscending-mono commit_ts e.commit_ts ts log le h.in_order;
    full = h.full;
    inserts = h.inserts;
    tombs = h.tombs;
    store = IsStore-mono e.commit_ts ts e.delta le h.store;
  }
