-- ===== src/Engine/View.antt =====
-- What the replay loop and the commit loop put into the delta store, table by table: the batches of a
-- list of log entries that belong to the table, in their order.
use ryu_db.Common.{
  ℕ, ◌≤◌, String, ◌≡◌, refl, sym, ap, ◌∙◌, true, false, List, [], ◌∷◌, ◌++◌, arith, leb, keep_if,
  append_assoc, append-nil, keep_if-append, ◌=ₛ◌, if◌then◌else◌,
}
use Prim.Native.Nat.{max}
use ryu_db.Common.Dict.{get_list, get_list-append_to}
use ryu_db.Delta
use ryu_db.Delta.{DeltaStore, Batch, Tombstone, batch_ts, tombstone_ts}
use ryu_db.Delta.Invariant.{HasKeysOnce, IsStore, append-IsStore, append_tombstone-IsStore}
use ryu_db.Wal.Codec.{Kind, CommitBatch, Entry}
use ryu_db.Wal.Log.{Commit, log_entries}
use ryu_db.Wal.Records.{entries}
use ryu_db.Wal.Cut.{commit_ts}
use ryu_db.Engine.{apply_batch, apply_batches, load}

module _ {F : Type 0} where
  -- The insert batches of a table among log entries.
  abbrev pub log_inserts : String → List (Entry F) → List (Batch F)
  log_inserts t [] = []
  log_inserts t ((ts, table, Kind.insert, f) ∷ es) =
      let rest = log_inserts t es in if table =ₛ t then (ts, f) ∷ rest else rest
  log_inserts t ((ts, table, Kind.tombstone, f) ∷ es) = log_inserts t es
  log_inserts t ((ts, table, Kind.tombstone_update, f) ∷ es) = log_inserts t es

  -- The tombstones of a table among log entries, with their `exclude_same_ts`.
  abbrev pub log_tombs : String → List (Entry F) → List (Tombstone F)
  log_tombs t [] = []
  log_tombs t ((ts, table, Kind.insert, f) ∷ es) = log_tombs t es
  log_tombs t ((ts, table, Kind.tombstone, f) ∷ es) =
      let rest = log_tombs t es in if table =ₛ t then (ts, f, false) ∷ rest else rest
  log_tombs t ((ts, table, Kind.tombstone_update, f) ∷ es) =
      let rest = log_tombs t es in if table =ₛ t then (ts, f, true) ∷ rest else rest

  pub log_inserts-append :
      (t : String) (es es' : List (Entry F))
      → log_inserts t (es ++ es') ≡ log_inserts t es ++ log_inserts t es'
  log_inserts-append t [] es' = refl
  log_inserts-append t ((ts, table, Kind.insert, f) ∷ es) es' =
      ground (arith, log_inserts-append t es es')
  log_inserts-append t ((ts, table, Kind.tombstone, f) ∷ es) es' = log_inserts-append t es es'
  log_inserts-append t ((ts, table, Kind.tombstone_update, f) ∷ es) es' =
      log_inserts-append t es es'

  pub log_tombs-append :
      (t : String) (es es' : List (Entry F))
      → log_tombs t (es ++ es') ≡ log_tombs t es ++ log_tombs t es'
  log_tombs-append t [] es' = refl
  log_tombs-append t ((ts, table, Kind.insert, f) ∷ es) es' = log_tombs-append t es es'
  log_tombs-append t ((ts, table, Kind.tombstone, f) ∷ es) es' =
      ground (arith, log_tombs-append t es es')
  log_tombs-append t ((ts, table, Kind.tombstone_update, f) ∷ es) es' =
      ground (arith, log_tombs-append t es es')

  -- One batch goes to the end of its channel of its table.
  inserts-apply_batch :
      (t : String) (d : DeltaStore F) (ts : ℕ) (table : String) (kind : Kind) (f : F)
      → Delta.batches_with_ts (apply_batch d ts table kind f) t
        ≡ Delta.batches_with_ts d t ++ log_inserts t ((ts, table, kind, f) ∷ [])
  unfolding apply_batch Delta.batches_with_ts Delta.append Delta.append_tombstone
  inserts-apply_batch t d ts table Kind.insert f =
      ground
        (arith, get_list-append_to table t (ts, f) d.inserts, append-nil (get_list t d.inserts))
  inserts-apply_batch t d ts table _ f = ground (arith, append-nil (get_list t d.inserts))

  tombs-apply_batch :
      (t : String) (d : DeltaStore F) (ts : ℕ) (table : String) (kind : Kind) (f : F)
      → Delta.tombstones_with_ts (apply_batch d ts table kind f) t
        ≡ Delta.tombstones_with_ts d t ++ log_tombs t ((ts, table, kind, f) ∷ [])
  unfolding apply_batch Delta.tombstones_with_ts Delta.append Delta.append_tombstone
  tombs-apply_batch t d ts table Kind.insert f = ground (arith, append-nil (get_list t d.tombs))
  tombs-apply_batch t d ts table Kind.tombstone f =
      ground
        (arith, get_list-append_to table t (ts, f, false) d.tombs, append-nil (get_list t d.tombs))
  tombs-apply_batch t d ts table Kind.tombstone_update f =
      ground
        (arith, get_list-append_to table t (ts, f, true) d.tombs, append-nil (get_list t d.tombs))

  pub inserts-load :
      (t : String) (d : DeltaStore F) (m : ℕ) (es : List (Entry F))
      → Delta.batches_with_ts (load d m es).0 t ≡ Delta.batches_with_ts d t ++ log_inserts t es
  unfolding load
  inserts-load t d m [] = sym (append-nil (Delta.batches_with_ts d t))
  inserts-load t d m ((ts, table, kind, f) ∷ es) =
      inserts-load t (apply_batch d ts table kind f) (max m ts) es
      ∙ ap (λ x. x ++ log_inserts t es) (inserts-apply_batch t d ts table kind f)
      ∙ append_assoc (Delta.batches_with_ts d t) (log_inserts t ((ts, table, kind, f) ∷ []))
          (log_inserts t es)
      ∙ ap (λ x. Delta.batches_with_ts d t ++ x)
          (sym (log_inserts-append t ((ts, table, kind, f) ∷ []) es))

  pub tombs-load :
      (t : String) (d : DeltaStore F) (m : ℕ) (es : List (Entry F))
      → Delta.tombstones_with_ts (load d m es).0 t ≡ Delta.tombstones_with_ts d t ++ log_tombs t es
  unfolding load
  tombs-load t d m [] = sym (append-nil (Delta.tombstones_with_ts d t))
  tombs-load t d m ((ts, table, kind, f) ∷ es) =
      tombs-load t (apply_batch d ts table kind f) (max m ts) es
      ∙ ap (λ x. x ++ log_tombs t es) (tombs-apply_batch t d ts table kind f)
      ∙ append_assoc (Delta.tombstones_with_ts d t) (log_tombs t ((ts, table, kind, f) ∷ []))
          (log_tombs t es)
      ∙ ap (λ x. Delta.tombstones_with_ts d t ++ x)
          (sym (log_tombs-append t ((ts, table, kind, f) ∷ []) es))

  -- Both loops do the same to the store.
  pub load-entries :
      (ts : ℕ) (d : DeltaStore F) (m : ℕ) (batches : List (CommitBatch F))
      → (load d m (entries ts batches)).0 ≡ apply_batches ts d batches
  unfolding load apply_batches
  load-entries ts d m [] = refl
  load-entries ts d m ((table, kind, f) ∷ batches) =
      load-entries ts (apply_batch d ts table kind f) (max m ts) batches

  pub inserts-apply_batches :
      (t : String) (ts : ℕ) (d : DeltaStore F) (batches : List (CommitBatch F))
      → Delta.batches_with_ts (apply_batches ts d batches) t
        ≡ Delta.batches_with_ts d t ++ log_inserts t (entries ts batches)
  inserts-apply_batches t ts d batches =
      ap (λ x. Delta.batches_with_ts x t) (sym (load-entries ts d 0 batches))
      ∙ inserts-load t d 0 (entries ts batches)

  pub tombs-apply_batches :
      (t : String) (ts : ℕ) (d : DeltaStore F) (batches : List (CommitBatch F))
      → Delta.tombstones_with_ts (apply_batches ts d batches) t
        ≡ Delta.tombstones_with_ts d t ++ log_tombs t (entries ts batches)
  tombs-apply_batches t ts d batches =
      ap (λ x. Delta.tombstones_with_ts x t) (sym (load-entries ts d 0 batches))
      ∙ tombs-load t d 0 (entries ts batches)

  apply_batch-IsStore :
      (c ts : ℕ) (d : DeltaStore F) (table : String) (kind : Kind) (f : F)
      → c ≤ ts
      → IsStore c d
      → IsStore ts (apply_batch d ts table kind f)
  unfolding apply_batch
  apply_batch-IsStore c ts d table Kind.insert f le h = append-IsStore c d table f ts le h
  apply_batch-IsStore c ts d table Kind.tombstone f le h =
      append_tombstone-IsStore c d table f ts false le h
  apply_batch-IsStore c ts d table Kind.tombstone_update f le h =
      append_tombstone-IsStore c d table f ts true le h

  pub apply_batches-IsStore :
      (c ts : ℕ) (d : DeltaStore F) (batches : List (CommitBatch F))
      → c ≤ ts
      → IsStore c d
      → IsStore ts (apply_batches ts d batches)
  unfolding apply_batches
  apply_batches-IsStore c ts d [] le h = Delta.Invariant.IsStore-mono c ts d le h
  apply_batches-IsStore c ts d ((table, kind, f) ∷ batches) le h =
      apply_batches-IsStore ts ts (apply_batch d ts table kind f) batches (omega arith)
        (apply_batch-IsStore c ts d table kind f le h)

module _ {F : Type 0} (t : String) (m : ℕ) where
  -- The entries of one commit are all kept, or all dropped.
  inserts-entries_kept :
      (ts : ℕ) (batches : List (CommitBatch F))
      → keep_if (λ b. leb (batch_ts b) m) (log_inserts t (entries ts batches))
        ≡ (if leb ts m then log_inserts t (entries ts batches) else [])
  inserts-entries_kept ts [] = ground arith
  inserts-entries_kept ts ((table, Kind.insert, f) ∷ batches) =
      ground (arith, inserts-entries_kept ts batches)
  inserts-entries_kept ts ((table, Kind.tombstone, f) ∷ batches) = inserts-entries_kept ts batches
  inserts-entries_kept ts ((table, Kind.tombstone_update, f) ∷ batches) =
      inserts-entries_kept ts batches

  tombs-entries_kept :
      (ts : ℕ) (batches : List (CommitBatch F))
      → keep_if (λ b. leb (tombstone_ts b) m) (log_tombs t (entries ts batches))
        ≡ (if leb ts m then log_tombs t (entries ts batches) else [])
  tombs-entries_kept ts [] = ground arith
  tombs-entries_kept ts ((table, Kind.insert, f) ∷ batches) = tombs-entries_kept ts batches
  tombs-entries_kept ts ((table, Kind.tombstone, f) ∷ batches) =
      ground (arith, tombs-entries_kept ts batches)
  tombs-entries_kept ts ((table, Kind.tombstone_update, f) ∷ batches) =
      ground (arith, tombs-entries_kept ts batches)

  -- Dropping the commits after `m` is dropping the batches after `m`.
  pub log_inserts-kept :
      (log : List (Commit F))
      → log_inserts t (log_entries (keep_if (λ c. leb (commit_ts c) m) log))
        ≡ keep_if (λ b. leb (batch_ts b) m) (log_inserts t (log_entries log))
  log_inserts-kept [] = refl
  log_inserts-kept ((ts, batches) ∷ log) = ground (
    arith,
    log_inserts-kept log,
    log_inserts-append t (entries ts batches) (log_entries log),
    log_inserts-append t (entries ts batches)
        (log_entries (keep_if (λ c. leb (commit_ts c) m) log)),
    keep_if-append (λ b. leb (batch_ts b) m) (log_inserts t (entries ts batches))
        (log_inserts t (log_entries log)),
    inserts-entries_kept ts batches,
  )

  pub log_tombs-kept :
      (log : List (Commit F))
      → log_tombs t (log_entries (keep_if (λ c. leb (commit_ts c) m) log))
        ≡ keep_if (λ b. leb (tombstone_ts b) m) (log_tombs t (log_entries log))
  log_tombs-kept [] = refl
  log_tombs-kept ((ts, batches) ∷ log) = ground (
    arith,
    log_tombs-kept log,
    log_tombs-append t (entries ts batches) (log_entries log),
    log_tombs-append t (entries ts batches) (log_entries (keep_if (λ c. leb (commit_ts c) m) log)),
    keep_if-append (λ b. leb (tombstone_ts b) m) (log_tombs t (entries ts batches))
        (log_tombs t (log_entries log)),
    tombs-entries_kept ts batches,
  )
