-- ===== src/Engine/Batches.antt =====
-- The batches that COMMIT makes of a transaction's buffers (`_commit` of ryudb/exec/executor.py), table
-- by table.
use ryu_db.Common.{
  ℕ, String, ◌≡◌, refl, ap, ap₂, ◌∙◌, Bool, true, false, List, [], ◌∷◌, ◌++◌, arith, append-nil,
  if◌then◌else◌, eq_iff, ◌=ₛ◌, non_empty,
}
use ryu_db.Common.Dict.{IsSetList, contains}
use ryu_db.Delta.{Batch, Tombstone}
use ryu_db.Txn
use ryu_db.Txn.{Transaction}
use ryu_db.Txn.Tables.{IsTxn, tables-has}
use ryu_db.Wal.Codec.{CommitBatch}
use ryu_db.Wal.Records.{entries}
use ryu_db.Engine.{txn_batches, insert_batches, tombstone_batches, all_inserts, all_tombstones}
use ryu_db.Engine.View.{log_inserts, log_tombs, log_inserts-append, log_tombs-append}
use ryu_db.Merge.{Frames, tag_tombs}
use ryu_db.Merge.Restamp.{stamp}

-- An order in which a set may be iterated over: the same members, each once.
pub record IsOrder (order : List String → List String) : Type 0 where
  pub once : (ks : List String) → IsSetList ks → IsSetList (order ks)
  pub same : (k : String) (ks : List String) → contains k (order ks) ≡ contains k ks

module _ {F R K : Type 0} (f : Frames F R K) (ts : ℕ) (t : String) where
  inserts-insert_batches :
      (table : String) (fs : List F)
      → log_inserts t (entries ts (insert_batches table fs))
        ≡ (if table =ₛ t then stamp f ts fs else [])
  inserts-insert_batches table [] = ground arith
  inserts-insert_batches table (x ∷ fs) = ground (arith, inserts-insert_batches table fs)

  tombs-insert_batches :
      (table : String) (fs : List F) → log_tombs t (entries ts (insert_batches table fs)) ≡ []
  tombs-insert_batches table [] = refl
  tombs-insert_batches table (x ∷ fs) = tombs-insert_batches table fs

  inserts-tombstone_batches :
      (table : String) (fs : List (F × Bool))
      → log_inserts t (entries ts (tombstone_batches table fs)) ≡ []
  inserts-tombstone_batches table [] = refl
  inserts-tombstone_batches table ((x, true) ∷ fs) = inserts-tombstone_batches table fs
  inserts-tombstone_batches table ((x, false) ∷ fs) = inserts-tombstone_batches table fs

  tombs-tombstone_batches :
      (table : String) (fs : List (F × Bool))
      → log_tombs t (entries ts (tombstone_batches table fs))
        ≡ (if table =ₛ t then tag_tombs f ts fs else [])
  tombs-tombstone_batches table [] = ground arith
  tombs-tombstone_batches table ((x, true) ∷ fs) = ground (arith, tombs-tombstone_batches table fs)
  tombs-tombstone_batches table ((x, false) ∷ fs) = ground (arith, tombs-tombstone_batches table fs)

entries-append :
    {F : Type 0} (ts : ℕ) (l l' : List (CommitBatch F))
    → entries ts (l ++ l') ≡ entries ts l ++ entries ts l'
entries-append ts [] l' = refl
entries-append ts ((t, k, x) ∷ l) l' = ap (λ r. (ts, t, k, x) ∷ r) (entries-append ts l l')

module _ {F R K : Type 0} (f : Frames F R K) (ts : ℕ) (t : String) (txn : Transaction F) where
  -- What the batches of `_commit` put into a table, if its name is met once.
  inserts-all_inserts :
      (names : List String)
      → IsSetList names
      → log_inserts t (entries ts (all_inserts txn names))
        ≡ (if contains t names then stamp f ts (Txn.buffer_batches txn t) else [])
  inserts-all_inserts [] h = refl
  inserts-all_inserts (n ∷ names) h = ground (
    arith,
    eq_iff n t,
    entries-append ts (insert_batches n (Txn.buffer_batches txn n)) (all_inserts txn names),
    log_inserts-append t (entries ts (insert_batches n (Txn.buffer_batches txn n)))
        (entries ts (all_inserts txn names)),
    inserts-insert_batches f ts t n (Txn.buffer_batches txn n),
    inserts-all_inserts names h.1,
    append-nil (stamp f ts (Txn.buffer_batches txn t)),
  )

  tombs-all_inserts : (names : List String) → log_tombs t (entries ts (all_inserts txn names)) ≡ []
  tombs-all_inserts [] = refl
  tombs-all_inserts (n ∷ names) =
      ap (log_tombs t)
        (entries-append ts (insert_batches n (Txn.buffer_batches txn n)) (all_inserts txn names))
      ∙ log_tombs-append t (entries ts (insert_batches n (Txn.buffer_batches txn n)))
          (entries ts (all_inserts txn names))
      ∙ ap₂ (λ (x y : List (Tombstone F)). x ++ y)
          (tombs-insert_batches f ts t n (Txn.buffer_batches txn n)) (tombs-all_inserts names)

  inserts-all_tombstones :
      (names : List String) → log_inserts t (entries ts (all_tombstones txn names)) ≡ []
  inserts-all_tombstones [] = refl
  inserts-all_tombstones (n ∷ names) =
      ap (log_inserts t) (
        entries-append ts (tombstone_batches n (Txn.tombstone_batches_with_flag txn n))
          (all_tombstones txn names))
      ∙ log_inserts-append t
          (entries ts (tombstone_batches n (Txn.tombstone_batches_with_flag txn n)))
          (entries ts (all_tombstones txn names))
      ∙ ap₂ (λ (x y : List (Batch F)). x ++ y)
          (inserts-tombstone_batches f ts t n (Txn.tombstone_batches_with_flag txn n))
          (inserts-all_tombstones names)

  tombs-all_tombstones :
      (names : List String)
      → IsSetList names
      → log_tombs t (entries ts (all_tombstones txn names))
        ≡ (if contains t names then tag_tombs f ts (Txn.tombstone_batches_with_flag txn t) else [])
  tombs-all_tombstones [] h = refl
  tombs-all_tombstones (n ∷ names) h = ground (
    arith,
    eq_iff n t,
    entries-append ts (tombstone_batches n (Txn.tombstone_batches_with_flag txn n))
        (all_tombstones txn names),
    log_tombs-append t (entries ts (tombstone_batches n (Txn.tombstone_batches_with_flag txn n)))
        (entries ts (all_tombstones txn names)),
    tombs-tombstone_batches f ts t n (Txn.tombstone_batches_with_flag txn n),
    tombs-all_tombstones names h.1,
    append-nil (tag_tombs f ts (Txn.tombstone_batches_with_flag txn t)),
  )

  if_live :
      (c : Bool) (l : List F)
      → (non_empty l ≡ true → c ≡ true)
      → (if c then stamp f ts l else []) ≡ stamp f ts l
  if_live c [] h = ground arith
  if_live c (x ∷ l) h = rw (h refl)

  if_live_tombs :
      (c : Bool) (l : List (F × Bool))
      → (non_empty l ≡ true → c ≡ true)
      → (if c then tag_tombs f ts l else []) ≡ tag_tombs f ts l
  if_live_tombs c [] h = ground arith
  if_live_tombs c (x ∷ l) h = rw (h refl)

  module _ (order : List String → List String) (fair : IsOrder order) (wf : IsTxn txn) where
    named :
        IsSetList (Txn.tables txn)
        × (contains t (Txn.tables txn) ≡ Txn.has txn t)
        × IsSetList (Txn.tombstone_tables txn)
        × (contains t (Txn.tombstone_tables txn) ≡ Txn.has_tombstone txn t)
    named = tables-has txn t wf

    has_buffered : non_empty (Txn.buffer_batches txn t) ≡ true → Txn.has txn t ≡ true
    unfolding Txn.has Txn.buffer_batches
    has_buffered live = rw live

    has_tombstoned :
        non_empty (Txn.tombstone_batches_with_flag txn t) ≡ true → Txn.has_tombstone txn t ≡ true
    unfolding Txn.has_tombstone Txn.tombstone_batches_with_flag
    has_tombstoned live = live

    -- The buffer of the table, all of it and nothing else, in its order.
    pub inserts-txn_batches :
        log_inserts t (entries ts (txn_batches order txn)) ≡ stamp f ts (Txn.buffer_batches txn t)
    unfolding txn_batches
    inserts-txn_batches =
        ap (log_inserts t) (
          entries-append ts (all_inserts txn (order (Txn.tables txn)))
            (all_tombstones txn (Txn.tombstone_tables txn)))
        ∙ log_inserts-append t (entries ts (all_inserts txn (order (Txn.tables txn))))
            (entries ts (all_tombstones txn (Txn.tombstone_tables txn)))
        ∙ ap₂ (λ (x y : List (Batch F)). x ++ y)
            (inserts-all_inserts (order (Txn.tables txn)) (fair.once (Txn.tables txn) named.0))
            (inserts-all_tombstones (Txn.tombstone_tables txn))
        ∙ append-nil (
            if contains t (order (Txn.tables txn))
            then stamp f ts (Txn.buffer_batches txn t)
            else [])
        ∙ if_live (contains t (order (Txn.tables txn))) (Txn.buffer_batches txn t)
            (λ live. fair.same t (Txn.tables txn) ∙ named.1 ∙ has_buffered live)

    pub tombs-txn_batches :
        log_tombs t (entries ts (txn_batches order txn))
        ≡ tag_tombs f ts (Txn.tombstone_batches_with_flag txn t)
    unfolding txn_batches
    tombs-txn_batches =
        ap (log_tombs t) (
          entries-append ts (all_inserts txn (order (Txn.tables txn)))
            (all_tombstones txn (Txn.tombstone_tables txn)))
        ∙ log_tombs-append t (entries ts (all_inserts txn (order (Txn.tables txn))))
            (entries ts (all_tombstones txn (Txn.tombstone_tables txn)))
        ∙ ap₂ (λ (x y : List (Tombstone F)). x ++ y) (tombs-all_inserts (order (Txn.tables txn)))
            (tombs-all_tombstones (Txn.tombstone_tables txn) named.2)
        ∙ if_live_tombs (contains t (Txn.tombstone_tables txn))
            (Txn.tombstone_batches_with_flag txn t) (λ live. named.3 ∙ has_tombstoned live)
