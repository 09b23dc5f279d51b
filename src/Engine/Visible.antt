-- ===== src/Engine/Visible.antt =====
-- What COMMIT does to the rows that are read (`_commit` and `_merge_delta` of
-- ryudb/exec/executor.py).
use ryu_db.Common.{
  ℕ, ◌+◌, ◌≤◌, ◌<◌, String, ◌≡◌, sym, ap, ap₂, ◌∙◌, true, none, some, List, [], ◌++◌, arith, leb,
  subst, All, All-map, keep_if-All, le→leb, Result, ok, err,
}
use mathlib.Core.List.{Perm}
use ryu_db.Common.Dict.{get_list}
use ryu_db.Common.Ascending.{IsAscending-le}
use ryu_db.Delta
use ryu_db.Delta.{DeltaStore, Batch, Tombstone, batch_ts, tombstone_ts}
use ryu_db.Delta.Invariant.{IsStore}
use ryu_db.Txn
use ryu_db.Txn.{Transaction}
use ryu_db.Txn.Tables.{IsTxn}
use ryu_db.Wal.Codec.{Serial, CommitBatch}
use ryu_db.Wal.File
use ryu_db.Wal.File.{Wal, Outcome}
use ryu_db.Engine.{Engine, write_commit, finish_commit, apply_batches, txn_batches, batch_tables}
use ryu_db.Engine.Durable.{invalidate_all-SameData}
use ryu_db.Engine.Ops.{commit, commit_in, finish_txn}
use ryu_db.Engine.View.{inserts-apply_batches, tombs-apply_batches}
use ryu_db.Merge.{Frames, ins_inf, merge_delta, merge_lists, tag_tombs}
use ryu_db.Merge.Keep.{IsKeyed}
use ryu_db.Merge.Restamp.{stamp, merge_lists_restamp}
use ryu_db.Engine.Batches.{IsOrder, inserts-txn_batches, tombs-txn_batches}

-- A commit that goes through applies its batches to the store, whatever the file operations did.
module _ {F C : Type 0} (s : Serial F) where
  finish_commit-delta :
      (ts : ℕ) (batches : List (CommitBatch F)) (e : Engine F C) (out : Result (Unit {0}) × Wal)
      → (finish_txn (finish_commit ts batches e out)).0 ≡ ok tt
      → (finish_txn (finish_commit ts batches e out)).1.delta ≡ apply_batches ts e.delta batches
  unfolding finish_commit finish_txn
  finish_commit-delta ts batches e (err x, w) h = cc
  finish_commit-delta ts batches e (ok _, w) h =
      (invalidate_all-SameData (batch_tables batches [])
        (record e { wal = w; delta = apply_batches ts e.delta batches })).same_delta

  commit-delta :
      (io : Outcome) (order : List String → List String) (e : Engine F C) (txn : Transaction F)
      → (commit_in s io order (some txn) e).0 ≡ ok tt
      → (commit_in s io order (some txn) e).1.delta
        ≡ apply_batches (e.commit_ts + 1) e.delta (txn_batches order txn)
  unfolding commit_in write_commit
  commit-delta io order e txn =
      finish_commit-delta (e.commit_ts + 1) (txn_batches order txn)
        (record e { commit_ts = e.commit_ts + 1 })
        (File.write_commit s io (e.commit_ts + 1) (txn_batches order txn) e.wal)

  module _ (order : List String → List String) (fair : IsOrder order) (io : Outcome)
      (e : Engine F C) (txn : Transaction F) (t : String) (wf : IsTxn txn)
      (store : IsStore e.commit_ts e.delta) (now : txn.snapshot_ts ≡ e.commit_ts)
      (done : (commit_in s io order (some txn) e).0 ≡ ok tt) where
    -- The transaction's view of the store is all of it.
    inserts_in_view :
        Delta.batches_at_with_ts e.delta t txn.snapshot_ts ≡ Delta.batches_with_ts e.delta t
    unfolding Delta.batches_at_with_ts Delta.batches_with_ts
    inserts_in_view =
        keep_if-All (λ b. leb (batch_ts b) txn.snapshot_ts) (get_list t e.delta.inserts)
          (All-map (λ b. batch_ts b ≤ e.commit_ts) (λ b. leb (batch_ts b) txn.snapshot_ts ≡ true)
            (get_list t e.delta.inserts) (λ b h. le→leb (batch_ts b) txn.snapshot_ts (omega arith))
            (IsAscending-le batch_ts e.commit_ts (get_list t e.delta.inserts) (store.inserts_up t)))

    tombs_in_view :
        Delta.tombstones_at_with_ts e.delta t txn.snapshot_ts ≡ Delta.tombstones_with_ts e.delta t
    unfolding Delta.tombstones_at_with_ts Delta.tombstones_with_ts
    tombs_in_view =
        keep_if-All (λ b. leb (tombstone_ts b) txn.snapshot_ts) (get_list t e.delta.tombs)
          (All-map (λ b. tombstone_ts b ≤ e.commit_ts)
            (λ b. leb (tombstone_ts b) txn.snapshot_ts ≡ true) (get_list t e.delta.tombs)
            (λ b h. le→leb (tombstone_ts b) txn.snapshot_ts (omega arith))
            (IsAscending-le tombstone_ts e.commit_ts (get_list t e.delta.tombs) (store.tombs_up t)))

    inserts_committed :
        {R K : Type 0} (f : Frames F R K)
        → Delta.batches_with_ts (commit_in s io order (some txn) e).1.delta t
          ≡ Delta.batches_with_ts e.delta t ++ stamp f (e.commit_ts + 1) (Txn.buffer_batches txn t)
    inserts_committed f =
        ap (λ d. Delta.batches_with_ts d t) (commit-delta io order e txn done)
        ∙ inserts-apply_batches t (e.commit_ts + 1) e.delta (txn_batches order txn)
        ∙ ap (λ l. Delta.batches_with_ts e.delta t ++ l)
            (inserts-txn_batches f (e.commit_ts + 1) t txn order fair wf)

    tombs_committed :
        {R K : Type 0} (f : Frames F R K)
        → Delta.tombstones_with_ts (commit_in s io order (some txn) e).1.delta t
          ≡ Delta.tombstones_with_ts e.delta t
            ++ tag_tombs f (e.commit_ts + 1) (Txn.tombstone_batches_with_flag txn t)
    tombs_committed f =
        ap (λ d. Delta.tombstones_with_ts d t) (commit-delta io order e txn done)
        ∙ tombs-apply_batches t (e.commit_ts + 1) e.delta (txn_batches order txn)
        ∙ ap (λ l. Delta.tombstones_with_ts e.delta t ++ l)
            (tombs-txn_batches f (e.commit_ts + 1) t txn order fair wf)

    inserts_old : All (λ b. batch_ts b ≤ e.commit_ts) (Delta.batches_with_ts e.delta t)
    unfolding Delta.batches_with_ts
    inserts_old =
        IsAscending-le batch_ts e.commit_ts (get_list t e.delta.inserts) (store.inserts_up t)

    tombs_old : All (λ b. tombstone_ts b ≤ e.commit_ts) (Delta.tombstones_with_ts e.delta t)
    unfolding Delta.tombstones_with_ts
    tombs_old =
        IsAscending-le tombstone_ts e.commit_ts (get_list t e.delta.tombs) (store.tombs_up t)

    commit_in-visible :
        {R K : Type 0} (f : Frames F R K) (keyed : IsKeyed f) (base : List R)
        → e.commit_ts < ins_inf
        → Perm
            (merge_delta f true base (commit_in s io order (some txn) e).1.delta none t)
            (merge_delta f true base e.delta (some txn) t)
    unfolding merge_delta
    commit_in-visible f keyed base small =
        subst (λ l. Perm l (merge_delta f true base e.delta (some txn) t))
          (sym (
            ap₂ (λ i d. merge_lists f true base i [] d []) (inserts_committed f)
              (tombs_committed f)))
          (subst
            (Perm (
              merge_lists f true base
                (Delta.batches_with_ts e.delta t
                  ++ stamp f (e.commit_ts + 1) (Txn.buffer_batches txn t))
                []
                (Delta.tombstones_with_ts e.delta t
                  ++ tag_tombs f (e.commit_ts + 1) (Txn.tombstone_batches_with_flag txn t))
                []))
            (ap₂
              (λ i d.
                merge_lists f true base i (Txn.buffer_batches txn t) d
                  (Txn.tombstone_batches_with_flag txn t))
              (sym inserts_in_view) (sym tombs_in_view))
            (merge_lists_restamp f keyed e.commit_ts (e.commit_ts + 1) base
              (Delta.batches_with_ts e.delta t) (Txn.buffer_batches txn t)
              (Delta.tombstones_with_ts e.delta t) (Txn.tombstone_batches_with_flag txn t)
              inserts_old tombs_old (omega arith) small))

-- Read-your-writes is what gets committed: if COMMIT goes through, a reader outside any transaction gets
-- from each table with a primary key the same rows, each as often, that the transaction read before it,
-- in some order. The transaction began at the current counter, which lies below `_INS_INF`.
pub commit-visible :
    {F R K C : Type 0} (s : Serial F) (f : Frames F R K) (keyed : IsKeyed f) (io : Outcome)
    (order : List String → List String) (fair : IsOrder order) (e : Engine F C)
    (txn : Transaction F) (base : List R) (t : String)
    → e.txn ≡ some txn
    → IsTxn txn
    → IsStore e.commit_ts e.delta
    → txn.snapshot_ts ≡ e.commit_ts
    → e.commit_ts < ins_inf
    → (commit s io order e).0 ≡ ok tt
    → Perm
        (merge_delta f true base (commit s io order e).1.delta none t)
        (merge_delta f true base e.delta (some txn) t)
unfolding commit
commit-visible s f keyed io order fair e txn base t busy wf store now small done =
    subst
      (λ o.
        Perm (merge_delta f true base (commit_in s io order o e).1.delta none t)
          (merge_delta f true base e.delta (some txn) t))
      (sym busy)
      (commit_in-visible s order fair io e txn t wf store now
        (ap (λ o. (commit_in s io order o e).0) (sym busy) ∙ done) f keyed base small)
