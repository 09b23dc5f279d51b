-- ===== src/Tests/Reading.antt =====
-- The read path (`_merge_delta` of ryudb/exec/executor.py) at concrete rows: a row is a number, and its
-- last digit is its key. A left merge turns the order of its rows round.
use ryu_db.Common.{
  ℕ, ◌%◌, ◌≡◌, refl, true, false, not, List, [], ◌∷◌, ◌++◌, some, none, map, keep_if, ok, arith,
  ◌==◌, ==_iff,
}
use mathlib.Core.List.{Perm, reverse, reverse_perm}
use ryu_db.Delta
use ryu_db.Delta.{DeltaStore, Batch, Tombstone}
use ryu_db.Delta.Invariant.{IsStore, append-IsStore, empty-IsStore}
use ryu_db.Txn
use ryu_db.Txn.{Transaction}
use ryu_db.Wal.File
use ryu_db.Wal.File.{Outcome, acquire, write_record, contents}
use ryu_db.Wal.Codec.{build_record, build_payload, build_batches, kind_by_tag}
use ryu_db.Wal.Bytes.{pack, to_le}
use ryu_db.Engine.{Engine, write_commit, next_commit_ts, finish_commit, txn_batches}
use ryu_db.Engine.Ops.{commit, commit_in, finish_txn}
use ryu_db.Engine.Batches.{IsOrder}
use ryu_db.Engine.Visible.{commit-visible}
use ryu_db.Merge.{Frames, ins_inf, merge_parts, tag_tombs, merge_lists, merge_delta}
use ryu_db.Merge.Keep.{IsKeyed, is_removed, merge_lists-is_removed}
use ryu_db.Merge.Restamp.{stamp, merge_lists_restamp}
use ryu_db.Tests.Codec.{codec}
use ryu_db.Tests.Storage.{record_1}
use ryu_db.Tests.Deltas.{txn, txn-IsTxn}

abbrev digits : Frames (List ℕ) ℕ ℕ
digits = record {
  rows = λ f. f;
  keys = λ f. f;
  key = λ r. r % 10;
  key_eq = λ a b. a == b;
  join_order = λ g l. reverse l;
}

digits-IsKeyed : IsKeyed digits
digits-IsKeyed = record { key_eq_iff = ==_iff; join_order-Perm = λ g l. reverse_perm l }

-- Row 5 is deleted at 2, row 6 is updated to 16 in the transaction.
merge_lists-is_removed_example :
    Perm
      (merge_lists digits true
        (4 ∷ 5 ∷ 6 ∷ [])
        ((1, 15 ∷ []) ∷ [])
        ((16 ∷ []) ∷ [])
        ((2, 5 ∷ [], false) ∷ [])
        ((6 ∷ [], true) ∷ []))
      (map
        (λ x. x.1)
        (keep_if
          (λ x. not (
            is_removed digits
              (((2, 5 ∷ [], false) ∷ []) ++ tag_tombs digits ins_inf ((6 ∷ [], true) ∷ []))
              x))
          (merge_parts digits (4 ∷ 5 ∷ 6 ∷ []) ((1, 15 ∷ []) ∷ []) ((16 ∷ []) ∷ []))))
merge_lists-is_removed_example =
    merge_lists-is_removed digits digits-IsKeyed (4 ∷ 5 ∷ 6 ∷ []) ((1, 15 ∷ []) ∷ [])
      ((16 ∷ []) ∷ []) ((2, 5 ∷ [], false) ∷ []) ((6 ∷ [], true) ∷ [])

merged_rows :
    merge_lists digits true
      (4 ∷ 5 ∷ 6 ∷ [])
      ((1, 15 ∷ []) ∷ [])
      ((16 ∷ []) ∷ [])
      ((2, 5 ∷ [], false) ∷ [])
      ((6 ∷ [], true) ∷ [])
    ≡ 4 ∷ 16 ∷ []
unfolding merge_lists
merged_rows = refl

merge_lists_restamp_example :
    Perm
      (merge_lists digits true
        (4 ∷ 6 ∷ [])
        ([] ++ stamp digits 3 ((16 ∷ []) ∷ []))
        []
        (((2, 5 ∷ [], false) ∷ []) ++ tag_tombs digits 3 ((6 ∷ [], true) ∷ []))
        [])
      (merge_lists digits true
        (4 ∷ 6 ∷ [])
        []
        ((16 ∷ []) ∷ [])
        ((2, 5 ∷ [], false) ∷ [])
        ((6 ∷ [], true) ∷ []))
merge_lists_restamp_example =
    merge_lists_restamp digits digits-IsKeyed 2 3 (4 ∷ 6 ∷ []) [] ((16 ∷ []) ∷ [])
      ((2, 5 ∷ [], false) ∷ []) ((6 ∷ [], true) ∷ []) tt (omega arith, tt) (omega arith)
      (omega arith)

abbrev delta : DeltaStore (List ℕ)
delta = Delta.append Delta.empty "t" (5 ∷ []) 1

delta-IsStore : IsStore 1 delta
delta-IsStore = append-IsStore 0 Delta.empty "t" (5 ∷ []) 1 (omega arith) (empty-IsStore 0)

-- The transaction has deleted the row with key 5 and then inserted 25.
abbrev deleter : Transaction (List ℕ)
deleter = Txn.buffer_append (Txn.tombstone_append (Txn.fresh 1) "t" (5 ∷ []) false) "t" (25 ∷ [])

-- The row 25 is not read.
reinserted_rows : merge_delta digits true (4 ∷ []) delta (some deleter) "t" ≡ 4 ∷ []
unfolding merge_delta Delta.append Txn.buffer_append Txn.tombstone_append Delta.batches_at_with_ts
    Delta.tombstones_at_with_ts Txn.buffer_batches Txn.tombstone_batches_with_flag
reinserted_rows = refl

abbrev engine : Engine (List ℕ) ℕ
engine = record {
  commit_ts = 1;
  txn = some txn;
  snapshots = [];
  delta = delta;
  wal = record { path = some "wal"; acquired = true; file = some record_1 };
  code_cache = [];
  pk_cache = [];
}

same-IsOrder : IsOrder (λ ks. ks)
same-IsOrder = record { once = λ ks h. h; same = λ k ks. refl }

goes_through : (commit codec Outcome.written (λ ks. ks) engine).0 ≡ ok tt
unfolding commit commit_in write_commit next_commit_ts finish_commit finish_txn txn_batches
    File.write_commit acquire write_record build_record build_payload build_batches pack to_le
    kind_by_tag Txn.tables Txn.tombstone_tables Txn.buffer_batches Txn.tombstone_batches_with_flag
    Txn.buffer_append Txn.tombstone_append
goes_through = refl

commit-visible_example :
    Perm
      (merge_delta digits true
        (4 ∷ 5 ∷ [])
        (commit codec Outcome.written (λ ks. ks) engine).1.delta
        none
        "t")
      (merge_delta digits true (4 ∷ 5 ∷ []) engine.delta (some txn) "t")
unfolding Txn.tombstone_append Txn.buffer_append
commit-visible_example =
    commit-visible codec digits digits-IsKeyed Outcome.written (λ ks. ks) same-IsOrder engine txn
      (4 ∷ 5 ∷ []) "t" refl txn-IsTxn delta-IsStore refl (omega arith) goes_through
