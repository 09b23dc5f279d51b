-- ===== src/Tests/Deltas.antt =====
-- The delta store (ryudb/delta.py) and the buffer of a transaction (ryudb/transaction.py) at concrete data.
use ryu_db.Common.{ℕ, ◌≡◌, refl, true, List, [], ◌∷◌, arith}
use ryu_db.Delta.{
  DeltaStore, empty, append, append_tombstone, rewind, batches_with_ts, batches_at_with_ts,
  tombstones_with_ts, tombstones_at_with_ts,
}
use ryu_db.Delta.Invariant.{IsStore, empty-IsStore, append-IsStore, append_tombstone-IsStore}
use ryu_db.Delta.Rewind.{with_ts-rewind, rewind-IsStore}
use ryu_db.Txn
use ryu_db.Txn.{Transaction}
use ryu_db.Txn.Tables.{IsTxn, fresh-IsTxn, buffer_append-IsTxn, tombstone_append-IsTxn}

-- An insert at 1, then an UPDATE at 3.
abbrev inserted : DeltaStore (List ℕ)
inserted = append empty "t" (5 ∷ []) 1

abbrev updated : DeltaStore (List ℕ)
updated = append_tombstone (append inserted "t" (15 ∷ []) 3) "t" (5 ∷ []) 3 true

inserted-IsStore : IsStore 1 inserted
inserted-IsStore = append-IsStore 0 empty "t" (5 ∷ []) 1 (omega arith) (empty-IsStore 0)

updated-IsStore : IsStore 3 updated
updated-IsStore =
    append_tombstone-IsStore 3 (append inserted "t" (15 ∷ []) 3) "t" (5 ∷ []) 3 true (omega arith)
      (append-IsStore 1 inserted "t" (15 ∷ []) 3 (omega arith) inserted-IsStore)

with_ts-rewind_example :
    (batches_with_ts (rewind updated 2).0 "t" ≡ batches_at_with_ts updated "t" 2)
    × (tombstones_with_ts (rewind updated 2).0 "t" ≡ tombstones_at_with_ts updated "t" 2)
with_ts-rewind_example = with_ts-rewind updated 2 "t" updated-IsStore.once

-- Only the first insert is left.
rewound_batches : batches_with_ts (rewind updated 2).0 "t" ≡ (1, 5 ∷ []) ∷ []
unfolding rewind batches_with_ts append append_tombstone
rewound_batches = refl

rewind-IsStore_example : IsStore 2 (rewind updated 2).0
rewind-IsStore_example = rewind-IsStore updated 2 3 updated-IsStore

-- A transaction that has updated one row.
abbrev pub txn : Transaction (List ℕ)
txn = Txn.tombstone_append (Txn.buffer_append (Txn.fresh 1) "t" (15 ∷ [])) "t" (5 ∷ []) true

pub txn-IsTxn : IsTxn txn
txn-IsTxn =
    tombstone_append-IsTxn (Txn.buffer_append (Txn.fresh 1) "t" (15 ∷ [])) "t" (5 ∷ []) true
      (buffer_append-IsTxn (Txn.fresh 1) "t" (15 ∷ []) (fresh-IsTxn 1))
