-- ===== src/Txn.antt =====
-- ryudb/transaction.py: the write buffer of one transaction. A frame is a parameter; a set is a list
-- in which each table stands once.
pub mod Tables
use ryu_db.Common.{ℕ, String, Bool, ◌||◌, List, [], non_empty, map}
use ryu_db.Common.Dict.{Dict, get_list, append_to, live_keys, set_update}

pub record Transaction {ℓ} (F : Type ℓ) : Type ℓ where
  pub snapshot_ts : ℕ
  pub buffer : Dict (List F)
  pub tombs : Dict (List (F × Bool))

-- `Transaction(snapshot_ts=ts)`
abbrev pub fresh {ℓ} : {F : Type ℓ} → ℕ → Transaction F
fresh ts = record { snapshot_ts = ts; buffer = []; tombs = [] }

module _ {ℓ} {F : Type ℓ} where
  unfoldable pub buffer_append : Transaction F → String → F → Transaction F
  buffer_append txn table frame = record txn { buffer = append_to table frame txn.buffer }

  unfoldable pub buffer_batches : Transaction F → String → List F
  buffer_batches txn table = get_list table txn.buffer

  unfoldable pub tombstone_append : Transaction F → String → F → Bool → Transaction F
  tombstone_append txn table frame exclude_same_ts = record txn {
    tombs = append_to table (frame, exclude_same_ts) txn.tombs;
  }

  unfoldable pub tombstone_batches : Transaction F → String → List F
  tombstone_batches txn table = map (λ t. t.0) (get_list table txn.tombs)

  unfoldable pub tombstone_batches_with_flag : Transaction F → String → List (F × Bool)
  tombstone_batches_with_flag txn table = get_list table txn.tombs

  unfoldable pub has_tombstone : Transaction F → String → Bool
  has_tombstone txn table = non_empty (get_list table txn.tombs)

  unfoldable pub tombstone_tables : Transaction F → List String
  tombstone_tables txn = live_keys txn.tombs

  unfoldable pub has : Transaction F → String → Bool
  has txn table = non_empty (get_list table txn.buffer) || non_empty (get_list table txn.tombs)

  unfoldable pub tables : Transaction F → List String
  tables txn = set_update (live_keys txn.buffer) (live_keys txn.tombs)
