-- ===== src/Txn/Tables.antt =====
-- The tables of a transaction (`Transaction.tables`, `has`, `tombstone_tables`), and the well-formed
-- buffer.
use ryu_db.Common.{ℕ, String, ◌≡◌, Bool, arith}
use ryu_db.Common.Dict.{
  IsDict, IsSetList, contains, live_keys, insert-IsDict, contains-set_update, contains-live_keys,
  set_update-IsSetList, live_keys-IsSetList,
}
use ryu_db.Txn.{
  Transaction, fresh, buffer_append, tombstone_append, tables, has, has_tombstone, tombstone_tables,
}

pub record IsTxn {ℓ} {F : Type ℓ} (txn : Transaction F) : Type 0 where
  pub buffer_once : IsDict txn.buffer
  pub tombs_once : IsDict txn.tombs

module _ {ℓ} {F : Type ℓ} where
  pub fresh-IsTxn : (ts : ℕ) → IsTxn (fresh {F = F} ts)
  fresh-IsTxn ts = record { buffer_once = tt; tombs_once = tt }

  pub buffer_append-IsTxn :
      (txn : Transaction F) (table : String) (frame : F)
      → IsTxn txn
      → IsTxn (buffer_append txn table frame)
  unfolding buffer_append
  buffer_append-IsTxn txn table frame h = record {
    buffer_once = insert-IsDict table _ txn.buffer h.buffer_once;
    tombs_once = h.tombs_once;
  }

  pub tombstone_append-IsTxn :
      (txn : Transaction F) (table : String) (frame : F) (exclude_same_ts : Bool)
      → IsTxn txn
      → IsTxn (tombstone_append txn table frame exclude_same_ts)
  unfolding tombstone_append
  tombstone_append-IsTxn txn table frame flag h = record {
    buffer_once = h.buffer_once;
    tombs_once = insert-IsDict table _ txn.tombs h.tombs_once;
  }

  -- `tables()` names each table once, and exactly those for which `has` answers True; likewise
  -- `tombstone_tables()` and `has_tombstone`.
  pub tables-has :
      (txn : Transaction F) (table : String)
      → IsTxn txn
      → IsSetList (tables txn)
        × (contains table (tables txn) ≡ has txn table)
        × IsSetList (tombstone_tables txn)
        × (contains table (tombstone_tables txn) ≡ has_tombstone txn table)
  unfolding tables has tombstone_tables has_tombstone
  tables-has txn table h = (
    set_update-IsSetList (live_keys txn.buffer) (live_keys txn.tombs)
        (live_keys-IsSetList txn.buffer h.buffer_once),
    ground (
      arith,
      contains-set_update table (live_keys txn.buffer) (live_keys txn.tombs),
      contains-live_keys table txn.buffer h.buffer_once,
      contains-live_keys table txn.tombs h.tombs_once,
    ),
    live_keys-IsSetList txn.tombs h.tombs_once,
    contains-live_keys table txn.tombs h.tombs_once,
  )
