-- ===== src/Delta/Rewind.antt =====
-- What a rewind of the delta store leaves, and what it reports (`DeltaStore.rewind`).
use ryu_db.Common.{
  ℕ, ◌≤◌, ◌<◌, String, ◌≡◌, refl, false, ◌↔◌, ◌||◌, List, [], ◌∷◌, ◌++◌, ◌∙◌, arith, leb, keep_if,
  All,
}
use ryu_db.Common.Ascending.{keep_if-IsAscending, keep_if-prefix}
use ryu_db.Common.Dict.{
  live_keys, Dict, IsDict, IsSetList, contains, get_list, contains-set_update, contains-live_keys,
  set_update-IsSetList, live_keys-IsSetList,
}
use ryu_db.Delta.{
  DeltaStore, batch_ts, tombstone_ts, Batch, Tombstone, rewind, rewind_channel, drop_empty, tables,
  has_unflushed, batches_with_ts, batches_at_with_ts, tombstones_with_ts, tombstones_at_with_ts,
}
use ryu_db.Delta.Channel.{
  loses, loses-false, get_list-rewind_channel, get_list-drop_empty, rewind_channel-IsDict,
  contains-rewind_channel, rewind_channel-IsSetList, drop_empty-IsDict,
}
use ryu_db.Delta.Invariant.{HasKeysOnce, IsStore}

module _ {ℓ} {E : Type ℓ} (ts_of : E → ℕ) (ts : ℕ) where
  pub get_list-rewound :
      (k : String) (d : Dict (List E)) (touched : List String)
      → IsDict d
      → get_list k (drop_empty (rewind_channel ts_of ts d touched).0)
        ≡ keep_if (λ e. leb (ts_of e) ts) (get_list k d)
  get_list-rewound k d touched h =
      get_list-drop_empty k (rewind_channel ts_of ts d touched).0
        (rewind_channel-IsDict ts_of ts d touched h)
      ∙ get_list-rewind_channel ts_of ts k d touched

  pub loses_iff : (l : List E) → (loses ts_of ts l ≡ false) ↔ All (λ e. ts_of e ≤ ts) l
  loses_iff l = (loses-false ts_of ts l, back l)
    where
      back : (l : List E) → All (λ e. ts_of e ≤ ts) l → loses ts_of ts l ≡ false
      back [] h = refl
      back (e ∷ l) h = ground (arith, back l h.1)

module _ {ℓ} {F : Type ℓ} (d : DeltaStore F) (ts : ℕ) where
  -- After `rewind(ts)` a reader that sees everything gets, for each table and in both channels, what
  -- a reader at snapshot `ts` got before.
  pub with_ts-rewind :
      (table : String)
      → HasKeysOnce d
      → (batches_with_ts (rewind d ts).0 table ≡ batches_at_with_ts d table ts)
        × (tombstones_with_ts (rewind d ts).0 table ≡ tombstones_at_with_ts d table ts)
  unfolding rewind batches_with_ts batches_at_with_ts tombstones_with_ts tombstones_at_with_ts
  with_ts-rewind table h = (
    get_list-rewound batch_ts ts table d.inserts [] h.inserts_once,
    get_list-rewound tombstone_ts ts table d.tombs (rewind_channel batch_ts ts d.inserts []).1
        h.tombs_once,
  )

  -- `rewind(ts)` reports each table once, and leaves a table out exactly if all its batches and all
  -- its tombstones are at or before `ts`.
  pub touched-rewind :
      (table : String)
      → HasKeysOnce d
      → IsSetList (rewind d ts).1
        × ((contains table (rewind d ts).1 ≡ false) ↔ (
            All (λ b. batch_ts b ≤ ts) (batches_with_ts d table)
            × All (λ t. tombstone_ts t ≤ ts) (tombstones_with_ts d table)))
  unfolding rewind batches_with_ts tombstones_with_ts
  touched-rewind table h = (
    rewind_channel-IsSetList tombstone_ts ts d.tombs touched
        (rewind_channel-IsSetList batch_ts ts d.inserts [] tt),
    (
      λ out. (
        (loses_iff batch_ts ts l).0 (ground (arith, step₂, step₁)),
        (loses_iff tombstone_ts ts m).0 (ground (arith, step₂, step₁)),
      ),
      λ all. ground (
        arith,
        step₂,
        step₁,
        (loses_iff batch_ts ts l).1 all.0,
        (loses_iff tombstone_ts ts m).1 all.1,
      ),
    ),
  )
    where
      touched : List String
      touched = (rewind_channel batch_ts ts d.inserts []).1

      l : List (Batch F)
      l = get_list table d.inserts

      m : List (Tombstone F)
      m = get_list table d.tombs

      step₁ : contains table touched ≡ loses batch_ts ts l
      step₁ = contains-rewind_channel batch_ts ts table d.inserts [] h.inserts_once

      step₂ :
          contains table (rewind_channel tombstone_ts ts d.tombs touched).1
          ≡ (contains table touched || loses tombstone_ts ts m)
      step₂ = contains-rewind_channel tombstone_ts ts table d.tombs touched h.tombs_once

  -- In a store whose lists ascend, what `rewind(ts)` drops of a table is a suffix of its batches and
  -- a suffix of its tombstones, all of it after `ts`.
  pub rewind-suffix :
      (c : ℕ) (table : String)
      → IsStore c d
      → ((lost : List (Batch F)) × (batches_with_ts d table
            ≡ batches_with_ts (rewind d ts).0 table ++ lost)
          × All (λ b. ts < batch_ts b) lost)
        × ((lost : List (Tombstone F)) × (tombstones_with_ts d table
              ≡ tombstones_with_ts (rewind d ts).0 table ++ lost)
            × All (λ t. ts < tombstone_ts t) lost)
  unfolding batches_at_with_ts tombstones_at_with_ts batches_with_ts tombstones_with_ts
  rewind-suffix c table h =
      let (same_b, same_t) = with_ts-rewind table h.once in
      (
        rw same_b (keep_if-prefix batch_ts ts c (get_list table d.inserts) (h.inserts_up table)),
        rw same_t (keep_if-prefix tombstone_ts ts c (get_list table d.tombs) (h.tombs_up table)),
      )

  pub rewind-HasKeysOnce : HasKeysOnce d → HasKeysOnce (rewind d ts).0
  unfolding rewind
  rewind-HasKeysOnce h = record {
    inserts_once =
        drop_empty-IsDict (rewind_channel batch_ts ts d.inserts []).0
          (rewind_channel-IsDict batch_ts ts d.inserts [] h.inserts_once);
    tombs_once =
        drop_empty-IsDict
          (rewind_channel tombstone_ts ts d.tombs (rewind_channel batch_ts ts d.inserts []).1).0
          (rewind_channel-IsDict tombstone_ts ts d.tombs (rewind_channel batch_ts ts d.inserts []).1
            h.tombs_once);
  }

  -- A rewind to `ts` leaves a well-formed store whose timestamps are at most `ts`.
  pub rewind-IsStore : (c : ℕ) → IsStore c d → IsStore ts (rewind d ts).0
  unfolding rewind
  rewind-IsStore c h = record {
    once = rewind-HasKeysOnce h.once;
    inserts_up = λ table.
        rw (get_list-rewound batch_ts ts table d.inserts [] h.once.inserts_once)
          (keep_if-IsAscending batch_ts ts c (get_list table d.inserts) (h.inserts_up table));
    tombs_up = λ table.
        rw
          (get_list-rewound tombstone_ts ts table d.tombs
            (rewind_channel batch_ts ts d.inserts []).1 h.once.tombs_once)
          (keep_if-IsAscending tombstone_ts ts c (get_list table d.tombs) (h.tombs_up table));
  }

-- `tables()` names each table once, and exactly those for which `has_unflushed` answers True.
pub tables_exact {ℓ} :
    {F : Type ℓ} (d : DeltaStore F) (table : String)
    → HasKeysOnce d
    → IsSetList (tables d) × (contains table (tables d) ≡ has_unflushed d table)
unfolding tables has_unflushed
tables_exact d table h = (
  set_update-IsSetList (live_keys d.inserts) (live_keys d.tombs)
      (live_keys-IsSetList d.inserts h.inserts_once),
  ground (
    arith,
    contains-set_update table (live_keys d.inserts) (live_keys d.tombs),
    contains-live_keys table d.inserts h.inserts_once,
    contains-live_keys table d.tombs h.tombs_once,
  ),
)
