-- ===== src/Delta/Invariant.antt =====
-- The well-formed delta store: each table once in a channel, and entries in the order of their
-- commit timestamps. Every operation of ryudb/delta.py keeps it.
use ryu_db.Common.{
  ℕ, ◌≤◌, String, refl, Bool, [], ◌∷◌, ◌++◌, Option, none, some, true, false, ◌=ₛ◌, if◌then◌else◌,
}
use ryu_db.Common.Ascending.{IsAscending, snoc-IsAscending, IsAscending-mono}
use ryu_db.Common.Dict.{
  IsDict, get_list, insert-IsDict, erase-IsDict, get_list-append_to, get_list-erase,
}
use ryu_db.Delta.{DeltaStore, empty, batch_ts, tombstone_ts, append, append_tombstone, clear}

pub record HasKeysOnce {ℓ} {F : Type ℓ} (d : DeltaStore F) : Type 0 where
  pub inserts_once : IsDict d.inserts
  pub tombs_once : IsDict d.tombs

pub record IsStore {ℓ} {F : Type ℓ} (c : ℕ) (d : DeltaStore F) : Type 0 where
  pub once : HasKeysOnce d
  pub inserts_up : (table : String) → IsAscending batch_ts c (get_list table d.inserts)
  pub tombs_up : (table : String) → IsAscending tombstone_ts c (get_list table d.tombs)

pub IsStore-mono {ℓ} :
    {F : Type ℓ} (c ts : ℕ) (d : DeltaStore F) → c ≤ ts → IsStore c d → IsStore ts d
IsStore-mono c ts d le h = record {
  once = h.once;
  inserts_up = λ t. IsAscending-mono batch_ts c ts (get_list t d.inserts) le (h.inserts_up t);
  tombs_up = λ t. IsAscending-mono tombstone_ts c ts (get_list t d.tombs) le (h.tombs_up t);
}

pub empty-IsStore {ℓ} : {F : Type ℓ} (c : ℕ) → IsStore c (empty {F = F})
empty-IsStore c = record {
  once = record { inserts_once = tt; tombs_once = tt };
  inserts_up = λ t. tt;
  tombs_up = λ t. tt;
}

module _ {ℓ} {F : Type ℓ} (c : ℕ) (d : DeltaStore F) where
  -- Appending under a timestamp that is not before the last one keeps the store well-formed.
  pub append-IsStore :
      (table : String) (frame : F) (ts : ℕ)
      → c ≤ ts
      → IsStore c d
      → IsStore ts (append d table frame ts)
  unfolding append
  append-IsStore table frame ts le h = record {
    once = record {
      inserts_once = insert-IsDict table _ d.inserts h.once.inserts_once;
      tombs_once = h.once.tombs_once;
    };
    inserts_up = λ t.
        rw (get_list-append_to table t (ts, frame) d.inserts)
          (elim (table =ₛ t)
            as (λ b.
              IsAscending batch_ts ts
                (if b then get_list t d.inserts ++ (ts, frame) ∷ [] else get_list t d.inserts)) [
                  | true ↦
                      snoc-IsAscending batch_ts c ts (get_list t d.inserts) (ts, frame) le refl
                        (h.inserts_up t)
                  | false ↦
                      IsAscending-mono batch_ts c ts (get_list t d.inserts) le (h.inserts_up t)
                ]);
    tombs_up = λ t. IsAscending-mono tombstone_ts c ts (get_list t d.tombs) le (h.tombs_up t);
  }

  -- So does appending a tombstone under a timestamp that is not before the last one.
  pub append_tombstone-IsStore :
      (table : String) (frame : F) (ts : ℕ) (exclude_same_ts : Bool)
      → c ≤ ts
      → IsStore c d
      → IsStore ts (append_tombstone d table frame ts exclude_same_ts)
  unfolding append_tombstone
  append_tombstone-IsStore table frame ts flag le h = record {
    once = record {
      inserts_once = h.once.inserts_once;
      tombs_once = insert-IsDict table _ d.tombs h.once.tombs_once;
    };
    inserts_up = λ t. IsAscending-mono batch_ts c ts (get_list t d.inserts) le (h.inserts_up t);
    tombs_up = λ t.
        rw (get_list-append_to table t (ts, frame, flag) d.tombs)
          (elim (table =ₛ t)
            as (λ b.
              IsAscending tombstone_ts ts
                (if b then get_list t d.tombs ++ (ts, frame, flag) ∷ [] else get_list t d.tombs)) [
                  | true ↦
                      snoc-IsAscending tombstone_ts c ts (get_list t d.tombs) (ts, frame, flag) le
                        refl (h.tombs_up t)
                  | false ↦
                      IsAscending-mono tombstone_ts c ts (get_list t d.tombs) le (h.tombs_up t)
                ]);
  }

  -- `clear`, of one table or of all, keeps the store well-formed.
  pub clear-IsStore : (table : Option String) → IsStore c d → IsStore c (clear d table)
  unfolding clear
  clear-IsStore none h = record {
    once = record { inserts_once = tt; tombs_once = tt };
    inserts_up = λ t. tt;
    tombs_up = λ t. tt;
  }
  clear-IsStore (some table) h = record {
    once = record {
      inserts_once = erase-IsDict table d.inserts h.once.inserts_once;
      tombs_once = erase-IsDict table d.tombs h.once.tombs_once;
    };
    inserts_up = λ t.
        rw (get_list-erase table t d.inserts)
          (elim (table =ₛ t)
            as (λ b. IsAscending batch_ts c (if b then [] else get_list t d.inserts)) [
              | true ↦ tt
              | false ↦ h.inserts_up t
            ]);
    tombs_up = λ t.
        rw (get_list-erase table t d.tombs)
          (elim (table =ₛ t)
            as (λ b. IsAscending tombstone_ts c (if b then [] else get_list t d.tombs)) [
              | true ↦ tt
              | false ↦ h.tombs_up t
            ]);
  }
