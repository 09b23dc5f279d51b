-- ===== src/Delta.antt =====
-- ryudb/delta.py: the delta store, committed batches and tombstones of each table under their
-- commit timestamps. A frame is a parameter; a set is a list in which each table stands once.
pub mod Channel
pub mod Invariant
pub mod Rewind
use ryu_db.Common.{ℕ, String, Bool, ◌||◌, List, [], ◌∷◌, ◌++◌, Option, none, some, leb}
use ryu_db.Common.{◌==◌, length, keep_if, non_empty, if◌then◌else◌, map}
use ryu_db.Common.Dict.{Dict, get_list, append_to, live_keys, set_add, set_update, erase, contains}

-- A committed batch and a tombstone, as `(commit_ts, frame)` and `(commit_ts, frame, exclude_same_ts)`.
abbrev pub Batch {ℓ} : Type ℓ → Type ℓ
Batch F = ℕ × F

abbrev pub Tombstone {ℓ} : Type ℓ → Type ℓ
Tombstone F = ℕ × F × Bool

pub record DeltaStore {ℓ} (F : Type ℓ) : Type ℓ where
  pub inserts : Dict (List (Batch F))
  pub tombs : Dict (List (Tombstone F))

module _ {ℓ} {F : Type ℓ} where
  abbrev pub empty : DeltaStore F
  empty = record { inserts = []; tombs = [] }

  abbrev pub batch_ts : Batch F → ℕ
  batch_ts b = b.0

  abbrev pub tombstone_ts : Tombstone F → ℕ
  tombstone_ts t = t.0

  unfoldable pub has_unflushed : DeltaStore F → String → Bool
  has_unflushed d table = non_empty (get_list table d.inserts) || non_empty (get_list table d.tombs)

  unfoldable pub tables : DeltaStore F → List String
  tables d = set_update (live_keys d.inserts) (live_keys d.tombs)

  unfoldable pub batches : DeltaStore F → String → List F
  batches d table = map (λ b. b.1) (get_list table d.inserts)

  unfoldable pub batches_with_ts : DeltaStore F → String → List (Batch F)
  batches_with_ts d table = get_list table d.inserts

  unfoldable pub batches_at_with_ts : DeltaStore F → String → ℕ → List (Batch F)
  batches_at_with_ts d table ts = keep_if (λ b. leb (batch_ts b) ts) (get_list table d.inserts)

  unfoldable pub batches_at : DeltaStore F → String → ℕ → List F
  batches_at d table ts =
      map (λ b. b.1) (keep_if (λ b. leb (batch_ts b) ts) (get_list table d.inserts))

  unfoldable pub append : DeltaStore F → String → F → ℕ → DeltaStore F
  append d table frame commit_ts = record d {
    inserts = append_to table (commit_ts, frame) d.inserts;
  }

  unfoldable pub append_tombstone : DeltaStore F → String → F → ℕ → Bool → DeltaStore F
  append_tombstone d table frame commit_ts exclude_same_ts = record d {
    tombs = append_to table (commit_ts, frame, exclude_same_ts) d.tombs;
  }

  unfoldable pub has_tombstones : DeltaStore F → String → Bool
  has_tombstones d table = non_empty (get_list table d.tombs)

  unfoldable pub tombstones : DeltaStore F → String → List F
  tombstones d table = map (λ t. t.1) (get_list table d.tombs)

  unfoldable pub tombstones_with_ts : DeltaStore F → String → List (Tombstone F)
  tombstones_with_ts d table = get_list table d.tombs

  unfoldable pub tombstones_at : DeltaStore F → String → ℕ → List F
  tombstones_at d table ts =
      map (λ t. t.1) (keep_if (λ t. leb (tombstone_ts t) ts) (get_list table d.tombs))

  unfoldable pub tombstones_at_with_ts : DeltaStore F → String → ℕ → List (Tombstone F)
  tombstones_at_with_ts d table ts = keep_if (λ t. leb (tombstone_ts t) ts) (get_list table d.tombs)

-- One pass of `rewind` over a channel: the channel with what is kept, and the tables that lost
-- an entry added to `touched`.
unfoldable pub rewind_channel {ℓ} :
    {E : Type ℓ} → (E → ℕ) → ℕ → Dict (List E) → List String → Dict (List E) × List String
rewind_channel ts_of ts [] touched = ([], touched)
rewind_channel ts_of ts ((table, lst) ∷ d) touched =
    let kept = keep_if (λ e. leb (ts_of e) ts) lst in
    let (d', out) =
      rewind_channel ts_of ts d
        (if length kept == length lst then touched else set_add table touched) in
    ((table, kept) ∷ d', out)

-- `for t in [t for t, lst in store.items() if not lst]: del store[t]`
unfoldable pub drop_empty {ℓ} : {E : Type ℓ} → Dict (List E) → Dict (List E)
drop_empty = keep_if (λ entry. non_empty entry.1)

module _ {ℓ} {F : Type ℓ} where
  unfoldable pub rewind : DeltaStore F → ℕ → DeltaStore F × List String
  unfolding rewind_channel drop_empty
  rewind d ts =
      let (inserts', touched) = rewind_channel batch_ts ts d.inserts [] in
      let (tombs', touched') = rewind_channel tombstone_ts ts d.tombs touched in
      (record { inserts = drop_empty inserts'; tombs = drop_empty tombs' }, touched')

  unfoldable pub clear : DeltaStore F → Option String → DeltaStore F
  clear d none = empty
  clear d (some table) = record { inserts = erase table d.inserts; tombs = erase table d.tombs }
