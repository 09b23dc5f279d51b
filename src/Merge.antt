-- ===== src/Merge.antt =====
-- ryudb/exec/executor.py, the read path over the delta store (`_merge_delta`, and `_scan` after its
-- base). A frame enters as the list of its rows; the casts and the key columns are parameters.
pub mod Keep
pub mod Restamp
use ryu_db.Common.{
  ℕ, ◌+◌, ◌^◌, String, Bool, true, false, not, ◌&&◌, ◌||◌, Option, none, some, List, [], ◌∷◌, ◌++◌,
  map, ltb, leb, keep_if, non_empty, if◌then◌else◌,
}
use Prim.Native.Nat.{max}
use ryu_db.Delta
use ryu_db.Delta.{DeltaStore, Batch, Tombstone}
use ryu_db.Txn
use ryu_db.Txn.{Transaction}

-- `rows`: the rows of an insert batch, projected to the base's columns and cast to its types.
-- `keys`: the primary-key values of a tombstone batch. `key`: those of a row. `join_order`: the rows of
-- a frame in the order in which its left merge with grouped timestamps gives them.
pub record Frames (F R K : Type 0) : Type 0 where
  pub rows : F → List R
  pub keys : F → List K
  pub key : R → K
  pub key_eq : K → K → Bool
  pub join_order : List (K × ℕ) → List (ℕ × R) → List (ℕ × R)

-- `_INS_INF`, the timestamp of what a transaction has buffered.
abbrev pub ins_inf : ℕ
ins_inf = 2 ^ 62

-- A timestamp column after `fillna(-1)`.
pub data Stamp : Type 0 where
  minus_one : Stamp
  at : ℕ → Stamp

abbrev pub fill_na : Option ℕ → Stamp
fill_na none = minus_one
fill_na (some ts) = at ts

-- `stamp < ins_ts` and `stamp <= ins_ts`
abbrev pub stamp_lt : Stamp → ℕ → Bool
stamp_lt minus_one ins_ts = true
stamp_lt (at ts) ins_ts = ltb ts ins_ts

abbrev pub stamp_le : Stamp → ℕ → Bool
stamp_le minus_one ins_ts = true
stamp_le (at ts) ins_ts = leb ts ins_ts

module _ {F R K : Type 0} (f : Frames F R K) where
  -- Rows under their insertion timestamp, `_ins_ts`.
  abbrev pub tag : ℕ → List R → List (ℕ × R)
  tag ts [] = []
  tag ts (r ∷ rs) = (ts, r) ∷ tag ts rs

  abbrev pub tag_batches : List (Batch F) → List (ℕ × R)
  tag_batches [] = []
  tag_batches ((ts, b) ∷ bs) = tag ts (f.rows b) ++ tag_batches bs

  abbrev pub tag_buffer : ℕ → List F → List (ℕ × R)
  tag_buffer ts [] = []
  tag_buffer ts (b ∷ bs) = tag ts (f.rows b) ++ tag_buffer ts bs

  -- `merged`, before tombstones: base, committed batches, buffered batches.
  abbrev pub merge_parts : List R → List (Batch F) → List F → List (ℕ × R)
  merge_parts base ins_batches buf_inserts =
      tag 0 base ++ (tag_batches ins_batches ++ tag_buffer ins_inf buf_inserts)

  -- `[(_INS_INF, t, flag) for t, fl in buf_tomb]`
  abbrev pub tag_tombs : ℕ → List (F × Bool) → List (Tombstone F)
  tag_tombs ts [] = []
  tag_tombs ts ((t, fl) ∷ ts') = (ts, t, fl) ∷ tag_tombs ts ts'

  -- `tkeys` restricted to one value of `_flag`: key and `_tomb_ts`.
  abbrev pub key_rows : ℕ → List K → List (K × ℕ)
  key_rows ts [] = []
  key_rows ts (k ∷ ks) = (k, ts) ∷ key_rows ts ks

  unfoldable pub tomb_keys : Bool → List (Tombstone F) → List (K × ℕ)
  tomb_keys flag [] = []
  tomb_keys flag ((ts, t, true) ∷ tombs) =
      let rest = tomb_keys flag tombs in if flag then key_rows ts (f.keys t) ++ rest else rest
  tomb_keys flag ((ts, t, false) ∷ tombs) =
      let rest = tomb_keys flag tombs in if flag then rest else key_rows ts (f.keys t) ++ rest

  -- `.groupby(pk)["_tomb_ts"].max()`: one row for each key.
  unfoldable pub add_max : K → ℕ → List (K × ℕ) → List (K × ℕ)
  add_max k ts [] = (k, ts) ∷ []
  add_max k ts ((j, m) ∷ g) = if f.key_eq j k then (j, max m ts) ∷ g else (j, m) ∷ add_max k ts g

  unfoldable pub group_max : List (K × ℕ) → List (K × ℕ)
  unfolding add_max
  group_max [] = []
  group_max ((k, ts) ∷ l) = add_max k ts (group_max l)

  -- The timestamp that `merge(how="left")` with the grouped timestamps puts beside one row's key.
  unfoldable pub left_merge : K → List (K × ℕ) → Option ℕ
  left_merge k [] = none
  left_merge k ((j, m) ∷ g) = if f.key_eq j k then some m else left_merge k g

  -- The mask `keep` at one row.
  unfoldable pub keep_row : List (K × ℕ) → List (K × ℕ) → ℕ × R → Bool
  unfolding left_merge
  keep_row del_max upd_max (ins_ts, r) =
      stamp_lt (fill_na (left_merge (f.key r) del_max)) ins_ts
      && stamp_le (fill_na (left_merge (f.key r) upd_max)) ins_ts

  -- From the four lists on. `has_pk`: the table has a declared primary key.
  unfoldable pub merge_lists :
      Bool → List R → List (Batch F) → List F → List (Tombstone F) → List (F × Bool) → List R
  unfolding tomb_keys group_max keep_row
  merge_lists has_pk base ins_batches buf_inserts tomb buf_tomb =
      let parts = merge_parts base ins_batches buf_inserts in
      let tombs = tomb ++ tag_tombs ins_inf buf_tomb in
      let del_max = group_max (tomb_keys false tombs) in
      let upd_max = group_max (tomb_keys true tombs) in
      if non_empty tombs && has_pk
      then map (λ x. x.1)
          (keep_if (keep_row del_max upd_max) (f.join_order upd_max (f.join_order del_max parts)))
      else map (λ x. x.1) parts

  unfoldable pub merge_delta :
      Bool → List R → DeltaStore F → Option (Transaction F) → String → List R
  unfolding merge_lists
  merge_delta has_pk base delta none table =
      merge_lists has_pk base (Delta.batches_with_ts delta table) []
        (Delta.tombstones_with_ts delta table) []
  merge_delta has_pk base delta (some txn) table =
      merge_lists has_pk base (Delta.batches_at_with_ts delta table txn.snapshot_ts)
        (Txn.buffer_batches txn table) (Delta.tombstones_at_with_ts delta table txn.snapshot_ts)
        (Txn.tombstone_batches_with_flag txn table)
