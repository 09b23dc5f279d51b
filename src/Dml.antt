-- ===== src/Dml.antt =====
-- ryudb/exec/executor.py, what INSERT, DELETE and UPDATE share: the rows that they see and the check of
-- the declared keys (`_scan`, `_enforce_unique`, `_typed_series`), and `_arrow_match_dtype` of
-- ryudb/exec/fused.py. A frame is the list of its rows. pandas' columns and the comparison of two keys
-- are parameters.
pub mod Values
pub mod Insert
pub mod Targets
pub mod Update
pub mod Keys
pub mod Unique
pub mod Failed
pub mod Runs
pub mod Required
use ryu_db.Common.{
  ℕ, String, Bool, true, false, not, ◌&&◌, ◌||◌, Option, none, some, List, [], ◌∷◌, ◌++◌, map,
  keep_if, length, non_empty, ◌==◌, Result, ok, err, runtime_error, ◌>>=◌, if◌then◌else◌,
}
use ryu_db.Common.Dict.{Dict, lookup}
use ryu_db.Catalog.{TableConstraints, TableInfo, Tables, get}
use ryu_db.Merge.{Frames, merge_delta}
use ryu_db.Engine.{Engine}

abbrev pub Row : Type 0 → Type 0
Row V = Dict (Option V)

abbrev pub Rows : Type 0 → Type 0
Rows V = List (Row V)

pub data Dtype : Type 0 where
  float64 int64 datetime64 object : Dtype

-- pyarrow's tests of a type; `pd.to_datetime(errors="coerce")`, `pd.array(dtype="Int64")`, `pd.array`;
-- the comparison of two cells that are not NULL in `drop_duplicates` and in `merge`.
pub record Pandas (L V T : Type 0) : Type 0 where
  pub is_decimal : T → Bool
  pub is_floating : T → Bool
  pub is_signed_integer : T → Bool
  pub is_unsigned_integer : T → Bool
  pub is_date : T → Bool
  pub to_datetime : List (Option L) → Result (List (Option V))
  pub nullable_int : List (Option L) → Result (List (Option V))
  pub array : List (Option L) → Dtype → Result (List (Option V))
  pub same : V → V → Bool

-- The tables as a statement finds them: the catalog, the types of the columns, the rows of the Parquet
-- files, and how rows are merged with the delta store.
pub record Source (L V T K : Type 0) : Type 0 where
  pub tables : Tables (Option L)
  pub types : String → String → T
  pub base : String → Rows V
  pub frames : Frames (Rows V) (Row V) K

abbrev pub found_cell : {V : Type 0} → Option (Option V) → Option V
found_cell none = none
found_cell (some v) = v

abbrev pub cell : {V : Type 0} → Row V → String → Option V
cell row c = found_cell (lookup c row)

-- `frame[cols]` at one row.
abbrev pub cells : {V : Type 0} → List String → Row V → List (Option V)
cells cols row = map (cell row) cols

abbrev pub is_na : {V : Type 0} → Option V → Bool
is_na none = true
is_na (some v) = false

abbrev pub any_na : {V : Type 0} → List (Option V) → Bool
any_na [] = false
any_na (v ∷ vs) = is_na v || any_na vs

-- `frame.dropna(subset=key_cols)`
abbrev pub dropna : {V : Type 0} → List String → Rows V → Rows V
dropna cols = keep_if (λ row. not (any_na (cells cols row)))

abbrev pub has_primary_key : {D : Type 0} → TableConstraints D → Bool
has_primary_key k = elim k.primary_key [ none ↦ false | some pk ↦ true ]

abbrev pub primary_keys : Option (List String) → List (List String)
primary_keys none = []
primary_keys (some pk) = pk ∷ []

-- The list `constraints`.
abbrev pub declared : {D : Type 0} → TableConstraints D → List (List String)
declared k = primary_keys k.primary_key ++ k.unique

-- `_scan` of a table whose constraints are at hand.
unfoldable pub scan :
    {L V T K C : Type 0}
    → Source L V T K
    → TableInfo (Option L)
    → String
    → Engine (Rows V) C
    → Rows V
scan src info table e =
    merge_delta src.frames (has_primary_key info.constraints) (src.base table) e.delta e.txn table

module _ {L V T : Type 0} (pd : Pandas L V T) where
  unfoldable pub arrow_match_dtype : T → Dtype
  arrow_match_dtype t =
      if pd.is_decimal t || pd.is_floating t
      then float64
      else if pd.is_signed_integer t || pd.is_unsigned_integer t
      then int64
      else if pd.is_date t
      then datetime64
      else object

  abbrev pub column_of : Dtype → List (Option L) → Result (List (Option V))
  column_of datetime64 arr = pd.to_datetime arr
  column_of int64 arr = pd.nullable_int arr
  column_of float64 arr = pd.array arr float64
  column_of object arr = pd.array arr object

  -- `_typed_series`, and the body of the loop of `_insert` that builds `pdf`.
  unfoldable pub typed_series : T → List (Option L) → Result (List (Option V))
  unfolding arrow_match_dtype
  typed_series t arr = column_of (arrow_match_dtype t) arr

  -- Two keys are the same row of a key frame.
  abbrev pub same_key : List (Option V) → List (Option V) → Bool
  same_key (some v ∷ vs) (some w ∷ ws) = pd.same v w && same_key vs ws
  same_key [] [] = true
  same_key _ _ = false

  unfoldable pub drop_duplicates : List (List (Option V)) → List (List (Option V))
  drop_duplicates [] = []
  drop_duplicates (k ∷ ks) = k ∷ keep_if (λ j. not (same_key k j)) (drop_duplicates ks)

  -- `new_keys.merge(ex_keys, on=key_cols, how="inner")`
  unfoldable pub inner_merge :
      List (List (Option V)) → List (List (Option V)) → List (List (Option V))
  inner_merge [] ex_keys = []
  inner_merge (k ∷ new_keys) ex_keys = keep_if (same_key k) ex_keys ++ inner_merge new_keys ex_keys

  -- The body of the loop of `_enforce_unique` for one key.
  unfoldable pub check_key : Rows V → Rows V → List String → Result (Unit {0})
  unfolding drop_duplicates inner_merge
  check_key existing frame cols =
      let new_keys = map (cells cols) (dropna cols frame) in
      if not (length new_keys == length (drop_duplicates new_keys))
      then err runtime_error
      else if non_empty (inner_merge new_keys (map (cells cols) (dropna cols existing)))
      then err runtime_error
      else ok tt

  unfoldable pub check_keys : Rows V → Rows V → List (List String) → Result (Unit {0})
  unfolding check_key
  check_keys existing frame [] = ok tt
  check_keys existing frame (cols ∷ keys) = do
    _ ← check_key existing frame cols
    check_keys existing frame keys

  module _ {K C : Type 0} (src : Source L V T K) where
    unfoldable pub enforce_unique : String → Rows V → Engine (Rows V) C → Result (Unit {0})
    unfolding check_keys scan
    enforce_unique table frame e = do
      info ← get src.tables table
      check_keys (scan src info table e) frame (declared info.constraints)
