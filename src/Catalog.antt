-- ===== src/Catalog.antt =====
-- ryudb/catalog.py: the tables of the catalog and the operations that change them. All exceptions come
-- before the first assignment, so a raising operation leaves the tables as they were; `_save` never
-- raises and changes nothing in memory. The disk and the Parquet reader are parameters.
pub mod Names
use ryu_db.Common.{
  ℕ, ◌+◌, String, Bool, true, false, not, ◌&&◌, ◌||◌, Option, none, some, List, [], ◌∷◌, ◌++◌, map,
  keep_if, non_empty, Result, ok, err, key_error, file_not_found, ◌>>=◌, if◌then◌else◌, ◌=ₛ◌,
}
use ryu_db.Common.Dict.{Dict, lookup, insert, erase, has_key, contains, set_add, set_update}

pub record TableConstraints (D : Type 0) : Type 0 where
  pub not_null : List String
  pub primary_key : Option (List String)
  pub unique : List (List String)
  pub defaults : Dict D

pub record TableInfo (D : Type 0) : Type 0 where
  pub name : String
  pub paths : List String
  pub columns : List String
  pub row_count : ℕ
  pub constraints : TableConstraints D

-- A field of a Parquet schema: its name and whether it is nullable.
abbrev pub Field : Type 0
Field = String × Bool

pub record Disk : Type 0 where
  pub is_dir : String → Bool
  pub exists : String → Bool
  pub sorted_glob : String → List String
  pub join : String → String → String
  pub read_schema : String → Result (List Field)
  pub num_rows : String → Result ℕ

unfoldable pub resolve_parquet_paths : Disk → String → List String
resolve_parquet_paths disk path =
    if disk.is_dir path
    then disk.sorted_glob (disk.join path "*.parquet")
    else if disk.exists path
    then path ∷ []
    else disk.sorted_glob path

-- `sum(pq.read_metadata(p).num_rows for p in paths)`
unfoldable pub count_rows : Disk → List String → Result ℕ
count_rows disk [] = ok 0
count_rows disk (p ∷ ps) = do n ← disk.num_rows p; rest ← count_rows disk ps; ok (n + rest)

-- `{f.name for f in schema if not f.nullable}`
unfoldable pub required : List Field → List String
required [] = []
required ((name, nullable) ∷ fields) =
    let rest = required fields in if nullable then rest else set_add name rest

-- Equality of two tuples of names.
abbrev pub same_names : List String → List String → Bool
same_names [] [] = true
same_names (c ∷ cs) (k ∷ ks) = c =ₛ k && same_names cs ks
same_names _ _ = false

abbrev pub has_names : List String → List (List String) → Bool
has_names cs [] = false
has_names cs (ks ∷ kss) = same_names cs ks || has_names cs kss

abbrev pub discard : String → List String → List String
discard c = keep_if (λ k. not (k =ₛ c))

abbrev pub Tables : Type 0 → Type 0
Tables D = Dict (TableInfo D)

module _ {D : Type 0} where
  abbrev pub found : Option (TableInfo D) → Result (TableInfo D)
  found none = err key_error
  found (some info) = ok info

  unfoldable pub get : Tables D → String → Result (TableInfo D)
  get tables table = found (lookup table tables)

  -- The constraints that `register` gives a table, after those it had.
  abbrev pub merged_constraints : Option (TableInfo D) → List String → TableConstraints D
  merged_constraints none not_null = record {
    not_null = not_null;
    primary_key = none;
    unique = [];
    defaults = [];
  }
  merged_constraints (some prior) not_null = record prior.constraints {
    not_null = set_update prior.constraints.not_null not_null;
  }

  unfoldable pub register_paths : Disk → String → List String → Tables D → Result (Tables D)
  unfolding count_rows required
  register_paths disk table [] tables = err file_not_found
  register_paths disk table (p ∷ ps) tables = do
    schema ← disk.read_schema p
    row_count ← count_rows disk (p ∷ ps)
    ok (
        insert table
          (record {
            name = table;
            paths = p ∷ ps;
            columns = map (λ f. f.0) schema;
            row_count = row_count;
            constraints = merged_constraints (lookup table tables) (required schema);
          })
          tables)

  unfoldable pub register : Disk → String → String → Tables D → Result (Tables D)
  unfolding register_paths resolve_parquet_paths
  register disk table path tables =
      register_paths disk table (resolve_parquet_paths disk path) tables

  unfoldable pub drop_table : String → Tables D → Result (Tables D)
  drop_table table tables = if has_key table tables then ok (erase table tables) else err key_error

  unfoldable pub rename_table : String → String → Tables D → Result (Tables D)
  unfolding get
  rename_table old new tables = do
    info ← get tables old
    if has_key new tables
        then err key_error
        else ok (insert new (record info { name = new }) (erase old tables))

  -- `info.constraints` changed in place.
  abbrev pub set_constraints : String → TableInfo D → TableConstraints D → Tables D → Tables D
  set_constraints table info cs tables = insert table (record info { constraints = cs }) tables

  abbrev pub unknown : TableInfo D → List String → List String
  unknown info cols = keep_if (λ c. not (contains c info.columns)) cols

  unfoldable pub set_primary_key : String → List String → Tables D → Result (Tables D)
  unfolding get
  set_primary_key table cols tables = do
    info ← get tables table
    if non_empty (unknown info cols)
        then err key_error
        else ok (
            set_constraints table info
              (record info.constraints {
                primary_key = some cols;
                not_null = set_update info.constraints.not_null cols;
              })
              tables)

  unfoldable pub set_not_null : String → String → Bool → Tables D → Result (Tables D)
  unfolding get
  set_not_null table col on tables = do
    info ← get tables table
    if contains col info.columns
        then ok (
            set_constraints table info
              (record info.constraints {
                not_null =
                    if on
                    then set_add col info.constraints.not_null
                    else discard col info.constraints.not_null;
              })
              tables)
        else err key_error

  unfoldable pub set_unique : String → List String → Tables D → Result (Tables D)
  unfolding get
  set_unique table cols tables = do
    info ← get tables table
    if non_empty (unknown info cols)
        then err key_error
        else ok (
            set_constraints table info
              (record info.constraints {
                unique =
                    if has_names cols info.constraints.unique
                    then info.constraints.unique
                    else info.constraints.unique ++ cols ∷ [];
              })
              tables)

  unfoldable pub set_default : String → String → D → Tables D → Result (Tables D)
  unfolding get
  set_default table col value tables = do
    info ← get tables table
    if contains col info.columns
        then ok (
            set_constraints table info
              (record info.constraints { defaults = insert col value info.constraints.defaults })
              tables)
        else err key_error

  unfoldable pub drop_default : String → String → Tables D → Result (Tables D)
  unfolding get
  drop_default table col tables = do
    info ← get tables table
    ok (
        set_constraints table info
          (record info.constraints { defaults = erase col info.constraints.defaults }) tables)
