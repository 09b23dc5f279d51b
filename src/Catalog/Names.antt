-- ===== src/Catalog/Names.antt =====
-- The tables of ryudb/catalog.py stay in order: each name once, and each entry under its own name.
use ryu_db.Common.{
  String, ◌≡◌, refl, ap, subst, Bool, true, false, Option, none, some, List, [], ◌∷◌, arith, Result,
  ok, err, key_error, if◌then◌else◌, Bool-cases, inl, inr, eq_iff, ◌=ₛ◌, non_empty,
}
use ryu_db.Common.Dict.{
  IsDict, lookup, insert, erase, has_key, lookup-insert, lookup-erase, insert-IsDict, erase-IsDict,
  contains,
}
use ryu_db.Wal.Records.{>>=-ok, ok-injective}
use ryu_db.Catalog.{
  TableInfo, TableConstraints, Tables, Disk, found, get, register, register_paths,
  resolve_parquet_paths, count_rows, drop_table, rename_table, set_constraints, unknown,
  set_primary_key, set_not_null, set_unique, set_default, drop_default,
}

pub record IsCatalog {D : Type 0} (tables : Tables D) : Type 0 where
  pub once : IsDict tables
  pub named :
      (table : String) (info : TableInfo D) → lookup table tables ≡ some info → info.name ≡ table

-- One call of an operation that changes the catalog.
pub data Change (D : Type 0) : Type 0 where
  registers : Disk → String → String → Change D
  drops : String → Change D
  renames : String → String → Change D
  sets_primary_key : String → List String → Change D
  sets_not_null : String → String → Bool → Change D
  sets_unique : String → List String → Change D
  sets_default : String → String → D → Change D
  drops_default : String → String → Change D

module _ {D : Type 0} where
  unfoldable pub change : Change D → Tables D → Result (Tables D)
  unfolding register drop_table rename_table set_primary_key set_not_null set_unique set_default
      drop_default
  change (Change.registers disk table path) tables = register disk table path tables
  change (Change.drops table) tables = drop_table table tables
  change (Change.renames old new) tables = rename_table old new tables
  change (Change.sets_primary_key table cols) tables = set_primary_key table cols tables
  change (Change.sets_not_null table col on) tables = set_not_null table col on tables
  change (Change.sets_unique table cols) tables = set_unique table cols tables
  change (Change.sets_default table col value) tables = set_default table col value tables
  change (Change.drops_default table col) tables = drop_default table col tables

  found_ok : (o : Option (TableInfo D)) {info : TableInfo D} → found o ≡ ok info → o ≡ some info
  found_ok none h = cc
  found_ok (some i) h = ap some (ok-injective h)

  if_ok :
      (b : Bool) {t t' : Tables D}
      → ◌≡◌ {A = Result (Tables D)} (if b then err key_error else ok t) (ok t')
      → t ≡ t'
  if_ok true h = cc
  if_ok false h = ok-injective h

  if_not_ok :
      (b : Bool) {t t' : Tables D}
      → ◌≡◌ {A = Result (Tables D)} (if b then ok t else err key_error) (ok t')
      → t ≡ t'
  if_not_ok true h = ok-injective h
  if_not_ok false h = cc

  insert-IsCatalog :
      (table : String) (info : TableInfo D) (tables : Tables D)
      → info.name ≡ table
      → IsCatalog tables
      → IsCatalog (insert table info tables)
  insert-IsCatalog table info tables own h = record {
    once = insert-IsDict table info tables h.once;
    named = λ k i at. elim (Bool-cases (table =ₛ k)) [
      | inl same ↦ ground (arith, lookup-insert table k info tables, (eq_iff table k).0 same)
      | inr other ↦ h.named k i (ground (arith, lookup-insert table k info tables))
    ];
  }

  erase-IsCatalog :
      (table : String) (tables : Tables D) → IsCatalog tables → IsCatalog (erase table tables)
  erase-IsCatalog table tables h = record {
    once = erase-IsDict table tables h.once;
    named = λ k i at. h.named k i (ground (arith, lookup-erase table k tables));
  }

  -- The shape of the operations on one table's constraints.
  set_constraints-IsCatalog :
      (table : String) (info : TableInfo D) (cs : TableConstraints D) (tables : Tables D)
      → lookup table tables ≡ some info
      → IsCatalog tables
      → IsCatalog (set_constraints table info cs tables)
  set_constraints-IsCatalog table info cs tables at h =
      insert-IsCatalog table (record info { constraints = cs }) tables (h.named table info at) h

  register_paths-IsCatalog :
      (disk : Disk) (table : String) (paths : List String) (tables tables' : Tables D)
      → register_paths disk table paths tables ≡ ok tables'
      → IsCatalog tables
      → IsCatalog tables'
  unfolding register_paths
  register_paths-IsCatalog disk table [] tables tables' done h = cc
  register_paths-IsCatalog disk table (p ∷ ps) tables tables' done h =
      let (schema, read, rest) = >>=-ok (disk.read_schema p) _ done in
      let (n, counted, put) = >>=-ok (count_rows disk (p ∷ ps)) _ rest in
      subst IsCatalog (ok-injective put) (insert-IsCatalog table _ tables refl h)

  -- Whatever operation of the catalog succeeds, each table is registered once and its entry has the name
  -- that it is registered under.
  pub change-IsCatalog :
      (c : Change D) (tables tables' : Tables D)
      → change c tables ≡ ok tables'
      → IsCatalog tables
      → IsCatalog tables'
  unfolding change get
  change-IsCatalog (Change.registers disk table path) tables tables' done h =
      register_paths-IsCatalog disk table (resolve_parquet_paths disk path) tables tables' done h
  change-IsCatalog (Change.drops table) tables tables' done h =
      subst IsCatalog (if_not_ok (has_key table tables) done) (erase-IsCatalog table tables h)
  change-IsCatalog (Change.renames old new) tables tables' done h =
      let (info, at, rest) = >>=-ok (found (lookup old tables)) _ done in
      subst IsCatalog (if_ok (has_key new tables) rest) (
        insert-IsCatalog new (record info { name = new }) (erase old tables) refl
          (erase-IsCatalog old tables h))
  change-IsCatalog (Change.sets_primary_key table cols) tables tables' done h =
      let (info, at, rest) = >>=-ok (found (lookup table tables)) _ done in
      subst IsCatalog (if_ok (non_empty (unknown info cols)) rest)
        (set_constraints-IsCatalog table info _ tables (found_ok (lookup table tables) at) h)
  change-IsCatalog (Change.sets_not_null table col on) tables tables' done h =
      let (info, at, rest) = >>=-ok (found (lookup table tables)) _ done in
      subst IsCatalog (if_not_ok (contains col info.columns) rest)
        (set_constraints-IsCatalog table info _ tables (found_ok (lookup table tables) at) h)
  change-IsCatalog (Change.sets_unique table cols) tables tables' done h =
      let (info, at, rest) = >>=-ok (found (lookup table tables)) _ done in
      subst IsCatalog (if_ok (non_empty (unknown info cols)) rest)
        (set_constraints-IsCatalog table info _ tables (found_ok (lookup table tables) at) h)
  change-IsCatalog (Change.sets_default table col value) tables tables' done h =
      let (info, at, rest) = >>=-ok (found (lookup table tables)) _ done in
      subst IsCatalog (if_not_ok (contains col info.columns) rest)
        (set_constraints-IsCatalog table info _ tables (found_ok (lookup table tables) at) h)
  change-IsCatalog (Change.drops_default table col) tables tables' done h =
      let (info, at, rest) = >>=-ok (found (lookup table tables)) _ done in
      subst IsCatalog (ok-injective rest)
        (set_constraints-IsCatalog table info _ tables (found_ok (lookup table tables) at) h)
