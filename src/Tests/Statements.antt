-- ===== src/Tests/Statements.antt =====
-- INSERT, UPDATE and DELETE at concrete inputs: cells are numbers, and a table `t` with the columns `k`,
-- its primary key, and `d`, a date that is NOT NULL.
use ryu_db.Common.{
  ℕ, ◌≡◌, refl, String, false, ◌==◌, ◌=ₛ◌, Option, none, some, List, [], ◌∷◌, ◌++◌, Result, ok, err,
  runtime_error, if◌then◌else◌, All, map, arith,
}
use ryu_db.Catalog.{TableInfo, TableConstraints, get}
use ryu_db.Wal.Bytes
use ryu_db.Wal.Codec
use ryu_db.Wal.Codec.{Serial}
use ryu_db.Delta
use ryu_db.Merge.{merge_delta}
use ryu_db.Wal.File
use ryu_db.Wal.File.{Outcome}
use ryu_db.Engine.{Engine, start}
use ryu_db.Dml.{Row, Rows, Pandas, Source, cell, is_na, scan, enforce_unique}
use ryu_db.Dml.Keys.{IsSymmetric}
use ryu_db.Dml.Unique.{all_unique, enforce_unique-all_unique}
use ryu_db.Dml.Values.{Reading, select_frame}
use ryu_db.Dml.Required.{select_frame-required}
use ryu_db.Dml.Insert.{insert_values}
use ryu_db.Dml.Targets.{Value}
use ryu_db.Dml.Update.{update_rows}
use ryu_db.Dml.Failed.{update_rows-undone}
use ryu_db.Tests.Codec.{codec}

-- Types are numbers: 0 is a date, all else an integer. Only 7 reads as a date.
abbrev as_date : Option ℕ → Option ℕ
as_date none = none
as_date (some n) = if n == 7 then some 7 else none

abbrev pandas : Pandas ℕ ℕ ℕ
pandas = record {
  is_decimal = λ t. false;
  is_floating = λ t. false;
  is_signed_integer = λ t. t == 1;
  is_unsigned_integer = λ t. false;
  is_date = λ t. t == 0;
  to_datetime = λ arr. ok (map as_date arr);
  nullable_int = ok;
  array = λ arr dtype. ok arr;
  same = λ v w. v == w;
}

abbrev constraints : TableConstraints (Option ℕ)
constraints = record {
  not_null = "k" ∷ "d" ∷ [];
  primary_key = some ("k" ∷ []);
  unique = [];
  defaults = [];
}

abbrev info : TableInfo (Option ℕ)
info = record {
  name = "t";
  paths = [];
  columns = "k" ∷ "d" ∷ [];
  row_count = 2;
  constraints = constraints;
}

abbrev row : ℕ → Row ℕ
row k = ("k", some k) ∷ ("d", some 7) ∷ []

abbrev source : Source ℕ ℕ ℕ (Option ℕ)
source = record {
  tables = ("t", info) ∷ [];
  types = λ table c. if c =ₛ "d" then 0 else 1;
  base = λ table. row 1 ∷ row 2 ∷ [];
  frames = record {
    rows = λ f. f;
    keys = map (λ r. cell r "k");
    key = λ r. cell r "k";
    key_eq = λ a b. false;
    join_order = λ g l. l;
  };
}

abbrev number : Serial (Rows ℕ)
number = record {
  encode = codec.encode;
  decode = codec.decode;
  serialize_frame = λ f. [];
  deserialize_frame = λ b. ok [];
  crc32 = codec.crc32;
}

abbrev idle : Engine (Rows ℕ) ℕ
idle = start number (some "wal") none

==_comm : (v w : ℕ) → (v == w) ≡ (w == v)
==_comm v w = ground arith

pandas-IsSymmetric : IsSymmetric pandas
pandas-IsSymmetric = record { same_comm = ==_comm }

-- The key 2 is there already, and 3 is not.
enforce_unique-all_unique_example : enforce_unique pandas source "t" (row 3 ∷ row 2 ∷ []) idle ≡ (
    if all_unique pandas (("k" ∷ []) ∷ []) (scan source info "t" idle ++ (row 3 ∷ row 2 ∷ []))
    then ok tt
    else err runtime_error)
unfolding start scan get merge_delta Delta.tombstones_with_ts Delta.batches_with_ts File.replay
enforce_unique-all_unique_example =
    enforce_unique-all_unique pandas pandas-IsSymmetric source "t" (row 3 ∷ row 2 ∷ []) idle info
      refl refl

taken : enforce_unique pandas source "t" (row 3 ∷ row 2 ∷ []) idle ≡ err runtime_error
unfolding enforce_unique scan start get merge_delta Delta.tombstones_with_ts Delta.batches_with_ts
    File.replay
taken = refl

-- SET k = 1 for both rows.
abbrev set_k : List (String × (Rows ℕ → Result (Value (Option ℕ))))
set_k = ("k", λ rows. ok (Value.scalar (some 1))) ∷ []

set_k-raises :
    (update_rows pandas source number Outcome.written (λ ts. ts) "t" set_k none idle).0
    ≡ err runtime_error
unfolding update_rows start get merge_delta Delta.tombstones_with_ts Delta.batches_with_ts
    File.replay
set_k-raises = refl

update_rows-undone_example :
    ((update_rows pandas source number Outcome.written (λ ts. ts) "t" set_k none idle).1.delta
      ≡ idle.delta)
    × ((update_rows pandas source number Outcome.written (λ ts. ts) "t" set_k none idle).1.txn
        ≡ idle.txn)
update_rows-undone_example =
    update_rows-undone pandas source number Outcome.written (λ ts. ts) "t" set_k none idle
      runtime_error set_k-raises

built :
    select_frame pandas
      (source.types "t")
      constraints
      2
      (("k", some 5 ∷ some 6 ∷ []) ∷ ("d", some 7 ∷ some 7 ∷ []) ∷ [])
      ("k" ∷ "d" ∷ [])
    ≡ ok (row 5 ∷ row 6 ∷ [])
unfolding select_frame
built = refl

select_frame-required_example : All (λ r. is_na (cell r "d") ≡ false) (row 5 ∷ row 6 ∷ [])
select_frame-required_example =
    select_frame-required pandas (source.types "t") constraints 2
      (("k", some 5 ∷ some 6 ∷ []) ∷ ("d", some 7 ∷ some 7 ∷ []) ∷ []) ("k" ∷ "d" ∷ [])
      (row 5 ∷ row 6 ∷ []) "d" built refl refl

-- A date that does not read is NULL after the check of NOT NULL.
abbrev reading : Reading ℕ ℕ
reading = record {
  timestamp = ok;
  to_int = ok;
  to_float = ok;
  to_bool = λ c. c;
  as_is = λ c. some c;
}

bad_date :
    map
      (λ r. cell r "d")
      (scan source info "t"
        (insert_values pandas source reading number Outcome.written "t" none
          (((5, "int") ∷ (9, "string") ∷ []) ∷ [])
          idle).1)
    ≡ some 7 ∷ some 7 ∷ none ∷ []
unfolding insert_values scan start File.write_commit Codec.build_record Codec.build_payload
    Bytes.pack Bytes.to_le Delta.append get merge_delta Delta.tombstones_with_ts
    Delta.batches_with_ts File.replay
bad_date = refl
