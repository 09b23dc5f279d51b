-- ===== src/Pgwire/Frames.antt =====
-- ryudb/server/pgwire.py: the types and values of a result as PostgreSQL's text format has them, and
-- the messages that the front sends. The decimal form of a number is a parameter.
pub mod Framing
use Prim.Native.String.{◌++◌ as ◌++ₛ◌}
use ryu_db.Common.{
  ℕ, zero, suc, ◌+◌, String, Bool, true, false, ◌||◌, List, [], ◌∷◌, ◌++◌, Option, none, some,
  length, Result, ok, err, Error, ◌>>=◌, if◌then◌else◌,
}
use ryu_db.Common.Integers.{ℤ, pos, negsuc}
use ryu_db.Wal.Bytes.{Bytes}
use ryu_db.Pgwire.Bytes.{Utf8, pack_be, pack_signed, cstring}

-- The types that `pyarrow.types` tells apart; `other` is any that none of the tests takes.
pub data DataType : Type 0 where
  int8 int16 int32 int64 float32 float64 boolean string large_string : DataType
  date32 date64 timestamp decimal other : DataType

unfoldable pub arrow_type_oid : DataType → ℕ
arrow_type_oid DataType.int64 = 20
arrow_type_oid DataType.int32 = 23
arrow_type_oid DataType.int16 = 21
arrow_type_oid DataType.int8 = 21
arrow_type_oid DataType.float64 = 701
arrow_type_oid DataType.float32 = 700
arrow_type_oid DataType.boolean = 16
arrow_type_oid DataType.string = 25
arrow_type_oid DataType.large_string = 25
arrow_type_oid DataType.date32 = 1082
arrow_type_oid DataType.date64 = 1082
arrow_type_oid DataType.timestamp = 1114
arrow_type_oid DataType.decimal = 1700
arrow_type_oid DataType.other = 25

-- A Python value of a cell, with the text that `repr`, `isoformat` or `str` gives of it.
pub data Cell : Type 0 where
  null nan : Cell
  bool infinite : Bool → Cell
  float datetime date decimal text : String → Cell

unfoldable pub val_to_text : Cell → Option String
val_to_text Cell.null = none
val_to_text (Cell.bool b) = some (if b then "t" else "f")
val_to_text Cell.nan = some "NaN"
val_to_text (Cell.infinite positive) = some (if positive then "Infinity" else "-Infinity")
val_to_text (Cell.float repr) = some repr
val_to_text (Cell.datetime iso) = some iso
val_to_text (Cell.date iso) = some iso
val_to_text (Cell.decimal str) = some str
val_to_text (Cell.text str) = some str

pub record Field : Type 0 where
  pub name : String
  pub type : DataType

-- What `_command_tag` and the cursor statements complete a command with.
pub data Tag : Type 0 where
  select insert delete update merge fetch move : ℕ → Tag
  word : String → Tag

-- The messages of the backend.
pub data Frame : Type 0 where
  refuse_ssl authentication_ok empty_query parse_complete bind_complete close_complete no_data :
      Frame
  backend_key_data : ℕ → ℕ → Frame
  ready : String → Frame
  parameter_description : List ℤ → Frame
  row_description : List Field → Frame
  data_row : List Cell → Frame
  command_complete : Tag → Frame
  error_response : String → String → String → Frame

unfoldable pub tag_text : (ℕ → String) → Tag → String
tag_text str (Tag.select n) = "SELECT " ++ₛ str n
tag_text str (Tag.insert n) = "INSERT 0 " ++ₛ str n
tag_text str (Tag.delete n) = "DELETE " ++ₛ str n
tag_text str (Tag.update n) = "UPDATE " ++ₛ str n
tag_text str (Tag.merge n) = "MERGE " ++ₛ str n
tag_text str (Tag.fetch n) = "FETCH " ++ₛ str n
tag_text str (Tag.move n) = "MOVE " ++ₛ str n
tag_text str (Tag.word w) = w

-- `_msg`
unfoldable pub msg : ℕ → Bytes → Result Bytes
unfolding pack_be
msg t payload = do size ← pack_be 4 (length payload + 4); ok (t ∷ (size ++ payload))

-- The parts of `_error`.
unfoldable pub error_fields : Utf8 → String → String → String → Bytes
unfolding cstring
error_fields u severity sqlstate message =
    b'S'
    ∷ (cstring u severity
        ++ b'V'
          ∷ (cstring u severity
              ++ b'C' ∷ (cstring u sqlstate ++ b'M' ∷ (cstring u message ++ 0 ∷ []))))

module _ (u : Utf8) (str : ℕ → String) where
  -- The loop of `_row_description`.
  unfoldable pub pack_fields : List Field → Result Bytes
  unfolding pack_be pack_signed cstring arrow_type_oid
  pack_fields [] = ok []
  pack_fields (f ∷ fs) = do
    table_oid ← pack_be 4 0
    attnum ← pack_be 2 0
    oid ← pack_be 4 (arrow_type_oid f.type)
    size ← pack_signed 2 (negsuc 0)
    modifier ← pack_signed 4 (negsuc 0)
    format ← pack_be 2 0
    rest ← pack_fields fs
    ok (
        cstring u f.name
        ++ (table_oid ++ (attnum ++ (oid ++ (size ++ (modifier ++ (format ++ rest)))))))

  -- The inner loop of `_data_rows`.
  unfoldable pub pack_cells : List Cell → Result Bytes
  unfolding pack_signed val_to_text
  pack_cells [] = ok []
  pack_cells (c ∷ cs) = do
    cell ← elim (val_to_text c) [
      | none ↦ pack_signed 4 (negsuc 0)
      | some txt ↦ do size ← pack_signed 4 (pos (length (u.encode txt))); ok (size ++ u.encode txt)
    ]
    rest ← pack_cells cs
    ok (cell ++ rest)

  unfoldable pub pack_oids : List ℤ → Result Bytes
  unfolding pack_be
  pack_oids [] = ok []
  pack_oids (pos n ∷ os) = do first ← pack_be 4 n; rest ← pack_oids os; ok (first ++ rest)
  pack_oids (negsuc n ∷ os) = err Error.struct_error

  -- The bytes that `_send` is called with.
  unfoldable pub frame_bytes : Frame → Result Bytes
  unfolding msg pack_be pack_fields pack_cells pack_oids cstring error_fields tag_text
  frame_bytes Frame.refuse_ssl = ok (b'N' ∷ [])
  frame_bytes Frame.authentication_ok = do code ← pack_be 4 0; msg b'R' code
  frame_bytes (Frame.backend_key_data pid secret) = do
    p ← pack_be 4 pid
    s ← pack_be 4 secret
    msg b'K' (p ++ s)
  frame_bytes (Frame.ready status) = msg b'Z' (u.encode status)
  frame_bytes Frame.empty_query = msg b'I' []
  frame_bytes Frame.parse_complete = msg b'1' []
  frame_bytes Frame.bind_complete = msg b'2' []
  frame_bytes Frame.close_complete = msg b'3' []
  frame_bytes Frame.no_data = msg b'n' []
  frame_bytes (Frame.parameter_description oids) = do
    count ← pack_be 2 (length oids)
    os ← pack_oids oids
    msg b't' (count ++ os)
  frame_bytes (Frame.row_description fields) = do
    count ← pack_be 2 (length fields)
    fs ← pack_fields fields
    msg b'T' (count ++ fs)
  frame_bytes (Frame.data_row cells) = do
    count ← pack_be 2 (length cells)
    cs ← pack_cells cells
    msg b'D' (count ++ cs)
  frame_bytes (Frame.command_complete tag) = msg b'C' (cstring u (tag_text str tag))
  frame_bytes (Frame.error_response severity sqlstate message) =
      msg b'E' (error_fields u severity sqlstate message)
