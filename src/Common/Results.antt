-- ===== src/Common/Results.antt =====
-- Python exceptions as values: the classes of exception that the modelled code raises.
use Prim.Native.String.{String}

-- `key_error`: KeyError; `runtime_error`: RuntimeError; `struct_error`: struct.error;
-- `io_error`: any exception of a file operation; `file_not_found`: FileNotFoundError; `cancelled`:
-- Cancelled or CancelledByUser; `protocol_error`: ProtocolError; `parse_error`: either ParseError; `not_implemented`: NotImplementedError;
-- `pg_error`: PGError with its SQLSTATE. Messages are left out.
pub data Error : Type 0 where
  key_error runtime_error struct_error io_error file_not_found value_error type_error : Error
  cancelled protocol_error parse_error not_implemented : Error
  pg_error : String → Error

-- What a call returns, or the exception that it raises.
pub data Result {ℓ} (A : Type ℓ) : Type ℓ where
  err : Error → Result A
  ok : A → Result A

-- The statements after a call, which an exception skips.
infixl 5 ◌>>=◌
abbrev pub ◌>>=◌ {ℓ κ} : {A : Type ℓ} {B : Type κ} → Result A → (A → Result B) → Result B
err raised >>= next = err raised
ok value >>= next = next value
