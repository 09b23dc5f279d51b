-- ===== src/Pgwire/Messages/Clients.antt =====
-- The messages of PostgreSQL's protocol as a client writes them, independently of what reads them.
use ryu_db.Common.{
  ℕ, ◌+◌, ◌^◌, ◌<◌, ◌≡◌, String, false, List, [], ◌∷◌, ◌++◌, Option, none, some, length, All,
}
use ryu_db.Wal.Bytes.{Bytes}
use ryu_db.Pgwire.Bytes.{Utf8, to_be, has_nul}
use ryu_db.Pgwire.Messages.{BindMessage}

-- Type byte, length with its own four bytes, payload.
abbrev pub write_message : ℕ → Bytes → Bytes
write_message t payload = t ∷ (to_be 4 (length payload + 4) ++ payload)

abbrev pub write_numbers : ℕ → List ℕ → Bytes
write_numbers k [] = []
write_numbers k (n ∷ ns) = to_be k n ++ write_numbers k ns

-- A parameter: its length, or -1 for NULL, and its bytes.
abbrev pub write_param : Option Bytes → Bytes
write_param none = to_be 4 4_294_967_295
write_param (some b) = to_be 4 (length b) ++ b

abbrev pub write_params : List (Option Bytes) → Bytes
write_params [] = []
write_params (p ∷ ps) = write_param p ++ write_params ps

abbrev pub write_parse : Utf8 → String → String → List ℕ → Bytes
write_parse u name sql oids =
    u.encode name ++ 0 ∷ (u.encode sql ++ 0 ∷ (to_be 2 (length oids) ++ write_numbers 4 oids))

abbrev pub write_bind_rest : List ℕ → List (Option Bytes) → List ℕ → Bytes
write_bind_rest fmts params rfmts =
    to_be 2 (length fmts)
    ++ (write_numbers 2 fmts
        ++ (to_be 2 (length params)
            ++ (write_params params ++ (to_be 2 (length rfmts) ++ write_numbers 2 rfmts))))

abbrev pub write_bind : Utf8 → BindMessage → Bytes
write_bind u m =
    u.encode m.portal ++ 0 ∷ (u.encode m.stmt_name ++ 0 ∷ write_bind_rest m.fmts m.params m.rfmts)

-- A text that the codec gives back and that no zero byte cuts off.
pub record IsText (u : Utf8) (s : String) : Type 0 where
  pub decode-encode : u.decode (u.encode s) ≡ s
  pub no_nul : has_nul (u.encode s) ≡ false

-- A list that its two-byte number of elements and their `k` bytes can hold.
pub record IsShort (k : ℕ) (ns : List ℕ) : Type 0 where
  pub counted : length ns < 65536
  pub within : All (λ n. n < 256 ^ k) ns

abbrev pub IsParam : Option Bytes → Type 0
IsParam none = Unit {0}
IsParam (some b) = length b < 2_147_483_648
