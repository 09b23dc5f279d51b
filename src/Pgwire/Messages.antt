-- ===== src/Pgwire/Messages.antt =====
-- ryudb/server/pgwire.py, what `loop`, `_parse`, `_bind`, `_execute` and `_describe` read of the bytes
-- that a client sends.
pub mod Clients
pub mod RoundTrip
use ryu_db.Common.{
  ℕ, zero, suc, ◌+◌, ◌-◌, ◌*◌, ◌^◌, String, Bool, true, false, ◌||◌, List, [], ◌∷◌, ◌++◌, Option,
  none, some, map, ltb, ◌==◌, length, take, drop, Result, ok, err, struct_error, runtime_error,
  value_error, io_error, ◌>>=◌, if◌then◌else◌,
}
use ryu_db.Common.Integers.{ℤ, pos, negsuc, ◌+ℤ◌}
use ryu_db.Wal.Bytes.{Bytes}
use ryu_db.Pgwire.Bytes.{Utf8, unpack_be, unpack_list, signed, slice, cstring_and_rest}

-- `reader.readexactly(n)` on a stream that has ended after `stream`: a stream that is too short is an
-- IncompleteReadError.
unfoldable pub readexactly : ℕ → Bytes → Result (Bytes × Bytes)
readexactly n stream =
    if ltb (length stream) n then err io_error else ok (take n stream, drop n stream)

-- The type byte and the payload of the next message, and what follows it. Only Terminate, which is the
-- byte `X`, has no more to it; a length below 4 is a ValueError of `readexactly`.
unfoldable pub read_message : Bytes → Result (ℕ × Bytes × Bytes)
unfolding readexactly unpack_be
read_message [] = err io_error
read_message (t ∷ stream) = if t == b'X' then ok (t, [], stream) else read_payload
  where
    read_payload : Result (ℕ × Bytes × Bytes)
    read_payload = do
      (header, after) ← readexactly 4 stream
      n ← unpack_be 4 header
      (payload, rest) ← (if ltb n 4 then err value_error else readexactly (n - 4) after)
      ok (t, payload, rest)

pub record ParseMessage : Type 0 where
  pub name : String
  pub sql : String
  pub oids : List ℤ

-- `_parse` behind the two texts.
unfoldable pub read_parse_rest : String → String → Bytes → Result ParseMessage
unfolding unpack_be slice unpack_list signed
read_parse_rest name sql rest = do
  nparams ← unpack_be 2 (slice rest (pos 0) (pos 2))
  oids ← unpack_list 4 nparams (slice rest (pos 2) (pos (2 + 4 * nparams)))
  ok (record { name = name; sql = sql; oids = map (signed 4) oids })

unfoldable pub read_parse : Utf8 → Bytes → Result ParseMessage
unfolding cstring_and_rest read_parse_rest
read_parse u payload =
    let (name, after_name) = cstring_and_rest u payload in
    let (sql, rest) = cstring_and_rest u after_name in read_parse_rest name sql rest

pub record BindMessage : Type 0 where
  pub portal : String
  pub stmt_name : String
  pub fmts : List ℕ
  pub params : List (Option Bytes)
  pub rfmts : List ℕ

-- A parameter of a length that starts at `start`, and the offset past it.
unfoldable pub read_value : Bytes → ℤ → ℤ → Option Bytes × ℤ
unfolding slice
read_value rest start (negsuc zero) = (none, start)
read_value rest start (negsuc (suc k)) =
    (some (slice rest start (start +ℤ negsuc (suc k))), start +ℤ negsuc (suc k))
read_value rest start (pos k) = (some (slice rest start (start +ℤ pos k)), start +ℤ pos k)

-- The loop of `_bind` over the parameters: what it has read, and the offset past it. A length below -1
-- moves the offset back, as the code has it.
unfoldable pub read_params : ℕ → Bytes → ℤ → Result (List (Option Bytes) × ℤ)
unfolding unpack_be slice signed read_value
read_params zero rest off = ok ([], off)
read_params (suc n) rest off = do
  raw ← unpack_be 4 (slice rest off (off +ℤ pos 4))
  let (value, next) = read_value rest (off +ℤ pos 4) (signed 4 raw)
  (values, end) ← read_params n rest next
  ok (value ∷ values, end)

-- `any(f == 1 for f in fmts)`
abbrev pub any_binary : List ℕ → Bool
any_binary [] = false
any_binary (f ∷ fs) = f == 1 || any_binary fs

-- `_bind` behind the two names, up to where it looks the statement up.
unfoldable pub read_bind_rest : String → String → Bytes → Result BindMessage
unfolding unpack_be slice unpack_list read_params
read_bind_rest portal stmt_name rest = do
  nfmt ← unpack_be 2 (slice rest (pos 0) (pos 2))
  fmts ← unpack_list 2 nfmt (slice rest (pos 2) (pos (2 + 2 * nfmt)))
  let off = 2 + 2 * nfmt
  nparams ← unpack_be 2 (slice rest (pos off) (pos (off + 2)))
  (params, end) ← read_params nparams rest (pos (off + 2))
  nrfmt ← unpack_be 2 (slice rest end (end +ℤ pos 2))
  rfmts ← unpack_list 2 nrfmt (slice rest (end +ℤ pos 2) (end +ℤ pos 2 +ℤ pos (2 * nrfmt)))
  if any_binary rfmts || any_binary fmts
      then err runtime_error
      else ok (record {
        portal = portal;
        stmt_name = stmt_name;
        fmts = fmts;
        params = params;
        rfmts = rfmts;
      })

unfoldable pub read_bind : Utf8 → Bytes → Result BindMessage
unfolding cstring_and_rest read_bind_rest
read_bind u payload =
    let (portal, after_portal) = cstring_and_rest u payload in
    let (stmt_name, rest) = cstring_and_rest u after_portal in read_bind_rest portal stmt_name rest

-- `_execute`: the portal, and the cap on the rows.
unfoldable pub read_execute : Utf8 → Bytes → Result (String × ℕ)
unfolding cstring_and_rest unpack_be slice
read_execute u payload =
    let (portal, rest) = cstring_and_rest u payload in
    do maxrows ← unpack_be 4 (slice rest (pos 0) (pos 4)); ok (portal, maxrows)

-- `_describe` and `_close`: whether the name is a statement's, and the name.
unfoldable pub read_target : Utf8 → Bytes → Bool × String
unfolding cstring_and_rest
read_target u [] = (false, (cstring_and_rest u []).0)
read_target u (what ∷ rest) = (what == b'S', (cstring_and_rest u rest).0)
