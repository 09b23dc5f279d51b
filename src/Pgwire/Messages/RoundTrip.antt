-- ===== src/Pgwire/Messages/RoundTrip.antt =====
-- What the front reads of a client's message is what the client wrote.
use ryu_db.Common.{
  ℕ, ◌+◌, ◌-◌, ◌*◌, ◌^◌, ◌<◌, ◌≡◌, refl, ap, sym, ◌∙◌, String, false, List, [], ◌∷◌, ◌++◌,
  append-nil, append_assoc, Option, none, some, map, length, drop, All, ok, arith, length-append,
  ◌==◌, take-append_left, drop-append_left,
}
use ryu_db.Common.Integers.{pos, pos-add}
use ryu_db.Wal.Bytes.{Bytes}
use ryu_db.Pgwire.Bytes.{
  Utf8, to_be, unpack_be, split_be, unpack_list, signed, slice, cstring_and_rest, length-to_be,
  from_be-to_be, unpack_be-to_be, slice_here, drop_past, cut_at_nul_text,
}
use ryu_db.Pgwire.Messages.{
  read_message, readexactly, read_parse, read_parse_rest, BindMessage, read_value, read_params,
  any_binary, read_bind, read_bind_rest,
}
use ryu_db.Pgwire.Messages.Clients.{
  write_message, write_numbers, write_param, write_params, write_parse, write_bind, write_bind_rest,
  IsText, IsShort, IsParam,
}

readexactly_front :
    (n : ℕ) (front rest : Bytes)
    → n ≡ length front
    → readexactly n (front ++ rest) ≡ ok (front, rest)
unfolding readexactly
readexactly_front n front rest e = ground (
  arith,
  length-append front rest,
  take-append_left n front rest e,
  drop-append_left n front rest e,
)

-- A message of fewer than 2 ^ 32 - 4 bytes, but for a Terminate, is read whole from the stream, and
-- the stream goes on right behind it.
pub read_message-write :
    (t : ℕ) (payload rest : Bytes)
    → (t == b'X') ≡ false
    → length payload + 4 < 256 ^ 4
    → read_message (write_message t payload ++ rest) ≡ ok (t, payload, rest)
unfolding read_message
read_message-write t payload rest h short =
    let n = length payload + 4 in
    rw
      (
        h,
        append_assoc (to_be 4 n) payload rest,
        readexactly_front 4 (to_be 4 n) (payload ++ rest) (sym (length-to_be 4 n)),
        unpack_be-to_be 4 n short,
        readexactly_front (n - 4) payload rest (omega arith),
      )
      (ground arith)

pub cstring_and_rest_text :
    (u : Utf8) (s : String) (rest : Bytes)
    → IsText u s
    → cstring_and_rest u (u.encode s ++ 0 ∷ rest) ≡ (s, rest)
unfolding cstring_and_rest
cstring_and_rest_text u s rest h =
    rw (cut_at_nul_text (u.encode s) rest h.no_nul, h.decode-encode) refl

length-write_numbers : (k : ℕ) (ns : List ℕ) → length (write_numbers k ns) ≡ length ns * k
length-write_numbers k [] = omega arith
length-write_numbers k (n ∷ ns) = omega (
  arith,
  length-append (to_be k n) (write_numbers k ns),
  length-to_be k n,
  length-write_numbers k ns,
)

split_be-write :
    (k : ℕ) (ns : List ℕ)
    → All (λ n. n < 256 ^ k) ns
    → split_be k (length ns) (write_numbers k ns) ≡ ns
unfolding split_be
split_be-write k [] h = refl
split_be-write k (n ∷ ns) h = ground (
  arith,
  take-append_left k (to_be k n) (write_numbers k ns) (sym (length-to_be k n)),
  drop-append_left k (to_be k n) (write_numbers k ns) (sym (length-to_be k n)),
  from_be-to_be k n h.0,
  split_be-write k ns h.1,
)

-- The numbers of a list, at their offset.
module _ (k : ℕ) (ns : List ℕ) (h : IsShort k ns) where
  unpack_list-write : unpack_list k (length ns) (write_numbers k ns) ≡ ok ns
  unfolding unpack_list
  unpack_list-write = ground (arith, length-write_numbers k ns, split_be-write k ns h.within)

signed_small : (k n : ℕ) → n + n < 256 ^ k → signed k n ≡ pos n
unfolding signed
signed_small k n h = ground arith

value_at :
    (b : Bytes) (start : ℕ) (v tail : Bytes) {end : ℕ}
    → drop start b ≡ v ++ tail
    → start + length v ≡ end
    → read_value b (pos start) (pos (length v)) ≡ (some v, pos end)
unfolding read_value
value_at b start v tail h e =
    rw (pos-add start (length v), slice_here b start (length v) v tail h refl, e) refl

module _ (b : Bytes) (off : ℕ) where
  number_at :
      (k n : ℕ) (tail : Bytes)
      → drop off b ≡ to_be k n ++ tail
      → n < 256 ^ k
      → unpack_be k (slice b (pos off) (pos (off + k))) ≡ ok n
  number_at k n tail h small =
      rw (slice_here b off k (to_be k n) tail h (sym (length-to_be k n)), unpack_be-to_be k n small)
        refl

  list_at :
      (k : ℕ) (ns : List ℕ) (tail : Bytes) (size : ℕ)
      → drop off b ≡ write_numbers k ns ++ tail
      → IsShort k ns
      → size ≡ k * length ns
      → unpack_list k (length ns) (slice b (pos off) (pos (off + size))) ≡ ok ns
  list_at k ns tail size h short e =
      rw
        (
          slice_here b off size (write_numbers k ns) tail h
              (omega (arith, length-write_numbers k ns)),
          unpack_list-write k ns short,
        )
        refl

  -- A parameter behind its length.
  param_at :
      (p : Option Bytes) (tail : Bytes)
      → drop off b ≡ write_param p ++ tail
      → IsParam p
      → (raw : ℕ) × (unpack_be 4 (slice b (pos off) (pos (off + 4))) ≡ ok raw)
        × (read_value b (pos (off + 4)) (signed 4 raw) ≡ (p, pos (off + length (write_param p))))
  unfolding signed read_value
  param_at none tail h small = (
    4_294_967_295,
    number_at 4 4_294_967_295 tail h (omega arith),
    rw (length-to_be 4 4_294_967_295) refl,
  )
  param_at (some v) tail h small =
      let h' : drop off b ≡ to_be 4 (length v) ++ (v ++ tail) =
        h ∙ append_assoc (to_be 4 (length v)) v tail in
      let after =
        drop_past b off 4 (to_be 4 (length v)) (v ++ tail) h' (sym (length-to_be 4 (length v))) in
      (
        length v,
        number_at 4 (length v) (v ++ tail) h' (omega arith),
        rw (signed_small 4 (length v) (omega arith)) (
            value_at b (off + 4) v tail after
              (omega (arith, length-append (to_be 4 (length v)) v, length-to_be 4 (length v)))),
      )

read_params-write :
    (ps : List (Option Bytes)) (b : Bytes) (off : ℕ) (tail : Bytes)
    → drop off b ≡ write_params ps ++ tail
    → All IsParam ps
    → read_params (length ps) b (pos off) ≡ ok (ps, pos (off + length (write_params ps)))
unfolding read_params
read_params-write [] b off tail h small = let z : off + 0 ≡ off = omega arith in rw z refl
read_params-write (p ∷ ps) b off tail h small =
    let h' = h ∙ append_assoc (write_param p) (write_params ps) tail in
    let (raw, here, value) = param_at b off p (write_params ps ++ tail) h' small.0 in
    let n = length (write_param p) in
    let after = drop_past b off n (write_param p) (write_params ps ++ tail) h' refl in
    let past : off + length (write_param p ++ write_params ps)
        ≡ off + n + length (write_params ps) =
      omega (arith, length-append (write_param p) (write_params ps)) in
    rw (pos-add off 4, here, value, read_params-write ps b (off + n) tail after small.1, past) refl

-- The parts of a Bind message behind its two names.
module _ (m : BindMessage) (sf : IsShort 2 m.fmts) (sr : IsShort 2 m.rfmts)
    (counted : length m.params < 65536) (sp : All IsParam m.params) (tf : any_binary m.fmts ≡ false)
    (tr : any_binary m.rfmts ≡ false) where
  abbrev body : Bytes
  body = write_bind_rest m.fmts m.params m.rfmts

  -- What stands from the parameters' number on.
  abbrev third : Bytes
  third = write_params m.params ++ (to_be 2 (length m.rfmts) ++ write_numbers 2 m.rfmts)

  abbrev past_fmts : ℕ
  past_fmts = 2 + 2 * length m.fmts

  abbrev past_params : ℕ
  past_params = past_fmts + 2 + length (write_params m.params)

  at_fmts : drop 2 body ≡ write_numbers 2 m.fmts ++ (to_be 2 (length m.params) ++ third)
  at_fmts =
      drop_past body 0 2 (to_be 2 (length m.fmts)) _ refl (sym (length-to_be 2 (length m.fmts)))

  at_nparams : drop past_fmts body ≡ to_be 2 (length m.params) ++ third
  at_nparams =
      drop_past body 2 (2 * length m.fmts) (write_numbers 2 m.fmts) _ at_fmts
        (omega (arith, length-write_numbers 2 m.fmts))

  at_params : drop (past_fmts + 2) body ≡ third
  at_params =
      drop_past body past_fmts 2 (to_be 2 (length m.params)) third at_nparams
        (sym (length-to_be 2 (length m.params)))

  at_nrfmt : drop past_params body ≡ to_be 2 (length m.rfmts) ++ write_numbers 2 m.rfmts
  at_nrfmt =
      drop_past body (past_fmts + 2) (length (write_params m.params)) (write_params m.params) _
        at_params refl

  at_rfmts : drop (past_params + 2) body ≡ write_numbers 2 m.rfmts ++ []
  at_rfmts =
      drop_past body past_params 2 (to_be 2 (length m.rfmts)) _ at_nrfmt
        (sym (length-to_be 2 (length m.rfmts)))
      ∙ sym (append-nil (write_numbers 2 m.rfmts))

  read_bind_rest-write : read_bind_rest m.portal m.stmt_name body ≡ ok m
  unfolding read_bind_rest
  read_bind_rest-write =
      rw
        (
          number_at body 0 2 (length m.fmts) _ refl sf.counted,
          list_at body 2 2 m.fmts _ (2 * length m.fmts) at_fmts sf refl,
          number_at body past_fmts 2 (length m.params) third at_nparams counted,
          read_params-write m.params body (past_fmts + 2) _ at_params sp,
          pos-add past_params 2,
          number_at body past_params 2 (length m.rfmts) _ at_nrfmt sr.counted,
          pos-add (past_params + 2) (2 * length m.rfmts),
          list_at body (past_params + 2) 2 m.rfmts [] (2 * length m.rfmts) at_rfmts sr refl,
          tf,
          tr,
        )
        refl

read_bind_parts :
    (u : Utf8) (payload after rest : Bytes) (portal stmt_name : String)
    → cstring_and_rest u payload ≡ (portal, after)
    → cstring_and_rest u after ≡ (stmt_name, rest)
    → read_bind u payload ≡ read_bind_rest portal stmt_name rest
unfolding read_bind
read_bind_parts u payload after rest portal stmt_name first second =
    ap (λ (p : String × Bytes). let q = cstring_and_rest u p.1 in read_bind_rest p.0 q.0 q.1) first
    ∙ ap (λ (p : String × Bytes). read_bind_rest portal p.0 p.1) second

-- A Bind message whose texts have no zero byte, whose lists fit their two-byte counts and whose
-- formats are text is read as the client wrote it: names, formats, parameters with NULL among them.
pub read_bind-write :
    (u : Utf8) (m : BindMessage)
    → IsText u m.portal
    → IsText u m.stmt_name
    → IsShort 2 m.fmts
    → IsShort 2 m.rfmts
    → length m.params < 65536
    → All IsParam m.params
    → any_binary m.fmts ≡ false
    → any_binary m.rfmts ≡ false
    → read_bind u (write_bind u m) ≡ ok m
read_bind-write u m portal stmt sf sr counted sp tf tr =
    let rest = write_bind_rest m.fmts m.params m.rfmts in
    let after = u.encode m.stmt_name ++ 0 ∷ rest in
    read_bind_parts u (write_bind u m) after rest m.portal m.stmt_name
      (cstring_and_rest_text u m.portal after portal)
      (cstring_and_rest_text u m.stmt_name rest stmt)
    ∙ read_bind_rest-write m sf sr counted sp tf tr

read_parse_rest-write :
    (name sql : String) (oids : List ℕ)
    → IsShort 4 oids
    → read_parse_rest name sql (to_be 2 (length oids) ++ write_numbers 4 oids)
      ≡ ok (record { name = name; sql = sql; oids = map (signed 4) oids })
unfolding read_parse_rest
read_parse_rest-write name sql oids short =
    let body = to_be 2 (length oids) ++ write_numbers 4 oids in
    let at_oids : drop 2 body ≡ write_numbers 4 oids ++ [] =
      drop_past body 0 2 (to_be 2 (length oids)) (write_numbers 4 oids) refl
        (sym (length-to_be 2 (length oids)))
      ∙ sym (append-nil (write_numbers 4 oids)) in
    rw
      (
        number_at body 0 2 (length oids) (write_numbers 4 oids) refl short.counted,
        list_at body 2 4 oids [] (4 * length oids) at_oids short refl,
      )
      refl

-- A Parse message whose texts have no zero byte and whose types fit a two-byte count is read as the
-- client wrote it, the types as signed numbers.
pub read_parse-write :
    (u : Utf8) (name sql : String) (oids : List ℕ)
    → IsText u name
    → IsText u sql
    → IsShort 4 oids
    → read_parse u (write_parse u name sql oids)
      ≡ ok (record { name = name; sql = sql; oids = map (signed 4) oids })
unfolding read_parse
read_parse-write u name sql oids hn hs short =
    let body = to_be 2 (length oids) ++ write_numbers 4 oids in
    ap (λ (p : String × Bytes). let q = cstring_and_rest u p.1 in read_parse_rest p.0 q.0 q.1)
      (cstring_and_rest_text u name (u.encode sql ++ 0 ∷ body) hn)
    ∙ ap (λ (p : String × Bytes). read_parse_rest name p.0 p.1)
        (cstring_and_rest_text u sql body hs)
    ∙ read_parse_rest-write name sql oids short
