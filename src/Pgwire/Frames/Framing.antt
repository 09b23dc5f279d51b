-- ===== src/Pgwire/Frames/Framing.antt =====
-- Every message of the front says its own length.
use ryu_db.Common.{
  ℕ, ◌+◌, ◌^◌, String, ◌≡◌, refl, ◌⊎◌, inl, inr, false, [], ◌++◌, length, Result, ok, err, ◌>>=◌,
  ◌==◌, arith, Bool-cases, ltb,
}
use ryu_db.Wal.Bytes.{Bytes}
use ryu_db.Pgwire.Bytes.{Utf8, pack_be, cstring}
use ryu_db.Pgwire.Frames.{
  Frame, msg, frame_bytes, error_fields, pack_oids, pack_fields, pack_cells, tag_text,
}
use ryu_db.Pgwire.Messages.{read_message}
use ryu_db.Pgwire.Messages.RoundTrip.{read_message-write}

-- Bytes, if there are any, that a reader takes from a stream as one message.
abbrev pub IsMessage : Result Bytes → Type 0
IsMessage (err e) = Unit {0}
IsMessage (ok b) =
    (rest : Bytes)
    → (t : ℕ) × (payload : Bytes) × (read_message (b ++ rest) ≡ ok (t, payload, rest))

msg-IsMessage : (t : ℕ) (payload : Bytes) → (t == b'X') ≡ false → IsMessage (msg t payload)
unfolding msg pack_be
msg-IsMessage t payload h = elim (Bool-cases (ltb (length payload + 4) (256 ^ 4))) [
  | inl fits ↦
      rw fits (λ rest. (t, payload, read_message-write t payload rest h (ground (arith, fits))))
  | inr long ↦ rw long tt
]

>>=-IsMessage :
    {A : Type 0} (m : Result A) (next : A → Result Bytes)
    → ((a : A) → IsMessage (next a))
    → IsMessage (m >>= next)
>>=-IsMessage (err e) next h = tt
>>=-IsMessage (ok a) next h = h a

-- Every message that the front sends but the single byte that refuses SSL, if its lengths fit their
-- fields so that there are bytes at all, is read by its length as one message, at any place of a stream.
pub frame_bytes-IsMessage :
    (u : Utf8) (str : ℕ → String) (frame : Frame)
    → (frame ≡ Frame.refuse_ssl) ⊎ IsMessage (frame_bytes u str frame)
unfolding frame_bytes
frame_bytes-IsMessage u str Frame.refuse_ssl = inl refl
frame_bytes-IsMessage u str Frame.authentication_ok =
    inr (>>=-IsMessage (pack_be 4 0) _ (λ c. msg-IsMessage b'R' c refl))
frame_bytes-IsMessage u str (Frame.backend_key_data pid secret) = inr (
    >>=-IsMessage (pack_be 4 pid) _
      (λ p. >>=-IsMessage (pack_be 4 secret) _ (λ s. msg-IsMessage b'K' (p ++ s) refl)))
frame_bytes-IsMessage u str (Frame.ready status) = inr (msg-IsMessage b'Z' (u.encode status) refl)
frame_bytes-IsMessage u str Frame.empty_query = inr (msg-IsMessage b'I' [] refl)
frame_bytes-IsMessage u str Frame.parse_complete = inr (msg-IsMessage b'1' [] refl)
frame_bytes-IsMessage u str Frame.bind_complete = inr (msg-IsMessage b'2' [] refl)
frame_bytes-IsMessage u str Frame.close_complete = inr (msg-IsMessage b'3' [] refl)
frame_bytes-IsMessage u str Frame.no_data = inr (msg-IsMessage b'n' [] refl)
frame_bytes-IsMessage u str (Frame.parameter_description oids) = inr (
    >>=-IsMessage (pack_be 2 (length oids)) _
      (λ c. >>=-IsMessage (pack_oids u str oids) _ (λ os. msg-IsMessage b't' (c ++ os) refl)))
frame_bytes-IsMessage u str (Frame.row_description fields) = inr (
    >>=-IsMessage (pack_be 2 (length fields)) _
      (λ c. >>=-IsMessage (pack_fields u str fields) _ (λ fs. msg-IsMessage b'T' (c ++ fs) refl)))
frame_bytes-IsMessage u str (Frame.data_row cells) = inr (
    >>=-IsMessage (pack_be 2 (length cells)) _
      (λ c. >>=-IsMessage (pack_cells u str cells) _ (λ cs. msg-IsMessage b'D' (c ++ cs) refl)))
frame_bytes-IsMessage u str (Frame.command_complete tag) =
    inr (msg-IsMessage b'C' (cstring u (tag_text str tag)) refl)
frame_bytes-IsMessage u str (Frame.error_response severity sqlstate message) =
    inr (msg-IsMessage b'E' (error_fields u severity sqlstate message) refl)
