-- ===== src/Server/History/Newest.antt =====
-- The history is the newest of all that has been recorded.
use ryu_db.Common.{
  ℕ, zero, suc, ◌+◌, ◌-◌, ◌≤◌, ◌≡◌, refl, ap, sym, ◌∙◌, List, [], ◌∷◌, ◌++◌, append-nil,
  append_assoc, length, drop, drop-add, drop_all, length-append, length-drop, arith,
}
use ryu_db.Server.History.{Entry, record_history}

-- The entries recorded one after the other.
unfoldable pub record_all : ℕ → List Entry → List Entry → List Entry
record_all size [] history = history
record_all size (e ∷ es) history = record_all size es (record_history size e history)

-- The last `size` of a list.
abbrev pub newest : ℕ → List Entry → List Entry
newest size es = drop (length es - size) es

drop-append_short :
    (n : ℕ) (xs ys : List Entry) → n ≤ length xs → drop n (xs ++ ys) ≡ drop n xs ++ ys
drop-append_short zero xs ys h = refl
drop-append_short (suc n) [] ys h = absurd (omega arith)
drop-append_short (suc n) (x ∷ xs) ys h = drop-append_short n xs ys (omega arith)

-- Recording into the newest of some entries gives the newest of them and the new one.
record_history-newest :
    (size : ℕ) (e : Entry) (es : List Entry)
    → record_history size e (newest size es) ≡ newest size (es ++ e ∷ [])
unfolding record_history
record_history-newest size e es =
    let k = length es - size in
    let whole = es ++ e ∷ [] in
    let size_of : k + (length (drop k whole) - size) ≡ length whole - size =
      omega (arith, length-drop k whole, length-append es (e ∷ [])) in
    rw (← drop-append_short k es (e ∷ []) (omega arith))
      (sym (drop-add whole k (length (drop k whole) - size)) ∙ ap (λ n. drop n whole) size_of)

record_all-append :
    (size : ℕ) (more es : List Entry)
    → record_all size more (newest size es) ≡ newest size (es ++ more)
unfolding record_all
record_all-append size [] es = ap (newest size) (sym (append-nil es))
record_all-append size (e ∷ more) es =
    ap (record_all size more) (record_history-newest size e es)
    ∙ record_all-append size more (es ++ e ∷ [])
    ∙ ap (newest size) (append_assoc es (e ∷ []) more)

-- From a start with an empty buffer, whatever is recorded, the history holds the newest entries, in
-- order, and never more of them than its size.
pub record_all-newest :
    (size : ℕ) (es : List Entry)
    → (record_all size es [] ≡ newest size es) × (length (record_all size es []) ≤ size)
record_all-newest size es =
    let start : newest size [] ≡ [] = drop_all (0 - size) [] (omega arith) in
    let e = ap (record_all size es) (sym start) ∙ record_all-append size es [] in
    (e, rw e (omega (arith, length-drop (length es - size) es)))
