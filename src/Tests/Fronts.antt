-- ===== src/Tests/Fronts.antt =====
-- The PostgreSQL front over a small engine: its tables are lists of rows of one cell, its transactions
-- numbers, and it knows a few statements.
use Prim.Native.Char.{char, code}
use Prim.Native.String.{[] as empty_text, ◌∷◌ as then_char}
use text.Mathlib.TextEquality.{eq_iff}
use ryu_db.Pgwire.Messages.{read_target, read_execute, read_bind}
use ryu_db.Pgwire.Params.{substitute_params}
use ryu_db.Pgwire.Sql.{strip, first_keyword}
use ryu_db.Pgwire.Session.{emit_result, emit_frames, limit_rows, data_rows, gate, exec}
use ryu_db.Pgwire.Session.Handlers.{
  settle, dispatch, describe, describe_portal, describe_output, describe_result, bind, execute,
  execute_portal, execute_open, execute_sql,
}
use ryu_db.Pgwire.Messages.Clients.{write_bind}
use ryu_db.Pgwire.Session.Cursors.{try_cursor_stmt, run_cursor_stmt, cursor_stmt}
use ryu_db.Pgwire.Session.Keeps.{IsOwnedIn}
use ryu_db.Pgwire.Session.Agreement.{handle-IsOwned}
use ryu_db.Pgwire.Session.Ready.{IsReady, handle-IsReady}
use ryu_db.Pgwire.Session.Aborted.{says, refusals, query_aborted}
use ryu_db.Pgwire.Session.Prepared.{describe_execute}
use ryu_db.Common.{
  ℕ, zero, suc, map, ◌+◌, ◌≡◌, ◌≢◌, ap, Bool-cases, inl, inr, refl, String, Bool, true, false, ◌&&◌,
  ◌||◌, Option, none, some, List, [], ◌∷◌, ◌++◌, length, take, drop, leb, ◌==◌, ◌=ₛ◌, Result, ok,
  err, runtime_error, value_error, if◌then◌else◌, arith,
}
use ryu_db.Common.Integers.{ℤ, pos, ◌+ℤ◌}
use ryu_db.Wal.Bytes.{Bytes}
use ryu_db.Pgwire.Bytes.{Utf8, cstring_and_rest, from_be, to_be}
use ryu_db.Pgwire.Frames.{Frame, DataType, Cell, Tag}
use ryu_db.Pgwire.Sql.{Unicode, split_statements}
use ryu_db.Pgwire.Params.{SqlText}
use ryu_db.Pgwire.Session.{Answer, Host, Conn, World}
use ryu_db.Pgwire.Session.Cursors.{Grammar}
use ryu_db.Pgwire.Session.Handlers.{Front, handle}
use ryu_db.Tests.Codec.{encode, decode}

abbrev pub ascii : Unicode
ascii = record {
  is_space = λ c. code c == 32;
  is_alpha = λ c. leb 65 (code c) && leb (code c) 90;
  upper = λ c. then_char c empty_text;
}

abbrev or_empty : Result String → String
or_empty (ok t) = t
or_empty (err e) = ""

abbrev pub utf8 : Utf8
utf8 = record { encode = encode; decode = λ b. or_empty (decode b) }

-- A table is the list of its rows; the engine counts the statements that it has run.
abbrev pub Rows : Type 0
Rows = List (List Cell)

abbrev pub three_rows : Rows
three_rows = (Cell.text "a" ∷ []) ∷ (Cell.text "b" ∷ []) ∷ (Cell.null ∷ []) ∷ []

abbrev pub run : ℕ → Option ℕ → String → Result (Answer Rows) × ℕ × Option ℕ
run e x sql =
    if sql =ₛ "SELECT"
    then (ok (Answer.table three_rows), e + 1, x)
    else if sql =ₛ "BEGIN"
    then (ok Answer.nothing, e + 1, some e)
    else if sql =ₛ "ROLLBACK" || sql =ₛ "COMMIT"
    then (ok Answer.nothing, e + 1, none)
    else (err runtime_error, e + 1, x)

abbrev slice_rows : Rows → ℤ → ℤ → Result Rows
slice_rows t (pos i) (pos n) = ok (take n (drop i t))
slice_rows t i n = err value_error

abbrev pick_rows : Rows → List ℕ → Rows
pick_rows t [] = []
pick_rows t (i ∷ is) = take 1 (drop i t) ++ pick_rows t is

abbrev pub host : Host ℕ ℕ Rows
host = record {
  run_sql = run;
  num_rows = length;
  schema = λ t. record { name = "x"; type = DataType.string } ∷ [];
  rows = λ t. t;
  slice = slice_rows;
  take = pick_rows;
  is_parse_error = λ e. false;
  message = λ e. "";
  unicode = ascii;
  max_rows = 2;
  max_cursors = 1;
}

-- The grammar knows one DECLARE, one FETCH and CLOSE ALL.
abbrev pub grammar : Grammar
grammar = record {
  declare_parts = λ s. ok ("c", "SELECT");
  fetch_words = λ s. "FORWARD" ∷ "2" ∷ "c" ∷ [];
  close_name = λ s. ok none;
  words = record { upper = λ s. s; int = λ s. if s =ₛ "2" then some (pos 2) else none };
}

abbrev pub sql_text : SqlText String
sql_text = record {
  parse_one = λ s. ok s;
  parameters = λ t. "1" ∷ [];
  replace_all = λ t ls. t;
  str = λ n. "1";
  int_text = λ s. some s;
  float_text = λ s. some s;
  decode = λ b. or_empty (decode b);
}

abbrev pub front : Front ℕ ℕ Rows String
front = record { host = host; grammar = grammar; sql_text = sql_text; utf8 = utf8 }

-- A connection that has bound the portal `P` to a SELECT, with the transaction given.
abbrev pub conn : Option ℕ → Bool → Conn ℕ Rows
conn txn failed = record {
  txn = txn;
  failed = failed;
  statements = [];
  oids = [];
  portals = ("P", ("SELECT", [], [])) ∷ [];
  portal_cache = [];
  cursors = [];
  store = [];
}

-- The ids are `i`, `ii`, `iii` and so on.
abbrev pub id_text : ℕ → String
id_text zero = "i"
id_text (suc n) = then_char (char 105 tt) (id_text n)

abbrev pub world : Option ℕ → Bool → World ℕ ℕ Rows
world txn failed = record { conn = conn txn failed; engine = 0; ids = id_text; sent = [] }

length-id_text : (n : ℕ) → length (encode (id_text n)) ≡ n + 1
length-id_text zero = refl
length-id_text (suc n) = omega (arith, length-id_text n)

ids_differ : (m n : ℕ) → m ≢ n → (id_text m =ₛ id_text n) ≡ false
ids_differ m n ne = elim (Bool-cases (id_text m =ₛ id_text n)) [
  | inl same ↦ absurd (
      ne (
        omega (
          arith,
          ap (λ t. length (encode t)) ((eq_iff (id_text m) (id_text n)).0 same),
          length-id_text m,
          length-id_text n,
        )))
  | inr other ↦ other
]

new_world-IsOwned : (txn : Option ℕ) (failed : Bool) → IsOwnedIn (world txn failed)
new_world-IsOwned txn failed = record {
  names = tt;
  apart = tt;
  stored = λ c. refl;
  new = λ n. refl;
  different = ids_differ;
}

-- The message of a simple query, and those of a portal.
abbrev query : String → Bytes
query sql = encode sql ++ 0 ∷ []

abbrev describe_p : Bytes
describe_p = b'P' ∷ encode "P" ++ 0 ∷ []

abbrev execute_p : Bytes
execute_p = encode "P" ++ 0 ∷ 0 ∷ 0 ∷ 0 ∷ 0 ∷ []

handle-IsOwned_example :
    IsOwnedIn (handle front b'Q' (query "DECLARE;SELECT") (world (some 0) false))
handle-IsOwned_example =
    handle-IsOwned front b'Q' (query "DECLARE;SELECT") (world (some 0) false)
      (new_world-IsOwned (some 0) false)

handle-IsReady_example : IsReady (handle front b'Q' (query "OTHER") (world (some 0) false))
handle-IsReady_example = handle-IsReady front b'Q' (query "OTHER") (world (some 0) false) refl

query_aborted_example :
    handle front b'Q' (query "SELECT;COMMIT") (world (some 0) true)
    ≡ says front
        (world (some 0) true)
        (refusals (split_statements ascii "SELECT;COMMIT") ++ Frame.ready "E" ∷ [])
unfolding cstring_and_rest split_statements strip first_keyword
query_aborted_example =
    query_aborted front (query "SELECT;COMMIT") (world (some 0) true) "SELECT;COMMIT" refl refl refl
      (refl, (refl, tt))

-- The server's limit is above the number of rows.
abbrev roomy : Front ℕ ℕ Rows String
roomy = record front { host = record host { max_rows = 5 } }

describe_execute_example :
    ((handle roomy b'E' execute_p (handle roomy b'D' describe_p (world none false))).engine ≡ 1)
    × ((handle roomy b'E' execute_p (handle roomy b'D' describe_p (world none false))).sent
        ≡ Frame.row_description (host.schema three_rows)
          ∷ (map Frame.data_row (host.rows three_rows)
              ++ Frame.command_complete (Tag.select 3) ∷ []))
unfolding substitute_params strip first_keyword read_target read_execute from_be
describe_execute_example =
    describe_execute roomy (world none false) "P" "SELECT" "SELECT" [] [] three_rows 1 none refl
      refl refl refl refl describe_p execute_p 0 refl refl refl refl (inl refl) (inr (omega arith))

-- In an aborted transaction a Describe of the portal runs its query all the same.
ungated_describe : (handle front b'D' describe_p (world (some 0) true)).engine ≡ 1
unfolding handle dispatch describe describe_portal describe_output describe_result exec settle
    substitute_params strip first_keyword read_target
ungated_describe = refl

-- The message that binds the portal `P` anew, to the statement `S`.
abbrev bind_p : Bytes
bind_p =
    write_bind utf8 (record { portal = "P"; stmt_name = "S"; fmts = []; params = []; rfmts = [] })

abbrev with_statement : World ℕ ℕ Rows
with_statement = record (world none false) {
  conn = record (conn none false) { statements = ("S", "BEGIN") ∷ [] };
}

-- A portal that has been described and is then bound to another statement sends the result of the
-- first, and the other is not run: the engine has run one statement.
rebound_portal :
    (handle front b'E' execute_p
      (handle front b'B' bind_p (handle front b'D' describe_p with_statement))).engine
    ≡ 1
unfolding handle dispatch describe describe_portal describe_output describe_result bind execute
    execute_portal execute_open execute_sql gate exec settle substitute_params strip first_keyword
    read_target read_execute read_bind from_be to_be try_cursor_stmt run_cursor_stmt cursor_stmt
    emit_result emit_frames limit_rows data_rows ◌+ℤ◌
rebound_portal = refl
