-- ===== src/Pgwire/Params.antt =====
-- ryudb/server/pgwire.py, `_substitute_params` and `_param_literal_node`: the values of a Bind message
-- in place of `$N`. The parser and printer of SQL, and Python's reading of numbers, are parameters.
use ryu_db.Common.{
  ℕ, zero, suc, ◌+◌, String, Bool, false, ◌||◌, List, [], ◌∷◌, Option, none, some, map, length,
  ◌==◌, ◌=ₛ◌, Result, ok, ◌>>=◌, if◌then◌else◌,
}
use ryu_db.Common.Dict.{Dict, lookup, insert}
use ryu_db.Common.Integers.{ℤ, pos}
use ryu_db.Wal.Bytes.{Bytes}

-- The expressions that stand for a value.
pub data Literal : Type 0 where
  null : Literal
  number string : String → Literal
  boolean : Bool → Literal

-- `parse_one`; the names of the `exp.Parameter` nodes, in the order of `find_all`; the text of the tree
-- with those nodes replaced, in that order; `str(i)`; `str(int(s))` and `repr(float(s))`, `none` for a
-- ValueError; `decode(errors="replace")`.
pub record SqlText (Tree : Type 0) : Type 0 where
  pub parse_one : String → Result Tree
  pub parameters : Tree → List String
  pub replace_all : Tree → List Literal → String
  pub str : ℕ → String
  pub int_text : String → Option String
  pub float_text : String → Option String
  pub decode : Bytes → String

abbrev is_oid : ℕ → ℤ → Bool
is_oid n (pos m) = m == n
is_oid n other = false

abbrev number_or_null : Option String → Literal
number_or_null none = Literal.null
number_or_null (some n) = Literal.number n

module _ {Tree : Type 0} (q : SqlText Tree) where
  unfoldable pub param_literal_node : Option Bytes → ℤ → Literal
  param_literal_node none oid = Literal.null
  param_literal_node (some value) oid =
      let s = q.decode value in
      if is_oid 21 oid || is_oid 23 oid || is_oid 20 oid
      then number_or_null (q.int_text s)
      else if is_oid 700 oid || is_oid 701 oid
      then number_or_null (q.float_text s)
      else if is_oid 16 oid
      then Literal.boolean (s =ₛ "t" || s =ₛ "true" || s =ₛ "TRUE" || s =ₛ "1")
      else Literal.string s

  -- The dict `by_index`, from position `i` on.
  unfoldable pub by_index : ℕ → List (Option Bytes) → Dict (Option Bytes) → Dict (Option Bytes)
  by_index i [] d = d
  by_index i (p ∷ ps) d = by_index (i + 1) ps (insert (q.str i) p d)

  -- `oids[i - 1] if i - 1 < len(oids) else 0`, with `k` for `i - 1`
  unfoldable pub oid_at : ℕ → List ℤ → ℤ
  oid_at k [] = pos 0
  oid_at zero (o ∷ os) = o
  oid_at (suc k) (o ∷ os) = oid_at k os

  -- `by_index.get(idx)`
  abbrev pub value_of : Option (Option Bytes) → Option Bytes
  value_of none = none
  value_of (some p) = p

  -- After the loop over the parameters `i` is their number, whatever node is replaced.
  unfoldable pub substitute_params : String → List (Option Bytes) → List ℤ → Result String
  unfolding by_index oid_at param_literal_node
  substitute_params sql [] oids = ok sql
  substitute_params sql (p ∷ ps) oids = do
    tree ← q.parse_one sql
    let values = by_index 1 (p ∷ ps) []
    let oid = oid_at (length ps) oids
    ok (
        q.replace_all tree
          (map (λ idx. param_literal_node (value_of (lookup idx values)) oid) (q.parameters tree)))
