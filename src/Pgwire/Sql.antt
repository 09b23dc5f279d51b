-- ===== src/Pgwire/Sql.antt =====
-- ryudb/server/pgwire.py, what the front reads of a SQL text itself: `_split_statements`,
-- `_first_keyword`, `_command_tag`. The Unicode tables behind `str.isspace`, `str.isalpha` and
-- `str.upper` are parameters.
pub mod Lossless
use Prim.Native.Char.{Char, code}
use Prim.Native.String.{◌++◌ as ◌++ₛ◌}
use ryu_db.Common.{
  ℕ, zero, suc, ◌+◌, ◌-◌, String, Bool, true, false, not, ◌&&◌, ◌||◌, List, [], ◌∷◌, Option, none,
  some, ◌==◌, ◌=ₛ◌, if◌then◌else◌,
}
use ryu_db.Common.Integers.{ℤ, pos, ◌+ℤ◌, ◌-ℤ◌}

pub record Unicode : Type 0 where
  pub is_space : Char → Bool
  pub is_alpha : Char → Bool
  pub upper : Char → String

abbrev pub is_empty : String → Bool
is_empty String.[] = true
is_empty (String.◌∷◌ c s) = false

-- `if s: stmts.append(s)`
abbrev pub keep_stmt : String → List String → List String
keep_stmt s later = if is_empty s then later else s ∷ later

module _ (u : Unicode) where
  unfoldable pub lstrip : String → String
  lstrip String.[] = ""
  lstrip (String.◌∷◌ c s) = let rest = lstrip s in if u.is_space c then rest else String.◌∷◌ c s

  unfoldable pub rstrip : String → String
  rstrip String.[] = ""
  rstrip (String.◌∷◌ c s) =
      let rest = rstrip s in if u.is_space c && is_empty rest then "" else String.◌∷◌ c rest

  unfoldable pub strip : String → String
  unfolding lstrip rstrip
  strip s = rstrip (lstrip s)

  -- `s[s.find("*/") + 2:]`, or nothing without a `*/`
  unfoldable pub after_comment : String → Option String
  after_comment String.[] = none
  after_comment (String.◌∷◌ c String.[]) = none
  after_comment (String.◌∷◌ c (String.◌∷◌ d s)) =
      let rest = after_comment (String.◌∷◌ d s) in
      if code c == b'*' && code d == b'/' then some s else rest

  -- The comment at the front of a text whose blanks are gone.
  unfoldable pub skip_comment : String → String
  unfolding lstrip after_comment
  skip_comment (String.◌∷◌ c (String.◌∷◌ d s)) =
      if code c == b'/' && code d == b'*'
      then elim (after_comment (String.◌∷◌ c (String.◌∷◌ d s))) [
        | none ↦ String.◌∷◌ c (String.◌∷◌ d s)
        | some rest ↦ lstrip rest
      ]
      else String.◌∷◌ c (String.◌∷◌ d s)
  skip_comment s = s

  -- The loop of `_first_keyword`.
  unfoldable pub leading_word : String → String
  leading_word String.[] = ""
  leading_word (String.◌∷◌ c s) =
      let rest = leading_word s in if u.is_alpha c || code c == b'_' then u.upper c ++ₛ rest else ""

  unfoldable pub first_keyword : String → String
  unfolding skip_comment leading_word lstrip
  first_keyword sql = leading_word (skip_comment (lstrip sql))

  -- The end of a statement: `cur` is what has been collected of it.
  unfoldable pub finish_stmt : String → List String → List String
  unfolding strip
  finish_stmt cur later = keep_stmt (strip cur) later

-- Where the loop of `_split_statements` stands: outside quotes, inside those of a character, or before
-- the character that a backslash keeps.
pub data Mode : Type 0 where
  plain escaped : Mode
  quoted : ℕ → Mode

pub record Step : Type 0 where
  pub mode : Mode
  pub depth : ℤ
  pub cuts : Bool

abbrev pub step : Mode → ℤ → Bool → Step
step mode depth cuts = record { mode = mode; depth = depth; cuts = cuts }

abbrev is_zero : ℤ → Bool
is_zero (pos zero) = true
is_zero n = false

-- One round of the loop: what a character does to `quote` and `depth`, and whether it ends a statement.
unfoldable pub split_step : Mode → ℤ → Char → Step
split_step Mode.escaped depth ch = step (Mode.quoted b'\'') depth false
split_step (Mode.quoted quote) depth ch =
    if code ch == quote
    then step Mode.plain depth false
    else if code ch == b'\\' && quote == b'\''
    then step Mode.escaped depth false
    else step (Mode.quoted quote) depth false
split_step Mode.plain depth ch =
    if code ch == b'\'' || code ch == b'"'
    then step (Mode.quoted (code ch)) depth false
    else if code ch == b'('
    then step Mode.plain (depth +ℤ pos 1) false
    else if code ch == b')'
    then step Mode.plain (depth -ℤ pos 1) false
    else if code ch == b';' && is_zero depth
    then step Mode.plain depth true
    else step Mode.plain depth false

module _ (u : Unicode) where
  unfoldable pub split_loop : Mode → ℤ → String → String → List String
  unfolding split_step finish_stmt
  split_loop mode depth cur String.[] = finish_stmt u cur []
  split_loop mode depth cur (String.◌∷◌ ch s) =
      let next = split_step mode depth ch in
      let rest =
        split_loop next.mode next.depth (if next.cuts then "" else cur ++ₛ String.◌∷◌ ch String.[])
          s in
      if next.cuts then finish_stmt u cur rest else rest

  unfoldable pub split_statements : String → List String
  unfolding split_loop
  split_statements sql = split_loop Mode.plain (pos 0) "" sql
