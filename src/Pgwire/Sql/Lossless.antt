-- ===== src/Pgwire/Sql/Lossless.antt =====
-- Splitting a text into statements loses nothing but blanks and semicolons.
use Prim.Native.Char.{Char, code}
use Prim.Native.String.{◌++◌ as ◌++ₛ◌}
use text.Mathlib.TextLemmas.{nil-append, append_assoc, cons-append}
use ryu_db.Common.{
  String, ◌≡◌, refl, ap, sym, ◌∙◌, true, false, ◌||◌, List, [], ◌∷◌, All, ◌==◌, if◌then◌else◌,
  arith, Bool-cases, inl, inr,
}
use ryu_db.Common.Integers.{ℤ, pos}
use ryu_db.Pgwire.Sql.{
  Unicode, Mode, is_empty, lstrip, rstrip, strip, keep_stmt, finish_stmt, split_step, split_loop,
  split_statements,
}

-- The statements one after the other.
abbrev pub joined : List String → String
joined [] = ""
joined (s ∷ ss) = s ++ₛ joined ss

module _ (u : Unicode) where
  -- A text without its blanks and semicolons.
  unfoldable pub dense : String → String
  dense String.[] = ""
  dense (String.◌∷◌ c s) =
      let rest = dense s in if u.is_space c || code c == b';' then rest else String.◌∷◌ c rest

  dense-append : (s t : String) → dense (s ++ₛ t) ≡ dense s ++ₛ dense t
  unfolding dense
  dense-append String.[] t = rw (nil-append t, nil-append (dense t)) refl
  dense-append (String.◌∷◌ c s) t =
      rw (cons-append c s t) (ground (arith, dense-append s t, cons-append c (dense s) (dense t)))

  dense-lstrip : (s : String) → dense (lstrip u s) ≡ dense s
  unfolding dense lstrip
  dense-lstrip String.[] = refl
  dense-lstrip (String.◌∷◌ c s) = ground (arith, dense-lstrip s)

  is_empty-dense : (s : String) → is_empty s ≡ true → dense s ≡ ""
  unfolding dense
  is_empty-dense String.[] h = refl
  is_empty-dense (String.◌∷◌ c s) h = cc

  dense-rstrip : (s : String) → dense (rstrip u s) ≡ dense s
  unfolding dense rstrip
  dense-rstrip String.[] = refl
  dense-rstrip (String.◌∷◌ c s) = ground (arith, dense-rstrip s, is_empty-dense (rstrip u s))

  dense-strip : (s : String) → dense (strip u s) ≡ dense s
  unfolding strip
  dense-strip s = dense-rstrip (lstrip u s) ∙ dense-lstrip s

  dense-keep_stmt :
      (s : String) (later : List String)
      → dense (joined (keep_stmt s later)) ≡ dense s ++ₛ dense (joined later)
  unfolding dense
  dense-keep_stmt String.[] later = sym (nil-append (dense (joined later)))
  dense-keep_stmt (String.◌∷◌ c s) later = dense-append (String.◌∷◌ c s) (joined later)

  dense-finish_stmt :
      (cur : String) (later : List String)
      → dense (joined (finish_stmt u cur later)) ≡ dense cur ++ₛ dense (joined later)
  unfolding finish_stmt
  dense-finish_stmt cur later =
      dense-keep_stmt (strip u cur) later ∙ ap (λ s. s ++ₛ dense (joined later)) (dense-strip cur)

  cuts_at_semicolon :
      (m : Mode) (depth : ℤ) (c : Char)
      → (split_step m depth c).cuts ≡ true
      → (code c == b';') ≡ true
  unfolding split_step
  cuts_at_semicolon Mode.plain depth c h = ground arith
  cuts_at_semicolon Mode.escaped depth c h = cc
  cuts_at_semicolon (Mode.quoted q) depth c h = ground arith

  -- Dropping a separator, and collecting any other character.
  dense_separator :
      (c : Char) (s : String)
      → (code c == b';') ≡ true
      → dense "" ++ₛ dense s ≡ dense (String.◌∷◌ c s)
  unfolding dense
  dense_separator c s h = ground (arith, nil-append (dense s))

  dense_one :
      (c : Char) (s : String) → dense (String.◌∷◌ c String.[]) ++ₛ dense s ≡ dense (String.◌∷◌ c s)
  unfolding dense
  dense_one c s = ground (arith, nil-append (dense s), cons-append c String.[] (dense s))

  dense_collected :
      (cur : String) (c : Char) (s : String)
      → dense (cur ++ₛ String.◌∷◌ c String.[]) ++ₛ dense s ≡ dense cur ++ₛ dense (String.◌∷◌ c s)
  dense_collected cur c s = ground (
    arith,
    dense-append cur (String.◌∷◌ c String.[]),
    append_assoc (dense cur) (dense (String.◌∷◌ c String.[])) (dense s),
    dense_one c s,
  )

  dense-split_loop :
      (sql cur : String) (m : Mode) (depth : ℤ)
      → dense (joined (split_loop u m depth cur sql)) ≡ dense cur ++ₛ dense sql
  unfolding split_loop
  dense-split_loop String.[] cur m depth = dense-finish_stmt cur []
  dense-split_loop (String.◌∷◌ c s) cur m depth =
      let next = split_step m depth c in
      elim (Bool-cases next.cuts) [
        | inl cut ↦ rw cut (
            dense-finish_stmt cur _
            ∙ ap (λ t. dense cur ++ₛ t)
                (dense-split_loop s "" next.mode next.depth
                  ∙ dense_separator c s (cuts_at_semicolon m depth c cut)))
        | inr kept ↦ rw kept (
            dense-split_loop s (cur ++ₛ String.◌∷◌ c String.[]) next.mode next.depth
            ∙ dense_collected cur c s)
      ]

  keep_stmt-All :
      (s : String) (later : List String)
      → All (λ s. is_empty s ≡ false) later
      → All (λ s. is_empty s ≡ false) (keep_stmt s later)
  keep_stmt-All String.[] later h = h
  keep_stmt-All (String.◌∷◌ c s) later h = (refl, h)

  split_loop-All :
      (sql cur : String) (m : Mode) (depth : ℤ)
      → All (λ s. is_empty s ≡ false) (split_loop u m depth cur sql)
  unfolding split_loop finish_stmt
  split_loop-All String.[] cur m depth = keep_stmt-All (strip u cur) [] tt
  split_loop-All (String.◌∷◌ c s) cur m depth =
      let next = split_step m depth c in
      elim (Bool-cases next.cuts) [
        | inl cut ↦
            rw cut (keep_stmt-All (strip u cur) _ (split_loop-All s "" next.mode next.depth))
        | inr kept ↦
            rw kept (split_loop-All s (cur ++ₛ String.◌∷◌ c String.[]) next.mode next.depth)
      ]

  -- Splitting the text of a simple query gives statements that are not empty and that hold, one after
  -- the other, all of its characters in their order but blanks and semicolons.
  pub dense-split_statements :
      (sql : String)
      → All (λ s. is_empty s ≡ false) (split_statements u sql)
        × (dense (joined (split_statements u sql)) ≡ dense sql)
  unfolding split_statements dense
  dense-split_statements sql = (
    split_loop-All sql "" Mode.plain (pos 0),
    dense-split_loop sql "" Mode.plain (pos 0) ∙ nil-append (dense sql),
  )
