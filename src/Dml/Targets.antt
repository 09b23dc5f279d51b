-- ===== src/Dml/Targets.antt =====
-- ryudb/exec/executor.py, the rows that `_delete` and `_update` are about, and those that `_update` puts in
-- their place. The values of the expressions are parameters.
use ryu_db.Common.{
  ℕ, String, Bool, true, false, not, ◌||◌, Option, none, some, List, [], ◌∷◌, map, length, Result,
  ok, err, ◌>>=◌, runtime_error, parse_error, if◌then◌else◌,
}
use ryu_db.Common.Dict.{insert}
use ryu_db.Dml.{Row, Rows, Pandas, cell, is_na, typed_series}
use ryu_db.Dml.Values.{no_repeats, all_known, repeated, require}

-- What an expression gives on a frame: a value for each row, or one value.
pub data Value (A : Type 0) : Type 0 where
  series : List A → Value A
  scalar : A → Value A

-- `visible[mask]`
unfoldable pub masked : {V : Type 0} → List Bool → Rows V → Rows V
masked (b ∷ bs) (row ∷ rows) = let rest = masked bs rows in if b then row ∷ rest else rest
masked _ _ = []

abbrev pub chosen : {V : Type 0} → Value Bool → Rows V → Rows V
chosen (series mask) visible = masked mask visible
chosen (scalar true) visible = visible
chosen (scalar false) visible = []

abbrev pub Predicate : Type 0 → Type 0
Predicate V = Option (Rows V → Result (Value Bool))

-- `targets`, from the rows that are seen.
unfoldable pub select_targets : {V : Type 0} → Predicate V → Rows V → Result (Rows V)
unfolding masked
select_targets none visible = ok visible
select_targets (some predicate) visible = do mask ← predicate visible; ok (chosen mask visible)

-- `targets[list(pk)]`
abbrev pub project : {V : Type 0} → List String → Row V → Row V
project [] row = []
project (c ∷ cs) row = (c, cell row c) ∷ project cs row

abbrev pub require_pk : Option (List String) → Result (List String)
require_pk none = err runtime_error
require_pk (some pk) = ok pk

-- `new_frame[col] = ...`, cell by cell.
abbrev pub set_column : {V : Type 0} → String → List (Option V) → Rows V → Rows V
set_column c (v ∷ vs) (row ∷ rows) = insert c v row ∷ set_column c vs rows
set_column c _ rows = rows

abbrev pub Assignment : Type 0 → Type 0 → Type 0
Assignment L V = String × (Rows V → Result (Value (Option L)))

abbrev pub names {ℓ} : {A : Type ℓ} → List (String × A) → List String
names l = map (λ a. a.0) l

-- `val.to_pandas().tolist()`, or the value for each row.
abbrev pub listed : {A : Type 0} → ℕ → Value A → List A
listed n (series arr) = arr
listed n (scalar v) = repeated n v

unfoldable pub check_assignments :
    {L V : Type 0} → List String → List (Assignment L V) → Result (Unit {0})
check_assignments all_cols assignments =
    if not (all_known (names assignments) all_cols)
    then err parse_error
    else if not (no_repeats (names assignments))
    then err parse_error
    else ok tt

module _ {L V T : Type 0} (pd : Pandas L V T) (types : String → T) where
  -- The loop over the assignments: every expression sees the rows as they were.
  unfoldable pub set_columns : Rows V → List (Assignment L V) → Rows V → Result (Rows V)
  unfolding typed_series
  set_columns targets [] new_frame = ok new_frame
  set_columns targets ((c, expr) ∷ assignments) new_frame = do
    val ← expr targets
    col ← typed_series pd (types c) (listed (length targets) val)
    set_columns targets assignments (set_column c col new_frame)

-- `new_frame[c].isna().any()`
abbrev pub column_na : {V : Type 0} → String → Rows V → Bool
column_na c [] = false
column_na c (row ∷ rows) = is_na (cell row c) || column_na c rows

unfoldable pub check_not_null : {V : Type 0} → List String → Rows V → Result (Unit {0})
check_not_null [] frame = ok tt
check_not_null (c ∷ cs) frame = do _ ← require (column_na c frame) true; check_not_null cs frame
