-- ===== src/Dml/Values.antt =====
-- ryudb/exec/executor.py, the frames that `_insert` and `_insert_select` build, with `_literal` of
-- ryudb/exec/ops.py.
use ryu_db.Common.{
  ℕ, zero, suc, String, Bool, true, not, ◌&&◌, Option, none, some, List, [], ◌∷◌, length, ◌==◌,
  ◌=ₛ◌, Result, ok, err, ◌>>=◌, runtime_error, parse_error, if◌then◌else◌,
}
use ryu_db.Common.Dict.{Dict, lookup, contains}
use ryu_db.Catalog.{TableConstraints}
use ryu_db.Dml.{Rows, Pandas, typed_series, is_na, any_na}

-- Python's reading of a literal: `pd.Timestamp`, `int`, `float`, `bool`, and the value as it is.
pub record Reading (C L : Type 0) : Type 0 where
  pub timestamp : C → Result L
  pub to_int : C → Result L
  pub to_float : C → Result L
  pub to_bool : C → L
  pub as_is : C → Option L

-- A `Lit`: its value and its type.
abbrev pub Lit : Type 0 → Type 0
Lit C = C × String

abbrev pub value_of : {L : Type 0} → Result L → Result (Option L)
value_of (err x) = err x
value_of (ok v) = ok (some v)

unfoldable pub literal : {C L : Type 0} → Reading C L → Lit C → Result (Option L)
literal r (v, dtype) =
    if dtype =ₛ "DATE"
    then value_of (r.timestamp v)
    else if dtype =ₛ "int"
    then value_of (r.to_int v)
    else if dtype =ₛ "float"
    then value_of (r.to_float v)
    else if dtype =ₛ "bool"
    then ok (some (r.to_bool v))
    else if dtype =ₛ "null"
    then ok none
    else ok (r.as_is v)

-- `list(node.columns) if node.columns is not None else list(all_cols)`
abbrev pub target_columns : Option (List String) → List String → List String
target_columns none all_cols = all_cols
target_columns (some cols) all_cols = cols

abbrev pub all_known : List String → List String → Bool
all_known [] all_cols = true
all_known (c ∷ cs) all_cols = contains c all_cols && all_known cs all_cols

abbrev pub no_repeats : List String → Bool
no_repeats [] = true
no_repeats (c ∷ cs) = not (contains c cs) && no_repeats cs

-- The two checks of the column list.
unfoldable pub check_columns : List String → List String → Result (Unit {0})
check_columns cols all_cols =
    if not (all_known cols all_cols)
    then err parse_error
    else if not (no_repeats cols)
    then err parse_error
    else ok tt

unfoldable pub check_widths {ℓ} : {A : Type ℓ} → ℕ → List (List A) → Result (Unit {0})
check_widths n [] = ok tt
check_widths n (row ∷ rows) =
    let rest = check_widths n rows in if length row == n then rest else err parse_error

-- `provided_idx`, with what stands at the index.
abbrev pub provided {ℓ} : {A : Type ℓ} → List String → List A → Dict A
provided (c ∷ cs) (v ∷ vs) = (c, v) ∷ provided cs vs
provided _ _ = []

module _ {L : Type 0} where
  -- The default of a column, or NULL.
  abbrev pub fill : Option (Option L) → Option L
  fill none = none
  fill (some v) = v

  -- What a column gets: what is given, else the default, else NULL.
  abbrev pub resolve_cell : Option (Option L) → Option (Option L) → Option L
  resolve_cell none default = fill default
  resolve_cell (some v) default = v

abbrev pub require : Bool → Bool → Result (Unit {0})
require missing required = if missing && required then err runtime_error else ok tt

module _ {L : Type 0} (k : TableConstraints (Option L)) where
  -- The loop over the columns for one row of VALUES.
  unfoldable pub resolve_row : Dict (Option L) → List String → Result (List (Option L))
  resolve_row given [] = ok []
  resolve_row given (c ∷ cs) = do
    let v = resolve_cell (lookup c given) (lookup c k.defaults)
    _ ← require (is_na v) (contains c k.not_null)
    vs ← resolve_row given cs
    ok (v ∷ vs)

module _ {C L : Type 0} (r : Reading C L) where
  -- `[_literal(cell) for cell in row]`
  unfoldable pub literals : List (Lit C) → Result (List (Option L))
  unfolding literal
  literals [] = ok []
  literals (e ∷ es) = do v ← literal r e; vs ← literals es; ok (v ∷ vs)

  -- The loop over the rows of VALUES.
  unfoldable pub resolve_rows :
      TableConstraints (Option L)
      → List String
      → List String
      → List (List (Lit C))
      → Result (List (List (Option L)))
  unfolding literals resolve_row
  resolve_rows k cols all_cols [] = ok []
  resolve_rows k cols all_cols (row ∷ rows) = do
    pyvals ← literals row
    resolved ← resolve_row k (provided cols pyvals) all_cols
    rest ← resolve_rows k cols all_cols rows
    ok (resolved ∷ rest)

abbrev pub heads : {L : Type 0} → List (List (Option L)) → List (Option L)
heads [] = []
heads ([] ∷ rows) = heads rows
heads ((v ∷ vs) ∷ rows) = v ∷ heads rows

abbrev pub tails : {L : Type 0} → List (List (Option L)) → List (List (Option L))
tails [] = []
tails ([] ∷ rows) = tails rows
tails ((v ∷ vs) ∷ rows) = vs ∷ tails rows

-- A frame of `n` rows without columns, and a column put before the columns of a frame.
abbrev pub blank : {V : Type 0} → ℕ → Rows V
blank zero = []
blank (suc n) = [] ∷ blank n

abbrev pub zip_column : {V : Type 0} → String → List (Option V) → Rows V → Rows V
zip_column c (v ∷ vs) (row ∷ rows) = ((c, v) ∷ row) ∷ zip_column c vs rows
zip_column c _ rows = []

abbrev pub repeated {ℓ} : {A : Type ℓ} → ℕ → A → List A
repeated zero a = []
repeated (suc n) a = a ∷ repeated n a

-- `s` in the loop of `_insert_select`.
abbrev pub select_column :
    {L : Type 0} → ℕ → Option (List (Option L)) → Option (Option L) → List (Option L)
select_column n (some s) default = s
select_column n none default = repeated n (fill default)

module _ {L V T : Type 0} (pd : Pandas L V T) (types : String → T) where
  -- `pdf`, from the rows in the order of the columns, and its frame.
  unfoldable pub values_frame : ℕ → List String → List (List (Option L)) → Result (Rows V)
  unfolding typed_series
  values_frame n [] pyrows = ok (blank n)
  values_frame n (c ∷ cs) pyrows = do
    col ← typed_series pd (types c) (heads pyrows)
    rest ← values_frame n cs (tails pyrows)
    ok (zip_column c col rest)

  -- The loop of `_insert_select` over the columns, and its frame.
  unfoldable pub select_frame :
      TableConstraints (Option L) → ℕ → Dict (List (Option L)) → List String → Result (Rows V)
  unfolding typed_series
  select_frame k n given [] = ok (blank n)
  select_frame k n given (c ∷ cs) = do
    col ← typed_series pd (types c) (select_column n (lookup c given) (lookup c k.defaults))
    _ ← require (any_na col) (contains c k.not_null)
    rest ← select_frame k n given cs
    ok (zip_column c col rest)
