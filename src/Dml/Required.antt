-- ===== src/Dml/Required.antt =====
-- NOT NULL in the frame that `_insert_select` of ryudb/exec/executor.py stores.
use ryu_db.Common.{
  ℕ, String, ◌≡◌, refl, ap, ◌∙◌, ◌=ₛ◌, Bool, true, false, Option, List, [], ◌∷◌, arith, ok, All,
  Bool-cases, inl, inr, subst, eq_iff,
}
use ryu_db.Common.Dict.{Dict, lookup, contains}
use ryu_db.Catalog.{TableConstraints}
use ryu_db.Wal.Records.{>>=-ok, ok-injective}
use ryu_db.Dml.{Rows, Pandas, cell, is_na, any_na, typed_series}
use ryu_db.Dml.Values.{require, zip_column, select_column, select_frame}

zip_column-here :
    {V : Type 0} (c j : String) (col : List (Option V)) (rows : Rows V)
    → (j =ₛ c) ≡ true
    → any_na col ≡ false
    → All (λ row. is_na (cell row c) ≡ false) (zip_column j col rows)
zip_column-here c j [] rows same full = tt
zip_column-here c j (v ∷ col) [] same full = tt
zip_column-here c j (v ∷ col) (row ∷ rows) same full =
    let here : is_na v ≡ false = ground arith in
    let rest : any_na col ≡ false = ground arith in
    (rw same here, zip_column-here c j col rows same rest)

zip_column-there :
    {V : Type 0} (c j : String) (col : List (Option V)) (rows : Rows V)
    → (j =ₛ c) ≡ false
    → All (λ row. is_na (cell row c) ≡ false) rows
    → All (λ row. is_na (cell row c) ≡ false) (zip_column j col rows)
zip_column-there c j [] rows other h = tt
zip_column-there c j (v ∷ col) [] other h = tt
zip_column-there c j (v ∷ col) (row ∷ rows) other h =
    (rw other h.0, zip_column-there c j col rows other h.1)

require_passes : (missing : Bool) (u : Unit {0}) → require missing true ≡ ok u → missing ≡ false
require_passes true u e = absurd cc
require_passes false u e = refl

column-required :
    {V : Type 0} (c j : String) (cols not_null : List String) (col : List (Option V))
    (rest : Rows V) (u : Unit {0})
    → require (any_na col) (contains j not_null) ≡ ok u
    → contains c (j ∷ cols) ≡ true
    → contains c not_null ≡ true
    → (contains c cols ≡ true → All (λ row. is_na (cell row c) ≡ false) rest)
    → All (λ row. is_na (cell row c) ≡ false) (zip_column j col rest)
column-required c j cols not_null col rest u passed listed required h = elim (Bool-cases (j =ₛ c)) [
  | inl same ↦ zip_column-here c j col rest same (
      require_passes (any_na col) u (
        subst (λ b. require (any_na col) b ≡ ok u)
          (ap (λ x. contains x not_null) ((eq_iff j c).0 same) ∙ required) passed))
  | inr other ↦ zip_column-there c j col rest other (h (ground arith))
]

module _ {L V T : Type 0} (pd : Pandas L V T) (types : String → T)
    (k : TableConstraints (Option L)) where
  -- No row of the frame that `_insert_select` stores is NULL in a column of the table that is
  -- declared NOT NULL, whatever the conversion to the column's type has made of the values.
  pub select_frame-required :
      (n : ℕ) (given : Dict (List (Option L))) (cols : List String) (frame : Rows V) (c : String)
      → select_frame pd types k n given cols ≡ ok frame
      → contains c cols ≡ true
      → contains c k.not_null ≡ true
      → All (λ row. is_na (cell row c) ≡ false) frame
  unfolding select_frame
  select_frame-required n given [] frame c built listed required = absurd cc
  select_frame-required n given (j ∷ cols) frame c built listed required =
      let (col, typed, built') =
        >>=-ok (typed_series pd (types j) (select_column n (lookup j given) (lookup j k.defaults)))
          _ built in
      let (u, passed, built'') = >>=-ok (require (any_na col) (contains j k.not_null)) _ built' in
      let (rest, more, done) = >>=-ok (select_frame pd types k n given cols) _ built'' in
      subst (λ f. All (λ row. is_na (cell row c) ≡ false) f) (ok-injective done)
        (column-required c j cols k.not_null col rest u passed listed required
          (λ l. select_frame-required n given cols rest c more l required))
