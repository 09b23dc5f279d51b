-- ===== src/Optimize/Conjuncts.antt =====
-- `_split_and` and `_conjoin` of ryudb/sql/optimize.py: taking a predicate apart and putting it together.
use ryu_db.Common.{◌≡◌, refl, sym, ap, ◌∙◌, some, List, [], ◌∷◌, ◌++◌}
use ryu_db.Plan.{Expr}
use ryu_db.Optimize.{split_and, conjoin, conjoin_parts}

-- `value` reads AND as an associative operation on truth values, three-valued or not.
pub record IsConjunctive {V T : Type 0} (value : Expr V → T) (meet : T → T → T) : Type 0 where
  pub value_and : (a b : Expr V) → value (Expr.and a b) ≡ meet (value a) (value b)
  pub assoc : (a b c : T) → meet (meet a b) c ≡ meet a (meet b c)

module _ {V T : Type 0} (value : Expr V → T) (meet : T → T → T) (h : IsConjunctive value meet) where
  abbrev meet_all : T → List (Expr V) → T
  meet_all t [] = t
  meet_all t (e ∷ es) = meet_all (meet t (value e)) es

  meet_all-append :
      (t : T) (es es' : List (Expr V)) → meet_all t (es ++ es') ≡ meet_all (meet_all t es) es'
  meet_all-append t [] es' = refl
  meet_all-append t (e ∷ es) es' = meet_all-append (meet t (value e)) es es'

  value-conjoin :
      (acc : Expr V) (es : List (Expr V)) → value (conjoin acc es) ≡ meet_all (value acc) es
  unfolding conjoin
  value-conjoin acc [] = refl
  value-conjoin acc (e ∷ es) =
      value-conjoin (Expr.and acc e) es ∙ ap (λ t. meet_all t es) (h.value_and acc e)

  -- The conjuncts of an expression, put together after `t`, come to its value after `t`.
  abbrev Splits : Expr V → Type 0
  Splits e = (t : T) → meet_all t (split_and e) ≡ meet t (value e)

  splits : (e : Expr V) → Splits e
  unfolding split_and
  splits (Expr.and l r) = λ t.
      meet_all-append t (split_and l) (split_and r)
      ∙ ap (λ u. meet_all u (split_and r)) (splits l t)
      ∙ splits r (meet t (value l))
      ∙ h.assoc t (value l) (value r)
      ∙ ap (meet t) (sym (h.value_and l r))
  splits _ = λ t. refl

  first :
      (e : Expr V)
      → (p : Expr V) × (ps : List (Expr V)) × (split_and e ≡ p ∷ ps)
        × (meet_all (value p) ps ≡ value e)
  unfolding split_and
  first (Expr.and l r) =
      let (p, ps, shape, means) = first l in
      (
        p,
        ps ++ split_and r,
        ap (λ es. es ++ split_and r) shape,
        meet_all-append (value p) ps (split_and r)
            ∙ ap (λ u. meet_all u (split_and r)) means
            ∙ splits r (value l)
            ∙ sym (h.value_and l r),
      )
  first e = (e, [], refl, refl)

  -- A predicate has at least one conjunct, and the conjunction of all its conjuncts has its value,
  -- whichever truth values there are, if AND is associative on them.
  pub conjoin_parts-split_and :
      (e : Expr V) → (e' : Expr V) × (conjoin_parts (split_and e) ≡ some e') × (value e' ≡ value e)
  unfolding conjoin_parts
  conjoin_parts-split_and e =
      let (p, ps, shape, means) = first e in
      (conjoin p ps, ap conjoin_parts shape, value-conjoin p ps ∙ means)
