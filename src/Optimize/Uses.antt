-- ===== src/Optimize/Uses.antt =====
-- Which columns a plan of ryudb/sql/plan.py names, by recursion over the plan, against its walk.
use ryu_db.Common.{String, ◌≡◌, refl, Bool, false, ◌||◌, List, [], ◌∷◌, ◌++◌, map, arith}
use ryu_db.Common.Dict.{contains}
use ryu_db.Plan.{Expr, MaybeExpr, columns}
use ryu_db.Plan.Nodes.{PlanNode, MaybePlan, walk, exprs_in, maybe_list}
use ryu_db.Optimize.{any_node}

module _ {V : Type 0} (c : String) where
  -- Some of the expressions has the column.
  abbrev pub any_has : List (Expr V) → Bool
  any_has [] = false
  any_has (e ∷ es) = contains c (columns e) || any_has es

  -- A relational node uses the column in an expression, or as a join key.
  abbrev pub is_used : PlanNode V → Bool
  is_used (PlanNode.join left right on_left on_right how on_predicate using) =
      (contains c on_left || contains c on_right)
      || any_has (exprs_in (PlanNode.join left right on_left on_right how on_predicate using))
  is_used (PlanNode.delete table predicate) = false
  is_used (PlanNode.update table assignments predicate) = false
  is_used (PlanNode.merge t ta source sa ont ons res ma na) = false
  is_used node = any_has (exprs_in node)

  pub any_has-append : (es es' : List (Expr V)) → any_has (es ++ es') ≡ (any_has es || any_has es')
  any_has-append [] es' = refl
  any_has-append (e ∷ es) es' = ground (arith, any_has-append es es')

  -- Some of the expressions that come with a name or a direction has the column; so does a predicate.
  abbrev pub item_has {ℓ} : {A : Type ℓ} → List (Expr V × A) → Bool
  item_has [] = false
  item_has ((e, a) ∷ items) = contains c (columns e) || item_has items

  abbrev pub maybe_has : MaybeExpr V → Bool
  maybe_has MaybeExpr.nothing = false
  maybe_has (MaybeExpr.just e) = contains c (columns e)

  -- An expression or a join key somewhere in a plan has the column, the source of an INSERT or a MERGE
  -- included; the expressions of a write node itself do not count.
  unfoldable mutual
    pub uses : PlanNode V → Bool
    uses (PlanNode.filter input predicate) = contains c (columns predicate) || uses input
    uses (PlanNode.project input items) = item_has items || uses input
    uses (PlanNode.join left right on_left on_right how on_predicate using) =
        ((contains c on_left || contains c on_right) || maybe_has on_predicate)
        || (uses left || uses right)
    uses (PlanNode.aggregate input group_keys aggs) =
        (item_has group_keys || item_has aggs) || uses input
    uses (PlanNode.window input funcs) = item_has funcs || uses input
    uses (PlanNode.sort input ks) = item_has ks || uses input
    uses (PlanNode.limit input n offset) = uses input
    uses (PlanNode.distinct input) = uses input
    uses (PlanNode.derived input alias) = uses input
    uses (PlanNode.set_op left right op once) = uses left || uses right
    uses (PlanNode.insert table cols rows source) = source_uses source
    uses (PlanNode.merge t ta source sa ont ons res ma na) = source_uses source
    uses (PlanNode.scan table cols alias) = false
    uses (PlanNode.delete table predicate) = false
    uses (PlanNode.update table assignments predicate) = false
    uses (PlanNode.txn_control kind) = false

    pub source_uses : MaybePlan V → Bool
    source_uses MaybePlan.no_plan = false
    source_uses (MaybePlan.the_plan n) = uses n

  any_has-map {ℓ} :
      {A : Type ℓ} (items : List (Expr V × A)) → any_has (map (λ i. i.0) items) ≡ item_has items
  any_has-map [] = refl
  any_has-map ((e, a) ∷ items) = ground (arith, any_has-map items)

  any_has-maybe_list : (p : MaybeExpr V) → any_has (maybe_list p) ≡ maybe_has p
  any_has-maybe_list MaybeExpr.nothing = refl
  any_has-maybe_list (MaybeExpr.just e) = ground arith

  any_node-append :
      (ns ms : List (PlanNode V))
      → any_node is_used (ns ++ ms) ≡ (any_node is_used ns || any_node is_used ms)
  any_node-append [] ms = refl
  any_node-append (n ∷ ns) ms = ground (arith, any_node-append ns ms)

  pub walk-uses : (plan : PlanNode V) → any_node is_used (walk plan) ≡ uses plan
  unfolding walk exprs_in uses
  walk-uses (PlanNode.filter input predicate) = ground (arith, walk-uses input)
  walk-uses (PlanNode.project input items) = ground (arith, walk-uses input, any_has-map items)
  walk-uses (PlanNode.join left right on_left on_right how on_predicate using) = ground (
    arith,
    walk-uses left,
    walk-uses right,
    any_node-append (walk left) (walk right),
    any_has-maybe_list on_predicate,
  )
  walk-uses (PlanNode.aggregate input group_keys aggs) = ground (
    arith,
    walk-uses input,
    any_has-append (map (λ i. i.0) group_keys) (map (λ i. i.0) aggs),
    any_has-map group_keys,
    any_has-map aggs,
  )
  walk-uses (PlanNode.window input funcs) = ground (arith, walk-uses input, any_has-map funcs)
  walk-uses (PlanNode.sort input ks) = ground (arith, walk-uses input, any_has-map ks)
  walk-uses (PlanNode.limit input n offset) = walk-uses input
  walk-uses (PlanNode.distinct input) = walk-uses input
  walk-uses (PlanNode.derived input alias) = walk-uses input
  walk-uses (PlanNode.set_op left right op once) =
      ground (arith, walk-uses left, walk-uses right, any_node-append (walk left) (walk right))
  walk-uses (PlanNode.insert table cols rows MaybePlan.no_plan) = refl
  walk-uses (PlanNode.insert table cols rows (MaybePlan.the_plan n)) = walk-uses n
  walk-uses (PlanNode.merge t ta MaybePlan.no_plan sa ont ons res ma na) = refl
  walk-uses (PlanNode.merge t ta (MaybePlan.the_plan n) sa ont ons res ma na) = walk-uses n
  walk-uses (PlanNode.scan table cols alias) = refl
  walk-uses (PlanNode.delete table predicate) = refl
  walk-uses (PlanNode.update table assignments predicate) = refl
  walk-uses (PlanNode.txn_control kind) = refl
