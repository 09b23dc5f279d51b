-- ===== src/Plan/Walk.antt =====
-- `walk` of ryudb/sql/plan.py against `children`.
use ryu_db.Common.{◌≡◌, refl, sym, ◌∷◌, append-nil}
use ryu_db.Plan.Nodes.{PlanNode, MaybePlan, children, source_list, walk, walk_source, walk_all}

module _ {V : Type 0} where
  walk_all-source_list : (source : MaybePlan V) → walk_source source ≡ walk_all (source_list source)
  unfolding walk_source walk_all
  walk_all-source_list MaybePlan.no_plan = refl
  walk_all-source_list (MaybePlan.the_plan n) = sym (append-nil (walk n))

  -- A walk yields the node and then, in their order, the walks of its children, for every kind of node.
  pub walk-children : (n : PlanNode V) → walk n ≡ n ∷ walk_all (children n)
  unfolding walk walk_all children
  walk-children (PlanNode.filter input predicate) = rw (append-nil (walk input)) refl
  walk-children (PlanNode.project input items) = rw (append-nil (walk input)) refl
  walk-children (PlanNode.join left right on_left on_right how on_predicate using) =
      rw (append-nil (walk right)) refl
  walk-children (PlanNode.aggregate input group_keys aggs) = rw (append-nil (walk input)) refl
  walk-children (PlanNode.window input funcs) = rw (append-nil (walk input)) refl
  walk-children (PlanNode.sort input ks) = rw (append-nil (walk input)) refl
  walk-children (PlanNode.limit input n offset) = rw (append-nil (walk input)) refl
  walk-children (PlanNode.distinct input) = rw (append-nil (walk input)) refl
  walk-children (PlanNode.derived input alias) = rw (append-nil (walk input)) refl
  walk-children (PlanNode.set_op left right op once) = rw (append-nil (walk right)) refl
  walk-children (PlanNode.insert table cols rows source) = rw (walk_all-source_list source) refl
  walk-children (PlanNode.merge t ta source sa ont ons res ma na) =
      rw (walk_all-source_list source) refl
  walk-children (PlanNode.scan table cols alias) = refl
  walk-children (PlanNode.delete table predicate) = refl
  walk-children (PlanNode.update table assignments predicate) = refl
  walk-children (PlanNode.txn_control kind) = refl
