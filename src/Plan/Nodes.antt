-- ===== src/Plan/Nodes.antt =====
-- ryudb/sql/plan.py: the plan nodes, `walk`, `children` and `exprs_in`.
use ryu_db.Common.{ℕ, String, Bool, Option, none, some, List, [], ◌∷◌, ◌++◌, map}
use ryu_db.Plan.{Expr, MaybeExpr}

pub record MergeArm (V : Type 0) : Type 0 where
  pub matched : Bool
  pub condition : MaybeExpr V
  pub action : String
  pub assignments : List (String × Expr V)
  pub insert_columns : Option (List String)
  pub insert_values : List (Expr V)

-- The union `PlanNode`; `MaybePlan` is `PlanNode | None`.
mutual
  pub data PlanNode (V : Type 0) : Type 0 where
    scan : String → Option (List String) → Option String → PlanNode V
    filter : PlanNode V → Expr V → PlanNode V
    project : PlanNode V → List (Expr V × String) → PlanNode V
    join :
        PlanNode V
        → PlanNode V
        → List String
        → List String
        → String
        → MaybeExpr V
        → Bool
        → PlanNode V
    aggregate : PlanNode V → List (Expr V × String) → List (Expr V × String) → PlanNode V
    window : PlanNode V → List (Expr V × String) → PlanNode V
    sort : PlanNode V → List (Expr V × Bool) → PlanNode V
    limit : PlanNode V → ℕ → ℕ → PlanNode V
    distinct : PlanNode V → PlanNode V
    derived : PlanNode V → String → PlanNode V
    set_op : PlanNode V → PlanNode V → String → Bool → PlanNode V
    insert : String → Option (List String) → List (List (Expr V)) → MaybePlan V → PlanNode V
    delete : String → MaybeExpr V → PlanNode V
    update : String → List (String × Expr V) → MaybeExpr V → PlanNode V
    merge :
        String
        → Option String
        → MaybePlan V
        → Option String
        → List String
        → List String
        → MaybeExpr V
        → Option (MergeArm V)
        → Option (MergeArm V)
        → PlanNode V
    txn_control : String → PlanNode V

  pub data MaybePlan (V : Type 0) : Type 0 where
    no_plan : MaybePlan V
    the_plan : PlanNode V → MaybePlan V

module _ {V : Type 0} where
  abbrev pub maybe_list : MaybeExpr V → List (Expr V)
  maybe_list MaybeExpr.nothing = []
  maybe_list (MaybeExpr.just e) = e ∷ []

  abbrev pub source_list : MaybePlan V → List (PlanNode V)
  source_list MaybePlan.no_plan = []
  source_list (MaybePlan.the_plan n) = n ∷ []

  unfoldable pub children : PlanNode V → List (PlanNode V)
  children (PlanNode.scan table cols alias) = []
  children (PlanNode.filter input predicate) = input ∷ []
  children (PlanNode.project input items) = input ∷ []
  children (PlanNode.join left right on_left on_right how on_predicate using) = left ∷ right ∷ []
  children (PlanNode.aggregate input group_keys aggs) = input ∷ []
  children (PlanNode.window input funcs) = input ∷ []
  children (PlanNode.sort input ks) = input ∷ []
  children (PlanNode.limit input n offset) = input ∷ []
  children (PlanNode.distinct input) = input ∷ []
  children (PlanNode.derived input alias) = input ∷ []
  children (PlanNode.set_op left right op once) = left ∷ right ∷ []
  children (PlanNode.insert table cols rows source) = source_list source
  children (PlanNode.delete table predicate) = []
  children (PlanNode.update table assignments predicate) = []
  children (PlanNode.merge t ta source sa ont ons res ma na) = source_list source
  children (PlanNode.txn_control kind) = []

  -- `walk`, with the loop over the children written out for each node.
  unfoldable mutual
    pub walk : PlanNode V → List (PlanNode V)
    walk (PlanNode.filter input predicate) = PlanNode.filter input predicate ∷ walk input
    walk (PlanNode.project input items) = PlanNode.project input items ∷ walk input
    walk (PlanNode.join left right on_left on_right how on_predicate using) =
        PlanNode.join left right on_left on_right how on_predicate using ∷ (walk left ++ walk right)
    walk (PlanNode.aggregate input group_keys aggs) =
        PlanNode.aggregate input group_keys aggs ∷ walk input
    walk (PlanNode.window input funcs) = PlanNode.window input funcs ∷ walk input
    walk (PlanNode.sort input ks) = PlanNode.sort input ks ∷ walk input
    walk (PlanNode.limit input n offset) = PlanNode.limit input n offset ∷ walk input
    walk (PlanNode.distinct input) = PlanNode.distinct input ∷ walk input
    walk (PlanNode.derived input alias) = PlanNode.derived input alias ∷ walk input
    walk (PlanNode.set_op left right op once) =
        PlanNode.set_op left right op once ∷ (walk left ++ walk right)
    walk (PlanNode.insert table cols rows source) =
        PlanNode.insert table cols rows source ∷ walk_source source
    walk (PlanNode.merge t ta source sa ont ons res ma na) =
        PlanNode.merge t ta source sa ont ons res ma na ∷ walk_source source
    walk (PlanNode.scan table cols alias) = PlanNode.scan table cols alias ∷ []
    walk (PlanNode.delete table predicate) = PlanNode.delete table predicate ∷ []
    walk (PlanNode.update table assignments predicate) =
        PlanNode.update table assignments predicate ∷ []
    walk (PlanNode.txn_control kind) = PlanNode.txn_control kind ∷ []

    pub walk_source : MaybePlan V → List (PlanNode V)
    walk_source MaybePlan.no_plan = []
    walk_source (MaybePlan.the_plan n) = walk n

  -- `for child in children(node): yield from walk(child)`
  unfoldable pub walk_all : List (PlanNode V) → List (PlanNode V)
  walk_all [] = []
  walk_all (n ∷ ns) = walk n ++ walk_all ns

  abbrev pub arm_exprs : Option (MergeArm V) → List (Expr V)
  arm_exprs none = []
  arm_exprs (some arm) =
      maybe_list arm.condition ++ (map (λ a. a.1) arm.assignments ++ arm.insert_values)

  unfoldable pub exprs_in : PlanNode V → List (Expr V)
  exprs_in (PlanNode.filter input predicate) = predicate ∷ []
  exprs_in (PlanNode.project input items) = map (λ i. i.0) items
  exprs_in (PlanNode.aggregate input group_keys aggs) =
      map (λ k. k.0) group_keys ++ map (λ a. a.0) aggs
  exprs_in (PlanNode.sort input ks) = map (λ k. k.0) ks
  exprs_in (PlanNode.window input funcs) = map (λ f. f.0) funcs
  exprs_in (PlanNode.join left right on_left on_right how on_predicate using) =
      maybe_list on_predicate
  exprs_in (PlanNode.delete table predicate) = maybe_list predicate
  exprs_in (PlanNode.update table assignments predicate) =
      map (λ a. a.1) assignments ++ maybe_list predicate
  exprs_in (PlanNode.merge t ta source sa ont ons res ma na) =
      maybe_list res ++ (arm_exprs ma ++ arm_exprs na)
  exprs_in _ = []
