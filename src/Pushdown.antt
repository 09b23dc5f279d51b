-- ===== src/Pushdown.antt =====
-- ryudb/sql/optimize.py, predicate pushdown (`push_predicates` and the functions in it), and `optimize`. A set of tables
-- is a list; a stack of nodes to visit is a recursion over the plan.
pub mod Routing
use ryu_db.Common.{
  ℕ, String, Bool, true, false, not, ◌&&◌, ◌||◌, Option, none, some, List, [], ◌∷◌, ◌++◌, keep_if,
  non_empty, if◌then◌else◌, ◌=ₛ◌,
}
use ryu_db.Common.Dict.{Dict, get_list, append_to, has_key, contains, set_add, set_update}
use ryu_db.Plan.{Expr, MaybeExpr, columns}
use ryu_db.Plan.Nodes.{PlanNode, MaybePlan}
use ryu_db.Optimize.{split_and, conjoin, prune_projections, select_join_sides}

-- `col_to_tables.setdefault(c, []).append(table)` for the columns of a table, then for all tables.
unfoldable pub add_columns : String → List String → Dict (List String) → Dict (List String)
add_columns table [] d = d
add_columns table (c ∷ cs) d = add_columns table cs (append_to c table d)

unfoldable pub col_to_tables : Dict (List String) → Dict (List String) → Dict (List String)
unfolding add_columns
col_to_tables [] d = d
col_to_tables ((table, cols) ∷ schema) d = col_to_tables schema (add_columns table cols d)

unfoldable pub tables_of : Dict (List String) → List String → List String → List String
tables_of by_col [] tables = tables
tables_of by_col (c ∷ cs) tables = tables_of by_col cs (set_update tables (get_list c by_col))

abbrev pub any_unknown : Dict (List String) → List String → Bool
any_unknown by_col [] = false
any_unknown by_col (c ∷ cs) = not (has_key c by_col) || any_unknown by_col cs

-- The intersection of two sets.
abbrev pub common : List String → List String → List String
common ts us = keep_if (λ t. contains t us) ts

abbrev pub pushable_sides : String → List String → List String → List String
pushable_sides how left_tables right_tables =
    if how =ₛ "left"
    then left_tables
    else if how =ₛ "right"
    then right_tables
    else if how =ₛ "inner"
    then set_update left_tables right_tables
    else if how =ₛ "semi" || how =ₛ "anti"
    then left_tables
    else []

-- `len(ts) == 1` and its one table among the sides.
abbrev pub single : List String → List String → Option String
single sides [] = none
single sides (t ∷ []) = if contains t sides then some t else none
single sides (t ∷ (u ∷ us)) = none

module _ {V : Type 0} where
  unfoldable mutual
    pub subtree_tables : PlanNode V → List String
    subtree_tables (PlanNode.scan table cols alias) = table ∷ []
    subtree_tables (PlanNode.derived input alias) = []
    subtree_tables (PlanNode.filter input predicate) = subtree_tables input
    subtree_tables (PlanNode.project input items) = subtree_tables input
    subtree_tables (PlanNode.join left right on_left on_right how on_predicate using) =
        set_update (subtree_tables left) (subtree_tables right)
    subtree_tables (PlanNode.aggregate input group_keys aggs) = subtree_tables input
    subtree_tables (PlanNode.window input funcs) = subtree_tables input
    subtree_tables (PlanNode.sort input ks) = subtree_tables input
    subtree_tables (PlanNode.limit input n offset) = subtree_tables input
    subtree_tables (PlanNode.distinct input) = subtree_tables input
    subtree_tables (PlanNode.set_op left right op once) =
        set_update (subtree_tables left) (subtree_tables right)
    subtree_tables (PlanNode.insert table cols rows source) = source_tables source
    subtree_tables (PlanNode.merge t ta source sa ont ons res ma na) = source_tables source
    subtree_tables (PlanNode.delete table predicate) = []
    subtree_tables (PlanNode.update table assignments predicate) = []
    subtree_tables (PlanNode.txn_control kind) = []

    pub source_tables : MaybePlan V → List String
    source_tables MaybePlan.no_plan = []
    source_tables (MaybePlan.the_plan n) = subtree_tables n

  abbrev pub filter_all : PlanNode V → List (Expr V) → PlanNode V
  filter_all plan [] = plan
  filter_all plan (p ∷ ps) = PlanNode.filter plan (conjoin p ps)

  -- `{t: cs for t, cs in per_table.items() if t in tables}`
  abbrev pub only : List String → Dict (List (Expr V)) → Dict (List (Expr V))
  only tables = keep_if (λ e. contains e.0 tables)

  -- `insert`
  unfoldable pub insert_conjuncts : PlanNode V → Dict (List (Expr V)) → PlanNode V
  unfolding subtree_tables
  insert_conjuncts (PlanNode.scan table cols alias) per_table =
      filter_all (PlanNode.scan table cols alias) (get_list table per_table)
  insert_conjuncts (PlanNode.join left right on_left on_right how on_predicate using) per_table =
      PlanNode.join (insert_conjuncts left (only (subtree_tables left) per_table))
        (insert_conjuncts right (only (subtree_tables right) per_table)) on_left on_right how
        on_predicate using
  insert_conjuncts (PlanNode.set_op left right op once) per_table =
      PlanNode.set_op (insert_conjuncts left (only (subtree_tables left) per_table))
        (insert_conjuncts right (only (subtree_tables right) per_table)) op once
  insert_conjuncts (PlanNode.filter input predicate) per_table =
      PlanNode.filter (insert_conjuncts input per_table) predicate
  insert_conjuncts (PlanNode.project input items) per_table =
      PlanNode.project (insert_conjuncts input per_table) items
  insert_conjuncts (PlanNode.aggregate input group_keys aggs) per_table =
      PlanNode.aggregate (insert_conjuncts input per_table) group_keys aggs
  insert_conjuncts (PlanNode.window input funcs) per_table =
      PlanNode.window (insert_conjuncts input per_table) funcs
  insert_conjuncts (PlanNode.sort input ks) per_table =
      PlanNode.sort (insert_conjuncts input per_table) ks
  insert_conjuncts (PlanNode.limit input n offset) per_table =
      PlanNode.limit (insert_conjuncts input per_table) n offset
  insert_conjuncts (PlanNode.distinct input) per_table =
      PlanNode.distinct (insert_conjuncts input per_table)
  insert_conjuncts plan per_table = plan

  -- Where a conjunct above a join goes: below it to the scan of a table, or nowhere.
  unfoldable pub target :
      Dict (List String) → String → List String → List String → Expr V → Option String
  unfolding tables_of
  target by_col how left_tables right_tables c =
      let ts = common (tables_of by_col (columns c) []) (set_update left_tables right_tables) in
      if any_unknown by_col (columns c) || non_empty (common ts (common left_tables right_tables))
      then none
      else single (pushable_sides how left_tables right_tables) ts

  -- A conjunct goes to `pushable` or to `remaining`.
  abbrev pub put :
      Option String
      → Expr V
      → Dict (List (Expr V)) × List (Expr V)
      → Dict (List (Expr V)) × List (Expr V)
  put none c (pushable, remaining) = (pushable, remaining ++ c ∷ [])
  put (some t) c (pushable, remaining) = (append_to t c pushable, remaining)

  -- The loop over the conjuncts.
  abbrev pub route :
      (Expr V → Option String)
      → List (Expr V)
      → Dict (List (Expr V)) × List (Expr V)
      → Dict (List (Expr V)) × List (Expr V)
  route goal [] out = out
  route goal (c ∷ cs) out = route goal cs (put (goal c) c out)

  abbrev pub place : PlanNode V → Expr V → Dict (List (Expr V)) × List (Expr V) → PlanNode V
  place below predicate ([], remaining) = PlanNode.filter below predicate
  place below predicate (e ∷ pushable, remaining) =
      filter_all (insert_conjuncts below (e ∷ pushable)) remaining

  -- The step of `go` at a Filter, over its rewritten input.
  unfoldable pub push_filter : Dict (List String) → PlanNode V → Expr V → PlanNode V
  unfolding subtree_tables insert_conjuncts target split_and
  push_filter by_col (PlanNode.join left right on_left on_right how on_predicate using) predicate =
      place (PlanNode.join left right on_left on_right how on_predicate using) predicate (
        route (target by_col how (subtree_tables left) (subtree_tables right)) (split_and predicate)
          ([], []))
  push_filter by_col input predicate = PlanNode.filter input predicate

  -- `go`
  unfoldable pub push : Dict (List String) → PlanNode V → PlanNode V
  unfolding push_filter
  push by_col (PlanNode.filter input predicate) = push_filter by_col (push by_col input) predicate
  push by_col (PlanNode.project input items) = PlanNode.project (push by_col input) items
  push by_col (PlanNode.aggregate input group_keys aggs) =
      PlanNode.aggregate (push by_col input) group_keys aggs
  push by_col (PlanNode.window input funcs) = PlanNode.window (push by_col input) funcs
  push by_col (PlanNode.sort input ks) = PlanNode.sort (push by_col input) ks
  push by_col (PlanNode.limit input n offset) = PlanNode.limit (push by_col input) n offset
  push by_col (PlanNode.distinct input) = PlanNode.distinct (push by_col input)
  push by_col (PlanNode.derived input alias) = PlanNode.derived (push by_col input) alias
  push by_col (PlanNode.join left right on_left on_right how on_predicate using) =
      PlanNode.join (push by_col left) (push by_col right) on_left on_right how on_predicate using
  push by_col (PlanNode.set_op left right op once) =
      PlanNode.set_op (push by_col left) (push by_col right) op once
  push by_col node = node

  unfoldable pub push_predicates : PlanNode V → Dict (List String) → PlanNode V
  unfolding push col_to_tables
  push_predicates plan schema = push (col_to_tables schema []) plan

  unfoldable pub optimize : PlanNode V → Dict (List String) → Dict ℕ → PlanNode V
  unfolding push_predicates
  optimize plan schema stats =
      select_join_sides (prune_projections (push_predicates plan schema) schema) stats
