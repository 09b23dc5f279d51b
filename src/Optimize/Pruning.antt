-- ===== src/Optimize/Pruning.antt =====
-- Projection pruning of ryudb/sql/optimize.py: which columns count as referenced, and that no scan loses
-- a column that an expression or a join key names.
use ryu_db.Common.{
  String, ◌≡◌, refl, ◌∙◌, Bool, true, not, ◌&&◌, ◌||◌, Option, none, some, List, [], ◌∷◌, map,
  arith, keep_if, non_empty, Bool-cases, inl, inr, eq_iff,
}
use ryu_db.Common.Dict.{Dict, get_list, contains, set_update, contains-set_update}
use ryu_db.Plan.{Expr, MaybeExpr, columns, maybe_columns}
use ryu_db.Plan.Nodes.{PlanNode, walk, exprs_in, maybe_list}
use ryu_db.Optimize.Uses.{any_has, is_used, any_has-append, uses, walk-uses}
use ryu_db.Optimize.{
  item_columns, node_columns, referenced_in, all_referenced_columns, scan_columns, prune,
  is_project, is_aggregate, any_node, prune_projections,
}

module _ (c : String) where
  -- A scan of a table that has the column reads it.
  abbrev pub scan_reads : List String → Option (List String) → Bool
  scan_reads table_cols none = true
  scan_reads table_cols (some cs) = not (contains c table_cols) || contains c cs

  contains-keep_if_in :
      (refs cs : List String)
      → contains c refs ≡ true
      → contains c (keep_if (λ k. contains k refs) cs) ≡ contains c cs
  contains-keep_if_in refs [] h = refl
  contains-keep_if_in refs (k ∷ cs) h = ground (arith, contains-keep_if_in refs cs h, eq_iff k c)

  scan_reads-scan_columns :
      (refs table_cols : List String)
      → contains c refs ≡ true
      → scan_reads table_cols (scan_columns refs table_cols) ≡ true
  scan_reads-scan_columns refs [] h = refl
  scan_reads-scan_columns refs (k ∷ cs) h = ground (arith, contains-keep_if_in refs (k ∷ cs) h)

module _ {V : Type 0} (c : String) where
  contains-maybe_columns :
      (p : MaybeExpr V) → contains c (maybe_columns p) ≡ any_has c (maybe_list p)
  unfolding maybe_columns
  contains-maybe_columns MaybeExpr.nothing = refl
  contains-maybe_columns (MaybeExpr.just e) = ground arith

  contains-item_columns {ℓ} :
      {A : Type ℓ} (items : List (Expr V × A)) (cols : List String)
      → contains c (item_columns items cols) ≡ (contains c cols || any_has c (map (λ i. i.0) items))
  contains-item_columns [] cols = ground arith
  contains-item_columns ((e, name) ∷ items) cols = ground (
    arith,
    contains-item_columns items (set_update cols (columns e)),
    contains-set_update c cols (columns e),
  )

  contains-node_columns :
      (n : PlanNode V) (cols : List String)
      → contains c (node_columns n cols) ≡ (contains c cols || is_used c n)
  unfolding node_columns exprs_in
  contains-node_columns (PlanNode.filter input predicate) cols =
      ground (arith, contains-set_update c cols (columns predicate))
  contains-node_columns (PlanNode.project input items) cols = contains-item_columns items cols
  contains-node_columns (PlanNode.aggregate input group_keys aggs) cols = ground (
    arith,
    contains-item_columns aggs (item_columns group_keys cols),
    contains-item_columns group_keys cols,
    any_has-append c (map (λ i. i.0) group_keys) (map (λ i. i.0) aggs),
  )
  contains-node_columns (PlanNode.window input funcs) cols = contains-item_columns funcs cols
  contains-node_columns (PlanNode.sort input ks) cols = contains-item_columns ks cols
  contains-node_columns (PlanNode.join left right on_left on_right how on_predicate using) cols =
      ground (
        arith,
        contains-set_update c (set_update (set_update cols on_left) on_right)
            (maybe_columns on_predicate),
        contains-set_update c (set_update cols on_left) on_right,
        contains-set_update c cols on_left,
        contains-maybe_columns on_predicate,
      )
  contains-node_columns (PlanNode.scan table cs alias) cols = ground arith
  contains-node_columns (PlanNode.limit input n offset) cols = ground arith
  contains-node_columns (PlanNode.distinct input) cols = ground arith
  contains-node_columns (PlanNode.derived input alias) cols = ground arith
  contains-node_columns (PlanNode.set_op left right op once) cols = ground arith
  contains-node_columns (PlanNode.insert table cs rows source) cols = ground arith
  contains-node_columns (PlanNode.delete table predicate) cols = ground arith
  contains-node_columns (PlanNode.update table assignments predicate) cols = ground arith
  contains-node_columns (PlanNode.merge t ta source sa ont ons res ma na) cols = ground arith
  contains-node_columns (PlanNode.txn_control kind) cols = ground arith

  contains-referenced_in :
      (ns : List (PlanNode V)) (cols : List String)
      → contains c (referenced_in ns cols) ≡ (contains c cols || any_node (is_used c) ns)
  unfolding referenced_in
  contains-referenced_in [] cols = ground arith
  contains-referenced_in (n ∷ ns) cols =
      ground (arith, contains-referenced_in ns (node_columns n cols), contains-node_columns n cols)

  -- The referenced columns of a plan are exactly those that some node of it, at any depth, uses c in an
  -- expression or as a join key; write nodes do not count.
  pub contains-all_referenced_columns :
      (plan : PlanNode V)
      → contains c (all_referenced_columns plan) ≡ any_node (is_used c) (walk plan)
  unfolding all_referenced_columns
  contains-all_referenced_columns plan = contains-referenced_in (walk plan) []

  -- Each scan does.
  abbrev pub reads : Dict (List String) → PlanNode V → Bool
  reads schema (PlanNode.scan table cs alias) = scan_reads c (get_list table schema) cs
  reads schema (PlanNode.join left right on_left on_right how on_predicate using) =
      reads schema left && reads schema right
  reads schema (PlanNode.set_op left right op once) = reads schema left && reads schema right
  reads schema (PlanNode.filter input predicate) = reads schema input
  reads schema (PlanNode.project input items) = reads schema input
  reads schema (PlanNode.aggregate input group_keys aggs) = reads schema input
  reads schema (PlanNode.window input funcs) = reads schema input
  reads schema (PlanNode.sort input ks) = reads schema input
  reads schema (PlanNode.limit input n offset) = reads schema input
  reads schema (PlanNode.distinct input) = reads schema input
  reads schema (PlanNode.derived input alias) = reads schema input
  reads schema node = true

  reads-prune :
      (schema : Dict (List String)) (refs : List String) (plan : PlanNode V)
      → contains c refs ≡ true
      → reads schema (prune schema refs plan) ≡ true
  unfolding prune
  reads-prune schema refs (PlanNode.scan table cs alias) h =
      scan_reads-scan_columns c refs (get_list table schema) h
  reads-prune schema refs (PlanNode.join left right on_left on_right how on_predicate using) h =
      rw (reads-prune schema refs left h) (reads-prune schema refs right h)
  reads-prune schema refs (PlanNode.set_op left right op once) h =
      rw (reads-prune schema refs left h) (reads-prune schema refs right h)
  reads-prune schema refs (PlanNode.filter input predicate) h = reads-prune schema refs input h
  reads-prune schema refs (PlanNode.project input items) h = reads-prune schema refs input h
  reads-prune schema refs (PlanNode.aggregate input group_keys aggs) h =
      reads-prune schema refs input h
  reads-prune schema refs (PlanNode.window input funcs) h = reads-prune schema refs input h
  reads-prune schema refs (PlanNode.sort input ks) h = reads-prune schema refs input h
  reads-prune schema refs (PlanNode.limit input n offset) h = reads-prune schema refs input h
  reads-prune schema refs (PlanNode.distinct input) h = reads-prune schema refs input h
  reads-prune schema refs (PlanNode.derived input alias) h = reads-prune schema refs input h
  reads-prune schema refs (PlanNode.insert table cs rows source) h = refl
  reads-prune schema refs (PlanNode.delete table predicate) h = refl
  reads-prune schema refs (PlanNode.update table assignments predicate) h = refl
  reads-prune schema refs (PlanNode.merge t ta source sa ont ons res ma na) h = refl
  reads-prune schema refs (PlanNode.txn_control kind) h = refl

  -- A column that an expression or a join key of the plan has, at any depth, is read by every scan of a
  -- table with that column after pruning, if it was before. Columns that no expression names, as those
  -- of SELECT *, are not spoken of.
  pub reads-prune_projections :
      (plan : PlanNode V) (schema : Dict (List String))
      → uses c plan ≡ true
      → reads schema plan ≡ true
      → reads schema (prune_projections plan schema) ≡ true
  unfolding prune_projections
  reads-prune_projections plan schema used before =
      elim (Bool-cases (
        not (any_node is_project (walk plan)) && not (any_node is_aggregate (walk plan))
        || (not (non_empty schema) || not (non_empty (all_referenced_columns plan))))) [
          | inl unchanged ↦ rw unchanged before
          | inr pruned ↦ rw pruned (
              reads-prune schema (all_referenced_columns plan) plan
                (contains-all_referenced_columns plan ∙ (walk-uses c plan ∙ used)))
        ]
