-- ===== src/Optimize.antt =====
-- ryudb/sql/optimize.py: projection pruning and join-side selection, and the helpers on conjuncts. Row
-- counts are capped below the range in which floats are exact, so they are natural numbers.
pub mod Sides
pub mod Conjuncts
pub mod Uses
pub mod Pruning
use ryu_db.Common.{
  ℕ, ◌*◌, ◌+◌, ◌^◌, String, Bool, true, false, not, ◌&&◌, ◌||◌, Option, none, some, List, [], ◌∷◌,
  ◌++◌, map, keep_if, ltb, non_empty, if◌then◌else◌, ◌=ₛ◌,
}
use Prim.Native.Nat.{min}
use ryu_db.Common.Dict.{Dict, lookup, get_list, contains, set_update}
use ryu_db.Plan.{Expr, MaybeExpr, columns, maybe_columns}
use ryu_db.Plan.Nodes.{PlanNode, walk}

-- The columns of a scan after pruning: `referenced & table_cols if table_cols else None`.
abbrev pub scan_columns : List String → List String → Option (List String)
scan_columns referenced [] = none
scan_columns referenced (c ∷ cs) = some (keep_if (λ k. contains k referenced) (c ∷ cs))

abbrev pub default_rows : Option ℕ → ℕ
default_rows none = 10 ^ 9
default_rows (some n) = n

abbrev pub is_one_sided : String → Bool
is_one_sided how = how =ₛ "semi" || how =ₛ "anti"

abbrev pub swap_how : String → String
swap_how how = if how =ₛ "left" then "right" else if how =ₛ "right" then "left" else how

module _ {V : Type 0} where
  unfoldable pub split_and : Expr V → List (Expr V)
  split_and (Expr.and left right) = split_and left ++ split_and right
  split_and e = e ∷ []

  -- The loop of `_conjoin`, and `_conjoin` itself; `none` is the IndexError on no parts.
  unfoldable pub conjoin : Expr V → List (Expr V) → Expr V
  conjoin acc [] = acc
  conjoin acc (p ∷ parts) = conjoin (Expr.and acc p) parts

  unfoldable pub conjoin_parts : List (Expr V) → Option (Expr V)
  unfolding conjoin
  conjoin_parts [] = none
  conjoin_parts (p ∷ parts) = some (conjoin p parts)

  abbrev pub item_columns {ℓ} : {A : Type ℓ} → List (Expr V × A) → List String → List String
  item_columns [] cols = cols
  item_columns ((e, name) ∷ items) cols = item_columns items (set_update cols (columns e))

  -- One round of the loop of `_all_referenced_columns`.
  unfoldable pub node_columns : PlanNode V → List String → List String
  node_columns (PlanNode.filter input predicate) cols = set_update cols (columns predicate)
  node_columns (PlanNode.project input items) cols = item_columns items cols
  node_columns (PlanNode.aggregate input group_keys aggs) cols =
      item_columns aggs (item_columns group_keys cols)
  node_columns (PlanNode.window input funcs) cols = item_columns funcs cols
  node_columns (PlanNode.sort input ks) cols = item_columns ks cols
  node_columns (PlanNode.join left right on_left on_right how on_predicate using) cols =
      set_update (set_update (set_update cols on_left) on_right) (maybe_columns on_predicate)
  node_columns _ cols = cols

  unfoldable pub referenced_in : List (PlanNode V) → List String → List String
  unfolding node_columns
  referenced_in [] cols = cols
  referenced_in (n ∷ ns) cols = referenced_in ns (node_columns n cols)

  unfoldable pub all_referenced_columns : PlanNode V → List String
  unfolding referenced_in
  all_referenced_columns plan = referenced_in (walk plan) []

  -- `rewrite` of `prune_projections`.
  unfoldable pub prune : Dict (List String) → List String → PlanNode V → PlanNode V
  prune schema refs (PlanNode.scan table cols alias) =
      PlanNode.scan table (scan_columns refs (get_list table schema)) alias
  prune schema refs (PlanNode.join left right on_left on_right how on_predicate using) =
      PlanNode.join (prune schema refs left) (prune schema refs right) on_left on_right how
        on_predicate using
  prune schema refs (PlanNode.set_op left right op once) =
      PlanNode.set_op (prune schema refs left) (prune schema refs right) op once
  prune schema refs (PlanNode.filter input predicate) =
      PlanNode.filter (prune schema refs input) predicate
  prune schema refs (PlanNode.project input items) =
      PlanNode.project (prune schema refs input) items
  prune schema refs (PlanNode.aggregate input group_keys aggs) =
      PlanNode.aggregate (prune schema refs input) group_keys aggs
  prune schema refs (PlanNode.window input funcs) = PlanNode.window (prune schema refs input) funcs
  prune schema refs (PlanNode.sort input ks) = PlanNode.sort (prune schema refs input) ks
  prune schema refs (PlanNode.limit input n offset) =
      PlanNode.limit (prune schema refs input) n offset
  prune schema refs (PlanNode.distinct input) = PlanNode.distinct (prune schema refs input)
  prune schema refs (PlanNode.derived input alias) =
      PlanNode.derived (prune schema refs input) alias
  prune schema refs node = node

  abbrev pub is_project : PlanNode V → Bool
  is_project (PlanNode.project input items) = true
  is_project _ = false

  abbrev pub is_aggregate : PlanNode V → Bool
  is_aggregate (PlanNode.aggregate input group_keys aggs) = true
  is_aggregate _ = false

  abbrev pub any_node : (PlanNode V → Bool) → List (PlanNode V) → Bool
  any_node p [] = false
  any_node p (n ∷ ns) = p n || any_node p ns

  unfoldable pub prune_projections : PlanNode V → Dict (List String) → PlanNode V
  unfolding prune all_referenced_columns
  prune_projections plan schema =
      let star_mode =
        not (any_node is_project (walk plan)) && not (any_node is_aggregate (walk plan)) in
      let referenced = all_referenced_columns plan in
      if star_mode || (not (non_empty schema) || not (non_empty referenced))
      then plan
      else prune schema referenced plan

  unfoldable pub est_rows : Dict ℕ → PlanNode V → ℕ
  est_rows stats (PlanNode.scan table cols alias) = default_rows (lookup table stats)
  est_rows stats (PlanNode.join left right on_left on_right how on_predicate using) =
      min (est_rows stats left * est_rows stats right) (10 ^ 15)
  est_rows stats (PlanNode.set_op left right op once) =
      min (est_rows stats left + est_rows stats right) (10 ^ 15)
  est_rows stats (PlanNode.filter input predicate) = est_rows stats input
  est_rows stats (PlanNode.project input items) = est_rows stats input
  est_rows stats (PlanNode.aggregate input group_keys aggs) = est_rows stats input
  est_rows stats (PlanNode.window input funcs) = est_rows stats input
  est_rows stats (PlanNode.sort input ks) = est_rows stats input
  est_rows stats (PlanNode.limit input n offset) = est_rows stats input
  est_rows stats (PlanNode.distinct input) = est_rows stats input
  est_rows stats (PlanNode.derived input alias) = est_rows stats input
  est_rows stats node = 10 ^ 9

  -- The join case of `go`, with the rewritten inputs.
  unfoldable pub side_join :
      Dict ℕ
      → PlanNode V
      → PlanNode V
      → List String
      → List String
      → String
      → MaybeExpr V
      → Bool
      → PlanNode V
  unfolding est_rows
  side_join stats left right on_left on_right how on_predicate using =
      if is_one_sided how
      then PlanNode.join left right on_left on_right how on_predicate using
      else if ltb (est_rows stats right) (est_rows stats left)
      then PlanNode.join right left on_right on_left (swap_how how) on_predicate using
      else PlanNode.join left right on_left on_right how on_predicate using

  -- `go` of `select_join_sides`.
  unfoldable pub choose_sides : Dict ℕ → PlanNode V → PlanNode V
  unfolding side_join
  choose_sides stats (PlanNode.join left right on_left on_right how on_predicate using) =
      side_join stats (choose_sides stats left) (choose_sides stats right) on_left on_right how
        on_predicate using
  choose_sides stats (PlanNode.set_op left right op once) =
      PlanNode.set_op (choose_sides stats left) (choose_sides stats right) op once
  choose_sides stats (PlanNode.filter input predicate) =
      PlanNode.filter (choose_sides stats input) predicate
  choose_sides stats (PlanNode.project input items) =
      PlanNode.project (choose_sides stats input) items
  choose_sides stats (PlanNode.aggregate input group_keys aggs) =
      PlanNode.aggregate (choose_sides stats input) group_keys aggs
  choose_sides stats (PlanNode.window input funcs) =
      PlanNode.window (choose_sides stats input) funcs
  choose_sides stats (PlanNode.sort input ks) = PlanNode.sort (choose_sides stats input) ks
  choose_sides stats (PlanNode.limit input n offset) =
      PlanNode.limit (choose_sides stats input) n offset
  choose_sides stats (PlanNode.distinct input) = PlanNode.distinct (choose_sides stats input)
  choose_sides stats (PlanNode.derived input alias) =
      PlanNode.derived (choose_sides stats input) alias
  choose_sides stats node = node

  unfoldable pub select_join_sides : PlanNode V → Dict ℕ → PlanNode V
  unfolding choose_sides
  select_join_sides plan stats = if non_empty stats then choose_sides stats plan else plan
