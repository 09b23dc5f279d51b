-- ===== src/Optimize/Sides.antt =====
-- Join-side selection of ryudb/sql/optimize.py: the sides are chosen by size, and the plan means the same.
use ryu_db.Common.{
  ℕ, ◌≤◌, String, ◌≡◌, refl, sym, subst, eq_iff, ◌=ₛ◌, ◌&&◌, ◌||◌, ap, ap₂, ◌∙◌, ◌⊎◌, inl, inr,
  Bool, true, false, Option, List, arith, ltb, non_empty, Bool-cases,
}
use ryu_db.Common.Dict.{Dict}
use ryu_db.Plan.{Expr, MaybeExpr}
use ryu_db.Plan.Nodes.{PlanNode}
use ryu_db.Optimize.{est_rows, is_one_sided, swap_how, side_join, choose_sides, select_join_sides}

module _ {V : Type 0} where
  -- At each join the estimate of the left side is not above that of the right one, semi and anti joins
  -- apart.
  abbrev pub IsSided : Dict ℕ → PlanNode V → Type 0
  IsSided stats (PlanNode.join left right on_left on_right how on_predicate using) =
      ((is_one_sided how ≡ true) ⊎ (est_rows stats left ≤ est_rows stats right))
      × IsSided stats left
      × IsSided stats right
  IsSided stats (PlanNode.set_op left right op once) = IsSided stats left × IsSided stats right
  IsSided stats (PlanNode.filter input predicate) = IsSided stats input
  IsSided stats (PlanNode.project input items) = IsSided stats input
  IsSided stats (PlanNode.aggregate input group_keys aggs) = IsSided stats input
  IsSided stats (PlanNode.window input funcs) = IsSided stats input
  IsSided stats (PlanNode.sort input ks) = IsSided stats input
  IsSided stats (PlanNode.limit input n offset) = IsSided stats input
  IsSided stats (PlanNode.distinct input) = IsSided stats input
  IsSided stats (PlanNode.derived input alias) = IsSided stats input
  IsSided stats _ = Unit {0}

  side_join-IsSided :
      (stats : Dict ℕ) (left right : PlanNode V) (on_left on_right : List String) (how : String)
      (on_predicate : MaybeExpr V) (using : Bool)
      → IsSided stats left
      → IsSided stats right
      → IsSided stats (side_join stats left right on_left on_right how on_predicate using)
  unfolding side_join
  side_join-IsSided stats left right on_left on_right how on_predicate using l r =
      elim (Bool-cases (is_one_sided how)) [
        | inl one ↦ rw one (inl one, l, r)
        | inr two ↦ rw two (elim (Bool-cases (ltb (est_rows stats right) (est_rows stats left))) [
          | inl less ↦ rw less (inr (ground arith), r, l)
          | inr same ↦ rw same (inr (ground arith), l, r)
        ])
      ]

  choose_sides-IsSided :
      (stats : Dict ℕ) (plan : PlanNode V) → IsSided stats (choose_sides stats plan)
  unfolding choose_sides
  choose_sides-IsSided stats (PlanNode.join left right on_left on_right how on_predicate using) =
      side_join-IsSided stats (choose_sides stats left) (choose_sides stats right) on_left on_right
        how on_predicate using (choose_sides-IsSided stats left) (choose_sides-IsSided stats right)
  choose_sides-IsSided stats (PlanNode.set_op left right op once) =
      (choose_sides-IsSided stats left, choose_sides-IsSided stats right)
  choose_sides-IsSided stats (PlanNode.filter input predicate) = choose_sides-IsSided stats input
  choose_sides-IsSided stats (PlanNode.project input items) = choose_sides-IsSided stats input
  choose_sides-IsSided stats (PlanNode.aggregate input group_keys aggs) =
      choose_sides-IsSided stats input
  choose_sides-IsSided stats (PlanNode.window input funcs) = choose_sides-IsSided stats input
  choose_sides-IsSided stats (PlanNode.sort input ks) = choose_sides-IsSided stats input
  choose_sides-IsSided stats (PlanNode.limit input n offset) = choose_sides-IsSided stats input
  choose_sides-IsSided stats (PlanNode.distinct input) = choose_sides-IsSided stats input
  choose_sides-IsSided stats (PlanNode.derived input alias) = choose_sides-IsSided stats input
  choose_sides-IsSided stats _ = tt

  -- With row counts, each join of the rewritten plan has the smaller estimate on its left side, except
  -- semi and anti joins.
  pub select_join_sides-IsSided :
      (plan : PlanNode V) (stats : Dict ℕ)
      → non_empty stats ≡ true
      → IsSided stats (select_join_sides plan stats)
  unfolding select_join_sides
  select_join_sides-IsSided plan stats h = rw h (choose_sides-IsSided stats plan)

-- A reading of plans in `B`, node by node.
pub record Reading (V B : Type 0) : Type 0 where
  pub scan : String → Option (List String) → Option String → B
  pub filter : B → Expr V → B
  pub project : B → List (Expr V × String) → B
  pub join : B → B → List String → List String → String → MaybeExpr V → Bool → B
  pub aggregate : B → List (Expr V × String) → List (Expr V × String) → B
  pub window : B → List (Expr V × String) → B
  pub sort : B → List (Expr V × Bool) → B
  pub limit : B → ℕ → ℕ → B
  pub distinct : B → B
  pub derived : B → String → B
  pub set_op : B → B → String → Bool → B
  pub write : PlanNode V → B

-- What SQL says about the kinds of join: INNER, FULL and CROSS may be turned round together with the
-- keys, and l LEFT JOIN r is r RIGHT JOIN l. Nothing of the sort is said of semi and anti joins.
pub record IsSymmetric {V B : Type 0} (m : Reading V B) : Type 0 where
  pub inner_turned :
      (l r : B) (on_left on_right : List String) (on_predicate : MaybeExpr V) (using : Bool)
      → m.join r l on_right on_left "inner" on_predicate using
        ≡ m.join l r on_left on_right "inner" on_predicate using
  pub full_turned :
      (l r : B) (on_left on_right : List String) (on_predicate : MaybeExpr V) (using : Bool)
      → m.join r l on_right on_left "full" on_predicate using
        ≡ m.join l r on_left on_right "full" on_predicate using
  pub cross_turned :
      (l r : B) (on_left on_right : List String) (on_predicate : MaybeExpr V) (using : Bool)
      → m.join r l on_right on_left "cross" on_predicate using
        ≡ m.join l r on_left on_right "cross" on_predicate using
  pub left_right :
      (l r : B) (on_left on_right : List String) (on_predicate : MaybeExpr V) (using : Bool)
      → m.join r l on_right on_left "right" on_predicate using
        ≡ m.join l r on_left on_right "left" on_predicate using

-- The kinds of join that the planner makes.
abbrev pub is_kind : String → Bool
is_kind how =
    (how =ₛ "inner" || how =ₛ "full" || how =ₛ "cross")
    || ((how =ₛ "left" || how =ₛ "right") || (how =ₛ "semi" || how =ₛ "anti"))

-- Every join of a plan is of one of them.
abbrev pub has_kinds : {V : Type 0} → PlanNode V → Bool
has_kinds (PlanNode.join left right on_left on_right how on_predicate using) =
    is_kind how && (has_kinds left && has_kinds right)
has_kinds (PlanNode.set_op left right op once) = has_kinds left && has_kinds right
has_kinds (PlanNode.filter input predicate) = has_kinds input
has_kinds (PlanNode.project input items) = has_kinds input
has_kinds (PlanNode.aggregate input group_keys aggs) = has_kinds input
has_kinds (PlanNode.window input funcs) = has_kinds input
has_kinds (PlanNode.sort input ks) = has_kinds input
has_kinds (PlanNode.limit input n offset) = has_kinds input
has_kinds (PlanNode.distinct input) = has_kinds input
has_kinds (PlanNode.derived input alias) = has_kinds input
has_kinds node = true

turned_cases :
    (how : String)
    → is_kind how ≡ true
    → is_one_sided how ≡ false
    → (how ≡ "inner") ⊎ ((how ≡ "full") ⊎ ((how ≡ "cross") ⊎ ((how ≡ "left") ⊎ (how ≡ "right"))))
turned_cases how h two = ground (
  arith,
  eq_iff how "inner",
  eq_iff how "full",
  eq_iff how "cross",
  eq_iff how "left",
  eq_iff how "right",
)

module _ {V B : Type 0} (m : Reading V B) where
  abbrev pub read : PlanNode V → B
  read (PlanNode.scan table cols alias) = m.scan table cols alias
  read (PlanNode.filter input predicate) = m.filter (read input) predicate
  read (PlanNode.project input items) = m.project (read input) items
  read (PlanNode.join left right on_left on_right how on_predicate using) =
      m.join (read left) (read right) on_left on_right how on_predicate using
  read (PlanNode.aggregate input group_keys aggs) = m.aggregate (read input) group_keys aggs
  read (PlanNode.window input funcs) = m.window (read input) funcs
  read (PlanNode.sort input ks) = m.sort (read input) ks
  read (PlanNode.limit input n offset) = m.limit (read input) n offset
  read (PlanNode.distinct input) = m.distinct (read input)
  read (PlanNode.derived input alias) = m.derived (read input) alias
  read (PlanNode.set_op left right op once) = m.set_op (read left) (read right) op once
  read node = m.write node

module _ {V B : Type 0} (m : Reading V B) (symmetric : IsSymmetric m) where
  -- The join that `swap_how` makes of the exchanged sides.
  swapped :
      (l r : B) (on_left on_right : List String) (how : String) (on_predicate : MaybeExpr V)
      (using : Bool)
      → is_kind how ≡ true
      → is_one_sided how ≡ false
      → m.join r l on_right on_left (swap_how how) on_predicate using
        ≡ m.join l r on_left on_right how on_predicate using
  swapped l r on_left on_right how on_predicate using kind two = elim (turned_cases how kind two) [
    | inl e ↦ turn (sym e) (symmetric.inner_turned l r on_left on_right on_predicate using)
    | inr (inl e) ↦ turn (sym e) (symmetric.full_turned l r on_left on_right on_predicate using)
    | inr (inr (inl e)) ↦
        turn (sym e) (symmetric.cross_turned l r on_left on_right on_predicate using)
    | inr (inr (inr (inl e))) ↦
        turn (sym e) (symmetric.left_right l r on_left on_right on_predicate using)
    | inr (inr (inr (inr e))) ↦
        turn (sym e) (sym (symmetric.left_right r l on_right on_left on_predicate using))
  ]
    where
      turn :
          {kind : String}
          → kind ≡ how
          → m.join r l on_right on_left (swap_how kind) on_predicate using
            ≡ m.join l r on_left on_right kind on_predicate using
          → m.join r l on_right on_left (swap_how how) on_predicate using
            ≡ m.join l r on_left on_right how on_predicate using
      turn e h =
          subst
            (λ k.
              m.join r l on_right on_left (swap_how k) on_predicate using
              ≡ m.join l r on_left on_right k on_predicate using)
            e h

  read-side_join :
      (stats : Dict ℕ) (left right : PlanNode V) (on_left on_right : List String) (how : String)
      (on_predicate : MaybeExpr V) (using : Bool)
      → is_kind how ≡ true
      → read m (side_join stats left right on_left on_right how on_predicate using)
        ≡ m.join (read m left) (read m right) on_left on_right how on_predicate using
  unfolding side_join
  read-side_join stats left right on_left on_right how on_predicate using kind =
      elim (Bool-cases (is_one_sided how)) [
        | inl one ↦ rw one refl
        | inr two ↦ rw two (elim (Bool-cases (ltb (est_rows stats right) (est_rows stats left))) [
          | inl less ↦ rw less (
              swapped (read m left) (read m right) on_left on_right how on_predicate using kind two)
          | inr same ↦ rw same refl
        ])
      ]

  read-choose_sides :
      (stats : Dict ℕ) (plan : PlanNode V)
      → has_kinds plan ≡ true
      → read m (choose_sides stats plan) ≡ read m plan
  unfolding choose_sides
  read-choose_sides stats (PlanNode.join left right on_left on_right how on_predicate using) h =
      read-side_join stats (choose_sides stats left) (choose_sides stats right) on_left on_right how
        on_predicate using (ground arith)
      ∙ ap₂ (λ l r. m.join l r on_left on_right how on_predicate using)
          (read-choose_sides stats left (ground arith))
          (read-choose_sides stats right (ground arith))
  read-choose_sides stats (PlanNode.set_op left right op once) h =
      ap₂ (λ l r. m.set_op l r op once) (read-choose_sides stats left (ground arith))
        (read-choose_sides stats right (ground arith))
  read-choose_sides stats (PlanNode.filter input predicate) h =
      ap (λ b. m.filter b predicate) (read-choose_sides stats input h)
  read-choose_sides stats (PlanNode.project input items) h =
      ap (λ b. m.project b items) (read-choose_sides stats input h)
  read-choose_sides stats (PlanNode.aggregate input group_keys aggs) h =
      ap (λ b. m.aggregate b group_keys aggs) (read-choose_sides stats input h)
  read-choose_sides stats (PlanNode.window input funcs) h =
      ap (λ b. m.window b funcs) (read-choose_sides stats input h)
  read-choose_sides stats (PlanNode.sort input ks) h =
      ap (λ b. m.sort b ks) (read-choose_sides stats input h)
  read-choose_sides stats (PlanNode.limit input n offset) h =
      ap (λ b. m.limit b n offset) (read-choose_sides stats input h)
  read-choose_sides stats (PlanNode.distinct input) h =
      ap m.distinct (read-choose_sides stats input h)
  read-choose_sides stats (PlanNode.derived input alias) h =
      ap (λ b. m.derived b alias) (read-choose_sides stats input h)
  read-choose_sides stats (PlanNode.scan table cols alias) h = refl
  read-choose_sides stats (PlanNode.insert table cols rows source) h = refl
  read-choose_sides stats (PlanNode.delete table predicate) h = refl
  read-choose_sides stats (PlanNode.update table assignments predicate) h = refl
  read-choose_sides stats (PlanNode.merge t ta source sa ont ons res ma na) h = refl
  read-choose_sides stats (PlanNode.txn_control kind) h = refl

  -- Choosing join sides does not change what a plan computes, whatever its nodes are taken to compute as
  -- long as INNER, FULL and CROSS joins may be turned round with their keys and l LEFT JOIN r is
  -- r RIGHT JOIN l. Every join of the plan is INNER, FULL, CROSS, LEFT, RIGHT, semi or anti.
  pub read-select_join_sides :
      (plan : PlanNode V) (stats : Dict ℕ)
      → has_kinds plan ≡ true
      → read m (select_join_sides plan stats) ≡ read m plan
  unfolding select_join_sides
  read-select_join_sides plan stats kinds = elim (Bool-cases (non_empty stats)) [
    | inl given ↦ rw given (read-choose_sides stats plan kinds)
    | inr missing ↦ rw missing refl
  ]
