-- ===== src/Plan.antt =====
-- ryudb/sql/plan.py: expressions, plan nodes, and the walks over them. A literal's value is a parameter.
-- A set of columns is a list in which each column stands once.
pub mod Nodes
pub mod Walk
use ryu_db.Common.{ℕ, String, Bool, Option, none, some, List, [], ◌∷◌, ◌++◌, map}
use ryu_db.Common.Dict.{set_update}

-- `FrameBound` and `Frame` of a window.
pub record FrameBound : Type 0 where
  pub kind : String
  pub n : Option ℕ

pub record Frame : Type 0 where
  pub mode : String
  pub start : FrameBound
  pub end : FrameBound

-- `Expr` and its subclasses; `Exprs`, `OrderKeys` and `Branches` are the tuples in them, `MaybeExpr` is
-- `Expr | None`.
mutual
  pub data Expr (V : Type 0) : Type 0 where
    col : String → Option String → Expr V
    lit : V → Option String → Expr V
    star : Expr V
    bin_op : String → Expr V → Expr V → Expr V
    and : Expr V → Expr V → Expr V
    or : Expr V → Expr V → Expr V
    not_expr : Expr V → Expr V
    agg_func : String → Expr V → MaybeExpr V → Bool → Expr V
    window_func :
        String
        → MaybeExpr V
        → Exprs V
        → OrderKeys V
        → MaybeExpr V
        → MaybeExpr V
        → Option Frame
        → Expr V
    is_null : Expr V → Bool → Expr V
    in_list : Expr V → Exprs V → Bool → Expr V
    like : Expr V → Expr V → Bool → Bool → Expr V
    case : MaybeExpr V → Branches V → MaybeExpr V → Expr V
    coalesce : Exprs V → Expr V
    cast : Expr V → String → Expr V
    func : String → Exprs V → Expr V

  pub data MaybeExpr (V : Type 0) : Type 0 where
    nothing : MaybeExpr V
    just : Expr V → MaybeExpr V

  pub data Exprs (V : Type 0) : Type 0 where
    no_exprs : Exprs V
    more_exprs : Expr V → Exprs V → Exprs V

  pub data OrderKeys (V : Type 0) : Type 0 where
    no_keys : OrderKeys V
    more_keys : Expr V → Bool → OrderKeys V → OrderKeys V

  pub data Branches (V : Type 0) : Type 0 where
    no_branches : Branches V
    more_branches : Expr V → Expr V → Branches V → Branches V

-- `Expr.columns()`, each class its own method.
module _ {V : Type 0} where
  unfoldable mutual
    pub columns : Expr V → List String
    columns (Expr.col name table) = name ∷ []
    columns (Expr.lit value dtype) = []
    columns Expr.star = []
    columns (Expr.bin_op op left right) = set_update (columns left) (columns right)
    columns (Expr.and left right) = set_update (columns left) (columns right)
    columns (Expr.or left right) = set_update (columns left) (columns right)
    columns (Expr.not_expr e) = columns e
    columns (Expr.agg_func f arg filter distinct) = set_update (columns arg) (maybe_columns filter)
    columns (Expr.window_func f arg partition_keys order_keys offset default frame) =
        set_update
          (set_update
            (set_update (set_update (all_columns partition_keys) (order_columns order_keys))
              (maybe_columns arg))
            (maybe_columns offset))
          (maybe_columns default)
    columns (Expr.is_null e negated) = columns e
    columns (Expr.in_list e values negated) = set_update (columns e) (all_columns values)
    columns (Expr.like e pattern negated case_sensitive) = set_update (columns e) (columns pattern)
    columns (Expr.case operand branches default) =
        set_update (set_update (maybe_columns operand) (branch_columns branches))
          (maybe_columns default)
    columns (Expr.coalesce args) = all_columns args
    columns (Expr.cast e dtype) = columns e
    columns (Expr.func name args) = all_columns args

    pub maybe_columns : MaybeExpr V → List String
    maybe_columns MaybeExpr.nothing = []
    maybe_columns (MaybeExpr.just e) = columns e

    pub all_columns : Exprs V → List String
    all_columns Exprs.no_exprs = []
    all_columns (Exprs.more_exprs e es) = set_update (columns e) (all_columns es)

    pub order_columns : OrderKeys V → List String
    order_columns OrderKeys.no_keys = []
    order_columns (OrderKeys.more_keys e ascending ks) = set_update (columns e) (order_columns ks)

    pub branch_columns : Branches V → List String
    branch_columns Branches.no_branches = []
    branch_columns (Branches.more_branches cond val bs) =
        set_update (set_update (columns cond) (columns val)) (branch_columns bs)
