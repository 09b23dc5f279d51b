-- ===== src/Tests/Plans.antt =====
-- The plan walks (ryudb/sql/plan.py), the optimizer (ryudb/sql/optimize.py) and the catalog
-- (ryudb/catalog.py) at concrete data.
use ryu_db.Common.{
  Option, ap₂, if◌then◌else◌, ◌=ₛ◌, ◌==◌, ◌*◌, ℕ, zero, ◌+◌, String, ◌≡◌, refl, Bool, true, false,
  ◌&&◌, none, some, List, [], ◌∷◌, ok, arith,
}
use native.Mathlib.Nat.{mul_comm}
use ryu_db.Common.Dict.{Dict}
use ryu_db.Plan.{Expr, MaybeExpr, columns}
use ryu_db.Plan.Nodes.{PlanNode, walk, exprs_in}
use ryu_db.Optimize.{conjoin, split_and, conjoin_parts, prune_projections, select_join_sides}
use ryu_db.Optimize.Conjuncts.{IsConjunctive, conjoin_parts-split_and}
use ryu_db.Optimize.Uses.{uses}
use ryu_db.Optimize.Pruning.{reads, reads-prune_projections}
use ryu_db.Optimize.Sides.{Reading, IsSymmetric, read, read-select_join_sides}
use ryu_db.Pushdown.{target, push_predicates}
use ryu_db.Catalog.{
  Tables, Disk, register, register_paths, resolve_parquet_paths, count_rows, required,
}
use ryu_db.Catalog.Names.{IsCatalog, Change, change, change-IsCatalog}

-- SELECT x FROM big LEFT JOIN small USING (k)
abbrev joined : PlanNode ℕ
joined =
    PlanNode.join (PlanNode.scan "big" none none) (PlanNode.scan "small" none none) ("k" ∷ [])
      ("k" ∷ []) "left" MaybeExpr.nothing true

abbrev query : PlanNode ℕ
query = PlanNode.project joined ((Expr.col "x" none, "x") ∷ [])

abbrev schema : Dict (List String)
schema = ("big", "k" ∷ "x" ∷ "y" ∷ []) ∷ ("small", "k" ∷ "z" ∷ []) ∷ []

abbrev stats : Dict ℕ
stats = ("big", 1000) ∷ ("small", 10) ∷ []

key_used : uses "k" query ≡ true
unfolding uses columns
key_used = refl

reads-prune_projections_example : reads "k" schema (prune_projections query schema) ≡ true
reads-prune_projections_example = reads-prune_projections "k" query schema key_used refl

-- A plan read as the number of its rows with key 0 and the number of those with key 1. A row of a CROSS
-- join, which has two keys, counts under the smaller.
abbrev Counts : Type 0
Counts = ℕ × ℕ

abbrev both : (ℕ → ℕ → ℕ) → Counts → Counts → Counts
both f l r = (f l.0 r.0, f l.1 r.1)

-- The rows of each kind of join for one key, from the rows of its sides.
abbrev left_rows : ℕ → ℕ → ℕ
left_rows l r = if r == 0 then l else l * r

abbrev full_rows : ℕ → ℕ → ℕ
full_rows l r = if l == 0 then r else left_rows l r

abbrev semi_rows : ℕ → ℕ → ℕ
semi_rows l r = if r == 0 then 0 else l

abbrev anti_rows : ℕ → ℕ → ℕ
anti_rows l r = if r == 0 then l else 0

abbrev join_rows : String → Counts → Counts → Counts
join_rows how l r =
    if how =ₛ "inner"
    then both (λ a b. a * b) l r
    else if how =ₛ "left"
    then both left_rows l r
    else if how =ₛ "right"
    then both left_rows r l
    else if how =ₛ "full"
    then both full_rows l r
    else if how =ₛ "semi"
    then both semi_rows l r
    else if how =ₛ "anti"
    then both anti_rows l r
    else (l.0 * r.0 + (l.0 * r.1 + l.1 * r.0), l.1 * r.1)

abbrev counts : Reading ℕ Counts
counts = record {
  scan = λ table cols alias. if table =ₛ "big" then (2, 3) else (0, 1);
  filter = λ b predicate. b;
  project = λ b items. b;
  join = λ l r on_left on_right how on_predicate using. join_rows how l r;
  aggregate = λ b group_keys aggs. b;
  window = λ b funcs. b;
  sort = λ b ks. b;
  limit = λ b n offset. b;
  distinct = λ b. b;
  derived = λ b alias. b;
  set_op = λ l r op once. l;
  write = λ node. (0, 0);
}

full_rows_comm : (l r : ℕ) → full_rows l r ≡ full_rows r l
full_rows_comm l r = ground (arith, mul_comm l r)

counts-IsSymmetric : IsSymmetric counts
counts-IsSymmetric = record {
  inner_turned = λ l r on_left on_right on_predicate using.
      ap₂ (λ a b. (a, b)) (mul_comm r.0 l.0) (mul_comm r.1 l.1);
  full_turned = λ l r on_left on_right on_predicate using.
      ap₂ (λ a b. (a, b)) (full_rows_comm r.0 l.0) (full_rows_comm r.1 l.1);
  cross_turned = λ l r on_left on_right on_predicate using.
      ap₂ (λ a b. (a, b)) (omega (arith, mul_comm r.0 l.0, mul_comm r.0 l.1, mul_comm r.1 l.0))
        (mul_comm r.1 l.1);
  left_right = λ l r on_left on_right on_predicate using. refl;
}

read-select_join_sides_example : read counts (select_join_sides query stats) ≡ (2, 3)
read-select_join_sides_example = read-select_join_sides counts counts-IsSymmetric query stats refl

abbrev value : Expr ℕ → Bool
value (Expr.and a b) = value a && value b
value (Expr.lit zero dtype) = false
value _ = true

and_assoc : (a b c : Bool) → ((a && b) && c) ≡ (a && (b && c))
and_assoc true b c = refl
and_assoc false b c = refl

value-IsConjunctive : IsConjunctive value (λ a b. a && b)
value-IsConjunctive = record { value_and = λ a b. refl; assoc = and_assoc }

abbrev predicate : Expr ℕ
predicate = Expr.and (Expr.and (Expr.lit 1 none) (Expr.lit 0 none)) (Expr.lit 2 none)

conjoin_parts-split_and_example :
    (e' : Expr ℕ) × (conjoin_parts (split_and predicate) ≡ some e') × (value e' ≡ value predicate)
conjoin_parts-split_and_example =
    conjoin_parts-split_and value (λ a b. a && b) value-IsConjunctive predicate

-- The tables of each column.
abbrev by_col : Dict (List String)
by_col =
    ("k", "big" ∷ "small" ∷ []) ∷ ("x", "big" ∷ []) ∷ ("y", "big" ∷ []) ∷ ("z", "small" ∷ []) ∷ []

-- Where the conjuncts above a LEFT JOIN of the two tables go.
abbrev goal : Expr ℕ → Option String
goal = target by_col "left" ("big" ∷ []) ("small" ∷ [])

-- (a LEFT JOIN b) JOIN c WHERE x, with x a column of b.
abbrev nested : PlanNode ℕ
nested =
    PlanNode.filter
      (PlanNode.join
        (PlanNode.join (PlanNode.scan "a" none none) (PlanNode.scan "b" none none) ("k" ∷ [])
          ("k" ∷ []) "left" MaybeExpr.nothing false)
        (PlanNode.scan "c" none none) ("k" ∷ []) ("k" ∷ []) "inner" MaybeExpr.nothing false)
      (Expr.col "x" none)

-- The condition goes below the LEFT JOIN, to its null-supplying side.
nested_pushed :
    push_predicates nested (("b", "x" ∷ []) ∷ [])
    ≡ PlanNode.join
        (PlanNode.join
          (PlanNode.scan "a" none none)
          (PlanNode.filter (PlanNode.scan "b" none none) (Expr.col "x" none))
          ("k" ∷ [])
          ("k" ∷ [])
          "left"
          MaybeExpr.nothing
          false)
        (PlanNode.scan "c" none none)
        ("k" ∷ [])
        ("k" ∷ [])
        "inner"
        MaybeExpr.nothing
        false
unfolding push_predicates columns conjoin
nested_pushed = refl

-- (t JOIN t) JOIN c WHERE x, with x a column of t: the condition goes to both scans of t.
abbrev twice : PlanNode ℕ → PlanNode ℕ
twice scan_t =
    PlanNode.join
      (PlanNode.join scan_t scan_t ("k" ∷ []) ("k" ∷ []) "inner" MaybeExpr.nothing false)
      (PlanNode.scan "c" none none) ("k" ∷ []) ("k" ∷ []) "inner" MaybeExpr.nothing false

doubled_pushed :
    push_predicates
      (PlanNode.filter (twice (PlanNode.scan "t" none none)) (Expr.col "x" none))
      (("t", "x" ∷ []) ∷ [])
    ≡ twice (PlanNode.filter (PlanNode.scan "t" none none) (Expr.col "x" none))
unfolding push_predicates columns conjoin
doubled_pushed = refl

-- SELECT * FROM a WHERE k IN (SELECT k FROM b), the subquery a semi join: the scan of a keeps k alone.
star_pruned :
    prune_projections {V = ℕ}
      (PlanNode.join
        (PlanNode.scan "a" none none)
        (PlanNode.project (PlanNode.scan "b" none none) ((Expr.col "k" none, "k") ∷ []))
        ("k" ∷ [])
        ("k" ∷ [])
        "semi"
        MaybeExpr.nothing
        false)
      (("a", "k" ∷ "v" ∷ []) ∷ ("b", "k" ∷ []) ∷ [])
    ≡ PlanNode.join
        (PlanNode.scan "a" (some ("k" ∷ [])) none)
        (PlanNode.project
          (PlanNode.scan "b" (some ("k" ∷ [])) none)
          ((Expr.col "k" none, "k") ∷ []))
        ("k" ∷ [])
        ("k" ∷ [])
        "semi"
        MaybeExpr.nothing
        false
unfolding prune_projections walk columns exprs_in
star_pruned = refl

-- One Parquet file with a required column and 3 rows.
abbrev disk : Disk
disk = record {
  is_dir = λ path. false;
  exists = λ path. true;
  sorted_glob = λ pattern. [];
  join = λ dir name. name;
  read_schema = λ path. ok (("k", false) ∷ ("x", true) ∷ []);
  num_rows = λ path. ok 3;
}

abbrev one_table : Tables ℕ
one_table =
    (
      "t",
      record {
        name = "t";
        paths = "t.parquet" ∷ [];
        columns = "k" ∷ "x" ∷ [];
        row_count = 3;
        constraints = record {
          not_null = "k" ∷ [];
          primary_key = none;
          unique = [];
          defaults = [];
        };
      },
    )
    ∷ []

no_tables-IsCatalog : IsCatalog {D = ℕ} []
no_tables-IsCatalog = record { once = tt; named = λ k i at. cc }

registered : change (Change.registers disk "t" "t.parquet") [] ≡ ok one_table
unfolding change register register_paths resolve_parquet_paths count_rows required
registered = refl

change-IsCatalog_example : IsCatalog one_table
change-IsCatalog_example =
    change-IsCatalog (Change.registers disk "t" "t.parquet") [] one_table registered
      no_tables-IsCatalog
