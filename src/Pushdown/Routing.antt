-- ===== src/Pushdown/Routing.antt =====
-- Predicate pushdown of ryudb/sql/optimize.py at one join: where `push_predicates` sends a conjunct that
-- stands above it. What `insert` does with it further down, where a join can stand below that join and a
-- table be scanned twice, is not looked at here.
use ryu_db.Common.{String, ◌≡◌, ◌⊎◌, true, ◌||◌, List}
use ryu_db.Common.Dict.{Dict, contains}

-- The table is on a side whose rows the join of that kind does not pad with NULLs.
abbrev pub Kept : String → List String → List String → String → Type 0
Kept how left_tables right_tables t =
    ((how ≡ "inner") × ((contains t left_tables || contains t right_tables) ≡ true))
    ⊎ ((((how ≡ "left") ⊎ (how ≡ "semi") ⊎ (how ≡ "anti")) × (contains t left_tables ≡ true))
        ⊎ ((how ≡ "right") × (contains t right_tables ≡ true)))
