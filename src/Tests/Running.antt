-- ===== src/Tests/Running.antt =====
-- Running sums at concrete inputs, over natural numbers.
use ryu_db.Common.{ℕ, String, zero, suc, ◌+◌, ◌-◌, ◌≡◌, refl, some, List, [], ◌∷◌, ok, arith}
use ryu_db.Common.Integers.{ℤ, pos, negsuc, ◌+ℤ◌, ◌-ℤ◌, ◌≤ℤ◌}
use ryu_db.Plan.{FrameBound, Frame}
use ryu_db.Running.{Numbers, frame_bounds, prefix_sums, gather_diff}
use ryu_db.Running.Sums.{IsExact, get_elem?, gather_diff-frame_bounds}

abbrev entry : List ℕ → ℕ → ℕ
entry [] i = 0
entry (v ∷ vs) zero = v
entry (v ∷ vs) (suc i) = entry vs i

abbrev at : List ℕ → ℤ → ℕ
at xs (pos i) = entry xs i
at xs (negsuc i) = 0

abbrev naturals : Numbers ℕ
naturals = record { nought = 0; add = λ x y. x + y; sub = λ x y. x - y; iloc = at }

entry-get_elem? : (xs : List ℕ) (i v : ℕ) → get_elem? xs i ≡ some v → entry xs i ≡ v
entry-get_elem? [] i v h = absurd cc
entry-get_elem? (x ∷ xs) zero v h = cc
entry-get_elem? (x ∷ xs) (suc i) v h = entry-get_elem? xs i v h

naturals-IsExact : IsExact naturals
naturals-IsExact = record {
  add_assoc = λ x y z. omega arith;
  nought_add = λ x. omega arith;
  add_nought = λ x. omega arith;
  sub-add = λ x y. omega arith;
  iloc_at = entry-get_elem?;
}

abbrev bound : String → ℕ → FrameBound
bound kind n = record { kind = kind; n = some n }

-- ROWS BETWEEN 1 PRECEDING AND 3 FOLLOWING at the last of three rows.
abbrev around : Frame
around = record { mode = "ROWS"; start = bound "PRECEDING" 1; end = bound "FOLLOWING" 3 }

found : frame_bounds around (pos 2) (pos 3) (pos 2) (pos 2) ≡ ok (pos 1, pos 2)
unfolding frame_bounds ◌+ℤ◌ ◌-ℤ◌
found = refl

-- ROWS BETWEEN 2 FOLLOWING AND 3 FOLLOWING in a partition of one row.
abbrev ahead : Frame
ahead = record { mode = "ROWS"; start = bound "FOLLOWING" 2; end = bound "FOLLOWING" 3 }

beyond : frame_bounds ahead (pos 0) (pos 1) (pos 0) (pos 0) ≡ ok (pos 2, pos 0)
unfolding frame_bounds ◌+ℤ◌ ◌-ℤ◌
beyond = refl

gather_diff-frame_bounds_example :
    (gather_diff naturals
        (prefix_sums naturals ((1 ∷ 2 ∷ []) ∷ (3 ∷ 4 ∷ 5 ∷ []) ∷ (6 ∷ []) ∷ []))
        (pos 2)
        (pos 1, pos 2)
      ≡ 9)
    × ((pos 0 ≤ℤ pos 1) × (pos 2 ≤ℤ pos 3 -ℤ pos 1))
gather_diff-frame_bounds_example =
    gather_diff-frame_bounds naturals naturals-IsExact ((1 ∷ 2 ∷ []) ∷ []) (3 ∷ 4 ∷ 5 ∷ [])
      ((6 ∷ []) ∷ []) around (pos 2) (pos 2) (pos 2) (pos 1) (pos 2) found refl
