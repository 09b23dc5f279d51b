-- ===== src/Running/Sums.antt =====
-- What `_frame_bounds` and `_gather_diff` of ryudb/exec/executor.py give together: the sum over a window.
use ryu_db.Common.{
  ℕ, subst, zero, suc, ◌+◌, ◌-◌, ◌<◌, ◌≤◌, ◌≡◌, refl, sym, ap, ap₂, ◌∙◌, true, Option, none, some,
  List, [], ◌∷◌, ◌++◌, length, take, drop, arith, ok, if◌then◌else◌, ◌=ₛ◌,
}
use ryu_db.Common.Integers.{
  ℤ, pos, negsuc, ◌+ℤ◌, ◌-ℤ◌, ◌≤ℤ◌, leb_ℤ, ltb_ℤ, pos_part, int_laws, pos-add,
}
use ryu_db.Plan.{Frame}
use ryu_db.Wal.Records.{>>=-ok, ok-injective}
use ryu_db.Running.{
  clamp_lo, clamp_hi, clamped, range_bounds, rows_bounds, frame_bounds, Numbers, cumsum,
  prefix_sums, gather_diff,
}

-- The entry of a column at a position.
abbrev pub get_elem? : {N : Type 0} → List N → ℕ → Option N
get_elem? [] n = none
get_elem? (v ∷ vs) zero = some v
get_elem? (v ∷ vs) (suc n) = get_elem? vs n

-- Exact arithmetic; and `iloc` gives what stands at a position.
pub record IsExact {N : Type 0} (a : Numbers N) : Type 0 where
  pub add_assoc : (x y z : N) → a.add (a.add x y) z ≡ a.add x (a.add y z)
  pub nought_add : (x : N) → a.add a.nought x ≡ x
  pub add_nought : (x : N) → a.add x a.nought ≡ x
  pub sub-add : (x y : N) → a.sub (a.add x y) x ≡ y
  pub iloc_at : (xs : List N) (i : ℕ) (v : N) → get_elem? xs i ≡ some v → a.iloc xs (pos i) ≡ v

-- The rows of some partitions.
abbrev pub rows_of : {N : Type 0} → List (List N) → ℕ
rows_of [] = 0
rows_of (part ∷ parts) = length part + rows_of parts

abbrev pub total : {N : Type 0} → Numbers N → List N → N
total a [] = a.nought
total a (v ∷ vs) = a.add v (total a vs)

take_nil : {A : Type 0} (n : ℕ) → take {A = A} n [] ≡ []
take_nil zero = refl
take_nil (suc n) = refl

module _ {N : Type 0} (a : Numbers N) (exact : IsExact a) where
  get_elem?-cumsum :
      (s : N) (part : List N) (i : ℕ)
      → i < length part
      → get_elem? (cumsum a s part) i ≡ some (a.add s (total a (take (suc i) part)))
  get_elem?-cumsum s [] i h = absurd (omega arith)
  get_elem?-cumsum s (v ∷ part) zero h = ap (λ x. some (a.add s x)) (sym (exact.add_nought v))
  get_elem?-cumsum s (v ∷ part) (suc i) h =
      get_elem?-cumsum (a.add s v) part i (omega arith)
      ∙ ap some (exact.add_assoc s v (total a (take (suc i) part)))

  get_elem?-append :
      (xs ys : List N) (i : ℕ) (v : N) → get_elem? xs i ≡ some v → get_elem? (xs ++ ys) i ≡ some v
  get_elem?-append [] ys i v h = absurd cc
  get_elem?-append (x ∷ xs) ys zero v h = h
  get_elem?-append (x ∷ xs) ys (suc i) v h = get_elem?-append xs ys i v h

  get_elem?-append_right :
      (xs ys : List N) (i : ℕ) → get_elem? (xs ++ ys) (length xs + i) ≡ get_elem? ys i
  get_elem?-append_right [] ys i = ap (get_elem? ys) (omega arith)
  get_elem?-append_right (x ∷ xs) ys i =
      let e : suc (length xs) + i ≡ suc (length xs + i) = omega arith in
      rw e (get_elem?-append_right xs ys i)

  total-take :
      (part : List N) (l n : ℕ)
      → total a (take (l + n) part) ≡ a.add (total a (take l part)) (total a (take n (drop l part)))
  total-take part zero n =
      ap (λ m. total a (take m part)) (omega arith) ∙ sym (exact.nought_add (total a (take n part)))
  total-take [] (suc l) n =
      ap (total a) (take_nil (suc l + n))
      ∙ sym (ap (λ r. a.add a.nought (total a r)) (take_nil n) ∙ exact.nought_add a.nought)
  total-take (v ∷ part) (suc l) n =
      let e : suc l + n ≡ suc (l + n) = omega arith in
      rw e (
        ap (a.add v) (total-take part l n)
        ∙ sym (exact.add_assoc v (total a (take l part)) (total a (take n (drop l part)))))

  length-cumsum : (s : N) (part : List N) → length (cumsum a s part) ≡ length part
  length-cumsum s [] = refl
  length-cumsum s (v ∷ part) = ap suc (length-cumsum (a.add s v) part)

  get_elem?-prefix_sums :
      (before : List (List N)) (part : List N) (after : List (List N)) (i : ℕ)
      → i < length part
      → get_elem? (prefix_sums a (before ++ part ∷ after)) (rows_of before + i)
        ≡ some (a.add a.nought (total a (take (suc i) part)))
  unfolding prefix_sums
  get_elem?-prefix_sums [] part after i h =
      ap (get_elem? (cumsum a a.nought part ++ prefix_sums a after)) (omega arith)
      ∙ get_elem?-append (cumsum a a.nought part) (prefix_sums a after) i _
          (get_elem?-cumsum a.nought part i h)
  get_elem?-prefix_sums (p ∷ before) part after i h =
      ap (get_elem? (cumsum a a.nought p ++ prefix_sums a (before ++ part ∷ after)))
        (ap (λ n. n + rows_of before + i) (sym (length-cumsum a.nought p)) ∙ omega arith)
      ∙ get_elem?-append_right (cumsum a a.nought p) (prefix_sums a (before ++ part ∷ after))
          (rows_of before + i)
      ∙ get_elem?-prefix_sums before part after i h

  gather_at :
      (before : List (List N)) (part : List N) (after : List (List N)) (i : ℕ)
      → i < length part
      → a.iloc (prefix_sums a (before ++ part ∷ after)) (pos (rows_of before + i))
        ≡ total a (take (suc i) part)
  gather_at before part after i h =
      exact.iloc_at _ _ _ (get_elem?-prefix_sums before part after i h)
      ∙ exact.nought_add (total a (take (suc i) part))

  gather_diff-window :
      (before : List (List N)) (part : List N) (after : List (List N)) (l h : ℕ)
      → l ≤ h
      → h < length part
      → gather_diff a (prefix_sums a (before ++ part ∷ after)) (pos (rows_of before)) (pos l, pos h)
        ≡ total a (take (suc h - l) (drop l part))
  unfolding gather_diff
  gather_diff-window before part after zero h le lt =
      let whole : suc h ≡ suc h - zero = omega arith in
      ap (λ x. a.sub x a.nought)
        (ap (a.iloc (prefix_sums a (before ++ part ∷ after))) (pos-add (rows_of before) h)
          ∙ gather_at before part after h lt
          ∙ sym (exact.nought_add (total a (take (suc h) part))))
      ∙ exact.sub-add a.nought (total a (take (suc h) part))
      ∙ ap (λ n. total a (take n part)) whole
  gather_diff-window before part after (suc l) h le lt =
      let some_before : ltb_ℤ (pos 0) (pos (suc l)) ≡ true = ground arith in
      let at_lo : pos (rows_of before) +ℤ pos (suc l) -ℤ pos 1 ≡ pos (rows_of before + l) =
        grind int_laws in
      let split : suc l + (suc h - suc l) ≡ suc h = omega arith in
      let prefix = prefix_sums a (before ++ part ∷ after) in
      let above = pos (rows_of before) +ℤ pos (suc l) -ℤ pos 1 in
      ap
        (λ b.
          a.sub (a.iloc prefix (pos (rows_of before) +ℤ pos h))
            (if b then a.iloc prefix (if b then above else pos 0) else a.nought))
        some_before
      ∙ ap₂ a.sub
          (ap (a.iloc prefix) (pos-add (rows_of before) h)
            ∙ gather_at before part after h lt
            ∙ ap (λ n. total a (take n part)) (sym split)
            ∙ total-take part (suc l) (suc h - suc l))
          (ap (a.iloc prefix) at_lo ∙ gather_at before part after l (omega arith))
      ∙ exact.sub-add (total a (take (suc l) part))
          (total a (take (suc h - suc l) (drop (suc l) part)))

clamp_lo-inside : (lo : ℤ) → pos 0 ≤ℤ clamp_lo lo
clamp_lo-inside lo = ground arith

clamp_hi-inside : (psize hi : ℤ) → clamp_hi psize hi ≤ℤ psize -ℤ pos 1
clamp_hi-inside psize hi = ground arith

clamp_inside :
    (psize : ℤ) (bounds : ℤ × ℤ)
    → (pos 0 ≤ℤ clamp_lo bounds.0) × (clamp_hi psize bounds.1 ≤ℤ psize -ℤ pos 1)
clamp_inside psize (lo, hi) = (clamp_lo-inside lo, clamp_hi-inside psize hi)

inside_of :
    (frame : Frame) (pos_in_part psize peer_start peer_end lo hi : ℤ)
    → frame_bounds frame pos_in_part psize peer_start peer_end ≡ ok (lo, hi)
    → (pos 0 ≤ℤ lo) × (hi ≤ℤ psize -ℤ pos 1)
unfolding frame_bounds
inside_of frame pos_in_part psize peer_start peer_end lo hi found =
    let (bounds, given, done) =
      >>=-ok
        (if frame.mode =ₛ "RANGE"
          then ok (range_bounds frame psize peer_start peer_end)
          else rows_bounds frame pos_in_part psize)
        (λ b. ok (clamped psize b)) found in
    subst (λ b. (pos 0 ≤ℤ b.0) × (b.1 ≤ℤ psize -ℤ pos 1)) (ok-injective done)
      (clamp_inside psize bounds)

module _ {N : Type 0} (a : Numbers N) (exact : IsExact a) where
  window_at :
      (before : List (List N)) (part : List N) (after : List (List N)) (lo hi : ℤ)
      → pos 0 ≤ℤ lo
      → hi ≤ℤ pos (length part) -ℤ pos 1
      → leb_ℤ lo hi ≡ true
      → gather_diff a (prefix_sums a (before ++ part ∷ after)) (pos (rows_of before)) (lo, hi)
        ≡ total a (take (suc (pos_part hi) - pos_part lo) (drop (pos_part lo) part))
  window_at before part after (negsuc l) hi up down some_row = absurd (ground arith)
  window_at before part after (pos l) (negsuc h) up down some_row = absurd (ground arith)
  window_at before part after (pos l) (pos h) up down some_row =
      gather_diff-window a exact before part after l h (ground arith) (grind int_laws)

  -- For a row of a sorted frame whose partition stands between others, and a window frame that gives
  -- bounds `lo` and `hi` with `lo <= hi`, the difference of two prefix sums that `_gather_diff` takes is
  -- the sum of the partition's values from position `lo` to position `hi`, both included; `lo` is not
  -- negative and `hi` is inside the partition. Arithmetic on the column is taken as exact.
  pub gather_diff-frame_bounds :
      (before : List (List N)) (part : List N) (after : List (List N)) (frame : Frame)
      (pos_in_part peer_start peer_end lo hi : ℤ)
      → frame_bounds frame pos_in_part (pos (length part)) peer_start peer_end ≡ ok (lo, hi)
      → leb_ℤ lo hi ≡ true
      → (gather_diff a (prefix_sums a (before ++ part ∷ after)) (pos (rows_of before)) (lo, hi)
          ≡ total a (take (suc (pos_part hi) - pos_part lo) (drop (pos_part lo) part)))
        × ((pos 0 ≤ℤ lo) × (hi ≤ℤ pos (length part) -ℤ pos 1))
  gather_diff-frame_bounds before part after frame pos_in_part peer_start peer_end lo hi found
        some_row =
      let (up, down) =
        inside_of frame pos_in_part (pos (length part)) peer_start peer_end lo hi found in
      (window_at before part after lo hi up down some_row, (up, down))
