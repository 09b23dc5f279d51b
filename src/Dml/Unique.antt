-- ===== src/Dml/Unique.antt =====
-- What `_enforce_unique` of ryudb/exec/executor.py decides, against the meaning of PRIMARY KEY and UNIQUE.
use ryu_db.Common.{
  String, ◌≡◌, refl, sym, ap, ap₂, ◌∙◌, Bool, true, false, not, ◌&&◌, ◌||◌, Option, none, some,
  List, [], ◌∷◌, ◌++◌, map, map-append, arith, keep_if-append, ok, err, runtime_error,
  if◌then◌else◌, Bool-cases, inl, inr,
}
use ryu_db.Catalog.{TableInfo, get}
use ryu_db.Engine.{Engine}
use ryu_db.Dml.{
  Row, Rows, Pandas, Source, cell, cells, is_na, any_na, dropna, declared, same_key, check_key,
  check_keys, scan, enforce_unique,
}
use ryu_db.Dml.Keys.{
  IsSymmetric, hit, distinct, meets, distinct-append, count-distinct, non_empty-inner_merge,
  meets_comm,
}

module _ {L V T : Type 0} (pd : Pandas L V T) where
  -- SQL's equality of two cells as far as a key goes: NULL is equal to nothing.
  abbrev pub equal_cells : Option V → Option V → Bool
  equal_cells (some v) (some w) = pd.same v w
  equal_cells _ _ = false

  -- Two rows agree on all columns of a key.
  abbrev pub agree : List String → Row V → Row V → Bool
  agree [] row other = true
  agree (c ∷ cs) row other = equal_cells (cell row c) (cell other c) && agree cs row other

  abbrev pub clashes : List String → Row V → Rows V → Bool
  clashes cols row [] = false
  clashes cols row (other ∷ rows) = agree cols row other || clashes cols row rows

  -- No two rows agree on the key.
  abbrev pub is_unique : List String → Rows V → Bool
  is_unique cols [] = true
  is_unique cols (row ∷ rows) = not (clashes cols row rows) && is_unique cols rows

  abbrev pub all_unique : List (List String) → Rows V → Bool
  all_unique [] rows = true
  all_unique (cols ∷ keys) rows = is_unique cols rows && all_unique keys rows

  abbrev keys_of : List String → Rows V → List (List (Option V))
  keys_of cols rows = map (cells cols) (dropna cols rows)

  agree_cons :
      (v w : Option V) (vs ws : List (Option V)) (a : Bool)
      → (is_na v || any_na vs) ≡ false
      → (is_na w || any_na ws) ≡ false
      → (any_na vs ≡ false → any_na ws ≡ false → a ≡ same_key pd vs ws)
      → (equal_cells v w && a) ≡ same_key pd (v ∷ vs) (w ∷ ws)
  agree_cons none w vs ws a h h' rest = ground arith
  agree_cons (some v) none vs ws a h h' rest = ground arith
  agree_cons (some v) (some w) vs ws a h h' rest = ap (λ b. pd.same v w && b) (rest h h')

  agree_cons_na :
      (v w : Option V) (vs : List (Option V)) (a : Bool)
      → (is_na v || any_na vs) ≡ true
      → (any_na vs ≡ true → a ≡ false)
      → (equal_cells v w && a) ≡ false
  agree_cons_na none w vs a h rest = refl
  agree_cons_na (some v) none vs a h rest = refl
  agree_cons_na (some v) (some w) vs a h rest = let e = rest h in ground arith

  agree_cons_na_right :
      (v w : Option V) (ws : List (Option V)) (a : Bool)
      → (is_na w || any_na ws) ≡ true
      → (any_na ws ≡ true → a ≡ false)
      → (equal_cells v w && a) ≡ false
  agree_cons_na_right none w ws a h rest = refl
  agree_cons_na_right (some v) none ws a h rest = refl
  agree_cons_na_right (some v) (some w) ws a h rest = let e = rest h in ground arith

  agree-cells :
      (cols : List String) (row other : Row V)
      → any_na (cells cols row) ≡ false
      → any_na (cells cols other) ≡ false
      → agree cols row other ≡ same_key pd (cells cols row) (cells cols other)
  agree-cells [] row other h h' = refl
  agree-cells (c ∷ cs) row other h h' =
      agree_cons (cell row c) (cell other c) (cells cs row) (cells cs other) (agree cs row other) h
        h' (agree-cells cs row other)

  agree_na :
      (cols : List String) (row other : Row V)
      → any_na (cells cols row) ≡ true
      → agree cols row other ≡ false
  agree_na [] row other h = ground arith
  agree_na (c ∷ cs) row other h =
      agree_cons_na (cell row c) (cell other c) (cells cs row) (agree cs row other) h
        (agree_na cs row other)

  agree_na_right :
      (cols : List String) (row other : Row V)
      → any_na (cells cols other) ≡ true
      → agree cols row other ≡ false
  agree_na_right [] row other h = ground arith
  agree_na_right (c ∷ cs) row other h =
      agree_cons_na_right (cell row c) (cell other c) (cells cs other) (agree cs row other) h
        (agree_na_right cs row other)

  clashes_na :
      (cols : List String) (row : Row V) (rows : Rows V)
      → any_na (cells cols row) ≡ true
      → clashes cols row rows ≡ false
  clashes_na cols row [] h = refl
  clashes_na cols row (other ∷ rows) h =
      ground (arith, clashes_na cols row rows h, agree_na cols row other h)

  clashes-hit :
      (cols : List String) (row : Row V) (rows : Rows V)
      → any_na (cells cols row) ≡ false
      → clashes cols row rows ≡ hit pd (cells cols row) (map (cells cols) (dropna cols rows))
  clashes-hit cols row [] h = refl
  clashes-hit cols row (other ∷ rows) h = elim (Bool-cases (any_na (cells cols other))) [
    | inl na ↦ rw na (ground (arith, clashes-hit cols row rows h, agree_na_right cols row other na))
    | inr fine ↦
        rw fine
          (ap₂ (λ x y. x || y) (agree-cells cols row other h fine) (clashes-hit cols row rows h))
  ]

  is_unique-distinct :
      (cols : List String) (rows : Rows V)
      → is_unique cols rows ≡ distinct pd (map (cells cols) (dropna cols rows))
  is_unique-distinct cols [] = refl
  is_unique-distinct cols (row ∷ rows) = elim (Bool-cases (any_na (cells cols row))) [
    | inl na ↦ rw na (ground (arith, is_unique-distinct cols rows, clashes_na cols row rows na))
    | inr fine ↦
        rw fine
          (ap₂ (λ x y. not x && y) (clashes-hit cols row rows fine) (is_unique-distinct cols rows))
  ]

  module _ (symmetric : IsSymmetric pd) where
    is_unique-append :
        (cols : List String) (existing frame : Rows V)
        → is_unique cols existing ≡ true
        → is_unique cols (existing ++ frame) ≡ (
            distinct pd (keys_of cols frame)
            && not (meets pd (keys_of cols frame) (keys_of cols existing)))
    is_unique-append cols existing frame h =
        let d = sym (is_unique-distinct cols existing) ∙ h in
        is_unique-distinct cols (existing ++ frame)
        ∙ ap (λ l. distinct pd (map (cells cols) l))
            (keep_if-append (λ row. not (any_na (cells cols row))) existing frame)
        ∙ ap (distinct pd) (map-append (cells cols) (dropna cols existing) (dropna cols frame))
        ∙ distinct-append pd (keys_of cols existing) (keys_of cols frame)
        ∙ rw d (
            ap (λ b. distinct pd (keys_of cols frame) && not b)
              (meets_comm pd symmetric (keys_of cols existing) (keys_of cols frame)))

    check_key-is_unique :
        (existing frame : Rows V) (cols : List String)
        → is_unique cols existing ≡ true
        → check_key pd existing frame cols
          ≡ (if is_unique cols (existing ++ frame) then ok tt else err runtime_error)
    unfolding check_key
    check_key-is_unique existing frame cols h =
        rw
          (
            is_unique-append cols existing frame h,
            count-distinct pd (keys_of cols frame),
            non_empty-inner_merge pd (keys_of cols frame) (keys_of cols existing),
          )
          (ground arith)

    check_keys-all_unique :
        (existing frame : Rows V) (keys : List (List String))
        → all_unique keys existing ≡ true
        → check_keys pd existing frame keys
          ≡ (if all_unique keys (existing ++ frame) then ok tt else err runtime_error)
    unfolding check_keys
    check_keys-all_unique existing frame [] h = refl
    check_keys-all_unique existing frame (cols ∷ keys) h =
        let one : is_unique cols existing ≡ true = ground arith in
        let more : all_unique keys existing ≡ true = ground arith in
        rw
          (
            check_key-is_unique existing frame cols one,
            check_keys-all_unique existing frame keys more,
          )
          (ground arith)

    -- Where the rows that are seen respect the declared keys, `_enforce_unique` lets a frame pass
    -- exactly when these rows and those of the frame together respect them: no two rows agree on all
    -- columns of a key, a NULL agreeing with nothing. It raises RuntimeError otherwise.
    pub enforce_unique-all_unique :
        {K C : Type 0} (src : Source L V T K) (table : String) (frame : Rows V)
        (e : Engine (Rows V) C) (info : TableInfo (Option L))
        → get src.tables table ≡ ok info
        → all_unique (declared info.constraints) (scan src info table e) ≡ true
        → enforce_unique pd src table frame e ≡ (
            if all_unique (declared info.constraints) (scan src info table e ++ frame)
            then ok tt
            else err runtime_error)
    unfolding enforce_unique
    enforce_unique-all_unique src table frame e info known h =
        rw known (check_keys-all_unique (scan src info table e) frame (declared info.constraints) h)
