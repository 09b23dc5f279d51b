-- ===== src/Dml/Keys.antt =====
-- Keys of rows as `_enforce_unique` of ryudb/exec/executor.py compares them: the duplicates in a list, and
-- what two lists have in common.
use ryu_db.Common.{
  ◌≤◌, ◌<◌, ◌≡◌, refl, sym, ap, ap₂, ◌∙◌, Bool, true, false, not, ◌&&◌, ◌||◌, Option, none, some,
  List, [], ◌∷◌, ◌++◌, arith, keep_if, length, non_empty, ◌==◌, Bool-cases, inl, inr, ==_refl,
}
use ryu_db.Dml.{Pandas, same_key, drop_duplicates, inner_merge}

-- The comparison of two cells does not depend on their order.
pub record IsSymmetric {L V T : Type 0} (pd : Pandas L V T) : Type 0 where
  pub same_comm : (v w : V) → pd.same v w ≡ pd.same w v

module _ {L V T : Type 0} (pd : Pandas L V T) where
  -- A key is in a list; a list has no duplicates; two lists have a key in common.
  abbrev pub hit : List (Option V) → List (List (Option V)) → Bool
  hit k [] = false
  hit k (j ∷ js) = same_key pd k j || hit k js

  abbrev pub distinct : List (List (Option V)) → Bool
  distinct [] = true
  distinct (k ∷ ks) = not (hit k ks) && distinct ks

  abbrev pub meets : List (List (Option V)) → List (List (Option V)) → Bool
  meets [] js = false
  meets (k ∷ ks) js = hit k js || meets ks js

  hit-append :
      (k : List (Option V)) (xs ys : List (List (Option V)))
      → hit k (xs ++ ys) ≡ (hit k xs || hit k ys)
  hit-append k [] ys = refl
  hit-append k (x ∷ xs) ys = ground (arith, hit-append k xs ys)

  pub distinct-append :
      (xs ys : List (List (Option V)))
      → distinct (xs ++ ys) ≡ (distinct xs && (distinct ys && not (meets xs ys)))
  distinct-append [] ys = ground arith
  distinct-append (x ∷ xs) ys = ground (arith, distinct-append xs ys, hit-append x xs ys)

  non_empty-keep_if :
      (k : List (Option V)) (xs : List (List (Option V)))
      → non_empty (keep_if (same_key pd k) xs) ≡ hit k xs
  non_empty-keep_if k [] = refl
  non_empty-keep_if k (x ∷ xs) = ground (arith, non_empty-keep_if k xs)

  keep_if-hit :
      (k : List (Option V)) (xs : List (List (Option V)))
      → hit k xs ≡ false
      → keep_if (λ j. not (same_key pd k j)) xs ≡ xs
  keep_if-hit k [] h = refl
  keep_if-hit k (x ∷ xs) h = ground (arith, keep_if-hit k xs)

  length-keep_if_le : {A : Type 0} (p : A → Bool) (xs : List A) → length (keep_if p xs) ≤ length xs
  length-keep_if_le p [] = omega arith
  length-keep_if_le p (x ∷ xs) = ground (arith, length-keep_if_le p xs)

  length-keep_if_lt :
      (k : List (Option V)) (xs : List (List (Option V)))
      → hit k xs ≡ true
      → length (keep_if (λ j. not (same_key pd k j)) xs) < length xs
  length-keep_if_lt k [] h = ground arith
  length-keep_if_lt k (x ∷ xs) h =
      ground (arith, length-keep_if_lt k xs, length-keep_if_le (λ j. not (same_key pd k j)) xs)

  drop_duplicates_all :
      (ks : List (List (Option V))) → distinct ks ≡ true → drop_duplicates pd ks ≡ ks
  unfolding drop_duplicates
  drop_duplicates_all [] h = refl
  drop_duplicates_all (k ∷ ks) h =
      let fresh : hit k ks ≡ false = ground arith in
      let rest : distinct ks ≡ true = ground arith in
      rw (drop_duplicates_all ks rest) (ap (λ l. k ∷ l) (keep_if-hit k ks fresh))

  length-drop_duplicates :
      (ks : List (List (Option V)))
      → distinct ks ≡ false
      → length (drop_duplicates pd ks) < length ks
  unfolding drop_duplicates
  length-drop_duplicates [] h = ground arith
  length-drop_duplicates (k ∷ ks) h = elim (Bool-cases (distinct ks)) [
    | inl rest ↦
        let found : hit k ks ≡ true = ground arith in
        rw (drop_duplicates_all ks rest) (let l = length-keep_if_lt k ks found in omega arith)
    | inr rest ↦
        let l = length-drop_duplicates ks rest in
        let m = length-keep_if_le (λ j. not (same_key pd k j)) (drop_duplicates pd ks) in
        omega arith
  ]

  pub count-distinct :
      (ks : List (List (Option V))) → (length ks == length (drop_duplicates pd ks)) ≡ distinct ks
  count-distinct ks = elim (Bool-cases (distinct ks)) [
    | inl all ↦ rw (drop_duplicates_all ks all, all) (==_refl (length ks))
    | inr some_twice ↦ let l = length-drop_duplicates ks some_twice in rw some_twice (ground arith)
  ]

  non_empty-append {ℓ} :
      {A : Type ℓ} (xs ys : List A) → non_empty (xs ++ ys) ≡ (non_empty xs || non_empty ys)
  non_empty-append [] ys = refl
  non_empty-append (x ∷ xs) ys = refl

  pub non_empty-inner_merge :
      (ks js : List (List (Option V))) → non_empty (inner_merge pd ks js) ≡ meets ks js
  unfolding inner_merge
  non_empty-inner_merge [] js = refl
  non_empty-inner_merge (k ∷ ks) js =
      non_empty-append (keep_if (same_key pd k) js) (inner_merge pd ks js)
      ∙ ap₂ (λ x y. x || y) (non_empty-keep_if k js) (non_empty-inner_merge ks js)

  module _ (symmetric : IsSymmetric pd) where
    same_key_comm : (ks js : List (Option V)) → same_key pd ks js ≡ same_key pd js ks
    same_key_comm [] [] = refl
    same_key_comm [] (none ∷ js) = refl
    same_key_comm [] (some w ∷ js) = refl
    same_key_comm (none ∷ ks) [] = refl
    same_key_comm (none ∷ ks) (none ∷ js) = refl
    same_key_comm (none ∷ ks) (some w ∷ js) = refl
    same_key_comm (some v ∷ ks) [] = refl
    same_key_comm (some v ∷ ks) (none ∷ js) = refl
    same_key_comm (some v ∷ ks) (some w ∷ js) =
        ap₂ (λ x y. x && y) (symmetric.same_comm v w) (same_key_comm ks js)

    meets_nil : (ks : List (List (Option V))) → meets ks [] ≡ false
    meets_nil [] = refl
    meets_nil (k ∷ ks) = meets_nil ks

    meets_cons :
        (j : List (Option V)) (ks js : List (List (Option V)))
        → meets ks (j ∷ js) ≡ (hit j ks || meets ks js)
    meets_cons j [] js = refl
    meets_cons j (k ∷ ks) js = rw (same_key_comm j k) (ground (arith, meets_cons j ks js))

    pub meets_comm : (ks js : List (List (Option V))) → meets ks js ≡ meets js ks
    meets_comm [] js = sym (meets_nil js)
    meets_comm (k ∷ ks) js = ap (λ b. hit k js || b) (meets_comm ks js) ∙ sym (meets_cons k js ks)
