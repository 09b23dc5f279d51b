-- ===== src/Merge/Keep.antt =====
-- The anti-join of `_merge_delta` by groups and left joins, against its meaning tombstone by tombstone.
use ryu_db.Common.{
  ℕ, ◌≡◌, refl, sym, ap, ap₂, ◌∙◌, ◌↔◌, Bool, true, false, not, ◌&&◌, ◌||◌, none, some, List, [],
  ◌∷◌, ◌++◌, map, arith, ltb, leb, keep_if, non_empty, if◌then◌else◌, fun_ext, subst,
}
use Prim.Native.Nat.{max}
use mathlib.Core.List.{Perm}
use mathlib.Core.List.Perm
use ryu_db.Common.Orders.{keep_if-Perm}
use ryu_db.Delta.{Batch, Tombstone}
use ryu_db.Merge.{
  Frames, fill_na, stamp_lt, stamp_le, ins_inf, merge_parts, tag_tombs, key_rows, tomb_keys,
  add_max, group_max, left_merge, keep_row, merge_lists,
}

-- A key comparison is equality; and a left merge with one row for each key gives the same rows, in some
-- order.
pub record IsKeyed {F R K : Type 0} (f : Frames F R K) : Type 0 where
  pub key_eq_iff : (a b : K) → (f.key_eq a b ≡ true) ↔ (a ≡ b)
  pub join_order-Perm : (g : List (K × ℕ)) (l : List (ℕ × R)) → Perm (f.join_order g l) l

-- A tombstone at `ts` removes what was inserted at `ins_ts`: a DELETE up to its own timestamp, an
-- UPDATE before it.
abbrev pub removes : Bool → ℕ → ℕ → Bool
removes exclude_same_ts ts ins_ts = if exclude_same_ts then ltb ins_ts ts else leb ins_ts ts

module _ {F R K : Type 0} (f : Frames F R K) where
  abbrev pub has_key : K → List K → Bool
  has_key k [] = false
  has_key k (j ∷ js) = f.key_eq j k || has_key k js

  -- Some tombstone for the row's key removes it.
  abbrev pub is_removed : List (Tombstone F) → ℕ × R → Bool
  is_removed [] x = false
  is_removed ((ts, t, fl) ∷ tombs) x =
      (has_key (f.key x.1) (f.keys t) && removes fl ts x.0) || is_removed tombs x

  -- An entry of a list of keys and timestamps that passes a test.
  abbrev some_at : (ℕ → Bool) → K → List (K × ℕ) → Bool
  some_at p k [] = false
  some_at p k ((j, ts) ∷ l) = (f.key_eq j k && p ts) || some_at p k l

keep_if-true {ℓ} : {A : Type ℓ} (l : List A) → keep_if (λ x. true) l ≡ l
keep_if-true [] = refl
keep_if-true (x ∷ l) = ap (λ r. x ∷ r) (keep_if-true l)

module _ {F R K : Type 0} (f : Frames F R K) (keyed : IsKeyed f) where
  left_merge-add_max :
      (k j : K) (ts : ℕ) (g : List (K × ℕ))
      → left_merge f k (add_max f j ts g) ≡ (
          if f.key_eq j k
          then elim (left_merge f k g) [ none ↦ some ts | some m ↦ some (max m ts) ]
          else left_merge f k g)
  unfolding left_merge add_max
  left_merge-add_max k j ts [] = refl
  left_merge-add_max k j ts ((i, m) ∷ g) = ground (
    arith,
    left_merge-add_max k j ts g,
    keyed.key_eq_iff i j,
    keyed.key_eq_iff i k,
    keyed.key_eq_iff j k,
  )

  -- The newest timestamp decides: it is beyond `ins_ts` exactly if some timestamp of the key is.
  group_max-lt :
      (k : K) (ins_ts : ℕ) (l : List (K × ℕ))
      → stamp_lt (fill_na (left_merge f k (group_max f l))) ins_ts
        ≡ not (some_at f (λ ts. leb ins_ts ts) k l)
  unfolding group_max
  group_max-lt k ins_ts [] = unfold left_merge in refl
  group_max-lt k ins_ts ((j, ts) ∷ l) =
      ground (arith, left_merge-add_max k j ts (group_max f l), group_max-lt k ins_ts l)

  group_max-le :
      (k : K) (ins_ts : ℕ) (l : List (K × ℕ))
      → stamp_le (fill_na (left_merge f k (group_max f l))) ins_ts
        ≡ not (some_at f (λ ts. ltb ins_ts ts) k l)
  unfolding group_max
  group_max-le k ins_ts [] = unfold left_merge in refl
  group_max-le k ins_ts ((j, ts) ∷ l) =
      ground (arith, left_merge-add_max k j ts (group_max f l), group_max-le k ins_ts l)

  some_at-append :
      (p : ℕ → Bool) (k : K) (l l' : List (K × ℕ))
      → some_at f p k (l ++ l') ≡ (some_at f p k l || some_at f p k l')
  some_at-append p k [] l' = refl
  some_at-append p k ((j, ts) ∷ l) l' = ground (arith, some_at-append p k l l')

  some_at-key_rows :
      (p : ℕ → Bool) (k : K) (ts : ℕ) (ks : List K)
      → some_at f p k (key_rows f ts ks) ≡ (has_key f k ks && p ts)
  some_at-key_rows p k ts [] = refl
  some_at-key_rows p k ts (j ∷ ks) = ground (arith, some_at-key_rows p k ts ks)

  groups-is_removed :
      (tombs : List (Tombstone F)) (ins_ts : ℕ) (r : R)
      → (not (some_at f (λ ts. leb ins_ts ts) (f.key r) (tomb_keys f false tombs))
          && not (some_at f (λ ts. ltb ins_ts ts) (f.key r) (tomb_keys f true tombs)))
        ≡ not (is_removed f tombs (ins_ts, r))
  unfolding tomb_keys
  groups-is_removed [] ins_ts r = refl
  groups-is_removed ((ts, t, true) ∷ tombs) ins_ts r = ground (
    arith,
    groups-is_removed tombs ins_ts r,
    some_at-append (λ ts. ltb ins_ts ts) (f.key r) (key_rows f ts (f.keys t))
        (tomb_keys f true tombs),
    some_at-key_rows (λ ts. ltb ins_ts ts) (f.key r) ts (f.keys t),
  )
  groups-is_removed ((ts, t, false) ∷ tombs) ins_ts r = ground (
    arith,
    groups-is_removed tombs ins_ts r,
    some_at-append (λ ts. leb ins_ts ts) (f.key r) (key_rows f ts (f.keys t))
        (tomb_keys f false tombs),
    some_at-key_rows (λ ts. leb ins_ts ts) (f.key r) ts (f.keys t),
  )

  -- The mask of the two groups keeps what no tombstone removes.
  keep_row-is_removed :
      (tombs : List (Tombstone F)) (x : ℕ × R)
      → keep_row f (group_max f (tomb_keys f false tombs)) (group_max f (tomb_keys f true tombs)) x
        ≡ not (is_removed f tombs x)
  unfolding keep_row
  keep_row-is_removed tombs (ins_ts, r) =
      ap₂ (λ (a b : Bool). a && b) (group_max-lt (f.key r) ins_ts (tomb_keys f false tombs))
        (group_max-le (f.key r) ins_ts (tomb_keys f true tombs))
      ∙ groups-is_removed tombs ins_ts r

  -- The rows that the mask keeps, in any order of the merged frame.
  masked-Perm :
      (tombs : List (Tombstone F)) (g g' : List (K × ℕ)) (parts : List (ℕ × R))
      → Perm
          (map
            (λ (x : ℕ × R). x.1)
            (keep_if
              (keep_row f
                (group_max f (tomb_keys f false tombs))
                (group_max f (tomb_keys f true tombs)))
              (f.join_order g' (f.join_order g parts))))
          (map (λ (x : ℕ × R). x.1) (keep_if (λ x. not (is_removed f tombs x)) parts))
  masked-Perm tombs g g' parts =
      subst
        (λ (p : ℕ × R → Bool).
          Perm (map (λ (x : ℕ × R). x.1) (keep_if p (f.join_order g' (f.join_order g parts))))
            (map (λ (x : ℕ × R). x.1) (keep_if (λ x. not (is_removed f tombs x)) parts)))
        (sym (fun_ext (keep_row-is_removed tombs)))
        (Perm.map (λ (x : ℕ × R). x.1)
          (keep_if-Perm (λ x. not (is_removed f tombs x))
            (Perm.trans (keyed.join_order-Perm g' (f.join_order g parts))
              (keyed.join_order-Perm g parts))))

  -- On a table with a primary key the merged rows are the base rows, the committed and the buffered
  -- ones, in some order and each as often as it is there, without those that some tombstone removes.
  pub merge_lists-is_removed :
      (base : List R) (ins_batches : List (Batch F)) (buf_inserts : List F)
      (tomb : List (Tombstone F)) (buf_tomb : List (F × Bool))
      → Perm (merge_lists f true base ins_batches buf_inserts tomb buf_tomb) (
          map
            (λ x. x.1)
            (keep_if
              (λ x. not (is_removed f (tomb ++ tag_tombs f ins_inf buf_tomb) x))
              (merge_parts f base ins_batches buf_inserts)))
  unfolding merge_lists
  merge_lists-is_removed base ins_batches buf_inserts tomb buf_tomb =
      go (tomb ++ tag_tombs f ins_inf buf_tomb) (merge_parts f base ins_batches buf_inserts)
    where
      go :
          (tombs : List (Tombstone F)) (parts : List (ℕ × R))
          → Perm
              (if non_empty tombs && true
                then map
                    (λ (x : ℕ × R). x.1)
                    (keep_if
                      (keep_row f
                        (group_max f (tomb_keys f false tombs))
                        (group_max f (tomb_keys f true tombs)))
                      (f.join_order
                        (group_max f (tomb_keys f true tombs))
                        (f.join_order (group_max f (tomb_keys f false tombs)) parts)))
                else map (λ (x : ℕ × R). x.1) parts)
              (map (λ (x : ℕ × R). x.1) (keep_if (λ x. not (is_removed f tombs x)) parts))
      go [] parts =
          subst (λ l. Perm (map (λ (x : ℕ × R). x.1) parts) (map (λ (x : ℕ × R). x.1) l))
            (sym (keep_if-true parts)) (Perm.refl (map (λ (x : ℕ × R). x.1) parts))
      go (t ∷ tombs) parts =
          masked-Perm (t ∷ tombs) (group_max f (tomb_keys f false (t ∷ tombs)))
            (group_max f (tomb_keys f true (t ∷ tombs))) parts
