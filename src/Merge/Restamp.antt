-- ===== src/Merge/Restamp.antt =====
-- The rows that the read path of ryudb/exec/executor.py gives do not depend on the timestamp under
-- which the newest writes stand, as long as it lies after all the older ones.
use ryu_db.Common.{
  ℕ, ◌≤◌, ◌<◌, ◌≡◌, refl, sym, ap, ap₂, ◌∙◌, Bool, true, false, not, ◌||◌, List, [], ◌∷◌, ◌++◌, map,
  map-append, arith, keep_if, keep_if-append, All, All-append, append-nil, append_assoc, subst,
}
use mathlib.Core.List.{Perm}
use mathlib.Core.List.Perm
use ryu_db.Delta.{Batch, Tombstone, batch_ts, tombstone_ts}
use ryu_db.Merge.{
  Frames, ins_inf, merge_parts, tag, tag_batches, tag_buffer, tag_tombs, merge_lists,
}
use ryu_db.Merge.Keep.{IsKeyed, is_removed, merge_lists-is_removed}

module _ {R : Type 0} where
  -- The rows that pass a test, without their timestamps.
  abbrev survivors : (ℕ × R → Bool) → List (ℕ × R) → List R
  survivors p l = map (λ (x : ℕ × R). x.1) (keep_if p l)

  survivors-append :
      (p : ℕ × R → Bool) (l l' : List (ℕ × R))
      → survivors p (l ++ l') ≡ survivors p l ++ survivors p l'
  survivors-append p l l' =
      ap (map (λ (x : ℕ × R). x.1)) (keep_if-append p l l')
      ∙ map-append (λ (x : ℕ × R). x.1) (keep_if p l) (keep_if p l')

  survivors_agree :
      (p q : ℕ × R → Bool) (c : ℕ) (l : List (ℕ × R))
      → ((x : ℕ × R) → x.0 ≤ c → p x ≡ q x)
      → All (λ x. x.0 ≤ c) l
      → survivors p l ≡ survivors q l
  survivors_agree p q c [] h le = refl
  survivors_agree p q c (x ∷ l) h le = ground (arith, h x le.0, survivors_agree p q c l h le.1)

module _ {F R K : Type 0} (f : Frames F R K) where
  -- A buffered batch as a committed one.
  abbrev pub stamp : ℕ → List F → List (Batch F)
  stamp ts [] = []
  stamp ts (b ∷ bs) = (ts, b) ∷ stamp ts bs

  tag_batches-stamp :
      (ts : ℕ) (ins : List (Batch F)) (buf : List F)
      → tag_batches f (ins ++ stamp ts buf) ≡ tag_batches f ins ++ tag_buffer f ts buf
  tag_batches-stamp ts [] [] = refl
  tag_batches-stamp ts [] (b ∷ buf) =
      ap (λ x. tag f ts (f.rows b) ++ x) (tag_batches-stamp ts [] buf)
  tag_batches-stamp ts ((t, b) ∷ ins) buf =
      ap (λ x. tag f t (f.rows b) ++ x) (tag_batches-stamp ts ins buf)
      ∙ sym (append_assoc (tag f t (f.rows b)) (tag_batches f ins) (tag_buffer f ts buf))

  pub tag-le : (ts c : ℕ) (rs : List R) → ts ≤ c → All (λ x. x.0 ≤ c) (tag f ts rs)
  tag-le ts c [] h = tt
  tag-le ts c (r ∷ rs) h = (h, tag-le ts c rs h)

  pub tag_batches-le :
      (c : ℕ) (ins : List (Batch F))
      → All (λ b. batch_ts b ≤ c) ins
      → All (λ x. x.0 ≤ c) (tag_batches f ins)
  tag_batches-le c [] h = tt
  tag_batches-le c ((ts, b) ∷ ins) h =
      All-append (λ (x : ℕ × R). x.0 ≤ c) (tag f ts (f.rows b)) (tag_batches f ins)
        (tag-le ts c (f.rows b) h.0) (tag_batches-le c ins h.1)

  pub is_removed-append :
      (l l' : List (Tombstone F)) (x : ℕ × R)
      → is_removed f (l ++ l') x ≡ (is_removed f l x || is_removed f l' x)
  is_removed-append [] l' x = refl
  is_removed-append ((ts, t, fl) ∷ l) l' x = ground (arith, is_removed-append l l' x)

  -- Old tombstones spare new rows.
  is_removed_old :
      (c : ℕ) (l : List (Tombstone F)) (x : ℕ × R)
      → All (λ t. tombstone_ts t ≤ c) l
      → c < x.0
      → is_removed f l x ≡ false
  is_removed_old c [] x h new = refl
  is_removed_old c ((ts, t, fl) ∷ l) x h new = ground (arith, is_removed_old c l x h.1 new)

  -- New tombstones treat old rows alike, whatever their timestamp.
  is_removed_new :
      (c a b : ℕ) (bt : List (F × Bool)) (x : ℕ × R)
      → x.0 ≤ c
      → c < a
      → c < b
      → is_removed f (tag_tombs f a bt) x ≡ is_removed f (tag_tombs f b bt) x
  is_removed_new c a b [] x h p q = refl
  is_removed_new c a b ((t, fl) ∷ bt) x h p q = ground (arith, is_removed_new c a b bt x h p q)

  -- New tombstones and new rows under one timestamp.
  is_removed_same :
      (a b : ℕ) (bt : List (F × Bool)) (r : R)
      → is_removed f (tag_tombs f a bt) (a, r) ≡ is_removed f (tag_tombs f b bt) (b, r)
  is_removed_same a b [] r = refl
  is_removed_same a b ((t, fl) ∷ bt) r = ground (arith, is_removed_same a b bt r)

module _ {F R K : Type 0} (f : Frames F R K) (c a b : ℕ) (tomb : List (Tombstone F))
    (bt : List (F × Bool)) (old : All (λ t. tombstone_ts t ≤ c) tomb) (p : c < a) (q : c < b) where
  kept : ℕ → ℕ × R → Bool
  kept ts x = not (is_removed f (tomb ++ tag_tombs f ts bt) x)

  kept_old : (x : ℕ × R) → x.0 ≤ c → kept a x ≡ kept b x
  unfolding kept
  kept_old x h = ground (
    arith,
    is_removed-append f tomb (tag_tombs f a bt) x,
    is_removed-append f tomb (tag_tombs f b bt) x,
    is_removed_new f c a b bt x h p q,
  )

  kept_new : (r : R) → kept a (a, r) ≡ kept b (b, r)
  unfolding kept
  kept_new r = ground (
    arith,
    is_removed-append f tomb (tag_tombs f a bt) (a, r),
    is_removed-append f tomb (tag_tombs f b bt) (b, r),
    is_removed_old f c tomb (a, r) old p,
    is_removed_old f c tomb (b, r) old q,
    is_removed_same f a b bt r,
  )

  survivors-tag : (rs : List R) → survivors (kept a) (tag f a rs) ≡ survivors (kept b) (tag f b rs)
  survivors-tag [] = refl
  survivors-tag (r ∷ rs) = ground (arith, kept_new r, survivors-tag rs)

  survivors-tag_buffer :
      (buf : List F)
      → survivors (kept a) (tag_buffer f a buf) ≡ survivors (kept b) (tag_buffer f b buf)
  survivors-tag_buffer [] = refl
  survivors-tag_buffer (x ∷ buf) =
      survivors-append (kept a) (tag f a (f.rows x)) (tag_buffer f a buf)
      ∙ ap₂ (λ (l m : List R). l ++ m) (survivors-tag (f.rows x)) (survivors-tag_buffer buf)
      ∙ sym (survivors-append (kept b) (tag f b (f.rows x)) (tag_buffer f b buf))

  -- The surviving rows of old parts followed by new ones.
  survivors_restamp :
      (parts : List (ℕ × R)) (buf : List F)
      → All (λ x. x.0 ≤ c) parts
      → survivors (kept a) (parts ++ tag_buffer f a buf)
        ≡ survivors (kept b) (parts ++ tag_buffer f b buf)
  survivors_restamp parts buf le =
      survivors-append (kept a) parts (tag_buffer f a buf)
      ∙ ap₂ (λ (l m : List R). l ++ m) (survivors_agree (kept a) (kept b) c parts kept_old le)
          (survivors-tag_buffer buf)
      ∙ sym (survivors-append (kept b) parts (tag_buffer f b buf))

-- Writes that are all committed under `ts`, after everything older, read as they did in the buffer: the
-- same rows, each as often, in some order.
pub merge_lists_restamp :
    {F R K : Type 0} (f : Frames F R K) (keyed : IsKeyed f) (c ts : ℕ) (base : List R)
    (ins : List (Batch F)) (buf : List F) (tomb : List (Tombstone F)) (bt : List (F × Bool))
    → All (λ b. batch_ts b ≤ c) ins
    → All (λ t. tombstone_ts t ≤ c) tomb
    → c < ts
    → c < ins_inf
    → Perm
        (merge_lists f true base (ins ++ stamp f ts buf) [] (tomb ++ tag_tombs f ts bt) [])
        (merge_lists f true base ins buf tomb bt)
unfolding kept
merge_lists_restamp {F} {R} f keyed c ts base ins buf tomb bt h g p q =
    Perm.trans
      (merge_lists-is_removed f keyed base (ins ++ stamp f ts buf) [] (tomb ++ tag_tombs f ts bt)
        [])
      (subst (λ l. Perm l (merge_lists f true base ins buf tomb bt)) (sym same)
        (Perm.symm (merge_lists-is_removed f keyed base ins buf tomb bt)))
  where
    parts :
        merge_parts f base (ins ++ stamp f ts buf) []
        ≡ (tag f 0 base ++ tag_batches f ins) ++ tag_buffer f ts buf
    parts =
        ap (λ x. tag f 0 base ++ x)
          (append-nil (tag_batches f (ins ++ stamp f ts buf)) ∙ tag_batches-stamp f ts ins buf)
        ∙ sym (append_assoc (tag f 0 base) (tag_batches f ins) (tag_buffer f ts buf))

    same :
        survivors
          (λ x. not (is_removed f ((tomb ++ tag_tombs f ts bt) ++ []) x))
          (merge_parts f base (ins ++ stamp f ts buf) [])
        ≡ survivors
            (λ x. not (is_removed f (tomb ++ tag_tombs f ins_inf bt) x))
            (merge_parts f base ins buf)
    same =
        ap₂
          (λ (t : List (Tombstone F)) (l : List (ℕ × R)). survivors (λ x. not (is_removed f t x)) l)
          (append-nil (tomb ++ tag_tombs f ts bt)) parts
        ∙ survivors_restamp f c ts ins_inf tomb bt g p q (tag f 0 base ++ tag_batches f ins) buf (
            All-append (λ (x : ℕ × R). x.0 ≤ c) (tag f 0 base) (tag_batches f ins)
              (tag-le f 0 c base (omega arith)) (tag_batches-le f c ins h))
        ∙ ap (survivors (λ x. not (is_removed f (tomb ++ tag_tombs f ins_inf bt) x)))
            (append_assoc (tag f 0 base) (tag_batches f ins) (tag_buffer f ins_inf buf))
