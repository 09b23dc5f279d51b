-- ===== src/Common/Ascending.antt =====
-- Lists in the order of their timestamps, and the filter by a timestamp.
use ryu_db.Common.Tests.{leb, Bool-cases}
use ryu_db.Common.Lists.{All, keep_if}
use Prim.Native.Nat.{ℕ, ◌≤◌, ◌<◌}
use mathlib.Core.Path.{◌≡◌, refl}
use mathlib.Core.Logic.{inl, inr}
use mathlib.Core.List.{List, [], ◌∷◌, ◌++◌}
use native.Mathlib.Omega.{arith}

-- The entries stand in the order of their timestamps, none of which is beyond `c`.
abbrev pub IsAscending {ℓ} : {E : Type ℓ} → (E → ℕ) → ℕ → List E → Type 0
IsAscending ts_of c [] = Unit {0}
IsAscending ts_of c (e ∷ l) = All (λ x. ts_of e ≤ ts_of x) l × (ts_of e ≤ c) × IsAscending ts_of c l

module _ {ℓ} {E : Type ℓ} (ts_of : E → ℕ) where
  All-le_snoc :
      (a : ℕ) (l : List E) (e : E)
      → a ≤ ts_of e
      → All (λ x. a ≤ ts_of x) l
      → All (λ x. a ≤ ts_of x) (l ++ e ∷ [])
  All-le_snoc a [] e h g = (h, tt)
  All-le_snoc a (x ∷ l) e h g = (g.0, All-le_snoc a l e h g.1)

  pub snoc-IsAscending :
      (c ts : ℕ) (l : List E) (e : E)
      → c ≤ ts
      → ts_of e ≡ ts
      → IsAscending ts_of c l
      → IsAscending ts_of ts (l ++ e ∷ [])
  snoc-IsAscending c ts [] e le at h = (tt, omega arith, tt)
  snoc-IsAscending c ts (x ∷ l) e le at h = (
    All-le_snoc (ts_of x) l e (omega arith) h.0,
    omega arith,
    snoc-IsAscending c ts l e le at h.2,
  )

  pub IsAscending-mono :
      (c ts : ℕ) (l : List E) → c ≤ ts → IsAscending ts_of c l → IsAscending ts_of ts l
  IsAscending-mono c ts [] le h = tt
  IsAscending-mono c ts (x ∷ l) le h = (h.0, omega arith, IsAscending-mono c ts l le h.2)

  pub IsAscending-le : (c : ℕ) (l : List E) → IsAscending ts_of c l → All (λ x. ts_of x ≤ c) l
  IsAscending-le c [] h = tt
  IsAscending-le c (x ∷ l) h = (h.1, IsAscending-le c l h.2)

module _ {ℓ} {E : Type ℓ} (ts_of : E → ℕ) (ts c : ℕ) where
  All-le-keep_if :
      (a : ℕ) (l : List E)
      → All (λ x. a ≤ ts_of x) l
      → All (λ x. a ≤ ts_of x) (keep_if (λ e. leb (ts_of e) ts) l)
  All-le-keep_if a [] h = tt
  All-le-keep_if a (x ∷ l) h = elim (Bool-cases (leb (ts_of x) ts)) [
    | inl kept ↦ rw kept (h.0, All-le-keep_if a l h.1)
    | inr lost ↦ rw lost (All-le-keep_if a l h.1)
  ]

  pub keep_if-IsAscending :
      (l : List E)
      → IsAscending ts_of c l
      → IsAscending ts_of ts (keep_if (λ e. leb (ts_of e) ts) l)
  keep_if-IsAscending [] h = tt
  keep_if-IsAscending (x ∷ l) h = elim (Bool-cases (leb (ts_of x) ts)) [
    | inl kept ↦ rw kept (All-le-keep_if (ts_of x) l h.0, ground arith, keep_if-IsAscending l h.2)
    | inr lost ↦ rw lost (keep_if-IsAscending l h.2)
  ]

module _ {ℓ} {E : Type ℓ} (ts_of : E → ℕ) (ts : ℕ) where
  pub keep_if_beyond :
      (l : List E) → All (λ e. ts < ts_of e) l → keep_if (λ e. leb (ts_of e) ts) l ≡ []
  keep_if_beyond [] h = refl
  keep_if_beyond (e ∷ l) h = ground (arith, keep_if_beyond l h.1)

  pub All-trans :
      (a : ℕ) (l : List E) → ts < a → All (λ e. a ≤ ts_of e) l → All (λ e. ts < ts_of e) l
  All-trans a [] h g = tt
  All-trans a (e ∷ l) h g = (omega arith, All-trans a l h g.1)

  -- In an ascending list the entries at or before `ts` are a prefix.
  pub keep_if-prefix :
      (c : ℕ) (l : List E)
      → IsAscending ts_of c l
      → (dropped : List E) × (l ≡ keep_if (λ e. leb (ts_of e) ts) l ++ dropped)
        × All (λ e. ts < ts_of e) dropped
  keep_if-prefix c [] h = ([], refl, tt)
  keep_if-prefix c (e ∷ l) h =
      let (rest, split, beyond) = keep_if-prefix c l h.2 in
      elim (Bool-cases (leb (ts_of e) ts)) [
        | inl kept ↦ (rest, ground (arith, split), beyond)
        | inr lost ↦
            let later : All (λ x. ts < ts_of x) (e ∷ l) =
              (ground arith, All-trans (ts_of e) l (ground arith) h.0) in
            (e ∷ l, ground (arith, keep_if_beyond l later.1), later)
      ]
