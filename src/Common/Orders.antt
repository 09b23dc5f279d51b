-- ===== src/Common/Orders.antt =====
-- Lists with the same entries in another order.
use mathlib.Core.List.{Perm, Permᴰ}
use mathlib.Core.List.Permᴰ
use mathlib.Core.Logic.{∥∥₁_map}
use mathlib.Core.Path.{refl, subst}
use mathlib.Core.Bool.{Bool, true, false}
use mathlib.Core.List.{List, ◌∷◌}
use ryu_db.Common.Tests.{if◌then◌else◌}
use ryu_db.Common.Lists.{keep_if}

module _ {ℓ} {A : Type ℓ} (p : A → Bool) where
  keep_if_cons :
      (x : A) (xs ys : List A)
      → Permᴰ (keep_if p xs) (keep_if p ys)
      → Permᴰ (keep_if p (x ∷ xs)) (keep_if p (x ∷ ys))
  keep_if_cons x xs ys h =
      elim (p x)
        as (λ b.
          Permᴰ (if b then x ∷ keep_if p xs else keep_if p xs)
            (if b then x ∷ keep_if p ys else keep_if p ys)) [ true ↦ Permᴰ.cons refl h | false ↦ h ]

  keep_if_swap : (x y : A) (l : List A) → Permᴰ (keep_if p (x ∷ y ∷ l)) (keep_if p (y ∷ x ∷ l))
  keep_if_swap x y l = go (p x) (p y) (keep_if p l)
    where
      go :
          (b c : Bool) (rest : List A)
          → Permᴰ
              (if b then x ∷ (if c then y ∷ rest else rest) else (if c then y ∷ rest else rest))
              (if c then y ∷ (if b then x ∷ rest else rest) else (if b then x ∷ rest else rest))
      go true true rest = Permᴰ.swap refl refl
      go true false rest = Permᴰ.refl (x ∷ rest)
      go false true rest = Permᴰ.refl (y ∷ rest)
      go false false rest = Permᴰ.refl rest

  keep_if-Permᴰ : {xs ys : List A} → Permᴰ xs ys → Permᴰ (keep_if p xs) (keep_if p ys)
  keep_if-Permᴰ Permᴰ.nil = Permᴰ.nil
  keep_if-Permᴰ (Permᴰ.cons {a = a} {b = b} {l₁ = l₁} {l₂ = l₂} e h) =
      subst (λ b. Permᴰ (keep_if p (a ∷ l₁)) (keep_if p (b ∷ l₂))) e
        (keep_if_cons a l₁ l₂ (keep_if-Permᴰ h))
  keep_if-Permᴰ (Permᴰ.swap {a = a} {b = b} {a' = a'} {b' = b'} {l = l} e e') =
      subst (λ z. Permᴰ (keep_if p (a ∷ b ∷ l)) (keep_if p (z ∷ b' ∷ l))) e'
        (subst (λ z. Permᴰ (keep_if p (a ∷ b ∷ l)) (keep_if p (b ∷ z ∷ l))) e (keep_if_swap a b l))
  keep_if-Permᴰ (Permᴰ.trans h h') = Permᴰ.trans (keep_if-Permᴰ h) (keep_if-Permᴰ h')

  -- Entries that pass a test, from the same entries in another order.
  pub keep_if-Perm : {xs ys : List A} → Perm xs ys → Perm (keep_if p xs) (keep_if p ys)
  keep_if-Perm {xs} {ys} h = ∥∥₁_map {B = Permᴰ (keep_if p xs) (keep_if p ys)} h keep_if-Permᴰ
