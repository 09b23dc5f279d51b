-- ===== src/Common/Actions.antt =====
-- Methods that change an object: what a call returns or raises, with the state that it leaves. What was
-- changed before an exception stays changed.
use ryu_db.Common.Results.{Error, Result, ok, err}

abbrev pub Action : Type 0 → Type 0 → Type 0
Action S A = S → Result A × S

module _ {S A : Type 0} where
  abbrev pub return : A → Action S A
  return a s = (ok a, s)

  abbrev pub raise : Error → Action S A
  raise e s = (err e, s)

  -- `self.x` in an expression, and an assignment.
  abbrev pub ask : (S → A) → Action S A
  ask f s = (ok (f s), s)

abbrev pub assign : {S : Type 0} → (S → S) → Action S (Unit {0})
assign f s = (ok tt, f s)

-- A call whose result, or exception, is already there.
abbrev pub lift : {S A : Type 0} → Result A → Action S A
lift r s = (r, s)

-- What follows a call, in the state that it left.
abbrev pub resume : {S A B : Type 0} → Result A × S → (A → Action S B) → Result B × S
resume (err e, s) next = (err e, s)
resume (ok a, s) next = next a s

infixl 5 ◌>>=◌ ◌>>◌
abbrev pub ◌>>=◌ : {S A B : Type 0} → Action S A → (A → Action S B) → Action S B
◌>>=◌ call next s = resume (call s) next

abbrev pub ◌>>◌ : {S B : Type 0} → Action S (Unit {0}) → Action S B → Action S B
◌>>◌ call next s = resume (call s) (λ _. next)
