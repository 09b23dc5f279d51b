-- ===== src/Server/Worker/Once.antt =====
-- No request is lost, and none is answered twice.
use ryu_db.Common.{
  ℕ, zero, suc, ◌+◌, ◌≡◌, refl, ap, Bool, true, false, Option, none, some, List, [], ◌∷◌, ◌++◌,
  Result, ok, err, cancelled, ltb, ◌==◌, arith, Bool-cases, inl, inr, subst,
}
use ryu_db.Wal.Records.{ok-injective}
use ryu_db.Server.Worker.{
  Thread, Pool, member, all_waiting, sentinels, start_pool, submit, set_cancel, shutdown,
  begin_item, Move, Moves,
}

-- How often a request stands in the queue, runs, and has been answered.
abbrev pub one_if : Bool → ℕ
one_if true = 1
one_if false = 0

abbrev pub queued : ℕ → List (Option ℕ) → ℕ
queued n [] = 0
queued n (none ∷ q) = queued n q
queued n (some m ∷ q) = one_if (m == n) + queued n q

abbrev pub runs : ℕ → List Thread → ℕ
runs n [] = 0
runs n (Thread.waiting ∷ ts) = runs n ts
runs n (Thread.stopped ∷ ts) = runs n ts
runs n (Thread.running m ∷ ts) = one_if (m == n) + runs n ts

module _ {A : Type 0} where
  abbrev pub answered : ℕ → List (ℕ × Result A) → ℕ
  answered n [] = 0
  answered n ((m, r) ∷ rest) = one_if (m == n) + answered n rest

  abbrev pub places : ℕ → Pool A → ℕ
  places n p = queued n p.queue + (runs n p.threads + answered n p.answers)

queued-append : (n : ℕ) (q r : List (Option ℕ)) → queued n (q ++ r) ≡ queued n q + queued n r
queued-append n [] r = omega arith
queued-append n (none ∷ q) r = queued-append n q r
queued-append n (some m ∷ q) r = omega (arith, queued-append n q r)

runs-append : (n : ℕ) (q r : List Thread) → runs n (q ++ r) ≡ runs n q + runs n r
runs-append n [] r = omega arith
runs-append n (Thread.waiting ∷ q) r = runs-append n q r
runs-append n (Thread.stopped ∷ q) r = runs-append n q r
runs-append n (Thread.running m ∷ q) r = omega (arith, runs-append n q r)

queued-sentinels : (n : ℕ) (ts : List Thread) → queued n (sentinels ts) ≡ 0
queued-sentinels n [] = refl
queued-sentinels n (t ∷ ts) = queued-sentinels n ts

runs-all_waiting : (n k : ℕ) → runs n (all_waiting k) ≡ 0
runs-all_waiting n zero = refl
runs-all_waiting n (suc k) = runs-all_waiting n k

module _ {A : Type 0} where
  answered-append :
      (n : ℕ) (q r : List (ℕ × Result A)) → answered n (q ++ r) ≡ answered n q + answered n r
  answered-append n [] r = omega arith
  answered-append n ((m, a) ∷ q) r = omega (arith, answered-append n q r)

  -- What a thread takes from the queue is then running or answered, unless it is a sentinel.
  begin_item-places :
      (n : ℕ) (item : Option ℕ) (flags : List ℕ) (answers : List (ℕ × Result A))
      → let (t, after) = begin_item item flags answers in
        runs n (t ∷ []) + answered n after ≡ queued n (item ∷ []) + answered n answers
  unfolding begin_item
  begin_item-places n none flags answers = refl
  begin_item-places n (some m) flags answers = elim (Bool-cases (member m flags)) [
    | inl set ↦ rw set (omega (arith, answered-append n answers ((m, err cancelled) ∷ [])))
    | inr free ↦ rw free (omega arith)
  ]

  -- Every request submitted so far is in one place, once, and no other is anywhere.
  pub IsOnce : Pool A → Type 0
  IsOnce p = (n : ℕ) → places n p ≡ one_if (ltb n p.submitted)

  Move-places :
      (p : Pool A) {p' : Pool A}
      → Move p p'
      → (n : ℕ)
      → (places n p' + one_if (ltb n p.submitted) ≡ places n p + one_if (ltb n p'.submitted))
  unfolding submit set_cancel shutdown
  Move-places p (Move.submits e) n =
      rw e (grind (arith, queued-append n p.queue (some p.submitted ∷ [])))
  Move-places p (Move.cancels k e) n = rw e refl
  Move-places p (Move.shuts_down e) n =
      rw e
        (omega (arith, queued-append n p.queue (sentinels p.threads), queued-sentinels n p.threads))
  Move-places p (Move.takes pre post item rest t q e) n = rw e (
      omega (
        arith,
        ap (queued n) q,
        ap (runs n) t,
        begin_item-places n item p.flags p.answers,
        runs-append n pre (Thread.waiting ∷ post),
        runs-append n pre ((begin_item item p.flags p.answers).0 ∷ post),
        runs-append n ((begin_item item p.flags p.answers).0 ∷ []) post,
        queued-append n (item ∷ []) rest,
      ))
  Move-places p (Move.finishes pre post k result t e) n = rw e (
      omega (
        arith,
        ap (runs n) t,
        runs-append n pre (Thread.running k ∷ post),
        runs-append n pre (Thread.waiting ∷ post),
        answered-append n p.answers ((k, result) ∷ []),
      ))

  Move-IsOnce : (p : Pool A) {p' : Pool A} → IsOnce p → Move p p' → IsOnce p'
  unfolding IsOnce
  Move-IsOnce p h m = λ n. omega (arith, h n, Move-places p m n)

  Moves-IsOnce : (p : Pool A) {p' : Pool A} → IsOnce p → Moves p p' → IsOnce p'
  Moves-IsOnce p h Moves.here = h
  Moves-IsOnce p h (Moves.next ms m) = Move-IsOnce _ (Moves-IsOnce p h ms) m

  start_pool-IsOnce : (workers : ℕ) {p : Pool A} → start_pool workers ≡ ok p → IsOnce p
  unfolding IsOnce start_pool
  start_pool-IsOnce zero e = cc
  start_pool-IsOnce (suc k) {p} e =
      subst IsOnce (ok-injective e) (λ n. grind (arith, runs-all_waiting n (suc k)))

-- However the threads of a pool and its callers take turns, every request that has been submitted is
-- in the queue, in one thread, or answered, and in no two of these and never twice: none is lost and
-- none is answered twice, by its result, its exception or its cancellation.
pub pool-IsOnce :
    {A : Type 0} (workers : ℕ) (p p' : Pool A) → start_pool workers ≡ ok p → Moves p p' → IsOnce p'
pool-IsOnce workers p p' started moves = Moves-IsOnce p (start_pool-IsOnce workers started) moves
