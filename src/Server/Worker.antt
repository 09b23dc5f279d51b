-- ===== src/Server/Worker.antt =====
-- ryudb/server/worker.py: the pool of worker threads and its queue. Each part of `_run` between two
-- points where another thread may act is one operation; a request is the number of its `submit`.
pub mod Once
use ryu_db.Common.{
  ℕ, zero, suc, ◌+◌, ◌≡◌, Bool, true, false, ◌||◌, Option, none, some, List, [], ◌∷◌, ◌++◌, length,
  Result, ok, err, cancelled, value_error, ◌==◌, if◌then◌else◌,
}

-- A thread in `_run`: at the queue, in the call of a request, or returned. The event that
-- `engine.cancel_event` holds in a thread is that of the request it is in.
pub data Thread : Type 0 where
  waiting stopped : Thread
  running : ℕ → Thread

-- `queue` with `none` for the sentinel of `shutdown`; `answers` are the calls of `_resolve_ok`,
-- `_resolve_exc` and `_resolve_cancelled` that have been put to the loop, in order.
pub record Pool (A : Type 0) : Type 0 where
  pub queue : List (Option ℕ)
  pub threads : List Thread
  pub answers : List (ℕ × Result A)
  pub flags : List ℕ
  pub submitted : ℕ

abbrev pub member : ℕ → List ℕ → Bool
member n [] = false
member n (m ∷ ms) = m == n || member n ms

abbrev pub all_waiting : ℕ → List Thread
all_waiting zero = []
all_waiting (suc n) = Thread.waiting ∷ all_waiting n

abbrev pub sentinels : List Thread → List (Option ℕ)
sentinels [] = []
sentinels (t ∷ ts) = none ∷ sentinels ts

module _ {A : Type 0} where
  -- `EngineWorker(engine, n_workers)`; fewer than one worker is a ValueError.
  unfoldable pub start_pool : ℕ → Result (Pool A)
  start_pool zero = err value_error
  start_pool (suc n) = ok (record {
    queue = [];
    threads = all_waiting (suc n);
    answers = [];
    flags = [];
    submitted = 0;
  })

  unfoldable pub submit : Pool A → Pool A
  submit p = record p { queue = p.queue ++ some p.submitted ∷ []; submitted = p.submitted + 1 }

  -- `cancel.set()`
  unfoldable pub set_cancel : ℕ → Pool A → Pool A
  set_cancel n p = record p { flags = n ∷ p.flags }

  -- The loop of `shutdown` that puts the sentinels.
  unfoldable pub shutdown : Pool A → Pool A
  shutdown p = record p { queue = p.queue ++ sentinels p.threads }

  -- What a thread that has taken an item becomes, and the answers then.
  unfoldable pub begin_item : Option ℕ → List ℕ → List (ℕ × Result A) → Thread × List (ℕ × Result A)
  begin_item none flags answers = (Thread.stopped, answers)
  begin_item (some n) flags answers =
      if member n flags
      then (Thread.waiting, answers ++ (n, err cancelled) ∷ [])
      else (Thread.running n, answers)

-- One thread, between `pre` and `post`, or a caller of the pool, makes one move.
pub data Move {A : Type 0} (p p' : Pool A) : Type 0 where
  submits : p' ≡ submit p → Move p p'
  cancels : (n : ℕ) → p' ≡ set_cancel n p → Move p p'
  shuts_down : p' ≡ shutdown p → Move p p'
  takes :
      (pre post : List Thread) (item : Option ℕ) (rest : List (Option ℕ))
      → p.threads ≡ pre ++ Thread.waiting ∷ post
      → p.queue ≡ item ∷ rest
      → (let (t, answers) = begin_item item p.flags p.answers in
          p' ≡ record p { queue = rest; threads = pre ++ t ∷ post; answers = answers })
      → Move p p'
  finishes :
      (pre post : List Thread) (n : ℕ) (result : Result A)
      → p.threads ≡ pre ++ Thread.running n ∷ post
      → p' ≡ record p {
        threads = pre ++ Thread.waiting ∷ post;
        answers = p.answers ++ (n, result) ∷ [];
      }
      → Move p p'

pub data Moves {A : Type 0} (p : Pool A) : Pool A → Type 0 where
  here : Moves p p
  next : {p₁ p₂ : Pool A} → Moves p p₁ → Move p₁ p₂ → Moves p p₂

-- `_resolve_ok`, `_resolve_exc` and `_resolve_cancelled` on the loop's thread: a future that is done
-- stays as it is.
abbrev pub is_done : {A : Type 0} → ℕ → List (ℕ × Result A) → Bool
is_done n [] = false
is_done n ((m, r) ∷ futures) = m == n || is_done n futures

unfoldable pub resolve : {A : Type 0} → ℕ × Result A → List (ℕ × Result A) → List (ℕ × Result A)
resolve (n, result) futures = if is_done n futures then futures else (n, result) ∷ futures
