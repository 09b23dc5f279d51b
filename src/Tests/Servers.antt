-- ===== src/Tests/Servers.antt =====
-- The server's connections, cursors, history and worker pool at concrete inputs.
use ryu_db.Common.{
  ℕ, ◌+◌, ◌≤◌, ◌≡◌, refl, String, Option, none, some, List, [], ◌∷◌, length, ok, err, Result,
  cancelled, ◌=ₛ◌, if◌then◌else◌, arith,
}
use ryu_db.Server.Sessions.{SqlEngine, Sessions, txn_of}
use ryu_db.Server.Sessions.Isolation.{serve, serve-isolated}
use ryu_db.Server.Cursors.Limit.{Act, act_all, act_all-bounds}
use ryu_db.Server.Worker.{Pool, Thread, Move, Moves, start_pool, submit, set_cancel, begin_item}
use ryu_db.Server.Worker.Once.{IsOnce, pool-IsOnce}

-- An engine that only begins and ends transactions.
abbrev run_txn : String → Option ℕ × ℕ → Option ℕ × ℕ
run_txn sql (txn, n) =
    if sql =ₛ "BEGIN" then (some n, n + 1) else if sql =ₛ "COMMIT" then (none, n) else (txn, n)

abbrev engine : SqlEngine (Option ℕ × ℕ) ℕ ℕ
engine = record { set_txn = λ x e. (x, e.1); txn = λ e. e.0; sql = λ s e. (ok 0, run_txn s e) }

abbrev two_connections : Sessions (Option ℕ × ℕ) ℕ
two_connections = record {
  engine = (none, 5);
  txns = ("a", some 4) ∷ ("b", none) ∷ [];
  conns = "a" ∷ "b" ∷ [];
}

serve-isolated_example :
    (txn_of "a" (serve engine (("b", "BEGIN") ∷ ("b", "COMMIT") ∷ []) two_connections).txns
      ≡ some 4)
    × ((serve engine (("b", "BEGIN") ∷ ("b", "COMMIT") ∷ []) two_connections).engine.0 ≡ none)
serve-isolated_example =
    serve-isolated engine "a" (("b", "BEGIN") ∷ ("b", "COMMIT") ∷ []) two_connections
      (record { txn-set = λ x e. refl }) (refl, (refl, tt)) refl

act_all-bounds_example :
    length (act_all (λ (t : ℕ). t) 1 (Act.opens "i" 3 "q" ∷ Act.opens "j" 3 "q" ∷ []) []) ≤ 1
act_all-bounds_example =
    act_all-bounds (λ t. t) 1 (Act.opens "i" 3 "q" ∷ Act.opens "j" 3 "q" ∷ []) [] (omega arith)

-- One worker: two requests are submitted, the second is cancelled, and the worker takes both.
abbrev pool : ℕ → List (Option ℕ) → Thread → List (ℕ × Result ℕ) → List ℕ → Pool ℕ
pool n queue thread answers flags = record {
  queue = queue;
  threads = thread ∷ [];
  answers = answers;
  flags = flags;
  submitted = n;
}

two-Moves :
    Moves
      (pool 0 [] Thread.waiting [] [])
      (pool 2 [] Thread.waiting ((0, ok 3) ∷ (1, err cancelled) ∷ []) (1 ∷ []))
unfolding submit set_cancel begin_item
two-Moves =
    Moves.next
      (Moves.next
        (Moves.next
          (Moves.next (Moves.next (Moves.next Moves.here (Move.submits refl)) (Move.submits refl))
            (Move.cancels 1 refl))
          (Move.takes [] [] (some 0) (some 1 ∷ []) refl refl refl))
        (Move.finishes [] [] 0 (ok 3) refl refl))
      (Move.takes [] [] (some 1) [] refl refl refl)

pool-IsOnce_example :
    IsOnce (pool 2 [] Thread.waiting ((0, ok 3) ∷ (1, err cancelled) ∷ []) (1 ∷ []))
unfolding start_pool
pool-IsOnce_example =
    pool-IsOnce 1 (pool 0 [] Thread.waiting [] [])
      (pool 2 [] Thread.waiting ((0, ok 3) ∷ (1, err cancelled) ∷ []) (1 ∷ [])) refl two-Moves
