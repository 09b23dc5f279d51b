-- ===== src/Engine/Failed.antt =====
-- What the operations of the transaction layer of ryudb/exec/executor.py leave behind when they raise.
use ryu_db.Common.{
  Error, ℕ, ◌+◌, String, ◌≡◌, refl, Option, none, some, List, [], ◌∷◌, Result, ok, err,
}
use ryu_db.Common.Actions.{resume}
use ryu_db.Txn.{Transaction}
use ryu_db.Delta.{DeltaStore}
use ryu_db.Wal.Codec.{Serial, CommitBatch, Kind}
use ryu_db.Wal.File
use ryu_db.Wal.File.{Outcome, Wal}
use ryu_db.Engine.{Engine, write_commit, finish_commit, txn_batches}
use ryu_db.Engine.Ops.{
  commit, commit_in, finish_txn, store_insert, store_insert_in, store_delete, store_delete_in,
  ignore_ts,
}

module _ {F C : Type 0} where
  -- After an exception the rows that were committed are as they were.
  abbrev pub SameDelta : {A : Type 0} → DeltaStore F → Result A × Engine F C → Type 0
  SameDelta d (ok a, e) = Unit
  SameDelta d (err x, e) = e.delta ≡ d

  -- After an exception the committed rows and the transaction are as they were.
  abbrev pub Undone : {A : Type 0} → Engine F C → Result A × Engine F C → Type 0
  Undone e (ok a, e') = Unit
  Undone e (err x, e') = (e'.delta ≡ e.delta) × (e'.txn ≡ e.txn)

  pub lift-Undone :
      {A B : Type 0} (r : Result A) (next : A → Engine F C → Result B × Engine F C) (e : Engine F C)
      → ((a : A) → Undone e (next a e))
      → Undone e (resume (r, e) next)
  lift-Undone (err x) next e h = (refl, refl)
  lift-Undone (ok a) next e h = h a

  pub lift-SameDelta :
      {A B : Type 0} (r : Result A) (next : A → Engine F C → Result B × Engine F C) (e : Engine F C)
      → ((a : A) → SameDelta e.delta (next a e))
      → SameDelta e.delta (resume (r, e) next)
  lift-SameDelta (err x) next e h = refl
  lift-SameDelta (ok a) next e h = h a

  -- Where only the first step can raise.
  pub first-Undone :
      {A B : Type 0} (e : Engine F C) (r : Result A × Engine F C) (b : A → B)
      → Undone e r
      → Undone e (resume r (λ a e'. (ok (b a), e')))
  first-Undone e (err x, e') b h = h
  first-Undone e (ok a, e') b h = tt

  finish_commit-Undone :
      (ts : ℕ) (batches : List (CommitBatch F)) (e e' : Engine F C) (r : Result (Unit {0}) × Wal)
      → e'.delta ≡ e.delta
      → e'.txn ≡ e.txn
      → Undone e (finish_commit ts batches e' r)
  unfolding finish_commit
  finish_commit-Undone ts batches e e' (err x, wal) d t = (d, t)
  finish_commit-Undone ts batches e e' (ok u, wal) d t = tt

  write_commit-Undone :
      (s : Serial F) (io : Outcome) (batches : List (CommitBatch F)) (e : Engine F C)
      → Undone e (write_commit s io batches e)
  unfolding write_commit
  write_commit-Undone s io batches e =
      finish_commit-Undone (e.commit_ts + 1) batches e (record e { commit_ts = e.commit_ts + 1 })
        (File.write_commit s io (e.commit_ts + 1) batches e.wal) refl refl

  ignore_ts-Undone :
      (e : Engine F C) (r : Result ℕ × Engine F C) → Undone e r → Undone e (ignore_ts r)
  unfolding ignore_ts
  ignore_ts-Undone e (err x, e') h = h
  ignore_ts-Undone e (ok ts, e') h = tt

  pub store_insert-Undone :
      (s : Serial F) (io : Outcome) (table : String) (frame : F) (e : Engine F C)
      → Undone e (store_insert s io table frame e)
  unfolding store_insert store_insert_in
  store_insert-Undone s io table frame e =
      elim e.txn as (λ t. Undone e (store_insert_in s io table frame t e)) [
        | none ↦
            ignore_ts-Undone e (write_commit s io ((table, Kind.insert, frame) ∷ []) e)
              (write_commit-Undone s io ((table, Kind.insert, frame) ∷ []) e)
        | some txn ↦ tt
      ]

  pub store_delete-Undone :
      (s : Serial F) (io : Outcome) (table : String) (frame : F) (e : Engine F C)
      → Undone e (store_delete s io table frame e)
  unfolding store_delete store_delete_in
  store_delete-Undone s io table frame e =
      elim e.txn as (λ t. Undone e (store_delete_in s io table frame t e)) [
        | none ↦
            ignore_ts-Undone e (write_commit s io ((table, Kind.tombstone, frame) ∷ []) e)
              (write_commit-Undone s io ((table, Kind.tombstone, frame) ∷ []) e)
        | some txn ↦ tt
      ]

  finish_txn-SameDelta :
      (e : Engine F C) (r : Result ℕ × Engine F C) → Undone e r → SameDelta e.delta (finish_txn r)
  unfolding finish_txn
  finish_txn-SameDelta e (err x, e') h = h.0
  finish_txn-SameDelta e (ok ts, e') h = tt

  commit_in-SameDelta :
      (s : Serial F) (io : Outcome) (order : List String → List String) (t : Option (Transaction F))
      (e : Engine F C)
      → SameDelta e.delta (commit_in s io order t e)
  unfolding commit_in
  commit_in-SameDelta s io order none e = refl
  commit_in-SameDelta s io order (some txn) e =
      finish_txn-SameDelta e (write_commit s io (txn_batches order txn) e)
        (write_commit-Undone s io (txn_batches order txn) e)

  pub commit-SameDelta :
      (s : Serial F) (io : Outcome) (order : List String → List String) (e : Engine F C)
      → SameDelta e.delta (commit s io order e)
  unfolding commit
  commit-SameDelta s io order e = commit_in-SameDelta s io order e.txn e

  pub Undone-err :
      {A : Type 0} (e : Engine F C) (r : Result A × Engine F C) (x : Error)
      → r.0 ≡ err x
      → Undone e r
      → (r.1.delta ≡ e.delta) × (r.1.txn ≡ e.txn)
  Undone-err e (ok a, e') x raised h = absurd cc
  Undone-err e (err y, e') x raised h = h
