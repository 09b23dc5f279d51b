-- ===== src/Engine.antt =====
-- ryudb/exec/executor.py, the state of `Engine` as far as its transaction layer goes: start-up
-- recovery and `_write_commit`, over the delta store, the write-ahead log and the transaction buffer.
-- The slot `_txn` is that of the one thread that runs the operations. `Ops` has the operations.
pub mod Ops
pub mod View
pub mod Durable
pub mod Commit
pub mod Recovery
pub mod Steps
pub mod Reach
pub mod Batches
pub mod Visible
pub mod Caches
pub mod Failed
use ryu_db.Common.{
  ℕ, zero, suc, ◌+◌, String, Bool, true, false, not, ◌||◌, Option, none, some, List, [], ◌∷◌, ◌++◌,
  map, leb, ltb, Result, ok, err, runtime_error, keep_if, if◌then◌else◌, ◌=ₛ◌,
}
use ryu_db.Common.Dict.{Dict, lookup, insert, set_add}
use Prim.Native.Nat.{max}
use ryu_db.Delta
use ryu_db.Delta.{DeltaStore}
use ryu_db.Txn
use ryu_db.Txn.{Transaction}
use ryu_db.Wal.Bytes.{Bytes}
use ryu_db.Wal.Codec.{Serial, Kind, CommitBatch, Entry}
use ryu_db.Wal.File
use ryu_db.Wal.File.{Wal, Outcome}

-- An entry of `_code_cache` or `_pk_cache`: table, column, value.
abbrev pub CacheEntry {ℓ} : Type ℓ → Type ℓ
CacheEntry V = String × String × V

-- The fields of `Engine` that these operations read or write. `C` is the type of cached codes.
pub record Engine (F C : Type 0) : Type 0 where
  pub commit_ts : ℕ
  pub txn : Option (Transaction F)
  pub snapshots : Dict ℕ
  pub delta : DeltaStore F
  pub wal : Wal
  pub code_cache : List (CacheEntry C)
  pub pk_cache : List (CacheEntry Bool)

module _ {F : Type 0} where
  -- The body of the loops of `__init__` and `_write_commit`.
  unfoldable pub apply_batch : DeltaStore F → ℕ → String → Kind → F → DeltaStore F
  apply_batch d ts table Kind.tombstone frame = Delta.append_tombstone d table frame ts false
  apply_batch d ts table Kind.tombstone_update frame = Delta.append_tombstone d table frame ts true
  apply_batch d ts table Kind.insert frame = Delta.append d table frame ts

  unfoldable pub apply_batches : ℕ → DeltaStore F → List (CommitBatch F) → DeltaStore F
  unfolding apply_batch
  apply_batches ts d [] = d
  apply_batches ts d ((table, kind, frame) ∷ batches) =
      apply_batches ts (apply_batch d ts table kind frame) batches

  -- The replay loop of `__init__`.
  unfoldable pub load : DeltaStore F → ℕ → List (Entry F) → DeltaStore F × ℕ
  unfolding apply_batch
  load d max_ts [] = (d, max_ts)
  load d max_ts ((cts, table, kind, frame) ∷ records) =
      load (apply_batch d cts table kind frame) (max max_ts cts) records

  -- `dict.fromkeys(t for t, _, _ in batches)`
  unfoldable pub batch_tables : List (CommitBatch F) → List String → List String
  batch_tables [] tables = tables
  batch_tables ((table, kind, frame) ∷ batches) tables = batch_tables batches (set_add table tables)

  -- `[(t, "insert", f) for f in frames]` and the tombstones of a table with their kinds.
  abbrev pub insert_batches : String → List F → List (CommitBatch F)
  insert_batches table [] = []
  insert_batches table (f ∷ fs) = (table, Kind.insert, f) ∷ insert_batches table fs

  abbrev pub tombstone_batches : String → List (F × Bool) → List (CommitBatch F)
  tombstone_batches table [] = []
  tombstone_batches table ((f, fl) ∷ fs) =
      (table, (if fl then Kind.tombstone_update else Kind.tombstone), f)
      ∷ tombstone_batches table fs

  -- The two comprehensions of `_commit`, over the tables in the order in which they are met.
  abbrev pub all_inserts : Transaction F → List String → List (CommitBatch F)
  all_inserts txn [] = []
  all_inserts txn (t ∷ ts) = insert_batches t (Txn.buffer_batches txn t) ++ all_inserts txn ts

  abbrev pub all_tombstones : Transaction F → List String → List (CommitBatch F)
  all_tombstones txn [] = []
  all_tombstones txn (t ∷ ts) =
      tombstone_batches t (Txn.tombstone_batches_with_flag txn t) ++ all_tombstones txn ts

  -- `order` is the order in which Python iterates over the set `txn.tables()`.
  unfoldable pub txn_batches : (List String → List String) → Transaction F → List (CommitBatch F)
  txn_batches order txn =
      all_inserts txn (order (Txn.tables txn)) ++ all_tombstones txn (Txn.tombstone_tables txn)

-- `del cache[k]` for the keys of a table
abbrev pub drop_table {ℓ} : {V : Type ℓ} → String → List (CacheEntry V) → List (CacheEntry V)
drop_table table = keep_if (λ e. not (e.0 =ₛ table))

module _ {F C : Type 0} where
  unfoldable pub invalidate_table_caches : String → Engine F C → Engine F C
  invalidate_table_caches table e = record e {
    code_cache = drop_table table e.code_cache;
    pk_cache = drop_table table e.pk_cache;
  }

  unfoldable pub invalidate_all : List String → Engine F C → Engine F C
  unfolding invalidate_table_caches
  invalidate_all [] e = e
  invalidate_all (t ∷ ts) e = invalidate_all ts (invalidate_table_caches t e)

  -- `Engine(catalog)` over the log file that is at `path`.
  unfoldable pub start : Serial F → Option String → Option Bytes → Engine F C
  unfolding load
  start s path file =
      let (records, wal) = File.replay s (File.fresh path file) in
      let (delta, max_ts) = load Delta.empty 0 records in
      record {
        commit_ts = max_ts;
        txn = none;
        snapshots = [];
        delta = delta;
        wal = wal;
        code_cache = [];
        pk_cache = [];
      }

  unfoldable pub has_pending : Engine F C → String → Bool
  has_pending e table =
      Delta.has_unflushed e.delta table
      || elim e.txn [ none ↦ false | some txn ↦ Txn.has txn table ]

  -- `_next_commit_ts`: the counter after the call is its result.
  unfoldable pub next_commit_ts : Engine F C → ℕ × Engine F C
  next_commit_ts e = (e.commit_ts + 1, record e { commit_ts = e.commit_ts + 1 })

  -- `_write_commit` from the write to the log on, with the result of that write.
  unfoldable pub finish_commit :
      ℕ → List (CommitBatch F) → Engine F C → Result (Unit {0}) × Wal → Result ℕ × Engine F C
  unfolding apply_batches batch_tables invalidate_all
  finish_commit ts batches e (err x, wal) = (err x, record e { wal = wal })
  finish_commit ts batches e (ok _, wal) = (
    ok ts,
    invalidate_all (batch_tables batches [])
        (record e { wal = wal; delta = apply_batches ts e.delta batches }),
  )

  unfoldable pub write_commit :
      Serial F → Outcome → List (CommitBatch F) → Engine F C → Result ℕ × Engine F C
  unfolding next_commit_ts finish_commit
  write_commit s io batches e =
      let (ts, e') = next_commit_ts e in
      finish_commit ts batches e' (File.write_commit s io ts batches e'.wal)
