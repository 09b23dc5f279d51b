-- ===== src/Engine/Recovery.antt =====
-- Start-up (`Engine.__init__`) and the other operations of the transaction layer of
-- ryudb/exec/executor.py, with crashes between and within them: what a restart gives back.
use ryu_db.Common.{
  ℕ, non_empty, ◌≤◌, String, ◌≡◌, refl, sym, ap, ap₂, ◌∙◌, true, Option, none, some, List, [], ◌∷◌,
  ◌++◌, arith, All, ok,
}
use Prim.Native.Nat.{max}
use ryu_db.Common.Ascending.{IsAscending}
use ryu_db.Delta
use ryu_db.Delta.{DeltaStore, Batch, Tombstone, batch_ts, tombstone_ts}
use ryu_db.Delta.Invariant.{IsStore, empty-IsStore}
use ryu_db.Wal.Bytes.{Bytes}
use ryu_db.Wal.Codec.{Serial, IsLossless, CommitBatch, Entry}
use ryu_db.Wal.Cut.{commit_ts}
use ryu_db.Wal.File
use ryu_db.Wal.File.{Wal, Outcome, contents, next_record}
use ryu_db.Wal.Handle.{replay-contents}
use ryu_db.Wal.Log.{Commit, log_entries, log_bytes}
use ryu_db.Wal.Records.{entries}
use ryu_db.Wal.Recovery.{replay_file-log}
use ryu_db.Engine.{start, load, apply_batch, apply_batches}
use ryu_db.Engine.View.{
  log_inserts, log_tombs, inserts-load, tombs-load, load-entries, apply_batches-IsStore,
}
use ryu_db.Engine.Durable.{IsDurable}

module _ {F : Type 0} where
  load-append :
      (d : DeltaStore F) (m : ℕ) (es es' : List (Entry F))
      → load d m (es ++ es') ≡ load (load d m es).0 (load d m es).1 es'
  unfolding load
  load-append d m [] es' = refl
  load-append d m ((ts, table, kind, f) ∷ es) es' =
      load-append (apply_batch d ts table kind f) (max m ts) es es'

  load_ts-entries :
      (ts : ℕ) (d : DeltaStore F) (m : ℕ) (b : CommitBatch F) (bs : List (CommitBatch F))
      → m ≤ ts
      → (load d m (entries ts (b ∷ bs))).1 ≡ ts
  unfolding load
  load_ts-entries ts d m (table, kind, f) [] le = omega arith
  load_ts-entries ts d m (table, kind, f) (b ∷ bs) le =
      load_ts-entries ts (apply_batch d ts table kind f) (max m ts) b bs (omega arith)

  load-commit :
      (ts : ℕ) (d : DeltaStore F) (m : ℕ) (b : CommitBatch F) (bs : List (CommitBatch F))
      (es : List (Entry F))
      → m ≤ ts
      → load d m (entries ts (b ∷ bs) ++ es) ≡ load (apply_batches ts d (b ∷ bs)) ts es
  load-commit ts d m b bs es le =
      load-append d m (entries ts (b ∷ bs)) es
      ∙ ap₂ (λ (x : DeltaStore F) (y : ℕ). load x y es) (load-entries ts d m (b ∷ bs))
          (load_ts-entries ts d m b bs le)

  -- A store and a counter that the commits of `log` lead to.
  pub record IsLoaded (c m : ℕ) (log : List (Commit F)) (out : DeltaStore F × ℕ) : Type 0 where
    pub store : IsStore out.1 out.0
    pub order : IsAscending commit_ts out.1 log
    pub grown : m ≤ out.1
    pub bounded : out.1 ≤ c

  -- Replaying a log in commit order gives a well-formed store, with the last timestamp as counter.
  load-log :
      (log : List (Commit F)) (c : ℕ) (d : DeltaStore F) (m : ℕ)
      → IsStore m d
      → m ≤ c
      → All (λ x. m ≤ commit_ts x) log
      → IsAscending commit_ts c log
      → All (λ x. non_empty x.1 ≡ true) log
      → IsLoaded c m log (load d m (log_entries log))
  load-log [] c d m h le after up full =
      unfold load in record { store = h; order = tt; grown = omega arith; bounded = le }
  load-log ((ts, []) ∷ log) c d m h le after up full = cc (full.0)
  load-log ((ts, b ∷ bs) ∷ log) c d m h le after up full =
      let out =
        load-log log c (apply_batches ts d (b ∷ bs)) ts
          (apply_batches-IsStore m ts d (b ∷ bs) after.0 h) up.1 up.0 up.2 full.1 in
      rw (load-commit ts d m b bs (log_entries log) after.0) (record {
        store = out.store;
        order = (up.0, out.grown, out.order);
        grown = omega (arith, out.grown, after.0);
        bounded = out.bounded;
      })

  All-after : (log : List (Commit F)) → All (λ x. 0 ≤ commit_ts x) log
  All-after [] = tt
  All-after (x ∷ log) = (omega arith, All-after log)

module _ {F C : Type 0} (s : Serial F) (lossless : IsLossless s) (p : String) where
  -- `Engine.__init__` over a file that holds the records of `log` and a tail at which replay breaks
  -- off: the engine's store holds the batches of `log`, and its counter is at most `c`.
  pub start-IsDurable :
      (log : List (Commit F)) (c : ℕ) (file : Option Bytes) (b tail : Bytes)
      → contents file ≡ b ++ tail
      → log_bytes s log ≡ ok b
      → next_record s.crc32 tail ≡ none
      → IsAscending commit_ts c log
      → All (λ x. non_empty x.1 ≡ true) log
      → IsDurable s p log (start {F = F} {C = C} s (some p) file)
        × ((start {F = F} {C = C} s (some p) file).commit_ts ≤ c)
  unfolding start Delta.batches_with_ts Delta.tombstones_with_ts
  start-IsDurable log c file b tail bytes h stop up full = (
    record {
      at_path = replayed.2;
      on_disk = h ∙ ap ok (sym (replayed.1 ∙ ap (λ x. x.1) whole));
      in_order = loaded.order;
      full = full;
      inserts = λ t. inserts-load t Delta.empty 0 records ∙ ap (log_inserts t) same;
      tombs = λ t. tombs-load t Delta.empty 0 records ∙ ap (log_tombs t) same;
      store = loaded.store;
    },
    loaded.bounded,
  )
    where
      w : Wal
      w = File.fresh (some p) file

      records : List (Entry F)
      records = (File.replay s w).0

      replayed :
          (records ≡ (File.replay_file s (contents file)).0)
          × (contents (File.replay s w).1.file ≡ (File.replay_file s (contents file)).1)
          × ((File.replay s w).1.path ≡ some p)
      replayed = replay-contents s w refl

      whole : File.replay_file s (contents file) ≡ (log_entries log, b)
      whole = ap (File.replay_file s) bytes ∙ replay_file-log s lossless log b tail h stop

      same : records ≡ log_entries log
      same = replayed.0 ∙ ap (λ x. x.0) whole

      loaded : IsLoaded c 0 log (load Delta.empty 0 records)
      loaded =
          rw same
            (load-log log c Delta.empty 0 (empty-IsStore 0) (omega arith) (All-after log) up full)
