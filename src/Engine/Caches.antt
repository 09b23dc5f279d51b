-- ===== src/Engine/Caches.antt =====
-- `_code_cache` and `_pk_cache` of ryudb/exec/executor.py across a commit: what has become stale is
-- gone, and nothing else.
use ryu_db.Common.{
  ℕ, ◌+◌, String, ◌≡◌, refl, sym, ap, ◌∙◌, Bool, false, not, ◌||◌, List, [], ◌∷◌, arith, keep_if,
  Result, ok, err, ◌=ₛ◌, eq_iff, fun_ext,
}
use ryu_db.Common.Dict.{contains, set_add, contains-set_add}
use ryu_db.Wal.Codec.{Serial, CommitBatch}
use ryu_db.Wal.File
use ryu_db.Wal.File.{Wal, Outcome}
use ryu_db.Engine.{
  Engine, CacheEntry, batch_tables, drop_table, invalidate_table_caches, invalidate_all,
  finish_commit, write_commit, apply_batches,
}

-- Some batch of the commit is for the table.
abbrev pub is_written {ℓ} : {F : Type ℓ} → String → List (CommitBatch F) → Bool
is_written t [] = false
is_written t ((table, kind, frame) ∷ batches) = table =ₛ t || is_written t batches

contains-batch_tables :
    {F : Type 0} (t : String) (batches : List (CommitBatch F)) (tables : List String)
    → contains t (batch_tables batches tables) ≡ (contains t tables || is_written t batches)
unfolding batch_tables
contains-batch_tables t [] tables = ground arith
contains-batch_tables t ((table, kind, frame) ∷ batches) tables =
    ground (
      arith,
      contains-batch_tables t batches (set_add table tables),
      contains-set_add t table tables,
    )

-- The entries of a cache that are not about one of the tables.
abbrev pub without {ℓ} : {V : Type ℓ} → (String → Bool) → List (CacheEntry V) → List (CacheEntry V)
without stale = keep_if (λ e. not (stale e.0))

without-drop_table :
    {V : Type 0} (t : String) (ts : List String) (cache : List (CacheEntry V))
    → without (λ k. contains k ts) (drop_table t cache) ≡ without (λ k. contains k (t ∷ ts)) cache
without-drop_table t ts [] = refl
without-drop_table t ts ((k, c, e) ∷ cache) =
    ground (arith, without-drop_table t ts cache, eq_iff k t, eq_iff t k)

without_none : {V : Type 0} (cache : List (CacheEntry V)) → without (λ k. false) cache ≡ cache
without_none [] = refl
without_none (e ∷ cache) = ap (λ l. e ∷ l) (without_none cache)

-- Both caches of `e'` are those of `e` without the entries of the stale tables.
pub record Drops {F C : Type 0} (stale : String → Bool) (e e' : Engine F C) : Type 0 where
  pub codes : e'.code_cache ≡ without stale e.code_cache
  pub keys : e'.pk_cache ≡ without stale e.pk_cache

-- What is stale after `_write_commit` with a result: the tables of its batches, if it went through.
abbrev pub stale_after {ℓ} : {F : Type ℓ} → Result ℕ → List (CommitBatch F) → String → Bool
stale_after (ok ts) batches k = is_written k batches
stale_after (err x) batches k = false

module _ {F C : Type 0} where
  invalidate_all-Drops :
      (ts : List String) (e : Engine F C) → Drops (λ k. contains k ts) e (invalidate_all ts e)
  unfolding invalidate_all invalidate_table_caches
  invalidate_all-Drops [] e = record {
    codes = sym (without_none e.code_cache);
    keys = sym (without_none e.pk_cache);
  }
  invalidate_all-Drops (t ∷ ts) e =
      let h = invalidate_all-Drops ts (invalidate_table_caches t e) in
      record {
        codes = h.codes ∙ without-drop_table t ts e.code_cache;
        keys = h.keys ∙ without-drop_table t ts e.pk_cache;
      }

  finish_commit-Drops :
      (ts : ℕ) (batches : List (CommitBatch F)) (e : Engine F C) (out : Result (Unit {0}) × Wal)
      → Drops
          (stale_after (finish_commit ts batches e out).0 batches)
          e
          (finish_commit ts batches e out).1
  unfolding finish_commit
  finish_commit-Drops ts batches e (err x, w) = record {
    codes = sym (without_none e.code_cache);
    keys = sym (without_none e.pk_cache);
  }
  finish_commit-Drops ts batches e (ok _, w) =
      let h =
        invalidate_all-Drops (batch_tables batches [])
          (record e { wal = w; delta = apply_batches ts e.delta batches }) in
      let same : (λ k. contains k (batch_tables batches [])) ≡ (λ k. is_written k batches) =
        fun_ext (λ k. contains-batch_tables k batches []) in
      record {
        codes = h.codes ∙ ap (λ stale. without stale e.code_cache) same;
        keys = h.keys ∙ ap (λ stale. without stale e.pk_cache) same;
      }

  -- After `_write_commit` both caches have lost the entries of the tables that its batches are for, and
  -- no others; if it raises they are as before.
  pub write_commit-Drops :
      (s : Serial F) (io : Outcome) (batches : List (CommitBatch F)) (e : Engine F C)
      → Drops
          (stale_after (write_commit s io batches e).0 batches)
          e
          (write_commit s io batches e).1
  unfolding write_commit
  write_commit-Drops s io batches e =
      let out =
        finish_commit-Drops (e.commit_ts + 1) batches (record e { commit_ts = e.commit_ts + 1 })
          (File.write_commit s io (e.commit_ts + 1) batches e.wal) in
      record { codes = out.codes; keys = out.keys }
