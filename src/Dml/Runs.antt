-- ===== src/Dml/Runs.antt =====
-- UPDATE of ryudb/exec/executor.py as a run of the transaction layer.
use ryu_db.Common.{
  String, refl, true, Option, none, some, List, [], ◌∷◌, map, length, Result, ok, err,
}
use ryu_db.Common.Actions.{resume}
use ryu_db.Catalog.{TableInfo, get}
use ryu_db.Txn
use ryu_db.Txn.{Transaction}
use ryu_db.Wal.Codec.{Serial}
use ryu_db.Wal.File.{Outcome}
use ryu_db.Engine.{Engine}
use ryu_db.Engine.Durable.{Restores}
use ryu_db.Engine.Reach.{Step, Reach}
use ryu_db.Dml.{Rows, Pandas, Source, scan, enforce_unique}
use ryu_db.Dml.Targets.{
  Predicate, Assignment, select_targets, project, require_pk, check_assignments, set_columns,
  check_not_null,
}
use ryu_db.Dml.Insert.{Method}
use ryu_db.Dml.Update.{on_txn, refuse_in, discard, replace_rows, update_found, update_rows}

module _ {V C : Type 0} (s : Serial (Rows V)) (p : String) (e : Engine (Rows V) C) where
  -- What comes before the rest of a method raises or gives a value, and leaves the engine as it is.
  lift-Reach :
      {A B : Type 0} (r : Result A) (next : A → Method V C B) (e' : Engine (Rows V) C)
      → Reach s p e e'
      → ((a : A) → Reach s p e (next a e').1)
      → Reach s p e (resume (r, e') next).1
  lift-Reach (ok a) next e' now later = later a
  lift-Reach (err x) next e' now later = now

  first-Reach :
      {A B : Type 0} (r : Result A × Engine (Rows V) C) (f : A → B)
      → Reach s p e r.1
      → Reach s p e (resume r (λ a e'. (ok (f a), e'))).1
  first-Reach (ok a, e') f run = run
  first-Reach (err x, e') f run = run

  discard-Reach :
      (table : String) (r : Result (Unit {0}) × Engine (Rows V) C)
      → Reach s p e r.1
      → Reach s p e (discard table r).1
  unfolding discard
  discard-Reach table (ok u, e') run = run
  discard-Reach table (err x, e') run =
      Reach.next (Reach.next run (Step.sets_txn none refl)) (Step.invalidates table refl)

module _ {L V T K C : Type 0} (pd : Pandas L V T) (src : Source L V T K) (s : Serial (Rows V))
    (p : String) (io : Outcome) (fine : Restores io) (order : List String → List String)
    (table : String) (e : Engine (Rows V) C) where
  replace_rows-Reach :
      (tombstone new_frame : Rows V)
      → Reach s p e (replace_rows pd src s io order table tombstone new_frame e).1
  unfolding replace_rows
  replace_rows-Reach tombstone new_frame =
      let e0 : Engine (Rows V) C = record e { txn = some (Txn.fresh e.commit_ts) } in
      let e1 = on_txn (λ txn. Txn.tombstone_append txn table tombstone true) e0 in
      let e2 = on_txn (λ txn. Txn.buffer_append txn table new_frame) e1 in
      let run =
        Reach.next (Reach.next Reach.here (Step.sets_txn e0.txn refl))
          (Step.sets_txn e1.txn refl) in
      lift-Reach s p e (enforce_unique pd src table new_frame e1) _ e1 run λ _.
        Reach.next
          (Reach.next (Reach.next run (Step.sets_txn e2.txn refl)) (Step.invalidates table refl))
          (Step.commits io order fine refl)

  update_found-Reach :
      (info : TableInfo (Option L)) (pk : List String) (assignments : List (Assignment L V))
      (targets : Rows V)
      → Reach s p e (update_found pd src s io order table info pk assignments targets e).1
  unfolding update_found
  update_found-Reach info pk assignments [] = Reach.here
  update_found-Reach info pk assignments (row ∷ rows) =
      let targets = row ∷ rows in
      lift-Reach s p e (set_columns pd (src.types table) targets assignments targets) _ e Reach.here
        λ new_frame.
          lift-Reach s p e (check_not_null info.constraints.not_null new_frame) _ e Reach.here λ _.
            let r = replace_rows pd src s io order table (map (project pk) targets) new_frame e in
            first-Reach s p e (discard table r) (λ _. length targets)
              (discard-Reach s p e table r
                (replace_rows-Reach (map (project pk) targets) new_frame))

  -- An UPDATE, whether it raises or not, is a run of the transaction layer, if the write of its commit
  -- goes through or fails and the file gets its old length back.
  update_rows-Reach :
      (assignments : List (Assignment L V)) (predicate : Predicate V)
      → Reach s p e (update_rows pd src s io order table assignments predicate e).1
  unfolding update_rows
  update_rows-Reach assignments predicate =
      lift-Reach s p e (get src.tables table) _ e Reach.here λ info.
        lift-Reach s p e (require_pk info.constraints.primary_key) _ e Reach.here λ pk.
          lift-Reach s p e (refuse_in e.txn) _ e Reach.here λ _.
            lift-Reach s p e (check_assignments info.columns assignments) _ e Reach.here λ _.
              lift-Reach s p e (select_targets predicate (scan src info table e)) _ e Reach.here
                λ targets. update_found-Reach info pk assignments targets
