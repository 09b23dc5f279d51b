-- ===== src/Tests/Locks.antt =====
-- The lock of ryudb/exec/executor.py under three threads.
use ryu_db.Common.{ℕ, ◌+◌, ◌≤◌, ◌<◌, ◌≡◌, ◌⊎◌, refl, Bool, true, false, [], ◌∷◌, none, arith}
use ryu_db.Lock.{
  RwLock, unlocked, acquire_read, acquire_write, announce_write, abandon_write, release_read, Phase,
  Threads, Turn, Move, Moves, all_outside,
}
use ryu_db.Lock.Counts.{count}
use ryu_db.Lock.Exclusion.{lock-exclusion, writer_first}
use ryu_db.Lock.Wakeup.{sleepers-guarded}

abbrev lock_of : ℕ → Bool → ℕ → RwLock
lock_of r w ww = record { readers = r; writer = w; waiting_writers = ww }

abbrev three : RwLock → Phase → Phase → Phase → Threads
three l p q r = record { lock = l; phases = p ∷ q ∷ r ∷ [] }

abbrev start : Threads
start = record { lock = unlocked; phases = all_outside 3 }

first-Turn : {l l' : RwLock} {p p' q r : Phase} → Turn (three l p q r) (three l' p' q r) p p' false
first-Turn {q = q} {r = r} = record { pre = []; post = q ∷ r ∷ []; was = refl; is = refl }

second-Turn : {l l' : RwLock} {p q q' r : Phase} → Turn (three l p q r) (three l' p q' r) q q' false
second-Turn {p = p} {r = r} = record { pre = p ∷ []; post = r ∷ []; was = refl; is = refl }

third-Turn : {l l' : RwLock} {p q r r' : Phase} → Turn (three l p q r) (three l' p q r') r r' false
third-Turn {p = p} {q = q} = record { pre = p ∷ q ∷ []; post = []; was = refl; is = refl }

-- One thread reads, another sleeps until it may write.
abbrev contended : Threads
contended = three (lock_of 1 false 1) Phase.reading Phase.waiting_asleep Phase.outside

to_contended : (raises : Bool) → Moves raises start contended
unfolding acquire_read announce_write acquire_write
to_contended raises =
    Moves.next {s₁ = three (lock_of 1 false 1) Phase.reading Phase.waiting Phase.outside}
      (Moves.next {s₁ = three (lock_of 1 false 0) Phase.reading Phase.outside Phase.outside}
        (Moves.next {s₁ = three unlocked Phase.asking Phase.outside Phase.outside}
          (Moves.next Moves.here (Move.asks first-Turn refl)) (Move.starts_reading first-Turn refl))
        (Move.starts_waiting second-Turn refl))
      (Move.sleeps_waiting second-Turn refl refl)

-- A third one sleeps until it may read.
abbrev crowded : Threads
crowded = three (lock_of 1 false 1) Phase.reading Phase.waiting_asleep Phase.asking_asleep

to_crowded : (raises : Bool) → Moves raises start crowded
unfolding acquire_read
to_crowded raises =
    Moves.next {s₁ = three (lock_of 1 false 1) Phase.reading Phase.waiting_asleep Phase.asking}
      (Moves.next (to_contended raises) (Move.asks third-Turn refl))
      (Move.sleeps_asking third-Turn refl refl)

-- The reader is done, and both are awake.
abbrev released : Threads
released = three (lock_of 0 false 1) Phase.outside Phase.waiting Phase.asking

to_released : (raises : Bool) → Moves raises start released
unfolding release_read
to_released raises = Moves.next (to_crowded raises) (
    Move.stops_reading
      (record {
        pre = [];
        post = Phase.waiting_asleep ∷ Phase.asking_asleep ∷ [];
        was = refl;
        is = refl;
      })
      refl)

abbrev written : Threads
written = three (lock_of 0 true 0) Phase.outside Phase.writing Phase.asking

to_written : Moves false start written
unfolding acquire_write
to_written = Moves.next (to_released false) (Move.starts_writing second-Turn refl)

-- An exception in the writer's `wait`: a reader that has gone to sleep behind the writer sleeps on,
-- although nobody holds the lock or waits to write.
left_asleep : Moves true start (three unlocked Phase.outside Phase.outside Phase.asking_asleep)
unfolding acquire_read abandon_write
left_asleep =
    Moves.next {s₁ = three (lock_of 0 false 1) Phase.outside Phase.waiting Phase.asking_asleep}
      (Moves.next (to_released true) (Move.sleeps_asking third-Turn refl refl))
      (Move.gives_up refl second-Turn refl)

lock-exclusion_example :
    (count Phase.writing written.phases ≤ 1)
    × ((count Phase.writing written.phases ≡ 0) ⊎ (count Phase.reading written.phases ≡ 0))
lock-exclusion_example = lock-exclusion false 3 written to_written

writer_first_example : acquire_read contended.lock ≡ none
writer_first_example = writer_first true 3 contended (to_contended true) (omega arith)

sleepers-guarded_example :
    (0 < count Phase.waiting_asleep crowded.phases
      → 0 < count Phase.reading crowded.phases + count Phase.writing crowded.phases)
    × (0 < count Phase.asking_asleep crowded.phases
        → 0
          < count Phase.reading crowded.phases
            + count Phase.writing crowded.phases
            + count Phase.waiting crowded.phases)
sleepers-guarded_example = sleepers-guarded 3 crowded (to_crowded false)
