-- ===== src/Lock.antt =====
-- ryudb/exec/executor.py, `_RWLock`: each part of a method that runs without giving up the condition's
-- mutex is one operation. Where an operation's guard does not let a caller through, the caller sleeps until
-- `notify_all` wakes it.
pub mod Counts
pub mod Exclusion
pub mod Wakeup
use ryu_db.Common.{
  ℕ, zero, suc, ◌+◌, ◌-◌, ◌≡◌, Bool, true, false, ◌||◌, Option, none, some, List, [], ◌∷◌, ◌++◌,
  map, ltb, ◌==◌, if◌then◌else◌,
}

pub record RwLock : Type 0 where
  pub readers : ℕ
  pub writer : Bool
  pub waiting_writers : ℕ

abbrev pub unlocked : RwLock
unlocked = record { readers = 0; writer = false; waiting_writers = 0 }

-- `none`: the caller calls `wait`.
unfoldable pub acquire_read : RwLock → Option RwLock
acquire_read l =
    if l.writer || ltb 0 l.waiting_writers
    then none
    else some (record l { readers = l.readers + 1 })

-- The lock after it, and whether it calls `notify_all`. Only a reader calls it, so the count is not 0
-- before.
unfoldable pub release_read : RwLock → RwLock × Bool
release_read l = (record l { readers = l.readers - 1 }, l.readers - 1 == 0)

-- `acquire_write` up to its loop.
unfoldable pub announce_write : RwLock → RwLock
announce_write l = record l { waiting_writers = l.waiting_writers + 1 }

-- The loop's guard and, past it, the rest of `acquire_write`.
unfoldable pub acquire_write : RwLock → Option RwLock
acquire_write l =
    if l.writer || ltb 0 l.readers
    then none
    else some (record l { waiting_writers = l.waiting_writers - 1; writer = true })

-- An exception in the wait: the `finally` alone.
unfoldable pub abandon_write : RwLock → RwLock
abandon_write l = record l { waiting_writers = l.waiting_writers - 1 }

-- As `release_read`.
unfoldable pub release_write : RwLock → RwLock × Bool
release_write l = (record l { writer = false }, true)

-- What a thread is doing with the lock: `asking` in the loop of `acquire_read`, `waiting` in that of
-- `acquire_write`, and asleep in their calls of `wait`.
pub data Phase : Type 0 where
  outside asking asking_asleep reading waiting waiting_asleep writing : Phase

abbrev pub wake : Phase → Phase
wake Phase.asking_asleep = Phase.asking
wake Phase.waiting_asleep = Phase.waiting
wake p = p

-- All threads after an operation that calls `notify_all`, or does not.
abbrev pub notify : Bool → List Phase → List Phase
notify true phases = map wake phases
notify false phases = phases

pub record Threads : Type 0 where
  pub lock : RwLock
  pub phases : List Phase

-- One thread, between `pre` and `post`, goes from phase `a` to `b`, and all are notified or none is.
pub record Turn (s s' : Threads) (a b : Phase) (notified : Bool) : Type 0 where
  pub pre : List Phase
  pub post : List Phase
  pub was : s.phases ≡ pre ++ a ∷ post
  pub is : s'.phases ≡ notify notified (pre ++ b ∷ post)

-- One thread makes one move. The last three moves are those of an exception in `wait`, and happen only
-- if `raises`.
pub data Move (raises : Bool) (s s' : Threads) : Type 0 where
  asks : Turn s s' Phase.outside Phase.asking false → s'.lock ≡ s.lock → Move raises s s'
  starts_reading :
      Turn s s' Phase.asking Phase.reading false
      → acquire_read s.lock ≡ some s'.lock
      → Move raises s s'
  sleeps_asking :
      Turn s s' Phase.asking Phase.asking_asleep false
      → acquire_read s.lock ≡ none
      → s'.lock ≡ s.lock
      → Move raises s s'
  stops_reading :
      Turn s s' Phase.reading Phase.outside (release_read s.lock).1
      → s'.lock ≡ (release_read s.lock).0
      → Move raises s s'
  starts_waiting :
      Turn s s' Phase.outside Phase.waiting false
      → s'.lock ≡ announce_write s.lock
      → Move raises s s'
  starts_writing :
      Turn s s' Phase.waiting Phase.writing false
      → acquire_write s.lock ≡ some s'.lock
      → Move raises s s'
  sleeps_waiting :
      Turn s s' Phase.waiting Phase.waiting_asleep false
      → acquire_write s.lock ≡ none
      → s'.lock ≡ s.lock
      → Move raises s s'
  stops_writing :
      Turn s s' Phase.writing Phase.outside (release_write s.lock).1
      → s'.lock ≡ (release_write s.lock).0
      → Move raises s s'
  wakes :
      (a : Phase) → raises ≡ true → Turn s s' a (wake a) false → s'.lock ≡ s.lock → Move raises s s'
  stops_asking :
      raises ≡ true
      → Turn s s' Phase.asking Phase.outside false
      → s'.lock ≡ s.lock
      → Move raises s s'
  gives_up :
      raises ≡ true
      → Turn s s' Phase.waiting Phase.outside false
      → s'.lock ≡ abandon_write s.lock
      → Move raises s s'

pub data Moves (raises : Bool) (s : Threads) : Threads → Type 0 where
  here : Moves raises s s
  next : {s₁ s₂ : Threads} → Moves raises s s₁ → Move raises s₁ s₂ → Moves raises s s₂

-- `n` threads that have not used the lock yet.
abbrev pub all_outside : ℕ → List Phase
all_outside zero = []
all_outside (suc n) = Phase.outside ∷ all_outside n
