-- ===== src/Lock/Wakeup.antt =====
-- Who sleeps in the lock of ryudb/exec/executor.py, and who will wake them.
use ryu_db.Common.{
  ℕ, ◌+◌, ◌≤◌, ◌<◌, ◌≡◌, refl, ap, ◌∙◌, ◌⊎◌, inl, inr, Bool, true, false, none, arith, [], ◌∷◌,
  ◌++◌,
}
use ryu_db.Lock.{
  RwLock, unlocked, acquire_read, release_read, acquire_write, release_write, Phase, Threads, Turn,
  Move, Moves, all_outside,
}
use ryu_db.Lock.Counts.{weight, count, waiters, recount, map-wake}
use ryu_db.Lock.Exclusion.{flag, IsExclusive, IsExclusive-Moves, outside-none, outside-IsExclusive}

-- Whoever sleeps does so behind somebody.
record IsGuarded (s : Threads) : Type 0 where
  behind_users :
      (count Phase.waiting_asleep s.phases ≡ 0)
      ⊎ (0 < count Phase.reading s.phases + count Phase.writing s.phases)
  behind_writers :
      (count Phase.asking_asleep s.phases ≡ 0)
      ⊎ (0 < count Phase.writing s.phases + waiters s.phases)

acquire_read-none : (l : RwLock) → acquire_read l ≡ none → 0 < flag l.writer + l.waiting_writers
unfolding acquire_read
acquire_read-none l eq = ground arith

acquire_write-none : (l : RwLock) → acquire_write l ≡ none → 0 < flag l.writer + l.readers
unfolding acquire_write
acquire_write-none l eq = ground arith

unnotified : (l : RwLock) → (release_read l).1 ≡ false → 1 < l.readers
unfolding release_read
unnotified l eq = ground arith

-- After `notify_all` nobody is asleep.
woken-IsGuarded : {s s' : Threads} {a b : Phase} → Turn s s' a b true → IsGuarded s'
woken-IsGuarded {s} {s'} {a} {b} t =
    let w = map-wake (t.pre ++ b ∷ t.post) in
    record {
      behind_users = inl (ap (count Phase.waiting_asleep) t.is ∙ w.no_waiter_asleep);
      behind_writers = inl (ap (count Phase.asking_asleep) t.is ∙ w.no_asker_asleep);
    }

module _ {s s' : Threads} {a b : Phase} (t : Turn s s' a b false) (g : IsGuarded s) where
  -- The thread that moves does not leave the sleepers behind.
  users_stay :
      weight Phase.waiting_asleep b ≤ weight Phase.waiting_asleep a
      → weight Phase.reading a + weight Phase.writing a
        ≤ weight Phase.reading b + weight Phase.writing b
      → (count Phase.waiting_asleep s'.phases ≡ 0)
        ⊎ (0 < count Phase.reading s'.phases + count Phase.writing s'.phases)
  users_stay asleep users = ground (
    arith,
    recount t Phase.waiting_asleep,
    recount t Phase.reading,
    recount t Phase.writing,
    g.behind_users,
    asleep,
    users,
  )

  writers_stay :
      weight Phase.asking_asleep b ≤ weight Phase.asking_asleep a
      → weight Phase.writing a + waiters (a ∷ []) ≤ weight Phase.writing b + waiters (b ∷ [])
      → (count Phase.asking_asleep s'.phases ≡ 0)
        ⊎ (0 < count Phase.writing s'.phases + waiters s'.phases)
  writers_stay asleep writers = ground (
    arith,
    recount t Phase.asking_asleep,
    recount t Phase.writing,
    recount t Phase.waiting,
    recount t Phase.waiting_asleep,
    g.behind_writers,
    asleep,
    writers,
  )

IsGuarded-Move : {s s' : Threads} → Move false s s' → IsExclusive s → IsGuarded s → IsGuarded s'
unfolding release_write
IsGuarded-Move (Move.asks t eq) h g = record {
  behind_users = users_stay t g (omega arith) (omega arith);
  behind_writers = writers_stay t g (omega arith) (omega arith);
}
IsGuarded-Move (Move.starts_reading t eq) h g = record {
  behind_users = users_stay t g (omega arith) (omega arith);
  behind_writers = writers_stay t g (omega arith) (omega arith);
}
IsGuarded-Move (Move.starts_waiting t eq) h g = record {
  behind_users = users_stay t g (omega arith) (omega arith);
  behind_writers = writers_stay t g (omega arith) (omega arith);
}
IsGuarded-Move (Move.starts_writing t eq) h g = record {
  behind_users = users_stay t g (omega arith) (omega arith);
  behind_writers = writers_stay t g (omega arith) (omega arith);
}
IsGuarded-Move {s = s} (Move.sleeps_asking t full eq) h g = record {
  behind_users = users_stay t g (omega arith) (omega arith);
  behind_writers = inr (
      omega (
        arith,
        acquire_read-none s.lock full,
        h.writer_counted,
        h.waiting_counted,
        recount t Phase.writing,
        recount t Phase.waiting,
        recount t Phase.waiting_asleep,
      ));
}
IsGuarded-Move {s = s} (Move.sleeps_waiting t full eq) h g = record {
  behind_users = inr (
      omega (
        arith,
        acquire_write-none s.lock full,
        h.writer_counted,
        h.readers_counted,
        recount t Phase.writing,
        recount t Phase.reading,
      ));
  behind_writers = writers_stay t g (omega arith) (omega arith);
}
IsGuarded-Move (Move.stops_writing t new) h g = woken-IsGuarded t
IsGuarded-Move {s} {s'} (Move.stops_reading t new) h g = go (release_read s.lock).1 refl t
  where
    go :
        (b : Bool)
        → (release_read s.lock).1 ≡ b
        → Turn s s' Phase.reading Phase.outside b
        → IsGuarded s'
    go true eq t = woken-IsGuarded t
    go false eq t = record {
      behind_users =
          inr (omega (arith, unnotified s.lock eq, h.readers_counted, recount t Phase.reading));
      behind_writers = writers_stay t g (omega arith) (omega arith);
    }
IsGuarded-Move (Move.wakes a raised t eq) h g = absurd (ground arith)
IsGuarded-Move (Move.stops_asking raised t eq) h g = absurd (ground arith)
IsGuarded-Move (Move.gives_up raised t eq) h g = absurd (ground arith)

IsGuarded-Moves : {s s' : Threads} → IsExclusive s → IsGuarded s → Moves false s s' → IsGuarded s'
IsGuarded-Moves h g Moves.here = g
IsGuarded-Moves h g (Moves.next ms m) =
    IsGuarded-Move m (IsExclusive-Moves h ms) (IsGuarded-Moves h g ms)

-- No wake-up is lost: as long as no call of `wait` raises, a thread that sleeps in `acquire_write` does
-- so while some thread reads or writes, and a thread that sleeps in `acquire_read` does so while some
-- thread reads, writes or is awake in `acquire_write`.
pub sleepers-guarded :
    (n : ℕ) (s : Threads)
    → Moves false (record { lock = unlocked; phases = all_outside n }) s
    → (0 < count Phase.waiting_asleep s.phases
        → 0 < count Phase.reading s.phases + count Phase.writing s.phases)
      × (0 < count Phase.asking_asleep s.phases
          → 0
            < count Phase.reading s.phases
              + count Phase.writing s.phases
              + count Phase.waiting s.phases)
sleepers-guarded n s run =
    let g =
      IsGuarded-Moves (outside-IsExclusive n)
        (record {
          behind_users = inl (outside-none n Phase.waiting_asleep);
          behind_writers = inl (outside-none n Phase.asking_asleep);
        })
        run in
    (
      λ asleep. ground (arith, asleep, g.behind_users),
      λ asleep. ground (arith, asleep, g.behind_users, g.behind_writers),
    )
