-- ===== src/Lock/Exclusion.antt =====
-- The lock of ryudb/exec/executor.py under any number of threads: mutual exclusion, and writers first.
use ryu_db.Common.{
  ℕ, zero, suc, ◌+◌, ◌-◌, ◌≤◌, ◌<◌, ◌≡◌, refl, sym, ap, ◌∙◌, ◌⊎◌, inl, inr, Bool, true, false, none,
  some, [], ◌∷◌, arith, Bool-cases,
}
use ryu_db.Lock.{
  RwLock, unlocked, acquire_read, release_read, announce_write, acquire_write, abandon_write,
  release_write, Phase, wake, Threads, Move, Moves, all_outside,
}
use ryu_db.Lock.Counts.{weight, count, waiters, IsRecounted, Turn-IsRecounted}

abbrev pub flag : Bool → ℕ
flag true = 1
flag false = 0

-- The counters of the lock are the numbers of threads, and a writer is alone.
pub record IsExclusive (s : Threads) : Type 0 where
  pub readers_counted : s.lock.readers ≡ count Phase.reading s.phases
  pub waiting_counted : s.lock.waiting_writers ≡ waiters s.phases
  pub writer_counted : flag s.lock.writer ≡ count Phase.writing s.phases
  pub alone : s.lock.writer ≡ true → s.lock.readers ≡ 0

pub acquire_read-inv :
    (l l' : RwLock)
    → acquire_read l ≡ some l'
    → (l.writer ≡ false) × (l.waiting_writers ≡ 0) × (l' ≡ record l { readers = l.readers + 1 })
unfolding acquire_read
acquire_read-inv l l' eq = ground arith

pub acquire_write-inv :
    (l l' : RwLock)
    → acquire_write l ≡ some l'
    → (l.writer ≡ false)
      × (l.readers ≡ 0)
      × (l' ≡ record l { waiting_writers = l.waiting_writers - 1; writer = true })
unfolding acquire_write
acquire_write-inv l l' eq = ground arith

flag_le : (b : Bool) → flag b ≤ 1
flag_le true = omega arith
flag_le false = omega arith

module _ {s s' : Threads} {a b : Phase} (n : IsRecounted s s' a b) (h : IsExclusive s) where
  -- A move that changes the counters as it changes the threads.
  counted :
      s'.lock.readers + weight Phase.reading a ≡ s.lock.readers + weight Phase.reading b
      → s'.lock.waiting_writers + waiters (a ∷ []) ≡ s.lock.waiting_writers + waiters (b ∷ [])
      → flag s'.lock.writer + weight Phase.writing a ≡ flag s.lock.writer + weight Phase.writing b
      → (s'.lock.writer ≡ true → s'.lock.readers ≡ 0)
      → IsExclusive s'
  counted rs ws w alone = record {
    readers_counted = omega (arith, h.readers_counted, n.readers_moved, rs);
    waiting_counted = omega (arith, h.waiting_counted, n.waiters_moved, ws);
    writer_counted = omega (arith, h.writer_counted, n.writers_moved, w);
    alone = alone;
  }

  -- A move that leaves the lock as it is.
  same_lock :
      s'.lock ≡ s.lock
      → weight Phase.reading a ≡ weight Phase.reading b
      → waiters (a ∷ []) ≡ waiters (b ∷ [])
      → weight Phase.writing a ≡ weight Phase.writing b
      → IsExclusive s'
  same_lock eq rs ws w =
      counted (omega (arith, ap (λ l. l.readers) eq, rs))
        (omega (arith, ap (λ l. l.waiting_writers) eq, ws))
        (omega (arith, ap (λ l. flag l.writer) eq, w))
        (λ busy. ap (λ l. l.readers) eq ∙ h.alone (sym (ap (λ l. l.writer) eq) ∙ busy))

wake-same :
    (a : Phase)
    → (weight Phase.reading a ≡ weight Phase.reading (wake a))
      × (waiters (a ∷ []) ≡ waiters (wake a ∷ []))
      × (weight Phase.writing a ≡ weight Phase.writing (wake a))
wake-same Phase.outside = (refl, refl, refl)
wake-same Phase.asking = (refl, refl, refl)
wake-same Phase.asking_asleep = (refl, refl, refl)
wake-same Phase.reading = (refl, refl, refl)
wake-same Phase.waiting = (refl, refl, refl)
wake-same Phase.waiting_asleep = (refl, refl, refl)
wake-same Phase.writing = (refl, refl, refl)

pub IsExclusive-Move :
    {raises : Bool} {s s' : Threads} → Move raises s s' → IsExclusive s → IsExclusive s'
unfolding release_read announce_write abandon_write release_write
IsExclusive-Move (Move.asks t eq) h = same_lock (Turn-IsRecounted false t) h eq refl refl refl
IsExclusive-Move (Move.sleeps_asking t full eq) h =
    same_lock (Turn-IsRecounted false t) h eq refl refl refl
IsExclusive-Move (Move.sleeps_waiting t full eq) h =
    same_lock (Turn-IsRecounted false t) h eq refl refl refl
IsExclusive-Move (Move.stops_asking r t eq) h =
    same_lock (Turn-IsRecounted false t) h eq refl refl refl
IsExclusive-Move (Move.wakes a r t eq) h =
    let (rs, ws, w) = wake-same a in same_lock (Turn-IsRecounted false t) h eq rs ws w
IsExclusive-Move {s = s} {s' = s'} (Move.starts_reading t eq) h =
    let (idle, none_waits, new) = acquire_read-inv s.lock s'.lock eq in
    counted (Turn-IsRecounted false t) h (omega (arith, ap (λ l. l.readers) new))
      (omega (arith, ap (λ l. l.waiting_writers) new)) (omega (arith, ap (λ l. flag l.writer) new))
      (λ busy. ground (arith, idle, ap (λ l. l.writer) new))
IsExclusive-Move {s = s} {s' = s'} (Move.stops_reading t new) h =
    let n = Turn-IsRecounted (release_read s.lock).1 t in
    counted n h (omega (arith, ap (λ l. l.readers) new, n.readers_moved, h.readers_counted))
      (omega (arith, ap (λ l. l.waiting_writers) new)) (omega (arith, ap (λ l. flag l.writer) new))
      (λ busy.
        omega (arith, ap (λ l. l.readers) new, h.alone (sym (ap (λ l. l.writer) new) ∙ busy)))
IsExclusive-Move {s = s} {s' = s'} (Move.starts_waiting t new) h =
    counted (Turn-IsRecounted false t) h (omega (arith, ap (λ l. l.readers) new))
      (omega (arith, ap (λ l. l.waiting_writers) new)) (omega (arith, ap (λ l. flag l.writer) new))
      (λ busy.
        omega (arith, ap (λ l. l.readers) new, h.alone (sym (ap (λ l. l.writer) new) ∙ busy)))
IsExclusive-Move {s = s} {s' = s'} (Move.starts_writing t eq) h =
    let (idle, none_reads, new) = acquire_write-inv s.lock s'.lock eq in
    let n = Turn-IsRecounted false t in
    counted n h (omega (arith, ap (λ l. l.readers) new))
      (omega (arith, ap (λ l. l.waiting_writers) new, n.waiters_moved, h.waiting_counted))
      (omega (arith, ap flag idle, ap (λ l. flag l.writer) new))
      (λ busy. omega (arith, none_reads, ap (λ l. l.readers) new))
IsExclusive-Move {s = s} {s' = s'} (Move.gives_up r t new) h =
    let n = Turn-IsRecounted false t in
    counted n h (omega (arith, ap (λ l. l.readers) new))
      (omega (arith, ap (λ l. l.waiting_writers) new, n.waiters_moved, h.waiting_counted))
      (omega (arith, ap (λ l. flag l.writer) new))
      (λ busy.
        omega (arith, ap (λ l. l.readers) new, h.alone (sym (ap (λ l. l.writer) new) ∙ busy)))
IsExclusive-Move {s = s} {s' = s'} (Move.stops_writing t new) h =
    let n = Turn-IsRecounted (release_write s.lock).1 t in
    counted n h (omega (arith, ap (λ l. l.readers) new))
      (omega (arith, ap (λ l. l.waiting_writers) new))
      (omega (
        arith,
        n.writers_moved,
        h.writer_counted,
        flag_le s.lock.writer,
        ap (λ l. flag l.writer) new,
      ))
      (λ busy. ground (arith, ap (λ l. l.writer) new))

pub outside-none : (n : ℕ) (p : Phase) → count p (all_outside n) ≡ 0
outside-none zero p = refl
outside-none (suc n) p = omega (arith, not_counted p, outside-none n p)
  where
    not_counted : (p : Phase) → weight p Phase.outside ≡ 0
    not_counted Phase.outside = refl
    not_counted Phase.asking = refl
    not_counted Phase.asking_asleep = refl
    not_counted Phase.reading = refl
    not_counted Phase.waiting = refl
    not_counted Phase.waiting_asleep = refl
    not_counted Phase.writing = refl

pub outside-IsExclusive : (n : ℕ) → IsExclusive (record { lock = unlocked; phases = all_outside n })
outside-IsExclusive n = record {
  readers_counted = sym (outside-none n Phase.reading);
  waiting_counted =
      omega (arith, outside-none n Phase.waiting, outside-none n Phase.waiting_asleep);
  writer_counted = sym (outside-none n Phase.writing);
  alone = λ busy. refl;
}

pub IsExclusive-Moves :
    {raises : Bool} {s s' : Threads} → IsExclusive s → Moves raises s s' → IsExclusive s'
IsExclusive-Moves h Moves.here = h
IsExclusive-Moves h (Moves.next ms m) = IsExclusive-Move m (IsExclusive-Moves h ms)

module _ (raises : Bool) (n : ℕ) (s : Threads)
    (run : Moves raises (record { lock = unlocked; phases = all_outside n }) s) where
  reached : IsExclusive s
  reached = IsExclusive-Moves (outside-IsExclusive n) run

  -- However many threads use the lock, and in whatever order they move: at most one writes, and no
  -- thread writes or no thread reads.
  pub lock-exclusion :
      (count Phase.writing s.phases ≤ 1)
      × ((count Phase.writing s.phases ≡ 0) ⊎ (count Phase.reading s.phases ≡ 0))
  lock-exclusion = (
    omega (arith, reached.writer_counted, flag_le s.lock.writer),
    elim (Bool-cases s.lock.writer) [
      | inl busy ↦ inr (sym reached.readers_counted ∙ reached.alone busy)
      | inr idle ↦ inl (sym reached.writer_counted ∙ ap flag idle)
    ],
  )

  -- While a thread waits to write, awake or asleep, no thread starts to read.
  pub writer_first : 0 < waiters s.phases → acquire_read s.lock ≡ none
  unfolding acquire_read
  writer_first some_waits = ground (arith, reached.waiting_counted, some_waits)
