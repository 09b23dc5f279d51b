-- ===== src/Lock/Counts.antt =====
-- How many threads are in which phase of the lock of ryudb/exec/executor.py, and how a move changes it.
use ryu_db.Common.{ℕ, ◌+◌, ◌≡◌, refl, ap, Bool, true, false, List, [], ◌∷◌, ◌++◌, arith, map}
use ryu_db.Lock.{Phase, wake, Threads, Turn}

abbrev pub weight : Phase → Phase → ℕ
weight Phase.asking Phase.asking = 1
weight Phase.asking_asleep Phase.asking_asleep = 1
weight Phase.reading Phase.reading = 1
weight Phase.waiting Phase.waiting = 1
weight Phase.waiting_asleep Phase.waiting_asleep = 1
weight Phase.writing Phase.writing = 1
weight _ _ = 0

-- How many threads are in a phase other than `outside`.
abbrev pub count : Phase → List Phase → ℕ
count p [] = 0
count p (q ∷ l) = weight p q + count p l

-- The threads in `acquire_write`'s loop, asleep or not.
abbrev pub waiters : List Phase → ℕ
waiters l = count Phase.waiting l + count Phase.waiting_asleep l

count-append :
    (p : Phase) (l : List Phase) (q : Phase) (l' : List Phase)
    → count p (l ++ q ∷ l') ≡ count p l + weight p q + count p l'
count-append p [] q l' = omega arith
count-append p (x ∷ l) q l' = omega (arith, count-append p l q l')

-- What being notified changes: nobody is asleep any more.
pub record IsWoken (l l' : List Phase) : Type 0 where
  pub same_readers : count Phase.reading l' ≡ count Phase.reading l
  pub same_writers : count Phase.writing l' ≡ count Phase.writing l
  pub same_waiters : waiters l' ≡ waiters l
  pub no_asker_asleep : count Phase.asking_asleep l' ≡ 0
  pub no_waiter_asleep : count Phase.waiting_asleep l' ≡ 0

weight-wake : (q : Phase) → IsWoken (q ∷ []) (wake q ∷ [])
weight-wake Phase.outside = record {
  same_readers = refl;
  same_writers = refl;
  same_waiters = refl;
  no_asker_asleep = refl;
  no_waiter_asleep = refl;
}
weight-wake Phase.asking = record {
  same_readers = refl;
  same_writers = refl;
  same_waiters = refl;
  no_asker_asleep = refl;
  no_waiter_asleep = refl;
}
weight-wake Phase.asking_asleep = record {
  same_readers = refl;
  same_writers = refl;
  same_waiters = refl;
  no_asker_asleep = refl;
  no_waiter_asleep = refl;
}
weight-wake Phase.reading = record {
  same_readers = refl;
  same_writers = refl;
  same_waiters = refl;
  no_asker_asleep = refl;
  no_waiter_asleep = refl;
}
weight-wake Phase.waiting = record {
  same_readers = refl;
  same_writers = refl;
  same_waiters = refl;
  no_asker_asleep = refl;
  no_waiter_asleep = refl;
}
weight-wake Phase.waiting_asleep = record {
  same_readers = refl;
  same_writers = refl;
  same_waiters = refl;
  no_asker_asleep = refl;
  no_waiter_asleep = refl;
}
weight-wake Phase.writing = record {
  same_readers = refl;
  same_writers = refl;
  same_waiters = refl;
  no_asker_asleep = refl;
  no_waiter_asleep = refl;
}

pub map-wake : (l : List Phase) → IsWoken l (map wake l)
map-wake [] = record {
  same_readers = refl;
  same_writers = refl;
  same_waiters = refl;
  no_asker_asleep = refl;
  no_waiter_asleep = refl;
}
map-wake (q ∷ l) =
    let h = weight-wake q in
    let r = map-wake l in
    record {
      same_readers = omega (arith, h.same_readers, r.same_readers);
      same_writers = omega (arith, h.same_writers, r.same_writers);
      same_waiters = omega (arith, h.same_waiters, r.same_waiters);
      no_asker_asleep = omega (arith, h.no_asker_asleep, r.no_asker_asleep);
      no_waiter_asleep = omega (arith, h.no_waiter_asleep, r.no_waiter_asleep);
    }

-- The thread that moves is counted in its new phase in place of its old one.
pub recount :
    {s s' : Threads} {a b : Phase}
    → Turn s s' a b false
    → (p : Phase) → count p s'.phases + weight p a ≡ count p s.phases + weight p b
recount {a = a} {b = b} t p = omega (
  arith,
  ap (count p) t.was,
  ap (count p) t.is,
  count-append p t.pre a t.post,
  count-append p t.pre b t.post,
)

-- The same, for the counts that being notified does not change.
pub record IsRecounted (s s' : Threads) (a b : Phase) : Type 0 where
  pub readers_moved :
      count Phase.reading s'.phases + weight Phase.reading a
      ≡ count Phase.reading s.phases + weight Phase.reading b
  pub writers_moved :
      count Phase.writing s'.phases + weight Phase.writing a
      ≡ count Phase.writing s.phases + weight Phase.writing b
  pub waiters_moved : waiters s'.phases + waiters (a ∷ []) ≡ waiters s.phases + waiters (b ∷ [])

pub Turn-IsRecounted :
    {s s' : Threads} {a b : Phase} (notified : Bool) → Turn s s' a b notified → IsRecounted s s' a b
Turn-IsRecounted false t = record {
  readers_moved = recount t Phase.reading;
  writers_moved = recount t Phase.writing;
  waiters_moved = omega (arith, recount t Phase.waiting, recount t Phase.waiting_asleep);
}
Turn-IsRecounted {s} {s'} {a} {b} true t =
    let middle : Threads = record { lock = s.lock; phases = t.pre ++ b ∷ t.post } in
    let turn : Turn s middle a b false = record {
      pre = t.pre;
      post = t.post;
      was = t.was;
      is = refl;
    } in
    let w = map-wake (t.pre ++ b ∷ t.post) in
    record {
      readers_moved =
          omega (arith, recount turn Phase.reading, w.same_readers, ap (count Phase.reading) t.is);
      writers_moved =
          omega (arith, recount turn Phase.writing, w.same_writers, ap (count Phase.writing) t.is);
      waiters_moved = omega (
        arith,
        recount turn Phase.waiting,
        recount turn Phase.waiting_asleep,
        w.same_waiters,
        ap waiters t.is,
      );
    }
