-- ===== src/Thread/Wakes.antt =====
-- The shared lock of thread.c with the threads that its condition holds asleep. Readers and writers
-- wait on the one condition, so a signal wakes one of either kind, as the system likes.
use mathlib.Core.Path.{subst}
use libcpr.Base.{ℕ, ◌+◌, ◌-◌, ◌^◌, ◌<◌, ◌≡◌, refl, sym, Bool, true, false, arith, ◌==◌, u32}
use libcpr.Thread.{
  Condlock, enters, sleeps, access_round, access_again, modify_again, Wake, silent, signal,
  broadcast, cpr_condlock_release, cpr_condlock_commit,
}
use libcpr.Thread.Sharing.{access_enters, access_sleeps}

-- The lock, how many threads share it, whether one modifies, and the threads of each kind that are
-- in `cnd_wait`, or have been woken and have not yet run again.
pub record World : Type 0 where
  pub lock : Condlock
  pub sharers : ℕ
  pub modifies : Bool
  pub readers : ℕ
  pub writers : ℕ
  pub woken_readers : ℕ
  pub woken_writers : ℕ

-- What a wake-up may do for the sleeping threads.
pub data Woken (w : World) : Wake → World → Type 0 where
  none_woken : Woken w silent w
  nobody_asleep : w.readers ≡ 0 → w.writers ≡ 0 → Woken w signal w
  reader_woken :
      0 < w.readers
      → Woken w signal (record w { readers = w.readers - 1; woken_readers = w.woken_readers + 1 })
  writer_woken :
      0 < w.writers
      → Woken w signal (record w { writers = w.writers - 1; woken_writers = w.woken_writers + 1 })
  all_woken : Woken w broadcast (record w {
    readers = 0;
    writers = 0;
    woken_readers = w.readers + w.woken_readers;
    woken_writers = w.writers + w.woken_writers;
  })

-- The steps of the threads that are in a call already, and of a reader that begins one. Nobody
-- runs while a thread modifies but that thread, and nobody wakes but by a signal or a broadcast.
pub data Step (w : World) : World → Type 0 where
  reader_comes :
      {lock : Condlock}
      → w.modifies ≡ false
      → access_round w.lock ≡ enters lock
      → Step w (record w { lock = lock; sharers = w.sharers + 1 })
  reader_queues :
      {lock : Condlock}
      → w.modifies ≡ false
      → access_round w.lock ≡ sleeps lock
      → Step w (record w { lock = lock; readers = w.readers + 1 })
  reader_enters :
      {lock : Condlock}
      → w.modifies ≡ false
      → 0 < w.woken_readers
      → access_again w.lock ≡ enters lock
      → Step w
          (record w { lock = lock; sharers = w.sharers + 1; woken_readers = w.woken_readers - 1 })
  reader_sleeps :
      {lock : Condlock}
      → w.modifies ≡ false
      → 0 < w.woken_readers
      → access_again w.lock ≡ sleeps lock
      → Step w
          (record w { lock = lock; readers = w.readers + 1; woken_readers = w.woken_readers - 1 })
  release :
      {u : World}
      → w.modifies ≡ false
      → 0 < w.sharers
      → Woken
          (record w { lock = (cpr_condlock_release w.lock).0; sharers = w.sharers - 1 })
          (cpr_condlock_release w.lock).1
          u
      → Step w u
  writer_enters :
      {lock : Condlock}
      → w.modifies ≡ false
      → 0 < w.woken_writers
      → modify_again w.lock ≡ enters lock
      → Step w (record w { lock = lock; modifies = true; woken_writers = w.woken_writers - 1 })
  writer_sleeps :
      {lock : Condlock}
      → w.modifies ≡ false
      → 0 < w.woken_writers
      → modify_again w.lock ≡ sleeps lock
      → Step w
          (record w { lock = lock; writers = w.writers + 1; woken_writers = w.woken_writers - 1 })
  commit :
      {u : World}
      → w.modifies ≡ true
      → Woken (record w { modifies = false }) (cpr_condlock_commit w.lock) u
      → Step w u

pub data Steps (w : World) : World → Type 0 where
  here : Steps w w
  more : {u v : World} → Steps w u → Step u v → Steps w v

-- The counters are the numbers of threads, of which there are fewer than 2^32.
pub record IsCounted (w : World) : Type 0 where
  pub sharing_is : w.lock.sharing ≡ w.sharers
  pub waiting_is : w.lock.waiting ≡ w.readers + w.woken_readers
  pub pending_is : w.lock.pending ≡ w.writers + w.woken_writers

-- The last sharer is about to release the lock, with readers and writers asleep and none woken.
pub record IsLast (w : World) : Type 0 where
  pub counted : IsCounted w
  pub last : w.sharers ≡ 1
  pub idle : w.modifies ≡ false
  pub reader_waits : 0 < w.readers
  pub writer_waits : 0 < w.writers
  pub none_woken : (w.woken_readers ≡ 0) × (w.woken_writers ≡ 0)
  pub few_readers : w.readers < 2 ^ 32
  pub few_writers : w.writers < 2 ^ 32

-- The lock is free, a writer is asleep, and nobody is awake to go on.
pub record IsStuck (w : World) : Type 0 where
  pub free : (w.sharers ≡ 0) × (w.modifies ≡ false)
  pub writer_waits : (0 < w.writers) × (0 < w.lock.pending)
  pub none_woken : (w.woken_readers ≡ 0) × (w.woken_writers ≡ 0)

Step-IsStuck : {w u : World} → IsStuck w → Step w u → IsStuck u
Step-IsStuck {w} s (reader_comes {lock = after} i e) =
    absurd (omega (arith, s.writer_waits, (access_enters w.lock after e).0))
Step-IsStuck {w} s (reader_queues {lock = after} i e) =
    rw (sym (access_sleeps w.lock after e))
      (record { free = s.free; writer_waits = s.writer_waits; none_woken = s.none_woken })
Step-IsStuck {w} s (reader_enters i h e) = absurd (omega (arith, s.none_woken))
Step-IsStuck {w} s (reader_sleeps i h e) = absurd (omega (arith, s.none_woken))
Step-IsStuck {w} s (release i h e) = absurd (omega (arith, s.free))
Step-IsStuck {w} s (writer_enters i h e) = absurd (omega (arith, s.none_woken))
Step-IsStuck {w} s (writer_sleeps i h e) = absurd (omega (arith, s.none_woken))
Step-IsStuck {w} s (commit i e) = absurd (ground (arith, s.free))

Steps-IsStuck : {w u : World} → IsStuck w → Steps w u → IsStuck u
Steps-IsStuck s here = s
Steps-IsStuck s (more steps step) = Step-IsStuck (Steps-IsStuck s steps) step

-- The release of the last sharer signals, as a writer waits.
last_signals :
    (w : World) → IsLast w → cpr_condlock_release w.lock ≡ (record w.lock { sharing = 0 }, signal)
unfolding cpr_condlock_release
last_signals w l =
    let shared : (w.lock.sharing == 0) ≡ false = ground (arith, l.counted.sharing_is, l.last) in
    let none_left : w.lock.sharing - 1 ≡ 0 = omega (arith, l.counted.sharing_is, l.last) in
    let wanted : (w.lock.pending == 0) ≡ false =
      ground (arith, l.counted.pending_is, l.writer_waits) in
    rw (shared, none_left, wanted) refl

-- A woken reader goes back to sleep, as a writer waits.
reader_back :
    (lock : Condlock)
    → 0 < lock.pending
    → 0 < lock.waiting
    → lock.waiting < 2 ^ 32
    → access_again lock ≡ sleeps lock
unfolding access_again access_round
reader_back lock h k f =
    let held : (lock.pending == 0) ≡ false = ground arith in
    let same : u32 (u32 (lock.waiting + 2 ^ 32 - 1) + 1) ≡ lock.waiting = omega arith in
    rw (held, same) refl

release_to :
    (w u : World) (lock : Condlock) (wake : Wake)
    → w.modifies ≡ false
    → 0 < w.sharers
    → cpr_condlock_release w.lock ≡ (lock, wake)
    → Woken (record w { lock = lock; sharers = w.sharers - 1 }) wake u
    → Step w u
release_to w u lock wake i h e woken =
    release i h
      (subst (λ r. Woken (record w { lock = r.0; sharers = w.sharers - 1 }) r.1 u) (sym e) woken)

-- The worlds after the last release, and after the reader that it has woken has gone back to sleep.
abbrev released : World → World
released w = record w {
  lock = record w.lock { sharing = 0 };
  sharers = w.sharers - 1;
  readers = w.readers - 1;
  woken_readers = w.woken_readers + 1;
}

abbrev stuck : World → World
stuck w = record (released w) {
  readers = w.readers - 1 + 1;
  woken_readers = w.woken_readers + 1 - 1;
}

stuck-IsStuck : (w : World) → IsLast w → IsStuck (stuck w)
stuck-IsStuck w l = record {
  free = (omega (arith, l.last), l.idle);
  writer_waits = (l.writer_waits, omega (arith, l.counted.pending_is, l.writer_waits));
  none_woken = (omega (arith, l.none_woken), l.none_woken.1);
}

-- With readers and writers asleep, the release of the last sharer may leave the lock free for good:
-- the one signal wakes a reader, which goes back to sleep since a writer waits, and then nobody is
-- awake. Whatever these threads and new readers do from then on, the writers
-- stay asleep, unless they wake for no reason.
pub release-IsStuck :
    (w : World)
    → IsLast w
    → (u : World) × Steps w u × IsStuck u × ((v : World) → Steps u v → IsStuck v)
release-IsStuck w l =
    let releases =
      release_to w (released w) (record w.lock { sharing = 0 }) signal l.idle
        (omega (arith, l.last)) (last_signals w l) (reader_woken l.reader_waits) in
    let back =
      reader_back (record w.lock { sharing = 0 })
        (omega (arith, l.counted.pending_is, l.writer_waits))
        (omega (arith, l.counted.waiting_is, l.reader_waits))
        (omega (arith, l.counted.waiting_is, l.none_woken, l.few_readers)) in
    let sleeps_again = reader_sleeps l.idle (omega arith) back in
    let end = stuck-IsStuck w l in
    (stuck w, more (more here releases) sleeps_again, end, λ v. Steps-IsStuck end)
