-- ===== src/Thread/Sharing.antt =====
-- The threads that use one shared lock of thread.c, in any order of their steps: any number may
-- share it, or one may modify, which it does with the mutex in its hands.
use libcpr.Base.{
  ℕ, ◌+◌, ◌-◌, ◌^◌, ◌<◌, ◌≡◌, refl, sym, ap, inl, inr, Bool, true, false, arith, ◌==◌, Bool-cases,
  u32,
}
use libcpr.Thread.{
  Condlock, Round, enters, sleeps, cor_condlock_init, access_round, access_again, modify_round,
  modify_again, cpr_condlock_release,
}

-- The lock, how many threads share it, whether a thread modifies, and how many wait to share and to
-- modify, asleep or woken.
pub record World : Type 0 where
  pub lock : Condlock
  pub sharers : ℕ
  pub modifies : Bool
  pub readers : ℕ
  pub writers : ℕ

-- While a thread modifies it has the mutex, and only its commit can run.
pub data Step (w : World) : World → Type 0 where
  access :
      {lock : Condlock}
      → w.modifies ≡ false
      → w.sharers + 1 < 2 ^ 32
      → access_round w.lock ≡ enters lock
      → Step w (record w { lock = lock; sharers = w.sharers + 1 })
  access_sleep :
      {lock : Condlock}
      → w.modifies ≡ false
      → w.readers + 1 < 2 ^ 32
      → access_round w.lock ≡ sleeps lock
      → Step w (record w { lock = lock; readers = w.readers + 1 })
  access_wake :
      {lock : Condlock}
      → w.modifies ≡ false
      → w.sharers + 1 < 2 ^ 32
      → 0 < w.readers
      → access_again w.lock ≡ enters lock
      → Step w (record w { lock = lock; sharers = w.sharers + 1; readers = w.readers - 1 })
  access_sleep_again :
      {lock : Condlock}
      → w.modifies ≡ false
      → 0 < w.readers
      → access_again w.lock ≡ sleeps lock
      → Step w (record w { lock = lock })
  release :
      w.modifies ≡ false
      → 0 < w.sharers
      → Step w (record w { lock = (cpr_condlock_release w.lock).0; sharers = w.sharers - 1 })
  modify :
      {lock : Condlock}
      → w.modifies ≡ false
      → modify_round w.lock ≡ enters lock
      → Step w (record w { lock = lock; modifies = true })
  modify_sleep :
      {lock : Condlock}
      → w.modifies ≡ false
      → w.writers + 1 < 2 ^ 32
      → modify_round w.lock ≡ sleeps lock
      → Step w (record w { lock = lock; writers = w.writers + 1 })
  modify_wake :
      {lock : Condlock}
      → w.modifies ≡ false
      → 0 < w.writers
      → modify_again w.lock ≡ enters lock
      → Step w (record w { lock = lock; modifies = true; writers = w.writers - 1 })
  modify_sleep_again :
      {lock : Condlock}
      → w.modifies ≡ false
      → 0 < w.writers
      → modify_again w.lock ≡ sleeps lock
      → Step w (record w { lock = lock })
  commit : w.modifies ≡ true → Step w (record w { modifies = false })

pub data Reach : World → Type 0 where
  begin :
      Reach (record {
        lock = cor_condlock_init;
        sharers = 0;
        modifies = false;
        readers = 0;
        writers = 0;
      })
  later : {w u : World} → Reach w → Step w u → Reach u

-- The counters are the numbers of threads, and no thread shares while one modifies.
pub record IsExclusive (w : World) : Type 0 where
  pub sharing_is : w.lock.sharing ≡ w.sharers
  pub waiting_is : w.lock.waiting ≡ w.readers
  pub pending_is : w.lock.pending ≡ w.writers
  pub few_sharers : w.sharers < 2 ^ 32
  pub few_readers : w.readers < 2 ^ 32
  pub few_writers : w.writers < 2 ^ 32
  pub apart : w.modifies ≡ true → w.sharers ≡ 0

abbrev after_round : Round Condlock → Condlock
after_round (enters lock) = lock
after_round (sleeps lock) = lock

pub access_enters :
    (lock after : Condlock)
    → access_round lock ≡ enters after
    → (lock.pending ≡ 0) × (record lock { sharing = u32 (lock.sharing + 1) } ≡ after)
unfolding access_round
access_enters lock after e = elim (Bool-cases (lock.pending == 0)) [
  | inl free ↦ (ground arith, ap after_round (rw free at e))
  | inr held ↦ absurd (ground arith)
]

pub access_sleeps :
    (lock after : Condlock)
    → access_round lock ≡ sleeps after
    → record lock { waiting = u32 (lock.waiting + 1) } ≡ after
unfolding access_round
access_sleeps lock after e = elim (Bool-cases (lock.pending == 0)) [
  | inl free ↦ absurd (ground arith)
  | inr held ↦ ap after_round (rw held at e)
]

modify_enters :
    (lock after : Condlock) → modify_round lock ≡ enters after → (lock.sharing ≡ 0) × (lock ≡ after)
unfolding modify_round
modify_enters lock after e = elim (Bool-cases (lock.sharing == 0)) [
  | inl free ↦ (ground arith, ap after_round (rw free at e))
  | inr held ↦ absurd (ground arith)
]

modify_sleeps :
    (lock after : Condlock)
    → modify_round lock ≡ sleeps after
    → record lock { pending = u32 (lock.pending + 1) } ≡ after
unfolding modify_round
modify_sleeps lock after e = elim (Bool-cases (lock.sharing == 0)) [
  | inl free ↦ absurd (ground arith)
  | inr held ↦ ap after_round (rw held at e)
]

release_lem :
    (lock : Condlock)
    → 0 < lock.sharing
    → (cpr_condlock_release lock).0 ≡ record lock { sharing = lock.sharing - 1 }
unfolding cpr_condlock_release
release_lem lock h = let held : (lock.sharing == 0) ≡ false = ground arith in rw held refl

-- The lock without one of its waiting readers, and without one of its waiting writers.
abbrev without_reader : Condlock → Condlock
without_reader lock = record lock { waiting = u32 (lock.waiting + 2 ^ 32 - 1) }

abbrev without_writer : Condlock → Condlock
without_writer lock = record lock { pending = u32 (lock.pending + 2 ^ 32 - 1) }

Step-IsExclusive : {w u : World} → Step w u → IsExclusive w → IsExclusive u
unfolding access_again modify_again
Step-IsExclusive {w} (access {lock = after} m f e) i =
    rw (sym (access_enters w.lock after e).1) (record {
      sharing_is = omega (arith, i.sharing_is);
      waiting_is = i.waiting_is;
      pending_is = i.pending_is;
      few_sharers = f;
      few_readers = i.few_readers;
      few_writers = i.few_writers;
      apart = λ t. absurd (ground arith);
    })
Step-IsExclusive {w} (access_sleep {lock = after} m f e) i =
    rw (sym (access_sleeps w.lock after e)) (record {
      sharing_is = i.sharing_is;
      waiting_is = omega (arith, i.waiting_is);
      pending_is = i.pending_is;
      few_sharers = i.few_sharers;
      few_readers = f;
      few_writers = i.few_writers;
      apart = i.apart;
    })
Step-IsExclusive {w} (access_wake {lock = after} m f h e) i =
    rw (sym (access_enters (without_reader w.lock) after e).1) (record {
      sharing_is = omega (arith, i.sharing_is);
      waiting_is = omega (arith, i.waiting_is, i.few_readers);
      pending_is = i.pending_is;
      few_sharers = f;
      few_readers = omega (arith, i.few_readers);
      few_writers = i.few_writers;
      apart = λ t. absurd (ground arith);
    })
Step-IsExclusive {w} (access_sleep_again {lock = after} m h e) i =
    rw (sym (access_sleeps (without_reader w.lock) after e)) (record {
      sharing_is = i.sharing_is;
      waiting_is = omega (arith, i.waiting_is, i.few_readers);
      pending_is = i.pending_is;
      few_sharers = i.few_sharers;
      few_readers = i.few_readers;
      few_writers = i.few_writers;
      apart = i.apart;
    })
Step-IsExclusive {w} (release m h) i =
    rw (release_lem w.lock (omega (arith, i.sharing_is))) (record {
      sharing_is = omega (arith, i.sharing_is);
      waiting_is = i.waiting_is;
      pending_is = i.pending_is;
      few_sharers = omega (arith, i.few_sharers);
      few_readers = i.few_readers;
      few_writers = i.few_writers;
      apart = λ t. absurd (ground arith);
    })
Step-IsExclusive {w} (modify {lock = after} m e) i =
    let (unshared, same) = modify_enters w.lock after e in
    rw (sym same) (record {
      sharing_is = i.sharing_is;
      waiting_is = i.waiting_is;
      pending_is = i.pending_is;
      few_sharers = i.few_sharers;
      few_readers = i.few_readers;
      few_writers = i.few_writers;
      apart = λ t. omega (arith, i.sharing_is);
    })
Step-IsExclusive {w} (modify_sleep {lock = after} m f e) i =
    rw (sym (modify_sleeps w.lock after e)) (record {
      sharing_is = i.sharing_is;
      waiting_is = i.waiting_is;
      pending_is = omega (arith, i.pending_is);
      few_sharers = i.few_sharers;
      few_readers = i.few_readers;
      few_writers = f;
      apart = i.apart;
    })
Step-IsExclusive {w} (modify_wake {lock = after} m h e) i =
    let (unshared, same) = modify_enters (without_writer w.lock) after e in
    rw (sym same) (record {
      sharing_is = i.sharing_is;
      waiting_is = i.waiting_is;
      pending_is = omega (arith, i.pending_is, i.few_writers);
      few_sharers = i.few_sharers;
      few_readers = i.few_readers;
      few_writers = omega (arith, i.few_writers);
      apart = λ t. omega (arith, i.sharing_is);
    })
Step-IsExclusive {w} (modify_sleep_again {lock = after} m h e) i =
    rw (sym (modify_sleeps (without_writer w.lock) after e)) (record {
      sharing_is = i.sharing_is;
      waiting_is = i.waiting_is;
      pending_is = omega (arith, i.pending_is, i.few_writers);
      few_sharers = i.few_sharers;
      few_readers = i.few_readers;
      few_writers = i.few_writers;
      apart = i.apart;
    })
Step-IsExclusive {w} (commit m) i = record {
  sharing_is = i.sharing_is;
  waiting_is = i.waiting_is;
  pending_is = i.pending_is;
  few_sharers = i.few_sharers;
  few_readers = i.few_readers;
  few_writers = i.few_writers;
  apart = λ t. i.apart m;
}

-- However fewer than 2^32 threads of each kind take turns with a shared lock, its counters are the
-- numbers of threads that share it, wait to share and wait to modify, and none shares it while one
-- modifies.
pub Reach-IsExclusive : {w : World} → Reach w → IsExclusive w
unfolding cor_condlock_init
Reach-IsExclusive begin = record {
  sharing_is = refl;
  waiting_is = refl;
  pending_is = refl;
  few_sharers = omega arith;
  few_readers = omega arith;
  few_writers = omega arith;
  apart = λ t. refl;
}
Reach-IsExclusive (later r st) = Step-IsExclusive st (Reach-IsExclusive r)
