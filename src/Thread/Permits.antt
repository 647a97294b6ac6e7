-- ===== src/Thread/Permits.antt =====
-- The threads that use one semaphore of thread.c, in any order of their steps.
use libcpr.Base.{
  ℕ, ◌+◌, ◌-◌, ◌^◌, ◌≤◌, ◌<◌, ◌≡◌, refl, sym, ap, inl, inr, Bool, true, false, not, arith, ltb, leb,
  ◌==◌, ◌&&◌, if◌then◌else◌, Bool-cases, leb→le, u32,
}
use libcpr.Thread.{
  Semaphore, Round, enters, sleeps, cpr_semaphore_init, acquire_round, acquire_again,
  cpr_semaphore_release,
}

-- The semaphore, how many threads hold it, how many are in `cnd_wait`, and how many have been woken
-- and have not yet run again.
pub record World : Type 0 where
  pub sem : Semaphore
  pub holders : ℕ
  pub asleep : ℕ
  pub woken : ℕ

-- What `cnd_signal` does for the sleeping threads.
pub wake_one : Bool → World → World
wake_one sent w =
    if sent && ltb 0 w.asleep then record w { asleep = w.asleep - 1; woken = w.woken + 1 } else w

-- A thread that waits may also wake for no reason. There are fewer than 2^32 threads.
pub data Step (w : World) : World → Type 0 where
  enter :
      {sem : Semaphore}
      → acquire_round w.sem ≡ enters sem
      → Step w (record w { sem = sem; holders = w.holders + 1 })
  sleep :
      {sem : Semaphore}
      → w.asleep + w.woken + 1 < 2 ^ 32
      → acquire_round w.sem ≡ sleeps sem
      → Step w (record w { sem = sem; asleep = w.asleep + 1 })
  wake : 0 < w.asleep → Step w (wake_one true w)
  enter_again :
      {sem : Semaphore}
      → 0 < w.woken
      → acquire_again w.sem ≡ enters sem
      → Step w (record w { sem = sem; holders = w.holders + 1; woken = w.woken - 1 })
  sleep_again :
      {sem : Semaphore}
      → 0 < w.woken
      → acquire_again w.sem ≡ sleeps sem
      → Step w (record w { sem = sem; asleep = w.asleep + 1; woken = w.woken - 1 })
  release :
      0 < w.holders
      → Step w (
          wake_one
            (cpr_semaphore_release w.sem).1
            (record w { sem = (cpr_semaphore_release w.sem).0; holders = w.holders - 1 }))

pub data Reach (limit : ℕ) : World → Type 0 where
  begin :
      Reach limit (record { sem = cpr_semaphore_init limit; holders = 0; asleep = 0; woken = 0 })
  later : {w u : World} → Reach limit w → Step w u → Reach limit u

-- The counters are the numbers of threads, at most `limit` hold the semaphore, and a thread sleeps
-- only while each permit is held or has a woken thread for it.
pub record IsSafe (limit : ℕ) (w : World) : Type 0 where
  pub limit_kept : w.sem.count ≡ limit
  pub used_is : w.sem.used ≡ w.holders
  pub waits_is : w.sem.waits ≡ w.asleep + w.woken
  pub few : w.asleep + w.woken < 2 ^ 32
  pub within : w.holders ≤ limit
  pub no_lost_wake : 0 < w.asleep → limit ≤ w.holders + w.woken

abbrev after_round : Round Semaphore → Semaphore
after_round (enters sem) = sem
after_round (sleeps sem) = sem

enters_case :
    (sem after : Semaphore)
    → acquire_round sem ≡ enters after
    → (sem.used < sem.count) × (record sem { used = u32 (sem.used + 1) } ≡ after)
unfolding acquire_round
enters_case sem after e = elim (Bool-cases (leb sem.count sem.used)) [
  | inl full ↦ absurd (ground arith)
  | inr free ↦ (ground arith, ap after_round (rw free at e))
]

sleeps_case :
    (sem after : Semaphore)
    → acquire_round sem ≡ sleeps after
    → (sem.count ≤ sem.used) × (record sem { waits = u32 (sem.waits + 1) } ≡ after)
unfolding acquire_round
sleeps_case sem after e = elim (Bool-cases (leb sem.count sem.used)) [
  | inl full ↦ (leb→le _ _ full, ap after_round (rw full at e))
  | inr free ↦ absurd (ground arith)
]

wake_one-IsSafe :
    (limit : ℕ) (w : World) (sent : Bool) → IsSafe limit w → IsSafe limit (wake_one sent w)
unfolding wake_one
wake_one-IsSafe limit w sent i = elim (Bool-cases (sent && ltb 0 w.asleep)) [
  | inl wakes ↦ rw wakes (record {
    limit_kept = i.limit_kept;
    used_is = i.used_is;
    waits_is = ground (arith, i.waits_is);
    few = ground (arith, i.few);
    within = i.within;
    no_lost_wake = λ h. ground (arith, i.no_lost_wake);
  })
  | inr stays ↦ rw stays i
]

-- A release frees a permit, and the signal accounts for it.
release-IsSafe :
    (limit : ℕ) (w : World)
    → 0 < w.holders
    → IsSafe limit w
    → IsSafe limit (
        wake_one
          (cpr_semaphore_release w.sem).1
          (record w { sem = (cpr_semaphore_release w.sem).0; holders = w.holders - 1 }))
unfolding cpr_semaphore_release wake_one
release-IsSafe limit w h i = elim (Bool-cases (ltb 0 w.asleep)) [
  | inl some_sleep ↦
      let waits : (w.sem.waits == 0) ≡ false = ground (arith, i.waits_is) in
      rw (waits, some_sleep)
        (record {
          limit_kept = i.limit_kept;
          used_is = ground (arith, i.used_is);
          waits_is = ground (arith, i.waits_is);
          few = ground (arith, i.few);
          within = ground (arith, i.within);
          no_lost_wake = λ h. ground (arith, i.no_lost_wake);
        })
  | inr none_sleep ↦
      let idle : (not (w.sem.waits == 0) && ltb 0 w.asleep) ≡ false = ground arith in
      rw idle (record {
        limit_kept = i.limit_kept;
        used_is = ground (arith, i.used_is);
        waits_is = i.waits_is;
        few = i.few;
        within = ground (arith, i.within);
        no_lost_wake = λ h. absurd (ground arith);
      })
]

Step-IsSafe :
    (limit : ℕ) {w u : World} → limit < 2 ^ 32 → Step w u → IsSafe limit w → IsSafe limit u
unfolding acquire_round acquire_again
Step-IsSafe limit {w} small (enter {sem = after} e) i =
    let (free, same) = enters_case w.sem after e in
    rw (sym same) (record {
      limit_kept = i.limit_kept;
      used_is = omega (arith, i.used_is, i.limit_kept);
      waits_is = i.waits_is;
      few = i.few;
      within = omega (arith, i.used_is, i.limit_kept);
      no_lost_wake = λ h. omega (arith, i.no_lost_wake h);
    })
Step-IsSafe limit {w} small (sleep {sem = after} f e) i =
    let (full, same) = sleeps_case w.sem after e in
    rw (sym same) (record {
      limit_kept = i.limit_kept;
      used_is = i.used_is;
      waits_is = omega (arith, i.waits_is);
      few = omega arith;
      within = i.within;
      no_lost_wake = λ h. omega (arith, i.used_is, i.limit_kept);
    })
Step-IsSafe limit {w} small (wake h) i = wake_one-IsSafe limit w true i
Step-IsSafe limit {w} small (enter_again {sem = after} h e) i =
    let (free, same) =
      enters_case (record w.sem { waits = u32 (w.sem.waits + 2 ^ 32 - 1) }) after e in
    rw (sym same) (record {
      limit_kept = i.limit_kept;
      used_is = omega (arith, i.used_is, i.limit_kept);
      waits_is = omega (arith, i.waits_is, i.few);
      few = omega (arith, i.few);
      within = omega (arith, i.used_is, i.limit_kept);
      no_lost_wake = λ h. omega (arith, i.no_lost_wake h);
    })
Step-IsSafe limit {w} small (sleep_again {sem = after} h e) i =
    let (full, same) =
      sleeps_case (record w.sem { waits = u32 (w.sem.waits + 2 ^ 32 - 1) }) after e in
    rw (sym same) (record {
      limit_kept = i.limit_kept;
      used_is = i.used_is;
      waits_is = omega (arith, i.waits_is, i.few);
      few = omega (arith, i.few);
      within = i.within;
      no_lost_wake = λ h. omega (arith, i.used_is, i.limit_kept);
    })
Step-IsSafe limit {w} small (release h) i = release-IsSafe limit w h i

-- At most `limit` threads ever hold a semaphore made with `limit` permits, fewer than 2^32, however
-- the threads that use it take turns, as long as fewer than 2^32 of them wait at a time, and its
-- counters are the numbers of holders and of waiting threads. No wake-up is lost: while a thread
-- sleeps, each permit is held or there is a woken thread for it.
pub Reach-IsSafe : (limit : ℕ) {w : World} → limit < 2 ^ 32 → Reach limit w → IsSafe limit w
unfolding cpr_semaphore_init
Reach-IsSafe limit small begin = record {
  limit_kept = refl;
  used_is = refl;
  waits_is = refl;
  few = omega arith;
  within = omega arith;
  no_lost_wake = λ h. absurd (omega arith);
}
Reach-IsSafe limit small (later r st) = Step-IsSafe limit small st (Reach-IsSafe limit small r)
