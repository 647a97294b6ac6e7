-- ===== src/Thread/Tasks.antt =====
-- The threads that use one wait group of thread.c, in any order of their steps.
use libcpr.Base.{
  ℕ, ◌+◌, ◌-◌, ◌^◌, ◌<◌, ◌≡◌, refl, inl, inr, Bool, true, false, arith, ◌==◌, if◌then◌else◌,
  Bool-cases,
}
use libcpr.Thread.{WaitGroup, cpr_waitgroup_init, cpr_waitgroup_add, wait_round, cpr_waitgroup_done}

-- The wait group, the number of tasks not yet done, how many threads are in `cnd_wait`, and how
-- many have been woken and have not yet run again.
pub record World : Type 0 where
  pub wg : WaitGroup
  pub tasks : ℕ
  pub asleep : ℕ
  pub woken : ℕ

-- What `cnd_broadcast` does for the sleeping threads.
pub wake_all : Bool → World → World
wake_all sent w = if sent then record w { asleep = 0; woken = w.asleep + w.woken } else w

-- A thread that waits may also wake for no reason. There are fewer than 2^32 tasks at a time.
pub data Step (w : World) : World → Type 0 where
  add :
      (count : ℕ)
      → w.tasks + count < 2 ^ 32
      → Step w (record w { wg = cpr_waitgroup_add w.wg count; tasks = w.tasks + count })
  done :
      0 < w.tasks
      → Step w (
          wake_all
            (cpr_waitgroup_done w.wg).1
            (record w { wg = (cpr_waitgroup_done w.wg).0; tasks = w.tasks - 1 }))
  sleep : wait_round w.wg ≡ false → Step w (record w { asleep = w.asleep + 1 })
  wake : 0 < w.asleep → Step w (record w { asleep = w.asleep - 1; woken = w.woken + 1 })
  sleep_again :
      0 < w.woken
      → wait_round w.wg ≡ false
      → Step w (record w { asleep = w.asleep + 1; woken = w.woken - 1 })
  leave : 0 < w.woken → wait_round w.wg ≡ true → Step w (record w { woken = w.woken - 1 })

pub data Reach (count : ℕ) : World → Type 0 where
  begin :
      Reach count (record { wg = cpr_waitgroup_init count; tasks = count; asleep = 0; woken = 0 })
  later : {w u : World} → Reach count w → Step w u → Reach count u

-- The count is the number of tasks, a pass of the loop ends it only when no task is left, and no
-- thread sleeps then.
pub record IsCounted (w : World) : Type 0 where
  pub wg_is : w.wg ≡ w.tasks
  pub few : w.tasks < 2 ^ 32
  pub ends_at_zero : wait_round w.wg ≡ true → w.tasks ≡ 0
  pub no_lost_wake : w.tasks ≡ 0 → w.asleep ≡ 0

from_count :
    (w : World) → w.wg ≡ w.tasks → w.tasks < 2 ^ 32 → (w.tasks ≡ 0 → w.asleep ≡ 0) → IsCounted w
unfolding wait_round
from_count w e f s = record {
  wg_is = e;
  few = f;
  ends_at_zero = λ h. ground arith;
  no_lost_wake = s;
}

done-IsCounted :
    (w : World)
    → 0 < w.tasks
    → IsCounted w
    → IsCounted (
        wake_all
          (cpr_waitgroup_done w.wg).1
          (record w { wg = (cpr_waitgroup_done w.wg).0; tasks = w.tasks - 1 }))
unfolding cpr_waitgroup_done wake_all
done-IsCounted w h i =
    let open_group : (w.wg == 0) ≡ false = ground (arith, i.wg_is) in
    rw open_group (elim (Bool-cases (w.wg - 1 == 0)) [
      | inl last ↦
          rw last (from_count _ (omega (arith, i.wg_is)) (omega (arith, i.few)) (λ e. refl))
      | inr more ↦ rw more (
          from_count _ (omega (arith, i.wg_is)) (omega (arith, i.few))
            (λ e. absurd (ground (arith, i.wg_is))))
    ])

Step-IsCounted : {w u : World} → Step w u → IsCounted w → IsCounted u
unfolding cpr_waitgroup_add wait_round
Step-IsCounted {w} (add count f) i =
    from_count _ (omega (arith, i.wg_is)) f (λ e. i.no_lost_wake (omega arith))
Step-IsCounted {w} (done h) i = done-IsCounted w h i
Step-IsCounted {w} (sleep e) i = from_count _ i.wg_is i.few (λ z. absurd (ground (arith, i.wg_is)))
Step-IsCounted {w} (wake h) i = from_count _ i.wg_is i.few (λ z. omega (arith, i.no_lost_wake z))
Step-IsCounted {w} (sleep_again h e) i =
    from_count _ i.wg_is i.few (λ z. absurd (ground (arith, i.wg_is)))
Step-IsCounted {w} (leave h e) i = from_count _ i.wg_is i.few i.no_lost_wake

-- However threads add tasks, finish them and wait, as long as fewer than 2^32 tasks are open at a
-- time and only open tasks are finished: the count of a wait group is the number of open tasks, the
-- loop of `cpr_waitgroup_wait` ends only when none is left, and then no thread is left asleep.
pub Reach-IsCounted : (count : ℕ) {w : World} → count < 2 ^ 32 → Reach count w → IsCounted w
unfolding cpr_waitgroup_init
Reach-IsCounted count small begin = from_count _ refl small (λ e. refl)
Reach-IsCounted count small (later r st) = Step-IsCounted st (Reach-IsCounted count small r)
