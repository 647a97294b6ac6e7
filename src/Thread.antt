-- ===== src/Thread.antt =====
-- src/thread.c and the types of src/thread.h: semaphore, wait group and shared lock. A function is
-- cut where it waits: what runs under the mutex up to a wait, a return or the next pass is one step.
-- The mutex and the condition are not in the state; whether a step signals is in its result.
-- Counters have 32 bits. A NULL argument returns at once in all of them, and is left out.
mod Permits
mod Tasks
mod Sharing
mod Wakes
mod Shims
mod Tests
use libcpr.Base.{ℕ, ◌+◌, ◌-◌, ◌^◌, Bool, true, false, not, ◌&&◌, u32, ltb, leb, ◌==◌, if◌then◌else◌}

-- How a pass of a loop with a wait ends: behind the loop, or in `cnd_wait`.
pub data Round (A : Type 0) : Type 0 where
  enters : A → Round A
  sleeps : A → Round A

-- `cpr_semaphore_t`.
pub record Semaphore : Type 0 where
  pub count : ℕ
  pub waits : ℕ
  pub used : ℕ

pub cpr_semaphore_init : ℕ → Semaphore
cpr_semaphore_init limit = record { count = limit; waits = 0; used = 0 }

pub acquire_round : Semaphore → Round Semaphore
acquire_round sem =
    if leb sem.count sem.used
    then sleeps (record sem { waits = u32 (sem.waits + 1) })
    else enters (record sem { used = u32 (sem.used + 1) })

-- What follows `cnd_wait`: one waiter fewer, and the loop again.
pub acquire_again : Semaphore → Round Semaphore
unfolding acquire_round
acquire_again sem = acquire_round (record sem { waits = u32 (sem.waits + 2 ^ 32 - 1) })

-- `cpr_semaphore_release`, and whether it signals.
pub cpr_semaphore_release : Semaphore → Semaphore × Bool
cpr_semaphore_release sem =
    (record sem { used = if sem.used == 0 then 0 else sem.used - 1 }, not (sem.waits == 0))

-- `cpr_waitgroup_t` is its count.
abbrev pub WaitGroup : Type 0
WaitGroup = ℕ

pub cpr_waitgroup_init : ℕ → WaitGroup
cpr_waitgroup_init count = count

pub cpr_waitgroup_add : WaitGroup → ℕ → WaitGroup
cpr_waitgroup_add wg count = u32 (wg + count)

-- A pass of the loop of `cpr_waitgroup_wait`: whether it ends the loop.
pub wait_round : WaitGroup → Bool
wait_round wg = wg == 0

-- `cpr_waitgroup_done`, and whether it broadcasts.
pub cpr_waitgroup_done : WaitGroup → WaitGroup × Bool
cpr_waitgroup_done wg = let after = if wg == 0 then 0 else wg - 1 in (after, after == 0)

-- `cpr_condlock_t`.
pub record Condlock : Type 0 where
  pub pending : ℕ
  pub waiting : ℕ
  pub sharing : ℕ

pub cor_condlock_init : Condlock
cor_condlock_init = record { pending = 0; waiting = 0; sharing = 0 }

pub access_round : Condlock → Round Condlock
access_round lock =
    if lock.pending == 0
    then enters (record lock { sharing = u32 (lock.sharing + 1) })
    else sleeps (record lock { waiting = u32 (lock.waiting + 1) })

pub access_again : Condlock → Round Condlock
unfolding access_round
access_again lock = access_round (record lock { waiting = u32 (lock.waiting + 2 ^ 32 - 1) })

-- `cpr_condlock_modify` returns with the mutex.
pub modify_round : Condlock → Round Condlock
modify_round lock =
    if lock.sharing == 0
    then enters lock
    else sleeps (record lock { pending = u32 (lock.pending + 1) })

pub modify_again : Condlock → Round Condlock
unfolding modify_round
modify_again lock = modify_round (record lock { pending = u32 (lock.pending + 2 ^ 32 - 1) })

-- Which wake-up a step sends.
pub data Wake : Type 0 where
  silent : Wake
  signal : Wake
  broadcast : Wake

pub cpr_condlock_release : Condlock → Condlock × Wake
cpr_condlock_release lock =
    let left = lock.sharing - 1 in
    if lock.sharing == 0 then (lock, silent) else (
      record lock { sharing = left },
      if not (lock.pending == 0) && (left == 0)
          then signal
          else if not (lock.waiting == 0) && (lock.pending == 0)
          then broadcast
          else silent,
    )

-- `cpr_condlock_commit` changes no counter, and gives the mutex back.
pub cpr_condlock_commit : Condlock → Wake
cpr_condlock_commit lock =
    if not (lock.pending == 0)
    then signal
    else if not (lock.waiting == 0)
    then broadcast
    else silent
