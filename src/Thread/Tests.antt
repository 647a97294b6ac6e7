-- ===== src/Thread/Tests.antt =====
-- Runs of the steps of thread.c, and the theorems at concrete inputs.
use libcpr.Base.{if◌then◌else◌, pos, negsuc, to, ◌+◌, ◌*◌, ◌^◌, ◌≡◌, refl, true, false, arith}
use libcpr.Thread.{
  Semaphore, cpr_semaphore_init, acquire_round, cpr_semaphore_release, cpr_waitgroup_init,
  wait_round, Condlock, signal, broadcast, cor_condlock_init, access_round, modify_round,
  cpr_condlock_release, cpr_condlock_commit,
}
use libcpr.Thread.Shims.{
  thrd_success, thrd_error, mtx_recursive, thrd_join, mtx_init, int_bits, thrd_join-int,
}
use libcpr.Thread.Permits as Permits
use libcpr.Thread.Tasks as Tasks
use libcpr.Thread.Sharing as Sharing
use libcpr.Thread.Wakes as Wakes

abbrev one_waits : Semaphore
one_waits = record { count = 1; waits = 1; used = 1 }

semaphore_run : cpr_semaphore_release one_waits ≡ (record one_waits { used = 0 }, true)
unfolding cpr_semaphore_release
semaphore_run = refl

abbrev shared : Condlock
shared = record { pending = 1; waiting = 1; sharing = 1 }

condlock_run : cpr_condlock_release shared ≡ (record shared { sharing = 0 }, signal)
unfolding cpr_condlock_release
condlock_run = refl

commit_run : cpr_condlock_commit (record shared { pending = 0 }) ≡ broadcast
unfolding cpr_condlock_commit
commit_run = refl

-- One thread has the only permit and another sleeps.
abbrev contended : Permits.World
contended = record { sem = one_waits; holders = 1; asleep = 1; woken = 0 }

contended-Reach : Permits.Reach 1 contended
unfolding cpr_semaphore_init acquire_round
contended-Reach =
    Permits.later (Permits.later Permits.begin (Permits.enter refl))
      (Permits.sleep (omega arith) refl)

Reach-IsSafe_example : Permits.IsSafe 1 contended
Reach-IsSafe_example = Permits.Reach-IsSafe 1 (omega arith) contended-Reach

-- One thread waits for the only task.
abbrev waited : Tasks.World
waited = record { wg = 1; tasks = 1; asleep = 1; woken = 0 }

waited-Reach : Tasks.Reach 1 waited
unfolding cpr_waitgroup_init wait_round
waited-Reach = Tasks.later Tasks.begin (Tasks.sleep refl)

Reach-IsCounted_example : Tasks.IsCounted waited
Reach-IsCounted_example = Tasks.Reach-IsCounted 1 (omega arith) waited-Reach

-- One thread shares the lock, and another waits to modify.
abbrev shared_once : Sharing.World
shared_once = record {
  lock = record { pending = 1; waiting = 0; sharing = 1 };
  sharers = 1;
  modifies = false;
  readers = 0;
  writers = 1;
}

shared_once-Reach : Sharing.Reach shared_once
unfolding cor_condlock_init access_round modify_round
shared_once-Reach =
    Sharing.later (Sharing.later Sharing.begin (Sharing.access refl (omega arith) refl))
      (Sharing.modify_sleep refl (omega arith) refl)

Reach-IsExclusive_example : Sharing.IsExclusive shared_once
Reach-IsExclusive_example = Sharing.Reach-IsExclusive shared_once-Reach

-- One thread shares the lock, and one of each kind sleeps.
abbrev one_of_each : Wakes.World
one_of_each = record {
  lock = record { pending = 1; waiting = 1; sharing = 1 };
  sharers = 1;
  modifies = false;
  readers = 1;
  writers = 1;
  woken_readers = 0;
  woken_writers = 0;
}

one_of_each-IsLast : Wakes.IsLast one_of_each
one_of_each-IsLast = record {
  counted = record { sharing_is = refl; waiting_is = refl; pending_is = refl };
  last = refl;
  idle = refl;
  reader_waits = omega arith;
  writer_waits = omega arith;
  none_woken = (refl, refl);
  few_readers = omega arith;
  few_writers = omega arith;
}

release-IsStuck_example :
    (u : Wakes.World) × Wakes.Steps one_of_each u
    × Wakes.IsStuck u
    × ((v : Wakes.World) → Wakes.Steps u v → Wakes.IsStuck v)
release-IsStuck_example = Wakes.release-IsStuck one_of_each one_of_each-IsLast

-- A system without recursive mutexes.
mutex_run : mtx_init (λ recursive. if recursive then 22 else 0) mtx_recursive ≡ thrd_error
unfolding mtx_init
mutex_run = refl

-- A thread returns -2.
thrd_join-int_example :
    (thrd_join 0 (int_bits (negsuc 1) + 5 * 2 ^ 32) (to (pos 7)) ≡ (thrd_success, to (negsuc 1)))
    × (thrd_join 3 (int_bits (negsuc 1) + 5 * 2 ^ 32) (to (pos 7)) ≡ (thrd_error, to (pos 7)))
thrd_join-int_example = thrd_join-int (negsuc 1) (pos 7) 5 2 (omega arith)
