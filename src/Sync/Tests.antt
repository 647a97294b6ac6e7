-- ===== src/Sync/Tests.antt =====
-- Runs of the deadlines, and the theorems at concrete times.
use libcpr.Base.{
  some, none, ◌<◌, ◌^◌, ◌/◌, ◌-◌, ◌≡◌, refl, true, false, arith, to, pos, negsuc, ◌+ℤ◌, ◌-ℤ◌, ◌≤ℤ◌,
}
use libcpr.Sync.{Deadline, ◌*ℤ◌, cpr_adjust, cpr_deadline, cpr_expires, cpr_realtime}
use libcpr.Sync.Adjust.{IsNormal, nanos, cpr_adjust_lem}
use libcpr.Sync.Expires.{cpr_expires_lem}

abbrev start : Deadline
start = record { tv_sec = pos 5; tv_nsec = pos 200000000 }

-- 700 milliseconds before, and 2.5 seconds after.
abbrev before : Deadline
before = record { tv_sec = pos 4; tv_nsec = pos 500000000 }

abbrev after : Deadline
after = record { tv_sec = pos 7; tv_nsec = pos 700000000 }

start-IsNormal : IsNormal start
start-IsNormal = (omega arith, refl)

adjust_back : cpr_adjust start (negsuc 699) ≡ some before
unfolding cpr_adjust ◌+ℤ◌ ◌-ℤ◌
adjust_back = refl

deadline_set : cpr_deadline (to start) (to before) (pos 2500) ≡ some (true, to after)
unfolding cpr_deadline cpr_adjust ◌+ℤ◌
deadline_set = refl

realtime_set :
    cpr_realtime (to start) before (to after)
    ≡ some (true, record { tv_sec = pos 7; tv_nsec = pos 0 })
unfolding cpr_realtime cpr_expires ◌-ℤ◌ cpr_adjust ◌+ℤ◌
realtime_set = refl

realtime_late : cpr_realtime (to after) before (to start) ≡ some (false, before)
unfolding cpr_realtime cpr_expires ◌-ℤ◌ cpr_adjust ◌+ℤ◌
realtime_late = refl

-- A second later than the last that a `long` counts.
adjust_over : cpr_adjust (record { tv_sec = pos (2 ^ 63 - 1); tv_nsec = pos 0 }) (pos 1000) ≡ none
unfolding cpr_adjust ◌+ℤ◌
adjust_over = refl

cpr_adjust_lem_example :
    (moved : Deadline) × (cpr_adjust start (negsuc 699) ≡ some moved)
    × (nanos moved ≡ nanos start +ℤ negsuc 699 *ℤ 1000000)
    × IsNormal moved
unfolding ◌+ℤ◌
cpr_adjust_lem_example = cpr_adjust_lem start (negsuc 699) start-IsNormal (omega arith, omega arith)

after-IsNormal : IsNormal after
after-IsNormal = (omega arith, refl)

cpr_expires_lem_example :
    (2500000000 / 1000000 < 2 ^ 63
      → nanos after ≡ nanos start +ℤ pos 2500000000
      → cpr_expires (to start) (to after)
        ≡ some (pos 2500, record { tv_sec = pos 2; tv_usec = pos 500000 }))
    × (nanos after ≤ℤ nanos start
        → cpr_expires (to start) (to after)
          ≡ some (pos 0, record { tv_sec = pos 0; tv_usec = pos 0 }))
unfolding ◌-ℤ◌
cpr_expires_lem_example =
    cpr_expires_lem start after 2500000000 start-IsNormal after-IsNormal (omega arith, omega arith)
      (omega arith, omega arith)
