-- ===== src/Sync.antt =====
-- src/sync.c, on systems other than Windows: deadlines on the monotonic clock. What a clock shows is
-- an argument, `null` if it cannot be read. `long` and `time_t` have 64 bits, and an operation that
-- overflows makes the result `none`.
mod Adjust
mod Expires
mod Tests
use libcpr.Base.{
  ℕ, ◌*◌, ◌/◌, ◌%◌, Bool, true, false, not, ◌&&◌, ◌^◌, Option, none, some, ltb, leb, ◌>>=◌, ◌||◌,
  if◌then◌else◌, Ptr, null, to, ℤ, pos, pos_part, neg_part, sub_ℕ, ◌+ℤ◌, ◌-ℤ◌, ltb_ℤ,
}

-- `deadline_t`, a `struct timespec`.
pub record Deadline : Type 0 where
  pub tv_sec : ℤ
  pub tv_nsec : ℤ

infixl 70 ◌/ℤ◌ ◌%ℤ◌ ◌*ℤ◌
-- `/`, `%` and `*` of C with a positive constant: division rounds towards 0.
abbrev pub ◌/ℤ◌ : ℤ → ℕ → ℤ
x /ℤ k = sub_ℕ (pos_part x / k) (neg_part x / k)

abbrev pub ◌%ℤ◌ : ℤ → ℕ → ℤ
x %ℤ k = sub_ℕ (pos_part x % k) (neg_part x % k)

abbrev pub ◌*ℤ◌ : ℤ → ℕ → ℤ
x *ℤ k = sub_ℕ (pos_part x * k) (neg_part x * k)

-- The result of an operation of type `long`, or `time_t`: one that overflows is `none`.
unfoldable pub long : ℤ → Option ℤ
long x = if ltb (pos_part x) (2 ^ 63) && leb (neg_part x) (2 ^ 63) then some x else none

-- The end of `cpr_adjust`.
unfoldable pub carry : Deadline → Option Deadline
unfolding long
carry ts =
    if not (ltb_ℤ ts.tv_nsec (pos 1000000000))
    then (do
      sec ← long (ts.tv_sec +ℤ pos 1)
      nsec ← long (ts.tv_nsec -ℤ pos 1000000000)
      some (record { tv_sec = sec; tv_nsec = nsec }))
    else if ltb_ℤ ts.tv_nsec (pos 0)
    then (do
      sec ← long (ts.tv_sec -ℤ pos 1)
      nsec ← long (ts.tv_nsec +ℤ pos 1000000000)
      some (record { tv_sec = sec; tv_nsec = nsec }))
    else some ts

-- `cpr_adjust` of a deadline that is not NULL.
unfoldable pub cpr_adjust : Deadline → ℤ → Option Deadline
unfolding carry long
cpr_adjust ts ms = do
  sec ← long (ts.tv_sec +ℤ (ms /ℤ 1000))
  nsec ← long (ts.tv_nsec +ℤ (ms %ℤ 1000) *ℤ 1000000)
  carry (record { tv_sec = sec; tv_nsec = nsec })

-- `cpr_deadline`, where the monotonic clock shows `now`: its result, and the deadline.
pub cpr_deadline : Ptr Deadline → Ptr Deadline → ℤ → Option (Bool × Ptr Deadline)
cpr_deadline now null ms = some (false, null)
cpr_deadline null (to ts) ms = some (false, to ts)
cpr_deadline (to now) (to ts) ms = do after ← cpr_adjust now ms; some (true, to after)

-- `struct timeval`.
pub record Timeval : Type 0 where
  pub tv_sec : ℤ
  pub tv_usec : ℤ

-- What is left from `current` to a deadline, in `cpr_expires`.
unfoldable pub time_left : Deadline → Deadline → Option Deadline
unfolding long
time_left deadline current = do
  sec ← long (deadline.tv_sec -ℤ current.tv_sec)
  nsec ← long (deadline.tv_nsec -ℤ current.tv_nsec)
  if ltb_ℤ nsec (pos 0)
      then (do
        sec ← long (sec -ℤ pos 1)
        nsec ← long (nsec +ℤ pos 1000000000)
        some (record { tv_sec = sec; tv_nsec = nsec }))
      else some (record { tv_sec = sec; tv_nsec = nsec })

-- The results of `cpr_expires` for the time that is left.
unfoldable pub left_ms : Deadline → Option (ℤ × Timeval)
unfolding long
left_ms delta =
    if ltb_ℤ delta.tv_sec (pos 0)
      || not (ltb_ℤ (pos 0) delta.tv_sec) && not (ltb_ℤ (pos 0) delta.tv_nsec)
    then some (pos 0, record { tv_sec = pos 0; tv_usec = pos 0 })
    else (do
      sec ← long (delta.tv_sec *ℤ 1000)
      ms ← long (sec +ℤ (delta.tv_nsec /ℤ 1000000))
      some (ms, record { tv_sec = delta.tv_sec; tv_usec = delta.tv_nsec /ℤ 1000 }))

-- `cpr_expires`, where the monotonic clock shows `now`: the result, and what `tv` is set to where it
-- is given.
unfoldable pub cpr_expires : Ptr Deadline → Ptr Deadline → Option (ℤ × Timeval)
unfolding time_left left_ms
cpr_expires now null = some (pos 0, record { tv_sec = pos 0; tv_usec = pos 0 })
cpr_expires null (to deadline) = some (pos 0, record { tv_sec = pos 0; tv_usec = pos 0 })
cpr_expires (to now) (to deadline) = do
  current ← cpr_adjust now (pos 0)
  delta ← time_left deadline current
  left_ms delta

-- `cpr_realtime`, where the clocks show `now` and `real`: its result, and `ts`.
pub cpr_realtime : Ptr Deadline → Deadline → Ptr Deadline → Option (Bool × Deadline)
cpr_realtime now real deadline = do
  left ← cpr_expires now deadline
  if not (ltb_ℤ left.0 (pos 0)) && not (ltb_ℤ (pos 0) left.0)
      then some (false, real)
      else (do after ← cpr_adjust real left.0; some (true, after))
