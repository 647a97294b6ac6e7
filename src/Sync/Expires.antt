-- ===== src/Sync/Expires.antt =====
-- `cpr_expires` tells the time that is left, rounded down.
use libcpr.Base.{
  inl, inr, Bool-cases, some, ap, ltb, if◌then◌else◌, ◌^◌, ℕ, zero, suc, ◌+◌, ◌*◌, ◌/◌, ◌%◌, ◌<◌,
  ◌≡◌, refl, ◌∙◌, true, arith, to, ℤ, pos, negsuc, pos_part, neg_part, ◌+ℤ◌, ◌-ℤ◌, ltb_ℤ, ◌≤ℤ◌,
}
use libcpr.Sync.{Deadline, Timeval, long, carry, cpr_adjust, time_left, left_ms, cpr_expires}
use libcpr.Sync.Adjust.{
  IsLong, IsNear, long-IsLong, near_less, small_less, carried, IsNormal, nanos, sub_ℕ-parts,
  sub_ℕ-eq, nanos-carried, carried-IsNormal,
}

-- `time_left` of integers that do not overflow.
unfoldable exact_left : Deadline → Deadline → Deadline
exact_left deadline current =
    let sec = deadline.tv_sec -ℤ current.tv_sec in
    let nsec = deadline.tv_nsec -ℤ current.tv_nsec in
    if ltb_ℤ nsec (pos 0)
    then record { tv_sec = sec -ℤ pos 1; tv_nsec = nsec +ℤ pos 1000000000 }
    else record { tv_sec = sec; tv_nsec = nsec }

exact_left-carried :
    (d c : Deadline)
    → IsNormal d
    → IsNormal c
    → exact_left d c
      ≡ carried (record { tv_sec = d.tv_sec -ℤ c.tv_sec; tv_nsec = d.tv_nsec -ℤ c.tv_nsec })
unfolding exact_left carried ◌-ℤ◌
exact_left-carried d c g h = ground arith

difference_near :
    (m n : ℤ)
    → pos 0 ≤ℤ m
    → ltb_ℤ m (pos 1000000000) ≡ true
    → pos 0 ≤ℤ n
    → ltb_ℤ n (pos 1000000000) ≡ true
    → (ltb_ℤ (negsuc 999999999) (m -ℤ n) ≡ true) × (ltb_ℤ (m -ℤ n) (pos 2000000000) ≡ true)
unfolding ◌-ℤ◌
difference_near (pos m) (pos n) f g h k = (ground arith, ground arith)
difference_near (negsuc m) n f g h k = ground arith
difference_near (pos m) (negsuc n) f g h k = ground arith

nanos_difference :
    (d c : Deadline)
    → nanos (record { tv_sec = d.tv_sec -ℤ c.tv_sec; tv_nsec = d.tv_nsec -ℤ c.tv_nsec })
      ≡ nanos d -ℤ nanos c
unfolding ◌-ℤ◌
nanos_difference d c =
    let p = pos_part in
    let m = neg_part in
    let sec = sub_ℕ-parts (p d.tv_sec + m c.tv_sec) (m d.tv_sec + p c.tv_sec) in
    let nsec = sub_ℕ-parts (p d.tv_nsec + m c.tv_nsec) (m d.tv_nsec + p c.tv_nsec) in
    let whole =
      sub_ℕ-parts (p d.tv_sec * 1000000000 + p d.tv_nsec) (m d.tv_sec * 1000000000 + m d.tv_nsec) in
    let gone =
      sub_ℕ-parts (p c.tv_sec * 1000000000 + p c.tv_nsec) (m c.tv_sec * 1000000000 + m c.tv_nsec) in
    sub_ℕ-eq _ _ _ _ (omega arith)

time_left-exact :
    (d c : Deadline)
    → IsNormal d
    → IsNormal c
    → IsNear (d.tv_sec -ℤ c.tv_sec)
    → time_left d c ≡ some (exact_left d c)
unfolding time_left exact_left
time_left-exact d c g h room =
    let near = difference_near d.tv_nsec c.tv_nsec g.0 g.1 h.0 h.1 in
    let (small, _, up) = small_less _ near.0 near.1 in
    let sec = long-IsLong (d.tv_sec -ℤ c.tv_sec) (omega (arith, room.0), omega (arith, room.1)) in
    let less = long-IsLong _ (near_less (d.tv_sec -ℤ c.tv_sec) room) in
    let nsec = long-IsLong _ small in
    let more = long-IsLong _ up in
    elim (Bool-cases (ltb_ℤ (d.tv_nsec -ℤ c.tv_nsec) (pos 0))) [
      | inl under ↦ rw (sec, nsec, under, less, more) refl
      | inr fine ↦ rw (sec, nsec, fine) refl
    ]

left_ms-pos :
    (s n : ℕ)
    → s * 1000 + n / 1000000 < 2 ^ 63
    → left_ms (record { tv_sec = pos s; tv_nsec = pos n })
      ≡ some (pos (s * 1000 + n / 1000000), record { tv_sec = pos s; tv_usec = pos (n / 1000) })
unfolding left_ms long ◌+ℤ◌
left_ms-pos zero zero h = refl
left_ms-pos zero (suc n) h = ground arith
left_ms-pos (suc s) n h = ground arith

-- How the time that is left, in nanoseconds, is told.
abbrev told : ℕ → ℤ × Timeval
told left = (
  pos (left / 1000000),
  record { tv_sec = pos (left / 1000000000); tv_usec = pos (left % 1000000000 / 1000) },
)

told_eq :
    (s n left : ℕ)
    → n < 1000000000
    → left ≡ s * 1000000000 + n
    → (pos (s * 1000 + n / 1000000), record { tv_sec = pos s; tv_usec = pos (n / 1000) })
      ≡ told left
told_eq s n left g h =
    let sec : s ≡ left / 1000000000 = omega arith in
    let nsec : n ≡ left % 1000000000 = omega arith in
    let ms : s * 1000 + n / 1000000 ≡ left / 1000000 = omega arith in cc

left_ms_parts :
    (s n : ℤ) (left : ℕ)
    → pos 0 ≤ℤ n
    → ltb_ℤ n (pos 1000000000) ≡ true
    → nanos (record { tv_sec = s; tv_nsec = n }) ≡ pos left
    → left / 1000000 < 2 ^ 63
    → left_ms (record { tv_sec = s; tv_nsec = n }) ≡ some (told left)
left_ms_parts (pos s) (pos n) left f g h room =
    let whole : left ≡ s * 1000000000 + n = ground arith in
    let same : s * 1000 + n / 1000000 ≡ left / 1000000 = omega arith in
    left_ms-pos s n (rw same room) ∙ ap some (told_eq s n left (ground arith) whole)
left_ms_parts (negsuc s) (pos n) left f g h room = ground arith
left_ms_parts s (negsuc n) left f g h room = ground arith

left_ms_late :
    (s n : ℤ)
    → pos 0 ≤ℤ n
    → ltb_ℤ n (pos 1000000000) ≡ true
    → nanos (record { tv_sec = s; tv_nsec = n }) ≤ℤ pos 0
    → left_ms (record { tv_sec = s; tv_nsec = n })
      ≡ some (pos 0, record { tv_sec = pos 0; tv_usec = pos 0 })
unfolding left_ms
left_ms_late (pos zero) (pos zero) f g h = refl
left_ms_late (pos zero) (pos (suc n)) f g h = ground arith
left_ms_late (pos (suc s)) (pos n) f g h = ground arith
left_ms_late (negsuc s) (pos n) f g h = ground arith
left_ms_late s (negsuc n) f g h = ground arith

add_zero : (x : ℤ) → x +ℤ pos 0 ≡ x
unfolding ◌+ℤ◌
add_zero (pos zero) = refl
add_zero (pos (suc n)) = ground arith
add_zero (negsuc n) = ground arith

cpr_adjust-zero :
    (s n : ℤ)
    → pos 0 ≤ℤ n
    → ltb_ℤ n (pos 1000000000) ≡ true
    → IsLong s
    → cpr_adjust (record { tv_sec = s; tv_nsec = n }) (pos 0)
      ≡ some (record { tv_sec = s; tv_nsec = n })
unfolding cpr_adjust carry
cpr_adjust-zero s (pos n) g h fits =
    let sec = long-IsLong s fits in
    let nsec = long-IsLong (pos n) (ground arith, ground arith) in
    let under : ltb n 1000000000 ≡ true = ground arith in
    rw (add_zero s, add_zero (pos n), sec, nsec) (ground arith)
cpr_adjust-zero s (negsuc n) g h fits = ground arith

nanos-exact_left :
    (d c : Deadline)
    → IsNormal d
    → IsNormal c
    → (nanos (exact_left d c) ≡ nanos d -ℤ nanos c) × IsNormal (exact_left d c)
nanos-exact_left d c g h =
    let near = difference_near d.tv_nsec c.tv_nsec g.0 g.1 h.0 h.1 in
    rw (exact_left-carried d c g h)
      (nanos-carried _ _ ∙ nanos_difference d c, carried-IsNormal _ _ near.0 near.1)

left_ahead : {x : ℤ} (d c : ℤ) (left : ℕ) → x ≡ d -ℤ c → d ≡ c +ℤ pos left → x ≡ pos left
unfolding ◌+ℤ◌ ◌-ℤ◌
left_ahead {x} d (pos c) left g h = ground arith
left_ahead {x} d (negsuc c) left g h = ground arith

not_ahead : {x : ℤ} (d c : ℤ) → x ≡ d -ℤ c → d ≤ℤ c → x ≤ℤ pos 0
unfolding ◌-ℤ◌
not_ahead {x} (pos d) (pos c) g h = ground arith
not_ahead {x} (pos d) (negsuc c) g h = ground arith
not_ahead {x} (negsuc d) (pos c) g h = ground arith
not_ahead {x} (negsuc d) (negsuc c) g h = ground arith

-- Where the clock shows `now`, both times are normal, the seconds of the clock are a `long` and so is
-- the difference of the seconds, also with one more or one less: for a deadline that is `left`
-- nanoseconds ahead, of which the milliseconds are a `long`, `cpr_expires` returns the milliseconds
-- and sets `tv` to the seconds and microseconds, all rounded down; for a deadline that is not ahead,
-- it returns 0 and sets `tv` to 0. No operation overflows.
pub cpr_expires_lem :
    (now deadline : Deadline) (left : ℕ)
    → IsNormal now
    → IsNormal deadline
    → IsLong now.tv_sec
    → IsNear (deadline.tv_sec -ℤ now.tv_sec)
    → (left / 1000000 < 2 ^ 63
        → nanos deadline ≡ nanos now +ℤ pos left
        → cpr_expires (to now) (to deadline)
          ≡ some (
            pos (left / 1000000),
            record { tv_sec = pos (left / 1000000000); tv_usec = pos (left % 1000000000 / 1000) },
          ))
      × (nanos deadline ≤ℤ nanos now
          → cpr_expires (to now) (to deadline)
            ≡ some (pos 0, record { tv_sec = pos 0; tv_usec = pos 0 }))
unfolding cpr_expires
cpr_expires_lem now deadline left g h fits room =
    let rest = nanos-exact_left deadline now h g in
    let current = cpr_adjust-zero now.tv_sec now.tv_nsec g.0 g.1 fits in
    rw (current, time_left-exact deadline now h g room)
      (
        λ small e.
            left_ms_parts _ _ left rest.1.0 rest.1.1 (left_ahead (nanos deadline) _ left rest.0 e)
              small,
        λ e.
            left_ms_late (exact_left deadline now).tv_sec (exact_left deadline now).tv_nsec rest.1.0
              rest.1.1 (not_ahead (nanos deadline) _ rest.0 e),
      )
