-- ===== src/Sync/Adjust.antt =====
-- `cpr_adjust` adds milliseconds to a time.
use libcpr.Base.{
  refl, inl, inr, Bool-cases, not, some, if◌then◌else◌, ◌<◌, ◌≤◌, ◌^◌, ℕ, ◌+◌, ◌*◌, ◌/◌, ◌%◌, ◌≡◌,
  ◌∙◌, true, arith, ℤ, pos, negsuc, pos_part, neg_part, sub_ℕ, ◌+ℤ◌, ◌-ℤ◌, ltb_ℤ, ◌≤ℤ◌,
}
use libcpr.Sync.{Deadline, ◌/ℤ◌, ◌%ℤ◌, ◌*ℤ◌, long, carry, cpr_adjust}

-- The nanoseconds are a fraction of a second.
abbrev pub IsNormal : Deadline → Type 0
IsNormal ts = (pos 0 ≤ℤ ts.tv_nsec) × (ltb_ℤ ts.tv_nsec (pos 1000000000) ≡ true)

-- The whole time in nanoseconds.
abbrev pub nanos : Deadline → ℤ
nanos ts =
    sub_ℕ (pos_part ts.tv_sec * 1000000000 + pos_part ts.tv_nsec)
      (neg_part ts.tv_sec * 1000000000 + neg_part ts.tv_nsec)

-- An integer in the range of `long`, and one that stays in it when 1 is added or taken away.
abbrev pub IsLong : ℤ → Type 0
IsLong x = (pos_part x < 2 ^ 63) × (neg_part x ≤ 2 ^ 63)

abbrev pub IsNear : ℤ → Type 0
IsNear x = (pos_part x + 1 < 2 ^ 63) × (neg_part x + 1 ≤ 2 ^ 63)

pub long-IsLong : (x : ℤ) → IsLong x → long x ≡ some x
unfolding long
long-IsLong x h = ground (arith, h.0, h.1)

pub near_more : (x : ℤ) → IsNear x → IsLong (x +ℤ pos 1)
unfolding ◌+ℤ◌
near_more (pos n) h = (ground arith, ground arith)
near_more (negsuc n) h = (ground arith, ground arith)

pub near_less : (x : ℤ) → IsNear x → IsLong (x -ℤ pos 1)
unfolding ◌-ℤ◌
near_less (pos n) h = (ground arith, ground arith)
near_less (negsuc n) h = (ground arith, ground arith)

-- `carry` of integers that do not overflow.
unfoldable pub carried : Deadline → Deadline
carried ts =
    if not (ltb_ℤ ts.tv_nsec (pos 1000000000))
    then record { tv_sec = ts.tv_sec +ℤ pos 1; tv_nsec = ts.tv_nsec -ℤ pos 1000000000 }
    else if ltb_ℤ ts.tv_nsec (pos 0)
    then record { tv_sec = ts.tv_sec -ℤ pos 1; tv_nsec = ts.tv_nsec +ℤ pos 1000000000 }
    else ts

pub small_less :
    (n : ℤ)
    → ltb_ℤ (negsuc 999999999) n ≡ true
    → ltb_ℤ n (pos 2000000000) ≡ true
    → IsLong n × IsLong (n -ℤ pos 1000000000) × IsLong (n +ℤ pos 1000000000)
unfolding ◌+ℤ◌ ◌-ℤ◌
small_less (pos n) g h =
    ((ground arith, ground arith), (ground arith, ground arith), (ground arith, ground arith))
small_less (negsuc n) g h =
    ((ground arith, ground arith), (ground arith, ground arith), (ground arith, ground arith))

pub carry-carried :
    (s n : ℤ)
    → IsNear s
    → ltb_ℤ (negsuc 999999999) n ≡ true
    → ltb_ℤ n (pos 2000000000) ≡ true
    → carry (record { tv_sec = s; tv_nsec = n })
      ≡ some (carried (record { tv_sec = s; tv_nsec = n }))
unfolding carry carried
carry-carried s n near g h =
    let (_, down, up) = small_less n g h in
    let more = long-IsLong (s +ℤ pos 1) (near_more s near) in
    let less = long-IsLong (s -ℤ pos 1) (near_less s near) in
    let n_down = long-IsLong (n -ℤ pos 1000000000) down in
    let n_up = long-IsLong (n +ℤ pos 1000000000) up in
    elim (Bool-cases (not (ltb_ℤ n (pos 1000000000)))) [
      | inl over ↦ rw (over, more, n_down) refl
      | inr within ↦ elim (Bool-cases (ltb_ℤ n (pos 0))) [
        | inl under ↦ rw (within, under, less, n_up) refl
        | inr fine ↦ rw (within, fine) refl
      ]
    ]

pub nanos-carried :
    (s n : ℤ)
    → nanos (carried (record { tv_sec = s; tv_nsec = n }))
      ≡ nanos (record { tv_sec = s; tv_nsec = n })
unfolding carried ◌+ℤ◌ ◌-ℤ◌
nanos-carried (pos s) (pos n) = ground arith
nanos-carried (pos s) (negsuc n) = ground arith
nanos-carried (negsuc s) (pos n) = ground arith
nanos-carried (negsuc s) (negsuc n) = ground arith

pub carried-IsNormal :
    (s n : ℤ)
    → ltb_ℤ (negsuc 999999999) n ≡ true
    → ltb_ℤ n (pos 2000000000) ≡ true
    → IsNormal (carried (record { tv_sec = s; tv_nsec = n }))
unfolding carried ◌+ℤ◌ ◌-ℤ◌
carried-IsNormal s (pos n) g h = (ground arith, ground arith)
carried-IsNormal s (negsuc n) g h = (ground arith, ground arith)

pub sub_ℕ-parts : (a b : ℕ) → pos_part (sub_ℕ a b) + b ≡ neg_part (sub_ℕ a b) + a
sub_ℕ-parts a b = ground arith

pub sub_ℕ-eq : (a b c d : ℕ) → a + d ≡ c + b → sub_ℕ a b ≡ sub_ℕ c d
sub_ℕ-eq a b c d h = ground arith

nanos_shift :
    (s n ms : ℤ)
    → nanos (record { tv_sec = s +ℤ (ms /ℤ 1000); tv_nsec = n +ℤ (ms %ℤ 1000) *ℤ 1000000 })
      ≡ nanos (record { tv_sec = s; tv_nsec = n }) +ℤ ms *ℤ 1000000
unfolding ◌+ℤ◌
nanos_shift s n ms =
    let p = pos_part in
    let m = neg_part in
    let whole = sub_ℕ-parts (p ms / 1000) (m ms / 1000) in
    let rest = sub_ℕ-parts (p ms % 1000) (m ms % 1000) in
    let rest_nsec = sub_ℕ-parts (p (ms %ℤ 1000) * 1000000) (m (ms %ℤ 1000) * 1000000) in
    let sec = sub_ℕ-parts (p s + p (ms /ℤ 1000)) (m s + m (ms /ℤ 1000)) in
    let nsec =
      sub_ℕ-parts (p n + p ((ms %ℤ 1000) *ℤ 1000000)) (m n + m ((ms %ℤ 1000) *ℤ 1000000)) in
    let before = sub_ℕ-parts (p s * 1000000000 + p n) (m s * 1000000000 + m n) in
    let shift = sub_ℕ-parts (p ms * 1000000) (m ms * 1000000) in sub_ℕ-eq _ _ _ _ (omega arith)

shift_near :
    (n ms : ℤ)
    → pos 0 ≤ℤ n
    → ltb_ℤ n (pos 1000000000) ≡ true
    → (ltb_ℤ (negsuc 999999999) (n +ℤ (ms %ℤ 1000) *ℤ 1000000) ≡ true)
      × (ltb_ℤ (n +ℤ (ms %ℤ 1000) *ℤ 1000000) (pos 2000000000) ≡ true)
unfolding ◌+ℤ◌
shift_near n (pos m) g h = (ground arith, ground arith)
shift_near n (negsuc m) g h = (ground arith, ground arith)

-- `cpr_adjust` by `ms` milliseconds, of either sign, moves a time whose nanoseconds are a fraction of
-- a second by exactly so many, and leaves its nanoseconds such a fraction, where the seconds, moved
-- by the whole seconds of `ms` and then by one more or one less, are within a `long`: no operation
-- overflows then.
pub cpr_adjust_lem :
    (ts : Deadline) (ms : ℤ)
    → IsNormal ts
    → IsNear (ts.tv_sec +ℤ (ms /ℤ 1000))
    → (after : Deadline) × (cpr_adjust ts ms ≡ some after)
      × (nanos after ≡ nanos ts +ℤ ms *ℤ 1000000)
      × IsNormal after
unfolding cpr_adjust
cpr_adjust_lem ts ms h room =
    let near = shift_near ts.tv_nsec ms h.0 h.1 in
    let sec =
      long-IsLong (ts.tv_sec +ℤ (ms /ℤ 1000)) (omega (arith, room.0), omega (arith, room.1)) in
    let nsec = long-IsLong (ts.tv_nsec +ℤ (ms %ℤ 1000) *ℤ 1000000) (small_less _ near.0 near.1).0 in
    (
      carried (record {
        tv_sec = ts.tv_sec +ℤ (ms /ℤ 1000);
        tv_nsec = ts.tv_nsec +ℤ (ms %ℤ 1000) *ℤ 1000000;
      }),
      rw (sec, nsec) (carry-carried _ _ room near.0 near.1),
      nanos-carried _ _ ∙ nanos_shift ts.tv_sec ts.tv_nsec ms,
      carried-IsNormal _ _ near.0 near.1,
    )
