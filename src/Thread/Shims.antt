-- ===== src/Thread/Shims.antt =====
-- The inline functions of src/thread.h, which give the threads of the C standard by those of POSIX.
-- What a function of POSIX returns is an argument: 0, or an error number.
use libcpr.Base.{
  ℕ, suc, ◌+◌, ◌-◌, ◌*◌, ◌^◌, ◌<◌, ◌≡◌, refl, ap, Bool, true, false, arith, ltb, ◌==◌,
  if◌then◌else◌, lt→ltb, Ptr, null, to, u32, ℤ, pos, negsuc,
}

-- The results, and the types of a mutex.
pub data Thrd : Type 0 where
  thrd_success : Thrd
  thrd_error : Thrd
  thrd_nomem : Thrd
  thrd_timedout : Thrd
  thrd_busy : Thrd

pub data MtxType : Type 0 where
  mtx_plain : MtxType
  mtx_timed : MtxType
  mtx_recursive : MtxType

-- The result for what a function of POSIX returns.
abbrev pub thrd_result : ℕ → Thrd
thrd_result err = if err == 0 then thrd_success else thrd_error

abbrev pub thrd_create : ℕ → Thrd
thrd_create = thrd_result

-- `(int)(intptr_t)`, for a pointer of 64 bits.
abbrev pub as_int : ℕ → ℤ
as_int retval =
    let low = u32 retval in if ltb low (2 ^ 31) then pos low else negsuc (2 ^ 32 - 1 - low)

-- `thrd_join`, where `pthread_join` returns `err` and leaves `retval`; `res` is NULL or what `*res`
-- holds.
unfoldable pub thrd_join : ℕ → ℕ → Ptr ℤ → Thrd × Ptr ℤ
thrd_join err retval res =
    if err == 0
    then (thrd_success, elim res [ null ↦ null | to old ↦ to (as_int retval) ])
    else (thrd_error, res)

-- `mtx_init`; `pthread_mutex_init` is told whether the mutex is recursive.
unfoldable pub mtx_init : (Bool → ℕ) → MtxType → Thrd
mtx_init pthread_mutex_init mtx_recursive = thrd_result (pthread_mutex_init true)
mtx_init pthread_mutex_init _ = thrd_result (pthread_mutex_init false)

abbrev pub mtx_lock : ℕ → Thrd
mtx_lock = thrd_result

abbrev pub mtx_unlock : ℕ → Thrd
mtx_unlock = thrd_result

abbrev pub cnd_init : ℕ → Thrd
cnd_init = thrd_result

abbrev pub cnd_wait : ℕ → Thrd
cnd_wait = thrd_result

abbrev pub cnd_signal : ℕ → Thrd
cnd_signal = thrd_result

abbrev pub cnd_broadcast : ℕ → Thrd
cnd_broadcast = thrd_result

-- An `int` in its 32 bits.
abbrev pub int_bits : ℤ → ℕ
int_bits (pos n) = n
int_bits (negsuc n) = 2 ^ 32 - 1 - n

abbrev pub IsInt : ℤ → Type 0
IsInt (pos n) = n < 2 ^ 31
IsInt (negsuc n) = n < 2 ^ 31

as_int-bits : (v : ℤ) (high : ℕ) → IsInt v → as_int (int_bits v + high * 2 ^ 32) ≡ v
as_int-bits (pos n) high h =
    let low : u32 (n + high * 2 ^ 32) ≡ n = omega arith in
    let small : ltb n (2 ^ 31) ≡ true = lt→ltb _ _ h in rw (low, small) refl
as_int-bits (negsuc n) high h =
    let low : u32 (2 ^ 32 - 1 - n + high * 2 ^ 32) ≡ 2 ^ 32 - 1 - n = omega arith in
    let large : ltb (2 ^ 32 - 1 - n) (2 ^ 31) ≡ false = ground arith in
    let back : 2 ^ 32 - 1 - (2 ^ 32 - 1 - n) ≡ n = omega arith in rw (low, large, back) refl

-- A thread's function returns an `int`, which is the lower half of what `pthread_join` leaves: where
-- that succeeds, `thrd_join` stores this `int`, whatever the upper half holds; where it fails, `*res`
-- stays as it is and the result is `thrd_error`.
pub thrd_join-int :
    (v old : ℤ) (high err : ℕ)
    → IsInt v
    → (thrd_join 0 (int_bits v + high * 2 ^ 32) (to old) ≡ (thrd_success, to v))
      × (thrd_join (suc err) (int_bits v + high * 2 ^ 32) (to old) ≡ (thrd_error, to old))
unfolding thrd_join
thrd_join-int v old high err h =
    let failed : (suc err == 0) ≡ false = ground arith in
    (ap (λ i. (thrd_success, to i)) (as_int-bits v high h), rw failed refl)
