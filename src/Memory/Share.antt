-- ===== src/Memory/Share.antt =====
-- Reference counts, against the number of pointers to the object that its users hold.
use mathlib.Core.Option
use libcpr.Base.{
  ℕ, zero, suc, ◌+◌, ◌-◌, ◌^◌, ◌<◌, ◌≡◌, refl, false, Option, none, some, List, [], ◌∷◌, arith,
  length, ◌==◌, u32, ◌>>=◌,
}
use libcpr.Memory.{Memshare, live, freed, cpr_makeref, cpr_count, cpr_retain, cpr_release}

pub data Op : Type 0 where
  retain release : Op

step : Op → Memshare → Option Memshare
unfolding cpr_retain cpr_release
step retain m = cpr_retain m
step release m = Option.map (λ r. r.0) (cpr_release m)

-- A sequence of calls, each made atomically, from any threads.
pub run : List Op → Memshare → Option Memshare
unfolding step
run [] m = some m
run (o ∷ ops) m = step o m >>= run ops

-- The pointers held: only a holder may make another, or give up its own.
abbrev pub holders : List Op → ℕ → Option ℕ
holders [] n = some n
holders (o ∷ ops) zero = none
holders (retain ∷ ops) (suc n) = holders ops (suc (suc n))
holders (release ∷ ops) (suc n) = holders ops n

-- The object that has so many holders.
abbrev pub held : ℕ → Memshare
held zero = freed
held (suc n) = live (suc n)

-- The simulation, from any number of holders.
run_refines :
    (ops : List Op) (n : ℕ)
    → n + length ops < 2 ^ 32
    → run ops (held n) ≡ Option.map held (holders ops n)
unfolding run
run_refines [] n h = refl
run_refines (retain ∷ ops) zero h = refl
run_refines (release ∷ ops) zero h = refl
run_refines (retain ∷ ops) (suc n) h =
    let e : u32 (suc n + 1) ≡ suc (suc n) = omega arith in
    rw e (run_refines ops (suc (suc n)) (omega arith))
run_refines (release ∷ ops) (suc zero) h = run_refines ops 0 (omega arith)
run_refines (release ∷ ops) (suc (suc n)) h =
    let e : u32 (suc (suc n) + 2 ^ 32 - 1) ≡ suc n = omega arith in
    let other : (suc (suc n) == 1) ≡ false = ground arith in
    rw (other, e) (run_refines ops (suc n) (omega arith))

-- An object that `cpr_makeref` has made is live, with its number of holders for its count, as long
-- as there are holders, and is freed when the last one releases it: any sequence of fewer than
-- 2^32 - 1 calls of `cpr_retain` and `cpr_release` behaves as the number of holders, and one that
-- is made on a freed object is the first that no holder makes.
pub run-makeref :
    (ops : List Op)
    → length ops + 1 < 2 ^ 32
    → run ops cpr_makeref ≡ Option.map held (holders ops 1)
unfolding cpr_makeref
run-makeref ops h = run_refines ops 1 (omega arith)

-- With the count that `cpr_count` reads.
count-held : (n : ℕ) → cpr_count (held (suc n)) ≡ some (suc n)
unfolding cpr_count
count-held n = refl
