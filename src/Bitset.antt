-- ===== src/Bitset.antt =====
-- src/bitset.h and src/bitset.c: bits packed eight to a byte, bit `offset` at weight `offset % 8`
-- of byte `offset / 8`. A `bits_t` is NULL or a block; the outer `none` is an access outside it.
-- A function that changes the bits returns the new block.
mod Bit
mod Mask
mod Count
mod Lowest
mod Tests
use libcpr.Base.{
  ℕ, zero, suc, ◌+◌, ◌-◌, ◌*◌, ◌/◌, ◌%◌, ◌^◌, bit_and, bit_or, Bool, true, false, not, Option, none,
  some, List, ◌||◌, Ptr, null, to, ◌>>=◌, load, store, Malloc, u8, ◌<<<◌, ltb, ◌==◌, if◌then◌else◌,
  test_bit,
}
use libcpr.Memory.{cpr_memset}

abbrev pub Bits : Type 0
Bits = Ptr (List ℕ)

pub cpr_bitsize : ℕ → ℕ
cpr_bitsize bits = let result = bits / 8 in if bits % 8 == 0 then result else result + 1

pub bytemask : ℕ → ℕ
bytemask bits = u8 (1 <<< (bits % 8))

-- The loop of `count_bits`; `none` if the fuel runs out.
count_bits_loop : ℕ → ℕ → ℕ → Option ℕ
count_bits_loop zero n count = none
count_bits_loop (suc fuel) n count =
    let rest = count_bits_loop fuel (bit_and n (n - 1)) (count + 1) in
    if n == 0 then some count else rest

-- A byte takes at most eight rounds.
count_bits : ℕ → Option ℕ
unfolding count_bits_loop
count_bits n = count_bits_loop 9 n 0

pub cpr_makebits : Malloc → ℕ → Option Bits
cpr_makebits malloc bitsize =
    let size = cpr_bitsize bitsize in
    elim (malloc size) [ null ↦ some null | to bits ↦ cpr_memset (to bits) 0 size ]

-- The loop of `cpr_makemask`, `left` bytes from `pos` on.
makemask_loop : List ℕ → List ℕ → ℕ → ℕ → List ℕ → Option (List ℕ)
makemask_loop bits mask zero pos out = some out
makemask_loop bits mask (suc left) pos out = do
  b ← load bits pos
  m ← load mask pos
  out ← store out pos (bit_and b m)
  makemask_loop bits mask left (pos + 1) out

pub cpr_makemask : Malloc → Bits → Bits → ℕ → Option Bits
unfolding makemask_loop
cpr_makemask malloc null mask bitsize = some null
cpr_makemask malloc (to bits) null bitsize = some null
cpr_makemask malloc (to bits) (to mask) bitsize = if bitsize == 0 then some null else (do
  made ← cpr_makebits malloc bitsize
  elim made [
    | null ↦ some null
    | to out ↦ (do out ← makemask_loop bits mask (cpr_bitsize bitsize) 0 out; some (to out))
  ])

-- The loop of `cpr_foldmask`. `~mask[pos]` is an `int`; its low byte is `255 - mask[pos]`.
foldmask_loop : List ℕ → ℕ → ℕ → List ℕ → Option (List ℕ)
foldmask_loop mask zero pos bits = some bits
foldmask_loop mask (suc left) pos bits = do
  b ← load bits pos
  m ← load mask pos
  bits ← store bits pos (bit_and b (255 - m))
  foldmask_loop mask left (pos + 1) bits

-- `cpr_foldmask`: the bits, and whether the mask has been freed.
pub cpr_foldmask : Bits → Bits → ℕ → Option (Bits × Bool)
unfolding foldmask_loop
cpr_foldmask bits null bitsize = some (bits, false)
cpr_foldmask bits (to mask) zero = some (bits, false)
cpr_foldmask null (to mask) (suc bitsize) = some (null, true)
cpr_foldmask (to bits) (to mask) (suc bitsize) = do
  bits ← foldmask_loop mask (cpr_bitsize (suc bitsize)) 0 bits
  some (to bits, true)

pub cpr_bitget : Bits → ℕ → Option Bool
unfolding bytemask
cpr_bitget null offset = some false
cpr_bitget (to bits) offset = do
  b ← load bits (offset / 8)
  some (not (bit_and b (bytemask offset) == 0))

pub cpr_bitset : Bits → ℕ → Option Bits
unfolding bytemask
cpr_bitset null offset = some null
cpr_bitset (to bits) offset = do
  b ← load bits (offset / 8)
  bits ← store bits (offset / 8) (bit_or b (bytemask offset))
  some (to bits)

pub cpr_bitclr : Bits → ℕ → Option Bits
unfolding bytemask
cpr_bitclr null offset = some null
cpr_bitclr (to bits) offset = do
  b ← load bits (offset / 8)
  bits ← store bits (offset / 8) (bit_and b (255 - bytemask offset))
  some (to bits)

-- The loop of `cpr_anybits`, with `bits` at `pos`.
anybits_loop : List ℕ → ℕ → ℕ → Option Bool
anybits_loop bits zero pos = some false
anybits_loop bits (suc size) pos = do
  b ← load bits pos
  let rest = anybits_loop bits size (pos + 1)
  if b == 0 then rest else some true

pub cpr_anybits : Bits → ℕ → Option Bool
unfolding cpr_bitsize anybits_loop
cpr_anybits null bitsize = some false
cpr_anybits (to bits) bitsize = anybits_loop bits (cpr_bitsize bitsize) 0

-- The loop of `cpr_bitcount`, `left` bytes from `i` on.
bitcount_loop : List ℕ → ℕ → ℕ → ℕ → Option ℕ
unfolding count_bits
bitcount_loop bits zero i total = some total
bitcount_loop bits (suc left) i total = do
  b ← load bits i
  count ← count_bits b
  bitcount_loop bits left (i + 1) (total + count)

pub cpr_bitcount : Bits → ℕ → Option ℕ
unfolding cpr_bitsize bitcount_loop
cpr_bitcount null bitsize = some 0
cpr_bitcount (to bits) bitsize =
    if bitsize == 0 then some 0 else bitcount_loop bits (cpr_bitsize bitsize) 0 0

pub cpr_allbits : Bits → ℕ → Option Bool
unfolding cpr_bitcount
cpr_allbits bits bitsize = do count ← cpr_bitcount bits bitsize; some (count == bitsize)

-- `__builtin_ffs` on an `int`, given by its 32 bits: one more than the place of the lowest 1, or 0.
ffs_from : ℕ → ℕ → ℕ → ℕ
ffs_from zero x k = 0
ffs_from (suc left) x k =
    let rest = ffs_from left x (k + 1) in if test_bit x k == 1 then k + 1 else rest

ffs : ℕ → ℕ
unfolding ffs_from
ffs x = ffs_from 32 x 0

-- The loop of `cpr_lowestclr`. `~bits[i]` is an `int`, with the bits `2^32 - 1 - bits[i]`.
lowestclr_loop : List ℕ → ℕ → ℕ → ℕ → Option ℕ
unfolding ffs
lowestclr_loop bits bitsize zero i = some bitsize
lowestclr_loop bits bitsize (suc left) i = do
  b ← load bits i
  let pos = i * 8 + (ffs (2 ^ 32 - 1 - b) - 1)
  let rest = lowestclr_loop bits bitsize left (i + 1)
  if b == 0xff then rest else if ltb pos bitsize then some pos else some bitsize

pub cpr_lowestclr : Bits → ℕ → Option ℕ
unfolding cpr_bitsize lowestclr_loop
cpr_lowestclr null bitsize = some bitsize
cpr_lowestclr (to bits) bitsize = lowestclr_loop bits bitsize (cpr_bitsize bitsize) 0

-- The loop of `cpr_lowestset`.
lowestset_loop : List ℕ → ℕ → ℕ → ℕ → Option ℕ
unfolding ffs
lowestset_loop bits bitsize zero i = some bitsize
lowestset_loop bits bitsize (suc left) i = do
  b ← load bits i
  let pos = i * 8 + (ffs b - 1)
  let rest = lowestset_loop bits bitsize left (i + 1)
  if b == 0x00 then rest else if ltb pos bitsize then some pos else some bitsize

pub cpr_lowestset : Bits → ℕ → Option ℕ
unfolding cpr_bitsize lowestset_loop
cpr_lowestset null bitsize = some bitsize
cpr_lowestset (to bits) bitsize = lowestset_loop bits bitsize (cpr_bitsize bitsize) 0
