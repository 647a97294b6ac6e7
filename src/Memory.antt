-- ===== src/Memory.antt =====
-- src/memory.c: copies and fills that check their arguments, hexadecimal text, owned pointers, and
-- reference counts. A function that writes to memory returns the new block; the outer `none` is an
-- access out of bounds.
pub mod Fill
mod Hex
mod Owned
mod Share
mod Tests
use libcpr.Base.{
  ℕ, zero, suc, ◌+◌, ◌-◌, ◌*◌, ◌^◌, bit_and, bit_or, Bool, true, false, Option, none, some, List,
  [], ◌∷◌, ◌&&◌, Ptr, null, to, ◌>>=◌, load, store, memcpy, strchr, Malloc, u8, u32, u64, ◌<<<◌,
  ◌>>>◌, ltb, leb, ◌==◌, if◌then◌else◌, drop,
}

-- `cpr_memcpy`: its result, and the destination.
unfoldable pub cpr_memcpy : Ptr (List ℕ) → ℕ → Ptr (List ℕ) → ℕ → Option (Bool × Ptr (List ℕ))
cpr_memcpy null dst_size src src_size = some (false, null)
cpr_memcpy (to dst) dst_size null src_size = some (false, to dst)
cpr_memcpy (to dst) dst_size (to src) src_size =
    if ltb dst_size src_size
    then some (false, to dst)
    else (do out ← memcpy dst src src_size; some (true, to out))

-- The loop of `cpr_memset`, with `p` at index `pos`.
memset_from : List ℕ → ℕ → ℕ → ℕ → Option (List ℕ)
memset_from block pos value zero = some block
memset_from block pos value (suc size) = do
  block ← store block pos (u8 value)
  memset_from block (pos + 1) value size

unfoldable pub cpr_memset : Ptr (List ℕ) → ℕ → ℕ → Option (Ptr (List ℕ))
unfolding memset_from
cpr_memset null value size = some null
cpr_memset (to block) value size = do block ← memset_from block 0 value size; some (to block)

-- The digits `hex`, with the terminator of the literal.
abbrev hex : List ℕ
hex =
    b'0' ∷ b'1' ∷ b'2' ∷ b'3' ∷ b'4' ∷ b'5' ∷ b'6' ∷ b'7' ∷ b'8' ∷ b'9' ∷ b'a' ∷ b'b' ∷ b'c' ∷ b'd'
    ∷ b'e' ∷ b'f' ∷ 0 ∷ []

-- `tolower` of the C library, in the C locale.
abbrev tolower : ℕ → ℕ
tolower c = if leb b'A' c && leb c b'Z' then c + 32 else c

-- The loop of `cpr_hexload`: `left` is `size - count`, and the text starts at `str`.
hexload_loop : ℕ → ℕ → List ℕ → List ℕ → Option (ℕ × List ℕ)
hexload_loop zero count out str = some (count, out)
hexload_loop (suc left) count out str = do
  c0 ← load str 0
  let body = do
    c1 ← load str 1
    elim (strchr hex (tolower c0)) [
      | none ↦ some (count, out)
      | some high ↦ elim (strchr hex (tolower c1)) [
        | none ↦ some (count, out)
        | some low ↦ (do
          out ← store out count (u8 (bit_or (u8 high <<< 4) (u8 low)))
          hexload_loop left (count + 1) out (drop 2 str))
      ]
    ]
  if c0 == 0 then some (count, out) else body

-- `cpr_hexload`: the count, and the output.
pub cpr_hexload : Ptr (List ℕ) → Ptr (List ℕ) → ℕ → Option (ℕ × Ptr (List ℕ))
unfolding hexload_loop strchr
cpr_hexload null str size = some (0, null)
cpr_hexload (to out) null size = some (0, to out)
cpr_hexload (to out) (to str) zero = some (0, to out)
cpr_hexload (to out) (to str) (suc size) = do
  (count, out) ← hexload_loop (suc size) 0 out str
  some (count, to out)

-- The loop of `cpr_hexdup`, with `put` at index `pos`, and the terminator behind it.
hexdup_loop : ℕ → List ℕ → ℕ → List ℕ → Option (List ℕ)
hexdup_loop zero bin pos out = store out pos 0
hexdup_loop (suc size) bin pos out = do
  b ← load bin 0
  high ← load hex (b >>> 4)
  out ← store out pos high
  low ← load hex (bit_and b 0x0f)
  out ← store out (pos + 1) low
  hexdup_loop size (drop 1 bin) (pos + 2) out

pub cpr_hexdup : Malloc → Ptr (List ℕ) → ℕ → Option (Ptr (List ℕ))
unfolding hexdup_loop
cpr_hexdup malloc null size = some null
cpr_hexdup malloc (to bin) size = elim (malloc (u64 (u64 (size * 2) + 1))) [
  | null ↦ some null
  | to out ↦ (do out ← hexdup_loop size bin 0 out; some (to out))
]

-- A shared object: its count (`atomic_uint`) while it is allocated.
pub data Memshare : Type 0 where
  live : (refcount : ℕ) → Memshare
  freed : Memshare

-- `cpr_makeref`, when the allocation succeeds.
pub cpr_makeref : Memshare
cpr_makeref = live 1

-- An operation on an object that has been freed is `none`.
pub cpr_count : Memshare → Option ℕ
cpr_count freed = none
cpr_count (live n) = some n

pub cpr_retain : Memshare → Option Memshare
cpr_retain freed = none
cpr_retain (live n) = some (live (u32 (n + 1)))

-- `cpr_release`: the object, and whether the caller keeps a pointer.
pub cpr_release : Memshare → Option (Memshare × Bool)
cpr_release freed = none
cpr_release (live n) =
    if n == 1 then some (freed, false) else some (live (u32 (n + 2 ^ 32 - 1)), true)
