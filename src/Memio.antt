-- ===== src/Memio.antt =====
-- src/memio.h and src/memio.c: a stream over a block of memory, with an offset to read from and one
-- to write to. A pointer into the block that a function returns is its offset; `bytes` is the block
-- that `data` points to, behind the structure or elsewhere. An access outside it is `none`.
mod Bytes
pub mod Lines
mod Tests
use libcpr.Base.{
  ℕ, zero, suc, ◌+◌, ◌-◌, ◌^◌, Bool, true, false, Option, none, some, List, [], ◌∷◌, ◌++◌, length,
  take, drop, ltb, leb, ◌==◌, ◌&&◌, ◌||◌, if◌then◌else◌, Ptr, null, to, u8, u64, store, load,
  Malloc, ◌>>=◌, vsnprintf,
}
use libcpr.Memory.{cpr_memcpy}
use libcpr.Strchar.{cpr_strlen}

-- `memio_t`.
pub record Memio : Type 0 where
  pub bytes : List ℕ
  pub get : ℕ
  pub put : ℕ
  pub size : ℕ
  pub alloc : Bool

pub cpr_initmem : List ℕ → ℕ → Memio
cpr_initmem from size = record { bytes = from; get = 0; put = 0; size = size; alloc = false }

pub cpr_resetmem : Memio → Memio
cpr_resetmem mem = record mem { get = 0; put = 0 }

-- `cpr_makemem`: the block behind the structure is what `malloc` gives; the structure is the rest.
pub cpr_makemem : Malloc → ℕ → Ptr Memio
cpr_makemem malloc size = elim (malloc size) [
  | null ↦ null
  | to buf ↦ to (record { bytes = buf; get = 0; put = 0; size = size; alloc = true })
]

pub cpr_cgetmem : Ptr Memio → Option (ℕ × Ptr Memio)
cpr_cgetmem null = some (0, null)
cpr_cgetmem (to mem) =
    if leb mem.size mem.get
    then some (0, to mem)
    else (do ch ← load mem.bytes mem.get; some (ch, to (record mem { get = mem.get + 1 })))

pub cpr_cputmem : Ptr Memio → ℕ → Option (Bool × Ptr Memio)
cpr_cputmem null ch = some (false, null)
cpr_cputmem (to mem) ch = if leb mem.size mem.put then some (false, to mem) else (do
  bytes ← store mem.bytes mem.put (u8 ch)
  some (true, to (record mem { bytes = bytes; put = mem.put + 1 })))

-- What follows the copy in `cpr_xputmem`.
put_copied : Memio → ℕ → Bool × Ptr (List ℕ) → Bool × Ptr Memio
put_copied mem size (true, to end) =
    (true, to (record mem { bytes = take mem.put mem.bytes ++ end; put = mem.put + size }))
put_copied mem size (true, null) = (false, to mem)
put_copied mem size (false, end) = (false, to mem)

pub cpr_xputmem : Ptr Memio → Ptr (List ℕ) → ℕ → Option (Bool × Ptr Memio)
unfolding put_copied
cpr_xputmem null from size = some (false, null)
cpr_xputmem (to mem) from size =
    let room = u64 (mem.size + 2 ^ 64 - mem.put) in
    if ltb room size then some (false, to mem) else (do
      copied ← cpr_memcpy (to (drop mem.put mem.bytes)) room from size
      some (put_copied mem size copied))

pub cpr_sputmem : Ptr Memio → Ptr (List ℕ) → Option (Bool × Ptr Memio)
cpr_sputmem mem null = some (false, mem)
cpr_sputmem null (to text) = some (false, null)
cpr_sputmem (to mem) (to text) = do
  c ← load text 0
  let put = do len ← cpr_strlen (to text) mem.size; cpr_xputmem (to mem) (to text) len
  if c == 0 then some (false, to mem) else put

-- `cpr_xgetmem`: the offset of the bytes, or NULL.
pub cpr_xgetmem : Memio → ℕ → Ptr ℕ × Memio
cpr_xgetmem mem size =
    if ltb mem.size (u64 (mem.get + size))
    then (null, mem)
    else (to mem.get, record mem { get = mem.get + size })

-- `memcmp` of the C library, compared with zero.
pub memcmp : List ℕ → List ℕ → ℕ → Option Bool
memcmp a b zero = some true
memcmp [] b (suc n) = none
memcmp (x ∷ a) [] (suc n) = none
memcmp (x ∷ a) (y ∷ b) (suc n) = do same ← memcmp a b n; some ((x == y) && same)

-- The `for` loop of `cpr_lgetmem`: where the delimiter is. `none` if the fuel runs out.
unfoldable pub find_delim : ℕ → List ℕ → List ℕ → ℕ → ℕ → ℕ → Option (Ptr ℕ)
unfolding memcmp
find_delim zero bytes delim delim_len size i = none
find_delim (suc fuel) bytes delim delim_len size i =
    let rest = find_delim fuel bytes delim delim_len size (i + 1) in
    if ltb size (i + delim_len)
    then some null
    else (do same ← memcmp (drop i bytes) delim delim_len; if same then some (to i) else rest)

-- What `cpr_lgetmem` does with a delimiter at `i`: the offset of the line and its length. Without
-- `outlen` it ends the line with a terminator.
line_at : Memio → Bool → ℕ → ℕ → Option (Ptr (ℕ × ℕ) × Memio)
line_at mem outlen delim_len i =
    if outlen
    then some (to (mem.get, i - mem.get), record mem { get = i + delim_len })
    else if ltb i mem.size
    then (do
      bytes ← store mem.bytes i 0
      some (to (mem.get, i - mem.get), record mem { bytes = bytes; get = i + delim_len }))
    else some (null, mem)

-- The rest of `cpr_lgetmem` where there is something to read.
line_until : Memio → Bool → List ℕ → Option (Ptr (ℕ × ℕ) × Memio)
unfolding find_delim line_at
line_until mem outlen delim = do
  delim_len ← cpr_strlen (to delim) 16
  found ← find_delim (mem.size + 2) mem.bytes delim delim_len mem.size mem.get
  elim found [ null ↦ some (null, mem) | to i ↦ line_at mem outlen delim_len i ]

-- `cpr_lgetmem`; `outlen` tells whether the pointer to the length is given. The length of the line
-- is part of the result in any case.
pub cpr_lgetmem : Memio → Bool → Ptr (List ℕ) → Option (Ptr (ℕ × ℕ) × Memio)
unfolding line_until
cpr_lgetmem mem outlen null =
    if leb mem.size mem.get then some (null, mem) else line_until mem outlen (b'\n' ∷ 0 ∷ [])
cpr_lgetmem mem outlen (to delim) =
    if leb mem.size mem.get then some (null, mem) else line_until mem outlen delim

-- `cpr_fmtmem`, where `text` is what the format makes, or `null` if `vsnprintf` fails.
pub cpr_fmtmem : Memio → ℕ → Ptr (List ℕ) → Option (Bool × Memio)
cpr_fmtmem mem estimated null = some (false, mem)
cpr_fmtmem mem estimated (to text) =
    let print = (do
      bytes ← vsnprintf mem.bytes mem.put estimated text
      let mem = record mem { bytes = bytes }
      some (
          if leb estimated (length text)
          then (false, mem)
          else (true, record mem { put = mem.put + length text }))) in
    if estimated == 0 || ltb mem.size (u64 (mem.put + estimated)) || ltb mem.size estimated
    then some (false, mem)
    else print
