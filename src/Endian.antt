-- ===== src/Endian.antt =====
-- src/endian.h: values of 1, 2, 4 and 8 bytes stored in a block of memory, most or least
-- significant byte first. A function that writes through `ptr` returns the new block; `ptr` is
-- the start of the block, and an access past its end is `none`.
mod Words
mod RoundTrip
mod Tests
use libcpr.Base.{
  ℕ, bit_and, bit_or, Option, some, List, ◌>>=◌, load, store, u8, u16, u32, u64, ◌<<<◌, ◌>>>◌,
}

pub be_get8 : List ℕ → Option ℕ
be_get8 ptr = load ptr 0

pub be_get16 : List ℕ → Option ℕ
be_get16 ptr = do b0 ← load ptr 0; b1 ← load ptr 1; some (u16 (bit_or (b0 <<< 8) b1))

pub be_get32 : List ℕ → Option ℕ
be_get32 ptr = do
  b0 ← load ptr 0
  b1 ← load ptr 1
  b2 ← load ptr 2
  b3 ← load ptr 3
  some (u32 (bit_or (bit_or (bit_or (b0 <<< 24) (b1 <<< 16)) (b2 <<< 8)) b3))

pub be_get64 : List ℕ → Option ℕ
be_get64 ptr = do
  b0 ← load ptr 0
  b1 ← load ptr 1
  b2 ← load ptr 2
  b3 ← load ptr 3
  b4 ← load ptr 4
  b5 ← load ptr 5
  b6 ← load ptr 6
  b7 ← load ptr 7
  let high = bit_or (bit_or (bit_or (b0 <<< 56) (b1 <<< 48)) (b2 <<< 40)) (b3 <<< 32)
  some (u64 (bit_or (bit_or (bit_or (bit_or high (b4 <<< 24)) (b5 <<< 16)) (b6 <<< 8)) b7))

pub le_get8 : List ℕ → Option ℕ
le_get8 ptr = load ptr 0

pub le_get16 : List ℕ → Option ℕ
le_get16 ptr = do b1 ← load ptr 1; b0 ← load ptr 0; some (u16 (bit_or (b1 <<< 8) b0))

pub le_get32 : List ℕ → Option ℕ
le_get32 ptr = do
  b3 ← load ptr 3
  b2 ← load ptr 2
  b1 ← load ptr 1
  b0 ← load ptr 0
  some (u32 (bit_or (bit_or (bit_or (b3 <<< 24) (b2 <<< 16)) (b1 <<< 8)) b0))

pub le_get64 : List ℕ → Option ℕ
le_get64 ptr = do
  b7 ← load ptr 7
  b6 ← load ptr 6
  b5 ← load ptr 5
  b4 ← load ptr 4
  b3 ← load ptr 3
  b2 ← load ptr 2
  b1 ← load ptr 1
  b0 ← load ptr 0
  let high = bit_or (bit_or (bit_or (b7 <<< 56) (b6 <<< 48)) (b5 <<< 40)) (b4 <<< 32)
  some (u64 (bit_or (bit_or (bit_or (bit_or high (b3 <<< 24)) (b2 <<< 16)) (b1 <<< 8)) b0))

pub be_set8 : List ℕ → ℕ → Option (List ℕ)
be_set8 ptr value = store ptr 0 value

pub be_set16 : List ℕ → ℕ → Option (List ℕ)
be_set16 ptr value = do
  p ← store ptr 0 (u8 (bit_and value 0xff00 >>> 8))
  store p 1 (u8 (bit_and value 0xff))

pub be_set32 : List ℕ → ℕ → Option (List ℕ)
be_set32 ptr value = do
  p ← store ptr 0 (u8 (bit_and value 0xff000000 >>> 24))
  p ← store p 1 (u8 (bit_and value 0x00ff0000 >>> 16))
  p ← store p 2 (u8 (bit_and value 0x0000ff00 >>> 8))
  store p 3 (u8 (bit_and value 0xff))

pub be_set64 : List ℕ → ℕ → Option (List ℕ)
be_set64 ptr value = do
  p ← store ptr 0 (u8 (bit_and value 0xff00000000000000 >>> 56))
  p ← store p 1 (u8 (bit_and value 0x00ff000000000000 >>> 48))
  p ← store p 2 (u8 (bit_and value 0x0000ff0000000000 >>> 40))
  p ← store p 3 (u8 (bit_and value 0x000000ff00000000 >>> 32))
  p ← store p 4 (u8 (bit_and value 0x00000000ff000000 >>> 24))
  p ← store p 5 (u8 (bit_and value 0x0000000000ff0000 >>> 16))
  p ← store p 6 (u8 (bit_and value 0x000000000000ff00 >>> 8))
  store p 7 (u8 (bit_and value 0xff))

pub le_set8 : List ℕ → ℕ → Option (List ℕ)
le_set8 ptr value = store ptr 0 value

pub le_set16 : List ℕ → ℕ → Option (List ℕ)
le_set16 ptr value = do
  p ← store ptr 1 (u8 (bit_and value 0xff00 >>> 8))
  store p 0 (u8 (bit_and value 0xff))

pub le_set32 : List ℕ → ℕ → Option (List ℕ)
le_set32 ptr value = do
  p ← store ptr 3 (u8 (bit_and value 0xff000000 >>> 24))
  p ← store p 2 (u8 (bit_and value 0x00ff0000 >>> 16))
  p ← store p 1 (u8 (bit_and value 0x0000ff00 >>> 8))
  store p 0 (u8 (bit_and value 0xff))

pub le_set64 : List ℕ → ℕ → Option (List ℕ)
le_set64 ptr value = do
  p ← store ptr 7 (u8 (bit_and value 0xff00000000000000 >>> 56))
  p ← store p 6 (u8 (bit_and value 0x00ff000000000000 >>> 48))
  p ← store p 5 (u8 (bit_and value 0x0000ff0000000000 >>> 40))
  p ← store p 4 (u8 (bit_and value 0x000000ff00000000 >>> 32))
  p ← store p 3 (u8 (bit_and value 0x00000000ff000000 >>> 24))
  p ← store p 2 (u8 (bit_and value 0x0000000000ff0000 >>> 16))
  p ← store p 1 (u8 (bit_and value 0x000000000000ff00 >>> 8))
  store p 0 (u8 (bit_and value 0xff))
