-- ===== src/Endian/RoundTrip.antt =====
-- Reading and writing, against the number that a sequence of bytes stands for.
use mathlib.Core.List.{reverse}
use libcpr.Base.{
  ℕ, zero, suc, ◌+◌, ◌*◌, ◌/◌, ◌%◌, ◌^◌, ◌≤◌, ◌<◌, ◌≡◌, ap, ◌∙◌, Option, some, List, [], ◌∷◌, ◌++◌,
  arith, length, take, drop, All, ◌>>=◌,
}
use libcpr.Endian.{
  be_get8, be_get16, be_get32, be_get64, le_get8, le_get16, le_get32, le_get64, be_set8, be_set16,
  be_set32, be_set64, le_set8, le_set16, le_set32, le_set64,
}
use libcpr.Endian.Words.{masked_byte, low_byte, join16, join32, join_upper, join_lower}

pub data Width : Type 0 where
  w8 w16 w32 w64 : Width

abbrev pub bytes : Width → ℕ
bytes w8 = 1
bytes w16 = 2
bytes w32 = 4
bytes w64 = 8

-- The functions of one family, by width.
abbrev pub be_get : Width → List ℕ → Option ℕ
be_get w8 = be_get8
be_get w16 = be_get16
be_get w32 = be_get32
be_get w64 = be_get64

abbrev pub le_get : Width → List ℕ → Option ℕ
le_get w8 = le_get8
le_get w16 = le_get16
le_get w32 = le_get32
le_get w64 = le_get64

abbrev pub be_set : Width → List ℕ → ℕ → Option (List ℕ)
be_set w8 = be_set8
be_set w16 = be_set16
be_set w32 = be_set32
be_set w64 = be_set64

abbrev pub le_set : Width → List ℕ → ℕ → Option (List ℕ)
le_set w8 = le_set8
le_set w16 = le_set16
le_set w32 = le_set32
le_set w64 = le_set64

-- The number of a sequence of bytes, the least significant first.
abbrev pub le_value : List ℕ → ℕ
le_value [] = 0
le_value (b ∷ bs) = b + 256 * le_value bs

-- The `n` bytes of a number, the least significant first.
abbrev pub le_digits : ℕ → ℕ → List ℕ
le_digits zero v = []
le_digits (suc n) v = v % 256 ∷ le_digits n (v / 256)

abbrev pub IsByte : ℕ → Type 0
IsByte b = b < 256

-- Memory from the pointer on holds at least the bytes of the word.
abbrev pub Fits : Width → List ℕ → Type 0
Fits w block = bytes w ≤ length block

-- Reading.
le_get_lem :
    (w : Width) (block : List ℕ)
    → Fits w block
    → All IsByte (take (bytes w) block)
    → le_get w block ≡ some (le_value (take (bytes w) block))
unfolding le_get8 le_get16 le_get32 le_get64
le_get_lem w8 (b0 ∷ r) h i = ap some (omega arith)
le_get_lem w16 (b0 ∷ b1 ∷ r) h i = ap some (omega (arith, join16 b1 b0 i.1.0 i.0))
le_get_lem w32 (b0 ∷ b1 ∷ b2 ∷ b3 ∷ r) h i =
    ap some (omega (arith, join32 b3 b2 b1 b0 i.1.1.1.0 i.1.1.0 i.1.0 i.0))
le_get_lem w64 (b0 ∷ b1 ∷ b2 ∷ b3 ∷ b4 ∷ b5 ∷ b6 ∷ b7 ∷ r) h i = ap some (
    rw
      (
        join_upper b7 b6 b5 b4 (omega arith) (omega arith) (omega arith) (omega arith),
        join_lower b3 b2 b1 b0 (omega arith) (omega arith) (omega arith) (omega arith)
            (((b7 * 256 + b6) * 256 + b5) * 256 + b4),
      )
      (omega arith))
le_get_lem w _ h i = absurd (omega arith)

be_get_lem :
    (w : Width) (block : List ℕ)
    → Fits w block
    → All IsByte (take (bytes w) block)
    → be_get w block ≡ some (le_value (reverse (take (bytes w) block)))
unfolding be_get8 be_get16 be_get32 be_get64
be_get_lem w8 (b0 ∷ r) h i = ap some (omega arith)
be_get_lem w16 (b0 ∷ b1 ∷ r) h i = ap some (omega (arith, join16 b0 b1 i.0 i.1.0))
be_get_lem w32 (b0 ∷ b1 ∷ b2 ∷ b3 ∷ r) h i =
    ap some (omega (arith, join32 b0 b1 b2 b3 i.0 i.1.0 i.1.1.0 i.1.1.1.0))
be_get_lem w64 (b0 ∷ b1 ∷ b2 ∷ b3 ∷ b4 ∷ b5 ∷ b6 ∷ b7 ∷ r) h i = ap some (
    rw
      (
        join_upper b0 b1 b2 b3 (omega arith) (omega arith) (omega arith) (omega arith),
        join_lower b4 b5 b6 b7 (omega arith) (omega arith) (omega arith) (omega arith)
            (((b0 * 256 + b1) * 256 + b2) * 256 + b3),
      )
      (omega arith))
be_get_lem w _ h i = absurd (omega arith)

-- What a read returns: for a word of any width that fits the block, the `le_` function gives the
-- number whose bytes, the least significant first, stand in the block, and the `be_` function the
-- number whose bytes stand there in the opposite order.
pub get_lem :
    (w : Width) (block : List ℕ)
    → Fits w block
    → All IsByte (take (bytes w) block)
    → (le_get w block ≡ some (le_value (take (bytes w) block)))
      × (be_get w block ≡ some (le_value (reverse (take (bytes w) block))))
get_lem w block h i = (le_get_lem w block h i, be_get_lem w block h i)

-- The masks of the `set` functions pick the digits, from either end.
le_set_lem :
    (w : Width) (block : List ℕ) (v : ℕ)
    → Fits w block
    → v < 256 ^ bytes w
    → le_set w block v ≡ some (le_digits (bytes w) v ++ drop (bytes w) block)
unfolding le_set8 le_set16 le_set32 le_set64
le_set_lem w8 (b0 ∷ r) v h lt = ground arith
le_set_lem w16 (b0 ∷ b1 ∷ r) v h lt = ground (arith, masked_byte 8 v, low_byte v)
le_set_lem w32 (b0 ∷ b1 ∷ b2 ∷ b3 ∷ r) v h lt =
    ground (arith, masked_byte 24 v, masked_byte 16 v, masked_byte 8 v, low_byte v)
le_set_lem w64 (b0 ∷ b1 ∷ b2 ∷ b3 ∷ b4 ∷ b5 ∷ b6 ∷ b7 ∷ r) v h lt =
    rw
      (
        masked_byte 56 v,
        masked_byte 48 v,
        masked_byte 40 v,
        masked_byte 32 v,
        masked_byte 24 v,
        masked_byte 16 v,
        masked_byte 8 v,
        low_byte v,
      )
      (ground arith)
le_set_lem w _ v h lt = absurd (omega arith)

be_set_lem :
    (w : Width) (block : List ℕ) (v : ℕ)
    → Fits w block
    → v < 256 ^ bytes w
    → be_set w block v ≡ some (reverse (le_digits (bytes w) v) ++ drop (bytes w) block)
unfolding be_set8 be_set16 be_set32 be_set64
be_set_lem w8 (b0 ∷ r) v h lt = ground arith
be_set_lem w16 (b0 ∷ b1 ∷ r) v h lt = ground (arith, masked_byte 8 v, low_byte v)
be_set_lem w32 (b0 ∷ b1 ∷ b2 ∷ b3 ∷ r) v h lt =
    ground (arith, masked_byte 24 v, masked_byte 16 v, masked_byte 8 v, low_byte v)
be_set_lem w64 (b0 ∷ b1 ∷ b2 ∷ b3 ∷ b4 ∷ b5 ∷ b6 ∷ b7 ∷ r) v h lt =
    rw
      (
        masked_byte 56 v,
        masked_byte 48 v,
        masked_byte 40 v,
        masked_byte 32 v,
        masked_byte 24 v,
        masked_byte 16 v,
        masked_byte 8 v,
        low_byte v,
      )
      (ground arith)
be_set_lem w _ v h lt = absurd (omega arith)

-- What a write stores: for a word of any width that fits the block, the `le_` function stores the
-- bytes of the value, the least significant first, the `be_` function stores them in the opposite
-- order, and both keep the rest of the block.
pub set_lem :
    (w : Width) (block : List ℕ) (v : ℕ)
    → Fits w block
    → v < 256 ^ bytes w
    → (le_set w block v ≡ some (le_digits (bytes w) v ++ drop (bytes w) block))
      × (be_set w block v ≡ some (reverse (le_digits (bytes w) v) ++ drop (bytes w) block))
set_lem w block v h lt = (le_set_lem w block v h lt, be_set_lem w block v h lt)

-- The written block, read back.
le_read_back :
    (w : Width) (v : ℕ) (rest : List ℕ)
    → v < 256 ^ bytes w
    → le_get w (le_digits (bytes w) v ++ rest) ≡ some v
le_read_back w8 v rest lt = le_get_lem w8 _ (omega arith) (omega arith) ∙ ap some (omega arith)
le_read_back w16 v rest lt = le_get_lem w16 _ (omega arith) (omega arith) ∙ ap some (omega arith)
le_read_back w32 v rest lt = le_get_lem w32 _ (omega arith) (omega arith) ∙ ap some (omega arith)
le_read_back w64 v rest lt = le_get_lem w64 _ (omega arith) (omega arith) ∙ ap some (omega arith)

be_read_back :
    (w : Width) (v : ℕ) (rest : List ℕ)
    → v < 256 ^ bytes w
    → be_get w (reverse (le_digits (bytes w) v) ++ rest) ≡ some v
be_read_back w8 v rest lt = be_get_lem w8 _ (omega arith) (omega arith) ∙ ap some (omega arith)
be_read_back w16 v rest lt = be_get_lem w16 _ (omega arith) (omega arith) ∙ ap some (omega arith)
be_read_back w32 v rest lt = be_get_lem w32 _ (omega arith) (omega arith) ∙ ap some (omega arith)
be_read_back w64 v rest lt = be_get_lem w64 _ (omega arith) (omega arith) ∙ ap some (omega arith)

-- A value of any width that is written to a block with room for it, in either byte order, is read
-- back by the function of the same width and order.
pub get-set :
    (w : Width) (block : List ℕ) (v : ℕ)
    → Fits w block
    → v < 256 ^ bytes w
    → ((le_set w block v >>= le_get w) ≡ some v) × ((be_set w block v >>= be_get w) ≡ some v)
get-set w block v h lt = (
  rw (le_set_lem w block v h lt) (le_read_back w v _ lt),
  rw (be_set_lem w block v h lt) (be_read_back w v _ lt),
)
