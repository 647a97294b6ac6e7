-- ===== src/Bitset/Bit.antt =====
-- Reading, setting and clearing one bit.
use native.Mathlib.Nat.{one-le-pow}
use libcpr.Base.{
  ℕ, zero, suc, ◌-◌, ◌*◌, ◌/◌, ◌%◌, ◌^◌, ◌≤◌, ◌<◌, bit_and, bit_or, ◌≡◌, refl, ap, inl, inr, true,
  false, not, some, List, arith, length, set, get_or, length-set, get_elem?-eq-get_or,
  get_or-set_self, get_or-set_ne, ltb, ◌==◌, if◌then◌else◌, Bool-cases, ltb→lt, ==_iff, all_below,
  all_below_sound, to, ◌>>=◌, test_bit, test_bit-le-one, test_bit-bit_or, test_bit-bit_and,
  test_bit-pow, test_bit_complement, bit_and-pow,
}
use libcpr.Bitset.{bytemask, cpr_bitget, cpr_bitset, cpr_bitclr}

-- The bit at an offset, as a number; 0 past the end.
abbrev pub bit_at : List ℕ → ℕ → ℕ
bit_at bits offset = test_bit (get_or bits (offset / 8) 0) (offset % 8)

mask_table : all_below 8 (λ k. 1 * 2 ^ k % 2 ^ 8 == 2 ^ k) ≡ true
unfolding all_below
mask_table = refl

small_table : all_below 8 (λ k. ltb (2 ^ k) 256) ≡ true
unfolding all_below
small_table = refl

pub bytemask_lem : (offset : ℕ) → bytemask offset ≡ 2 ^ (offset % 8)
unfolding bytemask
bytemask_lem offset =
    (==_iff _ _).0
      (all_below_sound 8 (λ k. 1 * 2 ^ k % 2 ^ 8 == 2 ^ k) (offset % 8) mask_table (omega arith))

pub bytemask_lt : (offset : ℕ) → 2 ^ (offset % 8) < 256
bytemask_lt offset =
    ltb→lt _ _ (all_below_sound 8 (λ k. ltb (2 ^ k) 256) (offset % 8) small_table (omega arith))

-- One bit of a byte that has been or-ed with a mask, or and-ed with its complement.
byte_set :
    (x i j : ℕ)
    → test_bit (bit_or x (bytemask i)) (j % 8) ≡ (if i % 8 == j % 8 then 1 else test_bit x (j % 8))
byte_set x i j =
    rw (bytemask_lem i, test_bit-bit_or x (2 ^ (i % 8)) (j % 8), test_bit-pow (i % 8) (j % 8))
      (ground (arith, test_bit-le-one x (j % 8)))

byte_clr :
    (x i j : ℕ)
    → test_bit (bit_and x (255 - bytemask i)) (j % 8)
      ≡ (if i % 8 == j % 8 then 0 else test_bit x (j % 8))
byte_clr x i j =
    rw
      (
        bytemask_lem i,
        test_bit-bit_and x (255 - 2 ^ (i % 8)) (j % 8),
        test_bit_complement 8 (2 ^ (i % 8)) (j % 8) (bytemask_lt i) (omega arith),
        test_bit-pow (i % 8) (j % 8),
      )
      (ground (arith, test_bit-le-one x (j % 8)))

-- A byte is replaced.
bit_at-set :
    (bits : List ℕ) (i v j : ℕ)
    → i / 8 < length bits
    → bit_at (set bits (i / 8) v) j ≡ (if i / 8 == j / 8 then test_bit v (j % 8) else bit_at bits j)
bit_at-set bits i v j h = elim (Bool-cases (i / 8 == j / 8)) [
  | inl same ↦
      let e : i / 8 ≡ j / 8 = (==_iff _ _).0 same in
      rw (same, e, get_or-set_self bits (j / 8) v 0 (omega arith))
  | inr other ↦ rw (other, get_or-set_ne bits (i / 8) (j / 8) v 0 (ground arith))
]

weighed_bit : (t k : ℕ) → t ≤ 1 → not (t * 2 ^ k == 0) ≡ (t == 1)
weighed_bit zero k h = ground arith
weighed_bit (suc zero) k h = ground (arith, one-le-pow k 2)
weighed_bit (suc (suc t)) k h = absurd (omega arith)

pub cpr_bitget_lem :
    (bits : List ℕ) (offset : ℕ)
    → offset / 8 < length bits
    → cpr_bitget (to bits) offset ≡ some (bit_at bits offset == 1)
unfolding cpr_bitget
cpr_bitget_lem bits offset h =
    rw
      (
        get_elem?-eq-get_or bits (offset / 8) 0 h,
        bytemask_lem offset,
        bit_and-pow (offset % 8) (get_or bits (offset / 8) 0),
      )
      (ap some (weighed_bit _ (offset % 8) (test_bit-le-one _ (offset % 8))))

pub bitset_block :
    (bits : List ℕ) (i : ℕ)
    → i / 8 < length bits
    → cpr_bitset (to bits) i
      ≡ some (to (set bits (i / 8) (bit_or (get_or bits (i / 8) 0) (bytemask i))))
unfolding cpr_bitset
bitset_block bits i h = ground (arith, get_elem?-eq-get_or bits (i / 8) 0 h)

pub bitclr_block :
    (bits : List ℕ) (i : ℕ)
    → i / 8 < length bits
    → cpr_bitclr (to bits) i
      ≡ some (to (set bits (i / 8) (bit_and (get_or bits (i / 8) 0) (255 - bytemask i))))
unfolding cpr_bitclr
bitclr_block bits i h = ground (arith, get_elem?-eq-get_or bits (i / 8) 0 h)

pub bit_at-bitset :
    (bits : List ℕ) (i j : ℕ)
    → i / 8 < length bits
    → bit_at (set bits (i / 8) (bit_or (get_or bits (i / 8) 0) (bytemask i))) j
      ≡ (if i == j then 1 else bit_at bits j)
bit_at-bitset bits i j h = ground (
  arith,
  bit_at-set bits i (bit_or (get_or bits (i / 8) 0) (bytemask i)) j h,
  byte_set (get_or bits (i / 8) 0) i j,
)

pub bit_at-bitclr :
    (bits : List ℕ) (i j : ℕ)
    → i / 8 < length bits
    → bit_at (set bits (i / 8) (bit_and (get_or bits (i / 8) 0) (255 - bytemask i))) j
      ≡ (if i == j then 0 else bit_at bits j)
bit_at-bitclr bits i j h = ground (
  arith,
  bit_at-set bits i (bit_and (get_or bits (i / 8) 0) (255 - bytemask i)) j h,
  byte_clr (get_or bits (i / 8) 0) i j,
)

-- A bit that is set reads as true, and every other bit of the block reads as before.
pub bitget-bitset :
    (bits : List ℕ) (i j : ℕ)
    → i / 8 < length bits
    → j / 8 < length bits
    → (cpr_bitset (to bits) i >>= λ b. cpr_bitget b j)
      ≡ (if i == j then some true else cpr_bitget (to bits) j)
bitget-bitset bits i j hi hj =
    rw
      (
        bitset_block bits i hi,
        cpr_bitget_lem bits j hj,
        cpr_bitget_lem (set bits (i / 8) (bit_or (get_or bits (i / 8) 0) (bytemask i))) j
            (rw length-set hj),
        bit_at-bitset bits i j hi,
      )
      (ground arith)

-- A bit that is cleared reads as false, and every other bit of the block reads as before.
pub bitget-bitclr :
    (bits : List ℕ) (i j : ℕ)
    → i / 8 < length bits
    → j / 8 < length bits
    → (cpr_bitclr (to bits) i >>= λ b. cpr_bitget b j)
      ≡ (if i == j then some false else cpr_bitget (to bits) j)
bitget-bitclr bits i j hi hj =
    rw
      (
        bitclr_block bits i hi,
        cpr_bitget_lem bits j hj,
        cpr_bitget_lem (set bits (i / 8) (bit_and (get_or bits (i / 8) 0) (255 - bytemask i))) j
            (rw length-set hj),
        bit_at-bitclr bits i j hi,
      )
      (ground arith)
