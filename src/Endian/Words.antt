-- ===== src/Endian/Words.antt =====
-- What the shifts and masks of endian.h compute, as arithmetic.
use native.Mathlib.Nat.{mul-div_cancel, one-le-pow}
use libcpr.Base.{
  ℕ, ◌+◌, ◌*◌, ◌/◌, ◌%◌, ◌^◌, ◌<◌, bit_and, bit_or, ◌≡◌, arith, bit_or_disjoint, bit_and_low,
  bit_and_shifted,
}

pub masked_byte : (k v : ℕ) → bit_and v (0xff * 2 ^ k) / 2 ^ k % 2 ^ 8 ≡ v / 2 ^ k % 256
masked_byte k v =
    rw
      (
        bit_and_shifted k v 0xff,
        mul-div_cancel (bit_and (v / 2 ^ k) 0xff) (one-le-pow k 2 (omega arith)),
        bit_and_low 8 (v / 2 ^ k),
      )
      (omega arith)

pub low_byte : (v : ℕ) → bit_and v 0xff % 2 ^ 8 ≡ v % 256
low_byte v = rw (bit_and_low 8 v) (omega arith)

pub join16 : (b0 b1 : ℕ) → b0 < 256 → b1 < 256 → bit_or (b0 * 2 ^ 8) b1 % 2 ^ 16 ≡ b0 * 256 + b1
join16 b0 b1 h0 h1 =
    rw (bit_or_disjoint 8 (b0 * 2 ^ 8) b1 (omega arith) (omega arith)) (omega arith)

module _ (b0 b1 b2 b3 : ℕ) (h0 : b0 < 256) (h1 : b1 < 256) (h2 : b2 < 256) (h3 : b3 < 256) where
  -- Four bytes from weight `2 ^ s` on, for both the words of 4 bytes and the high half of 8.
  pub join_upper :
      bit_or (bit_or (bit_or (b0 * 2 ^ 56) (b1 * 2 ^ 48)) (b2 * 2 ^ 40)) (b3 * 2 ^ 32)
      ≡ (((b0 * 256 + b1) * 256 + b2) * 256 + b3) * 2 ^ 32
  join_upper = rw (bit_or_disjoint 56 (b0 * 2 ^ 56) (b1 * 2 ^ 48) (omega arith) (omega arith)) (
      rw (bit_or_disjoint 48 (b0 * 2 ^ 56 + b1 * 2 ^ 48) (b2 * 2 ^ 40) (omega arith) (omega arith))
        (rw
          (bit_or_disjoint 40 (b0 * 2 ^ 56 + b1 * 2 ^ 48 + b2 * 2 ^ 40) (b3 * 2 ^ 32) (omega arith)
            (omega arith))
          (omega arith)))

  pub join_lower :
      (q : ℕ)
      → bit_or (bit_or (bit_or (bit_or (q * 2 ^ 32) (b0 * 2 ^ 24)) (b1 * 2 ^ 16)) (b2 * 2 ^ 8)) b3
        ≡ (((q * 256 + b0) * 256 + b1) * 256 + b2) * 256 + b3
  join_lower q = rw (bit_or_disjoint 32 (q * 2 ^ 32) (b0 * 2 ^ 24) (omega arith) (omega arith)) (
      rw (bit_or_disjoint 24 (q * 2 ^ 32 + b0 * 2 ^ 24) (b1 * 2 ^ 16) (omega arith) (omega arith)) (
        rw
          (bit_or_disjoint 16 (q * 2 ^ 32 + b0 * 2 ^ 24 + b1 * 2 ^ 16) (b2 * 2 ^ 8) (omega arith)
            (omega arith))
          (rw
            (bit_or_disjoint 8 (q * 2 ^ 32 + b0 * 2 ^ 24 + b1 * 2 ^ 16 + b2 * 2 ^ 8) b3
              (omega arith) (omega arith))
            (omega arith))))

  pub join32 :
      bit_or (bit_or (bit_or (b0 * 2 ^ 24) (b1 * 2 ^ 16)) (b2 * 2 ^ 8)) b3 % 2 ^ 32
      ≡ ((b0 * 256 + b1) * 256 + b2) * 256 + b3
  join32 = rw (bit_or_disjoint 24 (b0 * 2 ^ 24) (b1 * 2 ^ 16) (omega arith) (omega arith)) (
      rw (bit_or_disjoint 16 (b0 * 2 ^ 24 + b1 * 2 ^ 16) (b2 * 2 ^ 8) (omega arith) (omega arith)) (
        rw
          (bit_or_disjoint 8 (b0 * 2 ^ 24 + b1 * 2 ^ 16 + b2 * 2 ^ 8) b3 (omega arith)
            (omega arith))
          (omega arith)))
