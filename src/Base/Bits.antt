-- ===== src/Base/Bits.antt =====
-- `&` and `|` of C on unsigned numbers: the law of the lowest digit, disjoint fields, masks, and
-- single bits.
use Prim.Native.Nat.{
  ℕ, zero, suc, ◌+◌, ◌-◌, ◌*◌, ◌/◌, ◌%◌, ◌^◌, ◌≤◌, ◌<◌, min, max, bit_and, bit_or, digits, bitwise,
  bit_and-bitwise, bit_or-bitwise,
}
use mathlib.Core.Path.{◌≡◌, refl, ap, ◌∙◌}
use native.Mathlib.Nat.{pow-suc, one-le-pow}
use native.Mathlib.Omega.{arith}
use libcpr.Base.Tests.{if◌then◌else◌, ◌==◌}

-- One unit of fuel more than digits changes nothing, and so do more.
one_spare_digit :
    (z : ℕ → ℕ) (f : ℕ → ℕ → ℕ) (n a b : ℕ) → a ≤ n → digits z f (suc n) a b ≡ digits z f n a b
one_spare_digit z f zero zero b h = refl
one_spare_digit z f (suc n) zero b h = refl
one_spare_digit z f zero (suc a) b h = absurd (omega arith)
one_spare_digit z f (suc n) (suc a) b h =
    ap (λ t. t * 2 + f (suc a % 2) (b % 2))
      (one_spare_digit z f n (suc a / 2) (b / 2) (omega arith))

spare_digits :
    (z : ℕ → ℕ) (f : ℕ → ℕ → ℕ) (spare n m a b : ℕ)
    → a ≤ n
    → m ≡ n + spare
    → digits z f m a b ≡ digits z f n a b
spare_digits z f zero n m a b h e = let same : m ≡ n = omega arith in rw same refl
spare_digits z f (suc spare) n m a b h e =
    spare_digits z f spare (suc n) m a b (omega arith) (omega arith) ∙ one_spare_digit z f n a b h

-- An operation on the digits, `f` on each pair of them and `z` once the left number has run out,
-- splits off the pair of lowest digits.
lowest_digits :
    (op f : ℕ → ℕ → ℕ) (z : ℕ → ℕ)
    → ((a b : ℕ) → op a b ≡ bitwise z f a b)
    → ((b : ℕ) → z b ≡ z (b / 2) * 2 + f 0 (b % 2))
    → (a b : ℕ) → op a b ≡ op (a / 2) (b / 2) * 2 + f (a % 2) (b % 2)
lowest_digits op f z means out zero b = rw (means 0 b, means 0 (b / 2)) (out b)
lowest_digits op f z means out (suc a) b =
    rw (means (suc a) b, means (suc a / 2) (b / 2))
      (ap (λ t. t * 2 + f (suc a % 2) (b % 2))
        (spare_digits z f (a - suc a / 2) _ _ _ _ (omega arith) (omega arith)))

pub bit_or_step : (x y : ℕ) → bit_or x y ≡ bit_or (x / 2) (y / 2) * 2 + max (x % 2) (y % 2)
bit_or_step = lowest_digits bit_or max (λ y. y) bit_or-bitwise (λ y. omega arith)

pub bit_and_step : (x y : ℕ) → bit_and x y ≡ bit_and (x / 2) (y / 2) * 2 + min (x % 2) (y % 2)
bit_and_step = lowest_digits bit_and min (λ y. 0) bit_and-bitwise (λ y. omega arith)

-- Zero on the right, by induction on a bound of the left number.
zero_right : (bound a : ℕ) → a ≤ bound → (bit_or a 0 ≡ a) × (bit_and a 0 ≡ 0)
zero_right bound zero small = (refl, refl)
zero_right zero (suc a) small = absurd (omega arith)
zero_right (suc bound) (suc a) small =
    let (same, none_left) = zero_right bound (suc a / 2) (omega arith) in
    (omega (arith, bit_or_step (suc a) 0, same), omega (arith, bit_and_step (suc a) 0, none_left))

pub bit_or-zero : (a : ℕ) → bit_or a 0 ≡ a
bit_or-zero a = (zero_right a a (omega arith)).0

pub bit_and-zero : (a : ℕ) → bit_and a 0 ≡ 0
bit_and-zero a = (zero_right a a (omega arith)).1

twice_shift : (q k : ℕ) → q * 2 ^ suc k ≡ 2 * (q * 2 ^ k)
twice_shift q k = omega (arith, ap (λ (t : ℕ). q * t) (pow-suc 2 k))

bit_or_disjoint_parts : (k q r : ℕ) → r < 2 ^ k → bit_or (q * 2 ^ k) r ≡ q * 2 ^ k + r
bit_or_disjoint_parts zero q r h = ground (arith, bit_or-zero q)
bit_or_disjoint_parts (suc k) q r h = ground (
  arith,
  bit_or_step (q * 2 ^ suc k) r,
  twice_shift q k,
  bit_or_disjoint_parts k q (r / 2) (omega (arith, pow-suc 2 k)),
)

-- `a | b` is a sum where the low bits of `a` that `b` may occupy are clear.
pub bit_or_disjoint : (k a b : ℕ) → a % 2 ^ k ≡ 0 → b < 2 ^ k → bit_or a b ≡ a + b
bit_or_disjoint k a b clear fits =
    let whole : a ≡ a / 2 ^ k * 2 ^ k = grind arith in
    rw whole (bit_or_disjoint_parts k (a / 2 ^ k) b fits)

bit_and_low_parts : (k q r : ℕ) → r < 2 ^ k → bit_and (q * 2 ^ k + r) (2 ^ k - 1) ≡ r
bit_and_low_parts zero q r h = rw bit_and-zero (omega arith)
bit_and_low_parts (suc k) q r h = ground (
  arith,
  bit_and_step (q * 2 ^ suc k + r) (2 ^ suc k - 1),
  twice_shift q k,
  pow-suc 2 k,
  bit_and_low_parts k q (r / 2) (omega (arith, pow-suc 2 k)),
)

-- `a & (2^k - 1)` is a remainder.
pub bit_and_low : (k a : ℕ) → bit_and a (2 ^ k - 1) ≡ a % 2 ^ k
bit_and_low k a = ground (arith, one-le-pow k 2, bit_and_low_parts k (a / 2 ^ k) (a % 2 ^ k))

div-pow-suc : (a k : ℕ) → a / 2 ^ suc k ≡ a / 2 / 2 ^ k
div-pow-suc a k = rw pow-suc (grind arith)

-- A mask that is shifted left leaves the low bits out.
pub bit_and_shifted : (k a m : ℕ) → bit_and a (m * 2 ^ k) ≡ bit_and (a / 2 ^ k) m * 2 ^ k
bit_and_shifted zero a m = ground arith
bit_and_shifted (suc k) a m = rw div-pow-suc (
    ground (
      arith,
      bit_and_step a (m * 2 ^ suc k),
      twice_shift m k,
      twice_shift (bit_and (a / 2 / 2 ^ k) m) k,
      bit_and_shifted k (a / 2) m,
    ))

-- The bit of weight `2 ^ k`.
abbrev pub test_bit : ℕ → ℕ → ℕ
test_bit a zero = a % 2
test_bit a (suc k) = test_bit (a / 2) k

pub test_bit-le-one : (a k : ℕ) → test_bit a k ≤ 1
test_bit-le-one a zero = omega arith
test_bit-le-one a (suc k) = test_bit-le-one (a / 2) k

pub test_bit-zero : (k : ℕ) → test_bit 0 k ≡ 0
test_bit-zero zero = refl
test_bit-zero (suc k) = test_bit-zero k

half_or : (a b : ℕ) → bit_or a b / 2 ≡ bit_or (a / 2) (b / 2)
half_or a b = omega (arith, bit_or_step a b)

half_and : (a b : ℕ) → bit_and a b / 2 ≡ bit_and (a / 2) (b / 2)
half_and a b = omega (arith, bit_and_step a b)

pub test_bit-bit_or : (a b k : ℕ) → test_bit (bit_or a b) k ≡ max (test_bit a k) (test_bit b k)
test_bit-bit_or a b zero = omega (arith, bit_or_step a b)
test_bit-bit_or a b (suc k) = rw half_or (test_bit-bit_or (a / 2) (b / 2) k)

pub test_bit-bit_and : (a b k : ℕ) → test_bit (bit_and a b) k ≡ min (test_bit a k) (test_bit b k)
test_bit-bit_and a b zero = omega (arith, bit_and_step a b)
test_bit-bit_and a b (suc k) = rw half_and (test_bit-bit_and (a / 2) (b / 2) k)

half_pow : (k : ℕ) → 2 ^ suc k / 2 ≡ 2 ^ k
half_pow k = omega (arith, pow-suc 2 k)

pub test_bit-pow : (k j : ℕ) → test_bit (2 ^ k) j ≡ (if k == j then 1 else 0)
test_bit-pow zero zero = refl
test_bit-pow zero (suc j) = ground (arith, test_bit-zero j)
test_bit-pow (suc k) zero = ground (arith, pow-suc 2 k)
test_bit-pow (suc k) (suc j) = rw half_pow (ground (arith, test_bit-pow k j))

-- `a & (1 << k)` is the bit, at its weight.
pub bit_and-pow : (k a : ℕ) → bit_and a (2 ^ k) ≡ test_bit a k * 2 ^ k
bit_and-pow zero a = omega (arith, bit_and_step a 1, bit_and-zero (a / 2))
bit_and-pow (suc k) a = ground (
  arith,
  bit_and_step a (2 ^ suc k),
  pow-suc 2 k,
  twice_shift (test_bit (a / 2) k) k,
  bit_and-pow k (a / 2),
)

half_complement : (n b : ℕ) → b < 2 ^ suc n → (2 ^ suc n - 1 - b) / 2 ≡ 2 ^ n - 1 - b / 2
half_complement n b h = omega (arith, pow-suc 2 n)

-- `~b` in a word of `n` bits.
pub test_bit_complement :
    (n b k : ℕ) → b < 2 ^ n → k < n → test_bit (2 ^ n - 1 - b) k ≡ 1 - test_bit b k
test_bit_complement zero b k h lt = absurd (omega arith)
test_bit_complement (suc n) b zero h lt = omega (arith, pow-suc 2 n)
test_bit_complement (suc n) b (suc k) h lt =
    rw (half_complement n b h)
      (test_bit_complement n (b / 2) k (omega (arith, pow-suc 2 n)) (omega arith))

pub bit_or-lt : (n a b : ℕ) → a < 2 ^ n → b < 2 ^ n → bit_or a b < 2 ^ n
bit_or-lt zero a b p q =
    let a0 : a ≡ 0 = omega arith in let b0 : b ≡ 0 = omega arith in rw (a0, b0) (omega arith)
bit_or-lt (suc n) a b p q =
    let rest =
      bit_or-lt n (a / 2) (b / 2) (omega (arith, pow-suc 2 n)) (omega (arith, pow-suc 2 n)) in
    omega (arith, pow-suc 2 n, bit_or_step a b, rest)

pub bit_and-le : (n a b : ℕ) → a ≤ n → bit_and a b ≤ a
bit_and-le n zero b h = omega (arith, bit_and_step 0 b, bit_and-bitwise 0 b)
bit_and-le zero (suc a) b h = absurd (omega arith)
bit_and-le (suc n) (suc a) b h =
    omega (arith, bit_and_step (suc a) b, bit_and-le n (suc a / 2) (b / 2) (omega arith))
