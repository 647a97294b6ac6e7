-- ===== src/Bitset/Count.antt =====
-- Counting the ones: of a byte, of whole blocks, and what the padding of the last byte does.
use libcpr.Base.{
  ℕ, zero, suc, ◌+◌, ◌*◌, ◌/◌, ◌%◌, ◌≤◌, ◌<◌, ◌≡◌, ◌≢◌, refl, ap, ◌∙◌, Bool, true, false, Option,
  none, some, List, arith, length, set, get_or, All, All-get_or, get_elem?-eq-get_or, ltb, ◌==◌,
  ◌||◌, all_below, all_below_sound, to, IsByte, dec_lt, ℕ_discrete, test_bit,
}
use libcpr.Bitset.{
  cpr_bitsize, count_bits, bitcount_loop, cpr_bitcount, cpr_allbits, anybits_loop, cpr_anybits,
}
use libcpr.Bitset.Bit.{bit_at}

-- The ones among the first `n` bits of a block.
abbrev pub count_ones : List ℕ → ℕ → ℕ
count_ones bits zero = 0
count_ones bits (suc n) = count_ones bits n + bit_at bits n

-- The ones among the first `k` bits of a byte.
abbrev pub ones_of : ℕ → ℕ → ℕ
ones_of b zero = 0
ones_of b (suc k) = ones_of b k + test_bit b k

byte_count : Option ℕ → ℕ → Bool
byte_count none n = false
byte_count (some m) n = m == n

count_table : all_below 256 (λ b. byte_count (count_bits b) (ones_of b 8)) ≡ true
unfolding all_below count_bits byte_count
count_table = refl

byte_count_sound : (o : Option ℕ) (n : ℕ) → byte_count o n ≡ true → o ≡ some n
unfolding byte_count
byte_count_sound none n h = cc
byte_count_sound (some m) n h = ap some (ground arith)

-- Eight rounds are enough for a byte.
count_bits_lem : (b : ℕ) → b < 256 → count_bits b ≡ some (ones_of b 8)
count_bits_lem b h =
    byte_count_sound _ _
      (all_below_sound 256 (λ b. byte_count (count_bits b) (ones_of b 8)) b count_table h)

pub bit_at_byte :
    (bits : List ℕ) (i k : ℕ) → k < 8 → bit_at bits (i * 8 + k) ≡ test_bit (get_or bits i 0) k
bit_at_byte bits i k h =
    let q : (i * 8 + k) / 8 ≡ i = omega arith in
    let r : (i * 8 + k) % 8 ≡ k = omega arith in rw (q, r) refl

-- The ones up to a place inside byte `i`.
pub count_ones_byte :
    (bits : List ℕ) (i k n : ℕ)
    → n ≡ i * 8 + k
    → k ≤ 8
    → count_ones bits n ≡ count_ones bits (i * 8) + ones_of (get_or bits i 0) k
count_ones_byte bits i zero n e h = let e' : n ≡ i * 8 = omega arith in rw e' (omega arith)
count_ones_byte bits i (suc k) zero e h = absurd (omega arith)
count_ones_byte bits i (suc k) (suc n) e h =
    let e' : n ≡ i * 8 + k = omega arith in
    omega (
      arith,
      count_ones_byte bits i k n e' (omega arith),
      ap (bit_at bits) e' ∙ bit_at_byte bits i k (omega arith),
    )

bitcount_loop_lem :
    (bits : List ℕ) (left i : ℕ)
    → i + left ≤ length bits
    → All IsByte bits
    → bitcount_loop bits left i (count_ones bits (i * 8)) ≡ some (count_ones bits ((i + left) * 8))
unfolding bitcount_loop
bitcount_loop_lem bits zero i h b = ap (λ n. some (count_ones bits n)) (omega arith)
bitcount_loop_lem bits (suc left) i h b =
    rw
      (
        get_elem?-eq-get_or bits i 0 (omega arith),
        count_bits_lem (get_or bits i 0) (All-get_or IsByte bits i 0 b (omega arith)),
        ← count_ones_byte bits i 8 ((i + 1) * 8) (omega arith) (omega arith),
        bitcount_loop_lem bits left (i + 1) (omega arith) b,
      )
      (ap (λ n. some (count_ones bits n)) (omega arith))

-- `cpr_bitcount` counts every one of the bytes that hold `bitsize` bits, the bits past `bitsize`
-- in the last byte included.
pub cpr_bitcount_lem :
    (bits : List ℕ) (bitsize : ℕ)
    → cpr_bitsize bitsize ≤ length bits
    → All IsByte bits
    → cpr_bitcount (to bits) bitsize ≡ some (count_ones bits (cpr_bitsize bitsize * 8))
unfolding cpr_bitcount
cpr_bitcount_lem bits zero h b = refl
cpr_bitcount_lem bits (suc n) h b =
    let some_bits : (suc n == 0) ≡ false = ground arith in
    rw some_bits (
      bitcount_loop_lem bits (cpr_bitsize (suc n)) 0 (omega arith) b
      ∙ ap (λ n. some (count_ones bits n)) (omega arith))

-- `cpr_allbits` tells whether each of the first `bitsize` bits is set, where the bits past
-- `bitsize` in the last byte are clear.
pub cpr_allbits_lem :
    (bits : List ℕ) (bitsize : ℕ)
    → cpr_bitsize bitsize ≤ length bits
    → All IsByte bits
    → count_ones bits (cpr_bitsize bitsize * 8) ≡ count_ones bits bitsize
    → cpr_allbits (to bits) bitsize ≡ some (count_ones bits bitsize == bitsize)
unfolding cpr_allbits
cpr_allbits_lem bits bitsize h b clear = rw (cpr_bitcount_lem bits bitsize h b, clear)

-- Where all the `bitsize` bits are set and so is a bit of the padding, `cpr_allbits` answers no.
pub cpr_allbits_padding :
    (bits : List ℕ) (bitsize : ℕ)
    → cpr_bitsize bitsize ≤ length bits
    → All IsByte bits
    → bitsize < count_ones bits (cpr_bitsize bitsize * 8)
    → cpr_allbits (to bits) bitsize ≡ some false
unfolding cpr_allbits
cpr_allbits_padding bits bitsize h b more = ground (arith, cpr_bitcount_lem bits bitsize h b)

pub count_ones_mono : (bits : List ℕ) (m n : ℕ) → m ≤ n → count_ones bits m ≤ count_ones bits n
count_ones_mono bits zero n h = omega arith
count_ones_mono bits (suc m) zero h = absurd (omega arith)
count_ones_mono bits (suc m) (suc n) h = elim (dec_lt m n) [
  | yes less ↦ omega (arith, count_ones_mono bits (suc m) n (omega arith))
  | no last ↦ let e : m ≡ n = omega arith in rw e (omega arith)
]

nonzero_table : all_below 256 (λ b. ltb 0 (ones_of b 8) || b == 0) ≡ true
unfolding all_below
nonzero_table = refl

ones_of_pos : (b : ℕ) → b < 256 → b ≢ 0 → 0 < ones_of b 8
ones_of_pos b h ne =
    ground (arith, all_below_sound 256 (λ b. ltb 0 (ones_of b 8) || b == 0) b nonzero_table h)

anybits_loop_lem :
    (bits : List ℕ) (left i : ℕ)
    → i + left ≤ length bits
    → All IsByte bits
    → count_ones bits (i * 8) ≡ 0
    → anybits_loop bits left i ≡ some (ltb 0 (count_ones bits ((i + left) * 8)))
unfolding anybits_loop
anybits_loop_lem bits zero i h b none_yet =
    let e : (i + 0) * 8 ≡ i * 8 = omega arith in rw (e, none_yet)
anybits_loop_lem bits (suc left) i h b none_yet =
    let byte = count_ones_byte bits i 8 ((i + 1) * 8) (omega arith) (omega arith) in
    let e : (i + suc left) * 8 ≡ (i + 1 + left) * 8 = omega arith in
    rw (get_elem?-eq-get_or bits i 0 (omega arith), e)
      (elim (ℕ_discrete (get_or bits i 0) 0) [
        | yes clear ↦
            rw clear (anybits_loop_lem bits left (i + 1) (omega arith) b (ground (arith, byte)))
        | no set ↦ ground (
          arith,
          byte,
          ones_of_pos (get_or bits i 0) (All-get_or IsByte bits i 0 b (omega arith)) set,
          count_ones_mono bits ((i + 1) * 8) ((i + 1 + left) * 8) (omega arith),
        )
      ])

-- `cpr_anybits` tells whether one of the bytes that hold `bitsize` bits has a bit set.
pub cpr_anybits_lem :
    (bits : List ℕ) (bitsize : ℕ)
    → cpr_bitsize bitsize ≤ length bits
    → All IsByte bits
    → cpr_anybits (to bits) bitsize ≡ some (ltb 0 (count_ones bits (cpr_bitsize bitsize * 8)))
unfolding cpr_anybits
cpr_anybits_lem bits bitsize h b =
    anybits_loop_lem bits (cpr_bitsize bitsize) 0 (omega arith) b refl
    ∙ ap (λ n. some (ltb 0 (count_ones bits n))) (omega arith)
