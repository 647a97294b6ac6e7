-- ===== src/Bitset/Lowest.antt =====
-- Searching for the lowest bit that is set, or clear.
use libcpr.Base.{
  ℕ, zero, suc, ◌+◌, ◌-◌, ◌*◌, ◌/◌, ◌%◌, ◌^◌, ◌≤◌, ◌<◌, ◌≡◌, ◌≢◌, refl, ◌∙◌, ◌⊎◌, inl, inr, true,
  some, List, arith, length, get_or, All, All-get_or, get_elem?-eq-get_or, ltb, ◌==◌, ◌&&◌, ◌||◌,
  all_below, all_below_sound, to, IsByte, dec_lt, ℕ_discrete, test_bit, test_bit-le-one,
}
use libcpr.Bitset.{cpr_bitsize, ffs, lowestset_loop, lowestclr_loop, cpr_lowestset, cpr_lowestclr}
use libcpr.Bitset.Bit.{bit_at}
use libcpr.Bitset.Count.{count_ones, ones_of, bit_at_byte, count_ones_byte, count_ones_mono}

-- What `ffs` finds in a byte that is not 0, and in the complement of one that is not 0xff.
set_table :
    all_below 256 (λ b.
      b == 0 || (ltb (ffs b - 1) 8 && ones_of b (ffs b - 1) == 0 && test_bit b (ffs b - 1) == 1))
    ≡ true
unfolding all_below ffs
set_table = refl

clr_table :
    all_below 256 (λ b.
      b == 0xff
      || (ltb (ffs (2 ^ 32 - 1 - b) - 1) 8
          && ones_of b (ffs (2 ^ 32 - 1 - b) - 1) == ffs (2 ^ 32 - 1 - b) - 1
          && test_bit b (ffs (2 ^ 32 - 1 - b) - 1) == 0))
    ≡ true
unfolding all_below ffs
clr_table = refl

abbrev set_place : ℕ → ℕ
set_place b = ffs b - 1

abbrev clr_place : ℕ → ℕ
clr_place b = ffs (2 ^ 32 - 1 - b) - 1

set_place_lem :
    (b : ℕ)
    → b < 256
    → b ≢ 0
    → (set_place b < 8) × (ones_of b (set_place b) ≡ 0) × (test_bit b (set_place b) ≡ 1)
set_place_lem b h ne = ground (arith, all_below_sound 256 _ b set_table h)

clr_place_lem :
    (b : ℕ)
    → b < 256
    → b ≢ 0xff
    → (clr_place b < 8) × (ones_of b (clr_place b) ≡ clr_place b) × (test_bit b (clr_place b) ≡ 0)
clr_place_lem b h ne = ground (arith, all_below_sound 256 _ b clr_table h)

-- All of the first `n` bits are set, if all of the first `m ≥ n` are.
count_ones-le : (bits : List ℕ) (n : ℕ) → count_ones bits n ≤ n
count_ones-le bits zero = omega arith
count_ones-le bits (suc n) =
    omega (arith, count_ones-le bits n, test_bit-le-one (get_or bits (n / 8) 0) (n % 8))

count_ones_full : (bits : List ℕ) (n m : ℕ) → n ≤ m → count_ones bits m ≡ m → count_ones bits n ≡ n
count_ones_full bits n zero h e = let z : n ≡ 0 = omega arith in rw z refl
count_ones_full bits n (suc m) h e = elim (dec_lt m n) [
  | yes last ↦ let s : n ≡ suc m = omega arith in rw s e
  | no less ↦
      count_ones_full bits n m (omega arith)
        (omega (arith, count_ones-le bits m, test_bit-le-one (get_or bits (m / 8) 0) (m % 8)))
]

-- What a search returns: a place up to `bitsize`, below which there are `ones` ones, and where the
-- bit is `bit`, if it is not `bitsize`.
pub record IsLowest (bits : List ℕ) (bitsize ones bit r : ℕ) : Type 0 where
  pub within : r ≤ bitsize
  pub below : count_ones bits r ≡ ones
  pub at_place : (r ≡ bitsize) ⊎ (bit_at bits r ≡ bit)

module _ (bits : List ℕ) (bitsize : ℕ) (b : All IsByte bits) where
  abbrev byte : ℕ → ℕ
  byte i = get_or bits i 0

  byte-lt : (i : ℕ) → byte i < 256
  byte-lt i = All-get_or IsByte bits i 0 b (omega arith)

  -- What a loop from byte `i` on is to return.
  abbrev SetSearch : ℕ → ℕ → Type 0
  SetSearch left i =
      (r : ℕ) × (lowestset_loop bits bitsize left i ≡ some r) × IsLowest bits bitsize 0 1 r

  abbrev ClrSearch : ℕ → ℕ → Type 0
  ClrSearch left i =
      (r : ℕ) × (lowestclr_loop bits bitsize left i ≡ some r) × IsLowest bits bitsize r 0 r

  set_skip :
      (left i : ℕ) → i < length bits → byte i ≡ 0 → SetSearch left (i + 1) → SetSearch (suc left) i
  unfolding lowestset_loop
  set_skip left i h clear (r, returns, lowest) =
      (r, ground (arith, get_elem?-eq-get_or bits i 0 h), lowest)

  clr_skip :
      (left i : ℕ)
      → i < length bits
      → byte i ≡ 0xff
      → ClrSearch left (i + 1)
      → ClrSearch (suc left) i
  unfolding lowestclr_loop
  clr_skip left i h full (r, returns, lowest) =
      (r, ground (arith, get_elem?-eq-get_or bits i 0 h), lowest)

  set_stop :
      (left i : ℕ)
      → i < length bits
      → byte i ≢ 0
      → count_ones bits (i * 8) ≡ 0
      → SetSearch (suc left) i
  unfolding lowestset_loop
  set_stop left i h some_set none_yet =
      let p : ℕ = set_place (byte i) in
      let (small, below, one) = set_place_lem (byte i) (byte-lt i) some_set in
      let upto : count_ones bits (i * 8 + p) ≡ 0 =
        omega (arith, count_ones_byte bits i p (i * 8 + p) refl (omega arith)) in
      elim (dec_lt (i * 8 + p) bitsize) [
        | yes inside ↦ (
          i * 8 + p,
          ground (arith, get_elem?-eq-get_or bits i 0 h),
          record {
            within = omega arith;
            below = upto;
            at_place = inr (bit_at_byte bits i p small ∙ one);
          },
        )
        | no padding ↦ (
          bitsize,
          ground (arith, get_elem?-eq-get_or bits i 0 h),
          record {
            within = omega arith;
            below = omega (arith, count_ones_mono bits bitsize (i * 8 + p) (omega arith));
            at_place = inl refl;
          },
        )
      ]

  clr_stop :
      (left i : ℕ)
      → i < length bits
      → byte i ≢ 0xff
      → count_ones bits (i * 8) ≡ i * 8
      → ClrSearch (suc left) i
  unfolding lowestclr_loop
  clr_stop left i h some_clear all_set =
      let p : ℕ = clr_place (byte i) in
      let (small, below, zero_bit) = clr_place_lem (byte i) (byte-lt i) some_clear in
      let upto : count_ones bits (i * 8 + p) ≡ i * 8 + p =
        omega (arith, count_ones_byte bits i p (i * 8 + p) refl (omega arith)) in
      elim (dec_lt (i * 8 + p) bitsize) [
        | yes inside ↦ (
          i * 8 + p,
          ground (arith, get_elem?-eq-get_or bits i 0 h),
          record {
            within = omega arith;
            below = upto;
            at_place = inr (bit_at_byte bits i p small ∙ zero_bit);
          },
        )
        | no padding ↦ (
          bitsize,
          ground (arith, get_elem?-eq-get_or bits i 0 h),
          record {
            within = omega arith;
            below = count_ones_full bits bitsize (i * 8 + p) (omega arith) upto;
            at_place = inl refl;
          },
        )
      ]

  set_search :
      (left i : ℕ)
      → i + left ≤ length bits
      → bitsize ≤ (i + left) * 8
      → count_ones bits (i * 8) ≡ 0
      → SetSearch left i
  set_search zero i h e none_yet = (
    bitsize,
    unfold lowestset_loop in refl,
    record {
      within = omega arith;
      below = omega (arith, count_ones_mono bits bitsize (i * 8) (omega arith));
      at_place = inl refl;
    },
  )
  set_search (suc left) i h e none_yet = elim (ℕ_discrete (byte i) 0) [
    | yes clear ↦ set_skip left i (omega arith) clear (
        set_search left (i + 1) (omega arith) (omega arith) (
          count_ones_byte bits i 8 ((i + 1) * 8) (omega arith) (omega arith)
          ∙ rw (clear, none_yet) refl))
    | no some_set ↦ set_stop left i (omega arith) some_set none_yet
  ]

  clr_search :
      (left i : ℕ)
      → i + left ≤ length bits
      → bitsize ≤ (i + left) * 8
      → count_ones bits (i * 8) ≡ i * 8
      → ClrSearch left i
  clr_search zero i h e all_set = (
    bitsize,
    unfold lowestclr_loop in refl,
    record {
      within = omega arith;
      below = count_ones_full bits bitsize (i * 8) (omega arith) all_set;
      at_place = inl refl;
    },
  )
  clr_search (suc left) i h e all_set = elim (ℕ_discrete (byte i) 0xff) [
    | yes full ↦ clr_skip left i (omega arith) full (
        clr_search left (i + 1) (omega arith) (omega arith) (
          count_ones_byte bits i 8 ((i + 1) * 8) (omega arith) (omega arith)
          ∙ rw (full, all_set) (omega arith)))
    | no some_clear ↦ clr_stop left i (omega arith) some_clear all_set
  ]

  room : bitsize ≤ (0 + cpr_bitsize bitsize) * 8
  unfolding cpr_bitsize
  room = ground arith

  -- `cpr_lowestset` of a block that holds `bitsize` bits returns the place of the first 1 among
  -- them, or `bitsize` if there is none: no bit below the result is 1.
  pub cpr_lowestset_lem :
      cpr_bitsize bitsize ≤ length bits
      → (r : ℕ) × (cpr_lowestset (to bits) bitsize ≡ some r) × IsLowest bits bitsize 0 1 r
  cpr_lowestset_lem h =
      unfold cpr_lowestset in set_search (cpr_bitsize bitsize) 0 (omega arith) room refl

  -- `cpr_lowestclr` of a block that holds `bitsize` bits returns the place of the first 0 among
  -- them, or `bitsize` if there is none: all bits below the result are 1.
  pub cpr_lowestclr_lem :
      cpr_bitsize bitsize ≤ length bits
      → (r : ℕ) × (cpr_lowestclr (to bits) bitsize ≡ some r) × IsLowest bits bitsize r 0 r
  cpr_lowestclr_lem h =
      unfold cpr_lowestclr in clr_search (cpr_bitsize bitsize) 0 (omega arith) room refl
