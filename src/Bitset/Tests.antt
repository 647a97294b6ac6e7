-- ===== src/Bitset/Tests.antt =====
-- Runs of the functions of bitset.c, and the theorems at concrete inputs.
use libcpr.Base.{
  ℕ, ◌≡◌, refl, true, false, none, some, List, [], ◌∷◌, arith, replicate, null, to, Malloc, ◌>>=◌,
}
use libcpr.Bitset.{
  cpr_bitsize, cpr_makemask, cpr_foldmask, cpr_bitget, cpr_bitset, cpr_bitclr, cpr_anybits,
  cpr_bitcount, cpr_allbits, cpr_lowestclr, cpr_lowestset,
}
use libcpr.Bitset.Bit.{bitget-bitset, bitget-bitclr}
use libcpr.Bitset.Count.{cpr_bitcount_lem, cpr_allbits_lem, cpr_allbits_padding, cpr_anybits_lem}
use libcpr.Bitset.Lowest.{IsLowest, cpr_lowestset_lem, cpr_lowestclr_lem}
use libcpr.Bitset.Mask.{bitget-makemask, bitget-foldmask}

-- Ten bits in two bytes; bits 0, 1, 2, 3 and 9 are set.
abbrev ten : List ℕ
ten = 0x0f ∷ 0x02 ∷ []

bitcount_run : cpr_bitcount (to ten) 10 ≡ some 5
unfolding cpr_bitcount
bitcount_run = refl

lowest_run :
    (cpr_lowestclr (to ten) 10 ≡ some 4) × (cpr_lowestset (to (0 ∷ 0x40 ∷ [])) 14 ≡ some 14)
unfolding cpr_lowestclr cpr_lowestset
lowest_run = (refl, refl)

out_of_bounds : cpr_bitget (to ten) 16 ≡ none
unfolding cpr_bitget
out_of_bounds = refl

null_bits : (cpr_bitget null 3 ≡ some false) × (cpr_lowestset null 9 ≡ some 9)
unfolding cpr_bitget cpr_lowestset
null_bits = (refl, refl)

bitget-bitset_example : (cpr_bitset (to ten) 5 >>= λ b. cpr_bitget b 9) ≡ some true
unfolding cpr_bitget
bitget-bitset_example = bitget-bitset ten 5 9 (omega arith) (omega arith)

bitget_bitclr_run : (cpr_bitclr (to ten) 9 >>= λ b. cpr_bitget b 9) ≡ some false
bitget_bitclr_run = bitget-bitclr ten 9 9 (omega arith) (omega arith)

cpr_bitcount_lem_example : cpr_bitcount (to ten) 10 ≡ some 5
unfolding cpr_bitsize
cpr_bitcount_lem_example = cpr_bitcount_lem ten 10 (omega arith) (omega arith)

cpr_allbits_lem_run : cpr_allbits (to (0xff ∷ 0x03 ∷ [])) 10 ≡ some true
unfolding cpr_bitsize
cpr_allbits_lem_run = cpr_allbits_lem (0xff ∷ 0x03 ∷ []) 10 (omega arith) (omega arith) refl

cpr_allbits_padding_run : cpr_allbits (to (0xff ∷ 0xff ∷ [])) 10 ≡ some false
unfolding cpr_bitsize
cpr_allbits_padding_run =
    cpr_allbits_padding (0xff ∷ 0xff ∷ []) 10 (omega arith) (omega arith) (omega arith)

cpr_anybits_lem_run : cpr_anybits (to (0 ∷ 0x02 ∷ [])) 10 ≡ some true
unfolding cpr_bitsize
cpr_anybits_lem_run = cpr_anybits_lem (0 ∷ 0x02 ∷ []) 10 (omega arith) (omega arith)

cpr_lowestset_lem_run : (r : ℕ) × (cpr_lowestset (to ten) 10 ≡ some r) × IsLowest ten 10 0 1 r
unfolding cpr_bitsize
cpr_lowestset_lem_run = cpr_lowestset_lem ten 10 (omega arith) (omega arith)

cpr_lowestclr_lem_run : (r : ℕ) × (cpr_lowestclr (to ten) 10 ≡ some r) × IsLowest ten 10 r 0 r
unfolding cpr_bitsize
cpr_lowestclr_lem_run = cpr_lowestclr_lem ten 10 (omega arith) (omega arith)

abbrev heap : Malloc
heap size = to (replicate size 0xaa)

bitget_makemask_run :
    (cpr_makemask heap (to ten) (to (0x05 ∷ 0xff ∷ [])) 10 >>= λ out. cpr_bitget out 9) ≡ some true
unfolding cpr_bitsize cpr_bitget
bitget_makemask_run =
    bitget-makemask heap ten (0x05 ∷ 0xff ∷ []) (0xaa ∷ 0xaa ∷ []) 10 9 (omega arith) (omega arith)
      (omega arith) refl refl (omega arith)

bitget_foldmask_run :
    (cpr_foldmask (to ten) (to (0x05 ∷ 0xff ∷ [])) 10 >>= λ r. cpr_bitget r.0 9) ≡ some false
unfolding cpr_bitsize cpr_bitget
bitget_foldmask_run =
    bitget-foldmask (0x05 ∷ 0xff ∷ []) ten 10 9 (omega arith) (omega arith) (omega arith)
      (omega arith) (omega arith)
