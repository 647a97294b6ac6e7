-- ===== src/Bitset/Mask.antt =====
-- Masks: the bits that two blocks share, and a mask that is folded out of a block.
use libcpr.Base.{
  ℕ, zero, suc, ◌+◌, ◌-◌, ◌*◌, ◌/◌, ◌%◌, ◌≤◌, ◌<◌, min, bit_and, ◌≡◌, refl, ap, ◌∙◌, inl, inr, Bool,
  true, not, Option, some, List, [], ◌∷◌, ◌++◌, append_assoc, append-nil, arith, length, replicate,
  get_or, length-append, drop-eq-nil, All, All-get_or, get_elem?-eq-get_or, length-replicate, ltb,
  ◌==◌, ◌&&◌, if◌then◌else◌, Bool-cases, tests, to, IsByte, Malloc, store-append, load-append,
  ◌>>=◌, test_bit, test_bit-le-one, test_bit-bit_and, test_bit_complement,
}
use libcpr.Memory.Fill.{cpr_memset_lem}
use libcpr.Bitset.{
  cpr_bitsize, cpr_makebits, cpr_makemask, makemask_loop, cpr_foldmask, foldmask_loop, cpr_bitget,
}
use libcpr.Bitset.Bit.{bit_at, cpr_bitget_lem}

module _ (bits mask : List ℕ) where
  -- The `left` bytes from `pos` on, and-ed.
  abbrev and_bytes : ℕ → ℕ → List ℕ
  and_bytes pos zero = []
  and_bytes pos (suc left) =
      bit_and (get_or bits pos 0) (get_or mask pos 0) ∷ and_bytes (pos + 1) left

  length-and_bytes : (pos left : ℕ) → length (and_bytes pos left) ≡ left
  length-and_bytes pos zero = refl
  length-and_bytes pos (suc left) = ap suc (length-and_bytes (pos + 1) left)

  get_or-and_bytes :
      (pos left k : ℕ)
      → k < left
      → get_or (and_bytes pos left) k 0
        ≡ bit_and (get_or bits (pos + k) 0) (get_or mask (pos + k) 0)
  get_or-and_bytes pos zero k h = absurd (omega arith)
  get_or-and_bytes pos (suc left) zero h = let e : pos + 0 ≡ pos = omega arith in rw e refl
  get_or-and_bytes pos (suc left) (suc k) h =
      get_or-and_bytes (pos + 1) left k (omega arith)
      ∙ ap (λ i. bit_and (get_or bits i 0) (get_or mask i 0)) (omega arith)

  makemask_loop_lem :
      (pre mid : List ℕ)
      → length pre + length mid ≤ length bits
      → length pre + length mid ≤ length mask
      → makemask_loop bits mask (length mid) (length pre) (pre ++ mid)
        ≡ some (pre ++ and_bytes (length pre) (length mid))
  unfolding makemask_loop
  makemask_loop_lem pre [] hb hm = refl
  makemask_loop_lem pre (x ∷ mid) hb hm =
      let y : ℕ = bit_and (get_or bits (length pre) 0) (get_or mask (length pre) 0) in
      let next : length pre + 1 ≡ length (pre ++ (y ∷ [])) =
        omega (arith, length-append pre (y ∷ [])) in
      rw (
        get_elem?-eq-get_or bits (length pre) 0 (omega arith),
        get_elem?-eq-get_or mask (length pre) 0 (omega arith),
        store-append pre x mid y,
        next,
        ← append_assoc pre (y ∷ []) mid,
        makemask_loop_lem (pre ++ (y ∷ [])) mid (omega arith) (omega arith),
        append_assoc,
      )

module _ (malloc : Malloc) (block : List ℕ) (bitsize : ℕ)
    (got : malloc (cpr_bitsize bitsize) ≡ to block)
    (size : length block ≡ cpr_bitsize bitsize) where
  pub makebits_zeros : cpr_makebits malloc bitsize ≡ some (to (replicate (cpr_bitsize bitsize) 0))
  makebits_zeros =
      unfold cpr_makebits in
      ground (
        arith,
        got,
        size,
        cpr_memset_lem block 0 (cpr_bitsize bitsize),
        drop-eq-nil (cpr_bitsize bitsize) block,
        append-nil {A = ℕ} (replicate (cpr_bitsize bitsize) 0),
      )

  makemask_block :
      (bits mask : List ℕ)
      → 0 < bitsize
      → cpr_bitsize bitsize ≤ length bits
      → cpr_bitsize bitsize ≤ length mask
      → cpr_makemask malloc (to bits) (to mask) bitsize
        ≡ some (to (and_bytes bits mask 0 (cpr_bitsize bitsize)))
  makemask_block bits mask pos hb hm =
      let zeros : List ℕ = replicate (cpr_bitsize bitsize) 0 in
      let n : length zeros ≡ cpr_bitsize bitsize = length-replicate (cpr_bitsize bitsize) 0 in
      let loop : makemask_loop bits mask (cpr_bitsize bitsize) 0 zeros
          ≡ some (and_bytes bits mask 0 (cpr_bitsize bitsize)) =
        rw n at (makemask_loop_lem bits mask [] zeros (omega arith) (omega arith)) in
      unfold cpr_makemask in ground (arith, makebits_zeros, loop)

-- A made mask has each bit that both blocks have: where the allocation succeeds, reading a bit
-- from it gives the conjunction of the bits of the two blocks at the same offset.
pub bitget-makemask :
    (malloc : Malloc) (bits mask block : List ℕ) (bitsize j : ℕ)
    → 0 < bitsize
    → cpr_bitsize bitsize ≤ length bits
    → cpr_bitsize bitsize ≤ length mask
    → malloc (cpr_bitsize bitsize) ≡ to block
    → length block ≡ cpr_bitsize bitsize
    → j < cpr_bitsize bitsize * 8
    → (cpr_makemask malloc (to bits) (to mask) bitsize >>= λ out. cpr_bitget out j)
      ≡ (do x ← cpr_bitget (to bits) j; y ← cpr_bitget (to mask) j; some (x && y))
bitget-makemask malloc bits mask block bitsize j pos hb hm got size hj =
    let n : ℕ = cpr_bitsize bitsize in
    let inside : j / 8 < n = omega arith in
    rw
      (
        makemask_block malloc block bitsize got size bits mask pos hb hm,
        cpr_bitget_lem bits j (omega arith),
        cpr_bitget_lem mask j (omega arith),
        cpr_bitget_lem (and_bytes bits mask 0 n) j (omega (arith, length-and_bytes bits mask 0 n)),
        get_or-and_bytes bits mask 0 n (j / 8) inside,
        test_bit-bit_and (get_or bits (0 + j / 8) 0) (get_or mask (0 + j / 8) 0) (j % 8),
      )
      (both (j / 8) (omega arith))
  where
    both :
        (p : ℕ)
        → p ≡ j / 8
        → ◌≡◌ {A = Option Bool}
            (some (
              min
                (test_bit (get_or bits (0 + p) 0) (j % 8))
                (test_bit (get_or mask (0 + p) 0) (j % 8))
              == 1))
            (some ((bit_at bits j == 1) && (bit_at mask j == 1)))
    both p e =
        let z : 0 + p ≡ j / 8 = omega arith in
        rw z (
          ground (
            arith,
            test_bit-le-one (get_or bits (j / 8) 0) (j % 8),
            test_bit-le-one (get_or mask (j / 8) 0) (j % 8),
          ))

module _ (mask : List ℕ) where
  -- The first `left` bytes of a block, without the mask from `pos` on.
  abbrev folded : ℕ → ℕ → List ℕ → List ℕ
  folded pos zero bits = bits
  folded pos (suc left) [] = []
  folded pos (suc left) (b ∷ bits) =
      bit_and b (255 - get_or mask pos 0) ∷ folded (pos + 1) left bits

  length-folded : (pos left : ℕ) (bits : List ℕ) → length (folded pos left bits) ≡ length bits
  length-folded pos zero bits = refl
  length-folded pos (suc left) [] = refl
  length-folded pos (suc left) (b ∷ bits) = ap suc (length-folded (pos + 1) left bits)

  get_or-folded :
      (pos left : ℕ) (bits : List ℕ) (k : ℕ)
      → k < length bits
      → get_or (folded pos left bits) k 0 ≡ (
          if ltb k left
          then bit_and (get_or bits k 0) (255 - get_or mask (pos + k) 0)
          else get_or bits k 0)
  get_or-folded pos zero bits k h = ground arith
  get_or-folded pos (suc left) [] k h = absurd (omega arith)
  get_or-folded pos (suc left) (b ∷ bits) zero h =
      let e : pos + 0 ≡ pos = omega arith in rw e (ground arith)
  get_or-folded pos (suc left) (b ∷ bits) (suc k) h =
      let e : pos + suc k ≡ pos + 1 + k = omega arith in
      rw (e, get_or-folded (pos + 1) left bits k (omega arith)) (ground arith)

  foldmask_loop_lem :
      (left : ℕ) (pre bits : List ℕ)
      → left ≤ length bits
      → length pre + left ≤ length mask
      → foldmask_loop mask left (length pre) (pre ++ bits)
        ≡ some (pre ++ folded (length pre) left bits)
  unfolding foldmask_loop
  foldmask_loop_lem zero pre bits hb hm = refl
  foldmask_loop_lem (suc left) pre [] hb hm = absurd (omega arith)
  foldmask_loop_lem (suc left) pre (b ∷ bits) hb hm =
      let y : ℕ = bit_and b (255 - get_or mask (length pre) 0) in
      let next : length pre + 1 ≡ length (pre ++ (y ∷ [])) =
        omega (arith, length-append pre (y ∷ [])) in
      rw (
        load-append pre b bits,
        get_elem?-eq-get_or mask (length pre) 0 (omega arith),
        store-append pre b bits y,
        next,
        ← append_assoc pre (y ∷ []) bits,
        foldmask_loop_lem left (pre ++ (y ∷ [])) bits (omega arith) (omega arith),
        append_assoc,
      )

  byte_without :
      (b m k : ℕ)
      → m < 256
      → k < 8
      → (test_bit (bit_and b (255 - m)) k == 1) ≡ ((test_bit b k == 1) && not (test_bit m k == 1))
  byte_without b m k h hk =
      rw (test_bit-bit_and b (255 - m) k, test_bit_complement 8 m k h hk)
        (ground (arith, test_bit-le-one b k, test_bit-le-one m k))

  foldmask_block :
      (bits : List ℕ) (bitsize : ℕ)
      → 0 < bitsize
      → cpr_bitsize bitsize ≤ length bits
      → cpr_bitsize bitsize ≤ length mask
      → cpr_foldmask (to bits) (to mask) bitsize
        ≡ some (to (folded 0 (cpr_bitsize bitsize) bits), true)
  unfolding cpr_foldmask
  foldmask_block bits zero pos hb hm = absurd (omega arith)
  foldmask_block bits (suc n) pos hb hm =
      rw (foldmask_loop_lem (cpr_bitsize (suc n)) [] bits hb (omega arith))

  -- A folded mask takes its bits out of a block: a bit within the bytes that hold
  -- `bitsize` bits stays set where the mask has it clear, and a bit behind them stays as it was.
  pub bitget-foldmask :
      (bits : List ℕ) (bitsize j : ℕ)
      → 0 < bitsize
      → cpr_bitsize bitsize ≤ length bits
      → cpr_bitsize bitsize ≤ length mask
      → All IsByte mask
      → j / 8 < length bits
      → (cpr_foldmask (to bits) (to mask) bitsize >>= λ r. cpr_bitget r.0 j) ≡ (
          if ltb (j / 8) (cpr_bitsize bitsize)
          then (do x ← cpr_bitget (to bits) j; y ← cpr_bitget (to mask) j; some (x && not y))
          else cpr_bitget (to bits) j)
  bitget-foldmask bits bitsize j pos hb hm im hj =
      let n : ℕ = cpr_bitsize bitsize in
      let e : 0 + j / 8 ≡ j / 8 = omega arith in
      rw
        (
          foldmask_block bits bitsize pos hb hm,
          cpr_bitget_lem bits j hj,
          cpr_bitget_lem (folded 0 n bits) j (omega (arith, length-folded 0 n bits)),
          get_or-folded 0 n bits (j / 8) hj,
          e,
        )
        (elim (Bool-cases (ltb (j / 8) (cpr_bitsize bitsize))) [
          | inl within ↦ rw (
            within,
            cpr_bitget_lem mask j (omega tests),
            byte_without (get_or bits (j / 8) 0) (get_or mask (j / 8) 0) (j % 8)
                (All-get_or IsByte mask (j / 8) 0 im (omega arith)) (omega arith),
          )
          | inr behind ↦ rw behind
        ])
