-- ===== src/Memory/Fill.antt =====
-- `cpr_memset` and `cpr_memcpy`: what they write, and when they leave the block.
use libcpr.Base.{
  ℕ, zero, suc, ◌+◌, ◌≤◌, ◌<◌, ◌≡◌, refl, inl, inr, true, false, none, some, List, [], ◌∷◌, ◌++◌,
  append_assoc, arith, length, take, drop, replicate, set, length-set, length-append, ltb, leb,
  if◌then◌else◌, Bool-cases, leb→le, to, u8, store-append,
}
use libcpr.Memory.{cpr_memcpy, cpr_memset, memset_from}

memset_from_lem :
    (n : ℕ) (pre mid : List ℕ) (value : ℕ)
    → n ≤ length mid
    → memset_from (pre ++ mid) (length pre) value n
      ≡ some (pre ++ (replicate n (u8 value) ++ drop n mid))
unfolding memset_from
memset_from_lem zero pre mid value h = refl
memset_from_lem (suc n) pre [] value h = absurd (omega arith)
memset_from_lem (suc n) pre (x ∷ mid) value h = rw (
  store-append pre x mid (u8 value),
  ← append_assoc pre (u8 value ∷ []) mid,
  (let e : length pre + 1 ≡ length (pre ++ (u8 value ∷ [])) =
        omega (arith, length-append pre (u8 value ∷ [])) in
      e),
  memset_from_lem n (pre ++ (u8 value ∷ [])) mid value (omega arith),
  append_assoc,
)

memset_from_overrun :
    (n : ℕ) (block : List ℕ) (pos value : ℕ)
    → length block < pos + n
    → 0 < n
    → memset_from block pos value n ≡ none
unfolding memset_from
memset_from_overrun zero block pos value h p = absurd (omega arith)
memset_from_overrun (suc zero) block pos value h p = ground arith
memset_from_overrun (suc (suc n)) block pos value h p = ground (
  arith,
  length-set block pos (u8 value),
  memset_from_overrun (suc n) (set block pos (u8 value)) (pos + 1) value,
)

-- `cpr_memset` writes the low byte of `value` to the first `size` bytes of a block that has so
-- many and keeps the others; on a smaller block it writes out of bounds.
pub cpr_memset_lem :
    (block : List ℕ) (value size : ℕ)
    → cpr_memset (to block) value size ≡ (
        if leb size (length block)
        then some (to (replicate size (u8 value) ++ drop size block))
        else none)
unfolding cpr_memset
cpr_memset_lem block value size = elim (Bool-cases (leb size (length block))) [
  | inl fits ↦ rw (fits, memset_from_lem size [] block value (leb→le _ _ fits))
  | inr over ↦ rw (over, memset_from_overrun size block 0 value (ground arith) (ground arith))
]

-- `cpr_memcpy` between blocks that have the sizes it is told never leaves them: it returns false
-- and leaves the destination as it was where `src_size` exceeds `dst_size`, and otherwise returns
-- true and copies.
pub cpr_memcpy_lem :
    (dst src : List ℕ) (dst_size src_size : ℕ)
    → dst_size ≤ length dst
    → src_size ≤ length src
    → cpr_memcpy (to dst) dst_size (to src) src_size
      ≡ some (
          if ltb dst_size src_size
          then (false, to dst)
          else (true, to (take src_size src ++ drop src_size dst)))
unfolding cpr_memcpy
cpr_memcpy_lem dst src dst_size src_size hd hs = ground arith
