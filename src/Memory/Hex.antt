-- ===== src/Memory/Hex.antt =====
-- Hexadecimal text: `cpr_hexdup` writes it and `cpr_hexload` reads it.
use libcpr.Base.{
  ℕ, zero, suc, ◌+◌, ◌-◌, ◌*◌, ◌/◌, ◌%◌, ◌^◌, ◌≤◌, ◌<◌, bit_and, bit_or, ◌≡◌, refl, ap, ap₂, ◌∙◌,
  Bool, true, false, not, Option, none, some, List, [], ◌∷◌, ◌++◌, append_assoc, append-nil, arith,
  length, drop, get_or, get_elem?, length-append, drop-eq-nil, All, ◌==◌, all_below,
  all_below_sound, Ptr, null, to, u8, u64, IsByte, load, strchr, Malloc, IsMalloc, IsBlock,
  store-append, store-append_next, bit_and_low, bit_or_disjoint, ◌>>=◌, ◌<<<◌, ◌>>>◌,
}
use libcpr.Memory.{hex, tolower, hexload_loop, cpr_hexload, hexdup_loop, cpr_hexdup}

abbrev pub hex_digit : ℕ → ℕ
hex_digit d = get_or hex d 0

-- The text of a sequence of bytes.
abbrev pub hex_text : List ℕ → List ℕ
hex_text [] = []
hex_text (b ∷ bs) = hex_digit (b / 16) ∷ hex_digit (b % 16) ∷ hex_text bs

length-hex_text : (bs : List ℕ) → length (hex_text bs) ≡ length bs * 2
length-hex_text [] = refl
length-hex_text (b ∷ bs) = omega (arith, length-hex_text bs)

abbrev found : Option ℕ → ℕ → Bool
found none d = false
found (some k) d = k == d

found_sound : (o : Option ℕ) (d : ℕ) → found o d ≡ true → o ≡ some d
found_sound none d h = cc
found_sound (some k) d h = ap some (ground arith)

digits_table : all_below 16 (λ d. found (strchr hex (tolower (hex_digit d))) d) ≡ true
unfolding all_below strchr
digits_table = refl

nonzero_table : all_below 16 (λ d. not (hex_digit d == 0)) ≡ true
unfolding all_below
nonzero_table = refl

in_range_table : all_below 16 (λ d. found (get_elem? hex d) (hex_digit d)) ≡ true
unfolding all_below
in_range_table = refl

digit_value : (d : ℕ) → d < 16 → strchr hex (tolower (hex_digit d)) ≡ some d
digit_value d h = found_sound _ d (all_below_sound 16 _ d digits_table h)

digit_nonzero : (d : ℕ) → d < 16 → (hex_digit d == 0) ≡ false
digit_nonzero d h =
    ground (arith, all_below_sound 16 (λ d. not (hex_digit d == 0)) d nonzero_table h)

load_digit : (d : ℕ) → d < 16 → load hex d ≡ some (hex_digit d)
load_digit d h =
    found_sound _ _
      (all_below_sound 16 (λ d. found (get_elem? hex d) (hex_digit d)) d in_range_table h)

-- The bytes of a pair of digits.
high_digit : (b : ℕ) → b < 256 → load hex (b >>> 4) ≡ some (hex_digit (b / 16))
high_digit b h = load_digit (b / 16) (omega arith)

low_digit : (b : ℕ) → load hex (bit_and b 0x0f) ≡ some (hex_digit (b % 16))
low_digit b = rw (bit_and_low 4 b) (load_digit (b % 16) (omega arith))

pair_value : (b : ℕ) → b < 256 → u8 (bit_or (u8 (b / 16) <<< 4) (u8 (b % 16))) ≡ b
pair_value b h =
    rw (bit_or_disjoint 4 (u8 (b / 16) * 2 ^ 4) (u8 (b % 16)) (omega arith) (omega arith))
      (omega arith)

length_two : (pre : List ℕ) (x y : ℕ) → length pre + 2 ≡ length (pre ++ (x ∷ y ∷ []))
length_two pre x y = omega (arith, length-append pre (x ∷ y ∷ []))

length_one : (pre : List ℕ) (x : ℕ) → length pre + 1 ≡ length (pre ++ (x ∷ []))
length_one pre x = omega (arith, length-append pre (x ∷ []))

hexdup_loop_lem :
    (bs tail pre mid : List ℕ)
    → All IsByte bs
    → length bs * 2 < length mid
    → hexdup_loop (length bs) (bs ++ tail) (length pre) (pre ++ mid)
      ≡ some (pre ++ (hex_text bs ++ (0 ∷ drop (length bs * 2 + 1) mid)))
unfolding hexdup_loop
hexdup_loop_lem [] tail pre [] i h = absurd (omega arith)
hexdup_loop_lem [] tail pre (x ∷ mid) i h = store-append pre x mid 0
hexdup_loop_lem (b ∷ bs) tail pre [] i h = absurd (omega arith)
hexdup_loop_lem (b ∷ bs) tail pre (x ∷ []) i h = absurd (omega arith)
hexdup_loop_lem (b ∷ bs) tail pre (x ∷ y ∷ mid) i h =
    let d1 : ℕ = hex_digit (b / 16) in
    let d2 : ℕ = hex_digit (b % 16) in
    let rest = hexdup_loop_lem bs tail (pre ++ (d1 ∷ d2 ∷ [])) mid i.1 (omega arith) in
    let e : suc (length bs) * 2 + 1 ≡ suc (suc (length bs * 2 + 1)) = omega arith in
    rw (
      high_digit b i.0,
      store-append pre x (y ∷ mid) d1,
      low_digit b,
      store-append_next pre d1 y mid d2,
      length_two pre d1 d2,
      e,
      ← append_assoc pre (d1 ∷ d2 ∷ []) mid,
      rest,
      append_assoc,
    )

-- Pairs of digits are decoded one after another, whatever follows them.
hexload_loop_pairs :
    (bs tail pre mid : List ℕ) (k left : ℕ)
    → k ≡ length bs + left
    → All IsByte bs
    → length bs ≤ length mid
    → hexload_loop k (length pre) (pre ++ mid) (hex_text bs ++ tail)
      ≡ hexload_loop left (length pre + length bs) (pre ++ (bs ++ drop (length bs) mid)) tail
hexload_loop_pairs [] tail pre mid k left e i h =
    ap₂ (λ m n. hexload_loop m n (pre ++ mid) tail) (omega arith) (omega arith)
hexload_loop_pairs (b ∷ bs) tail pre mid zero left e i h = absurd (omega arith)
hexload_loop_pairs (b ∷ bs) tail pre [] (suc k) left e i h = absurd (omega arith)
hexload_loop_pairs (b ∷ bs) tail pre (x ∷ mid) (suc k) left e i h =
    step
    ∙ hexload_loop_pairs bs tail (pre ++ (b ∷ [])) mid k left (omega arith) i.1 (omega arith)
    ∙ ap₂ (λ n out. hexload_loop left n out tail) (omega (arith, length_one pre b))
        (append_assoc pre (b ∷ []) (bs ++ drop (length bs) mid))
  where
    step :
        hexload_loop (suc k) (length pre) (pre ++ (x ∷ mid)) (hex_text (b ∷ bs) ++ tail)
        ≡ hexload_loop k (length (pre ++ (b ∷ []))) ((pre ++ (b ∷ [])) ++ mid) (hex_text bs ++ tail)
    step =
        unfold hexload_loop in
        ground (
          arith,
          digit_nonzero (b / 16) (omega arith),
          digit_value (b / 16) (omega arith),
          digit_value (b % 16) (omega arith),
          pair_value b i.0,
          store-append pre x mid b,
          length_one pre b,
          append_assoc pre (b ∷ []) mid,
        )

hexload_text :
    (bs out : List ℕ)
    → All IsByte bs
    → length bs ≤ length out
    → cpr_hexload (to out) (to (hex_text bs ++ (0 ∷ []))) (length bs)
      ≡ some (length bs, to (bs ++ drop (length bs) out))
unfolding cpr_hexload
hexload_text [] out i h = refl
hexload_text (b ∷ bs) out i h =
    rw (hexload_loop_pairs (b ∷ bs) (0 ∷ []) [] out (suc (length bs)) 0 (omega arith) i h)
      (ground arith)

terminator_value : strchr hex (tolower 0) ≡ some 16
unfolding strchr
terminator_value = refl

odd_tail :
    (d k n : ℕ) (out : List ℕ)
    → d < 16
    → hexload_loop (suc (suc k)) n out (hex_digit d ∷ 0 ∷ []) ≡ none
unfolding hexload_loop
odd_tail d k n out h = ground (arith, digit_nonzero d h, digit_value d h, terminator_value)

-- A text with an odd number of digits is read out of bounds, past its terminator, where the size
-- asked for exceeds the number of bytes: the terminator counts as a digit.
pub hexload_odd_overrun :
    (bs out : List ℕ) (d size : ℕ)
    → All IsByte bs
    → d < 16
    → length bs + 1 < size
    → size ≤ length out
    → cpr_hexload (to out) (to (hex_text bs ++ (hex_digit d ∷ 0 ∷ []))) size ≡ none
unfolding cpr_hexload
hexload_odd_overrun bs out d zero i hd h l = absurd (omega arith)
hexload_odd_overrun bs out d (suc size) i hd h l =
    rw
      (hexload_loop_pairs bs (hex_digit d ∷ 0 ∷ []) [] out (suc size)
        (suc (suc (size - length bs - 1))) (omega arith) i (omega arith))
      (rw (odd_tail d (size - length bs - 1) (0 + length bs) (bs ++ drop (length bs) out) hd))

-- The pointer that `malloc` returned, with the contents that a function has written.
abbrev pub written : Ptr (List ℕ) → List ℕ → Ptr (List ℕ)
written null out = null
written (to block) out = to out

module _ (malloc : Malloc) (allocates : IsMalloc malloc) (bs : List ℕ) (i : All IsByte bs)
    (small : length bs * 2 + 1 < 2 ^ 64) where
  size : u64 (u64 (length bs * 2) + 1) ≡ length bs * 2 + 1
  size = omega arith

  hexdup_written :
      (p : Ptr (List ℕ))
      → malloc (length bs * 2 + 1) ≡ p
      → IsBlock (length bs * 2 + 1) p
      → cpr_hexdup malloc (to bs) (length bs) ≡ some (written p (hex_text bs ++ (0 ∷ [])))
  unfolding cpr_hexdup
  hexdup_written null e h = ground (arith, size, e)
  hexdup_written (to out) e h =
      let loop = hexdup_loop_lem bs [] [] out i (omega arith) in
      ground
        (arith, size, e, loop, append-nil bs, drop-eq-nil (length bs * 2 + 1) out (omega arith))

  -- `cpr_hexdup` of the bytes of a block writes two lower case digits for each and a terminator,
  -- which fill the memory that it asks `malloc` for, or returns NULL where `malloc` does.
  pub cpr_hexdup_lem :
      cpr_hexdup malloc (to bs) (length bs)
      ≡ some (written (malloc (length bs * 2 + 1)) (hex_text bs ++ (0 ∷ [])))
  cpr_hexdup_lem = hexdup_written _ refl (allocates _)

-- Text that `cpr_hexdup` has made is loaded back by `cpr_hexload`: the bytes return to the start
-- of any output block with room for them, the rest of that block is kept, and the count is their
-- number. Where `malloc` gave no memory for the text, the count is 0 and the output is kept.
pub hexload-hexdup :
    (malloc : Malloc) (bs out : List ℕ)
    → IsMalloc malloc
    → All IsByte bs
    → length bs * 2 + 1 < 2 ^ 64
    → length bs ≤ length out
    → (cpr_hexdup malloc (to bs) (length bs) >>= λ text. cpr_hexload (to out) text (length bs))
      ≡ some (elim (malloc (length bs * 2 + 1)) [
        | null ↦ (0, to out)
        | to _ ↦ (length bs, to (bs ++ drop (length bs) out))
      ])
hexload-hexdup malloc bs out allocates i small room =
    rw (cpr_hexdup_lem malloc allocates bs i small) (loaded (malloc (length bs * 2 + 1)))
  where
    loaded :
        (p : Ptr (List ℕ))
        → cpr_hexload (to out) (written p (hex_text bs ++ (0 ∷ []))) (length bs)
          ≡ some
              (elim p [ null ↦ (0, to out) | to _ ↦ (length bs, to (bs ++ drop (length bs) out)) ])
    loaded null = unfold cpr_hexload in refl
    loaded (to _) = hexload_text bs out i room
