-- ===== src/Strchar/Copy.antt =====
-- Copies of a text: `cpr_strcpy`, `cpr_strdup`, `cpr_upper` and `cpr_lower`.
use libcpr.Base.{
  ℕ, zero, suc, ◌+◌, ◌-◌, ◌^◌, ◌≤◌, ◌<◌, min, max, ◌≡◌, refl, ap, ◌∙◌, true, some, List, [], ◌∷◌,
  ◌++◌, append_assoc, map, arith, length, take, drop, get_or, length-append, take_snoc,
  take-append_of_le, length-take, length-drop, drop-eq-nil, leb, ◌==◌, if◌then◌else◌, to, u64,
  store, Malloc, store-append, store-append_at,
}
use libcpr.Memory.{cpr_memcpy}
use libcpr.Strchar.{
  cpr_strlen, cpr_strcpy, cpr_strdup, toupper, tolower, convert_loop, convert, cpr_upper, cpr_lower,
}
use libcpr.Strchar.Length.{IsText, cpr_strlen_lem}

length_terminated : (text rest : List ℕ) → length text < length (text ++ (0 ∷ rest))
length_terminated text rest = omega (arith, length-append text (0 ∷ rest))

-- The last of `suc k` copied characters is overwritten.
overwrite :
    (k : ℕ) (xs m : List ℕ)
    → k < length xs
    → store (take (suc k) xs ++ m) k 0 ≡ some (take k xs ++ (0 ∷ m))
overwrite k xs m h =
    rw (take_snoc k xs 0 h, append_assoc)
      (store-append_at k (take k xs) (get_or xs k 0) m 0 (omega (arith, length-take k xs)))

memcpy_within :
    (m s : List ℕ) (max size : ℕ)
    → size ≤ max
    → size ≤ length m
    → size ≤ length s
    → cpr_memcpy (to m) max (to s) size ≡ some (true, to (take size s ++ drop size m))
unfolding cpr_memcpy
memcpy_within m s max size h hm hs = ground arith

strcpy_sized :
    (s m : List ℕ) (max len size : ℕ)
    → cpr_strlen (to s) max ≡ some len
    → size ≡ min len max
    → size ≤ length m
    → len ≤ length s
    → cpr_strcpy (to m) (to s) max
      ≡ some (to (if size == 0 then m else take (size - 1) s ++ (0 ∷ drop size m)))
unfolding cpr_strcpy
strcpy_sized s m max len zero known e hm hs =
    let clipped : (if leb max len then max else len) ≡ 0 = ground arith in
    ground (arith, known, clipped, memcpy_within m s max 0 (omega arith) hm (omega arith))
strcpy_sized s m max len (suc k) known e hm hs =
    let clipped : (if leb max len then max else len) ≡ suc k = ground arith in
    let pred_k : suc k - 1 ≡ k = omega arith in
    ground (
      arith,
      known,
      clipped,
      memcpy_within m s max (suc k) (omega arith) hm (omega arith),
      pred_k,
      overwrite k s (drop (suc k) m) (omega arith),
    )

-- `cpr_strcpy` of a text to memory with room for `n` bytes, where `n` is the length of the text
-- but at most `max`: the first `n - 1` characters arrive, a terminator follows them in place of the
-- last one, and the memory behind is kept; for `n` zero nothing is written.
pub cpr_strcpy_lem :
    (text rest m : List ℕ) (max : ℕ)
    → IsText text
    → min (length text) max ≤ length m
    → cpr_strcpy (to m) (to (text ++ (0 ∷ rest))) max
      ≡ some (
          to (
            if min (length text) max == 0
            then m
            else take (min (length text) max - 1) text ++ (0 ∷ drop (min (length text) max) m)))
cpr_strcpy_lem text rest m max i h =
    strcpy_sized (text ++ (0 ∷ rest)) m max (min (length text) (if max == 0 then 1 else max))
      (min (length text) max) (cpr_strlen_lem text rest max i) (ground arith) h
      (omega (arith, length_terminated text rest))
    ∙ ap
        (λ t. some (
          to (if min (length text) max == 0 then m else t ++ (0 ∷ drop (min (length text) max) m))))
        (take-append_of_le (min (length text) max - 1) text (0 ∷ rest) (omega arith))

-- What the converting loop does, with `f` for `toupper` or `tolower`.
convert_loop_lem :
    (f : ℕ → ℕ) (size : ℕ) (s pre mid : List ℕ)
    → size ≤ length s
    → size < length mid
    → convert_loop f size s (length pre) (pre ++ mid)
      ≡ some (pre ++ (map f (take size s) ++ (0 ∷ drop (size + 1) mid)))
unfolding convert_loop
convert_loop_lem f zero s pre [] h l = absurd (omega arith)
convert_loop_lem f zero s pre (x ∷ mid) h l = store-append pre x mid 0
convert_loop_lem f (suc size) [] pre mid h l = absurd (omega arith)
convert_loop_lem f (suc size) (c ∷ s) pre [] h l = absurd (omega arith)
convert_loop_lem f (suc size) (c ∷ s) pre (x ∷ mid) h l =
    let next : length pre + 1 ≡ length (pre ++ (f c ∷ [])) =
      omega (arith, length-append pre (f c ∷ [])) in
    let e : suc size + 1 ≡ suc (size + 1) = omega arith in
    rw
      (
        store-append pre x mid (f c),
        next,
        ← append_assoc pre (f c ∷ []) mid,
        convert_loop_lem f size s (pre ++ (f c ∷ [])) mid (omega arith) (omega arith),
        append_assoc,
        e,
      )
      refl

-- The last byte of the new block takes the terminator.
terminate :
    (n : ℕ) (s d : List ℕ)
    → n ≤ length s
    → length d ≡ 1
    → store (take n s ++ d) n 0 ≡ some (take n s ++ (0 ∷ []))
terminate n s [] h l = absurd (omega arith)
terminate n s (y ∷ []) h l = store-append_at n (take n s) y [] 0 (omega (arith, length-take n s))
terminate n s (y ∷ z ∷ d) h l = absurd (omega arith)

module _ (malloc : Malloc) (text rest block : List ℕ) (max n : ℕ) (i : IsText text)
    (length_is : n ≡ min (length text) (if max == 0 then 1 else max)) (small : n + 1 < 2 ^ 64)
    (got : malloc (n + 1) ≡ to block) (size : length block ≡ n + 1) where
  known : cpr_strlen (to (text ++ (0 ∷ rest))) max ≡ some n
  known = rw length_is (cpr_strlen_lem text rest max i)

  taken : take n (text ++ (0 ∷ rest)) ≡ take n text
  taken = take-append_of_le n text (0 ∷ rest) (omega arith)

  convert_lem :
      (f : ℕ → ℕ)
      → convert f malloc (to (text ++ (0 ∷ rest))) max ≡ some (to (map f (take n text) ++ (0 ∷ [])))
  convert_lem f =
      let asked : u64 (n + 1) ≡ n + 1 = omega arith in
      unfold convert in
      rw
        (
          known,
          asked,
          got,
          convert_loop_lem f n (text ++ (0 ∷ rest)) [] block
              (omega (arith, length_terminated text rest)) (omega arith),
          taken,
          drop-eq-nil (n + 1) block (omega arith),
        )
        refl

  -- `cpr_upper` and `cpr_lower` give new text of the same length as the given one, but at most
  -- `max` long (1 where `max` is 0), with each character converted, where the allocation succeeds.
  pub cpr_upper_lower :
      (cpr_upper malloc (to (text ++ (0 ∷ rest))) max
        ≡ some (to (map toupper (take n text) ++ (0 ∷ []))))
      × (cpr_lower malloc (to (text ++ (0 ∷ rest))) max
          ≡ some (to (map tolower (take n text) ++ (0 ∷ []))))
  cpr_upper_lower =
      ((unfold cpr_upper in convert_lem toupper), (unfold cpr_lower in convert_lem tolower))

  -- `cpr_strdup` gives a copy of the text, cut at `max` characters (1 where `max` is 0), where the
  -- allocation succeeds.
  pub cpr_strdup_lem :
      cpr_strdup malloc (to (text ++ (0 ∷ rest))) max ≡ some (to (take n text ++ (0 ∷ [])))
  cpr_strdup_lem =
      let asked : u64 (n + 1) ≡ n + 1 = omega arith in
      let whole : n ≤ length (text ++ (0 ∷ rest)) = omega (arith, length_terminated text rest) in
      unfold cpr_strdup in
      ground (
        arith,
        known,
        asked,
        got,
        taken,
        terminate n (text ++ (0 ∷ rest)) (drop n block) whole (omega (arith, length-drop n block)),
      )
