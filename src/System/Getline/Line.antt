-- ===== src/System/Getline/Line.antt =====
-- `getline` reads a line.
use libcpr.Base.{
  ℕ, zero, suc, ◌+◌, ◌^◌, ◌≤◌, ◌<◌, ◌≡◌, refl, sym, ap, ◌∙◌, ◌⊎◌, inl, inr, some, List, [], ◌∷◌,
  ◌++◌, append_assoc, append-nil, arith, length, take, set, length-set, length-take, leb, ◌==◌,
  Bool-cases, lt→ltb, leb→le, Ptr, null, to, store, pos, negsuc, Malloc, IsMalloc, IsBlock, fgets,
}
use libcpr.System.Getline.{
  Realloc, IsRealloc, Read, end_line, line_room, getline_chars, getline, next_size,
}

-- What is left where `bytes` had been read already and `line` and `rest` are the rest of the file:
-- the line behind those bytes, with its terminator, in a block of `*size` bytes; or the block that
-- could not grow.
pub data Ended (realloc : Realloc) (bytes line rest : List ℕ) : Read → Type 0 where
  full_line :
      {block : List ℕ} {n : ℕ}
      → take (n + 1) block ≡ (bytes ++ line) ++ (0 ∷ [])
      → n ≡ length (bytes ++ line)
      → Ended realloc bytes line rest
          (record { lp = to block; size = length block; file = rest; result = pos n })
  no_memory :
      {block old file : List ℕ} {n : ℕ}
      → realloc old n ≡ null
      → Ended realloc bytes line rest
          (record { lp = to block; size = length block; file = file; result = negsuc 0 })

-- A byte stored behind the first `at`.
take-set :
    (block : List ℕ) (at : ℕ) (c : ℕ)
    → at < length block
    → take (at + 1) (set block at c) ≡ take at block ++ (c ∷ [])
take-set [] at c h = absurd (omega arith)
take-set (x ∷ block) zero c h = refl
take-set (x ∷ block) (suc at) c h =
    let more : suc at + 1 ≡ suc (at + 1) = omega arith in
    rw more (ap (λ l. x ∷ l) (take-set block at c (omega arith)))

store_inside :
    (block : List ℕ) (at : ℕ) (c : ℕ) → at < length block → store block at c ≡ some (set block at c)
store_inside block at c h = rw (lt→ltb _ _ h) refl

-- The block after a call of `line_room`.
data Room (realloc : Realloc) (block : List ℕ) (at : ℕ) (room : Ptr (List ℕ × ℕ)) : Type 0 where
  refused : {old : List ℕ} {n : ℕ} → room ≡ null → realloc old n ≡ null → Room realloc block at room
  has_room :
      {moved : List ℕ} {n : ℕ}
      → room ≡ to (moved, n)
      → length moved ≡ n
      → at + 1 < n
      → take at moved ≡ take at block
      → Room realloc block at room

module _ (realloc : Realloc) (resizes : IsRealloc realloc) where
  resized_room :
      (block : List ℕ) (n at : ℕ) (found : Ptr (List ℕ))
      → realloc block n ≡ found
      → at ≤ length block
      → at + 1 < n
      → Room realloc block at (elim found [ null ↦ null | to moved ↦ to (moved, n) ])
  resized_room block n at null e h room = refused refl e
  resized_room block n at (to moved) e h room =
      let (size, kept) = rw e at (resizes block n) in
      has_room refl size room (kept at (omega arith) h)

  line_room_lem :
      (block : List ℕ) (size at : ℕ)
      → length block ≡ size
      → at ≤ size
      → at + 1 < 2 ^ 63
      → Room realloc block at (line_room realloc block size at)
  unfolding line_room
  line_room_lem block size at e h small = elim (Bool-cases (leb size (at + 1))) [
    | inl full ↦
        let l = leb→le _ _ full in
        let grows : at + 1 < next_size size = ground arith in
        rw full (
          resized_room block (next_size size) at (realloc block (next_size size)) refl (omega arith)
            grows)
    | inr enough ↦ rw enough (has_room refl e (ground arith) refl)
  ]

  got-cons :
      (bytes line rest : List ℕ) (c : ℕ) (r : Read)
      → Ended realloc (bytes ++ (c ∷ [])) line rest r
      → Ended realloc bytes (c ∷ line) rest r
  got-cons bytes line rest c _ (full_line text e) =
      full_line (text ∙ ap (λ l. l ++ (0 ∷ [])) (append_assoc bytes (c ∷ []) line))
        (e ∙ ap (λ l. length l) (append_assoc bytes (c ∷ []) line))
  got-cons bytes line rest c _ (no_memory e) = no_memory e

  end_line_lem :
      (block bytes rest : List ℕ) (size at : ℕ)
      → length block ≡ size
      → at < size
      → take at block ≡ bytes
      → (r : Read) × (end_line block size at rest ≡ some r) × Ended realloc bytes [] rest r
  unfolding end_line
  end_line_lem block bytes rest size at e h text =
      let after = set block at 0 in
      let full : length after ≡ size = length-set block at 0 ∙ e in
      let inside : at < length block = omega (arith, e) in
      let short : length bytes ≡ at =
        sym (ap (λ l. length l) text) ∙ omega (arith, length-take at block) in
      let count : at ≡ length (bytes ++ []) = rw (append-nil, short) refl in
      (
        record { lp = to after; size = length after; file = rest; result = pos at },
        rw (store_inside block at 0 inside, full) refl,
        full_line (rw (append-nil, ← text) (take-set block at 0 inside)) count,
      )

  getline_chars_lem :
      (block bytes file : List ℕ) (size at : ℕ)
      → length block ≡ size
      → at ≤ size
      → (file ≡ [] → at < size)
      → at + length file + 1 < 2 ^ 63
      → take at block ≡ bytes
      → (r : Read) × (getline_chars realloc block size at file ≡ some r)
        × Ended realloc bytes (fgets (length file) file).0 (fgets (length file) file).1 r
  unfolding getline_chars fgets
  getline_chars_lem block bytes [] size at e h room small text =
      end_line_lem block bytes [] size at e (room refl) text
  getline_chars_lem block bytes (c ∷ file) size at e h room small text =
      elim (line_room_lem block size at e h (omega arith)) [
        | refused full e' ↦ (
          record { lp = to block; size = length block; file = file; result = negsuc 0 },
          rw (getline_chars, full, e) refl,
          no_memory e',
        )
        | has_room {moved} {n} found whole more kept ↦
            let after = set moved at c in
            let inside : at < length moved = omega (arith, whole) in
            let read : take (at + 1) after ≡ bytes ++ (c ∷ []) =
              rw (take-set moved at c inside, kept, text) refl in
            let full : length after ≡ n = length-set moved at c ∙ whole in
            elim (Bool-cases (c == 10)) [
              | inl newline ↦
                  let (r, ends, got) =
                    end_line_lem after (bytes ++ (c ∷ [])) file n (at + 1) full more read in
                  (
                    r,
                    rw (getline_chars, found, store_inside moved at c inside, newline, ends) refl,
                    rw newline (got-cons bytes _ _ c r got),
                  )
              | inr other ↦
                  let (r, ends, got) =
                    getline_chars_lem after (bytes ++ (c ∷ [])) file n (at + 1) full (omega arith)
                      (λ _. more) (omega arith) read in
                  (
                    r,
                    rw (getline_chars, found, store_inside moved at c inside, other, ends) refl,
                    rw other (got-cons bytes _ _ c r got),
                  )
            ]
      ]

  -- At a file that has bytes left, fewer than 2^63 - 1, with `*lp` NULL or a block of `*size` bytes,
  -- `getline` ends and stores inside its block. It leaves there the bytes up to the next newline or
  -- the end of the file, with a terminator, the rest is left of the file, and it returns how many
  -- they are; or it returns -1 as `malloc` or `realloc` has failed.
  pub getline_lem :
      (malloc : Malloc) (lp : Ptr (List ℕ)) (size c : ℕ) (file : List ℕ)
      → IsMalloc malloc
      → IsBlock size lp
      → length file + 2 < 2 ^ 63
      → (r : Read) × (getline malloc realloc lp size (c ∷ file) ≡ some r)
        × (((malloc 128 ≡ null) × (r.result ≡ negsuc 0))
            ⊎ Ended realloc []
                (fgets (suc (length file)) (c ∷ file)).0
                (fgets (suc (length file)) (c ∷ file)).1
                r)
  unfolding getline
  getline_lem malloc null size c file allocates e small =
      from_block (malloc 128) refl (allocates 128)
    where
      from_block :
          (found : Ptr (List ℕ))
          → malloc 128 ≡ found
          → IsBlock 128 found
          → (r : Read) × (getline malloc realloc null size (c ∷ file) ≡ some r)
            × (((malloc 128 ≡ null) × (r.result ≡ negsuc 0))
                ⊎ Ended realloc []
                    (fgets (suc (length file)) (c ∷ file)).0
                    (fgets (suc (length file)) (c ∷ file)).1
                    r)
      from_block null e f = (
        record { lp = null; size = size; file = file; result = negsuc 0 },
        rw (getline, e) refl,
        inl (e, refl),
      )
      from_block (to block) e f =
          let (r, ends, got) =
            getline_chars_lem block [] (c ∷ file) 128 0 f (omega arith) (λ e. absurd (ground arith))
              (omega arith) refl in
          (r, rw (getline, e) ends, inr got)
  getline_lem malloc (to block) size c file allocates e small =
      let (r, ends, got) =
        getline_chars_lem block [] (c ∷ file) size 0 e (omega arith) (λ e. absurd (ground arith))
          (omega arith) refl in
      (r, ends, inr got)
