-- ===== src/System/Getline.antt =====
-- `getline` of src/system.c, which it brings to Windows; `lp`, `size` and `fp` are not NULL. `getc`
-- takes the first byte of the file, which is the list of the bytes that are left of it.
pub mod Line
use libcpr.Base.{
  ℕ, ◌+◌, ◌≤◌, ◌≡◌, true, false, Option, some, List, [], ◌∷◌, length, take, ltb, leb, ◌==◌,
  if◌then◌else◌, Ptr, null, to, u64, store, ℤ, pos, negsuc, Malloc, ◌>>=◌, ◌>>>◌, fgets,
}

-- `realloc` of the C library: NULL, or a block of the size asked for, which starts with the bytes of
-- the old one as far as both go.
abbrev pub Realloc : Type 0
Realloc = List ℕ → ℕ → Ptr (List ℕ)

abbrev Resized : List ℕ → ℕ → Ptr (List ℕ) → Type 0
Resized block size null = Unit
Resized block size (to moved) =
    (length moved ≡ size) × ((k : ℕ) → k ≤ size → k ≤ length block → take k moved ≡ take k block)

abbrev pub IsRealloc : Realloc → Type 0
IsRealloc realloc = (block : List ℕ) (size : ℕ) → Resized block size (realloc block size)

-- `*lp`, `*size` and the rest of the file after the call, and what it returns.
pub record Read : Type 0 where
  pub lp : Ptr (List ℕ)
  pub size : ℕ
  pub file : List ℕ
  pub result : ℤ

-- The end of a line: the terminator is stored at `pos`.
unfoldable pub end_line : List ℕ → ℕ → ℕ → List ℕ → Option Read
end_line block size at file = do
  block ← store block at 0
  some (record { lp = to block; size = size; file = file; result = pos at })

-- The size that a full block is given.
abbrev pub next_size : ℕ → ℕ
next_size size = let size = u64 (size + (size >>> 2)) in if ltb size 128 then 128 else size

module _ (realloc : Realloc) where
  -- The block with room for a byte at `pos` and a terminator, and its size.
  unfoldable pub line_room : List ℕ → ℕ → ℕ → Ptr (List ℕ × ℕ)
  line_room block size at =
      if leb size (at + 1)
      then elim (realloc block (next_size size)) [
        | null ↦ null
        | to block ↦ to (block, next_size size)
      ]
      else to (block, size)

  -- The loop, where `c` is the first byte of the file.
  unfoldable pub getline_chars : List ℕ → ℕ → ℕ → List ℕ → Option Read
  getline_chars block size at [] = end_line block size at []
  getline_chars block size at (c ∷ file) = elim (line_room block size at) [
    | null ↦ some (record { lp = to block; size = size; file = file; result = negsuc 0 })
    | to room ↦ (do
      block ← store room.0 at c
      elim (c == b'\n') [
        | true ↦ end_line block room.1 (at + 1) file
        | false ↦ getline_chars block room.1 (at + 1) file
      ])
  ]

-- `getline`.
unfoldable pub getline : Malloc → Realloc → Ptr (List ℕ) → ℕ → List ℕ → Option Read
getline malloc realloc lp size [] =
    some (record { lp = lp; size = size; file = []; result = negsuc 0 })
getline malloc realloc null size (c ∷ file) = elim (malloc 128) [
  | null ↦ some (record { lp = null; size = size; file = file; result = negsuc 0 })
  | to block ↦ getline_chars realloc block 128 0 (c ∷ file)
]
getline malloc realloc (to block) size (c ∷ file) = getline_chars realloc block size 0 (c ∷ file)
